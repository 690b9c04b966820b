-- ===== src/Store/Gauge.antt =====
-- A gauge is a number read off the balances and the ledger, such as the money in all accounts, with
-- how much a credit, a debit and a ledger leg move it. `Shifts g d m` says that a call `m`, where it
-- succeeds, moves the gauge by `d`; the rules below give the shift of a do block from those of its
-- steps. `Steady g m` says that `m` leaves the gauge alone, however it ends.
pub mod Rules
pub mod Writes
pub mod Tables
pub mod Instances
pub mod Conserved
pub mod Guard
use offline_pay.Base.{
  ℕ, ◌≡◌, refl, sym, ap, ◌∙◌, inl, inr, Bool, true, false, Option, none, some, List, [], ◌∷◌, arith,
  Bool-cases,
}
use offline_pay.Base.Int.{ℤ, pos, ◌+ℤ◌, ◌-ℤ◌, leb_ℤ, int_laws}
use offline_pay.Domain.Status.{Direction, debit, credit}
use offline_pay.Domain.Tokens.{Ident, Time}
use offline_pay.Store.Rows.{Db, Account, LedgerEntry}
use offline_pay.Store.Monad.{
  World, Outcome, ok, err, M, Done, Error, Signal, pure, fail, read, one, continue, ◌>>=◌, ◌>>◌,
  fail_if, when, modify, emit, new_id, now, world_of, end_tx, tx, ledger_balanced,
}
use offline_pay.Store.Accounts.{
  Adjusted, missing, violated, written, adjust, store_accounts, debit_account, force_debit_account,
  credit_account, LedgerLeg, insert_ledger_entry, insert_legs, post_ledger,
}
use offline_pay.Store.Keeps.{Keeps}

pub record Gauge : Type 0 where
  pub value : List Account → List LedgerEntry → ℤ
  pub weight : Ident → ℤ → ℤ
  pub leg_weight : Ident → Ident → ℤ → ℤ
  pub credited :
      (guard : ℤ → Bool) (id : Ident) (x : ℤ) (xs xs' : List Account) (es : List LedgerEntry)
      → adjust guard (λ b. b +ℤ x) id xs ≡ written xs'
      → value xs' es ≡ value xs es +ℤ weight id x
  pub debited :
      (guard : ℤ → Bool) (id : Ident) (x : ℤ) (xs xs' : List Account) (es : List LedgerEntry)
      → adjust guard (λ b. b -ℤ x) id xs ≡ written xs'
      → value xs' es ≡ value xs es -ℤ weight id x
  pub debit_leg :
      (xs : List Account) (es : List LedgerEntry) (t id : Ident) (x : ℤ)
      → value xs (record { txn_id = t; account_id = id; direction = debit; amount = x } ∷ es)
        ≡ value xs es +ℤ leg_weight t id x
  pub credit_leg :
      (xs : List Account) (es : List LedgerEntry) (t id : Ident) (x : ℤ)
      → value xs (record { txn_id = t; account_id = id; direction = credit; amount = x } ∷ es)
        ≡ value xs es -ℤ leg_weight t id x

-- A leg and the balance update that it documents move a level gauge alike on every account.
pub record Level (g : Gauge) : Type 0 where
  pub level :
      (t a b : Ident) (x : ℤ)
      → g.weight a x +ℤ g.leg_weight t b x ≡ g.weight b x +ℤ g.leg_weight t a x

module _ (g : Gauge) where
  abbrev pub reading : Db → ℤ
  reading db = g.value db.accounts db.ledger

  abbrev pub ShiftsTo : {A : Type 0} → ℤ → World → Outcome A → Type 0
  ShiftsTo d w (ok a w') = reading w'.db ≡ reading w.db +ℤ d
  ShiftsTo d w (err e w') = Unit {0}

  pub record Shifts {A : Type 0} (d : ℤ) (m : M A) : Type 0 where
    pub shift : (w : World) → ShiftsTo d w (m w)

  abbrev pub Steady : {A : Type 0} → M A → Type 0
  Steady m = Keeps reading m
