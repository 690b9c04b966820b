-- ===== src/Store/Gauge/Guard.antt =====
-- What the guard of a debit says: a debit that goes through had its money, and one that finds no row
-- had not.
use mathlib.Core.Option.{some-injective}
use offline_pay.Base.{
  ◌≡◌, refl, sym, ap, inl, inr, Bool, true, false, some, List, [], ◌∷◌, arith, ◌==◌, Bool-cases,
  find, is_some, ==_refl,
}
use offline_pay.Base.Int.{ℤ, leb_ℤ}
use offline_pay.Domain.Tokens.{Ident}
use offline_pay.Store.Rows.{Account}
use offline_pay.Store.Monad.{World, Error, err, ok, no_rows, Done, fail, looking, modify, world_of}
use offline_pay.Store.Accounts.{
  Adjusted, missing, violated, written, behind, adjust, adjust_row, store_accounts, debit_account,
}
use offline_pay.Store.Gauge.Instances.{balance_of}
use offline_pay.Store.Gauge.Rules.{Undone}

module _ (guard : ℤ → Bool) (f : ℤ → ℤ) (id : Ident) where
  adjust_row-guard :
      (a : Account) (rest xs' : List Account)
      → adjust_row guard f a rest ≡ written xs'
      → guard a.balance ≡ true
  unfolding adjust_row
  adjust_row-guard a rest xs' e = ground arith

  adjust_row-missing :
      (a : Account) (rest : List Account)
      → adjust_row guard f a rest ≡ missing
      → guard a.balance ≡ false
  unfolding adjust_row
  adjust_row-missing a rest e = ground arith

  behind-written :
      (a : Account) (r : Adjusted) (xs' : List Account)
      → behind a r ≡ written xs'
      → (rest' : List Account) × (r ≡ written rest')
  behind-written a (written rest') xs' e = (rest', refl)
  behind-written a missing xs' e = cc
  behind-written a violated xs' e = cc

  behind-missing : (a : Account) (r : Adjusted) → behind a r ≡ missing → r ≡ missing
  behind-missing a (written rest') e = cc
  behind-missing a missing e = refl
  behind-missing a violated e = cc

  pub adjust-guard :
      (xs xs' : List Account) → adjust guard f id xs ≡ written xs' → guard (balance_of id xs) ≡ true
  unfolding adjust balance_of
  adjust-guard [] xs' e = cc
  adjust-guard (a ∷ rest) xs' e = elim (Bool-cases (a.id == id)) [
    | inl same ↦ rw same (adjust_row-guard a rest xs' (rw same at e))
    | inr other ↦
        let r = behind-written a _ xs' (rw other at e) in rw other (adjust-guard rest r.0 r.1)
  ]

  pub adjust-missing :
      (xs : List Account)
      → is_some (find (λ a. a.id == id) xs) ≡ true
      → adjust guard f id xs ≡ missing
      → guard (balance_of id xs) ≡ false
  unfolding adjust balance_of
  adjust-missing [] p e = cc
  adjust-missing (a ∷ rest) p e = elim (Bool-cases (a.id == id)) [
    | inl same ↦ rw same (adjust_row-missing a rest (rw same at e))
    | inr other ↦
        rw other (adjust-missing rest (rw other at p) (behind-missing a _ (rw other at e)))
  ]

-- A row that a search finds has its id in the table.
pub find-present :
    (p : Account → Bool) (xs : List Account) {a : Account}
    → find p xs ≡ some a
    → is_some (find (λ b. b.id == a.id) xs) ≡ true
find-present p [] e = cc
find-present p (b ∷ xs) {a} e = elim (Bool-cases (p b)) [
  | inl here' ↦ found (some-injective b a (rw here' at e))
  | inr there' ↦ deeper (find-present p xs (rw there' at e))
]
  where
    found : b ≡ a → is_some (find (λ c. c.id == a.id) (b ∷ xs)) ≡ true
    found q = rw (q, ==_refl a.id) refl

    deeper :
        is_some (find (λ c. c.id == a.id) xs) ≡ true
        → is_some (find (λ c. c.id == a.id) (b ∷ xs)) ≡ true
    deeper h = elim (Bool-cases (b.id == a.id)) [ inl y ↦ rw y refl | inr n ↦ rw n h ]

-- How `store_accounts` ends.
stored-err :
    (r : Adjusted) (w v : World) (e : Error)
    → store_accounts r w ≡ err e v
    → (v ≡ w) × ((e ≡ no_rows) → (r ≡ missing))
unfolding fail modify
stored-err missing w v e h = (sym (ap world_of h), λ _. refl)
stored-err violated w v e h = (sym (ap world_of h), λ q. cc)
stored-err (written xs) w v e h = cc

module _ (id : Ident) (x : ℤ) where
  pub debit-Undone : Undone (debit_account id x)
  unfolding debit_account looking
  debit-Undone w v e h = (stored-err _ w v e h).0

  -- No row for a debit of an account that there is: too little money.
  pub debit-short :
      (w v : World)
      → is_some (find (λ a. a.id == id) w.db.accounts) ≡ true
      → debit_account id x w ≡ err no_rows v
      → leb_ℤ x (balance_of id w.db.accounts) ≡ false
  unfolding debit_account looking
  debit-short w v p h =
      adjust-missing (leb_ℤ x) _ id w.db.accounts p ((stored-err _ w v no_rows h).1 refl)

stored-ok :
    (r : Adjusted) (w v : World) (u : Done)
    → store_accounts r w ≡ ok u v
    → (xs : List Account) × (r ≡ written xs)
unfolding fail modify
stored-ok missing w v u h = cc
stored-ok violated w v u h = cc
stored-ok (written xs) w v u h = (xs, refl)

-- A debit that went through had the money.
pub debit-had :
    (id : Ident) (x : ℤ) (w v : World) (u : Done)
    → debit_account id x w ≡ ok u v
    → leb_ℤ x (balance_of id w.db.accounts) ≡ true
unfolding debit_account looking
debit-had id x w v u h =
    let r = stored-ok _ w v u h in adjust-guard (leb_ℤ x) _ id w.db.accounts r.0 r.1
