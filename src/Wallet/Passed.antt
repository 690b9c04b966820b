-- ===== src/Wallet/Passed.antt =====
-- The one error that `Refresh` (wallet/service.go) passes over: no call of `releaseCeiling` raises
-- it, so where the drain ends with it the database is still as it was.
use offline_pay.Base.{
  ℕ, ◌≡◌, refl, ◌∙◌, Bool, true, false, Option, none, some, List, [], ◌∷◌, arith,
}
use offline_pay.Base.Int.{ℤ, pos}
use offline_pay.Domain.Status.{CeilingStatus, TransactionKind}
use offline_pay.Domain.Tokens.{Ident, CeilingToken}
use offline_pay.Store.Rows.{Db, AccountKind, TransactionRow}
use offline_pay.Store.Monad.{
  World, Outcome, ok, err, M, Done, Error, no_active_ceiling, check_violation, pure, fail, read,
  one, row_or_error, continue, world_of, ◌>>=◌, fail_if, looking, branch, modify, new_id,
  foreign_key_violation, txn_id_required, two_legs_required,
}
use offline_pay.Store.Accounts.{
  Adjusted, missing, violated, written, store_accounts, debit_account, credit_account, LedgerLeg,
  insert_ledger_entry, insert_legs, post_ledger, get_account_id,
}
use offline_pay.Store.Ceilings.{update_ceiling_status, sum_settled_for_ceiling}
use offline_pay.Store.Transactions.{record_transaction}
use offline_pay.Store.Gauge.{Gauge, reading, ShiftsTo, Shifts, Steady}
use offline_pay.Store.Gauge.Rules.{add_neutral}
use offline_pay.Wallet.Types.{Service}
use offline_pay.Wallet.Fund.{move}
use offline_pay.Wallet.Release.{pass_over, drained_or_none, return_lien, release_ceiling}

abbrev is_passed : Error → Bool
is_passed no_active_ceiling = true
is_passed _ = false

abbrev raises : {A : Type 0} → Outcome A → Bool
raises (ok _ _) = false
raises (err e _) = is_passed e

pub record Avoids {A : Type 0} (m : M A) : Type 0 where
  pub avoids : (w : World) → raises (m w) ≡ false

continue-Avoids :
    {A B : Type 0} (r : Outcome A) (f : A → M B)
    → raises r ≡ false
    → ((a : A) → Avoids (f a))
    → raises (continue f r) ≡ false
continue-Avoids (ok a w) f h k = (k a).avoids w
continue-Avoids (err e w) f h k = h

and_then :
    {A B : Type 0} {m : M A} {f : A → M B} → Avoids m → ((a : A) → Avoids (f a)) → Avoids (m >>= f)
unfolding ◌>>=◌
and_then {m = m} {f = f} h k = record { avoids = λ w. continue-Avoids (m w) f (h.avoids w) k }

pure-Avoids : {A : Type 0} (a : A) → Avoids (pure a)
unfolding pure
pure-Avoids a = record { avoids = λ w. refl }

read-Avoids : {A : Type 0} (f : Db → A) → Avoids (read f)
unfolding read
read-Avoids f = record { avoids = λ w. refl }

row-Avoids : {A : Type 0} (w : World) (o : Option A) → raises (row_or_error o w) ≡ false
row-Avoids w none = refl
row-Avoids w (some a) = refl

one-Avoids : {A : Type 0} (f : Db → Option A) → Avoids (one f)
unfolding one
one-Avoids f = record { avoids = λ w. row-Avoids w (f w.db) }

fail_if-Avoids : (b : Bool) (e : Error) → is_passed e ≡ false → Avoids (fail_if b e)
unfolding fail_if
fail_if-Avoids true e h = record { avoids = λ w. h }
fail_if-Avoids false e h = record { avoids = λ w. refl }

looking-Avoids : {A : Type 0} {f : Db → M A} → ((db : Db) → Avoids (f db)) → Avoids (looking f)
unfolding looking
looking-Avoids h = record { avoids = λ w. (h w.db).avoids w }

branch-Avoids : {A : Type 0} (b : Bool) {m k : M A} → Avoids m → Avoids k → Avoids (branch b m k)
unfolding branch
branch-Avoids true h k = h
branch-Avoids false h k = k

modify-Avoids : (f : Db → Db) → Avoids (modify f)
unfolding modify
modify-Avoids f = record { avoids = λ w. refl }

new_id-Avoids : (supply : ℕ → Ident) → Avoids (new_id supply)
unfolding new_id
new_id-Avoids supply = record { avoids = λ w. refl }

store-Avoids : (r : Adjusted) → Avoids (store_accounts r)
unfolding fail
store-Avoids missing = record { avoids = λ w. refl }
store-Avoids violated = record { avoids = λ w. refl }
store-Avoids (written xs) = modify-Avoids _

insert_legs-Avoids : (t : Ident) (legs : List LedgerLeg) → Avoids (insert_legs t legs)
unfolding insert_legs insert_ledger_entry
insert_legs-Avoids t [] = pure-Avoids _
insert_legs-Avoids t (leg ∷ legs) =
    and_then
      (looking-Avoids λ db. and_then (fail_if-Avoids _ check_violation refl) λ _.
        and_then (fail_if-Avoids _ foreign_key_violation refl)
          λ _. and_then (fail_if-Avoids _ foreign_key_violation refl) λ _. modify-Avoids _)
      (λ _. insert_legs-Avoids t legs)

record_transaction-Avoids : (t : TransactionRow) → Avoids (record_transaction t)
unfolding record_transaction
record_transaction-Avoids t = looking-Avoids λ db.
    and_then (fail_if-Avoids _ _ refl) λ _. and_then (fail_if-Avoids _ _ refl) λ _. modify-Avoids _

post_ledger-Avoids : (t : Ident) (legs : List LedgerLeg) → Avoids (post_ledger t legs)
unfolding post_ledger
post_ledger-Avoids t legs =
    and_then (fail_if-Avoids _ txn_id_required refl)
      λ _. and_then (fail_if-Avoids _ two_legs_required refl) λ _. insert_legs-Avoids t legs

move-Avoids : (row : TransactionRow) (from to : Ident) (x : ℤ) → Avoids (move row from to x)
unfolding move debit_account credit_account
move-Avoids row from to x = and_then (record_transaction-Avoids row) λ _.
    and_then (post_ledger-Avoids _ _)
      λ _. and_then (looking-Avoids λ db. store-Avoids _) λ _. looking-Avoids λ db. store-Avoids _

account_id-Avoids : (u : Ident) (k : AccountKind) → Avoids (get_account_id u k)
unfolding get_account_id
account_id-Avoids u k = and_then (one-Avoids _) λ _. pure-Avoids _

status-Avoids : (id : Ident) (t : CeilingStatus) → Avoids (update_ceiling_status id t)
unfolding update_ceiling_status
status-Avoids id t = modify-Avoids _

return_lien-Avoids :
    (s : Service) (u : Ident) (c : CeilingToken) (t : CeilingStatus) (k : TransactionKind) (x : ℤ)
    → Avoids (return_lien s u c t k x)
unfolding return_lien
return_lien-Avoids s u c t k x = and_then (account_id-Avoids _ _) λ _.
    and_then (account_id-Avoids _ _)
      λ _. and_then (new_id-Avoids _) λ _. and_then (move-Avoids _ _ _ _) λ _. status-Avoids _ _

-- A release never ends with the error for a missing active ceiling.
pub release_ceiling-Avoids :
    (s : Service) (u : Ident) (c : CeilingToken) (t : CeilingStatus) (k : TransactionKind)
    → Avoids (release_ceiling s u c t k)
unfolding release_ceiling sum_settled_for_ceiling
release_ceiling-Avoids s u c t k =
    and_then (and_then (read-Avoids _) λ _. and_then (fail_if-Avoids _ _ refl) λ _. pure-Avoids _)
      λ settled. branch-Avoids _ (status-Avoids _ _) (return_lien-Avoids s u c t k _)

module _ (g : Gauge) where
  early_error :
      (w w' : World) (e : Error)
      → reading g w'.db ≡ reading g w.db
      → ShiftsTo g (pos 0) w (pass_over (err e w'))
  early_error w w' no_active_ceiling h = h ∙ add_neutral _
  early_error w w' _ h = tt

  late_error :
      (w w' : World) (e : Error) → is_passed e ≡ false → ShiftsTo g (pos 0) w (pass_over (err e w'))
  late_error w w' no_active_ceiling h = grind arith
  late_error w w' _ h = tt

  passed :
      {A : Type 0} (w : World) (r : Outcome A) (f : A → M Done)
      → reading g (world_of r).db ≡ reading g w.db
      → ((a : A) → Shifts g (pos 0) (f a))
      → ((a : A) → Avoids (f a))
      → ShiftsTo g (pos 0) w (pass_over (continue f r))
  passed w (err e w') f h k v = early_error w w' e h
  passed w (ok a w') f h k v = after (f a w') ((k a).shift w') ((v a).avoids w')
    where
      after :
          (r : Outcome Done)
          → ShiftsTo g (pos 0) w' r
          → raises r ≡ false
          → ShiftsTo g (pos 0) w (pass_over r)
      after (ok _ w'') p q = rw h at p
      after (err e w'') p q = late_error w w'' e q

  -- What reads first, and then avoids the error, moves nothing when the error is passed over.
  pub Shifts-drained :
      {A : Type 0} {m : M A} {f : A → M Done}
      → Steady g m
      → ((a : A) → Shifts g (pos 0) (f a))
      → ((a : A) → Avoids (f a))
      → Shifts g (pos 0) (drained_or_none (m >>= f))
  unfolding drained_or_none ◌>>=◌
  Shifts-drained {m = m} {f = f} h k v = record { shift = λ w. passed w (m w) f (h.kept w) k v }
