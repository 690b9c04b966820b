-- ===== src/Store/Keeps/Ids.antt =====
-- The updates of balances keep the ids of the accounts.
use offline_pay.Base.{
  ◌≡◌, refl, ap, inl, inr, true, List, [], ◌∷◌, ◌==◌, map, find, is_some, Bool-cases,
}
use offline_pay.Base.Int.{ℤ, ◌+ℤ◌}
use offline_pay.Domain.Tokens.{Ident}
use offline_pay.Store.Rows.{Db, Account}
use offline_pay.Store.Monad.{World, world_of, fail, modify, looking}
use offline_pay.Store.Accounts.{
  Adjusted, missing, violated, written, store_accounts, debit_account, credit_account,
}
use offline_pay.Store.Accounts.Hit.{Hit, here, there, adjust-Hit}
use offline_pay.Store.Keeps.{Keeps}

abbrev pub ids : List Account → List Ident
ids xs = map (λ a. a.id) xs

abbrev pub ids_of : Db → List Ident
ids_of db = ids db.accounts

Hit-ids : (f : ℤ → ℤ) (id : Ident) (xs ys : List Account) → Hit f id xs ys → ids ys ≡ ids xs
Hit-ids f id _ _ (here _) = refl
Hit-ids f id _ _ (there {a = a} _ h) = ap (λ js. a.id ∷ js) (Hit-ids f id _ _ h)

stored-ids :
    (w : World) (r : Adjusted)
    → ((ys : List Account) → r ≡ written ys → ids ys ≡ ids w.db.accounts)
    → ids_of (world_of (store_accounts r w)).db ≡ ids_of w.db
unfolding fail modify
stored-ids w missing h = refl
stored-ids w violated h = refl
stored-ids w (written ys) h = h ys refl

pub Keeps-ids-debit : (id : Ident) (x : ℤ) → Keeps ids_of (debit_account id x)
unfolding debit_account looking
Keeps-ids-debit id x = record {
  kept = λ w. stored-ids w _ λ ys e. Hit-ids _ id _ ys (adjust-Hit _ _ id _ ys e);
}

pub Keeps-ids-credit : (id : Ident) (x : ℤ) → Keeps ids_of (credit_account id x)
unfolding credit_account looking
Keeps-ids-credit id x = record {
  kept = λ w.
      stored-ids w _
        λ ys e. Hit-ids (λ b. b +ℤ x) id _ ys (adjust-Hit (λ b. true) (λ b. b +ℤ x) id _ ys e);
}

-- Whether there is an account with an id depends on the ids alone.
pub present-ids :
    (id : Ident) (xs : List Account)
    → is_some (find (λ a. a.id == id) xs) ≡ is_some (find (λ j. j == id) (ids xs))
present-ids id [] = refl
present-ids id (a ∷ xs) = elim (Bool-cases (a.id == id)) [
  | inl same ↦ rw same refl
  | inr other ↦ rw other (present-ids id xs)
]
