-- ===== src/Store/Accounts/Hit.antt =====
-- An UPDATE of a balance that goes through has hit one row, and nothing but its balance changes.
use offline_pay.Base.{
  ◌≡◌, refl, inl, inr, Bool, false, List, [], ◌∷◌, arith, Bool-cases, ◌==◌, ==→eq,
}
use offline_pay.Base.Int.{ℤ}
use offline_pay.Domain.Tokens.{Ident}
use offline_pay.Store.Rows.{Account}
use offline_pay.Store.Accounts.{Adjusted, missing, violated, written, behind, adjust, adjust_row}

pub data Hit (f : ℤ → ℤ) (id : Ident) : List Account → List Account → Type 0 where
  here :
      {a : Account} {rest : List Account}
      → a.id ≡ id
      → Hit f id (a ∷ rest) (record a { balance = f a.balance } ∷ rest)
  there :
      {a : Account} {rest rest' : List Account}
      → (a.id == id) ≡ false
      → Hit f id rest rest'
      → Hit f id (a ∷ rest) (a ∷ rest')

adjust_row-written :
    (guard : ℤ → Bool) (f : ℤ → ℤ) (a : Account) (rest xs' : List Account)
    → adjust_row guard f a rest ≡ written xs'
    → xs' ≡ record a { balance = f a.balance } ∷ rest
unfolding adjust_row
adjust_row-written guard f a rest xs' e = ground arith

behind-written :
    (a : Account) (r : Adjusted) (xs' : List Account)
    → behind a r ≡ written xs'
    → (rest' : List Account) × (r ≡ written rest') × (xs' ≡ a ∷ rest')
behind-written a (written rest') xs' e = (rest', refl, ground arith)
behind-written a missing xs' e = cc
behind-written a violated xs' e = cc

pub adjust-Hit :
    (guard : ℤ → Bool) (f : ℤ → ℤ) (id : Ident) (xs xs' : List Account)
    → adjust guard f id xs ≡ written xs'
    → Hit f id xs xs'
unfolding adjust
adjust-Hit guard f id [] xs' e = cc
adjust-Hit guard f id (a ∷ rest) xs' e = elim (Bool-cases (a.id == id)) [
  | inl same ↦ rw (adjust_row-written guard f a rest xs' (rw same at e)) (here (==→eq a.id id same))
  | inr other ↦ deeper other (behind-written a _ xs' (rw other at e)) (adjust-Hit guard f id rest)
]
  where
    deeper :
        (a.id == id) ≡ false
        → (rest' : List Account) × (adjust guard f id rest ≡ written rest') × (xs' ≡ a ∷ rest')
        → ((ys : List Account) → adjust guard f id rest ≡ written ys → Hit f id rest ys)
        → Hit f id (a ∷ rest) xs'
    deeper other (rest', q, p) ih = rw p (there other (ih rest' q))
