-- ===== src/Store/Accounts/Update.antt =====
-- An UPDATE of one balance that succeeds, and the rows that are found after it.
use mathlib.Core.Option.{some-injective}
use offline_pay.Base.{
  ◌≡◌, refl, sym, ap, inl, inr, Bool, true, false, Bool-cases, ◌&&◌, ◌||◌, some, List, [], ◌∷◌,
  arith, ◌==◌, find, if◌then◌else◌, subst,
}
use offline_pay.Base.Int.{ℤ, pos, leb_ℤ, fits_int64}
use offline_pay.Domain.Tokens.{Ident}
use offline_pay.Store.Rows.{Account}
use offline_pay.Store.Accounts.{written, adjust, adjust_row, is_suspense}

either : {A : Type 0} {x : A} (y : A) (b : Bool) → (if (b || true) && true then x else y) ≡ x
either y true = refl
either y false = refl

not_both : (a b c : Ident) → (a == c) ≡ true → (b == c) ≡ false → (a == b) ≡ false
not_both a b c h k = ground arith

module _ (guard : ℤ → Bool) (f : ℤ → ℤ) (id : Ident) where
  -- The row of `id` was written, and every other row is found as before.
  abbrev pub Written : List Account → Type 0
  Written xs =
      (xs' : List Account) × (adjust guard f id xs ≡ written xs')
      × ((other : Ident)
          → (other == id) ≡ false
          → find (λ x. x.id == other) xs' ≡ find (λ x. x.id == other) xs)

  row-Written :
      (a : Account) (rest : List Account)
      → (a.id == id) ≡ true
      → guard a.balance ≡ true
      → leb_ℤ (pos 0) (f a.balance) ≡ true
      → fits_int64 (f a.balance) ≡ true
      → Written (a ∷ rest)
  unfolding adjust adjust_row
  row-Written a rest same g p q = (
    record a { balance = f a.balance } ∷ rest,
    rw (same, g, p, q) (either _ (is_suspense a.kind)),
    λ other k. rw (not_both a.id other id same k) refl,
  )

  pub adjust-Written :
      (xs : List Account) (a : Account)
      → find (λ x. x.id == id) xs ≡ some a
      → guard a.balance ≡ true
      → leb_ℤ (pos 0) (f a.balance) ≡ true
      → fits_int64 (f a.balance) ≡ true
      → Written xs
  unfolding adjust
  adjust-Written [] a e g p q = ground arith
  adjust-Written (x ∷ xs) a e g p q = elim (Bool-cases (x.id == id)) [
    | inl same ↦
        let is : x ≡ a = some-injective _ _ (rw same at e) in
        row-Written x xs same (subst (λ y. guard y.balance ≡ true) (sym is) g)
          (subst (λ y. leb_ℤ (pos 0) (f y.balance) ≡ true) (sym is) p)
          (subst (λ y. fits_int64 (f y.balance) ≡ true) (sym is) q)
    | inr differs ↦
        let rest = adjust-Written xs a (rw differs at e) g p q in
        (
          x ∷ rest.0,
          rw (differs, rest.1) refl,
          λ other k. ap (λ o. if x.id == other then some x else o) (rest.2 other k),
        )
  ]
