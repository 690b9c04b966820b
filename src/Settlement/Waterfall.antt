-- ===== src/Settlement/Waterfall.antt =====
-- An independent description of how `FinalizeForPayer` (settlement/service.go) shares a ceiling out:
-- the n-th payment in sequence order gets the part of min(ceiling, sum of the first n amounts) that
-- the payments before it left. The loop's `remaining` is what is left of the ceiling.
use offline_pay.Base.{◌≡◌, ◌∙◌, List, [], ◌∷◌, if◌then◌else◌, map}
use offline_pay.Base.Int.{ℤ, pos, ◌+ℤ◌, ◌-ℤ◌, ◌≤ℤ◌, leb_ℤ, int_laws}
use offline_pay.Store.Rows.{Payment}
use offline_pay.Settlement.Finalize.{allot}

-- min(ceiling, x)
abbrev pub capped : ℤ → ℤ → ℤ
capped ceiling x = if leb_ℤ x ceiling then x else ceiling

-- The shares of amounts that come after amounts that add up to `before`.
unfoldable pub shares : ℤ → ℤ → List ℤ → List ℤ
shares ceiling before [] = []
shares ceiling before (x ∷ xs) =
    (capped ceiling (before +ℤ x) -ℤ capped ceiling before) ∷ shares ceiling (before +ℤ x) xs

unfoldable pub total : List ℤ → ℤ
total [] = pos 0
total (x ∷ xs) = x +ℤ total xs

abbrev pub amounts : List Payment → List ℤ
amounts ps = map (λ p. p.amount) ps

module _ (ceiling before x : ℤ) (hb : pos 0 ≤ℤ before) (hx : pos 0 ≤ℤ x)
    (hc : pos 0 ≤ℤ ceiling) where
  pub allot-share :
      (allot x (ceiling -ℤ capped ceiling before)).settled_amount
      ≡ capped ceiling (before +ℤ x) -ℤ capped ceiling before
  unfolding allot
  allot-share = grind int_laws

  pub allot-remaining :
      (allot x (ceiling -ℤ capped ceiling before)).remaining
      ≡ ceiling -ℤ capped ceiling (before +ℤ x)
  unfolding allot
  allot-remaining = grind int_laws

pub add_NonNegative : (a b : ℤ) → pos 0 ≤ℤ a → pos 0 ≤ℤ b → pos 0 ≤ℤ a +ℤ b
add_NonNegative a b ha hb = omega int_laws

zero_add : (x : ℤ) → pos 0 +ℤ x ≡ x
zero_add x = omega int_laws

pub minus_capped_zero : (ceiling a : ℤ) → pos 0 ≤ℤ ceiling → a -ℤ capped ceiling (pos 0) ≡ a
minus_capped_zero ceiling a h = grind int_laws

from_zero :
    (ceiling x : ℤ)
    → pos 0 ≤ℤ ceiling
    → capped ceiling (pos 0 +ℤ x) -ℤ capped ceiling (pos 0) ≡ capped ceiling x
from_zero ceiling x h = rw (zero_add x) (minus_capped_zero ceiling _ h)

telescope : (a b c : ℤ) → a -ℤ b +ℤ (c -ℤ a) ≡ c -ℤ b
telescope a b c = omega int_laws

+ℤ_assoc : (a b c : ℤ) → a +ℤ (b +ℤ c) ≡ a +ℤ b +ℤ c
+ℤ_assoc a b c = omega int_laws

-- The shares add up to what the cap lets through.
pub total-shares :
    (ceiling before : ℤ) (xs : List ℤ)
    → total (shares ceiling before xs)
      ≡ capped ceiling (before +ℤ total xs) -ℤ capped ceiling before
unfolding total shares
total-shares ceiling before [] = grind int_laws
total-shares ceiling before (x ∷ xs) =
    rw (total-shares ceiling (before +ℤ x) xs, +ℤ_assoc before x (total xs)) (telescope _ _ _)

-- All the shares of a ceiling together are the smaller of the ceiling and the amounts.
pub total-shares_all :
    (ceiling : ℤ) (xs : List ℤ)
    → pos 0 ≤ℤ ceiling
    → total (shares ceiling (pos 0) xs) ≡ capped ceiling (total xs)
total-shares_all ceiling xs h = total-shares ceiling (pos 0) xs ∙ from_zero ceiling (total xs) h
