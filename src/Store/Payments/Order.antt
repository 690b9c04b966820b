-- ===== src/Store/Payments/Order.antt =====
-- The order of the pending payments (`ListPendingForPayer` of pgrepo/repo.go, `sort.SliceStable` of
-- settlement/service.go): sorting by sequence number sorts, keeps every payment, and leaves a sorted
-- list as it is.
use offline_pay.Base.{
  ◌≡◌, refl, inl, inr, Bool, true, false, List, [], ◌∷◌, arith, Bool-cases, All, select,
}
use offline_pay.Base.Int.{ℤ, ◌≤ℤ◌, leb_ℤ, leb_ℤ→le, leb_ℤ→lt, ◌<ℤ◌}
use offline_pay.Store.Rows.{Payment}
use offline_pay.Store.Payments.{insert_by_sequence, sort_by_sequence}
use mathlib.Core.List.{Perm}
use mathlib.Core.List.Perm

-- Every payment comes at or before those behind it.
pub Sorted : List Payment → Type 0
Sorted [] = Unit
Sorted (p ∷ ps) = All (λ q. p.sequence_number ≤ℤ q.sequence_number) ps × Sorted ps

abbrev Behind : Payment → Payment → Type 0
Behind p q = p.sequence_number ≤ℤ q.sequence_number

-- A test that every payment passes keeps holding of a part of the list.
pub select-All :
    (P : Payment → Type 0) (test : Payment → Bool) (ps : List Payment)
    → All P ps
    → All P (select test ps)
select-All P test [] h = tt
select-All P test (p ∷ ps) h = elim (Bool-cases (test p)) [
  | inl yes' ↦ rw yes' (h.0, select-All P test ps h.1)
  | inr no' ↦ rw no' (select-All P test ps h.1)
]

module _ (P : Payment → Type 0) where
  insert-All : (p : Payment) (ps : List Payment) → P p → All P ps → All P (insert_by_sequence p ps)
  unfolding insert_by_sequence
  insert-All p [] hp h = (hp, tt)
  insert-All p (q ∷ qs) hp h = elim (Bool-cases (leb_ℤ p.sequence_number q.sequence_number)) [
    | inl yes' ↦ rw yes' (hp, h)
    | inr no' ↦ rw no' (h.0, insert-All p qs hp h.1)
  ]

  pub sort-All : (ps : List Payment) → All P ps → All P (sort_by_sequence ps)
  unfolding sort_by_sequence
  sort-All [] h = tt
  sort-All (p ∷ ps) h = insert-All p (sort_by_sequence ps) h.0 (sort-All ps h.1)

le_trans : (a b c : ℤ) → a ≤ℤ b → b ≤ℤ c → a ≤ℤ c
le_trans a b c h k = omega arith

lt_le : (a b : ℤ) → a <ℤ b → a ≤ℤ b
lt_le a b h = omega arith

Behind-All :
    (p q : Payment) (qs : List Payment) → Behind p q → All (Behind q) qs → All (Behind p) qs
Behind-All p q [] h k = tt
Behind-All p q (r ∷ rs) h k =
    (le_trans p.sequence_number q.sequence_number r.sequence_number h k.0, Behind-All p q rs h k.1)

at_front : (p q : Payment) → leb_ℤ p.sequence_number q.sequence_number ≡ true → Behind p q
at_front p q h = leb_ℤ→le p.sequence_number q.sequence_number h

passed_over : (p q : Payment) → leb_ℤ p.sequence_number q.sequence_number ≡ false → Behind q p
passed_over p q h =
    lt_le q.sequence_number p.sequence_number (leb_ℤ→lt p.sequence_number q.sequence_number h)

insert-Sorted : (p : Payment) (ps : List Payment) → Sorted ps → Sorted (insert_by_sequence p ps)
unfolding insert_by_sequence Sorted
insert-Sorted p [] h = (tt, tt)
insert-Sorted p (q ∷ qs) h = elim (Bool-cases (leb_ℤ p.sequence_number q.sequence_number)) [
  | inl yes' ↦ rw yes' ((at_front p q yes', Behind-All p q qs (at_front p q yes') h.0), h)
  | inr no' ↦ rw no' (insert-All (Behind q) p qs (passed_over p q no') h.0, insert-Sorted p qs h.1)
]

sorted : (ps : List Payment) → Sorted (sort_by_sequence ps)
unfolding sort_by_sequence Sorted
sorted [] = tt
sorted (p ∷ ps) = insert-Sorted p (sort_by_sequence ps) (sorted ps)

insert-Perm : (p : Payment) (ps : List Payment) → Perm (insert_by_sequence p ps) (p ∷ ps)
unfolding insert_by_sequence
insert-Perm p [] = Perm.refl (p ∷ [])
insert-Perm p (q ∷ qs) = elim (Bool-cases (leb_ℤ p.sequence_number q.sequence_number)) [
  | inl yes' ↦ rw yes' (Perm.refl (p ∷ q ∷ qs))
  | inr no' ↦ rw no' (Perm.trans (Perm.cons q (insert-Perm p qs)) (Perm.swap p q qs))
]

permuted : (ps : List Payment) → Perm (sort_by_sequence ps) ps
unfolding sort_by_sequence
permuted [] = Perm.refl []
permuted (p ∷ ps) = Perm.trans (insert-Perm p (sort_by_sequence ps)) (Perm.cons p (permuted ps))

-- The sorted payments are the given ones, each before those with a larger sequence number.
pub sort_by_sequence-Sorted :
    (ps : List Payment) → Sorted (sort_by_sequence ps) × Perm (sort_by_sequence ps) ps
sort_by_sequence-Sorted ps = (sorted ps, permuted ps)

insert_front :
    (p : Payment) (ps : List Payment) → All (Behind p) ps → insert_by_sequence p ps ≡ p ∷ ps
unfolding insert_by_sequence
insert_front p [] h = refl
insert_front p (q ∷ qs) h = grind arith

-- A sorted list is left as it is, so that sorting the result of the query again changes nothing.
pub sort-Sorted : (ps : List Payment) → Sorted ps → sort_by_sequence ps ≡ ps
unfolding sort_by_sequence Sorted
sort-Sorted [] h = refl
sort-Sorted (p ∷ ps) h = rw (sort-Sorted ps h.1) (insert_front p ps h.0)
