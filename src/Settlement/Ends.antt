-- ===== src/Settlement/Ends.antt =====
-- How a finalization moves the payments on record (settlement/service.go) along the state machine of
-- domain/transaction.go.
use offline_pay.Base.{
  ◌≡◌, refl, sym, ap, ◌∙◌, ◌⊎◌, inl, inr, Bool, true, Bool-cases, List, [], ◌∷◌, subst,
  if◌then◌else◌, find, is_some, update_where, ◌==◌, ==→eq,
}
use offline_pay.Base.Int.{ℤ, pos, leb_ℤ}
use offline_pay.Domain.Status.{PaymentStatus, can_transition_to, is_terminal, valid_transitions}
use offline_pay.Domain.Tokens.{Ident}
use offline_pay.Store.Rows.{Db, Payment}
use offline_pay.Store.Monad.{
  World, M, Outcome, ok, err, continue, world_of, end_tx, commits, modify, ◌>>=◌,
}
use offline_pay.Store.Keeps.{Keeps, Keeps-one, Keeps-fail_if}
use offline_pay.Store.Payments.{StatusUpdate, apply_update, update_payment_status}
use offline_pay.Settlement.Finalize.{allot}

-- The state machine leads from PENDING to this status, and no further.
pub EndsPending : PaymentStatus → Type 0
EndsPending st = (can_transition_to PaymentStatus.pending st ≡ true) × (is_terminal st ≡ true)

pub allot-EndsPending : (x remaining : ℤ) → EndsPending (allot x remaining).status
unfolding EndsPending allot can_transition_to is_terminal valid_transitions
allot-EndsPending x remaining = elim (Bool-cases (leb_ℤ remaining (pos 0))) [
  | inl spent ↦ rw spent (refl, refl)
  | inr left ↦ elim (Bool-cases (leb_ℤ x remaining)) [
    | inl covered ↦ rw (left, covered) (refl, refl)
    | inr short ↦ rw (left, short) (refl, refl)
  ]
]

pub allot-is_terminal : (x remaining : ℤ) → is_terminal (allot x remaining).status ≡ true
unfolding EndsPending
allot-is_terminal x remaining = (allot-EndsPending x remaining).1

abbrev pub is_listed : Ident → List Payment → Bool
is_listed id ps = is_some (find (λ p. p.id == id) ps)

-- A row before and after: it stands, or it is the row of a payment of the list and its status has ended.
pub Advanced : List Payment → Payment → Payment → Type 0
Advanced listed p q =
    (q ≡ p) ⊎ ((q.id ≡ p.id) × (is_listed p.id listed ≡ true) × EndsPending q.status)

-- The table before and after, row by row.
unfoldable pub AdvancedRows : List Payment → List Payment → List Payment → Type 0
AdvancedRows listed [] qs = qs ≡ []
AdvancedRows listed (p ∷ ps) qs =
    (q : Payment) × (rest : List Payment) × (qs ≡ q ∷ rest)
    × Advanced listed p q
    × AdvancedRows listed ps rest

abbrev pub payments_of : Db → List Payment
payments_of db = db.payments

module _ (listed : List Payment) where
  rows_stand : (ps : List Payment) → AdvancedRows listed ps ps
  unfolding AdvancedRows Advanced
  rows_stand [] = refl
  rows_stand (p ∷ ps) = (p, ps, refl, inl refl, rows_stand ps)

  row_again : (p q r : Payment) → Advanced listed p q → Advanced listed q r → Advanced listed p r
  unfolding Advanced
  row_again p q r h (inl same) = subst (λ x. Advanced listed p x) (sym same) h
  row_again p q r (inl same) (inr (i, m, e)) =
      inr (i ∙ ap (λ x. x.id) same, subst (λ x. is_listed x.id listed ≡ true) same m, e)
  row_again p q r (inr (j, n, _)) (inr (i, m, e)) = inr (i ∙ j, n, e)

  rows_again :
      (ps qs rs : List Payment)
      → AdvancedRows listed ps qs
      → AdvancedRows listed qs rs
      → AdvancedRows listed ps rs
  unfolding AdvancedRows
  rows_again [] qs rs h k = subst (λ xs. AdvancedRows listed xs rs) h k
  rows_again (p ∷ ps) qs rs (q, rest, e, a, h) k =
      let (r, more, f, b, g) = subst (λ xs. AdvancedRows listed xs rs) e k in
      (r, more, f, row_again p q r a b, rows_again ps rest more h g)

  updated-AdvancedRows :
      (id : Ident) (u : StatusUpdate) (ps : List Payment)
      → is_listed id listed ≡ true
      → EndsPending u.status
      → AdvancedRows listed ps (update_where (λ p. p.id == id) (apply_update u) ps)
  unfolding AdvancedRows Advanced apply_update
  updated-AdvancedRows id u [] m e = refl
  updated-AdvancedRows id u (p ∷ ps) m e = (
    (if p.id == id then apply_update u p else p),
    update_where (λ q. q.id == id) (apply_update u) ps,
    refl,
    elim (Bool-cases (p.id == id)) [
      | inl same ↦
          rw same
            (inr (refl, subst (λ i. is_listed i listed ≡ true) (sym (==→eq p.id id same)) m, e))
      | inr other ↦ rw other (inl refl)
    ],
    updated-AdvancedRows id u ps m e,
  )

  -- A step after which the table has advanced, however it ends.
  pub record Advances {A : Type 0} (m : M A) : Type 0 where
    pub advances : (w : World) → AdvancedRows listed w.db.payments (world_of (m w)).db.payments

  continue-Advances :
      {A B : Type 0} (w : World) (r : Outcome A) (f : A → M B)
      → AdvancedRows listed w.db.payments (world_of r).db.payments
      → ((a : A) → Advances (f a))
      → AdvancedRows listed w.db.payments (world_of (continue f r)).db.payments
  continue-Advances w (ok a v) f h k = rows_again _ _ _ h ((k a).advances v)
  continue-Advances w (err e v) f h k = h

  pub bind-Advances :
      {A B : Type 0} {m : M A} {f : A → M B}
      → Advances m
      → ((a : A) → Advances (f a))
      → Advances (m >>= f)
  unfolding ◌>>=◌
  bind-Advances {m = m} {f = f} h k = record {
    advances = λ w. continue-Advances w (m w) f (h.advances w) k;
  }

  pub kept-Advances : {A : Type 0} {m : M A} → Keeps payments_of m → Advances m
  kept-Advances h = record {
    advances = λ w.
        subst (λ ps. AdvancedRows listed w.db.payments ps) (sym (h.kept w))
          (rows_stand w.db.payments);
  }

  pub update-Advances :
      (id : Ident) (u : StatusUpdate)
      → is_listed id listed ≡ true
      → EndsPending u.status
      → Advances (update_payment_status id u)
  unfolding update_payment_status modify
  update-Advances id u m e = bind-Advances (kept-Advances (Keeps-one payments_of _)) λ _.
      bind-Advances (kept-Advances (Keeps-fail_if payments_of _ _))
        λ _. record { advances = λ w. updated-AdvancedRows id u w.db.payments m e }

  pub end_tx-Advances :
      {A : Type 0} (w : World) (r : Outcome A)
      → AdvancedRows listed w.db.payments (world_of r).db.payments
      → AdvancedRows listed w.db.payments (world_of (end_tx w.db r)).db.payments
  unfolding end_tx
  end_tx-Advances w (ok a v) h = elim (Bool-cases (commits w.db v.db)) [
    | inl yes' ↦ rw yes' h
    | inr no' ↦ rw no' (rows_stand w.db.payments)
  ]
  end_tx-Advances w (err e v) h = rows_stand w.db.payments
