-- ===== src/Settlement/Cleared.antt =====
-- What a successful finalization leaves pending (settlement/service.go).
use offline_pay.Base.{
  false_true, ◌≡◌, refl, sym, ◌∙◌, inl, inr, true, false, Bool-cases, List, [], ◌∷◌, All, subst,
  arith, if◌then◌else◌, update_where, ◌==◌, ==_refl, select,
}
use offline_pay.Base.Int.{ℤ}
use offline_pay.Domain.Status.{is_terminal, valid_transitions}
use offline_pay.Domain.Tokens.{Ident, Time}
use offline_pay.Store.Rows.{Payment}
use offline_pay.Store.Monad.{World, M, modify, ◌>>=◌}
use offline_pay.Store.Keeps.{
  Keeps, Keeps-bind, Keeps-pure, Keeps-one, Keeps-fail_if, Keeps-when, Keeps-emit, Keeps-modify,
  Keeps-now, Keeps-get_ceiling,
}
use offline_pay.Store.Keeps.Writes.{Keeps-get_account_id}
use offline_pay.Store.Payments.{
  StatusUpdate, apply_update, update_payment_status, list_pending_for_payer, insert_by_sequence,
  sort_by_sequence, is_pending_of,
}
use offline_pay.Store.Ceilings.{update_ceiling_status}
use offline_pay.Store.Runs.{Runs, bind-ok, read-ok, Keeps-ok, ok_world, tx-ok}
use offline_pay.Settlement.Types.{Service, SettlementResult}
use offline_pay.Settlement.Finalize.{
  Allotment, allot, settle_one, settle_all, finalize_pending, finalize_sorted, finalize_body,
  finalize_for_payer,
}
use offline_pay.Settlement.Ends.{allot-is_terminal, is_listed, payments_of}
use offline_pay.Settlement.Shared.{pending_of}
use offline_pay.Settlement.Ended.{anchor-Keeps, paired-Keeps, move_money-Keeps}

module _ (payer : Ident) where
  -- Every pending payment of the payer has the id of one of the list.
  pub Left : List Payment → List Payment → Type 0
  Left txns ps = All (λ q. is_pending_of payer q ≡ true → is_listed q.id txns ≡ true) ps

  ended : (q : Payment) → is_terminal q.status ≡ true → is_pending_of payer q ≡ false
  unfolding is_terminal valid_transitions
  ended q h = ground arith

  other_row :
      (txn : Payment) (txns : List Payment) (id : Ident)
      → (id == txn.id) ≡ false
      → is_listed id (txn ∷ txns) ≡ true
      → is_listed id txns ≡ true
  other_row txn txns id h k = ground arith

  updated_row :
      (txn : Payment) (txns : List Payment) (u : StatusUpdate) (q : Payment)
      → is_terminal u.status ≡ true
      → (is_pending_of payer q ≡ true → is_listed q.id (txn ∷ txns) ≡ true)
      → is_pending_of payer (if q.id == txn.id then apply_update u q else q) ≡ true
      → is_listed (if q.id == txn.id then apply_update u q else q).id txns ≡ true
  unfolding apply_update
  updated_row txn txns u q e h = elim (Bool-cases (q.id == txn.id)) [
    | inl same ↦ rw same (λ k. false_true (sym (ended (apply_update u q) e) ∙ k))
    | inr other ↦ rw other (λ k. other_row txn txns q.id other (h k))
  ]

  updated-Left :
      (txn : Payment) (txns ps : List Payment) (u : StatusUpdate)
      → is_terminal u.status ≡ true
      → Left (txn ∷ txns) ps
      → Left txns (update_where (λ p. p.id == txn.id) (apply_update u) ps)
  unfolding Left
  updated-Left txn txns [] u e h = tt
  updated-Left txn txns (q ∷ qs) u e h =
      (updated_row txn txns u q e h.0, updated-Left txn txns qs u e h.1)

  cleared : (ps : List Payment) → Left [] ps → select (is_pending_of payer) ps ≡ []
  unfolding Left
  cleared [] h = refl
  cleared (q ∷ qs) h =
      let rest = cleared qs h.1 in
      let here = h.0 in
      elim (Bool-cases (is_pending_of payer q)) [
        | inl yes' ↦ false_true (here yes')
        | inr no' ↦ rw no' rest
      ]

inserted-is_listed :
    (id : Ident) (p : Payment) (ps : List Payment)
    → is_listed id (p ∷ ps) ≡ true
    → is_listed id (insert_by_sequence p ps) ≡ true
unfolding insert_by_sequence
inserted-is_listed id p [] h = h
inserted-is_listed id p (q ∷ qs) h = let rest = inserted-is_listed id p qs in ground arith

-- A step that, where it succeeds, takes a table that is `P` to one that is `Q`.
record Takes (P Q : List Payment → Type 0) {A : Type 0} (m : M A) : Type 0 where
  takes : (w w' : World) (a : A) → P w.db.payments → Runs m w a w' → Q w'.db.payments

bind-Takes :
    {P Q R : List Payment → Type 0} {A B : Type 0} {m : M A} {f : A → M B}
    → Takes P Q m
    → ((a : A) → Takes Q R (f a))
    → Takes P R (m >>= f)
bind-Takes h k = record {
  takes = λ w w' b p r.
      let (first, rest) = bind-ok _ r in
      (k first.result).takes first.after w' b (h.takes w first.after first.result p first.runs)
        rest;
}

kept-Takes : {P : List Payment → Type 0} {A : Type 0} {m : M A} → Keeps payments_of m → Takes P P m
kept-Takes {P = P} h = record { takes = λ w w' a p r. subst P (sym (Keeps-ok h r)) p }

module _ (payer : Ident) where
  update-Takes :
      (txn : Payment) (txns : List Payment) (u : StatusUpdate)
      → is_terminal u.status ≡ true
      → Takes (Left payer (txn ∷ txns)) (Left payer txns) (update_payment_status txn.id u)
  unfolding update_payment_status modify
  update-Takes txn txns u e = bind-Takes (kept-Takes (Keeps-one payments_of _)) λ _.
      bind-Takes (kept-Takes (Keeps-fail_if payments_of _ _)) λ _. record {
        takes = λ w w' a p r.
            subst (λ v. Left payer txns v.db.payments) (ok_world r.run)
              (updated-Left payer txn txns w.db.payments u e p);
      }

  settle_one-Takes :
      (s : Service) (lien ceiling : Ident) (t : Time) (txn : Payment) (txns : List Payment)
      (a : Allotment)
      → is_terminal a.status ≡ true
      → Takes (Left payer (txn ∷ txns)) (Left payer txns) (settle_one s payer lien ceiling t txn a)
  unfolding settle_one
  settle_one-Takes s lien ceiling t txn txns a e =
      bind-Takes (kept-Takes (Keeps-when payments_of _ (Keeps-emit payments_of _))) λ _.
        bind-Takes (kept-Takes (Keeps-get_account_id payments_of _ _)) λ _.
          bind-Takes (kept-Takes (Keeps-get_account_id payments_of _ _)) λ _.
            bind-Takes (kept-Takes (anchor-Keeps _)) λ _.
              bind-Takes (kept-Takes (move_money-Keeps _ _ _ _ _ _)) λ _.
                bind-Takes (update-Takes txn txns _ e) λ _. kept-Takes (
                  Keeps-bind payments_of (Keeps-when payments_of _ (Keeps-emit payments_of _)) λ _.
                    Keeps-bind payments_of (paired-Keeps _ _ _ _) λ _. Keeps-pure payments_of _)

  settle_all-Takes :
      (s : Service) (lien ceiling : Ident) (t : Time) (remaining : ℤ) (txns : List Payment)
      → Takes (Left payer txns) (Left payer []) (settle_all s payer lien ceiling t remaining txns)
  unfolding settle_all
  settle_all-Takes s lien ceiling t remaining [] = kept-Takes (Keeps-pure payments_of _)
  settle_all-Takes s lien ceiling t remaining (txn ∷ txns) =
      bind-Takes (settle_one-Takes s lien ceiling t txn txns _ (allot-is_terminal _ _)) λ _.
        bind-Takes (settle_all-Takes s lien ceiling t (allot txn.amount remaining).remaining txns)
          λ _. kept-Takes (Keeps-pure payments_of _)

  finalize_sorted-Takes :
      (s : Service) (txns : List Payment)
      → Takes (Left payer txns) (Left payer []) (finalize_sorted s payer txns)
  unfolding finalize_sorted finalize_pending update_ceiling_status
  finalize_sorted-Takes s [] = kept-Takes (Keeps-pure payments_of _)
  finalize_sorted-Takes s (first ∷ rest) =
      bind-Takes (kept-Takes (Keeps-get_account_id payments_of _ _)) λ lien.
        bind-Takes (kept-Takes (Keeps-get_ceiling payments_of _)) λ c.
          bind-Takes (kept-Takes (Keeps-now payments_of _)) λ t.
            bind-Takes (settle_all-Takes s lien c.id t _ (first ∷ rest)) λ _. kept-Takes (
              Keeps-bind payments_of
                (Keeps-when payments_of _ (Keeps-modify payments_of _ (λ _. refl)))
                λ _. Keeps-pure payments_of _)

sorted-is_listed :
    (id : Ident) (ps : List Payment)
    → is_listed id ps ≡ true
    → is_listed id (sort_by_sequence ps) ≡ true
unfolding sort_by_sequence
sorted-is_listed id [] h = h
sorted-is_listed id (p ∷ ps) h =
    let rest = sorted-is_listed id ps in
    inserted-is_listed id p (sort_by_sequence ps) (ground arith)

module _ (payer : Ident) where
  selected_here :
      (p : Payment) (ps : List Payment)
      → is_pending_of payer p ≡ true
      → is_listed p.id (select (is_pending_of payer) (p ∷ ps)) ≡ true
  selected_here p ps h = rw (h, ==_refl p.id) refl

  selected_behind :
      (id : Ident) (p : Payment) (ps : List Payment)
      → is_listed id (select (is_pending_of payer) ps) ≡ true
      → is_listed id (select (is_pending_of payer) (p ∷ ps)) ≡ true
  selected_behind id p ps h = ground arith

  select-Left :
      (ps more : List Payment)
      → ((id : Ident)
          → is_listed id (select (is_pending_of payer) ps) ≡ true
          → is_listed id more ≡ true)
      → Left payer more ps
  unfolding Left
  select-Left [] more h = tt
  select-Left (p ∷ ps) more h = (
    λ e. h p.id (selected_here p ps e),
    select-Left ps more λ id k. h id (selected_behind id p ps k),
  )

  -- When `FinalizeForPayer` succeeds, the payer has no pending payment left on record.
  pub finalize_for_payer-clears :
      (s : Service) (w w' : World) (rs : List SettlementResult)
      → Runs (finalize_for_payer s payer) w rs w'
      → select (is_pending_of payer) w'.db.payments ≡ []
  unfolding finalize_for_payer finalize_body list_pending_for_payer
  finalize_for_payer-clears s w w' rs h =
      let (first, rest) = bind-ok _ (tx-ok h) in
      let (listed, same) = read-ok _ first.runs in
      let start =
        subst (λ v. Left payer (sort_by_sequence (pending_of payer w.db)) v.db.payments) (sym same)
          (select-Left w.db.payments _ λ id k.
            sorted-is_listed id (pending_of payer w.db)
              (sorted-is_listed id (select (is_pending_of payer) w.db.payments) k)) in
      cleared payer w'.db.payments (
        (finalize_sorted-Takes payer s (sort_by_sequence first.result)).takes first.after w' rs
          (subst (λ txns. Left payer (sort_by_sequence txns) first.after.db.payments) (sym listed)
            start)
          rest)
