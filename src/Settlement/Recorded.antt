-- ===== src/Settlement/Recorded.antt =====
-- The payment that an accepted claim leaves on record (step 6 of `submitOne`, settlement/service.go),
-- and how a claim that is submitted again is answered from it (step 5).
use offline_pay.Base.{
  ◌≡◌, refl, ap, ◌∙◌, true, false, some, List, ◌∷◌, arith, ◌==◌, find, update_where, ==_refl,
}
use offline_pay.Base.Int.{ℤ, pos, ◌<ℤ◌, eqb_ℤ}
use offline_pay.Domain.Tokens.{Ident, Time}
use offline_pay.Store.Rows.{Db, Payment}
use offline_pay.Store.Monad.{World, ok, read, option, pure, ◌>>=◌}
use offline_pay.Store.Payments.{
  has_sequence, payment_by_sequence, apply_update, StatusUpdate, violates_check,
}
use offline_pay.Store.Keeps.{Keeps, Keeps-bind, Keeps-new_id}
use offline_pay.Store.Keeps.Writes.{
  Keeps-record_transaction, Keeps-post_ledger, Keeps-force_debit, Keeps-credit,
}
use offline_pay.Store.Runs.{Runs, bind-ok, pure-ok, tx-ok, Keeps-ok}
use offline_pay.Store.Runs.Calls.{create_payment-ok, update_payment_status-ok}
use offline_pay.Settlement.Types.{Service, ClaimItem, SettlementResult}
use offline_pay.Settlement.Accept.{
  pending_payment, stamp, accepted, hold_in_pending, record_and_hold, accept_body, accept,
}
use offline_pay.Settlement.Submit.{existing_result, dedupe_or_accept}

abbrev payments_of : Db → List Payment
payments_of db = db.payments

Keeps-hold : (s : Service) (t p : Ident) (x : ℤ) → Keeps payments_of (hold_in_pending s t p x)
unfolding hold_in_pending
Keeps-hold s t p x = Keeps-bind payments_of (Keeps-post_ledger payments_of (λ _ _. refl) _ _) λ _.
    Keeps-bind payments_of (Keeps-force_debit payments_of (λ _ _. refl) _ _)
      λ _. Keeps-credit payments_of (λ _ _. refl) _ _

eqb_ℤ_refl : (a : ℤ) → eqb_ℤ a a ≡ true
eqb_ℤ_refl a = ground arith

-- The head row, stamped, is the one that the query by sequence finds.
find-stamped :
    (p : Payment) (ps : List Payment) (u : StatusUpdate)
    → find
        (has_sequence p.payer_id p.sequence_number)
        (update_where (λ q. q.id == p.id) (apply_update u) (p ∷ ps))
      ≡ some (apply_update u p)
unfolding apply_update
find-stamped p ps u = rw (==_refl p.id, ==_refl p.payer_id, eqb_ℤ_refl p.sequence_number) refl

-- The row of an accepted claim, stamped with its batch and time.
abbrev pub recorded_payment : Ident → Ident → ClaimItem → Ident → Time → Payment
recorded_payment payment u item batch t = record (pending_payment payment u item) {
  settlement_batch_id = some batch;
  submitted_at = some t;
}

positive_amount : (p : Payment) → violates_check p ≡ false → pos 0 <ℤ p.amount
unfolding violates_check
positive_amount p h = ground arith

module _ (s : Service) (batch u : Ident) (item : ClaimItem) (t : Time) (w w' : World) where
  record_and_hold-recorded :
      (payment pending : Ident) (v : World) (r : SettlementResult)
      → Runs (record_and_hold s batch u item t payment pending) v r w'
      → (r ≡ accepted payment item)
        × (payment_by_sequence item.payment.payer_id item.payment.sequence_number w'.db
            ≡ some (recorded_payment payment u item batch t))
        × (violates_check (pending_payment payment u item) ≡ false)
  unfolding record_and_hold payment_by_sequence apply_update
  record_and_hold-recorded payment pending v r h =
      let b = bind-ok _ h in
      let created = create_payment-ok _ b.0.runs in
      let c = bind-ok _ b.1 in
      let d = bind-ok _ c.1 in
      let e = bind-ok _ d.1 in
      let f = bind-ok _ e.1 in
      let k = bind-ok _ f.1 in
      let m = bind-ok _ k.1 in
      let end = pure-ok m.1 in
      let kept =
        Keeps-ok (Keeps-hold s _ _ _) k.0.runs
        ∙ Keeps-ok (Keeps-record_transaction payments_of (λ _ _. refl) _) f.0.runs
        ∙ Keeps-ok (Keeps-record_transaction payments_of (λ _ _. refl) _) e.0.runs
        ∙ Keeps-ok (Keeps-new_id payments_of _) d.0.runs
        ∙ Keeps-ok (Keeps-new_id payments_of _) c.0.runs
        ∙ ap payments_of created.2 in
      (
        end.0,
        ap (λ ps. find (has_sequence item.payment.payer_id item.payment.sequence_number) ps)
              (ap (λ x. x.db.payments) end.1
                ∙ update_payment_status-ok _ _ m.0.runs
                ∙ ap (λ ps. update_where (λ q. q.id == payment) (apply_update (stamp batch t)) ps)
                    kept)
            ∙ find-stamped (pending_payment payment u item) v.db.payments (stamp batch t),
        created.0,
      )

  -- An accepted claim has a positive amount, and is on record as it was sent.
  pub accept-recorded :
      (r : SettlementResult)
      → Runs (accept s batch u item t) w r w'
      → (payment : Ident) × (r ≡ accepted payment item)
        × (payment_by_sequence item.payment.payer_id item.payment.sequence_number w'.db
            ≡ some (recorded_payment payment u item batch t))
        × (pos 0 <ℤ item.payment.amount)
  unfolding accept accept_body
  accept-recorded r h =
      let b = bind-ok _ (tx-ok h) in
      let c = bind-ok _ b.1 in
      let done = record_and_hold-recorded _ _ _ r c.1 in
      (b.0.result, done.0, done.1, positive_amount _ done.2)

  -- Behind the guards, an accepted claim is answered with the same result, and the world stays.
  pub accept-resubmitted :
      (r : SettlementResult) (batch' u' : Ident) (t' : Time)
      → Runs (accept s batch u item t) w r w'
      → dedupe_or_accept s batch' u' item t' w' ≡ ok r w'
  unfolding dedupe_or_accept existing_result ◌>>=◌ read option pure
  accept-resubmitted r batch' u' t' h = let done = accept-recorded r h in rw (done.2, done.1) refl
