-- ===== src/Settlement/Submitted.antt =====
-- A claim batch conserves money and keeps every account level with its ledger.
use offline_pay.Base.{◌≡◌, List, [], ◌∷◌}
use offline_pay.Base.Int.{ℤ, pos, ◌+ℤ◌, int_laws}
use offline_pay.Domain.Tokens.{Ident, Time}
use offline_pay.Store.Monad.{World, world_of}
use offline_pay.Store.Gauge.{Gauge, Level, reading, Shifts, Steady}
use offline_pay.Store.Gauge.Rules.{
  Shifts-bind, Shifts-skip, Shifts-cast, Shifts-pure, Shifts-new_id,
}
use offline_pay.Store.Gauge.Writes.{
  minus, Shifts-post_ledger, Shifts-force_debit, Shifts-credit, Steady-tx,
}
use offline_pay.Store.Gauge.Tables.{
  Shifts-get_account_id, Shifts-create_payment, Shifts-record_transaction,
  Shifts-update_payment_status,
}
use offline_pay.Store.Gauge.Conserved.{Conserved, conserves}
use offline_pay.Store.Keeps.{
  Keeps-bind, Keeps-pure, Keeps-read, Keeps-fail_if, Keeps-when, Keeps-option, Keeps-emit,
  Keeps-new_id, Keeps-now,
}
use offline_pay.Settlement.Checked.{
  unless_rejected-Keeps, check_signatures-Keeps, check_binding-Keeps, check_window-Keeps,
  check_live-Keeps,
}
use offline_pay.Settlement.Enqueued.{enqueue_all-Steady}
use offline_pay.Settlement.Types.{Service, ClaimItem}
use offline_pay.Settlement.Accept.{hold_in_pending, record_and_hold, accept_body, accept}
use offline_pay.Settlement.Submit.{
  accept_new, dedupe_or_accept, submit_in_window, submit_bound, submit_signed, submit_one,
  submit_all, submit_claim,
}

hold_zero :
    (w l w' l' : ℤ) → w +ℤ l' ≡ w' +ℤ l → l +ℤ (minus l' +ℤ pos 0) +ℤ (minus w +ℤ w') ≡ pos 0
hold_zero w l w' l' h = grind int_laws

module _ (g : Gauge) (lv : Level g) (s : Service) where
  Shifts-hold : (t p : Ident) (x : ℤ) → Shifts g (pos 0) (hold_in_pending s t p x)
  unfolding hold_in_pending
  Shifts-hold t p x =
      Shifts-cast g (pos 0) (hold_zero _ _ _ _ (lv.level t s.suspense_account p x)) (
        Shifts-bind g (Shifts-post_ledger g _ _)
          (λ _. Shifts-bind g (Shifts-force_debit g _ _) (λ _. Shifts-credit g _ _)))

  Shifts-record_and_hold :
      (batch u : Ident) (item : ClaimItem) (t : Time) (payment pending : Ident)
      → Shifts g (pos 0) (record_and_hold s batch u item t payment pending)
  unfolding record_and_hold
  Shifts-record_and_hold batch u item t payment pending =
      Shifts-skip g (Shifts-create_payment g _) λ _. Shifts-skip g (Shifts-new_id g _) λ anchor.
        Shifts-skip g (Shifts-new_id g _) λ row. Shifts-skip g (Shifts-record_transaction g _) λ _.
          Shifts-skip g (Shifts-record_transaction g _) λ _.
            Shifts-skip g (Shifts-hold anchor pending _)
              λ _. Shifts-skip g (Shifts-update_payment_status g _ _) λ _. Shifts-pure g _

  Shifts-accept :
      (batch u : Ident) (item : ClaimItem) (t : Time)
      → Shifts g (pos 0) (accept_body s batch u item t)
  unfolding accept_body
  Shifts-accept batch u item t = Shifts-skip g (Shifts-new_id g _) λ payment.
      Shifts-skip g (Shifts-get_account_id g _ _)
        λ pending. Shifts-record_and_hold batch u item t payment pending

  accept-Steady :
      (batch u : Ident) (item : ClaimItem) (t : Time) → Steady g (accept s batch u item t)
  unfolding accept
  accept-Steady batch u item t = Steady-tx g _ (Shifts-accept batch u item t)

  submit_one-Steady :
      (batch u : Ident) (item : ClaimItem) (t : Time) → Steady g (submit_one s batch u item t)
  unfolding submit_one submit_signed submit_bound submit_in_window dedupe_or_accept accept_new
  submit_one-Steady batch u item t = unless_rejected-Keeps (reading g) s item _ (
      Keeps-bind (reading g) (check_signatures-Keeps (reading g) s item) λ v.
        unless_rejected-Keeps (reading g) s item v (
          Keeps-bind (reading g) (check_binding-Keeps (reading g) s item t) λ v'.
            unless_rejected-Keeps (reading g) s item v' (
              Keeps-bind (reading g) (check_window-Keeps (reading g) s item t) λ v''.
                unless_rejected-Keeps (reading g) s item v'' (
                  Keeps-bind (reading g) (Keeps-read (reading g) _) λ earlier.
                    Keeps-option (reading g) earlier
                      (Keeps-bind (reading g) (check_live-Keeps (reading g) s item t) λ live.
                        unless_rejected-Keeps (reading g) s item live
                          (accept-Steady batch u item t))
                      (λ _. Keeps-pure (reading g) _)))))

  submit_all-Steady :
      (batch u : Ident) (items : List ClaimItem) (t : Time)
      → Steady g (submit_all s batch u items t)
  unfolding submit_all
  submit_all-Steady batch u [] t = Keeps-pure (reading g) _
  submit_all-Steady batch u (item ∷ items) t =
      Keeps-bind (reading g) (submit_one-Steady batch u item t) λ _.
        Keeps-bind (reading g) (submit_all-Steady batch u items t) λ _. Keeps-pure (reading g) _

  pub submit_claim-Steady :
      (u : Ident) (items : List ClaimItem) (country : Ident)
      → Steady g (submit_claim s u items country)
  unfolding submit_claim
  submit_claim-Steady u items country = Keeps-bind (reading g) (Keeps-fail_if (reading g) _ _) λ _.
      Keeps-bind (reading g) (Keeps-now (reading g) _) λ t.
        Keeps-bind (reading g) (Keeps-new_id (reading g) _) λ batch.
          Keeps-bind (reading g) (submit_all-Steady batch u items t) λ done.
            Keeps-bind (reading g) (Keeps-when (reading g) _ (Keeps-emit (reading g) _)) λ _.
              Keeps-bind (reading g) (enqueue_all-Steady g s _ _)
                λ _. Keeps-bind (reading g) (Keeps-now (reading g) _) λ _. Keeps-pure (reading g) _

-- A claim batch, whatever it holds and however it ends, leaves the money in all accounts, every
-- account's distance from its ledger and every transaction's imbalance as they were.
pub submit_claim-Conserved :
    (s : Service) (u : Ident) (items : List ClaimItem) (country : Ident) (w : World)
    → Conserved w.db (world_of (submit_claim s u items country w)).db
submit_claim-Conserved s u items country =
    conserves _ (λ g lv. submit_claim-Steady g lv s u items country)
