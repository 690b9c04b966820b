-- ===== src/Transfer/Once.antt =====
-- An event that was processed (transfer/processor.go) is recorded, and a message that is delivered again
-- afterwards changes nothing.
use offline_pay.Base.{
  ◌≡◌, refl, sym, ap, ◌∙◌, inl, inr, Bool, true, false, some, ◌==◌, find, is_some, subst,
}
use offline_pay.Domain.Tokens.{Ident, Time}
use offline_pay.Store.Rows.{TransferStatus, TransferPayload, TransferFailure}
use offline_pay.Store.Monad.{World, Done, ok, pure, branch, read, ◌>>=◌}
use offline_pay.Store.Processed.{IsProcessed, mark-IsProcessed}
use offline_pay.Store.Runs.{
  Runs, bind-ok, pure-ok, read-ok, modify-ok, branch-ok, option-ok, catch-ok, tx-ok, now-ok,
}
use offline_pay.Store.Transfers.{event_of, is_event_processed, mark_transfer_failed}
use offline_pay.Store.Rows.{OutboxEnvelope}
use offline_pay.Transfer.Types.{Service}
use offline_pay.Transfer.Process.{
  finalize_failed, settle, move_funds, lock_second, apply_transfer, fail_malformed, process_payload,
  handle, process_event, process,
}

module _ (s : Service) (id : Ident) (tp : TransferPayload) where
  finalize_failed-IsProcessed :
      (t : Time) (reason : TransferFailure) (w w' : World) (st : TransferStatus)
      → Runs (finalize_failed t id tp reason) w st w'
      → IsProcessed id w'.db
  unfolding finalize_failed
  finalize_failed-IsProcessed t reason w w' st h =
      let b = bind-ok _ h in
      let c = bind-ok _ b.1 in
      let d = bind-ok _ c.1 in
      subst (λ v. IsProcessed id v.db) (sym (pure-ok d.1).1) (mark-IsProcessed id _ _ _ _ d.0.runs)

  settle-IsProcessed :
      (t : Time) (receiver : Ident) (w w' : World) (st : TransferStatus)
      → Runs (settle t id tp receiver) w st w'
      → IsProcessed id w'.db
  unfolding settle
  settle-IsProcessed t receiver w w' st h =
      let b = bind-ok _ h in
      let c = bind-ok _ b.1 in
      let d = bind-ok _ c.1 in
      let e = bind-ok _ d.1 in
      subst (λ v. IsProcessed id v.db) (sym (pure-ok e.1).1) (mark-IsProcessed id _ _ _ _ e.0.runs)

  move_funds-IsProcessed :
      (t : Time) (sender receiver : Ident) (w w' : World) (st : TransferStatus)
      → Runs (move_funds t id tp sender receiver) w st w'
      → IsProcessed id w'.db
  unfolding move_funds
  move_funds-IsProcessed t sender receiver w w' st h = elim (catch-ok _ h) [
    | inl (_, run) ↦ settle-IsProcessed t receiver _ w' st run
    | inr (_, _, run) ↦ finalize_failed-IsProcessed t _ _ w' st run
  ]

  lock_second-IsProcessed :
      (t : Time) (a : Ident) (w w' : World) (st : TransferStatus)
      → Runs (lock_second t id tp a) w st w'
      → IsProcessed id w'.db
  unfolding lock_second
  lock_second-IsProcessed t a w w' st h =
      let b = bind-ok _ h in
      elim (option-ok b.1) [
        | inl (_, run) ↦ finalize_failed-IsProcessed t _ _ w' st run
        | inr (_, _, run) ↦ move_funds-IsProcessed t _ _ _ w' st run
      ]

  pub apply_transfer-IsProcessed :
      (w w' : World) (st : TransferStatus)
      → Runs (apply_transfer s id tp) w st w'
      → IsProcessed id w'.db
  unfolding apply_transfer
  apply_transfer-IsProcessed w w' st h =
      let b = bind-ok _ h in
      let c = bind-ok _ b.1 in
      elim (option-ok c.1) [
        | inl (_, run) ↦ finalize_failed-IsProcessed _ _ _ w' st run
        | inr (_, _, run) ↦ lock_second-IsProcessed _ _ _ w' st run
      ]

  fail_malformed-IsProcessed :
      (w w' : World) (u : Done) → Runs (fail_malformed s id tp) w u w' → IsProcessed id w'.db
  unfolding fail_malformed mark_transfer_failed event_of
  fail_malformed-IsProcessed w w' u h =
      let b = bind-ok _ h in
      let c = bind-ok _ b.1 in
      let kept = ap (λ db. db.processed_events) (modify-ok _ c.1) in
      let start = ap (λ db. db.processed_events) (now-ok _ c.0.runs).1 in
      ap (λ es. is_some (find (λ e. e.outbox_id == id) es)) (kept ∙ start)
      ∙ mark-IsProcessed id _ _ _ _ b.0.runs

module _ (s : Service) where
  process_payload-IsProcessed :
      (id : Ident) (d : TransferPayload × Bool) (w w' : World) (u : Done)
      → Runs (process_payload s id d) w u w'
      → IsProcessed id w'.db
  unfolding process_payload
  process_payload-IsProcessed id (tp, false) w w' u h = fail_malformed-IsProcessed s id tp w w' u h
  process_payload-IsProcessed id (tp, true) w w' u h =
      let b = bind-ok _ h in
      subst (λ v. IsProcessed id v.db) (sym (pure-ok b.1).1)
        (apply_transfer-IsProcessed s id tp _ _ _ (tx-ok b.0.runs))

  pub process_event-IsProcessed :
      (e : OutboxEnvelope) (w w' : World) (u : Done)
      → Runs (process_event s e) w u w'
      → IsProcessed e.id w'.db
  unfolding process_event is_event_processed handle
  process_event-IsProcessed e w w' u h =
      let b = bind-ok _ h in
      let looked = read-ok _ b.0.runs in
      elim (branch-ok b.1) [
        | inl (old, run) ↦
            subst (λ v. IsProcessed e.id v.db) (sym ((pure-ok run).1 ∙ looked.1))
              (sym looked.0 ∙ old)
        | inr (_, run) ↦ elim (branch-ok run) [
          | inl (_, known) ↦ process_payload-IsProcessed e.id _ _ w' u known
          | inr (_, skipped) ↦ mark-IsProcessed e.id _ _ w' u skipped
        ]
      ]

-- Once the event of a message was processed with success, the same message delivered again, to
-- whatever processor, succeeds and leaves the world as it is.
pub process-again :
    (s s' : Service) (e : OutboxEnvelope) (w w' : World) (u : Done)
    → Runs (process s (some e)) w u w'
    → process s' (some e) w' ≡ ok tt w'
unfolding process process_event is_event_processed ◌>>=◌ read branch pure
process-again s s' e w w' u h = rw (process_event-IsProcessed s e w w' u h) refl
