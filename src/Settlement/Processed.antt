-- ===== src/Settlement/Processed.antt =====
-- An event that was handled (settlement/processor.go) is recorded, and is passed over after that.
use offline_pay.Base.{◌≡◌, refl, sym, ◌∙◌, inl, inr, some, subst}
use offline_pay.Domain.Tokens.{Ident}
use offline_pay.Store.Rows.{OutboxEnvelope}
use offline_pay.Store.Monad.{World, Done, ok, pure, branch, read, ◌>>=◌}
use offline_pay.Store.Runs.{Runs, bind-ok, pure-ok, read-ok, branch-ok, option-ok}
use offline_pay.Store.Transfers.{is_event_processed}
use offline_pay.Store.Processed.{IsProcessed, mark-IsProcessed}
use offline_pay.Settlement.Process.{
  FinalizeProcessor, finalize_and_mark, handle_finalize, handle_event, process_finalize,
}

module _ (p : FinalizeProcessor) (e : OutboxEnvelope) where
  finalize_and_mark-IsProcessed :
      (payer : Ident) (w w' : World) (u : Done)
      → Runs (finalize_and_mark p e.id payer) w u w'
      → IsProcessed e.id w'.db
  unfolding finalize_and_mark
  finalize_and_mark-IsProcessed payer w w' u h =
      let b = bind-ok _ h in mark-IsProcessed e.id _ _ w' u b.1

  handle_finalize-IsProcessed :
      (w w' : World) (u : Done) → Runs (handle_finalize p e) w u w' → IsProcessed e.id w'.db
  unfolding handle_finalize
  handle_finalize-IsProcessed w w' u h = elim (option-ok h) [
    | inl (_, run) ↦ mark-IsProcessed e.id _ w w' u run
    | inr (payer, _, run) ↦ elim (branch-ok run) [
      | inl (_, nobody) ↦ mark-IsProcessed e.id _ w w' u nobody
      | inr (_, known) ↦ finalize_and_mark-IsProcessed payer w w' u known
    ]
  ]

  handle_event-IsProcessed :
      (w w' : World) (u : Done) → Runs (handle_event p e) w u w' → IsProcessed e.id w'.db
  unfolding handle_event
  handle_event-IsProcessed w w' u h = elim (branch-ok h) [
    | inl (_, run) ↦ handle_finalize-IsProcessed w w' u run
    | inr (_, run) ↦ mark-IsProcessed e.id _ w w' u run
  ]

  process_finalize-IsProcessed :
      (w w' : World) (u : Done) → Runs (process_finalize p (some e)) w u w' → IsProcessed e.id w'.db
  unfolding process_finalize is_event_processed
  process_finalize-IsProcessed w w' u h =
      let b = bind-ok _ h in
      let looked = read-ok _ b.0.runs in
      elim (branch-ok b.1) [
        | inl (old, run) ↦
            subst (λ v. IsProcessed e.id v.db) (sym ((pure-ok run).1 ∙ looked.1))
              (sym looked.0 ∙ old)
        | inr (_, run) ↦ handle_event-IsProcessed _ w' u run
      ]

-- Once the finalize event of a message was handled with success, the same message delivered again, to
-- whatever processor, succeeds and leaves the world as it is.
pub process_finalize-again :
    (p p' : FinalizeProcessor) (e : OutboxEnvelope) (w w' : World) (u : Done)
    → Runs (process_finalize p (some e)) w u w'
    → process_finalize p' (some e) w' ≡ ok tt w'
unfolding process_finalize is_event_processed ◌>>=◌ read branch pure
process_finalize-again p p' e w w' u h = rw (process_finalize-IsProcessed p e w w' u h) refl
