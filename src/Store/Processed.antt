-- ===== src/Store/Processed.antt =====
-- The table of processed events after a row was written (transferrepo/repo.go).
use offline_pay.Base.{
  ◌≡◌, refl, sym, inl, inr, true, List, ◌==◌, find, is_some, ==_refl, subst, Bool-cases,
}
use offline_pay.Domain.Tokens.{Ident}
use offline_pay.Store.Rows.{Db, ProcessedEvent, EventStatus}
use offline_pay.Store.Monad.{World, Done}
use offline_pay.Store.Runs.{Runs, modify-ok}
use offline_pay.Store.Transfers.{event_of, with_event, mark_event_processed}

-- The event has a row.
abbrev pub IsProcessed : Ident → Db → Type 0
IsProcessed id db = is_some (event_of id db) ≡ true

module _ (id : Ident) where
  with_event-found :
      (st : EventStatus) (es : List ProcessedEvent)
      → is_some (find (λ e. e.outbox_id == id) (with_event id st es)) ≡ true
  unfolding with_event
  with_event-found st es = elim (Bool-cases (is_some (find (λ e. e.outbox_id == id) es))) [
    | inl old ↦ rw old old
    | inr new ↦ rw (new, ==_refl id) refl
  ]

  pub mark-IsProcessed :
      (st : EventStatus) (w w' : World) (u : Done)
      → Runs (mark_event_processed id st) w u w'
      → IsProcessed id w'.db
  unfolding mark_event_processed event_of
  mark-IsProcessed st w w' u h =
      subst (λ db. is_some (event_of id db) ≡ true) (sym (modify-ok _ h))
        (with_event-found st w.db.processed_events)
