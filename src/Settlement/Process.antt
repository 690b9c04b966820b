-- ===== src/Settlement/Process.antt =====
-- settlement/processor.go: `process`, the consumer of finalize events, over the table of processed
-- events that it shares with the transfer processor. A message that is not an envelope is `none`;
-- notifications and counters are left out. The decoding of a payload is a parameter, with `none` for
-- an error.
use offline_pay.Base.{Bool, true, false, Option, none, some, ◌==◌}
use offline_pay.Domain.Tokens.{Ident, no_id}
use offline_pay.Store.Rows.{
  Aggregate, settlement_finalize, OutboxPayload, OutboxEnvelope, EventStatus,
}
use offline_pay.Store.Monad.{M, Done, pure, branch, option, ◌>>=◌, ◌>>◌}
use offline_pay.Store.Transfers.{is_event_processed, mark_event_processed}
use offline_pay.Settlement.Types.{Service}
use offline_pay.Settlement.Finalize.{finalize_for_payer}

pub record FinalizeProcessor : Type 0 where
  pub service : Service
  pub decode_payer : OutboxPayload → Option Ident

abbrev is_finalize : Aggregate → Bool
is_finalize settlement_finalize = true
is_finalize _ = false

-- `FinalizeForPayer` has a transaction of its own; the event is marked after it.
unfoldable pub finalize_and_mark : FinalizeProcessor → Ident → Ident → M Done
finalize_and_mark p event payer = do
  finalize_for_payer p.service payer
  mark_event_processed event EventStatus.settled

unfoldable pub handle_finalize : FinalizeProcessor → OutboxEnvelope → M Done
handle_finalize p e =
    option (p.decode_payer e.payload) (mark_event_processed e.id EventStatus.failed) λ payer.
      branch (payer == no_id) (mark_event_processed e.id EventStatus.failed)
        (finalize_and_mark p e.id payer)

unfoldable pub handle_event : FinalizeProcessor → OutboxEnvelope → M Done
unfolding handle_finalize
handle_event p e =
    branch (is_finalize e.aggregate) (handle_finalize p e)
      (mark_event_processed e.id EventStatus.skipped)

unfoldable pub process_finalize : FinalizeProcessor → Option OutboxEnvelope → M Done
unfolding handle_event
process_finalize p none = pure tt
process_finalize p (some e) = do
  already ← is_event_processed e.id
  branch already (pure tt) (handle_event p e)
