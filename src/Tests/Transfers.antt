-- ===== src/Tests/Transfers.antt =====
-- An online transfer of 150 from the payer to the payee, from its acceptance to the night after.
use offline_pay.Base.{
  ◌≡◌, refl, false, none, some, [], ◌∷◌, ◌*◌, ◌^◌, if◌then◌else◌, ◌⊎◌, ltb, arith,
}
use offline_pay.Base.Int.{pos, fits_int64, ◌+ℤ◌, ◌-ℤ◌}
use offline_pay.Domain.Tokens.{Time}
use offline_pay.Store.Rows.{
  Db, Account, Transfer, TransferPayload, TransferStatus, transfer_event, OutboxPayload,
  OutboxEnvelope, main,
}
use offline_pay.Store.Rows as Rows
use offline_pay.Store.Monad.{World, ok, world_of}
use offline_pay.Store.Transfers.{event_of}
use offline_pay.Transfer.Limits.{limits_for_tier, check_limits}
use offline_pay.Transfer.Accept.{initiate_transfer, new_transfer, payload_of}
use offline_pay.Transfer.Process.{apply_transfer, handle, process}
use offline_pay.Transfer.Calls.{transfer_calls}
use offline_pay.Transfer.Once.{process-again}
use offline_pay.Transfer.Conserved.{SameTotals, process-SameTotals}
use offline_pay.Store.Gauge.Instances.{balance_of}
use offline_pay.Transfer.Applied.{SettledFrom}
use offline_pay.Transfer.Progress.{Ready}
use offline_pay.Transfer.Settled.{process-settles}
use offline_pay.Transfer.Outcome.{Decided, Unprovisioned, apply_transfer-outcome}
use offline_pay.Transfer.Accepted.{Returned, Accepted, initiate_transfer-Accepted}
use offline_pay.Transfer.Again.{initiate_transfer-again}
use offline_pay.Transfer.Day.{check_limits-gap}
use offline_pay.Transfer.Backoff.{backoff-power}
use offline_pay.Transfer.Dispatch.{minute, backoff}
use offline_pay.Tests.Fixture.{transfers, transfer_input, world}

abbrev start : Time
start = 200_000_000_000_000

abbrev the_transfer : Transfer
the_transfer = new_transfer 3000 start transfer_input 20 false

abbrev accepted_world : World
accepted_world = world_of (initiate_transfer transfers transfer_input world)

accept-run : initiate_transfer transfers transfer_input world ≡ ok the_transfer accepted_world
unfolding transfer_calls
accept-run = refl

initiate_transfer-Accepted_example :
    Returned transfer_input the_transfer world.db accepted_world.db
    ⊎ Accepted transfers transfer_input the_transfer world.db accepted_world.db
initiate_transfer-Accepted_example =
    initiate_transfer-Accepted transfers transfer_input world accepted_world the_transfer
      (record { run = accept-run })

initiate_transfer-again_example :
    (v : World) × (initiate_transfer transfers transfer_input accepted_world ≡ ok the_transfer v)
    × (v.db ≡ accepted_world.db)
initiate_transfer-again_example =
    initiate_transfer-again transfers transfer_input world accepted_world the_transfer
      (record { run = accept-run })

abbrev event : OutboxEnvelope
event = record {
  id = 3004;
  aggregate = Rows.transfer;
  aggregate_id = 3000;
  payload = transfer_event (payload_of the_transfer);
}

abbrev processed : World
processed = world_of (process transfers (some event) accepted_world)

process-run : process transfers (some event) accepted_world ≡ ok tt processed
unfolding transfer_calls
process-run = refl

process-again_example : process transfers (some event) processed ≡ ok tt processed
process-again_example =
    process-again transfers transfers event accepted_world processed tt
      (record { run = process-run })

process-SameTotals_example :
    SameTotals accepted_world.db (world_of (process transfers (some event) accepted_world)).db
process-SameTotals_example = process-SameTotals transfers (some event) accepted_world

abbrev applied : World
applied = world_of (apply_transfer transfers 3004 (payload_of the_transfer) world)

apply-run :
    apply_transfer transfers 3004 (payload_of the_transfer) world
    ≡ ok TransferStatus.settled applied
unfolding transfer_calls
apply-run = refl

apply_transfer-outcome_example :
    Decided (payload_of the_transfer) TransferStatus.settled world.db applied.db
    ⊎ Unprovisioned (payload_of the_transfer) TransferStatus.settled world.db applied.db
apply_transfer-outcome_example =
    apply_transfer-outcome transfers 3004 (payload_of the_transfer) world applied
      TransferStatus.settled (record { run = apply-run })

-- 23:30 in UTC, which is half past midnight in Lagos.
abbrev past_midnight : Time
past_midnight = 84_600_000_000_000

-- The sender has sent 30,000 naira, the whole limit of the day, a minute ago.
abbrev spent_world : World
spent_world = record world {
  db = record world.db {
    transfers =
        (record (new_transfer 1 84_540_000_000_000 transfer_input 20 false) {
          amount = pos 3_000_000;
        })
        ∷ [];
  };
}

check_limits-gap_example :
    check_limits transfers.zones past_midnight
      (limits_for_tier Rows.tier_one)
      10
      (pos 1_000_000)
      spent_world
    ≡ ok tt spent_world
unfolding limits_for_tier fits_int64
check_limits-gap_example =
    check_limits-gap transfers.zones past_midnight (limits_for_tier Rows.tier_one) 10
      (pos 1_000_000) spent_world (omega arith) (omega arith) (omega arith) (omega arith)
      (omega arith) refl

backoff-power_example :
    backoff 4 ≡ (if ltb minute (2 ^ 4 * 1_000_000_000) then minute else 2 ^ 4 * 1_000_000_000)
backoff-power_example = backoff-power 4

abbrev ready_sender : Account
ready_sender = record { id = 1; user_id = 10; kind = main; balance = pos 400 }

abbrev ready_receiver : Account
ready_receiver = record { id = 3; user_id = 20; kind = main; balance = pos 0 }

ready : Ready (payload_of the_transfer) ready_sender ready_receiver accepted_world.db
unfolding transfer_calls fits_int64 ◌+ℤ◌ ◌-ℤ◌
ready = record {
  sender = refl;
  receiver = refl;
  sender_row = refl;
  receiver_row = refl;
  distinct = refl;
  covered = refl;
  left = refl;
  left_fits = refl;
  credited = refl;
  credited_fits = refl;
}

unprocessed : event_of event.id accepted_world.db ≡ none
unfolding transfer_calls
unprocessed = refl

process-settles_example :
    (w' : World) × (process transfers (some event) accepted_world ≡ ok tt w')
    × ((t : Time) × SettledFrom (payload_of the_transfer) t 1 3 accepted_world.db w'.db)
process-settles_example =
    process-settles transfers (payload_of the_transfer) ready_sender ready_receiver accepted_world
      event unprocessed refl refl ready

-- Two deliveries of the event whose look-ups both came before either was handled: the sender pays twice.
abbrev overlapped : World
overlapped = world_of (handle transfers event (world_of (handle transfers event accepted_world)))

overlap-run : balance_of 1 overlapped.db.accounts ≡ pos 100
unfolding transfer_calls balance_of
overlap-run = refl
