-- ===== src/Transfer/Process.antt =====
-- transfer/processor.go: `process`, the consumer of transfer events. A message that is not an envelope
-- is `none`. Notifications and counters are left out. Ids are compared as numbers where the code
-- compares them as texts: any total order locks the accounts in one order.
use offline_pay.Base.{Bool, true, false, Option, none, some, ltb, if◌then◌else◌}
use offline_pay.Domain.Status.{LifecycleStatus}
use offline_pay.Domain.Tokens.{Ident, Time}
use offline_pay.Store.Rows.{
  Aggregate, transfer, TransferPayload, TransferFailure, TransferStatus, EventStatus,
  malformed_payload, account_not_provisioned, insufficient_balance, transfer_failed,
}
use offline_pay.Store.Monad.{M, Done, pure, branch, option, catch_no_rows, now, tx, ◌>>=◌, ◌>>◌}
use offline_pay.Store.Accounts.{debit_account, credit_account}
use offline_pay.Store.Transfers.{
  lock_main_account, mark_transfer_settled, mark_transfer_failed, is_event_processed,
  mark_event_processed, finalize_transactions_for_transfer,
}
use offline_pay.Store.Rows.{OutboxEnvelope}
use offline_pay.Transfer.Types.{Service}

-- `finalizeFailed`, and the outcome that the caller sets after it.
unfoldable pub finalize_failed : Time → Ident → TransferPayload → TransferFailure → M TransferStatus
finalize_failed start event tp reason = do
  mark_transfer_failed start tp.transfer_id reason
  finalize_transactions_for_transfer tp.transfer_id LifecycleStatus.failed none
      (some (transfer_failed reason))
  mark_event_processed event EventStatus.failed
  pure TransferStatus.failed

-- What follows the guarded debit.
unfoldable pub settle : Time → Ident → TransferPayload → Ident → M TransferStatus
settle start event tp receiver_account = do
  credit_account receiver_account tp.amount
  mark_transfer_settled start tp.transfer_id
  finalize_transactions_for_transfer tp.transfer_id LifecycleStatus.completed (some tp.amount) none
  mark_event_processed event EventStatus.settled
  pure TransferStatus.settled

unfoldable pub move_funds : Time → Ident → TransferPayload → Ident → Ident → M TransferStatus
move_funds start event tp sender_account receiver_account =
    catch_no_rows (debit_account sender_account tp.amount)
      (finalize_failed start event tp insufficient_balance)
      λ _. settle start event tp receiver_account

-- The accounts are locked in the order of the user ids.
abbrev pub swapped : TransferPayload → Bool
swapped tp = ltb tp.receiver_user_id tp.sender_user_id

abbrev pub first_user : TransferPayload → Ident
first_user tp = if swapped tp then tp.receiver_user_id else tp.sender_user_id

abbrev pub second_user : TransferPayload → Ident
second_user tp = if swapped tp then tp.sender_user_id else tp.receiver_user_id

-- The second lock, and what follows.
unfoldable pub lock_second : Time → Ident → TransferPayload → Ident → M TransferStatus
lock_second start event tp a = do
  second ← lock_main_account (second_user tp)
  option second (finalize_failed start event tp account_not_provisioned)
      λ b. move_funds start event tp (if swapped tp then b else a) (if swapped tp then a else b)

-- The body of `WithProcessTx`.
unfoldable pub apply_transfer : Service → Ident → TransferPayload → M TransferStatus
apply_transfer s event tp = do
  start ← now s.clock
  first ← lock_main_account (first_user tp)
  option first (finalize_failed start event tp account_not_provisioned)
      λ a. lock_second start event tp a

abbrev is_transfer : Aggregate → Bool
is_transfer transfer = true
is_transfer _ = false

-- A payload that does not decode: the event and the transfer are marked, one statement each.
unfoldable pub fail_malformed : Service → Ident → TransferPayload → M Done
fail_malformed s event tp = do
  mark_event_processed event EventStatus.failed
  start ← now s.clock
  mark_transfer_failed start tp.transfer_id malformed_payload

unfoldable pub process_payload : Service → Ident → TransferPayload × Bool → M Done
process_payload s event (tp, false) = fail_malformed s event tp
process_payload s event (tp, true) = do tx (apply_transfer s event tp); pure tt

-- What follows the look-up in `processed_events`.
unfoldable pub handle : Service → OutboxEnvelope → M Done
handle s e =
    branch (is_transfer e.aggregate) (process_payload s e.id (s.decode_transfer e.payload))
      (mark_event_processed e.id EventStatus.skipped)

unfoldable pub process_event : Service → OutboxEnvelope → M Done
process_event s e = do already ← is_event_processed e.id; branch already (pure tt) (handle s e)

unfoldable pub process : Service → Option OutboxEnvelope → M Done
process s none = pure tt
process s (some e) = process_event s e
