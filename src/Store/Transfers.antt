-- ===== src/Store/Transfers.antt =====
-- transferrepo/repo.go: online transfers, the events that were processed, and the outbox
-- (db/queries/transfers.sql, processed_events.sql, outbox.sql and users.sql). `now()` is the start of
-- the transaction, which each call is given.
use offline_pay.Base.{
  ℕ, zero, ◌+◌, ◌-◌, ◌%◌, suc, Bool, true, false, Option, none, some, List, [], ◌∷◌, ◌&&◌, ◌||◌,
  not, leb, ltb, ◌==◌, if◌then◌else◌, find, select, update_where, is_some,
}
use offline_pay.Base.Int.{ℤ, pos, ◌+ℤ◌, leb_ℤ, fits_int64}
use offline_pay.Domain.Status.{LifecycleStatus, Direction, debit, credit}
use offline_pay.Domain.Tokens.{Ident, Bytes, Time}
use offline_pay.Store.Rows.{
  Db, Transfer, TransferStatus, TransferFailure, Aggregate, OutboxPayload, OutboxRow, EventStatus,
  ProcessedEvent, FraudScore, User, TransactionRow, Reason, main,
}
use offline_pay.Store.Monad.{
  M, Done, check_violation, unique_violation, foreign_key_violation, out_of_range, pure, read,
  looking, modify, fail_if, option, ◌>>=◌, ◌>>◌,
}
use offline_pay.Store.Accounts.{account_of}
use offline_pay.Store.Payments.{same_bytes, insert_finalize_outbox}
use offline_pay.Store.Transactions.{finalize_paired_transactions}

abbrev pub has_user : Ident → Db → Bool
has_user id db = is_some (find (λ u. u.id == id) db.users)

-- `GetUserIDByAccountNumber`
unfoldable pub user_by_account_number : Bytes → Db → Option User
user_by_account_number number db = find (λ u. same_bytes u.account_number number) db.users

unfoldable pub user_by_id : Ident → Db → Option User
user_by_id id db = find (λ u. u.id == id) db.users

-- `GetTransferByRefProjection`
unfoldable pub transfer_by_ref : Ident → Bytes → Db → Option Transfer
transfer_by_ref sender ref db =
    find (λ t. (t.sender_user_id == sender) && same_bytes t.reference ref) db.transfers

-- Offsets of two time zones from UTC, in nanoseconds to the east: that of Africa/Lagos in the time
-- zone data, and that of the database session.
pub record Zones : Type 0 where
  pub lagos : ℕ
  pub session : ℕ

-- one day in nanoseconds
abbrev pub day : ℕ
day = 86_400_000_000_000

-- `date_trunc('day', now() AT TIME ZONE 'Africa/Lagos')`, a timestamp without a zone: the comparison
-- with `created_at` reads it in the zone of the session.
unfoldable pub day_start : Zones → Time → Time
day_start z now = let local = now + z.lagos in local - local % day - z.session

-- `status IN ('ACCEPTED','PROCESSING','SETTLED')`
abbrev pub is_spent : TransferStatus → Bool
is_spent TransferStatus.failed = false
is_spent _ = true

unfoldable pub sum_sent_since : Time → Ident → List Transfer → ℤ
sum_sent_since from sender [] = pos 0
sum_sent_since from sender (t ∷ ts) =
    (if (t.sender_user_id == sender) && is_spent t.status && leb from t.created_at
      then t.amount
      else pos 0)
    +ℤ sum_sent_since from sender ts

-- `SumSenderTransfersToday`; the cast of the sum to BIGINT fails out of range.
unfoldable pub sum_sender_transfers_today : Zones → Time → Ident → M ℤ
unfolding day_start sum_sent_since fits_int64
sum_sender_transfers_today z now sender = do
  total ← read λ db. sum_sent_since (day_start z now) sender db.transfers
  fail_if (not (fits_int64 total)) out_of_range
  pure total

-- `created_at >= now() - $2::interval`; `LIMIT $3` bounds the count.
unfoldable pub count_recent : Time → Ident → ℕ → List Transfer → ℕ
count_recent from sender limit [] = 0
count_recent from sender limit (t ∷ ts) =
    let rest = count_recent from sender limit ts in
    if (t.sender_user_id == sender) && leb from t.created_at
    then (if ltb rest limit then suc rest else rest)
    else rest

unfoldable pub count_recent_transfers_by_sender : Time → Ident → ℕ → ℕ → M ℕ
unfolding count_recent
count_recent_transfers_by_sender now sender window limit =
    read λ db. count_recent (now - window) sender limit db.transfers

unfoldable pub exists_transfer_between : Ident → Ident → M Bool
exists_transfer_between sender receiver = read λ db.
    is_some
      (find (λ t. (t.sender_user_id == sender) && (t.receiver_user_id == receiver)) db.transfers)

-- `InsertAccepted`, with the constraints of migration 0016.
unfoldable pub insert_accepted : Transfer → M Transfer
insert_accepted t = looking λ db. do
  fail_if (leb_ℤ t.amount (pos 0)) check_violation
  fail_if
      (is_some (find (λ u. u.id == t.id) db.transfers)
        || is_some (
            find (λ u. (u.sender_user_id == t.sender_user_id) && same_bytes u.reference t.reference)
              db.transfers))
      unique_violation
  fail_if (not (has_user t.sender_user_id db) || not (has_user t.receiver_user_id db))
      foreign_key_violation
  modify λ now_db. record now_db { transfers = t ∷ now_db.transfers }
  pure t

unfoldable pub insert_outbox : Ident → Ident → OutboxPayload → M Done
unfolding insert_finalize_outbox
insert_outbox id aggregate_id payload = insert_finalize_outbox (record {
  id = id;
  aggregate = Aggregate.transfer;
  aggregate_id = aggregate_id;
  payload = payload;
  dispatched_at = none;
  attempts = 0;
  next_attempt_at = none;
})

-- `InsertFraudScoreInTx`
unfoldable pub insert_fraud_score : FraudScore → M Done
insert_fraud_score score = looking λ db. do
  fail_if (is_some (find (λ s. s.id == score.id) db.fraud_scores)) unique_violation
  modify λ now_db. record now_db { fraud_scores = score ∷ now_db.fraud_scores }

-- `LockMainAccountForUser`, where a user without an account is no error yet.
unfoldable pub lock_main_account : Ident → M (Option Ident)
unfolding account_of
lock_main_account user = do
  row ← read (account_of user main)
  option row (pure none) (λ a. pure (some a.id))

abbrev pub settle_transfer : Time → Transfer → Transfer
settle_transfer now t = record t {
  status = TransferStatus.settled;
  failure_reason = none;
  settled_at = some now;
}

abbrev pub fail_transfer : Time → TransferFailure → Transfer → Transfer
fail_transfer now reason t = record t {
  status = TransferStatus.failed;
  failure_reason = some reason;
  settled_at = some now;
}

unfoldable pub mark_transfer_settled : Time → Ident → M Done
mark_transfer_settled now id = modify λ db. record db {
  transfers = update_where (λ t. t.id == id) (settle_transfer now) db.transfers;
}

unfoldable pub mark_transfer_failed : Time → Ident → TransferFailure → M Done
mark_transfer_failed now id reason = modify λ db. record db {
  transfers = update_where (λ t. t.id == id) (fail_transfer now reason) db.transfers;
}

unfoldable pub event_of : Ident → Db → Option ProcessedEvent
event_of id db = find (λ e. e.outbox_id == id) db.processed_events

unfoldable pub is_event_processed : Ident → M Bool
unfolding event_of
is_event_processed id = read λ db. is_some (event_of id db)

-- `INSERT ... ON CONFLICT (outbox_id) DO NOTHING`
unfoldable pub with_event : Ident → EventStatus → List ProcessedEvent → List ProcessedEvent
with_event id status events =
    if is_some (find (λ e. e.outbox_id == id) events)
    then events
    else (record { outbox_id = id; status = status }) ∷ events

unfoldable pub mark_event_processed : Ident → EventStatus → M Done
unfolding with_event
mark_event_processed id status =
    modify λ db. record db { processed_events = with_event id status db.processed_events }

abbrev is_debit_of : Ident → TransactionRow → Bool
is_debit_of transfer t = names t.transfer_id && debits t.direction
  where
    names : Option Ident → Bool
    names none = false
    names (some id) = id == transfer

    debits : Direction → Bool
    debits debit = true
    debits credit = false

-- `FinalizeTransactionsForTransfer`: both rows of the pair, and nothing where there is none.
unfoldable pub finalize_transactions_for_transfer :
    Ident → LifecycleStatus → Option ℤ → Option Reason → M Done
unfolding finalize_paired_transactions
finalize_transactions_for_transfer transfer status settled reason = do
  anchor ← read λ db. find (is_debit_of transfer) db.transactions
  option anchor (pure tt) λ t. finalize_paired_transactions t.group_id status settled reason

-- `ClaimOutboxBatch`: due rows, oldest first, at most so many. Rows that another dispatcher has locked
-- are skipped; there is one session here.
abbrev is_due : Time → OutboxRow → Bool
is_due now row = undispatched row.dispatched_at && due row.next_attempt_at
  where
    undispatched : Option Time → Bool
    undispatched none = true
    undispatched (some _) = false

    due : Option Time → Bool
    due none = true
    due (some t) = leb t now

abbrev pub take_rows : ℕ → List OutboxRow → List OutboxRow
take_rows zero rows = []
take_rows (suc n) [] = []
take_rows (suc n) (row ∷ rows) = row ∷ take_rows n rows

unfoldable pub oldest_first : List OutboxRow → List OutboxRow → List OutboxRow
oldest_first [] acc = acc
oldest_first (row ∷ rows) acc = oldest_first rows (row ∷ acc)

unfoldable pub claim_batch : Time → ℕ → M (List OutboxRow)
unfolding oldest_first
claim_batch now size = read λ db. take_rows size (oldest_first (select (is_due now) db.outbox) [])

abbrev write_row : Ident → (OutboxRow → OutboxRow) → Db → Db
write_row id f db = record db { outbox = update_where (λ row. row.id == id) f db.outbox }

unfoldable pub mark_dispatched : Time → Ident → M Done
mark_dispatched now id = modify (write_row id (λ row. record row { dispatched_at = some now }))

unfoldable pub bump_attempt : Ident → Time → M Done
bump_attempt id next =
    modify (
      write_row id (λ row. record row { attempts = suc row.attempts; next_attempt_at = some next }))
