-- ===== src/Transfer/Accept.antt =====
-- transfer/service.go: `InitiateTransfer`. The ids are drawn in the order of the calls of `newID`.
use offline_pay.Base.{Bool, true, false, none, some, List, [], ◌==◌, is_some, map}
use offline_pay.Base.Int.{ℤ}
use offline_pay.Domain.Status.{
  Direction, debit, credit, LifecycleStatus, TransactionKind, transfer_sent, transfer_received,
}
use offline_pay.Domain.Tokens.{Ident, Time, Bytes, no_id}
use offline_pay.Domain.Validate.{validate_account_number, validate_amount, validate_reference}
use offline_pay.Store.Rows.{
  KycTier, Transfer, TransferStatus, TransactionRow, TransferPayload, transfer_event, RuleName,
}
use offline_pay.Store.Monad.{
  M, Done, pure, fail, one, read, fail_if, when, branch, option, emit, new_id, now, tx,
  score_blocked, sender_required, bad_account_number, bad_amount, bad_reference, receiver_not_found,
  self_transfer, fraud_blocked, ◌>>=◌, ◌>>◌,
}
use offline_pay.Store.Transactions.{record_transaction}
use offline_pay.Store.Transfers.{
  user_by_account_number, user_by_id, transfer_by_ref, insert_accepted, insert_outbox,
  insert_fraud_score,
}
use offline_pay.Transfer.Types.{Service, InitiateTransferInput}
use offline_pay.Transfer.Limits.{limits_for_tier, check_limits}
use offline_pay.Transfer.Scoring.{Score, Decision, unscored, flagged, blocked, score_transfer}

-- `ResolveReceiverUserID`: the cache, else the table.
unfoldable pub resolve_receiver_user_id : Service → Bytes → M Ident
unfolding user_by_account_number
resolve_receiver_user_id s number =
    option (s.cached_receiver number)
      (do
        row ← read (user_by_account_number number)
        option row (fail receiver_not_found) (λ u. pure u.id))
      (λ id. pure id)

unfoldable pub get_sender_kyc_tier : Service → Ident → M KycTier
unfolding user_by_id
get_sender_kyc_tier s user =
    option (s.cached_tier user) (do u ← one (user_by_id user); pure u.kyc_tier) (λ tier. pure tier)

-- The checks and look-ups in front of the transaction.
unfoldable pub validate_input : InitiateTransferInput → M Done
validate_input i = do
  fail_if (i.sender_user_id == no_id) sender_required
  fail_if (is_some (validate_account_number i.receiver_account_number)) bad_account_number
  fail_if (is_some (validate_amount i.amount)) bad_amount
  fail_if (is_some (validate_reference i.reference)) bad_reference

abbrev pub is_flagged : Decision → Bool
is_flagged flagged = true
is_flagged _ = false

abbrev pub is_blocked : Decision → Bool
is_blocked blocked = true
is_blocked _ = false

abbrev rule_names : Score → List RuleName
rule_names sc = map (λ h. h.name) sc.rule_hits

-- `RecordScore` of a block: the row is written outside the transaction.
unfoldable pub refuse_blocked : Service → InitiateTransferInput → Score → M Done
refuse_blocked s i sc = when (is_blocked sc.decision) (do
  id ← new_id s.supply
  emit (score_blocked i.sender_user_id sc.rule (rule_names sc) i.amount)
  fail fraud_blocked)

-- The scoring, where a fraud service is wired; the zero `Score` where none is.
unfoldable pub score_fraud : Service → Time → InitiateTransferInput → Ident → KycTier → M Score
unfolding user_by_id
score_fraud s start i receiver tier =
    branch s.scores_fraud
      (do
        u ← one (user_by_id i.sender_user_id)
        sc ←
            score_transfer (record { zones = s.zones; now = start })
              (record {
                sender_user_id = i.sender_user_id;
                receiver_user_id = receiver;
                amount = i.amount;
                daily_tier_limit = (limits_for_tier tier).daily_max;
                sender_account_age_hours = u.account_age_hours;
              })
        refuse_blocked s i sc
        pure sc)
      (pure (record { decision = unscored; rule = none; rule_hits = [] }))

abbrev pub new_transfer : Ident → Time → InitiateTransferInput → Ident → Bool → Transfer
new_transfer id now i receiver flag = record {
  id = id;
  sender_user_id = i.sender_user_id;
  receiver_user_id = receiver;
  receiver_account_number = i.receiver_account_number;
  amount = i.amount;
  status = TransferStatus.accepted;
  reference = i.reference;
  failure_reason = none;
  flagged = flag;
  created_at = now;
  settled_at = none;
}

-- One of the paired rows of a transfer.
abbrev pub transfer_row :
    Ident → Ident → Ident → Ident → TransactionKind → Direction → ℤ → Ident → TransactionRow
transfer_row id group user other kind direction amount transfer = record {
  id = id;
  group_id = group;
  user_id = user;
  counterparty = some other;
  kind = kind;
  status = LifecycleStatus.pending;
  direction = direction;
  amount = amount;
  settled_amount = none;
  payment_token_id = none;
  transfer_id = some transfer;
  ceiling_id = none;
  failure_reason = none;
}

unfoldable pub record_pair : Service → Transfer → M Done
record_pair s t = do
  group ← new_id s.supply
  sent ← new_id s.supply
  record_transaction (
      transfer_row sent group t.sender_user_id t.receiver_user_id transfer_sent debit t.amount t.id)
  received ← new_id s.supply
  record_transaction (
      transfer_row received group t.receiver_user_id t.sender_user_id transfer_received credit
        t.amount t.id)

-- `RecordScore` of a flag, in the transaction.
unfoldable pub record_flag : Service → Transfer → Score → M Done
record_flag s t sc = when (is_flagged sc.decision) (do
  id ← new_id s.supply
  insert_fraud_score (record {
    id = id;
    transfer_id = t.id;
    sender_id = t.sender_user_id;
    rule = sc.rule;
    rule_hits = rule_names sc;
    amount = t.amount;
  }))

abbrev pub payload_of : Transfer → TransferPayload
payload_of t = record {
  transfer_id = t.id;
  sender_user_id = t.sender_user_id;
  receiver_user_id = t.receiver_user_id;
  receiver_account_number = t.receiver_account_number;
  amount = t.amount;
  reference = t.reference;
}

unfoldable pub insert_transfer : Service → Time → InitiateTransferInput → Ident → Score → M Transfer
insert_transfer s start i receiver sc = do
  id ← new_id s.supply
  t ← insert_accepted (new_transfer id start i receiver (is_flagged sc.decision))
  record_pair s t
  record_flag s t sc
  event ← new_id s.supply
  insert_outbox event t.id (transfer_event (payload_of t))
  pure t

-- Limits, scoring and writes, for a reference that is new.
unfoldable pub accept_new : Service → Time → InitiateTransferInput → Ident → KycTier → M Transfer
accept_new s start i receiver tier = do
  check_limits s.zones start (limits_for_tier tier) i.sender_user_id i.amount
  sc ← score_fraud s start i receiver tier
  insert_transfer s start i receiver sc

-- The body of `AcceptTx`: an earlier transfer with the reference is returned as it is.
unfoldable pub accept_transfer : Service → InitiateTransferInput → Ident → KycTier → M Transfer
unfolding transfer_by_ref
accept_transfer s i receiver tier = do
  start ← now s.clock
  existing ← read (transfer_by_ref i.sender_user_id i.reference)
  option existing (accept_new s start i receiver tier) (λ t. pure t)

unfoldable pub initiate_transfer : Service → InitiateTransferInput → M Transfer
initiate_transfer s i = do
  validate_input i
  receiver ← resolve_receiver_user_id s i.receiver_account_number
  fail_if (receiver == i.sender_user_id) self_transfer
  tier ← get_sender_kyc_tier s i.sender_user_id
  tx (accept_transfer s i receiver tier)
