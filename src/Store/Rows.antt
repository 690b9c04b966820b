-- ===== src/Store/Rows.antt =====
-- The rows of the tables that the wallet, settlement and transfer services share, after the
-- migrations in backend/db/migrations and the generated models over them. Creation and update
-- stamps, memos and the row ids of ledger entries are never read back by the modelled code and are
-- left out.
use offline_pay.Base.{ℕ, Bool, List, Option}
use offline_pay.Base.Int.{ℤ}
use offline_pay.Domain.Reconciliation.{ReconciliationRecord}
use offline_pay.Domain.Status.{PaymentStatus, TransactionKind, LifecycleStatus, Direction}
pub use offline_pay.Domain.Status.{AccountKind, main, lien_holding, receiving_pending, suspense}
use offline_pay.Domain.Tokens.{Ident, Bytes, Time, CeilingToken, BankSigningKey}

pub record Account : Type 0 where
  pub id : Ident
  pub user_id : Ident
  pub kind : AccountKind
  pub balance : ℤ

pub record LedgerEntry : Type 0 where
  pub txn_id : Ident
  pub account_id : Ident
  pub direction : Direction
  pub amount : ℤ

-- Why a transfer failed.
pub data TransferFailure : Type 0 where
  malformed_payload account_not_provisioned insufficient_balance : TransferFailure

-- Why a payment was rejected, or settled short.
pub data Reason : Type 0 where
  self_pay ceiling_expired ceiling_revoked ceiling_recovery_closed : Reason
  bad_bank_signature bad_payer_signature bad_receiver_signature bad_display_card : Reason
  sequence_below_start ceiling_mismatch payer_id_mismatch submitter_not_party : Reason
  request_receiver_mismatch request_nonce_mismatch request_hash_mismatch : Reason
  request_amount_mismatch request_expired request_display_card_user : Reason
  ceiling_exhausted : Reason
  ceiling_short_by : ℤ → Reason
  transfer_failed : TransferFailure → Reason

-- `payment_tokens`, read back as `domain.Transaction`
pub record Payment : Type 0 where
  pub id : Ident
  pub ceiling_id : Ident
  pub payer_id : Ident
  pub payee_id : Ident
  pub amount : ℤ
  pub sequence_number : ℤ
  pub remaining_ceiling : ℤ
  pub settled_amount : ℤ
  pub signed_at : Time
  pub payer_signature : Bytes
  pub status : PaymentStatus
  pub rejection_reason : Option Reason
  pub settlement_batch_id : Option Ident
  pub submitted_at : Option Time
  pub settled_at : Option Time
  pub session_nonce : Bytes
  pub request_hash : Bytes
  pub request_amount : ℤ
  pub submitted_by : Option Ident

-- `transactions`, the business-event log
pub record TransactionRow : Type 0 where
  pub id : Ident
  pub group_id : Ident
  pub user_id : Ident
  pub counterparty : Option Ident
  pub kind : TransactionKind
  pub status : LifecycleStatus
  pub direction : Direction
  pub amount : ℤ
  pub settled_amount : Option ℤ
  pub payment_token_id : Option Ident
  pub transfer_id : Option Ident
  pub ceiling_id : Option Ident
  pub failure_reason : Option Reason

-- `FinalizePayerPayload.Reason`
pub data FinalizeReason : Type 0 where
  claim_accepted sync_requested sweep : FinalizeReason

-- domain/outbox.go: the payload of a transfer event
pub record TransferPayload : Type 0 where
  pub transfer_id : Ident
  pub sender_user_id : Ident
  pub receiver_user_id : Ident
  pub receiver_account_number : Bytes
  pub amount : ℤ
  pub reference : Bytes

-- The JSON value in `outbox.payload`: what one of the two producers marshalled.
pub data OutboxPayload : Type 0 where
  transfer_event : TransferPayload → OutboxPayload
  finalize_payer : Ident → FinalizeReason → Time → OutboxPayload

-- `outbox.aggregate`; `other` is any text that no consumer knows.
pub data Aggregate : Type 0 where
  transfer settlement_finalize other : Aggregate

-- `outbox`, newest row first. In `next_attempt_at`, `none` is the default, the time of the insert.
pub record OutboxRow : Type 0 where
  pub id : Ident
  pub aggregate : Aggregate
  pub aggregate_id : Ident
  pub payload : OutboxPayload
  pub dispatched_at : Option Time
  pub attempts : ℕ
  pub next_attempt_at : Option Time

-- `OutboxEnvelope`: the message of a row
pub record OutboxEnvelope : Type 0 where
  pub id : Ident
  pub aggregate : Aggregate
  pub aggregate_id : Ident
  pub payload : OutboxPayload

-- `transfers.status`: domain/transfer.go
pub data TransferStatus : Type 0 where
  accepted processing settled failed : TransferStatus

-- `transfers`, newest row first
pub record Transfer : Type 0 where
  pub id : Ident
  pub sender_user_id : Ident
  pub receiver_user_id : Ident
  pub receiver_account_number : Bytes
  pub amount : ℤ
  pub status : TransferStatus
  pub reference : Bytes
  pub failure_reason : Option TransferFailure
  pub flagged : Bool
  pub created_at : Time
  pub settled_at : Option Time

-- `processed_events.status`
pub data EventStatus : Type 0 where
  settled skipped failed : EventStatus

pub record ProcessedEvent : Type 0 where
  pub outbox_id : Ident
  pub status : EventStatus

-- The names of the rules of fraud/transfer_scorer.go.
pub data RuleName : Type 0 where
  velocity_sender_1m velocity_sender_1h new_account_large_transfer : RuleName
  novel_receiver_high_amount high_daily_share : RuleName

-- `fraud_scores`, the rows of flagged transfers
pub record FraudScore : Type 0 where
  pub id : Ident
  pub transfer_id : Ident
  pub sender_id : Ident
  pub rule : Option RuleName
  pub rule_hits : List RuleName
  pub amount : ℤ

-- `users.kyc_tier`; `unknown` is any other text.
pub data KycTier : Type 0 where
  tier_zero tier_one tier_two tier_three unknown : KycTier

-- `users`, as far as the transfer service reads it; the age is that of the account, in whole hours.
pub record User : Type 0 where
  pub id : Ident
  pub account_number : Bytes
  pub kyc_tier : KycTier
  pub account_age_hours : ℤ

pub record Db : Type 0 where
  pub accounts : List Account
  pub ledger : List LedgerEntry
  pub ceilings : List CeilingToken
  pub payments : List Payment
  pub transactions : List TransactionRow
  pub outbox : List OutboxRow
  pub transfers : List Transfer
  pub processed_events : List ProcessedEvent
  pub fraud_scores : List FraudScore
  pub users : List User
  pub reconciliation_runs : List ReconciliationRecord
  pub bank_keys : List BankSigningKey
  pub active_bank_key : Option BankSigningKey
  pub payer_pubkeys : Ident → Option Bytes
