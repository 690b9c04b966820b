-- ===== src/Transfer/Types.antt =====
-- transfer/service.go, processor.go and dispatcher.go: settings and arguments. What lies outside the
-- repository is a parameter: what the cache answers (`none` is a miss; what is written to it is not
-- read back here), what encoding/json makes of a payload (with `false` for an error, beside the value
-- that it leaves), and whether a publish is confirmed.
use offline_pay.Base.{ℕ, Bool, Option}
use offline_pay.Base.Int.{ℤ}
use offline_pay.Domain.Tokens.{Ident, Time, Bytes}
use offline_pay.Store.Rows.{OutboxPayload, TransferPayload, KycTier}
use offline_pay.Store.Transfers.{Zones}

pub record Service : Type 0 where
  pub supply : ℕ → Ident
  pub clock : ℕ → Time
  pub zones : Zones
  pub cached_receiver : Bytes → Option Ident
  pub cached_tier : Ident → Option KycTier
  pub scores_fraud : Bool
  pub decode_transfer : OutboxPayload → TransferPayload × Bool
  pub publishes : Ident → ℕ → Bool
  pub batch_size : ℤ

-- `InitiateTransferInput`
pub record InitiateTransferInput : Type 0 where
  pub sender_user_id : Ident
  pub receiver_account_number : Bytes
  pub amount : ℤ
  pub reference : Bytes
