-- ===== src/Settlement/Types.antt =====
-- settlement/service.go: the service's settings, claims and results.
use offline_pay.Base.{ℕ, List, Option, some}
use offline_pay.Base.Int.{ℤ, pos}
use offline_pay.Crypto.{Primitives}
use offline_pay.Domain.Status.{PaymentStatus, rejected, BatchStatus}
use offline_pay.Domain.Tokens.{Ident, Time, no_id, PaymentToken, CeilingToken, PaymentRequest}
use offline_pay.Store.Rows.{Reason}

pub record Service : Type 0 where
  pub prim : Primitives
  -- `NewID` and `Clock`, by how often they have been called
  pub supply : ℕ → Ident
  pub clock : ℕ → Time
  pub clock_grace : ℤ
  pub auto_settle_timeout : ℤ
  pub suspense_account : Ident
  -- the order in which a Go map with these keys is ranged over
  pub range_order : List Ident → List Ident

-- `RequestGrace`, `DefaultClockGrace` and `DefaultAutoSettleTimeout`
abbrev pub request_grace : ℤ
request_grace = pos 300_000_000_000

abbrev pub default_clock_grace : ℤ
default_clock_grace = pos 1_800_000_000_000

abbrev pub default_auto_settle_timeout : ℤ
default_auto_settle_timeout = pos 259_200_000_000_000

pub record ClaimItem : Type 0 where
  pub payment : PaymentToken
  pub ceiling : CeilingToken
  pub request : PaymentRequest

pub record SettlementResult : Type 0 where
  pub transaction_id : Ident
  pub sequence_number : ℤ
  pub submitted_amount : ℤ
  pub settled_amount : ℤ
  pub status : PaymentStatus
  pub reason : Option Reason
  pub receiver_user_id : Ident

pub record SettlementBatch : Type 0 where
  pub id : Ident
  pub receiver_id : Ident
  pub total_submitted : ℕ
  pub total_rejected : ℕ
  pub total_amount : ℤ
  pub status : BatchStatus
  pub submitted_at : Time
  pub processed_at : Option Time

-- The result that `submitOne` starts from, with the status of a rejection and its reason.
unfoldable pub rejection : PaymentToken → Reason → SettlementResult
rejection p reason = record {
  transaction_id = no_id;
  sequence_number = p.sequence_number;
  submitted_amount = p.amount;
  settled_amount = pos 0;
  status = rejected;
  reason = some reason;
  receiver_user_id = no_id;
}
