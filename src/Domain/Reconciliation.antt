-- ===== src/Domain/Reconciliation.antt =====
-- domain/reconciliation.go: the record of a reconciliation run. The texts of a discrepancy are values:
-- a field's name, and the expected and the actual value that it shows.
use offline_pay.Base.{List}
use offline_pay.Base.Int.{ℤ}
use offline_pay.Domain.Status.{PaymentStatus, AccountKind}
use offline_pay.Domain.Tokens.{Ident, Time}

pub data Field : Type 0 where
  account_balance : Ident → AccountKind → Field
  ceiling_overdraw : Ident → Field
  existence amount status : Field

pub data Shown : Type 0 where
  number at_most : ℤ → Shown
  payment_status : PaymentStatus → Shown
  present_on_server absent present_on_client missing : Shown

pub data Severity : Type 0 where
  info warning critical : Severity

pub record Discrepancy : Type 0 where
  pub transaction_id : Ident
  pub field : Field
  pub expected : Shown
  pub actual : Shown
  pub severity : Severity

pub data ReconciliationType : Type 0 where
  payer merchant ledger : ReconciliationType

pub data ReconciliationStatus : Type 0 where
  clean discrepancy in_progress : ReconciliationStatus

-- `EntityID` is the text "system" in the runs modelled here, and is left out.
pub record ReconciliationRecord : Type 0 where
  pub id : Ident
  pub type_of_run : ReconciliationType
  pub run_at : Time
  pub status : ReconciliationStatus
  pub discrepancies : List Discrepancy
