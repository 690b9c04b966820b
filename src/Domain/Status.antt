-- ===== src/Domain/Status.antt =====
-- domain/transaction.go (the payment state machine), domain/ceiling.go and
-- domain/user_transaction.go (the other status and kind enumerations), domain/settlement.go.
use offline_pay.Base.{ℕ, Bool, true, false, Option, none, some, List, [], ◌∷◌, ◌==◌, if◌then◌else◌}

-- `TransactionStatus`
pub data PaymentStatus : Type 0 where
  queued submitted pending settled partially_settled rejected expired : PaymentStatus

abbrev rank : PaymentStatus → ℕ
rank PaymentStatus.queued = 0
rank PaymentStatus.submitted = 1
rank PaymentStatus.pending = 2
rank PaymentStatus.settled = 3
rank PaymentStatus.partially_settled = 4
rank PaymentStatus.rejected = 5
rank PaymentStatus.expired = 6

-- `==` on two statuses
abbrev pub same_status : PaymentStatus → PaymentStatus → Bool
same_status s t = rank s == rank t

-- A map from a status to its edges; a status with no entry is `none`.
unfoldable pub valid_transitions : PaymentStatus → Option (List PaymentStatus)
valid_transitions queued = some (submitted ∷ PaymentStatus.expired ∷ [])
valid_transitions submitted = some (PaymentStatus.pending ∷ rejected ∷ [])
valid_transitions PaymentStatus.pending = some (settled ∷ partially_settled ∷ rejected ∷ [])
valid_transitions _ = none

abbrev contains_status : List PaymentStatus → PaymentStatus → Bool
contains_status [] target = false
contains_status (v ∷ vs) target = if same_status v target then true else contains_status vs target

unfoldable pub can_transition_to : PaymentStatus → PaymentStatus → Bool
unfolding valid_transitions
can_transition_to s target = elim (valid_transitions s) [
  | none ↦ false
  | some valid ↦ contains_status valid target
]

unfoldable pub is_terminal : PaymentStatus → Bool
unfolding valid_transitions
is_terminal s = elim (valid_transitions s) [ none ↦ true | some _ ↦ false ]

-- `CeilingStatus`
pub data CeilingStatus : Type 0 where
  active expired exhausted revoked recovery_pending : CeilingStatus

abbrev pub is_active : CeilingStatus → Bool
is_active active = true
is_active _ = false

abbrev pub is_recovery_pending : CeilingStatus → Bool
is_recovery_pending recovery_pending = true
is_recovery_pending _ = false

-- `TransactionKind`
pub data TransactionKind : Type 0 where
  offline_fund offline_drain offline_expiry_release offline_recovery_release : TransactionKind
  offline_payment_sent offline_payment_received transfer_sent transfer_received : TransactionKind
  demo_mint : TransactionKind

-- `TransactionLifecycleStatus`
pub data LifecycleStatus : Type 0 where
  pending completed failed reversed : LifecycleStatus

-- `Direction` of a ledger leg or of a transactions row
pub data Direction : Type 0 where
  debit credit : Direction

-- `SettlementBatchStatus`
pub data BatchStatus : Type 0 where
  received processing completed failed : BatchStatus

-- `account_kind` of migration 0005
pub data AccountKind : Type 0 where
  main lien_holding receiving_pending suspense : AccountKind
