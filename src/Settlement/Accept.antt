-- ===== src/Settlement/Accept.antt =====
-- Step 6 of `submitOne` (settlement/service.go): one transaction that records the payment as PENDING,
-- writes the paired transactions rows, and moves the amount from suspense to the payee's pending
-- account.
use offline_pay.Base.{none, some, [], ◌∷◌}
use offline_pay.Base.Int.{ℤ, pos}
use offline_pay.Domain.Status.{
  PaymentStatus, offline_payment_sent, offline_payment_received, LifecycleStatus, debit, credit,
}
use offline_pay.Domain.Tokens.{Ident, Time, no_id}
use offline_pay.Store.Rows.{receiving_pending, Payment, TransactionRow}
use offline_pay.Store.Monad.{M, Done, pure, new_id, tx, ◌>>=◌, ◌>>◌}
use offline_pay.Store.Accounts.{get_account_id, post_ledger, force_debit_account, credit_account}
use offline_pay.Store.Payments.{create_payment, StatusUpdate, update_payment_status}
use offline_pay.Store.Transactions.{record_transaction}
use offline_pay.Settlement.Types.{Service, ClaimItem, SettlementResult}

-- The row that `CreatePayment` inserts; `SubmittedByUserID` is NULL for "".
abbrev pub pending_payment : Ident → Ident → ClaimItem → Payment
pending_payment id submitter item = record {
  id = id;
  ceiling_id = item.ceiling.id;
  payer_id = item.payment.payer_id;
  payee_id = item.payment.payee_id;
  amount = item.payment.amount;
  sequence_number = item.payment.sequence_number;
  remaining_ceiling = item.payment.remaining_ceiling;
  settled_amount = pos 0;
  signed_at = item.payment.timestamp;
  payer_signature = item.payment.payer_signature;
  status = PaymentStatus.pending;
  rejection_reason = none;
  settlement_batch_id = none;
  submitted_at = none;
  settled_at = none;
  session_nonce = item.payment.session_nonce;
  request_hash = item.payment.request_hash;
  request_amount = item.request.amount;
  submitted_by = some submitter;
}

abbrev sent_row : Ident → Ident → ClaimItem → TransactionRow
sent_row anchor payment item = record {
  id = anchor;
  group_id = anchor;
  user_id = item.payment.payer_id;
  counterparty = some item.payment.payee_id;
  kind = offline_payment_sent;
  status = LifecycleStatus.pending;
  direction = debit;
  amount = item.payment.amount;
  settled_amount = none;
  payment_token_id = some payment;
  transfer_id = none;
  ceiling_id = none;
  failure_reason = none;
}

abbrev received_row : Ident → Ident → Ident → ClaimItem → TransactionRow
received_row id anchor payment item = record {
  id = id;
  group_id = anchor;
  user_id = item.payment.payee_id;
  counterparty = some item.payment.payer_id;
  kind = offline_payment_received;
  status = LifecycleStatus.pending;
  direction = credit;
  amount = item.payment.amount;
  settled_amount = none;
  payment_token_id = some payment;
  transfer_id = none;
  ceiling_id = none;
  failure_reason = none;
}

-- "Stamp submitted_at + batch id."
abbrev pub stamp : Ident → Time → StatusUpdate
stamp batch now = record {
  status = PaymentStatus.pending;
  settled_amount = pos 0;
  rejection_reason = none;
  settlement_batch_id = some batch;
  submitted_at = some now;
  settled_at = none;
}

-- The postings and the balances of Phase 4a.
unfoldable pub hold_in_pending : Service → Ident → Ident → ℤ → M Done
hold_in_pending s anchor receiver_pending amount = do
  post_ledger anchor (
      record { account_id = s.suspense_account; direction = debit; amount = amount }
      ∷ record { account_id = receiver_pending; direction = credit; amount = amount }
      ∷ [])
  force_debit_account s.suspense_account amount
  credit_account receiver_pending amount

abbrev pub accepted : Ident → ClaimItem → SettlementResult
accepted payment item = record {
  transaction_id = payment;
  sequence_number = item.payment.sequence_number;
  submitted_amount = item.payment.amount;
  settled_amount = pos 0;
  status = PaymentStatus.pending;
  reason = none;
  receiver_user_id = no_id;
}

-- The writes of the transaction, once the ids are there.
unfoldable pub record_and_hold :
    Service → Ident → Ident → ClaimItem → Time → Ident → Ident → M SettlementResult
unfolding hold_in_pending
record_and_hold s batch submitter item now payment receiver_pending = do
  create_payment (pending_payment payment submitter item)
  anchor ← new_id s.supply
  receiver_row ← new_id s.supply
  record_transaction (sent_row anchor payment item)
  record_transaction (received_row receiver_row anchor payment item)
  hold_in_pending s anchor receiver_pending item.payment.amount
  update_payment_status payment (stamp batch now)
  pure (accepted payment item)

unfoldable pub accept_body : Service → Ident → Ident → ClaimItem → Time → M SettlementResult
unfolding record_and_hold
accept_body s batch submitter item now = do
  payment ← new_id s.supply
  receiver_pending ← get_account_id item.payment.payee_id receiving_pending
  record_and_hold s batch submitter item now payment receiver_pending

unfoldable pub accept : Service → Ident → Ident → ClaimItem → Time → M SettlementResult
unfolding accept_body
accept s batch submitter item now = tx (accept_body s batch submitter item now)
