-- ===== src/Store/Calls.antt =====
-- One name for all the calls of the repository, for the `unfolding` line of a test.
use offline_pay.Base.Int.{◌+ℤ◌, ◌-ℤ◌, fits_int64}
use offline_pay.Store.Monad.{Done, steps}
use offline_pay.Store.Accounts.{
  account_of, get_account_id, get_account_balance, adjust, debit_account, force_debit_account,
  credit_account, insert_ledger_entry, insert_legs, post_ledger,
}
use offline_pay.Store.Ceilings.{
  get_ceiling_token, active_ceiling_of, get_active_ceiling, issue_ceiling_token,
  create_ceiling_token, live_ceiling_of, update_ceiling_status, mark_ceiling_recovery_pending,
  in_flight_payments, count_in_flight_payments, sum_settled, sum_settled_for_ceiling,
  list_releasable_expired_ceilings, get_bank_signing_key, get_active_bank_signing_key,
  get_user_payer_pubkey,
}
use offline_pay.Store.Payments.{
  payment_by_sequence, get_payment_by_sequence, violates_check, violates_unique, create_payment,
  insert_by_sequence, sort_by_sequence, list_pending_for_payer, apply_update, update_payment_status,
  insert_finalize_outbox,
}
use offline_pay.Store.Transactions.{
  record_transaction, get_transaction_anchor_for_payment, update_transaction_status, finalize_rows,
  finalize_paired_transactions,
}

unfoldable pub store_calls : Done
unfolding ◌+ℤ◌ ◌-ℤ◌ fits_int64 steps account_of get_account_id get_account_balance adjust
    debit_account force_debit_account credit_account insert_ledger_entry insert_legs post_ledger
    get_ceiling_token active_ceiling_of get_active_ceiling issue_ceiling_token create_ceiling_token
    live_ceiling_of update_ceiling_status mark_ceiling_recovery_pending in_flight_payments
    count_in_flight_payments sum_settled sum_settled_for_ceiling list_releasable_expired_ceilings
    get_bank_signing_key get_active_bank_signing_key get_user_payer_pubkey payment_by_sequence
    get_payment_by_sequence violates_check violates_unique create_payment insert_by_sequence
    sort_by_sequence list_pending_for_payer apply_update update_payment_status
    insert_finalize_outbox record_transaction get_transaction_anchor_for_payment
    update_transaction_status finalize_rows finalize_paired_transactions
store_calls = tt
