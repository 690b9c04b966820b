-- ===== src/Transfer/Calls.antt =====
-- One name for all the functions of the transfer service, for the `unfolding` line of a test.
use offline_pay.Base.Int.{wrap_int64}
use offline_pay.Domain.Validate.{validate_account_number, validate_amount, validate_reference}
use offline_pay.Store.Monad.{Done}
use offline_pay.Store.Calls.{store_calls}
use offline_pay.Store.Transfers.{
  user_by_account_number, user_by_id, transfer_by_ref, day_start, sum_sent_since,
  sum_sender_transfers_today, count_recent, count_recent_transfers_by_sender,
  exists_transfer_between, insert_accepted, insert_outbox, insert_fraud_score, lock_main_account,
  mark_transfer_settled, mark_transfer_failed, event_of, is_event_processed, with_event,
  mark_event_processed, finalize_transactions_for_transfer, oldest_first, claim_batch,
  mark_dispatched, bump_attempt,
}
use offline_pay.Transfer.Limits.{limits_for_tier, check_limits}
use offline_pay.Transfer.Scoring.{
  rule_velocity_sender_1m, rule_velocity_sender_1h, rule_new_account_large_transfer,
  rule_novel_receiver_high_amount, daily_share, rule_high_daily_share, default_rules, run_rules,
  first_hit, combine, score_transfer,
}
use offline_pay.Transfer.Accept.{
  resolve_receiver_user_id, get_sender_kyc_tier, validate_input, refuse_blocked, score_fraud,
  record_pair, record_flag, insert_transfer, accept_new, accept_transfer, initiate_transfer,
}
use offline_pay.Transfer.Process.{
  finalize_failed, settle, move_funds, lock_second, apply_transfer, fail_malformed, process_payload,
  handle, process_event, process,
}
use offline_pay.Transfer.Dispatch.{doubled, backoff, batch, dispatch_one, dispatch_all, tick}

unfoldable pub transfer_calls : Done
unfolding wrap_int64 validate_account_number validate_amount validate_reference store_calls
    user_by_account_number user_by_id transfer_by_ref day_start sum_sent_since
    sum_sender_transfers_today count_recent count_recent_transfers_by_sender exists_transfer_between
    insert_accepted insert_outbox insert_fraud_score lock_main_account mark_transfer_settled
    mark_transfer_failed event_of is_event_processed with_event mark_event_processed
    finalize_transactions_for_transfer oldest_first claim_batch mark_dispatched bump_attempt
    limits_for_tier check_limits rule_velocity_sender_1m rule_velocity_sender_1h
    rule_new_account_large_transfer rule_novel_receiver_high_amount daily_share
    rule_high_daily_share default_rules run_rules first_hit combine score_transfer
    resolve_receiver_user_id get_sender_kyc_tier validate_input refuse_blocked score_fraud
    record_pair record_flag insert_transfer accept_new accept_transfer initiate_transfer
    finalize_failed settle move_funds lock_second apply_transfer fail_malformed process_payload
    handle process_event process doubled backoff batch dispatch_one dispatch_all tick
transfer_calls = tt
