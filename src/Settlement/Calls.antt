-- ===== src/Settlement/Calls.antt =====
-- One name for all the functions of the settlement service, for the `unfolding` line of a test.
use offline_pay.Store.Monad.{Done}
use offline_pay.Store.Calls.{store_calls}
use offline_pay.Domain.Tokens.{card_payload, request_payload}
use offline_pay.Crypto.{
  verify_ceiling, verify_payment, verify_display_card, verify_request, hash_request,
}
use offline_pay.Settlement.Types.{rejection}
use offline_pay.Settlement.Claim.{
  check_parties, bank_signed, payer_signed, card_signed, receiver_signed, card_key,
  check_request_signatures, check_signatures, check_request_terms, check_binding, check_window,
  live_status, check_live,
}
use offline_pay.Settlement.Accept.{hold_in_pending, record_and_hold, accept_body, accept}
use offline_pay.Settlement.Enqueue.{
  enqueue_finalize, enqueue_all, list_payers_with_stale_pending, auto_settle_sweep,
}
use offline_pay.Settlement.Submit.{
  existing_result, unless_rejected, accept_new, dedupe_or_accept, submit_in_window, submit_bound,
  submit_signed, submit_one, tally, submit_all, submit_claim,
}
use offline_pay.Settlement.Finalize.{
  allot, settled_legs, unsettled_legs, move_settled, reverse_unsettled, move_money, settle_one,
  settle_all, finalize_pending, finalize_sorted, finalize_body, finalize_for_payer,
}

unfoldable pub settlement_calls : Done
unfolding store_calls card_payload request_payload verify_ceiling verify_payment verify_display_card
    verify_request hash_request rejection check_parties bank_signed payer_signed card_signed
    receiver_signed card_key check_request_signatures check_signatures check_request_terms
    check_binding check_window live_status check_live hold_in_pending record_and_hold accept_body
    accept enqueue_finalize enqueue_all list_payers_with_stale_pending auto_settle_sweep
    existing_result unless_rejected accept_new dedupe_or_accept submit_in_window submit_bound
    submit_signed submit_one tally submit_all submit_claim allot settled_legs unsettled_legs
    move_settled reverse_unsettled move_money settle_one settle_all finalize_pending finalize_sorted
    finalize_body finalize_for_payer
settlement_calls = tt
