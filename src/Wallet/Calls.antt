-- ===== src/Wallet/Calls.antt =====
-- One name for all the functions of the wallet service, for the `unfolding` line of a test.
use offline_pay.Store.Monad.{Done}
use offline_pay.Store.Calls.{store_calls}
use offline_pay.Domain.Validate.{validate_ceiling}
use offline_pay.Wallet.Fund.{
  sign_ceiling, move, lien_for, issue_and_lien, fund_offline_in_tx, clamped, admit, register,
  fund_offline,
}
use offline_pay.Wallet.Release.{
  remaining_of, return_lien, release_ceiling, settled_active_ceiling, move_to_main_in_tx,
  move_to_main, drained_or_none, refresh, release_candidate, try_release, release_all,
  release_on_expiry,
}
use offline_pay.Wallet.Recover.{auto_settle, release_time, recover_in_tx, recover_offline_ceiling}

unfoldable pub wallet_calls : Done
unfolding store_calls validate_ceiling sign_ceiling move lien_for issue_and_lien fund_offline_in_tx
    clamped admit register fund_offline remaining_of return_lien release_ceiling
    settled_active_ceiling move_to_main_in_tx move_to_main drained_or_none refresh release_candidate
    try_release release_all release_on_expiry auto_settle release_time recover_in_tx
    recover_offline_ceiling
wallet_calls = tt
