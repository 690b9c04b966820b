-- ===== src/Transfer/Limits.antt =====
-- transfer/limits.go: the limits of a KYC tier, and their check as `InitiateTransfer` makes it.
use offline_pay.Base.Int.{ℤ, pos, ◌+ℤ◌, wrap_int64, ltb_ℤ, eqb_ℤ}
use offline_pay.Domain.Tokens.{Ident, Time}
use offline_pay.Store.Rows.{KycTier, tier_zero, tier_one, tier_two, tier_three, unknown}
use offline_pay.Store.Monad.{
  M, Done, fail_if, tier_blocked, exceeds_single_limit, exceeds_daily_limit, ◌>>=◌, ◌>>◌,
}
use offline_pay.Store.Transfers.{Zones, sum_sender_transfers_today}

pub record TierLimits : Type 0 where
  pub single_max : ℤ
  pub daily_max : ℤ

-- `math.MaxInt64`
abbrev pub max_int64 : ℤ
max_int64 = pos 9_223_372_036_854_775_807

abbrev limits : ℤ → ℤ → TierLimits
limits single daily = record { single_max = single; daily_max = daily }

unfoldable pub limits_for_tier : KycTier → TierLimits
limits_for_tier tier_one = limits (pos 1_000_000) (pos 3_000_000)
limits_for_tier tier_two = limits (pos 5_000_000) (pos 30_000_000)
limits_for_tier tier_three = limits max_int64 max_int64
limits_for_tier tier_zero = limits (pos 0) (pos 0)
limits_for_tier unknown = limits (pos 0) (pos 0)

-- The three checks, in order; the daily sum is one of int64.
unfoldable pub check_limits : Zones → Time → TierLimits → Ident → ℤ → M Done
check_limits z now l sender amount = do
  fail_if (eqb_ℤ l.single_max (pos 0)) tier_blocked
  fail_if (ltb_ℤ l.single_max amount) exceeds_single_limit
  spent ← sum_sender_transfers_today z now sender
  fail_if (ltb_ℤ l.daily_max (wrap_int64 (spent +ℤ amount))) exceeds_daily_limit
