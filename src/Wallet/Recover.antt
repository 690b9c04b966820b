-- ===== src/Wallet/Recover.antt =====
-- wallet/service.go: `RecoverOfflineCeiling`.
use offline_pay.Base.{some, ltb, ◌==◌, if◌then◌else◌}
use offline_pay.Base.Int.{ℤ, pos, leb_ℤ}
use offline_pay.Domain.Status.{recovery_pending}
use offline_pay.Domain.Tokens.{Ident, Time, add_time, CeilingToken}
use offline_pay.Store.Monad.{M, pure, fail_if, now, tx, ◌>>=◌, ◌>>◌, recovery_race_lost}
use offline_pay.Store.Ceilings.{mark_ceiling_recovery_pending}
use offline_pay.Wallet.Types.{Service, release_grace, default_auto_settle_timeout}
use offline_pay.Wallet.Release.{settled_active_ceiling}

-- `AutoSettleTimeout`, or its default where it is not positive.
unfoldable pub auto_settle : Service → ℤ
auto_settle s =
    if leb_ℤ s.auto_settle_timeout (pos 0)
    then default_auto_settle_timeout
    else s.auto_settle_timeout

-- max(expires_at, now) + auto_settle + grace
unfoldable pub release_time : Service → Time → Time → Time
unfolding auto_settle
release_time s expires_at now =
    add_time (add_time (if ltb expires_at now then now else expires_at) (auto_settle s))
      release_grace

unfoldable pub recover_in_tx : Service → Ident → M CeilingToken
recover_in_tx s user = do
  c ← settled_active_ceiling user
  time ← now s.clock
  rows ← mark_ceiling_recovery_pending c.id (release_time s c.expires_at time)
  fail_if (rows == 0) recovery_race_lost
  pure (record c {
    status = recovery_pending;
    release_after = some (release_time s c.expires_at time);
  })

unfoldable pub recover_offline_ceiling : Service → Ident → M CeilingToken
recover_offline_ceiling s user = tx (recover_in_tx s user)
