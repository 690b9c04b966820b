-- ===== src/Tests/Ceilings.antt =====
-- The life of a ceiling.
use offline_pay.Base.{◌≡◌, refl, some, length, ltb, false, [], ◌∷◌, ◌+◌, ◌≤◌, ◌<◌, if◌then◌else◌}
use offline_pay.Base.Int.{ℤ, pos, ◌<ℤ◌, ltb_ℤ}
use offline_pay.Domain.Status.{expired, revoked}
use offline_pay.Domain.Tokens.{CeilingToken}
use offline_pay.Store.Monad.{World, ok, world_of}
use offline_pay.Store.Ceilings.{active_ceiling_of, in_flight_payments, stamp_recovery}
use offline_pay.Store.Gauge.Conserved.{Conserved}
use offline_pay.Wallet.Fund.{fund_offline, new_ceiling, new_payload}
use offline_pay.Wallet.Release.{move_to_main, refresh, release_candidate, release_on_expiry}
use offline_pay.Wallet.Recover.{auto_settle, release_time, recover_offline_ceiling}
use offline_pay.Wallet.Calls.{wallet_calls}
use offline_pay.Wallet.Conserved.{
  fund_offline-Conserved, move_to_main-Conserved, refresh-Conserved, release_on_expiry-Conserved,
}
use offline_pay.Wallet.Effects.{Released, move_to_main-Released}
use offline_pay.Wallet.Funded.{Funded, fund_offline-Funded}
use offline_pay.Wallet.Recovered.{
  release_time-bound, Recovered, recover-Recovered, release_candidate-Released,
}
use offline_pay.Tests.Fixture.{wallet, ceiling, world, unfunded}

fund_offline-Conserved_example :
    Conserved unfunded.db (world_of (fund_offline wallet 10 (pos 80) (pos 1000) unfunded)).db
fund_offline-Conserved_example = fund_offline-Conserved wallet 10 (pos 80) (pos 1000) unfunded

move_to_main-Conserved_example : Conserved world.db (world_of (move_to_main wallet 10 world)).db
move_to_main-Conserved_example = move_to_main-Conserved wallet 10 world

refresh-Conserved_example :
    Conserved world.db (world_of (refresh wallet 10 (pos 80) (pos 1000) world)).db
refresh-Conserved_example = refresh-Conserved wallet 10 (pos 80) (pos 1000) world

release_on_expiry-Conserved_example :
    Conserved world.db (world_of (release_on_expiry wallet world)).db
release_on_expiry-Conserved_example = release_on_expiry-Conserved wallet world

-- The gate allows 30 of the 80.
abbrev funded_ceiling : CeilingToken
funded_ceiling = new_ceiling 2000 (new_payload 10 (pos 30) 3000 (pos 1000) (2 ∷ []) 77) (5 ∷ [])

abbrev funded : World
funded = world_of (fund_offline wallet 10 (pos 80) (pos 1000) unfunded)

fund-run : fund_offline wallet 10 (pos 80) (pos 1000) unfunded ≡ ok funded_ceiling funded
unfolding wallet_calls
fund-run = refl

fund_offline-Funded_example :
    (allowed : ℤ) × (some (pos 30) ≡ some allowed)
    × (pos 0 <ℤ allowed)
    × (pos 0 <ℤ pos 1000)
    × Funded 10
        (if ltb_ℤ allowed (pos 80) then allowed else pos 80)
        funded_ceiling
        unfunded.db
        funded.db
fund_offline-Funded_example =
    fund_offline-Funded wallet 10 (pos 80) (pos 1000) unfunded funded funded_ceiling
      (record { run = fund-run })

abbrev drained : World
drained = world_of (move_to_main wallet 10 world)

drain-run : move_to_main wallet 10 world ≡ ok tt drained
unfolding wallet_calls
drain-run = refl

move_to_main-Released_example :
    (c : CeilingToken) × (active_ceiling_of 10 world.db ≡ some c)
    × (ltb 0 (length (in_flight_payments c.id world.db)) ≡ false)
    × Released 10 c revoked world.db drained.db
move_to_main-Released_example =
    move_to_main-Released wallet 10 world drained tt (record { run = drain-run })

release_time-bound_example :
    (3000 ≤ 900 → release_time wallet 900 3000 ≡ 900 + 259_200_000_000_000 + 1_800_000_000_000)
    × (900 < 3000 → release_time wallet 900 3000 ≡ 3000 + 259_200_000_000_000 + 1_800_000_000_000)
    × (900 + 259_200_000_000_000 + 1_800_000_000_000 ≤ release_time wallet 900 3000)
    × (3000 + 259_200_000_000_000 + 1_800_000_000_000 ≤ release_time wallet 900 3000)
unfolding auto_settle
release_time-bound_example = release_time-bound wallet 900 3000

abbrev recovered : World
recovered = world_of (recover_offline_ceiling wallet 10 world)

recover-run :
    recover_offline_ceiling wallet 10 world
    ≡ ok (stamp_recovery 261_000_000_003_000 ceiling) recovered
unfolding wallet_calls
recover-run = refl

recover-Recovered_example :
    (c : CeilingToken) × (stamp_recovery 261_000_000_003_000 ceiling
      ≡ stamp_recovery (release_time wallet c.expires_at 3000) c)
    × Recovered 10 c (release_time wallet c.expires_at 3000) world.db recovered.db
recover-Recovered_example =
    recover-Recovered wallet 10 world recovered (stamp_recovery 261_000_000_003_000 ceiling)
      (record { run = recover-run })

abbrev swept : World
swept = world_of (release_candidate wallet ceiling world)

sweep-run : release_candidate wallet ceiling world ≡ ok tt swept
unfolding wallet_calls
sweep-run = refl

release_candidate-Released_example :
    (ltb 0 (length (in_flight_payments 50 world.db)) ≡ false)
    × Released 10 ceiling expired world.db swept.db
release_candidate-Released_example =
    release_candidate-Released wallet ceiling world swept tt (record { run = sweep-run })
