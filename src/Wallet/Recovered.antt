-- ===== src/Wallet/Recovered.antt =====
-- What a successful `RecoverOfflineCeiling` and a release by the sweep (wallet/service.go) did.
use offline_pay.Base.{
  ◌≡◌, sym, ap, ◌∙◌, ◌↔◌, true, false, none, some, arith, subst, length, ltb, ◌≤◌, ◌<◌, ◌+◌,
  update_where,
}
use offline_pay.Base.Int.{pos_part}
use offline_pay.Domain.Tokens.{Ident, Time, CeilingToken}
use offline_pay.Store.Rows.{Db}
use offline_pay.Store.Monad.{World, Done}
use offline_pay.Store.Ceilings.{
  active_ceiling_of, in_flight_payments, count_in_flight_payments, is_active_row, stamp_recovery,
  mark_ceiling_recovery_pending,
}
use offline_pay.Store.Runs.{Runs, bind-ok, pure-ok, read-ok, now-ok, modify-ok, fail_if-ok, tx-ok}
use offline_pay.Settlement.Claim.{live_status}
use offline_pay.Wallet.Types.{Service}
use offline_pay.Wallet.Release.{release_candidate, sweep_status, sweep_kind}
use offline_pay.Wallet.Recover.{auto_settle, release_time, recover_in_tx, recover_offline_ceiling}
use offline_pay.Wallet.Effects.{Released, release_ceiling-Released, settled_active-ok}

-- The release of a ceiling that has not run out is its expiry, the auto-settle window and the grace; of
-- one that ran out while it was active, the present, the window and the grace. So it leaves claims the
-- whole window and the grace behind both.
pub release_time-bound :
    (s : Service) (expires_at now : Time)
    → (now ≤ expires_at
        → release_time s expires_at now ≡ expires_at + pos_part (auto_settle s) + 1_800_000_000_000)
      × (expires_at < now
          → release_time s expires_at now ≡ now + pos_part (auto_settle s) + 1_800_000_000_000)
      × (expires_at + pos_part (auto_settle s) + 1_800_000_000_000 ≤ release_time s expires_at now)
      × (now + pos_part (auto_settle s) + 1_800_000_000_000 ≤ release_time s expires_at now)
unfolding release_time auto_settle
release_time-bound s expires_at now =
    (λ h. ground arith, λ h. ground arith, ground arith, ground arith)

-- The database with one ceiling marked.
abbrev pub marked : CeilingToken → Time → Db → Db
marked c t db = record db {
  ceilings = update_where (is_active_row c.id) (stamp_recovery t) db.ceilings;
}

-- A ceiling put in recovery: it was active with no claim in flight, nothing but its own row changed,
-- and the check of its liveness passes claims up to the release and no longer.
pub Recovered : Ident → CeilingToken → Time → Db → Db → Type 0
Recovered u c t before after =
    (active_ceiling_of u before ≡ some c)
    × (ltb 0 (length (in_flight_payments c.id before)) ≡ false)
    × (after ≡ marked c t before)
    × ((now : Time) → (live_status now (stamp_recovery t c) ≡ none) ↔ (ltb now t ≡ true))

open_until :
    (c : CeilingToken) (t now : Time)
    → (live_status now (stamp_recovery t c) ≡ none) ↔ (ltb now t ≡ true)
unfolding live_status
open_until c t now = (λ h. ground arith, λ h. ground arith)

-- Recovery succeeds only for an active ceiling with no claim in flight; it answers with that ceiling as it
-- is on record now, RECOVERY_PENDING with the release time of the clock's reading, and changes nothing
-- else. The liveness check of a claim, one of its guards, then passes the ceiling exactly before that.
pub recover-Recovered :
    (s : Service) (u : Ident) (w w' : World) (d : CeilingToken)
    → Runs (recover_offline_ceiling s u) w d w'
    → (c : CeilingToken) × (d
        ≡ stamp_recovery (release_time s c.expires_at (s.clock w.clock_reads)) c)
      × Recovered u c (release_time s c.expires_at (s.clock w.clock_reads)) w.db w'.db
unfolding recover_offline_ceiling recover_in_tx mark_ceiling_recovery_pending Recovered
recover-Recovered s u w w' d h =
    let b = bind-ok _ (tx-ok h) in
    let found = settled_active-ok u w b.0.after b.0.result b.0.runs in
    let e = bind-ok _ b.1 in
    let time = now-ok _ e.0.runs in
    let f = bind-ok _ e.1 in
    let g = bind-ok _ f.0.runs in
    let counted = read-ok _ g.0.runs in
    let k = bind-ok _ g.1 in
    let wrote = modify-ok _ k.0.runs in
    let rows = pure-ok k.1 in
    let n = bind-ok _ f.1 in
    let won = fail_if-ok _ n.0.runs in
    let end = pure-ok n.1 in
    let start = ap (λ v. v.db) counted.1 ∙ time.1 ∙ ap (λ v. v.db) found.2 in
    let read_now = time.0 ∙ ap (λ v. s.clock v.clock_reads) found.2 in
    subst
      (λ t.
        (c : CeilingToken) × (d ≡ stamp_recovery (release_time s c.expires_at t) c)
        × Recovered u c (release_time s c.expires_at t) w.db w'.db)
      read_now
      (
        b.0.result,
        end.0,
        (
          found.0,
          found.1,
          ap (λ v. v.db) (end.1 ∙ won.1 ∙ rows.1)
              ∙ wrote
              ∙ ap (marked b.0.result (release_time s b.0.result.expires_at e.0.result)) start,
          open_until b.0.result (release_time s b.0.result.expires_at e.0.result),
        ),
      )

-- The sweep releases a ceiling only where no claim on it is in flight, to its payer, as revoked after
-- a recovery and as expired otherwise.
pub release_candidate-Released :
    (s : Service) (c : CeilingToken) (w w' : World) (z : Done)
    → Runs (release_candidate s c) w z w'
    → (ltb 0 (length (in_flight_payments c.id w.db)) ≡ false)
      × Released c.payer_id c (sweep_status c) w.db w'.db
unfolding release_candidate count_in_flight_payments
release_candidate-Released s c w w' z h =
    let b = bind-ok _ (tx-ok h) in
    let count = read-ok _ b.0.runs in
    let d = bind-ok _ b.1 in
    let free = fail_if-ok _ d.0.runs in
    (
      ap (λ n. ltb 0 n) (sym count.0) ∙ free.0,
      subst (λ v. Released c.payer_id c (sweep_status c) v.db w'.db) (free.1 ∙ count.1)
          (release_ceiling-Released s c.payer_id c (sweep_status c) (sweep_kind c) d.0.after w' z
            d.1),
    )
