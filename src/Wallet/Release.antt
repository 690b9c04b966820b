-- ===== src/Wallet/Release.antt =====
-- wallet/service.go: `releaseCeiling`, `MoveToMain`, `Refresh` and `ReleaseOnExpiry`.
use offline_pay.Base.{ℕ, suc, Bool, true, false, List, [], ◌∷◌, ltb, if◌then◌else◌}
use offline_pay.Base.Int.{ℤ, pos, ◌-ℤ◌, ltb_ℤ, eqb_ℤ}
use offline_pay.Domain.Status.{
  CeilingStatus, expired, revoked, is_recovery_pending, TransactionKind, offline_drain,
  offline_expiry_release, offline_recovery_release, credit,
}
use offline_pay.Domain.Tokens.{Ident, add_time, CeilingToken}
use offline_pay.Store.Rows.{main, lien_holding}
use offline_pay.Store.Monad.{
  Outcome, ok, err, M, Done, pure, fail, read, fail_if, branch, option, new_id, now, tx, ◌>>=◌,
  ◌>>◌, no_active_ceiling, unsettled_claims, stale_candidate,
}
use offline_pay.Store.Accounts.{get_account_id}
use offline_pay.Store.Ceilings.{
  active_ceiling_of, count_in_flight_payments, sum_settled_for_ceiling, update_ceiling_status,
  list_releasable_expired_ceilings,
}
use offline_pay.Wallet.Types.{Service, release_grace}
use offline_pay.Wallet.Fund.{own_row, move, fund_offline_in_tx, admit, register}

-- `ceiling - settled`, and 0 where that is negative.
unfoldable pub remaining_of : ℤ → ℤ → ℤ
remaining_of ceiling settled =
    if ltb_ℤ (ceiling -ℤ settled) (pos 0) then pos 0 else ceiling -ℤ settled

unfoldable pub return_lien :
    Service → Ident → CeilingToken → CeilingStatus → TransactionKind → ℤ → M Done
return_lien s user c terminal kind remaining = do
  main_account ← get_account_id user main
  lien ← get_account_id user lien_holding
  txn ← new_id s.supply
  move (own_row txn user kind credit remaining c.id) lien main_account remaining
  update_ceiling_status c.id terminal

unfoldable pub release_ceiling :
    Service → Ident → CeilingToken → CeilingStatus → TransactionKind → M Done
release_ceiling s user c terminal kind = do
  settled ← sum_settled_for_ceiling c.id
  branch (eqb_ℤ (remaining_of c.ceiling_amount settled) (pos 0))
      (update_ceiling_status c.id terminal)
      (return_lien s user c terminal kind (remaining_of c.ceiling_amount settled))

-- `GetActiveCeiling` with "no rows" as `ErrNoActiveCeiling`, and the count of claims in flight.
unfoldable pub settled_active_ceiling : Ident → M CeilingToken
settled_active_ceiling user = do
  found ← read (active_ceiling_of user)
  c ← option found (fail no_active_ceiling) (λ c. pure c)
  in_flight ← count_in_flight_payments c.id
  fail_if (ltb 0 in_flight) unsettled_claims
  pure c

unfoldable pub move_to_main_in_tx : Service → Ident → M Done
move_to_main_in_tx s user = do
  c ← settled_active_ceiling user
  release_ceiling s user c revoked offline_drain

unfoldable pub move_to_main : Service → Ident → M Done
move_to_main s user = tx (move_to_main_in_tx s user)

-- `err != nil && !errors.Is(err, ErrNoActiveCeiling)`: the one error that `Refresh` passes over. The
-- drain raises it before its first write, so the database is as it was.
abbrev pub pass_over : Outcome Done → Outcome Done
pass_over (ok _ w) = ok tt w
pass_over (err no_active_ceiling w) = ok tt w
pass_over (err e w) = err e w

unfoldable pub drained_or_none : M Done → M Done
drained_or_none m w = pass_over (m w)

unfoldable pub refresh : Service → Ident → ℤ → ℤ → M CeilingToken
refresh s user amount ttl = do
  allowed ← admit s user amount ttl
  issued ←
      tx (do drained_or_none (move_to_main_in_tx s user); fund_offline_in_tx s user allowed ttl)
  register s user issued

-- The terminal status and the kind of a swept ceiling, by its status when it was listed.
abbrev pub sweep_status : CeilingToken → CeilingStatus
sweep_status c = if is_recovery_pending c.status then revoked else expired

abbrev pub sweep_kind : CeilingToken → TransactionKind
sweep_kind c =
    if is_recovery_pending c.status then offline_recovery_release else offline_expiry_release

unfoldable pub release_candidate : Service → CeilingToken → M Done
release_candidate s c = tx (do
  in_flight ← count_in_flight_payments c.id
  fail_if (ltb 0 in_flight) stale_candidate
  release_ceiling s c.payer_id c (sweep_status c) (sweep_kind c))

-- How one candidate ended: released, stale (skipped), or with an error that ends the sweep.
abbrev pub counted : Outcome Done → Outcome Bool
counted (ok _ w) = ok true w
counted (err stale_candidate w) = ok false w
counted (err e w) = err e w

unfoldable pub try_release : Service → CeilingToken → M Bool
try_release s c w = counted (release_candidate s c w)

unfoldable pub release_all : Service → List CeilingToken → M ℕ
release_all s [] = pure 0
release_all s (c ∷ cs) = do
  released ← try_release s c
  rest ← release_all s cs
  pure (if released then suc rest else rest)

unfoldable pub release_on_expiry : Service → M ℕ
release_on_expiry s = do
  time ← now s.clock
  candidates ← list_releasable_expired_ceilings (add_time time (pos 0 -ℤ release_grace))
  release_all s candidates
