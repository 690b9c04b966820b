-- ===== src/Wallet/Conserved.antt =====
-- Funding, draining, refreshing and releasing a ceiling (wallet/service.go) conserve money and keep every account level with its ledger.
use offline_pay.Base.{◌≡◌, refl, List, [], ◌∷◌}
use offline_pay.Base.Int.{ℤ, pos, ◌+ℤ◌, int_laws, parts_of_eq}
use offline_pay.Domain.Status.{CeilingStatus, TransactionKind}
use offline_pay.Domain.Tokens.{Ident, Bytes, CeilingToken}
use offline_pay.Store.Rows.{TransactionRow}
use offline_pay.Store.Monad.{World, Outcome, ok, err, Done, stale_candidate, world_of}
use offline_pay.Store.Gauge.{Gauge, Level, reading, Shifts, Steady}
use offline_pay.Store.Gauge.Rules.{
  Shifts-bind, Shifts-skip, Shifts-cast, Shifts-pure, Shifts-fail, Shifts-read, Shifts-fail_if,
  Shifts-branch, Shifts-option, Shifts-new_id, Shifts-now,
}
use offline_pay.Store.Gauge.Writes.{
  minus, Shifts-post_ledger, Shifts-debit, Shifts-credit, Steady-tx,
}
use offline_pay.Store.Gauge.Tables.{
  Shifts-get_account_id, Shifts-get_account_balance, Shifts-record_transaction, Shifts-sum_settled,
  Shifts-update_ceiling_status, Shifts-count, Shifts-active_bank_key, Shifts-payer_pubkey,
  Shifts-issue_ceiling_token,
}
use offline_pay.Store.Gauge.Conserved.{Conserved, conserves}
use offline_pay.Store.Keeps.{
  Keeps-bind, Keeps-pure, Keeps-fail, Keeps-read, Keeps-fail_if, Keeps-branch, Keeps-option,
  Keeps-now, Keeps-list_releasable,
}
use offline_pay.Store.Ceilings.{count_in_flight_payments}
use offline_pay.Wallet.Types.{Service}
use offline_pay.Wallet.Fund.{
  move, lien_for, issue_and_lien, fund_offline_in_tx, clamped, admit, register, fund_offline,
}
use offline_pay.Wallet.Release.{
  return_lien, release_ceiling, settled_active_ceiling, move_to_main_in_tx, move_to_main, refresh,
  release_candidate, counted, try_release, release_all, release_on_expiry, drained_or_none,
}
use offline_pay.Wallet.Passed.{release_ceiling-Avoids, Shifts-drained}

moved_zero :
    (wf wt lf lt : ℤ) → wf +ℤ lt ≡ wt +ℤ lf → lf +ℤ (minus lt +ℤ pos 0) +ℤ (minus wf +ℤ wt) ≡ pos 0
moved_zero wf wt lf lt h = omega (int_laws, parts_of_eq _ _ h)

module _ (g : Gauge) (lv : Level g) where
  Shifts-move :
      (row : TransactionRow) (from to : Ident) (x : ℤ) → Shifts g (pos 0) (move row from to x)
  unfolding move
  Shifts-move row from to x = Shifts-skip g (Shifts-record_transaction g row) λ _.
      Shifts-cast g (pos 0) (moved_zero _ _ _ _ (lv.level row.id from to x)) (
        Shifts-bind g (Shifts-post_ledger g _ _)
          λ _. Shifts-bind g (Shifts-debit g _ _) λ _. Shifts-credit g _ _)

module _ (g : Gauge) (lv : Level g) (s : Service) where
  Shifts-lien_for :
      (u : Ident) (x : ℤ) (a lien : Ident) (c : CeilingToken)
      → Shifts g (pos 0) (lien_for s u x a lien c)
  unfolding lien_for
  Shifts-lien_for u x a lien c = Shifts-skip g (Shifts-issue_ceiling_token g _ _) λ _.
      Shifts-skip g (Shifts-new_id g _)
        λ _. Shifts-skip g (Shifts-move g lv _ _ _ _) λ _. Shifts-pure g _

  Shifts-issue_and_lien :
      (u : Ident) (x ttl : ℤ) (key : Bytes) (a lien : Ident)
      → Shifts g (pos 0) (issue_and_lien s u x ttl key a lien)
  unfolding issue_and_lien
  Shifts-issue_and_lien u x ttl key a lien = Shifts-skip g (Shifts-active_bank_key g) λ _.
      Shifts-skip g (Shifts-now g _) λ _. Shifts-skip g (Shifts-new_id g _) λ _.
        Shifts-skip g (Shifts-option g _ (Shifts-fail g _ _) (λ _. Shifts-pure g _))
          λ _. Shifts-lien_for u x a lien _

  Shifts-fund_in_tx : (u : Ident) (x ttl : ℤ) → Shifts g (pos 0) (fund_offline_in_tx s u x ttl)
  unfolding fund_offline_in_tx
  Shifts-fund_in_tx u x ttl = Shifts-skip g (Shifts-read g _) λ _.
      Shifts-skip g (Shifts-fail_if g _ _) λ _. Shifts-skip g (Shifts-payer_pubkey g _) λ _.
        Shifts-skip g (Shifts-fail_if g _ _) λ _. Shifts-skip g (Shifts-get_account_id g _ _) λ _.
          Shifts-skip g (Shifts-get_account_id g _ _) λ _.
            Shifts-skip g (Shifts-get_account_balance g _ _)
              λ _. Shifts-skip g (Shifts-fail_if g _ _) λ _. Shifts-issue_and_lien _ _ _ _ _ _

  admit-Steady : (u : Ident) (x ttl : ℤ) → Steady g (admit s u x ttl)
  unfolding admit clamped
  admit-Steady u x ttl = Keeps-bind (reading g) (Keeps-fail_if (reading g) _ _) λ _.
      Keeps-bind (reading g) (Keeps-fail_if (reading g) _ _) λ _.
        Keeps-option (reading g) _ (Keeps-fail (reading g) _)
          λ _. Keeps-branch (reading g) _ (Keeps-fail (reading g) _) (Keeps-pure (reading g) _)

  register-Steady : (u : Ident) (c : CeilingToken) → Steady g (register s u c)
  unfolding register
  register-Steady u c =
      Keeps-bind (reading g) (Keeps-fail_if (reading g) _ _) λ _. Keeps-pure (reading g) _

  fund_offline-Steady : (u : Ident) (x ttl : ℤ) → Steady g (fund_offline s u x ttl)
  unfolding fund_offline
  fund_offline-Steady u x ttl = Keeps-bind (reading g) (admit-Steady u x ttl) λ allowed.
      Keeps-bind (reading g) (Steady-tx g _ (Shifts-fund_in_tx u allowed ttl))
        λ c. register-Steady u c

  Shifts-return_lien :
      (u : Ident) (c : CeilingToken) (t : CeilingStatus) (k : TransactionKind) (x : ℤ)
      → Shifts g (pos 0) (return_lien s u c t k x)
  unfolding return_lien
  Shifts-return_lien u c t k x = Shifts-skip g (Shifts-get_account_id g _ _) λ _.
      Shifts-skip g (Shifts-get_account_id g _ _) λ _.
        Shifts-skip g (Shifts-new_id g _)
          λ _. Shifts-skip g (Shifts-move g lv _ _ _ _) λ _. Shifts-update_ceiling_status g _ _

  Shifts-release_ceiling :
      (u : Ident) (c : CeilingToken) (t : CeilingStatus) (k : TransactionKind)
      → Shifts g (pos 0) (release_ceiling s u c t k)
  unfolding release_ceiling
  Shifts-release_ceiling u c t k =
      Shifts-skip g (Shifts-sum_settled g _)
        λ _. Shifts-branch g _ (Shifts-update_ceiling_status g _ _) (Shifts-return_lien u c t k _)

  settled_active-Steady : (u : Ident) → Steady g (settled_active_ceiling u)
  unfolding settled_active_ceiling count_in_flight_payments
  settled_active-Steady u = Keeps-bind (reading g) (Keeps-read (reading g) _) λ _.
      Keeps-bind (reading g)
        (Keeps-option (reading g) _ (Keeps-fail (reading g) _) (λ _. Keeps-pure (reading g) _))
        λ _.
          Keeps-bind (reading g) (Keeps-read (reading g) _) λ _.
            Keeps-bind (reading g) (Keeps-fail_if (reading g) _ _) λ _. Keeps-pure (reading g) _

  Shifts-settled_active : (u : Ident) → Shifts g (pos 0) (settled_active_ceiling u)
  unfolding settled_active_ceiling
  Shifts-settled_active u = Shifts-skip g (Shifts-read g _) λ _.
      Shifts-skip g (Shifts-option g _ (Shifts-fail g _ _) (λ _. Shifts-pure g _)) λ _.
        Shifts-skip g (Shifts-count g _)
          λ _. Shifts-skip g (Shifts-fail_if g _ _) λ _. Shifts-pure g _

  move_to_main-Steady : (u : Ident) → Steady g (move_to_main s u)
  unfolding move_to_main move_to_main_in_tx
  move_to_main-Steady u =
      Steady-tx g _ (Shifts-skip g (Shifts-settled_active u) λ c. Shifts-release_ceiling _ c _ _)

  Shifts-drain : (u : Ident) → Shifts g (pos 0) (drained_or_none (move_to_main_in_tx s u))
  unfolding move_to_main_in_tx
  Shifts-drain u =
      Shifts-drained g (settled_active-Steady u) (λ c. Shifts-release_ceiling _ c _ _)
        (λ c. release_ceiling-Avoids s _ c _ _)

  refresh-Steady : (u : Ident) (x ttl : ℤ) → Steady g (refresh s u x ttl)
  unfolding refresh
  refresh-Steady u x ttl = Keeps-bind (reading g) (admit-Steady u x ttl) λ allowed.
      Keeps-bind (reading g)
        (Steady-tx g _ (Shifts-skip g (Shifts-drain u) λ _. Shifts-fund_in_tx u allowed ttl))
        λ c. register-Steady u c

  release_candidate-Steady : (c : CeilingToken) → Steady g (release_candidate s c)
  unfolding release_candidate
  release_candidate-Steady c = Steady-tx g _ (
      Shifts-skip g (Shifts-count g _)
        λ _. Shifts-skip g (Shifts-fail_if g _ _) λ _. Shifts-release_ceiling _ c _ _)

  counted-world : (r : Outcome Done) → world_of (counted r) ≡ world_of r
  counted-world (ok _ w) = refl
  counted-world (err stale_candidate w) = refl
  counted-world (err _ w) = refl

  try_release-Steady : (c : CeilingToken) → Steady g (try_release s c)
  unfolding try_release
  try_release-Steady c = record {
    kept = λ w. rw (counted-world (release_candidate s c w)) ((release_candidate-Steady c).kept w);
  }

  release_all-Steady : (cs : List CeilingToken) → Steady g (release_all s cs)
  unfolding release_all
  release_all-Steady [] = Keeps-pure (reading g) _
  release_all-Steady (c ∷ cs) =
      Keeps-bind (reading g) (try_release-Steady c)
        λ _. Keeps-bind (reading g) (release_all-Steady cs) λ _. Keeps-pure (reading g) _

  release_on_expiry-Steady : Steady g (release_on_expiry s)
  unfolding release_on_expiry
  release_on_expiry-Steady =
      Keeps-bind (reading g) (Keeps-now (reading g) _) λ _.
        Keeps-bind (reading g) (Keeps-list_releasable (reading g) _) λ cs. release_all-Steady cs

-- `FundOffline`, whatever its arguments and however it ends, leaves the money in all accounts, every
-- account's distance from its ledger and every transaction's imbalance as they were.
pub fund_offline-Conserved :
    (s : Service) (u : Ident) (x ttl : ℤ) (w : World)
    → Conserved w.db (world_of (fund_offline s u x ttl w)).db
fund_offline-Conserved s u x ttl = conserves _ (λ g lv. fund_offline-Steady g lv s u x ttl)

-- `MoveToMain`, however it ends, leaves the money in all accounts, every account's distance from its
-- ledger and every transaction's imbalance as they were.
pub move_to_main-Conserved :
    (s : Service) (u : Ident) (w : World) → Conserved w.db (world_of (move_to_main s u w)).db
move_to_main-Conserved s u = conserves _ (λ g lv. move_to_main-Steady g lv s u)

-- `Refresh`, whatever its arguments, however it ends and also where there is no ceiling to drain,
-- leaves the money in all accounts, every account's distance from its ledger and every transaction's
-- imbalance as they were.
pub refresh-Conserved :
    (s : Service) (u : Ident) (x ttl : ℤ) (w : World)
    → Conserved w.db (world_of (refresh s u x ttl w)).db
refresh-Conserved s u x ttl = conserves _ (λ g lv. refresh-Steady g lv s u x ttl)

-- `ReleaseOnExpiry`, with stale candidates skipped and also where an error ends it half way, leaves
-- the money in all accounts, every account's distance from its ledger and every transaction's
-- imbalance as they were.
pub release_on_expiry-Conserved :
    (s : Service) (w : World) → Conserved w.db (world_of (release_on_expiry s w)).db
release_on_expiry-Conserved s = conserves _ (λ g lv. release_on_expiry-Steady g lv s)
