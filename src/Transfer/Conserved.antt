-- ===== src/Transfer/Conserved.antt =====
-- Online transfers move money between main accounts and make none: the money in all accounts and the
-- imbalance of every ledger transaction stay, through acceptance (transfer/service.go) and processing
-- (transfer/processor.go), however they end.
use offline_pay.Base.{◌≡◌, refl, sym, Bool, true, false, Option, none, some}
use offline_pay.Base.Int.{ℤ, pos, ◌+ℤ◌, int_laws}
use offline_pay.Domain.Status.{LifecycleStatus}
use offline_pay.Domain.Tokens.{Ident, Time}
use offline_pay.Store.Rows.{Db, EventStatus, TransferPayload, TransferFailure, Reason}
use offline_pay.Store.Monad.{World, M, world_of, imbalance}
use offline_pay.Store.Transfers.{
  lock_main_account, mark_transfer_settled, mark_transfer_failed, is_event_processed,
  mark_event_processed, finalize_transactions_for_transfer,
}
use offline_pay.Store.Keeps.{
  Keeps-bind, Keeps-pure, Keeps-read, Keeps-modify, Keeps-branch, Keeps-now,
}
use offline_pay.Store.Gauge.{Gauge, reading, Shifts, Steady}
use offline_pay.Store.Gauge.Rules.{
  Shifts-bind, Shifts-skip, Shifts-cast, Shifts-pure, Shifts-read, Shifts-option, Shifts-modify,
  Shifts-now, Shifts-catch,
}
use offline_pay.Store.Gauge.Writes.{minus, Shifts-debit, Shifts-credit, Steady-tx}
use offline_pay.Store.Gauge.Tables.{Shifts-finalize_paired}
use offline_pay.Store.Gauge.Guard.{debit-Undone}
use offline_pay.Store.Gauge.Instances.{money, money_gauge, imbalance_gauge}
use offline_pay.Store.Rows.{OutboxEnvelope}
use offline_pay.Transfer.Types.{Service}
use offline_pay.Transfer.Process.{
  finalize_failed, settle, move_funds, lock_second, apply_transfer, fail_malformed, process_payload,
  handle, process_event, process,
}

-- A gauge that weighs the balances of all accounts alike.
pub record Even (g : Gauge) : Type 0 where
  pub even : (a b : Ident) (x : ℤ) → g.weight a x ≡ g.weight b x

module _ (g : Gauge) where
  pub Shifts-mark_event :
      (id : Ident) (st : EventStatus) → Shifts g (pos 0) (mark_event_processed id st)
  unfolding mark_event_processed
  Shifts-mark_event id st = Shifts-modify g _ (λ _. refl)

  pub Shifts-finalize_transfer :
      (t : Ident) (st : LifecycleStatus) (x : Option ℤ) (r : Option Reason)
      → Shifts g (pos 0) (finalize_transactions_for_transfer t st x r)
  unfolding finalize_transactions_for_transfer
  Shifts-finalize_transfer t st x r =
      Shifts-skip g (Shifts-read g _)
        λ a. Shifts-option g a (Shifts-pure g _) (λ row. Shifts-finalize_paired g _ _ _ _)

  pub Shifts-finalize_failed :
      (now : Time) (id : Ident) (tp : TransferPayload) (r : TransferFailure)
      → Shifts g (pos 0) (finalize_failed now id tp r)
  unfolding finalize_failed mark_transfer_failed
  Shifts-finalize_failed now id tp r = Shifts-skip g (Shifts-modify g _ (λ _. refl)) λ _.
      Shifts-skip g (Shifts-finalize_transfer _ _ _ _)
        λ _. Shifts-skip g (Shifts-mark_event _ _) λ _. Shifts-pure g _

  pub Shifts-settle :
      (now : Time) (id : Ident) (tp : TransferPayload) (receiver : Ident)
      → Shifts g (g.weight receiver tp.amount) (settle now id tp receiver)
  unfolding settle mark_transfer_settled
  Shifts-settle now id tp receiver = Shifts-cast g _ (omega int_laws) (
      Shifts-bind g (Shifts-credit g _ _) λ _. Shifts-skip g (Shifts-modify g _ (λ _. refl)) λ _.
        Shifts-skip g (Shifts-finalize_transfer _ _ _ _)
          λ _. Shifts-skip g (Shifts-mark_event _ _) λ _. Shifts-pure g _)

module _ (g : Gauge) (ev : Even g) where
  cancel : (a b : Ident) (x : ℤ) → minus (g.weight a x) +ℤ g.weight b x ≡ pos 0
  cancel a b x = rw (ev.even a b x) (omega int_laws)

  Shifts-move_funds :
      (now : Time) (id : Ident) (tp : TransferPayload) (a b : Ident)
      → Shifts g (pos 0) (move_funds now id tp a b)
  unfolding move_funds
  Shifts-move_funds now id tp a b = Shifts-cast g _ (cancel a b tp.amount) (
      Shifts-catch g (debit-Undone _ _) (Shifts-debit g a tp.amount)
        (λ _. Shifts-settle g now id tp b)
        (Shifts-cast g _ (sym (cancel a b tp.amount)) (Shifts-finalize_failed g now id tp _)))

  Shifts-lock : (u : Ident) → Shifts g (pos 0) (lock_main_account u)
  unfolding lock_main_account
  Shifts-lock u =
      Shifts-skip g (Shifts-read g _)
        λ row. Shifts-option g row (Shifts-pure g _) (λ _. Shifts-pure g _)

  Shifts-lock_second :
      (now : Time) (id : Ident) (tp : TransferPayload) (a : Ident)
      → Shifts g (pos 0) (lock_second now id tp a)
  unfolding lock_second
  Shifts-lock_second now id tp a = Shifts-skip g (Shifts-lock _) λ row.
      Shifts-option g row (Shifts-finalize_failed g _ _ _ _) (λ b. Shifts-move_funds _ _ _ _ _)

  Shifts-apply_transfer :
      (s : Service) (id : Ident) (tp : TransferPayload) → Shifts g (pos 0) (apply_transfer s id tp)
  unfolding apply_transfer
  Shifts-apply_transfer s id tp = Shifts-skip g (Shifts-now g _) λ t.
      Shifts-skip g (Shifts-lock _) λ row.
        Shifts-option g row (Shifts-finalize_failed g _ _ _ _) (λ a. Shifts-lock_second _ _ _ _)

  mark_event-Steady : (id : Ident) (st : EventStatus) → Steady g (mark_event_processed id st)
  unfolding mark_event_processed
  mark_event-Steady id st = Keeps-modify (reading g) _ (λ _. refl)

  process_payload-Steady :
      (s : Service) (id : Ident) (d : TransferPayload × Bool) → Steady g (process_payload s id d)
  unfolding process_payload fail_malformed mark_transfer_failed
  process_payload-Steady s id (tp, false) = Keeps-bind (reading g) (mark_event-Steady _ _) λ _.
      Keeps-bind (reading g) (Keeps-now (reading g) _) λ _. Keeps-modify (reading g) _ (λ _. refl)
  process_payload-Steady s id (tp, true) =
      Keeps-bind (reading g) (Steady-tx g _ (Shifts-apply_transfer s id tp))
        λ _. Keeps-pure (reading g) _

  pub process-Steady : (s : Service) (m : Option OutboxEnvelope) → Steady g (process s m)
  unfolding process process_event is_event_processed handle
  process-Steady s none = Keeps-pure (reading g) _
  process-Steady s (some e) = Keeps-bind (reading g) (Keeps-read (reading g) _) λ _.
      Keeps-branch (reading g) _ (Keeps-pure (reading g) _)
        (Keeps-branch (reading g) _ (process_payload-Steady s e.id _) (mark_event-Steady _ _))

-- The same money in all accounts, and the same imbalance of every ledger transaction.
pub SameTotals : Db → Db → Type 0
SameTotals before after =
    (money after.accounts ≡ money before.accounts)
    × ((t : Ident) → imbalance t after.ledger ≡ imbalance t before.ledger)

pub same_totals :
    {A : Type 0} (m : M A)
    → ((g : Gauge) → Even g → Steady g m)
    → (w : World) → SameTotals w.db (world_of (m w)).db
unfolding SameTotals
same_totals m h w = (
  (h money_gauge (record { even = λ a b x. refl })).kept w,
  λ t. (h (imbalance_gauge t) (record { even = λ a b x. refl })).kept w,
)

-- Processing a message, whatever it holds and however it ends, leaves the money in all accounts and
-- every ledger transaction's imbalance as they were.
pub process-SameTotals :
    (s : Service) (m : Option OutboxEnvelope) (w : World)
    → SameTotals w.db (world_of (process s m w)).db
process-SameTotals s m = same_totals _ (λ g ev. process-Steady g ev s m)
