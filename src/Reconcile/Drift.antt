-- ===== src/Reconcile/Drift.antt =====
-- Online transfers against the nightly reconciliation: the transfer processor (transfer/processor.go)
-- moves balances and posts no ledger entry, which reconciliation/service.go reports.
use offline_pay.Base.{
  ◌≡◌, refl, sym, ap, ◌∙◌, inl, inr, true, false, some, List, [], ◌∷◌, ◌==◌, All, find, is_some,
  Bool-cases, ==_refl, ==→eq, false_true,
}
use offline_pay.Base.Int.{ℤ, pos, ◌+ℤ◌, ◌-ℤ◌, ◌<ℤ◌, wrap_int64, int_laws, parts_of_eq}
use offline_pay.Domain.Reconciliation.{ReconciliationRecord, clean}
use offline_pay.Domain.Tokens.{Ident, Time}
use offline_pay.Store.Rows.{Db, Account, LedgerEntry, main, TransferPayload, TransferStatus}
use offline_pay.Store.Monad.{World}
use offline_pay.Store.Accounts.{account_of}
use offline_pay.Store.Keeps.Ids.{present-ids}
use offline_pay.Store.Gauge.Guard.{find-present}
use offline_pay.Store.Gauge.Instances.{balance_of, at_id, ledger_of}
use offline_pay.Store.Runs.{Runs}
use offline_pay.Transfer.Types as Transfer
use offline_pay.Transfer.Process.{apply_transfer}
use offline_pay.Transfer.Applied.{SettledFrom}
use offline_pay.Transfer.Settled.{settled_case}
use offline_pay.Transfer.Outcome.{apply_transfer-outcome}
use offline_pay.Reconcile.Nightly.{Service, nightly_ledger_reconcile}
use offline_pay.Reconcile.Clean.{Agrees, InBalance, nightly-clean}

Agrees-balance :
    (id : Ident) (es : List LedgerEntry) (xs : List Account)
    → All (Agrees es) xs
    → is_some (find (λ a. a.id == id) xs) ≡ true
    → balance_of id xs ≡ wrap_int64 (ledger_of id es)
unfolding balance_of
Agrees-balance id es [] h p = false_true p
Agrees-balance id es (a ∷ xs) h p = elim (Bool-cases (a.id == id)) [
  | inl same ↦ rw same (h.0 ∙ ap (λ j. wrap_int64 (ledger_of j es)) (==→eq a.id id same))
  | inr other ↦ rw other (Agrees-balance id es xs h.1 (rw other at p))
]

moved_away : (b x : ℤ) → b ≡ b +ℤ (pos 0 -ℤ x) → pos 0 <ℤ x → ⊥
moved_away b x e p = omega (int_laws, parts_of_eq b (b +ℤ (pos 0 -ℤ x)) e)

at_other : (a b : Ident) (x : ℤ) → (b == a) ≡ false → at_id a b x ≡ pos 0
at_other a b x h = rw h refl

at_self : (a : Ident) (x : ℤ) → at_id a a x ≡ x
at_self a x = rw (==_refl a) refl

-- A transfer that settled between two accounts leaves its sender's off its ledger.
Settled-unbalanced :
    (tp : TransferPayload) (t : Time) (a b : Ident) (before after : Db)
    → SettledFrom tp t a b before after
    → (b == a) ≡ false
    → pos 0 <ℤ tp.amount
    → is_some (find (λ x. x.id == a) before.accounts) ≡ true
    → InBalance before
    → ¬ InBalance after
unfolding InBalance
Settled-unbalanced tp t a b before after s other positive present h k =
    moved_away (balance_of a before.accounts) tp.amount
      (Agrees-balance a before.ledger before.accounts h.0 present
        ∙ ap (λ es. wrap_int64 (ledger_of a es)) (sym s.unposted)
        ∙ sym (Agrees-balance a after.ledger after.accounts k.0 still_present)
        ∙ s.moved a
        ∙ ap (λ y. balance_of a before.accounts +ℤ (y -ℤ at_id a a tp.amount))
            (at_other a b tp.amount other)
        ∙ ap (λ y. balance_of a before.accounts +ℤ (pos 0 -ℤ y)) (at_self a tp.amount))
      positive
  where
    still_present : is_some (find (λ x. x.id == a) after.accounts) ≡ true
    still_present =
        present-ids a after.accounts
        ∙ ap (λ js. is_some (find (λ j. j == a) js)) s.same_ids
        ∙ sym (present-ids a before.accounts)
        ∙ present

module _ (tp : TransferPayload) (a b : Account) (before after : Db) where
  present_of :
      account_of tp.sender_user_id main before ≡ some a
      → is_some (find (λ x. x.id == a.id) before.accounts) ≡ true
  unfolding account_of
  present_of e = find-present _ before.accounts e

-- Where the nightly reconciliation reports CLEAN, and then a transfer of a positive amount between the
-- main accounts of two users settles, the next reconciliation that succeeds does not report CLEAN: no
-- ledger entry stands behind what the transfer moved.
pub transfer-unbalances :
    (s : Transfer.Service) (n : Service) (id : Ident) (tp : TransferPayload) (a b : Account)
    (w w' v v' : World) (r r' : ReconciliationRecord)
    → account_of tp.sender_user_id main w.db ≡ some a
    → account_of tp.receiver_user_id main w.db ≡ some b
    → (b.id == a.id) ≡ false
    → pos 0 <ℤ tp.amount
    → Runs (nightly_ledger_reconcile n) w r v
    → r.status ≡ clean
    → Runs (apply_transfer s id tp) w TransferStatus.settled w'
    → Runs (nightly_ledger_reconcile n) w' r' v'
    → ¬ (r'.status ≡ clean)
transfer-unbalances s n id tp a b w w' v v' r r' p q other positive first was moved second is =
    let sent = settled_case tp a b w.db w'.db p q (apply_transfer-outcome s id tp w w' _ moved) in
    Settled-unbalanced tp sent.0 a.id b.id w.db w'.db sent.1 other positive
      (present_of tp a b w.db w'.db p) ((nightly-clean n w v r first).0.0 was)
      ((nightly-clean n w' v' r' second).0.0 is)
