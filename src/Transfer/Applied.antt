-- ===== src/Transfer/Applied.antt =====
-- What the transaction of a transfer event does (transfer/processor.go), where it commits: it settles
-- the transfer, or fails it for a reason and moves nothing.
use offline_pay.Base.{
  ◌≡◌, refl, ap, ◌∙◌, ◌⊎◌, inl, inr, true, List, ◌==◌, find, is_some, subst, update_where,
}
use offline_pay.Base.Int.{ℤ, ◌+ℤ◌, ◌-ℤ◌, ◌≤ℤ◌, ◌<ℤ◌, leb_ℤ→le, leb_ℤ→lt, int_laws}
use offline_pay.Domain.Tokens.{Ident, Time}
use offline_pay.Store.Rows.{
  Db, Account, LedgerEntry, Transfer, TransferFailure, TransferPayload, TransferStatus,
  insufficient_balance,
}
use offline_pay.Store.Monad.{World, no_rows}
use offline_pay.Store.Keeps.Writes.{Keeps-debit, Keeps-credit}
use offline_pay.Store.Keeps.Ids.{ids_of, Keeps-ids-debit, Keeps-ids-credit}
use offline_pay.Store.Keeps.Transfers.{Keeps-finalize_transfer, Keeps-mark_event}
use offline_pay.Store.Gauge.Instances.{balance_of, balance_gauge}
use offline_pay.Store.Gauge.Guard.{debit-Undone, debit-short, debit-had}
use offline_pay.Store.Gauge.Writes.{minus, Shifts-debit}
use offline_pay.Store.Runs.{Runs, bind-ok, pure-ok, modify-ok, catch-ok, Keeps-ok, Shifts-ok}
use offline_pay.Store.Transfers.{
  mark_transfer_settled, mark_transfer_failed, settle_transfer, fail_transfer,
}
use offline_pay.Transfer.Conserved.{Shifts-settle}
use offline_pay.Transfer.Process.{finalize_failed, settle, move_funds}
use offline_pay.Wallet.Effects.{Moved}

abbrev ledger_of_db : Db → List LedgerEntry
ledger_of_db db = db.ledger

abbrev transfers_of : Db → List Transfer
transfers_of db = db.transfers

abbrev accounts_in : Db → List Account
accounts_in db = db.accounts

-- What a call of `finalize_failed` writes, as far as money and the transfer go.
pub record FailedFor (tp : TransferPayload) (t : Time) (r : TransferFailure) (before after : Db)
    : Type 0 where
  pub still : after.accounts ≡ before.accounts
  pub unposted : after.ledger ≡ before.ledger
  pub marked :
      after.transfers
      ≡ update_where (λ x. x.id == tp.transfer_id) (fail_transfer t r) before.transfers

pub finalize_failed-ok :
    (t : Time) (id : Ident) (tp : TransferPayload) (r : TransferFailure) (w w' : World)
    (st : TransferStatus)
    → Runs (finalize_failed t id tp r) w st w'
    → (st ≡ TransferStatus.failed) × FailedFor tp t r w.db w'.db
unfolding finalize_failed mark_transfer_failed
finalize_failed-ok t id tp r w w' st h =
    let b = bind-ok _ h in
    let c = bind-ok _ b.1 in
    let d = bind-ok _ c.1 in
    let end = pure-ok d.1 in
    let wrote = modify-ok _ b.0.runs in
    (
      end.0,
      record {
        still =
            ap (λ v. v.db.accounts) end.1
            ∙ Keeps-ok (Keeps-mark_event accounts_in (λ _ _. refl) _ _) d.0.runs
            ∙ Keeps-ok (Keeps-finalize_transfer accounts_in (λ _ _. refl) _ _ _ _) c.0.runs
            ∙ ap accounts_in wrote;
        unposted =
            ap (λ v. v.db.ledger) end.1
            ∙ Keeps-ok (Keeps-mark_event ledger_of_db (λ _ _. refl) _ _) d.0.runs
            ∙ Keeps-ok (Keeps-finalize_transfer ledger_of_db (λ _ _. refl) _ _ _ _) c.0.runs
            ∙ ap ledger_of_db wrote;
        marked =
            ap (λ v. v.db.transfers) end.1
            ∙ Keeps-ok (Keeps-mark_event transfers_of (λ _ _. refl) _ _) d.0.runs
            ∙ Keeps-ok (Keeps-finalize_transfer transfers_of (λ _ _. refl) _ _ _ _) c.0.runs
            ∙ ap transfers_of wrote;
      },
    )

-- What settling writes: the transfer, and a movement of the amount between two accounts.
pub record SettledFrom (tp : TransferPayload) (t : Time) (a b : Ident) (before after : Db)
    : Type 0 where
  pub moved : Moved a b tp.amount before.accounts after.accounts
  pub had : tp.amount ≤ℤ balance_of a before.accounts
  pub same_ids : ids_of after ≡ ids_of before
  pub unposted : after.ledger ≡ before.ledger
  pub marked :
      after.transfers
      ≡ update_where (λ x. x.id == tp.transfer_id) (settle_transfer t) before.transfers

settle-ok :
    (t : Time) (id : Ident) (tp : TransferPayload) (b : Ident) (w w' : World) (st : TransferStatus)
    → Runs (settle t id tp b) w st w'
    → (st ≡ TransferStatus.settled)
      × (w'.db.ledger ≡ w.db.ledger)
      × (ids_of w'.db ≡ ids_of w.db)
      × (w'.db.transfers
          ≡ update_where (λ x. x.id == tp.transfer_id) (settle_transfer t) w.db.transfers)
unfolding settle mark_transfer_settled
settle-ok t id tp b w w' st h =
    let c = bind-ok _ h in
    let d = bind-ok _ c.1 in
    let e = bind-ok _ d.1 in
    let f = bind-ok _ e.1 in
    let end = pure-ok f.1 in
    let wrote = modify-ok _ d.0.runs in
    (
      end.0,
      ap (λ v. v.db.ledger) end.1
          ∙ Keeps-ok (Keeps-mark_event ledger_of_db (λ _ _. refl) _ _) f.0.runs
          ∙ Keeps-ok (Keeps-finalize_transfer ledger_of_db (λ _ _. refl) _ _ _ _) e.0.runs
          ∙ ap ledger_of_db wrote
          ∙ Keeps-ok (Keeps-credit ledger_of_db (λ _ _. refl) _ _) c.0.runs,
      ap (λ v. ids_of v.db) end.1
          ∙ Keeps-ok (Keeps-mark_event ids_of (λ _ _. refl) _ _) f.0.runs
          ∙ Keeps-ok (Keeps-finalize_transfer ids_of (λ _ _. refl) _ _ _ _) e.0.runs
          ∙ ap ids_of wrote
          ∙ Keeps-ok (Keeps-ids-credit _ _) c.0.runs,
      ap (λ v. v.db.transfers) end.1
          ∙ Keeps-ok (Keeps-mark_event transfers_of (λ _ _. refl) _ _) f.0.runs
          ∙ Keeps-ok (Keeps-finalize_transfer transfers_of (λ _ _. refl) _ _ _ _) e.0.runs
          ∙ ap transfers_of wrote
          ∙ ap (update_where (λ x. x.id == tp.transfer_id) (settle_transfer t))
              (Keeps-ok (Keeps-credit transfers_of (λ _ _. refl) _ _) c.0.runs),
    )

moved_sum : (x f t : ℤ) (y z : ℤ) → y ≡ x +ℤ minus f → z ≡ y +ℤ t → z ≡ x +ℤ (t -ℤ f)
moved_sum x f t y z p q = rw (q, p) (omega int_laws)

pub record ShortOf (tp : TransferPayload) (a : Ident) (before : Db) : Type 0 where
  pub short : balance_of a before.accounts <ℤ tp.amount

-- The two ways in which `move_funds` ends.
pub move_funds-ok :
    (t : Time) (id : Ident) (tp : TransferPayload) (a b : Ident) (w w' : World)
    (st : TransferStatus)
    → is_some (find (λ x. x.id == a) w.db.accounts) ≡ true
    → Runs (move_funds t id tp a b) w st w'
    → ((st ≡ TransferStatus.settled) × SettledFrom tp t a b w.db w'.db)
      ⊎ ((st ≡ TransferStatus.failed)
          × ShortOf tp a w.db
          × FailedFor tp t insufficient_balance w.db w'.db)
unfolding move_funds
move_funds-ok t id tp a b w w' st present h = elim (catch-ok _ h) [
  | inl (debit, run) ↦
      let s = settle-ok t id tp b debit.after w' st run in
      inl (
        s.0,
        record {
          moved = λ k.
              moved_sum _ _ _ _ _
                (Shifts-ok (Shifts-debit (balance_gauge k) a tp.amount) debit.runs)
                (Shifts-ok (Shifts-settle (balance_gauge k) t id tp b) run);
          had =
              leb_ℤ→le tp.amount (balance_of a w.db.accounts)
                (debit-had a tp.amount w _ _ debit.runs.run);
          same_ids = s.2 ∙ Keeps-ok (Keeps-ids-debit _ _) debit.runs;
          unposted = s.1 ∙ Keeps-ok (Keeps-debit ledger_of_db (λ _ _. refl) _ _) debit.runs;
          marked =
              s.3
              ∙ ap (update_where (λ x. x.id == tp.transfer_id) (settle_transfer t))
                  (Keeps-ok (Keeps-debit transfers_of (λ _ _. refl) _ _) debit.runs);
        },
      )
  | inr (v, e, run) ↦
      let f = finalize_failed-ok t id tp _ v w' st run in
      inr (
        f.0,
        record {
          short =
              leb_ℤ→lt tp.amount (balance_of a w.db.accounts)
                (debit-short a tp.amount w v present e);
        },
        subst (λ x. FailedFor tp t insufficient_balance x.db w'.db)
            (debit-Undone a tp.amount w v no_rows e) f.1,
      )
]
