-- ===== src/Store/Runs/Transfers.antt =====
-- What a successful call of the transfer repository wrote.
use offline_pay.Base.{◌≡◌, ap, ◌∙◌, none, ◌∷◌}
use offline_pay.Base.Int.{ℤ}
use offline_pay.Domain.Tokens.{Ident, Time}
use offline_pay.Store.Rows.{Transfer, TransactionRow, Aggregate, OutboxPayload, OutboxRow}
use offline_pay.Store.Monad.{World, Done}
use offline_pay.Store.Transactions.{record_transaction}
use offline_pay.Store.Payments.{insert_finalize_outbox}
use offline_pay.Store.Transfers.{
  Zones, day_start, sum_sent_since, sum_sender_transfers_today, insert_accepted, insert_outbox,
}
use offline_pay.Store.Runs.{Runs, bind-ok, pure-ok, read-ok, looking-ok, fail_if-ok, modify-ok}

-- The outbox row of a transfer event that was just written.
abbrev pub event_row : Ident → Ident → OutboxPayload → OutboxRow
event_row id aggregate_id payload = record {
  id = id;
  aggregate = Aggregate.transfer;
  aggregate_id = aggregate_id;
  payload = payload;
  dispatched_at = none;
  attempts = 0;
  next_attempt_at = none;
}

module _ {w w' : World} where
  pub record_transaction-ok :
      (t : TransactionRow) {u : Done}
      → Runs (record_transaction t) w u w'
      → w'.db ≡ record w.db { transactions = t ∷ w.db.transactions }
  unfolding record_transaction
  record_transaction-ok t h =
      let b = bind-ok _ (looking-ok _ h) in
      let c = bind-ok _ b.1 in
      modify-ok _ c.1
      ∙ ap (λ v. record v.db { transactions = t ∷ v.db.transactions })
          ((fail_if-ok _ c.0.runs).1 ∙ (fail_if-ok _ b.0.runs).1)

  pub insert_accepted-ok :
      (t : Transfer) {u : Transfer}
      → Runs (insert_accepted t) w u w'
      → (u ≡ t) × (w'.db ≡ record w.db { transfers = t ∷ w.db.transfers })
  unfolding insert_accepted
  insert_accepted-ok t h =
      let b = bind-ok _ (looking-ok _ h) in
      let c = bind-ok _ b.1 in
      let d = bind-ok _ c.1 in
      let e = bind-ok _ d.1 in
      let end = pure-ok e.1 in
      (
        end.0,
        ap (λ v. v.db) end.1
            ∙ modify-ok _ e.0.runs
            ∙ ap (λ v. record v.db { transfers = t ∷ v.db.transfers })
                ((fail_if-ok _ d.0.runs).1 ∙ (fail_if-ok _ c.0.runs).1 ∙ (fail_if-ok _ b.0.runs).1),
      )

  pub insert_outbox-ok :
      (id a : Ident) (p : OutboxPayload) {u : Done}
      → Runs (insert_outbox id a p) w u w'
      → w'.db ≡ record w.db { outbox = event_row id a p ∷ w.db.outbox }
  unfolding insert_outbox insert_finalize_outbox
  insert_outbox-ok id a p h =
      let b = bind-ok _ (looking-ok _ h) in
      modify-ok _ b.1
      ∙ ap (λ v. record v.db { outbox = event_row id a p ∷ v.db.outbox }) (fail_if-ok _ b.0.runs).1

  pub sum_today-ok :
      (z : Zones) (now : Time) (sender : Ident) {x : ℤ}
      → Runs (sum_sender_transfers_today z now sender) w x w'
      → (x ≡ sum_sent_since (day_start z now) sender w.db.transfers) × (w' ≡ w)
  unfolding sum_sender_transfers_today
  sum_today-ok z now sender h =
      let b = bind-ok _ h in
      let total = read-ok _ b.0.runs in
      let c = bind-ok _ b.1 in
      let end = pure-ok c.1 in (end.0 ∙ total.0, end.1 ∙ (fail_if-ok _ c.0.runs).1 ∙ total.1)
