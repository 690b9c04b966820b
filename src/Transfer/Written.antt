-- ===== src/Transfer/Written.antt =====
-- What the accepting transaction of a transfer writes (transfer/service.go): scoring writes nothing in
-- the database, and the inserts add one transfer, its paired rows and its event.
use offline_pay.Base.{◌≡◌, refl, sym, ap, ◌∙◌, List, ◌∷◌, subst}
use offline_pay.Domain.Status.{debit, credit, transfer_sent, transfer_received}
use offline_pay.Domain.Tokens.{Ident, Time}
use offline_pay.Store.Rows.{
  Db, Account, LedgerEntry, Transfer, TransactionRow, OutboxRow, transfer_event, KycTier,
  FraudScore, User,
}
use offline_pay.Store.Monad.{World, Done}
use offline_pay.Store.Keeps.{
  Keeps, Keeps-bind, Keeps-pure, Keeps-fail, Keeps-read, Keeps-one, Keeps-fail_if, Keeps-when,
  Keeps-branch, Keeps-looking, Keeps-modify, Keeps-emit, Keeps-new_id,
}
use offline_pay.Store.Runs.{Runs, bind-ok, pure-ok, new_id-ok, Keeps-ok}
use offline_pay.Store.Runs.Transfers.{
  event_row, record_transaction-ok, insert_accepted-ok, insert_outbox-ok,
}
use offline_pay.Store.Transfers.{
  Zones, sum_sender_transfers_today, count_recent_transfers_by_sender, exists_transfer_between,
  insert_fraud_score,
}
use offline_pay.Transfer.Types.{Service, InitiateTransferInput}
use offline_pay.Transfer.Scoring.{
  Score, ScoreInput, Instant, rule_velocity_sender_1m, rule_velocity_sender_1h,
  rule_new_account_large_transfer, rule_novel_receiver_high_amount, rule_high_daily_share,
  score_transfer,
}
use offline_pay.Transfer.Accept.{
  refuse_blocked, score_fraud, new_transfer, transfer_row, record_pair, record_flag, payload_of,
  insert_transfer, is_flagged,
}

module _ {X : Type 0} (v : Db → X) where
  pub Keeps-sum_today :
      (z : Zones) (t : Time) (u : Ident) → Keeps v (sum_sender_transfers_today z t u)
  unfolding sum_sender_transfers_today
  Keeps-sum_today z t u =
      Keeps-bind v (Keeps-read v _) λ _. Keeps-bind v (Keeps-fail_if v _ _) λ _. Keeps-pure v _

  velocity-Keeps : (t : Instant) (i : ScoreInput) → Keeps v (rule_velocity_sender_1m t i)
  unfolding rule_velocity_sender_1m count_recent_transfers_by_sender
  velocity-Keeps t i =
      Keeps-branch v _ (Keeps-pure v _) (Keeps-bind v (Keeps-read v _) λ _. Keeps-pure v _)

  hourly-Keeps : (t : Instant) (i : ScoreInput) → Keeps v (rule_velocity_sender_1h t i)
  unfolding rule_velocity_sender_1h count_recent_transfers_by_sender
  hourly-Keeps t i =
      Keeps-branch v _ (Keeps-pure v _) (Keeps-bind v (Keeps-read v _) λ _. Keeps-pure v _)

  novel-Keeps : (t : Instant) (i : ScoreInput) → Keeps v (rule_novel_receiver_high_amount t i)
  unfolding rule_novel_receiver_high_amount exists_transfer_between
  novel-Keeps t i =
      Keeps-branch v _ (Keeps-pure v _) (Keeps-bind v (Keeps-read v _) λ _. Keeps-pure v _)

  new_account-Keeps : (t : Instant) (i : ScoreInput) → Keeps v (rule_new_account_large_transfer t i)
  unfolding rule_new_account_large_transfer
  new_account-Keeps t i = Keeps-pure v _

  share-Keeps : (t : Instant) (i : ScoreInput) → Keeps v (rule_high_daily_share t i)
  unfolding rule_high_daily_share
  share-Keeps t i =
      Keeps-branch v _ (Keeps-pure v _) (Keeps-bind v (Keeps-sum_today _ _ _) λ _. Keeps-pure v _)

  score_transfer-Keeps : (t : Instant) (i : ScoreInput) → Keeps v (score_transfer t i)
  unfolding score_transfer
  score_transfer-Keeps t i =
      Keeps-bind v
        (Keeps-bind v (velocity-Keeps t i) λ _.
          Keeps-bind v
            (Keeps-bind v (hourly-Keeps t i) λ _.
              Keeps-bind v
                (Keeps-bind v (new_account-Keeps t i) λ _.
                  Keeps-bind v
                    (Keeps-bind v (novel-Keeps t i) λ _.
                      Keeps-bind v
                        (Keeps-bind v (share-Keeps t i)
                          λ _. Keeps-bind v (Keeps-pure v _) λ _. Keeps-pure v _)
                        λ _. Keeps-pure v _)
                    λ _. Keeps-pure v _)
                λ _. Keeps-pure v _)
            λ _. Keeps-pure v _)
        λ _. Keeps-pure v _

  -- Scoring, the refusal of a blocked transfer included, writes nothing in the database.
  pub score_fraud-Keeps :
      (s : Service) (t : Time) (i : InitiateTransferInput) (r : Ident) (tier : KycTier)
      → Keeps v (score_fraud s t i r tier)
  unfolding score_fraud refuse_blocked
  score_fraud-Keeps s t i r tier =
      Keeps-branch v _
        (Keeps-bind v (Keeps-one v _) λ _. Keeps-bind v (score_transfer-Keeps _ _) λ sc.
          Keeps-bind v
            (Keeps-when v _ (
              Keeps-bind v (Keeps-new_id v _)
                λ _. Keeps-bind v (Keeps-emit v _) λ _. Keeps-fail v _))
            λ _. Keeps-pure v _)
        (Keeps-pure v _)

-- The paired rows of a transfer.
abbrev pub sent_row : Ident → Ident → Transfer → TransactionRow
sent_row id group t =
    transfer_row id group t.sender_user_id t.receiver_user_id transfer_sent debit t.amount t.id

abbrev pub received_row : Ident → Ident → Transfer → TransactionRow
received_row id group t =
    transfer_row id group t.receiver_user_id t.sender_user_id transfer_received credit t.amount t.id

module _ (s : Service) (t : Transfer) (w w' : World) where
  record_pair-ok :
      (u : Done)
      → Runs (record_pair s t) w u w'
      → (group : Ident) × (a : Ident) × (b : Ident) × (w'.db ≡ record w.db {
        transactions = received_row b group t ∷ sent_row a group t ∷ w.db.transactions;
      })
  unfolding record_pair
  record_pair-ok u h =
      let b = bind-ok _ h in
      let c = bind-ok _ b.1 in
      let d = bind-ok _ c.1 in
      let e = bind-ok _ d.1 in
      let put =
        λ (rows : TransactionRow) (db : Db). record db { transactions = rows ∷ db.transactions } in
      (
        b.0.result,
        c.0.result,
        e.0.result,
        record_transaction-ok _ e.1
            ∙ ap (put (received_row e.0.result b.0.result t)) (
                (new_id-ok _ e.0.runs).1
                ∙ record_transaction-ok _ d.0.runs
                ∙ ap (put (sent_row c.0.result b.0.result t))
                    ((new_id-ok _ c.0.runs).1 ∙ (new_id-ok _ b.0.runs).1)),
      )

module _ (s : Service) (t : Transfer) where
  record_flag-Keeps :
      {X : Type 0} (v : Db → X)
      → ((db : Db) (rows : List FraudScore) → v (record db { fraud_scores = rows }) ≡ v db)
      → (sc : Score) → Keeps v (record_flag s t sc)
  unfolding record_flag insert_fraud_score
  record_flag-Keeps v h sc = Keeps-when v _ (
      Keeps-bind v (Keeps-new_id v _) λ _.
        Keeps-looking v
          λ db. Keeps-bind v (Keeps-fail_if v _ _) λ _. Keeps-modify v _ (λ db. h db _))

-- One transfer more, with its two rows and its event; no balance and no ledger entry.
pub record Inserted (t : Transfer) (before after : Db) : Type 0 where
  pub transfers : after.transfers ≡ t ∷ before.transfers
  pub paired :
      (group : Ident) × (a : Ident) × (b : Ident) × (after.transactions
        ≡ received_row b group t ∷ sent_row a group t ∷ before.transactions)
  pub event :
      (id : Ident) × (after.outbox
        ≡ event_row id t.id (transfer_event (payload_of t)) ∷ before.outbox)
  pub accounts : after.accounts ≡ before.accounts
  pub ledger : after.ledger ≡ before.ledger
  pub users : after.users ≡ before.users

-- A database after the inserts that the flag and the event leave alone.
abbrev paired_db : Transfer → Ident → Ident → Ident → Db → Db
paired_db t group a b db = record db {
  transfers = t ∷ db.transfers;
  transactions = received_row b group t ∷ sent_row a group t ∷ db.transactions;
}

abbrev with_outbox : Ident → Transfer → Db → Db
with_outbox id t db = record db {
  outbox = event_row id t.id (transfer_event (payload_of t)) ∷ db.outbox;
}

Inserted-of :
    (t : Transfer) (group a b id : Ident) (before flags after : Db)
    → ((X : Type 0) (v : Db → X)
        → ((db : Db) (rows : List FraudScore) → v (record db { fraud_scores = rows }) ≡ v db)
        → v flags ≡ v (paired_db t group a b before))
    → after ≡ with_outbox id t flags
    → Inserted t before after
Inserted-of t group a b id before flags after kept e = record {
  transfers = ap (λ db. db.transfers) e ∙ kept (List Transfer) (λ db. db.transfers) (λ _ _. refl);
  paired = (
    group,
    a,
    b,
    ap (λ db. db.transactions) e ∙ kept (List TransactionRow) (λ db. db.transactions) (λ _ _. refl),
  );
  event = (
    id,
    ap (λ db. db.outbox) e
        ∙ ap (λ rows. event_row id t.id (transfer_event (payload_of t)) ∷ rows)
            (kept (List OutboxRow) (λ db. db.outbox) (λ _ _. refl)),
  );
  accounts = ap (λ db. db.accounts) e ∙ kept (List Account) (λ db. db.accounts) (λ _ _. refl);
  ledger = ap (λ db. db.ledger) e ∙ kept (List LedgerEntry) (λ db. db.ledger) (λ _ _. refl);
  users = ap (λ db. db.users) e ∙ kept (List User) (λ db. db.users) (λ _ _. refl);
}

-- What the inserting part of the transaction did, where it succeeds.
pub insert_transfer-Inserted :
    (s : Service) (start : Time) (i : InitiateTransferInput) (r : Ident) (sc : Score) (w w' : World)
    (t : Transfer)
    → Runs (insert_transfer s start i r sc) w t w'
    → (id : Ident) × (t ≡ new_transfer id start i r (is_flagged sc.decision))
      × Inserted t w.db w'.db
unfolding insert_transfer
insert_transfer-Inserted s start i r sc w w' t h =
    let b = bind-ok _ h in
    let c = bind-ok _ b.1 in
    let row = insert_accepted-ok _ c.0.runs in
    let d = bind-ok _ c.1 in
    let pair = record_pair-ok s _ _ _ _ d.0.runs in
    let e = bind-ok _ d.1 in
    let f = bind-ok _ e.1 in
    let k = bind-ok _ f.1 in
    let end = pure-ok k.1 in
    let put = λ (x : Transfer) (db : Db). record db { transfers = x ∷ db.transfers } in
    let first : c.0.after.db ≡ put c.0.result w.db =
      row.1
      ∙ ap (λ x. put x b.0.after.db) (sym row.0)
      ∙ ap (put c.0.result) (new_id-ok _ b.0.runs).1 in
    let rows = λ (db : Db). record db {
      transactions =
          received_row pair.2 pair.0 c.0.result
          ∷ sent_row pair.1 pair.0 c.0.result
          ∷ db.transactions;
    } in
    (
      b.0.result,
      end.0 ∙ row.0,
      subst (λ x. Inserted x w.db w'.db) (sym end.0)
          (Inserted-of c.0.result pair.0 pair.1 pair.2 f.0.result w.db f.0.after.db w'.db
            (λ X v q.
              ap v (new_id-ok _ f.0.runs).1
              ∙ Keeps-ok (record_flag-Keeps s c.0.result v q sc) e.0.runs
              ∙ ap v (pair.3 ∙ ap rows first))
            (ap (λ v. v.db) end.1 ∙ insert_outbox-ok _ _ _ k.0.runs)),
    )
