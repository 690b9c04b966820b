-- ===== src/Store/Keeps/Writes.antt =====
-- Writes keep every view that does not read the table they write.
use offline_pay.Base.{◌≡◌, List, [], ◌∷◌}
use offline_pay.Base.Int.{ℤ}
use offline_pay.Domain.Tokens.{Ident}
use offline_pay.Store.Rows.{Db, Account, AccountKind, LedgerEntry, TransactionRow, OutboxRow}
use offline_pay.Store.Accounts.{
  Adjusted, missing, violated, written, store_accounts, get_account_id, debit_account,
  force_debit_account, credit_account, LedgerLeg, insert_ledger_entry, insert_legs, post_ledger,
}
use offline_pay.Store.Payments.{insert_finalize_outbox}
use offline_pay.Store.Transactions.{record_transaction}
use offline_pay.Store.Keeps.{
  Keeps, Keeps-bind, Keeps-pure, Keeps-fail, Keeps-one, Keeps-fail_if, Keeps-looking, Keeps-modify,
}

module _ {X : Type 0} (v : Db → X) where
  pub Keeps-insert_outbox :
      ((db : Db) (rows : List OutboxRow) → v (record db { outbox = rows }) ≡ v db)
      → (row : OutboxRow) → Keeps v (insert_finalize_outbox row)
  unfolding insert_finalize_outbox
  Keeps-insert_outbox h row =
      Keeps-looking v
        λ db. Keeps-bind v (Keeps-fail_if v _ _) λ _. Keeps-modify v _ (λ now. h now _)

  pub Keeps-record_transaction :
      ((db : Db) (rows : List TransactionRow) → v (record db { transactions = rows }) ≡ v db)
      → (t : TransactionRow) → Keeps v (record_transaction t)
  unfolding record_transaction
  Keeps-record_transaction h t = Keeps-looking v λ db.
      Keeps-bind v (Keeps-fail_if v _ _)
        λ _. Keeps-bind v (Keeps-fail_if v _ _) λ _. Keeps-modify v _ (λ now. h now _)

  pub Keeps-get_account_id : (u : Ident) (k : AccountKind) → Keeps v (get_account_id u k)
  unfolding get_account_id
  Keeps-get_account_id u k = Keeps-bind v (Keeps-one v _) λ _. Keeps-pure v _

  module _ (h : (db : Db) (rows : List Account) → v (record db { accounts = rows }) ≡ v db) where
    Keeps-store : (r : Adjusted) → Keeps v (store_accounts r)
    Keeps-store missing = Keeps-fail v _
    Keeps-store violated = Keeps-fail v _
    Keeps-store (written xs) = Keeps-modify v _ (λ db. h db xs)

    pub Keeps-debit : (id : Ident) (x : ℤ) → Keeps v (debit_account id x)
    unfolding debit_account
    Keeps-debit id x = Keeps-looking v λ db. Keeps-store _

    pub Keeps-force_debit : (id : Ident) (x : ℤ) → Keeps v (force_debit_account id x)
    unfolding force_debit_account
    Keeps-force_debit id x = Keeps-looking v λ db. Keeps-store _

    pub Keeps-credit : (id : Ident) (x : ℤ) → Keeps v (credit_account id x)
    unfolding credit_account
    Keeps-credit id x = Keeps-looking v λ db. Keeps-store _

  module _ (h : (db : Db) (rows : List LedgerEntry) → v (record db { ledger = rows }) ≡ v db) where
    Keeps-insert_legs : (t : Ident) (legs : List LedgerLeg) → Keeps v (insert_legs t legs)
    unfolding insert_legs insert_ledger_entry
    Keeps-insert_legs t [] = Keeps-pure v _
    Keeps-insert_legs t (leg ∷ legs) =
        Keeps-bind v
          (Keeps-looking v λ db. Keeps-bind v (Keeps-fail_if v _ _) λ _.
            Keeps-bind v (Keeps-fail_if v _ _)
              λ _. Keeps-bind v (Keeps-fail_if v _ _) λ _. Keeps-modify v _ (λ now. h now _))
          λ _. Keeps-insert_legs t legs

    pub Keeps-post_ledger : (t : Ident) (legs : List LedgerLeg) → Keeps v (post_ledger t legs)
    unfolding post_ledger
    Keeps-post_ledger t legs =
        Keeps-bind v (Keeps-fail_if v _ _)
          λ _. Keeps-bind v (Keeps-fail_if v _ _) λ _. Keeps-insert_legs t legs
