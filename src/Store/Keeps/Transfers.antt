-- ===== src/Store/Keeps/Transfers.antt =====
-- The calls of the transfer repository keep every view that does not read the table they write.
use offline_pay.Base.{◌≡◌, Option, List, [], ◌∷◌}
use offline_pay.Base.Int.{ℤ}
use offline_pay.Domain.Status.{LifecycleStatus}
use offline_pay.Domain.Tokens.{Ident}
use offline_pay.Store.Rows.{Db, TransactionRow, ProcessedEvent, EventStatus, Reason}
use offline_pay.Store.Transactions.{
  update_transaction_status, finalize_rows, finalize_paired_transactions,
}
use offline_pay.Store.Transfers.{mark_event_processed, finalize_transactions_for_transfer}
use offline_pay.Store.Keeps.{Keeps, Keeps-bind, Keeps-pure, Keeps-read, Keeps-option, Keeps-modify}

module _ {X : Type 0} (v : Db → X) where
  module _
      (h : (db : Db) (rows : List TransactionRow)
        → v (record db { transactions = rows }) ≡ v db) where
    Keeps-finalize_rows :
        (st : LifecycleStatus) (x : Option ℤ) (r : Option Reason) (rows : List TransactionRow)
        → Keeps v (finalize_rows st x r rows)
    unfolding finalize_rows update_transaction_status
    Keeps-finalize_rows st x r [] = Keeps-pure v _
    Keeps-finalize_rows st x r (row ∷ rows) =
        Keeps-bind v (Keeps-modify v _ (λ db. h db _)) λ _. Keeps-finalize_rows st x r rows

    Keeps-finalize_paired :
        (g : Ident) (st : LifecycleStatus) (x : Option ℤ) (r : Option Reason)
        → Keeps v (finalize_paired_transactions g st x r)
    unfolding finalize_paired_transactions
    Keeps-finalize_paired g st x r =
        Keeps-bind v (Keeps-read v _) λ rows. Keeps-finalize_rows st x r rows

    pub Keeps-finalize_transfer :
        (t : Ident) (st : LifecycleStatus) (x : Option ℤ) (r : Option Reason)
        → Keeps v (finalize_transactions_for_transfer t st x r)
    unfolding finalize_transactions_for_transfer
    Keeps-finalize_transfer t st x r =
        Keeps-bind v (Keeps-read v _)
          λ a. Keeps-option v a (Keeps-pure v _) (λ row. Keeps-finalize_paired _ _ _ _)

  pub Keeps-mark_event :
      ((db : Db) (rows : List ProcessedEvent) → v (record db { processed_events = rows }) ≡ v db)
      → (id : Ident) (st : EventStatus) → Keeps v (mark_event_processed id st)
  unfolding mark_event_processed
  Keeps-mark_event h id st = Keeps-modify v _ (λ db. h db _)
