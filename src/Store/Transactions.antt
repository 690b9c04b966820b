-- ===== src/Store/Transactions.antt =====
-- pgrepo/repo.go: the business-event log (db/queries/transactions.sql).
use offline_pay.Base.{
  Bool, true, false, Option, none, some, List, [], ◌∷◌, ◌&&◌, ◌==◌, find, select, update_where,
  is_some, coalesce,
}
use offline_pay.Base.Int.{ℤ, pos, leb_ℤ}
use offline_pay.Domain.Status.{Direction, debit, credit, LifecycleStatus}
use offline_pay.Domain.Tokens.{Ident}
use offline_pay.Store.Rows.{Reason, TransactionRow}
use offline_pay.Store.Monad.{
  M, Done, looking, check_violation, unique_violation, pure, one, read, modify, fail_if, ◌>>=◌,
  ◌>>◌,
}

unfoldable pub record_transaction : TransactionRow → M Done
record_transaction t = looking λ db. do
  fail_if (leb_ℤ t.amount (pos 0)) check_violation
  fail_if (is_some (find (λ u. u.id == t.id) db.transactions)) unique_violation
  modify λ db. record db { transactions = t ∷ db.transactions }

-- `TransactionAnchor`
pub record Anchor : Type 0 where
  pub id : Ident
  pub group_id : Ident

abbrev is_debit : Direction → Bool
is_debit debit = true
is_debit credit = false

abbrev is_for : Ident → Option Ident → Bool
is_for id none = false
is_for id (some j) = j == id

-- The DEBIT row of a payment.
unfoldable pub get_transaction_anchor_for_payment : Ident → M Anchor
get_transaction_anchor_for_payment payment = do
  t ←
      one
        λ db. find (λ t. is_for payment t.payment_token_id && is_debit t.direction) db.transactions
  pure (record { id = t.id; group_id = t.group_id })

-- `UpdateTransactionStatus`
unfoldable pub update_transaction_status :
    Ident → LifecycleStatus → Option ℤ → Option Reason → M Done
update_transaction_status id status settled reason =
    modify λ db. record db { transactions = update_where (λ t. t.id == id) write db.transactions }
  where
    write : TransactionRow → TransactionRow
    write t = record t {
      status = status;
      settled_amount = coalesce settled t.settled_amount;
      failure_reason = coalesce reason t.failure_reason;
    }

unfoldable pub finalize_rows :
    LifecycleStatus → Option ℤ → Option Reason → List TransactionRow → M Done
unfolding update_transaction_status
finalize_rows status settled reason [] = pure tt
finalize_rows status settled reason (row ∷ rows) =
    update_transaction_status row.id status settled reason
    >> finalize_rows status settled reason rows

-- Every row of the group, one UPDATE each.
unfoldable pub finalize_paired_transactions :
    Ident → LifecycleStatus → Option ℤ → Option Reason → M Done
unfolding finalize_rows
finalize_paired_transactions group status settled reason = do
  rows ← read λ db. select (λ t. t.group_id == group) db.transactions
  finalize_rows status settled reason rows
