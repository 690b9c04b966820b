-- ===== src/Reconcile/Nightly.antt =====
-- `NightlyLedgerReconcile`, with the queries of pgrepo/reconciliation.go: every account's balance
-- against its ledger entries, and every ceiling against what was settled under it. Rows are taken in the
-- order of the table; the order by id only shows in the list of discrepancies.
use offline_pay.Base.{
  find, is_some, ℕ, Bool, true, false, List, [], ◌∷◌, ◌++◌, ◌&&◌, not, ◌==◌, if◌then◌else◌,
}
use offline_pay.Base.Int.{ℤ, pos, ◌+ℤ◌, ◌-ℤ◌, ltb_ℤ, eqb_ℤ, fits_int64, wrap_int64}
use offline_pay.Domain.Reconciliation.{
  account_balance, ceiling_overdraw, number, at_most, critical, Discrepancy, ledger,
  ReconciliationStatus, clean, discrepancy, ReconciliationRecord,
}
use offline_pay.Domain.Status.{Direction, debit, credit, PaymentStatus}
use offline_pay.Domain.Tokens.{Ident, Time, CeilingToken, no_id}
use offline_pay.Store.Rows.{Account, LedgerEntry, Payment}
use offline_pay.Store.Monad.{
  M, Done, pure, read, fail_if, modify, new_id, now, out_of_range, unique_violation, looking, ◌>>=◌,
  ◌>>◌,
}

pub record Service : Type 0 where
  pub supply : ℕ → Ident
  pub clock : ℕ → Time

abbrev is_side : Bool → Direction → Bool
is_side true debit = true
is_side true credit = false
is_side false debit = false
is_side false credit = true

-- One of the two sums of `AccountLedgerSum`: of the debits, or of the credits.
unfoldable pub side_total : Bool → Ident → List LedgerEntry → ℤ
side_total debits id [] = pos 0
side_total debits id (e ∷ es) =
    (if (e.account_id == id) && is_side debits e.direction then e.amount else pos 0)
    +ℤ side_total debits id es

pub record LedgerSum : Type 0 where
  pub debits : ℤ
  pub credits : ℤ

-- The casts of the sums to BIGINT fail out of range.
unfoldable pub account_ledger_sum : Ident → M LedgerSum
account_ledger_sum id = do
  debits ← read λ db. side_total true id db.ledger
  credits ← read λ db. side_total false id db.ledger
  fail_if (not (fits_int64 debits && fits_int64 credits)) out_of_range
  pure (record { debits = debits; credits = credits })

abbrev pub is_settled : PaymentStatus → Bool
is_settled PaymentStatus.settled = true
is_settled PaymentStatus.partially_settled = true
is_settled _ = false

unfoldable pub settled_total : Ident → List Payment → ℤ
settled_total ceiling [] = pos 0
settled_total ceiling (p ∷ ps) =
    (if (p.ceiling_id == ceiling) && is_settled p.status then p.settled_amount else pos 0)
    +ℤ settled_total ceiling ps

unfoldable pub settled_total_for_ceiling : Ident → M ℤ
settled_total_for_ceiling ceiling = do
  total ← read λ db. settled_total ceiling db.payments
  fail_if (not (fits_int64 total)) out_of_range
  pure total

abbrev off_balance : Account → ℤ → Discrepancy
off_balance a expected = record {
  transaction_id = no_id;
  field = account_balance a.id a.kind;
  expected = number expected;
  actual = number a.balance;
  severity = critical;
}

-- The loop over the accounts; what it finds stands in front of what the rest finds.
unfoldable pub check_accounts : List Account → M (List Discrepancy)
unfolding account_ledger_sum
check_accounts [] = pure []
check_accounts (a ∷ rest) = do
  sums ← account_ledger_sum a.id
  let expected = wrap_int64 (sums.credits -ℤ sums.debits)
  found ← check_accounts rest
  pure (if eqb_ℤ expected a.balance then found else off_balance a expected ∷ found)

abbrev overdrawn : CeilingToken → ℤ → Discrepancy
overdrawn c settled = record {
  transaction_id = no_id;
  field = ceiling_overdraw c.id;
  expected = at_most c.ceiling_amount;
  actual = number settled;
  severity = critical;
}

unfoldable pub check_ceilings : List CeilingToken → M (List Discrepancy)
unfolding settled_total_for_ceiling
check_ceilings [] = pure []
check_ceilings (c ∷ rest) = do
  settled ← settled_total_for_ceiling c.id
  found ← check_ceilings rest
  pure (if ltb_ℤ c.ceiling_amount settled then overdrawn c settled ∷ found else found)

abbrev pub status_of : List Discrepancy → ReconciliationStatus
status_of [] = clean
status_of (_ ∷ _) = discrepancy

-- The id is the primary key.
unfoldable pub insert_reconciliation_run : ReconciliationRecord → M Done
insert_reconciliation_run r = looking λ db. do
  fail_if (is_some (find (λ q. q.id == r.id) db.reconciliation_runs)) unique_violation
  modify λ now_db. record now_db { reconciliation_runs = r ∷ now_db.reconciliation_runs }

-- The report of a run, and its insertion. `run_at` of the row is a default of the database, the time of
-- the insert; `EntityID` is always "system" and left out.
unfoldable pub report : Service → List Discrepancy → M ReconciliationRecord
unfolding insert_reconciliation_run
report s found = do
  run_at ← now s.clock
  id ← new_id s.supply
  let r : ReconciliationRecord = record {
    id = id;
    type_of_run = ledger;
    run_at = run_at;
    status = status_of found;
    discrepancies = found;
  }
  insert_reconciliation_run r
  pure r

unfoldable pub nightly_ledger_reconcile : Service → M ReconciliationRecord
nightly_ledger_reconcile s = do
  accounts ← read λ db. db.accounts
  ceilings ← read λ db. db.ceilings
  first ← check_accounts accounts
  second ← check_ceilings ceilings
  report s (first ++ second)
