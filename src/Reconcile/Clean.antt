-- ===== src/Reconcile/Clean.antt =====
-- What a clean nightly reconciliation (reconciliation/service.go) says of the database.
use offline_pay.Base.{
  ◌≡◌, refl, sym, ap, ◌∙◌, ◌↔◌, inl, inr, Bool, true, false, List, [], ◌∷◌, ◌++◌, ◌==◌, arith, All,
  false_true, subst, Bool-cases, if◌then◌else◌,
}
use offline_pay.Base.Int.{ℤ, ◌-ℤ◌, ◌≤ℤ◌, eqb_ℤ, ltb_ℤ, ltb_ℤ→le, int_laws, wrap_int64}
use offline_pay.Domain.Reconciliation.{Discrepancy, ReconciliationRecord, clean}
use offline_pay.Domain.Status.{Direction, debit, credit}
use offline_pay.Domain.Tokens.{Ident, CeilingToken}
use offline_pay.Store.Rows.{Db, Account, LedgerEntry, Payment}
use offline_pay.Store.Monad.{Done, World}
use offline_pay.Store.Gauge.Instances.{ledger_of}
use offline_pay.Store.Runs.{
  Runs, looking-ok, bind-ok, pure-ok, read-ok, fail_if-ok, modify-ok, now-ok, new_id-ok,
}
use offline_pay.Reconcile.Nightly.{
  Service, LedgerSum, side_total, account_ledger_sum, settled_total, settled_total_for_ceiling,
  check_accounts, check_ceilings, status_of, insert_reconciliation_run, report,
  nightly_ledger_reconcile,
}

module _ (id : Ident) (es : List LedgerEntry) where
  abbrev entry_of : Ident → Ident → Direction → ℤ → LedgerEntry
  entry_of t a d x = record { txn_id = t; account_id = a; direction = d; amount = x }

  totals-entry :
      (t a : Ident) (d : Direction) (x : ℤ)
      → side_total false id es -ℤ side_total true id es ≡ ledger_of id es
      → side_total false id (entry_of t a d x ∷ es) -ℤ side_total true id (entry_of t a d x ∷ es)
        ≡ ledger_of id (entry_of t a d x ∷ es)
  unfolding side_total ledger_of
  totals-entry t a debit x h = elim (Bool-cases (a == id)) [
    | inl same ↦ rw (same, ← h) (omega int_laws)
    | inr other ↦ rw (other, ← h) (omega int_laws)
  ]
  totals-entry t a credit x h = elim (Bool-cases (a == id)) [
    | inl same ↦ rw (same, ← h) (omega int_laws)
    | inr other ↦ rw (other, ← h) (omega int_laws)
  ]

-- Credits less debits are what the gauge of an account reads off the ledger.
totals-ledger_of :
    (id : Ident) (es : List LedgerEntry)
    → side_total false id es -ℤ side_total true id es ≡ ledger_of id es
unfolding side_total ledger_of
totals-ledger_of id [] = omega int_laws
totals-ledger_of id (e ∷ es) =
    totals-entry id es e.txn_id e.account_id e.direction e.amount (totals-ledger_of id es)

-- The balance is what the ledger gives, in int64 arithmetic.
abbrev pub Agrees : List LedgerEntry → Account → Type 0
Agrees es a = a.balance ≡ wrap_int64 (ledger_of a.id es)

sum-ok :
    (id : Ident) (w w' : World) (x : LedgerSum)
    → Runs (account_ledger_sum id) w x w'
    → (x.credits -ℤ x.debits ≡ ledger_of id w.db.ledger) × (w' ≡ w)
unfolding account_ledger_sum
sum-ok id w w' x h =
    let b = bind-ok _ h in
    let debits = read-ok _ b.0.runs in
    let c = bind-ok _ b.1 in
    let credits = read-ok _ c.0.runs in
    let d = bind-ok _ c.1 in
    let end = pure-ok d.1 in
    (
      ap (λ s. s.credits -ℤ s.debits) end.0
          ∙ ap (λ y. y -ℤ b.0.result)
              (credits.0 ∙ ap (λ v. side_total false id v.db.ledger) debits.1)
          ∙ ap (λ y. side_total false id w.db.ledger -ℤ y) debits.0
          ∙ totals-ledger_of id w.db.ledger,
      end.1 ∙ (fail_if-ok _ d.0.runs).1 ∙ credits.1 ∙ debits.1,
    )

-- Nothing is found exactly where a property holds of all.
abbrev FoundNone : List Discrepancy → Type 0 → Type 0
FoundNone ds P = (ds ≡ []) ↔ P

found_one :
    (test : Bool) (d : Discrepancy) (found : List Discrepancy) (P Q : Type 0)
    → ((test ≡ true) ↔ P)
    → FoundNone found Q
    → FoundNone (if test then found else d ∷ found) (P × Q)
found_one true d found P Q h k = (λ e. (h.0 refl, k.0 e), λ pq. k.1 pq.1)
found_one false d found P Q h k = (λ e. cc, λ pq. absurd (false_true (h.1 pq.0)))

eqb_iff : (x y : ℤ) → (eqb_ℤ x y ≡ true) ↔ (y ≡ x)
eqb_iff x y = (λ h. ground arith, λ h. rw h (ground arith))

check_accounts-ok :
    (xs : List Account) (w w' : World) (ds : List Discrepancy)
    → Runs (check_accounts xs) w ds w'
    → FoundNone ds (All (Agrees w.db.ledger) xs) × (w' ≡ w)
unfolding check_accounts
check_accounts-ok [] w w' ds h = let end = pure-ok h in ((λ _. tt, λ _. end.0), end.1)
check_accounts-ok (a ∷ rest) w w' ds h =
    let b = bind-ok _ h in
    let sums = sum-ok a.id _ _ _ b.0.runs in
    let c = bind-ok _ b.1 in
    let found = check_accounts-ok rest _ _ _ c.0.runs in
    let end = pure-ok c.1 in
    (
      subst (λ x. FoundNone x (All (Agrees w.db.ledger) (a ∷ rest))) (sym end.0)
          (found_one _ _ c.0.result _ _
            (subst
              (λ y.
                (eqb_ℤ (wrap_int64 (b.0.result.credits -ℤ b.0.result.debits)) a.balance ≡ true)
                ↔ (a.balance ≡ wrap_int64 y))
              sums.0 (eqb_iff _ _))
            (subst (λ v. FoundNone c.0.result (All (Agrees v.db.ledger) rest)) sums.1 found.0)),
      end.1 ∙ found.1 ∙ sums.1,
    )

found_over :
    (test : Bool) (d : Discrepancy) (found : List Discrepancy) (P Q : Type 0)
    → ((test ≡ false) ↔ P)
    → FoundNone found Q
    → FoundNone (if test then d ∷ found else found) (P × Q)
found_over true d found P Q h k = (λ e. cc, λ pq. absurd (false_true (sym (h.1 pq.0))))
found_over false d found P Q h k = (λ e. (h.0 refl, k.0 e), λ pq. k.1 pq.1)

not_less_iff : (x y : ℤ) → (ltb_ℤ x y ≡ false) ↔ (y ≤ℤ x)
not_less_iff x y = (λ h. ltb_ℤ→le x y h, λ h. ground arith)

-- What was settled under a ceiling is within it.
abbrev pub Covers : List Payment → CeilingToken → Type 0
Covers ps c = settled_total c.id ps ≤ℤ c.ceiling_amount

settled-ok :
    (id : Ident) (w w' : World) (x : ℤ)
    → Runs (settled_total_for_ceiling id) w x w'
    → (x ≡ settled_total id w.db.payments) × (w' ≡ w)
unfolding settled_total_for_ceiling
settled-ok id w w' x h =
    let b = bind-ok _ h in
    let total = read-ok _ b.0.runs in
    let c = bind-ok _ b.1 in
    let end = pure-ok c.1 in (end.0 ∙ total.0, end.1 ∙ (fail_if-ok _ c.0.runs).1 ∙ total.1)

check_ceilings-ok :
    (cs : List CeilingToken) (w w' : World) (ds : List Discrepancy)
    → Runs (check_ceilings cs) w ds w'
    → FoundNone ds (All (Covers w.db.payments) cs) × (w' ≡ w)
unfolding check_ceilings
check_ceilings-ok [] w w' ds h = let end = pure-ok h in ((λ _. tt, λ _. end.0), end.1)
check_ceilings-ok (c ∷ rest) w w' ds h =
    let b = bind-ok _ h in
    let total = settled-ok c.id _ _ _ b.0.runs in
    let d = bind-ok _ b.1 in
    let found = check_ceilings-ok rest _ _ _ d.0.runs in
    let end = pure-ok d.1 in
    (
      subst (λ x. FoundNone x (All (Covers w.db.payments) (c ∷ rest))) (sym end.0)
          (found_over _ _ d.0.result _ _
            (subst
              (λ (y : ℤ). (ltb_ℤ c.ceiling_amount b.0.result ≡ false) ↔ (y ≤ℤ c.ceiling_amount))
              total.0 (not_less_iff c.ceiling_amount b.0.result))
            (subst (λ v. FoundNone d.0.result (All (Covers v.db.payments) rest)) total.1 found.0)),
      end.1 ∙ found.1 ∙ total.1,
    )

-- Every account agrees with the ledger, and every ceiling covers what was settled under it.
unfoldable pub InBalance : Db → Type 0
InBalance db = All (Agrees db.ledger) db.accounts × All (Covers db.payments) db.ceilings

found_both :
    (xs ys : List Discrepancy) (P Q : Type 0)
    → FoundNone xs P
    → FoundNone ys Q
    → (status_of (xs ++ ys) ≡ clean) ↔ (P × Q)
found_both [] [] P Q h k = (λ _. (h.0 refl, k.0 refl), λ _. refl)
found_both [] (y ∷ ys) P Q h k = (λ e. cc, λ pq. cc (k.1 pq.1))
found_both (x ∷ xs) ys P Q h k = (λ e. cc, λ pq. cc (h.1 pq.0))

-- The database with one report more.
abbrev pub with_run : ReconciliationRecord → Db → Db
with_run r db = record db { reconciliation_runs = r ∷ db.reconciliation_runs }

insert_run-ok :
    (r : ReconciliationRecord) (w w' : World) (u : Done)
    → Runs (insert_reconciliation_run r) w u w'
    → w'.db ≡ with_run r w.db
unfolding insert_reconciliation_run
insert_run-ok r w w' u h =
    let b = bind-ok _ (looking-ok _ h) in
    modify-ok _ b.1 ∙ ap (λ v. with_run r v.db) (fail_if-ok _ b.0.runs).1

report-ok :
    (s : Service) (found : List Discrepancy) (w w' : World) (r : ReconciliationRecord)
    → Runs (report s found) w r w'
    → (r.status ≡ status_of found) × (w'.db ≡ with_run r w.db)
unfolding report
report-ok s found w w' r h =
    let b = bind-ok _ h in
    let c = bind-ok _ b.1 in
    let d = bind-ok _ c.1 in
    let end = pure-ok d.1 in
    let before = (new_id-ok _ c.0.runs).1 ∙ (now-ok _ b.0.runs).1 in
    (
      ap (λ x. x.status) end.0,
      ap (λ v. v.db) end.1
          ∙ insert_run-ok _ _ _ _ d.0.runs
          ∙ ap (λ x. with_run x c.0.after.db) (sym end.0)
          ∙ ap (with_run r) before,
    )

-- The nightly reconciliation, where it succeeds, reports CLEAN exactly where every account's balance is
-- the sum of its entries (in int64 arithmetic) and no ceiling has more settled under it than its
-- amount; it records its report, and writes nothing else.
pub nightly-clean :
    (s : Service) (w w' : World) (r : ReconciliationRecord)
    → Runs (nightly_ledger_reconcile s) w r w'
    → ((r.status ≡ clean) ↔ InBalance w.db) × (w'.db ≡ with_run r w.db)
unfolding nightly_ledger_reconcile InBalance
nightly-clean s w w' r h =
    let b = bind-ok _ h in
    let accounts = read-ok _ b.0.runs in
    let c = bind-ok _ b.1 in
    let ceilings = read-ok _ c.0.runs in
    let start : c.0.after ≡ w = ceilings.1 ∙ accounts.1 in
    let d = bind-ok _ c.1 in
    let first = check_accounts-ok b.0.result _ _ _ d.0.runs in
    let e = bind-ok _ d.1 in
    let second = check_ceilings-ok c.0.result _ _ _ e.0.runs in
    let reported = report-ok s (d.0.result ++ e.0.result) e.0.after w' r e.1 in
    let balanced =
      found_both d.0.result e.0.result (All (Agrees w.db.ledger) w.db.accounts)
        (All (Covers w.db.payments) w.db.ceilings)
        (subst (λ xs. FoundNone d.0.result (All (Agrees w.db.ledger) xs)) accounts.0
          (subst (λ v. FoundNone d.0.result (All (Agrees v.db.ledger) b.0.result)) start first.0))
        (subst (λ cs. FoundNone e.0.result (All (Covers w.db.payments) cs))
          (ceilings.0 ∙ ap (λ v. v.db.ceilings) accounts.1)
          (subst (λ v. FoundNone e.0.result (All (Covers v.db.payments) c.0.result))
            (first.1 ∙ start) second.0)) in
    (
      (λ z. balanced.0 (sym reported.0 ∙ z), λ z. reported.0 ∙ balanced.1 z),
      reported.1 ∙ ap (λ v. with_run r v.db) (second.1 ∙ first.1 ∙ start),
    )
