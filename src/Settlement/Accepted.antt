-- ===== src/Settlement/Accepted.antt =====
-- What an accepted claim does (step 6 of `submitOne`, settlement/service.go): whose balances move, by
-- how much, and which payment is on record afterwards.
use offline_pay.Base.{◌≡◌, sym, ap, ◌∙◌, some, List}
use offline_pay.Base.Int.{ℤ, pos, ◌+ℤ◌, ◌-ℤ◌, int_laws}
use offline_pay.Domain.Tokens.{Ident, Time}
use offline_pay.Store.Rows.{Account, receiving_pending}
use offline_pay.Store.Monad.{World}
use offline_pay.Store.Accounts.{account_of}
use offline_pay.Store.Gauge.{Shifts}
use offline_pay.Store.Gauge.Rules.{
  Shifts-bind, Shifts-skip, Shifts-cast, Shifts-pure, Shifts-new_id,
}
use offline_pay.Store.Gauge.Writes.{minus, Shifts-post_ledger, Shifts-force_debit, Shifts-credit}
use offline_pay.Store.Gauge.Tables.{
  Shifts-create_payment, Shifts-record_transaction, Shifts-update_payment_status,
}
use offline_pay.Store.Gauge.Instances.{balance_of, at_id, balance_gauge}
use offline_pay.Store.Runs.{Runs, bind-ok, new_id-ok, tx-ok, Shifts-ok}
use offline_pay.Store.Runs.Calls.{get_account_id-ok}
use offline_pay.Settlement.Types.{Service, ClaimItem, SettlementResult}
use offline_pay.Settlement.Accept.{hold_in_pending, record_and_hold, accept_body, accept}

held : (s p : ℤ) → pos 0 +ℤ (minus (pos 0) +ℤ pos 0) +ℤ (minus s +ℤ p) ≡ p -ℤ s
held s p = omega int_laws

module _ (a : Ident) (s : Service) where
  -- Holding an amount takes it from suspense and gives it to the pending account.
  Shifts-held :
      (t p : Ident) (x : ℤ)
      → Shifts
          (balance_gauge a)
          (at_id a p x -ℤ at_id a s.suspense_account x)
          (hold_in_pending s t p x)
  unfolding hold_in_pending
  Shifts-held t p x =
      let g = balance_gauge a in
      Shifts-cast g _ (held (at_id a s.suspense_account x) (at_id a p x)) (
        Shifts-bind g (Shifts-post_ledger g _ _)
          (λ _. Shifts-bind g (Shifts-force_debit g _ _) (λ _. Shifts-credit g _ _)))

  add_neutral' : (d : ℤ) → d +ℤ pos 0 ≡ d
  add_neutral' d = omega int_laws

  Shifts-recorded :
      (batch u : Ident) (item : ClaimItem) (t : Time) (payment p : Ident)
      → Shifts
          (balance_gauge a)
          (at_id a p item.payment.amount -ℤ at_id a s.suspense_account item.payment.amount)
          (record_and_hold s batch u item t payment p)
  unfolding record_and_hold
  Shifts-recorded batch u item t payment p =
      let g = balance_gauge a in
      Shifts-skip g (Shifts-create_payment g _) λ _. Shifts-skip g (Shifts-new_id g _) λ anchor.
        Shifts-skip g (Shifts-new_id g _) λ row. Shifts-skip g (Shifts-record_transaction g _) λ _.
          Shifts-skip g (Shifts-record_transaction g _) λ _. Shifts-cast g _ (add_neutral' _) (
            Shifts-bind g (Shifts-held anchor p item.payment.amount)
              λ _. Shifts-skip g (Shifts-update_payment_status g _ _) λ _. Shifts-pure g _)

-- The balances after an accepted claim: the payee's pending account is up by the amount that the
-- suspense account is down by, and no other account has moved.
abbrev pub HeldFor : Ident → Ident → ℤ → List Account → List Account → Type 0
HeldFor suspense pending x before after =
    (a : Ident)
    → balance_of a after ≡ balance_of a before +ℤ (at_id a pending x -ℤ at_id a suspense x)

module _ (s : Service) (batch u : Ident) (item : ClaimItem) (t : Time) (w w' : World) where
  -- Accepting a claim succeeds only where the payee has a receiving account; that account is credited the
  -- payment's amount, which the suspense account is debited, and no other balance moves.
  pub accept-balances :
      (r : SettlementResult)
      → Runs (accept s batch u item t) w r w'
      → (p : Account) × (account_of item.payment.payee_id receiving_pending w.db ≡ some p)
        × HeldFor s.suspense_account p.id item.payment.amount w.db.accounts w'.db.accounts
  unfolding accept accept_body
  accept-balances r h =
      let b = bind-ok _ (tx-ok h) in
      let c = bind-ok _ b.1 in
      let drawn = new_id-ok _ b.0.runs in
      let found = get_account_id-ok _ _ c.0.runs in
      (
        found.0,
        sym (ap (account_of item.payment.payee_id receiving_pending) drawn.1) ∙ found.1,
        λ a.
            balances a found.0.id c.0.result c.0.after b.0.result found.2
              (ap (λ v. v.db) found.3 ∙ drawn.1) c.1,
      )
    where
      balances :
          (a p pending : Ident) (v : World) (payment : Ident)
          → pending ≡ p
          → v.db ≡ w.db
          → Runs (record_and_hold s batch u item t payment pending) v r w'
          → balance_of a w'.db.accounts
            ≡ balance_of a w.db.accounts
              +ℤ (at_id a p item.payment.amount -ℤ at_id a s.suspense_account item.payment.amount)
      balances a p pending v payment e f run =
          rw (sym e, sym f) (Shifts-ok (Shifts-recorded a s batch u item t payment pending) run)
