-- ===== src/Wallet/Effects.antt =====
-- What a successful call of the wallet (wallet/service.go) did: which balances moved, by how much, and
-- which ceilings changed.
use offline_pay.Base.{
  ◌≡◌, refl, sym, ap, ◌∙◌, inl, inr, ◌⊎◌, true, false, some, List, arith, subst, length, ltb,
}
use offline_pay.Base.Int.{ℤ, pos, ◌+ℤ◌, ◌-ℤ◌, eqb_ℤ, int_laws}
use offline_pay.Domain.Status.{CeilingStatus, revoked, TransactionKind, offline_drain}
use offline_pay.Domain.Tokens.{Ident, CeilingToken}
use offline_pay.Store.Rows.{Db, Account, main, lien_holding, TransactionRow}
use offline_pay.Store.Monad.{World, Done}
use offline_pay.Store.Accounts.{account_of}
use offline_pay.Store.Ceilings.{
  active_ceiling_of, set_status, update_ceiling_status, sum_settled, sum_settled_for_ceiling,
  in_flight_payments, count_in_flight_payments,
}
use offline_pay.Store.Keeps.{Keeps, Keeps-bind}
use offline_pay.Store.Keeps.Writes.{
  Keeps-record_transaction, Keeps-post_ledger, Keeps-debit, Keeps-credit,
}
use offline_pay.Store.Gauge.{Shifts}
use offline_pay.Store.Gauge.Rules.{Shifts-bind, Shifts-skip, Shifts-cast}
use offline_pay.Store.Gauge.Writes.{minus, Shifts-post_ledger, Shifts-debit, Shifts-credit}
use offline_pay.Store.Gauge.Tables.{Shifts-record_transaction}
use offline_pay.Store.Gauge.Instances.{balance_of, at_id, balance_gauge}
use offline_pay.Store.Runs.{
  Runs, bind-ok, pure-ok, read-ok, new_id-ok, modify-ok, fail_if-ok, fail-ok, option-ok, branch-ok,
  tx-ok, Keeps-ok, Shifts-ok,
}
use offline_pay.Store.Runs.Calls.{get_account_id-ok}
use offline_pay.Wallet.Types.{Service}
use offline_pay.Wallet.Fund.{move}
use offline_pay.Wallet.Release.{
  remaining_of, return_lien, release_ceiling, settled_active_ceiling, move_to_main_in_tx,
  move_to_main,
}

moved_by : (f t : ℤ) → pos 0 +ℤ (minus (pos 0) +ℤ pos 0) +ℤ (minus f +ℤ t) ≡ t -ℤ f
moved_by f t = omega int_laws

-- After a movement of `x`, the one account is down by it, the other up, and no other has moved.
abbrev pub Moved : Ident → Ident → ℤ → List Account → List Account → Type 0
Moved from to x before after =
    (a : Ident) → balance_of a after ≡ balance_of a before +ℤ (at_id a to x -ℤ at_id a from x)

abbrev pub accounts_of : Db → List Account
accounts_of db = db.accounts

-- The same movement between accounts, and from and to balances, that are equal.
pub Moved-cast :
    (f f' t t' : Ident) (x : ℤ) (b b' a a' : List Account)
    → f ≡ f'
    → t ≡ t'
    → b ≡ b'
    → a ≡ a'
    → Moved f t x b a
    → Moved f' t' x b' a'
Moved-cast f f' t t' x b b' a a' p q e k h i = rw (sym p, sym q, sym e, sym k) (h i)

Shifts-moved :
    (a : Ident) (row : TransactionRow) (from to : Ident) (x : ℤ)
    → Shifts (balance_gauge a) (at_id a to x -ℤ at_id a from x) (move row from to x)
unfolding move
Shifts-moved a row from to x =
    let g = balance_gauge a in
    Shifts-skip g (Shifts-record_transaction g row) λ _.
      Shifts-cast g _ (moved_by (at_id a from x) (at_id a to x)) (
        Shifts-bind g (Shifts-post_ledger g _ _)
          λ _. Shifts-bind g (Shifts-debit g _ _) λ _. Shifts-credit g _ _)

pub move-Moved :
    (row : TransactionRow) (from to : Ident) (x : ℤ) (w w' : World) (z : Done)
    → Runs (move row from to x) w z w'
    → Moved from to x w.db.accounts w'.db.accounts
move-Moved row from to x w w' z h a = Shifts-ok (Shifts-moved a row from to x) h

abbrev pub ceilings_of : Db → List CeilingToken
ceilings_of db = db.ceilings

pub move-Keeps :
    (row : TransactionRow) (from to : Ident) (x : ℤ) → Keeps ceilings_of (move row from to x)
unfolding move
move-Keeps row from to x =
    Keeps-bind ceilings_of (Keeps-record_transaction ceilings_of (λ _ _. refl) _) λ _.
      Keeps-bind ceilings_of (Keeps-post_ledger ceilings_of (λ _ _. refl) _ _) λ _.
        Keeps-bind ceilings_of (Keeps-debit ceilings_of (λ _ _. refl) _ _)
          λ _. Keeps-credit ceilings_of (λ _ _. refl) _ _

-- What is left of a ceiling over a database, and 0 where claims overdrew it.
abbrev pub left_of : CeilingToken → Db → ℤ
left_of c db = remaining_of c.ceiling_amount (sum_settled c.id db.payments)

-- A ceiling that was released: what was left of it went from the owner's lien to the main account, and
-- the ceiling has the status that ends it.
pub Released : Ident → CeilingToken → CeilingStatus → Db → Db → Type 0
Released u c terminal before after =
    (after.ceilings ≡ set_status c.id terminal before.ceilings)
    × (((left_of c before ≡ pos 0) × (after.accounts ≡ before.accounts))
        ⊎ ((m : Account) × (l : Account) × (account_of u main before ≡ some m)
            × (account_of u lien_holding before ≡ some l)
            × Moved l.id m.id (left_of c before) before.accounts after.accounts))

eq_zero : (a : ℤ) → eqb_ℤ a (pos 0) ≡ true → a ≡ pos 0
eq_zero a h = ground arith

sum_settled-ok :
    (c : Ident) (w w' : World) (x : ℤ)
    → Runs (sum_settled_for_ceiling c) w x w'
    → (x ≡ sum_settled c w.db.payments) × (w' ≡ w)
unfolding sum_settled_for_ceiling
sum_settled-ok c w w' x h =
    let b = bind-ok _ h in
    let total = read-ok _ b.0.runs in
    let d = bind-ok _ b.1 in
    let end = pure-ok d.1 in (end.0 ∙ total.0, end.1 ∙ (fail_if-ok _ d.0.runs).1 ∙ total.1)

module _ (s : Service) (u : Ident) (c : CeilingToken) (terminal : CeilingStatus)
    (kind : TransactionKind) where
  return_lien-ok :
      (x : ℤ) (w w' : World) (z : Done)
      → Runs (return_lien s u c terminal kind x) w z w'
      → (w'.db.ceilings ≡ set_status c.id terminal w.db.ceilings)
        × (m : Account) × (l : Account) × (account_of u main w.db ≡ some m)
        × (account_of u lien_holding w.db ≡ some l)
        × Moved l.id m.id x w.db.accounts w'.db.accounts
  unfolding return_lien update_ceiling_status
  return_lien-ok x w w' z h =
      let b = bind-ok _ h in
      let m = get_account_id-ok _ _ b.0.runs in
      let d = bind-ok _ b.1 in
      let l = get_account_id-ok _ _ d.0.runs in
      let e = bind-ok _ d.1 in
      let drawn = new_id-ok _ e.0.runs in
      let f = bind-ok _ e.1 in
      let moved = move-Moved _ _ _ _ _ _ _ f.0.runs in
      let wrote = modify-ok _ f.1 in
      let start = drawn.1 ∙ ap (λ v. v.db) (l.3 ∙ m.3) in
      (
        ap ceilings_of wrote
            ∙ ap (set_status c.id terminal)
                (Keeps-ok (move-Keeps _ _ _ _) f.0.runs ∙ ap ceilings_of start),
        m.0,
        l.0,
        m.1,
        ap (λ v. account_of u lien_holding v.db) (sym m.3) ∙ l.1,
        Moved-cast _ _ _ _ x _ _ _ _ l.2 m.2 (ap accounts_of start) (sym (ap accounts_of wrote))
            moved,
      )

  pub release_ceiling-Released :
      (w w' : World) (z : Done)
      → Runs (release_ceiling s u c terminal kind) w z w'
      → Released u c terminal w.db w'.db
  unfolding release_ceiling Released update_ceiling_status
  release_ceiling-Released w w' z h =
      let b = bind-ok _ h in
      let settled = sum_settled-ok c.id w b.0.after b.0.result b.0.runs in
      let left = ap (remaining_of c.ceiling_amount) settled.0 in
      elim (branch-ok b.1) [
        | inl (nothing, run) ↦
            let wrote = modify-ok _ run in
            let start = ap (λ v. v.db) settled.1 in
            (
              ap ceilings_of wrote ∙ ap (λ db. set_status c.id terminal db.ceilings) start,
              inl (sym left ∙ eq_zero _ nothing, ap accounts_of wrote ∙ ap accounts_of start),
            )
        | inr (_, run) ↦
            let done = return_lien-ok (left_of c w.db) w w' z (
              subst (λ v. Runs (return_lien s u c terminal kind (left_of c w.db)) v z w') settled.1
                (subst (λ x. Runs (return_lien s u c terminal kind x) b.0.after z w') left run)) in
            (done.0, inr (done.1, done.2, done.3, done.4, done.5))
      ]

-- An active ceiling with no claim in flight.
pub settled_active-ok :
    (u : Ident) (w w' : World) (c : CeilingToken)
    → Runs (settled_active_ceiling u) w c w'
    → (active_ceiling_of u w.db ≡ some c)
      × (ltb 0 (length (in_flight_payments c.id w.db)) ≡ false)
      × (w' ≡ w)
unfolding settled_active_ceiling count_in_flight_payments
settled_active-ok u w w' c h =
    let b = bind-ok _ h in
    let found = read-ok _ b.0.runs in
    let d = bind-ok _ b.1 in
    elim (option-ok d.0.runs) [
      | inl (_, run) ↦ fail-ok _ run
      | inr (e, is_there, run) ↦
          let row = pure-ok run in
          let f = bind-ok _ d.1 in
          let count = read-ok _ f.0.runs in
          let k = bind-ok _ f.1 in
          let free = fail_if-ok _ k.0.runs in
          let end = pure-ok k.1 in
          let start = row.1 ∙ found.1 in
          let same = end.0 ∙ row.0 in
          (
            sym found.0 ∙ is_there ∙ ap some (sym same),
            ap (λ x. ltb 0 (length (in_flight_payments x w.db))) (ap (λ x. x.id) end.0)
                ∙ ap (λ v. ltb 0 (length (in_flight_payments d.0.result.id v.db))) (sym start)
                ∙ ap (λ n. ltb 0 n) (sym count.0)
                ∙ free.0,
            end.1 ∙ free.1 ∙ count.1 ∙ start,
          )
    ]

-- Draining succeeds only for an active ceiling with no claim in flight, which it releases as revoked.
pub move_to_main-Released :
    (s : Service) (u : Ident) (w w' : World) (z : Done)
    → Runs (move_to_main s u) w z w'
    → (c : CeilingToken) × (active_ceiling_of u w.db ≡ some c)
      × (ltb 0 (length (in_flight_payments c.id w.db)) ≡ false)
      × Released u c revoked w.db w'.db
unfolding move_to_main move_to_main_in_tx
move_to_main-Released s u w w' z h =
    let b = bind-ok _ (tx-ok h) in
    let found = settled_active-ok u w b.0.after b.0.result b.0.runs in
    (
      b.0.result,
      found.0,
      found.1,
      subst (λ v. Released u b.0.result revoked v.db w'.db) found.2
          (release_ceiling-Released s u b.0.result revoked offline_drain b.0.after w' z b.1),
    )
