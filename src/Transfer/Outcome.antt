-- ===== src/Transfer/Outcome.antt =====
-- What the transaction of a transfer event comes to (transfer/processor.go), where it commits: a
-- complete list of the ways.
use mathlib.Core.Option.{some-injective, some-ne-none}
use offline_pay.Base.{
  ◌≡◌, refl, sym, ◌∙◌, ◌⊎◌, inl, inr, true, Option, none, some, ◌==◌, find, is_some, subst,
  if◌then◌else◌, Bool-cases,
}
use offline_pay.Domain.Tokens.{Ident, Time}
use offline_pay.Store.Rows.{
  Db, Account, main, TransferPayload, TransferStatus, account_not_provisioned, insufficient_balance,
}
use offline_pay.Store.Monad.{World, option}
use offline_pay.Store.Accounts.{account_of}
use offline_pay.Store.Gauge.Guard.{find-present}
use offline_pay.Store.Runs.{Runs, bind-ok, pure-ok, read-ok, option-ok, now-ok}
use offline_pay.Store.Transfers.{lock_main_account}
use offline_pay.Transfer.Types.{Service}
use offline_pay.Transfer.Process.{
  finalize_failed, move_funds, lock_second, apply_transfer, swapped, first_user, second_user,
}
use offline_pay.Transfer.Applied.{
  FailedFor, SettledFrom, ShortOf, finalize_failed-ok, move_funds-ok,
}

lock-ok :
    (u : Ident) (w w' : World) (r : Option Ident)
    → Runs (lock_main_account u) w r w'
    → (w' ≡ w)
      × (((r ≡ none) × (account_of u main w.db ≡ none))
          ⊎ ((x : Account) × (r ≡ some x.id) × (account_of u main w.db ≡ some x)))
unfolding lock_main_account
lock-ok u w w' r h =
    let b = bind-ok _ h in
    let row = read-ok _ b.0.runs in
    elim (option-ok b.1) [
      | inl (e, run) ↦ let end = pure-ok run in (end.1 ∙ row.1, inl (end.0, sym row.0 ∙ e))
      | inr (x, e, run) ↦ let end = pure-ok run in (end.1 ∙ row.1, inr (x, end.0, sym row.0 ∙ e))
    ]

-- Both users have a main account, and the money moved or was not there.
unfoldable pub Decided : TransferPayload → TransferStatus → Db → Db → Type 0
Decided tp st before after =
    (a : Account) × (b : Account) × (t : Time) × (account_of tp.sender_user_id main before ≡ some a)
    × (account_of tp.receiver_user_id main before ≡ some b)
    × (((st ≡ TransferStatus.settled) × SettledFrom tp t a.id b.id before after)
        ⊎ ((st ≡ TransferStatus.failed)
            × ShortOf tp a.id before
            × FailedFor tp t insufficient_balance before after))

-- A user has no main account, and nothing moved.
unfoldable pub Unprovisioned : TransferPayload → TransferStatus → Db → Db → Type 0
Unprovisioned tp st before after =
    ((account_of tp.sender_user_id main before ≡ none)
      ⊎ (account_of tp.receiver_user_id main before ≡ none))
    × (st ≡ TransferStatus.failed)
    × ((t : Time) × FailedFor tp t account_not_provisioned before after)

present_of :
    (u : Ident) (db : Db) (a : Account)
    → account_of u main db ≡ some a
    → is_some (find (λ x. x.id == a.id) db.accounts) ≡ true
unfolding account_of
present_of u db a e = find-present _ db.accounts e

module _ (id : Ident) (tp : TransferPayload) (w w' : World) (st : TransferStatus) where
  move_funds-Decided :
      (t : Time) (a b : Account)
      → account_of tp.sender_user_id main w.db ≡ some a
      → account_of tp.receiver_user_id main w.db ≡ some b
      → Runs (move_funds t id tp a.id b.id) w st w'
      → Decided tp st w.db w'.db
  unfolding Decided
  move_funds-Decided t a b p q h =
      (a, b, t, p, q, move_funds-ok t id tp a.id b.id w w' st (present_of _ w.db a p) h)

  -- The accounts found under the two locks, in the order of the payload.
  in_order :
      (t : Time) (x y : Account)
      → account_of (first_user tp) main w.db ≡ some x
      → account_of (second_user tp) main w.db ≡ some y
      → Runs
          (move_funds t id tp
            (if swapped tp then y.id else x.id)
            (if swapped tp then x.id else y.id))
          w
          st
          w'
      → Decided tp st w.db w'.db
  in_order t x y p q h = elim (Bool-cases (swapped tp)) [
    | inl sw ↦ move_funds-Decided t y x (rw sw at q) (rw sw at p) (rw sw at h)
    | inr sw ↦ move_funds-Decided t x y (rw sw at p) (rw sw at q) (rw sw at h)
  ]

  either_missing :
      (u : Ident)
      → ((u ≡ first_user tp) ⊎ (u ≡ second_user tp))
      → account_of u main w.db ≡ none
      → (account_of tp.sender_user_id main w.db ≡ none)
        ⊎ (account_of tp.receiver_user_id main w.db ≡ none)
  either_missing u (inl e) m = elim (Bool-cases (swapped tp)) [
    | inl sw ↦ inr (rw sw at (subst (λ v. account_of v main w.db ≡ none) e m))
    | inr sw ↦ inl (rw sw at (subst (λ v. account_of v main w.db ≡ none) e m))
  ]
  either_missing u (inr e) m = elim (Bool-cases (swapped tp)) [
    | inl sw ↦ inl (rw sw at (subst (λ v. account_of v main w.db ≡ none) e m))
    | inr sw ↦ inr (rw sw at (subst (λ v. account_of v main w.db ≡ none) e m))
  ]

  missing-Unprovisioned :
      (t : Time) (u : Ident) (v : World)
      → v ≡ w
      → ((u ≡ first_user tp) ⊎ (u ≡ second_user tp))
      → account_of u main w.db ≡ none
      → Runs (finalize_failed t id tp account_not_provisioned) v st w'
      → Unprovisioned tp st w.db w'.db
  unfolding Unprovisioned
  missing-Unprovisioned t u v e side m h =
      let f =
        finalize_failed-ok t id tp account_not_provisioned w w' st
          (subst (λ x. Runs (finalize_failed t id tp account_not_provisioned) x st w') e h) in
      (either_missing u side m, f.0, (t, f.1))

  lock_second-outcome :
      (t : Time) (x : Account) (v : World)
      → v ≡ w
      → account_of (first_user tp) main w.db ≡ some x
      → Runs (lock_second t id tp x.id) v st w'
      → Decided tp st w.db w'.db ⊎ Unprovisioned tp st w.db w'.db
  unfolding lock_second
  lock_second-outcome t x v e p h =
      let b = bind-ok _ (subst (λ u. Runs (lock_second t id tp x.id) u st w') e h) in
      let locked = lock-ok _ _ _ _ b.0.runs in
      elim (option-ok b.1) [
        | inl (o, run) ↦ elim locked.1 [
          | inl (_, m) ↦
              inr (missing-Unprovisioned t (second_user tp) b.0.after locked.0 (inr refl) m run)
          | inr (y, q, _) ↦ absurd (some-ne-none _ (sym q ∙ o))
        ]
        | inr (y', o, run) ↦ elim locked.1 [
          | inl (q, _) ↦ absurd (some-ne-none _ (sym o ∙ q))
          | inr (y, q, found) ↦ inl (
              in_order t x y p found
                (moved_from x y y' b.0.after locked.0 (some-injective _ _ (sym o ∙ q)) run))
        ]
      ]
    where
      moved_from :
          (x y : Account) (y' : Ident) (v : World)
          → v ≡ w
          → y' ≡ y.id
          → Runs
              (move_funds t id tp
                (if swapped tp then y' else x.id)
                (if swapped tp then x.id else y'))
              v
              st
              w'
          → Runs
              (move_funds t id tp
                (if swapped tp then y.id else x.id)
                (if swapped tp then x.id else y.id))
              w
              st
              w'
      moved_from x y y' v e q h =
          subst
            (λ i.
              Runs
                (move_funds t id tp (if swapped tp then i else x.id)
                  (if swapped tp then x.id else i))
                w st w')
            q
            (subst
              (λ z.
                Runs
                  (move_funds t id tp (if swapped tp then y' else x.id)
                    (if swapped tp then x.id else y'))
                  z st w')
              e h)

module _ (id : Ident) (tp : TransferPayload) (w w' : World) (st : TransferStatus) where
  first_some :
      (t : Time) (x' : Ident) (v : World)
      → v ≡ w
      → ((some x' ≡ none) × (account_of (first_user tp) main w.db ≡ none))
        ⊎ ((x : Account) × (some x' ≡ some x.id) × (account_of (first_user tp) main w.db ≡ some x))
      → Runs (lock_second t id tp x') v st w'
      → Decided tp st w.db w'.db ⊎ Unprovisioned tp st w.db w'.db
  first_some t x' v e (inl (q, _)) run = absurd (some-ne-none _ q)
  first_some t x' v e (inr (x, q, found)) run =
      lock_second-outcome id tp w w' st t x v e found
        (subst (λ i. Runs (lock_second t id tp i) v st w') (some-injective _ _ q) run)

  first_none :
      (t : Time) (v : World)
      → v ≡ w
      → ((◌≡◌ {A = Option Ident} none none) × (account_of (first_user tp) main w.db ≡ none))
        ⊎ ((x : Account) × (none ≡ some x.id) × (account_of (first_user tp) main w.db ≡ some x))
      → Runs (finalize_failed t id tp account_not_provisioned) v st w'
      → Decided tp st w.db w'.db ⊎ Unprovisioned tp st w.db w'.db
  first_none t v e (inl (_, m)) run =
      inr (missing-Unprovisioned id tp w w' st t (first_user tp) v e (inl refl) m run)
  first_none t v e (inr (x, q, _)) run = absurd (some-ne-none _ (sym q))

  first_locked :
      (t : Time) (o : Option Ident) (v : World)
      → v ≡ w
      → ((o ≡ none) × (account_of (first_user tp) main w.db ≡ none))
        ⊎ ((x : Account) × (o ≡ some x.id) × (account_of (first_user tp) main w.db ≡ some x))
      → Runs
          (option o (finalize_failed t id tp account_not_provisioned) (λ a. lock_second t id tp a))
          v
          st
          w'
      → Decided tp st w.db w'.db ⊎ Unprovisioned tp st w.db w'.db
  unfolding option
  first_locked t none v e found run = first_none t v e found run
  first_locked t (some x') v e found run = first_some t x' v e found run

-- Where the transaction of a transfer event commits, the outcome is one of these. Both users have a main
-- account, the sender's held the amount, exactly the amount went from it to the receiver's, no other
-- balance moved, and the transfer is SETTLED. Or both have one, the sender's held less, no balance
-- moved, and the transfer is FAILED for it. Or one of them has none, no balance moved, and the transfer
-- is FAILED for that. No ledger entry is posted in any of them.
pub apply_transfer-outcome :
    (s : Service) (id : Ident) (tp : TransferPayload) (w w' : World) (st : TransferStatus)
    → Runs (apply_transfer s id tp) w st w'
    → Decided tp st w.db w'.db ⊎ Unprovisioned tp st w.db w'.db
unfolding apply_transfer
apply_transfer-outcome s id tp w w' st h =
    let b = bind-ok _ h in
    let c = bind-ok _ b.1 in
    let locked = lock-ok _ _ _ _ c.0.runs in
    subst (λ db. Decided tp st db w'.db ⊎ Unprovisioned tp st db w'.db) (now-ok _ b.0.runs).1
      (first_locked id tp b.0.after w' st b.0.result c.0.result c.0.after locked.0 locked.1 c.1)
