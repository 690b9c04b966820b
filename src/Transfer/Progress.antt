-- ===== src/Transfer/Progress.antt =====
-- A transfer event whose accounts are ready settles (transfer/processor.go): none of its statements
-- fails.
use offline_pay.Base.{◌≡◌, suc, refl, ◌∙◌, inl, inr, true, false, Bool-cases, some, ◌==◌, find}
use offline_pay.Base.Int.{pos, ◌+ℤ◌, ◌-ℤ◌, leb_ℤ, fits_int64}
use offline_pay.Domain.Tokens.{Ident, Time}
use offline_pay.Store.Rows.{
  Db, Account, main, account_not_provisioned, TransferPayload, TransferStatus,
}
use offline_pay.Store.Monad.{
  World, M, ok, pure, read, modify, looking, option, now, catch_no_rows, ◌>>=◌,
}
use offline_pay.Store.Accounts.{account_of, debit_account, credit_account}
use offline_pay.Store.Transfers.{lock_main_account}
use offline_pay.Store.Runs.Forward.{>>=-eq}
use offline_pay.Transfer.Types.{Service}
use offline_pay.Transfer.Process.{
  finalize_failed, settle, move_funds, lock_second, apply_transfer, swapped, first_user,
  second_user,
}
use offline_pay.Store.Runs.Passes.{Passes, Passes-finalize, Passes-mark_event, Passes-mark_settled}
use offline_pay.Store.Accounts.Update.{adjust-Written}

-- The accounts of a transfer that can settle: two main accounts, found by their ids too, the sender's
-- with the amount in it, the receiver's with room for it.
pub record Ready (tp : TransferPayload) (a b : Account) (db : Db) : Type 0 where
  pub sender : account_of tp.sender_user_id main db ≡ some a
  pub receiver : account_of tp.receiver_user_id main db ≡ some b
  pub sender_row : find (λ x. x.id == a.id) db.accounts ≡ some a
  pub receiver_row : find (λ x. x.id == b.id) db.accounts ≡ some b
  pub distinct : (b.id == a.id) ≡ false
  pub covered : leb_ℤ tp.amount a.balance ≡ true
  pub left : leb_ℤ (pos 0) (a.balance -ℤ tp.amount) ≡ true
  pub left_fits : fits_int64 (a.balance -ℤ tp.amount) ≡ true
  pub credited : leb_ℤ (pos 0) (b.balance +ℤ tp.amount) ≡ true
  pub credited_fits : fits_int64 (b.balance +ℤ tp.amount) ≡ true

-- A step that ends with the transfer settled.
abbrev Settles : M TransferStatus → World → Type 0
Settles m w = (w' : World) × (m w ≡ ok TransferStatus.settled w')

module _ {A : Type 0} where
  then-Settles :
      (m : M A) (f : A → M TransferStatus) (w v : World) (a : A)
      → m w ≡ ok a v
      → Settles (f a) v
      → Settles (m >>= f) w
  then-Settles m f w v a e rest = (rest.0, >>=-eq m f w v a e ∙ rest.1)

  passed-Settles :
      (m : M A) (f : A → M TransferStatus) (w : World)
      → Passes m
      → ((a : A) (v : World) → Settles (f a) v)
      → Settles (m >>= f) w
  passed-Settles m f w p rest =
      let h = p.passes w in then-Settles m f w h.after h.result h.runs.run (rest h.result h.after)

module _ (s : Service) (id : Ident) (tp : TransferPayload) (a b : Account) where
  settle-Settles :
      (t : Time) (w v : World)
      → credit_account b.id tp.amount w ≡ ok tt v
      → Settles (settle t id tp b.id) w
  unfolding settle pure
  settle-Settles t w v e = then-Settles _ _ w v tt e (
      passed-Settles _ _ v (Passes-mark_settled _ _) λ _ v1.
        passed-Settles _ _ v1 (Passes-finalize _ _ _ _)
          λ _ v2. passed-Settles _ _ v2 (Passes-mark_event _ _) λ _ v3. (v3, refl))

  move_funds-Settles :
      (t : Time) (w : World) → Ready tp a b w.db → Settles (move_funds t id tp a.id b.id) w
  unfolding move_funds catch_no_rows debit_account credit_account looking modify
  move_funds-Settles t w r =
      let debited =
        adjust-Written (λ x. leb_ℤ tp.amount x) (λ x. x -ℤ tp.amount) a.id w.db.accounts a
          r.sender_row r.covered r.left r.left_fits in
      let found = debited.2 b.id r.distinct ∙ r.receiver_row in
      let paid =
        adjust-Written (λ x. true) (λ x. x +ℤ tp.amount) b.id debited.0 b found refl r.credited
          r.credited_fits in
      let v = record w { db = record w.db { accounts = debited.0 } } in
      let credited : credit_account b.id tp.amount v
          ≡ ok tt (record v { db = record v.db { accounts = paid.0 } }) =
        rw (paid.1) refl in
      let end = settle-Settles t v _ credited in (end.0, rw (debited.1) (end.1))

  locks :
      (u : Ident) (x : Account) (w : World)
      → account_of u main w.db ≡ some x
      → lock_main_account u w ≡ ok (some x.id) w
  unfolding lock_main_account ◌>>=◌ read option pure
  locks u x w e = rw e refl

  lock_second-swapped :
      (t : Time) (w : World)
      → Ready tp a b w.db
      → swapped tp ≡ true
      → Settles (lock_second t id tp b.id) w
  unfolding lock_second option
  lock_second-swapped t w r sw =
      then-Settles _ _ w w (some a.id) (locks (second_user tp) a w (rw sw r.sender))
        (rw sw (move_funds-Settles t w r))

  lock_second-straight :
      (t : Time) (w : World)
      → Ready tp a b w.db
      → swapped tp ≡ false
      → Settles (lock_second t id tp a.id) w
  unfolding lock_second option
  lock_second-straight t w r sw =
      then-Settles _ _ w w (some b.id) (locks (second_user tp) b w (rw sw r.receiver))
        (rw sw (move_funds-Settles t w r))

  locked-Settles :
      (t : Time) (w : World)
      → Ready tp a b w.db
      → Settles
          (do
            first ← lock_main_account (first_user tp)
            option first
                (finalize_failed t id tp account_not_provisioned)
                (λ x. lock_second t id tp x))
          w
  unfolding option
  locked-Settles t w r = elim (Bool-cases (swapped tp)) [
    | inl sw ↦
        then-Settles _ _ w w (some b.id) (locks (first_user tp) b w (rw sw r.receiver))
          (lock_second-swapped t w r sw)
    | inr sw ↦
        then-Settles _ _ w w (some a.id) (locks (first_user tp) a w (rw sw r.sender))
          (lock_second-straight t w r sw)
  ]

  pub apply_transfer-Settles : (w : World) → Ready tp a b w.db → Settles (apply_transfer s id tp) w
  unfolding apply_transfer now
  apply_transfer-Settles w r =
      then-Settles _ _ w (record w { clock_reads = suc w.clock_reads }) (s.clock w.clock_reads) refl
        (locked-Settles (s.clock w.clock_reads) (record w { clock_reads = suc w.clock_reads }) r)
