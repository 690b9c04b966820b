-- ===== src/Store/Runs/Passes.antt =====
-- Steps that cannot fail, among them those of a transfer event (transferrepo/repo.go).
use offline_pay.Base.{refl, ◌∙◌, Option, none, some, List, [], ◌∷◌}
use offline_pay.Base.Int.{ℤ}
use offline_pay.Domain.Tokens.{Ident, Time}
use offline_pay.Domain.Status.{LifecycleStatus}
use offline_pay.Store.Rows.{Db, TransactionRow, Reason, EventStatus}
use offline_pay.Store.Monad.{World, M, pure, read, modify, option, ◌>>=◌}
use offline_pay.Store.Transactions.{
  finalize_paired_transactions, finalize_rows, update_transaction_status,
}
use offline_pay.Store.Transfers.{
  mark_transfer_settled, finalize_transactions_for_transfer, mark_event_processed,
}
use offline_pay.Store.Runs.{Ran}
use offline_pay.Store.Runs.Forward.{>>=-eq}

-- A step that succeeds in every world.
pub record Passes {A : Type 0} (m : M A) : Type 0 where
  pub passes : (w : World) → Ran m w

module _ {A B : Type 0} where
  pub then-Ran :
      {m : M A} (f : A → M B) {w : World} (h : Ran m w) → Ran (f h.result) h.after → Ran (m >>= f) w
  then-Ran f h k = record {
    result = k.result;
    after = k.after;
    runs = record { run = >>=-eq _ _ _ _ _ h.runs.run ∙ k.runs.run };
  }

  pub Passes-bind : {m : M A} {f : A → M B} → Passes m → ((a : A) → Passes (f a)) → Passes (m >>= f)
  Passes-bind p q = record {
    passes = λ w. let h = p.passes w in then-Ran _ h ((q h.result).passes h.after);
  }

  pub Passes-option :
      (o : Option A) {m : M B} {f : A → M B}
      → Passes m
      → ((a : A) → Passes (f a))
      → Passes (option o m f)
  unfolding option
  Passes-option none p q = p
  Passes-option (some a) p q = q a

module _ {A : Type 0} where
  pub Passes-pure : (a : A) → Passes (pure a)
  unfolding pure
  Passes-pure a = record {
    passes = λ w. record { result = a; after = w; runs = record { run = refl } };
  }

  pub Passes-read : (f : Db → A) → Passes (read f)
  unfolding read
  Passes-read f = record {
    passes = λ w. record { result = f w.db; after = w; runs = record { run = refl } };
  }

pub Passes-modify : (f : Db → Db) → Passes (modify f)
unfolding modify
Passes-modify f = record {
  passes =
      λ w. record { result = tt; after = record w { db = f w.db }; runs = record { run = refl } };
}

pub Passes-rows :
    (st : LifecycleStatus) (x : Option ℤ) (r : Option Reason) (rows : List TransactionRow)
    → Passes (finalize_rows st x r rows)
unfolding finalize_rows update_transaction_status
Passes-rows st x r [] = Passes-pure tt
Passes-rows st x r (row ∷ rows) = Passes-bind (Passes-modify _) λ _. Passes-rows st x r rows

pub Passes-finalize :
    (id : Ident) (st : LifecycleStatus) (x : Option ℤ) (r : Option Reason)
    → Passes (finalize_transactions_for_transfer id st x r)
unfolding finalize_transactions_for_transfer finalize_paired_transactions
Passes-finalize id st x r = Passes-bind (Passes-read _) λ anchor.
    Passes-option anchor (Passes-pure tt)
      λ t. Passes-bind (Passes-read _) λ rows. Passes-rows st x r rows

pub Passes-mark_event : (id : Ident) (st : EventStatus) → Passes (mark_event_processed id st)
unfolding mark_event_processed
Passes-mark_event id st = Passes-modify _

pub Passes-mark_settled : (t : Time) (id : Ident) → Passes (mark_transfer_settled t id)
unfolding mark_transfer_settled
Passes-mark_settled t id = Passes-modify _
