-- ===== src/Store/Keeps.antt =====
-- Calls that leave what a view reads off the database as it was, however they end, errors included:
-- what happens around the transactions, and the frame of a write.
pub mod Writes
pub mod Transfers
pub mod Ids
use offline_pay.Base.{
  ℕ, ◌≡◌, refl, ap, ◌∙◌, Bool, true, false, Option, none, some, inl, inr, Bool-cases,
}
use offline_pay.Domain.Tokens.{Ident, Time}
use offline_pay.Store.Rows.{Db}
use offline_pay.Store.Monad.{
  World, Outcome, ok, err, M, Done, Error, Signal, pure, fail, read, one, row_or_error, continue,
  ◌>>=◌, ◌>>◌, fail_if, looking, when, branch, option, modify, emit, new_id, now, world_of, end_tx,
  tx, commits, Tried, tried, attempt,
}
use offline_pay.Store.Ceilings.{
  get_ceiling_token, get_bank_signing_key, list_releasable_expired_ceilings,
}

pub record Keeps {X : Type 0} (v : Db → X) {A : Type 0} (m : M A) : Type 0 where
  pub kept : (w : World) → v (world_of (m w)).db ≡ v w.db

module _ {X : Type 0} (v : Db → X) where
  continue-kept :
      {A B : Type 0} (w : World) (r : Outcome A) (f : A → M B)
      → v (world_of r).db ≡ v w.db
      → ((a : A) → Keeps v (f a))
      → v (world_of (continue f r)).db ≡ v w.db
  continue-kept w (ok a w') f h k = (k a).kept w' ∙ h
  continue-kept w (err e w') f h k = h

  pub Keeps-bind :
      {A B : Type 0} {m : M A} {f : A → M B}
      → Keeps v m
      → ((a : A) → Keeps v (f a))
      → Keeps v (m >>= f)
  unfolding ◌>>=◌
  Keeps-bind {m = m} {f = f} h k = record { kept = λ w. continue-kept w (m w) f (h.kept w) k }

  pub Keeps-pure : {A : Type 0} (a : A) → Keeps v (pure a)
  unfolding pure
  Keeps-pure a = record { kept = λ w. refl }

  pub Keeps-fail : {A : Type 0} (e : Error) → Keeps v (fail {A = A} e)
  unfolding fail
  Keeps-fail e = record { kept = λ w. refl }

  pub Keeps-read : {A : Type 0} (f : Db → A) → Keeps v (read f)
  unfolding read
  Keeps-read f = record { kept = λ w. refl }

  row-kept : {A : Type 0} (w : World) (o : Option A) → v (world_of (row_or_error o w)).db ≡ v w.db
  row-kept w none = refl
  row-kept w (some a) = refl

  pub Keeps-one : {A : Type 0} (f : Db → Option A) → Keeps v (one f)
  unfolding one
  Keeps-one f = record { kept = λ w. row-kept w (f w.db) }

  pub Keeps-fail_if : (b : Bool) (e : Error) → Keeps v (fail_if b e)
  unfolding fail_if
  Keeps-fail_if true e = record { kept = λ w. refl }
  Keeps-fail_if false e = record { kept = λ w. refl }

  pub Keeps-when : (b : Bool) {m : M Done} → Keeps v m → Keeps v (when b m)
  unfolding when
  Keeps-when true h = h
  Keeps-when false h = Keeps-pure tt

  pub Keeps-branch :
      {A : Type 0} (b : Bool) {m k : M A} → Keeps v m → Keeps v k → Keeps v (branch b m k)
  unfolding branch
  Keeps-branch true h k = h
  Keeps-branch false h k = k

  pub Keeps-option :
      {A B : Type 0} (o : Option A) {m : M B} {f : A → M B}
      → Keeps v m
      → ((a : A) → Keeps v (f a))
      → Keeps v (option o m f)
  unfolding option
  Keeps-option none h k = h
  Keeps-option (some a) h k = k a

  pub Keeps-looking :
      {A : Type 0} {f : Db → M A} → ((db : Db) → Keeps v (f db)) → Keeps v (looking f)
  unfolding looking
  Keeps-looking h = record { kept = λ w. (h w.db).kept w }

  pub Keeps-modify : (f : Db → Db) → ((db : Db) → v (f db) ≡ v db) → Keeps v (modify f)
  unfolding modify
  Keeps-modify f h = record { kept = λ w. h w.db }

  pub Keeps-emit : (s : Signal) → Keeps v (emit s)
  unfolding emit
  Keeps-emit s = record { kept = λ w. refl }

  pub Keeps-new_id : (supply : ℕ → Ident) → Keeps v (new_id supply)
  unfolding new_id
  Keeps-new_id supply = record { kept = λ w. refl }

  pub Keeps-now : (clock : ℕ → Time) → Keeps v (now clock)
  unfolding now
  Keeps-now clock = record { kept = λ w. refl }

  pub Keeps-bank_key : (k : Ident) → Keeps v (get_bank_signing_key k)
  unfolding get_bank_signing_key
  Keeps-bank_key k = Keeps-one _

  pub Keeps-get_ceiling : (k : Ident) → Keeps v (get_ceiling_token k)
  unfolding get_ceiling_token
  Keeps-get_ceiling k = Keeps-one _

  pub Keeps-list_releasable : (t : Time) → Keeps v (list_releasable_expired_ceilings t)
  unfolding list_releasable_expired_ceilings
  Keeps-list_releasable t = Keeps-read _
