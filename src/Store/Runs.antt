-- ===== src/Store/Runs.antt =====
-- Reading a successful run backwards: what each step of a do block did, from the equation that the
-- block ended with `ok`.
pub mod Calls
pub mod Transfers
pub mod Forward
pub mod Passes
use offline_pay.Base.{
  ℕ, ◌≡◌, refl, sym, ap, ◌∙◌, ◌⊎◌, inl, inr, Bool, true, false, Option, none, some, arith,
  Bool-cases,
}
use offline_pay.Base.Int.{ℤ, ◌+ℤ◌}
use offline_pay.Domain.Tokens.{Ident, Time}
use offline_pay.Store.Rows.{Db}
use offline_pay.Store.Monad.{
  World, Outcome, ok, err, M, Done, Error, Signal, pure, fail, read, one, row_or_error, continue,
  ◌>>=◌, ◌>>◌, fail_if, looking, branch, option, modify, emit, new_id, now, world_of, end_tx, tx,
  resume, catch_no_rows, no_rows, commits,
}
use offline_pay.Store.Keeps.{Keeps}
use offline_pay.Store.Gauge.{Gauge, reading, ShiftsTo, Shifts}

-- `m` succeeds in `w`, with a result and a world after it.
pub record Runs {A : Type 0} (m : M A) (w : World) (a : A) (w' : World) : Type 0 where
  pub run : m w ≡ ok a w'

-- How a step ended, with success.
pub record Ran {A : Type 0} (m : M A) (w : World) : Type 0 where
  pub result : A
  pub after : World
  pub runs : Runs m w result after

module _ {A : Type 0} where
  abbrev value_or : A → Outcome A → A
  value_or a (ok b _) = b
  value_or a (err _ _) = a

  pub ok_value : {a b : A} {w w' : World} → ok a w ≡ ok b w' → a ≡ b
  ok_value {a = a} h = ap (value_or a) h

  pub ok_world : {a b : A} {w w' : World} → ok a w ≡ ok b w' → w ≡ w'
  ok_world h = ap world_of h

  pub err_ok : {e : Error} {b : A} {w w' : World} {P : Type 0} → err e w ≡ ok b w' → P
  err_ok h = grind arith

continue-ok :
    {A B : Type 0} (m : M A) (f : A → M B) (w : World) (b : B) (w' : World) (r : Outcome A)
    → m w ≡ r
    → continue f r ≡ ok b w'
    → (h : Ran m w) × Runs (f h.result) h.after b w'
continue-ok m f w b w' (ok a v) e h =
    (record { result = a; after = v; runs = record { run = e } }, record { run = h })
continue-ok m f w b w' (err x v) e h = err_ok h

row-ok :
    {A : Type 0} (w w' : World) (o : Option A) (a : A)
    → row_or_error o w ≡ ok a w'
    → (o ≡ some a) × (w' ≡ w)
row-ok w w' none a h = err_ok h
row-ok w w' (some b) a h = (ap some (ok_value h), sym (ok_world h))

ended-ok :
    {A : Type 0} (w w' : World) (r : Outcome A) (a : A) → end_tx w.db r ≡ ok a w' → r ≡ ok a w'
unfolding end_tx
ended-ok w w' (ok b v) a h = elim (Bool-cases (commits w.db v.db)) [
  | inl yes' ↦ rw yes' at h
  | inr no' ↦ err_ok (rw no' at h)
]
ended-ok w w' (err e v) a h = err_ok h

module _ {A : Type 0} {w w' : World} where
  -- A block that succeeds has a first step that does, and a rest that does from there.
  pub bind-ok :
      {B : Type 0} {m : M A} (f : A → M B) {b : B}
      → Runs (m >>= f) w b w'
      → (h : Ran m w) × Runs (f h.result) h.after b w'
  unfolding ◌>>=◌
  bind-ok {m = m} f h = continue-ok m f w _ w' (m w) refl h.run

  pub pure-ok : {a b : A} → Runs (pure a) w b w' → (b ≡ a) × (w' ≡ w)
  unfolding pure
  pure-ok h = (sym (ok_value h.run), sym (ok_world h.run))

  pub fail-ok : {P : Type 0} (e : Error) {a : A} → Runs (fail e) w a w' → P
  unfolding fail
  fail-ok e h = err_ok h.run

  pub read-ok : (f : Db → A) {a : A} → Runs (read f) w a w' → (a ≡ f w.db) × (w' ≡ w)
  unfolding read
  read-ok f h = (sym (ok_value h.run), sym (ok_world h.run))

  pub one-ok : (f : Db → Option A) {a : A} → Runs (one f) w a w' → (f w.db ≡ some a) × (w' ≡ w)
  unfolding one
  one-ok f h = row-ok w w' (f w.db) _ h.run

  pub looking-ok : (f : Db → M A) {a : A} → Runs (looking f) w a w' → Runs (f w.db) w a w'
  unfolding looking
  looking-ok f h = record { run = h.run }

  -- A transaction that commits is its body.
  pub tx-ok : {m : M A} {a : A} → Runs (tx m) w a w' → Runs m w a w'
  unfolding tx
  tx-ok {m = m} h = record { run = ended-ok w w' (m w) _ h.run }

  -- What a rule says of a run that succeeded.
  pub Keeps-ok :
      {X : Type 0} {v : Db → X} {m : M A} {a : A} → Keeps v m → Runs m w a w' → v w'.db ≡ v w.db
  Keeps-ok {v = v} h r = sym (ap (λ o. v (world_of o).db) r.run) ∙ h.kept _

ShiftsTo-ok :
    {A : Type 0} (d : ℤ) (g : Gauge) (w w' : World) (a : A) (r : Outcome A)
    → r ≡ ok a w'
    → ShiftsTo g d w r
    → reading g w'.db ≡ reading g w.db +ℤ d
ShiftsTo-ok d g w w' a r e h = rw e at h

pub Shifts-ok :
    {A : Type 0} {d : ℤ} {g : Gauge} {m : M A} {w w' : World} {a : A}
    → Shifts g d m
    → Runs m w a w'
    → reading g w'.db ≡ reading g w.db +ℤ d
Shifts-ok {d = d} {g = g} {m = m} {w = w} h r = ShiftsTo-ok d g w _ _ (m w) r.run (h.shift w)

module _ {w w' : World} where
  pub fail_if-ok :
      {b : Bool} (e : Error) {u : Done} → Runs (fail_if b e) w u w' → (b ≡ false) × (w' ≡ w)
  unfolding fail_if
  fail_if-ok {b = true} e h = err_ok h.run
  fail_if-ok {b = false} e h = (refl, sym (ok_world h.run))

  pub modify-ok : (f : Db → Db) {u : Done} → Runs (modify f) w u w' → w'.db ≡ f w.db
  unfolding modify
  modify-ok f h = sym (ap (λ v. v.db) (ok_world h.run))

  pub new_id-ok :
      (supply : ℕ → Ident) {id : Ident}
      → Runs (new_id supply) w id w'
      → (id ≡ supply w.ids_drawn) × (w'.db ≡ w.db)
  unfolding new_id
  new_id-ok supply h = (sym (ok_value h.run), sym (ap (λ v. v.db) (ok_world h.run)))

  pub now-ok :
      (clock : ℕ → Time) {t : Time}
      → Runs (now clock) w t w'
      → (t ≡ clock w.clock_reads) × (w'.db ≡ w.db)
  unfolding now
  now-ok clock h = (sym (ok_value h.run), sym (ap (λ v. v.db) (ok_world h.run)))

module _ {A : Type 0} {w w' : World} {a : A} where
  pub branch-ok :
      {b : Bool} {m k : M A}
      → Runs (branch b m k) w a w'
      → ((b ≡ true) × Runs m w a w') ⊎ ((b ≡ false) × Runs k w a w')
  unfolding branch
  branch-ok {b = true} h = inl (refl, h)
  branch-ok {b = false} h = inr (refl, h)

  pub option-ok :
      {B : Type 0} {o : Option B} {m : M A} {f : B → M A}
      → Runs (option o m f) w a w'
      → ((o ≡ none) × Runs m w a w') ⊎ ((b : B) × (o ≡ some b) × Runs (f b) w a w')
  unfolding option
  option-ok {o = none} h = inl (refl, h)
  option-ok {o = some b} h = inr (b, refl, h)

module _ {A B : Type 0} where
  resumed-ok :
      (m : M A) (handler : M B) (f : A → M B) (w : World) (b : B) (w' : World) (r : Outcome A)
      → m w ≡ r
      → resume handler f r ≡ ok b w'
      → ((h : Ran m w) × Runs (f h.result) h.after b w')
        ⊎ ((v : World) × (m w ≡ err no_rows v) × Runs handler v b w')
  resumed-ok m handler f w b w' (ok a v) e h =
      inl (record { result = a; after = v; runs = record { run = e } }, record { run = h })
  resumed-ok m handler f w b w' (err no_rows v) e h = inr (v, e, record { run = h })
  resumed-ok m handler f w b w' (err x v) e h = err_ok h

  -- A block with a handler went on after the call, or the handler ran after a missing row.
  pub catch-ok :
      {m : M A} {handler : M B} (f : A → M B) {w w' : World} {b : B}
      → Runs (catch_no_rows m handler f) w b w'
      → ((h : Ran m w) × Runs (f h.result) h.after b w')
        ⊎ ((v : World) × (m w ≡ err no_rows v) × Runs handler v b w')
  unfolding catch_no_rows
  catch-ok {m = m} {handler = handler} f {w = w} h = resumed-ok m handler f w _ _ (m w) refl h.run
