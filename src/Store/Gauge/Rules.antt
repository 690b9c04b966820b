-- ===== src/Store/Gauge/Rules.antt =====
-- How the steps of a do block move a gauge.
use offline_pay.Base.{ℕ, ◌≡◌, ◌∙◌, refl, subst, Bool, true, false, Option, none, some}
use offline_pay.Base.Int.{ℤ, pos, ◌+ℤ◌, int_laws}
use offline_pay.Domain.Tokens.{Ident, Time}
use offline_pay.Store.Rows.{Db}
use offline_pay.Store.Monad.{
  World, Outcome, ok, err, M, Done, Error, Signal, pure, fail, read, one, continue, ◌>>=◌, fail_if,
  looking, row_or_error, when, branch, option, modify, emit, new_id, now, resume, catch_no_rows,
  no_rows,
}
use offline_pay.Store.Gauge.{Gauge, reading, ShiftsTo, Shifts}

pub add_neutral : (a : ℤ) → a ≡ a +ℤ pos 0
add_neutral a = omega int_laws

chain_shift : (x y z d e : ℤ) → y ≡ x +ℤ d → z ≡ y +ℤ e → z ≡ x +ℤ (d +ℤ e)
chain_shift x y z d e p q = rw (q, p) (omega int_laws)

-- A call that leaves the world alone where it fails.
abbrev pub Undone : {A : Type 0} → M A → Type 0
Undone m = (w v : World) (e : Error) → m w ≡ err e v → v ≡ w

module _ (g : Gauge) where
  -- The rest of a block, from the world that its first step left.
  ShiftsTo-after :
      {B : Type 0} (d e : ℤ) (w w' : World) (r : Outcome B)
      → reading g w'.db ≡ reading g w.db +ℤ d
      → ShiftsTo g e w' r
      → ShiftsTo g (d +ℤ e) w r
  ShiftsTo-after d e w w' (ok b w'') p q = chain_shift _ _ _ d e p q
  ShiftsTo-after d e w w' (err _ _) p q = tt

  ShiftsTo-continue :
      {A B : Type 0} (d e : ℤ) (w : World) (r : Outcome A) (f : A → M B)
      → ShiftsTo g d w r
      → ((a : A) → Shifts g e (f a))
      → ShiftsTo g (d +ℤ e) w (continue f r)
  ShiftsTo-continue d e w (ok a w') f h k = ShiftsTo-after d e w w' (f a w') h ((k a).shift w')
  ShiftsTo-continue d e w (err _ _) f h k = tt

  pub Shifts-bind :
      {A B : Type 0} {d e : ℤ} {m : M A} {f : A → M B}
      → Shifts g d m
      → ((a : A) → Shifts g e (f a))
      → Shifts g (d +ℤ e) (m >>= f)
  unfolding ◌>>=◌
  Shifts-bind {d = d} {e = e} {m = m} {f = f} h k = record {
    shift = λ w. ShiftsTo-continue d e w (m w) f (h.shift w) k;
  }

  ShiftsTo-cast :
      {A : Type 0} (d e : ℤ) (w : World) (r : Outcome A)
      → d ≡ e
      → ShiftsTo g d w r
      → ShiftsTo g e w r
  ShiftsTo-cast d e w r p h = rw p at h

  pub Shifts-cast : {A : Type 0} {d : ℤ} (e : ℤ) {m : M A} → d ≡ e → Shifts g d m → Shifts g e m
  Shifts-cast {d = d} e {m = m} p h = record {
    shift = λ w. ShiftsTo-cast d e w (m w) p (h.shift w);
  }

  -- A step that moves nothing, before the rest of a block.
  pub Shifts-skip :
      {A B : Type 0} {e : ℤ} {m : M A} {f : A → M B}
      → Shifts g (pos 0) m
      → ((a : A) → Shifts g e (f a))
      → Shifts g e (m >>= f)
  Shifts-skip {e = e} h k = Shifts-cast e (omega int_laws) (Shifts-bind h k)

  pub Shifts-pure : {A : Type 0} (a : A) → Shifts g (pos 0) (pure a)
  unfolding pure
  Shifts-pure a = record { shift = λ w. add_neutral _ }

  pub Shifts-fail : {A : Type 0} (d : ℤ) (e : Error) → Shifts g d (fail {A = A} e)
  unfolding fail
  Shifts-fail d e = record { shift = λ w. tt }

  pub Shifts-read : {A : Type 0} (f : Db → A) → Shifts g (pos 0) (read f)
  unfolding read
  Shifts-read f = record { shift = λ w. add_neutral _ }

  ShiftsTo-one : {A : Type 0} (w : World) (o : Option A) → ShiftsTo g (pos 0) w (row_or_error o w)
  ShiftsTo-one w none = tt
  ShiftsTo-one w (some a) = add_neutral _

  pub Shifts-one : {A : Type 0} (f : Db → Option A) → Shifts g (pos 0) (one f)
  unfolding one
  Shifts-one f = record { shift = λ w. ShiftsTo-one w (f w.db) }

  pub Shifts-fail_if : (b : Bool) (e : Error) → Shifts g (pos 0) (fail_if b e)
  unfolding fail_if
  Shifts-fail_if true e = record { shift = λ w. tt }
  Shifts-fail_if false e = record { shift = λ w. add_neutral _ }

  pub Shifts-when : (b : Bool) (m : M Done) → Shifts g (pos 0) m → Shifts g (pos 0) (when b m)
  unfolding when pure
  Shifts-when true m h = h
  Shifts-when false m h = Shifts-pure tt

  pub Shifts-when-true : {d : ℤ} {m : M Done} → Shifts g d m → Shifts g d (when true m)
  unfolding when
  Shifts-when-true h = h

  pub Shifts-when-false : (m : M Done) → Shifts g (pos 0) (when false m)
  unfolding when
  Shifts-when-false m = Shifts-pure tt

  pub Shifts-branch :
      {A : Type 0} {d : ℤ} (b : Bool) {m k : M A}
      → Shifts g d m
      → Shifts g d k
      → Shifts g d (branch b m k)
  unfolding branch
  Shifts-branch true h k = h
  Shifts-branch false h k = k

  pub Shifts-option :
      {A B : Type 0} {d : ℤ} (o : Option A) {m : M B} {f : A → M B}
      → Shifts g d m
      → ((a : A) → Shifts g d (f a))
      → Shifts g d (option o m f)
  unfolding option
  Shifts-option none h k = h
  Shifts-option (some a) h k = k a

  pub Shifts-emit : (s : Signal) → Shifts g (pos 0) (emit s)
  unfolding emit
  Shifts-emit s = record { shift = λ w. add_neutral _ }

  pub Shifts-new_id : (supply : ℕ → Ident) → Shifts g (pos 0) (new_id supply)
  unfolding new_id
  Shifts-new_id supply = record { shift = λ w. add_neutral _ }

  pub Shifts-now : (clock : ℕ → Time) → Shifts g (pos 0) (now clock)
  unfolding now
  Shifts-now clock = record { shift = λ w. add_neutral _ }

  -- A write to a table that the gauge does not read.
  pub Shifts-modify :
      (f : Db → Db) → ((db : Db) → reading g (f db) ≡ reading g db) → Shifts g (pos 0) (modify f)
  unfolding modify
  Shifts-modify f h = record { shift = λ w. h w.db ∙ add_neutral _ }

  -- A write whose preconditions are read off the database first.
  pub Shifts-looking :
      {A : Type 0} {d : ℤ} {f : Db → M A} → ((db : Db) → Shifts g d (f db)) → Shifts g d (looking f)
  unfolding looking
  Shifts-looking h = record { shift = λ w. (h w.db).shift w }

  -- A call with a handler for a missing row: the handler starts where the call did.
  ShiftsTo-resume :
      {A B : Type 0} (d e : ℤ) (m : M A) (handler : M B) (f : A → M B) (w : World) (r : Outcome A)
      → m w ≡ r
      → Undone m
      → ShiftsTo g d w r
      → ((a : A) → Shifts g e (f a))
      → Shifts g (d +ℤ e) handler
      → ShiftsTo g (d +ℤ e) w (resume handler f r)
  ShiftsTo-resume d e m handler f w (ok a w') q u p k h =
      ShiftsTo-after d e w w' (f a w') p ((k a).shift w')
  ShiftsTo-resume d e m handler f w (err no_rows v) q u p k h =
      subst (λ x. ShiftsTo g (d +ℤ e) x (handler v)) (u w v no_rows q) (h.shift v)
  ShiftsTo-resume d e m handler f w (err x v) q u p k h = tt

  pub Shifts-catch :
      {A B : Type 0} {d e : ℤ} {m : M A} {handler : M B} {f : A → M B}
      → Undone m
      → Shifts g d m
      → ((a : A) → Shifts g e (f a))
      → Shifts g (d +ℤ e) handler
      → Shifts g (d +ℤ e) (catch_no_rows m handler f)
  unfolding catch_no_rows
  Shifts-catch {d = d} {e = e} {m = m} {handler = handler} {f = f} u p k h = record {
    shift = λ w. ShiftsTo-resume d e m handler f w (m w) refl u (p.shift w) k h;
  }
