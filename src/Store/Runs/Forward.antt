-- ===== src/Store/Runs/Forward.antt =====
-- Running a do block forwards, over steps that are known to succeed.
use offline_pay.Base.{◌-◌, List, [], length, take, arith, ◌≡◌, refl, ap, ◌∙◌, Bool, true, false}
use offline_pay.Store.Rows.{Db, LedgerEntry}
use offline_pay.Store.Monad.{
  World, Error, M, ok, continue, ◌>>=◌, tx, end_tx, commits, ledger_balanced, fail_if,
}

-- A step that is known to succeed, in front of a block.
pub >>=-eq :
    {A B : Type 0} (m : M A) (f : A → M B) (w v : World) (a : A)
    → m w ≡ ok a v
    → (m >>= f) w ≡ f a v
unfolding ◌>>=◌
>>=-eq m f w v a e = ap (continue f) e

pub fail_if-eq : (b : Bool) (e : Error) (w : World) → b ≡ false → fail_if b e w ≡ ok tt w
unfolding fail_if
fail_if-eq b e w h = rw h refl

none_added : (es : List LedgerEntry) → take (length es - length es) es ≡ []
none_added es = let n : length es - length es ≡ 0 = omega arith in rw n refl

-- A transaction that posts nothing commits.
unposted-commits : (before after : Db) → after.ledger ≡ before.ledger → commits before after ≡ true
unfolding commits ledger_balanced
unposted-commits before after same = rw (same, none_added before.ledger) refl

pub tx-eq :
    {A : Type 0} (m : M A) (w v : World) (a : A)
    → m w ≡ ok a v
    → v.db.ledger ≡ w.db.ledger
    → tx m w ≡ ok a v
unfolding tx end_tx
tx-eq m w v a e same = ap (end_tx w.db) e ∙ rw (unposted-commits w.db v.db same) refl
