-- ===== src/Transfer/Day.antt =====
-- What "today" means in the daily limit (db/queries/transfers.sql, `SumSenderTransfersToday`). The start
-- of the day is computed in the zone of Lagos and read in that of the database session.
use offline_pay.Base.{
  ◌≡◌, refl, ap, ◌∙◌, Bool, true, false, List, [], ◌∷◌, ◌+◌, ◌%◌, ◌≤◌, ◌<◌, ◌==◌, ◌&&◌, leb, arith,
  All, if◌then◌else◌,
}
use offline_pay.Base.Int.{
  ℤ, pos, ◌+ℤ◌, ◌≤ℤ◌, ◌<ℤ◌, int_laws, wrap_int64, wrap-fits, fits_int64, eqb_ℤ, ltb_ℤ,
}
use offline_pay.Domain.Tokens.{Ident, Time}
use offline_pay.Store.Rows.{Transfer}
use offline_pay.Store.Monad.{World, ok, fail_if, read, pure, ◌>>=◌}
use offline_pay.Store.Transfers.{
  Zones, day, day_start, is_spent, sum_sent_since, sum_sender_transfers_today,
}
use offline_pay.Store.Runs.Forward.{>>=-eq, fail_if-eq}
use offline_pay.Transfer.Limits.{TierLimits, check_limits}

-- The hours after midnight in Lagos in which the session's date is still the day before.
abbrev pub InGap : Zones → Time → Type 0
InGap z now = (now + z.lagos) % day + z.session < z.lagos

gap-future : (z : Zones) (now : Time) → InGap z now → now < day_start z now
unfolding day_start
gap-future z now h = ground arith

uncounted :
    (p q : Bool) (from c : Time) (x : ℤ)
    → c < from
    → (if p && q && leb from c then x else pos 0) ≡ pos 0
uncounted true true from c x k = ground arith
uncounted true false from c x k = refl
uncounted false q from c x k = refl

sum-later :
    (from now : Time) (sender : Ident) (ts : List Transfer)
    → now < from
    → All (λ t. t.created_at ≤ now) ts
    → sum_sent_since from sender ts ≡ pos 0
unfolding sum_sent_since ◌+ℤ◌
sum-later from now sender [] h a = refl
sum-later from now sender (t ∷ ts) h a =
    rw
      (
        sum-later from now sender ts h a.1,
        uncounted (t.sender_user_id == sender) (is_spent t.status) from t.created_at t.amount
            (omega (arith, a.0)),
      )
      refl

fits_below : (x y : ℤ) → pos 0 <ℤ x → x ≤ℤ y → fits_int64 y ≡ true → fits_int64 x ≡ true
unfolding fits_int64
fits_below x y p h f = ground arith

module _ (z : Zones) (now : Time) (sender : Ident) (w : World) where
  sum_today-gap :
      InGap z now
      → All (λ t. t.created_at ≤ now) w.db.transfers
      → sum_sender_transfers_today z now sender w ≡ ok (pos 0) w
  unfolding sum_sender_transfers_today fail_if read pure ◌>>=◌
  sum_today-gap gap past =
      rw (sum-later (day_start z now) now sender w.db.transfers (gap-future z now gap) past) refl

opened : (x y : ℤ) → pos 0 <ℤ x → x ≤ℤ y → eqb_ℤ y (pos 0) ≡ false
opened x y p h = ground arith

not_less : (x y : ℤ) → x ≤ℤ y → ltb_ℤ y x ≡ false
not_less x y h = ground arith

zero_plus : (x : ℤ) → pos 0 +ℤ x ≡ x
zero_plus x = omega int_laws

-- After midnight in Lagos, for as long as the zone of Lagos is ahead of the session's, no transfer of the
-- past counts: a sender passes the checks with every positive amount up to the single maximum, whatever
-- the sender has sent already, under any limits whose single maximum is within the daily one, itself
-- within int64.
pub check_limits-gap :
    (z : Zones) (now : Time) (l : TierLimits) (sender : Ident) (x : ℤ) (w : World)
    → InGap z now
    → All (λ t. t.created_at ≤ now) w.db.transfers
    → pos 0 <ℤ x
    → x ≤ℤ l.single_max
    → l.single_max ≤ℤ l.daily_max
    → fits_int64 l.daily_max ≡ true
    → check_limits z now l sender x w ≡ ok tt w
unfolding check_limits
check_limits-gap z now l sender x w gap past positive single daily fits =
    >>=-eq _ _ w w tt (fail_if-eq _ _ w (opened x l.single_max positive single))
    ∙ >>=-eq _ _ w w tt (fail_if-eq _ _ w (not_less x l.single_max single))
    ∙ >>=-eq _ _ w w (pos 0) (sum_today-gap z now sender w gap past)
    ∙ fail_if-eq _ _ w (
        ap (ltb_ℤ l.daily_max) (ap wrap_int64 (zero_plus x) ∙ wrap-fits x bounded)
        ∙ not_less x l.daily_max within)
  where
    within : x ≤ℤ l.daily_max
    within = omega arith

    bounded : fits_int64 x ≡ true
    bounded = fits_below x l.daily_max positive within fits
