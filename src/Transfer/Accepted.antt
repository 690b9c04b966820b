-- ===== src/Transfer/Accepted.antt =====
-- What a successful `InitiateTransfer` did (transfer/service.go): it returned an earlier transfer with
-- the reference, or accepted a new one within the limits of the sender's tier.
use offline_pay.Base.{
  ◌≡◌, sym, ap, ◌∙◌, ◌⊎◌, inl, inr, Bool, false, none, some, arith, ◌==◌, subst, is_some,
}
use offline_pay.Base.Int.{ℤ, pos, ◌+ℤ◌, ◌≤ℤ◌, ◌<ℤ◌, wrap_int64, ltb_ℤ→le}
use offline_pay.Domain.Tokens.{Ident, Time, Bytes}
use offline_pay.Domain.Validate.{validate_amount}
use offline_pay.Store.Rows.{Db, KycTier, Transfer, User}
use offline_pay.Store.Monad.{World, Done}
use offline_pay.Store.Runs.{
  Runs, bind-ok, pure-ok, read-ok, one-ok, fail-ok, fail_if-ok, option-ok, now-ok, tx-ok, Keeps-ok,
}
use offline_pay.Store.Runs.Transfers.{sum_today-ok}
use offline_pay.Store.Transfers.{
  Zones, day_start, sum_sent_since, transfer_by_ref, user_by_account_number, user_by_id,
}
use offline_pay.Transfer.Types.{Service, InitiateTransferInput}
use offline_pay.Transfer.Limits.{TierLimits, limits_for_tier, check_limits}
use offline_pay.Transfer.Accept.{
  resolve_receiver_user_id, get_sender_kyc_tier, validate_input, new_transfer, accept_new,
  accept_transfer, initiate_transfer,
}
use offline_pay.Transfer.Written.{Inserted, score_fraud-Keeps, insert_transfer-Inserted}

-- The tier that the cache holds for a user, or the user's row where the cache has none.
unfoldable pub TierOf : Service → Ident → KycTier → Db → Type 0
TierOf s user tier db =
    (s.cached_tier user ≡ some tier)
    ⊎ ((s.cached_tier user ≡ none)
        × ((u : User) × (user_by_id user db ≡ some u) × (u.kyc_tier ≡ tier)))

-- The owner of an account number, from the cache or the row.
unfoldable pub OwnerOf : Service → Bytes → Ident → Db → Type 0
OwnerOf s number user db =
    (s.cached_receiver number ≡ some user)
    ⊎ ((s.cached_receiver number ≡ none)
        × ((u : User) × (user_by_account_number number db ≡ some u) × (u.id ≡ user)))

-- The amount is within both limits; the daily sum is that of int64.
pub record Within (l : TierLimits) (z : Zones) (now : Time) (sender : Ident) (x : ℤ) (db : Db)
    : Type 0 where
  pub single : x ≤ℤ l.single_max
  pub daily : wrap_int64 (sum_sent_since (day_start z now) sender db.transfers +ℤ x) ≤ℤ l.daily_max

check_limits-Within :
    (l : TierLimits) (z : Zones) (now : Time) (sender : Ident) (x : ℤ) (w w' : World) (u : Done)
    → Runs (check_limits z now l sender x) w u w'
    → Within l z now sender x w.db × (w' ≡ w)
unfolding check_limits
check_limits-Within l z now sender x w w' u h =
    let b = bind-ok _ h in
    let opened = fail_if-ok _ b.0.runs in
    let c = bind-ok _ b.1 in
    let single = fail_if-ok _ c.0.runs in
    let d = bind-ok _ c.1 in
    let spent = sum_today-ok z now sender d.0.runs in
    let daily = fail_if-ok _ d.1 in
    let start = single.1 ∙ opened.1 in
    (
      record {
        single = ltb_ℤ→le l.single_max x single.0;
        daily =
            subst (λ (y : ℤ). wrap_int64 (y +ℤ x) ≤ℤ l.daily_max)
              (spent.0 ∙ ap (λ v. sum_sent_since (day_start z now) sender v.db.transfers) start)
              (ltb_ℤ→le l.daily_max (wrap_int64 (d.0.result +ℤ x)) daily.0);
      },
      daily.1 ∙ spent.1 ∙ start,
    )

-- A transfer that was accepted for the input: fresh, to another user, positive and within limits.
pub record Accepted (s : Service) (i : InitiateTransferInput) (t : Transfer) (before after : Db)
    : Type 0 where
  pub positive : pos 0 <ℤ i.amount
  pub fresh : transfer_by_ref i.sender_user_id i.reference before ≡ none
  pub made :
      (id : Ident) × (now : Time) × (receiver : Ident) × (flag : Bool) × (tier : KycTier) × (t
        ≡ new_transfer id now i receiver flag)
      × OwnerOf s i.receiver_account_number receiver before
      × ((receiver == i.sender_user_id) ≡ false)
      × TierOf s i.sender_user_id tier before
      × Within (limits_for_tier tier) s.zones now i.sender_user_id i.amount before
  pub inserted : Inserted t before after

-- The earlier transfer with the reference, and nothing written.
unfoldable pub Returned : InitiateTransferInput → Transfer → Db → Db → Type 0
Returned i t before after =
    (transfer_by_ref i.sender_user_id i.reference before ≡ some t) × (after ≡ before)

-- What the transaction alone tells.
abbrev AcceptedNew : Service → InitiateTransferInput → Ident → KycTier → Transfer → Db → Db → Type 0
AcceptedNew s i receiver tier t before after =
    (id : Ident) × (now : Time) × (flag : Bool) × (t ≡ new_transfer id now i receiver flag)
    × (transfer_by_ref i.sender_user_id i.reference before ≡ none)
    × Within (limits_for_tier tier) s.zones now i.sender_user_id i.amount before
    × Inserted t before after

module _ (s : Service) (i : InitiateTransferInput) (r : Ident) (tier : KycTier) (w w' : World)
    (t : Transfer) where
  accept_new-ok :
      (now : Time)
      → Runs (accept_new s now i r tier) w t w'
      → (id : Ident) × (flag : Bool) × (t ≡ new_transfer id now i r flag)
        × Within (limits_for_tier tier) s.zones now i.sender_user_id i.amount w.db
        × Inserted t w.db w'.db
  unfolding accept_new
  accept_new-ok now h =
      let b = bind-ok _ h in
      let limits = check_limits-Within (limits_for_tier tier) s.zones now _ _ _ _ _ b.0.runs in
      let c = bind-ok _ b.1 in
      let same : c.0.after.db ≡ w.db =
        Keeps-ok (score_fraud-Keeps (λ db. db) s now i r tier) c.0.runs ∙ ap (λ v. v.db) limits.1 in
      let made = insert_transfer-Inserted s now i r c.0.result _ _ _ c.1 in
      (made.0, _, made.1, limits.0, subst (λ db. Inserted t db w'.db) same made.2)

module _ (s : Service) (i : InitiateTransferInput) (r : Ident) (tier : KycTier) (w w' : World)
    (t : Transfer) where
  accept_transfer-ok :
      Runs (accept_transfer s i r tier) w t w'
      → Returned i t w.db w'.db ⊎ AcceptedNew s i r tier t w.db w'.db
  unfolding accept_transfer Returned
  accept_transfer-ok h =
      let b = bind-ok _ h in
      let start = (now-ok _ b.0.runs).1 in
      let c = bind-ok _ b.1 in
      let row = read-ok _ c.0.runs in
      let looked : c.0.result ≡ transfer_by_ref i.sender_user_id i.reference w.db =
        row.0 ∙ ap (transfer_by_ref i.sender_user_id i.reference) start in
      let there : c.0.after.db ≡ w.db = ap (λ v. v.db) row.1 ∙ start in
      elim (option-ok c.1) [
        | inl (none', run) ↦
            let made = accept_new-ok s i r tier c.0.after w' t b.0.result run in
            inr (
              made.0,
              b.0.result,
              made.1,
              made.2,
              sym looked ∙ none',
              subst
                  (λ db.
                    Within (limits_for_tier tier) s.zones b.0.result i.sender_user_id i.amount db)
                  there made.3,
              subst (λ db. Inserted t db w'.db) there made.4,
            )
        | inr (x, some', run) ↦
            let end = pure-ok run in
            inl (sym looked ∙ some' ∙ ap some (sym end.0), ap (λ v. v.db) end.1 ∙ there)
      ]

pub resolve-OwnerOf :
    (s : Service) (number : Bytes) (w w' : World) (r : Ident)
    → Runs (resolve_receiver_user_id s number) w r w'
    → OwnerOf s number r w.db × (w' ≡ w)
unfolding resolve_receiver_user_id OwnerOf
resolve-OwnerOf s number w w' r h = elim (option-ok h) [
  | inl (miss, run) ↦
      let b = bind-ok _ run in
      let row = read-ok _ b.0.runs in
      elim (option-ok b.1) [
        | inl (_, failed) ↦ fail-ok _ failed
        | inr (u, e, done) ↦
            let end = pure-ok done in (inr (miss, (u, sym row.0 ∙ e, sym end.0)), end.1 ∙ row.1)
      ]
  | inr (id, e, run) ↦ let end = pure-ok run in (inl (e ∙ ap some (sym end.0)), end.1)
]

pub tier-TierOf :
    (s : Service) (user : Ident) (w w' : World) (tier : KycTier)
    → Runs (get_sender_kyc_tier s user) w tier w'
    → TierOf s user tier w.db × (w' ≡ w)
unfolding get_sender_kyc_tier TierOf
tier-TierOf s user w w' tier h = elim (option-ok h) [
  | inl (miss, run) ↦
      let b = bind-ok _ run in
      let row = one-ok _ b.0.runs in
      let end = pure-ok b.1 in (inr (miss, (b.0.result, row.0, sym end.0)), end.1 ∙ row.1)
  | inr (id, e, run) ↦ let end = pure-ok run in (inl (e ∙ ap some (sym end.0)), end.1)
]

positive_amount : (x : ℤ) → is_some (validate_amount x) ≡ false → pos 0 <ℤ x
unfolding validate_amount
positive_amount x h = ground arith

pub validate-ok :
    (i : InitiateTransferInput) (w w' : World) (u : Done)
    → Runs (validate_input i) w u w'
    → (pos 0 <ℤ i.amount) × (w' ≡ w)
unfolding validate_input
validate-ok i w w' u h =
    let b = bind-ok _ h in
    let sender = fail_if-ok _ b.0.runs in
    let c = bind-ok _ b.1 in
    let number = fail_if-ok _ c.0.runs in
    let d = bind-ok _ c.1 in
    let amount = fail_if-ok _ d.0.runs in
    (positive_amount i.amount amount.0, (fail_if-ok _ d.1).1 ∙ amount.1 ∙ number.1 ∙ sender.1)

-- A call of `InitiateTransfer` that succeeds returned the transfer that the sender had with the
-- reference, and wrote nothing; or there was none, and it accepted a positive amount to another user,
-- within the two limits of the sender's tier: it added the transfer, a row for each party and the event
-- of the transfer, and moved no balance and posted no entry.
pub initiate_transfer-Accepted :
    (s : Service) (i : InitiateTransferInput) (w w' : World) (t : Transfer)
    → Runs (initiate_transfer s i) w t w'
    → Returned i t w.db w'.db ⊎ Accepted s i t w.db w'.db
unfolding initiate_transfer
initiate_transfer-Accepted s i w w' t h =
    let b = bind-ok _ h in
    let valid = validate-ok i _ _ _ b.0.runs in
    let c = bind-ok _ b.1 in
    let owner = resolve-OwnerOf s i.receiver_account_number _ _ _ c.0.runs in
    let d = bind-ok _ c.1 in
    let other = fail_if-ok _ d.0.runs in
    let e = bind-ok _ d.1 in
    let tier = tier-TierOf s i.sender_user_id _ _ _ e.0.runs in
    let third : d.0.after ≡ w = other.1 ∙ owner.1 ∙ valid.1 in
    let fourth : e.0.after ≡ w = tier.1 ∙ third in
    elim (accept_transfer-ok s i c.0.result e.0.result w w' t
      (subst (λ v. Runs (accept_transfer s i c.0.result e.0.result) v t w') fourth (tx-ok e.1))) [
        | inl old ↦ inl old
        | inr (id, now, flag, made, fresh, within, inserted) ↦ inr (record {
          positive = valid.0;
          fresh = fresh;
          made = (
            id,
            now,
            c.0.result,
            flag,
            e.0.result,
            made,
            subst (λ v. OwnerOf s i.receiver_account_number c.0.result v.db) valid.1 owner.0,
            other.0,
            subst (λ v. TierOf s i.sender_user_id e.0.result v.db) third tier.0,
            within,
          );
          inserted = inserted;
        })
      ]
