-- ===== src/Store/Ceilings.antt =====
-- pgrepo/repo.go: ceiling tokens, bank keys and payer keys (db/queries/ceilings.sql).
use offline_pay.Base.{
  ℕ, Bool, true, false, Option, none, some, List, [], ◌∷◌, ◌&&◌, ◌||◌, not, none, ltb, ◌==◌,
  if◌then◌else◌, find, select, update_where, is_some, length,
}
use offline_pay.Base.Int.{ℤ, pos, ◌+ℤ◌, leb_ℤ, ltb_ℤ, fits_int64}
use offline_pay.Domain.Status.{
  PaymentStatus, submitted, CeilingStatus, active, recovery_pending, is_active, is_recovery_pending,
}
use offline_pay.Domain.Tokens.{Ident, no_id, Time, Bytes, CeilingToken, BankSigningKey}
use offline_pay.Store.Rows.{Db, Payment}
use offline_pay.Store.Monad.{
  M, Done, ◌>>=◌, check_violation, unique_violation, pure, one, looking, read, modify, fail_if,
  branch, new_id, out_of_range, ◌>>◌,
}

unfoldable pub get_ceiling_token : Ident → M CeilingToken
get_ceiling_token id = one λ db. find (λ c. c.id == id) db.ceilings

-- `WHERE payer_user_id = $1 AND status = 'ACTIVE'`
unfoldable pub active_ceiling_of : Ident → Db → Option CeilingToken
active_ceiling_of user db = find (λ c. (c.payer_id == user) && is_active c.status) db.ceilings

unfoldable pub get_active_ceiling : Ident → M CeilingToken
unfolding active_ceiling_of
get_active_ceiling user = one (active_ceiling_of user)

abbrev pub issued : CeilingToken → CeilingToken
issued c = record c { status = active; release_after = none }

-- ACTIVE or RECOVERY_PENDING: the rows under the partial unique index `uq_ceiling_one_live_per_user` of
-- migration 0023.
unfoldable pub live_ceiling_of : Ident → Db → Option CeilingToken
live_ceiling_of user db =
    find (λ c. (c.payer_id == user) && (is_active c.status || is_recovery_pending c.status))
      db.ceilings

-- `CreateCeilingToken` with status ACTIVE: the CHECKs, the primary key and the unique index.
unfoldable pub create_ceiling_token : CeilingToken → M CeilingToken
unfolding live_ceiling_of
create_ceiling_token c = looking λ db. do
  fail_if (leb_ℤ c.ceiling_amount (pos 0) || ltb_ℤ c.sequence_start (pos 0)) check_violation
  fail_if (is_some (find (λ d. d.id == c.id) db.ceilings)) unique_violation
  fail_if (is_some (live_ceiling_of c.payer_id db)) unique_violation
  modify λ db. record db { ceilings = issued c ∷ db.ceilings }
  pure (issued c)

-- An empty id is replaced by one of the supply.
unfoldable pub issue_ceiling_token : (ℕ → Ident) → CeilingToken → M CeilingToken
unfolding create_ceiling_token
issue_ceiling_token supply c = do
  id ← branch (c.id == no_id) (new_id supply) (pure c.id)
  create_ceiling_token (record c { id = id })

abbrev pub set_status : Ident → CeilingStatus → List CeilingToken → List CeilingToken
set_status id status = update_where (λ c. c.id == id) (λ c. record c { status = status })

unfoldable pub update_ceiling_status : Ident → CeilingStatus → M Done
update_ceiling_status id status =
    modify λ db. record db { ceilings = set_status id status db.ceilings }

abbrev pub is_active_row : Ident → CeilingToken → Bool
is_active_row id c = (c.id == id) && is_active c.status

abbrev pub stamp_recovery : Time → CeilingToken → CeilingToken
stamp_recovery t c = record c { status = recovery_pending; release_after = some t }

-- `WHERE id = $1 AND status = 'ACTIVE'`; the result is the number of rows.
unfoldable pub mark_ceiling_recovery_pending : Ident → Time → M ℕ
mark_ceiling_recovery_pending id release_after = do
  rows ← read λ db. length (select (is_active_row id) db.ceilings)
  modify λ db. record db {
    ceilings = update_where (is_active_row id) (stamp_recovery release_after) db.ceilings;
  }
  pure rows

abbrev pub is_in_flight : PaymentStatus → Bool
is_in_flight PaymentStatus.pending = true
is_in_flight submitted = true
is_in_flight _ = false

-- `ceiling_id = $1 AND status IN ('PENDING', 'SUBMITTED')`
unfoldable pub in_flight_payments : Ident → Db → List Payment
in_flight_payments ceiling db =
    select (λ p. (p.ceiling_id == ceiling) && is_in_flight p.status) db.payments

unfoldable pub count_in_flight_payments : Ident → M ℕ
unfolding in_flight_payments
count_in_flight_payments ceiling = read λ db. length (in_flight_payments ceiling db)

unfoldable pub sum_settled : Ident → List Payment → ℤ
sum_settled ceiling [] = pos 0
sum_settled ceiling (p ∷ ps) =
    (if p.ceiling_id == ceiling then p.settled_amount else pos 0) +ℤ sum_settled ceiling ps

-- The sum is cast to BIGINT.
unfoldable pub sum_settled_for_ceiling : Ident → M ℤ
unfolding sum_settled
sum_settled_for_ceiling ceiling = do
  total ← read λ db. sum_settled ceiling db.payments
  fail_if (not (fits_int64 total)) out_of_range
  pure total

-- ACTIVE past its expiry, or RECOVERY_PENDING past its release; with a NULL stamp the test fails.
is_releasable_status : Time → CeilingToken → Bool
is_releasable_status before c =
    (is_active c.status && ltb c.expires_at before)
    || (is_recovery_pending c.status && released c.release_after)
  where
    released : Option Time → Bool
    released none = false
    released (some t) = ltb t before

unfoldable pub list_releasable_expired_ceilings : Time → M (List CeilingToken)
unfolding is_releasable_status in_flight_payments
list_releasable_expired_ceilings before = read λ db.
    select (λ c. is_releasable_status before c && (length (in_flight_payments c.id db) == 0))
      db.ceilings

unfoldable pub get_bank_signing_key : Ident → M BankSigningKey
get_bank_signing_key id = one λ db. find (λ k. k.key_id == id) db.bank_keys

unfoldable pub get_active_bank_signing_key : M BankSigningKey
get_active_bank_signing_key = one λ db. db.active_bank_key

abbrev key_or_nil : Option Bytes → Bytes
key_or_nil none = []
key_or_nil (some key) = key

-- A user without a key has the nil slice.
unfoldable pub get_user_payer_pubkey : Ident → M Bytes
get_user_payer_pubkey user = read λ db. key_or_nil (db.payer_pubkeys user)
