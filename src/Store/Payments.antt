-- ===== src/Store/Payments.antt =====
-- pgrepo/repo.go: payment tokens and the outbox (db/queries/payments.sql, outbox.sql).
pub mod Order
use offline_pay.Base.{
  Bool, true, false, Option, List, [], ◌∷◌, ◌&&◌, ◌||◌, not, ◌==◌, if◌then◌else◌, find, select,
  update_where, is_some, coalesce,
}
use offline_pay.Base.Int.{ℤ, pos, leb_ℤ, ltb_ℤ, eqb_ℤ}
use offline_pay.Domain.Status.{PaymentStatus}
use offline_pay.Domain.Tokens.{Ident, Time, Bytes}
use offline_pay.Store.Rows.{Db, Payment, Reason, OutboxRow}
use offline_pay.Store.Monad.{
  M, Done, looking, ◌>>=◌, check_violation, unique_violation, foreign_key_violation, pure, one,
  read, modify, fail_if, ◌>>◌,
}

abbrev pub same_bytes : Bytes → Bytes → Bool
same_bytes [] [] = true
same_bytes (x ∷ xs) (y ∷ ys) = (x == y) && same_bytes xs ys
same_bytes _ _ = false

abbrev pub has_sequence : Ident → ℤ → Payment → Bool
has_sequence payer sequence p = (p.payer_id == payer) && eqb_ℤ p.sequence_number sequence

abbrev pub has_nonce : Ident → Bytes → Payment → Bool
has_nonce payee nonce p = (p.payee_id == payee) && same_bytes p.session_nonce nonce

-- `SELECT ... WHERE payer_user_id = $1 AND sequence_number = $2`
unfoldable pub payment_by_sequence : Ident → ℤ → Db → Option Payment
payment_by_sequence payer sequence db = find (has_sequence payer sequence) db.payments

unfoldable pub get_payment_by_sequence : Ident → ℤ → M Payment
unfolding payment_by_sequence
get_payment_by_sequence payer sequence = one (payment_by_sequence payer sequence)

-- The CHECKs of migration 0010.
unfoldable pub violates_check : Payment → Bool
violates_check p =
    leb_ℤ p.amount (pos 0)
    || leb_ℤ p.sequence_number (pos 0)
    || ltb_ℤ p.remaining_ceiling (pos 0)
    || (p.payer_id == p.payee_id)

-- The primary key, (payer_user_id, sequence_number), and (payee_user_id, session_nonce).
unfoldable pub violates_unique : Payment → Db → Bool
violates_unique p db =
    is_some (find (λ q. q.id == p.id) db.payments)
    || is_some (find (has_sequence p.payer_id p.sequence_number) db.payments)
    || is_some (find (has_nonce p.payee_id p.session_nonce) db.payments)

unfoldable pub create_payment : Payment → M Payment
unfolding violates_check violates_unique
create_payment p = looking λ db. do
  fail_if (violates_check p) check_violation
  fail_if (violates_unique p db) unique_violation
  fail_if (not (is_some (find (λ c. c.id == p.ceiling_id) db.ceilings))) foreign_key_violation
  modify λ db. record db { payments = p ∷ db.payments }
  pure p

abbrev pub is_pending_of : Ident → Payment → Bool
is_pending_of payer p = (p.payer_id == payer) && pending_status p.status
  where
    pending_status : PaymentStatus → Bool
    pending_status PaymentStatus.pending = true
    pending_status _ = false

-- Insertion by sequence number, which keeps the order of equal ones: `sort.SliceStable`, and the
-- ORDER BY of the query.
unfoldable pub insert_by_sequence : Payment → List Payment → List Payment
insert_by_sequence p [] = p ∷ []
insert_by_sequence p (q ∷ qs) =
    if leb_ℤ p.sequence_number q.sequence_number then p ∷ q ∷ qs else q ∷ insert_by_sequence p qs

unfoldable pub sort_by_sequence : List Payment → List Payment
unfolding insert_by_sequence
sort_by_sequence [] = []
sort_by_sequence (p ∷ ps) = insert_by_sequence p (sort_by_sequence ps)

unfoldable pub list_pending_for_payer : Ident → M (List Payment)
unfolding sort_by_sequence
list_pending_for_payer payer =
    read λ db. sort_by_sequence (select (is_pending_of payer) db.payments)

-- What `UpdatePaymentStatus` writes.
pub record StatusUpdate : Type 0 where
  pub status : PaymentStatus
  pub settled_amount : ℤ
  pub rejection_reason : Option Reason
  pub settlement_batch_id : Option Ident
  pub submitted_at : Option Time
  pub settled_at : Option Time

unfoldable pub apply_update : StatusUpdate → Payment → Payment
apply_update u p = record p {
  status = u.status;
  settled_amount = u.settled_amount;
  rejection_reason = u.rejection_reason;
  settlement_batch_id = u.settlement_batch_id;
  submitted_at = coalesce p.submitted_at u.submitted_at;
  settled_at = u.settled_at;
}

-- `:one`, so that a missing id is an error; `settled_amount_kobo >= 0` is a CHECK.
unfoldable pub update_payment_status : Ident → StatusUpdate → M Done
unfolding apply_update
update_payment_status id u = do
  one λ db. find (λ p. p.id == id) db.payments
  fail_if (ltb_ℤ u.settled_amount (pos 0)) check_violation
  modify λ db. record db { payments = update_where (λ p. p.id == id) (apply_update u) db.payments }

-- `InsertOutboxEntry`, with its primary key.
unfoldable pub insert_finalize_outbox : OutboxRow → M Done
insert_finalize_outbox row = looking λ db. do
  fail_if (is_some (find (λ o. o.id == row.id) db.outbox)) unique_violation
  modify λ db. record db { outbox = row ∷ db.outbox }
