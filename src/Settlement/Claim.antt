-- ===== src/Settlement/Claim.antt =====
-- The guards of `submitOne` (settlement/service.go), in its order. Each answers the reason of the
-- first guard that fails, or `none`.
use offline_pay.Base.{Bool, Option, none, some, ◌&&◌, not, ltb, ◌==◌, if◌then◌else◌}
use offline_pay.Base.Int.{pos, leb_ℤ, eqb_ℤ}
use offline_pay.Crypto.{
  verify_ceiling, verify_payment, verify_display_card, verify_request, hash_request,
}
use offline_pay.Domain.Status.{CeilingStatus, active, recovery_pending}
use offline_pay.Domain.Tokens.{
  Ident, Time, add_time, CeilingToken, CeilingTokenPayload, PaymentToken, PaymentPayload,
  BankSigningKey, card_payload, request_payload,
}
use offline_pay.Store.Rows.{
  Reason, self_pay, ceiling_expired, ceiling_revoked, ceiling_recovery_closed, bad_bank_signature,
  bad_payer_signature, bad_receiver_signature, bad_display_card, sequence_below_start,
  ceiling_mismatch, payer_id_mismatch, submitter_not_party, request_receiver_mismatch,
  request_nonce_mismatch, request_hash_mismatch, request_amount_mismatch, request_expired,
  request_display_card_user,
}
use offline_pay.Store.Monad.{
  M, pure, fail, branch, option, emit, fraud, signature_invalid, sequence_anomaly,
  canonicalize_failed, ◌>>=◌, ◌>>◌,
}
use offline_pay.Store.Ceilings.{get_bank_signing_key, get_ceiling_token}
use offline_pay.Store.Payments.{same_bytes}
use offline_pay.Settlement.Types.{Service, ClaimItem, request_grace}

-- 1) Structural sanity and who may submit.
unfoldable pub check_parties : Ident → ClaimItem → Option Reason
check_parties submitter item =
    if p.payer_id == p.payee_id
    then some self_pay
    else if not (p.payer_id == c.payer_id)
    then some payer_id_mismatch
    else if not (p.ceiling_token_id == c.id)
    then some ceiling_mismatch
    else if not (submitter == p.payer_id) && not (submitter == p.payee_id)
    then some submitter_not_party
    else if not (req.receiver_id == p.payee_id)
    then some request_receiver_mismatch
    else if not (req.receiver_display_card.user_id == req.receiver_id)
    then some request_display_card_user
    else none
  where
    open item use {payment as p, ceiling as c, request as req}

ceiling_payload : CeilingToken → CeilingTokenPayload
ceiling_payload c = record {
  payer_id = c.payer_id;
  ceiling_amount = c.ceiling_amount;
  issued_at = c.issued_at;
  expires_at = c.expires_at;
  sequence_start = c.sequence_start;
  payer_public_key = c.payer_public_key;
  bank_key_id = c.bank_key_id;
}

payment_payload : PaymentToken → PaymentPayload
payment_payload p = record {
  payer_id = p.payer_id;
  payee_id = p.payee_id;
  amount = p.amount;
  sequence_number = p.sequence_number;
  remaining_ceiling = p.remaining_ceiling;
  timestamp = p.timestamp;
  ceiling_token_id = p.ceiling_token_id;
  session_nonce = p.session_nonce;
  request_hash = p.request_hash;
}

-- The bank's signature on a claimed ceiling, the payer's on the payment, the server's on the card and
-- the receiver's on the request.
unfoldable pub bank_signed : Service → BankSigningKey → ClaimItem → Bool
unfolding ceiling_payload
bank_signed s key item =
    verify_ceiling s.prim key.public_key (ceiling_payload item.ceiling) item.ceiling.bank_signature

unfoldable pub payer_signed : Service → ClaimItem → Bool
unfolding payment_payload
payer_signed s item =
    verify_payment s.prim item.ceiling.payer_public_key (payment_payload item.payment)
      item.payment.payer_signature

unfoldable pub card_signed : Service → BankSigningKey → ClaimItem → Bool
card_signed s key item =
    verify_display_card s.prim key.public_key (card_payload item.request.receiver_display_card)
      item.request.receiver_display_card.server_signature

unfoldable pub receiver_signed : Service → ClaimItem → Bool
receiver_signed s item =
    verify_request s.prim item.request.receiver_device_pubkey (request_payload item.request)
      item.request.receiver_signature

-- 3b) The key of the display card: the ceiling's, unless the card names another.
unfoldable pub card_key : BankSigningKey → ClaimItem → M BankSigningKey
card_key bank_key item =
    branch (item.request.receiver_display_card.bank_key_id == item.ceiling.bank_key_id)
      (pure bank_key) (get_bank_signing_key item.request.receiver_display_card.bank_key_id)

-- 3b) and 3c)
unfoldable pub check_request_signatures : Service → BankSigningKey → ClaimItem → M (Option Reason)
unfolding card_signed receiver_signed
check_request_signatures s bank_key item = do
  key ← card_key bank_key item
  branch (not (card_signed s key item)) (pure (some bad_display_card))
      (branch (not (receiver_signed s item)) (pure (some bad_receiver_signature)) (pure none))

-- 2), 3), 3b) and 3c): a forged ceiling or payment is a fraud signal.
unfoldable pub check_signatures : Service → ClaimItem → M (Option Reason)
unfolding bank_signed payer_signed
check_signatures s item = do
  bank_key ← get_bank_signing_key item.ceiling.bank_key_id
  branch (not (bank_signed s bank_key item))
      (emit (fraud signature_invalid item.ceiling.payer_id item.ceiling.id)
        >> pure (some bad_bank_signature))
      (branch (not (payer_signed s item))
        (emit (fraud signature_invalid item.payment.payer_id item.ceiling.id)
          >> pure (some bad_payer_signature))
        (check_request_signatures s bank_key item))

-- The amount and the expiry of the request, which follow the two byte comparisons.
unfoldable pub check_request_terms : ClaimItem → Time → Option Reason
check_request_terms item now =
    if not (eqb_ℤ item.request.amount (pos 0))
      && not (eqb_ℤ item.payment.amount item.request.amount)
    then some request_amount_mismatch
    else if ltb (add_time item.request.expires_at request_grace) now
    then some request_expired
    else none

-- 3d) The payment is bound to the request.
unfoldable pub check_binding : Service → ClaimItem → Time → M (Option Reason)
unfolding check_request_terms
check_binding s item now =
    branch (not (same_bytes item.payment.session_nonce item.request.session_nonce))
      (pure (some request_nonce_mismatch))
      (option (hash_request s.prim item.request) (fail canonicalize_failed) λ hash.
        branch (not (same_bytes item.payment.request_hash hash)) (pure (some request_hash_mismatch))
          (pure (check_request_terms item now)))

-- 4) Sequence and expiry.
unfoldable pub check_window : Service → ClaimItem → Time → M (Option Reason)
check_window s item now =
    branch (leb_ℤ item.payment.sequence_number item.ceiling.sequence_start)
      (emit (fraud sequence_anomaly item.payment.payer_id item.ceiling.id)
        >> pure (some sequence_below_start))
      (branch (ltb (add_time item.ceiling.expires_at s.clock_grace) now)
        (pure (some ceiling_expired)) (pure none))

-- 4b) What the server's own row of the ceiling allows.
unfoldable pub live_status : Time → CeilingToken → Option Reason
live_status now live = by_status live.status
  where
    still_open : Option Time → Option Reason
    still_open none = some ceiling_recovery_closed
    still_open (some t) = if ltb now t then none else some ceiling_recovery_closed

    by_status : CeilingStatus → Option Reason
    by_status active = none
    by_status recovery_pending = still_open live.release_after
    by_status _ = some ceiling_revoked

unfoldable pub check_live : ClaimItem → Time → M (Option Reason)
unfolding live_status
check_live item now = do live ← get_ceiling_token item.ceiling.id; pure (live_status now live)
