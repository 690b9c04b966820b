-- ===== src/Domain/Validate.antt =====
-- The `Validate` methods of the domain payloads, and the input checks of domain/transfer.go. `none`
-- is the nil error; the reasons are the texts of the `switch`, one constructor each.
use offline_pay.Base.{
  ℕ, Bool, true, Option, none, some, List, [], ◌∷◌, ◌&&◌, ◌||◌, not, ltb, leb, ◌==◌, if◌then◌else◌,
  length,
}
use offline_pay.Base.Int.{ℤ, pos, leb_ℤ, ltb_ℤ, eqb_ℤ}
use offline_pay.Domain.Tokens.{
  Bytes, no_id, CeilingTokenPayload, PaymentPayload, DisplayCardPayload, PaymentRequestPayload,
  GossipBlob, card_payload,
}

pub data Invalid : Type 0 where
  payer_id_required payee_id_required same_party ceiling_amount_not_positive : Invalid
  issued_at_required expires_at_required expires_before_issue sequence_start_negative : Invalid
  public_key_required bank_key_id_required amount_not_positive sequence_not_positive : Invalid
  remaining_negative timestamp_required ceiling_id_required nonce_size hash_required : Invalid
  user_id_required display_name_required account_number_required receiver_id_required : Invalid
  card_user_mismatch amount_negative expiry_not_after_issue device_pubkey_required : Invalid
  hop_count_negative hop_count_exceeded blob_size_not_positive blob_required : Invalid
  blob_size_mismatch transaction_hash_required ceiling_hash_required signature_required : Invalid
  invalid_amount invalid_reference invalid_account_number : Invalid

abbrev pub session_nonce_size : ℕ
session_nonce_size = 16

abbrev pub max_gossip_hops : ℕ
max_gossip_hops = 3

abbrev is_empty : Bytes → Bool
is_empty b = length b == 0

-- The first test that holds names the reason.
abbrev first_failure : List (Bool × Invalid) → Option Invalid
first_failure [] = none
first_failure ((failed, reason) ∷ rest) = if failed then some reason else first_failure rest

unfoldable pub validate_ceiling : CeilingTokenPayload → Option Invalid
validate_ceiling p = first_failure (
    (p.payer_id == no_id, payer_id_required)
    ∷ (leb_ℤ p.ceiling_amount (pos 0), ceiling_amount_not_positive)
    ∷ (p.issued_at == 0, issued_at_required)
    ∷ (p.expires_at == 0, expires_at_required)
    ∷ (leb p.expires_at p.issued_at, expires_before_issue)
    ∷ (ltb_ℤ p.sequence_start (pos 0), sequence_start_negative)
    ∷ (is_empty p.payer_public_key, public_key_required)
    ∷ (p.bank_key_id == no_id, bank_key_id_required)
    ∷ [])

unfoldable pub validate_payment : PaymentPayload → Option Invalid
validate_payment p = first_failure (
    (p.payer_id == no_id, payer_id_required)
    ∷ (p.payee_id == no_id, payee_id_required)
    ∷ (p.payer_id == p.payee_id, same_party)
    ∷ (leb_ℤ p.amount (pos 0), amount_not_positive)
    ∷ (leb_ℤ p.sequence_number (pos 0), sequence_not_positive)
    ∷ (ltb_ℤ p.remaining_ceiling (pos 0), remaining_negative)
    ∷ (p.timestamp == 0, timestamp_required)
    ∷ (p.ceiling_token_id == no_id, ceiling_id_required)
    ∷ (not (length p.session_nonce == session_nonce_size), nonce_size)
    ∷ (is_empty p.request_hash, hash_required)
    ∷ [])

unfoldable pub validate_card : DisplayCardPayload → Option Invalid
validate_card p = first_failure (
    (p.user_id == no_id, user_id_required)
    ∷ (is_empty p.display_name, display_name_required)
    ∷ (is_empty p.account_number, account_number_required)
    ∷ (p.issued_at == 0, issued_at_required)
    ∷ (p.bank_key_id == no_id, bank_key_id_required)
    ∷ [])

unfoldable pub validate_request : PaymentRequestPayload → Option Invalid
unfolding validate_card card_payload
validate_request p = elim own [
  | some reason ↦ some reason
  | none ↦ validate_card (card_payload p.receiver_display_card)
]
  where
    own : Option Invalid
    own = first_failure (
        (p.receiver_id == no_id, receiver_id_required)
        ∷ (not (p.receiver_display_card.user_id == p.receiver_id), card_user_mismatch)
        ∷ (ltb_ℤ p.amount (pos 0), amount_negative)
        ∷ (not (length p.session_nonce == session_nonce_size), nonce_size)
        ∷ (p.issued_at == 0, issued_at_required)
        ∷ ((p.expires_at == 0) || leb p.expires_at p.issued_at, expiry_not_after_issue)
        ∷ (is_empty p.receiver_device_pubkey, device_pubkey_required)
        ∷ [])

unfoldable pub validate_blob : GossipBlob → Option Invalid
validate_blob b = first_failure (
    (ltb_ℤ b.hop_count (pos 0), hop_count_negative)
    ∷ (ltb_ℤ (pos max_gossip_hops) b.hop_count, hop_count_exceeded)
    ∷ (leb_ℤ b.blob_size (pos 0), blob_size_not_positive)
    ∷ (is_empty b.encrypted_blob, blob_required)
    ∷ (not (eqb_ℤ (pos (length b.encrypted_blob)) b.blob_size), blob_size_mismatch)
    ∷ (is_empty b.transaction_hash, transaction_hash_required)
    ∷ (is_empty b.ceiling_token_hash, ceiling_hash_required)
    ∷ (is_empty b.bank_signature, signature_required)
    ∷ [])

-- `ValidateAmount`
unfoldable pub validate_amount : ℤ → Option Invalid
validate_amount amount = if leb_ℤ amount (pos 0) then some invalid_amount else none

abbrev max_reference_len : ℕ
max_reference_len = 64

-- `ValidateReference`
unfoldable pub validate_reference : Bytes → Option Invalid
validate_reference ref =
    if is_empty ref || ltb max_reference_len (length ref) then some invalid_reference else none

is_digit : ℕ → Bool
is_digit c = leb b'0' c && leb c b'9'

all_digits : Bytes → Bool
unfolding is_digit
all_digits [] = true
all_digits (c ∷ cs) = is_digit c && all_digits cs

-- `ValidateAccountNumber`: the pattern `^[0-9]{10}$`
unfoldable pub validate_account_number : Bytes → Option Invalid
unfolding all_digits
validate_account_number n =
    if (length n == 10) && all_digits n then none else some invalid_account_number
