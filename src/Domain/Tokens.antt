-- ===== src/Domain/Tokens.antt =====
-- The tokens that cross the wire: domain/ceiling.go, payment.go, payment_request.go,
-- display_card.go and gossip.go.
use offline_pay.Base.{ℕ, ◌+◌, ◌-◌, List, Option}
use offline_pay.Base.Int.{ℤ, pos_part, neg_part}
use offline_pay.Domain.Status.{CeilingStatus}

abbrev pub Ident : Type 0
Ident = ℕ

-- the empty string
abbrev pub no_id : Ident
no_id = 0

abbrev pub Bytes : Type 0
Bytes = List ℕ

abbrev pub Time : Type 0
Time = ℕ

-- `t.Add(d)`; an instant before the zero time is the zero time.
abbrev pub add_time : Time → ℤ → Time
add_time t d = t + pos_part d - neg_part d

-- one second in nanoseconds
abbrev pub second : ℕ
second = 1_000_000_000

pub record CeilingToken : Type 0 where
  pub id : Ident
  pub payer_id : Ident
  pub ceiling_amount : ℤ
  pub issued_at : Time
  pub expires_at : Time
  pub sequence_start : ℤ
  pub payer_public_key : Bytes
  pub bank_key_id : Ident
  pub bank_signature : Bytes
  pub status : CeilingStatus
  pub release_after : Option Time

pub record CeilingTokenPayload : Type 0 where
  pub payer_id : Ident
  pub ceiling_amount : ℤ
  pub issued_at : Time
  pub expires_at : Time
  pub sequence_start : ℤ
  pub payer_public_key : Bytes
  pub bank_key_id : Ident

pub record BankSigningKey : Type 0 where
  pub key_id : Ident
  pub public_key : Bytes
  pub private_key : Bytes

pub record PaymentToken : Type 0 where
  pub payer_id : Ident
  pub payee_id : Ident
  pub amount : ℤ
  pub sequence_number : ℤ
  pub remaining_ceiling : ℤ
  pub timestamp : Time
  pub ceiling_token_id : Ident
  pub session_nonce : Bytes
  pub request_hash : Bytes
  pub payer_signature : Bytes

pub record PaymentPayload : Type 0 where
  pub payer_id : Ident
  pub payee_id : Ident
  pub amount : ℤ
  pub sequence_number : ℤ
  pub remaining_ceiling : ℤ
  pub timestamp : Time
  pub ceiling_token_id : Ident
  pub session_nonce : Bytes
  pub request_hash : Bytes

pub record DisplayCard : Type 0 where
  pub user_id : Ident
  pub display_name : Bytes
  pub account_number : Bytes
  pub issued_at : Time
  pub bank_key_id : Ident
  pub server_signature : Bytes

pub record DisplayCardPayload : Type 0 where
  pub user_id : Ident
  pub display_name : Bytes
  pub account_number : Bytes
  pub issued_at : Time
  pub bank_key_id : Ident

-- `DisplayCard.Payload`
unfoldable pub card_payload : DisplayCard → DisplayCardPayload
card_payload d = record {
  user_id = d.user_id;
  display_name = d.display_name;
  account_number = d.account_number;
  issued_at = d.issued_at;
  bank_key_id = d.bank_key_id;
}

pub record PaymentRequest : Type 0 where
  pub receiver_id : Ident
  pub receiver_display_card : DisplayCard
  pub amount : ℤ
  pub session_nonce : Bytes
  pub issued_at : Time
  pub expires_at : Time
  pub receiver_device_pubkey : Bytes
  pub receiver_signature : Bytes

pub record PaymentRequestPayload : Type 0 where
  pub receiver_id : Ident
  pub receiver_display_card : DisplayCard
  pub amount : ℤ
  pub session_nonce : Bytes
  pub issued_at : Time
  pub expires_at : Time
  pub receiver_device_pubkey : Bytes

-- `PaymentRequest.Payload`
unfoldable pub request_payload : PaymentRequest → PaymentRequestPayload
request_payload r = record {
  receiver_id = r.receiver_id;
  receiver_display_card = r.receiver_display_card;
  amount = r.amount;
  session_nonce = r.session_nonce;
  issued_at = r.issued_at;
  expires_at = r.expires_at;
  receiver_device_pubkey = r.receiver_device_pubkey;
}

pub record GossipBlob : Type 0 where
  pub transaction_hash : Bytes
  pub encrypted_blob : Bytes
  pub bank_signature : Bytes
  pub ceiling_token_hash : Bytes
  pub hop_count : ℤ
  pub blob_size : ℤ
