-- ===== src/Gossip/Upload.antt =====
-- gossip/service.go: `Upload`. The sealed box of NaCl and encoding/json are parameters; texts of errors
-- are constructors.
use offline_pay.Base.{
  ℕ, suc, Bool, true, false, Option, none, some, List, [], ◌∷◌, ◌==◌, if◌then◌else◌, length,
  is_some,
}
use offline_pay.Base.Int.{ℤ, pos, ltb_ℤ}
use offline_pay.Domain.Status.{active}
use offline_pay.Domain.Tokens.{
  Ident, Time, Bytes, no_id, CeilingToken, CeilingTokenPayload, PaymentToken, PaymentRequest,
  GossipBlob,
}
use offline_pay.Domain.Validate.{validate_blob}
use offline_pay.Store.Monad.{
  M, Error, Tried, done, failed_with, attempt, pure, fail_if, branch, option,
  sealed_box_keys_missing, ◌>>=◌, ◌>>◌,
}
use offline_pay.Settlement.Types as Settlement
use offline_pay.Settlement.Types.{ClaimItem, SettlementResult, SettlementBatch}
use offline_pay.Settlement.Submit.{submit_claim}

pub record SealedBoxKey : Type 0 where
  pub key_id : Ident
  pub public_key : Bytes
  pub private_key : Option Bytes
  pub retired_at : Option Time

pub record SealedBoxKeyring : Type 0 where
  pub current : SealedBoxKey
  pub previous : List SealedBoxKey

-- `all`: the keys to try, the current one first where it has a private part.
unfoldable pub all_keys : SealedBoxKeyring → List SealedBoxKey
all_keys r = if is_some r.current.private_key then r.current ∷ r.previous else r.previous

pub record CeilingTokenWire : Type 0 where
  pub id : Ident
  pub payload : CeilingTokenPayload
  pub bank_signature : Bytes

pub record WireInnerPayload : Type 0 where
  pub ceiling : CeilingTokenWire
  pub payment : PaymentToken
  pub request : PaymentRequest
  pub sender_user_id : Ident

pub record Service : Type 0 where
  pub settlement : Settlement.Service
  pub keyring : SealedBoxKeyring
  pub open_anonymous : Bytes → Option Bytes → Bytes → Option Bytes
  pub decode_inner : Bytes → Option WireInnerPayload

-- `Err` of a blob: `ErrBadBlob`, `ErrBlobHopLimitExceeded`, or an error of `SubmitClaim`.
pub data BlobError : Type 0 where
  bad_blob blob_hop_limit_exceeded : BlobError
  settlement_submit : Error → BlobError

pub record BlobResult : Type 0 where
  pub transaction_hash : Bytes
  pub accepted : Bool
  pub error : Option BlobError
  pub settlement_result : Option SettlementResult

pub record UploadResult : Type 0 where
  pub accepted : ℕ
  pub rejected : ℕ
  pub items : List BlobResult

-- The first key that opens the box.
unfoldable pub open_with_keyring : Service → List SealedBoxKey → Bytes → Option Bytes
open_with_keyring s [] box = none
open_with_keyring s (k ∷ keys) box = elim (s.open_anonymous k.public_key k.private_key box) [
  | some plain ↦ some plain
  | none ↦ open_with_keyring s keys box
]

-- The ceiling of the claim. Its status and its release time do not travel, and no check of a claim reads
-- them.
abbrev pub ceiling_of : CeilingTokenWire → CeilingToken
ceiling_of c = record {
  id = c.id;
  payer_id = c.payload.payer_id;
  ceiling_amount = c.payload.ceiling_amount;
  issued_at = c.payload.issued_at;
  expires_at = c.payload.expires_at;
  sequence_start = c.payload.sequence_start;
  payer_public_key = c.payload.payer_public_key;
  bank_key_id = c.payload.bank_key_id;
  bank_signature = c.bank_signature;
  status = active;
  release_after = none;
}

-- Who submits the claim: the sender named inside, or the payee.
unfoldable pub receiver_of : WireInnerPayload → Ident
receiver_of inner =
    if inner.sender_user_id == no_id then inner.payment.payee_id else inner.sender_user_id

abbrev pub claim_of : WireInnerPayload → ClaimItem
claim_of inner = record {
  payment = inner.payment;
  ceiling = ceiling_of inner.ceiling;
  request = inner.request;
}

abbrev pub refused : GossipBlob → BlobError → BlobResult
refused blob e = record {
  transaction_hash = blob.transaction_hash;
  accepted = false;
  error = some e;
  settlement_result = none;
}

abbrev first_result : List SettlementResult → Option SettlementResult
first_result [] = none
first_result (r ∷ _) = some r

unfoldable pub routed : GossipBlob → Tried (SettlementBatch × List SettlementResult) → BlobResult
routed blob (failed_with e) = refused blob (settlement_submit e)
routed blob (done (batch, results)) = record {
  transaction_hash = blob.transaction_hash;
  accepted = true;
  error = none;
  settlement_result = first_result results;
}

-- The claim inside, handed to the settlement service with no country.
unfoldable pub route : Service → GossipBlob → WireInnerPayload → M BlobResult
unfolding receiver_of routed
route s blob inner = do
  r ← attempt (submit_claim s.settlement (receiver_of inner) (claim_of inner ∷ []) no_id)
  pure (routed blob r)

-- `domain.MaxGossipHops`
abbrev max_hops : ℤ
max_hops = pos 3

-- What is inside a blob, or why it is not looked at.
unfoldable pub inner_of : Service → List SealedBoxKey → GossipBlob → Option WireInnerPayload
unfolding open_with_keyring
inner_of s keys blob = elim (open_with_keyring s keys blob.encrypted_blob) [
  | none ↦ none
  | some plain ↦ s.decode_inner plain
]

unfoldable pub upload_one : Service → List SealedBoxKey → GossipBlob → M BlobResult
unfolding inner_of
upload_one s keys blob = branch (is_some (validate_blob blob)) (pure (refused blob bad_blob)) (
    branch (ltb_ℤ max_hops blob.hop_count) (pure (refused blob blob_hop_limit_exceeded))
      (option (inner_of s keys blob) (pure (refused blob bad_blob)) (λ inner. route s blob inner)))

unfoldable pub add_item : BlobResult → UploadResult → UploadResult
add_item item rest = record {
  accepted = if item.accepted then suc rest.accepted else rest.accepted;
  rejected = if item.accepted then rest.rejected else suc rest.rejected;
  items = item ∷ rest.items;
}

unfoldable pub upload_all : Service → List SealedBoxKey → List GossipBlob → M UploadResult
unfolding add_item
upload_all s keys [] = pure (record { accepted = 0; rejected = 0; items = [] })
upload_all s keys (blob ∷ blobs) = do
  item ← upload_one s keys blob
  rest ← upload_all s keys blobs
  pure (add_item item rest)

-- The id of the uploader plays no part.
unfoldable pub upload : Service → Ident → List GossipBlob → M UploadResult
unfolding all_keys
upload s uploader blobs = do
  fail_if (length (all_keys s.keyring) == 0) sealed_box_keys_missing
  upload_all s (all_keys s.keyring) blobs
