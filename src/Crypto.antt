-- ===== src/Crypto.antt =====
-- backend/internal/crypto/ed25519.go: the verification of signed tokens. The Ed25519 check, SHA-256
-- and the canonical encodings (encoding/json below them) are parameters.
use offline_pay.Base.{Bool, false, Option, none, some}
use offline_pay.Domain.Tokens.{
  Bytes, CeilingTokenPayload, PaymentPayload, DisplayCardPayload, PaymentRequestPayload,
  PaymentRequest,
}

pub record Primitives : Type 0 where
  pub ed25519_verify : Bytes → Bytes → Bytes → Bool
  pub sha256 : Bytes → Bytes
  pub encode_ceiling : CeilingTokenPayload → Option Bytes
  pub encode_payment : PaymentPayload → Option Bytes
  pub encode_card : DisplayCardPayload → Option Bytes
  pub encode_request_payload : PaymentRequestPayload → Option Bytes
  pub encode_request : PaymentRequest → Option Bytes

-- Canonicalize, then verify; an encoding error is an error like a bad signature.
verify_encoded : Primitives → Bytes → Option Bytes → Bytes → Bool
verify_encoded prim key none sig = false
verify_encoded prim key (some msg) sig = prim.ed25519_verify key msg sig

-- `true` where the Go function returns nil.
unfoldable pub verify_ceiling : Primitives → Bytes → CeilingTokenPayload → Bytes → Bool
unfolding verify_encoded
verify_ceiling prim key p sig = verify_encoded prim key (prim.encode_ceiling p) sig

unfoldable pub verify_payment : Primitives → Bytes → PaymentPayload → Bytes → Bool
unfolding verify_encoded
verify_payment prim key p sig = verify_encoded prim key (prim.encode_payment p) sig

unfoldable pub verify_display_card : Primitives → Bytes → DisplayCardPayload → Bytes → Bool
unfolding verify_encoded
verify_display_card prim key p sig = verify_encoded prim key (prim.encode_card p) sig

unfoldable pub verify_request : Primitives → Bytes → PaymentRequestPayload → Bytes → Bool
unfolding verify_encoded
verify_request prim key p sig = verify_encoded prim key (prim.encode_request_payload p) sig

-- `none` is the encoding error.
unfoldable pub hash_request : Primitives → PaymentRequest → Option Bytes
hash_request prim r = elim (prim.encode_request r) [
  | none ↦ none
  | some msg ↦ some (prim.sha256 msg)
]
