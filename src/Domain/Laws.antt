-- ===== src/Domain/Laws.antt =====
-- What the `Validate` method of domain/gossip.go lets pass.
use offline_pay.Base.{◌≡◌, false, none, arith, ◌==◌, length}
use offline_pay.Base.Int.{pos, ◌≤ℤ◌}
use offline_pay.Domain.Tokens.{GossipBlob}
use offline_pay.Domain.Validate.{validate_blob}

-- A blob that may travel on: at most three hops, and its size told truly.
pub record SoundBlob (b : GossipBlob) : Type 0 where
  pub hops_known : pos 0 ≤ℤ b.hop_count
  pub hops_bounded : b.hop_count ≤ℤ pos 3
  pub size_true : b.blob_size ≡ pos (length b.encrypted_blob)
  pub signed : (length b.bank_signature == 0) ≡ false
  pub hashed : (length b.transaction_hash == 0) ≡ false
  pub ceiling_named : (length b.ceiling_token_hash == 0) ≡ false

-- `GossipBlob.Validate` passes only blobs that may travel on.
pub validate_blob-SoundBlob : (b : GossipBlob) → validate_blob b ≡ none → SoundBlob b
unfolding validate_blob
validate_blob-SoundBlob b h = record {
  hops_known = ground arith;
  hops_bounded = ground arith;
  size_true = ground arith;
  signed = ground arith;
  hashed = ground arith;
  ceiling_named = ground arith;
}
