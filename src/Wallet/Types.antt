-- ===== src/Wallet/Types.antt =====
-- wallet/service.go: the service's settings. The fraud gate, the signer, the Ed25519 signature and
-- the sequence tracker (Redis) are parameters; `none` and `false` are their errors.
use offline_pay.Base.{ℕ, Bool, Option}
use offline_pay.Base.Int.{ℤ, pos}
use offline_pay.Domain.Tokens.{Ident, Time, Bytes, CeilingTokenPayload}

pub record Service : Type 0 where
  pub supply : ℕ → Ident
  pub clock : ℕ → Time
  pub clamp : Ident → ℤ → Option ℤ
  pub signer : Option (Ident → Bytes → Option Bytes)
  pub encode_ceiling : CeilingTokenPayload → Option Bytes
  pub ed25519_sign : Bytes → Bytes → Bytes
  pub register_ceiling : Ident → Ident → ℤ → Bool
  pub auto_settle_timeout : ℤ

-- `ReleaseGrace` and `DefaultAutoSettleTimeout`
abbrev pub release_grace : ℤ
release_grace = pos 1_800_000_000_000

abbrev pub default_auto_settle_timeout : ℤ
default_auto_settle_timeout = pos 259_200_000_000_000
