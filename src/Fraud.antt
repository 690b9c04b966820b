-- ===== src/Fraud.antt =====
-- backend/internal/service/fraud/service.go: the tiers and the clamp on a requested ceiling. The
-- score is a float with an exponential decay; the tier that it falls in is a parameter.
use offline_pay.Base.{Option, none, some, if◌then◌else◌}
use offline_pay.Base.Int.{ℤ, pos, ltb_ℤ}
use offline_pay.Domain.Tokens.{Ident}

pub data Tier : Type 0 where
  standard reduced suspended : Tier

-- `ReducedCapKobo` and `SuspendedCapKobo`
abbrev pub reduced_cap : ℤ
reduced_cap = pos 500_000

abbrev pub suspended_cap : ℤ
suspended_cap = pos 0

abbrev clamp_at : Tier → ℤ → ℤ
clamp_at suspended requested = suspended_cap
clamp_at reduced requested = if ltb_ℤ reduced_cap requested then reduced_cap else requested
clamp_at standard requested = requested

-- `ClampCeiling`, with the tier of a user or an error of the repository.
unfoldable pub clamp_ceiling : (Ident → Option Tier) → Ident → ℤ → Option ℤ
clamp_ceiling tier_of user requested = elim (tier_of user) [
  | none ↦ none
  | some tier ↦ some (clamp_at tier requested)
]
