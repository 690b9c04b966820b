-- ===== src/Transfer/Backoff.antt =====
-- The retry schedule of the dispatcher (transfer/dispatcher.go, `backoff`).
use native.Mathlib.Nat.{pow-suc}
use offline_pay.Base.{
  ℕ, zero, suc, ◌≡◌, ap, ◌∙◌, ◌*◌, ◌^◌, ◌≤◌, ◌<◌, inl, inr, ltb, arith, if◌then◌else◌, Bool-cases,
}
use offline_pay.Domain.Tokens.{second}
use offline_pay.Transfer.Dispatch.{minute, doubled, backoff}

abbrev pub capped : ℕ → ℕ
capped d = if ltb minute d then minute else d

power_pos : (n : ℕ) → 0 < 2 ^ n
power_pos zero = omega arith
power_pos (suc n) = grind (arith, power_pos n)

power_step : (n d : ℕ) → 2 ^ n * (d * 2) ≡ 2 ^ suc n * d
power_step n d = rw (pow-suc 2 n) (rearrange (2 ^ n) d)
  where
    rearrange : (p d : ℕ) → p * (d * 2) ≡ p * 2 * d
    rearrange p d = grind arith

at_least : (n d : ℕ) → minute ≤ d → capped d ≡ capped (2 ^ suc n * d)
at_least n d h = grind (arith, power_pos (suc n))

doubled-power : (n d : ℕ) → capped (doubled n d) ≡ capped (2 ^ n * d)
unfolding doubled
doubled-power zero d = ap capped {x = d} {y = 1 * d} (omega arith)
doubled-power (suc n) d = elim (Bool-cases (ltb d minute)) [
  | inl more ↦ rw more (doubled-power n (d * 2) ∙ ap capped (power_step n d))
  | inr done ↦ rw done (at_least n d (ground arith))
]

-- The delay before the retry after `n` attempts is 2^n seconds, and a minute where that is longer.
pub backoff-power :
    (n : ℕ) → backoff n ≡ (if ltb minute (2 ^ n * second) then minute else 2 ^ n * second)
unfolding backoff
backoff-power n = doubled-power n second
