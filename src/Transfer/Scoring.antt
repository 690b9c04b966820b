-- ===== src/Transfer/Scoring.antt =====
-- fraud/transfer_scorer.go: the five rules that a transfer is scored by, and how their hits combine.
use offline_pay.Base.{
  ℕ, suc, ◌*◌, ◌/◌, Bool, true, false, Option, none, some, List, [], ◌∷◌, ◌&&◌, ◌||◌, leb, ◌==◌,
  if◌then◌else◌,
}
use offline_pay.Base.Int.{ℤ, pos, negsuc, pos_part, sub_ℕ, ◌+ℤ◌, wrap_int64, ltb_ℤ, leb_ℤ}
use offline_pay.Domain.Tokens.{Ident, Time, no_id}
use offline_pay.Store.Rows.{
  RuleName, velocity_sender_1m, velocity_sender_1h, new_account_large_transfer,
  novel_receiver_high_amount, high_daily_share,
}
use offline_pay.Store.Monad.{M, pure, branch, ◌>>=◌}
use offline_pay.Store.Transfers.{
  Zones, sum_sender_transfers_today, count_recent_transfers_by_sender, exists_transfer_between,
}

pub data Severity : Type 0 where
  flag block : Severity

pub record RuleHit : Type 0 where
  pub name : RuleName
  pub severity : Severity

-- `Score.Decision`; `unscored` is the empty text of a transfer that was not scored.
pub data Decision : Type 0 where
  unscored allow flagged blocked : Decision

pub record Score : Type 0 where
  pub decision : Decision
  pub rule : Option RuleName
  pub rule_hits : List RuleHit

pub record ScoreInput : Type 0 where
  pub sender_user_id : Ident
  pub receiver_user_id : Ident
  pub amount : ℤ
  pub daily_tier_limit : ℤ
  pub sender_account_age_hours : ℤ

-- What a rule reads besides its input: the zones and `now()` of the transaction.
pub record Instant : Type 0 where
  pub zones : Zones
  pub now : Time

abbrev pub Rule : Type 0
Rule = Instant → ScoreInput → M (Option RuleHit)

abbrev hit : RuleName → Severity → Option RuleHit
hit name severity = some (record { name = name; severity = severity })

-- Both velocity rules: a window in nanoseconds and a threshold.
velocity : RuleName → ℕ → ℕ → Rule
velocity name window threshold t i = branch (i.sender_user_id == no_id) (pure none) (do
  prior ← count_recent_transfers_by_sender t.now i.sender_user_id window (suc threshold)
  pure (if leb threshold prior then hit name block else none))

unfoldable pub rule_velocity_sender_1m : Rule
unfolding velocity
rule_velocity_sender_1m = velocity velocity_sender_1m 60_000_000_000 10

unfoldable pub rule_velocity_sender_1h : Rule
unfolding velocity
rule_velocity_sender_1h = velocity velocity_sender_1h 3_600_000_000_000 50

unfoldable pub rule_new_account_large_transfer : Rule
rule_new_account_large_transfer t i = pure (
    if ltb_ℤ (pos 0) i.sender_account_age_hours
      && ltb_ℤ i.sender_account_age_hours (pos 24)
      && ltb_ℤ (pos 2_000_000) i.amount
    then hit new_account_large_transfer flag
    else none)

unfoldable pub rule_novel_receiver_high_amount : Rule
rule_novel_receiver_high_amount t i =
    branch
      (leb_ℤ i.amount (pos 10_000_000) || i.sender_user_id == no_id || i.receiver_user_id == no_id)
      (pure none)
      (do
        seen ← exists_transfer_between i.sender_user_id i.receiver_user_id
        pure (if seen then none else hit novel_receiver_high_amount flag))

-- int64 division, which truncates towards zero
abbrev quotient : ℤ → ℕ → ℤ
quotient (pos n) d = pos (n / d)
quotient (negsuc n) d = sub_ℕ 0 (suc n / d)

-- `(limit * HighDailySharePercent) / 100` of a positive limit
unfoldable pub daily_share : ℤ → ℤ
daily_share limit = quotient (wrap_int64 (pos (pos_part limit * 80))) 100

unfoldable pub rule_high_daily_share : Rule
unfolding daily_share
rule_high_daily_share t i =
    branch
      (i.sender_user_id == no_id
        || leb_ℤ i.daily_tier_limit (pos 0)
        || ltb_ℤ (pos 1_000_000_000_000_000_000) i.daily_tier_limit)
      (pure none)
      (do
        spent ← sum_sender_transfers_today t.zones t.now i.sender_user_id
        pure (
            if ltb_ℤ (daily_share i.daily_tier_limit) (wrap_int64 (spent +ℤ i.amount))
            then hit high_daily_share flag
            else none))

unfoldable pub default_rules : List Rule
default_rules =
    rule_velocity_sender_1m ∷ rule_velocity_sender_1h ∷ rule_new_account_large_transfer
    ∷ rule_novel_receiver_high_amount ∷ rule_high_daily_share ∷ []

abbrev add_hit : Option RuleHit → List RuleHit → List RuleHit
add_hit none hits = hits
add_hit (some h) hits = h ∷ hits

-- The rules in turn; an error of one ends the scoring.
unfoldable pub run_rules : List Rule → Instant → ScoreInput → M (List RuleHit)
run_rules [] t i = pure []
run_rules (r ∷ rules) t i = do h ← r t i; hits ← run_rules rules t i; pure (add_hit h hits)

abbrev pub is_block : Severity → Bool
is_block block = true
is_block flag = false

abbrev pub is_flag : Severity → Bool
is_flag block = false
is_flag flag = true

-- The first hit of a severity.
unfoldable pub first_hit : (Severity → Bool) → List RuleHit → Option RuleName
first_hit wanted [] = none
first_hit wanted (h ∷ hits) = if wanted h.severity then some h.name else first_hit wanted hits

-- Any BLOCK wins, else any FLAG, else ALLOW.
unfoldable pub combine : List RuleHit → Score
unfolding first_hit
combine hits = elim (first_hit is_block hits) [
  | some name ↦ record { decision = blocked; rule = some name; rule_hits = hits }
  | none ↦ elim (first_hit is_flag hits) [
    | some name ↦ record { decision = flagged; rule = some name; rule_hits = hits }
    | none ↦ record { decision = allow; rule = none; rule_hits = hits }
  ]
]

unfoldable pub score_transfer : Instant → ScoreInput → M Score
unfolding combine run_rules default_rules
score_transfer t i = do hits ← run_rules default_rules t i; pure (combine hits)
