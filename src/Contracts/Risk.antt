-- ===== src/Contracts/Risk.antt =====
-- packages/contracts/src/risk.ts. The source computes in floats; here a risk is a whole number of
-- ten-thousandths, in which every constant of the source is exact, and the percentage is the
-- exact quotient rounded half up.
use make_we_bet.Prelude.{
  ℕ, ◌+◌, ◌-◌, ◌*◌, ◌/◌, min, max, Option, none, some, List, [], ◌∷◌, leb, ◌==◌, if◌then◌else◌,
  sum_by,
}
use make_we_bet.Contracts.Enums.{
  MarketType, match_winner, double_chance, over_under_25, btts, first_half_winner,
  first_team_to_score, winning_margin, clean_sheet, exact_goals, correct_score, RiskProfile, safe,
  balanced, aggressive,
}

-- `MARKET_BASE_RISK`, in hundredths
abbrev pub market_base_risk : MarketType → ℕ
market_base_risk match_winner = 35
market_base_risk double_chance = 18
market_base_risk over_under_25 = 42
market_base_risk btts = 42
market_base_risk first_half_winner = 50
market_base_risk first_team_to_score = 48
market_base_risk winning_margin = 68
market_base_risk clean_sheet = 62
market_base_risk exact_goals = 72
market_base_risk correct_score = 88

pub record RiskSlotInput : Type 0 where
  pub market_type : MarketType
  pub stars : ℕ
  pub points_x10 : ℕ

-- `risk_pct` is `none` where the source computes 0 / 0.
pub record RiskMeterResult : Type 0 where
  pub profile : RiskProfile
  pub risk_pct : Option ℕ
  pub max_potential_score_x10 : ℕ

-- `clamp01`, the unit being 10000
abbrev clamp01 : ℕ → ℕ
clamp01 n = min 10000 n

-- 0.55 of the market's risk and 0.45 of (stars - 1) / 4
unfoldable pub slot_risk : MarketType → ℕ → ℕ
slot_risk market stars = clamp01 (55 * market_base_risk market + 1125 * (min 5 (max 1 stars) - 1))

abbrev pub slot_points : RiskSlotInput → ℕ
slot_points s = s.points_x10

abbrev pub weighted_risk : RiskSlotInput → ℕ
weighted_risk s = slot_risk s.market_type s.stars * s.points_x10

-- `Math.round((weighted / totalPoints) * 100)`
unfoldable pub risk_percentage : ℕ → ℕ → Option ℕ
risk_percentage weighted total =
    if total == 0 then none else some ((2 * weighted + 100 * total) / (200 * total))

-- NaN is below no threshold.
abbrev pub profile_of : Option ℕ → RiskProfile
profile_of none = aggressive
profile_of (some pct) = if leb pct 40 then safe else if leb pct 65 then balanced else aggressive

unfoldable pub compute_risk_meter : List RiskSlotInput → RiskMeterResult
compute_risk_meter [] = record { profile = safe; risk_pct = some 0; max_potential_score_x10 = 0 }
compute_risk_meter (s ∷ ss) =
    let total = sum_by slot_points (s ∷ ss) in
    let pct = risk_percentage (sum_by weighted_risk (s ∷ ss)) total in
    record { profile = profile_of pct; risk_pct = pct; max_potential_score_x10 = total }
