-- ===== src/Contracts/Points.antt =====
-- packages/contracts/src/scoring.ts: points in units of a tenth.
use make_we_bet.Prelude.{ℕ, ◌+◌, ◌*◌, ◌/◌, ◌%◌, ◌==◌, if◌then◌else◌}
use make_we_bet.Contracts.Enums.{
  DifficultyTier, easy, medium, hard, expert, MarketType, match_winner, double_chance,
  over_under_25, btts, first_half_winner, first_team_to_score, winning_margin, clean_sheet,
  exact_goals, correct_score,
}
use make_we_bet.Contracts.Text.{String, concat, to_text}

abbrev pub points_scale : ℕ
points_scale = 10

abbrev pub slot_distribution : DifficultyTier → ℕ
slot_distribution easy = 2
slot_distribution medium = 3
slot_distribution hard = 3
slot_distribution expert = 2

abbrev pub total_slots : ℕ
total_slots = 10

abbrev pub default_tier_points_x10 : DifficultyTier → ℕ
default_tier_points_x10 easy = 50
default_tier_points_x10 medium = 100
default_tier_points_x10 hard = 150
default_tier_points_x10 expert = 325

abbrev pub default_market_points_x10 : MarketType → ℕ
default_market_points_x10 match_winner = 50
default_market_points_x10 double_chance = 50
default_market_points_x10 over_under_25 = 100
default_market_points_x10 btts = 100
default_market_points_x10 first_half_winner = 100
default_market_points_x10 first_team_to_score = 100
default_market_points_x10 winning_margin = 150
default_market_points_x10 clean_sheet = 150
default_market_points_x10 exact_goals = 150
default_market_points_x10 correct_score = 325

abbrev pub max_score_x10 : ℕ
max_score_x10 = 1500

-- `formatPoints`, for the points of a slip, which are not negative.
unfoldable pub format_points : ℕ → String
unfolding to_text
format_points points =
    let whole = points / points_scale in
    let frac = points % points_scale in
    if frac == 0 then to_text whole else concat (to_text whole) (concat "." (to_text frac))

unfoldable pub slip_max_score_x10 : (DifficultyTier → ℕ) → (DifficultyTier → ℕ) → ℕ
slip_max_score_x10 tier_points distribution =
    distribution easy * tier_points easy
    + distribution medium * tier_points medium
    + distribution hard * tier_points hard
    + distribution expert * tier_points expert
