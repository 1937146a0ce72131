-- ===== src/Scoring/Markets.antt =====
-- apps/api/src/modules/scoring/engine/market-scorers.ts and types.ts: whether a selection is
-- correct for a final result.
pub mod Partition
pub mod CorrectScore
pub mod Winners
use make_we_bet.Prelude.{ℕ, ◌+◌, ◌-◌, Bool, true, false, not, ◌&&◌, ltb, leb, ◌==◌, if◌then◌else◌}
use make_we_bet.Contracts.{
  MarketType, match_winner, double_chance, over_under_25, btts, first_half_winner,
  first_team_to_score, winning_margin, clean_sheet, exact_goals, correct_score, FirstToScore, home,
  away, neither, String, ◌===◌, concat, to_text,
}

-- Goals are natural numbers: the finalization schema admits no others.
pub record FinalResult : Type 0 where
  pub home_goals : ℕ
  pub away_goals : ℕ
  pub ht_home_goals : ℕ
  pub ht_away_goals : ℕ
  pub first_to_score : FirstToScore

unfoldable pub outcome : ℕ → ℕ → String
outcome h a = if ltb a h then "HOME" else if ltb h a then "AWAY" else "DRAW"

unfoldable pub first_to_score_text : FirstToScore → String
first_to_score_text home = "HOME"
first_to_score_text away = "AWAY"
first_to_score_text neither = "NONE"

pub match_winner_scorer : String → FinalResult → Bool
match_winner_scorer sel r = sel === outcome r.home_goals r.away_goals

pub double_chance_scorer : String → FinalResult → Bool
double_chance_scorer sel r =
    let o = outcome r.home_goals r.away_goals in
    if sel === "HOME_OR_DRAW"
    then not (o === "AWAY")
    else if sel === "AWAY_OR_DRAW"
    then not (o === "HOME")
    else if sel === "HOME_OR_AWAY"
    then not (o === "DRAW")
    else false

pub over_under_25_scorer : String → FinalResult → Bool
over_under_25_scorer sel r =
    let total = r.home_goals + r.away_goals in
    if sel === "OVER" then leb 3 total else if sel === "UNDER" then leb total 2 else false

pub btts_scorer : String → FinalResult → Bool
btts_scorer sel r =
    let both = ltb 0 r.home_goals && ltb 0 r.away_goals in
    if sel === "YES" then both else if sel === "NO" then not both else false

pub first_half_winner_scorer : String → FinalResult → Bool
first_half_winner_scorer sel r = sel === outcome r.ht_home_goals r.ht_away_goals

pub first_team_to_score_scorer : String → FinalResult → Bool
first_team_to_score_scorer sel r =
    let mapped = if sel === "NO_GOAL" then "NONE" else sel in
    mapped === first_to_score_text r.first_to_score

-- `${side}_BY_${band}`
unfoldable pub banded : String → ℕ → String
banded side margin =
    let band = if leb 3 margin then "3_PLUS" else to_text margin in concat side (concat "_BY_" band)

-- `diff` is not zero; its absolute value is one of the two truncated differences.
unfoldable pub margin_text : ℕ → ℕ → String
margin_text h a =
    let side = if ltb a h then "HOME" else "AWAY" in
    let margin = (h - a) + (a - h) in banded side margin

pub winning_margin_scorer : String → FinalResult → Bool
winning_margin_scorer sel r =
    if r.home_goals == r.away_goals
    then sel === "DRAW"
    else sel === margin_text r.home_goals r.away_goals

-- The value of `actual`.
unfoldable pub clean_sheet_text : ℕ → ℕ → String
clean_sheet_text h a =
    let home_cs = a == 0 in
    let away_cs = h == 0 in
    if home_cs && away_cs
    then "BOTH"
    else if home_cs
    then "HOME"
    else if away_cs
    then "AWAY"
    else "NONE"

pub clean_sheet_scorer : String → FinalResult → Bool
clean_sheet_scorer sel r = sel === clean_sheet_text r.home_goals r.away_goals

-- `total >= 5 ? '5_PLUS' : String(total)`
unfoldable pub total_text : ℕ → String
total_text total = if leb 5 total then "5_PLUS" else to_text total

pub exact_goals_scorer : String → FinalResult → Bool
exact_goals_scorer sel r = sel === total_text (r.home_goals + r.away_goals)

unfoldable pub full_score : ℕ → ℕ → String
full_score h a = concat (to_text h) (concat "-" (to_text a))

pub correct_score_scorer : String → FinalResult → Bool
correct_score_scorer sel r = sel === full_score r.home_goals r.away_goals

-- `MARKET_SCORERS`
unfoldable pub market_scorer : MarketType → String → FinalResult → Bool
unfolding match_winner_scorer double_chance_scorer over_under_25_scorer btts_scorer
    first_half_winner_scorer first_team_to_score_scorer winning_margin_scorer clean_sheet_scorer
    exact_goals_scorer correct_score_scorer
market_scorer match_winner = match_winner_scorer
market_scorer double_chance = double_chance_scorer
market_scorer over_under_25 = over_under_25_scorer
market_scorer btts = btts_scorer
market_scorer first_half_winner = first_half_winner_scorer
market_scorer first_team_to_score = first_team_to_score_scorer
market_scorer winning_margin = winning_margin_scorer
market_scorer clean_sheet = clean_sheet_scorer
market_scorer exact_goals = exact_goals_scorer
market_scorer correct_score = correct_score_scorer

pub record Scored : Type 0 where
  pub is_correct : Bool
  pub points_x10 : ℕ

unfoldable pub score_prediction : MarketType → String → FinalResult → ℕ → Scored
unfolding market_scorer
score_prediction market selection result points =
    let is_correct = market_scorer market selection result in
    record { is_correct = is_correct; points_x10 = if is_correct then points else 0 }
