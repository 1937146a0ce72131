-- ===== src/Scoring/Markets/Winners.antt =====
-- How many selections of each market are correct, for every result.
use make_we_bet.Prelude.{ℕ, ◌≡◌, ◌&&◌, leb, if◌then◌else◌}
use make_we_bet.Contracts.{
  MarketType, match_winner, double_chance, over_under_25, btts, first_half_winner,
  first_team_to_score, winning_margin, clean_sheet, exact_goals, correct_score,
}
use make_we_bet.Scoring.Markets.{FinalResult}
use make_we_bet.Scoring.Markets.Partition.{
  winners, winners-match_winner, winners-double_chance, winners-over_under_25, winners-btts,
  winners-first_half_winner, winners-first_team_to_score, winners-winning_margin,
  winners-clean_sheet, winners-exact_goals,
}
use make_we_bet.Scoring.Markets.CorrectScore.{winners-correct_score}

-- Two double chances cover each outcome; a correct score of ten goals or more is out of scope.
abbrev pub expected_winners : MarketType → FinalResult → ℕ
expected_winners double_chance r = 2
expected_winners correct_score r = if leb r.home_goals 9 && leb r.away_goals 9 then 1 else 0
expected_winners _ r = 1

-- For every result, of the selections that the schema of a market admits exactly one is scored
-- correct; of double chance exactly two are; and of correct score one is if neither side has more
-- than nine goals, and none otherwise.
pub winners-eq-expected : (m : MarketType) (r : FinalResult) → winners m r ≡ expected_winners m r
winners-eq-expected match_winner r = winners-match_winner r
winners-eq-expected double_chance r = winners-double_chance r
winners-eq-expected over_under_25 r = winners-over_under_25 r
winners-eq-expected btts r = winners-btts r
winners-eq-expected first_half_winner r = winners-first_half_winner r
winners-eq-expected first_team_to_score r = winners-first_team_to_score r
winners-eq-expected winning_margin r = winners-winning_margin r
winners-eq-expected clean_sheet r = winners-clean_sheet r
winners-eq-expected exact_goals r = winners-exact_goals r
winners-eq-expected correct_score r = winners-correct_score r
