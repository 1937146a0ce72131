-- ===== src/Contracts/Markets.antt =====
-- packages/contracts/src/markets.ts: the selections that each market admits.
use make_we_bet.Prelude.{ℕ, Bool, List, [], ◌∷◌, ◌++◌, map, any}
use make_we_bet.Contracts.Enums.{
  MarketType, match_winner, double_chance, over_under_25, btts, first_half_winner,
  first_team_to_score, winning_margin, clean_sheet, exact_goals, correct_score,
}
use make_we_bet.Contracts.Text.{String, ◌===◌, concat, digit}

abbrev pub digits : List ℕ
digits = 0 ∷ 1 ∷ 2 ∷ 3 ∷ 4 ∷ 5 ∷ 6 ∷ 7 ∷ 8 ∷ 9 ∷ []

abbrev pub score_line : ℕ → ℕ → String
score_line h a = concat (digit h) (concat "-" (digit a))

abbrev score_lines : List ℕ → List String
score_lines [] = []
score_lines (h ∷ hs) = map (score_line h) digits ++ score_lines hs

-- `SELECTION_SCHEMAS`: the texts that each schema accepts. The pattern `^[0-9]-[0-9]$` of the
-- correct score accepts the hundred lines of two digits.
unfoldable pub selections : MarketType → List String
selections match_winner = "HOME" ∷ "DRAW" ∷ "AWAY" ∷ []
selections double_chance = "HOME_OR_DRAW" ∷ "AWAY_OR_DRAW" ∷ "HOME_OR_AWAY" ∷ []
selections over_under_25 = "OVER" ∷ "UNDER" ∷ []
selections btts = "YES" ∷ "NO" ∷ []
selections first_half_winner = "HOME" ∷ "DRAW" ∷ "AWAY" ∷ []
selections first_team_to_score = "HOME" ∷ "AWAY" ∷ "NO_GOAL" ∷ []
selections winning_margin =
    "HOME_BY_1" ∷ "HOME_BY_2" ∷ "HOME_BY_3_PLUS" ∷ "DRAW" ∷ "AWAY_BY_1" ∷ "AWAY_BY_2"
    ∷ "AWAY_BY_3_PLUS" ∷ []
selections clean_sheet = "HOME" ∷ "AWAY" ∷ "BOTH" ∷ "NONE" ∷ []
selections exact_goals = "0" ∷ "1" ∷ "2" ∷ "3" ∷ "4" ∷ "5_PLUS" ∷ []
selections correct_score = score_lines digits

unfoldable pub is_valid_selection : MarketType → String → Bool
unfolding selections
is_valid_selection market selection = any (λ s. selection === s) (selections market)
