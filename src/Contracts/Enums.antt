-- ===== src/Contracts/Enums.antt =====
-- packages/contracts/src/enums.ts and events.ts.
use make_we_bet.Prelude.{
  if◌then◌else◌, ◌≡◌, refl, sym, ap, ◌∙◌, true, arith, ℕ, Bool, List, [], ◌∷◌, ◌==◌,
}

pub data DifficultyTier : Type 0 where
  easy medium hard expert : DifficultyTier

pub data MarketType : Type 0 where
  match_winner double_chance : MarketType
  over_under_25 btts first_half_winner first_team_to_score : MarketType
  winning_margin clean_sheet exact_goals : MarketType
  correct_score : MarketType

pub data ContestStatus : Type 0 where
  draft published locked scoring scored settled archived cancelled : ContestStatus

pub data RiskProfile : Type 0 where
  safe balanced aggressive : RiskProfile

pub data FirstToScore : Type 0 where
  home away neither : FirstToScore

abbrev pub market_tier : MarketType → DifficultyTier
market_tier match_winner = easy
market_tier double_chance = easy
market_tier over_under_25 = medium
market_tier btts = medium
market_tier first_half_winner = medium
market_tier first_team_to_score = medium
market_tier winning_margin = hard
market_tier clean_sheet = hard
market_tier exact_goals = hard
market_tier correct_score = expert

abbrev pub markets_by_tier : DifficultyTier → List MarketType
markets_by_tier easy = match_winner ∷ double_chance ∷ []
markets_by_tier medium = over_under_25 ∷ btts ∷ first_half_winner ∷ first_team_to_score ∷ []
markets_by_tier hard = winning_margin ∷ clean_sheet ∷ exact_goals ∷ []
markets_by_tier expert = correct_score ∷ []

-- The positions of the members, by which they are compared.
abbrev tier_index : DifficultyTier → ℕ
tier_index easy = 0
tier_index medium = 1
tier_index hard = 2
tier_index expert = 3

abbrev pub tier_eq : DifficultyTier → DifficultyTier → Bool
tier_eq a b = tier_index a == tier_index b

abbrev market_index : MarketType → ℕ
market_index match_winner = 0
market_index double_chance = 1
market_index over_under_25 = 2
market_index btts = 3
market_index first_half_winner = 4
market_index first_team_to_score = 5
market_index winning_margin = 6
market_index clean_sheet = 7
market_index exact_goals = 8
market_index correct_score = 9

abbrev pub market_eq : MarketType → MarketType → Bool
market_eq a b = market_index a == market_index b

abbrev status_index : ContestStatus → ℕ
status_index draft = 0
status_index published = 1
status_index locked = 2
status_index scoring = 3
status_index scored = 4
status_index settled = 5
status_index archived = 6
status_index cancelled = 7

abbrev pub status_eq : ContestStatus → ContestStatus → Bool
status_eq a b = status_index a == status_index b

-- The topics of events.ts that the modelled services emit or handle, with their payloads.
pub data Event : Type 0 where
  contest_published contest_locked contest_cancelled contest_scored : ℕ → Event
  entry_paid match_result_finalized prediction_scored prizes_distributed : ℕ → Event
  user_registered wallet_credited withdrawal_requested withdrawal_paid fixture_synced : ℕ → Event
  transfer_success transfer_failed transfer_reversed : ℕ → Event

market_at : ℕ → MarketType
market_at n =
    if n == 0
    then match_winner
    else if n == 1
    then double_chance
    else if n == 2
    then over_under_25
    else if n == 3
    then btts
    else if n == 4
    then first_half_winner
    else if n == 5
    then first_team_to_score
    else if n == 6
    then winning_margin
    else if n == 7
    then clean_sheet
    else if n == 8
    then exact_goals
    else correct_score

market_at-market_index : (m : MarketType) → market_at (market_index m) ≡ m
unfolding market_at
market_at-market_index match_winner = refl
market_at-market_index double_chance = refl
market_at-market_index over_under_25 = refl
market_at-market_index btts = refl
market_at-market_index first_half_winner = refl
market_at-market_index first_team_to_score = refl
market_at-market_index winning_margin = refl
market_at-market_index clean_sheet = refl
market_at-market_index exact_goals = refl
market_at-market_index correct_score = refl

pub market_eq→eq : (a b : MarketType) → market_eq a b ≡ true → a ≡ b
market_eq→eq a b h =
    sym (market_at-market_index a) ∙ ap market_at (ground arith) ∙ market_at-market_index b
