-- ===== src/Examples/Football.antt =====
-- Sports data and the difficulty of a fixture at concrete inputs.
use make_we_bet.Prelude.{
  arith, ℕ, ◌+◌, ◌^◌, ◌≤◌, ◌≡◌, refl, true, false, keys, none, some, List, [], ◌∷◌, pos,
}
use make_we_bet.Errors.{ok}
use make_we_bet.Contracts.{home}
use make_we_bet.Database.{scheduled, finished, Db}
use make_we_bet.Entries.{stars_of}
use make_we_bet.Difficulty.{
  DifficultyInput, FormResult, TeamFormInput, win, draw, loss, form, head_to_head_signal, Weights,
  injuries, Signals, weight_sum_from, score_from, weighted_score, score_to_stars,
}
use make_we_bet.Difficulty.Double.{rounded, plus, times, over, literal}
use make_we_bet.Difficulty.Order.{signal, no_signal, score_to_stars-weighted_score}
use make_we_bet.Difficulty.Service.{compute_for_fixture}
use make_we_bet.Difficulty.Override.{compute_for_fixture-stars_of}
use make_we_bet.Sports.FootballData.{FdTeam, FdMatch, derive_first_to_score}
use make_we_bet.Sports.Mapping.{Agrees, derive_first_to_score-Agrees}
use make_we_bet.Sports.Port.{CanonicalFixture}
use make_we_bet.Sports.Sync.{resolve_league, resolve_team, upsert_fixture}
use make_we_bet.Sports.Resync.{Shows, upsert_fixture-Shows, upsert_fixture-upsert_fixture}
use make_we_bet.Examples.{some_ledger, empty_db}

abbrev side : List FormResult → TeamFormInput
side last5 = record {
  last5 = last5;
  league_position = some 3;
  goal_difference = some (pos 4);
  goals_scored_last5 = none;
  goals_conceded_last5 = none;
  injuries_count = some 2;
  suspensions_count = none;
}

abbrev two_sides : DifficultyInput
two_sides = record {
  home_form = some (side (win ∷ draw ∷ []));
  away_form = some (side (loss ∷ []));
  head_to_head = none;
  home_win_rate = some (literal 1 2);
  table_size = some 20;
}

abbrev weights : Weights
weights = (form, literal 3 10) ∷ (head_to_head_signal, literal 2 10) ∷ []

-- Every signal at one, with the weights 0.95, 0.55 and 0.55: the score is the least double above one.
abbrev ones : Signals
ones = (form, literal 1 1) ∷ (head_to_head_signal, literal 1 1) ∷ (injuries, literal 1 1) ∷ []

abbrev uneven : Weights
uneven =
    (form, literal 95 100) ∷ (head_to_head_signal, literal 55 100) ∷ (injuries, literal 55 100) ∷ []

above_one : weighted_score ones uneven ≡ 2 ^ 1074 + 2 ^ 1022
unfolding weighted_score weight_sum_from score_from literal plus times over rounded
above_one = refl

-- The weights 0.14 and 0.10, and the same times five.
abbrev two_weights : ℕ → Weights
two_weights c =
    (form, times (literal 14 100) (literal c 1))
    ∷ (head_to_head_signal, times (literal 10 100) (literal c 1))
    ∷ []

abbrev six_tenths : Signals
six_tenths = (form, literal 6 10) ∷ (head_to_head_signal, literal 6 10) ∷ []

four_stars : score_to_stars (weighted_score six_tenths (two_weights 1)) ≡ 4
unfolding score_to_stars weighted_score weight_sum_from score_from literal plus times over rounded
four_stars = refl

three_stars : score_to_stars (weighted_score six_tenths (two_weights 5)) ≡ 3
unfolding score_to_stars weighted_score weight_sum_from score_from literal plus times over rounded
three_stars = refl

zero_le : (n : ℕ) → 0 ≤ n
zero_le n = omega arith

le_refl : (n : ℕ) → n ≤ n
le_refl n = omega arith

-- The same signals, the first of them smaller.
abbrev one_smaller : Signals
one_smaller = (form, 0) ∷ (head_to_head_signal, literal 6 10) ∷ []

score_to_stars-weighted_score_example :
    score_to_stars (weighted_score one_smaller (two_weights 1))
    ≤ score_to_stars (weighted_score six_tenths (two_weights 1))
score_to_stars-weighted_score_example = score_to_stars-weighted_score (two_weights 1) (
    signal form (zero_le (literal 6 10))
      (signal head_to_head_signal (le_refl (literal 6 10)) no_signal))

-- An administrator gave fixture 4 five stars.
abbrev difficulty_db : Db
difficulty_db = record (empty_db some_ledger) {
  fixtures =
      (
        4,
        record {
          league_id = 0;
          home_team_id = 1;
          away_team_id = 2;
          kickoff_at = 100;
          status = scheduled;
          home_goals = none;
          away_goals = none;
          ht_home_goals = none;
          ht_away_goals = none;
          first_to_score = none;
          result_finalized_at = none;
        },
      )
      ∷ [];
  weight_sets = (0, record { weights = weights; is_active = true }) ∷ [];
  difficulties = (4, record { stars = 2; override_stars = some 5; weight_set_id = 0 }) ∷ [];
}

compute_for_fixture-stars_of_example :
    stars_of 4
      (compute_for_fixture (λ team. ok none) (λ one other. ok none) 4 difficulty_db).1.difficulties
    ≡ 5
compute_for_fixture-stars_of_example =
    compute_for_fixture-stars_of (λ team. ok none) (λ one other. ok none) 4 4 difficulty_db refl
      refl

abbrev club : ℕ → FdTeam
club id = record { id = some id; name = some "club"; short_name = none; tla = none; crest = none }

-- Club 1 beats club 2 by two goals to none.
abbrev two_nil : FdMatch
two_nil = record {
  id = 9;
  utc_date = 0;
  status = "FINISHED";
  competition_id = none;
  competition_name = none;
  area_name = none;
  home_team = club 1;
  away_team = club 2;
  full_time_home = some 2;
  full_time_away = some 0;
  half_time_home = some 1;
  half_time_away = some 0;
  goals = [];
}

derive_first_to_score-Agrees_example : Agrees home 2 0
unfolding derive_first_to_score
derive_first_to_score-Agrees_example = derive_first_to_score-Agrees two_nil 2 0 home refl refl refl

-- Fixture 4 is the provider's match 9, in league 0, of the teams 1 and 2.
abbrev synced : CanonicalFixture
synced = record {
  provider_ref = "9";
  league_ref = "2021";
  league_name = some "League";
  league_country = none;
  home_team = record { provider_ref = "1"; name = some "one"; short_name = none; logo_url = none };
  away_team = record { provider_ref = "2"; name = some "two"; short_name = none; logo_url = none };
  kickoff_at = 100;
  status = finished;
  home_goals = some 2;
  away_goals = some 1;
  ht_home_goals = some 0;
  ht_away_goals = some 0;
  first_to_score = none;
}

upsert_fixture-upsert_fixture_example :
    let after = (upsert_fixture synced (empty_db some_ledger)).1 in
    let again = upsert_fixture synced after in
    (again.0 ≡ ok false)
    × (again.1 ≡ record after { fixtures = again.1.fixtures })
    × (keys again.1.fixtures ≡ keys after.fixtures)
    × (upsert_fixture synced again.1 ≡ again)
unfolding upsert_fixture resolve_league resolve_team
upsert_fixture-upsert_fixture_example =
    upsert_fixture-upsert_fixture synced (empty_db some_ledger) refl

-- A later answer, with another result.
abbrev corrected : CanonicalFixture
corrected = record synced { home_goals = some 3 }

upsert_fixture-Shows_example :
    let after = (upsert_fixture synced (empty_db some_ledger)).1 in
    ((upsert_fixture corrected after).0 ≡ ok false)
    × Shows corrected after (upsert_fixture corrected after).1
unfolding upsert_fixture resolve_league resolve_team
upsert_fixture-Shows_example =
    upsert_fixture-Shows synced corrected (empty_db some_ledger) refl
      (record { same_fixture = refl; same_league = refl; same_home = refl; same_away = refl })
