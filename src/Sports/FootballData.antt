-- ===== src/Sports/FootballData.antt =====
-- The mapping of apps/api/src/modules/sports/adapters/football-data.adapter.ts, from what the
-- provider answers to the canonical shapes. The requests, their pace and their cache are outside:
-- the matches that an answer holds are arguments, and `new Date(utcDate)` is an instant.
use make_we_bet.Prelude.{
  ℕ, zero, suc, ◌+◌, ◌-◌, ◌*◌, Bool, true, false, ◌&&◌, ◌||◌, Option, none, some, List, [], ◌∷◌,
  map, ltb, ◌==◌, if◌then◌else◌, length, keep, sum_by,
}
use make_we_bet.Contracts.{FirstToScore, home, away, neither, String, ◌===◌, to_text}
use make_we_bet.Database.{FixtureStatus, scheduled, live, finished, postponed, cancelled_fixture}
use make_we_bet.Difficulty.{FormResult, win, draw, loss, TeamFormInput, HeadToHead}
use make_we_bet.Sports.Port.{CanonicalTeam, CanonicalFixture}

pub record FdTeam : Type 0 where
  pub id : Option ℕ
  pub name : Option String
  pub short_name : Option String
  pub tla : Option String
  pub crest : Option String

pub record FdGoal : Type 0 where
  pub minute : Option ℕ
  pub injury_time : Option ℕ
  pub team_id : ℕ

pub record FdMatch : Type 0 where
  pub id : ℕ
  pub utc_date : ℕ
  pub status : String
  pub competition_id : Option ℕ
  pub competition_name : Option String
  pub area_name : Option String
  pub home_team : FdTeam
  pub away_team : FdTeam
  pub full_time_home : Option ℕ
  pub full_time_away : Option ℕ
  pub half_time_home : Option ℕ
  pub half_time_away : Option ℕ
  -- empty where the feed is missing
  pub goals : List FdGoal

-- `STATUS_MAP[status] ?? 'SCHEDULED'`
unfoldable pub status_of : String → FixtureStatus
status_of s =
    if (s === "IN_PLAY") || (s === "PAUSED")
    then live
    else if (s === "FINISHED") || (s === "AWARDED")
    then finished
    else if (s === "POSTPONED") || (s === "SUSPENDED")
    then postponed
    else if s === "CANCELLED"
    then cancelled_fixture
    else scheduled

-- `!== null`
abbrev pub is_known : {A : Type 0} → Option A → Bool
is_known none = false
is_known (some _) = true

unfoldable pub has_known_teams : FdMatch → Bool
has_known_teams m =
    is_known m.home_team.id
    && (is_known m.home_team.name && (is_known m.away_team.id && is_known m.away_team.name))

-- `String(id)`
abbrev pub id_text : Option ℕ → String
id_text none = "null"
id_text (some n) = to_text n

abbrev league_ref_of : Option ℕ → String
league_ref_of none = "unknown"
league_ref_of (some n) = to_text n

-- `a ?? b`
abbrev pub or_else : {A : Type 0} → Option A → Option A → Option A
or_else none b = b
or_else (some a) b = some a

abbrev pub or_zero : Option ℕ → ℕ
or_zero none = 0
or_zero (some n) = n

-- The order of the goals: stoppage time comes before the next minute.
abbrev pub goal_key : FdGoal → ℕ
goal_key g = or_zero g.minute * 100 + or_zero g.injury_time

abbrev pub earlier : FdGoal → Option FdGoal → FdGoal
earlier g none = g
earlier g (some h) = if ltb (goal_key h) (goal_key g) then h else g

-- The first of the goals after the stable sort by their keys.
abbrev pub first_goal : List FdGoal → Option FdGoal
first_goal [] = none
first_goal (g ∷ goals) = some (earlier g (first_goal goals))

abbrev pub scorer_of : FdMatch → Option FdGoal → Option FirstToScore
scorer_of m none = none
scorer_of m (some g) = some (if to_text g.team_id === id_text m.home_team.id then home else away)

-- The full-time goals of both sides are known.
abbrev pub first_of : FdMatch → ℕ → ℕ → Option FirstToScore
first_of m zero zero = some neither
first_of m (suc h) zero = some home
first_of m zero (suc a) = some away
first_of m (suc h) (suc a) = scorer_of m (first_goal m.goals)

abbrev pub first_if_known : FdMatch → Option ℕ → Option ℕ → Option FirstToScore
first_if_known m none a = none
first_if_known m (some h) none = none
first_if_known m (some h) (some a) = first_of m h a

unfoldable pub derive_first_to_score : FdMatch → Option FirstToScore
derive_first_to_score m = first_if_known m m.full_time_home m.full_time_away

abbrev canonical_team : FdTeam → CanonicalTeam
canonical_team t = record {
  provider_ref = id_text t.id;
  name = t.name;
  short_name = or_else t.tla t.short_name;
  logo_url = t.crest;
}

unfoldable pub to_canonical_fixture : FdMatch → CanonicalFixture
unfolding status_of derive_first_to_score
to_canonical_fixture m = record {
  provider_ref = to_text m.id;
  league_ref = league_ref_of m.competition_id;
  league_name = m.competition_name;
  league_country = m.area_name;
  home_team = canonical_team m.home_team;
  away_team = canonical_team m.away_team;
  kickoff_at = m.utc_date;
  status = status_of m.status;
  home_goals = m.full_time_home;
  away_goals = m.full_time_away;
  ht_home_goals = m.half_time_home;
  ht_away_goals = m.half_time_away;
  first_to_score = derive_first_to_score m;
}

-- `getFixturesByDate`, of the matches in the answer
unfoldable pub fixtures_of : List FdMatch → List CanonicalFixture
unfolding has_known_teams to_canonical_fixture
fixtures_of matches = map to_canonical_fixture (keep has_known_teams matches)

abbrev pub drop : {A : Type 0} → ℕ → List A → List A
drop zero xs = xs
drop (suc n) [] = []
drop (suc n) (x ∷ xs) = drop n xs

-- `xs.slice(-n)`
abbrev pub last_of : {A : Type 0} → ℕ → List A → List A
last_of n xs = drop (length xs - n) xs

abbrev is_home : String → FdMatch → Bool
is_home team m = id_text m.home_team.id === team

abbrev pub goals_for : String → FdMatch → ℕ
goals_for team m = or_zero (if is_home team m then m.full_time_home else m.full_time_away)

abbrev pub goals_against : String → FdMatch → ℕ
goals_against team m = or_zero (if is_home team m then m.full_time_away else m.full_time_home)

abbrev pub result_for : String → FdMatch → FormResult
result_for team m =
    if ltb (goals_against team m) (goals_for team m)
    then win
    else if ltb (goals_for team m) (goals_against team m)
    then loss
    else draw

unfoldable pub form_from_matches : String → List FdMatch → TeamFormInput
form_from_matches team matches =
    let recent = last_of 5 matches in
    record {
      last5 = map (result_for team) recent;
      league_position = none;
      goal_difference = none;
      goals_scored_last5 = some (sum_by (goals_for team) recent);
      goals_conceded_last5 = some (sum_by (goals_against team) recent);
      injuries_count = none;
      suspensions_count = none;
    }

-- `getTeamForm`, of the matches in the answer
unfoldable pub team_form : String → List FdMatch → Option TeamFormInput
unfolding form_from_matches
team_form team [] = none
team_form team (m ∷ matches) = some (form_from_matches team (m ∷ matches))

abbrev pub no_meetings : HeadToHead
no_meetings = record { home_wins = 0; away_wins = 0; draws = 0; matches = 0 }

abbrev pub winner_ref : FdMatch → String
winner_ref m =
    if ltb (or_zero m.full_time_away) (or_zero m.full_time_home)
    then id_text m.home_team.id
    else id_text m.away_team.id

-- One turn of the loop.
abbrev pub tally_meeting : String → HeadToHead → FdMatch → HeadToHead
tally_meeting home_ref t m =
    if or_zero m.full_time_home == or_zero m.full_time_away
    then record t { draws = suc t.draws }
    else if winner_ref m === home_ref
    then record t { home_wins = suc t.home_wins }
    else record t { away_wins = suc t.away_wins }

abbrev pub tally_meetings : String → HeadToHead → List FdMatch → HeadToHead
tally_meetings home_ref t [] = t
tally_meetings home_ref t (m ∷ ms) = tally_meetings home_ref (tally_meeting home_ref t m) ms

unfoldable pub h2h_from_matches : String → List FdMatch → HeadToHead
h2h_from_matches home_ref meetings = record (tally_meetings home_ref no_meetings meetings) {
  matches = length meetings;
}

abbrev pub is_against : String → FdMatch → Bool
is_against away_ref m =
    (id_text m.home_team.id === away_ref) || (id_text m.away_team.id === away_ref)

abbrev pub if_any : String → List FdMatch → Option HeadToHead
if_any home_ref [] = none
if_any home_ref (m ∷ ms) = some (h2h_from_matches home_ref (m ∷ ms))

-- `getHeadToHead`, of the home team's history in the answer
unfoldable pub head_to_head_of : String → String → List FdMatch → Option HeadToHead
unfolding h2h_from_matches
head_to_head_of home_ref away_ref history =
    if_any home_ref (last_of 10 (keep (is_against away_ref) history))
