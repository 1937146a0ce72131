-- ===== src/Sports/Port.antt =====
-- The canonical shapes of apps/api/src/modules/sports/ports/sports-data.port.ts. The forms of the
-- teams and the meetings of two teams have the shapes of the difficulty engine's input.
use make_we_bet.Prelude.{ℕ, Option}
use make_we_bet.Contracts.{FirstToScore, String}
use make_we_bet.Database.{FixtureStatus}

pub record CanonicalTeam : Type 0 where
  pub provider_ref : String
  pub name : Option String
  pub short_name : Option String
  pub logo_url : Option String

pub record CanonicalFixture : Type 0 where
  pub provider_ref : String
  pub league_ref : String
  pub league_name : Option String
  pub league_country : Option String
  pub home_team : CanonicalTeam
  pub away_team : CanonicalTeam
  pub kickoff_at : ℕ
  pub status : FixtureStatus
  pub home_goals : Option ℕ
  pub away_goals : Option ℕ
  pub ht_home_goals : Option ℕ
  pub ht_away_goals : Option ℕ
  pub first_to_score : Option FirstToScore
