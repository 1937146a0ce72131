-- ===== src/Sports/Sync.antt =====
-- SyncService of apps/api/src/modules/sports/sync.service.ts: the provider's fixtures become rows,
-- which the provider's references find again.
use make_we_bet.Prelude.{
  ℕ, suc, Bool, true, false, Option, none, some, List, [], ◌∷◌, lookup, insert, fresh, find?,
}
use make_we_bet.Errors.{type_error, record_not_found}
use make_we_bet.Contracts.{String, ◌===◌, concat, fixture_synced}
use make_we_bet.Database.{
  Fixture, League, ProviderRef, Action, ◌>>=◌, ◌>>◌, return, tables, write, found, emit,
}
use make_we_bet.Sports.Port.{CanonicalTeam, CanonicalFixture}

-- `findUnique({ where: { provider_providerRef: { provider, providerRef } } })`
abbrev pub find_ref : String → List ProviderRef → Option ProviderRef
find_ref ref refs = find? (λ r. r.provider_ref === ref) refs

abbrev or_text : Option String → String → String
or_text none d = d
or_text (some s) d = s

abbrev pub create_league : CanonicalFixture → Action ℕ
create_league c = do
  db ← tables
  let id = fresh db.leagues
  let league : League = record {
    name = or_text c.league_name (concat "League " c.league_ref);
    country = or_text c.league_country "Unknown";
  }
  let ref : ProviderRef = record { provider_ref = c.league_ref; target_id = id }
  write λ d. record d { leagues = insert id league d.leagues; league_refs = ref ∷ d.league_refs }
  return id

abbrev pub league_or_new : CanonicalFixture → Option ProviderRef → Action ℕ
league_or_new c (some r) = return r.target_id
league_or_new c none = create_league c

unfoldable pub resolve_league : CanonicalFixture → Action ℕ
resolve_league c = do db ← tables; league_or_new c (find_ref c.league_ref db.league_refs)

-- A team without a name is refused by Prisma.
abbrev pub create_team : CanonicalTeam → Action ℕ
create_team t = do
  db ← tables
  name ← found t.name type_error
  let id = fresh db.teams
  let ref : ProviderRef = record { provider_ref = t.provider_ref; target_id = id }
  write λ d. record d {
    teams = insert id (record { name = name }) d.teams;
    team_refs = ref ∷ d.team_refs;
  }
  return id

abbrev pub team_or_new : CanonicalTeam → Option ProviderRef → Action ℕ
team_or_new t (some r) = return r.target_id
team_or_new t none = create_team t

unfoldable pub resolve_team : CanonicalTeam → Action ℕ
resolve_team t = do db ← tables; team_or_new t (find_ref t.provider_ref db.team_refs)

-- The columns of `data`.
abbrev pub with_canonical : CanonicalFixture → Fixture → Fixture
with_canonical c f = record f {
  kickoff_at = c.kickoff_at;
  status = c.status;
  home_goals = c.home_goals;
  away_goals = c.away_goals;
  ht_home_goals = c.ht_home_goals;
  ht_away_goals = c.ht_away_goals;
}

abbrev pub new_fixture : CanonicalFixture → ℕ → ℕ → ℕ → Fixture
new_fixture c league home_team away_team = record {
  league_id = league;
  home_team_id = home_team;
  away_team_id = away_team;
  kickoff_at = c.kickoff_at;
  status = c.status;
  home_goals = none;
  away_goals = none;
  ht_home_goals = none;
  ht_away_goals = none;
  first_to_score = none;
  result_finalized_at = none;
}

abbrev pub update_fixture : ℕ → CanonicalFixture → Action Unit
update_fixture id c = do
  db ← tables
  f ← found (lookup id db.fixtures) record_not_found
  write λ d. record d { fixtures = insert id (with_canonical c f) d.fixtures }

abbrev pub create_fixture : CanonicalFixture → ℕ → ℕ → ℕ → Action Unit
create_fixture c league home_team away_team = do
  db ← tables
  let id = fresh db.fixtures
  let ref : ProviderRef = record { provider_ref = c.provider_ref; target_id = id }
  write λ d. record d {
    fixtures = insert id (new_fixture c league home_team away_team) d.fixtures;
    fixture_refs = ref ∷ d.fixture_refs;
  }
  emit (fixture_synced id)

-- Whether the fixture is new.
abbrev pub update_or_create : CanonicalFixture → ℕ → ℕ → ℕ → Option ProviderRef → Action Bool
update_or_create c league home_team away_team (some r) =
    update_fixture r.target_id c >> return false
update_or_create c league home_team away_team none =
    create_fixture c league home_team away_team >> return true

unfoldable pub upsert_fixture : CanonicalFixture → Action Bool
unfolding resolve_league resolve_team
upsert_fixture c = do
  db ← tables
  league ← resolve_league c
  home_team ← resolve_team c.home_team
  away_team ← resolve_team c.away_team
  update_or_create c league home_team away_team (find_ref c.provider_ref db.fixture_refs)

abbrev counted_in : Bool → ℕ × ℕ → ℕ × ℕ
counted_in true (created, updated) = (suc created, updated)
counted_in false (created, updated) = (created, suc updated)

abbrev pub sync_from : ℕ × ℕ → List CanonicalFixture → Action (ℕ × ℕ)
sync_from n [] = return n
sync_from n (c ∷ cs) = do is_new ← upsert_fixture c; sync_from (counted_in is_new n) cs

-- `syncDate`, of the fixtures that the provider answers: how many were created and updated
unfoldable pub sync_date : List CanonicalFixture → Action (ℕ × ℕ)
unfolding upsert_fixture
sync_date cs = sync_from (0, 0) cs
