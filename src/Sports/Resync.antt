-- ===== src/Sports/Resync.antt =====
-- A fixture that is synced again.
use make_we_bet.Prelude.{
  ℕ, ◌≡◌, refl, ap, ◌∙◌, Bool, false, Option, none, some, List, ◌∷◌, inl, inr, Bool-cases,
  Option-cases, lookup, insert, lookup-insert_self, insert-insert, fresh, keys, keys-insert,
}
use make_we_bet.Errors.{ok, err, type_error, record_not_found}
use make_we_bet.Contracts.{String, ◌===◌, ===_refl}
use make_we_bet.Database.{Fixture, ProviderRef, Db}
use make_we_bet.Database.Returned.{>>=-returned}
use make_we_bet.Sports.Port.{CanonicalTeam, CanonicalFixture}
use make_we_bet.Sports.Sync.{
  find_ref, resolve_league, resolve_team, with_canonical, update_or_create, upsert_fixture,
}

-- The references of the league and of both teams, and the fixture under its own.
pub record IsSynced (c : CanonicalFixture) (f : Fixture) (db : Db) : Type 0 where
  pub league : ProviderRef
  pub home_side : ProviderRef
  pub away_side : ProviderRef
  pub own : ProviderRef
  pub league_known : find_ref c.league_ref db.league_refs ≡ some league
  pub home_known : find_ref c.home_team.provider_ref db.team_refs ≡ some home_side
  pub away_known : find_ref c.away_team.provider_ref db.team_refs ≡ some away_side
  pub own_known : find_ref c.provider_ref db.fixture_refs ≡ some own
  pub row : lookup own.target_id db.fixtures ≡ some f

-- A fixture that was synced before is written over with what the provider answers, and nothing else
-- changes: no league, team or fixture is added and no event is emitted. This holds of a fixture with
-- a final result too.
upsert_fixture-IsSynced :
    (c : CanonicalFixture) (f : Fixture) (db : Db) (known : IsSynced c f db)
    → upsert_fixture c db ≡ (
      ok false,
      record db { fixtures = insert known.own.target_id (with_canonical c f) db.fixtures },
    )
unfolding upsert_fixture resolve_league resolve_team
upsert_fixture-IsSynced c f db known =
    rw (known.league_known, known.home_known, known.away_known, known.own_known, known.row) refl

-- A reference that is there stays there when another is added.
find_ref_cons :
    (ref : String) (r : ProviderRef) (refs : List ProviderRef) {old : ProviderRef}
    → find_ref ref refs ≡ some old
    → (new : ProviderRef) × (find_ref ref (r ∷ refs) ≡ some new)
find_ref_cons ref r refs {old} h = elim (Bool-cases (r.provider_ref === ref)) [
  | inl same ↦ rw same (r, refl)
  | inr other ↦ rw other (old, h)
]

find_ref_own :
    (r : ProviderRef) (refs : List ProviderRef) → find_ref r.provider_ref (r ∷ refs) ≡ some r
find_ref_own r refs = rw (===_refl r.provider_ref) refl

-- What a resolved league leaves as it was.
record LeagueResolved (c : CanonicalFixture) (db after : Db) : Type 0 where
  known : (r : ProviderRef) × (find_ref c.league_ref after.league_refs ≡ some r)
  team_refs_same : after.team_refs ≡ db.team_refs
  fixture_refs_same : after.fixture_refs ≡ db.fixture_refs
  fixtures_same : after.fixtures ≡ db.fixtures

resolve_league_lem : (c : CanonicalFixture) (db : Db) → LeagueResolved c db (resolve_league c db).1
unfolding resolve_league
resolve_league_lem c db = elim (Option-cases (find_ref c.league_ref db.league_refs)) [
  | inl absent ↦ rw absent (record {
    known = (_, find_ref_own _ db.league_refs);
    team_refs_same = refl;
    fixture_refs_same = refl;
    fixtures_same = refl;
  })
  | inr (r, there) ↦ rw there (record {
    known = (r, there);
    team_refs_same = refl;
    fixture_refs_same = refl;
    fixtures_same = refl;
  })
]

-- What a resolved team leaves as it was.
record TeamResolved (t : CanonicalTeam) (db after : Db) : Type 0 where
  known : (r : ProviderRef) × (find_ref t.provider_ref after.team_refs ≡ some r)
  others_known :
      (ref : String) (r : ProviderRef)
      → find_ref ref db.team_refs ≡ some r
      → (new : ProviderRef) × (find_ref ref after.team_refs ≡ some new)
  league_refs_same : after.league_refs ≡ db.league_refs
  fixture_refs_same : after.fixture_refs ≡ db.fixture_refs
  fixtures_same : after.fixtures ≡ db.fixtures

resolve_team_lem :
    (t : CanonicalTeam) (db : Db) {id : ℕ}
    → (resolve_team t db).0 ≡ ok id
    → TeamResolved t db (resolve_team t db).1
unfolding resolve_team
resolve_team_lem t db {id} h = elim (Option-cases (find_ref t.provider_ref db.team_refs)) [
  | inl absent ↦ elim (Option-cases t.name) [
    | inl nameless ↦ absurd (let h' : err type_error ≡ ok id = rw (absent, nameless) at h in cc h')
    | inr (name, named) ↦
        rw (absent, named)
          (record {
            known = (_, find_ref_own _ db.team_refs);
            others_known = λ ref r e. find_ref_cons ref _ db.team_refs e;
            league_refs_same = refl;
            fixture_refs_same = refl;
            fixtures_same = refl;
          })
  ]
  | inr (r, there) ↦ rw there (record {
    known = (r, there);
    others_known = λ ref r e. (r, e);
    league_refs_same = refl;
    fixture_refs_same = refl;
    fixtures_same = refl;
  })
]

-- The fixture stands under its reference.
record FixtureStored (c : CanonicalFixture) (db after : Db) : Type 0 where
  own : ProviderRef
  f : Fixture
  own_known : find_ref c.provider_ref after.fixture_refs ≡ some own
  row : lookup own.target_id after.fixtures ≡ some f
  league_refs_same : after.league_refs ≡ db.league_refs
  team_refs_same : after.team_refs ≡ db.team_refs

update_or_create_lem :
    (c : CanonicalFixture) (league home_team away_team : ℕ) (o : Option ProviderRef) (db : Db)
    {is_new : Bool}
    → find_ref c.provider_ref db.fixture_refs ≡ o
    → (update_or_create c league home_team away_team o db).0 ≡ ok is_new
    → FixtureStored c db (update_or_create c league home_team away_team o db).1
update_or_create_lem c league home_team away_team none db e h = record {
  own = _;
  f = _;
  own_known = find_ref_own _ db.fixture_refs;
  row = lookup-insert_self (fresh db.fixtures) _ db.fixtures;
  league_refs_same = refl;
  team_refs_same = refl;
}
update_or_create_lem c league home_team away_team (some r) db {is_new} e h =
    elim (Option-cases (lookup r.target_id db.fixtures)) [
      | inl gone ↦ absurd (let h' : err record_not_found ≡ ok is_new = rw gone at h in cc h')
      | inr (f, there) ↦ rw there (record {
        own = r;
        f = with_canonical c f;
        own_known = e;
        row = lookup-insert_self r.target_id _ db.fixtures;
        league_refs_same = refl;
        team_refs_same = refl;
      })
    ]

-- A first run that returned leaves the fixture synced.
upsert_fixture-returned :
    (c : CanonicalFixture) (db : Db) {is_new : Bool}
    → (upsert_fixture c db).0 ≡ ok is_new
    → (f : Fixture) × IsSynced c f (upsert_fixture c db).1
unfolding upsert_fixture
upsert_fixture-returned c db h =
    let (_, _, h1, e1) = >>=-returned (resolve_league c) _ db h in
    let db1 = (resolve_league c db).1 in
    let (_, k2, h2, e2) = >>=-returned (resolve_team c.home_team) _ db1 h1 in
    let db2 = (resolve_team c.home_team db1).1 in
    let (_, k3, h3, e3) = >>=-returned (resolve_team c.away_team) _ db2 h2 in
    let db3 = (resolve_team c.away_team db2).1 in
    let l = resolve_league_lem c db in
    let t = resolve_team_lem c.home_team db1 k2 in
    let u = resolve_team_lem c.away_team db2 k3 in
    let s =
      update_or_create_lem c _ _ _ _ db3
        (ap (λ refs. find_ref c.provider_ref refs)
          (u.fixture_refs_same ∙ t.fixture_refs_same ∙ l.fixture_refs_same))
        h3 in
    let (_, home_there) = u.others_known c.home_team.provider_ref t.known.0 t.known.1 in
    rw (e1, e2, e3)
      (
        s.f,
        record {
          league = l.known.0;
          home_side = _;
          away_side = u.known.0;
          own = s.own;
          league_known =
              ap (λ refs. find_ref c.league_ref refs)
                (s.league_refs_same ∙ u.league_refs_same ∙ t.league_refs_same)
              ∙ l.known.1;
          home_known =
              ap (λ refs. find_ref c.home_team.provider_ref refs) s.team_refs_same ∙ home_there;
          away_known =
              ap (λ refs. find_ref c.away_team.provider_ref refs) s.team_refs_same ∙ u.known.1;
          own_known = s.own_known;
          row = s.row;
        },
      )

-- After a sync of a fixture that returned, a second one of the same data creates nothing: it answers
-- that the fixture is not new, no table but the fixtures changes, neither leagues, teams, references
-- of any of the three nor the outbox, and the fixtures are the same ones under the same ids. A third
-- one changes nothing at all.
pub upsert_fixture-upsert_fixture :
    (c : CanonicalFixture) (db : Db) {is_new : Bool}
    → (upsert_fixture c db).0 ≡ ok is_new
    → let after = (upsert_fixture c db).1 in
      let again = upsert_fixture c after in
      (again.0 ≡ ok false)
      × (again.1 ≡ record after { fixtures = again.1.fixtures })
      × (keys again.1.fixtures ≡ keys after.fixtures)
      × (upsert_fixture c again.1 ≡ again)
upsert_fixture-upsert_fixture c db h =
    let after = (upsert_fixture c db).1 in
    let (f, known) = upsert_fixture-returned c db h in
    let id = known.own.target_id in
    let written = record after { fixtures = insert id (with_canonical c f) after.fixtures } in
    let known' : IsSynced c (with_canonical c f) written = record {
      league = known.league;
      home_side = known.home_side;
      away_side = known.away_side;
      own = known.own;
      league_known = known.league_known;
      home_known = known.home_known;
      away_known = known.away_known;
      own_known = known.own_known;
      row = lookup-insert_self id _ after.fixtures;
    } in
    rw (upsert_fixture-IsSynced c f after known) (
      refl,
      refl,
      keys-insert id _ after.fixtures known.row,
      upsert_fixture-IsSynced c (with_canonical c f) written known'
          ∙ ap (λ t. (ok false, record after { fixtures = t }))
              (insert-insert id _ _ after.fixtures),
    )

-- The fixture that the reference leads to has the provider's time, status and goals, and is otherwise
-- the one that it led to before.
pub record Shows (c : CanonicalFixture) (before after : Db) : Type 0 where
  pub own : ProviderRef
  pub old : Fixture
  pub f : Fixture
  pub own_known : find_ref c.provider_ref after.fixture_refs ≡ some own
  pub old_row : lookup own.target_id before.fixtures ≡ some old
  pub row : lookup own.target_id after.fixtures ≡ some f
  pub kickoff_shown : f.kickoff_at ≡ c.kickoff_at
  pub status_shown : f.status ≡ c.status
  pub home_shown : f.home_goals ≡ c.home_goals
  pub away_shown : f.away_goals ≡ c.away_goals
  pub ht_home_shown : f.ht_home_goals ≡ c.ht_home_goals
  pub ht_away_shown : f.ht_away_goals ≡ c.ht_away_goals
  pub teams_kept : (f.home_team_id ≡ old.home_team_id) × (f.away_team_id ≡ old.away_team_id)
  pub result_kept : f.result_finalized_at ≡ old.result_finalized_at

-- Two answers of the provider on one fixture.
pub record HasSameRefs (c c' : CanonicalFixture) : Type 0 where
  pub same_fixture : c'.provider_ref ≡ c.provider_ref
  pub same_league : c'.league_ref ≡ c.league_ref
  pub same_home : c'.home_team.provider_ref ≡ c.home_team.provider_ref
  pub same_away : c'.away_team.provider_ref ≡ c.away_team.provider_ref

other_answer :
    {c c' : CanonicalFixture} {f : Fixture} {db : Db}
    → HasSameRefs c c'
    → IsSynced c f db
    → IsSynced c' f db
other_answer same known = record {
  league = known.league;
  home_side = known.home_side;
  away_side = known.away_side;
  own = known.own;
  league_known = rw same.same_league known.league_known;
  home_known = rw same.same_home known.home_known;
  away_known = rw same.same_away known.away_known;
  own_known = rw same.same_fixture known.own_known;
  row = known.row;
}

-- After a sync of a fixture that returned, a later one with the same references returns too, and the
-- fixture under the reference shows what the provider answered last, each side's goals as its own,
-- whether or not its result is final; it keeps its teams and the time of its final result.
pub upsert_fixture-Shows :
    (c c' : CanonicalFixture) (db : Db) {is_new : Bool}
    → (upsert_fixture c db).0 ≡ ok is_new
    → HasSameRefs c c'
    → let after = (upsert_fixture c db).1 in
      ((upsert_fixture c' after).0 ≡ ok false) × Shows c' after (upsert_fixture c' after).1
upsert_fixture-Shows c c' db h same =
    let after = (upsert_fixture c db).1 in
    let (f, synced) = upsert_fixture-returned c db h in
    let known = other_answer same synced in
    rw (upsert_fixture-IsSynced c' f after known) (
      refl,
      record {
        own = known.own;
        old = f;
        f = with_canonical c' f;
        own_known = known.own_known;
        old_row = known.row;
        row = lookup-insert_self known.own.target_id _ after.fixtures;
        kickoff_shown = refl;
        status_shown = refl;
        home_shown = refl;
        away_shown = refl;
        ht_home_shown = refl;
        ht_away_shown = refl;
        teams_kept = (refl, refl);
        result_kept = refl;
      },
    )
