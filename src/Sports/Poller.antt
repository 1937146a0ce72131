-- ===== src/Sports/Poller.antt =====
-- `poll` of apps/api/src/modules/sports/results-poller.ts, when the workers run and no other poll
-- does. What the provider answers for a fixture is a parameter.
use make_we_bet.Prelude.{
  ℕ, ◌+◌, ◌*◌, Bool, true, false, ◌&&◌, Option, none, some, List, [], ◌∷◌, leb, ◌==◌, lookup,
  insert, select, find?, take,
}
use make_we_bet.Errors.{Result, record_not_found}
use make_we_bet.Contracts.{String}
use make_we_bet.Scoring.Markets.{FinalResult}
use make_we_bet.Database.{
  Fixture, FixtureStatus, scheduled, live, finished, ProviderRef, Db, Action, ◌>>=◌, ◌>>◌, return,
  tables, write, lift, found, rescue, for_each,
}
use make_we_bet.Wallet.{is_null}
use make_we_bet.Results.{finalize}
use make_we_bet.Sports.Port.{CanonicalFixture}

-- A match lasts at least this long.
abbrev pub full_time_ms : ℕ
full_time_ms = 105 * 60 * 1000

-- `status: { in: ['SCHEDULED', 'LIVE'] }`
abbrev pub is_open_status : FixtureStatus → Bool
is_open_status scheduled = true
is_open_status live = true
is_open_status _ = false

unfoldable pub is_candidate : ℕ → Fixture → Bool
is_candidate now f =
    is_null f.result_finalized_at
    && (leb (f.kickoff_at + full_time_ms) now && is_open_status f.status)

abbrev pub ref_to : ℕ → Db → Option ProviderRef
ref_to id db = find? (λ r. r.target_id == id) db.fixture_refs

-- `providerRefs: { some: … }`
abbrev pub with_ref : Db → List (ℕ × Fixture) → List (ℕ × Fixture × String)
with_ref db [] = []
with_ref db ((id, f) ∷ rows) =
    let rest = with_ref db rows in
    elim (ref_to id db) [ none ↦ rest | some r ↦ (id, f, r.provider_ref) ∷ rest ]

unfoldable pub candidates : ℕ → Db → List (ℕ × Fixture × String)
unfolding is_candidate
candidates now db = take 25 (with_ref db (select (is_candidate now) db.fixtures))

abbrev pub is_live : FixtureStatus → Bool
is_live live = true
is_live _ = false

abbrev pub is_finished : FixtureStatus → Bool
is_finished finished = true
is_finished _ = false

abbrev or_zero : Option ℕ → ℕ
or_zero none = 0
or_zero (some n) = n

-- The result of a fixture that has finished, where the goals and the first scorer are known.
unfoldable pub remote_result : CanonicalFixture → Option FinalResult
remote_result c = elim (is_finished c.status) [
  | false ↦ none
  | true ↦ elim c.home_goals [
    | none ↦ none
    | some h ↦ elim c.away_goals [
      | none ↦ none
      | some a ↦ elim c.first_to_score [
        | none ↦ none
        | some first ↦ some (record {
          home_goals = h;
          away_goals = a;
          ht_home_goals = or_zero c.ht_home_goals;
          ht_away_goals = or_zero c.ht_away_goals;
          first_to_score = first;
        })
      ]
    ]
  ]
]

abbrev pub set_live : ℕ → Action Unit
set_live id = do
  db ← tables
  f ← found (lookup id db.fixtures) record_not_found
  write λ d. record d { fixtures = insert id (record f { status = live }) d.fixtures }

-- `remote.status === 'LIVE' && fixture.status !== 'LIVE'`
abbrev pub live_if : ℕ → Bool → Bool → Action Unit
live_if id false before = return tt
live_if id true true = return tt
live_if id true false = set_live id

abbrev pub finalize_known : ℕ → ℕ → Option FinalResult → Action Unit
finalize_known now id none = return tt
finalize_known now id (some r) = finalize now id r

abbrev pub poll_remote : ℕ → ℕ → Fixture → Option CanonicalFixture → Action Unit
poll_remote now id f none = return tt
poll_remote now id f (some c) =
    live_if id (is_live c.status) (is_live f.status) >> finalize_known now id (remote_result c)

module _ (get_fixture : String → Result (Option CanonicalFixture)) where
  -- A candidate; what is thrown is logged.
  unfoldable pub poll_one : ℕ → ℕ × Fixture × String → Action Unit
  unfolding remote_result
  poll_one now (id, f, ref) =
      rescue (λ e. return tt) (lift (get_fixture ref) >>= poll_remote now id f)

  unfoldable pub poll : ℕ → Action Unit
  unfolding poll_one candidates
  poll now = do db ← tables; for_each (poll_one now) (candidates now db)
