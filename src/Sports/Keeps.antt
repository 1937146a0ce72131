-- ===== src/Sports/Keeps.antt =====
-- The sync of fixtures and the results poller keep the ledger sound.
use make_we_bet.Prelude.{ℕ, Bool, true, false, Option, none, some, List, [], ◌∷◌}
use make_we_bet.Errors.{Result, ok}
use make_we_bet.Contracts.{String}
use make_we_bet.Scoring.Markets.{FinalResult}
use make_we_bet.Database.{Fixture, ProviderRef}
use make_we_bet.Database.Keeps.{KeepsSound, keeps, lift-KeepsSound}
use make_we_bet.Results.{finalize}
use make_we_bet.Sports.Port.{CanonicalTeam, CanonicalFixture}
use make_we_bet.Sports.Sync.{
  league_or_new, resolve_league, team_or_new, resolve_team, update_or_create, upsert_fixture,
  sync_from, sync_date,
}
use make_we_bet.Sports.Poller.{set_live, live_if, finalize_known, poll_remote, poll_one, poll}

league_or_new-KeepsSound :
    (c : CanonicalFixture) (o : Option ProviderRef) → KeepsSound (league_or_new c o)
unfolding KeepsSound
league_or_new-KeepsSound c none = search keeps depth 9 fits 9000
league_or_new-KeepsSound c (some r) = lift-KeepsSound (ok r.target_id)

team_or_new-KeepsSound : (t : CanonicalTeam) (o : Option ProviderRef) → KeepsSound (team_or_new t o)
unfolding KeepsSound
team_or_new-KeepsSound t none = search keeps depth 9 fits 9000
team_or_new-KeepsSound t (some r) = lift-KeepsSound (ok r.target_id)

update_or_create-KeepsSound :
    (c : CanonicalFixture) (league home_team away_team : ℕ) (o : Option ProviderRef)
    → KeepsSound (update_or_create c league home_team away_team o)
unfolding KeepsSound
update_or_create-KeepsSound c league home_team away_team none = search keeps depth 9 fits 9000
update_or_create-KeepsSound c league home_team away_team (some r) = search keeps depth 9 fits 9000

upsert_fixture-KeepsSound : (c : CanonicalFixture) → KeepsSound (upsert_fixture c)
unfolding upsert_fixture resolve_league resolve_team KeepsSound
upsert_fixture-KeepsSound c =
    search (keeps, league_or_new-KeepsSound, team_or_new-KeepsSound, update_or_create-KeepsSound)
      depth 9 fits 9000

sync_from-KeepsSound : (n : ℕ × ℕ) (cs : List CanonicalFixture) → KeepsSound (sync_from n cs)
unfolding KeepsSound
sync_from-KeepsSound n [] = lift-KeepsSound (ok n)
sync_from-KeepsSound n (c ∷ cs) =
    search (keeps, upsert_fixture-KeepsSound, λ (m : ℕ × ℕ). sync_from-KeepsSound m cs) depth 9 fits
      9000

pub sync_date-KeepsSound : (cs : List CanonicalFixture) → KeepsSound (sync_date cs)
unfolding sync_date
sync_date-KeepsSound cs = sync_from-KeepsSound (0, 0) cs

pub finalize-KeepsSound : (now id : ℕ) (r : FinalResult) → KeepsSound (finalize now id r)
unfolding finalize KeepsSound
finalize-KeepsSound now id r = search keeps depth 9 fits 9000

finalize_known-KeepsSound :
    (now id : ℕ) (o : Option FinalResult) → KeepsSound (finalize_known now id o)
finalize_known-KeepsSound now id none = lift-KeepsSound (ok tt)
finalize_known-KeepsSound now id (some r) = finalize-KeepsSound now id r

set_live-KeepsSound : (id : ℕ) → KeepsSound (set_live id)
unfolding KeepsSound
set_live-KeepsSound id = search keeps depth 9 fits 9000

live_if-KeepsSound : (id : ℕ) (remote before : Bool) → KeepsSound (live_if id remote before)
live_if-KeepsSound id false before = lift-KeepsSound (ok tt)
live_if-KeepsSound id true true = lift-KeepsSound (ok tt)
live_if-KeepsSound id true false = set_live-KeepsSound id

poll_remote-KeepsSound :
    (now id : ℕ) (f : Fixture) (o : Option CanonicalFixture) → KeepsSound (poll_remote now id f o)
unfolding KeepsSound
poll_remote-KeepsSound now id f none = lift-KeepsSound (ok tt)
poll_remote-KeepsSound now id f (some c) =
    search (keeps, live_if-KeepsSound, finalize_known-KeepsSound) depth 9 fits 9000

module _ (get_fixture : String → Result (Option CanonicalFixture)) where
  poll_one-KeepsSound :
      (now : ℕ) (row : ℕ × Fixture × String) → KeepsSound (poll_one get_fixture now row)
  unfolding poll_one KeepsSound
  poll_one-KeepsSound now (id, f, ref) = search (keeps, poll_remote-KeepsSound) depth 9 fits 9000

  pub poll-KeepsSound : (now : ℕ) → KeepsSound (poll get_fixture now)
  unfolding poll KeepsSound
  poll-KeepsSound now = search (keeps, poll_one-KeepsSound) depth 9 fits 9000
