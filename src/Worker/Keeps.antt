-- ===== src/Worker/Keeps.antt =====
-- Whatever event the worker handles, the ledger stays sound.
use make_we_bet.Prelude.{ℕ, Option, none, some, true, false}
use make_we_bet.Errors.{ok}
use make_we_bet.Contracts.{
  Event, contest_published, contest_locked, contest_cancelled, contest_scored, entry_paid,
  match_result_finalized, prediction_scored, prizes_distributed, user_registered, wallet_credited,
  withdrawal_requested, withdrawal_paid, fixture_synced, transfer_success, transfer_failed,
  transfer_reversed,
}
use make_we_bet.Database.{Db, ◌>>◌, return, Fixture, Prediction, DifficultyWeightSet}
use make_we_bet.Database.Keeps.{
  KeepsSound, keeps, lift-KeepsSound, >>-KeepsSound, map_action-KeepsSound,
}
use make_we_bet.Scoring.Keeps.{on_result_finalized-KeepsSound}
use make_we_bet.Settlement.Keeps.{distribute-KeepsSound}
use make_we_bet.Withdrawals.Keeps.{settle_withdrawal-KeepsSound}
use make_we_bet.Stats.{pick_of, recompute_for_user, recompute_for_contest}
use make_we_bet.Difficulty.{DifficultyInput}
use make_we_bet.Difficulty.Service.{with_weights, with_fixture, compute_for_fixture}
use make_we_bet.Settlement.Distribution.{distribute}
use make_we_bet.Worker.{WorkerConfig, route}

pick_of-KeepsSound : (db : Db) (p : ℕ × Prediction) → KeepsSound (pick_of db p)
unfolding KeepsSound
pick_of-KeepsSound db (id, p) = search keeps depth 9 fits 9000

recompute_for_user-KeepsSound : (user : ℕ) → KeepsSound (recompute_for_user user)
unfolding recompute_for_user KeepsSound
recompute_for_user-KeepsSound user =
    search (keeps, map_action-KeepsSound, pick_of-KeepsSound) depth 9 fits 9000

recompute_for_contest-KeepsSound : (contest : ℕ) → KeepsSound (recompute_for_contest contest)
unfolding recompute_for_contest KeepsSound
recompute_for_contest-KeepsSound contest =
    search (keeps, recompute_for_user-KeepsSound) depth 9 fits 9000

module _ (config : WorkerConfig) where
  with_weights-KeepsSound :
      (fixture : ℕ) (i : DifficultyInput) (w : Option (ℕ × DifficultyWeightSet))
      → KeepsSound (with_weights config.get_team_form config.get_head_to_head fixture i w)
  unfolding KeepsSound
  with_weights-KeepsSound fixture i none = lift-KeepsSound {A = Option ℕ} (ok none)
  with_weights-KeepsSound fixture i (some (set, w)) = search keeps depth 9 fits 9000

  with_fixture-KeepsSound :
      (fixture : ℕ) (f : Option Fixture)
      → KeepsSound (with_fixture config.get_team_form config.get_head_to_head fixture f)
  unfolding KeepsSound
  with_fixture-KeepsSound fixture none = lift-KeepsSound {A = Option ℕ} (ok none)
  with_fixture-KeepsSound fixture (some f) =
      search (keeps, with_weights-KeepsSound) depth 9 fits 9000

  compute_for_fixture-KeepsSound :
      (fixture : ℕ)
      → KeepsSound (compute_for_fixture config.get_team_form config.get_head_to_head fixture)
  unfolding compute_for_fixture KeepsSound
  compute_for_fixture-KeepsSound fixture = search (keeps, with_fixture-KeepsSound) depth 9 fits 9000

  distribute_then : (contest : ℕ) → KeepsSound (distribute config.draw_hash contest >> return tt)
  distribute_then contest =
      >>-KeepsSound _ _ (distribute-KeepsSound config.draw_hash contest) (lift-KeepsSound (ok tt))

  pub route-KeepsSound : (now : ℕ) (e : Event) → KeepsSound (route config now e)
  unfolding route
  route-KeepsSound now (match_result_finalized fixture) = on_result_finalized-KeepsSound now fixture
  route-KeepsSound now (contest_scored contest) = distribute_then contest
  route-KeepsSound now (prizes_distributed contest) = recompute_for_contest-KeepsSound contest
  route-KeepsSound now (fixture_synced fixture) =
      >>-KeepsSound _ _ (compute_for_fixture-KeepsSound fixture) (lift-KeepsSound (ok tt))
  route-KeepsSound now (transfer_success reference) =
      settle_withdrawal-KeepsSound now reference true
  route-KeepsSound now (transfer_failed reference) =
      settle_withdrawal-KeepsSound now reference false
  route-KeepsSound now (transfer_reversed reference) =
      settle_withdrawal-KeepsSound now reference false
  route-KeepsSound now (contest_published contest) = lift-KeepsSound (ok tt)
  route-KeepsSound now (contest_locked contest) = lift-KeepsSound (ok tt)
  route-KeepsSound now (contest_cancelled contest) = lift-KeepsSound (ok tt)
  route-KeepsSound now (entry_paid contest) = lift-KeepsSound (ok tt)
  route-KeepsSound now (prediction_scored contest) = lift-KeepsSound (ok tt)
  route-KeepsSound now (user_registered user) = lift-KeepsSound (ok tt)
  route-KeepsSound now (wallet_credited user) = lift-KeepsSound (ok tt)
  route-KeepsSound now (withdrawal_requested id) = lift-KeepsSound (ok tt)
  route-KeepsSound now (withdrawal_paid id) = lift-KeepsSound (ok tt)
