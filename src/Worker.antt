-- ===== src/Worker.antt =====
-- `route` of apps/api/src/modules/event-handlers/domain-events.worker.ts: which handler an event of
-- the queue is given to. What is pushed to the clients changes no table, and is `live_tick`.
pub mod Keeps
use make_we_bet.Prelude.{ℕ, true, false, Option, none, some, lookup, length}
use make_we_bet.Errors.{Result}
use make_we_bet.Contracts.{
  ContestStatus, String, Event, contest_published, contest_locked, contest_cancelled,
  contest_scored, entry_paid, match_result_finalized, prediction_scored, prizes_distributed,
  user_registered, wallet_credited, withdrawal_requested, withdrawal_paid, fixture_synced,
  transfer_success, transfer_failed, transfer_reversed,
}
use make_we_bet.Database.{Contest, Db, Action, ◌>>=◌, ◌>>◌, return}
use make_we_bet.Entries.{active_entries}
use make_we_bet.Contests.{estimated_pool}
use make_we_bet.Scoring.Service.{on_result_finalized}
use make_we_bet.Settlement.Distribution.{distribute}
use make_we_bet.Stats.{recompute_for_contest}
use make_we_bet.Difficulty.{TeamFormInput, HeadToHead}
use make_we_bet.Difficulty.Service.{TeamKey, compute_for_fixture}
use make_we_bet.Withdrawals.Payout.{settle_withdrawal}

pub record LiveTick : Type 0 where
  pub status : ContestStatus
  pub entry_count : ℕ
  pub estimated_prize_pool_minor : ℕ

-- `pushLive`: what the clients of a contest are told
unfoldable pub live_tick : ℕ → Db → Option LiveTick
unfolding estimated_pool
live_tick contest db = elim (lookup contest db.contests) [
  | none ↦ none
  | some c ↦
      let entered = length (active_entries contest db.entries) in
      some (record {
        status = c.status;
        entry_count = entered;
        estimated_prize_pool_minor = estimated_pool c entered;
      })
]

-- The parameters of the handlers: the hash of the draw and the answers of the provider.
pub record WorkerConfig : Type 0 where
  pub draw_hash : ℕ → ℕ → ℕ
  pub get_team_form : TeamKey → Result (Option TeamFormInput)
  pub get_head_to_head : TeamKey → TeamKey → Result (Option HeadToHead)

module _ (config : WorkerConfig) where
  unfoldable pub route : ℕ → Event → Action Unit
  unfolding on_result_finalized distribute recompute_for_contest compute_for_fixture
      settle_withdrawal
  route now (match_result_finalized fixture) = on_result_finalized now fixture
  route now (contest_scored contest) = distribute config.draw_hash contest >> return tt
  route now (prizes_distributed contest) = recompute_for_contest contest
  route now (fixture_synced fixture) =
      compute_for_fixture config.get_team_form config.get_head_to_head fixture >> return tt
  route now (transfer_success reference) = settle_withdrawal now reference true
  route now (transfer_failed reference) = settle_withdrawal now reference false
  route now (transfer_reversed reference) = settle_withdrawal now reference false
  route now (contest_published contest) = return tt
  route now (contest_locked contest) = return tt
  route now (contest_cancelled contest) = return tt
  route now (entry_paid contest) = return tt
  route now (prediction_scored contest) = return tt
  route now (user_registered user) = return tt
  route now (wallet_credited user) = return tt
  route now (withdrawal_requested id) = return tt
  route now (withdrawal_paid id) = return tt
