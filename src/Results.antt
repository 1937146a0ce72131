-- ===== src/Results.antt =====
-- ResultsService of apps/api/src/modules/sports/results.service.ts: a result is final once.
pub mod Once
use make_we_bet.Prelude.{ℕ, Option, none, some, lookup, insert}
use make_we_bet.Errors.{fixture_not_found, result_already_final}
use make_we_bet.Contracts.{match_result_finalized}
use make_we_bet.Scoring.Markets.{FinalResult}
use make_we_bet.Database.{
  Fixture, finished, Action, ◌>>=◌, ◌>>◌, tables, write, require, found, transaction, emit,
}
use make_we_bet.Wallet.{is_null}

abbrev pub with_result : ℕ → FinalResult → Fixture → Fixture
with_result now result f = record f {
  status = finished;
  home_goals = some result.home_goals;
  away_goals = some result.away_goals;
  ht_home_goals = some result.ht_home_goals;
  ht_away_goals = some result.ht_away_goals;
  first_to_score = some result.first_to_score;
  result_finalized_at = some now;
}

unfoldable pub finalize_rows : ℕ → ℕ → FinalResult → Fixture → Action Unit
finalize_rows now id result f = do
  write λ db. record db { fixtures = insert id (with_result now result f) db.fixtures }
  emit (match_result_finalized id)

unfoldable pub finalize : ℕ → ℕ → FinalResult → Action Unit
unfolding finalize_rows
finalize now id result = do
  db ← tables
  f ← found (lookup id db.fixtures) fixture_not_found
  require (is_null f.result_finalized_at) result_already_final
  transaction (finalize_rows now id result f)
