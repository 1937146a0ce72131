-- ===== src/Scoring/Keeps.antt =====
-- The scoring keeps the ledger sound.
use make_we_bet.Prelude.{ℕ, lookup, Option, none, some, Bool, true, false}
use make_we_bet.Errors.{ok}
use make_we_bet.Contracts.{scoring, status_eq}
use make_we_bet.Scoring.Markets.{FinalResult}
use make_we_bet.Database.{Contest, ContestMatch, Fixture, Db}
use make_we_bet.Database.Keeps.{
  KeepsSound, lift-KeepsSound, elim-KeepsSound, for_each-KeepsSound, transaction-KeepsSound, keeps,
}
use make_we_bet.Wallet.{is_null}
use make_we_bet.Scoring.Service.{
  score_match, finish_found, finish_if, finalize_if_complete, result_of, score_one, score_fixture,
  on_result_finalized,
}

score_match-KeepsSound :
    (now contest cm : ℕ) (r : FinalResult) → KeepsSound (score_match now contest cm r)
unfolding score_match KeepsSound
score_match-KeepsSound now contest cm r = search keeps depth 9 fits 9000

finish_found-KeepsSound : (contest : ℕ) (o : Option Contest) → KeepsSound (finish_found contest o)
unfolding KeepsSound
finish_found-KeepsSound contest none db s = s
finish_found-KeepsSound contest (some c) db s =
    elim-KeepsSound (status_eq c.status scoring) _ _ (λ db s. s) (lift-KeepsSound (ok tt)) db s

finish_if-KeepsSound :
    (pending : Bool) (contest : ℕ) (db : Db) → KeepsSound (finish_if pending contest db)
finish_if-KeepsSound true contest db = lift-KeepsSound (ok tt)
finish_if-KeepsSound false contest db =
    transaction-KeepsSound (finish_found contest (lookup contest db.contests))
      (finish_found-KeepsSound contest (lookup contest db.contests))

finalize_if_complete-KeepsSound : (contest : ℕ) → KeepsSound (finalize_if_complete contest)
unfolding finalize_if_complete KeepsSound
finalize_if_complete-KeepsSound contest = search (keeps, finish_if-KeepsSound)

score_one-KeepsSound :
    (now : ℕ) (r : FinalResult) (m : ℕ × ContestMatch) → KeepsSound (score_one now r m)
unfolding score_one KeepsSound
score_one-KeepsSound now r m =
    search (keeps, score_match-KeepsSound, finalize_if_complete-KeepsSound)

score_fixture-KeepsSound :
    (now fixture : ℕ) (db : Db) (o : Option Fixture) → KeepsSound (score_fixture now fixture db o)
score_fixture-KeepsSound now fixture db none = lift-KeepsSound (ok tt)
score_fixture-KeepsSound now fixture db (some f) =
    elim-KeepsSound (is_null f.result_finalized_at) _ _ (lift-KeepsSound (ok tt))
      (for_each-KeepsSound _ (score_one-KeepsSound now (result_of f)) _)

-- The scoring of a fixture keeps the ledger sound.
pub on_result_finalized-KeepsSound :
    (now fixture : ℕ) → KeepsSound (on_result_finalized now fixture)
unfolding on_result_finalized KeepsSound
on_result_finalized-KeepsSound now fixture = search (keeps, score_fixture-KeepsSound)
