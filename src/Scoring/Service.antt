-- ===== src/Scoring/Service.antt =====
-- ScoringService of apps/api/src/modules/scoring/scoring.service.ts. The advisory lock has no
-- counterpart: two runs for one contest come one after the other.
use make_we_bet.Prelude.{
  ℕ, ◌+◌, Bool, true, false, ◌&&◌, ◌||◌, Option, none, some, List, [], ◌∷◌, ◌==◌, if◌then◌else◌,
  Table, lookup, select,
}
use make_we_bet.Errors.{record_not_found, type_error}
use make_we_bet.Contracts.{
  DifficultyTier, hard, expert, tier_eq, MarketType, market_eq, FirstToScore, neither, String,
  ◌===◌, locked, scoring, scored, status_eq, prediction_scored, contest_scored,
}
use make_we_bet.Scoring.Markets.{FinalResult, Scored, score_prediction}
use make_we_bet.Slip.{has}
use make_we_bet.Database.{
  Contest, ContestMatch, ContestSlot, Fixture, Entry, Prediction, Db, Action, ◌>>=◌, ◌>>◌, return,
  tables, write, found, transaction, for_each, emit,
}
use make_we_bet.Wallet.{is_null}
use make_we_bet.Entries.{points_of}
use make_we_bet.Contests.{set_contest}

abbrev or_zero : Option ℕ → ℕ
or_zero none = 0
or_zero (some n) = n

abbrev or_neither : Option FirstToScore → FirstToScore
or_neither none = neither
or_neither (some s) = s

abbrev pub result_of : Fixture → FinalResult
result_of f = record {
  home_goals = or_zero f.home_goals;
  away_goals = or_zero f.away_goals;
  ht_home_goals = or_zero f.ht_home_goals;
  ht_away_goals = or_zero f.ht_away_goals;
  first_to_score = or_neither f.first_to_score;
}

-- Identical picks: the key `market|selection` tells two picks apart, since no market has a bar.
pub record Group : Type 0 where
  pub market_type : MarketType
  pub selection : String
  pub ids : List ℕ
  pub outcome : Scored

abbrev pub is_pick : Prediction → Group → Bool
is_pick p g = market_eq g.market_type p.market_type && (g.selection === p.selection)

-- The body of the loop over the predictions; `score` is the scorer with its result and points.
abbrev pub add_pick : (MarketType → String → Scored) → ℕ → Prediction → List Group → List Group
add_pick score id p [] =
    record {
      market_type = p.market_type;
      selection = p.selection;
      ids = id ∷ [];
      outcome = score p.market_type p.selection;
    }
    ∷ []
add_pick score id p (g ∷ gs) =
    if is_pick p g then record g { ids = id ∷ g.ids } ∷ gs else g ∷ add_pick score id p gs

abbrev pub group_picks :
    (MarketType → String → Scored) → List (ℕ × Prediction) → List Group → List Group
group_picks score [] gs = gs
group_picks score ((id, p) ∷ ps) gs = group_picks score ps (add_pick score id p gs)

abbrev pub mark : ℕ → Scored → Prediction → Prediction
mark now s p = record p {
  is_correct = s.is_correct;
  points_x10 = s.points_x10;
  scored_at = some now;
}

-- `updateMany({ where: { id: { in: ids } } })`
abbrev pub mark_ids : ℕ → Scored → List ℕ → Table Prediction → Table Prediction
mark_ids now s ids [] = []
mark_ids now s ids ((id, p) ∷ t) =
    (id, if has id ids then mark now s p else p) ∷ mark_ids now s ids t

abbrev pub mark_groups : ℕ → List Group → Table Prediction → Table Prediction
mark_groups now [] t = t
mark_groups now (g ∷ gs) t = mark_groups now gs (mark_ids now g.outcome g.ids t)

abbrev slot_is_of : (ContestSlot → Bool) → Option ContestSlot → Bool
slot_is_of p none = false
slot_is_of p (some s) = p s

abbrev pub is_on : ℕ → Table ContestSlot → Prediction → Bool
is_on cm slots p = slot_is_of (λ s. s.contest_match_id == cm) (lookup p.slot_id slots)

abbrev pub tier_is : DifficultyTier → Table ContestSlot → Prediction → Bool
tier_is tier slots p = slot_is_of (λ s. tier_eq s.tier tier) (lookup p.slot_id slots)

abbrev not_null : Option ℕ → Bool
not_null none = false
not_null (some _) = true

-- The rows that the subquery groups for one entry.
abbrev pub counts_for : ℕ → ℕ → Table ContestSlot → Prediction → Bool
counts_for contest entry slots p =
    (p.entry_id == entry)
    && (not_null p.scored_at && slot_is_of (λ s. s.contest_id == contest) (lookup p.slot_id slots))

abbrev pub sum_points : List (ℕ × Prediction) → ℕ
sum_points [] = 0
sum_points ((_, p) ∷ ps) = p.points_x10 + sum_points ps

abbrev pub count_rows : (Prediction → Bool) → List (ℕ × Prediction) → ℕ
count_rows f [] = 0
count_rows f ((_, p) ∷ ps) = (if f p then 1 else 0) + count_rows f ps

-- An entry without a scored prediction has no group, and stays.
abbrev pub aggregated : Table ContestSlot → List (ℕ × Prediction) → Entry → Entry
aggregated slots [] e = e
aggregated slots (r ∷ rs) e = record e {
  total_points_x10 = sum_points (r ∷ rs);
  correct_count = count_rows (λ p. p.is_correct) (r ∷ rs);
  correct_expert = count_rows (λ p. p.is_correct && tier_is expert slots p) (r ∷ rs);
  correct_hard = count_rows (λ p. p.is_correct && tier_is hard slots p) (r ∷ rs);
}

abbrev pub recompute : ℕ → Table ContestSlot → Table Prediction → Table Entry → Table Entry
recompute contest slots predictions [] = []
recompute contest slots predictions ((id, e) ∷ t) =
    (id, aggregated slots (select (counts_for contest id slots) predictions) e)
    ∷ recompute contest slots predictions t

-- The first result flips LOCKED into SCORING.
abbrev pub begin_scoring : Contest → Contest
begin_scoring c = record c { status = if status_eq c.status locked then scoring else c.status }

abbrev pub score_pick : FinalResult → List (MarketType × ℕ) → MarketType → String → Scored
score_pick result rules market selection =
    score_prediction market selection result (or_zero (points_of market rules))

abbrev pub score_rows : ℕ → ℕ → ℕ → (MarketType → String → Scored) → Db → Db
score_rows now contest cm score db =
    let picked = select (is_on cm db.contest_slots) db.predictions in
    let marked = mark_groups now (group_picks score picked []) db.predictions in
    record db {
      predictions = marked;
      entries = recompute contest db.contest_slots marked db.entries;
    }

-- The transaction of `scoreContestMatch`.
unfoldable pub score_match : ℕ → ℕ → ℕ → FinalResult → Action Unit
unfolding score_prediction
score_match now contest cm result = do
  db ← tables
  c ← found (lookup contest db.contests) record_not_found
  set_contest contest (begin_scoring c)
  rules ← found (lookup c.rule_set_id db.rule_sets) type_error
  write λ db. score_rows now contest cm (score_pick result rules.market_rules) db
  emit (prediction_scored contest)

abbrev not_empty {ℓ} : {A : Type ℓ} → List A → Bool
not_empty [] = false
not_empty (_ ∷ _) = true

abbrev fixture_lacks : Option Fixture → Bool
fixture_lacks none = false
fixture_lacks (some f) = is_null f.result_finalized_at

abbrev lacks_result : Table Fixture → ContestMatch → Bool
lacks_result fixtures m = fixture_lacks (lookup m.fixture_id fixtures)

abbrev pub has_pending_fixture : ℕ → Db → Bool
has_pending_fixture contest db =
    not_empty
      (select (λ m. (m.contest_id == contest) && lacks_result db.fixtures m) db.contest_matches)

abbrev entry_is_in : ℕ → Option Entry → Bool
entry_is_in contest none = false
entry_is_in contest (some e) = e.contest_id == contest

abbrev pub has_pending_prediction : ℕ → Db → Bool
has_pending_prediction contest db = not_empty (
    select (λ p. is_null p.scored_at && entry_is_in contest (lookup p.entry_id db.entries))
      db.predictions)

abbrev pub finish_found : ℕ → Option Contest → Action Unit
finish_found contest none = return tt
finish_found contest (some c) = elim (status_eq c.status scoring) [
  | true ↦ set_contest contest (record c { status = scored }) >> emit (contest_scored contest)
  | false ↦ return tt
]

-- `true` when a fixture or a prediction of the contest is pending.
abbrev pub finish_if : Bool → ℕ → Db → Action Unit
finish_if true contest db = return tt
finish_if false contest db = transaction (finish_found contest (lookup contest db.contests))

unfoldable pub finalize_if_complete : ℕ → Action Unit
finalize_if_complete contest = do
  db ← tables
  finish_if (has_pending_fixture contest db || has_pending_prediction contest db) contest db

abbrev pub in_play : Option Contest → Bool
in_play none = false
in_play (some c) = status_eq c.status locked || status_eq c.status scoring

unfoldable pub score_one : ℕ → FinalResult → ℕ × ContestMatch → Action Unit
unfolding score_match finalize_if_complete
score_one now result (cm, m) =
    transaction (score_match now m.contest_id cm result) >> finalize_if_complete m.contest_id

abbrev pub score_fixture : ℕ → ℕ → Db → Option Fixture → Action Unit
score_fixture now fixture db none = return tt
score_fixture now fixture db (some f) = elim (is_null f.result_finalized_at) [
  | true ↦ return tt
  | false ↦ for_each (score_one now (result_of f)) (
      select (λ m. (m.fixture_id == fixture) && in_play (lookup m.contest_id db.contests))
        db.contest_matches)
]

unfoldable pub on_result_finalized : ℕ → ℕ → Action Unit
on_result_finalized now fixture = do
  db ← tables
  score_fixture now fixture db (lookup fixture db.fixtures)
