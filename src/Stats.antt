-- ===== src/Stats.antt =====
-- StatsService of apps/api/src/modules/stats/stats.service.ts: a user's statistics are computed again
-- from the entries and the predictions. A month is the number of its year times a hundred and of the
-- month.
pub mod Streaks
pub mod Breakdown
use make_we_bet.Prelude.{
  ℕ, zero, suc, ◌+◌, ◌-◌, ◌*◌, ◌/◌, ◌%◌, max, Bool, true, false, ◌&&◌, not, Option, none, some,
  List, [], ◌∷◌, map, ltb, leb, ◌==◌, if◌then◌else◌, length, any, count, sum_by, Table, lookup,
  insert, select,
}
use make_we_bet.Errors.{type_error}
use make_we_bet.Contracts.{MarketType, market_eq}
use make_we_bet.Database.{
  Entry, settled_entry, Prediction, Tally, MonthTally, UserStats, Db, Action, ◌>>=◌, ◌>>◌, return,
  tables, write, found, map_action, for_each,
}
use make_we_bet.Wallet.{is_null}

-- The year and the month of an instant, `toISOString().slice(0, 7)`, from the first of March of the
-- year zero on, in cycles of four hundred years.
unfoldable pub month_of : ℕ → ℕ
month_of ms =
    let day = ms / 86400000 + 719468 in
    let day_of_era = day % 146097 in
    let year_of_era =
      (day_of_era - day_of_era / 1460 + day_of_era / 36524 - day_of_era / 146096) / 365 in
    let day_of_year = day_of_era - (365 * year_of_era + year_of_era / 4 - year_of_era / 100) in
    let shifted = (5 * day_of_year + 2) / 153 in
    let year = year_of_era + day / 146097 * 400 in
    if ltb shifted 10 then year * 100 + (shifted + 3) else suc year * 100 + (shifted - 9)

abbrev is_settled : Entry → Bool
is_settled e = elim e.status [ settled_entry ↦ true | _ ↦ false ]

-- `orderBy: { submittedAt: 'asc' }`
abbrev place : Entry → List Entry → List Entry
place e [] = e ∷ []
place e (f ∷ es) = if ltb f.submitted_at e.submitted_at then f ∷ place e es else e ∷ f ∷ es

abbrev by_time : List (ℕ × Entry) → List Entry
by_time [] = []
by_time ((_, e) ∷ es) = place e (by_time es)

unfoldable pub settled_entries : ℕ → Table Entry → List Entry
settled_entries user t = by_time (select (λ e. (e.user_id == user) && is_settled e) t)

-- One turn of the loop over the entries: the current streak and the best one.
abbrev pub streak_step : ℕ × ℕ → Entry → ℕ × ℕ
streak_step (current, best) e =
    let next = if ltb 0 e.prize_minor then suc current else 0 in (next, max best next)

abbrev pub streaks_from : ℕ × ℕ → List Entry → ℕ × ℕ
streaks_from s [] = s
streaks_from s (e ∷ es) = streaks_from (streak_step s e) es

unfoldable pub streaks : List Entry → ℕ × ℕ
streaks es = streaks_from (0, 0) es

-- What the loop over the predictions reads of one.
pub record ScoredPick : Type 0 where
  pub market_type : MarketType
  pub league_id : ℕ
  pub month : ℕ
  pub is_correct : Bool
  pub points_x10 : ℕ

abbrev one_if : Bool → ℕ
one_if b = if b then 1 else 0

-- `(breakdown[key] ??= { total: 0, correct: 0 })`, counted up
abbrev pub bump : {K : Type 0} → (K → K → Bool) → K → Bool → List (K × Tally) → List (K × Tally)
bump same k correct [] = (k, record { total = 1; correct = one_if correct }) ∷ []
bump same k correct ((j, t) ∷ ts) =
    let rest = bump same k correct ts in
    if same j k
    then (j, record { total = suc t.total; correct = t.correct + one_if correct }) ∷ ts
    else (j, t) ∷ rest

abbrev pub bump_month : ScoredPick → List (ℕ × MonthTally) → List (ℕ × MonthTally)
bump_month p [] =
    (p.month, record { total = 1; correct = one_if p.is_correct; points_x10 = p.points_x10 }) ∷ []
bump_month p ((j, t) ∷ ts) =
    let rest = bump_month p ts in
    if j == p.month
    then (
      j,
      record {
        total = suc t.total;
        correct = t.correct + one_if p.is_correct;
        points_x10 = t.points_x10 + p.points_x10;
      },
    )
      ∷ ts
    else (j, t) ∷ rest

abbrev pub market_breakdown_from :
    List (MarketType × Tally) → List ScoredPick → List (MarketType × Tally)
market_breakdown_from b [] = b
market_breakdown_from b (p ∷ ps) =
    market_breakdown_from (bump market_eq p.market_type p.is_correct b) ps

abbrev pub league_breakdown_from : List (ℕ × Tally) → List ScoredPick → List (ℕ × Tally)
league_breakdown_from b [] = b
league_breakdown_from b (p ∷ ps) =
    league_breakdown_from (bump (λ i j. i == j) p.league_id p.is_correct b) ps

abbrev pub monthly_breakdown_from : List (ℕ × MonthTally) → List ScoredPick → List (ℕ × MonthTally)
monthly_breakdown_from b [] = b
monthly_breakdown_from b (p ∷ ps) = monthly_breakdown_from (bump_month p b) ps

abbrev is_first : Entry → Bool
is_first e = elim e.final_rank [ none ↦ false | some r ↦ r == 1 ]

abbrev highest : List Entry → ℕ
highest [] = 0
highest (e ∷ es) = max e.total_points_x10 (highest es)

unfoldable pub stats_of : List Entry → List ScoredPick → UserStats
unfolding streaks
stats_of es ps = record {
  contests_played = length es;
  contests_won = count is_first es;
  predictions_total = length ps;
  predictions_correct = count (λ p. p.is_correct) ps;
  total_points_x10 = sum_by (λ e. e.total_points_x10) es;
  highest_score_x10 = highest es;
  total_winnings_minor = sum_by (λ e. e.prize_minor) es;
  current_streak = (streaks es).0;
  best_streak = (streaks es).1;
  market_breakdown = market_breakdown_from [] ps;
  league_breakdown = league_breakdown_from [] ps;
  monthly_breakdown = monthly_breakdown_from [] ps;
}

-- `where: { entry: { userId }, scoredAt: { not: null } }`
abbrev is_scored_of : ℕ → Table Entry → Prediction → Bool
is_scored_of user entries p = elim (lookup p.entry_id entries) [
  | none ↦ false
  | some e ↦ (e.user_id == user) && not (is_null p.scored_at)
]

abbrev instant_of : Option ℕ → ℕ
instant_of none = 0
instant_of (some t) = t

-- The pick, with the league of its fixture.
abbrev pub pick_of : Db → ℕ × Prediction → Action ScoredPick
pick_of db (_, p) = do
  slot ← found (lookup p.slot_id db.contest_slots) type_error
  cm ← found (lookup slot.contest_match_id db.contest_matches) type_error
  f ← found (lookup cm.fixture_id db.fixtures) type_error
  return record {
    market_type = p.market_type;
    league_id = f.league_id;
    month = month_of (instant_of p.scored_at);
    is_correct = p.is_correct;
    points_x10 = p.points_x10;
  }

abbrev set_stats : ℕ → UserStats → Action Unit
set_stats user s = write λ db. record db { user_stats = insert user s db.user_stats }

unfoldable pub recompute_for_user : ℕ → Action Unit
unfolding settled_entries stats_of month_of
recompute_for_user user = do
  db ← tables
  picks ← map_action (pick_of db) (select (is_scored_of user db.entries) db.predictions)
  set_stats user (stats_of (settled_entries user db.entries) picks)

-- The members of `new Set(xs)`.
abbrev distinct : List ℕ → List ℕ
distinct [] = []
distinct (x ∷ xs) = let rest = distinct xs in if any (λ y. y == x) xs then rest else x ∷ rest

unfoldable pub recompute_for_contest : ℕ → Action Unit
unfolding recompute_for_user
recompute_for_contest contest = do
  db ← tables
  for_each recompute_for_user
      (distinct (map (λ (_, e). e.user_id) (select (λ e. e.contest_id == contest) db.entries)))
