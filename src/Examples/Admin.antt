-- ===== src/Examples/Admin.antt =====
-- The settings, the outbox and the statistics at concrete inputs.
use mathlib.Core.Path.{subst}
use mathlib.Core.List.{Mem, mem-cons_self, mem-cons_of_mem}
use make_we_bet.Prelude.{
  ◌≤◌, ℕ, ◌≡◌, ◌↔◌, refl, true, false, none, some, List, [], ◌∷◌, arith, Table, lookup, count_rows,
}
use make_we_bet.Errors.{Result, ok}
use make_we_bet.Contracts.{safe, MarketType, match_winner, btts, Event, contest_locked}
use make_we_bet.Database.{Entry, settled_entry, RuleSet, OutboxEvent, Db}
use make_we_bet.Contests.{active_rule_set}
use make_we_bet.Settings.Admin.{Rules, has_all_markets, create_rule_set, activate_rule_set}
use make_we_bet.Settings.Rules.{rules_for, has_all_markets_iff}
use make_we_bet.Settings.Active.{
  HasOneActive, SettingsStep-HasOneActive, rule_set_created, activate_rule_set-active_rule_set,
}
use make_we_bet.Outbox.{is_unpublished, ticks}
use make_we_bet.Outbox.Drained.{ticks-drained}
use make_we_bet.Stats.{ScoredPick, stats_of}
use make_we_bet.Stats.Streaks.{HasRun, EndsInRun, stats_of-streaks}
use make_we_bet.Stats.Breakdown.{tally_of, picks_on, stats_of-market_breakdown}
use make_we_bet.Examples.{some_ledger, empty_db}

abbrev some_rules : Rules
some_rules = (match_winner, 50) ∷ (btts, 100) ∷ []

has_all_markets_iff_example :
    (has_all_markets some_rules ≡ true) ↔ ((m : MarketType) → rules_for m some_rules ≡ 1)
has_all_markets_iff_example = has_all_markets_iff some_rules

abbrev settings_db : Db
settings_db = record (empty_db some_ledger) {
  rule_sets =
      (0, record { is_active = true; market_rules = [] })
      ∷ (1, record { is_active = false; market_rules = some_rules })
      ∷ [];
  weight_sets = (0, record { weights = []; is_active = true }) ∷ [];
}

SettingsStep-HasOneActive_example : HasOneActive (create_rule_set 9 some_rules true settings_db).1
SettingsStep-HasOneActive_example =
    SettingsStep-HasOneActive (rule_set_created 9 some_rules true settings_db) (refl, refl)

activate_rule_set-active_rule_set_example :
    (r : RuleSet) × (active_rule_set (activate_rule_set 9 1 settings_db).1.rule_sets ≡ some (1, r))
unfolding activate_rule_set
activate_rule_set-active_rule_set_example = activate_rule_set-active_rule_set 9 1 settings_db refl

-- A queue that keeps what it is given.
abbrev add_job : ℕ → Event → List (ℕ × Event) → Result (List (ℕ × Event))
add_job id e q = ok ((id, e) ∷ q)

abbrev some_outbox : Table OutboxEvent
some_outbox =
    (0, record { event = contest_locked 3; published_at = none; attempts = 0 })
    ∷ (1, record { event = contest_locked 4; published_at = none; attempts = 2 })
    ∷ []

abbrev HasJob : ℕ → Event → List (ℕ × Event) → Type 0
HasJob id e q = Mem (id, e) q

add_job-HasJob :
    (id : ℕ) (e : Event) (q q' : List (ℕ × Event)) → add_job id e q ≡ ok q' → HasJob id e q'
add_job-HasJob id e q q' h =
    let same : ((id, e) ∷ q) ≡ q' = ground arith in subst (Mem (id, e)) same mem-cons_self

add_job-stays :
    (id j : ℕ) (e f : Event) (q q' : List (ℕ × Event))
    → add_job id e q ≡ ok q'
    → HasJob j f q
    → HasJob j f q'
add_job-stays id j e f q q' h there =
    let same : ((id, e) ∷ q) ≡ q' = ground arith in
    subst (Mem (j, f)) same (mem-cons_of_mem (id, e) there)

ticks-drained_example :
    let after = ticks add_job (50 ∷ []) ([], some_outbox) in
    (count_rows is_unpublished after.1 ≡ 0)
    × ((j : ℕ) (r : OutboxEvent)
        → lookup j some_outbox ≡ some r
        → is_unpublished r ≡ true
        → HasJob j r.event after.0)
ticks-drained_example =
    ticks-drained add_job (λ id e q. ((id, e) ∷ q, refl)) HasJob add_job-HasJob add_job-stays
      (50 ∷ []) [] some_outbox (refl, (refl, tt)) (omega arith)

abbrev settled_with : ℕ → ℕ → Entry
settled_with at prize = record {
  contest_id = 3;
  user_id = 7;
  status = settled_entry;
  submitted_at = at;
  fee_journal_id = 0;
  total_points_x10 = 500;
  correct_count = 5;
  correct_expert = 0;
  correct_hard = 1;
  final_rank = some 1;
  prize_minor = prize;
  risk_profile = safe;
  risk_pct = none;
}

abbrev won_lost_won : List Entry
won_lost_won = settled_with 1 100 ∷ settled_with 2 0 ∷ settled_with 3 50 ∷ []

abbrev one_pick : ScoredPick
one_pick = record {
  market_type = btts;
  league_id = 0;
  month = 202601;
  is_correct = true;
  points_x10 = 100;
}

stats_of-streaks_example :
    HasRun won_lost_won (stats_of won_lost_won []).best_streak
    × ((n : ℕ) → HasRun won_lost_won n → n ≤ (stats_of won_lost_won []).best_streak)
    × EndsInRun won_lost_won (stats_of won_lost_won []).current_streak
stats_of-streaks_example = stats_of-streaks won_lost_won []

stats_of-market_breakdown_example :
    tally_of btts (stats_of won_lost_won (one_pick ∷ [])).market_breakdown
    ≡ picks_on btts (one_pick ∷ [])
stats_of-market_breakdown_example = stats_of-market_breakdown won_lost_won (one_pick ∷ []) btts
