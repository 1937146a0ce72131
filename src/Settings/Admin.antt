-- ===== src/Settings/Admin.antt =====
-- The handlers of SettingsAdminController that write, and the two bodies that they check.
use make_we_bet.Prelude.{
  ℕ, ◌+◌, ◌*◌, refl, max, Bool, ◌&&◌, List, [], ◌∷◌, any, length, ◌==◌, lookup, fresh,
  if◌then◌else◌,
}
use make_we_bet.Errors.{rule_set_not_found, weight_set_not_found}
use make_we_bet.Contracts.{
  MarketType, market_eq, market_tier, tier_eq, DifficultyTier, easy, medium, hard, expert,
  slot_distribution,
}
use make_we_bet.Database.{
  RuleSet, DifficultyWeightSet, Action, ◌>>=◌, ◌>>◌, return, tables, write, found, audit,
  rule_set_create, rule_set_activate, weight_set_create, weight_set_activate,
}
use make_we_bet.Difficulty.{Weights}
use make_we_bet.Settings.Versions.{Versioned, create_version, activate_version}

abbrev pub rule_sets_versioned : Versioned RuleSet
rule_sets_versioned = record {
  active = λ r. r.is_active;
  set_active = λ b r. record r { is_active = b };
  active-set_active = λ b r. refl;
}

abbrev pub weight_sets_versioned : Versioned DifficultyWeightSet
weight_sets_versioned = record {
  active = λ w. w.is_active;
  set_active = λ b w. record w { is_active = b };
  active-set_active = λ b w. refl;
}

abbrev pub Rules : Type 0
Rules = List (MarketType × ℕ)

abbrev all_markets_count : ℕ
all_markets_count = 10

-- `new Set(rules.map((r) => r.marketType)).size`
abbrev pub distinct_markets : Rules → ℕ
distinct_markets [] = 0
distinct_markets ((m, p) ∷ rules) =
    (if any (λ (n, q). market_eq n m) rules then 0 else 1) + distinct_markets rules

-- The `refine` of CreateRuleSetBody.
unfoldable pub has_all_markets : Rules → Bool
has_all_markets rules =
    (length rules == all_markets_count) && (distinct_markets rules == all_markets_count)

unfoldable pub create_rule_set : ℕ → Rules → Bool → Action ℕ
create_rule_set admin rules activate = do
  db ← tables
  let created : RuleSet = record { is_active = activate; market_rules = rules }
  write λ db. record db {
    rule_sets = create_version rule_sets_versioned activate created db.rule_sets;
  }
  audit admin (rule_set_create (fresh db.rule_sets))
  return (fresh db.rule_sets)

unfoldable pub activate_rule_set : ℕ → ℕ → Action Unit
activate_rule_set admin id = do
  db ← tables
  found (lookup id db.rule_sets) rule_set_not_found
  write λ db. record db { rule_sets = activate_version rule_sets_versioned id db.rule_sets }
  audit admin (rule_set_activate id)

unfoldable pub create_weight_set : ℕ → Weights → Bool → Action ℕ
create_weight_set admin weights activate = do
  db ← tables
  let created : DifficultyWeightSet = record { weights = weights; is_active = activate }
  write λ db. record db {
    weight_sets = create_version weight_sets_versioned activate created db.weight_sets;
  }
  audit admin (weight_set_create (fresh db.weight_sets))
  return (fresh db.weight_sets)

unfoldable pub activate_weight_set : ℕ → ℕ → Action Unit
activate_weight_set admin id = do
  db ← tables
  found (lookup id db.weight_sets) weight_set_not_found
  write λ db. record db { weight_sets = activate_version weight_sets_versioned id db.weight_sets }
  audit admin (weight_set_activate id)

-- `Math.max(0, ...rules.filter(…).map(…))`
abbrev pub best_of : DifficultyTier → Rules → ℕ
best_of tier [] = 0
best_of tier ((m, p) ∷ rules) =
    if tier_eq (market_tier m) tier then max p (best_of tier rules) else best_of tier rules

unfoldable pub max_slip_score : Rules → ℕ
max_slip_score rules =
    best_of easy rules * slot_distribution easy
    + best_of medium rules * slot_distribution medium
    + best_of hard rules * slot_distribution hard
    + best_of expert rules * slot_distribution expert
