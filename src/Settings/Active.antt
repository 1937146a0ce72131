-- ===== src/Settings/Active.antt =====
-- One version of the rules and one of the weights is active.
use make_we_bet.Prelude.{
  ℕ, ◌≡◌, ◌∙◌, refl, Table, Bool, true, false, some, inl, inr, Option-cases, lookup,
}
use make_we_bet.Errors.{ok, err, rule_set_not_found}
use make_we_bet.Database.{RuleSet, Db}
use make_we_bet.Contests.{active_rule_set}
use make_we_bet.Difficulty.{Weights}
use make_we_bet.Settings.Versions.{
  active_count, create_version, activate_version, activate_version-one, create_version-one,
  create_version-same, activate_version-found, Versioned,
}
use make_we_bet.Settings.Admin.{
  Rules, rule_sets_versioned, weight_sets_versioned, create_rule_set, activate_rule_set,
  create_weight_set, activate_weight_set,
}

abbrev pub HasOneActive : Db → Type 0
HasOneActive db =
    (active_count rule_sets_versioned db.rule_sets ≡ 1)
    × (active_count weight_sets_versioned db.weight_sets ≡ 1)

-- One write of an administrator.
pub data SettingsStep : Db → Db → Type 0 where
  rule_set_created :
      (admin : ℕ) (rules : Rules) (activate : Bool) (db : Db)
      → SettingsStep db (create_rule_set admin rules activate db).1
  rule_set_activated : (admin id : ℕ) (db : Db) → SettingsStep db (activate_rule_set admin id db).1
  weight_set_created :
      (admin : ℕ) (weights : Weights) (activate : Bool) (db : Db)
      → SettingsStep db (create_weight_set admin weights activate db).1
  weight_set_activated :
      (admin id : ℕ) (db : Db) → SettingsStep db (activate_weight_set admin id db).1

created-one :
    {V : Type 0} (versioned : Versioned V) (activate : Bool) (v : V) (t : Table V)
    → active_count versioned t ≡ 1
    → active_count versioned (create_version versioned activate v t) ≡ 1
created-one versioned true v t one = create_version-one versioned v t
created-one versioned false v t one = create_version-same versioned v t ∙ one

activated_rule_set :
    (admin id : ℕ) (db : Db) {r : RuleSet}
    → lookup id db.rule_sets ≡ some r
    → ((activate_rule_set admin id db).1.rule_sets
        ≡ activate_version rule_sets_versioned id db.rule_sets)
      × ((activate_rule_set admin id db).1.weight_sets ≡ db.weight_sets)
unfolding activate_rule_set
activated_rule_set admin id db e = rw e (refl, refl)

-- Every write keeps one rule set and one weight set active, whether it returns or throws.
pub SettingsStep-HasOneActive :
    {db db' : Db} → SettingsStep db db' → HasOneActive db → HasOneActive db'
unfolding create_rule_set activate_rule_set create_weight_set activate_weight_set
SettingsStep-HasOneActive (rule_set_created admin rules activate db) (r, w) =
    (created-one rule_sets_versioned activate _ db.rule_sets r, w)
SettingsStep-HasOneActive (rule_set_activated admin id db) (r, w) =
    elim (Option-cases (lookup id db.rule_sets)) [
      | inl absent ↦ rw absent (r, w)
      | inr (v, e) ↦ rw e (activate_version-one rule_sets_versioned id db.rule_sets e, w)
    ]
SettingsStep-HasOneActive (weight_set_created admin weights activate db) (r, w) =
    (r, created-one weight_sets_versioned activate _ db.weight_sets w)
SettingsStep-HasOneActive (weight_set_activated admin id db) (r, w) =
    elim (Option-cases (lookup id db.weight_sets)) [
      | inl absent ↦ rw absent (r, w)
      | inr (v, e) ↦ rw e (r, activate_version-one weight_sets_versioned id db.weight_sets e)
    ]

-- The rule set that an activation which returned names is the one that a new contest is given.
pub activate_rule_set-active_rule_set :
    (admin id : ℕ) (db : Db)
    → (activate_rule_set admin id db).0 ≡ ok tt
    → (r : RuleSet) × (active_rule_set (activate_rule_set admin id db).1.rule_sets ≡ some (id, r))
unfolding activate_rule_set
activate_rule_set-active_rule_set admin id db h = elim (Option-cases (lookup id db.rule_sets)) [
  | inl absent ↦ absurd (let h' : err rule_set_not_found ≡ ok tt = rw absent at h in cc h')
  | inr (v, e) ↦ rw e (activate_version-found rule_sets_versioned id db.rule_sets e)
]
