-- ===== src/Settings/Keeps.antt =====
-- The settings keep the ledger sound.
use make_we_bet.Prelude.{ℕ, Bool}
use make_we_bet.Database.Keeps.{KeepsSound, keeps}
use make_we_bet.Difficulty.{Weights}
use make_we_bet.Settings.Admin.{
  Rules, create_rule_set, activate_rule_set, create_weight_set, activate_weight_set,
}

pub create_rule_set-KeepsSound :
    (admin : ℕ) (rules : Rules) (activate : Bool)
    → KeepsSound (create_rule_set admin rules activate)
unfolding create_rule_set KeepsSound
create_rule_set-KeepsSound admin rules activate = search keeps depth 9 fits 9000

pub activate_rule_set-KeepsSound : (admin id : ℕ) → KeepsSound (activate_rule_set admin id)
unfolding activate_rule_set KeepsSound
activate_rule_set-KeepsSound admin id = search keeps depth 9 fits 9000

pub create_weight_set-KeepsSound :
    (admin : ℕ) (weights : Weights) (activate : Bool)
    → KeepsSound (create_weight_set admin weights activate)
unfolding create_weight_set KeepsSound
create_weight_set-KeepsSound admin weights activate = search keeps depth 9 fits 9000

pub activate_weight_set-KeepsSound : (admin id : ℕ) → KeepsSound (activate_weight_set admin id)
unfolding activate_weight_set KeepsSound
activate_weight_set-KeepsSound admin id = search keeps depth 9 fits 9000
