-- ===== src/Slip.antt =====
-- apps/api/src/modules/predictions/slip-validator.ts: the Balanced Challenge rule. The messages of
-- the violations are left out; slot ids are numbers, since they are only compared.
pub mod Laws
use make_we_bet.Prelude.{
  ℕ, zero, suc, ◌+◌, Bool, true, false, not, ◌&&◌, ◌||◌, Option, none, some, List, [], ◌∷◌, ◌++◌,
  ◌==◌, if◌then◌else◌, length, count,
}
use make_we_bet.Contracts.{
  DifficultyTier, easy, medium, hard, expert, tier_eq, MarketType, market_tier, String,
  is_valid_selection, slot_distribution, total_slots,
}

pub record SlotDefinition : Type 0 where
  pub slot_id : ℕ
  pub tier : DifficultyTier

pub record SlipPrediction : Type 0 where
  pub slot_id : ℕ
  pub market_type : MarketType
  pub selection : String

pub data SlipViolation : Type 0 where
  bad_slot_config wrong_count : SlipViolation
  unknown_slot duplicate_slot missing_slot : ℕ → SlipViolation
  market_tier_mismatch invalid_selection : ℕ → SlipViolation

abbrev pub count_tier : DifficultyTier → List SlotDefinition → ℕ
count_tier tier slots = count (λ s. tier_eq s.tier tier) slots

abbrev pub is_distributed : List SlotDefinition → DifficultyTier → Bool
is_distributed slots tier = count_tier tier slots == slot_distribution tier

unfoldable pub validate_slot_configuration : List SlotDefinition → List SlipViolation
validate_slot_configuration slots =
    if (length slots == total_slots)
      && (is_distributed slots easy
          && (is_distributed slots medium
              && (is_distributed slots hard && is_distributed slots expert)))
    then []
    else bad_slot_config ∷ []

-- `new Map(slots.map((s) => [s.slotId, s])).get(id)`: of two slots with one id the later stays.
unfoldable pub slot_by_id : ℕ → List SlotDefinition → Option SlotDefinition
slot_by_id id [] = none
slot_by_id id (s ∷ ss) = elim (slot_by_id id ss) [
  | some later ↦ some later
  | none ↦ if s.slot_id == id then some s else none
]

-- `seen.has`
abbrev pub has : ℕ → List ℕ → Bool
has k [] = false
has k (x ∷ xs) = x == k || has k xs

abbrev pub check_tier : SlipPrediction → SlotDefinition → List SlipViolation
check_tier p slot =
    if tier_eq (market_tier p.market_type) slot.tier
    then []
    else market_tier_mismatch p.slot_id ∷ []

abbrev pub check_selection : SlipPrediction → List SlipViolation
check_selection p =
    if is_valid_selection p.market_type p.selection then [] else invalid_selection p.slot_id ∷ []

-- The body of the loop over the predictions, with the ids seen so far.
unfoldable pub check_prediction :
    List SlotDefinition → SlipPrediction → List ℕ → List SlipViolation × List ℕ
check_prediction slots p seen = elim (slot_by_id p.slot_id slots) [
  | none ↦ (unknown_slot p.slot_id ∷ [], seen)
  | some slot ↦
      if has p.slot_id seen
      then (duplicate_slot p.slot_id ∷ [], seen)
      else (check_tier p slot ++ check_selection p, p.slot_id ∷ seen)
]

unfoldable pub check_predictions :
    List SlotDefinition → List SlipPrediction → List ℕ → List SlipViolation × List ℕ
unfolding check_prediction
check_predictions slots [] seen = ([], seen)
check_predictions slots (p ∷ ps) seen =
    let (first, seen') = check_prediction slots p seen in
    let (rest, seen'') = check_predictions slots ps seen' in (first ++ rest, seen'')

unfoldable pub missing_slots : List SlotDefinition → List ℕ → List SlipViolation
missing_slots [] seen = []
missing_slots (s ∷ ss) seen =
    if has s.slot_id seen
    then missing_slots ss seen
    else missing_slot s.slot_id ∷ missing_slots ss seen

-- What follows the check of the configuration.
unfoldable pub check_slip : List SlotDefinition → List SlipPrediction → List SlipViolation
unfolding check_predictions missing_slots
check_slip slots predictions =
    if length predictions == total_slots
    then (let (violations, seen) = check_predictions slots predictions [] in
        violations ++ missing_slots slots seen)
    else wrong_count ∷ []

unfoldable pub validate_slip : List SlotDefinition → List SlipPrediction → List SlipViolation
unfolding validate_slot_configuration check_slip
validate_slip slots predictions = elim (validate_slot_configuration slots) [
  | [] ↦ check_slip slots predictions
  | v ∷ vs ↦ v ∷ vs
]
