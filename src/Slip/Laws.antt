-- ===== src/Slip/Laws.antt =====
-- The validator finds no violation exactly in the slips that the rule describes.
use mathlib.Core.Path.{subst}
use make_we_bet.Prelude.{
  ℕ, ◌≡◌, ◌↔◌, refl, sym, ap, ◌∙◌, ◌⊎◌, inl, inr, Bool, true, false, ◌||◌, some, List, [], ◌∷◌,
  ◌++◌, arith, ◌==◌, Bool-cases, Option-cases, length, All,
}
use make_we_bet.Contracts.{
  easy, medium, hard, expert, tier_eq, market_tier, is_valid_selection, total_slots,
}
use make_we_bet.Slip.{
  SlotDefinition, SlipPrediction, count_tier, validate_slot_configuration, unknown_slot,
  duplicate_slot, missing_slot, wrong_count, slot_by_id, has, check_tier, check_selection,
  check_prediction, check_predictions, missing_slots, check_slip, validate_slip,
}

-- Ten slots, two easy, three medium, three hard and two expert.
pub record IsBalancedConfiguration (slots : List SlotDefinition) : Type 0 where
  pub ten : length slots ≡ total_slots
  pub easy_slots : count_tier easy slots ≡ 2
  pub medium_slots : count_tier medium slots ≡ 3
  pub hard_slots : count_tier hard slots ≡ 3
  pub expert_slots : count_tier expert slots ≡ 2

pub validate_slot_configuration-IsBalanced :
    (slots : List SlotDefinition)
    → validate_slot_configuration slots ≡ []
    → IsBalancedConfiguration slots
unfolding validate_slot_configuration
validate_slot_configuration-IsBalanced slots h = ground arith

pub IsBalanced-validate_slot_configuration :
    (slots : List SlotDefinition)
    → IsBalancedConfiguration slots
    → validate_slot_configuration slots ≡ []
unfolding validate_slot_configuration
IsBalanced-validate_slot_configuration slots b = ground arith

-- A prediction names a slot, a market of its tier and a selection of the market.
pub record Fits (slots : List SlotDefinition) (p : SlipPrediction) : Type 0 where
  pub slot : SlotDefinition
  pub found : slot_by_id p.slot_id slots ≡ some slot
  pub tier : tier_eq (market_tier p.market_type) slot.tier ≡ true
  pub selection : is_valid_selection p.market_type p.selection ≡ true

abbrev pub slot_ids : List SlipPrediction → List ℕ
slot_ids [] = []
slot_ids (p ∷ ps) = p.slot_id ∷ slot_ids ps

-- No id stands twice, and none is among the ids of the second list.
abbrev pub AreNew : List SlipPrediction → List ℕ → Type 0
AreNew [] seen = Unit
AreNew (p ∷ ps) seen = (has p.slot_id seen ≡ false) × AreNew ps (p.slot_id ∷ seen)

pub record IsSlip (slots : List SlotDefinition) (ps : List SlipPrediction) : Type 0 where
  pub configuration : IsBalancedConfiguration slots
  pub ten : length ps ≡ total_slots
  pub fit : All (Fits slots) ps
  pub distinct : AreNew ps []
  pub covered : All (λ s. has s.slot_id (slot_ids ps) ≡ true) slots

append-eq-nil : {A : Type 0} (xs ys : List A) → xs ++ ys ≡ [] → (xs ≡ []) × (ys ≡ [])
append-eq-nil [] ys h = (refl, h)
append-eq-nil (x ∷ xs) ys h = absurd (cc h)

-- What the body of the loop says of a prediction without a violation.
Passes : List SlotDefinition → SlipPrediction → List ℕ → Type 0
Passes slots p seen =
    Fits slots p
    × (has p.slot_id seen ≡ false)
    × ((check_prediction slots p seen).1 ≡ p.slot_id ∷ seen)

check_prediction-Fits :
    (slots : List SlotDefinition) (p : SlipPrediction) (seen : List ℕ)
    → (check_prediction slots p seen).0 ≡ []
    → Passes slots p seen
unfolding check_prediction Passes
check_prediction-Fits slots p seen h = elim (Option-cases (slot_by_id p.slot_id slots)) [
  | inl e ↦
      absurd (let h' : unknown_slot p.slot_id ∷ [] ≡ [] = rw (e, check_prediction) at h in cc h')
  | inr (slot, e) ↦ elim (Bool-cases (has p.slot_id seen)) [
    | inl d ↦
        absurd
          (let h' : duplicate_slot p.slot_id ∷ [] ≡ [] = rw (e, check_prediction, d) at h in cc h')
    | inr d ↦
        let h' : check_tier p slot ++ check_selection p ≡ [] = rw (e, check_prediction, d) at h in
        let (a, b) = append-eq-nil (check_tier p slot) (check_selection p) h' in
        (
          record { slot = slot; found = e; tier = ground arith; selection = ground arith },
          d,
          rw (e, check_prediction, d),
        )
  ]
]

Fits-check_prediction :
    (slots : List SlotDefinition) (p : SlipPrediction) (seen : List ℕ)
    → Fits slots p
    → has p.slot_id seen ≡ false
    → check_prediction slots p seen ≡ ([], p.slot_id ∷ seen)
unfolding check_prediction
Fits-check_prediction slots p seen f new = rw (f.found, check_prediction, new, f.tier, f.selection)

-- The ids seen after predictions that all pass.
abbrev pushed : List SlipPrediction → List ℕ → List ℕ
pushed [] seen = seen
pushed (p ∷ ps) seen = pushed ps (p.slot_id ∷ seen)

has-pushed :
    (k : ℕ) (ps : List SlipPrediction) (seen : List ℕ)
    → has k (pushed ps seen) ≡ (has k (slot_ids ps) || has k seen)
has-pushed k [] seen = refl
has-pushed k (p ∷ ps) seen = ground (arith, has-pushed k ps (p.slot_id ∷ seen))

AllPass : List SlotDefinition → List SlipPrediction → List ℕ → Type 0
AllPass slots ps seen =
    All (Fits slots) ps × AreNew ps seen × ((check_predictions slots ps seen).1 ≡ pushed ps seen)

check_predictions-Fits :
    (slots : List SlotDefinition) (ps : List SlipPrediction) (seen : List ℕ)
    → (check_predictions slots ps seen).0 ≡ []
    → AllPass slots ps seen
unfolding check_predictions AllPass Passes
check_predictions-Fits slots [] seen h = (tt, tt, refl)
check_predictions-Fits slots (p ∷ ps) seen h =
    let (a, b) = append-eq-nil _ _ h in
    let (f, new, e) = check_prediction-Fits slots p seen a in
    let (fs, news, es) = check_predictions-Fits slots ps (p.slot_id ∷ seen) (rw e at b) in
    ((f, fs), (new, news), ap (λ xs. (check_predictions slots ps xs).1) e ∙ es)

Fits-check_predictions :
    (slots : List SlotDefinition) (ps : List SlipPrediction) (seen : List ℕ)
    → All (Fits slots) ps
    → AreNew ps seen
    → check_predictions slots ps seen ≡ ([], pushed ps seen)
unfolding check_predictions
Fits-check_predictions slots [] seen f new = refl
Fits-check_predictions slots (p ∷ ps) seen (f, fs) (new, news) = rw (
  Fits-check_prediction slots p seen f new,
  Fits-check_predictions slots ps (p.slot_id ∷ seen) fs news,
)

missing_slots-covered :
    (slots : List SlotDefinition) (seen : List ℕ)
    → missing_slots slots seen ≡ []
    → All (λ s. has s.slot_id seen ≡ true) slots
unfolding missing_slots
missing_slots-covered [] seen h = tt
missing_slots-covered (s ∷ ss) seen h = elim (Bool-cases (has s.slot_id seen)) [
  | inl e ↦ (e, missing_slots-covered ss seen (rw e at h))
  | inr e ↦
      absurd (let h' : missing_slot s.slot_id ∷ missing_slots ss seen ≡ [] = rw e at h in cc h')
]

covered-missing_slots :
    (slots : List SlotDefinition) (seen : List ℕ)
    → All (λ s. has s.slot_id seen ≡ true) slots
    → missing_slots slots seen ≡ []
unfolding missing_slots
covered-missing_slots [] seen h = refl
covered-missing_slots (s ∷ ss) seen (e, es) = rw e (covered-missing_slots ss seen es)

List-cases : {A : Type 0} (xs : List A) → (xs ≡ []) ⊎ ((y : A) × (ys : List A) × (xs ≡ y ∷ ys))
List-cases [] = inl refl
List-cases (x ∷ xs) = inr (x, xs, refl)

validate_slip-parts :
    (slots : List SlotDefinition) (ps : List SlipPrediction)
    → validate_slip slots ps ≡ []
    → (validate_slot_configuration slots ≡ []) × (check_slip slots ps ≡ [])
unfolding validate_slip
validate_slip-parts slots ps h = elim (List-cases (validate_slot_configuration slots)) [
  | inl e ↦ (e, (rw (e, validate_slip) at h))
  | inr (v, vs, e) ↦ absurd (let h' : v ∷ vs ≡ [] = rw (e, validate_slip) at h in cc h')
]

check_slip-parts :
    (slots : List SlotDefinition) (ps : List SlipPrediction)
    → check_slip slots ps ≡ []
    → (length ps ≡ total_slots)
      × ((check_predictions slots ps []).0 ≡ [])
      × (missing_slots slots (check_predictions slots ps []).1 ≡ [])
unfolding check_slip
check_slip-parts slots ps h = elim (Bool-cases (length ps == total_slots)) [
  | inl e ↦ let (v, m) = append-eq-nil _ _ (rw e at h) in (ground arith, v, m)
  | inr e ↦ absurd (let h' : wrong_count ∷ [] ≡ [] = rw e at h in cc h')
]

-- Two lists of ids with the same members cover the same slots.
covered-ext :
    (xs ys : List ℕ) (slots : List SlotDefinition)
    → ((k : ℕ) → has k xs ≡ has k ys)
    → All (λ s. has s.slot_id xs ≡ true) slots
    → All (λ s. has s.slot_id ys ≡ true) slots
covered-ext xs ys [] same c = tt
covered-ext xs ys (s ∷ ss) same (c, cs) = (sym (same s.slot_id) ∙ c, covered-ext xs ys ss same cs)

or_false : (b : Bool) → (b || false) ≡ b
or_false true = refl
or_false false = refl

has-slot_ids : (ps : List SlipPrediction) (k : ℕ) → has k (pushed ps []) ≡ has k (slot_ids ps)
has-slot_ids ps k = has-pushed k ps [] ∙ or_false _

pub validate_slip-IsSlip :
    (slots : List SlotDefinition) (ps : List SlipPrediction)
    → validate_slip slots ps ≡ []
    → IsSlip slots ps
unfolding AllPass
validate_slip-IsSlip slots ps h =
    let (c, h') = validate_slip-parts slots ps h in
    let (n, v, m) = check_slip-parts slots ps h' in
    let (fs, news, e) = check_predictions-Fits slots ps [] v in
    record {
      configuration = validate_slot_configuration-IsBalanced slots c;
      ten = n;
      fit = fs;
      distinct = news;
      covered = covered-ext (pushed ps []) (slot_ids ps) slots (has-slot_ids ps) (
          missing_slots-covered slots (pushed ps [])
            (subst (λ xs. missing_slots slots xs ≡ []) e m));
    }

IsSlip-check_slip :
    (slots : List SlotDefinition) (ps : List SlipPrediction)
    → IsSlip slots ps
    → check_slip slots ps ≡ []
unfolding check_slip
IsSlip-check_slip slots ps s =
    let ten : (length ps == total_slots) ≡ true = ground (arith, s.ten) in
    rw (ten, Fits-check_predictions slots ps [] s.fit s.distinct)
      (covered-missing_slots slots (pushed ps [])
        (covered-ext (slot_ids ps) (pushed ps []) slots (λ k. sym (has-slot_ids ps k)) s.covered))

IsSlip-validate_slip :
    (slots : List SlotDefinition) (ps : List SlipPrediction)
    → IsSlip slots ps
    → validate_slip slots ps ≡ []
unfolding validate_slip
IsSlip-validate_slip slots ps s =
    rw (IsBalanced-validate_slot_configuration slots s.configuration, validate_slip)
      (IsSlip-check_slip slots ps s)

-- The validator reports no violation exactly for ten predictions that name each of the ten slots
-- of a 2-3-3-2 configuration once, each with a market of the slot's tier and a selection of it.
pub validate_slip_iff :
    (slots : List SlotDefinition) (ps : List SlipPrediction)
    → (validate_slip slots ps ≡ []) ↔ IsSlip slots ps
validate_slip_iff slots ps = (validate_slip-IsSlip slots ps, IsSlip-validate_slip slots ps)
