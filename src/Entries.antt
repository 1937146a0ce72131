-- ===== src/Entries.antt =====
-- EntriesService of apps/api/src/modules/predictions/entries.service.ts: a slip is checked, the fee
-- moves into the contest's escrow, and the entry is written with its ten predictions.
pub mod Keeps
pub mod Atomic
pub mod Admission
use make_we_bet.Prelude.{
  ℕ, zero, ◌+◌, Bool, true, false, ◌&&◌, ◌||◌, not, Option, none, some, List, [], ◌∷◌, map, ltb,
  leb, ◌==◌, if◌then◌else◌, length, ℤ, pos, Table, lookup, insert, select, first?, fresh,
}
use make_we_bet.Errors.{
  Error, contest_not_found, contest_closed, contest_full, invalid_slip, insufficient_funds,
  insufficient_funds_on, already_entered, unique_violation, type_error, Result, ok,
}
use make_we_bet.Contracts.{
  MarketType, market_eq, ContestStatus, published, status_eq, default_tier_points_x10,
  RiskSlotInput, RiskMeterResult, compute_risk_meter, String, entry_paid,
}
use make_we_bet.Slip.{SlotDefinition, SlipPrediction, SlipViolation, validate_slip}
use make_we_bet.Ledger.{PostJournalInput, entry_fee, entry_key}
use make_we_bet.Ledger.Transfer.{transfer}
use make_we_bet.Database.{
  Contest, ContestSlot, FixtureDifficulty, Entry, EntryStatus, active, refunded, settled_entry,
  Prediction, Db, Action, ◌>>=◌, ◌>>◌, return, throw, tables, write, require, found, transaction,
  rethrow, map_action, post_journal, emit,
}
use make_we_bet.Wallet.{user_wallet, escrow_of, is_null}

pub record SubmitSlipRequest : Type 0 where
  pub contest_id : ℕ
  pub idempotency_key : ℕ
  pub predictions : List SlipPrediction

-- `findUnique({ where: { id, deletedAt: null } })`
abbrev pub live_contest : ℕ → Table Contest → Option Contest
live_contest id t = elim (lookup id t) [
  | none ↦ none
  | some c ↦ if is_null c.deleted_at then some c else none
]

abbrev pub is_active : Entry → Bool
is_active e = elim e.status [ active ↦ true | _ ↦ false ]

abbrev pub active_entries : ℕ → Table Entry → List (ℕ × Entry)
active_entries contest t = select (λ e. (e.contest_id == contest) && is_active e) t

abbrev pub slots_of : ℕ → Table ContestSlot → List (ℕ × ContestSlot)
slots_of contest t = select (λ s. s.contest_id == contest) t

abbrev pub slot_definition : ℕ × ContestSlot → SlotDefinition
slot_definition (id, s) = record { slot_id = id; tier = s.tier }

-- `!contest.lockAt || contest.lockAt <= now`
abbrev pub has_passed : Option ℕ → ℕ → Bool
has_passed none now = true
has_passed (some t) now = leb t now

unfoldable pub is_open : Contest → ℕ → Bool
is_open c now = status_eq c.status published && not (has_passed c.lock_at now)

-- `contest.maxEntries && count >= contest.maxEntries`: a maximum of zero is none.
unfoldable pub is_full : Contest → ℕ → Bool
is_full c entered = elim c.max_entries [ none ↦ false | some m ↦ not (m == 0) && leb m entered ]

-- `new Map(marketRules.map((r) => [r.marketType, r.pointsX10])).get(market)`
abbrev pub points_of : MarketType → List (MarketType × ℕ) → Option ℕ
points_of market [] = none
points_of market ((m, points) ∷ rules) = elim (points_of market rules) [
  | some later ↦ some later
  | none ↦ if market_eq m market then some points else none
]

abbrev value_or : ℕ → Option ℕ → ℕ
value_or d none = d
value_or d (some v) = v

-- `new Map(rows.map((r) => [r.fixtureId, r.overrideStars ?? r.stars])).get(fixtureId) ?? 3`
abbrev pub stars_or_three : Option FixtureDifficulty → ℕ
stars_or_three none = 3
stars_or_three (some d) = value_or d.stars d.override_stars

abbrev pub stars_of : ℕ → Table FixtureDifficulty → ℕ
stars_of fixture t = stars_or_three (lookup fixture t)

-- The risk of one prediction; the slot that it names is among the contest's.
unfoldable pub risk_slot : Db → List (MarketType × ℕ) → SlipPrediction → Action RiskSlotInput
risk_slot db rules p = do
  slot ← found (lookup p.slot_id db.contest_slots) type_error
  cm ← found (lookup slot.contest_match_id db.contest_matches) type_error
  return record {
    market_type = p.market_type;
    stars = stars_of cm.fixture_id db.difficulties;
    points_x10 = value_or (default_tier_points_x10 slot.tier) (points_of p.market_type rules);
  }

abbrev pub fee_journal : ℕ → ℕ → ℕ → ℕ → PostJournalInput
fee_journal key wallet escrow fee = transfer entry_fee (entry_key key) wallet escrow (pos fee)

abbrev is_null_row : Option (ℕ × Entry) → Bool
is_null_row none = true
is_null_row (some _) = false

abbrev pub has_entered : ℕ → ℕ → Table Entry → Bool
has_entered contest user t =
    not (is_null_row (first? (λ e. (e.contest_id == contest) && (e.user_id == user)) t))

abbrev pub new_entry : ℕ → ℕ → ℕ → RiskMeterResult → ℕ → Entry
new_entry contest user journal risk now = record {
  contest_id = contest;
  user_id = user;
  status = active;
  submitted_at = now;
  fee_journal_id = journal;
  total_points_x10 = 0;
  correct_count = 0;
  correct_expert = 0;
  correct_hard = 0;
  final_rank = none;
  prize_minor = 0;
  risk_profile = risk.profile;
  risk_pct = risk.risk_pct;
}

abbrev pub new_prediction : ℕ → SlipPrediction → Prediction
new_prediction entry p = record {
  entry_id = entry;
  slot_id = p.slot_id;
  market_type = p.market_type;
  selection = p.selection;
  is_correct = false;
  points_x10 = 0;
  scored_at = none;
}

abbrev pub create_predictions : ℕ → List SlipPrediction → Table Prediction → Table Prediction
create_predictions entry [] t = t
create_predictions entry (p ∷ ps) t =
    create_predictions entry ps (insert (fresh t) (new_prediction entry p) t)

-- `tx.entry.create`: the pair of contest and user is unique.
unfoldable pub create_entry : Entry → List SlipPrediction → Action ℕ
create_entry e ps = do
  db ← tables
  require (not (has_entered e.contest_id e.user_id db.entries)) unique_violation
  let id = fresh db.entries
  write λ db. record db {
    entries = insert id e db.entries;
    predictions = create_predictions id ps db.predictions;
  }
  return id

-- The body of the transaction.
unfoldable pub pay_and_enter : ℕ → ℕ → Contest → SubmitSlipRequest → RiskMeterResult → Action ℕ
pay_and_enter now user contest dto risk = do
  (wallet, _) ← user_wallet user
  (escrow, _) ← escrow_of dto.contest_id
  journal ← post_journal (fee_journal dto.idempotency_key wallet escrow contest.entry_fee_minor)
  entry ← create_entry (new_entry dto.contest_id user journal risk now) dto.predictions
  emit (entry_paid dto.contest_id)
  return entry

-- The `catch` of `submitSlip`.
abbrev pub entry_error : Error → Error
entry_error (insufficient_funds_on _) = insufficient_funds
entry_error unique_violation = already_entered
entry_error e = e

abbrev pub is_empty : List SlipViolation → Bool
is_empty [] = true
is_empty (_ ∷ _) = false

-- What a slip must pass before money moves.
unfoldable pub admit : ℕ → Db → SubmitSlipRequest → Action Contest
unfolding is_open is_full
admit now db dto = do
  contest ← found (live_contest dto.contest_id db.contests) contest_not_found
  require (is_open contest now) contest_closed
  require (not (is_full contest (length (active_entries dto.contest_id db.entries)))) contest_full
  require
      (is_empty (
        validate_slip (map slot_definition (slots_of dto.contest_id db.contest_slots))
          dto.predictions))
      invalid_slip
  return contest

unfoldable pub submit_slip : ℕ → ℕ → SubmitSlipRequest → Action ℕ
unfolding admit risk_slot pay_and_enter
submit_slip now user dto = do
  db ← tables
  contest ← admit now db dto
  rules ← found (lookup contest.rule_set_id db.rule_sets) type_error
  inputs ← map_action (risk_slot db rules.market_rules) dto.predictions
  rethrow entry_error (transaction (pay_and_enter now user contest dto (compute_risk_meter inputs)))
