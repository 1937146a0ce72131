-- ===== src/Contests.antt =====
-- ContestsService of apps/api/src/modules/contests/contests.service.ts: `create`, `publish`, `lock`
-- and `toListItem`. The slug, the title and the description are read by no rule and are left out;
-- so is the delayed job that calls `lock`.
pub mod Cancel
pub mod Laws
pub mod Atomic
use make_we_bet.Prelude.{
  ℕ, zero, suc, ◌+◌, ◌*◌, ◌/◌, ◌-◌, min, Bool, true, false, ◌&&◌, ◌||◌, not, Option, none, some,
  List, [], ◌∷◌, map, leb, ◌==◌, if◌then◌else◌, length, any, Table, lookup, insert, select, first?,
  fresh,
}
use make_we_bet.Errors.{
  bad_slot_config, slot_fixture_not_in_contest, duplicate_slot_no, fixture_not_found,
  fixture_not_schedulable, config_missing, contest_not_found, invalid_status, already_kicked_off,
  unique_violation, type_error,
}
use make_we_bet.Contracts.{
  DifficultyTier, ContestStatus, draft, published, locked, status_eq, contest_published,
  contest_locked,
}
use make_we_bet.Slip.{SlotDefinition, SlipViolation, validate_slot_configuration, has}
use make_we_bet.Ledger.{contest_escrow}
use make_we_bet.Ledger.Invariant.{opened, open_account}
use make_we_bet.Database.{
  Contest, ContestMatch, ContestSlot, Fixture, scheduled, RuleSet, PayoutTemplate, Db, Action,
  ◌>>=◌, ◌>>◌, return, tables, write, require, found, transaction, for_each, emit,
}
use make_we_bet.Wallet.{find_escrow, is_null}
use make_we_bet.Entries.{live_contest, has_passed}

pub record FixtureOrder : Type 0 where
  pub fixture_id : ℕ
  pub order : ℕ

pub record SlotRequest : Type 0 where
  pub slot_no : ℕ
  pub fixture_id : ℕ
  pub tier : DifficultyTier

-- `commission_bps` is the column's default of the schema.
pub record CreateContestRequest : Type 0 where
  pub entry_fee_minor : ℕ
  pub currency : ℕ
  pub max_entries : Option ℕ
  pub commission_bps : ℕ
  pub fixtures : List FixtureOrder
  pub slots : List SlotRequest

abbrev pub slot_of_request : SlotRequest → SlotDefinition
slot_of_request s = record { slot_id = s.slot_no; tier = s.tier }

abbrev pub fixture_ids : List FixtureOrder → List ℕ
fixture_ids [] = []
fixture_ids (f ∷ fs) = f.fixture_id ∷ fixture_ids fs

abbrev pub slot_nos : List SlotRequest → List ℕ
slot_nos [] = []
slot_nos (s ∷ ss) = s.slot_no ∷ slot_nos ss

-- `new Set(xs).size`
abbrev pub set_size : List ℕ → ℕ
set_size [] = 0
set_size (x ∷ xs) = if has x xs then set_size xs else suc (set_size xs)

abbrev is_empty : List SlipViolation → Bool
is_empty [] = true
is_empty (_ ∷ _) = false

abbrev pub is_orphan : List ℕ → SlotRequest → Bool
is_orphan ids s = not (has s.fixture_id ids)

-- Fixtures of the table with an id of the list.
abbrev pub fixtures_of : List ℕ → Table Fixture → List (ℕ × Fixture)
fixtures_of ids [] = []
fixtures_of ids ((k, f) ∷ t) = if has k ids then (k, f) ∷ fixtures_of ids t else fixtures_of ids t

abbrev is_scheduled : Fixture → Bool
is_scheduled f = elim f.status [ scheduled ↦ true | _ ↦ false ]

abbrev pub is_unusable : ℕ → ℕ × Fixture → Bool
is_unusable now (_, f) = not (is_scheduled f) || leb f.kickoff_at now

-- The checks before the transaction of `create`.
unfoldable pub check_request : ℕ → CreateContestRequest → Action Unit
check_request now dto = do
  require (is_empty (validate_slot_configuration (map slot_of_request dto.slots))) bad_slot_config
  let ids = fixture_ids dto.fixtures
  require (not (any (is_orphan ids) dto.slots)) slot_fixture_not_in_contest
  require (set_size (slot_nos dto.slots) == 10) duplicate_slot_no
  db ← tables
  let fixtures = fixtures_of ids db.fixtures
  require (length fixtures == set_size ids) fixture_not_found
  require (not (any (is_unusable now) fixtures)) fixture_not_schedulable

abbrev pub new_contest : CreateContestRequest → ℕ → ℕ → Contest
new_contest dto rules payout = record {
  status = draft;
  entry_fee_minor = dto.entry_fee_minor;
  currency = dto.currency;
  commission_bps = dto.commission_bps;
  max_entries = dto.max_entries;
  lock_at = none;
  rule_set_id = rules;
  payout_template_id = payout;
  deleted_at = none;
}

abbrev match_clashes : ℕ → FixtureOrder → ContestMatch → Bool
match_clashes contest f m =
    (m.contest_id == contest) && ((m.fixture_id == f.fixture_id) || (m.order == f.order))

abbrev is_absent : {A : Type 0} → Option A → Bool
is_absent none = true
is_absent (some _) = false

-- A match of the contest; its fixture and its place are unique in the contest.
unfoldable pub create_match : ℕ → FixtureOrder → Action Unit
create_match contest f = do
  db ← tables
  require (is_absent (first? (match_clashes contest f) db.contest_matches)) unique_violation
  write λ db. record db {
    contest_matches =
        insert (fresh db.contest_matches)
          (record { contest_id = contest; fixture_id = f.fixture_id; order = f.order })
          db.contest_matches;
  }

-- `matchByFixture.get(fixtureId)`
abbrev pub match_of : ℕ → ℕ → Table ContestMatch → Option (ℕ × ContestMatch)
match_of contest fixture t = first? (λ m. (m.contest_id == contest) && (m.fixture_id == fixture)) t

unfoldable pub create_slot : ℕ → SlotRequest → Action Unit
create_slot contest s = do
  db ← tables
  (m, _) ← found (match_of contest s.fixture_id db.contest_matches) type_error
  write λ db. record db {
    contest_slots =
        insert (fresh db.contest_slots)
          (record {
            contest_id = contest;
            contest_match_id = m;
            slot_no = s.slot_no;
            tier = s.tier;
          })
          db.contest_slots;
  }

unfoldable pub create_rows : CreateContestRequest → ℕ → ℕ → Action ℕ
unfolding create_match create_slot
create_rows dto rules payout = do
  db ← tables
  let id = fresh db.contests
  write λ db. record db { contests = insert id (new_contest dto rules payout) db.contests }
  for_each (create_match id) dto.fixtures
  for_each (create_slot id) dto.slots
  return id

abbrev pub active_rule_set : Table RuleSet → Option (ℕ × RuleSet)
active_rule_set t = first? (λ r. r.is_active) t

abbrev active_template : Table PayoutTemplate → Option (ℕ × PayoutTemplate)
active_template t = first? (λ p. p.is_active) t

unfoldable pub create : ℕ → CreateContestRequest → Action ℕ
unfolding check_request create_rows
create now dto = do
  check_request now dto
  db ← tables
  (rules, _) ← found (active_rule_set db.rule_sets) config_missing
  (payout, _) ← found (active_template db.payout_templates) config_missing
  transaction (create_rows dto rules payout)

-- `Math.min(...kickoffs)`; of no match it is Infinity, which makes an invalid date.
abbrev pub earliest_kickoff : List (ℕ × ContestMatch) → Table Fixture → Option ℕ
earliest_kickoff [] t = none
earliest_kickoff ((_, m) ∷ ms) t = elim (lookup m.fixture_id t) [
  | none ↦ earliest_kickoff ms t
  | some f ↦ elim (earliest_kickoff ms t) [
    | none ↦ some f.kickoff_at
    | some k ↦ some (min f.kickoff_at k)
  ]
]

abbrev pub set_contest : ℕ → Contest → Action Unit
set_contest id c = write λ db. record db { contests = insert id c db.contests }

-- The transaction of `publish`: the escrow is created with the update, and is unique.
unfoldable pub publish_rows : ℕ → ℕ → Contest → Action Unit
publish_rows id lock_at c = do
  db ← tables
  require (is_absent (find_escrow id db.ledger.accounts)) unique_violation
  set_contest id (record c { status = published; lock_at = some lock_at })
  write λ db. record db {
    ledger =
        open_account (fresh db.ledger.accounts) (opened contest_escrow none (some id) c.currency)
          db.ledger;
  }
  emit (contest_published id)

unfoldable pub publish : ℕ → ℕ → Action Unit
unfolding publish_rows
publish now id = do
  db ← tables
  c ← found (live_contest id db.contests) contest_not_found
  require (status_eq c.status draft) invalid_status
  lock_at ←
      found (earliest_kickoff (select (λ m. m.contest_id == id) db.contest_matches) db.fixtures)
        type_error
  require (not (leb lock_at now)) already_kicked_off
  transaction (publish_rows id lock_at c)

abbrev pub lock_found : ℕ → Option Contest → Action Unit
lock_found id none = return tt
lock_found id (some c) = elim (status_eq c.status published) [
  | true ↦ set_contest id (record c { status = locked }) >> emit (contest_locked id)
  | false ↦ return tt
]

unfoldable pub lock : ℕ → Action Unit
lock id = transaction (tables >>= λ db. lock_found id (lookup id db.contests))

-- The pool that `toListItem` shows for a contest with this many entries, for a commission of at
-- most 10000 basis points.
unfoldable pub estimated_pool : Contest → ℕ → ℕ
estimated_pool c entered = (c.entry_fee_minor * entered) * (10000 - c.commission_bps) / 10000
