-- ===== src/Ledger.antt =====
-- LedgerService of apps/api/src/modules/wallet/ledger/ledger.service.ts, with the types of
-- ledger.types.ts. The tables that it writes are the accounts and the journal; the text fields of
-- an entry (description, metadata) are read by nothing and are left out. Ids are numbers, since
-- they are only compared. A run inside a transaction returns the new tables or an error: on an
-- error Postgres rolls everything back, so there is no other state to see.
pub mod Lines
pub mod Posting
pub mod Invariant
pub mod Transfer
use make_we_bet.Prelude.{
  ℕ, ◌+◌, Bool, true, false, ◌&&◌, not, Option, none, some, List, [], ◌∷◌, ◌++◌, ltb, ◌==◌,
  if◌then◌else◌, length, any, find?, ℤ, pos, ◌+ℤ◌, ltb_ℤ, eqb_ℤ, Table, lookup, insert,
}
use make_we_bet.Errors.{
  Error, unbalanced_journal, empty_journal, zero_amount_line, insufficient_funds_on,
  record_not_found, Result, ok, err, ◌>>=◌, ◌>>◌, ensure, or_throw,
}

pub data AccountType : Type 0 where
  user_available user_withdrawal_pending contest_escrow : AccountType
  platform_revenue gateway_clearing external : AccountType

pub record Account : Type 0 where
  pub type : AccountType
  pub user_id : Option ℕ
  pub contest_id : Option ℕ
  pub currency : ℕ
  pub balance_minor : ℤ

pub data JournalType : Type 0 where
  deposit entry_fee entry_refund prize_payout withdrawal_hold : JournalType
  withdrawal_settle withdrawal_reversal : JournalType

-- The idempotency keys of the callers, `entry:…`, `settlement:…` and so on. The text up to the
-- first colon tells the constructors apart and the rest is an id, so two keys are one text
-- exactly when they are one value here.
pub data Key : Type 0 where
  deposit_key entry_key refund_key settlement_key : ℕ → Key
  hold_key settle_key reverse_key : ℕ → Key

abbrev pub key_eq : Key → Key → Bool
key_eq (deposit_key a) (deposit_key b) = a == b
key_eq (entry_key a) (entry_key b) = a == b
key_eq (refund_key a) (refund_key b) = a == b
key_eq (settlement_key a) (settlement_key b) = a == b
key_eq (hold_key a) (hold_key b) = a == b
key_eq (settle_key a) (settle_key b) = a == b
key_eq (reverse_key a) (reverse_key b) = a == b
key_eq _ _ = false

pub record JournalLine : Type 0 where
  pub account_id : ℕ
  pub amount_minor : ℤ

pub record PostJournalInput : Type 0 where
  pub type : JournalType
  pub idempotency_key : Key
  pub lines : List JournalLine

pub record JournalEntry : Type 0 where
  pub id : ℕ
  pub type : JournalType
  pub idempotency_key : Key
  pub lines : List JournalLine

-- `next_entry` stands for the database's supply of unused ids.
pub record Ledger : Type 0 where
  pub accounts : Table Account
  pub journal : List JournalEntry
  pub next_entry : ℕ

-- `NON_NEGATIVE_ACCOUNT_TYPES.has`
abbrev pub is_non_negative_type : AccountType → Bool
is_non_negative_type user_available = true
is_non_negative_type user_withdrawal_pending = true
is_non_negative_type contest_escrow = true
is_non_negative_type _ = false

abbrev pub sum_amounts : List JournalLine → ℤ
sum_amounts [] = pos 0
sum_amounts (l ∷ ls) = l.amount_minor +ℤ sum_amounts ls

abbrev is_zero_line : JournalLine → Bool
is_zero_line l = eqb_ℤ l.amount_minor (pos 0)

unfoldable pub validate_lines : List JournalLine → Result (Unit {0})
validate_lines lines =
    if ltb (length lines) 2
    then err empty_journal
    else if any is_zero_line lines
    then err zero_amount_line
    else ensure (eqb_ℤ (sum_amounts lines) (pos 0)) (unbalanced_journal (sum_amounts lines))

-- `balanceMinor: { increment: … }`
abbrev pub increment : Account → ℤ → Account
increment a x = record a { balance_minor = a.balance_minor +ℤ x }

-- The body of the loop over the lines: update the balance, then check it.
unfoldable pub apply_line : JournalLine → Table Account → Result (Table Account)
apply_line l t = do
  old ← or_throw (lookup l.account_id t) record_not_found
  let account = increment old l.amount_minor
  ensure (not (is_non_negative_type account.type && ltb_ℤ account.balance_minor (pos 0)))
      (insufficient_funds_on l.account_id)
  ok (insert l.account_id account t)

unfoldable pub apply_lines : List JournalLine → Table Account → Result (Table Account)
apply_lines [] t = ok t
apply_lines (l ∷ ls) t = apply_line l t >>= apply_lines ls

-- `journalEntry.findUnique({ where: { idempotencyKey } })`
abbrev pub find_entry : Key → List JournalEntry → Option JournalEntry
find_entry k [] = none
find_entry k (e ∷ es) = if key_eq e.idempotency_key k then some e else find_entry k es

abbrev pub new_entry : PostJournalInput → ℕ → JournalEntry
new_entry input id = record {
  id = id;
  type = input.type;
  idempotency_key = input.idempotency_key;
  lines = input.lines;
}

-- The part of `run` behind the replay shield.
unfoldable pub post_new : PostJournalInput → Ledger → Result (ℕ × Ledger)
post_new input l = do
  accounts ← apply_lines input.lines l.accounts
  ok (
    l.next_entry,
    record {
      accounts = accounts;
      journal = new_entry input l.next_entry ∷ l.journal;
      next_entry = l.next_entry + 1;
    },
  )

-- `run`: a used key returns the entry's id and writes nothing.
unfoldable pub run : PostJournalInput → Ledger → Result (ℕ × Ledger)
run input l = elim (find_entry input.idempotency_key l.journal) [
  | some e ↦ ok (e.id, l)
  | none ↦ post_new input l
]

-- `post` with the caller's transaction.
unfoldable pub post : PostJournalInput → Ledger → Result (ℕ × Ledger)
post input l = validate_lines input.lines >> run input l

-- The tables after a transaction of its own: those of the run if it returned, else the old ones.
abbrev pub committed {ℓ} : {S A : Type ℓ} → S → Result (A × S) → S
committed s (ok (_, s')) = s'
committed s (err _) = s
