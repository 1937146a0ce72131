-- ===== src/Withdrawals.antt =====
-- WithdrawalsService of apps/api/src/modules/withdrawals/withdrawals.service.ts. The gateway and
-- the one-time password are not modelled with it: what they answer is a parameter.
pub mod Banks
pub mod Fraud
pub mod Payout
pub mod Review
pub mod Request
pub mod Keeps
pub mod Stuck
pub mod Others
pub mod Final
use make_we_bet.Prelude.{ℕ, Bool, true, false, Option, none, some, pos, lookup, insert, fresh}
use make_we_bet.Errors.{withdrawal_not_found, record_not_found}
use make_we_bet.Ledger.{
  Account, user_available, user_withdrawal_pending, PostJournalInput, withdrawal_hold,
  withdrawal_settle, withdrawal_reversal, hold_key, settle_key, reverse_key,
}
use make_we_bet.Ledger.Transfer.{transfer}
use make_we_bet.Ledger.Invariant.{opened, open_account}
use make_we_bet.Database.{
  ngn, Withdrawal, WithdrawalStatus, requested, under_review, paid, failed, Db, Action, ◌>>=◌, ◌>>◌,
  return, tables, write, found, transaction, post_journal, notify, withdrawal_failed_notice,
}
use make_we_bet.Wallet.{find_wallet, user_wallet}

abbrev pub hold_journal : ℕ → ℕ → ℕ → ℕ → PostJournalInput
hold_journal id available pending amount =
    transfer withdrawal_hold (hold_key id) available pending (pos amount)

abbrev pub settle_journal : ℕ → ℕ → ℕ → ℕ → PostJournalInput
settle_journal id pending external amount =
    transfer withdrawal_settle (settle_key id) pending external (pos amount)

abbrev pub reversal_journal : ℕ → ℕ → ℕ → ℕ → PostJournalInput
reversal_journal id pending available amount =
    transfer withdrawal_reversal (reverse_key id) pending available (pos amount)

-- `ledgerAccount.create`
abbrev pub create_account : Account → Action ℕ
create_account a = do
  db ← tables
  write λ db. record db { ledger = open_account (fresh db.ledger.accounts) a db.ledger }
  return (fresh db.ledger.accounts)

abbrev pub existing_or_new : ℕ → Option (ℕ × Account) → Action ℕ
existing_or_new user none = create_account (opened user_withdrawal_pending (some user) none ngn)
existing_or_new user (some (id, _)) = return id

-- `getOrCreatePendingAccount`, of which the callers read the id.
unfoldable pub pending_account : ℕ → Action ℕ
pending_account user = do
  db ← tables
  existing_or_new user (find_wallet user user_withdrawal_pending ngn db.ledger.accounts)

abbrev pub set_withdrawal : ℕ → Withdrawal → Action Unit
set_withdrawal id w = write λ db. record db { withdrawals = insert id w db.withdrawals }

-- The transaction of `reverseHold`.
unfoldable pub return_hold : ℕ → ℕ → Withdrawal → WithdrawalStatus → Action Unit
unfolding pending_account
return_hold now id w status = do
  pending ← pending_account w.user_id
  (available, _) ← user_wallet w.user_id
  post_journal (reversal_journal id pending available w.amount_minor)
  set_withdrawal id (record w { status = status; resolved_at = some now })
  notify w.user_id (withdrawal_failed_notice id)

unfoldable pub reverse_hold : ℕ → ℕ → WithdrawalStatus → Action Unit
unfolding return_hold
reverse_hold now id status = do
  db ← tables
  w ← found (lookup id db.withdrawals) record_not_found
  transaction (return_hold now id w status)
