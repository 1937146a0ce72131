-- ===== src/Contests/Cancel.antt =====
-- `cancel` of ContestsService: every active entry is refunded, and the escrow must be empty then.
use make_we_bet.Prelude.{ℕ, Bool, false, ◌||◌, Option, none, some, List, pos, eqb_ℤ, lookup, insert}
use make_we_bet.Errors.{
  contest_not_found, invalid_status, record_not_found, type_error, invariant_violated,
}
use make_we_bet.Contracts.{
  ContestStatus, draft, published, locked, cancelled, status_eq, contest_cancelled,
}
use make_we_bet.Ledger.{Account, user_available, entry_refund, refund_key, PostJournalInput}
use make_we_bet.Ledger.Transfer.{transfer}
use make_we_bet.Database.{
  Contest, Entry, refunded, Action, ◌>>=◌, ◌>>◌, return, tables, write, require, found, transaction,
  for_each, post_journal, emit, notify, contest_cancelled_notice,
}
use make_we_bet.Wallet.{find_wallet, find_escrow}
use make_we_bet.Entries.{live_contest, active_entries}
use make_we_bet.Contests.{set_contest}

abbrev pub refund_journal : ℕ → ℕ → ℕ → ℕ → PostJournalInput
refund_journal entry escrow wallet fee =
    transfer entry_refund (refund_key entry) escrow wallet (pos fee)

-- The body of the loop over the entries; `contest.escrowAccount!` is read first by the journal.
unfoldable pub refund : ℕ → Contest → Option (ℕ × Account) → ℕ × Entry → Action Unit
refund contest c escrow (id, e) = do
  db ← tables
  (wallet, _) ←
      found (find_wallet e.user_id user_available c.currency db.ledger.accounts) record_not_found
  (account, _) ← found escrow type_error
  post_journal (refund_journal id account wallet c.entry_fee_minor)
  write λ db. record db { entries = insert id (record e { status = refunded }) db.entries }
  notify e.user_id (contest_cancelled_notice contest)

abbrev pub balance_is_zero : Option Account → Bool
balance_is_zero none = false
balance_is_zero (some a) = eqb_ℤ a.balance_minor (pos 0)

-- The check that the escrow is exactly zero; a contest that was never published has none.
unfoldable pub check_empty : Option (ℕ × Account) → Action Unit
check_empty none = return tt
check_empty (some (account, _)) = do
  db ← tables
  require (balance_is_zero (lookup account db.ledger.accounts)) invariant_violated

abbrev pub is_cancellable : ContestStatus → Bool
is_cancellable s = status_eq s draft || (status_eq s published || status_eq s locked)

unfoldable pub refund_all : ℕ → Contest → Option (ℕ × Account) → List (ℕ × Entry) → Action Unit
unfolding refund check_empty
refund_all id c escrow entered = do
  for_each (refund id c escrow) entered
  check_empty escrow
  set_contest id (record c { status = cancelled })
  emit (contest_cancelled id)

unfoldable pub cancel : ℕ → Action Unit
unfolding refund_all
cancel id = do
  db ← tables
  c ← found (live_contest id db.contests) contest_not_found
  require (is_cancellable c.status) invalid_status
  transaction (refund_all id c (find_escrow id db.ledger.accounts) (active_entries id db.entries))
