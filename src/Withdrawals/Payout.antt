-- ===== src/Withdrawals/Payout.antt =====
-- `initiatePayout` and `settle` of WithdrawalsService.
use make_we_bet.Prelude.{ℕ, Bool, true, false, Option, none, some, lookup}
use make_we_bet.Errors.{Result, record_not_found}
use make_we_bet.Contracts.{withdrawal_paid}
use make_we_bet.Ledger.{external}
use make_we_bet.Database.{
  Withdrawal, WithdrawalStatus, processing, paid, failed, Action, ◌>>=◌, ◌>>◌, return, tables, lift,
  found, transaction, post_journal, emit, notify, withdrawal_paid_notice,
}
use make_we_bet.Wallet.{system}
use make_we_bet.Withdrawals.{settle_journal, pending_account, set_withdrawal, reverse_hold}
use make_we_bet.Withdrawals.Banks.{decrypted_for}

-- The transaction of `settle`.
unfoldable pub pay_out : ℕ → ℕ → Withdrawal → Action Unit
unfolding pending_account
pay_out now id w = do
  pending ← pending_account w.user_id
  (ext, _) ← system external
  post_journal (settle_journal id pending ext w.amount_minor)
  set_withdrawal id (record w { status = paid; resolved_at = some now })
  notify w.user_id (withdrawal_paid_notice id)
  emit (withdrawal_paid id)

-- `!withdrawal || status === 'PAID' || status === 'FAILED'`
abbrev pub is_final : WithdrawalStatus → Bool
is_final paid = true
is_final failed = true
is_final _ = false

abbrev pub settle_open : ℕ → ℕ → Bool → Withdrawal → Action Unit
settle_open now id true w = transaction (pay_out now id w)
settle_open now id false w = reverse_hold now id failed

abbrev pub settle_found : ℕ → ℕ → Bool → Option Withdrawal → Action Unit
settle_found now id success none = return tt
settle_found now id success (some w) = elim (is_final w.status) [
  | true ↦ return tt
  | false ↦ settle_open now id success w
]

unfoldable pub settle_withdrawal : ℕ → ℕ → Bool → Action Unit
unfolding pay_out
settle_withdrawal now id success = do
  db ← tables
  settle_found now id success (lookup id db.withdrawals)

-- What the gateway answers to `initiatePayout`.
pub data PayoutResult : Type 0 where
  payout_failed payout_processing payout_paid : PayoutResult

-- The update to PROCESSING, on the row that the transaction sees then.
abbrev pub mark_processing : ℕ → Action Unit
mark_processing id = do
  db ← tables
  w ← found (lookup id db.withdrawals) record_not_found
  set_withdrawal id (record w { status = processing })

unfoldable pub after_payout : ℕ → ℕ → PayoutResult → Action WithdrawalStatus
unfolding settle_withdrawal
after_payout now id payout_failed = reverse_hold now id failed >> return failed
after_payout now id payout_processing = mark_processing id >> return processing
after_payout now id payout_paid = mark_processing id >> settle_withdrawal now id true >> return paid

unfoldable pub initiate_payout :
    (ℕ → Result ℕ) → (ℕ → ℕ → Result PayoutResult) → ℕ → ℕ → Action WithdrawalStatus
unfolding after_payout
initiate_payout decrypt gateway now id = do
  db ← tables
  w ← found (lookup id db.withdrawals) record_not_found
  (_, number) ← decrypted_for decrypt w.user_id w.bank_account_id
  result ← lift (gateway id number)
  after_payout now id result
