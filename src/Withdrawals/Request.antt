-- ===== src/Withdrawals/Request.antt =====
-- `request` of WithdrawalsService, with the SHA-256 of the one-time code and the cipher as parameters.
use make_we_bet.Prelude.{ℕ, none, leb, if◌then◌else◌, fresh, lookup}
use make_we_bet.Errors.{record_not_found, Error, Result, insufficient_funds, insufficient_funds_on}
use make_we_bet.Contracts.{withdrawal_requested}
use make_we_bet.Database.{
  Withdrawal, WithdrawalStatus, requested, under_review, Action, ◌>>=◌, ◌>>◌, return, found, tables,
  withdrawal_otp, transaction, rethrow, post_journal, emit,
}
use make_we_bet.Wallet.{user_wallet}
use make_we_bet.Auth.Otp.{issue_code, consume}
use make_we_bet.Withdrawals.{hold_journal, pending_account, set_withdrawal}
use make_we_bet.Withdrawals.Banks.{decrypted_for}
use make_we_bet.Withdrawals.Fraud.{score_withdrawal}

abbrev pub review_threshold : ℕ
review_threshold = 70

abbrev pub first_status : ℕ → WithdrawalStatus
first_status score = if leb review_threshold score then under_review else requested

abbrev pub new_withdrawal : ℕ → ℕ → ℕ → ℕ → ℕ → Withdrawal
new_withdrawal now user bank amount score = record {
  user_id = user;
  bank_account_id = bank;
  amount_minor = amount;
  fraud_score = score;
  status = first_status score;
  reviewed_by_id = none;
  requested_at = now;
  resolved_at = none;
}

-- The row under its new key, and its hold.
abbrev pub hold_as : ℕ → ℕ → ℕ → Withdrawal → Action ℕ
hold_as id available pending w = do
  set_withdrawal id w
  post_journal (hold_journal id available pending w.amount_minor)
  emit (withdrawal_requested id)
  return id

-- The transaction: the row and the hold.
unfoldable pub place_hold : ℕ → Withdrawal → Action ℕ
unfolding pending_account
place_hold user w = do
  (available, _) ← user_wallet user
  pending ← pending_account user
  db ← tables
  hold_as (fresh db.withdrawals) available pending w

abbrev pub request_error : Error → Error
request_error (insufficient_funds_on _) = insufficient_funds
request_error e = e

-- `requestOtp`; an e-mail changes no table. Without the user's row the read throws P2025.
unfoldable pub request_otp : (ℕ → ℕ) → ℕ → ℕ → ℕ → Action Unit
request_otp hash now user code = do
  db ← tables
  found (lookup user db.users) record_not_found
  issue_code hash now user withdrawal_otp code

unfoldable pub request : (ℕ → ℕ) → (ℕ → Result ℕ) → ℕ → ℕ → ℕ → ℕ → ℕ → Action ℕ
unfolding place_hold
request hash decrypt now user bank amount code = do
  consume hash now user withdrawal_otp code
  decrypted_for decrypt user bank
  score ← score_withdrawal now user amount
  rethrow request_error (transaction (place_hold user (new_withdrawal now user bank amount score)))
