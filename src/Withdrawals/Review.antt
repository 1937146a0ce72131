-- ===== src/Withdrawals/Review.antt =====
-- `approve` and `reject` of WithdrawalsService.
use make_we_bet.Prelude.{ℕ, Bool, true, false, not, some, ◌==◌, lookup}
use make_we_bet.Errors.{Result, withdrawal_not_found, invalid_status, self_approval}
use make_we_bet.Database.{
  WithdrawalStatus, requested, under_review, approved, rejected, Action, ◌>>=◌, ◌>>◌, return,
  tables, require, found, audit, withdrawal_approve, withdrawal_reject,
}
use make_we_bet.Withdrawals.{set_withdrawal, reverse_hold}
use make_we_bet.Withdrawals.Payout.{PayoutResult, initiate_payout}

abbrev pub awaits_review : WithdrawalStatus → Bool
awaits_review requested = true
awaits_review under_review = true
awaits_review _ = false

unfoldable pub approve :
    (ℕ → Result ℕ) → (ℕ → ℕ → Result PayoutResult) → ℕ → ℕ → ℕ → Action WithdrawalStatus
approve decrypt gateway now admin id = do
  db ← tables
  w ← found (lookup id db.withdrawals) withdrawal_not_found
  require (awaits_review w.status) invalid_status
  require (not (w.user_id == admin)) self_approval
  set_withdrawal id (record w { status = approved; reviewed_by_id = some admin })
  audit admin (withdrawal_approve id)
  initiate_payout decrypt gateway now id

unfoldable pub reject : ℕ → ℕ → ℕ → Action WithdrawalStatus
reject now admin id = do
  db ← tables
  w ← found (lookup id db.withdrawals) withdrawal_not_found
  require (awaits_review w.status) invalid_status
  reverse_hold now id rejected
  audit admin (withdrawal_reject id)
  return rejected
