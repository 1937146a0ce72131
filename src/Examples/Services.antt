-- ===== src/Examples/Services.antt =====
-- The services at concrete inputs.
use make_we_bet.Prelude.{ℕ, ◌≡◌, refl, none, some, true, false, [], ◌∷◌, pos, insert, List, Table}
use make_we_bet.Errors.{
  Result, ok, err, contest_not_found, gateway_error, invalid_status, result_already_final,
}
use make_we_bet.Ledger.{Ledger, user_available, gateway_clearing}
use make_we_bet.Ledger.Invariant.{IsSound, opened, open_account, open_account-IsSound}
use make_we_bet.Contracts.{home}
use make_we_bet.Scoring.Markets.{FinalResult}
use make_we_bet.Database.{
  Db, Contest, ContestSlot, ContestMatch, Fixture, scheduled, PaymentIntent, pending, succeeded,
  Withdrawal, requested, paid, BankAccount,
}
use make_we_bet.Entries.{SubmitSlipRequest, submit_slip}
use make_we_bet.Database.{Entry}
use make_we_bet.Ledger.{post}
use make_we_bet.Prelude.{lookup, false, select, update_all}
use make_we_bet.Database.{Prediction}
use make_we_bet.Entries.Atomic.{submit_slip-unchanged}
use make_we_bet.Contests.Cancel.{cancel}
use make_we_bet.Contests.Atomic.{cancel-unchanged}
use make_we_bet.Results.{finalize}
use make_we_bet.Results.Once.{finalize-finalize}
use make_we_bet.Payments.{Verification, verified_succeeded, verified_failed, settle}
use make_we_bet.Payments.Once.{settle-settle}
use make_we_bet.Withdrawals.Payout.{PayoutResult, settle_withdrawal}
use make_we_bet.Withdrawals.Review.{approve, reject}
use make_we_bet.Withdrawals.Stuck.{approved_tables, approve-stuck}
use make_we_bet.Withdrawals.Final.{WithdrawalStep-is_final, settles}
use make_we_bet.System.{start, then, settle_deposit, Reach-IsSound}
use make_we_bet.Examples.{empty_db, some_ledger, ten_picks}

abbrev no_accounts : Ledger
no_accounts = record { accounts = []; journal = []; next_entry = 0 }

no_accounts-IsSound : IsSound no_accounts
no_accounts-IsSound = record {
  reconciled = λ k. refl;
  zero_total = refl;
  non_negative = λ j b found kept. cc found;
  entries_balanced = tt;
  distinct_keys = tt;
}

-- The clearing account and the wallet of user 7.
abbrev two_accounts : Ledger
two_accounts =
    open_account 1 (opened user_available (some 7) none 0)
      (open_account 0 (opened gateway_clearing none none 0) no_accounts)

two_accounts-IsSound : IsSound two_accounts
unfolding open_account
two_accounts-IsSound =
    open_account-IsSound 1 _ _ refl refl (open_account-IsSound 0 _ _ refl refl no_accounts-IsSound)

abbrev intent : PaymentIntent
intent = record {
  user_id = 7;
  amount_minor = 500;
  status = pending;
  provider_ref = some 1;
  settled_at = none;
}

abbrev deposit_db : Db
deposit_db = record (empty_db two_accounts) { payment_intents = (4, intent) ∷ [] }

abbrev says_paid : ℕ → Result Verification
says_paid _ = ok (verified_succeeded 500)

abbrev says_failed : ℕ → Result Verification
says_failed _ = ok verified_failed

deposit-returns : (settle says_paid 10 4 deposit_db).0 ≡ ok succeeded
unfolding settle open_account make_we_bet.Database.post_journal make_we_bet.Ledger.post
    make_we_bet.Ledger.validate_lines make_we_bet.Prelude.neg make_we_bet.Prelude.◌+ℤ◌
    make_we_bet.Ledger.run make_we_bet.Ledger.post_new make_we_bet.Ledger.apply_lines
    make_we_bet.Ledger.apply_line
deposit-returns = refl

settle-settle_example :
    settle says_failed 11 4 (settle says_paid 10 4 deposit_db).1
    ≡ (ok succeeded, (settle says_paid 10 4 deposit_db).1)
settle-settle_example = settle-settle says_paid says_failed 10 11 4 deposit_db deposit-returns

Reach-IsSound_example : IsSound (settle says_paid 10 4 deposit_db).1.ledger
Reach-IsSound_example =
    Reach-IsSound {from = deposit_db} {last = (settle says_paid 10 4 deposit_db).1}
      (then {mid = deposit_db} start (settle_deposit says_paid 10 4 deposit_db))
      two_accounts-IsSound

abbrev pub slip_request : SubmitSlipRequest
slip_request = record { contest_id = 3; idempotency_key = 9; predictions = ten_picks }

submission-throws : (submit_slip 10 7 slip_request deposit_db).0 ≡ err contest_not_found
unfolding submit_slip
submission-throws = refl

submit_slip-unchanged_example : (submit_slip 10 7 slip_request deposit_db).1 ≡ deposit_db
submit_slip-unchanged_example =
    submit_slip-unchanged 10 7 slip_request deposit_db contest_not_found submission-throws

cancel-throws : (cancel 3 deposit_db).0 ≡ err contest_not_found
unfolding cancel
cancel-throws = refl

cancel-unchanged_example : (cancel 3 deposit_db).1 ≡ deposit_db
cancel-unchanged_example = cancel-unchanged 3 deposit_db contest_not_found cancel-throws

abbrev fixture : Fixture
fixture = record {
  league_id = 0;
  home_team_id = 0;
  away_team_id = 1;
  kickoff_at = 100;
  status = scheduled;
  home_goals = none;
  away_goals = none;
  ht_home_goals = none;
  ht_away_goals = none;
  first_to_score = none;
  result_finalized_at = none;
}

abbrev pub one_nil : FinalResult
one_nil = record {
  home_goals = 1;
  away_goals = 0;
  ht_home_goals = 0;
  ht_away_goals = 0;
  first_to_score = home;
}

abbrev fixture_db : Db
fixture_db = record (empty_db some_ledger) { fixtures = (5, fixture) ∷ [] }

finalize-returns : (finalize 200 5 one_nil fixture_db).0 ≡ ok tt
unfolding finalize
finalize-returns = refl

finalize-finalize_example :
    finalize 201 5 one_nil (finalize 200 5 one_nil fixture_db).1
    ≡ (err result_already_final, (finalize 200 5 one_nil fixture_db).1)
finalize-finalize_example = finalize-finalize 200 201 5 one_nil one_nil fixture_db finalize-returns

abbrev payout : Withdrawal
payout = record {
  user_id = 7;
  bank_account_id = 2;
  amount_minor = 300;
  fraud_score = 15;
  status = requested;
  reviewed_by_id = none;
  requested_at = 10;
  resolved_at = none;
}

abbrev bank : BankAccount
bank = record {
  user_id = 7;
  bank_code = "058";
  account_number_enc = 77;
  account_name = "Ada";
  deleted_at = none;
}

abbrev payout_db : Db
payout_db = record (empty_db some_ledger) {
  withdrawals = (6, payout) ∷ [];
  bank_accounts = (2, bank) ∷ [];
}

abbrev plain_text : ℕ → Result ℕ
plain_text n = ok n

abbrev out_of_reach : ℕ → ℕ → Result PayoutResult
out_of_reach _ _ = err gateway_error

approve-stuck_example :
    (approve plain_text out_of_reach 20 1 6 payout_db
      ≡ (err gateway_error, approved_tables 1 6 payout payout_db))
    × (reject 21 1 6 (approved_tables 1 6 payout payout_db)
        ≡ (err invalid_status, approved_tables 1 6 payout payout_db))
    × (approve plain_text out_of_reach 21 1 6 (approved_tables 1 6 payout payout_db)
        ≡ (err invalid_status, approved_tables 1 6 payout payout_db))
approve-stuck_example =
    approve-stuck plain_text out_of_reach 20 1 6 77 payout_db payout bank refl refl refl refl refl
      refl 21 1

abbrev paid_payout : Withdrawal
paid_payout = record payout { status = paid }

abbrev paid_db : Db
paid_db = record payout_db { withdrawals = (6, paid_payout) ∷ [] }

WithdrawalStep-is_final_example :
    lookup 6 (settle_withdrawal 500 6 false paid_db).1.withdrawals ≡ some paid_payout
WithdrawalStep-is_final_example =
    WithdrawalStep-is_final (settles 500 6 false paid_db) 6 paid_payout refl refl
