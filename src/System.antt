-- ===== src/System.antt =====
-- The whole back end as a state machine: each step is one handler that a controller or a worker
-- calls, on the tables as the last one left them. Two handlers that run at one time are not
-- interleaved here.
use make_we_bet.Prelude.{ℕ, Bool, Option, List}
use make_we_bet.Errors.{Result}
use make_we_bet.Ledger.Invariant.{IsSound}
use make_we_bet.Scoring.Markets.{FinalResult}
use make_we_bet.Database.{Db, WebhookEventName}
use make_we_bet.Database.Keeps.{KeepsSound}
use make_we_bet.Contracts.{String, Event}
use make_we_bet.Difficulty.{Weights}
use make_we_bet.Settings.Admin.{
  Rules, create_rule_set, activate_rule_set, create_weight_set, activate_weight_set,
}
use make_we_bet.Settings.Keeps.{
  create_rule_set-KeepsSound, activate_rule_set-KeepsSound, create_weight_set-KeepsSound,
  activate_weight_set-KeepsSound,
}
use make_we_bet.Sports.Port.{CanonicalFixture}
use make_we_bet.Sports.Sync.{sync_date}
use make_we_bet.Sports.Poller.{poll}
use make_we_bet.Sports.Keeps.{sync_date-KeepsSound, poll-KeepsSound, finalize-KeepsSound}
use make_we_bet.Worker.{WorkerConfig, route}
use make_we_bet.Worker.Keeps.{route-KeepsSound}
use make_we_bet.Auth.Tokens.{TokenConfig, rotate, revoke_by_token}
use make_we_bet.Auth.Service.{
  RegisterRequest, Credentials, register, login, verify_email, forgot_password, reset_password,
}
use make_we_bet.Auth.Keeps.{
  rotate-KeepsSound, revoke_by_token-KeepsSound, register-KeepsSound, login-KeepsSound,
  verify_email-KeepsSound, forgot_password-KeepsSound, reset_password-KeepsSound,
}
use make_we_bet.Entries.{SubmitSlipRequest, submit_slip}
use make_we_bet.Entries.Keeps.{submit_slip-KeepsSound}
use make_we_bet.Contests.{CreateContestRequest, create, publish, lock}
use make_we_bet.Contests.Cancel.{cancel}
use make_we_bet.Contests.Laws.{
  create-KeepsSound, publish-KeepsSound, lock-KeepsSound, cancel-KeepsSound,
}
use make_we_bet.Results.{finalize}
use make_we_bet.Scoring.Service.{on_result_finalized}
use make_we_bet.Scoring.Keeps.{on_result_finalized-KeepsSound}
use make_we_bet.Settlement.Distribution.{distribute}
use make_we_bet.Settlement.Keeps.{distribute-KeepsSound}
use make_we_bet.Payments.{Verification, initiate, settle}
use make_we_bet.Payments.Webhooks.{handle_paystack}
use make_we_bet.Payments.Laws.{initiate-KeepsSound, settle-KeepsSound, handle_paystack-KeepsSound}
use make_we_bet.Withdrawals.Request.{request}
use make_we_bet.Withdrawals.Review.{approve, reject}
use make_we_bet.Withdrawals.Payout.{PayoutResult, settle_withdrawal}
use make_we_bet.Withdrawals.Keeps.{
  request-KeepsSound, approve-KeepsSound, reject-KeepsSound, settle_withdrawal-KeepsSound,
}

-- One call, with what the gateway, the cipher and the providers answer to it.
pub data Step : Db → Db → Type 0 where
  submit :
      (now user : ℕ) (dto : SubmitSlipRequest) (db : Db) → Step db (submit_slip now user dto db).1
  create_contest : (now : ℕ) (dto : CreateContestRequest) (db : Db) → Step db (create now dto db).1
  publish_contest : (now id : ℕ) (db : Db) → Step db (publish now id db).1
  lock_contest : (id : ℕ) (db : Db) → Step db (lock id db).1
  cancel_contest : (id : ℕ) (db : Db) → Step db (cancel id db).1
  finalize_result : (now id : ℕ) (r : FinalResult) (db : Db) → Step db (finalize now id r db).1
  score : (now fixture : ℕ) (db : Db) → Step db (on_result_finalized now fixture db).1
  settle_contest : (hash : ℕ → ℕ → ℕ) (id : ℕ) (db : Db) → Step db (distribute hash id db).1
  initiate_deposit :
      (gateway : ℕ → Result ℕ) (user amount : ℕ) (db : Db)
      → Step db (initiate gateway user amount db).1
  settle_deposit :
      (verify : ℕ → Result Verification) (now reference : ℕ) (db : Db)
      → Step db (settle verify now reference db).1
  webhook :
      (valid : Bool) (verify : ℕ → Result Verification) (now : ℕ) (event : WebhookEventName)
      (reference : Option ℕ) (db : Db)
      → Step db (handle_paystack valid verify now event reference db).1
  request_withdrawal :
      (hash : ℕ → ℕ) (decrypt : ℕ → Result ℕ) (now user bank amount code : ℕ) (db : Db)
      → Step db (request hash decrypt now user bank amount code db).1
  approve_withdrawal :
      (decrypt : ℕ → Result ℕ) (gateway : ℕ → ℕ → Result PayoutResult) (now admin id : ℕ) (db : Db)
      → Step db (approve decrypt gateway now admin id db).1
  reject_withdrawal : (now admin id : ℕ) (db : Db) → Step db (reject now admin id db).1
  settle_payout :
      (now id : ℕ) (success : Bool) (db : Db) → Step db (settle_withdrawal now id success db).1
  registration :
      (c : Credentials) (now : ℕ) (dto : RegisterRequest) (code family raw : ℕ) (db : Db)
      → Step db (register c now dto code family raw db).1
  login_call :
      (c : Credentials) (now : ℕ) (identifier : String) (password family raw : ℕ) (db : Db)
      → Step db (login c now identifier password family raw db).1
  refresh_call :
      (config : TokenConfig) (now next raw : ℕ) (db : Db)
      → Step db (rotate config now next raw db).1
  logout_call :
      (config : TokenConfig) (now raw : ℕ) (db : Db) → Step db (revoke_by_token config now raw db).1
  email_verification :
      (c : Credentials) (now user code : ℕ) (db : Db) → Step db (verify_email c now user code db).1
  forgotten_password :
      (c : Credentials) (now : ℕ) (email : String) (token : ℕ) (db : Db)
      → Step db (forgot_password c now email token db).1
  password_change :
      (c : Credentials) (now user token password : ℕ) (db : Db)
      → Step db (reset_password c now user token password db).1
  handle_event :
      (config : WorkerConfig) (now : ℕ) (e : Event) (db : Db) → Step db (route config now e db).1
  sync_fixtures : (cs : List CanonicalFixture) (db : Db) → Step db (sync_date cs db).1
  poll_results :
      (get_fixture : String → Result (Option CanonicalFixture)) (now : ℕ) (db : Db)
      → Step db (poll get_fixture now db).1
  new_rule_set :
      (admin : ℕ) (rules : Rules) (activate : Bool) (db : Db)
      → Step db (create_rule_set admin rules activate db).1
  rule_set_activation : (admin id : ℕ) (db : Db) → Step db (activate_rule_set admin id db).1
  new_weight_set :
      (admin : ℕ) (weights : Weights) (activate : Bool) (db : Db)
      → Step db (create_weight_set admin weights activate db).1
  weight_set_activation : (admin id : ℕ) (db : Db) → Step db (activate_weight_set admin id db).1

pub data Reach (from : Db) : Db → Type 0 where
  start : Reach from from
  then : {mid last : Db} → Reach from mid → Step mid last → Reach from last

step-IsSound : {db db' : Db} → Step db db' → IsSound db.ledger → IsSound db'.ledger
unfolding KeepsSound
step-IsSound (submit now user dto db) s = submit_slip-KeepsSound now user dto db s
step-IsSound (create_contest now dto db) s = create-KeepsSound now dto db s
step-IsSound (publish_contest now id db) s = publish-KeepsSound now id db s
step-IsSound (lock_contest id db) s = lock-KeepsSound id db s
step-IsSound (cancel_contest id db) s = cancel-KeepsSound id db s
step-IsSound (finalize_result now id r db) s = finalize-KeepsSound now id r db s
step-IsSound (score now fixture db) s = on_result_finalized-KeepsSound now fixture db s
step-IsSound (settle_contest hash id db) s = distribute-KeepsSound hash id db s
step-IsSound (initiate_deposit gateway user amount db) s =
    initiate-KeepsSound gateway user amount db s
step-IsSound (settle_deposit verify now reference db) s =
    settle-KeepsSound verify now reference db s
step-IsSound (webhook valid verify now event reference db) s =
    handle_paystack-KeepsSound valid verify now event reference db s
step-IsSound (request_withdrawal hash decrypt now user bank amount code db) s =
    request-KeepsSound hash decrypt now user bank amount code db s
step-IsSound (approve_withdrawal decrypt gateway now admin id db) s =
    approve-KeepsSound decrypt gateway now admin id db s
step-IsSound (reject_withdrawal now admin id db) s = reject-KeepsSound now admin id db s
step-IsSound (settle_payout now id success db) s = settle_withdrawal-KeepsSound now id success db s
step-IsSound (registration c now dto code family raw db) s =
    register-KeepsSound c now dto code family raw db s
step-IsSound (login_call c now identifier password family raw db) s =
    login-KeepsSound c now identifier password family raw db s
step-IsSound (refresh_call config now next raw db) s = rotate-KeepsSound config now next raw db s
step-IsSound (logout_call config now raw db) s = revoke_by_token-KeepsSound config now raw db s
step-IsSound (email_verification c now user code db) s =
    verify_email-KeepsSound c now user code db s
step-IsSound (forgotten_password c now email token db) s =
    forgot_password-KeepsSound c now email token db s
step-IsSound (password_change c now user token password db) s =
    reset_password-KeepsSound c now user token password db s
step-IsSound (handle_event config now e db) s = route-KeepsSound config now e db s
step-IsSound (sync_fixtures cs db) s = sync_date-KeepsSound cs db s
step-IsSound (poll_results get_fixture now db) s = poll-KeepsSound get_fixture now db s
step-IsSound (new_rule_set admin rules activate db) s =
    create_rule_set-KeepsSound admin rules activate db s
step-IsSound (rule_set_activation admin id db) s = activate_rule_set-KeepsSound admin id db s
step-IsSound (new_weight_set admin weights activate db) s =
    create_weight_set-KeepsSound admin weights activate db s
step-IsSound (weight_set_activation admin id db) s = activate_weight_set-KeepsSound admin id db s

-- Whatever the handlers are called with, in whatever order, and whether they return or throw: from
-- tables with a sound ledger they lead to tables with a sound ledger.
pub Reach-IsSound : {from last : Db} → Reach from last → IsSound from.ledger → IsSound last.ledger
Reach-IsSound start s = s
Reach-IsSound (then r step) s = step-IsSound step (Reach-IsSound r s)
