-- ===== src/Auth/Keeps.antt =====
-- The services of apps/api/src/modules/auth keep the ledger sound: a wallet opens empty.
use make_we_bet.Prelude.{ℕ, refl, fresh, Bool, true, false, Option, none, some}
use make_we_bet.Errors.{ok}
use make_we_bet.Contracts.{String}
use make_we_bet.Ledger.{user_available}
use make_we_bet.Ledger.Invariant.{opened, open_account}
use make_we_bet.Database.{ngn, write, OtpPurpose, OtpCode, Session, User, UserRole}
use make_we_bet.Database.Keeps.{KeepsSound, keeps, lift-KeepsSound, open_account-KeepsSound}
use make_we_bet.Auth.Otp.{issue_code, persist, checked, consume}
use make_we_bet.Auth.Tokens.{TokenConfig, issue, rotate_once, rotate, revoke_found, revoke_by_token}
use make_we_bet.Auth.Service.{
  RegisterRequest, Credentials, create_user, sign_up, register, login, verify_email, issue_reset,
  forgot_password, change_password, reset_password,
}

issue_code-KeepsSound :
    (hash : ℕ → ℕ) (now user : ℕ) (purpose : OtpPurpose) (value : ℕ)
    → KeepsSound (issue_code hash now user purpose value)
unfolding issue_code persist KeepsSound
issue_code-KeepsSound hash now user purpose value = search keeps depth 9 fits 9000

checked-KeepsSound :
    (hash : ℕ → ℕ) (now id : ℕ) (c : OtpCode) (b : Bool) → KeepsSound (checked hash now id c b)
unfolding KeepsSound
checked-KeepsSound hash now id c true = search keeps depth 9 fits 9000
checked-KeepsSound hash now id c false = search keeps depth 9 fits 9000

pub consume-KeepsSound :
    (hash : ℕ → ℕ) (now user : ℕ) (purpose : OtpPurpose) (value : ℕ)
    → KeepsSound (consume hash now user purpose value)
unfolding consume KeepsSound
consume-KeepsSound hash now user purpose value =
    search (keeps, checked-KeepsSound) depth 9 fits 9000

issue-KeepsSound :
    (config : TokenConfig) (now user : ℕ) (role : UserRole) (family raw : ℕ)
    → KeepsSound (issue config now user role family raw)
unfolding issue KeepsSound
issue-KeepsSound config now user role family raw = search keeps depth 9 fits 9000

rotate_once-KeepsSound :
    (config : TokenConfig) (now next id : ℕ) (s : Session) (u : User) (b : Bool)
    → KeepsSound (rotate_once config now next id s u b)
unfolding rotate_once KeepsSound
rotate_once-KeepsSound config now next id s u true = search keeps depth 9 fits 9000
rotate_once-KeepsSound config now next id s u false =
    search (keeps, issue-KeepsSound) depth 9 fits 9000

pub rotate-KeepsSound :
    (config : TokenConfig) (now next raw : ℕ) → KeepsSound (rotate config now next raw)
unfolding rotate KeepsSound
rotate-KeepsSound config now next raw = search (keeps, rotate_once-KeepsSound) depth 9 fits 9000

revoke_found-KeepsSound :
    (config : TokenConfig) (now : ℕ) (o : Option (ℕ × Session))
    → KeepsSound (revoke_found config now o)
unfolding KeepsSound
revoke_found-KeepsSound config now none = lift-KeepsSound (ok tt)
revoke_found-KeepsSound config now (some (id, s)) = search keeps depth 9 fits 9000

pub revoke_by_token-KeepsSound :
    (config : TokenConfig) (now raw : ℕ) → KeepsSound (revoke_by_token config now raw)
unfolding revoke_by_token KeepsSound
revoke_by_token-KeepsSound config now raw =
    search (keeps, revoke_found-KeepsSound) depth 9 fits 9000

open_wallet-KeepsSound :
    (id : ℕ)
    → KeepsSound (
        write (λ db. record db {
          ledger =
              open_account
                (fresh db.ledger.accounts)
                (opened user_available (some id) none ngn)
                db.ledger;
        }))
open_wallet-KeepsSound id = open_account-KeepsSound (opened user_available (some id) none ngn) refl

create_user-KeepsSound : (u : User) → KeepsSound (create_user u)
unfolding create_user KeepsSound
create_user-KeepsSound u = search (keeps, open_wallet-KeepsSound) depth 9 fits 9000

sign_up-KeepsSound : (u : User) → KeepsSound (sign_up u)
unfolding sign_up KeepsSound
sign_up-KeepsSound u = search (keeps, create_user-KeepsSound) depth 9 fits 9000

module _ (c : Credentials) where
  pub register-KeepsSound :
      (now : ℕ) (dto : RegisterRequest) (code family raw : ℕ)
      → KeepsSound (register c now dto code family raw)
  unfolding register KeepsSound
  register-KeepsSound now dto code family raw =
      search (keeps, sign_up-KeepsSound, issue_code-KeepsSound, issue-KeepsSound) depth 9 fits 9000

  pub login-KeepsSound :
      (now : ℕ) (identifier : String) (password family raw : ℕ)
      → KeepsSound (login c now identifier password family raw)
  unfolding login KeepsSound
  login-KeepsSound now identifier password family raw =
      search (keeps, issue-KeepsSound) depth 9 fits 9000

  pub verify_email-KeepsSound : (now user code : ℕ) → KeepsSound (verify_email c now user code)
  unfolding verify_email KeepsSound
  verify_email-KeepsSound now user code = search (keeps, consume-KeepsSound) depth 9 fits 9000

  issue_reset-KeepsSound :
      (now token : ℕ) (o : Option (ℕ × User)) → KeepsSound (issue_reset c now token o)
  unfolding KeepsSound
  issue_reset-KeepsSound now token none = lift-KeepsSound (ok tt)
  issue_reset-KeepsSound now token (some (id, u)) = issue_code-KeepsSound c.hash_code now id _ token

  pub forgot_password-KeepsSound :
      (now : ℕ) (email : String) (token : ℕ) → KeepsSound (forgot_password c now email token)
  unfolding forgot_password KeepsSound
  forgot_password-KeepsSound now email token =
      search (keeps, issue_reset-KeepsSound) depth 9 fits 9000

  change_password-KeepsSound :
      (now user password : ℕ) → KeepsSound (change_password c now user password)
  unfolding change_password KeepsSound
  change_password-KeepsSound now user password = search keeps depth 9 fits 9000

  pub reset_password-KeepsSound :
      (now user token password : ℕ) → KeepsSound (reset_password c now user token password)
  unfolding reset_password KeepsSound
  reset_password-KeepsSound now user token password =
      search (keeps, consume-KeepsSound, change_password-KeepsSound) depth 9 fits 9000
