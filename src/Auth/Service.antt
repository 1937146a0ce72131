-- ===== src/Auth/Service.antt =====
-- AuthService of apps/api/src/modules/auth/auth.service.ts, and the guard of
-- apps/api/src/modules/auth/strategies/jwt.strategy.ts. The parameters are argon2's `hash` and
-- `verify`; the addresses and names that a request carries are those after `toLowerCase`, and the
-- random values are arguments. An e-mail changes no table.
use make_we_bet.Prelude.{
  ℕ, Bool, false, ◌&&◌, ◌||◌, not, Option, none, some, lookup, insert, first?, update_all, fresh,
  ◌==◌,
}
use make_we_bet.Errors.{
  Error, already_exists, unique_violation, invalid_credentials, account_disabled, record_not_found,
}
use make_we_bet.Contracts.{String, ◌===◌, user_registered}
use make_we_bet.Ledger.{user_available}
use make_we_bet.Ledger.Invariant.{opened, open_account}
use make_we_bet.Database.{
  UserRole, role_user, pending_verification, active_user, User, Session, Action, email_verify,
  password_reset, ◌>>=◌, ◌>>◌, return, tables, write, require, found, transaction, rethrow, emit,
  ngn,
}
use make_we_bet.Wallet.{is_null}
use make_we_bet.Auth.Otp.{issue_code, consume}
use make_we_bet.Auth.Tokens.{IssuedTokens, TokenConfig, is_absent, is_disabled, issue, revoked}

pub record RegisterRequest : Type 0 where
  pub email : String
  pub username : String
  pub phone : Option String
  pub password : ℕ

pub record Credentials : Type 0 where
  pub hash : ℕ → ℕ
  pub verify : ℕ → ℕ → Bool
  pub hash_code : ℕ → ℕ
  pub tokens : TokenConfig

abbrev same_phone : Option String → Option String → Bool
same_phone none b = false
same_phone (some x) none = false
same_phone (some x) (some y) = x === y

-- The three unique columns.
abbrev pub collides : User → User → Bool
collides u v = (v.email === u.email) || ((v.username === u.username) || same_phone v.phone u.phone)

abbrev pub new_user : ℕ → RegisterRequest → ℕ → User
new_user now dto password_hash = record {
  email = dto.email;
  username = dto.username;
  phone = dto.phone;
  password_hash = password_hash;
  role = role_user;
  status = pending_verification;
  created_at = now;
  email_verified_at = none;
  last_login_at = none;
  deleted_at = none;
}

abbrev pub set_user : ℕ → User → Action Unit
set_user id u = write λ db. record db { users = insert id u db.users }

-- `tx.user.create`, with the wallet's account.
unfoldable pub create_user : User → Action ℕ
create_user u = do
  db ← tables
  require (is_absent (first? (collides u) db.users)) unique_violation
  let id = fresh db.users
  set_user id u
  write λ db. record db {
    ledger =
        open_account (fresh db.ledger.accounts) (opened user_available (some id) none ngn)
          db.ledger;
  }
  return id

unfoldable pub sign_up : User → Action ℕ
unfolding create_user
sign_up u = do id ← create_user u; emit (user_registered id); return id

abbrev pub register_error : Error → Error
register_error unique_violation = already_exists
register_error e = e

-- `user.update`: without the row it is P2025.
abbrev pub update_user : ℕ → (User → User) → Action Unit
update_user id f = do
  db ← tables
  u ← found (lookup id db.users) record_not_found
  set_user id (f u)

-- `where: { OR: [{ email: identifier }, { username: identifier }], deletedAt: null }`
abbrev pub is_identified : String → User → Bool
is_identified identifier u =
    ((u.email === identifier) || (u.username === identifier)) && is_null u.deleted_at

abbrev pub of_user : ℕ → Session → Bool
of_user user s = (s.user_id == user) && is_null s.revoked_at

module _ (c : Credentials) where
  unfoldable pub register : ℕ → RegisterRequest → ℕ → ℕ → ℕ → Action IssuedTokens
  unfolding sign_up
  register now dto code family raw = do
    id ← rethrow register_error (transaction (sign_up (new_user now dto (c.hash dto.password))))
    issue_code c.hash_code now id email_verify code
    issue c.tokens now id role_user family raw

  unfoldable pub login : ℕ → String → ℕ → ℕ → ℕ → Action IssuedTokens
  login now identifier password family raw = do
    db ← tables
    (id, u) ← found (first? (is_identified identifier) db.users) invalid_credentials
    require (c.verify u.password_hash password) invalid_credentials
    require (not (is_disabled u.status)) account_disabled
    update_user id (λ v. record v { last_login_at = some now })
    issue c.tokens now id u.role family raw

  unfoldable pub verify_email : ℕ → ℕ → ℕ → Action Unit
  verify_email now user code = do
    consume c.hash_code now user email_verify code
    update_user user (λ u. record u { email_verified_at = some now; status = active_user })

  -- The user with this address is sent a token.
  abbrev pub issue_reset : ℕ → ℕ → Option (ℕ × User) → Action Unit
  issue_reset now token none = return tt
  issue_reset now token (some (id, _)) = issue_code c.hash_code now id password_reset token

  unfoldable pub forgot_password : ℕ → String → ℕ → Action Unit
  forgot_password now email token = do
    db ← tables
    issue_reset now token (first? (λ u. u.email === email) db.users)

  -- The two statements of the transaction.
  unfoldable pub change_password : ℕ → ℕ → ℕ → Action Unit
  change_password now user password = do
    update_user user (λ u. record u { password_hash = c.hash password })
    write λ db. record db { sessions = update_all (of_user user) (revoked now) db.sessions }

  unfoldable pub reset_password : ℕ → ℕ → ℕ → ℕ → Action Unit
  unfolding change_password
  reset_password now user token password = do
    consume c.hash_code now user password_reset token
    transaction (change_password now user password)

-- `validate` of JwtStrategy: whose access token is accepted, with the role that it then has.
unfoldable pub validate : ℕ → Action (ℕ × UserRole)
validate user = do
  db ← tables
  u ← found (lookup user db.users) account_disabled
  require (is_null u.deleted_at && not (is_disabled u.status)) account_disabled
  return (user, u.role)
