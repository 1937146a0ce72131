-- ===== src/Auth/Orderly.antt =====
-- Every service that writes sessions keeps the invariant of the sessions.
use make_we_bet.Prelude.{ℕ, ◌≡◌, Bool, true, false, update_all, count_rows}
use make_we_bet.Errors.{Result, ok, err}
use make_we_bet.Contracts.{String}
use make_we_bet.Database.{User, UserRole, Db, Action, ◌>>=◌, write, resume, OtpCode, OtpPurpose}
use make_we_bet.Database.Invariant.{Keeps, keeps_any}
use make_we_bet.Auth.Otp.{issue_code, persist, consume, checked}
use make_we_bet.Auth.Tokens.{revoked, TokenConfig, issue, rotate, revoke_by_token}
use make_we_bet.Auth.Families.{live_in, IsOrderly, update_all-IsOrderly}
use make_we_bet.Auth.Service.{
  RegisterRequest, Credentials, create_user, sign_up, register, login, change_password,
  reset_password, of_user,
}
use make_we_bet.Auth.Rotations.{
  Orderly, Unused, issue-Orderly, rotate-Orderly, revoke_by_token-Orderly,
}

-- A family of which no token can be used stays so where no session is written.
Ready : ℕ → Db → Type 0
Ready family db = Orderly db × Unused family db

write-Ready :
    (family : ℕ) (f : Db → Db)
    → ((db : Db) → (f db).sessions ≡ db.sessions)
    → Keeps (Ready family) (write f)
unfolding Keeps Ready
write-Ready family f same db (o, u) = rw (same db) (o, u)

-- From a state with such a family the handler leads to an orderly one.
unfoldable EndsOrderly : ℕ → {A : Type 0} → Action A → Type 0
EndsOrderly family m = (db : Db) → Ready family db → Orderly (m db).1

resume-EndsOrderly :
    {A B : Type 0} (family : ℕ) (f : A → Action B)
    → ((a : A) → EndsOrderly family (f a))
    → (r : Result A × Db) → Ready family r.1
    → Orderly (resume f r).1
unfolding EndsOrderly Ready
resume-EndsOrderly family f ef (ok a, db) r = ef a db r
resume-EndsOrderly family f ef (err e, db) r = r.0

>>=-EndsOrderly :
    {A B : Type 0} (family : ℕ) (m : Action A) (f : A → Action B)
    → Keeps (Ready family) m
    → ((a : A) → EndsOrderly family (f a))
    → EndsOrderly family (m >>= f)
unfolding EndsOrderly Keeps
>>=-EndsOrderly family m f km ef db r = resume-EndsOrderly family f ef (m db) (km db r)

issue-EndsOrderly :
    (config : TokenConfig) (now user : ℕ) (role : UserRole) (family raw : ℕ)
    → EndsOrderly family (issue config now user role family raw)
unfolding EndsOrderly Ready
issue-EndsOrderly config now user role family raw db (o, u) =
    issue-Orderly config now user role family raw db o u

issue_code-Ready :
    (family : ℕ) (hash : ℕ → ℕ) (now user : ℕ) (purpose : OtpPurpose) (value : ℕ)
    → Keeps (Ready family) (issue_code hash now user purpose value)
unfolding issue_code persist
issue_code-Ready family hash now user purpose value =
    search (keeps_any, write-Ready) depth 9 fits 9000

sign_up-Ready : (family : ℕ) (u : User) → Keeps (Ready family) (sign_up u)
unfolding sign_up create_user Keeps
sign_up-Ready family u = search (keeps_any, write-Ready) depth 12 fits 9000

module _ (c : Credentials) where
  register-EndsOrderly :
      (now : ℕ) (dto : RegisterRequest) (code family raw : ℕ)
      → EndsOrderly family (register c now dto code family raw)
  unfolding register
  register-EndsOrderly now dto code family raw =
      search
        (
          >>=-EndsOrderly, keeps_any, write-Ready, sign_up-Ready, issue_code-Ready,
          issue-EndsOrderly,
        )
        depth 9 fits 9000

  login-EndsOrderly :
      (now : ℕ) (identifier : String) (password family raw : ℕ)
      → EndsOrderly family (login c now identifier password family raw)
  unfolding login EndsOrderly Keeps
  login-EndsOrderly now identifier password family raw =
      search (>>=-EndsOrderly, keeps_any, write-Ready, issue-EndsOrderly) depth 12 fits 9000

  -- Where no session is written but revoked ones.
  write-Orderly :
      (f : Db → Db) → ((db : Db) → (f db).sessions ≡ db.sessions) → Keeps Orderly (write f)
  unfolding Keeps
  write-Orderly f same db o = rw (same db) o

  checked-Orderly :
      (now id : ℕ) (k : OtpCode) (b : Bool) → Keeps Orderly (checked c.hash_code now id k b)
  checked-Orderly now id k true = search (keeps_any, write-Orderly) depth 9 fits 9000
  checked-Orderly now id k false = search (keeps_any, write-Orderly) depth 9 fits 9000

  consume-Orderly :
      (now user : ℕ) (purpose : OtpPurpose) (value : ℕ)
      → Keeps Orderly (consume c.hash_code now user purpose value)
  unfolding consume Keeps
  consume-Orderly now user purpose value =
      search (keeps_any, write-Orderly, checked-Orderly) depth 9 fits 9000

  revoke-Orderly :
      (now user : ℕ)
      → Keeps Orderly
          (write λ db. record db { sessions = update_all (of_user user) (revoked now) db.sessions })
  unfolding Keeps
  revoke-Orderly now user db o = update_all-IsOrderly (of_user user) now db.sessions o

  change_password-Orderly :
      (now user password : ℕ) → Keeps Orderly (change_password c now user password)
  unfolding change_password Keeps
  change_password-Orderly now user password =
      search (keeps_any, write-Orderly, revoke-Orderly) depth 9 fits 9000

  reset_password-Orderly :
      (now user token password : ℕ) → Keeps Orderly (reset_password c now user token password)
  unfolding reset_password
  reset_password-Orderly now user token password =
      search (keeps_any, consume-Orderly, change_password-Orderly) depth 9 fits 9000

-- One call of a service that writes sessions; a new family's id is one of which no token is live.
pub data SessionStep (c : Credentials) : Db → Db → Type 0 where
  registered :
      (now : ℕ) (dto : RegisterRequest) (code family raw : ℕ) (db : Db)
      → count_rows (live_in family) db.sessions ≡ 0
      → SessionStep c db (register c now dto code family raw db).1
  logged_in :
      (now : ℕ) (identifier : String) (password family raw : ℕ) (db : Db)
      → count_rows (live_in family) db.sessions ≡ 0
      → SessionStep c db (login c now identifier password family raw db).1
  refreshed : (now next raw : ℕ) (db : Db) → SessionStep c db (rotate c.tokens now next raw db).1
  logged_out : (now raw : ℕ) (db : Db) → SessionStep c db (revoke_by_token c.tokens now raw db).1
  password_was_reset :
      (now user token password : ℕ) (db : Db)
      → SessionStep c db (reset_password c now user token password db).1

pub data Sessions (c : Credentials) (from : Db) : Db → Type 0 where
  no_step : Sessions c from from
  and_then : {mid last : Db} → Sessions c from mid → SessionStep c mid last → Sessions c from last

step-Orderly : (c : Credentials) {db db' : Db} → SessionStep c db db' → Orderly db → Orderly db'
unfolding EndsOrderly Keeps Ready
step-Orderly c (registered now dto code family raw db unused) o =
    register-EndsOrderly c now dto code family raw db (o, unused)
step-Orderly c (logged_in now identifier password family raw db unused) o =
    login-EndsOrderly c now identifier password family raw db (o, unused)
step-Orderly c (refreshed now next raw db) o = rotate-Orderly c.tokens now next raw db o
step-Orderly c (logged_out now raw db) o = revoke_by_token-Orderly c.tokens now raw db o
step-Orderly c (password_was_reset now user token password db) o =
    reset_password-Orderly c now user token password db o

-- Whatever the services are called with, in whatever order, and whether they return or throw: of
-- every family of refresh tokens, at most one can be used next, when that holds at the start, the
-- keys are distinct there and the id drawn for a new family is one without such a token.
pub Sessions-IsOrderly :
    (c : Credentials) {from last : Db}
    → Sessions c from last
    → IsOrderly from.sessions
    → IsOrderly last.sessions
Sessions-IsOrderly c no_step o = o
Sessions-IsOrderly c (and_then r step) o = step-Orderly c step (Sessions-IsOrderly c r o)
