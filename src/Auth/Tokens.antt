-- ===== src/Auth/Tokens.antt =====
-- TokenService of apps/api/src/modules/auth/token.service.ts: refresh tokens, each of which is used
-- once for the next one of its family. The parameters are SHA-256, the signature of an access token
-- and the two lifetimes of the configuration; the random values are arguments.
use make_we_bet.Prelude.{
  ℕ, ◌+◌, ◌*◌, Bool, true, false, ◌&&◌, ◌||◌, not, Option, none, some, ltb, ◌==◌, lookup, insert,
  first?, update_all, fresh,
}
use make_we_bet.Errors.{
  invalid_refresh_token, refresh_token_reuse, refresh_token_expired, account_disabled,
  unique_violation, type_error,
}
use make_we_bet.Database.{
  UserRole, UserStatus, suspended, banned, User, Session, Action, ◌>>=◌, ◌>>◌, return, throw,
  tables, write, require, found,
}
use make_we_bet.Wallet.{is_null}

pub record IssuedTokens : Type 0 where
  pub access_token : ℕ
  pub refresh_token : ℕ
  pub expires_in : ℕ

pub record TokenConfig : Type 0 where
  pub hash_token : ℕ → ℕ
  pub sign : ℕ → UserRole → ℕ
  pub access_ttl_sec : ℕ
  pub refresh_ttl_sec : ℕ

-- `where: { refreshTokenHash }`
abbrev pub has_hash : ℕ → Session → Bool
has_hash h s = s.refresh_token_hash == h

abbrev pub is_absent : {A : Type 0} → Option A → Bool
is_absent none = true
is_absent (some _) = false

abbrev pub in_family : ℕ → Session → Bool
in_family family s = (s.family_id == family) && is_null s.revoked_at

abbrev pub revoked : ℕ → Session → Session
revoked now s = record s { revoked_at = some now }

-- `updateMany({ where: { familyId, revokedAt: null }, data: { revokedAt } })`
abbrev pub revoke_family : ℕ → ℕ → Action Unit
revoke_family now family =
    write λ db. record db { sessions = update_all (in_family family) (revoked now) db.sessions }

-- `session.revokedAt || session.consumedAt`
abbrev pub is_spent : Session → Bool
is_spent s = not (is_null s.revoked_at) || not (is_null s.consumed_at)

abbrev pub is_disabled : UserStatus → Bool
is_disabled status = elim status [ banned ↦ true | suspended ↦ true | _ ↦ false ]

abbrev pub set_session : ℕ → Session → Action Unit
set_session id s = write λ db. record db { sessions = insert id s db.sessions }

module _ (config : TokenConfig) where
  abbrev pub new_session : ℕ → ℕ → ℕ → ℕ → Session
  new_session now user family raw = record {
    user_id = user;
    family_id = family;
    refresh_token_hash = config.hash_token raw;
    expires_at = now + config.refresh_ttl_sec * 1000;
    consumed_at = none;
    revoked_at = none;
  }

  -- `session.create`: the hash is unique.
  abbrev pub create_session : Session → Action Unit
  create_session s = do
    db ← tables
    require (is_absent (first? (has_hash s.refresh_token_hash) db.sessions)) unique_violation
    set_session (fresh db.sessions) s

  unfoldable pub issue : ℕ → ℕ → UserRole → ℕ → ℕ → Action IssuedTokens
  issue now user role family raw = do
    create_session (new_session now user family raw)
    return record {
      access_token = config.sign user role;
      refresh_token = raw;
      expires_in = config.access_ttl_sec;
    }

  -- A token that was used before gives its whole family up.
  unfoldable pub rotate_once : ℕ → ℕ → ℕ → Session → User → Bool → Action IssuedTokens
  unfolding issue
  rotate_once now next id s u true = revoke_family now s.family_id >> throw refresh_token_reuse
  rotate_once now next id s u false = do
    require (not (ltb s.expires_at now)) refresh_token_expired
    require (not (is_disabled u.status)) account_disabled
    set_session id (record s { consumed_at = some now })
    issue now s.user_id u.role s.family_id next

  unfoldable pub rotate : ℕ → ℕ → ℕ → Action IssuedTokens
  unfolding rotate_once
  rotate now next raw = do
    db ← tables
    (id, s) ← found (first? (has_hash (config.hash_token raw)) db.sessions) invalid_refresh_token
    u ← found (lookup s.user_id db.users) type_error
    rotate_once now next id s u (is_spent s)

  abbrev pub revoke_found : ℕ → Option (ℕ × Session) → Action Unit
  revoke_found now none = return tt
  revoke_found now (some (_, s)) = revoke_family now s.family_id

  unfoldable pub revoke_by_token : ℕ → ℕ → Action Unit
  revoke_by_token now raw = do
    db ← tables
    revoke_found now (first? (has_hash (config.hash_token raw)) db.sessions)
