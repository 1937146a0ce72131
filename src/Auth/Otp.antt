-- ===== src/Auth/Otp.antt =====
-- OtpService of apps/api/src/modules/auth/otp.service.ts: codes that are kept as hashes. SHA-256 is
-- the parameter `hash`; a code or a token, and its hash, is a number. The random value that
-- `issueCode` or `issueToken` draws is an argument.
use make_we_bet.Prelude.{
  ℕ, suc, ◌+◌, ◌*◌, Bool, true, false, ◌&&◌, not, Option, none, some, [], ◌∷◌, ltb, leb, ◌==◌,
  if◌then◌else◌, Table, insert, update_all, fresh,
}
use make_we_bet.Errors.{otp_invalid, otp_locked}
use make_we_bet.Database.{
  OtpPurpose, email_verify, password_reset, withdrawal_otp, login_otp, OtpCode, Action, ◌>>=◌, ◌>>◌,
  throw, tables, write, require, found, transaction,
}
use make_we_bet.Wallet.{is_null}

abbrev pub otp_ttl_ms : ℕ
otp_ttl_ms = 15 * 60 * 1000

abbrev pub max_attempts : ℕ
max_attempts = 5

abbrev purpose_index : OtpPurpose → ℕ
purpose_index email_verify = 0
purpose_index password_reset = 1
purpose_index withdrawal_otp = 2
purpose_index login_otp = 3

-- `where: { userId, purpose, consumedAt: null }`
abbrev pub is_live_code : ℕ → OtpPurpose → OtpCode → Bool
is_live_code user purpose c =
    (c.user_id == user)
    && ((purpose_index c.purpose == purpose_index purpose) && is_null c.consumed_at)

abbrev pub new_code : ℕ → ℕ → OtpPurpose → ℕ → OtpCode
new_code now user purpose code_hash = record {
  user_id = user;
  purpose = purpose;
  code_hash = code_hash;
  attempts = 0;
  expires_at = now + otp_ttl_ms;
  consumed_at = none;
  created_at = now;
}

abbrev pub consumed : ℕ → OtpCode → OtpCode
consumed now c = record c { consumed_at = some now }

-- The older codes are consumed, and the new one is written.
abbrev pub superseding : ℕ → ℕ → OtpPurpose → ℕ → Table OtpCode → Table OtpCode
superseding now user purpose code_hash t =
    let older = update_all (is_live_code user purpose) (consumed now) t in
    insert (fresh older) (new_code now user purpose code_hash) older

unfoldable pub persist : ℕ → ℕ → OtpPurpose → ℕ → Action Unit
persist now user purpose code_hash =
    transaction
      (write λ db. record db { otp_codes = superseding now user purpose code_hash db.otp_codes })

-- The later of a row and of the latest among the rows after it.
abbrev pub later : ℕ × OtpCode → Option (ℕ × OtpCode) → ℕ × OtpCode
later r none = r
later r (some s) = if ltb r.1.created_at s.1.created_at then s else r

-- `findFirst({ where, orderBy: { createdAt: 'desc' } })`
abbrev pub newest : (OtpCode → Bool) → Table OtpCode → Option (ℕ × OtpCode)
newest p [] = none
newest p (r ∷ t) = if p r.1 then some (later r (newest p t)) else newest p t

abbrev pub set_code : ℕ → OtpCode → Action Unit
set_code id c = write λ db. record db { otp_codes = insert id c db.otp_codes }

module _ (hash : ℕ → ℕ) where
  -- `issueCode` and `issueToken`, with the random value.
  unfoldable pub issue_code : ℕ → ℕ → OtpPurpose → ℕ → Action Unit
  unfolding persist
  issue_code now user purpose value = persist now user purpose (hash value)

  -- What follows the test of the value.
  abbrev pub checked : ℕ → ℕ → OtpCode → Bool → Action Unit
  checked now id c true = set_code id (consumed now c)
  checked now id c false = set_code id (record c { attempts = suc c.attempts }) >> throw otp_invalid

  unfoldable pub consume : ℕ → ℕ → OtpPurpose → ℕ → Action Unit
  consume now user purpose value = do
    db ← tables
    (id, c) ← found (newest (is_live_code user purpose) db.otp_codes) otp_invalid
    require (not (ltb c.expires_at now)) otp_invalid
    require (not (leb max_attempts c.attempts)) otp_locked
    checked now id c (c.code_hash == hash value)
