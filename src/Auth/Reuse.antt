-- ===== src/Auth/Reuse.antt =====
-- What a refresh token that was used, or whose owner's password was reset, is answered.
use make_we_bet.Prelude.{
  ℕ, ◌≡◌, refl, arith, Bool, true, false, some, inl, inr, Bool-cases, Option-cases, All, ltb, ◌==◌,
  ==_iff, lookup, first?, first?-sound, lookup-fresh, lookup-insert_self, HasUniqueKeys,
  first?-insert, first?-insert_new,
}
use make_we_bet.Errors.{
  ok, err, refresh_token_reuse, refresh_token_expired, account_disabled, invalid_refresh_token,
  type_error, record_not_found,
}
use make_we_bet.Database.{Session, password_reset, User, UserRole, Db}
use make_we_bet.Database.Returned.{>>=-returned, transaction-returned}
use make_we_bet.Auth.Otp.{consume}
use make_we_bet.Auth.Tokens.{
  IssuedTokens, TokenConfig, has_hash, is_absent, is_spent, is_disabled, issue, rotate_once, rotate,
}
use make_we_bet.Auth.Service.{Credentials, change_password, reset_password}
use make_we_bet.Auth.Revoked.{All-first?, SpentIf, revoke_where, revoke_where-SpentIf}

-- A token that was spent, of a user who is there.
rotate_spent :
    (config : TokenConfig) (now next raw : ℕ) (db : Db) {id : ℕ} {s : Session} {u : User}
    → first? (has_hash (config.hash_token raw)) db.sessions ≡ some (id, s)
    → lookup s.user_id db.users ≡ some u
    → is_spent s ≡ true
    → (rotate config now next raw db).0 ≡ err refresh_token_reuse
unfolding rotate rotate_once
rotate_spent config now next raw db found there spent = rw (found, there, spent) refl

rotate_burns :
    (config : TokenConfig) (now next raw : ℕ) (db : Db) {id : ℕ} {s : Session} {u : User}
    → first? (has_hash (config.hash_token raw)) db.sessions ≡ some (id, s)
    → lookup s.user_id db.users ≡ some u
    → is_spent s ≡ true
    → (rotate config now next raw db).1
      ≡ record db { sessions = revoke_where now (λ x. x.family_id == s.family_id) db.sessions }
unfolding rotate rotate_once
rotate_burns config now next raw db found there spent = rw (found, there, spent) refl

-- When a token that was used or revoked before, of a user who is there, is presented, it is refused
-- as reused, and so is every token of its family, the latest one too, that is presented next.
pub rotate-rotate_family :
    (config : TokenConfig) (now next raw later next' raw' : ℕ) (db : Db) {id id' : ℕ}
    {s s' : Session} {u u' : User}
    → first? (has_hash (config.hash_token raw)) db.sessions ≡ some (id, s)
    → lookup s.user_id db.users ≡ some u
    → is_spent s ≡ true
    → first? (has_hash (config.hash_token raw')) (rotate config now next raw db).1.sessions
      ≡ some (id', s')
    → lookup s'.user_id db.users ≡ some u'
    → s'.family_id ≡ s.family_id
    → ((rotate config now next raw db).0 ≡ err refresh_token_reuse)
      × ((rotate config later next' raw' (rotate config now next raw db).1).0
          ≡ err refresh_token_reuse)
rotate-rotate_family config now next raw later next' raw' db {s = s} {s' = s'} found there spent
      found' there' fam =
    let burnt = rotate_burns config now next raw db found there spent in
    let found_after = rw burnt at found' in
    (
      rotate_spent config now next raw db found there spent,
      rw burnt (
          rotate_spent config later next' raw' _ found_after there' (
            All-first? (SpentIf (λ x. x.family_id == s.family_id)) _ _
              (revoke_where-SpentIf now (λ x. x.family_id == s.family_id) db.sessions) found_after
              ((==_iff s'.family_id s.family_id).1 fam))),
    )

-- The session of the token is consumed, and its user is there.
IsConsumed : TokenConfig → ℕ → Db → Type 0
IsConsumed config raw db =
    (id : ℕ) × (s : Session) × (u : User) × (first? (has_hash (config.hash_token raw)) db.sessions
      ≡ some (id, s))
    × (lookup s.user_id db.users ≡ some u)
    × (is_spent s ≡ true)

issue-IsConsumed :
    (config : TokenConfig) (now user : ℕ) (role : UserRole) (family next raw : ℕ) (db : Db)
    → IsConsumed config raw db
    → IsConsumed config raw (issue config now user role family next db).1
unfolding issue IsConsumed
issue-IsConsumed config now user role family next raw db (id, s, u, found, there, spent) =
    elim (Bool-cases (is_absent (first? (has_hash (config.hash_token next)) db.sessions))) [
      | inl absent ↦ rw absent (
        id,
        s,
        u,
        first?-insert_new _ _ _ db.sessions (lookup-fresh db.sessions) found,
        there,
        spent,
      )
      | inr taken ↦ rw taken (id, s, u, found, there, spent)
    ]

consumed_is_spent : (now : ℕ) (s : Session) → is_spent (record s { consumed_at = some now }) ≡ true
consumed_is_spent now s = ground arith

rotate_once-IsConsumed :
    (config : TokenConfig) (now next raw id : ℕ) (s : Session) (u : User) (b : Bool) (db : Db)
    {issued : IssuedTokens}
    → HasUniqueKeys db.sessions
    → first? (has_hash (config.hash_token raw)) db.sessions ≡ some (id, s)
    → lookup s.user_id db.users ≡ some u
    → (rotate_once config now next id s u b db).0 ≡ ok issued
    → IsConsumed config raw (rotate_once config now next id s u b db).1
unfolding rotate_once IsConsumed
rotate_once-IsConsumed config now next raw id s u true db k found there h = cc h
rotate_once-IsConsumed config now next raw id s u false db {issued} k found there h =
    elim (Bool-cases (ltb s.expires_at now)) [
      | inl late ↦ absurd (let h' : err refresh_token_expired ≡ ok issued = rw late at h in cc h')
      | inr in_time ↦ elim (Bool-cases (is_disabled u.status)) [
        | inl off ↦
            absurd (let h' : err account_disabled ≡ ok issued = rw (in_time, off) at h in cc h')
        | inr on ↦
            rw (in_time, on)
              (issue-IsConsumed config now s.user_id u.role s.family_id next raw _ (
                id,
                record s { consumed_at = some now },
                u,
                first?-insert _ id s _ db.sessions k found
                    (first?-sound (has_hash (config.hash_token raw)) db.sessions found),
                there,
                consumed_is_spent now s,
              ))
      ]
    ]

-- What the row and its user lead to.
rotate_found :
    (config : TokenConfig) (now next raw : ℕ) (db : Db) {id : ℕ} {s : Session} {u : User}
    → first? (has_hash (config.hash_token raw)) db.sessions ≡ some (id, s)
    → lookup s.user_id db.users ≡ some u
    → rotate config now next raw db ≡ rotate_once config now next id s u (is_spent s) db
unfolding rotate
rotate_found config now next raw db found there = rw (found, there) refl

rotate-returned :
    (config : TokenConfig) (now next raw : ℕ) (db : Db) {issued : IssuedTokens}
    → (rotate config now next raw db).0 ≡ ok issued
    → (id : ℕ) × (s : Session) × (u : User) × (first? (has_hash (config.hash_token raw)) db.sessions
        ≡ some (id, s))
      × (lookup s.user_id db.users ≡ some u)
unfolding rotate
rotate-returned config now next raw db {issued} h =
    elim (Option-cases (first? (has_hash (config.hash_token raw)) db.sessions)) [
      | inl absent ↦
          absurd (let h' : err invalid_refresh_token ≡ ok issued = rw absent at h in cc h')
      | inr ((id, s), found) ↦ elim (Option-cases (lookup s.user_id db.users)) [
        | inl gone ↦ absurd (let h' : err type_error ≡ ok issued = rw (found, gone) at h in cc h')
        | inr (u, there) ↦ (id, s, u, found, there)
      ]
    ]

-- A token that was exchanged for the next one is not accepted again.
pub rotate-rotate :
    (config : TokenConfig) (now next raw later next' : ℕ) (db : Db) {issued : IssuedTokens}
    → HasUniqueKeys db.sessions
    → (rotate config now next raw db).0 ≡ ok issued
    → (rotate config later next' raw (rotate config now next raw db).1).0 ≡ err refresh_token_reuse
unfolding IsConsumed
rotate-rotate config now next raw later next' db k h =
    let (id, s, u, found, there) = rotate-returned config now next raw db h in
    let e = rotate_found config now next raw db found there in
    let (_, _, _, found', there', spent) =
      rotate_once-IsConsumed config now next raw id s u (is_spent s) db k found there (rw e at h) in
    rw e (rotate_spent config later next' raw _ found' there' spent)

change_password_lem :
    (c : Credentials) (now user password : ℕ) (db : Db)
    → (change_password c now user password db).0 ≡ ok tt
    → (u : User) × (lookup user (change_password c now user password db).1.users ≡ some u)
      × ((change_password c now user password db).1.sessions
          ≡ revoke_where now (λ s. s.user_id == user) db.sessions)
unfolding change_password
change_password_lem c now user password db h = elim (Option-cases (lookup user db.users)) [
  | inl gone ↦ absurd (let h' : err record_not_found ≡ ok tt = rw gone at h in cc h')
  | inr (u, there) ↦ rw there (_, lookup-insert_self user _ db.users, refl)
]

reset_password_lem :
    (c : Credentials) (now user token password : ℕ) (db : Db)
    → (reset_password c now user token password db).0 ≡ ok tt
    → (u : User) × (lookup user (reset_password c now user token password db).1.users ≡ some u)
      × All
          (λ (k, s). SpentIf (λ x. x.user_id == user) s)
          (reset_password c now user token password db).1.sessions
unfolding reset_password
reset_password_lem c now user token password db h =
    let (_, _, returned, e) =
      >>=-returned (consume c.hash_code now user password_reset token) _ db h in
    let after = (consume c.hash_code now user password_reset token db).1 in
    let same = transaction-returned (change_password c now user password) after returned in
    let (u, there, burnt) = change_password_lem c now user password after (rw same at returned) in
    rw (e, same, burnt) (u, there, revoke_where-SpentIf now _ after.sessions)

-- Once a user's password was reset, every refresh token of that user is refused.
pub reset_password-rotate :
    (c : Credentials) (now user token password later next raw : ℕ) (db : Db) {id : ℕ} {s : Session}
    → (reset_password c now user token password db).0 ≡ ok tt
    → first?
        (has_hash (c.tokens.hash_token raw))
        (reset_password c now user token password db).1.sessions
      ≡ some (id, s)
    → s.user_id ≡ user
    → (rotate c.tokens later next raw (reset_password c now user token password db).1).0
      ≡ err refresh_token_reuse
reset_password-rotate c now user token password later next raw db {s = s} h found own =
    let (u, there, burnt) = reset_password_lem c now user token password db h in
    rotate_spent c.tokens later next raw _ {u = u} found (rw own there) (
      All-first? (SpentIf (λ x. x.user_id == user)) _ _ burnt found ((==_iff s.user_id user).1 own))
