-- ===== src/Auth/Rotations.antt =====
-- Issuing, rotating and revoking tokens keeps the invariant of the sessions.
use make_we_bet.Prelude.{
  ℕ, ◌≡◌, refl, Bool, true, false, Option, none, some, inl, inr, Bool-cases, Option-cases, ltb,
  lookup, first?, lookup-first?, count_rows,
}
use make_we_bet.Database.{Session, User, UserRole, Db}
use make_we_bet.Auth.Tokens.{
  TokenConfig, has_hash, is_absent, is_spent, is_disabled, new_session, issue, rotate_once, rotate,
  revoke_found, revoke_by_token,
}
use make_we_bet.Auth.Families.{
  live_in, IsOrderly, update_all-IsOrderly, insert-fresh-IsOrderly, consumed-IsOrderly,
}

abbrev pub Orderly : Db → Type 0
Orderly db = IsOrderly db.sessions

-- No token of the family can be used, as when its id has just been drawn.
abbrev pub Unused : ℕ → Db → Type 0
Unused family db = count_rows (live_in family) db.sessions ≡ 0

pub issue-Orderly :
    (config : TokenConfig) (now user : ℕ) (role : UserRole) (family raw : ℕ) (db : Db)
    → Orderly db
    → Unused family db
    → Orderly (issue config now user role family raw db).1
unfolding issue
issue-Orderly config now user role family raw db o u =
    elim (Bool-cases (is_absent (first? (has_hash (config.hash_token raw)) db.sessions))) [
      | inl e ↦
          rw e (insert-fresh-IsOrderly (new_session config now user family raw) db.sessions o u)
      | inr e ↦ rw e o
    ]

pub rotate_once-Orderly :
    (config : TokenConfig) (now next id : ℕ) (s : Session) (u : User) (db : Db) (b : Bool)
    → is_spent s ≡ b
    → lookup id db.sessions ≡ some s
    → Orderly db
    → Orderly (rotate_once config now next id s u b db).1
unfolding rotate_once
rotate_once-Orderly config now next id s u db true h e o = update_all-IsOrderly _ now db.sessions o
rotate_once-Orderly config now next id s u db false h e o =
    elim (Bool-cases (ltb s.expires_at now)) [
      | inl late ↦ rw late o
      | inr in_time ↦ elim (Bool-cases (is_disabled u.status)) [
        | inl off ↦ rw (in_time, off) o
        | inr on ↦
            let (o', none_live) = consumed-IsOrderly now id s db.sessions o e h in
            rw (in_time, on)
              (issue-Orderly config now s.user_id u.role s.family_id next _ o' none_live)
      ]
    ]

pub rotate-Orderly :
    (config : TokenConfig) (now next raw : ℕ) (db : Db)
    → Orderly db
    → Orderly (rotate config now next raw db).1
unfolding rotate
rotate-Orderly config now next raw db o =
    elim (Option-cases (first? (has_hash (config.hash_token raw)) db.sessions)) [
      | inl none_found ↦ rw none_found o
      | inr ((id, s), found) ↦ elim (Option-cases (lookup s.user_id db.users)) [
        | inl gone ↦ rw (found, gone) o
        | inr (u, there) ↦
            rw (found, there)
              (rotate_once-Orderly config now next id s u db (is_spent s) refl
                (lookup-first? _ db.sessions o.0 found) o)
      ]
    ]

pub revoke_found-Orderly :
    (config : TokenConfig) (now : ℕ) (o : Option (ℕ × Session)) (db : Db)
    → Orderly db
    → Orderly (revoke_found config now o db).1
revoke_found-Orderly config now none db o = o
revoke_found-Orderly config now (some (id, s)) db o = update_all-IsOrderly _ now db.sessions o

pub revoke_by_token-Orderly :
    (config : TokenConfig) (now raw : ℕ) (db : Db)
    → Orderly db
    → Orderly (revoke_by_token config now raw db).1
unfolding revoke_by_token
revoke_by_token-Orderly config now raw db o = revoke_found-Orderly config now _ db o
