-- ===== src/Auth/Codes.antt =====
-- A code that was issued is the only one of its purpose that its user can use, once, and within five
-- attempts.
use make_we_bet.Prelude.{
  ℕ, suc, ◌+◌, ◌≤◌, ◌≡◌, refl, ap, leb→le, true, false, List, [], ◌∷◌, All, arith, ==_refl, inl,
  inr, Bool-cases, leb, ltb, ◌==◌, length,
}
use make_we_bet.Errors.{ok, err, otp_invalid, otp_locked}
use make_we_bet.Database.{OtpPurpose, OtpCode, Db}
use make_we_bet.Auth.Otp.{
  otp_ttl_ms, max_attempts, is_live_code, new_code, persist, issue_code, consume,
}
use make_we_bet.Auth.Live.{
  NoneOf, IsOnly, newest-NoneOf, newest-IsOnly, insert-IsOnly, insert-NoneOf, consumed_is_dead,
  new_code_is_live, superseding-IsOnly,
}

le→leb : {n : ℕ} → 5 ≤ n → leb max_attempts n ≡ true
le→leb h = ground arith

not_le→leb : {n : ℕ} → n ≤ 4 → leb max_attempts n ≡ false
not_le→leb h = ground arith

-- The new code after this many wrong values.
abbrev code_after : ℕ → ℕ → OtpPurpose → ℕ → ℕ → OtpCode
code_after now user purpose h n = record (new_code now user purpose h) { attempts = n }

module _ (hash : ℕ → ℕ) (issued user : ℕ) (purpose : OtpPurpose) (code : ℕ) where
  -- The code is the user's only one, after this many wrong values.
  HasCode : ℕ → Db → Type 0
  HasCode n db =
      (id : ℕ) × IsOnly (is_live_code user purpose) id
        (code_after issued user purpose (hash code) n) db.otp_codes

  issue_code-HasCode : (db : Db) → HasCode 0 (issue_code hash issued user purpose code db).1
  unfolding HasCode issue_code persist
  issue_code-HasCode db = superseding-IsOnly issued user purpose (hash code) db.otp_codes

  -- Not past its time.
  abbrev pub IsInTime : ℕ → Type 0
  IsInTime now = now ≤ issued + otp_ttl_ms

  in_time : (now : ℕ) → IsInTime now → ltb (issued + otp_ttl_ms) now ≡ false
  in_time now h = ground arith

  consume_locked :
      (now value n : ℕ) (db : Db)
      → HasCode n db
      → IsInTime now
      → 5 ≤ n
      → consume hash now user purpose value db ≡ (err otp_locked, db)
  unfolding HasCode consume
  consume_locked now value n db (id, o) t five =
      rw (newest-IsOnly o, in_time now t, le→leb five) refl

  consume_wrong :
      (now value n : ℕ) (db : Db)
      → HasCode n db
      → IsInTime now
      → n ≤ 4
      → (hash code == hash value) ≡ false
      → ((consume hash now user purpose value db).0 ≡ err otp_invalid)
        × HasCode (suc n) (consume hash now user purpose value db).1
  unfolding HasCode consume
  consume_wrong now value n db (id, o) t four wrong =
      rw (newest-IsOnly o, in_time now t, not_le→leb four, wrong)
        (refl, (id, insert-IsOnly (new_code_is_live issued user purpose (hash code)) o))

  consume_right :
      (now n : ℕ) (db : Db)
      → HasCode n db
      → IsInTime now
      → n ≤ 4
      → ((consume hash now user purpose code db).0 ≡ ok tt)
        × NoneOf (is_live_code user purpose) (consume hash now user purpose code db).1.otp_codes
  unfolding HasCode consume
  consume_right now n db (id, o) t four =
      rw (newest-IsOnly o, in_time now t, not_le→leb four, ==_refl (hash code))
        (
          refl,
          insert-NoneOf _
              (consumed_is_dead now user purpose (code_after issued user purpose (hash code) n)) o,
        )

  consume_none :
      (now value : ℕ) (db : Db)
      → NoneOf (is_live_code user purpose) db.otp_codes
      → consume hash now user purpose value db ≡ (err otp_invalid, db)
  unfolding consume
  consume_none now value db n = rw (newest-NoneOf _ db.otp_codes n) refl

  -- The tables after each of these times and values has been tried.
  abbrev pub tried : List (ℕ × ℕ) → Db → Db
  tried [] db = db
  tried ((now, value) ∷ rest) db = tried rest (consume hash now user purpose value db).1

  -- A wrong value, before the code expires.
  abbrev pub IsWrongGuess : ℕ × ℕ → Type 0
  IsWrongGuess (now, value) = IsInTime now × ((hash code == hash value) ≡ false)

  tried-HasCode :
      (n : ℕ) (guesses : List (ℕ × ℕ)) (db : Db)
      → HasCode n db
      → All IsWrongGuess guesses
      → 5 ≤ n + length guesses
      → (m : ℕ) × (5 ≤ m) × HasCode m (tried guesses db)
  tried-HasCode n [] db c ws five = (n, omega (arith, five), c)
  tried-HasCode n ((now, value) ∷ rest) db c ((t, wrong), ws) five = elim (Bool-cases (leb 5 n)) [
    | inl e ↦
        rw (consume_locked now value n db c t (leb→le 5 n e))
          (tried-HasCode n rest db c ws (omega (arith, leb→le 5 n e)))
    | inr e ↦
        let (_, c') = consume_wrong now value n db c t (ground arith) wrong in
        tried-HasCode (suc n) rest _ c' ws (omega (arith, five))
  ]

  -- Once five or more wrong values have been tried against a code, every further one is refused as
  -- locked until the code expires, the right one too.
  pub issue_code-tried-consume :
      (db : Db) (guesses : List (ℕ × ℕ)) (now value : ℕ)
      → All IsWrongGuess guesses
      → 5 ≤ length guesses
      → IsInTime now
      → (consume hash now user purpose value
          (tried guesses (issue_code hash issued user purpose code db).1)).0
        ≡ err otp_locked
  issue_code-tried-consume db guesses now value ws five t =
      let (m, le, c) = tried-HasCode 0 guesses _ (issue_code-HasCode db) ws (omega (arith, five)) in
      ap (λ r. r.0) (consume_locked now value m _ c t le)

  -- The code that was issued is accepted until it expires, whatever codes there were before; after
  -- that no value is, until another code is issued.
  pub issue_code-consume :
      (db : Db) (now : ℕ)
      → IsInTime now
      → let after =
          consume hash now user purpose code (issue_code hash issued user purpose code db).1 in
        (after.0 ≡ ok tt)
        × ((next value : ℕ)
            → consume hash next user purpose value after.1 ≡ (err otp_invalid, after.1))
  issue_code-consume db now t =
      let (e, n) = consume_right now 0 _ (issue_code-HasCode db) t (omega arith) in
      (e, λ next value. consume_none next value _ n)

-- A new code of one user and purpose replaces the one before it: until the new one expires, the old
-- one is refused, if the two do not have the same hash.
pub issue_code-issue_code-consume :
    (hash : ℕ → ℕ) (first second now user : ℕ) (purpose : OtpPurpose) (old new : ℕ) (db : Db)
    → (hash new == hash old) ≡ false
    → now ≤ second + otp_ttl_ms
    → (consume hash now user purpose old
        (issue_code hash second user purpose new (issue_code hash first user purpose old db).1).1).0
      ≡ err otp_invalid
issue_code-issue_code-consume hash first second now user purpose old new db wrong t =
    (consume_wrong hash second user purpose new now old 0 _
      (issue_code-HasCode hash second user purpose new _) t (omega arith) wrong).0
