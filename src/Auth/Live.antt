-- ===== src/Auth/Live.antt =====
-- Of the codes of one user and purpose, one at most is not consumed.
use make_we_bet.Prelude.{
  ℕ, ◌≤◌, ◌≡◌, refl, Bool, true, false, none, some, [], ◌∷◌, All, arith, ==_refl, inl, inr,
  Bool-cases, ◌==◌, Table, insert, update_all, fresh, if◌then◌else◌,
}
use make_we_bet.Database.{OtpPurpose, OtpCode}
use make_we_bet.Auth.Otp.{is_live_code, new_code, consumed, superseding, newest}

-- No row satisfies the condition.
abbrev pub NoneOf : (OtpCode → Bool) → Table OtpCode → Type 0
NoneOf p t = All (λ (k, c). p c ≡ false) t

-- The row under this key is the only one that satisfies it.
pub data IsOnly (p : OtpCode → Bool) (id : ℕ) (c : OtpCode) : Table OtpCode → Type 0 where
  here : {t : Table OtpCode} → p c ≡ true → NoneOf p t → IsOnly p id c ((id, c) ∷ t)
  there :
      {j : ℕ} {d : OtpCode} {t : Table OtpCode}
      → (j == id) ≡ false
      → p d ≡ false
      → IsOnly p id c t
      → IsOnly p id c ((j, d) ∷ t)

pub newest-NoneOf : (p : OtpCode → Bool) (t : Table OtpCode) → NoneOf p t → newest p t ≡ none
newest-NoneOf p [] n = refl
newest-NoneOf p ((j, d) ∷ t) (e, n) = rw e (newest-NoneOf p t n)

pub newest-IsOnly :
    {p : OtpCode → Bool} {id : ℕ} {c : OtpCode} {t : Table OtpCode}
    → IsOnly p id c t
    → newest p t ≡ some (id, c)
newest-IsOnly {p} (here {t} e n) = rw (e, newest-NoneOf p t n) refl
newest-IsOnly (there k e o) = rw e (newest-IsOnly o)

pub insert-IsOnly :
    {p : OtpCode → Bool} {id : ℕ} {c d : OtpCode} {t : Table OtpCode}
    → p d ≡ true
    → IsOnly p id c t
    → IsOnly p id d (insert id d t)
insert-IsOnly {p} {id} h (here e n) = rw (==_refl id) (here h n)
insert-IsOnly h (there k e o) = rw k (there k e (insert-IsOnly h o))

-- Its row no longer satisfies the condition, so none does.
pub insert-NoneOf :
    {p : OtpCode → Bool} {id : ℕ} {c : OtpCode} {t : Table OtpCode} (d : OtpCode)
    → p d ≡ false
    → IsOnly p id c t
    → NoneOf p (insert id d t)
insert-NoneOf {p} {id} d h (here e n) = rw (==_refl id) (h, n)
insert-NoneOf d h (there k e o) = rw k (e, insert-NoneOf d h o)

-- A row with an unused key.
pub insert-NoneOf-IsOnly :
    {p : OtpCode → Bool} {d : OtpCode} (k : ℕ) (t : Table OtpCode)
    → fresh t ≤ k
    → p d ≡ true
    → NoneOf p t
    → IsOnly p k d (insert k d t)
insert-NoneOf-IsOnly k [] f h n = here h n
insert-NoneOf-IsOnly k ((j, e) ∷ t) f h (ne, n) =
    let other : (j == k) ≡ false = ground arith in
    rw other (there other ne (insert-NoneOf-IsOnly k t (omega arith) h n))

pub consumed_is_dead :
    (now user : ℕ) (purpose : OtpPurpose) (c : OtpCode)
    → is_live_code user purpose (consumed now c) ≡ false
consumed_is_dead now user purpose c = ground arith

pub superseded_is_dead :
    (now user : ℕ) (purpose : OtpPurpose) (c : OtpCode)
    → is_live_code user purpose (if is_live_code user purpose c then consumed now c else c) ≡ false
superseded_is_dead now user purpose c = elim (Bool-cases (is_live_code user purpose c)) [
  | inl e ↦ rw e (consumed_is_dead now user purpose c)
  | inr e ↦ rw (e, e) refl
]

pub update_all-NoneOf :
    (now user : ℕ) (purpose : OtpPurpose) (t : Table OtpCode)
    → NoneOf (is_live_code user purpose) (update_all (is_live_code user purpose) (consumed now) t)
update_all-NoneOf now user purpose [] = tt
update_all-NoneOf now user purpose ((j, c) ∷ t) =
    (superseded_is_dead now user purpose c, update_all-NoneOf now user purpose t)

pub new_code_is_live :
    (now user : ℕ) (purpose : OtpPurpose) (h : ℕ)
    → is_live_code user purpose (new_code now user purpose h) ≡ true
new_code_is_live now user purpose h = ground arith

-- The code that was just issued.
pub superseding-IsOnly :
    (now user : ℕ) (purpose : OtpPurpose) (h : ℕ) (t : Table OtpCode)
    → (id : ℕ) × IsOnly
        (is_live_code user purpose)
        id
        (new_code now user purpose h)
        (superseding now user purpose h t)
superseding-IsOnly now user purpose h t =
    let older = update_all (is_live_code user purpose) (consumed now) t in
    (
      fresh older,
      insert-NoneOf-IsOnly (fresh older) older (omega arith) (new_code_is_live now user purpose h)
          (update_all-NoneOf now user purpose t),
    )
