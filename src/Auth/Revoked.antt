-- ===== src/Auth/Revoked.antt =====
-- The sessions after those that satisfy a condition were revoked.
use make_we_bet.Prelude.{
  ℕ, ◌≡◌, refl, sym, ◌∙◌, Bool, true, false, ◌&&◌, some, [], ◌∷◌, inl, inr, Bool-cases, All, Table,
  first?, update_all, if◌then◌else◌,
}
use make_we_bet.Database.{Session}
use make_we_bet.Wallet.{is_null}
use make_we_bet.Auth.Tokens.{revoked, is_spent}

-- What holds of all rows holds of the one that is found.
pub All-first? :
    (P : Session → Type 0) (p : Session → Bool) (t : Table Session) {r : ℕ × Session}
    → All (λ (k, s). P s) t
    → first? p t ≡ some r
    → P r.1
All-first? P p [] a h = cc h
All-first? P p ((j, s) ∷ t) {r} (x, a) h = elim (Bool-cases (p s)) [
  | inl e ↦
      let same : some (j, s) ≡ some r = rw e at h in let eq : s ≡ r.1 = cc same in rw (sym eq) x
  | inr e ↦ All-first? P p t a (rw e at h)
]

-- A session of which `q` holds is spent.
abbrev pub SpentIf : (Session → Bool) → Session → Type 0
SpentIf q s = q s ≡ true → is_spent s ≡ true

-- `updateMany({ where: { …, revokedAt: null }, data: { revokedAt } })`
abbrev pub revoke_where : ℕ → (Session → Bool) → Table Session → Table Session
revoke_where now q t = update_all (λ s. q s && is_null s.revoked_at) (revoked now) t

pub revoked-SpentIf :
    (now : ℕ) (q : Session → Bool) (s : Session)
    → SpentIf q (if q s && is_null s.revoked_at then revoked now s else s)
revoked-SpentIf now q s = elim (Bool-cases (q s)) [
  | inl holds ↦ elim (Bool-cases (is_null s.revoked_at)) [
    | inl live ↦ rw (holds, live) λ _. refl
    | inr dead ↦ rw (holds, dead) λ _. rw dead refl
  ]
  | inr fails ↦ rw fails λ h. absurd (let h' : false ≡ true = sym fails ∙ h in cc h')
]

pub revoke_where-SpentIf :
    (now : ℕ) (q : Session → Bool) (t : Table Session)
    → All (λ (k, s). SpentIf q s) (revoke_where now q t)
revoke_where-SpentIf now q [] = tt
revoke_where-SpentIf now q ((j, s) ∷ t) = (revoked-SpentIf now q s, revoke_where-SpentIf now q t)
