-- ===== src/Ledger/Lines.antt =====
-- What the loop over the lines of an entry does to the accounts.
use make_we_bet.Prelude.{
  ℕ, ◌≡◌, refl, sym, ap, ◌∙◌, inl, inr, Bool, true, Option, none, some, List, [], ◌∷◌, arith, ◌==◌,
  if◌then◌else◌, Bool-cases, ℤ, pos, ◌+ℤ◌, ◌≤ℤ◌, +ℤ_zero, +ℤ_shift, +ℤ_chain, Table, lookup, insert,
  lookup-insert, total, total-insert, ltb_ℤ, ◌&&◌, not,
}
use mathlib.Core.Path.{subst}
use make_we_bet.Errors.{
  ok, err, Result, record_not_found, insufficient_funds_on, >>=-eq-ok, ensure-eq-ok, or_throw-eq-ok,
  or_throw, ensure,
}
use make_we_bet.Ledger.{
  Account, AccountType, JournalLine, is_non_negative_type, increment, sum_amounts, apply_line,
  apply_lines,
}

-- A line that was applied found its account, wrote the sum, and left no guarded account negative.
pub record Applied (l : JournalLine) (t t' : Table Account) : Type 0 where
  pub old : Account
  pub found : lookup l.account_id t ≡ some old
  pub written : t' ≡ insert l.account_id (increment old l.amount_minor) t
  pub guarded : is_non_negative_type old.type ≡ true → pos 0 ≤ℤ old.balance_minor +ℤ l.amount_minor

passes→nonneg : (b : Bool) (x : ℤ) → not (b && ltb_ℤ x (pos 0)) ≡ true → b ≡ true → pos 0 ≤ℤ x
passes→nonneg b x h e = ground arith

pub apply_line-Applied :
    (l : JournalLine) (t : Table Account) {t' : Table Account}
    → apply_line l t ≡ ok t'
    → Applied l t t'
unfolding apply_line
apply_line-Applied l t h =
    let (a, found, h₁) = >>=-eq-ok (or_throw (lookup l.account_id t) record_not_found) _ h in
    let (_, checked, h₂) =
      >>=-eq-ok
        (ensure
          (not (is_non_negative_type a.type && ltb_ℤ (a.balance_minor +ℤ l.amount_minor) (pos 0)))
          (insufficient_funds_on l.account_id))
        _ h₁ in
    record {
      old = a;
      found = or_throw-eq-ok (lookup l.account_id t) record_not_found found;
      written = cc h₂;
      guarded = passes→nonneg _ _ (ensure-eq-ok _ _ checked);
    }

-- The balance of an account, 0 where there is none.
abbrev pub balance_in : Option Account → ℤ
balance_in none = pos 0
balance_in (some a) = a.balance_minor

abbrev pub balance : ℕ → Table Account → ℤ
balance k t = balance_in (lookup k t)

-- The sum of the lines that name an account.
abbrev pub moved : ℕ → List JournalLine → ℤ
moved k [] = pos 0
moved k (l ∷ ls) = (if l.account_id == k then l.amount_minor else pos 0) +ℤ moved k ls

abbrev pub balance_minor_of : Account → ℤ
balance_minor_of a = a.balance_minor

-- What an account is, apart from its balance.
abbrev pub owner_of : Account → AccountType × Option ℕ × Option ℕ × ℕ
owner_of a = (a.type, a.user_id, a.contest_id, a.currency)

abbrev pub owner_in : Option Account → Option (AccountType × Option ℕ × Option ℕ × ℕ)
owner_in none = none
owner_in (some a) = some (owner_of a)

abbrev pub NonNegative : Table Account → Type 0
NonNegative t =
    (k : ℕ) (a : Account)
    → lookup k t ≡ some a
    → is_non_negative_type a.type ≡ true
    → pos 0 ≤ℤ a.balance_minor

-- The value of a result that is known to have returned.
abbrev result_or {ℓ} : {A : Type ℓ} → A → Result A → A
result_or a (ok b) = b
result_or a (err e) = a

balance-apply_line :
    (l : JournalLine) (t : Table Account) {t' : Table Account} (k : ℕ)
    → Applied l t t'
    → balance k t' ≡ balance k t +ℤ (if l.account_id == k then l.amount_minor else pos 0)
balance-apply_line l t k p =
    rw (p.written, lookup-insert l.account_id k (increment p.old l.amount_minor) t)
      (elim (Bool-cases (l.account_id == k)) [
        | inl same ↦ let e : l.account_id ≡ k = ground arith in rw same (rw (← e) (rw p.found refl))
        | inr other ↦ rw other (sym (+ℤ_zero _))
      ])

owner-apply_line :
    (l : JournalLine) (t : Table Account) {t' : Table Account} (k : ℕ)
    → Applied l t t'
    → owner_in (lookup k t') ≡ owner_in (lookup k t)
owner-apply_line l t k p =
    rw (p.written, lookup-insert l.account_id k (increment p.old l.amount_minor) t)
      (elim (Bool-cases (l.account_id == k)) [
        | inl same ↦ let e : l.account_id ≡ k = ground arith in rw same (rw (← e) (rw p.found refl))
        | inr other ↦ rw other refl
      ])

total-apply_line :
    (l : JournalLine) (t : Table Account) {t' : Table Account}
    → Applied l t t'
    → total balance_minor_of t' ≡ total balance_minor_of t +ℤ l.amount_minor
total-apply_line l t p = rw p.written (
    +ℤ_shift _ p.old.balance_minor _ l.amount_minor
      (total-insert balance_minor_of l.account_id p.old (increment p.old l.amount_minor) t p.found))

NonNegative-apply_line :
    (l : JournalLine) (t : Table Account) {t' : Table Account}
    → Applied l t t'
    → NonNegative t
    → NonNegative t'
NonNegative-apply_line l t {t'} p h k a found kept =
    let e : lookup k t'
        ≡ (if l.account_id == k then some (increment p.old l.amount_minor) else lookup k t) =
      rw p.written (lookup-insert l.account_id k (increment p.old l.amount_minor) t) in
    elim (Bool-cases (l.account_id == k)) [
      | inl same ↦ ground (arith, p.guarded)
      | inr other ↦ h k a (ground arith) kept
    ]

-- The same for the whole loop.
pub balance-apply_lines :
    (ls : List JournalLine) (t : Table Account) {t' : Table Account} (k : ℕ)
    → apply_lines ls t ≡ ok t'
    → balance k t' ≡ balance k t +ℤ moved k ls
unfolding apply_lines
balance-apply_lines [] t k h =
    ap (λ r. balance k (result_or t r)) (sym h) ∙ sym (+ℤ_zero (balance k t))
balance-apply_lines (l ∷ ls) t k h =
    let (u, first, rest) = >>=-eq-ok (apply_line l t) _ h in
    +ℤ_chain _ _ _ _ _ (balance-apply_lines ls u k rest)
      (balance-apply_line l t k (apply_line-Applied l t first))

pub owner-apply_lines :
    (ls : List JournalLine) (t : Table Account) {t' : Table Account} (k : ℕ)
    → apply_lines ls t ≡ ok t'
    → owner_in (lookup k t') ≡ owner_in (lookup k t)
unfolding apply_lines
owner-apply_lines [] t k h = ap (λ r. owner_in (lookup k (result_or t r))) (sym h)
owner-apply_lines (l ∷ ls) t k h =
    let (u, first, rest) = >>=-eq-ok (apply_line l t) _ h in
    owner-apply_lines ls u k rest ∙ owner-apply_line l t k (apply_line-Applied l t first)

pub total-apply_lines :
    (ls : List JournalLine) (t : Table Account) {t' : Table Account}
    → apply_lines ls t ≡ ok t'
    → total balance_minor_of t' ≡ total balance_minor_of t +ℤ sum_amounts ls
unfolding apply_lines
total-apply_lines [] t h =
    ap (λ r. total balance_minor_of (result_or t r)) (sym h)
    ∙ sym (+ℤ_zero (total balance_minor_of t))
total-apply_lines (l ∷ ls) t h =
    let (u, first, rest) = >>=-eq-ok (apply_line l t) _ h in
    +ℤ_chain _ _ _ _ _ (total-apply_lines ls u rest)
      (total-apply_line l t (apply_line-Applied l t first))

pub NonNegative-apply_lines :
    (ls : List JournalLine) (t : Table Account) {t' : Table Account}
    → apply_lines ls t ≡ ok t'
    → NonNegative t
    → NonNegative t'
unfolding apply_lines
NonNegative-apply_lines [] t h n = subst (λ r. NonNegative (result_or t r)) h n
NonNegative-apply_lines (l ∷ ls) t h n =
    let (u, first, rest) = >>=-eq-ok (apply_line l t) _ h in
    NonNegative-apply_lines ls u rest (NonNegative-apply_line l t (apply_line-Applied l t first) n)
