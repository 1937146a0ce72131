-- ===== src/Withdrawals/Final.antt =====
-- A withdrawal that is PAID or FAILED is never written again.
use make_we_bet.Prelude.{
  ℕ, ◌≡◌, refl, Bool, true, false, some, inl, inr, Bool-cases, ◌==◌, ==→eq, lookup,
}
use make_we_bet.Errors.{Result}
use make_we_bet.Database.{
  Withdrawal, WithdrawalStatus, paid, failed, requested, under_review, approved, processing,
  rejected, reversed, Db, Action,
}
use make_we_bet.Database.Invariant.{Keeps}
use make_we_bet.Withdrawals.Payout.{is_final, settle_found, settle_withdrawal, PayoutResult}
use make_we_bet.Withdrawals.Review.{awaits_review, approve, reject}
use make_we_bet.Withdrawals.Request.{request}
use make_we_bet.Withdrawals.Others.{
  Kept, settle_other-Kept, approve_other-Kept, reject_other-Kept, request-Kept,
}

-- Where the withdrawal is final, the handlers on it stop at their first test.
module _ (j : ℕ) (v : Withdrawal) (is_over : is_final v.status ≡ true) where
  not_awaiting : (s : WithdrawalStatus) → is_final s ≡ true → awaits_review s ≡ false
  not_awaiting paid h = refl
  not_awaiting failed h = refl
  not_awaiting requested h = cc h
  not_awaiting under_review h = cc h
  not_awaiting approved h = refl
  not_awaiting processing h = refl
  not_awaiting rejected h = refl
  not_awaiting reversed h = refl

  approve_own-Kept :
      (decrypt : ℕ → Result ℕ) (gateway : ℕ → ℕ → Result PayoutResult) (now admin : ℕ)
      → Keeps (Kept j v) (approve decrypt gateway now admin j)
  unfolding Keeps Kept approve
  approve_own-Kept decrypt gateway now admin db h = rw (h, not_awaiting v.status is_over) h

  reject_own-Kept : (now admin : ℕ) → Keeps (Kept j v) (reject now admin j)
  unfolding Keeps Kept reject
  reject_own-Kept now admin db h = rw (h, not_awaiting v.status is_over) h

  settle_own-Kept : (now : ℕ) (success : Bool) → Keeps (Kept j v) (settle_withdrawal now j success)
  unfolding Keeps Kept settle_withdrawal
  settle_own-Kept now success db h = rw (h, is_over, settle_found) h

-- One call of a handler that writes withdrawals.
pub data WithdrawalStep : Db → Db → Type 0 where
  requests :
      (hash : ℕ → ℕ) (decrypt : ℕ → Result ℕ) (now user bank amount code : ℕ) (db : Db)
      → WithdrawalStep db (request hash decrypt now user bank amount code db).1
  approves :
      (decrypt : ℕ → Result ℕ) (gateway : ℕ → ℕ → Result PayoutResult) (now admin id : ℕ) (db : Db)
      → WithdrawalStep db (approve decrypt gateway now admin id db).1
  rejects : (now admin id : ℕ) (db : Db) → WithdrawalStep db (reject now admin id db).1
  settles :
      (now id : ℕ) (success : Bool) (db : Db)
      → WithdrawalStep db (settle_withdrawal now id success db).1

-- On the withdrawal itself, or on another one.
on_either :
    {A : Type 0} (P : Db → Type 0) (j : ℕ) (m : ℕ → Action A)
    → Keeps P (m j)
    → ((id : ℕ) → (id == j) ≡ false → Keeps P (m id))
    → (id : ℕ) → Keeps P (m id)
on_either P j m own others id = elim (Bool-cases (id == j)) [
  | inl same ↦ rw (==→eq id j same) own
  | inr other ↦ others id other
]

-- A withdrawal that is PAID or FAILED keeps its row, whatever the handlers that write withdrawals are
-- called with, and whether they return or throw.
pub WithdrawalStep-is_final :
    {db db' : Db}
    → WithdrawalStep db db'
    → (j : ℕ) (w : Withdrawal) → lookup j db.withdrawals ≡ some w
    → is_final w.status ≡ true
    → lookup j db'.withdrawals ≡ some w
unfolding Keeps Kept
WithdrawalStep-is_final (requests hash decrypt now user bank amount code db) j w h over =
    request-Kept j w hash decrypt now user bank amount code db h
WithdrawalStep-is_final (approves decrypt gateway now admin id db) j w h over =
    on_either (Kept j w) j (λ k. approve decrypt gateway now admin k)
      (approve_own-Kept j w over decrypt gateway now admin)
      (λ k other. approve_other-Kept j w k other decrypt gateway now admin) id db h
WithdrawalStep-is_final (rejects now admin id db) j w h over =
    on_either (Kept j w) j (λ k. reject now admin k) (reject_own-Kept j w over now admin)
      (λ k other. reject_other-Kept j w k other now admin) id db h
WithdrawalStep-is_final (settles now id success db) j w h over =
    on_either (Kept j w) j (λ k. settle_withdrawal now k success)
      (settle_own-Kept j w over now success) (λ k other. settle_other-Kept j w k other now success)
      id db h
