-- ===== src/Withdrawals/Fraud.antt =====
-- FraudService of apps/api/src/modules/withdrawals/fraud.service.ts. An account that was created
-- after `now` counts as young, as a negative age does in the source.
use make_we_bet.Prelude.{
  ℕ, ◌+◌, ◌-◌, ◌*◌, min, ◌&&◌, List, [], ◌∷◌, ltb, leb, ◌==◌, if◌then◌else◌, length, Table, lookup,
  select,
}
use make_we_bet.Errors.{record_not_found}
use make_we_bet.Database.{User, Entry, Withdrawal, Db, Action, ◌>>=◌, return, tables, found}
use make_we_bet.Wallet.{is_null}

abbrev pub day_ms : ℕ
day_ms = 86400000

abbrev pub age_score : ℕ → ℕ
age_score age = if ltb age day_ms then 35 else if ltb age (7 * day_ms) then 20 else 0

abbrev pub recent_withdrawals : ℕ → ℕ → Table Withdrawal → ℕ
recent_withdrawals now user t =
    length (select (λ w. (w.user_id == user) && leb now (w.requested_at + day_ms)) t)

abbrev sum_prizes : List (ℕ × Entry) → ℕ
sum_prizes [] = 0
sum_prizes ((_, e) ∷ es) = e.prize_minor + sum_prizes es

abbrev pub winnings : ℕ → Table Entry → ℕ
winnings user t = sum_prizes (select (λ e. (e.user_id == user) && ltb 0 e.prize_minor) t)

unfoldable pub fraud_score : ℕ → ℕ → ℕ → User → Db → ℕ
fraud_score now user amount u db = min 100 (
    age_score (now - u.created_at)
    + (if is_null u.email_verified_at then 20 else 0)
    + min 30 (recent_withdrawals now user db.withdrawals * 10)
    + (if (winnings user db.entries == 0) && ltb 100000 amount then 15 else 0))

unfoldable pub score_withdrawal : ℕ → ℕ → ℕ → Action ℕ
unfolding fraud_score
score_withdrawal now user amount = do
  db ← tables
  u ← found (lookup user db.users) record_not_found
  return (fraud_score now user amount u db)
