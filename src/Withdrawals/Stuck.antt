-- ===== src/Withdrawals/Stuck.antt =====
-- What an approval leaves when the gateway does not answer.
use make_we_bet.Prelude.{
  ℕ, ◌≡◌, refl, true, false, some, ◌==◌, lookup, insert, lookup-insert_self, ◌∷◌,
}
use make_we_bet.Errors.{Result, ok, err, gateway_error, invalid_status}
use make_we_bet.Database.{Db, Withdrawal, approved, BankAccount, withdrawal_approve}
use make_we_bet.Withdrawals.Banks.{owned, decrypted_for}
use make_we_bet.Withdrawals.Payout.{PayoutResult, initiate_payout}
use make_we_bet.Withdrawals.Review.{awaits_review, approve, reject}

-- The tables behind the two writes that come before the payout.
abbrev pub approved_tables : ℕ → ℕ → Withdrawal → Db → Db
approved_tables admin id w db = record db {
  withdrawals =
      insert id (record w { status = approved; reviewed_by_id = some admin }) db.withdrawals;
  audits = (admin, withdrawal_approve id) ∷ db.audits;
}

-- Neither review accepts a withdrawal in another status.
reject-not_awaiting :
    (now admin id : ℕ) (db : Db) (w : Withdrawal)
    → lookup id db.withdrawals ≡ some w
    → awaits_review w.status ≡ false
    → reject now admin id db ≡ (err invalid_status, db)
unfolding reject
reject-not_awaiting now admin id db w e s = rw (e, s)

approve-not_awaiting :
    (decrypt : ℕ → Result ℕ) (gateway : ℕ → ℕ → Result PayoutResult) (now admin id : ℕ) (db : Db)
    (w : Withdrawal)
    → lookup id db.withdrawals ≡ some w
    → awaits_review w.status ≡ false
    → approve decrypt gateway now admin id db ≡ (err invalid_status, db)
unfolding approve
approve-not_awaiting decrypt gateway now admin id db w e s = rw (e, s)

module _ (decrypt : ℕ → Result ℕ) (gateway : ℕ → ℕ → Result PayoutResult) (now admin id number : ℕ)
    (db : Db) (w : Withdrawal) (bank : BankAccount) (stored : lookup id db.withdrawals ≡ some w)
    (waiting : awaits_review w.status ≡ true) (other : (w.user_id == admin) ≡ false)
    (held : owned w.user_id (lookup w.bank_account_id db.bank_accounts) ≡ some bank)
    (plain : decrypt bank.account_number_enc ≡ ok number)
    (down : gateway id number ≡ err gateway_error) where
  approve-gateway_down :
      approve decrypt gateway now admin id db ≡ (err gateway_error, approved_tables admin id w db)
  unfolding approve initiate_payout decrypted_for
  approve-gateway_down = rw (
    stored,
    waiting,
    other,
    lookup-insert_self id (record w { status = approved; reviewed_by_id = some admin })
        db.withdrawals,
    held,
    plain,
    down,
  )

  -- When the gateway throws during an approval, the approval throws and the withdrawal stays
  -- APPROVED with its hold; from there every rejection and every new approval is refused.
  pub approve-stuck :
      (later reviewer : ℕ)
      → (approve decrypt gateway now admin id db
          ≡ (err gateway_error, approved_tables admin id w db))
        × (reject later reviewer id (approved_tables admin id w db)
            ≡ (err invalid_status, approved_tables admin id w db))
        × (approve decrypt gateway later reviewer id (approved_tables admin id w db)
            ≡ (err invalid_status, approved_tables admin id w db))
  approve-stuck later reviewer =
      let row : Withdrawal = record w { status = approved; reviewed_by_id = some admin } in
      let e = lookup-insert_self id row db.withdrawals in
      (
        approve-gateway_down,
        reject-not_awaiting later reviewer id (approved_tables admin id w db) row e refl,
        approve-not_awaiting decrypt gateway later reviewer id (approved_tables admin id w db) row e
            refl,
      )
