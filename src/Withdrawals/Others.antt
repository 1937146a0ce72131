-- ===== src/Withdrawals/Others.antt =====
-- The handlers that write withdrawals leave the row of every other withdrawal.
use make_we_bet.Prelude.{
  ℕ, ◌≡◌, sym, ap, ◌∙◌, arith, Bool, true, false, Option, none, some, inl, inr, Bool-cases, ◌==◌,
  ==→eq, lookup, lookup-insert_ne, lookup-fresh, fresh,
}
use make_we_bet.Errors.{Result, ok, err}
use make_we_bet.Ledger.{PostJournalInput, Ledger, post, Account}
use make_we_bet.Database.{
  Withdrawal, WithdrawalStatus, failed, Db, Action, OtpCode, ◌>>=◌, tables, write, post_journal,
  posted, withdrawal_otp,
}
use make_we_bet.Database.Invariant.{
  Keeps, keeps_any, lift-Keeps, >>=-Keeps, elim-Keeps, transaction-Keeps,
}
use make_we_bet.Wallet.{user_wallet}
use make_we_bet.Auth.Otp.{consume, checked}
use make_we_bet.Withdrawals.{
  existing_or_new, pending_account, set_withdrawal, return_hold, reverse_hold,
}
use make_we_bet.Withdrawals.Banks.{decrypted_for}
use make_we_bet.Withdrawals.Fraud.{score_withdrawal}
use make_we_bet.Withdrawals.Payout.{
  is_final, pay_out, settle_open, settle_found, settle_withdrawal, PayoutResult, payout_failed,
  payout_processing, payout_paid, mark_processing, after_payout, initiate_payout,
}
use make_we_bet.Withdrawals.Review.{approve, reject}
use make_we_bet.Withdrawals.Request.{hold_as, place_hold, request}

module _ (j : ℕ) (v : Withdrawal) where
  -- The row of `j` is this one.
  unfoldable pub Kept : Db → Type 0
  Kept db = lookup j db.withdrawals ≡ some v

  write-Kept :
      (f : Db → Db) → ((db : Db) → (f db).withdrawals ≡ db.withdrawals) → Keeps Kept (write f)
  unfolding Keeps Kept
  write-Kept f same db h = rw (same db) h

  posted-Kept : (db : Db) (r : Result (ℕ × Ledger)) → Kept db → Kept (posted db r).1
  unfolding Kept
  posted-Kept db (ok (id, l)) h = h
  posted-Kept db (err e) h = h

  post_journal-Kept : (input : PostJournalInput) → Keeps Kept (post_journal input)
  unfolding Keeps post_journal
  post_journal-Kept input db h = posted-Kept db (post input db.ledger) h

  existing_or_new-Kept : (user : ℕ) (o : Option (ℕ × Account)) → Keeps Kept (existing_or_new user o)
  unfolding Keeps
  existing_or_new-Kept user none = search (keeps_any, write-Kept) depth 9 fits 9000
  existing_or_new-Kept user (some (id, a)) = lift-Keeps Kept (ok id)

  pending_account-Kept : (user : ℕ) → Keeps Kept (pending_account user)
  unfolding pending_account Keeps
  pending_account-Kept user = search (keeps_any, existing_or_new-Kept) depth 9 fits 9000

  decrypted_for-Kept :
      (decrypt : ℕ → Result ℕ) (user bank : ℕ) → Keeps Kept (decrypted_for decrypt user bank)
  unfolding decrypted_for Keeps
  decrypted_for-Kept decrypt user bank = search keeps_any depth 9 fits 9000

  -- The handlers on another withdrawal.
  module _ (id : ℕ) (other : (id == j) ≡ false) where
    set-Kept : (w : Withdrawal) → Keeps Kept (set_withdrawal id w)
    unfolding Keeps Kept
    set-Kept w db h = lookup-insert_ne id j w db.withdrawals (ground arith) ∙ h

    return_hold-Kept :
        (now : ℕ) (w : Withdrawal) (status : WithdrawalStatus)
        → Keeps Kept (return_hold now id w status)
    unfolding return_hold Keeps
    return_hold-Kept now w status =
        search (keeps_any, write-Kept, set-Kept, pending_account-Kept, post_journal-Kept) depth 9
          fits 9000

    reverse_hold-Kept :
        (now : ℕ) (status : WithdrawalStatus) → Keeps Kept (reverse_hold now id status)
    unfolding reverse_hold Keeps
    reverse_hold-Kept now status = search (keeps_any, return_hold-Kept) depth 9 fits 9000

    pay_out-Kept : (now : ℕ) (w : Withdrawal) → Keeps Kept (pay_out now id w)
    unfolding pay_out Keeps
    pay_out-Kept now w =
        search (keeps_any, write-Kept, set-Kept, pending_account-Kept, post_journal-Kept) depth 9
          fits 9000

    settle_open-Kept :
        (now : ℕ) (success : Bool) (w : Withdrawal) → Keeps Kept (settle_open now id success w)
    settle_open-Kept now true w = transaction-Keeps Kept (pay_out now id w) (pay_out-Kept now w)
    settle_open-Kept now false w = reverse_hold-Kept now failed

    settle_found-Kept :
        (now : ℕ) (success : Bool) (o : Option Withdrawal)
        → Keeps Kept (settle_found now id success o)
    settle_found-Kept now success none = lift-Keeps Kept (ok tt)
    settle_found-Kept now success (some w) =
        elim-Keeps Kept (is_final w.status) _ _ (lift-Keeps Kept (ok tt))
          (settle_open-Kept now success w)

    pub settle_other-Kept :
        (now : ℕ) (success : Bool) → Keeps Kept (settle_withdrawal now id success)
    unfolding settle_withdrawal Keeps
    settle_other-Kept now success = search (keeps_any, settle_found-Kept) depth 9 fits 9000

    mark_processing-Kept : Keeps Kept (mark_processing id)
    unfolding Keeps
    mark_processing-Kept = search (keeps_any, set-Kept) depth 9 fits 9000

    after_payout-Kept : (now : ℕ) (r : PayoutResult) → Keeps Kept (after_payout now id r)
    unfolding after_payout
    after_payout-Kept now payout_failed = search (keeps_any, reverse_hold-Kept) depth 9 fits 9000
    after_payout-Kept now payout_processing =
        search (keeps_any, mark_processing-Kept) depth 9 fits 9000
    after_payout-Kept now payout_paid =
        search (keeps_any, mark_processing-Kept, settle_other-Kept) depth 9 fits 9000

    module _ (decrypt : ℕ → Result ℕ) where
      initiate_payout-Kept :
          (gateway : ℕ → ℕ → Result PayoutResult) (now : ℕ)
          → Keeps Kept (initiate_payout decrypt gateway now id)
      unfolding initiate_payout Keeps
      initiate_payout-Kept gateway now =
          search (keeps_any, decrypted_for-Kept, after_payout-Kept) depth 9 fits 9000

      pub approve_other-Kept :
          (gateway : ℕ → ℕ → Result PayoutResult) (now admin : ℕ)
          → Keeps Kept (approve decrypt gateway now admin id)
      unfolding approve Keeps
      approve_other-Kept gateway now admin =
          search (keeps_any, write-Kept, set-Kept, initiate_payout-Kept) depth 9 fits 9000

    pub reject_other-Kept : (now admin : ℕ) → Keeps Kept (reject now admin id)
    unfolding reject Keeps
    reject_other-Kept now admin =
        search (keeps_any, write-Kept, reverse_hold-Kept) depth 9 fits 9000

  -- The one-time code and the hold of a new withdrawal.
  checked-Kept :
      (hash : ℕ → ℕ) (now id : ℕ) (c : OtpCode) (b : Bool) → Keeps Kept (checked hash now id c b)
  unfolding Keeps
  checked-Kept hash now id c true = search (keeps_any, write-Kept) depth 9 fits 9000
  checked-Kept hash now id c false = search (keeps_any, write-Kept) depth 9 fits 9000

  consume-Kept :
      (hash : ℕ → ℕ) (now user code : ℕ) → Keeps Kept (consume hash now user withdrawal_otp code)
  unfolding consume Keeps
  consume-Kept hash now user code = search (keeps_any, checked-Kept) depth 9 fits 9000

  score_withdrawal-Kept : (now user amount : ℕ) → Keeps Kept (score_withdrawal now user amount)
  unfolding score_withdrawal Keeps
  score_withdrawal-Kept now user amount = search keeps_any depth 9 fits 9000

  -- The key of a new row is another one.
  fresh_is_other : (db : Db) → Kept db → (fresh db.withdrawals == j) ≡ false
  unfolding Kept
  fresh_is_other db h = elim (Bool-cases (fresh db.withdrawals == j)) [
    | inl same ↦
        let e : none ≡ some v =
          sym (lookup-fresh db.withdrawals)
          ∙ ap (λ k. lookup k db.withdrawals) (==→eq (fresh db.withdrawals) j same)
          ∙ h in
        cc e
    | inr other ↦ other
  ]

  tables-Kept :
      {B : Type 0} (k : Db → Action B)
      → ((db : Db) → Kept db → Keeps Kept (k db))
      → Keeps Kept (tables >>= k)
  unfolding Keeps
  tables-Kept k h db kept = h db kept db kept

  place_hold-Kept : (user : ℕ) (w : Withdrawal) → Keeps Kept (place_hold user w)
  unfolding place_hold Keeps
  place_hold-Kept user w =
      >>=-Keeps Kept (user_wallet user) _ (search keeps_any depth 9 fits 9000) (λ a.
        >>=-Keeps Kept (pending_account user) _ (pending_account-Kept user) (λ pending.
          tables-Kept (λ db. hold_as (fresh db.withdrawals) a.0 pending w)
            (λ db kept.
              search
                (
                  keeps_any,
                  write-Kept,
                  post_journal-Kept,
                  set-Kept (fresh db.withdrawals) (fresh_is_other db kept),
                )
                depth 9 fits 9000)))

  pub request-Kept :
      (hash : ℕ → ℕ) (decrypt : ℕ → Result ℕ) (now user bank amount code : ℕ)
      → Keeps Kept (request hash decrypt now user bank amount code)
  unfolding request Keeps
  request-Kept hash decrypt now user bank amount code =
      search (keeps_any, consume-Kept, score_withdrawal-Kept, place_hold-Kept, decrypted_for-Kept)
        depth 9 fits 9000
