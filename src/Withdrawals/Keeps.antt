-- ===== src/Withdrawals/Keeps.antt =====
-- The operations on withdrawals keep the ledger sound.
use make_we_bet.Prelude.{ℕ, refl, Option, none, some, Bool, true, false}
use make_we_bet.Errors.{Result, ok}
use make_we_bet.Ledger.{Account, user_withdrawal_pending}
use make_we_bet.Ledger.Invariant.{opened}
use make_we_bet.Database.{ngn, Withdrawal, WithdrawalStatus, failed}
use make_we_bet.Database.Keeps.{
  KeepsSound, open_account-KeepsSound, lift-KeepsSound, elim-KeepsSound, transaction-KeepsSound,
  keeps,
}
use make_we_bet.Withdrawals.{existing_or_new, pending_account, return_hold, reverse_hold}
use make_we_bet.Withdrawals.Payout.{
  PayoutResult, payout_failed, payout_processing, payout_paid, is_final, pay_out, settle_found,
  settle_withdrawal, after_payout, initiate_payout,
}
use make_we_bet.Withdrawals.Review.{approve, reject}
use make_we_bet.Auth.Keeps.{consume-KeepsSound}
use make_we_bet.Withdrawals.Request.{place_hold, request}
use make_we_bet.Withdrawals.Banks.{decrypted_for}
use make_we_bet.Withdrawals.Fraud.{score_withdrawal}

existing_or_new-KeepsSound :
    (user : ℕ) (o : Option (ℕ × Account)) → KeepsSound (existing_or_new user o)
unfolding KeepsSound
existing_or_new-KeepsSound user none db s =
    open_account-KeepsSound (opened user_withdrawal_pending (some user) none ngn) refl db s
existing_or_new-KeepsSound user (some (id, a)) db s = s

pending_account-KeepsSound : (user : ℕ) → KeepsSound (pending_account user)
unfolding KeepsSound pending_account
pending_account-KeepsSound user db s = existing_or_new-KeepsSound user _ db s

return_hold-KeepsSound :
    (now id : ℕ) (w : Withdrawal) (status : WithdrawalStatus)
    → KeepsSound (return_hold now id w status)
unfolding return_hold KeepsSound
return_hold-KeepsSound now id w status = search (keeps, pending_account-KeepsSound)

reverse_hold-KeepsSound :
    (now id : ℕ) (status : WithdrawalStatus) → KeepsSound (reverse_hold now id status)
unfolding reverse_hold KeepsSound
reverse_hold-KeepsSound now id status = search (keeps, return_hold-KeepsSound)

pay_out-KeepsSound : (now id : ℕ) (w : Withdrawal) → KeepsSound (pay_out now id w)
unfolding pay_out KeepsSound
pay_out-KeepsSound now id w = search (keeps, pending_account-KeepsSound)

settle_found-KeepsSound :
    (now id : ℕ) (success : Bool) (o : Option Withdrawal)
    → KeepsSound (settle_found now id success o)
unfolding KeepsSound
settle_found-KeepsSound now id success none = lift-KeepsSound (ok tt)
settle_found-KeepsSound now id true (some w) =
    elim-KeepsSound (is_final w.status) _ _ (lift-KeepsSound (ok tt))
      (transaction-KeepsSound (pay_out now id w) (pay_out-KeepsSound now id w))
settle_found-KeepsSound now id false (some w) =
    elim-KeepsSound (is_final w.status) _ _ (lift-KeepsSound (ok tt))
      (reverse_hold-KeepsSound now id failed)

-- However a settlement of a withdrawal ends, the ledger stays sound.
pub settle_withdrawal-KeepsSound :
    (now id : ℕ) (success : Bool) → KeepsSound (settle_withdrawal now id success)
unfolding settle_withdrawal KeepsSound
settle_withdrawal-KeepsSound now id success = search (keeps, settle_found-KeepsSound)

after_payout-KeepsSound : (now id : ℕ) (r : PayoutResult) → KeepsSound (after_payout now id r)
unfolding after_payout KeepsSound
after_payout-KeepsSound now id payout_failed = search (keeps, reverse_hold-KeepsSound)
after_payout-KeepsSound now id payout_processing = search keeps
after_payout-KeepsSound now id payout_paid = search (keeps, settle_withdrawal-KeepsSound)

decrypted_for-KeepsSound :
    (decrypt : ℕ → Result ℕ) (user id : ℕ) → KeepsSound (decrypted_for decrypt user id)
unfolding KeepsSound decrypted_for
decrypted_for-KeepsSound decrypt user id = search keeps

score_withdrawal-KeepsSound : (now user amount : ℕ) → KeepsSound (score_withdrawal now user amount)
unfolding KeepsSound score_withdrawal
score_withdrawal-KeepsSound now user amount = search keeps

place_hold-KeepsSound : (user : ℕ) (w : Withdrawal) → KeepsSound (place_hold user w)
unfolding KeepsSound place_hold
place_hold-KeepsSound user w = search (keeps, pending_account-KeepsSound) depth 9 fits 9000

initiate_payout-KeepsSound :
    (decrypt : ℕ → Result ℕ) (gateway : ℕ → ℕ → Result PayoutResult) (now id : ℕ)
    → KeepsSound (initiate_payout decrypt gateway now id)
unfolding initiate_payout KeepsSound
initiate_payout-KeepsSound decrypt gateway now id =
    search (keeps, after_payout-KeepsSound, decrypted_for-KeepsSound)

pub approve-KeepsSound :
    (decrypt : ℕ → Result ℕ) (gateway : ℕ → ℕ → Result PayoutResult) (now admin id : ℕ)
    → KeepsSound (approve decrypt gateway now admin id)
unfolding approve KeepsSound
approve-KeepsSound decrypt gateway now admin id = search (keeps, initiate_payout-KeepsSound)

pub reject-KeepsSound : (now admin id : ℕ) → KeepsSound (reject now admin id)
unfolding reject KeepsSound
reject-KeepsSound now admin id = search (keeps, reverse_hold-KeepsSound)

pub request-KeepsSound :
    (hash : ℕ → ℕ) (decrypt : ℕ → Result ℕ) (now user bank amount code : ℕ)
    → KeepsSound (request hash decrypt now user bank amount code)
unfolding KeepsSound request
request-KeepsSound hash decrypt now user bank amount code =
    search
      (
        keeps, consume-KeepsSound, place_hold-KeepsSound, decrypted_for-KeepsSound,
        score_withdrawal-KeepsSound,
      )
      depth 9 fits 9000
