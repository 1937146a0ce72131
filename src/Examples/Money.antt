-- ===== src/Examples/Money.antt =====
-- The ledger's theorems, with the fee of 500 for contest 3.
use make_we_bet.Prelude.{ℕ, ◌≡◌, refl, none, some, [], ◌∷◌, pos, ◌≤ℤ◌, arith}
use make_we_bet.Errors.{ok, err, insufficient_funds_on}
use make_we_bet.Ledger.{
  Account, user_available, contest_escrow, entry_fee, entry_key, new_entry, post, PostJournalInput,
  Ledger,
}
use make_we_bet.Ledger.Posting.{post-post}
use make_we_bet.Ledger.Transfer.{
  transfer, transfer_lines-IsBalanced, post-transfer, post-transfer_insufficient, transferred,
}
use make_we_bet.Examples.{account, some_ledger}

abbrev wallet : Account
wallet = account user_available (some 7) none (pos 800)

abbrev escrow : Account
escrow = account contest_escrow none (some 3) (pos 0)

abbrev fee : PostJournalInput
fee = transfer entry_fee (entry_key 9) 0 1 (pos 500)

abbrev dear : PostJournalInput
dear = transfer entry_fee (entry_key 9) 0 1 (pos 900)

apart : ¬ (Path ℕ 0 1)
apart = ground arith

short : ¬ (pos 900 ≤ℤ pos 800)
short = ground arith

abbrev after_fee : Ledger
after_fee = record {
  accounts =
      transferred entry_fee (entry_key 9) 0 1 (pos 500) some_ledger wallet escrow apart
        (omega arith) refl refl;
  journal = new_entry fee 0 ∷ [];
  next_entry = 1;
}

post-transfer_example : post fee some_ledger ≡ ok (0, after_fee)
post-transfer_example =
    post-transfer entry_fee (entry_key 9) 0 1 (pos 500) some_ledger wallet escrow apart
      (omega arith) refl refl refl (λ _. omega arith) (λ _. omega arith)

post-transfer_insufficient_example : post dear some_ledger ≡ err (insufficient_funds_on 0)
post-transfer_insufficient_example =
    post-transfer_insufficient entry_fee (entry_key 9) 0 1 (pos 900) some_ledger wallet escrow apart
      (omega arith) refl refl refl short

post-post_example : post dear after_fee ≡ ok (0, after_fee)
post-post_example =
    post-post fee dear some_ledger post-transfer_example refl
      (transfer_lines-IsBalanced 0 1 (pos 900) (omega arith))
