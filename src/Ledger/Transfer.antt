-- ===== src/Ledger/Transfer.antt =====
-- The two-line entries by which every caller but the settlement moves money: `from` gives `x`,
-- `to` receives it.
use make_we_bet.Prelude.{
  ℕ, ◌+◌, ◌≡◌, ◌≢◌, ◌∙◌, true, none, some, List, [], ◌∷◌, arith, ℤ, pos, ◌+ℤ◌, ◌≤ℤ◌, neg, neg_parts,
  int_laws, Table, lookup, insert, lookup-insert_ne,
}
use make_we_bet.Errors.{ok, err, insufficient_funds_on}
use make_we_bet.Ledger.{
  Account, Key, JournalType, JournalLine, PostJournalInput, Ledger, increment, is_non_negative_type,
  find_entry, new_entry, apply_line, apply_lines, post_new, post,
}
use make_we_bet.Ledger.Posting.{IsBalanced, post_fresh}

abbrev pub line : ℕ → ℤ → JournalLine
line k x = record { account_id = k; amount_minor = x }

abbrev pub transfer_lines : ℕ → ℕ → ℤ → List JournalLine
transfer_lines from to x = line from (neg x) ∷ line to x ∷ []

abbrev pub transfer : JournalType → Key → ℕ → ℕ → ℤ → PostJournalInput
transfer type key from to x = record {
  type = type;
  idempotency_key = key;
  lines = transfer_lines from to x;
}

-- Two lines of a positive amount make a balanced entry.
pub transfer_lines-IsBalanced :
    (from to : ℕ) (x : ℤ) → pos 1 ≤ℤ x → IsBalanced (transfer_lines from to x)
transfer_lines-IsBalanced from to x h = record {
  enough = omega arith;
  no_zero = ground (arith, neg_parts x);
  zero_sum = omega int_laws;
}

-- A line whose account is there, and is not guarded or stays at zero or more, is applied.
pub apply_line-ok :
    (l : JournalLine) (t : Table Account) (a : Account)
    → lookup l.account_id t ≡ some a
    → (is_non_negative_type a.type ≡ true → pos 0 ≤ℤ a.balance_minor +ℤ l.amount_minor)
    → apply_line l t ≡ ok (insert l.account_id (increment a l.amount_minor) t)
unfolding apply_line
apply_line-ok l t a found h = rw found (ground arith)

-- A line that would leave a guarded account below zero is refused.
pub apply_line-insufficient :
    (l : JournalLine) (t : Table Account) (a : Account)
    → lookup l.account_id t ≡ some a
    → is_non_negative_type a.type ≡ true
    → ¬ (pos 0 ≤ℤ a.balance_minor +ℤ l.amount_minor)
    → apply_line l t ≡ err (insufficient_funds_on l.account_id)
unfolding apply_line
apply_line-insufficient l t a found kept h = rw found (ground arith)

nonneg_after_debit : (x y : ℤ) → x ≤ℤ y → pos 0 ≤ℤ y +ℤ neg x
nonneg_after_debit x y h = omega int_laws

covered_of_nonneg : (x y : ℤ) → pos 0 ≤ℤ y +ℤ neg x → x ≤ℤ y
covered_of_nonneg x y h = omega int_laws

nonneg_after_credit : (x y : ℤ) → pos 1 ≤ℤ x → pos 0 ≤ℤ y → pos 0 ≤ℤ y +ℤ x
nonneg_after_credit x y h k = omega int_laws

module _ (type : JournalType) (key : Key) (from to : ℕ) (x : ℤ) (l : Ledger) (a b : Account)
    (distinct : from ≢ to) (positive : pos 1 ≤ℤ x) (unused : find_entry key l.journal ≡ none)
    (found_from : lookup from l.accounts ≡ some a) where
  -- The accounts after the transfer.
  abbrev pub transferred : Table Account
  transferred = insert to (increment b x) (insert from (increment a (neg x)) l.accounts)

  -- A transfer of a positive amount, under a key that no entry has, between two different accounts
  -- that are there, covered if the giver is guarded, to a receiver that is not below zero if it is
  -- guarded, posts one entry and writes the two balances.
  pub post-transfer :
      lookup to l.accounts ≡ some b
      → (is_non_negative_type a.type ≡ true → x ≤ℤ a.balance_minor)
      → (is_non_negative_type b.type ≡ true → pos 0 ≤ℤ b.balance_minor)
      → post (transfer type key from to x) l
        ≡ ok (
          l.next_entry,
          record {
            accounts = transferred;
            journal = new_entry (transfer type key from to x) l.next_entry ∷ l.journal;
            next_entry = l.next_entry + 1;
          },
        )
  unfolding post_new apply_lines
  post-transfer found_to covered room =
      post_fresh _ l (transfer_lines-IsBalanced from to x positive) unused
      ∙ rw (
        apply_line-ok (line from (neg x)) l.accounts a found_from
            (λ kept. nonneg_after_debit x a.balance_minor (covered kept)),
        apply_line-ok (line to x) (insert from (increment a (neg x)) l.accounts) b
            (lookup-insert_ne from to _ l.accounts distinct ∙ found_to)
            (λ kept. nonneg_after_credit x b.balance_minor positive (room kept)),
      )

  -- A transfer of a positive amount, under a key that no entry has, between two different accounts,
  -- from a guarded one that is there and cannot cover it, fails with that account's id.
  pub post-transfer_insufficient :
      is_non_negative_type a.type ≡ true
      → ¬ (x ≤ℤ a.balance_minor)
      → post (transfer type key from to x) l ≡ err (insufficient_funds_on from)
  unfolding post_new apply_lines
  post-transfer_insufficient kept short =
      post_fresh _ l (transfer_lines-IsBalanced from to x positive) unused
      ∙ rw (
          apply_line-insufficient (line from (neg x)) l.accounts a found_from kept
            (λ h. short (covered_of_nonneg x a.balance_minor h)))
