-- ===== src/Ledger/Invariant.antt =====
-- The ledger's invariant, and that every operation on the ledger keeps it.
use make_we_bet.Prelude.{
  ℕ, ◌≡◌, sym, ap, ◌∙◌, inl, inr, Option, none, List, [], ◌∷◌, arith, ℤ, pos, ◌+ℤ◌, All, +ℤ_zero,
  +ℤ_comm, lookup, insert, lookup-insert, total, total-insert_new, ◌==◌, Bool-cases,
}
use make_we_bet.Errors.{ok}
use make_we_bet.Ledger.{
  Account, AccountType, JournalEntry, PostJournalInput, Ledger, find_entry, post,
}
use make_we_bet.Ledger.Lines.{
  balance_in, balance, moved, balance_minor_of, NonNegative, balance-apply_lines, total-apply_lines,
  NonNegative-apply_lines,
}
use make_we_bet.Ledger.Posting.{IsBalanced, Posted, post-cases}

-- The sum of all lines of the journal that name an account.
abbrev pub journal_moved : ℕ → List JournalEntry → ℤ
journal_moved k [] = pos 0
journal_moved k (e ∷ es) = moved k e.lines +ℤ journal_moved k es

-- No two entries have one key.
abbrev pub HasDistinctKeys : List JournalEntry → Type 0
HasDistinctKeys [] = Unit
HasDistinctKeys (e ∷ es) = (find_entry e.idempotency_key es ≡ none) × HasDistinctKeys es

-- Each materialized balance is the sum of the account's journal lines; all balances together
-- are zero; no guarded account is negative; every entry is balanced; the keys are distinct.
pub record IsSound (l : Ledger) : Type 0 where
  pub reconciled : (k : ℕ) → balance k l.accounts ≡ journal_moved k l.journal
  pub zero_total : total balance_minor_of l.accounts ≡ pos 0
  pub non_negative : NonNegative l.accounts
  pub entries_balanced : All (λ e. IsBalanced e.lines) l.journal
  pub distinct_keys : HasDistinctKeys l.journal

Posted-IsSound :
    (input : PostJournalInput) (l : Ledger) {id : ℕ} {l' : Ledger}
    → Posted input l id l'
    → IsSound l
    → IsSound l'
Posted-IsSound input l {id} {l'} p s = record {
  reconciled = λ k. rw p.recorded (
      balance-apply_lines input.lines l.accounts k p.applied
      ∙ rw (s.reconciled k) (+ℤ_comm (journal_moved k l.journal) (moved k input.lines)));
  zero_total =
      total-apply_lines input.lines l.accounts p.applied
      ∙ rw (s.zero_total, p.lines_balanced.zero_sum) (+ℤ_zero (pos 0));
  non_negative = NonNegative-apply_lines input.lines l.accounts p.applied s.non_negative;
  entries_balanced = rw p.recorded (p.lines_balanced, s.entries_balanced);
  distinct_keys = rw p.recorded (p.unused, s.distinct_keys);
}

-- A call of `post` that returns keeps the invariant.
pub post-IsSound :
    (input : PostJournalInput) (l : Ledger) {id : ℕ} {l' : Ledger}
    → post input l ≡ ok (id, l')
    → IsSound l
    → IsSound l'
post-IsSound input l h s = elim (post-cases input l h) [
  | inl p ↦ Posted-IsSound input l p s
  | inr r ↦ rw r.same s
]

-- `ledgerAccount.create`: a new account stands at zero.
abbrev pub opened : AccountType → Option ℕ → Option ℕ → ℕ → Account
opened type user contest currency = record {
  type = type;
  user_id = user;
  contest_id = contest;
  currency = currency;
  balance_minor = pos 0;
}

unfoldable pub open_account : ℕ → Account → Ledger → Ledger
open_account k a l = record l { accounts = insert k a l.accounts }

-- Opening an account with an unused id and balance zero keeps the invariant.
pub open_account-IsSound :
    (k : ℕ) (a : Account) (l : Ledger)
    → lookup k l.accounts ≡ none
    → a.balance_minor ≡ pos 0
    → IsSound l
    → IsSound (open_account k a l)
unfolding open_account
open_account-IsSound k a l unused zero s = record {
  reconciled = λ j. rw (lookup-insert k j a l.accounts) (elim (Bool-cases (k == j)) [
    | inl same ↦
        let e : k ≡ j = ground arith in
        rw (same, zero) (ap balance_in (sym (rw e at unused)) ∙ s.reconciled j)
    | inr other ↦ rw other (s.reconciled j)
  ]);
  zero_total =
      total-insert_new balance_minor_of k a l.accounts unused
      ∙ rw (zero, s.zero_total) (+ℤ_zero (pos 0));
  non_negative = λ j b found kept. elim (Bool-cases (k == j)) [
    | inl same ↦ ground (arith, lookup-insert k j a l.accounts)
    | inr other ↦ s.non_negative j b (ground (arith, lookup-insert k j a l.accounts)) kept
  ];
  entries_balanced = s.entries_balanced;
  distinct_keys = s.distinct_keys;
}
