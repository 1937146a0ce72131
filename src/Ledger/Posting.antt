-- ===== src/Ledger/Posting.antt =====
-- What one call of `post` returns and writes.
use make_we_bet.Prelude.{
  ℕ, ◌+◌, ◌≤◌, ◌≡◌, refl, sym, ap, ◌⊎◌, inl, inr, true, false, none, some, List, ◌∷◌, arith,
  Option-cases, length, any, pos, eqb_ℤ→eq,
}
use make_we_bet.Errors.{Result, ok, err, >>=-eq-ok}
use make_we_bet.Ledger.{
  Key, key_eq, JournalLine, JournalEntry, PostJournalInput, Ledger, is_zero_line, sum_amounts,
  validate_lines, apply_lines, find_entry, new_entry, post_new, run, post, deposit_key, entry_key,
  refund_key, settlement_key, hold_key, settle_key, reverse_key,
}

-- What the lines of an entry must be: two at least, none of amount zero, and zero in sum.
pub record IsBalanced (ls : List JournalLine) : Type 0 where
  pub enough : 2 ≤ length ls
  pub no_zero : any is_zero_line ls ≡ false
  pub zero_sum : sum_amounts ls ≡ pos 0

-- `validateLines` returns exactly on balanced lines.
pub validate_lines-IsBalanced :
    (ls : List JournalLine) {u : Unit {0}} → validate_lines ls ≡ ok u → IsBalanced ls
unfolding validate_lines
validate_lines-IsBalanced ls h = record {
  enough = ground arith;
  no_zero = ground arith;
  zero_sum = eqb_ℤ→eq _ _ (ground arith);
}

pub IsBalanced-validate_lines : (ls : List JournalLine) → IsBalanced ls → validate_lines ls ≡ ok tt
unfolding validate_lines
IsBalanced-validate_lines ls b = rw (b.no_zero, b.zero_sum) (ground (arith, b.enough))

pub key_eq_refl : (k : Key) → key_eq k k ≡ true
key_eq_refl (deposit_key a) = ground arith
key_eq_refl (entry_key a) = ground arith
key_eq_refl (refund_key a) = ground arith
key_eq_refl (settlement_key a) = ground arith
key_eq_refl (hold_key a) = ground arith
key_eq_refl (settle_key a) = ground arith
key_eq_refl (reverse_key a) = ground arith

-- A new entry: the key was free, the lines are balanced and were applied, and the journal grew
-- by this entry alone.
pub record Posted (input : PostJournalInput) (l : Ledger) (id : ℕ) (l' : Ledger) : Type 0 where
  pub unused : find_entry input.idempotency_key l.journal ≡ none
  pub lines_balanced : IsBalanced input.lines
  pub applied : apply_lines input.lines l.accounts ≡ ok l'.accounts
  pub recorded : l'.journal ≡ new_entry input l.next_entry ∷ l.journal
  pub named : id ≡ l.next_entry

-- A replay: the key was used, and nothing was written.
pub record Replayed (input : PostJournalInput) (l : Ledger) (id : ℕ) (l' : Ledger) : Type 0 where
  pub entry : JournalEntry
  pub used : find_entry input.idempotency_key l.journal ≡ some entry
  pub same : l' ≡ l
  pub named : id ≡ entry.id

abbrev ledger_or : Ledger → Result (ℕ × Ledger) → Ledger
ledger_or l (ok r) = r.1
ledger_or l (err e) = l

abbrev id_or : ℕ → Result (ℕ × Ledger) → ℕ
id_or i (ok r) = r.0
id_or i (err e) = i

pub run-cases :
    (input : PostJournalInput) (l : Ledger) {id : ℕ} {l' : Ledger}
    → IsBalanced input.lines
    → run input l ≡ ok (id, l')
    → Posted input l id l' ⊎ Replayed input l id l'
unfolding run post_new
run-cases input l {id} {l'} b h = elim (Option-cases (find_entry input.idempotency_key l.journal)) [
  | inl unused ↦
      let h₀ : post_new input l ≡ ok (id, l') = rw (unused, run) at h in
      let (t, applied, rest) = >>=-eq-ok (apply_lines input.lines l.accounts) _ h₀ in
      let e : l' ≡ record {
        accounts = t;
        journal = new_entry input l.next_entry ∷ l.journal;
        next_entry = l.next_entry + 1;
      } =
        sym (ap (ledger_or l) rest) in
      inl (record {
        unused = unused;
        lines_balanced = b;
        applied = rw e applied;
        recorded = rw e refl;
        named = sym (ap (id_or id) rest);
      })
  | inr (e, used) ↦
      let h₀ : ok (e.id, l) ≡ ok (id, l') = rw (used, run) at h in
      inr (record {
        entry = e;
        used = used;
        same = sym (ap (ledger_or l) h₀);
        named = sym (ap (id_or id) h₀);
      })
]

-- A call that returned posted a new entry or replayed an old one.
pub post-cases :
    (input : PostJournalInput) (l : Ledger) {id : ℕ} {l' : Ledger}
    → post input l ≡ ok (id, l')
    → Posted input l id l' ⊎ Replayed input l id l'
unfolding post
post-cases input l h =
    let (_, valid, rest) = >>=-eq-ok (validate_lines input.lines) _ h in
    run-cases input l (validate_lines-IsBalanced input.lines valid) rest

-- A call with a used key returns the id of the entry that has it, writes nothing, and asks for no
-- funds, whatever its lines are so long as they are balanced.
post_replay :
    (input : PostJournalInput) (l : Ledger) (e : JournalEntry)
    → IsBalanced input.lines
    → find_entry input.idempotency_key l.journal ≡ some e
    → post input l ≡ ok (e.id, l)
unfolding post run
post_replay input l e b used = rw (IsBalanced-validate_lines input.lines b, used, run)

-- With an unused key a call on balanced lines writes.
pub post_fresh :
    (input : PostJournalInput) (l : Ledger)
    → IsBalanced input.lines
    → find_entry input.idempotency_key l.journal ≡ none
    → post input l ≡ post_new input l
unfolding post run
post_fresh input l b unused = rw (IsBalanced-validate_lines input.lines b, unused, run)

-- Posting twice with one key: the second call, with any balanced lines, returns the first id and
-- leaves the tables as the first call left them.
pub post-post :
    (input again : PostJournalInput) (l : Ledger) {id : ℕ} {l' : Ledger}
    → post input l ≡ ok (id, l')
    → again.idempotency_key ≡ input.idempotency_key
    → IsBalanced again.lines
    → post again l' ≡ ok (id, l')
post-post input again l {id} {l'} h same b = elim (post-cases input l h) [
  | inl p ↦ rw p.named (
      post_replay again l' (new_entry input l.next_entry) b
        (rw (p.recorded, same, key_eq_refl input.idempotency_key)))
  | inr r ↦ rw (r.named, r.same) (post_replay again l r.entry b (rw same r.used))
]
