-- ===== src/Settlement/Commission.antt =====
-- What the settlement does when nothing is left for the platform.
use make_we_bet.Prelude.{
  eqb_ℤ, if◌then◌else◌, ℕ, suc, ◌≡◌, refl, Bool, true, false, List, ℤ, pos, neg, ltb, length, arith,
}
use make_we_bet.Errors.{err, zero_amount_line}
use make_we_bet.Ledger.{Ledger, validate_lines, post}
use make_we_bet.Settlement.Distribution.{WinnerLine, settlement_journal, prize_lines}

either : (b : Bool) → (if b then true else true) ≡ true
either true = refl
either false = refl

-- A settlement journal in which the platform's commission is zero is refused by the ledger,
-- whatever the gross, whoever the winners and whatever the tables: nobody is paid.
pub settlement_journal-zero_commission :
    (contest escrow platform : ℕ) (gross : ℤ) (winners : List WinnerLine) (l : Ledger)
    → post (settlement_journal contest escrow platform gross (pos 0) winners) l
      ≡ err zero_amount_line
unfolding post validate_lines
settlement_journal-zero_commission contest escrow platform gross winners l =
    let long : ltb (suc (suc (length (prize_lines winners)))) 2 ≡ false = ground arith in
    rw (long, either (eqb_ℤ (neg gross) (pos 0)))
