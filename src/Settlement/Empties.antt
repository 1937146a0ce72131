-- ===== src/Settlement/Empties.antt =====
-- A payout leaves nothing in the contest's escrow.
use make_we_bet.Prelude.{
  ℕ, zero, suc, ◌≡◌, refl, ◌∙◌, true, List, [], ◌∷◌, pos, neg, ◌+ℤ◌, length, lookup,
}
use make_we_bet.Errors.{
  Result, ok, err, type_error, record_not_found, invariant_violated, ensure-eq-ok,
}
use make_we_bet.Settlement.Prizes.{compute_prizes, sum_slots}
use make_we_bet.Database.{
  Db, Contest, Entry, Action, ◌>>=◌, lift, found, require, post_journal, for_each, resume,
}
use make_we_bet.Database.Returned.{>>=-returned}
use make_we_bet.Contests.Cancel.{balance_is_zero}
use make_we_bet.Settlement.Distribution.{
  WinnerLine, winner_lines, settlement_journal, prize_pool, record_prize, notify_winner, pay_prizes,
}

-- Handlers that write no account.
LeavesLedger : {A : Type 0} → Action A → Type 0
LeavesLedger m = (db : Db) → (m db).1.ledger ≡ db.ledger

resume-LeavesLedger :
    {A B : Type 0} (f : A → Action B)
    → ((a : A) → LeavesLedger (f a))
    → (r : Result A × Db) → (resume f r).1.ledger ≡ r.1.ledger
unfolding LeavesLedger
resume-LeavesLedger f kf (ok a, db) = kf a db
resume-LeavesLedger f kf (err e, db) = refl

>>=-LeavesLedger :
    {A B : Type 0} (m : Action A) (f : A → Action B)
    → LeavesLedger m
    → ((a : A) → LeavesLedger (f a))
    → LeavesLedger (m >>= f)
unfolding LeavesLedger
>>=-LeavesLedger m f km kf db = resume-LeavesLedger f kf (m db) ∙ km db

for_each-LeavesLedger :
    {A : Type 0} (f : A → Action Unit)
    → ((a : A) → LeavesLedger (f a))
    → (xs : List A) → LeavesLedger (for_each f xs)
unfolding LeavesLedger
for_each-LeavesLedger f kf [] db = refl
for_each-LeavesLedger f kf (x ∷ xs) db =
    >>=-LeavesLedger (f x) (λ _. for_each f xs) (kf x) (λ _. for_each-LeavesLedger f kf xs) db

notify_winner-LeavesLedger :
    (contest user prize : ℕ) → LeavesLedger (notify_winner contest user prize)
unfolding LeavesLedger
notify_winner-LeavesLedger contest user zero db = refl
notify_winner-LeavesLedger contest user (suc n) db = refl

record_prize-LeavesLedger : (contest : ℕ) (w : WinnerLine) → LeavesLedger (record_prize contest w)
unfolding record_prize LeavesLedger
record_prize-LeavesLedger contest w db =
    >>=-LeavesLedger (found (lookup w.entry_id db.entries) record_not_found) _ (λ d. refl)
      (λ e d. notify_winner-LeavesLedger contest w.user_id w.prize_minor _) db

-- A payout that returns leaves the contest's escrow account there, at exactly zero.
pub pay_prizes-empties :
    (id : ℕ) (c : Contest) (escrow platform gross : ℕ) (ranked : List (ℕ × Entry)) (db : Db)
    {u : Unit {0}}
    → (pay_prizes id c escrow platform gross ranked db).0 ≡ ok u
    → balance_is_zero
        (lookup escrow (pay_prizes id c escrow platform gross ranked db).1.ledger.accounts)
      ≡ true
unfolding pay_prizes LeavesLedger
pay_prizes-empties id c escrow platform gross ranked db h =
    let (template, _, h1, e1) =
      >>=-returned (found (lookup c.payout_template_id db.payout_templates) type_error) _ db h in
    let (prizes, _, h2, e2) =
      >>=-returned
        (lift (
          compute_prizes (pos (prize_pool gross c.commission_bps)) template.structure
            (length ranked)))
        _ db h1 in
    let (winners, _, h3, e3) = >>=-returned (winner_lines prizes ranked) _ db h2 in
    let d3 = (winner_lines prizes ranked db).1 in
    let (_, _, h4, e4) =
      >>=-returned
        (post_journal (
          settlement_journal id escrow platform (pos gross)
            (pos gross +ℤ neg (pos (sum_slots prizes))) winners))
        _ d3 h3 in
    let d4 =
      (post_journal
        (settlement_journal id escrow platform (pos gross)
          (pos gross +ℤ neg (pos (sum_slots prizes))) winners)
        d3).1 in
    let (_, z, h5, e5) =
      >>=-returned (require (balance_is_zero (lookup escrow d4.ledger.accounts)) invariant_violated)
        _ d4 h4 in
    rw
      (
        e1,
        e2,
        e3,
        e4,
        e5,
        for_each-LeavesLedger (record_prize id) (record_prize-LeavesLedger id) winners d4,
      )
      (ensure-eq-ok _ _ z)
