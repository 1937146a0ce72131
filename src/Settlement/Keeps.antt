-- ===== src/Settlement/Keeps.antt =====
-- The settlement keeps the ledger sound.
use make_we_bet.Prelude.{
  ℕ, zero, suc, refl, ◌≡◌, ◌∙◌, lookup, Option, none, some, List, [], ◌∷◌, ℤ, pos, negsuc,
}
use make_we_bet.Errors.{ok}
use make_we_bet.Contracts.{scored, status_eq}
use make_we_bet.Settlement.Prizes.{Slots}
use make_we_bet.Database.{Contest, Entry, Db, Action, ◌>>=◌, return}
use make_we_bet.Database.Keeps.{
  KeepsSound, lift-KeepsSound, elim-KeepsSound, transaction-KeepsSound, keeps,
}
use make_we_bet.Wallet.{user_wallet}
use make_we_bet.Settlement.Distribution.{
  WinnerLine, winner_lines, record_prize, notify_winner, pay_prizes, pay_if_due, ranked_row,
  write_ranks, settle_contest, distribute_found, distribute,
}

winner_lines_step :
    (e : Entry) (rest : Action (List WinnerLine))
    → KeepsSound rest
    → (id p : ℕ)
    → KeepsSound (
        user_wallet e.user_id >>= λ w. rest >>= λ ws.
        return
          (record { account_id = w.0; prize_minor = p; entry_id = id; user_id = e.user_id } ∷ ws))
unfolding KeepsSound
winner_lines_step e rest k id p = search (keeps, k)

winner_lines-KeepsSound :
    (prizes : Slots) (ranked : List (ℕ × Entry)) → KeepsSound (winner_lines prizes ranked)
unfolding winner_lines KeepsSound
winner_lines-KeepsSound [] ranked db s = s
winner_lines-KeepsSound (none ∷ prizes) ranked db s = s
winner_lines-KeepsSound (some p ∷ prizes) [] db s = s
winner_lines-KeepsSound (some p ∷ prizes) ((id, e) ∷ ranked) db s =
    winner_lines_step e (winner_lines prizes ranked) (winner_lines-KeepsSound prizes ranked) id p db
      s

notify_winner-KeepsSound : (contest user prize : ℕ) → KeepsSound (notify_winner contest user prize)
unfolding KeepsSound
notify_winner-KeepsSound contest user zero db s = s
notify_winner-KeepsSound contest user (suc n) db s = s

record_prize-KeepsSound : (contest : ℕ) (w : WinnerLine) → KeepsSound (record_prize contest w)
unfolding record_prize KeepsSound
record_prize-KeepsSound contest w = search (keeps, notify_winner-KeepsSound)

pay_prizes-KeepsSound :
    (id : ℕ) (c : Contest) (escrow platform gross : ℕ) (ranked : List (ℕ × Entry))
    → KeepsSound (pay_prizes id c escrow platform gross ranked)
unfolding pay_prizes KeepsSound
pay_prizes-KeepsSound id c escrow platform gross ranked =
    search (keeps, winner_lines-KeepsSound, record_prize-KeepsSound) depth 9 fits 9000

pay_if_due-KeepsSound :
    (id : ℕ) (c : Contest) (escrow platform : ℕ) (gross : ℤ) (ranked : List (ℕ × Entry))
    → KeepsSound (pay_if_due id c escrow platform gross ranked)
unfolding pay_if_due KeepsSound
pay_if_due-KeepsSound id c escrow platform (pos zero) ranked db s = s
pay_if_due-KeepsSound id c escrow platform (negsuc n) ranked db s = s
pay_if_due-KeepsSound id c escrow platform (pos (suc n)) [] db s = s
pay_if_due-KeepsSound id c escrow platform (pos (suc n)) (r ∷ ranked) db s =
    pay_prizes-KeepsSound id c escrow platform (suc n) (r ∷ ranked) db s

ranked_row-ledger :
    (id : ℕ) (o : Option Entry) (rank : ℕ) (db : Db) → (ranked_row id o rank db).ledger ≡ db.ledger
ranked_row-ledger id none rank db = refl
ranked_row-ledger id (some e) rank db = refl

write_ranks-ledger :
    (rank : ℕ) (ranked : List (ℕ × Entry)) (db : Db)
    → (write_ranks rank ranked db).ledger ≡ db.ledger
write_ranks-ledger rank [] db = refl
write_ranks-ledger rank ((id, e) ∷ ranked) db =
    write_ranks-ledger (suc rank) ranked (ranked_row id (lookup id db.entries) rank db)
    ∙ ranked_row-ledger id (lookup id db.entries) rank db

settle_contest-KeepsSound :
    (id : ℕ) (c : Contest) (ranked : List (ℕ × Entry)) → KeepsSound (settle_contest id c ranked)
unfolding settle_contest KeepsSound
settle_contest-KeepsSound id c ranked =
    search (keeps, pay_if_due-KeepsSound, write_ranks-ledger 1 ranked) depth 9 fits 9000

distribute_found-KeepsSound :
    (draw_hash : ℕ → ℕ → ℕ) (id : ℕ) (db : Db) (o : Option Contest)
    → KeepsSound (distribute_found draw_hash id db o)
distribute_found-KeepsSound draw_hash id db none = lift-KeepsSound (ok tt)
distribute_found-KeepsSound draw_hash id db (some c) =
    elim-KeepsSound (status_eq c.status scored) _ _
      (transaction-KeepsSound _ (settle_contest-KeepsSound id c _)) (lift-KeepsSound (ok tt))

-- The settlement of a contest keeps the ledger sound.
pub distribute-KeepsSound : (draw_hash : ℕ → ℕ → ℕ) (id : ℕ) → KeepsSound (distribute draw_hash id)
unfolding distribute KeepsSound
distribute-KeepsSound draw_hash id = search (keeps, distribute_found-KeepsSound)
