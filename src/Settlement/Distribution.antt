-- ===== src/Settlement/Distribution.antt =====
-- SettlementService of apps/api/src/modules/settlement/settlement.service.ts. The batches of the
-- final ranks are one update here: each row is written once, with its own rank.
use make_we_bet.Prelude.{
  ℕ, zero, suc, ◌-◌, ◌*◌, ◌/◌, true, false, Option, none, some, List, [], ◌∷◌, ltb, length, ℤ, pos,
  ◌+ℤ◌, neg, lookup, insert,
}
use make_we_bet.Errors.{type_error, record_not_found, invariant_violated}
use make_we_bet.Contracts.{scored, settled, status_eq, prizes_distributed}
use make_we_bet.Ledger.{
  JournalLine, PostJournalInput, prize_payout, settlement_key, platform_revenue,
}
use make_we_bet.Ledger.Transfer.{line}
use make_we_bet.Settlement.Ranking.{RankableEntry, rank_entries}
use make_we_bet.Settlement.Prizes.{Slots, sum_slots, compute_prizes}
use make_we_bet.Database.{
  Contest, Entry, settled_entry, Db, Action, ◌>>=◌, ◌>>◌, return, throw, tables, write, lift,
  require, found, transaction, for_each, post_journal, emit, notify, prize_won,
}
use make_we_bet.Wallet.{user_wallet, system, escrow_of}
use make_we_bet.Entries.{active_entries}
use make_we_bet.Contests.{set_contest}
use make_we_bet.Contests.Cancel.{balance_is_zero}

abbrev pub rankable : ℕ × Entry → RankableEntry
rankable (id, e) = record {
  entry_id = id;
  total_points_x10 = e.total_points_x10;
  correct_expert = e.correct_expert;
  correct_hard = e.correct_hard;
  submitted_at = e.submitted_at;
}

pub record WinnerLine : Type 0 where
  pub account_id : ℕ
  pub prize_minor : ℕ
  pub entry_id : ℕ
  pub user_id : ℕ

-- A prize for each of the first entries; at a hole of the prizes' array, or beyond the entries,
-- the source reads a property of `undefined`.
unfoldable pub winner_lines : Slots → List (ℕ × Entry) → Action (List WinnerLine)
winner_lines [] ranked = return []
winner_lines (none ∷ prizes) ranked = throw type_error
winner_lines (some prize ∷ prizes) [] = throw type_error
winner_lines (some prize ∷ prizes) ((id, e) ∷ ranked) = do
  (wallet, _) ← user_wallet e.user_id
  rest ← winner_lines prizes ranked
  return (
      record { account_id = wallet; prize_minor = prize; entry_id = id; user_id = e.user_id }
      ∷ rest)

-- The lines of the winners with a prize above zero.
abbrev pub prize_lines : List WinnerLine → List JournalLine
prize_lines [] = []
prize_lines (w ∷ ws) = elim (ltb 0 w.prize_minor) [
  | true ↦ line w.account_id (pos w.prize_minor) ∷ prize_lines ws
  | false ↦ prize_lines ws
]

abbrev pub settlement_journal : ℕ → ℕ → ℕ → ℤ → ℤ → List WinnerLine → PostJournalInput
settlement_journal contest escrow platform gross commission winners = record {
  type = prize_payout;
  idempotency_key = settlement_key contest;
  lines = line escrow (neg gross) ∷ line platform commission ∷ prize_lines winners;
}

abbrev pub notify_winner : ℕ → ℕ → ℕ → Action Unit
notify_winner contest user zero = return tt
notify_winner contest user (suc _) = notify user (prize_won contest)

unfoldable pub record_prize : ℕ → WinnerLine → Action Unit
record_prize contest w = do
  db ← tables
  e ← found (lookup w.entry_id db.entries) record_not_found
  write λ db. record db {
    entries = insert w.entry_id (record e { prize_minor = w.prize_minor }) db.entries;
  }
  notify_winner contest w.user_id w.prize_minor

-- `(gross * (10_000n - commissionBps)) / 10_000n`, of a gross above zero.
abbrev pub prize_pool : ℕ → ℕ → ℕ
prize_pool gross bps = gross * (10000 - bps) / 10000

-- The payout, for a gross above zero and at least one entry.
unfoldable pub pay_prizes : ℕ → Contest → ℕ → ℕ → ℕ → List (ℕ × Entry) → Action Unit
unfolding winner_lines record_prize
pay_prizes id c escrow platform gross ranked = do
  db ← tables
  template ← found (lookup c.payout_template_id db.payout_templates) type_error
  prizes ←
      lift (
        compute_prizes (pos (prize_pool gross c.commission_bps)) template.structure (length ranked))
  winners ← winner_lines prizes ranked
  post_journal (
      settlement_journal id escrow platform (pos gross) (pos gross +ℤ neg (pos (sum_slots prizes)))
        winners)
  after ← tables
  require (balance_is_zero (lookup escrow after.ledger.accounts)) invariant_violated
  for_each (record_prize id) winners

unfoldable pub pay_if_due : ℕ → Contest → ℕ → ℕ → ℤ → List (ℕ × Entry) → Action Unit
unfolding pay_prizes
pay_if_due id c escrow platform (pos (suc n)) (r ∷ ranked) =
    pay_prizes id c escrow platform (suc n) (r ∷ ranked)
pay_if_due id c escrow platform gross ranked = return tt

abbrev pub ranked_row : ℕ → Option Entry → ℕ → Db → Db
ranked_row id none rank db = db
ranked_row id (some e) rank db = record db {
  entries = insert id (record e { final_rank = some rank; status = settled_entry }) db.entries;
}

-- The ranks from a first one on, in the order of the list.
abbrev pub write_ranks : ℕ → List (ℕ × Entry) → Db → Db
write_ranks rank [] db = db
write_ranks rank ((id, _) ∷ ranked) db =
    write_ranks (suc rank) ranked (ranked_row id (lookup id db.entries) rank db)

unfoldable pub settle_contest : ℕ → Contest → List (ℕ × Entry) → Action Unit
unfolding pay_if_due
settle_contest id c ranked = do
  (escrow, account) ← escrow_of id
  (platform, _) ← system platform_revenue
  pay_if_due id c escrow platform account.balance_minor ranked
  write λ db. write_ranks 1 ranked db
  set_contest id (record c { status = settled })
  emit (prizes_distributed id)

abbrev pub distribute_found : (ℕ → ℕ → ℕ) → ℕ → Db → Option Contest → Action Unit
distribute_found draw_hash id db none = return tt
distribute_found draw_hash id db (some c) = elim (status_eq c.status scored) [
  | true ↦
      transaction
        (settle_contest id c (rank_entries draw_hash id rankable (active_entries id db.entries)))
  | false ↦ return tt
]

unfoldable pub distribute : (ℕ → ℕ → ℕ) → ℕ → Action Unit
unfolding settle_contest
distribute draw_hash id = do db ← tables; distribute_found draw_hash id db (lookup id db.contests)
