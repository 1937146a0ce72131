-- ===== src/Examples/Prizes.antt =====
-- The rules of the game at concrete inputs.
use mathlib.Core.List.{Perm}
use mathlib.Core.List.Perm
use make_we_bet.Prelude.{◌++◌, ℕ, ◌≡◌, ◌↔◌, refl, [], ◌∷◌, pos, arith}
use make_we_bet.Contracts.{exact_goals, home}
use make_we_bet.Slip.{validate_slip}
use make_we_bet.Slip.Laws.{IsSlip, validate_slip_iff}
use make_we_bet.Scoring.Markets.{FinalResult}
use make_we_bet.Scoring.Markets.Partition.{winners}
use make_we_bet.Scoring.Markets.Winners.{winners-eq-expected}
use make_we_bet.Settlement.Ranking.{RankableEntry, rank_entries}
use make_we_bet.Settlement.Ranking.Sorted.{rank_entries-eq_of_perm, HasDistinctDraws}
use make_we_bet.Settlement.Ranking.Lexicographic.{AreInOrder, rank_entries-AreInOrder}
use make_we_bet.Settlement.Prizes.{PayoutRow, per_position, compute_prizes}
use make_we_bet.Settlement.Prizes.Shares.{IsContiguous, expand, per_position-contiguous}
use make_we_bet.Settlement.Prizes.Total.{PaysOut, compute_prizes-total}
use make_we_bet.Examples.{ten_slots, ten_picks}

validate_slip_iff_example : (validate_slip ten_slots ten_picks ≡ []) ↔ IsSlip ten_slots ten_picks
validate_slip_iff_example = validate_slip_iff ten_slots ten_picks

-- The picks are a slip.
ten_picks-pass : validate_slip ten_slots ten_picks ≡ []
unfolding validate_slip make_we_bet.Slip.slot_by_id make_we_bet.Contracts.is_valid_selection
ten_picks-pass = refl

abbrev two_one : FinalResult
two_one = record {
  home_goals = 2;
  away_goals = 1;
  ht_home_goals = 1;
  ht_away_goals = 0;
  first_to_score = home;
}

winners-eq-expected_example : winners exact_goals two_one ≡ 1
winners-eq-expected_example = winners-eq-expected exact_goals two_one

-- 60% to the first, 40% to the second and the third.
abbrev podium_first : PayoutRow
podium_first = record { from = 1; to = 1; share_bps = 6000 }

abbrev podium_rest : PayoutRow
podium_rest = record { from = 2; to = 3; share_bps = 4000 }

podium-IsContiguous : IsContiguous 0 (podium_first ∷ podium_rest ∷ [])
podium-IsContiguous = (refl, omega arith, (refl, omega arith, tt))

compute_prizes-total_example :
    PaysOut 1001 3 (compute_prizes (pos 1001) (podium_first ∷ podium_rest ∷ []) 5)
compute_prizes-total_example =
    compute_prizes-total 1000 podium_first (podium_rest ∷ []) 5 podium-IsContiguous (omega arith)
      (omega arith)

abbrev rankable_entry : ℕ → ℕ → RankableEntry
rankable_entry id points = record {
  entry_id = id;
  total_points_x10 = points;
  correct_expert = 1;
  correct_hard = 2;
  submitted_at = 40;
}

-- A digest that is one with the entry's id.
abbrev draw : ℕ → ℕ → ℕ
draw contest entry = entry

-- Ids of entries that differ in nothing else.
abbrev tied : ℕ → RankableEntry
tied id = rankable_entry id 900

rank_entries-AreInOrder_example :
    Perm (rank_entries draw 3 tied (2 ∷ 1 ∷ [])) (2 ∷ 1 ∷ [])
    × AreInOrder draw 3 tied (rank_entries draw 3 tied (2 ∷ 1 ∷ []))
rank_entries-AreInOrder_example = rank_entries-AreInOrder draw 3 tied (2 ∷ 1 ∷ [])

distinct_draws : HasDistinctDraws draw 3 tied (2 ∷ 1 ∷ [])
distinct_draws x y in_x in_y e = e

rank_entries-eq_of_perm_example :
    rank_entries draw 3 tied (2 ∷ 1 ∷ []) ≡ rank_entries draw 3 tied (1 ∷ 2 ∷ [])
rank_entries-eq_of_perm_example =
    rank_entries-eq_of_perm draw 3 tied (2 ∷ 1 ∷ []) (1 ∷ 2 ∷ []) distinct_draws (Perm.swap 1 2 [])

per_position-contiguous_example :
    per_position (podium_first ∷ podium_rest ∷ []) []
    ≡ [] ++ expand (podium_first ∷ podium_rest ∷ [])
per_position-contiguous_example =
    per_position-contiguous (podium_first ∷ podium_rest ∷ []) [] podium-IsContiguous
