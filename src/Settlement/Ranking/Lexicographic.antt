-- ===== src/Settlement/Ranking/Lexicographic.antt =====
-- The order in which apps/api/src/modules/settlement/ranking.ts puts entries, without the comparison.
use mathlib.Core.List.{Perm, Pairwise}
use make_we_bet.Prelude.{ℕ, ◌≡◌, sym, ◌≤◌, ◌<◌, arith, List, ℤ, pos, ◌≤ℤ◌, sub_ℕ, ◌⊎◌, inl, inr}
use make_we_bet.Settlement.Ranking.{RankableEntry, difference_or, compare_entries, rank_entries}
use make_we_bet.Settlement.Ranking.Order.{Before}
use make_we_bet.Settlement.Ranking.Sorted.{IsRanked, rank_entries-perm, rank_entries-IsRanked}

-- Either the numbers decide, or they agree and the rest does.
difference_or-cases :
    (x y : ℕ) (rest : ℤ) → difference_or x y rest ≤ℤ pos 0 → (x < y) ⊎ ((x ≡ y) × (rest ≤ℤ pos 0))
unfolding difference_or
difference_or-cases x y rest h = ground arith

sub_ℕ-le : (x y : ℕ) → sub_ℕ x y ≤ℤ pos 0 → x ≤ y
sub_ℕ-le x y h = ground arith

module _ (draw_hash : ℕ → ℕ → ℕ) (contest_id : ℕ) where
  -- Why an entry stands above another.
  pub data StandsAbove (a b : RankableEntry) : Type 0 where
    by_points : b.total_points_x10 < a.total_points_x10 → StandsAbove a b
    by_expert :
        a.total_points_x10 ≡ b.total_points_x10
        → b.correct_expert < a.correct_expert
        → StandsAbove a b
    by_hard :
        a.total_points_x10 ≡ b.total_points_x10
        → a.correct_expert ≡ b.correct_expert
        → b.correct_hard < a.correct_hard
        → StandsAbove a b
    by_instant :
        a.total_points_x10 ≡ b.total_points_x10
        → a.correct_expert ≡ b.correct_expert
        → a.correct_hard ≡ b.correct_hard
        → a.submitted_at < b.submitted_at
        → StandsAbove a b
    by_draw :
        a.total_points_x10 ≡ b.total_points_x10
        → a.correct_expert ≡ b.correct_expert
        → a.correct_hard ≡ b.correct_hard
        → a.submitted_at ≡ b.submitted_at
        → draw_hash contest_id a.entry_id ≤ draw_hash contest_id b.entry_id
        → StandsAbove a b

  Before-StandsAbove : (a b : RankableEntry) → Before draw_hash contest_id a b → StandsAbove a b
  unfolding compare_entries
  Before-StandsAbove a b h = elim (difference_or-cases b.total_points_x10 a.total_points_x10 _ h) [
    | inl l ↦ by_points l
    | inr (e, h₁) ↦ elim (difference_or-cases b.correct_expert a.correct_expert _ h₁) [
      | inl l ↦ by_expert (sym e) l
      | inr (e₁, h₂) ↦ elim (difference_or-cases b.correct_hard a.correct_hard _ h₂) [
        | inl l ↦ by_hard (sym e) (sym e₁) l
        | inr (e₂, h₃) ↦ elim (difference_or-cases a.submitted_at b.submitted_at _ h₃) [
          | inl l ↦ by_instant (sym e) (sym e₁) (sym e₂) l
          | inr (e₃, h₄) ↦ by_draw (sym e) (sym e₁) (sym e₂) e₃ (sub_ℕ-le _ _ h₄)
        ]
      ]
    ]
  ]

  module _ {ℓ} {T : Type ℓ} (view : T → RankableEntry) where
    -- Every entry stands above every later one.
    abbrev pub AreInOrder : List T → Type ℓ
    AreInOrder = Pairwise (λ x y. StandsAbove (view x) (view y))

    IsRanked-AreInOrder : {xs : List T} → IsRanked draw_hash contest_id view xs → AreInOrder xs
    IsRanked-AreInOrder Pairwise.nil = Pairwise.nil
    IsRanked-AreInOrder (Pairwise.cons below r) =
        Pairwise.cons (λ y m. Before-StandsAbove _ (view y) (below y m)) (IsRanked-AreInOrder r)

    -- A ranking has the entries that it was given, and each stands above every later one: it has more
    -- points, or as many and more correct predictions in expert slots, or as many of these and more in
    -- hard slots, or as many of these and was submitted earlier, or at the same instant with a draw
    -- hash that is not larger.
    pub rank_entries-AreInOrder :
        (xs : List T)
        → Perm (rank_entries draw_hash contest_id view xs) xs
          × AreInOrder (rank_entries draw_hash contest_id view xs)
    rank_entries-AreInOrder xs = (
      rank_entries-perm draw_hash contest_id view xs,
      IsRanked-AreInOrder (rank_entries-IsRanked draw_hash contest_id view xs),
    )
