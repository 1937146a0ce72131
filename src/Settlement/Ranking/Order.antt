-- ===== src/Settlement/Ranking/Order.antt =====
-- The tie-breaker chain is a total order, so a ranking is one list whatever the input's order.
use make_we_bet.Prelude.{ℕ, ◌≡◌, sym, true, arith, ℤ, pos, sub_ℕ, ltb_ℤ, ◌≤ℤ◌}
use make_we_bet.Settlement.Ranking.{RankableEntry, difference_or, compare_entries}

difference_or_trans :
    (x y z : ℕ) (r s t : ℤ)
    → (r ≤ℤ pos 0 → s ≤ℤ pos 0 → t ≤ℤ pos 0)
    → difference_or x y r ≤ℤ pos 0
    → difference_or y z s ≤ℤ pos 0
    → difference_or x z t ≤ℤ pos 0
unfolding difference_or
difference_or_trans x y z r s t rest h k = ground arith

-- The same where the greater number comes first.
difference_or_trans_desc :
    (x y z : ℕ) (r s t : ℤ)
    → (r ≤ℤ pos 0 → s ≤ℤ pos 0 → t ≤ℤ pos 0)
    → difference_or y x r ≤ℤ pos 0
    → difference_or z y s ≤ℤ pos 0
    → difference_or z x t ≤ℤ pos 0
difference_or_trans_desc x y z r s t rest h k =
    difference_or_trans z y x s r t (λ p q. rest q p) k h

difference_or_total :
    (x y : ℕ) (r s : ℤ)
    → (ltb_ℤ (pos 0) r ≡ true → s ≤ℤ pos 0)
    → ltb_ℤ (pos 0) (difference_or x y r) ≡ true
    → difference_or y x s ≤ℤ pos 0
unfolding difference_or
difference_or_total x y r s rest h = ground arith

difference_or_antisymm :
    (x y : ℕ) (r s : ℤ)
    → difference_or x y r ≤ℤ pos 0
    → difference_or y x s ≤ℤ pos 0
    → (x ≡ y) × (r ≤ℤ pos 0) × (s ≤ℤ pos 0)
unfolding difference_or
difference_or_antisymm x y r s h k = ground arith

sub_ℕ_total : (x y : ℕ) → ltb_ℤ (pos 0) (sub_ℕ x y) ≡ true → sub_ℕ y x ≤ℤ pos 0
sub_ℕ_total x y h = ground arith

sub_ℕ_trans : (x y z : ℕ) → sub_ℕ x y ≤ℤ pos 0 → sub_ℕ y z ≤ℤ pos 0 → sub_ℕ x z ≤ℤ pos 0
sub_ℕ_trans x y z h k = ground arith

sub_ℕ_antisymm : (x y : ℕ) → sub_ℕ x y ≤ℤ pos 0 → sub_ℕ y x ≤ℤ pos 0 → x ≡ y
sub_ℕ_antisymm x y h k = ground arith

module _ (draw_hash : ℕ → ℕ → ℕ) (contest_id : ℕ) where
  -- `a` may stand above `b`.
  abbrev pub Before : RankableEntry → RankableEntry → Type 0
  Before a b = compare_entries draw_hash contest_id a b ≤ℤ pos 0

  pub Before-refl : (a : RankableEntry) → Before a a
  unfolding compare_entries difference_or
  Before-refl a = ground arith

  pub Before-total :
      (a b : RankableEntry)
      → ltb_ℤ (pos 0) (compare_entries draw_hash contest_id a b) ≡ true
      → Before b a
  unfolding compare_entries
  Before-total a b = difference_or_total _ _ _ _ (
      difference_or_total _ _ _ _
        (difference_or_total _ _ _ _ (difference_or_total _ _ _ _ (sub_ℕ_total _ _))))

  pub Before-trans : (a b c : RankableEntry) → Before a b → Before b c → Before a c
  unfolding compare_entries
  Before-trans a b c =
      difference_or_trans_desc a.total_points_x10 b.total_points_x10 c.total_points_x10 _ _ _ (
        difference_or_trans_desc a.correct_expert b.correct_expert c.correct_expert _ _ _ (
          difference_or_trans_desc a.correct_hard b.correct_hard c.correct_hard _ _ _ (
            difference_or_trans a.submitted_at b.submitted_at c.submitted_at _ _ _
              (sub_ℕ_trans _ _ _))))

  -- What two entries that may stand above one another have in common.
  pub record Level (a b : RankableEntry) : Type 0 where
    pub total_points : a.total_points_x10 ≡ b.total_points_x10
    pub expert : a.correct_expert ≡ b.correct_expert
    pub hard : a.correct_hard ≡ b.correct_hard
    pub instant : a.submitted_at ≡ b.submitted_at
    pub digest : draw_hash contest_id a.entry_id ≡ draw_hash contest_id b.entry_id

  pub Before-Level : (a b : RankableEntry) → Before a b → Before b a → Level a b
  unfolding compare_entries
  Before-Level a b h k =
      let (total, h₁, k₁) = difference_or_antisymm _ _ _ _ h k in
      let (expert, h₂, k₂) = difference_or_antisymm _ _ _ _ h₁ k₁ in
      let (hard, h₃, k₃) = difference_or_antisymm _ _ _ _ h₂ k₂ in
      let (instant, h₄, k₄) = difference_or_antisymm _ _ _ _ h₃ k₃ in
      record {
        total_points = sym total;
        expert = sym expert;
        hard = sym hard;
        instant = instant;
        digest = sub_ℕ_antisymm _ _ h₄ k₄;
      }
