-- ===== src/Settlement/Ranking.antt =====
-- `compareEntries` and `rankEntries` of apps/api/src/modules/settlement/ranking.ts. The draw hash
-- is SHA-256 of node:crypto, so it is a parameter: a digest is the number that its hexadecimal
-- digits denote, since `localeCompare` orders digests, texts of one length, as their numbers.
pub mod Order
pub mod Sorted
pub mod Lexicographic
use make_we_bet.Prelude.{ℕ, ◌==◌, if◌then◌else◌, List, [], ◌∷◌, ℤ, pos, sub_ℕ, ltb_ℤ}

-- Points, counts and instants (milliseconds) are natural numbers.
pub record RankableEntry : Type 0 where
  pub entry_id : ℕ
  pub total_points_x10 : ℕ
  pub correct_expert : ℕ
  pub correct_hard : ℕ
  pub submitted_at : ℕ

-- `if (x !== y) return x - y;`, and what follows it.
unfoldable pub difference_or : ℕ → ℕ → ℤ → ℤ
difference_or x y rest = if x == y then rest else sub_ℕ x y

module _ (draw_hash : ℕ → ℕ → ℕ) (contest_id : ℕ) where
  unfoldable pub compare_entries : RankableEntry → RankableEntry → ℤ
  compare_entries a b = difference_or b.total_points_x10 a.total_points_x10 (
      difference_or b.correct_expert a.correct_expert (
        difference_or b.correct_hard a.correct_hard (
          difference_or a.submitted_at b.submitted_at
            (sub_ℕ (draw_hash contest_id a.entry_id) (draw_hash contest_id b.entry_id)))))

  -- `[...entries].sort(…)`: JavaScript's sort is stable, so it is insertion before the first
  -- entry that does not come earlier. `view` is the part of a `T` that is compared.
  module _ {ℓ} {T : Type ℓ} (view : T → RankableEntry) where
    unfoldable pub insert_entry : T → List T → List T
    insert_entry x [] = x ∷ []
    insert_entry x (y ∷ ys) =
        if ltb_ℤ (pos 0) (compare_entries (view x) (view y))
        then y ∷ insert_entry x ys
        else x ∷ y ∷ ys

    unfoldable pub rank_entries : List T → List T
    unfolding insert_entry
    rank_entries [] = []
    rank_entries (x ∷ xs) = insert_entry x (rank_entries xs)
