-- ===== src/Settlement/Ranking/Sorted.antt =====
-- What `rank_entries` returns.
use mathlib.Core.Path.{ap₂}
use mathlib.Core.List.{
  Mem, Perm, Pairwise, Pairwise-singleton, mem-cons_self, mem-cons_of_mem, forall_mem-cons,
}
use mathlib.Core.List.Pairwise
use mathlib.Core.List.Perm
use native.Mathlib.Bridge.{le_prop}
use make_we_bet.Prelude.{ℕ, ◌≡◌, inl, inr, Bool-cases, List, [], ◌∷◌, arith, pos, ltb_ℤ}
use make_we_bet.Settlement.Ranking.{RankableEntry, compare_entries, insert_entry, rank_entries}
use make_we_bet.Settlement.Ranking.Order.{
  Before, Before-total, Before-trans, Before-Level, Before-refl,
}

module _ {ℓ} {T : Type ℓ} (draw_hash : ℕ → ℕ → ℕ) (contest_id : ℕ) (view : T → RankableEntry) where
  -- The entry above may stand above the one below.
  abbrev pub Above : T → T → Type 0
  Above x y = Before draw_hash contest_id (view x) (view y)

  -- Every entry may stand above every later one.
  abbrev pub IsRanked : List T → Type ℓ
  IsRanked = Pairwise Above

  abbrev AboveAll : T → List T → Type ℓ
  AboveAll x ys = (y : T) → Mem y ys → Above x y

  Above-prop : (x y : T) → IsProp (Above x y)
  Above-prop x y = le_prop

  AboveAll-cons : (x y : T) (ys : List T) → Above x y → AboveAll x ys → AboveAll x (y ∷ ys)
  AboveAll-cons x y ys h k = (forall_mem-cons (λ z. Above-prop x z)).1 (h, k)

  AboveAll-perm : (x : T) {xs ys : List T} → Perm xs ys → AboveAll x ys → AboveAll x xs
  AboveAll-perm x p h y m = h y ((Perm.mem_iff p).0 m)

  insert_entry-perm :
      (x : T) (ys : List T) → Perm (insert_entry draw_hash contest_id view x ys) (x ∷ ys)
  unfolding insert_entry
  insert_entry-perm x [] = Perm.refl (x ∷ [])
  insert_entry-perm x (y ∷ ys) =
      elim (Bool-cases (ltb_ℤ (pos 0) (compare_entries draw_hash contest_id (view x) (view y)))) [
        | inl after ↦
            rw after (Perm.trans (Perm.cons y (insert_entry-perm x ys)) (Perm.swap x y ys))
        | inr before ↦ rw before (Perm.refl (x ∷ y ∷ ys))
      ]

  -- A ranking has the entries that it was given.
  pub rank_entries-perm : (xs : List T) → Perm (rank_entries draw_hash contest_id view xs) xs
  unfolding rank_entries
  rank_entries-perm [] = Perm.refl []
  rank_entries-perm (x ∷ xs) =
      Perm.trans (insert_entry-perm x (rank_entries draw_hash contest_id view xs))
        (Perm.cons x (rank_entries-perm xs))

  insert_entry-IsRanked :
      (x : T) (ys : List T) → IsRanked ys → IsRanked (insert_entry draw_hash contest_id view x ys)
  unfolding insert_entry
  insert_entry-IsRanked x [] r = Pairwise-singleton _ x
  insert_entry-IsRanked x (y ∷ ys) (Pairwise.cons below r) =
      elim (Bool-cases (ltb_ℤ (pos 0) (compare_entries draw_hash contest_id (view x) (view y)))) [
        | inl after ↦ rw after (
            Pairwise.cons
              (AboveAll-perm y (insert_entry-perm x ys) (
                AboveAll-cons y x ys (Before-total draw_hash contest_id (view x) (view y) after)
                  below))
              (insert_entry-IsRanked x ys r))
        | inr before ↦
            let first : Above x y = ground (arith, before) in
            rw before (
              Pairwise.cons
                (AboveAll-cons x y ys first (λ z m.
                  Before-trans draw_hash contest_id (view x) (view y) (view z) first (below z m)))
                (Pairwise.cons below r))
      ]

  -- A ranking is in order.
  pub rank_entries-IsRanked : (xs : List T) → IsRanked (rank_entries draw_hash contest_id view xs)
  unfolding rank_entries
  rank_entries-IsRanked [] = Pairwise.nil
  rank_entries-IsRanked (x ∷ xs) =
      insert_entry-IsRanked x (rank_entries draw_hash contest_id view xs) (rank_entries-IsRanked xs)

  -- No two entries of the list have one draw hash.
  abbrev pub HasDistinctDraws : List T → Type ℓ
  HasDistinctDraws xs =
      (x y : T)
      → Mem x xs
      → Mem y xs
      → draw_hash contest_id (view x).entry_id ≡ draw_hash contest_id (view y).entry_id
      → x ≡ y

  heads-Above : (x y : T) (xs ys : List T) → IsRanked (x ∷ xs) → Perm (y ∷ ys) (x ∷ xs) → Above x y
  heads-Above x y xs ys (Pairwise.cons below r) p =
      AboveAll-perm x p (AboveAll-cons x x xs (Before-refl draw_hash contest_id (view x)) below) y
        mem-cons_self

  IsRanked-eq_of_perm :
      (xs ys : List T) → HasDistinctDraws xs → IsRanked xs → IsRanked ys → Perm xs ys → xs ≡ ys
  IsRanked-eq_of_perm [] ys _ _ _ p = Perm.nil-eq p
  IsRanked-eq_of_perm (x ∷ xs) [] _ _ _ p = Perm.eq-nil p
  IsRanked-eq_of_perm (x ∷ xs) (y ∷ ys) d r s p =
      let level =
        Before-Level draw_hash contest_id (view x) (view y) (heads-Above x y xs ys r (Perm.symm p))
          (heads-Above y x ys xs s p) in
      let e : x ≡ y = d x y mem-cons_self ((Perm.mem_iff p).1 mem-cons_self) level.digest in
      ap₂ ◌∷◌ e (
        IsRanked-eq_of_perm xs ys (λ u v mu mv. d u v (mem-cons_of_mem x mu) (mem-cons_of_mem x mv))
          (Pairwise.of_cons r) (Pairwise.of_cons s)
          (Perm.cons_inv (Perm.trans p (Perm.symm (Perm.cons' e (Perm.refl ys))))))

  -- If no two entries have one draw hash, the ranking does not depend on the order in which the
  -- entries come.
  pub rank_entries-eq_of_perm :
      (xs ys : List T)
      → HasDistinctDraws xs
      → Perm xs ys
      → rank_entries draw_hash contest_id view xs ≡ rank_entries draw_hash contest_id view ys
  rank_entries-eq_of_perm xs ys d p =
      IsRanked-eq_of_perm (rank_entries draw_hash contest_id view xs)
        (rank_entries draw_hash contest_id view ys)
        (λ u v mu mv.
          d u v ((Perm.mem_iff (rank_entries-perm xs)).0 mu)
            ((Perm.mem_iff (rank_entries-perm xs)).0 mv))
        (rank_entries-IsRanked xs) (rank_entries-IsRanked ys)
        (Perm.trans (rank_entries-perm xs) (Perm.trans p (Perm.symm (rank_entries-perm ys))))
