-- ===== src/Settlement/Prizes/Total.antt =====
-- The whole pool is paid out.
use native.Mathlib.Nat.{div-mul-le_self, le_of_mul-le-mul_right}
use make_we_bet.Prelude.{
  ℕ, zero, suc, ◌+◌, ◌-◌, ◌*◌, ◌≤◌, ◌≡◌, ◌≢◌, refl, ap, length-take, ◌∙◌, true, false, none, some,
  List, [], ◌∷◌, arith, ◌==◌, length, take, any, min, pos,
}
use make_we_bet.Errors.{Result, ok}
use make_we_bet.Settlement.Prizes.Shares.{
  span, expand, expand-cons, IsContiguous, IsFull, IsFull-expand, IsFull-take, IsFull-split,
  IsFull-add_first, length-split, per_position-contiguous,
}
use make_we_bet.Settlement.Prizes.{
  PayoutRow, Slots, sum_slots, is_present, split, add_first, prizes_of_shares, paid_prizes,
  compute_prizes,
}

-- The rounded shares times the sum of shares stay below the pool times the shares.
split-le :
    (pool total : ℕ) (xs : Slots) → sum_slots (split pool total xs) * total ≤ pool * sum_slots xs
unfolding split
split-le pool total [] = omega arith
split-le pool total (none ∷ xs) = split-le pool total xs
split-le pool total (some v ∷ xs) =
    grind (arith, div-mul-le_self (pool * v) total, split-le pool total xs)

-- So the rounded prizes never exceed the pool: the dust is not negative.
pub sum-split-le :
    (pool : ℕ) (xs : Slots) → sum_slots xs ≢ 0 → sum_slots (split pool (sum_slots xs) xs) ≤ pool
sum-split-le pool xs ne = le_of_mul-le-mul_right (split-le pool (sum_slots xs) xs) (omega arith)

sum-add_first : (dust : ℕ) (xs : Slots) → sum_slots (add_first dust xs) ≡ sum_slots xs + dust
sum-add_first dust [] = omega arith
sum-add_first dust (none ∷ xs) = omega arith
sum-add_first dust (some v ∷ xs) = omega arith

any_of_sum : (xs : Slots) → sum_slots xs ≢ 0 → any is_present xs ≡ true
any_of_sum [] ne = absurd (ne refl)
any_of_sum (none ∷ xs) ne = any_of_sum xs ne
any_of_sum (some v ∷ xs) ne = refl

length-add_first : (dust : ℕ) (xs : Slots) → 1 ≤ length xs → length (add_first dust xs) ≡ length xs
length-add_first dust [] h = absurd (omega arith)
length-add_first dust (x ∷ xs) h = refl

-- Shares whose sum is not zero pay out the whole pool, each present share one prize.
prizes_of_shares-total :
    (pool : ℕ) (shares : Slots)
    → 1 ≤ length shares
    → sum_slots shares ≢ 0
    → IsFull shares
    → (prizes : Slots) × (prizes_of_shares pool shares ≡ ok prizes)
      × (sum_slots prizes ≡ pool)
      × (length prizes ≡ length shares)
      × IsFull prizes
unfolding prizes_of_shares
prizes_of_shares-total pool shares some_share ne full =
    let parts = split pool (sum_slots shares) shares in
    (
      add_first (pool - sum_slots parts) parts,
      rw (any_of_sum shares ne, other) refl,
      sum-add_first (pool - sum_slots parts) parts ∙ omega (arith, sum-split-le pool shares ne),
      length-add_first (pool - sum_slots parts) parts (omega (arith, counted)) ∙ counted,
      IsFull-add_first (pool - sum_slots parts) parts
          (IsFull-split pool (sum_slots shares) shares full),
    )
  where
    other : (sum_slots shares == 0) ≡ false
    other = ground arith

    counted : length (split pool (sum_slots shares) shares) ≡ length shares
    counted = length-split pool (sum_slots shares) shares

-- What the theorem below says of a result.
abbrev pub PaysOut : ℕ → ℕ → Result Slots → Type 0
PaysOut pool winners r =
    (prizes : Slots) × (r ≡ ok prizes)
    × (sum_slots prizes ≡ pool)
    × (length prizes ≡ winners)
    × IsFull prizes

paid_prizes-total :
    (pool k v : ℕ) (rest positions : Slots)
    → positions ≡ some (suc v) ∷ rest
    → IsFull positions
    → PaysOut pool
        (min (suc k) (length positions))
        (paid_prizes pool (min (suc k) (length positions)) positions)
unfolding paid_prizes
paid_prizes-total pool k v rest positions e full =
    let paid : min (suc k) (length positions) ≡ suc (min k (length rest)) = rw e (omega arith) in
    let shares = some (suc v) ∷ take (min k (length rest)) rest in
    let some_paid : (suc (min k (length rest)) == 0) ≡ false = ground arith in
    let tail_full : IsFull rest = rw e at full in
    let (prizes, computed, total, counted, all_there) =
      prizes_of_shares-total pool shares (omega arith) (omega arith)
        (IsFull-take (min k (length rest)) rest tail_full) in
    (
      prizes,
      rw (paid, e, some_paid) computed,
      total,
      counted ∙ rw paid (omega (arith, length-take (min k (length rest)) rest)),
      all_there,
    )

-- For a pool of at least one unit, a contiguous template whose first row pays, and an entrant at
-- least: the computation succeeds, every paid position has a prize, there are as many as
-- entrants or positions, whichever are fewer, and together they are exactly the pool.
pub compute_prizes-total :
    (n : ℕ) (row : PayoutRow) (rows : List PayoutRow) (entrants : ℕ)
    → IsContiguous 0 (row ∷ rows)
    → span row ≤ row.share_bps
    → 1 ≤ entrants
    → PaysOut
        (suc n)
        (min entrants (length (expand (row ∷ rows))))
        (compute_prizes (pos (suc n)) (row ∷ rows) entrants)
unfolding compute_prizes
compute_prizes-total n row rows zero c pays present = absurd (omega arith)
compute_prizes-total n row rows (suc k) c pays present =
    let (v, rest, e) = expand-cons row rows c.1 pays in
    rw (per_position-contiguous (row ∷ rows) [] c)
      (paid_prizes-total (suc n) k v rest (expand (row ∷ rows)) e (IsFull-expand (row ∷ rows)))

-- A single entrant takes the whole pool, whatever the template's shares.
pub compute_prizes-single :
    (n : ℕ) (row : PayoutRow) (rows : List PayoutRow)
    → IsContiguous 0 (row ∷ rows)
    → span row ≤ row.share_bps
    → compute_prizes (pos (suc n)) (row ∷ rows) 1 ≡ ok (some (suc n) ∷ [])
compute_prizes-single n row rows c pays =
    let (prizes, computed, total, counted, full) =
      compute_prizes-total n row rows 1 c pays (omega arith) in
    let (v, rest, e) = expand-cons row rows c.1 pays in
    let one : length prizes ≡ 1 = counted ∙ rw e (omega arith) in
    computed ∙ ap ok (only prizes one total full)
  where
    only : (ps : Slots) → length ps ≡ 1 → sum_slots ps ≡ suc n → IsFull ps → ps ≡ some (suc n) ∷ []
    only [] h t f = absurd (omega arith)
    only (none ∷ ps) h t f = absurd f
    only (some p ∷ []) h t f = ap (λ q. some q ∷ []) (omega arith)
    only (some p ∷ q ∷ ps) h t f = absurd (omega arith)
