-- ===== src/Settlement/Prizes/Shares.antt =====
-- The shares of the positions that a well-formed template describes.
use mathlib.Core.List.{append-nil, append_assoc}
use native.Mathlib.Nat.{le-div_iff_mul-le}
use make_we_bet.Prelude.{
  ℕ, zero, suc, ◌+◌, ◌-◌, ◌/◌, ◌≤◌, ◌≡◌, refl, sym, ap, ◌∙◌, none, some, List, [], ◌∷◌, ◌++◌, arith,
  length, take, length-append,
}
use make_we_bet.Settlement.Prizes.{
  PayoutRow, Slots, assign, assign_position, fill_positions, fill_row, per_position, split,
  add_first,
}

abbrev pub span : PayoutRow → ℕ
span row = row.to + 1 - row.from

abbrev pub replicate : ℕ → ℕ → Slots
replicate zero v = []
replicate (suc n) v = some v ∷ replicate n v

-- The rows follow one another from position `start + 1`, and none is empty.
abbrev pub IsContiguous : ℕ → List PayoutRow → Type 0
IsContiguous start [] = Unit
IsContiguous start (row ∷ rows) =
    (row.from ≡ suc start) × (row.from ≤ row.to) × IsContiguous row.to rows

-- The shares of a template, read off row by row.
abbrev pub expand : List PayoutRow → Slots
expand [] = []
expand (row ∷ rows) = replicate (span row) (row.share_bps / span row) ++ expand rows

assign-end : (xs : Slots) (v : ℕ) → assign (length xs) v xs ≡ xs ++ some v ∷ []
unfolding assign
assign-end [] v = refl
assign-end (x ∷ xs) v = ap (◌∷◌ x) (assign-end xs v)

length-replicate : (n v : ℕ) → length (replicate n v) ≡ n
length-replicate zero v = refl
length-replicate (suc n) v = ap suc (length-replicate n v)

fill_positions-end :
    (rounds position v : ℕ) (xs : Slots)
    → position ≡ suc (length xs)
    → fill_positions rounds position v xs ≡ xs ++ replicate rounds v
unfolding fill_positions assign_position
fill_positions-end zero position v xs e = sym (append-nil xs)
fill_positions-end (suc rounds) position v xs e =
    rw (e, assign-end xs v)
      (fill_positions-end rounds (suc (length xs) + 1) v (xs ++ some v ∷ [])
          (omega (arith, length-append xs (some v ∷ [])))
        ∙ append_assoc xs (some v ∷ []) (replicate rounds v))

-- On contiguous rows the array has no holes: it is what stood there, then the rows' shares.
pub per_position-contiguous :
    (rows : List PayoutRow) (xs : Slots)
    → IsContiguous (length xs) rows
    → per_position rows xs ≡ xs ++ expand rows
unfolding per_position fill_row
per_position-contiguous [] xs c = sym (append-nil xs)
per_position-contiguous (row ∷ rows) xs c =
    let share = row.share_bps / span row in
    let filled : fill_positions (span row) row.from share xs ≡ xs ++ replicate (span row) share =
      fill_positions-end (span row) row.from share xs c.0 in
    let e : row.to ≡ length (xs ++ replicate (span row) share) = omega (
      arith,
      c.0,
      c.1,
      length-append xs (replicate (span row) share),
      length-replicate (span row) share,
    ) in
    rw filled (
      per_position-contiguous rows (xs ++ replicate (span row) share) (rw e at c.2)
      ∙ append_assoc xs (replicate (span row) share) (expand rows))

-- Every element is there.
abbrev pub IsFull : Slots → Type 0
IsFull [] = Unit
IsFull (none ∷ xs) = ⊥
IsFull (some v ∷ xs) = IsFull xs

IsFull-replicate : (n v : ℕ) (xs : Slots) → IsFull xs → IsFull (replicate n v ++ xs)
IsFull-replicate zero v xs h = h
IsFull-replicate (suc n) v xs h = IsFull-replicate n v xs h

pub IsFull-expand : (rows : List PayoutRow) → IsFull (expand rows)
IsFull-expand [] = tt
IsFull-expand (row ∷ rows) =
    IsFull-replicate (span row) (row.share_bps / span row) (expand rows) (IsFull-expand rows)

pub IsFull-take : (n : ℕ) (xs : Slots) → IsFull xs → IsFull (take n xs)
IsFull-take zero xs h = tt
IsFull-take (suc n) [] h = tt
IsFull-take (suc n) (none ∷ xs) h = absurd h
IsFull-take (suc n) (some v ∷ xs) h = IsFull-take n xs h

pub IsFull-split : (pool total : ℕ) (xs : Slots) → IsFull xs → IsFull (split pool total xs)
unfolding split
IsFull-split pool total [] h = tt
IsFull-split pool total (none ∷ xs) h = absurd h
IsFull-split pool total (some v ∷ xs) h = IsFull-split pool total xs h

pub IsFull-add_first : (dust : ℕ) (xs : Slots) → IsFull xs → IsFull (add_first dust xs)
IsFull-add_first dust [] h = tt
IsFull-add_first dust (none ∷ xs) h = absurd h
IsFull-add_first dust (some v ∷ xs) h = h

pub length-split : (pool total : ℕ) (xs : Slots) → length (split pool total xs) ≡ length xs
unfolding split
length-split pool total [] = refl
length-split pool total (none ∷ xs) = ap suc (length-split pool total xs)
length-split pool total (some v ∷ xs) = ap suc (length-split pool total xs)

replicate-cons :
    (n share : ℕ) (xs : Slots)
    → 1 ≤ n
    → 1 ≤ share
    → (v : ℕ) × (rest : Slots) × (replicate n share ++ xs ≡ some (suc v) ∷ rest)
replicate-cons zero share xs h k = absurd (omega arith)
replicate-cons (suc n) zero xs h k = absurd (omega arith)
replicate-cons (suc n) (suc v) xs h k = (v, replicate n (suc v) ++ xs, refl)

-- The first row of a template pays at least a basis point for each of its positions.
pub expand-cons :
    (row : PayoutRow) (rows : List PayoutRow)
    → row.from ≤ row.to
    → span row ≤ row.share_bps
    → (v : ℕ) × (rest : Slots) × (expand (row ∷ rows) ≡ some (suc v) ∷ rest)
expand-cons row rows h k =
    replicate-cons (span row) (row.share_bps / span row) (expand rows) (omega arith)
      ((le-div_iff_mul-le (omega arith)).1 (omega arith))
