-- ===== src/Settlement/Prizes.antt =====
-- `computePrizes` of apps/api/src/modules/settlement/ranking.ts. `perPosition` is a JavaScript
-- array that is written at computed indices, so an element may be a hole (`none`): `reduce` and
-- `map` pass over holes, and `slice` keeps them.
pub mod Shares
pub mod Total
use make_we_bet.Prelude.{
  ℕ, zero, suc, ◌+◌, ◌-◌, ◌*◌, ◌/◌, min, Bool, true, false, Option, none, some, List, [], ◌∷◌, ltb,
  ◌==◌, if◌then◌else◌, length, take, any, ℤ, pos, negsuc,
}
use make_we_bet.Errors.{Result, ok, err, range_error, ◌>>=◌}

-- The numbers of a template row are natural numbers: positions and basis points.
pub record PayoutRow : Type 0 where
  pub from : ℕ
  pub to : ℕ
  pub share_bps : ℕ

abbrev pub Slots : Type 0
Slots = List (Option ℕ)

-- `perPosition[i] = v`: the array grows, with holes.
unfoldable pub assign : ℕ → ℕ → Slots → Slots
assign zero v [] = some v ∷ []
assign zero v (_ ∷ xs) = some v ∷ xs
assign (suc i) v [] = none ∷ assign i v []
assign (suc i) v (x ∷ xs) = x ∷ assign i v xs

-- Position 0 would be index -1, which is a property of the array and no element.
unfoldable pub assign_position : ℕ → ℕ → Slots → Slots
unfolding assign
assign_position zero v xs = xs
assign_position (suc i) v xs = assign i v xs

-- The inner loop, `rounds` being how many positions are left.
unfoldable pub fill_positions : ℕ → ℕ → ℕ → Slots → Slots
unfolding assign_position
fill_positions zero position v xs = xs
fill_positions (suc rounds) position v xs =
    fill_positions rounds (position + 1) v (assign_position position v xs)

-- One row: its share is split evenly over its span, rounded down. Where `to` is before `from` the
-- loop makes no round, so the truncated difference is exact where it is read.
unfoldable pub fill_row : PayoutRow → Slots → Slots
unfolding fill_positions
fill_row row xs =
    let span = row.to + 1 - row.from in fill_positions span row.from (row.share_bps / span) xs

unfoldable pub per_position : List PayoutRow → Slots → Slots
unfolding fill_row
per_position [] xs = xs
per_position (row ∷ rows) xs = per_position rows (fill_row row xs)

-- `reduce((s, v) => s + v, 0)`
abbrev pub sum_slots : Slots → ℕ
sum_slots [] = 0
sum_slots (none ∷ xs) = sum_slots xs
sum_slots (some v ∷ xs) = v + sum_slots xs

abbrev pub is_present : Option ℕ → Bool
is_present none = false
is_present (some _) = true

-- `shares.map((share) => (poolMinor * share) / shareSum)`
unfoldable pub split : ℕ → ℕ → Slots → Slots
split pool share_sum [] = []
split pool share_sum (none ∷ xs) = none ∷ split pool share_sum xs
split pool share_sum (some share ∷ xs) = some ((pool * share) / share_sum) ∷ split pool share_sum xs

abbrev pub value_or : ℕ → Option ℕ → ℕ
value_or d none = d
value_or d (some v) = v

-- `prizes[0] = (prizes[0] ?? 0n) + dust`
abbrev pub add_first : ℕ → Slots → Slots
add_first dust [] = some dust ∷ []
add_first dust (p ∷ ps) = some (value_or 0 p + dust) ∷ ps

-- What follows the early return: a division by zero is a RangeError.
unfoldable pub prizes_of_shares : ℕ → Slots → Result Slots
unfolding split
prizes_of_shares pool shares =
    let share_sum = sum_slots shares in
    if any is_present shares
    then (if share_sum == 0
        then err range_error
        else (let prizes = split pool share_sum shares in
            ok (add_first (pool - sum_slots prizes) prizes)))
    else ok (add_first pool shares)

unfoldable pub paid_prizes : ℕ → ℕ → Slots → Result Slots
unfolding prizes_of_shares
paid_prizes pool paid positions =
    if paid == 0 then ok [] else prizes_of_shares pool (take paid positions)

unfoldable pub compute_prizes : ℤ → List PayoutRow → ℕ → Result Slots
unfolding paid_prizes per_position
compute_prizes (negsuc _) template entrants = ok []
compute_prizes (pos zero) template entrants = ok []
compute_prizes (pos (suc n)) template entrants =
    let positions = per_position template [] in
    paid_prizes (suc n) (min entrants (length positions)) positions
