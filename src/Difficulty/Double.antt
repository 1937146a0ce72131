-- ===== src/Difficulty/Double.antt =====
-- The numbers that apps/api/src/modules/difficulty/difficulty-engine.ts computes with: the doubles of
-- IEEE 754 that are not negative, each as the multiple of the least positive one, 2 ^ -1074, that it
-- is. An operation rounds its exact result to the nearest double, and of two to the even one. The
-- engine's numbers stay far below the largest double.
use make_we_bet.Prelude.{ℕ, zero, suc, ◌+◌, ◌-◌, ◌*◌, ◌/◌, ◌%◌, ◌^◌, ltb, leb, if◌then◌else◌}

abbrev pub Number : Type 0
Number = ℕ

-- The number one.
abbrev pub one : Number
one = 2 ^ 1074

-- n / d as the nearest natural number.
abbrev pub half_even : ℕ → ℕ → ℕ
half_even n d =
    let q = n / d in
    let r = 2 * (n % d) in if ltb r d then q else if ltb d r then suc q else q + q % 2

-- By how many binary digits a number is longer than the 53 of a double, by halving the number of
-- digits that are left: of 2 ^ m - 1 digits more at most.
abbrev pub excess : ℕ → ℕ → ℕ
excess zero q = 0
excess (suc m) q =
    let longer = leb (2 ^ (52 + 2 ^ m)) q in
    let rest = excess m (if longer then q / 2 ^ 2 ^ m else q) in
    if longer then 2 ^ m + rest else rest

-- The double that is nearest to n / d, in units of the least one.
unfoldable pub rounded : ℕ → ℕ → Number
rounded n d = let factor = 2 ^ excess 11 (n / d) in half_even n (d * factor) * factor

unfoldable pub plus : Number → Number → Number
unfolding rounded
plus a b = rounded (a + b) 1

-- Zero if the second number is larger.
unfoldable pub minus : Number → Number → Number
unfolding rounded
minus a b = rounded (a - b) 1

unfoldable pub times : Number → Number → Number
unfolding rounded
times a b = rounded (a * b) one

unfoldable pub over : Number → Number → Number
unfolding rounded
over a b = rounded (a * one) b

-- The double that a literal denotes, n / d: 0.2 is 2 / 10.
unfoldable pub literal : ℕ → ℕ → Number
unfolding rounded
literal n d = rounded (n * one) d
