-- ===== src/Scoring/Markets/CorrectScore.antt =====
-- The correct-score market: its selections are the lines of two digits, so a result has a winner
-- exactly when neither side scored ten.
use Prim.Native.String.{len}
use text.Mathlib.TextEquality.{eq_iff}
use make_we_bet.Prelude.{
  false, ℕ, zero, suc, ◌+◌, ◌≤◌, ◌<◌, ◌≡◌, ◌≢◌, refl, ap, inl, inr, Bool, true, ◌&&◌, List, [], ◌∷◌,
  arith, count, leb, ◌==◌, if◌then◌else◌, Bool-cases,
}
use make_we_bet.Contracts.{correct_score, String, ◌===◌, to_text, selections}
use make_we_bet.Contracts.Text.Length.{len-concat, len-to_text_pos, len-to_text_many}
use make_we_bet.Scoring.Markets.{FinalResult, market_scorer, full_score}
use make_we_bet.Scoring.Markets.Partition.{winners}

holds_below : (ℕ → Bool) → ℕ → Bool
holds_below p zero = true
holds_below p (suc n) = if p n then holds_below p n else false

-- A test that was run for every number below a bound holds of each of them.
at_below : (p : ℕ → Bool) (x n : ℕ) → x < n → holds_below p n ≡ true → p x ≡ true
unfolding holds_below
at_below p x zero below h = absurd (omega arith)
at_below p x (suc n) below h = ground (arith, at_below p x n)

abbrev line_winners : ℕ → ℕ → ℕ
line_winners h a = count (λ s. s === full_score h a) (selections correct_score)

one_line : holds_below (λ h. holds_below (λ a. line_winners h a == 1) 10) 10 ≡ true
unfolding holds_below full_score to_text selections
one_line = refl

line_winners-digits : (h a : ℕ) → h < 10 → a < 10 → line_winners h a ≡ 1
line_winners-digits h a p q =
    let row : holds_below (λ b. line_winners h b == 1) 10 ≡ true =
      at_below (λ k. holds_below (λ b. line_winners k b == 1) 10) h 10 p one_line in
    let e : (line_winners h a == 1) ≡ true = at_below (λ b. line_winners h b == 1) a 10 q row in
    ground (arith, e)

abbrev all_of_length : ℕ → List String → Bool
all_of_length n [] = true
all_of_length n (s ∷ ss) = (len s == n) && all_of_length n ss

three_each : all_of_length 3 (selections correct_score) ≡ true
unfolding selections
three_each = refl

-- A text of another length is none of them.
count_of_length :
    (n : ℕ) (w : String) (ss : List String)
    → all_of_length n ss ≡ true
    → len w ≢ n
    → count (λ s. s === w) ss ≡ 0
count_of_length n w [] h ne = refl
count_of_length n w (s ∷ ss) h ne = elim (Bool-cases (s === w)) [
  | inl e ↦ absurd (ne (ground (arith, ap len ((eq_iff s w).0 e))))
  | inr e ↦ rw e (omega (arith, count_of_length n w ss (ground arith) ne))
]

len-full_score : (h a : ℕ) → len (full_score h a) ≡ len (to_text h) + (1 + len (to_text a))
unfolding full_score
len-full_score h a = rw (len-concat (to_text h), len-concat "-" (to_text a))

line_winners-long : (h a : ℕ) → 4 ≤ len (full_score h a) → line_winners h a ≡ 0
line_winners-long h a long =
    count_of_length 3 (full_score h a) (selections correct_score) three_each (omega arith)

pub winners-correct_score :
    (r : FinalResult)
    → winners correct_score r ≡ (if leb r.home_goals 9 && leb r.away_goals 9 then 1 else 0)
unfolding market_scorer
winners-correct_score r = elim (Bool-cases (leb r.home_goals 9)) [
  | inl p ↦ elim (Bool-cases (leb r.away_goals 9)) [
    | inl q ↦
        rw (p, q) (line_winners-digits r.home_goals r.away_goals (ground arith) (ground arith))
    | inr q ↦
        rw (p, q)
          (line_winners-long r.home_goals r.away_goals (
            let many : 10 ≤ r.away_goals = ground arith in
            omega (
              arith,
              len-full_score r.home_goals r.away_goals,
              len-to_text_pos r.home_goals,
              len-to_text_many r.away_goals many,
            )))
  ]
  | inr p ↦ rw p (
      line_winners-long r.home_goals r.away_goals (
        let many : 10 ≤ r.home_goals = ground arith in
        omega (
          arith,
          len-full_score r.home_goals r.away_goals,
          len-to_text_many r.home_goals many,
          len-to_text_pos r.away_goals,
        )))
]
