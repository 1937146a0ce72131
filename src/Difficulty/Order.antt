-- ===== src/Difficulty/Order.antt =====
-- A fixture that is harder to predict has no fewer stars.
use make_we_bet.Prelude.{◌≤◌, ◌≡◌, refl, arith, Bool-cases, inl, inr, [], ◌∷◌, ◌==◌}
use make_we_bet.Difficulty.Double.{Number, plus, times, over}
use make_we_bet.Difficulty.Rounding.{plus_mono, times_mono}
use make_we_bet.Difficulty.{
  SignalName, Signals, Weights, weight_of, has_weight, weight_sum_from, score_from, weighted_score,
  score_to_stars,
}

-- The same signals, none of them smaller in the second.
pub data NoneSmaller : Signals → Signals → Type 0 where
  no_signal : NoneSmaller [] []
  signal :
      {r r' : Number} {signals signals' : Signals} (k : SignalName)
      → r ≤ r'
      → NoneSmaller signals signals'
      → NoneSmaller ((k, r) ∷ signals) ((k, r') ∷ signals')

has_weight-NoneSmaller :
    (ws : Weights) {signals signals' : Signals}
    → NoneSmaller signals signals'
    → NoneSmaller (has_weight ws signals) (has_weight ws signals')
has_weight-NoneSmaller ws no_signal = no_signal
has_weight-NoneSmaller ws (signal k h below) = elim (Bool-cases (weight_of k ws == 0)) [
  | inl without ↦ rw without (has_weight-NoneSmaller ws below)
  | inr with_weight ↦ rw with_weight (signal k h (has_weight-NoneSmaller ws below))
]

-- Their weights are the same.
weight_sum_same :
    (s : Number) (ws : Weights) {signals signals' : Signals}
    → NoneSmaller signals signals'
    → weight_sum_from s signals ws ≡ weight_sum_from s signals' ws
unfolding weight_sum_from
weight_sum_same s ws no_signal = refl
weight_sum_same s ws (signal k h below) = weight_sum_same (plus s (weight_of k ws)) ws below

score_mono :
    (total s s' : Number) (ws : Weights) {signals signals' : Signals}
    → s ≤ s'
    → NoneSmaller signals signals'
    → score_from total s signals ws ≤ score_from total s' signals' ws
unfolding score_from
score_mono total s s' ws h no_signal = h
score_mono total s s' ws h (signal {r} {r'} k le below) =
    let w = over (weight_of k ws) total in
    score_mono total (plus s (times r w)) (plus s' (times r' w)) ws (plus_mono h (times_mono w le))
      below

weighted_score_mono :
    (ws : Weights) {signals signals' : Signals}
    → NoneSmaller signals signals'
    → weighted_score signals ws ≤ weighted_score signals' ws
unfolding weighted_score
weighted_score_mono ws {signals} {signals'} below =
    let kept = has_weight-NoneSmaller ws below in
    let total = weight_sum_from 0 (has_weight ws signals') ws in
    let e = weight_sum_same 0 ws kept in
    elim (Bool-cases (total == 0)) [
      | inl nothing ↦ rw (e, nothing) (omega arith)
      | inr something ↦ rw (e, something) (score_mono total 0 0 ws (omega arith) kept)
    ]

stars_mono : (a b : Number) → a ≤ b → score_to_stars a ≤ score_to_stars b
unfolding score_to_stars
stars_mono a b h = ground arith

-- Of two fixtures with the same signals present, the one that no signal calls less unpredictable has
-- no fewer stars, whatever the weights are and although every operation on the doubles rounds.
pub score_to_stars-weighted_score :
    (ws : Weights) {signals signals' : Signals}
    → NoneSmaller signals signals'
    → score_to_stars (weighted_score signals ws) ≤ score_to_stars (weighted_score signals' ws)
score_to_stars-weighted_score ws below = stars_mono _ _ (weighted_score_mono ws below)
