-- ===== src/Stats/Breakdown.antt =====
-- What the breakdown by market counts.
use mathlib.Core.Path.{ap₂}
use make_we_bet.Prelude.{
  ℕ, suc, ◌+◌, ◌≡◌, refl, ap, arith, Bool, true, false, ◌&&◌, List, [], ◌∷◌, inl, inr, Bool-cases,
  count, if◌then◌else◌,
}
use make_we_bet.Contracts.{MarketType, market_eq, market_eq→eq}
use make_we_bet.Database.{Entry, Tally}
use make_we_bet.Stats.{ScoredPick, bump, market_breakdown_from, stats_of}

-- What a breakdown says of a market: nothing counted if the market is not there.
abbrev pub tally_of : MarketType → List (MarketType × Tally) → ℕ × ℕ
tally_of m [] = (0, 0)
tally_of m ((k, t) ∷ ts) = if market_eq k m then (t.total, t.correct) else tally_of m ts

-- The picks of a market, and the correct ones of them.
abbrev pub picks_on : MarketType → List ScoredPick → ℕ × ℕ
picks_on m ps = (
  count (λ p. market_eq p.market_type m) ps,
  count (λ p. market_eq p.market_type m && p.is_correct) ps,
)

bump_other :
    (m k : MarketType) (correct : Bool) (b : List (MarketType × Tally))
    → market_eq k m ≡ false
    → tally_of m (bump market_eq k correct b) ≡ tally_of m b
bump_other m k correct [] h = rw h refl
bump_other m k correct ((j, t) ∷ b) h = elim (Bool-cases (market_eq j k)) [
  | inl same ↦
      let e = market_eq→eq j k same in let h' : market_eq j m ≡ false = rw e h in rw (same, h') refl
  | inr other ↦ elim (Bool-cases (market_eq j m)) [
    | inl here ↦ rw (other, here) refl
    | inr there ↦ rw (other, there) (bump_other m k correct b h)
  ]
]

-- Counting a pick of a market adds one to what the breakdown says of it.
bump_own :
    (m k : MarketType) (correct : Bool) (b : List (MarketType × Tally))
    → market_eq k m ≡ true
    → tally_of m (bump market_eq k correct b)
      ≡ (suc (tally_of m b).0, (tally_of m b).1 + (if correct then 1 else 0))
bump_own m k correct [] h = rw h (ap (λ n. (1, n)) (omega arith))
bump_own m k correct ((j, t) ∷ b) h = elim (Bool-cases (market_eq j k)) [
  | inl same ↦ let h' : market_eq j m ≡ true = rw (market_eq→eq j k same) h in rw (same, h') refl
  | inr other ↦
      let other' : market_eq j m ≡ false = rw (market_eq→eq k m h) at other in
      rw (other, other') (bump_own m k correct b h)
]

breakdown_from :
    (m : MarketType) (b : List (MarketType × Tally)) (ps : List ScoredPick)
    → ((tally_of m (market_breakdown_from b ps)).0 ≡ (tally_of m b).0 + (picks_on m ps).0)
      × ((tally_of m (market_breakdown_from b ps)).1 ≡ (tally_of m b).1 + (picks_on m ps).1)
breakdown_from m b [] = (omega arith, omega arith)
breakdown_from m b (p ∷ ps) =
    let (all, right) = breakdown_from m (bump market_eq p.market_type p.is_correct b) ps in
    elim (Bool-cases (market_eq p.market_type m)) [
      | inl own ↦
          let o = bump_own m p.market_type p.is_correct b own in
          let o0 = ap (λ x. x.0) o in
          let o1 = ap (λ x. x.1) o in rw own (omega (arith, all, o0), grind (arith, right, o1))
      | inr other ↦
          let o = bump_other m p.market_type p.is_correct b other in
          let o0 = ap (λ x. x.0) o in
          let o1 = ap (λ x. x.1) o in rw other (omega (arith, all, o0), omega (arith, right, o1))
    ]

-- For every market, the breakdown by market counts the predictions on it, all and the correct ones.
pub stats_of-market_breakdown :
    (es : List Entry) (ps : List ScoredPick) (m : MarketType)
    → tally_of m (stats_of es ps).market_breakdown ≡ picks_on m ps
unfolding stats_of
stats_of-market_breakdown es ps m =
    let (all, right) = breakdown_from m [] ps in
    ap₂ (λ x y. (x, y)) (omega (arith, all)) (omega (arith, right))
