-- ===== src/Settings/Rules.antt =====
-- What the check of a rule set's body means.
use make_we_bet.Prelude.{
  ◌∙◌, ℕ, ◌+◌, ◌≤◌, ◌≡◌, ◌↔◌, refl, arith, true, [], ◌∷◌, any, length, count, if◌then◌else◌, inl,
  inr, Bool-cases,
}
use make_we_bet.Contracts.{
  MarketType, match_winner, double_chance, over_under_25, btts, first_half_winner,
  first_team_to_score, winning_margin, clean_sheet, exact_goals, correct_score, market_eq,
}
use make_we_bet.Settings.Admin.{Rules, distinct_markets, has_all_markets}

-- How many rules name the market.
abbrev pub rules_for : MarketType → Rules → ℕ
rules_for m rules = count (λ (n, q). market_eq n m) rules

-- One for a market that is named, however often.
abbrev named : MarketType → Rules → ℕ
named m rules = if any (λ (n, q). market_eq n m) rules then 1 else 0

named_le : (m : MarketType) (rules : Rules) → named m rules ≤ rules_for m rules
named_le m [] = omega arith
named_le m ((n, q) ∷ rules) = elim (Bool-cases (market_eq n m)) [
  | inl e ↦ rw e (omega arith)
  | inr e ↦ rw e (omega (arith, named_le m rules))
]

named_le_one : (m : MarketType) (rules : Rules) → named m rules ≤ 1
named_le_one m rules = ground arith

-- A market that is not named yet counts.
named_before :
    (m : MarketType) (rules : Rules)
    → (if any (λ (n, q). market_eq n m) rules then 0 else 1) + named m rules ≡ 1
named_before m rules = ground arith

-- One rule names the market.
named_one : (m : MarketType) (rules : Rules) → rules_for m rules ≡ 1 → named m rules ≡ 1
named_one m [] h = absurd (omega (arith, h))
named_one m ((n, q) ∷ rules) h = elim (Bool-cases (market_eq n m)) [
  | inl e ↦ rw e refl
  | inr e ↦ rw e (named_one m rules (let h' = rw e at h in omega (arith, h')))
]

-- The sum of a number over the ten markets.
abbrev over_markets : (MarketType → ℕ) → ℕ
over_markets f =
    f match_winner
    + f double_chance
    + f over_under_25
    + f btts
    + f first_half_winner
    + f first_team_to_score
    + f winning_margin
    + f clean_sheet
    + f exact_goals
    + f correct_score

length-over_markets : (rules : Rules) → length rules ≡ over_markets (λ m. rules_for m rules)
length-over_markets [] = refl
length-over_markets ((match_winner, p) ∷ rules) = omega (arith, length-over_markets rules)
length-over_markets ((double_chance, p) ∷ rules) = omega (arith, length-over_markets rules)
length-over_markets ((over_under_25, p) ∷ rules) = omega (arith, length-over_markets rules)
length-over_markets ((btts, p) ∷ rules) = omega (arith, length-over_markets rules)
length-over_markets ((first_half_winner, p) ∷ rules) = omega (arith, length-over_markets rules)
length-over_markets ((first_team_to_score, p) ∷ rules) = omega (arith, length-over_markets rules)
length-over_markets ((winning_margin, p) ∷ rules) = omega (arith, length-over_markets rules)
length-over_markets ((clean_sheet, p) ∷ rules) = omega (arith, length-over_markets rules)
length-over_markets ((exact_goals, p) ∷ rules) = omega (arith, length-over_markets rules)
length-over_markets ((correct_score, p) ∷ rules) = omega (arith, length-over_markets rules)

distinct-over_markets : (rules : Rules) → distinct_markets rules ≡ over_markets (λ m. named m rules)
distinct-over_markets [] = omega arith
distinct-over_markets ((match_winner, p) ∷ rules) =
    omega (arith, named_before match_winner rules, distinct-over_markets rules)
distinct-over_markets ((double_chance, p) ∷ rules) =
    omega (arith, named_before double_chance rules, distinct-over_markets rules)
distinct-over_markets ((over_under_25, p) ∷ rules) =
    omega (arith, named_before over_under_25 rules, distinct-over_markets rules)
distinct-over_markets ((btts, p) ∷ rules) =
    omega (arith, named_before btts rules, distinct-over_markets rules)
distinct-over_markets ((first_half_winner, p) ∷ rules) =
    omega (arith, named_before first_half_winner rules, distinct-over_markets rules)
distinct-over_markets ((first_team_to_score, p) ∷ rules) =
    omega (arith, named_before first_team_to_score rules, distinct-over_markets rules)
distinct-over_markets ((winning_margin, p) ∷ rules) =
    omega (arith, named_before winning_margin rules, distinct-over_markets rules)
distinct-over_markets ((clean_sheet, p) ∷ rules) =
    omega (arith, named_before clean_sheet rules, distinct-over_markets rules)
distinct-over_markets ((exact_goals, p) ∷ rules) =
    omega (arith, named_before exact_goals rules, distinct-over_markets rules)
distinct-over_markets ((correct_score, p) ∷ rules) =
    omega (arith, named_before correct_score rules, distinct-over_markets rules)

checked-parts :
    (rules : Rules)
    → has_all_markets rules ≡ true
    → (length rules ≡ 10) × (distinct_markets rules ≡ 10)
unfolding has_all_markets
checked-parts rules h = ground arith

-- Each term is at most one, and so is exactly one.
one_of_each :
    (rules : Rules)
    → length rules ≡ 10
    → distinct_markets rules ≡ 10
    → (m : MarketType) → rules_for m rules ≡ 1
one_of_each rules l d match_winner =
    omega
      (arith, named_le, named_le_one, l, d, length-over_markets rules, distinct-over_markets rules)
one_of_each rules l d double_chance =
    omega
      (arith, named_le, named_le_one, l, d, length-over_markets rules, distinct-over_markets rules)
one_of_each rules l d over_under_25 =
    omega
      (arith, named_le, named_le_one, l, d, length-over_markets rules, distinct-over_markets rules)
one_of_each rules l d btts =
    omega
      (arith, named_le, named_le_one, l, d, length-over_markets rules, distinct-over_markets rules)
one_of_each rules l d first_half_winner =
    omega
      (arith, named_le, named_le_one, l, d, length-over_markets rules, distinct-over_markets rules)
one_of_each rules l d first_team_to_score =
    omega
      (arith, named_le, named_le_one, l, d, length-over_markets rules, distinct-over_markets rules)
one_of_each rules l d winning_margin =
    omega
      (arith, named_le, named_le_one, l, d, length-over_markets rules, distinct-over_markets rules)
one_of_each rules l d clean_sheet =
    omega
      (arith, named_le, named_le_one, l, d, length-over_markets rules, distinct-over_markets rules)
one_of_each rules l d exact_goals =
    omega
      (arith, named_le, named_le_one, l, d, length-over_markets rules, distinct-over_markets rules)
one_of_each rules l d correct_score =
    omega
      (arith, named_le, named_le_one, l, d, length-over_markets rules, distinct-over_markets rules)

ones : (f : MarketType → ℕ) → ((m : MarketType) → f m ≡ 1) → over_markets f ≡ 10
ones f one =
    rw
      (
        one match_winner,
        one double_chance,
        one over_under_25,
        one btts,
        one first_half_winner,
        one first_team_to_score,
        one winning_margin,
        one clean_sheet,
        one exact_goals,
        one correct_score,
      )
      refl

checked-of-parts :
    (rules : Rules) → length rules ≡ 10 → distinct_markets rules ≡ 10 → has_all_markets rules ≡ true
unfolding has_all_markets
checked-of-parts rules l d = rw (l, d) refl

-- A body passes the check exactly when it has one rule for each of the ten markets.
pub has_all_markets_iff :
    (rules : Rules) → (has_all_markets rules ≡ true) ↔ ((m : MarketType) → rules_for m rules ≡ 1)
has_all_markets_iff rules = (
  λ h. let (l, d) = checked-parts rules h in one_of_each rules l d,
  λ one.
      checked-of-parts rules (length-over_markets rules ∙ ones (λ m. rules_for m rules) one)
        (distinct-over_markets rules ∙ ones (λ m. named m rules) (λ m. named_one m rules (one m))),
)
