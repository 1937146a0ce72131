-- ===== src/Scoring/Markets/Partition.antt =====
-- Each market's selections divide the results among them.
use make_we_bet.Prelude.{
  ℕ, zero, suc, ◌+◌, ◌-◌, ◌<◌, ◌≡◌, refl, ◌⊎◌, inl, inr, Bool, true, false, arith, count, ltb, leb,
  ◌==◌, if◌then◌else◌, Bool-cases,
}
use make_we_bet.Contracts.{
  MarketType, match_winner, double_chance, over_under_25, btts, first_half_winner,
  first_team_to_score, winning_margin, clean_sheet, exact_goals, FirstToScore, home, away, neither,
  String, concat, ◌===◌, to_text, selections,
}
use make_we_bet.Scoring.Markets.{
  FinalResult, market_scorer, outcome, first_to_score_text, clean_sheet_text, total_text,
  margin_text, banded,
}

-- How many selections of a market are correct for a result.
abbrev pub winners : MarketType → FinalResult → ℕ
winners m r = count (λ s. market_scorer m s r) (selections m)

outcome_cases :
    (h a : ℕ) → (outcome h a ≡ "HOME") ⊎ ((outcome h a ≡ "DRAW") ⊎ (outcome h a ≡ "AWAY"))
unfolding outcome
outcome_cases h a = elim (Bool-cases (ltb a h)) [
  | inl p ↦ inl (rw p)
  | inr p ↦ elim (Bool-cases (ltb h a)) [
    | inl q ↦ inr (inr (rw (p, q)))
    | inr q ↦ inr (inl (rw (p, q)))
  ]
]

pub winners-match_winner : (r : FinalResult) → winners match_winner r ≡ 1
unfolding market_scorer selections
winners-match_winner r = elim (outcome_cases r.home_goals r.away_goals) [
  | inl e ↦ rw e
  | inr (inl e) ↦ rw e
  | inr (inr e) ↦ rw e
]

pub winners-double_chance : (r : FinalResult) → winners double_chance r ≡ 2
unfolding market_scorer selections
winners-double_chance r = elim (outcome_cases r.home_goals r.away_goals) [
  | inl e ↦ rw e
  | inr (inl e) ↦ rw e
  | inr (inr e) ↦ rw e
]

pub winners-over_under_25 : (r : FinalResult) → winners over_under_25 r ≡ 1
unfolding market_scorer selections
winners-over_under_25 r = ground arith

pub winners-btts : (r : FinalResult) → winners btts r ≡ 1
unfolding market_scorer selections
winners-btts r = ground arith

pub winners-first_half_winner : (r : FinalResult) → winners first_half_winner r ≡ 1
unfolding market_scorer selections
winners-first_half_winner r = elim (outcome_cases r.ht_home_goals r.ht_away_goals) [
  | inl e ↦ rw e
  | inr (inl e) ↦ rw e
  | inr (inr e) ↦ rw e
]

winners_of_side :
    (f : FirstToScore) (h a hh ha : ℕ)
    → winners first_team_to_score (record {
      home_goals = h;
      away_goals = a;
      ht_home_goals = hh;
      ht_away_goals = ha;
      first_to_score = f;
    })
      ≡ 1
unfolding market_scorer selections first_to_score_text
winners_of_side home h a hh ha = refl
winners_of_side away h a hh ha = refl
winners_of_side neither h a hh ha = refl

pub winners-first_team_to_score : (r : FinalResult) → winners first_team_to_score r ≡ 1
winners-first_team_to_score r =
    winners_of_side r.first_to_score r.home_goals r.away_goals r.ht_home_goals r.ht_away_goals

clean_sheet_cases :
    (h a : ℕ)
    → (clean_sheet_text h a ≡ "BOTH")
      ⊎ ((clean_sheet_text h a ≡ "HOME")
          ⊎ ((clean_sheet_text h a ≡ "AWAY") ⊎ (clean_sheet_text h a ≡ "NONE")))
unfolding clean_sheet_text
clean_sheet_cases h a = elim (Bool-cases (a == 0)) [
  | inl p ↦ elim (Bool-cases (h == 0)) [ inl q ↦ inl (rw (p, q)) | inr q ↦ inr (inl (rw (p, q))) ]
  | inr p ↦ elim (Bool-cases (h == 0)) [
    | inl q ↦ inr (inr (inl (rw (p, q))))
    | inr q ↦ inr (inr (inr (rw (p, q))))
  ]
]

pub winners-clean_sheet : (r : FinalResult) → winners clean_sheet r ≡ 1
unfolding market_scorer selections
winners-clean_sheet r = elim (clean_sheet_cases r.home_goals r.away_goals) [
  | inl e ↦ rw e
  | inr (inl e) ↦ rw e
  | inr (inr (inl e)) ↦ rw e
  | inr (inr (inr e)) ↦ rw e
]

total_text_many : (n : ℕ) → leb 5 n ≡ true → total_text n ≡ "5_PLUS"
unfolding total_text
total_text_many n h = rw h

banded_wide : (side : String) (n : ℕ) → leb 3 n ≡ true → banded side n ≡ concat side "_BY_3_PLUS"
unfolding banded
banded_wide side n h = rw h

-- Below five each total has its own text.
winners_of_total : (n : ℕ) → count (λ s. s === total_text n) (selections exact_goals) ≡ 1
unfolding total_text to_text selections
winners_of_total zero = refl
winners_of_total (suc zero) = refl
winners_of_total (suc (suc zero)) = refl
winners_of_total (suc (suc (suc zero))) = refl
winners_of_total (suc (suc (suc (suc zero)))) = refl
winners_of_total (suc (suc (suc (suc (suc n))))) =
    rw (total_text_many (suc (suc (suc (suc (suc n))))) (ground arith))

pub winners-exact_goals : (r : FinalResult) → winners exact_goals r ≡ 1
unfolding market_scorer selections
winners-exact_goals r = winners_of_total (r.home_goals + r.away_goals)

-- The text of a margin, by its side and its size.
winners_of_margin :
    (side : Bool) (margin : ℕ)
    → 0 < margin
    → count (λ s. s === banded (if side then "HOME" else "AWAY") margin) (selections winning_margin)
      ≡ 1
unfolding banded selections to_text
winners_of_margin side zero h = elim h [ ]
winners_of_margin true (suc zero) h = refl
winners_of_margin false (suc zero) h = refl
winners_of_margin true (suc (suc zero)) h = refl
winners_of_margin false (suc (suc zero)) h = refl
winners_of_margin true (suc (suc (suc n))) h =
    rw (banded_wide "HOME" (suc (suc (suc n))) (ground arith))
winners_of_margin false (suc (suc (suc n))) h =
    rw (banded_wide "AWAY" (suc (suc (suc n))) (ground arith))

pub winners-winning_margin : (r : FinalResult) → winners winning_margin r ≡ 1
unfolding market_scorer selections margin_text
winners-winning_margin r = elim (Bool-cases (r.home_goals == r.away_goals)) [
  | inl level ↦ rw level
  | inr apart ↦ rw apart (
      winners_of_margin (ltb r.away_goals r.home_goals)
        ((r.home_goals - r.away_goals) + (r.away_goals - r.home_goals)) (ground arith))
]
