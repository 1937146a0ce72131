-- ===== src/Difficulty.antt =====
-- apps/api/src/modules/difficulty/difficulty-engine.ts: the stars of a fixture. Signals,
-- weights and scores are the doubles of the module Double, and every operation rounds as they do.
pub mod Double
pub mod Rounding
pub mod Order
pub mod Service
pub mod Override
use make_we_bet.Prelude.{
  ℕ, zero, suc, ◌+◌, ◌-◌, ◌*◌, min, max, Bool, ◌&&◌, not, Option, none, some, List, [], ◌∷◌, ◌++◌,
  ltb, leb, ◌==◌, if◌then◌else◌, length, sum_by, find?, ℤ, ◌-ℤ◌, pos_part, neg_part,
}
use make_we_bet.Difficulty.Double.{Number, plus, minus, times, over, literal}

pub data FormResult : Type 0 where
  win draw loss : FormResult

pub record TeamFormInput : Type 0 where
  pub last5 : List FormResult
  pub league_position : Option ℕ
  pub goal_difference : Option ℤ
  pub goals_scored_last5 : Option ℕ
  pub goals_conceded_last5 : Option ℕ
  pub injuries_count : Option ℕ
  pub suspensions_count : Option ℕ

pub record HeadToHead : Type 0 where
  pub home_wins : ℕ
  pub away_wins : ℕ
  pub draws : ℕ
  pub matches : ℕ

pub record DifficultyInput : Type 0 where
  pub home_form : Option TeamFormInput
  pub away_form : Option TeamFormInput
  pub head_to_head : Option HeadToHead
  pub home_win_rate : Option Number
  pub table_size : Option ℕ

pub data SignalName : Type 0 where
  form home_advantage league_position_signal goal_difference_signal : SignalName
  head_to_head_signal recent_goals defensive_record injuries suspensions historical : SignalName

abbrev signal_index : SignalName → ℕ
signal_index form = 0
signal_index home_advantage = 1
signal_index league_position_signal = 2
signal_index goal_difference_signal = 3
signal_index head_to_head_signal = 4
signal_index recent_goals = 5
signal_index defensive_record = 6
signal_index injuries = 7
signal_index suspensions = 8
signal_index historical = 9

abbrev pub Weights : Type 0
Weights = List (SignalName × Number)

abbrev pub Signals : Type 0
Signals = List (SignalName × Number)

-- `weights[k] ?? 0`
abbrev pub weight_of : SignalName → Weights → Number
weight_of k [] = 0
weight_of k ((j, w) ∷ ws) = if signal_index j == signal_index k then w else weight_of k ws

-- The distance of two numbers, `Math.abs(a - b)`.
abbrev distance : ℕ → ℕ → ℕ
distance a b = (a - b) + (b - a)

abbrev distance_ℤ : ℤ → ℤ → ℕ
distance_ℤ a b = pos_part (a -ℤ b) + neg_part (a -ℤ b)

-- `clamp01(1 - x)`: the difference stops at zero, and is at most one.
unfoldable pub one_minus : Number → Number
unfolding minus literal
one_minus x = minus (literal 1 1) x

-- `clamp01(x)`
unfoldable pub at_most_one : Number → Number
unfolding literal
at_most_one x = min (literal 1 1) x

-- `n / d`, of two whole numbers
unfoldable pub quotient : ℕ → ℕ → Number
unfolding over literal
quotient n d = over (literal n 1) (literal d 1)

abbrev form_point : FormResult → ℕ
form_point win = 3
form_point draw = 1
form_point loss = 0

abbrev pub form_points : List FormResult → ℕ
form_points last5 = sum_by form_point last5

-- Of two numbers, if both sides have theirs, how close they are on this span,
unfoldable pub closeness : ℕ → Option ℕ → Option ℕ → Option Number
unfolding one_minus quotient
closeness span none b = none
closeness span (some x) none = none
closeness span (some x) (some y) = some (one_minus (quotient (distance x y) span))

unfoldable pub closeness_ℤ : ℕ → Option ℤ → Option ℤ → Option Number
unfolding one_minus quotient
closeness_ℤ span none b = none
closeness_ℤ span (some x) none = none
closeness_ℤ span (some x) (some y) = some (one_minus (quotient (distance_ℤ x y) span))

-- and how large they are together.
unfoldable pub noise : ℕ → Option ℕ → Option ℕ → Option Number
unfolding at_most_one quotient
noise span none b = none
noise span (some x) none = none
noise span (some x) (some y) = some (at_most_one (quotient (x + y) span))

-- `home?.field`
abbrev pub field : {A : Type 0} → (TeamFormInput → Option A) → Option TeamFormInput → Option A
field get none = none
field get (some t) = get t

abbrev points_of_last5 : TeamFormInput → Option ℕ
points_of_last5 t = elim t.last5 [ [] ↦ none | r ∷ rs ↦ some (form_points (r ∷ rs)) ]

abbrev pub span_of : Option ℕ → ℕ
span_of none = max 2 19
span_of (some n) = max 2 (n - 1)

-- `Math.abs(a - b)` of two doubles, of which one difference is zero
abbrev apart : Number → Number → Number
apart a b = max (minus a b) (minus b a)

-- `clamp01(1 - Math.abs(rate - 0.5) * 2)`
unfoldable pub win_rate_signal : Option Number → Option Number
unfolding one_minus minus times literal
win_rate_signal none = none
win_rate_signal (some r) = some (one_minus (times (apart r (literal 1 2)) (literal 2 1)))

unfoldable pub dominance_signal : Option HeadToHead → Option Number
unfolding one_minus quotient
dominance_signal none = none
dominance_signal (some h) =
    if h.matches == 0
    then none
    else some (one_minus (quotient (distance h.home_wins h.away_wins) h.matches))

-- Each signal in turn, absent where its data are.
unfoldable pub optional_signals : DifficultyInput → List (SignalName × Option Number)
unfolding closeness closeness_ℤ noise win_rate_signal dominance_signal
optional_signals i =
    let home = i.home_form in
    let away = i.away_form in
    (form, closeness 15 (field points_of_last5 home) (field points_of_last5 away))
    ∷ (home_advantage, win_rate_signal i.home_win_rate)
    ∷ (
      league_position_signal,
      closeness (span_of i.table_size) (field (λ t. t.league_position) home)
          (field (λ t. t.league_position) away),
    )
    ∷ (
      goal_difference_signal,
      closeness_ℤ 30 (field (λ t. t.goal_difference) home) (field (λ t. t.goal_difference) away),
    )
    ∷ (head_to_head_signal, dominance_signal i.head_to_head)
    ∷ (
      recent_goals,
      closeness 10 (field (λ t. t.goals_scored_last5) home)
          (field (λ t. t.goals_scored_last5) away),
    )
    ∷ (
      defensive_record,
      closeness 10 (field (λ t. t.goals_conceded_last5) home)
          (field (λ t. t.goals_conceded_last5) away),
    )
    ∷ (injuries, noise 10 (field (λ t. t.injuries_count) home) (field (λ t. t.injuries_count) away))
    ∷ (
      suspensions,
      noise 6 (field (λ t. t.suspensions_count) home) (field (λ t. t.suspensions_count) away),
    )
    ∷ []

-- `if (…) signals.name = …`
abbrev pub gathered : List (SignalName × Option Number) → Signals
gathered [] = []
gathered ((k, none) ∷ rest) = gathered rest
gathered ((k, some r) ∷ rest) = (k, r) ∷ gathered rest

unfoldable pub compute_signals : DifficultyInput → Signals
unfolding optional_signals
compute_signals i = gathered (optional_signals i)

-- A signal without weight is filtered out.
abbrev pub has_weight : Weights → Signals → Signals
has_weight ws [] = []
has_weight ws ((k, r) ∷ signals) =
    let rest = has_weight ws signals in if weight_of k ws == 0 then rest else (k, r) ∷ rest

-- `present.reduce((s, k) => s + weights[k], s)`
unfoldable pub weight_sum_from : Number → Signals → Weights → Number
unfolding plus
weight_sum_from s [] ws = s
weight_sum_from s ((k, r) ∷ signals) ws = weight_sum_from (plus s (weight_of k ws)) signals ws

-- `present.reduce((s, k) => s + signals[k] * (weights[k] / total), s)`
unfoldable pub score_from : Number → Number → Signals → Weights → Number
unfolding plus times over
score_from total s [] ws = s
score_from total s ((k, r) ∷ signals) ws =
    score_from total (plus s (times r (over (weight_of k ws) total))) signals ws

-- Over the signals that are present; without any, one half.
unfoldable pub weighted_score : Signals → Weights → Number
unfolding weight_sum_from score_from literal
weighted_score signals ws =
    let present = has_weight ws signals in
    let total = weight_sum_from 0 present ws in
    if total == 0 then literal 1 2 else score_from total 0 present ws

unfoldable pub score_to_stars : Number → ℕ
unfolding literal
score_to_stars score =
    if ltb score (literal 2 10)
    then 1
    else if ltb score (literal 4 10)
    then 2
    else if ltb score (literal 6 10)
    then 3
    else if ltb score (literal 8 10)
    then 4
    else 5

unfoldable pub compute_stars : DifficultyInput → Weights → ℕ
unfolding compute_signals weighted_score score_to_stars
compute_stars i ws = score_to_stars (weighted_score (compute_signals i) ws)
