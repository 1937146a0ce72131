-- ===== src/Sports/Mapping.antt =====
-- What the mapping answers is consistent, and in the range that the difficulty engine expects.
use make_we_bet.Prelude.{
  ℕ, zero, suc, ◌+◌, ◌-◌, ◌≤◌, ◌<◌, ◌≡◌, ◌≢◌, ◌*◌, refl, sym, arith, Option, none, some, List, [],
  ◌∷◌, map, inl, inr, Bool-cases, ◌==◌, length, length-map, keep,
}
use make_we_bet.Contracts.{FirstToScore, home, away, neither, String, ◌===◌, to_text}
use make_we_bet.Difficulty.{FormResult, win, draw, loss, form_points, TeamFormInput, HeadToHead}
use make_we_bet.Sports.FootballData.{
  FdMatch, FdGoal, derive_first_to_score, first_of, scorer_of, first_goal, form_from_matches,
  team_form, tally_meeting, tally_meetings, h2h_from_matches, head_to_head_of, last_of, drop,
  result_for, no_meetings, if_any, is_against, winner_ref, or_zero, id_text,
}

-- The first scorer agrees with these goals.
abbrev pub Agrees : FirstToScore → ℕ → ℕ → Type 0
Agrees neither h a = (h ≡ 0) × (a ≡ 0)
Agrees home h a = 0 < h
Agrees away h a = 0 < a

-- A goal is of one of the two sides.
scorer_is_a_side : (m : FdMatch) (g : Option FdGoal) → scorer_of m g ≢ some neither
scorer_is_a_side m none e = cc e
scorer_is_a_side m (some g) e = elim (Bool-cases (to_text g.team_id === id_text m.home_team.id)) [
  | inl own ↦ let e' : some home ≡ some neither = rw own at e in cc e'
  | inr other ↦ let e' : some away ≡ some neither = rw other at e in cc e'
]

first_of-Agrees :
    (m : FdMatch) (h a : ℕ) (r : FirstToScore) → first_of m h a ≡ some r → Agrees r h a
first_of-Agrees m zero zero neither e = (refl, refl)
first_of-Agrees m zero zero home e = cc e
first_of-Agrees m zero zero away e = cc e
first_of-Agrees m (suc h) zero neither e = cc e
first_of-Agrees m (suc h) zero home e = omega arith
first_of-Agrees m (suc h) zero away e = cc e
first_of-Agrees m zero (suc a) neither e = cc e
first_of-Agrees m zero (suc a) home e = cc e
first_of-Agrees m zero (suc a) away e = omega arith
first_of-Agrees m (suc h) (suc a) neither e = absurd (scorer_is_a_side m (first_goal m.goals) e)
first_of-Agrees m (suc h) (suc a) home e = omega arith
first_of-Agrees m (suc h) (suc a) away e = omega arith

-- A first scorer that is derived agrees with the goals at full time: nobody scored first in a match
-- without goals alone, and the side that did has scored.
pub derive_first_to_score-Agrees :
    (m : FdMatch) (h a : ℕ) (r : FirstToScore)
    → m.full_time_home ≡ some h
    → m.full_time_away ≡ some a
    → derive_first_to_score m ≡ some r
    → Agrees r h a
unfolding derive_first_to_score
derive_first_to_score-Agrees m h a r eh ea e =
    first_of-Agrees m h a r (let e' : first_of m h a ≡ some r = rw (eh, ea) at e in e')

drop-length : {A : Type 0} (n : ℕ) (xs : List A) → length (drop n xs) ≡ length xs - n
drop-length zero xs = omega arith
drop-length (suc n) [] = omega arith
drop-length (suc n) (x ∷ xs) = omega (arith, drop-length n xs)

length-last_of : {A : Type 0} (n : ℕ) (xs : List A) → length (last_of n xs) ≤ n
length-last_of n xs = omega (arith, drop-length (length xs - n) xs)

form_points-le : (last5 : List FormResult) → form_points last5 ≤ 3 * length last5
form_points-le [] = omega arith
form_points-le (win ∷ rest) = omega (arith, form_points-le rest)
form_points-le (draw ∷ rest) = omega (arith, form_points-le rest)
form_points-le (loss ∷ rest) = omega (arith, form_points-le rest)

tally_all : HeadToHead → ℕ
tally_all t = t.home_wins + t.away_wins + t.draws

tally_meeting_lem :
    (home_ref : String) (t : HeadToHead) (m : FdMatch)
    → tally_all (tally_meeting home_ref t m) ≡ suc (tally_all t)
unfolding tally_all
tally_meeting_lem home_ref t m =
    elim (Bool-cases (or_zero m.full_time_home == or_zero m.full_time_away)) [
      | inl level ↦ rw level (omega arith)
      | inr decided ↦ elim (Bool-cases (winner_ref m === home_ref)) [
        | inl won ↦ rw (decided, won) (omega arith)
        | inr lost ↦ rw (decided, lost) (omega arith)
      ]
    ]

tally_meetings_lem :
    (home_ref : String) (t : HeadToHead) (ms : List FdMatch)
    → tally_all (tally_meetings home_ref t ms) ≡ tally_all t + length ms
tally_meetings_lem home_ref t [] = omega arith
tally_meetings_lem home_ref t (m ∷ ms) = omega (
  arith,
  tally_meetings_lem home_ref (tally_meeting home_ref t m) ms,
  tally_meeting_lem home_ref t m,
)

h2h_from_matches_lem :
    (home_ref : String) (ms : List FdMatch) → tally_all (h2h_from_matches home_ref ms) ≡ length ms
unfolding h2h_from_matches tally_all
h2h_from_matches_lem home_ref ms = omega (arith, tally_meetings_lem home_ref no_meetings ms)

if_any_lem :
    (home_ref : String) (ms : List FdMatch) (h : HeadToHead)
    → if_any home_ref ms ≡ some h
    → (tally_all h ≡ h.matches) × (h.matches ≡ length ms) × (0 < h.matches)
unfolding h2h_from_matches
if_any_lem home_ref [] h e = cc e
if_any_lem home_ref (m ∷ ms) h e =
    let eq : h2h_from_matches home_ref (m ∷ ms) ≡ h = cc e in
    rw (sym eq) (h2h_from_matches_lem home_ref (m ∷ ms), refl, omega arith)

-- The meetings of two teams that the adapter answers are at least one and at most ten, and each is a
-- win of one of them or a draw.
pub head_to_head_of-matches :
    (home_ref away_ref : String) (history : List FdMatch) (h : HeadToHead)
    → head_to_head_of home_ref away_ref history ≡ some h
    → (h.home_wins + h.away_wins + h.draws ≡ h.matches) × (0 < h.matches) × (h.matches ≤ 10)
unfolding head_to_head_of tally_all
head_to_head_of-matches home_ref away_ref history h e =
    let meetings = last_of 10 (keep (is_against away_ref) history) in
    let (sum, n, p) = if_any_lem home_ref meetings h e in
    (sum, p, omega (arith, n, length-last_of 10 (keep (is_against away_ref) history)))

-- A team's form is of five matches at most and earns at most the fifteen points that the engine
-- divides by.
pub team_form-form_points :
    (team : String) (matches : List FdMatch) (t : TeamFormInput)
    → team_form team matches ≡ some t
    → (length t.last5 ≤ 5) × (form_points t.last5 ≤ 15)
unfolding team_form form_from_matches
team_form-form_points team [] t e = cc e
team_form-form_points team (m ∷ ms) t e =
    let recent = last_of 5 (m ∷ ms) in
    let eq : form_from_matches team (m ∷ ms) ≡ t = cc e in
    let short = length-last_of 5 (m ∷ ms) in
    let n = length-map (result_for team) recent in
    rw (sym eq) (
      omega (arith, short, n),
      omega (arith, short, n, form_points-le (map (result_for team) recent)),
    )
