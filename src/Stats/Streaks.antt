-- ===== src/Stats/Streaks.antt =====
-- The streaks of a user are runs of won contests.
use mathlib.Core.Path.{subst}
use make_we_bet.Prelude.{
  ℕ, suc, ◌+◌, ◌≤◌, ◌≡◌, ◌⊎◌, refl, ap, sym, arith, max, true, false, List, [], ◌∷◌, ◌++◌, All, inl,
  inr, Bool-cases, ltb, length, if◌then◌else◌,
}
use make_we_bet.Database.{Entry}
use make_we_bet.Stats.{ScoredPick, stats_of, streaks_from, streaks}

-- The contest brought a prize.
abbrev pub Won : Entry → Type 0
Won e = ltb 0 e.prize_minor ≡ true

-- So many entries in a row are won.
pub record HasRun (es : List Entry) (n : ℕ) : Type 0 where
  pub earlier : List Entry
  pub run : List Entry
  pub later : List Entry
  pub parts : es ≡ earlier ++ (run ++ later)
  pub won : All Won run
  pub long : n ≡ length run

-- The last entries are so many won ones, and the one before them is not won.
pub record EndsAfterLoss (es : List Entry) (n : ℕ) : Type 0 where
  pub earlier : List Entry
  pub lost : Entry
  pub run : List Entry
  pub parts : es ≡ earlier ++ (lost ∷ run)
  pub is_lost : ltb 0 lost.prize_minor ≡ false
  pub won : All Won run
  pub long : n ≡ length run

-- All entries are won, or those since the last that is not.
abbrev pub EndsInRun : List Entry → ℕ → Type 0
EndsInRun es n = (All Won es × (n ≡ length es)) ⊎ EndsAfterLoss es n

shift-EndsAfterLoss :
    (e : Entry) {es : List Entry} {n : ℕ} → EndsAfterLoss es n → EndsAfterLoss (e ∷ es) n
shift-EndsAfterLoss e r = record {
  earlier = e ∷ r.earlier;
  lost = r.lost;
  run = r.run;
  parts = ap (λ xs. e ∷ xs) r.parts;
  is_lost = r.is_lost;
  won = r.won;
  long = r.long;
}

current_since :
    (c b : ℕ) (es : List Entry) {n : ℕ}
    → (streaks_from (c, b) es).0 ≡ n
    → (All Won es × (n ≡ c + length es)) ⊎ EndsAfterLoss es n
current_since c b [] h = inl (tt, omega (arith, h))
current_since c b (e ∷ es) {n} h = elim (Bool-cases (ltb 0 e.prize_minor)) [
  | inl w ↦
      let h' : (streaks_from (suc c, max b (suc c)) es).0 ≡ n = rw (w, streaks_from) at h in
      elim (current_since (suc c) (max b (suc c)) es h') [
        | inl (all, long) ↦ inl ((w, all), omega (arith, long))
        | inr r ↦ inr (shift-EndsAfterLoss e r)
      ]
  | inr l ↦
      let h' : (streaks_from (0, max b 0) es).0 ≡ n = rw (l, streaks_from) at h in
      elim (current_since 0 (max b 0) es h') [
        | inl (all, long) ↦ inr (record {
          earlier = [];
          lost = e;
          run = es;
          parts = refl;
          is_lost = l;
          won = all;
          long = omega (arith, long);
        })
        | inr r ↦ inr (shift-EndsAfterLoss e r)
      ]
]

-- The best streak never falls.
best_grows : (c b : ℕ) (es : List Entry) → b ≤ (streaks_from (c, b) es).1
best_grows c b [] = omega arith
best_grows c b (e ∷ es) =
    let next = if ltb 0 e.prize_minor then suc c else 0 in
    omega (arith, best_grows next (max b next) es)

-- A run that starts the list goes on the current one.
goes_on :
    (c b : ℕ) (run later : List Entry)
    → All Won run
    → c ≤ b
    → c + length run ≤ (streaks_from (c, b) (run ++ later)).1
goes_on c b [] later w h = omega (arith, best_grows c b later)
goes_on c b (e ∷ run) later (we, w) h =
    rw (we, streaks_from) (omega (arith, goes_on (suc c) (max b (suc c)) run later w (omega arith)))

run_bound :
    (c b : ℕ) (earlier run later : List Entry)
    → All Won run
    → c ≤ b
    → length run ≤ (streaks_from (c, b) (earlier ++ (run ++ later))).1
run_bound c b [] run later w h = omega (arith, goes_on c b run later w h)
run_bound c b (e ∷ earlier) run later w h =
    let next = if ltb 0 e.prize_minor then suc c else 0 in
    run_bound next (max b next) earlier run later w (omega arith)

-- A run at the start of the entries.
record StartsWith (es : List Entry) (n : ℕ) : Type 0 where
  run : List Entry
  later : List Entry
  parts : es ≡ run ++ later
  won : All Won run
  long : n ≡ length run

starts-HasRun : (e : Entry) {es : List Entry} {n : ℕ} → StartsWith es n → HasRun (e ∷ es) n
starts-HasRun e r = record {
  earlier = e ∷ [];
  run = r.run;
  later = r.later;
  parts = ap (λ xs. e ∷ xs) r.parts;
  won = r.won;
  long = r.long;
}

shift-HasRun : (e : Entry) {es : List Entry} {n : ℕ} → HasRun es n → HasRun (e ∷ es) n
shift-HasRun e r = record {
  earlier = e ∷ r.earlier;
  run = r.run;
  later = r.later;
  parts = ap (λ xs. e ∷ xs) r.parts;
  won = r.won;
  long = r.long;
}

-- The best streak is that of before, or the current one gone on, or one of the entries.
abbrev Reached : ℕ → ℕ → List Entry → ℕ → Type 0
Reached c b es n = (n ≡ b) ⊎ (((k : ℕ) × (n ≡ c + k) × StartsWith es k) ⊎ HasRun es n)

extended :
    (e : Entry) {es : List Entry} {k : ℕ} → Won e → StartsWith es k → StartsWith (e ∷ es) (suc k)
extended e w r = record {
  run = e ∷ r.run;
  later = r.later;
  parts = ap (λ xs. e ∷ xs) r.parts;
  won = (w, r.won);
  long = ap suc r.long;
}

single : (e : Entry) (es : List Entry) → Won e → StartsWith (e ∷ es) 1
single e es w = record { run = e ∷ []; later = es; parts = refl; won = (w, tt); long = refl }

after_win :
    (c b : ℕ) (e : Entry) (es : List Entry) {n : ℕ}
    → Won e
    → Reached (suc c) (max b (suc c)) es n
    → Reached c b (e ∷ es) n
after_win c b e es {n} w (inl same) = elim (Bool-cases (ltb b (suc c))) [
  | inl new ↦ inr (inl (1, ground arith, single e es w))
  | inr old ↦ inl (ground arith)
]
after_win c b e es w (inr (inl (k, long, r))) =
    inr (inl (suc k, omega (arith, long), extended e w r))
after_win c b e es w (inr (inr r)) = inr (inr (shift-HasRun e r))

after_loss :
    (c b : ℕ) (e : Entry) (es : List Entry) {n : ℕ}
    → Reached 0 (max b 0) es n
    → Reached c b (e ∷ es) n
after_loss c b e es (inl same) = inl (omega (arith, same))
after_loss c b e es {n} (inr (inl (k, long, r))) =
    let same : n ≡ k = omega (arith, long) in
    inr (inr (subst (HasRun (e ∷ es)) (sym same) (starts-HasRun e r)))
after_loss c b e es (inr (inr r)) = inr (inr (shift-HasRun e r))

best-Reached :
    (c b : ℕ) (es : List Entry) {n : ℕ} → (streaks_from (c, b) es).1 ≡ n → Reached c b es n
best-Reached c b [] h = inl (omega (arith, h))
best-Reached c b (e ∷ es) {n} h = elim (Bool-cases (ltb 0 e.prize_minor)) [
  | inl w ↦
      let h' : (streaks_from (suc c, max b (suc c)) es).1 ≡ n = rw (w, streaks_from) at h in
      after_win c b e es w (best-Reached (suc c) (max b (suc c)) es h')
  | inr l ↦
      let h' : (streaks_from (0, max b 0) es).1 ≡ n = rw (l, streaks_from) at h in
      after_loss c b e es (best-Reached 0 (max b 0) es h')
]

from_start : (es : List Entry) (n : ℕ) → Reached 0 0 es n → HasRun es n
from_start es n (inl none_) = record {
  earlier = [];
  run = [];
  later = es;
  parts = refl;
  won = tt;
  long = none_;
}
from_start es n (inr (inl (k, long, r))) = record {
  earlier = [];
  run = r.run;
  later = r.later;
  parts = r.parts;
  won = r.won;
  long = omega (arith, long, r.long);
}
from_start es n (inr (inr r)) = r

from_start-EndsInRun :
    (es : List Entry) {n : ℕ}
    → (All Won es × (n ≡ 0 + length es)) ⊎ EndsAfterLoss es n
    → EndsInRun es n
from_start-EndsInRun es (inl (all, long)) = inl (all, omega (arith, long))
from_start-EndsInRun es (inr r) = inr r

-- The best streak is the length of the longest run of won contests: there is a run of that length,
-- and none is longer. The current streak counts the contests won since the last that was not, or all
-- if each was won.
pub stats_of-streaks :
    (es : List Entry) (ps : List ScoredPick)
    → HasRun es (stats_of es ps).best_streak
      × ((n : ℕ) → HasRun es n → n ≤ (stats_of es ps).best_streak)
      × EndsInRun es (stats_of es ps).current_streak
unfolding stats_of streaks
stats_of-streaks es ps = (
  from_start es _ (best-Reached 0 0 es refl),
  λ n r.
      (let bound = run_bound 0 0 r.earlier r.run r.later r.won (omega arith) in
        let bound' : length r.run ≤ (streaks_from (0, 0) es).1 = rw r.parts bound in
        omega (arith, bound', r.long)),
  from_start-EndsInRun es (current_since 0 0 es refl),
)
