-- ===== src/Scoring/Grouping.antt =====
-- Writing each group of identical picks at once is the same as scoring every prediction by itself.
use mathlib.Core.Path.{subst}
use make_we_bet.Prelude.{
  lookup-select-none, ℕ, ◌≡◌, refl, sym, ◌∙◌, inl, inr, Bool, true, none, some, [], ◌∷◌, arith,
  ◌==◌, if◌then◌else◌, Bool-cases, All, Table, lookup, select, update_all,
}
use make_we_bet.Contracts.{MarketType, String}
use make_we_bet.Scoring.Markets.{Scored}
use make_we_bet.Database.{Prediction}
use make_we_bet.Scoring.Service.{group_picks, mark, mark_groups}
use make_we_bet.Scoring.Groups.{
  HasDistinctIds, write_groups, each, mark_groups-each, write_groups-unpicked, write_groups-picked,
}

lookup-select-some :
    (f : Prediction → Bool) (t : Table Prediction) (id : ℕ) (p : Prediction)
    → HasDistinctIds t
    → lookup id t ≡ some p
    → lookup id (select f t) ≡ (if f p then some p else none)
lookup-select-some f [] id p d h = cc h
lookup-select-some f ((j, v) ∷ t) id p (new, d) h = elim (Bool-cases (j == id)) [
  | inl e ↦
      let h' : some v ≡ some p = rw e at h in
      let is_v : v ≡ p = cc h' in
      let same : j ≡ id = ground arith in
      subst (λ x. lookup id (select f ((j, v) ∷ t)) ≡ (if f x then some x else none)) is_v
        (elim (Bool-cases (f v)) [
          | inl y ↦ rw (y, e)
          | inr n ↦ rw n (lookup-select-none f t id (rw same at new))
        ])
  | inr e ↦ elim (Bool-cases (f v)) [
    | inl y ↦ rw (y, e) (lookup-select-some f t id p d (rw e at h))
    | inr n ↦ rw n (lookup-select-some f t id p d (rw e at h))
  ]
]

select-HasDistinctIds :
    (f : Prediction → Bool) (t : Table Prediction) → HasDistinctIds t → HasDistinctIds (select f t)
select-HasDistinctIds f [] d = tt
select-HasDistinctIds f ((j, v) ∷ t) (new, d) = elim (Bool-cases (f v)) [
  | inl y ↦ rw y (lookup-select-none f t j new, select-HasDistinctIds f t d)
  | inr n ↦ rw n (select-HasDistinctIds f t d)
]

IsRow : Table Prediction → ℕ × Prediction → Type 0
IsRow t r = lookup r.0 t ≡ some r.1

IsRow-cons :
    (j : ℕ) (v : Prediction) (t u : Table Prediction)
    → lookup j t ≡ none
    → All (IsRow t) u
    → All (IsRow ((j, v) ∷ t)) u
unfolding IsRow
IsRow-cons j v t [] new rows = tt
IsRow-cons j v t ((i, p) ∷ u) new (row, rows) = elim (Bool-cases (j == i)) [
  | inl e ↦
      let same : j ≡ i = ground arith in
      absurd (let h : none ≡ some p = sym (rw same at new) ∙ row in cc h)
  | inr e ↦ (rw e row, IsRow-cons j v t u new rows)
]

rows-of : (t : Table Prediction) → HasDistinctIds t → All (IsRow t) t
unfolding IsRow
rows-of [] d = tt
rows-of ((j, v) ∷ t) (new, d) =
    let same : (j == j) ≡ true = ground arith in
    (rw same refl, IsRow-cons j v t t new (rows-of t d))

module _ (now : ℕ) (score : MarketType → String → Scored) (f : Prediction → Bool) where
  abbrev pub score_if : Prediction → Prediction
  score_if p = mark now (score p.market_type p.selection) p

  write_groups-row :
      (t : Table Prediction) (id : ℕ) (p : Prediction)
      → HasDistinctIds t
      → lookup id t ≡ some p
      → write_groups now (group_picks score (select f t) []) id p ≡ (if f p then score_if p else p)
  write_groups-row t id p d h = elim (Bool-cases (f p)) [
    | inl y ↦ rw y (
        write_groups-picked now score (select f t) [] id p p (select-HasDistinctIds f t d) tt tt
          (lookup-select-some f t id p d h ∙ rw y))
    | inr n ↦ rw n (
        write_groups-unpicked now score (select f t) [] id p
          (lookup-select-some f t id p d h ∙ rw n))
  ]

  each-rows :
      (t u : Table Prediction)
      → HasDistinctIds t
      → All (IsRow t) u
      → each (write_groups now (group_picks score (select f t) [])) u ≡ update_all f score_if u
  unfolding IsRow
  each-rows t [] d rows = refl
  each-rows t ((id, p) ∷ u) d (row, rows) = rw (write_groups-row t id p d row, each-rows t u d rows)

  -- In a table with distinct ids, grouping the picked predictions by market and selection, scoring
  -- each group once and writing each group at once leaves every row as scoring every picked
  -- prediction by itself does, for every scorer and every choice of the picked predictions.
  pub mark_groups-update_all :
      (t : Table Prediction)
      → HasDistinctIds t
      → mark_groups now (group_picks score (select f t) []) t ≡ update_all f score_if t
  mark_groups-update_all t d =
      mark_groups-each now (group_picks score (select f t) []) t ∙ each-rows t t d (rows-of t d)
