-- ===== src/Difficulty/Override.antt =====
-- What an administrator decided on a fixture's stars is kept.
use make_we_bet.Prelude.{
  ℕ, ◌≡◌, refl, ◌∙◌, Option, none, some, inl, inr, Bool-cases, lookup, insert, lookup-insert_self,
  lookup-insert_ne, Table, ◌==◌, arith,
}
use make_we_bet.Errors.{Result}
use make_we_bet.Database.{FixtureDifficulty, DifficultyWeightSet, Fixture, Db}
use make_we_bet.Entries.{stars_of}
use make_we_bet.Difficulty.{TeamFormInput, HeadToHead, DifficultyInput, compute_stars}
use make_we_bet.Difficulty.Service.{
  TeamKey, upserted, last_active, with_weights, with_fixture, compute_for_fixture,
}

upserted_override :
    (n set : ℕ) (o : Option FixtureDifficulty) {d : FixtureDifficulty}
    → o ≡ some d
    → (upserted n set o).override_stars ≡ d.override_stars
upserted_override n set none {d} e = cc
upserted_override n set (some c) e = cc

-- The row of `j` keeps its override.
KeepsOverride : ℕ → FixtureDifficulty → Table FixtureDifficulty → Type 0
KeepsOverride j d t =
    (d' : FixtureDifficulty) × (lookup j t ≡ some d') × (d'.override_stars ≡ d.override_stars)

store_override :
    (fixture n set j : ℕ) (t : Table FixtureDifficulty) {d : FixtureDifficulty}
    → lookup j t ≡ some d
    → KeepsOverride j d (insert fixture (upserted n set (lookup fixture t)) t)
unfolding KeepsOverride
store_override fixture n set j t {d} e = elim (Bool-cases (fixture == j)) [
  | inl same ↦
      let eq : j ≡ fixture = ground arith in
      let e' : lookup fixture t ≡ some d = rw eq at e in
      let u = upserted n set (lookup fixture t) in
      rw eq
        (u, lookup-insert_self fixture u t, upserted_override n set (lookup fixture t) {d = d} e')
  | inr other ↦
      (d, lookup-insert_ne fixture j (upserted n set (lookup fixture t)) t (ground arith) ∙ e, refl)
]

overridden :
    (j : ℕ) (t : Table FixtureDifficulty) {d : FixtureDifficulty} {stars : ℕ}
    → lookup j t ≡ some d
    → d.override_stars ≡ some stars
    → stars_of j t ≡ stars
overridden j t e o = rw e (rw o refl)

module _ (get_team_form : TeamKey → Result (Option TeamFormInput))
    (get_head_to_head : TeamKey → TeamKey → Result (Option HeadToHead)) where
  with_weights_override :
      (fixture j : ℕ) (i : DifficultyInput) (w : Option (ℕ × DifficultyWeightSet)) (db : Db)
      {d : FixtureDifficulty}
      → lookup j db.difficulties ≡ some d
      → KeepsOverride j d
          (with_weights get_team_form get_head_to_head fixture i w db).1.difficulties
  unfolding KeepsOverride
  with_weights_override fixture j i none db {d} e = (d, e, refl)
  with_weights_override fixture j i (some (set, w)) db e =
      store_override fixture (compute_stars i w.weights) set j db.difficulties e

  with_fixture_override :
      (fixture j : ℕ) (f : Option Fixture) (db : Db) {d : FixtureDifficulty}
      → lookup j db.difficulties ≡ some d
      → KeepsOverride j d (with_fixture get_team_form get_head_to_head fixture f db).1.difficulties
  unfolding KeepsOverride
  with_fixture_override fixture j none db {d} e = (d, e, refl)
  with_fixture_override fixture j (some f) db e =
      with_weights_override fixture j _ (last_active db.weight_sets) db e

  -- A fixture whose stars an administrator has overridden keeps the number that every entry's risk is
  -- computed with, whichever fixture is recomputed and whatever the provider answers.
  pub compute_for_fixture-stars_of :
      (fixture j : ℕ) (db : Db) {d : FixtureDifficulty} {stars : ℕ}
      → lookup j db.difficulties ≡ some d
      → d.override_stars ≡ some stars
      → stars_of j (compute_for_fixture get_team_form get_head_to_head fixture db).1.difficulties
        ≡ stars
  unfolding compute_for_fixture KeepsOverride
  compute_for_fixture-stars_of fixture j db e o =
      let (d', e', o') = with_fixture_override fixture j (lookup fixture db.fixtures) db e in
      overridden j _ e' (o' ∙ o)
