-- ===== src/Difficulty/Service.antt =====
-- apps/api/src/modules/difficulty/difficulty.service.ts: the stars of a fixture are computed from
-- what the provider of sports data answers, and stored.
use make_we_bet.Prelude.{
  ℕ, ◌⊎◌, inl, inr, Option, none, some, List, [], ◌∷◌, Table, lookup, insert, if◌then◌else◌, find?,
  ◌==◌,
}
use make_we_bet.Errors.{Result, ok, err}
use make_we_bet.Contracts.{String}
use make_we_bet.Database.{
  FixtureDifficulty, DifficultyWeightSet, ProviderRef, Fixture, Db, Action, ◌>>=◌, ◌>>◌, return,
  tables, write,
}
use make_we_bet.Difficulty.{TeamFormInput, HeadToHead, DifficultyInput, compute_stars}

-- `team.providerRefs[0]?.providerRef ?? teamId`
abbrev pub TeamKey : Type 0
TeamKey = String ⊎ ℕ

abbrev pub ref_of : ℕ → List ProviderRef → TeamKey
ref_of id refs = elim (find? (λ r. r.target_id == id) refs) [
  | none ↦ inr id
  | some r ↦ inl r.provider_ref
]

-- `findFirst({ where: { isActive: true }, orderBy: { version: 'desc' } })`
abbrev pub last_active : Table DifficultyWeightSet → Option (ℕ × DifficultyWeightSet)
last_active [] = none
last_active ((id, w) ∷ t) = elim (last_active t) [
  | some later ↦ some later
  | none ↦ if w.is_active then some (id, w) else none
]

-- `undefined` for each part of an empty input.
abbrev pub no_input : DifficultyInput
no_input = record {
  home_form = none;
  away_form = none;
  head_to_head = none;
  home_win_rate = none;
  table_size = none;
}

abbrev pub input_of :
    Result (Option TeamFormInput)
    → Result (Option TeamFormInput)
    → Result (Option HeadToHead)
    → DifficultyInput
input_of (ok home) (ok away) (ok h2h) = record no_input {
  home_form = home;
  away_form = away;
  head_to_head = h2h;
}
input_of (ok home) (ok away) (err e) = no_input
input_of (ok home) (err e) h2h = no_input
input_of (err e) away h2h = no_input

-- `fixtureDifficulty.upsert`
abbrev pub upserted : ℕ → ℕ → Option FixtureDifficulty → FixtureDifficulty
upserted stars set none = record { stars = stars; override_stars = none; weight_set_id = set }
upserted stars set (some d) = record d { stars = stars; weight_set_id = set }

abbrev pub store_stars : ℕ → ℕ → ℕ → Action Unit
store_stars fixture stars set = write λ db. record db {
  difficulties =
      insert fixture (upserted stars set (lookup fixture db.difficulties)) db.difficulties;
}

-- The port's answers are parameters.
module _ (get_team_form : TeamKey → Result (Option TeamFormInput))
    (get_head_to_head : TeamKey → TeamKey → Result (Option HeadToHead)) where
  abbrev pub fixture_input : Fixture → Db → DifficultyInput
  fixture_input f db =
      let home = ref_of f.home_team_id db.team_refs in
      let away = ref_of f.away_team_id db.team_refs in
      input_of (get_team_form home) (get_team_form away) (get_head_to_head home away)

  abbrev pub with_weights :
      ℕ → DifficultyInput → Option (ℕ × DifficultyWeightSet) → Action (Option ℕ)
  with_weights fixture i none = return none
  with_weights fixture i (some (set, w)) = do
    let stars = compute_stars i w.weights
    store_stars fixture stars set
    return (some stars)

  abbrev pub with_fixture : ℕ → Option Fixture → Action (Option ℕ)
  with_fixture fixture none = return none
  with_fixture fixture (some f) = do
    db ← tables
    with_weights fixture (fixture_input f db) (last_active db.weight_sets)

  unfoldable pub compute_for_fixture : ℕ → Action (Option ℕ)
  compute_for_fixture fixture = do db ← tables; with_fixture fixture (lookup fixture db.fixtures)
