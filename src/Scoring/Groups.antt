-- ===== src/Scoring/Groups.antt =====
-- What the updates of the groups of ScoringService do to one prediction.
use mathlib.Core.Path.{subst}
use make_we_bet.Prelude.{
  ℕ, ◌≡◌, refl, sym, ◌∙◌, ap, inl, inr, Bool, true, false, ◌&&◌, none, some, List, [], ◌∷◌, arith,
  ◌==◌, if◌then◌else◌, Bool-cases, All, Table, lookup,
}
use make_we_bet.Contracts.{MarketType, market_eq, String, ◌===◌, market_eq→eq, ===→eq}
use make_we_bet.Scoring.Markets.{Scored}
use make_we_bet.Slip.{has}
use make_we_bet.Database.{Prediction}
use make_we_bet.Scoring.Service.{Group, is_pick, add_pick, group_picks, mark, mark_ids, mark_groups}

-- What the updates of the groups do to one row.
abbrev pub write_groups : ℕ → List Group → ℕ → Prediction → Prediction
write_groups now [] id p = p
write_groups now (g ∷ gs) id p =
    write_groups now gs id (if has id g.ids then mark now g.outcome p else p)

-- To every row of a table.
abbrev pub each : (ℕ → Prediction → Prediction) → Table Prediction → Table Prediction
each f [] = []
each f ((id, p) ∷ t) = (id, f id p) ∷ each f t

each-each :
    (f g : ℕ → Prediction → Prediction) (t : Table Prediction)
    → each f (each g t) ≡ each (λ id p. f id (g id p)) t
each-each f g [] = refl
each-each f g ((id, p) ∷ t) = rw (each-each f g t)

mark_ids-each :
    (now : ℕ) (s : Scored) (ids : List ℕ) (t : Table Prediction)
    → mark_ids now s ids t ≡ each (λ id p. if has id ids then mark now s p else p) t
mark_ids-each now s ids [] = refl
mark_ids-each now s ids ((id, p) ∷ t) = rw (mark_ids-each now s ids t)

each-id : (t : Table Prediction) → t ≡ each (λ id p. p) t
each-id [] = refl
each-id ((id, p) ∷ t) = ap (λ u. (id, p) ∷ u) (each-id t)

pub mark_groups-each :
    (now : ℕ) (gs : List Group) (t : Table Prediction)
    → mark_groups now gs t ≡ each (write_groups now gs) t
mark_groups-each now [] t = each-id t
mark_groups-each now (g ∷ gs) t =
    mark_groups-each now gs (mark_ids now g.outcome g.ids t)
    ∙ ap (each (write_groups now gs)) (mark_ids-each now g.outcome g.ids t)
    ∙ each-each (write_groups now gs) (λ id p. if has id g.ids then mark now g.outcome p else p) t

-- A pick of another row changes nothing for this one.
write_groups-add_other :
    (now : ℕ) (score : MarketType → String → Scored) (i : ℕ) (p : Prediction) (gs : List Group)
    (id : ℕ) (q : Prediction)
    → (i == id) ≡ false
    → write_groups now (add_pick score i p gs) id q ≡ write_groups now gs id q
write_groups-add_other now score i p [] id q other = rw other
write_groups-add_other now score i p (g ∷ gs) id q other = elim (Bool-cases (is_pick p g)) [
  | inl e ↦
      let r : write_groups now (record g { ids = i ∷ g.ids } ∷ gs) id q
          ≡ write_groups now (g ∷ gs) id q =
        rw other in
      rw e r
  | inr e ↦ rw e (write_groups-add_other now score i p gs id _ other)
]

-- The ids of a table's rows are distinct.
abbrev pub HasDistinctIds : Table Prediction → Type 0
HasDistinctIds [] = Unit
HasDistinctIds ((id, _) ∷ t) = (lookup id t ≡ none) × HasDistinctIds t

and_parts : (a b : Bool) → (a && b) ≡ true → (a ≡ true) × (b ≡ true)
and_parts true b h = (refl, h)
and_parts false b h = cc h

module _ (now : ℕ) (score : MarketType → String → Scored) where
  abbrev pub scored_as : Prediction → Prediction → Prediction
  scored_as p q = mark now (score p.market_type p.selection) q

  abbrev pub IsScored : List Group → Type 0
  IsScored gs = All (λ g. g.outcome ≡ score g.market_type g.selection) gs

  abbrev pub IsAbsent : ℕ → List Group → Type 0
  IsAbsent id gs = All (λ g. has id g.ids ≡ false) gs

  write_groups-IsAbsent :
      (gs : List Group) (id : ℕ) (q : Prediction) → IsAbsent id gs → write_groups now gs id q ≡ q
  write_groups-IsAbsent [] id q a = refl
  write_groups-IsAbsent (g ∷ gs) id q (a, as') = rw a (write_groups-IsAbsent gs id q as')

  is_pick-outcome :
      (p : Prediction) (g : Group)
      → is_pick p g ≡ true
      → g.outcome ≡ score g.market_type g.selection
      → g.outcome ≡ score p.market_type p.selection
  is_pick-outcome p g h s =
      let (m, t) =
        and_parts (market_eq g.market_type p.market_type) (g.selection === p.selection) h in
      let e : g.market_type ≡ p.market_type = market_eq→eq g.market_type p.market_type m in
      let f : g.selection ≡ p.selection = ===→eq g.selection p.selection t in cc (s, e, f)

  write_groups-add_own :
      (i : ℕ) (p : Prediction) (gs : List Group) (q : Prediction)
      → IsScored gs
      → IsAbsent i gs
      → write_groups now (add_pick score i p gs) i q ≡ scored_as p q
  write_groups-add_own i p [] q s a = let e : (i == i) ≡ true = ground arith in rw e
  write_groups-add_own i p (g ∷ gs) q (s, ss) (a, as') = elim (Bool-cases (is_pick p g)) [
    | inl e ↦
        let same : (i == i) ≡ true = ground arith in
        let r : write_groups now (record g { ids = i ∷ g.ids } ∷ gs) i q ≡ scored_as p q =
          rw (same, is_pick-outcome p g e s) (write_groups-IsAbsent gs i (scored_as p q) as') in
        rw e r
    | inr e ↦
        let r : write_groups now (add_pick score i p gs) i
              (if has i g.ids then mark now g.outcome q else q)
            ≡ scored_as p q =
          rw a (write_groups-add_own i p gs q ss as') in
        rw e r
  ]

  add_pick-IsScored :
      (i : ℕ) (p : Prediction) (gs : List Group) → IsScored gs → IsScored (add_pick score i p gs)
  add_pick-IsScored i p [] s = (refl, tt)
  add_pick-IsScored i p (g ∷ gs) (s, ss) = elim (Bool-cases (is_pick p g)) [
    | inl e ↦ rw e (s, ss)
    | inr e ↦ rw e (s, add_pick-IsScored i p gs ss)
  ]

  add_pick-IsAbsent :
      (i : ℕ) (p : Prediction) (gs : List Group) (id : ℕ)
      → (i == id) ≡ false
      → IsAbsent id gs
      → IsAbsent id (add_pick score i p gs)
  add_pick-IsAbsent i p [] id other a = (rw other refl, tt)
  add_pick-IsAbsent i p (g ∷ gs) id other (a, as') = elim (Bool-cases (is_pick p g)) [
    | inl e ↦ rw e (rw other a, as')
    | inr e ↦ rw e (a, add_pick-IsAbsent i p gs id other as')
  ]

  -- A row that is not picked stays as the groups before left it.
  pub write_groups-unpicked :
      (ps : List (ℕ × Prediction)) (gs : List Group) (id : ℕ) (q : Prediction)
      → lookup id ps ≡ none
      → write_groups now (group_picks score ps gs) id q ≡ write_groups now gs id q
  write_groups-unpicked [] gs id q h = refl
  write_groups-unpicked ((i, p) ∷ ps) gs id q h = elim (Bool-cases (i == id)) [
    | inl e ↦ absurd (let h' : some p ≡ none = rw e at h in cc h')
    | inr e ↦
        write_groups-unpicked ps (add_pick score i p gs) id q (rw e at h)
        ∙ write_groups-add_other now score i p gs id q e
  ]

  -- A row that is picked is scored by its own pick.
  pub write_groups-picked :
      (ps : List (ℕ × Prediction)) (gs : List Group) (id : ℕ) (p q : Prediction)
      → HasDistinctIds ps
      → IsScored gs
      → IsAbsent id gs
      → lookup id ps ≡ some p
      → write_groups now (group_picks score ps gs) id q ≡ scored_as p q
  write_groups-picked [] gs id p q d s a h = cc h
  write_groups-picked ((i, r) ∷ ps) gs id p q (new, d) s a h = elim (Bool-cases (i == id)) [
    | inl e ↦
        let same : i ≡ id = ground arith in
        let h' : some r ≡ some p = rw e at h in
        let is_r : r ≡ p = cc h' in
        write_groups-unpicked ps (add_pick score i r gs) id q (rw same at new)
        ∙ subst (λ k. write_groups now (add_pick score i r gs) k q ≡ scored_as p q) same
            (subst (λ x. write_groups now (add_pick score i r gs) i q ≡ scored_as x q) is_r
              (write_groups-add_own i r gs q s (subst (λ k. IsAbsent k gs) (sym same) a)))
    | inr e ↦
        write_groups-picked ps (add_pick score i r gs) id p q d (add_pick-IsScored i r gs s)
          (add_pick-IsAbsent i r gs id e a) (rw e at h)
  ]
