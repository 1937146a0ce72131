-- ===== src/Settings/Versions.antt =====
-- The active version of a table of versions: what the rule sets and the weight sets of
-- apps/api/src/modules/admin/settings-admin.controller.ts have in common.
use make_we_bet.Prelude.{
  ℕ, ◌≡◌, refl, sym, ap, ==→eq, arith, Bool, true, false, Option, none, some, [], ◌∷◌, inl, inr,
  Bool-cases, ◌==◌, Table, lookup, insert, first?, update_all, fresh, lookup-fresh, count_rows,
  count_rows-insert, count_rows-insert_new,
}

-- A row with a column `isActive`.
pub record Versioned (V : Type 0) : Type 0 where
  pub active : V → Bool
  pub set_active : Bool → V → V
  pub active-set_active : (b : Bool) (v : V) → active (set_active b v) ≡ b

module _ {V : Type 0} (versioned : Versioned V) where
  -- `updateMany({ where: { isActive: true }, data: { isActive: false } })`
  abbrev pub deactivate_all : Table V → Table V
  deactivate_all t = update_all versioned.active (versioned.set_active false) t

  -- `create`, which switches the others off first if the new version is to be active
  abbrev pub create_version : Bool → V → Table V → Table V
  create_version true v t =
      let others = deactivate_all t in insert (fresh others) (versioned.set_active true v) others
  create_version false v t = insert (fresh t) (versioned.set_active false v) t

  -- `update({ where: { id }, data: { isActive: true } })`
  abbrev switch_on : ℕ → Option V → Table V → Table V
  switch_on id none t = t
  switch_on id (some v) t = insert id (versioned.set_active true v) t

  abbrev pub activate_version : ℕ → Table V → Table V
  activate_version id t = let others = deactivate_all t in switch_on id (lookup id others) others

  abbrev pub active_count : Table V → ℕ
  active_count t = count_rows versioned.active t

  pub deactivate_all-none : (t : Table V) → active_count (deactivate_all t) ≡ 0
  deactivate_all-none [] = refl
  deactivate_all-none ((j, v) ∷ t) = elim (Bool-cases (versioned.active v)) [
    | inl on ↦ rw (on, versioned.active-set_active false v) (omega (arith, deactivate_all-none t))
    | inr off ↦ rw (off, off) (omega (arith, deactivate_all-none t))
  ]

  lookup-deactivate_all :
      (k : ℕ) (t : Table V) {v : V}
      → lookup k t ≡ some v
      → (w : V) × (lookup k (deactivate_all t) ≡ some w)
  lookup-deactivate_all k [] h = cc h
  lookup-deactivate_all k ((j, x) ∷ t) h = elim (Bool-cases (j == k)) [
    | inl same ↦ rw same (_, refl)
    | inr other ↦ rw other (lookup-deactivate_all k t (rw other at h))
  ]

  none_active :
      (k : ℕ) (t : Table V) {v : V}
      → active_count t ≡ 0
      → lookup k t ≡ some v
      → versioned.active v ≡ false
  none_active k [] z h = cc h
  none_active k ((j, x) ∷ t) {v} z h = elim (Bool-cases (versioned.active x)) [
    | inl on ↦ absurd (let z' = rw on at z in omega (arith, z'))
    | inr off ↦ elim (Bool-cases (j == k)) [
      | inl same ↦
          let h' : some x ≡ some v = rw same at h in let eq : x ≡ v = cc h' in rw (sym eq) off
      | inr other ↦ none_active k t (let z' = rw off at z in omega (arith, z')) (rw other at h)
    ]
  ]

  -- The version that was activated is the only active one.
  pub activate_version-one :
      (id : ℕ) (t : Table V) {v : V}
      → lookup id t ≡ some v
      → active_count (activate_version id t) ≡ 1
  activate_version-one id t h =
      let (w, e) = lookup-deactivate_all id t h in
      let zero_on = deactivate_all-none t in
      let off = none_active id (deactivate_all t) zero_on e in
      let n =
        count_rows-insert versioned.active id w (versioned.set_active true w) (deactivate_all t)
          e in
      let n' = rw (off, versioned.active-set_active true w, zero_on) at n in
      rw e (omega (arith, n'))

  pub create_version-one : (v : V) (t : Table V) → active_count (create_version true v t) ≡ 1
  create_version-one v t =
      let others = deactivate_all t in
      let n =
        count_rows-insert_new versioned.active (fresh others) (versioned.set_active true v) others
          (lookup-fresh others) in
      rw (n, versioned.active-set_active true v, deactivate_all-none t) refl

  pub create_version-same :
      (v : V) (t : Table V) → active_count (create_version false v t) ≡ active_count t
  create_version-same v t =
      let n =
        count_rows-insert_new versioned.active (fresh t) (versioned.set_active false v) t
          (lookup-fresh t) in
      rw (n, versioned.active-set_active false v) (omega arith)

  -- Where no row is active, a row that is switched on is the one that is found.
  first?-switched_on :
      (k : ℕ) (w : V) (t : Table V)
      → active_count t ≡ 0
      → versioned.active w ≡ true
      → first? versioned.active (insert k w t) ≡ some (k, w)
  first?-switched_on k w [] z on = rw on refl
  first?-switched_on k w ((j, x) ∷ t) z on = elim (Bool-cases (versioned.active x)) [
    | inl was_on ↦ absurd (let z' = rw was_on at z in omega (arith, z'))
    | inr off ↦ elim (Bool-cases (j == k)) [
      | inl same ↦ rw (same, on) (ap (λ i. some (i, w)) (==→eq j k same))
      | inr other ↦
          rw (other, off) (first?-switched_on k w t (let z' = rw off at z in omega (arith, z')) on)
    ]
  ]

  -- The version that was activated is the one that is found.
  pub activate_version-found :
      (id : ℕ) (t : Table V) {v : V}
      → lookup id t ≡ some v
      → (w : V) × (first? versioned.active (activate_version id t) ≡ some (id, w))
  activate_version-found id t h =
      let (w, e) = lookup-deactivate_all id t h in
      rw e (
        versioned.set_active true w,
        first?-switched_on id (versioned.set_active true w) (deactivate_all t)
            (deactivate_all-none t) (versioned.active-set_active true w),
      )
