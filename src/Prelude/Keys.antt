-- ===== src/Prelude/Keys.antt =====
-- Tables in which no key occurs twice, and how many rows of a table satisfy a condition.
use Prim.Native.Nat.{ℕ, ◌+◌, ◌≤◌}
use mathlib.Core.Path.{◌≡◌, refl, ap, ◌∙◌}
use mathlib.Core.Logic.{inl, inr}
use mathlib.Core.Bool.{Bool, true, false}
use mathlib.Core.Option.{none, some, some-injective}
use mathlib.Core.List.{List, [], ◌∷◌}
use native.Mathlib.Omega.{arith}
use make_we_bet.Prelude.Tests.{◌==◌, if◌then◌else◌, Bool-cases}
use make_we_bet.Prelude.Rows.{Table, lookup, insert, first?, update_all, lookup-insert, select}

module _ {ℓ} {V : Type ℓ} where
  -- No key occurs twice.
  abbrev pub HasUniqueKeys : Table V → Type ℓ
  HasUniqueKeys [] = Unit
  HasUniqueKeys ((j, v) ∷ t) = (lookup j t ≡ none) × HasUniqueKeys t

  insert_keeps_none :
      (k j : ℕ) (v : V) (t : Table V)
      → (j == k) ≡ false
      → lookup j t ≡ none
      → lookup j (insert k v t) ≡ none
  insert_keeps_none k j v t other h = ground (arith, lookup-insert k j v t)

  pub insert-HasUniqueKeys :
      (k : ℕ) (v : V) (t : Table V) → HasUniqueKeys t → HasUniqueKeys (insert k v t)
  insert-HasUniqueKeys k v [] u = (refl, tt)
  insert-HasUniqueKeys k v ((j, w) ∷ t) (h, u) = elim (Bool-cases (j == k)) [
    | inl e ↦ rw e (h, u)
    | inr e ↦ rw e (insert_keeps_none k j v t e h, insert-HasUniqueKeys k v t u)
  ]

  update_all_keeps_none :
      (p : V → Bool) (f : V → V) (j : ℕ) (t : Table V)
      → lookup j t ≡ none
      → lookup j (update_all p f t) ≡ none
  update_all_keeps_none p f j [] h = refl
  update_all_keeps_none p f j ((i, w) ∷ t) h = elim (Bool-cases (i == j)) [
    | inl e ↦ absurd (let h' : some w ≡ none = rw e at h in cc h')
    | inr e ↦ rw e (update_all_keeps_none p f j t (rw e at h))
  ]

  pub update_all-HasUniqueKeys :
      (p : V → Bool) (f : V → V) (t : Table V) → HasUniqueKeys t → HasUniqueKeys (update_all p f t)
  update_all-HasUniqueKeys p f [] u = tt
  update_all-HasUniqueKeys p f ((j, w) ∷ t) (h, u) =
      (update_all_keeps_none p f j t h, update_all-HasUniqueKeys p f t u)

  first?-key :
      (p : V → Bool) (t : Table V) (j : ℕ) {r : ℕ × V}
      → lookup j t ≡ none
      → first? p t ≡ some r
      → (j == r.0) ≡ false
  first?-key p [] j n h = cc h
  first?-key p ((i, w) ∷ t) j {r} n h = elim (Bool-cases (i == j)) [
    | inl e ↦ absurd (let n' : some w ≡ none = rw e at n in cc n')
    | inr e ↦ elim (Bool-cases (p w)) [
      | inl y ↦ let h' : some (i, w) ≡ some r = rw y at h in ground arith
      | inr y ↦ first?-key p t j (rw e at n) (rw y at h)
    ]
  ]

  -- What `first?` finds is the row of its key.
  pub lookup-first? :
      (p : V → Bool) (t : Table V) {r : ℕ × V}
      → HasUniqueKeys t
      → first? p t ≡ some r
      → lookup r.0 t ≡ some r.1
  lookup-first? p [] u h = cc h
  lookup-first? p ((j, w) ∷ t) {r} (n, u) h = elim (Bool-cases (p w)) [
    | inl y ↦ let h' : some (j, w) ≡ some r = rw y at h in ground arith
    | inr y ↦
        let h' : first? p t ≡ some r = rw y at h in
        rw (first?-key p t j n h') (lookup-first? p t u h')
  ]

  -- A row of the same kind under the same key is found in its place.
  pub first?-insert :
      (p : V → Bool) (id : ℕ) (v w : V) (t : Table V)
      → HasUniqueKeys t
      → first? p t ≡ some (id, v)
      → p w ≡ true
      → first? p (insert id w t) ≡ some (id, w)
  first?-insert p id v w [] u h y = cc
  first?-insert p id v w ((j, x) ∷ t) (n, u) h y = elim (Bool-cases (p x)) [
    | inl px ↦
        let h' : some (j, x) ≡ some (id, v) = rw px at h in
        let key : j ≡ id = ground arith in
        let same : (j == id) ≡ true = ground arith in rw (same, y) (ap (λ i. some (i, w)) key)
    | inr px ↦
        let h' : first? p t ≡ some (id, v) = rw px at h in
        rw (first?-key p t j n h', px) (first?-insert p id v w t u h' y)
  ]

  -- A row under an unused key comes last.
  pub first?-insert_new :
      (p : V → Bool) (k : ℕ) (w : V) (t : Table V) {r : ℕ × V}
      → lookup k t ≡ none
      → first? p t ≡ some r
      → first? p (insert k w t) ≡ some r
  first?-insert_new p k w [] n h = cc h
  first?-insert_new p k w ((j, x) ∷ t) {r} n h = elim (Bool-cases (j == k)) [
    | inl e ↦ absurd (let n' : some x ≡ none = rw e at n in cc n')
    | inr e ↦ elim (Bool-cases (p x)) [
      | inl px ↦ rw e (rw px (rw px at h))
      | inr px ↦ rw e (rw px (first?-insert_new p k w t (rw e at n) (rw px at h)))
    ]
  ]

  -- How many rows satisfy a condition.
  abbrev pub count_rows : (V → Bool) → Table V → ℕ
  count_rows p [] = 0
  count_rows p ((j, v) ∷ t) = (if p v then 1 else 0) + count_rows p t

  pub count_rows-insert :
      (p : V → Bool) (k : ℕ) (old v : V) (t : Table V)
      → lookup k t ≡ some old
      → count_rows p (insert k v t) + (if p old then 1 else 0)
        ≡ count_rows p t + (if p v then 1 else 0)
  count_rows-insert p k old v [] h = cc h
  count_rows-insert p k old v ((j, w) ∷ t) h = elim (Bool-cases (j == k)) [
    | inl e ↦
        let h' : some w ≡ some old = rw e at h in
        let same : w ≡ old = ground arith in rw (e, same) (omega arith)
    | inr e ↦ rw e (omega (arith, count_rows-insert p k old v t (rw e at h)))
  ]

  pub count_rows-insert_new :
      (p : V → Bool) (k : ℕ) (v : V) (t : Table V)
      → lookup k t ≡ none
      → count_rows p (insert k v t) ≡ count_rows p t + (if p v then 1 else 0)
  count_rows-insert_new p k v [] h = omega arith
  count_rows-insert_new p k v ((j, w) ∷ t) h = elim (Bool-cases (j == k)) [
    | inl e ↦ absurd (let h' : some w ≡ none = rw e at h in cc h')
    | inr e ↦ rw e (omega (arith, count_rows-insert_new p k v t (rw e at h)))
  ]

  -- An update after which no row satisfies the condition that did not before.
  pub count_rows-update_all :
      (p q : V → Bool) (f : V → V) (t : Table V)
      → ((v : V) → p v ≡ false → p (f v) ≡ false)
      → count_rows p (update_all q f t) ≤ count_rows p t
  count_rows-update_all p q f [] h = omega arith
  count_rows-update_all p q f ((j, v) ∷ t) h = ground (arith, count_rows-update_all p q f t h, h v)

  pub lookup-select-none :
      (p : V → Bool) (t : Table V) (k : ℕ) → lookup k t ≡ none → lookup k (select p t) ≡ none
  lookup-select-none p [] k h = refl
  lookup-select-none p ((j, v) ∷ t) k h = elim (Bool-cases (j == k)) [
    | inl e ↦ absurd (let h' : some v ≡ none = rw e at h in cc h')
    | inr e ↦ elim (Bool-cases (p v)) [
      | inl y ↦ rw (y, e) (lookup-select-none p t k (rw e at h))
      | inr n ↦ rw n (lookup-select-none p t k (rw e at h))
    ]
  ]

  -- The keys of the rows, in their order.
  abbrev pub keys : Table V → List ℕ
  keys [] = []
  keys ((j, v) ∷ t) = j ∷ keys t

  -- Writing over a row leaves the keys as they are.
  pub keys-insert :
      (k : ℕ) (v : V) {old : V} (t : Table V) → lookup k t ≡ some old → keys (insert k v t) ≡ keys t
  keys-insert k v [] h = cc h
  keys-insert k v ((j, w) ∷ t) h = elim (Bool-cases (j == k)) [
    | inl e ↦ rw e refl
    | inr e ↦ rw (e, keys-insert k v t (rw e at h)) refl
  ]

  -- If no row satisfies a condition, none that is there does.
  pub count_rows-pos :
      (p : V → Bool) (k : ℕ) (t : Table V) {v : V}
      → count_rows p t ≡ 0
      → lookup k t ≡ some v
      → ¬ (p v ≡ true)
  count_rows-pos p k [] n h y = cc h
  count_rows-pos p k ((j, w) ∷ t) {v} n h y = elim (Bool-cases (j == k)) [
    | inl e ↦
        let h' : some w ≡ some v = rw e at h in
        let py : p w ≡ true = ap p (some-injective w v h') ∙ y in
        let n' : 1 + count_rows p t ≡ 0 = rw py at n in omega (arith, n')
    | inr e ↦ count_rows-pos p k t (omega (arith, n)) (rw e at h) y
  ]
