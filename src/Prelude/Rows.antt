-- ===== src/Prelude/Rows.antt =====
-- A database table: rows under their primary keys, in the order of insertion.
use Prim.Native.Nat.{ℕ, suc, max, ◌≤◌}
use mathlib.Core.Path.{◌≡◌, refl}
use mathlib.Core.Logic.{◌≢◌, inl, inr}
use mathlib.Core.Bool.{Bool, true, false}
use mathlib.Core.Option.{Option, none, some}
use mathlib.Core.List.{List, [], ◌∷◌}
use native.Mathlib.Omega.{arith}
use make_we_bet.Prelude.Tests.{◌==◌, if◌then◌else◌, Bool-cases}
use make_we_bet.Prelude.Int.{ℤ, pos, ◌+ℤ◌, int_laws}

abbrev pub Table {ℓ} : Type ℓ → Type ℓ
Table V = List (ℕ × V)

module _ {ℓ} {V : Type ℓ} where
  -- `findUnique` by primary key
  abbrev pub lookup : ℕ → Table V → Option V
  lookup k [] = none
  lookup k ((j, v) ∷ t) = if j == k then some v else lookup k t

  -- Writes the row with this key, at the end if there is none.
  abbrev pub insert : ℕ → V → Table V → Table V
  insert k v [] = (k, v) ∷ []
  insert k v ((j, w) ∷ t) = if j == k then (j, v) ∷ t else (j, w) ∷ insert k v t

  -- `findMany`: the rows that satisfy a condition, with their keys
  abbrev pub select : (V → Bool) → Table V → List (ℕ × V)
  select p [] = []
  select p ((j, v) ∷ t) = if p v then (j, v) ∷ select p t else select p t

  -- `findFirst`: the first row that satisfies a condition, with its key
  abbrev pub first? : (V → Bool) → Table V → Option (ℕ × V)
  first? p [] = none
  first? p ((j, v) ∷ t) = if p v then some (j, v) else first? p t

  -- `updateMany`
  abbrev pub update_all : (V → Bool) → (V → V) → Table V → Table V
  update_all p f [] = []
  update_all p f ((j, v) ∷ t) = (j, if p v then f v else v) ∷ update_all p f t

  pub lookup-insert :
      (k j : ℕ) (v : V) (t : Table V)
      → lookup j (insert k v t) ≡ (if k == j then some v else lookup j t)
  lookup-insert k j v [] = refl
  lookup-insert k j v ((i, w) ∷ t) = ground (arith, lookup-insert k j v t)

  pub lookup-insert_self : (k : ℕ) (v : V) (t : Table V) → lookup k (insert k v t) ≡ some v
  lookup-insert_self k v t = ground (arith, lookup-insert k k v t)

  pub lookup-insert_ne :
      (k j : ℕ) (v : V) (t : Table V) → k ≢ j → lookup j (insert k v t) ≡ lookup j t
  lookup-insert_ne k j v t h = ground (arith, lookup-insert k j v t)

  pub insert-insert : (k : ℕ) (v w : V) (t : Table V) → insert k w (insert k v t) ≡ insert k w t
  insert-insert k v w [] = ground arith
  insert-insert k v w ((i, u) ∷ t) = ground (arith, insert-insert k v w t)

  -- What `first?` finds satisfies the condition.
  pub first?-sound : (p : V → Bool) (t : Table V) {r : ℕ × V} → first? p t ≡ some r → p r.1 ≡ true
  first?-sound p [] h = cc
  first?-sound p ((j, w) ∷ t) {r} h = elim (Bool-cases (p w)) [
    | inl found ↦ let e : some (j, w) ≡ some r = rw found at h in ground arith
    | inr other ↦ first?-sound p t (rw other at h)
  ]

  -- An unused key: one more than the largest.
  abbrev pub fresh : Table V → ℕ
  fresh [] = 0
  fresh ((j, v) ∷ t) = max (suc j) (fresh t)

  lookup-fresh_le : (k : ℕ) (t : Table V) → fresh t ≤ k → lookup k t ≡ none
  lookup-fresh_le k [] h = refl
  lookup-fresh_le k ((j, v) ∷ t) h =
      let e : (j == k) ≡ false = ground arith in rw e (lookup-fresh_le k t (omega arith))

  pub lookup-fresh : (t : Table V) → lookup (fresh t) t ≡ none
  lookup-fresh t = lookup-fresh_le (fresh t) t (omega arith)

  -- The sum of a signed column.
  abbrev pub total : (V → ℤ) → Table V → ℤ
  total f [] = pos 0
  total f ((j, v) ∷ t) = f v +ℤ total f t

  pub total-insert :
      (f : V → ℤ) (k : ℕ) (old v : V) (t : Table V)
      → lookup k t ≡ some old
      → total f (insert k v t) +ℤ f old ≡ total f t +ℤ f v
  total-insert f k old v [] e = cc
  total-insert f k old v ((j, w) ∷ t) e = grind (int_laws, total-insert f k old v t)

  pub total-insert_new :
      (f : V → ℤ) (k : ℕ) (v : V) (t : Table V)
      → lookup k t ≡ none
      → total f (insert k v t) ≡ total f t +ℤ f v
  total-insert_new f k v [] e = omega int_laws
  total-insert_new f k v ((j, w) ∷ t) e = grind (int_laws, total-insert_new f k v t)
