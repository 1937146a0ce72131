-- ===== src/Auth/Families.antt =====
-- The invariant of the sessions: of every family, one token at most can still be used.
use make_we_bet.Prelude.{
  ℕ, ◌+◌, ◌≤◌, ◌≡◌, refl, arith, ==_refl, Bool, true, false, ◌&&◌, not, some, inl, inr, Bool-cases,
  ◌==◌, Table, lookup, insert, update_all, fresh, lookup-fresh, HasUniqueKeys, insert-HasUniqueKeys,
  update_all-HasUniqueKeys, count_rows, count_rows-insert, count_rows-insert_new,
  count_rows-update_all, if◌then◌else◌,
}
use make_we_bet.Database.{Session}
use make_we_bet.Auth.Tokens.{revoked, is_spent}

-- A session whose token can still be used, up to its expiry.
abbrev pub live_in : ℕ → Session → Bool
live_in family s = (s.family_id == family) && not (is_spent s)

abbrev pub IsOrderly : Table Session → Type 0
IsOrderly t = HasUniqueKeys t × ((family : ℕ) → count_rows (live_in family) t ≤ 1)

revoked_is_dead : (now family : ℕ) (s : Session) → live_in family (revoked now s) ≡ false
revoked_is_dead now family s = ground arith

consumed_is_dead :
    (now family : ℕ) (s : Session) → live_in family (record s { consumed_at = some now }) ≡ false
consumed_is_dead now family s = ground arith

-- After an update that brings no session back.
pub update_all-IsOrderly :
    (q : Session → Bool) (now : ℕ) (t : Table Session)
    → IsOrderly t
    → IsOrderly (update_all q (revoked now) t)
update_all-IsOrderly q now t (u, one) = (
  update_all-HasUniqueKeys q (revoked now) t u,
  λ family. omega (
    arith,
    one family,
    count_rows-update_all (live_in family) q (revoked now) t (λ s _. revoked_is_dead now family s),
  ),
)

bounded : {n : ℕ} (a b : Bool) → n ≡ 0 → n + (if b && a then 1 else 0) ≤ 1
bounded a b h = ground arith

-- A new session in a family without another one that is live.
pub insert-fresh-IsOrderly :
    (s : Session) (t : Table Session)
    → IsOrderly t
    → count_rows (live_in s.family_id) t ≡ 0
    → IsOrderly (insert (fresh t) s t)
insert-fresh-IsOrderly s t (u, one) none_live = (
  insert-HasUniqueKeys (fresh t) s t u,
  λ family.
      let n = count_rows-insert_new (live_in family) (fresh t) s t (lookup-fresh t) in
      elim (Bool-cases (s.family_id == family)) [
        | inl e ↦
            let same : s.family_id ≡ family = ground arith in
            let zero_live : count_rows (live_in family) t ≡ 0 = rw same at none_live in
            rw n (bounded (not (is_spent s)) (s.family_id == family) zero_live)
        | inr e ↦ rw (n, e) (omega (arith, one family))
      ],
)

-- The session that is consumed was the live one of its family.
pub consumed-IsOrderly :
    (now id : ℕ) (s : Session) (t : Table Session)
    → IsOrderly t
    → lookup id t ≡ some s
    → is_spent s ≡ false
    → let after = insert id (record s { consumed_at = some now }) t in
      IsOrderly after × (count_rows (live_in s.family_id) after ≡ 0)
consumed-IsOrderly now id s t (u, one) e live =
    let c : Session = record s { consumed_at = some now } in
    let count : (family : ℕ)
        → count_rows (live_in family) (insert id c t) + (if live_in family s then 1 else 0)
          ≡ count_rows (live_in family) t + 0 =
      λ family.
        (let n = count_rows-insert (live_in family) id s c t e in
          rw (consumed_is_dead now family s) at n) in
    let own : live_in s.family_id s ≡ true = rw (live, ==_refl s.family_id) refl in
    let own_count = count s.family_id in
    (
      (insert-HasUniqueKeys id c t u, λ family. omega (arith, one family, count family)),
      omega (arith, one s.family_id, (rw own at own_count)),
    )
