-- ===== src/Outbox/Drained.antt =====
-- The relay empties the outbox into the queue.
use make_we_bet.Prelude.{
  ℕ, zero, suc, ◌+◌, ◌-◌, ◌*◌, ◌≤◌, ◌≡◌, refl, ap, ◌∙◌, ==_refl, lookup-select-none, arith, true,
  false, none, some, List, [], ◌∷◌, inl, inr, Bool-cases, ◌==◌, Table, lookup, insert,
  lookup-insert_ne, select, take, length, length-take, count_rows, count_rows-insert, HasUniqueKeys,
  insert-HasUniqueKeys, count_rows-pos, ◌⊎◌, sym,
}
use mathlib.Core.Option.{some-injective}
use make_we_bet.Errors.{Result, ok}
use make_we_bet.Contracts.{Event}
use make_we_bet.Database.{OutboxEvent}
use make_we_bet.Outbox.{is_unpublished, next_batch, marked, publish_batch, relay, ticks}

-- The events of a batch are rows of the table that are not published, under different keys.
data Pending (t : Table OutboxEvent) : List (ℕ × OutboxEvent) → Type 0 where
  no_more : Pending t []
  more :
      {id : ℕ} {e : OutboxEvent} {batch : List (ℕ × OutboxEvent)}
      → lookup id t ≡ some e
      → is_unpublished e ≡ true
      → lookup id batch ≡ none
      → Pending t batch
      → Pending t ((id, e) ∷ batch)

count-select :
    (t : Table OutboxEvent) → count_rows is_unpublished t ≡ length (select is_unpublished t)
count-select [] = refl
count-select ((j, e) ∷ t) = elim (Bool-cases (is_unpublished e)) [
  | inl open_ ↦ rw open_ (omega (arith, count-select t))
  | inr done ↦ rw done (omega (arith, count-select t))
]

-- The keys of a batch that does not have this one are others.
head_is_other :
    (k id : ℕ) (e : OutboxEvent) (batch : List (ℕ × OutboxEvent))
    → lookup k ((id, e) ∷ batch) ≡ none
    → ((id == k) ≡ false) × (lookup k batch ≡ none)
head_is_other k id e batch h = elim (Bool-cases (id == k)) [
  | inl same ↦ absurd (let h' : some e ≡ none = rw same at h in cc h')
  | inr other ↦ (other, rw other at h)
]

-- Writing another row leaves a batch pending.
insert-Pending :
    (k : ℕ) (d : OutboxEvent) (t : Table OutboxEvent) {batch : List (ℕ × OutboxEvent)}
    → lookup k batch ≡ none
    → Pending t batch
    → Pending (insert k d t) batch
insert-Pending k d t h no_more = no_more
insert-Pending k d t h (more {id} {e} {batch} l u n p) =
    let (other, h') = head_is_other k id e batch h in
    more (lookup-insert_ne k id d t (ground arith) ∙ l) u n (insert-Pending k d t h' p)

-- So does a row in front.
cons-Pending :
    (k : ℕ) (d : OutboxEvent) (t : Table OutboxEvent) {batch : List (ℕ × OutboxEvent)}
    → lookup k batch ≡ none
    → Pending t batch
    → Pending ((k, d) ∷ t) batch
cons-Pending k d t h no_more = no_more
cons-Pending k d t h (more {id} {e} {batch} l u n p) =
    let (other, h') = head_is_other k id e batch h in
    let other' : (k == id) ≡ false = ground arith in
    more (rw other' l) u n (cons-Pending k d t h' p)

lookup-take-none :
    (n k : ℕ) (batch : List (ℕ × OutboxEvent))
    → lookup k batch ≡ none
    → lookup k (take n batch) ≡ none
lookup-take-none zero k batch h = refl
lookup-take-none (suc n) k [] h = refl
lookup-take-none (suc n) k ((id, e) ∷ batch) h =
    let (other, h') = head_is_other k id e batch h in rw other (lookup-take-none n k batch h')

take-Pending :
    (n : ℕ) {t : Table OutboxEvent} {batch : List (ℕ × OutboxEvent)}
    → Pending t batch
    → Pending t (take n batch)
take-Pending zero p = no_more
take-Pending (suc n) no_more = no_more
take-Pending (suc n) (more {id} {e} {batch} l u k p) =
    more l u (lookup-take-none n id batch k) (take-Pending n p)

select-Pending : (t : Table OutboxEvent) → HasUniqueKeys t → Pending t (select is_unpublished t)
select-Pending [] u = no_more
select-Pending ((j, e) ∷ t) (n, u) =
    let fresh_key = lookup-select-none is_unpublished t j n in
    let rest = cons-Pending j e t fresh_key (select-Pending t u) in
    elim (Bool-cases (is_unpublished e)) [
      | inl waits ↦ rw waits (more (rw (==_refl j) refl) waits fresh_key rest)
      | inr done ↦ rw done rest
    ]

module _ {Q : Type 0} (add : ℕ → Event → Q → Result Q)
    (accepts : (id : ℕ) (e : Event) (q : Q) → (q' : Q) × (add id e q ≡ ok q')) where
  publish_batch-count :
      (now : ℕ) (batch : List (ℕ × OutboxEvent)) (q : Q) (t : Table OutboxEvent)
      → HasUniqueKeys t
      → Pending t batch
      → let after = (publish_batch add now batch (q, t)).1 in
        HasUniqueKeys after
        × (count_rows is_unpublished after + length batch ≡ count_rows is_unpublished t)
  publish_batch-count now [] q t u p = (u, omega arith)
  publish_batch-count now ((id, e) ∷ batch) q t u (more l open_ k p) =
      let (q', ok_) = accepts id e.event q in
      let e' : OutboxEvent = record e { published_at = some now } in
      let t' = insert id e' t in
      let (u', n) =
        publish_batch-count now batch q' t' (insert-HasUniqueKeys id e' t u)
          (insert-Pending id e' t k p) in
      let c = count_rows-insert is_unpublished id e e' t l in
      let c' = rw open_ at c in
      let step : publish_batch add now ((id, e) ∷ batch) (q, t)
          ≡ publish_batch add now batch (q', t') =
        ap (λ r. publish_batch add now batch (marked add now id e q r t)) ok_ in
      rw step (u', omega (arith, n, c'))

  relay-count :
      (now : ℕ) (q : Q) (t : Table OutboxEvent)
      → HasUniqueKeys t
      → let after = (relay add now (q, t)).1 in
        HasUniqueKeys after × (count_rows is_unpublished after ≡ count_rows is_unpublished t - 100)
  unfolding relay
  relay-count now q t u =
      let (u', n) =
        publish_batch-count now (next_batch t) q t u (take-Pending 100 (select-Pending t u)) in
      (u', omega (arith, n, length-take 100 (select is_unpublished t), count-select t))

  ticks-count :
      (times : List ℕ) (q : Q) (t : Table OutboxEvent)
      → HasUniqueKeys t
      → count_rows is_unpublished t ≤ 100 * length times
      → count_rows is_unpublished (ticks add times (q, t)).1 ≡ 0
  ticks-count [] q t u h = omega (arith, h)
  ticks-count (now ∷ later) q t u h =
      let (u', n) = relay-count now q t u in
      ticks-count later (relay add now (q, t)).0 _ u' (omega (arith, n, h))

  -- What it means that the queue has a job with this event: the job that it has just accepted is
  -- there, and no job is lost when another is accepted.
  module _ (HasJob : ℕ → Event → Q → Type 0)
      (added : (id : ℕ) (e : Event) (q q' : Q) → add id e q ≡ ok q' → HasJob id e q')
      (stays : (id j : ℕ) (e f : Event) (q q' : Q)
        → add id e q ≡ ok q'
        → HasJob j f q
        → HasJob j f q') where
    -- The event waits in the table still, or the queue has it.
    IsSafe : ℕ → Event → Q × Table OutboxEvent → Type 0
    IsSafe j f (q, t) =
        HasJob j f q
        ⊎ ((r : OutboxEvent) × (lookup j t ≡ some r) × (is_unpublished r ≡ true) × (r.event ≡ f))

    marked-IsSafe :
        (now id j : ℕ) (e : OutboxEvent) (f : Event) (q q' : Q) (t : Table OutboxEvent)
        → add id e.event q ≡ ok q'
        → lookup id t ≡ some e
        → IsSafe j f (q, t)
        → IsSafe j f (q', insert id (record e { published_at = some now }) t)
    unfolding IsSafe
    marked-IsSafe now id j e f q q' t ok_ l (inl there) = inl (stays id j e.event f q q' ok_ there)
    marked-IsSafe now id j e f q q' t ok_ l (inr (r, at_j, waits, same)) =
        elim (Bool-cases (id == j)) [
          | inl here ↦
              let eq : j ≡ id = ground arith in
              let at_id : lookup id t ≡ some r = rw eq at at_j in
              let ev : e.event ≡ f =
                ap (λ x. x.event) (some-injective e r (sym l ∙ at_id)) ∙ same in
              inl (rw (eq, sym ev) (added id e.event q q' ok_))
          | inr other ↦ inr (r, lookup-insert_ne id j _ t (ground arith) ∙ at_j, waits, same)
        ]

    publish_batch-IsSafe :
        (now j : ℕ) (f : Event) (batch : List (ℕ × OutboxEvent)) (q : Q) (t : Table OutboxEvent)
        → Pending t batch
        → IsSafe j f (q, t)
        → IsSafe j f (publish_batch add now batch (q, t))
    publish_batch-IsSafe now j f [] q t p s = s
    publish_batch-IsSafe now j f ((id, e) ∷ batch) q t (more l open_ k p) s =
        let (q', ok_) = accepts id e.event q in
        let e' : OutboxEvent = record e { published_at = some now } in
        let step : publish_batch add now ((id, e) ∷ batch) (q, t)
            ≡ publish_batch add now batch (q', insert id e' t) =
          ap (λ r. publish_batch add now batch (marked add now id e q r t)) ok_ in
        rw step (
          publish_batch-IsSafe now j f batch q' (insert id e' t) (insert-Pending id e' t k p)
            (marked-IsSafe now id j e f q q' t ok_ l s))

    ticks-IsSafe :
        (times : List ℕ) (j : ℕ) (f : Event) (q : Q) (t : Table OutboxEvent)
        → HasUniqueKeys t
        → IsSafe j f (q, t)
        → IsSafe j f (ticks add times (q, t))
    unfolding relay
    ticks-IsSafe [] j f q t u s = s
    ticks-IsSafe (now ∷ later) j f q t u s =
        let p = take-Pending 100 (select-Pending t u) in
        let (u', _) = publish_batch-count now (next_batch t) q t u p in
        ticks-IsSafe later j f (relay add now (q, t)).0 _ u'
          (publish_batch-IsSafe now j f (next_batch t) q t p s)

    -- While the queue accepts events and loses none that it accepted, after one tick for each hundred
    -- unpublished events of the outbox it has a job for every one of them, under the event's id, and
    -- all are marked as published.
    pub ticks-drained :
        (times : List ℕ) (q : Q) (t : Table OutboxEvent)
        → HasUniqueKeys t
        → count_rows is_unpublished t ≤ 100 * length times
        → (count_rows is_unpublished (ticks add times (q, t)).1 ≡ 0)
          × ((j : ℕ) (r : OutboxEvent)
              → lookup j t ≡ some r
              → is_unpublished r ≡ true
              → HasJob j r.event (ticks add times (q, t)).0)
    unfolding IsSafe
    ticks-drained times q t u h =
        let none_left = ticks-count times q t u h in
        (
          none_left,
          λ j r l waits. elim (ticks-IsSafe times j r.event q t u (inr (r, l, waits, refl))) [
            | inl there ↦ there
            | inr (r', l', waits', _) ↦
                absurd (count_rows-pos is_unpublished j _ none_left l' waits')
          ],
        )
