-- ===== src/Outbox.antt =====
-- OutboxRelay of apps/api/src/infrastructure/outbox/outbox.relay.ts: the events of the outbox are
-- handed to the queue, the oldest first. The queue is a parameter: `add` answers the queue with the
-- job, or throws. Ticks do not overlap, by `running`.
pub mod Drained
use make_we_bet.Prelude.{
  ℕ, suc, Bool, Option, none, some, List, [], ◌∷◌, Table, insert, select, take, lookup,
}
use make_we_bet.Errors.{Result, ok, err}
use make_we_bet.Contracts.{Event}
use make_we_bet.Database.{OutboxEvent}
use make_we_bet.Wallet.{is_null}

abbrev pub batch_size : ℕ
batch_size = 100

-- `where: { publishedAt: null }`
abbrev pub is_unpublished : OutboxEvent → Bool
is_unpublished e = is_null e.published_at

-- `findMany({ where, orderBy: { createdAt: 'asc' }, take: 100 })`: rows stand in the order of their
-- creation.
abbrev pub next_batch : Table OutboxEvent → List (ℕ × OutboxEvent)
next_batch t = take batch_size (select is_unpublished t)

module _ {Q : Type 0} (add : ℕ → Event → Q → Result Q) where
  -- What follows the answer of the queue to one event.
  abbrev pub marked : ℕ → ℕ → OutboxEvent → Q → Result Q → Table OutboxEvent → Q × Table OutboxEvent
  marked now id e q (ok q') t = (q', insert id (record e { published_at = some now }) t)
  marked now id e q (err x) t = (q, insert id (record e { attempts = suc e.attempts }) t)

  abbrev pub publish_batch :
      ℕ → List (ℕ × OutboxEvent) → Q × Table OutboxEvent → Q × Table OutboxEvent
  publish_batch now [] s = s
  publish_batch now ((id, e) ∷ batch) (q, t) =
      publish_batch now batch (marked now id e q (add id e.event q) t)

  unfoldable pub relay : ℕ → Q × Table OutboxEvent → Q × Table OutboxEvent
  relay now (q, t) = publish_batch now (next_batch t) (q, t)

  -- One tick at each of these times.
  abbrev pub ticks : List ℕ → Q × Table OutboxEvent → Q × Table OutboxEvent
  ticks [] s = s
  ticks (now ∷ later) s = ticks later (relay now s)
