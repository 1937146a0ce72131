-- ===== src/Database/Actions.antt =====
-- A handler reads and writes the tables and returns or throws. A write outside a transaction stays
-- when the handler throws later; `transaction` is Prisma's `$transaction`, which rolls back.
-- `emit` is apps/api/src/infrastructure/outbox/outbox.service.ts.
use make_we_bet.Prelude.{insert, fresh, ℕ, Bool, Option, none, List, [], ◌∷◌}
use make_we_bet.Contracts.{Event}
use make_we_bet.Errors.{Error, Result, ok, err, ensure, or_throw}
use make_we_bet.Ledger.{PostJournalInput, Ledger, post}
use make_we_bet.Database.Schema.{Db, Notice, AuditAction}

abbrev pub Action : Type 0 → Type 0
Action A = Db → Result A × Db

abbrev pub return : {A : Type 0} → A → Action A
return a db = (ok a, db)

abbrev pub throw : {A : Type 0} → Error → Action A
throw e db = (err e, db)

abbrev pub resume : {A B : Type 0} → (A → Action B) → Result A × Db → Result B × Db
resume f (ok a, db) = f a db
resume f (err e, db) = (err e, db)

infixl 5 ◌>>=◌ ◌>>◌
abbrev pub ◌>>=◌ : {A B : Type 0} → Action A → (A → Action B) → Action B
(m >>= f) db = resume f (m db)

abbrev pub ◌>>◌ : {A B : Type 0} → Action A → Action B → Action B
m >> k = m >>= λ _. k

-- The reads of a handler.
abbrev pub read : {A : Type 0} → (Db → A) → Action A
read f db = (ok (f db), db)

abbrev pub tables : Action Db
tables = read λ db. db

-- One statement that writes.
abbrev pub write : (Db → Db) → Action Unit
write f db = (ok tt, f db)

abbrev pub lift : {A : Type 0} → Result A → Action A
lift r db = (r, db)

-- `if (!condition) throw e`
abbrev pub require : Bool → Error → Action Unit
require b e = lift (ensure b e)

-- `findUniqueOrThrow`, and `findUnique` with `if (!row) throw e`
abbrev pub found : {A : Type 0} → Option A → Error → Action A
found o e = lift (or_throw o e)

abbrev pub or_back : {A : Type 0} → Db → Result A × Db → Result A × Db
or_back old (ok a, db) = (ok a, db)
or_back old (err e, db) = (err e, old)

abbrev pub transaction : {A : Type 0} → Action A → Action A
transaction m db = or_back db (m db)

abbrev pub renamed : {A : Type 0} → (Error → Error) → Result A × Db → Result A × Db
renamed f (ok a, db) = (ok a, db)
renamed f (err e, db) = (err (f e), db)

-- `try { … } catch (err) { throw f(err) }`
abbrev pub rethrow : {A : Type 0} → (Error → Error) → Action A → Action A
rethrow f m db = renamed f (m db)

abbrev pub recovered : {A : Type 0} → (Error → Action A) → Result A × Db → Result A × Db
recovered f (ok a, db) = (ok a, db)
recovered f (err e, db) = f e db

-- `try { … } catch (err) { return f(err) }`
abbrev pub rescue : {A : Type 0} → (Error → Action A) → Action A → Action A
rescue f m db = recovered f (m db)

abbrev pub for_each : {A : Type 0} → (A → Action Unit) → List A → Action Unit
for_each f [] = return tt
for_each f (x ∷ xs) = f x >> for_each f xs

abbrev pub map_action : {A B : Type 0} → (A → Action B) → List A → Action (List B)
map_action f [] = return []
map_action f (x ∷ xs) = f x >>= λ y. map_action f xs >>= λ ys. return (y ∷ ys)

abbrev pub posted : Db → Result (ℕ × Ledger) → Result ℕ × Db
posted db (ok (id, l)) = (ok id, record db { ledger = l })
posted db (err e) = (err e, db)

-- `this.ledger.post(input, tx)`
unfoldable pub post_journal : PostJournalInput → Action ℕ
post_journal input db = posted db (post input db.ledger)

abbrev pub emitted : Event → Db → Db
emitted e db = record db {
  outbox =
      insert (fresh db.outbox) (record { event = e; published_at = none; attempts = 0 }) db.outbox;
}

abbrev pub emit : Event → Action Unit
emit e = write (emitted e)

abbrev pub notify : ℕ → Notice → Action Unit
notify user n = write λ db. record db { notifications = (user, n) ∷ db.notifications }

-- `audit.record`, by the actor
abbrev pub audit : ℕ → AuditAction → Action Unit
audit actor a = write λ db. record db { audits = (actor, a) ∷ db.audits }
