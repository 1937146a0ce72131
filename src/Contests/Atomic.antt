-- ===== src/Contests/Atomic.antt =====
-- The cancellation of a contest is all or nothing.
use make_we_bet.Errors.{Error, err}
use make_we_bet.Database.{Db}
use make_we_bet.Prelude.{◌≡◌, ℕ}
use make_we_bet.Database.Atomic.{IsAtomic, IsReadOnly, atomic}
use make_we_bet.Contests.Cancel.{cancel}

cancel-IsAtomic : (id : ℕ) → IsAtomic (cancel id)
unfolding cancel IsAtomic IsReadOnly
cancel-IsAtomic id = search atomic depth 12 fits 9000

-- A cancellation that throws leaves every table as it was: no entry is refunded alone.
pub cancel-unchanged :
    (id : ℕ) (db : Db) (e : Error) → (cancel id db).0 ≡ err e → (cancel id db).1 ≡ db
unfolding IsAtomic
cancel-unchanged id db e h = cancel-IsAtomic id db e h
