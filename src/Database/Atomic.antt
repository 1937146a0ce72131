-- ===== src/Database/Atomic.antt =====
-- Which handlers are all or nothing: what only reads, and then runs one transaction.
use make_we_bet.Prelude.{◌≡◌, refl, ◌∙◌, List, [], ◌∷◌}
use make_we_bet.Errors.{Error, Result, ok, err}
use make_we_bet.Database.Schema.{Db}
use make_we_bet.Database.Actions.{
  Action, return, ◌>>=◌, resume, or_back, renamed, lift, transaction, rethrow, map_action,
}

-- A handler that throws leaves the tables as they were.
unfoldable pub IsAtomic : {A : Type 0} → Action A → Type 0
IsAtomic m = (db : Db) (e : Error) → (m db).0 ≡ err e → (m db).1 ≡ db

-- A handler that only reads.
unfoldable pub IsReadOnly : {A : Type 0} → Action A → Type 0
IsReadOnly m = (db : Db) → (m db).1 ≡ db

pub lift-IsReadOnly : {A : Type 0} (r : Result A) → IsReadOnly (lift r)
unfolding IsReadOnly
lift-IsReadOnly r db = refl

resume-IsReadOnly :
    {A B : Type 0} (f : A → Action B)
    → ((a : A) → IsReadOnly (f a))
    → (r : Result A × Db) → (resume f r).1 ≡ r.1
unfolding IsReadOnly
resume-IsReadOnly f kf (ok a, db) = kf a db
resume-IsReadOnly f kf (err e, db) = refl

pub >>=-IsReadOnly :
    {A B : Type 0} (m : Action A) (f : A → Action B)
    → IsReadOnly m
    → ((a : A) → IsReadOnly (f a))
    → IsReadOnly (m >>= f)
unfolding IsReadOnly
>>=-IsReadOnly m f km kf db = resume-IsReadOnly f kf (m db) ∙ km db

map_action_step :
    {B : Type 0} (m : Action B) (rest : Action (List B))
    → IsReadOnly m
    → IsReadOnly rest
    → IsReadOnly (m >>= λ y. rest >>= λ ys. return (y ∷ ys))
map_action_step m rest km krest =
    >>=-IsReadOnly m _ km (λ y. >>=-IsReadOnly rest _ krest (λ ys. lift-IsReadOnly (ok (y ∷ ys))))

pub map_action-IsReadOnly :
    {A B : Type 0} (f : A → Action B)
    → ((a : A) → IsReadOnly (f a))
    → (xs : List A) → IsReadOnly (map_action f xs)
map_action-IsReadOnly f kf [] = lift-IsReadOnly (ok [])
map_action-IsReadOnly f kf (x ∷ xs) =
    map_action_step (f x) (map_action f xs) (kf x) (map_action-IsReadOnly f kf xs)

resume-IsAtomic :
    {A B : Type 0} (f : A → Action B)
    → ((a : A) → IsAtomic (f a))
    → (r : Result A × Db) (e : Error) → (resume f r).0 ≡ err e
    → (resume f r).1 ≡ r.1
unfolding IsAtomic
resume-IsAtomic f kf (ok a, db) e h = kf a db e h
resume-IsAtomic f kf (err d, db) e h = refl

-- Reads before an atomic handler.
pub >>=-IsAtomic :
    {A B : Type 0} (m : Action A) (f : A → Action B)
    → IsReadOnly m
    → ((a : A) → IsAtomic (f a))
    → IsAtomic (m >>= f)
unfolding IsAtomic IsReadOnly
>>=-IsAtomic m f km kf db e h = resume-IsAtomic f kf (m db) e h ∙ km db

or_back-restores :
    {A : Type 0} (old : Db) (r : Result A × Db) (e : Error)
    → (or_back old r).0 ≡ err e
    → (or_back old r).1 ≡ old
or_back-restores old (ok a, db) e h = cc h
or_back-restores old (err d, db) e h = refl

pub transaction-IsAtomic : {A : Type 0} (m : Action A) → IsAtomic (transaction m)
unfolding IsAtomic
transaction-IsAtomic m db e h = or_back-restores db (m db) e h

renamed-restores :
    {A : Type 0} (f : Error → Error) (old : Db) (r : Result A × Db)
    → ((e : Error) → r.0 ≡ err e → r.1 ≡ old)
    → (e : Error) → (renamed f r).0 ≡ err e
    → (renamed f r).1 ≡ old
renamed-restores f old (ok a, db) k e h = cc h
renamed-restores f old (err d, db) k e h = k d refl

pub rethrow-IsAtomic :
    {A : Type 0} (f : Error → Error) (m : Action A) → IsAtomic m → IsAtomic (rethrow f m)
unfolding IsAtomic
rethrow-IsAtomic f m km db e h = renamed-restores f db (m db) (km db) e h

pub ruleset atomic =
    (lift-IsReadOnly, >>=-IsReadOnly, >>=-IsAtomic, transaction-IsAtomic, rethrow-IsAtomic)
