-- ===== src/Database/Invariant.antt =====
-- Which handlers keep an invariant of the tables: it is enough to look at their parts.
use make_we_bet.Prelude.{Bool, true, false, List, [], ◌∷◌}
use make_we_bet.Errors.{Error, Result, ok, err}
use make_we_bet.Database.Schema.{Db}
use make_we_bet.Database.Actions.{
  Action, map_action, return, ◌>>=◌, ◌>>◌, lift, transaction, rethrow, rescue, for_each, resume,
  or_back, renamed, recovered,
}

-- Whether the handler returns or throws, the tables that it leaves satisfy `P` if they did before.
unfoldable pub Keeps : (Db → Type 0) → {A : Type 0} → Action A → Type 0
Keeps P m = (db : Db) → P db → P (m db).1

module _ (P : Db → Type 0) where
  pub lift-Keeps : {A : Type 0} (r : Result A) → Keeps P (lift r)
  unfolding Keeps
  lift-Keeps r db s = s

  resume_lem :
      {A B : Type 0} (f : A → Action B)
      → ((a : A) → Keeps P (f a))
      → (r : Result A × Db) → P r.1
      → P (resume f r).1
  unfolding Keeps
  resume_lem f kf (ok a, db) s = kf a db s
  resume_lem f kf (err e, db) s = s

  pub >>=-Keeps :
      {A B : Type 0} (m : Action A) (f : A → Action B)
      → Keeps P m
      → ((a : A) → Keeps P (f a))
      → Keeps P (m >>= f)
  unfolding Keeps
  >>=-Keeps m f km kf db s = resume_lem f kf (m db) (km db s)

  pub >>-Keeps :
      {A B : Type 0} (m : Action A) (k : Action B) → Keeps P m → Keeps P k → Keeps P (m >> k)
  >>-Keeps m k km kk = >>=-Keeps m (λ _. k) km (λ _. kk)

  or_back_lem : {A : Type 0} (old : Db) (r : Result A × Db) → P old → P r.1 → P (or_back old r).1
  or_back_lem old (ok a, db) before after = after
  or_back_lem old (err e, db) before after = before

  pub transaction-Keeps : {A : Type 0} (m : Action A) → Keeps P m → Keeps P (transaction m)
  unfolding Keeps
  transaction-Keeps m km db s = or_back_lem db (m db) s (km db s)

  renamed_lem : {A : Type 0} (f : Error → Error) (r : Result A × Db) → P r.1 → P (renamed f r).1
  renamed_lem f (ok a, db) s = s
  renamed_lem f (err e, db) s = s

  pub rethrow-Keeps :
      {A : Type 0} (f : Error → Error) (m : Action A) → Keeps P m → Keeps P (rethrow f m)
  unfolding Keeps
  rethrow-Keeps f m km db s = renamed_lem f (m db) (km db s)

  recovered_lem :
      {A : Type 0} (f : Error → Action A)
      → ((e : Error) → Keeps P (f e))
      → (r : Result A × Db) → P r.1
      → P (recovered f r).1
  unfolding Keeps
  recovered_lem f kf (ok a, db) s = s
  recovered_lem f kf (err e, db) s = kf e db s

  pub rescue-Keeps :
      {A : Type 0} (f : Error → Action A) (m : Action A)
      → ((e : Error) → Keeps P (f e))
      → Keeps P m
      → Keeps P (rescue f m)
  unfolding Keeps
  rescue-Keeps f m kf km db s = recovered_lem f kf (m db) (km db s)

  pub for_each-Keeps :
      {A : Type 0} (f : A → Action Unit)
      → ((a : A) → Keeps P (f a))
      → (xs : List A) → Keeps P (for_each f xs)
  for_each-Keeps f kf [] = lift-Keeps (ok tt)
  for_each-Keeps f kf (x ∷ xs) = >>-Keeps (f x) (for_each f xs) (kf x) (for_each-Keeps f kf xs)

  map_action_step :
      {B : Type 0} (m : Action B) (rest : Action (List B))
      → Keeps P m
      → Keeps P rest
      → Keeps P (m >>= λ y. rest >>= λ ys. return (y ∷ ys))
  map_action_step m rest km krest =
      >>=-Keeps m _ km (λ y. >>=-Keeps rest _ krest (λ ys. lift-Keeps (ok (y ∷ ys))))

  pub map_action-Keeps :
      {A B : Type 0} (f : A → Action B)
      → ((a : A) → Keeps P (f a))
      → (xs : List A) → Keeps P (map_action f xs)
  map_action-Keeps f kf [] = lift-Keeps (ok [])
  map_action-Keeps f kf (x ∷ xs) =
      map_action_step (f x) (map_action f xs) (kf x) (map_action-Keeps f kf xs)

  pub elim-Keeps :
      {A : Type 0} (b : Bool) (m k : Action A)
      → Keeps P m
      → Keeps P k
      → Keeps P (elim b [ true ↦ m | false ↦ k ])
  elim-Keeps true m k km kk = km
  elim-Keeps false m k km kk = kk

pub ruleset keeps_any =
    (lift-Keeps, >>=-Keeps, transaction-Keeps, rethrow-Keeps, rescue-Keeps, for_each-Keeps)
