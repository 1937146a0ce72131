-- ===== src/Database/Keeps.antt =====
-- Which handlers keep the ledger's invariant.
use make_we_bet.Prelude.{ℕ, ◌≡◌, refl, Bool, true, false, List, pos, fresh, lookup-fresh}
use make_we_bet.Errors.{Error, Result, ok, err}
use make_we_bet.Ledger.{Account, PostJournalInput, Ledger, post}
use make_we_bet.Ledger.Invariant.{IsSound, post-IsSound, open_account, open_account-IsSound}
use make_we_bet.Database.Schema.{Db}
use make_we_bet.Database.Actions.{
  Action, map_action, ◌>>=◌, ◌>>◌, write, lift, transaction, rethrow, rescue, for_each, posted,
  post_journal,
}
use make_we_bet.Database.Invariant.{
  Keeps, lift-Keeps, >>=-Keeps, >>-Keeps, transaction-Keeps, rethrow-Keeps, rescue-Keeps,
  for_each-Keeps, map_action-Keeps, elim-Keeps,
}

abbrev Sound : Db → Type 0
Sound db = IsSound db.ledger

-- Whether the handler returns or throws, the ledger that it leaves is sound if it was before.
unfoldable pub KeepsSound : {A : Type 0} → Action A → Type 0
unfolding Keeps
KeepsSound m = Keeps Sound m

pub lift-KeepsSound : {A : Type 0} (r : Result A) → KeepsSound (lift r)
unfolding KeepsSound
lift-KeepsSound r = lift-Keeps Sound r

pub write-KeepsSound :
    (f : Db → Db) → ((db : Db) → (f db).ledger ≡ db.ledger) → KeepsSound (write f)
unfolding KeepsSound
write-KeepsSound f same db s = rw (same db) s

pub >>=-KeepsSound :
    {A B : Type 0} (m : Action A) (f : A → Action B)
    → KeepsSound m
    → ((a : A) → KeepsSound (f a))
    → KeepsSound (m >>= f)
unfolding KeepsSound
>>=-KeepsSound m f km kf = >>=-Keeps Sound m f km kf

pub >>-KeepsSound :
    {A B : Type 0} (m : Action A) (k : Action B) → KeepsSound m → KeepsSound k → KeepsSound (m >> k)
unfolding KeepsSound
>>-KeepsSound m k km kk = >>-Keeps Sound m k km kk

pub transaction-KeepsSound : {A : Type 0} (m : Action A) → KeepsSound m → KeepsSound (transaction m)
unfolding KeepsSound
transaction-KeepsSound m km = transaction-Keeps Sound m km

pub rethrow-KeepsSound :
    {A : Type 0} (f : Error → Error) (m : Action A) → KeepsSound m → KeepsSound (rethrow f m)
unfolding KeepsSound
rethrow-KeepsSound f m km = rethrow-Keeps Sound f m km

pub rescue-KeepsSound :
    {A : Type 0} (f : Error → Action A) (m : Action A)
    → ((e : Error) → KeepsSound (f e))
    → KeepsSound m
    → KeepsSound (rescue f m)
unfolding KeepsSound
rescue-KeepsSound f m kf km = rescue-Keeps Sound f m kf km

pub for_each-KeepsSound :
    {A : Type 0} (f : A → Action Unit)
    → ((a : A) → KeepsSound (f a))
    → (xs : List A) → KeepsSound (for_each f xs)
unfolding KeepsSound
for_each-KeepsSound f kf xs = for_each-Keeps Sound f kf xs

pub map_action-KeepsSound :
    {A B : Type 0} (f : A → Action B)
    → ((a : A) → KeepsSound (f a))
    → (xs : List A) → KeepsSound (map_action f xs)
unfolding KeepsSound
map_action-KeepsSound f kf xs = map_action-Keeps Sound f kf xs

pub elim-KeepsSound :
    {A : Type 0} (b : Bool) (m k : Action A)
    → KeepsSound m
    → KeepsSound k
    → KeepsSound (elim b [ true ↦ m | false ↦ k ])
unfolding KeepsSound
elim-KeepsSound b m k km kk = elim-Keeps Sound b m k km kk

posted_lem :
    (input : PostJournalInput) (db : Db)
    → IsSound db.ledger
    → (r : Result (ℕ × Ledger)) → post input db.ledger ≡ r
    → IsSound (posted db r).1.ledger
posted_lem input db s (ok (id, l)) h = post-IsSound input db.ledger h s
posted_lem input db s (err e) h = s

pub post_journal-KeepsSound : (input : PostJournalInput) → KeepsSound (post_journal input)
unfolding KeepsSound post_journal
post_journal-KeepsSound input db s = posted_lem input db s (post input db.ledger) refl

-- A new account with an unused id and no balance.
pub open_account-KeepsSound :
    (a : Account)
    → a.balance_minor ≡ pos 0
    → KeepsSound
        (write (λ db. record db { ledger = open_account (fresh db.ledger.accounts) a db.ledger }))
unfolding KeepsSound
open_account-KeepsSound a zero db s =
    open_account-IsSound _ a db.ledger (lookup-fresh db.ledger.accounts) zero s

pub ruleset keeps = (
  lift-KeepsSound, write-KeepsSound, >>=-KeepsSound, post_journal-KeepsSound,
  transaction-KeepsSound, rethrow-KeepsSound, rescue-KeepsSound, for_each-KeepsSound,
)
