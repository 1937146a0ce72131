-- ===== src/Database/Returned.antt =====
-- Inversion of a handler that returned: its parts returned too.
use make_we_bet.Prelude.{◌≡◌, refl}
use make_we_bet.Errors.{Result, ok, err}
use make_we_bet.Database.Schema.{Db}
use make_we_bet.Database.Actions.{Action, ◌>>=◌, resume, or_back, transaction}

module _ {A B : Type 0} where
  Continued : (A → Action B) → Result A × Db → B → Type 0
  Continued f r b = (a : A) × (r.0 ≡ ok a) × ((f a r.1).0 ≡ ok b) × ((resume f r).1 ≡ (f a r.1).1)

  resume-returned :
      (f : A → Action B) (r : Result A × Db) {b : B} → (resume f r).0 ≡ ok b → Continued f r b
  unfolding Continued
  resume-returned f (ok a, db) h = (a, refl, h, refl)
  resume-returned f (err e, db) h = cc h

  pub >>=-returned :
      (m : Action A) (f : A → Action B) (db : Db) {b : B}
      → ((m >>= f) db).0 ≡ ok b
      → (a : A) × ((m db).0 ≡ ok a)
        × ((f a (m db).1).0 ≡ ok b)
        × (((m >>= f) db).1 ≡ (f a (m db).1).1)
  unfolding Continued
  >>=-returned m f db h = resume-returned f (m db) h

or_back-returned :
    {A : Type 0} (old : Db) (r : Result A × Db) {a : A}
    → (or_back old r).0 ≡ ok a
    → or_back old r ≡ r
or_back-returned old (ok a, db) h = refl
or_back-returned old (err e, db) h = cc h

-- A transaction that returned is its body.
pub transaction-returned :
    {A : Type 0} (m : Action A) (db : Db) {a : A}
    → (transaction m db).0 ≡ ok a
    → transaction m db ≡ m db
transaction-returned m db h = or_back-returned db (m db) h
