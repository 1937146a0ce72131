-- ===== src/Results/Once.antt =====
-- A result is final once.
use make_we_bet.Prelude.{
  ℕ, ◌≡◌, refl, some, true, false, inl, inr, Bool-cases, Option-cases, lookup, insert,
  lookup-insert_self,
}
use make_we_bet.Errors.{ok, err, result_already_final, fixture_not_found}
use make_we_bet.Contracts.{match_result_finalized}
use make_we_bet.Scoring.Markets.{FinalResult}
use make_we_bet.Database.{Db, Fixture, emitted}
use make_we_bet.Wallet.{is_null}
use make_we_bet.Results.{with_result, finalize, finalize_rows}

-- A fixture that has a result refuses every other one, and the tables stay.
refuses :
    (now id : ℕ) (r : FinalResult) (db : Db) (f : Fixture)
    → lookup id db.fixtures ≡ some f
    → is_null f.result_finalized_at ≡ false
    → finalize now id r db ≡ (err result_already_final, db)
unfolding finalize
refuses now id r db f e n = rw (e, n)

abbrev finalized : ℕ → ℕ → FinalResult → Fixture → Db → Db
finalized now id r f db =
    emitted (match_result_finalized id)
      (record db { fixtures = insert id (with_result now r f) db.fixtures })

accepts :
    (now id : ℕ) (r : FinalResult) (db : Db) (f : Fixture)
    → lookup id db.fixtures ≡ some f
    → is_null f.result_finalized_at ≡ true
    → finalize now id r db ≡ (ok tt, finalized now id r f db)
unfolding finalize finalize_rows
accepts now id r db f e n = rw (e, n)

-- After a finalization that returned, every other one of the fixture is refused and changes nothing.
pub finalize-finalize :
    (now later id : ℕ) (r s : FinalResult) (db : Db)
    → (finalize now id r db).0 ≡ ok tt
    → finalize later id s (finalize now id r db).1
      ≡ (err result_already_final, (finalize now id r db).1)
unfolding finalize finalize_rows
finalize-finalize now later id r s db h = elim (Option-cases (lookup id db.fixtures)) [
  | inl e ↦ absurd (let h' : err fixture_not_found ≡ ok tt = rw e at h in cc h')
  | inr (f, e) ↦ elim (Bool-cases (is_null f.result_finalized_at)) [
    | inl n ↦ rw (accepts now id r db f e n) (
        refuses later id s (finalized now id r f db) (with_result now r f)
          (lookup-insert_self id (with_result now r f) db.fixtures) refl)
    | inr n ↦ absurd (let h' : err result_already_final ≡ ok tt = rw (e, n) at h in cc h')
  ]
]
