-- ===== src/Entries/Admission.antt =====
-- Who gets an entry.
use make_we_bet.Prelude.{ℕ, ◌≡◌, refl, some, Bool, true, false, not, List, [], ◌∷◌, map, length}
use make_we_bet.Errors.{
  ok, ensure-eq-ok, or_throw-eq-ok, invalid_slip, contest_full, contest_closed, contest_not_found,
}
use make_we_bet.Slip.{SlipViolation, validate_slip}
use make_we_bet.Slip.Laws.{IsSlip, validate_slip-IsSlip}
use make_we_bet.Database.{Db, Contest, require, found}
use make_we_bet.Database.Returned.{>>=-returned}
use make_we_bet.Entries.{
  SubmitSlipRequest, live_contest, is_open, is_full, active_entries, slot_definition, slots_of,
  is_empty, admit, submit_slip,
}

-- What admitted a submission: an open contest with room and a slip of its slots.
pub record IsAdmitted (now : ℕ) (dto : SubmitSlipRequest) (db : Db) : Type 0 where
  pub contest : Contest
  pub found_contest : live_contest dto.contest_id db.contests ≡ some contest
  pub open_now : is_open contest now ≡ true
  pub has_room : is_full contest (length (active_entries dto.contest_id db.entries)) ≡ false
  pub slip : IsSlip (map slot_definition (slots_of dto.contest_id db.contest_slots)) dto.predictions

is_empty-nil : (xs : List SlipViolation) → is_empty xs ≡ true → xs ≡ []
is_empty-nil [] h = refl
is_empty-nil (x ∷ xs) h = cc h

not-true : (b : Bool) → not b ≡ true → b ≡ false
not-true true h = cc h
not-true false h = refl

pub admit-IsAdmitted :
    (now : ℕ) (db : Db) (dto : SubmitSlipRequest) {c : Contest}
    → (admit now db dto db).0 ≡ ok c
    → IsAdmitted now dto db
unfolding admit
admit-IsAdmitted now db dto h =
    let (c, e, h1, _) =
      >>=-returned (found (live_contest dto.contest_id db.contests) contest_not_found) _ db h in
    let (_, o, h2, _) = >>=-returned (require (is_open c now) contest_closed) _ db h1 in
    let (_, r, h3, _) =
      >>=-returned
        (require (not (is_full c (length (active_entries dto.contest_id db.entries)))) contest_full)
        _ db h2 in
    let (_, v, _, _) =
      >>=-returned
        (require
          (is_empty (
            validate_slip (map slot_definition (slots_of dto.contest_id db.contest_slots))
              dto.predictions))
          invalid_slip)
        _ db h3 in
    record {
      contest = c;
      found_contest = or_throw-eq-ok _ _ e;
      open_now = ensure-eq-ok _ _ o;
      has_room = not-true _ (ensure-eq-ok _ _ r);
      slip = validate_slip-IsSlip _ _ (is_empty-nil _ (ensure-eq-ok _ _ v));
    }

-- A submission that returns an entry was for a published contest before its lock, with room left,
-- and with a slip that the rule of the slots describes.
pub submit_slip-IsAdmitted :
    (now user : ℕ) (dto : SubmitSlipRequest) (db : Db) {id : ℕ}
    → (submit_slip now user dto db).0 ≡ ok id
    → IsAdmitted now dto db
unfolding submit_slip
submit_slip-IsAdmitted now user dto db h =
    let (c, e, _, _) = >>=-returned (admit now db dto) _ db h in admit-IsAdmitted now db dto e
