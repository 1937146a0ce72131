-- ===== src/Examples/Contests.antt =====
-- Entries, cancellations and scores at concrete inputs.
use make_we_bet.Settlement.Distribution.{pay_prizes}
use make_we_bet.Settlement.Prizes.{compute_prizes}
use make_we_bet.Settlement.Empties.{pay_prizes-empties}
use make_we_bet.Contests.Cancel.{balance_is_zero}
use make_we_bet.Ledger.{user_available, contest_escrow, platform_revenue}
use make_we_bet.Examples.{account}
use make_we_bet.Prelude.{negsuc, lookup}
use make_we_bet.Prelude.{ℕ, ◌≡◌, refl, none, some, true, false, [], ◌∷◌, pos, insert, List, Table}
use make_we_bet.Errors.{ok, err}
use make_we_bet.Ledger.{Ledger, user_available, gateway_clearing}
use make_we_bet.Contracts.{published}
use make_we_bet.Database.{
  Db, Contest, ContestSlot, ContestMatch, Fixture, scheduled, PaymentIntent, pending, succeeded,
  Withdrawal, requested, BankAccount,
}
use make_we_bet.Entries.{SubmitSlipRequest, submit_slip}
use make_we_bet.Slip.{SlotDefinition, validate_slip, slot_by_id}
use make_we_bet.Contracts.{is_valid_selection}
use make_we_bet.Entries.Admission.{IsAdmitted, submit_slip-IsAdmitted}
use make_we_bet.Database.{Entry}
use make_we_bet.Entries.{new_entry}
use make_we_bet.Contracts.{safe}
use make_we_bet.Ledger.{post}
use make_we_bet.Errors.{zero_amount_line}
use make_we_bet.Settlement.Distribution.{settlement_journal}
use make_we_bet.Settlement.Commission.{settlement_journal-zero_commission}
use make_we_bet.Entries.{new_prediction}
use make_we_bet.Prelude.{select, update_all}
use make_we_bet.Contracts.{match_winner}
use make_we_bet.Database.{Prediction}
use make_we_bet.Scoring.Service.{mark_groups, group_picks, score_pick, is_on}
use make_we_bet.Scoring.Grouping.{mark_groups-update_all, score_if}
use make_we_bet.Examples.{empty_db, some_ledger, ten_slots}
use make_we_bet.Examples.Services.{slip_request, one_nil}

abbrev contest : Contest
contest = record {
  status = published;
  entry_fee_minor = 500;
  currency = 0;
  commission_bps = 1000;
  max_entries = some 50;
  lock_at = some 100;
  rule_set_id = 0;
  payout_template_id = 0;
  deleted_at = none;
}

abbrev slot_rows : List SlotDefinition → Table ContestSlot
slot_rows [] = []
slot_rows (s ∷ ss) =
    (s.slot_id, record { contest_id = 3; contest_match_id = 8; slot_no = s.slot_id; tier = s.tier })
    ∷ slot_rows ss

abbrev contest_db : Db
contest_db = record (empty_db some_ledger) {
  contests = (3, contest) ∷ [];
  contest_slots = slot_rows ten_slots;
  contest_matches = (8, record { contest_id = 3; fixture_id = 5; order = 1 }) ∷ [];
  rule_sets = (0, record { is_active = true; market_rules = [] }) ∷ [];
}

submission-returns : (submit_slip 10 7 slip_request contest_db).0 ≡ ok 0
unfolding submit_slip validate_slip slot_by_id is_valid_selection make_we_bet.Database.post_journal
    make_we_bet.Ledger.post make_we_bet.Ledger.validate_lines make_we_bet.Prelude.neg
    make_we_bet.Prelude.◌+ℤ◌ make_we_bet.Ledger.run make_we_bet.Ledger.post_new
    make_we_bet.Ledger.apply_lines make_we_bet.Ledger.apply_line make_we_bet.Entries.create_entry
submission-returns = refl

submit_slip-IsAdmitted_example : IsAdmitted 10 slip_request contest_db
submit_slip-IsAdmitted_example =
    submit_slip-IsAdmitted 10 7 slip_request contest_db submission-returns

abbrev entered : Entry
entered =
    new_entry 3 7 0 (record { profile = safe; risk_pct = some 20; max_potential_score_x10 = 0 }) 10

settlement_journal-zero_commission_example :
    post (settlement_journal 3 1 2 (pos 500) (pos 0) []) some_ledger ≡ err zero_amount_line
settlement_journal-zero_commission_example =
    settlement_journal-zero_commission 3 1 2 (pos 500) [] some_ledger

abbrev two_predictions : Table Prediction
two_predictions =
    (0, new_prediction 0 (record { slot_id = 1; market_type = match_winner; selection = "HOME" }))
    ∷ (1, new_prediction 1 (record { slot_id = 1; market_type = match_winner; selection = "HOME" }))
    ∷ []

mark_groups-update_all_example :
    mark_groups 300
      (group_picks
        (score_pick one_nil [])
        (select (is_on 8 (slot_rows ten_slots)) two_predictions)
        [])
      two_predictions
    ≡ update_all
        (is_on 8 (slot_rows ten_slots))
        (score_if 300 (score_pick one_nil []) (is_on 8 (slot_rows ten_slots)))
        two_predictions
mark_groups-update_all_example =
    mark_groups-update_all 300 (score_pick one_nil []) (is_on 8 (slot_rows ten_slots))
      two_predictions (refl, (refl, tt))

-- Contest 3 with 1000 in its escrow, and user 7 as the one entrant.
abbrev payout_tables : Db
payout_tables =
    record (empty_db (record some_ledger {
      accounts =
          (0, account user_available (some 7) none (pos 0))
          ∷ (1, account contest_escrow none (some 3) (pos 1000))
          ∷ (2, account platform_revenue none none (negsuc 999))
          ∷ [];
    })) {
      entries = (0, entered) ∷ [];
      payout_templates =
          (
            0,
            record {
              is_active = true;
              structure = record { from = 1; to = 1; share_bps = 10000 } ∷ [];
            },
          )
          ∷ [];
    }

payout-returns : (pay_prizes 3 contest 1 2 1000 ((0, entered) ∷ []) payout_tables).0 ≡ ok tt
unfolding pay_prizes compute_prizes make_we_bet.Database.post_journal post
    make_we_bet.Ledger.validate_lines make_we_bet.Prelude.neg make_we_bet.Prelude.◌+ℤ◌
    make_we_bet.Ledger.run make_we_bet.Ledger.post_new make_we_bet.Ledger.apply_lines
    make_we_bet.Ledger.apply_line
payout-returns = refl

pay_prizes-empties_example :
    balance_is_zero
      (lookup 1 (pay_prizes 3 contest 1 2 1000 ((0, entered) ∷ []) payout_tables).1.ledger.accounts)
    ≡ true
pay_prizes-empties_example =
    pay_prizes-empties 3 contest 1 2 1000 ((0, entered) ∷ []) payout_tables payout-returns
