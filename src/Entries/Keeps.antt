-- ===== src/Entries/Keeps.antt =====
-- The submission of a slip keeps the ledger sound.
use make_we_bet.Prelude.{ℕ, List}
use make_we_bet.Contracts.{RiskMeterResult}
use make_we_bet.Slip.{SlipPrediction}
use make_we_bet.Database.{Contest, Entry, Db}
use make_we_bet.Database.Keeps.{KeepsSound, map_action-KeepsSound, keeps}
use make_we_bet.Contracts.{MarketType}
use make_we_bet.Entries.{
  SubmitSlipRequest, risk_slot, create_entry, pay_and_enter, admit, submit_slip,
}

risk_slot-KeepsSound :
    (db : Db) (rules : List (MarketType × ℕ)) (p : SlipPrediction)
    → KeepsSound (risk_slot db rules p)
unfolding risk_slot KeepsSound
risk_slot-KeepsSound db rules p = search keeps

create_entry-KeepsSound : (e : Entry) (ps : List SlipPrediction) → KeepsSound (create_entry e ps)
unfolding create_entry KeepsSound
create_entry-KeepsSound e ps = search keeps

pay_and_enter-KeepsSound :
    (now user : ℕ) (c : Contest) (dto : SubmitSlipRequest) (risk : RiskMeterResult)
    → KeepsSound (pay_and_enter now user c dto risk)
unfolding pay_and_enter KeepsSound
pay_and_enter-KeepsSound now user c dto risk =
    search (keeps, create_entry-KeepsSound) depth 9 fits 9000

admit-KeepsSound : (now : ℕ) (db : Db) (dto : SubmitSlipRequest) → KeepsSound (admit now db dto)
unfolding admit KeepsSound
admit-KeepsSound now db dto = search keeps depth 12 fits 9000

-- The submission of a slip keeps the ledger sound.
pub submit_slip-KeepsSound :
    (now user : ℕ) (dto : SubmitSlipRequest) → KeepsSound (submit_slip now user dto)
unfolding submit_slip KeepsSound
submit_slip-KeepsSound now user dto =
    search
      (
        keeps, map_action-KeepsSound, risk_slot-KeepsSound, admit-KeepsSound,
        pay_and_enter-KeepsSound,
      )
      depth 9 fits 9000
