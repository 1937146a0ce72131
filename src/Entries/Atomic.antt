-- ===== src/Entries/Atomic.antt =====
-- The submission of a slip is all or nothing.
use make_we_bet.Errors.{Error, err}
use make_we_bet.Prelude.{◌≡◌, ℕ, List}
use make_we_bet.Contracts.{MarketType}
use make_we_bet.Slip.{SlipPrediction}
use make_we_bet.Database.{Db}
use make_we_bet.Database.Atomic.{IsAtomic, IsReadOnly, map_action-IsReadOnly, atomic}
use make_we_bet.Entries.{SubmitSlipRequest, risk_slot, admit, submit_slip}

risk_slot-IsReadOnly :
    (db : Db) (rules : List (MarketType × ℕ)) (p : SlipPrediction)
    → IsReadOnly (risk_slot db rules p)
unfolding risk_slot IsReadOnly
risk_slot-IsReadOnly db rules p = search atomic

pub admit-IsReadOnly : (now : ℕ) (db : Db) (dto : SubmitSlipRequest) → IsReadOnly (admit now db dto)
unfolding admit IsReadOnly
admit-IsReadOnly now db dto = search atomic depth 12 fits 9000

submit_slip-IsAtomic :
    (now user : ℕ) (dto : SubmitSlipRequest) → IsAtomic (submit_slip now user dto)
unfolding submit_slip IsAtomic IsReadOnly
submit_slip-IsAtomic now user dto =
    search (atomic, map_action-IsReadOnly, risk_slot-IsReadOnly, admit-IsReadOnly) depth 9 fits 9000

-- A submission that throws, whatever the error, leaves every table as it was.
pub submit_slip-unchanged :
    (now user : ℕ) (dto : SubmitSlipRequest) (db : Db) (e : Error)
    → (submit_slip now user dto db).0 ≡ err e
    → (submit_slip now user dto db).1 ≡ db
unfolding IsAtomic
submit_slip-unchanged now user dto db e h = submit_slip-IsAtomic now user dto db e h
