-- ===== src/Contests/Laws.antt =====
-- The contest's operations keep the ledger sound.
use make_we_bet.Prelude.{ℕ, refl, Option, none, some, List}
use make_we_bet.Errors.{ok}
use make_we_bet.Ledger.{Account, contest_escrow}
use make_we_bet.Ledger.Invariant.{opened}
use make_we_bet.Contracts.{published, status_eq}
use make_we_bet.Database.{Contest, Entry}
use make_we_bet.Database.Keeps.{
  KeepsSound, open_account-KeepsSound, lift-KeepsSound, elim-KeepsSound, keeps,
}
use make_we_bet.Contests.{
  CreateContestRequest, FixtureOrder, SlotRequest, check_request, create_match, create_slot,
  create_rows, create, publish_rows, publish, lock_found, lock,
}
use make_we_bet.Contests.Cancel.{refund, check_empty, refund_all, cancel}

check_request-KeepsSound :
    (now : ℕ) (dto : CreateContestRequest) → KeepsSound (check_request now dto)
unfolding check_request KeepsSound
check_request-KeepsSound now dto = search (keeps) depth 12 fits 9000

create_match-KeepsSound : (id : ℕ) (f : FixtureOrder) → KeepsSound (create_match id f)
unfolding create_match KeepsSound
create_match-KeepsSound id f = search keeps

create_slot-KeepsSound : (id : ℕ) (s : SlotRequest) → KeepsSound (create_slot id s)
unfolding create_slot KeepsSound
create_slot-KeepsSound id s = search keeps

create_rows-KeepsSound :
    (dto : CreateContestRequest) (rules payout : ℕ) → KeepsSound (create_rows dto rules payout)
unfolding create_rows KeepsSound
create_rows-KeepsSound dto rules payout =
    search (keeps, create_match-KeepsSound, create_slot-KeepsSound) depth 9 fits 9000

pub create-KeepsSound : (now : ℕ) (dto : CreateContestRequest) → KeepsSound (create now dto)
unfolding create KeepsSound
create-KeepsSound now dto =
    search (keeps, check_request-KeepsSound, create_rows-KeepsSound) depth 9 fits 9000

publish_rows-KeepsSound : (id lock_at : ℕ) (c : Contest) → KeepsSound (publish_rows id lock_at c)
unfolding publish_rows KeepsSound
publish_rows-KeepsSound id lock_at c =
    search (keeps, open_account-KeepsSound (opened contest_escrow none (some id) c.currency) refl)

pub publish-KeepsSound : (now id : ℕ) → KeepsSound (publish now id)
unfolding publish KeepsSound
publish-KeepsSound now id = search (keeps, publish_rows-KeepsSound) depth 12 fits 9000

lock_found-KeepsSound : (id : ℕ) (o : Option Contest) → KeepsSound (lock_found id o)
unfolding KeepsSound
lock_found-KeepsSound id none = search keeps
lock_found-KeepsSound id (some c) =
    elim-KeepsSound (status_eq c.status published) _ _ (λ db s. s) (lift-KeepsSound (ok tt))

pub lock-KeepsSound : (id : ℕ) → KeepsSound (lock id)
unfolding lock KeepsSound
lock-KeepsSound id = search (keeps, lock_found-KeepsSound)

refund-KeepsSound :
    (id : ℕ) (c : Contest) (escrow : Option (ℕ × Account)) (e : ℕ × Entry)
    → KeepsSound (refund id c escrow e)
unfolding refund KeepsSound
refund-KeepsSound id c escrow e = search keeps

check_empty-KeepsSound : (escrow : Option (ℕ × Account)) → KeepsSound (check_empty escrow)
unfolding check_empty KeepsSound
check_empty-KeepsSound none = search keeps
check_empty-KeepsSound (some a) = search keeps

refund_all-KeepsSound :
    (id : ℕ) (c : Contest) (escrow : Option (ℕ × Account)) (es : List (ℕ × Entry))
    → KeepsSound (refund_all id c escrow es)
unfolding refund_all KeepsSound
refund_all-KeepsSound id c escrow es = search (keeps, refund-KeepsSound, check_empty-KeepsSound)

-- Cancelling a contest keeps the ledger sound.
pub cancel-KeepsSound : (id : ℕ) → KeepsSound (cancel id)
unfolding cancel KeepsSound
cancel-KeepsSound id = search (keeps, refund_all-KeepsSound)
