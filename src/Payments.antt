-- ===== src/Payments.antt =====
-- apps/api/src/modules/payments: DepositsService of deposits.service.ts and WebhooksService of
-- webhooks.service.ts. The payment gateway is not of this repository: what it answers is a
-- parameter, and so is the test of a webhook's signature.
pub mod Webhooks
pub mod Laws
pub mod Once
use make_we_bet.Prelude.{ℕ, Bool, true, false, Option, none, some, ◌==◌, pos, lookup, insert, fresh}
use make_we_bet.Errors.{Result, intent_not_found, record_not_found}
use make_we_bet.Contracts.{wallet_credited}
use make_we_bet.Ledger.{PostJournalInput, gateway_clearing, deposit, deposit_key}
use make_we_bet.Ledger.Transfer.{transfer}
use make_we_bet.Database.{
  PaymentIntent, PaymentStatus, initiated, pending, succeeded, failed_payment, Db, Action, ◌>>=◌,
  ◌>>◌, return, tables, write, lift, require, found, transaction, post_journal, emit,
}
use make_we_bet.Wallet.{user_wallet, system}

-- `verifyDeposit`'s answer; of a success it names the amount that was paid.
pub data Verification : Type 0 where
  verified_pending verified_failed : Verification
  verified_succeeded : ℕ → Verification

-- `initializeDeposit` gives a reference of the provider's, or throws.
abbrev new_intent : ℕ → ℕ → PaymentIntent
new_intent user amount = record {
  user_id = user;
  amount_minor = amount;
  status = initiated;
  provider_ref = none;
  settled_at = none;
}

unfoldable pub initiate : (ℕ → Result ℕ) → ℕ → ℕ → Action ℕ
initiate initialize_deposit user amount = do
  db ← tables
  u ← found (lookup user db.users) record_not_found
  let id = fresh db.payment_intents
  let intent = new_intent user amount
  write λ db. record db { payment_intents = insert id intent db.payment_intents }
  ref ← lift (initialize_deposit id)
  write λ db. record db {
    payment_intents =
        insert id (record intent { provider_ref = some ref; status = pending }) db.payment_intents;
  }
  return id

abbrev pub deposit_journal : ℕ → ℕ → ℕ → ℕ → PostJournalInput
deposit_journal reference clearing wallet amount =
    transfer deposit (deposit_key reference) clearing wallet (pos amount)

-- The transaction: the wallet is credited with what the provider says was paid.
unfoldable pub credit : ℕ → ℕ → PaymentIntent → ℕ → Action PaymentStatus
credit now reference intent amount = do
  (wallet, _) ← user_wallet intent.user_id
  (clearing, _) ← system gateway_clearing
  post_journal (deposit_journal reference clearing wallet amount)
  write λ db. record db {
    payment_intents =
        insert reference
          (record intent { status = succeeded; settled_at = some now; amount_minor = amount })
          db.payment_intents;
  }
  emit (wallet_credited reference)
  return succeeded

unfoldable pub settle_verified : ℕ → ℕ → PaymentIntent → Verification → Action PaymentStatus
unfolding credit
settle_verified now reference intent verified_pending = return pending
settle_verified now reference intent verified_failed = do
  write λ db. record db {
    payment_intents =
        insert reference (record intent { status = failed_payment }) db.payment_intents;
  }
  return failed_payment
settle_verified now reference intent (verified_succeeded amount) =
    transaction (credit now reference intent amount)

abbrev pub is_succeeded : PaymentStatus → Bool
is_succeeded succeeded = true
is_succeeded _ = false

unfoldable pub settle_intent :
    (ℕ → Result Verification) → ℕ → ℕ → PaymentIntent → Action PaymentStatus
unfolding settle_verified
settle_intent verify_deposit now reference intent = elim (is_succeeded intent.status) [
  | true ↦ return succeeded
  | false ↦ lift (verify_deposit reference) >>= λ v. settle_verified now reference intent v
]

unfoldable pub settle : (ℕ → Result Verification) → ℕ → ℕ → Action PaymentStatus
unfolding settle_intent
settle verify_deposit now reference = do
  db ← tables
  intent ← found (lookup reference db.payment_intents) intent_not_found
  settle_intent verify_deposit now reference intent

abbrev owner_is : ℕ → Option PaymentIntent → Bool
owner_is user none = false
owner_is user (some i) = i.user_id == user

unfoldable pub assert_ownership : ℕ → ℕ → Action Unit
assert_ownership reference user = do
  db ← tables
  require (owner_is user (lookup reference db.payment_intents)) intent_not_found
