-- ===== src/Payments/Laws.antt =====
-- Deposits and webhooks keep the ledger sound.
use make_we_bet.Prelude.{ℕ, Bool, true, false, Option, none, some}
use make_we_bet.Errors.{Result, ok}
use make_we_bet.Database.{
  PaymentIntent, lift, WebhookEventName, charge_success, transfer_succeeded, transfer_did_fail,
  transfer_was_reversed, other_event,
}
use make_we_bet.Database.Keeps.{KeepsSound, lift-KeepsSound, elim-KeepsSound, >>=-KeepsSound, keeps}
use make_we_bet.Payments.{
  Verification, verified_pending, verified_failed, verified_succeeded, credit, initiate,
  settle_verified, settle_intent, is_succeeded, settle,
}
use make_we_bet.Payments.Webhooks.{dispatch, handle_new, handle_once, handle_paystack}

credit-KeepsSound :
    (now reference : ℕ) (intent : PaymentIntent) (amount : ℕ)
    → KeepsSound (credit now reference intent amount)
unfolding credit KeepsSound
credit-KeepsSound now reference intent amount = search keeps

settle_verified-KeepsSound :
    (now reference : ℕ) (intent : PaymentIntent) (v : Verification)
    → KeepsSound (settle_verified now reference intent v)
unfolding settle_verified KeepsSound
settle_verified-KeepsSound now reference intent verified_pending = search keeps
settle_verified-KeepsSound now reference intent verified_failed = search keeps
settle_verified-KeepsSound now reference intent (verified_succeeded amount) =
    search (keeps, credit-KeepsSound)

settle_intent-KeepsSound :
    (verify : ℕ → Result Verification) (now reference : ℕ) (intent : PaymentIntent)
    → KeepsSound (settle_intent verify now reference intent)
unfolding settle_intent
settle_intent-KeepsSound verify now reference intent =
    elim-KeepsSound (is_succeeded intent.status) _ _ (lift-KeepsSound (ok _)) (
      >>=-KeepsSound (lift (verify reference)) (settle_verified now reference intent)
        (lift-KeepsSound (verify reference)) (settle_verified-KeepsSound now reference intent))

-- A settlement of a deposit keeps the ledger sound, whatever the gateway answers.
pub settle-KeepsSound :
    (verify : ℕ → Result Verification) (now reference : ℕ)
    → KeepsSound (settle verify now reference)
unfolding settle KeepsSound
settle-KeepsSound verify now reference = search (keeps, settle_intent-KeepsSound)

dispatch-KeepsSound :
    (verify : ℕ → Result Verification) (now : ℕ) (event : WebhookEventName) (reference : Option ℕ)
    → KeepsSound (dispatch verify now event reference)
unfolding dispatch KeepsSound
dispatch-KeepsSound verify now charge_success none = search keeps
dispatch-KeepsSound verify now charge_success (some r) = search (keeps, settle-KeepsSound)
dispatch-KeepsSound verify now transfer_succeeded none = search keeps
dispatch-KeepsSound verify now transfer_succeeded (some r) = search keeps
dispatch-KeepsSound verify now transfer_did_fail none = search keeps
dispatch-KeepsSound verify now transfer_did_fail (some r) = search keeps
dispatch-KeepsSound verify now transfer_was_reversed none = search keeps
dispatch-KeepsSound verify now transfer_was_reversed (some r) = search keeps
dispatch-KeepsSound verify now (other_event n) reference = search keeps

handle_new-KeepsSound :
    (verify : ℕ → Result Verification) (now : ℕ) (event : WebhookEventName) (reference : Option ℕ)
    → KeepsSound (handle_new verify now event reference)
unfolding handle_new KeepsSound
handle_new-KeepsSound verify now event reference = search (keeps, dispatch-KeepsSound)

handle_once-KeepsSound :
    (seen : Bool) (verify : ℕ → Result Verification) (now : ℕ) (event : WebhookEventName)
    (reference : Option ℕ)
    → KeepsSound (handle_once seen verify now event reference)
unfolding handle_new
handle_once-KeepsSound true verify now event reference = lift-KeepsSound (ok _)
handle_once-KeepsSound false verify now event reference =
    handle_new-KeepsSound verify now event reference

-- A webhook keeps the ledger sound.
pub handle_paystack-KeepsSound :
    (valid : Bool) (verify : ℕ → Result Verification) (now : ℕ) (event : WebhookEventName)
    (reference : Option ℕ)
    → KeepsSound (handle_paystack valid verify now event reference)
unfolding handle_paystack KeepsSound
handle_paystack-KeepsSound valid verify now event reference = search (keeps, handle_once-KeepsSound)

pub initiate-KeepsSound :
    (gateway : ℕ → Result ℕ) (user amount : ℕ) → KeepsSound (initiate gateway user amount)
unfolding initiate KeepsSound
initiate-KeepsSound gateway user amount = search keeps depth 9 fits 9000
