-- ===== src/Payments/Webhooks.antt =====
-- WebhooksService of apps/api/src/modules/payments/webhooks.service.ts. The raw body is given as
-- what `JSON.parse` reads from it.
use make_we_bet.Prelude.{
  ℕ, ◌+◌, Bool, true, false, ◌&&◌, Option, none, some, ◌==◌, first?, insert, fresh, update_all,
}
use make_we_bet.Errors.{bad_webhook_signature, Result}
use make_we_bet.Contracts.{transfer_success, transfer_failed, transfer_reversed}
use make_we_bet.Database.{
  WebhookEventName, charge_success, transfer_succeeded, transfer_did_fail, transfer_was_reversed,
  other_event, WebhookEvent, Db, Action, ◌>>=◌, ◌>>◌, return, tables, write, require, rescue, emit,
}
use make_we_bet.Payments.{Verification, settle}

abbrev event_index : WebhookEventName → ℕ
event_index charge_success = 0
event_index transfer_succeeded = 1
event_index transfer_did_fail = 2
event_index transfer_was_reversed = 3
event_index (other_event n) = 4 + n

abbrev pub reference_eq : Option ℕ → Option ℕ → Bool
reference_eq none none = true
reference_eq (some a) (some b) = a == b
reference_eq _ _ = false

-- Equality of `dedupeRef`, the text `event:reference`.
abbrev pub same_event : WebhookEventName → Option ℕ → WebhookEvent → Bool
same_event event reference w =
    (event_index w.event == event_index event) && reference_eq w.reference reference

abbrev is_known : Option (ℕ × WebhookEvent) → Bool
is_known none = false
is_known (some _) = true

unfoldable pub is_duplicate : WebhookEventName → Option ℕ → Db → Bool
is_duplicate event reference db = is_known (first? (same_event event reference) db.webhook_events)

-- The part of the handler inside the second `try`.
unfoldable pub dispatch : (ℕ → Result Verification) → ℕ → WebhookEventName → Option ℕ → Action Unit
dispatch verify_deposit now charge_success (some r) = settle verify_deposit now r >> return tt
dispatch verify_deposit now transfer_succeeded (some r) = emit (transfer_success r)
dispatch verify_deposit now transfer_did_fail (some r) = emit (transfer_failed r)
dispatch verify_deposit now transfer_was_reversed (some r) = emit (transfer_reversed r)
dispatch verify_deposit now event reference = return tt

abbrev mark_processed : ℕ → WebhookEventName → Option ℕ → Bool → Action Unit
mark_processed now event reference error = write λ db. record db {
  webhook_events =
      update_all (same_event event reference)
        (λ w. record w { processed_at = some now; has_error = error }) db.webhook_events;
}

-- A webhook that was not seen before.
unfoldable pub handle_new :
    (ℕ → Result Verification) → ℕ → WebhookEventName → Option ℕ → Action Unit
unfolding dispatch
handle_new verify_deposit now event reference = do
  write λ db. record db {
    webhook_events =
        insert (fresh db.webhook_events)
          (record { event = event; reference = reference; processed_at = none; has_error = false })
          db.webhook_events;
  }
  error ← rescue (λ _. return true) (dispatch verify_deposit now event reference >> return false)
  mark_processed now event reference error

-- `true` is a webhook that was seen before: the row cannot be created twice.
abbrev pub handle_once :
    Bool → (ℕ → Result Verification) → ℕ → WebhookEventName → Option ℕ → Action Unit
unfolding handle_new
handle_once true verify_deposit now event reference = return tt
handle_once false verify_deposit now event reference = handle_new verify_deposit now event reference

unfoldable pub handle_paystack :
    Bool → (ℕ → Result Verification) → ℕ → WebhookEventName → Option ℕ → Action Unit
unfolding is_duplicate
handle_paystack valid verify_deposit now event reference = do
  require valid bad_webhook_signature
  db ← tables
  handle_once (is_duplicate event reference db) verify_deposit now event reference
