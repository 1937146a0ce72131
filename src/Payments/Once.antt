-- ===== src/Payments/Once.antt =====
-- A deposit is credited once.
use make_we_bet.Prelude.{
  ℕ, ◌≡◌, refl, sym, ◌∙◌, some, true, inl, inr, Bool-cases, lookup, lookup-insert_self,
}
use make_we_bet.Errors.{Result, ok, or_throw-eq-ok, intent_not_found}
use make_we_bet.Database.{Db, PaymentIntent, PaymentStatus, succeeded, found, lift}
use mathlib.Core.Path.{subst}
use make_we_bet.Database.Returned.{>>=-returned, transaction-returned}
use make_we_bet.Wallet.{user_wallet, system}
use make_we_bet.Ledger.{gateway_clearing}
use make_we_bet.Database.{post_journal}
use make_we_bet.Payments.{
  deposit_journal, Verification, verified_pending, verified_failed, verified_succeeded, credit,
  settle_verified, settle_intent, is_succeeded, settle,
}

-- The intent's row says SUCCEEDED.
abbrev pub IsCredited : ℕ → Db → Type 0
IsCredited reference db =
    (i : PaymentIntent) × (lookup reference db.payment_intents ≡ some i)
    × (is_succeeded i.status ≡ true)

-- Of a credited deposit, the gateway is not asked and nothing is written.
settle-IsCredited :
    (verify : ℕ → Result Verification) (now reference : ℕ) (db : Db)
    → IsCredited reference db
    → settle verify now reference db ≡ (ok succeeded, db)
unfolding settle settle_intent
settle-IsCredited verify now reference db (i, e, p) = rw (e, settle_intent, p)

credit-IsCredited :
    (now reference : ℕ) (i : PaymentIntent) (amount : ℕ) (db : Db) {s : PaymentStatus}
    → (credit now reference i amount db).0 ≡ ok s
    → IsCredited reference (credit now reference i amount db).1
unfolding credit
credit-IsCredited now reference i amount db h =
    let ((wallet, _), _, h1, e1) = >>=-returned (user_wallet i.user_id) _ db h in
    let ((clearing, _), _, h2, e2) = >>=-returned (system gateway_clearing) _ db h1 in
    let (_, _, _, e3) =
      >>=-returned (post_journal (deposit_journal reference clearing wallet amount)) _ db h2 in
    subst (IsCredited reference) (sym (e1 ∙ e2 ∙ e3)) (
      record i { status = succeeded; settled_at = some now; amount_minor = amount },
      lookup-insert_self reference _ _,
      refl,
    )

settle_verified-IsCredited :
    (now reference : ℕ) (i : PaymentIntent) (v : Verification) (db : Db)
    → (settle_verified now reference i v db).0 ≡ ok succeeded
    → IsCredited reference (settle_verified now reference i v db).1
unfolding settle_verified
settle_verified-IsCredited now reference i verified_pending db h = cc h
settle_verified-IsCredited now reference i verified_failed db h = cc h
settle_verified-IsCredited now reference i (verified_succeeded amount) db h =
    let e = transaction-returned (credit now reference i amount) db h in
    rw e (credit-IsCredited now reference i amount db (rw e at h))

settle_intent-IsCredited :
    (verify : ℕ → Result Verification) (now reference : ℕ) (i : PaymentIntent) (db : Db)
    → lookup reference db.payment_intents ≡ some i
    → (settle_intent verify now reference i db).0 ≡ ok succeeded
    → IsCredited reference (settle_intent verify now reference i db).1
unfolding settle_intent
settle_intent-IsCredited verify now reference i db e h = elim (Bool-cases (is_succeeded i.status)) [
  | inl p ↦ rw (settle_intent, p) (i, e, p)
  | inr p ↦
      let (v, _, h', e') =
        >>=-returned (lift (verify reference)) _ db (rw (settle_intent, p) at h) in
      rw (settle_intent, p, e') (settle_verified-IsCredited now reference i v db h')
]

settle-IsCredited_after :
    (verify : ℕ → Result Verification) (now reference : ℕ) (db : Db)
    → (settle verify now reference db).0 ≡ ok succeeded
    → IsCredited reference (settle verify now reference db).1
unfolding settle
settle-IsCredited_after verify now reference db h =
    let (i, f, h', e) =
      >>=-returned (found (lookup reference db.payment_intents) intent_not_found) _ db h in
    subst (IsCredited reference) (sym e)
      (settle_intent-IsCredited verify now reference i db (or_throw-eq-ok _ _ f) h')

-- A deposit whose settlement returned SUCCEEDED is not settled again: the webhook and the client's
-- callback may both come, and whatever the gateway answers the second time, that call returns
-- SUCCEEDED and leaves every table as it is.
pub settle-settle :
    (verify again : ℕ → Result Verification) (now later reference : ℕ) (db : Db)
    → (settle verify now reference db).0 ≡ ok succeeded
    → settle again later reference (settle verify now reference db).1
      ≡ (ok succeeded, (settle verify now reference db).1)
settle-settle verify again now later reference db h =
    settle-IsCredited again later reference _ (settle-IsCredited_after verify now reference db h)
