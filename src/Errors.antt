-- ===== src/Errors.antt =====
-- Exceptions as values: the error classes of apps/api/src/modules/wallet/ledger/ledger.errors.ts,
-- the `code` of each Nest exception that the services throw, and the faults of Prisma, the driver
-- and the JavaScript runtime that reach them.
use make_we_bet.Prelude.{ℕ, ◌≡◌, refl, Bool, true, false, Option, none, some, ℤ}

pub data Error : Type 0 where
  -- ledger.errors.ts
  unbalanced_journal : ℤ → Error
  empty_journal zero_amount_line : Error
  insufficient_funds_on : ℕ → Error
  -- exceptions of the services, by code
  wallet_not_found system_account_missing escrow_missing : Error
  contest_not_found contest_closed contest_full invalid_slip insufficient_funds : Error
  already_entered invalid_status already_kicked_off : Error
  already_exists invalid_credentials : Error
  rule_set_not_found weight_set_not_found : Error
  bad_slot_config slot_fixture_not_in_contest duplicate_slot_no fixture_not_found : Error
  fixture_not_schedulable config_missing result_already_final : Error
  withdrawal_not_found self_approval bank_account_not_found : Error
  otp_invalid otp_locked : Error
  intent_not_found bad_webhook_signature : Error
  invalid_refresh_token refresh_token_reuse refresh_token_expired account_disabled : Error
  -- `throw new Error('… invariant violated')`
  invariant_violated : Error
  -- Prisma: P2025 and P2002
  record_not_found unique_violation : Error
  -- BigInt division by zero, a property of `undefined`
  range_error type_error : Error
  -- what the gateway client throws
  gateway_error : Error

pub data Result {ℓ} (A : Type ℓ) : Type ℓ where
  ok : A → Result A
  err : Error → Result A

infixl 5 ◌>>=◌ ◌>>◌
abbrev pub ◌>>=◌ {ℓ κ} : {A : Type ℓ} {B : Type κ} → Result A → (A → Result B) → Result B
ok a >>= f = f a
err e >>= f = err e

abbrev pub ◌>>◌ {ℓ κ} : {A : Type ℓ} {B : Type κ} → Result A → Result B → Result B
m >> k = m >>= λ _. k

-- `if (!condition) throw e`
abbrev pub ensure : Bool → Error → Result (Unit {0})
ensure true e = ok tt
ensure false e = err e

abbrev pub or_throw {ℓ} : {A : Type ℓ} → Option A → Error → Result A
or_throw none e = err e
or_throw (some a) e = ok a

-- Inversion of a chain that returned.
module _ {ℓ κ} {A : Type ℓ} {B : Type κ} where
  -- The parts of a chain that returned `b`.
  abbrev pub Returned : Result A → (A → Result B) → B → Type (ℓ ⊔ κ)
  Returned m f b = (a : A) × (m ≡ ok a) × (f a ≡ ok b)

  pub >>=-eq-ok : (m : Result A) (f : A → Result B) {b : B} → (m >>= f) ≡ ok b → Returned m f b
  >>=-eq-ok (err e) f h = cc h
  >>=-eq-ok (ok a) f h = (a, refl, h)

pub ensure-eq-ok : (b : Bool) (e : Error) {u : Unit {0}} → ensure b e ≡ ok u → b ≡ true
ensure-eq-ok true e h = refl
ensure-eq-ok false e h = cc

pub or_throw-eq-ok {ℓ} :
    {A : Type ℓ} (o : Option A) (e : Error) {a : A} → or_throw o e ≡ ok a → o ≡ some a
or_throw-eq-ok none e h = cc
or_throw-eq-ok (some b) e h = cc
