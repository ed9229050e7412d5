-- ===== src/TransactionService/Incoming.antt =====
-- The events that transaction-service consumes, and the checks of their payloads:
-- presentation/consumers/transaction-events.consumer.ts of
-- apps/transaction-service/src/transaction. An id or a text that is missing is 0 or "", an amount
-- that is missing or no finite number is `none`, and amounts are whole cents.
use text.Mathlib.Text.{◌==◌ as str_eq, starts_with}
use Prim.Native.String
use proyecto_sa_b.Prelude.{
  ℕ, String, Bool, Option, none, some, ◌==◌, ◌||◌, not, get_or, if◌then◌else◌,
}
use proyecto_sa_b.Prelude.Int.{ℤ, pos, ltb_ℤ}
use proyecto_sa_b.Prelude.Text.{is_bank_code, is_account_number}
use proyecto_sa_b.TransactionService.Entity.{
  Failure, transaction_id_required, source_account_required, target_account_required, bad_amount,
  envelope_invalid, bank_code_invalid, external_account_invalid, account_id_required,
}
use proyecto_sa_b.TransactionService.World.{KycStatus}

pub data EventType : Type 0 where
  missing unsupported : EventType
  transfer_requested funds_reserved funds_rejected payment_rejected transfer_completed : EventType
  transfer_failed funds_released kyc_status_changed interbank_requested : EventType
  interbank_funds_reserved interbank_funds_rejected interbank_sent interbank_timeout : EventType
  interbank_accepted interbank_rejected interbank_reversed interbank_completed : EventType
  interbank_funds_released deposit_credited : EventType

-- The fields of all payloads together.
pub record Payload : Type 0 where
  pub transaction_id : ℕ
  pub source_account : String
  pub target_account : String
  pub destination_bank_code : String
  pub destination_account : String
  pub account_id : String
  pub amount : Option ℤ
  pub description : Option String
  pub requested_by : ℕ
  pub reason : Option String
  pub reason_code : Option String
  pub customer_id : ℕ
  pub estado_nuevo : Option KycStatus
  pub origin_bank_code : Option String
  pub origin_account : Option String

pub record BankEvent : Type 0 where
  pub event_id : ℕ
  pub event_type : EventType
  pub timestamp : Option ℕ
  pub correlation_id : ℕ
  pub payload : Option Payload

abbrev is_missing : EventType → Bool
is_missing EventType.missing = Bool.true
is_missing _ = Bool.false

abbrev some_if : Bool → Failure → Option Failure
some_if c e = if c then some e else none

unfoldable pub validate_envelope : BankEvent → Option Failure
validate_envelope e =
    some_if (e.event_id == 0 || is_missing e.event_type || e.correlation_id == 0) envelope_invalid

-- A number below `least` cents, or no number.
abbrev pub is_below : ℤ → Option ℤ → Bool
is_below least none = Bool.true
is_below least (some amount) = ltb_ℤ amount least

unfoldable pub validate_transfer_requested : Payload → Option Failure
validate_transfer_requested p =
    if str_eq p.source_account ""
    then some source_account_required
    else if str_eq p.target_account ""
    then some target_account_required
    else some_if (is_below (pos 1) p.amount) bad_amount

unfoldable pub validate_interbank_requested : Payload → Option Failure
unfolding is_bank_code is_account_number
validate_interbank_requested p =
    if str_eq p.source_account ""
    then some source_account_required
    else if not (is_bank_code p.destination_bank_code)
    then some bank_code_invalid
    else if not (is_account_number p.destination_account)
    then some external_account_invalid
    else some_if (is_below (pos 1) p.amount) bad_amount

unfoldable pub validate_transaction_reference : Payload → Option Failure
validate_transaction_reference p = some_if (p.transaction_id == 0) transaction_id_required

unfoldable pub validate_deposit_credited : Payload → Option Failure
validate_deposit_credited p =
    if str_eq p.account_id ""
    then some account_id_required
    else some_if (is_below (pos 1) p.amount) bad_amount

-- A `reason` with its prefix.
abbrev with_prefix : String → String → String
with_prefix prefix reason = if starts_with reason prefix then reason else String.◌++◌ prefix reason

unfoldable pub to_payment_failure_reason : Option String → String
to_payment_failure_reason none = "PAYMENT_REJECTED"
to_payment_failure_reason (some reason) =
    if str_eq reason "" then "PAYMENT_REJECTED" else with_prefix "PAYMENT_" reason

unfoldable pub to_interbank_failure_reason : Payload → String
to_interbank_failure_reason p =
    with_prefix "INTERBANK_" (get_or p.reason_code (get_or p.reason "REJECTED"))

-- `INTERBANK_MAX_AMOUNT` if it is a positive number, else Q10,000.00.
unfoldable pub interbank_max_amount : Option ℤ → ℤ
interbank_max_amount none = pos 1000000
interbank_max_amount (some value) = if ltb_ℤ (pos 0) value then value else pos 1000000
