-- ===== src/TransactionService/Entity.antt =====
-- The aggregate of a transfer: domain/entities/transaction.entity.ts of
-- apps/transaction-service/src/transaction. A method returns the changed object, or the exception
-- that it throws. Ids are numbers, 0 for the empty one; `now` is the clock that `touch` reads.
pub mod Stages
pub mod Delivery
pub mod Outcomes
use text.Mathlib.Text.{◌==◌ as str_eq}
use proyecto_sa_b.Prelude.{
  ℕ, String, Bool, true, false, Option, none, some, ◌==◌, ◌||◌, not, leb, if◌then◌else◌,
}
use proyecto_sa_b.Prelude.Int.{ℤ, pos, ltb_ℤ}
use proyecto_sa_b.Prelude.Action.{Result, ok, err}
use proyecto_sa_b.TransactionService.Status.{
  TransactionStatus, InterbankState, is_status, interbank_stage, is_final_interbank_state,
}

pub record Transaction : Type 0 where
  pub transaction_id : ℕ
  pub source_account : String
  pub target_account : String
  pub amount : ℤ
  pub status : TransactionStatus
  pub correlation_id : ℕ
  pub created_at : ℕ
  pub updated_at : ℕ
  pub failure_reason : Option String
  pub destination_bank_code : Option String
  pub interbank_state : Option InterbankState
  pub origin_bank_code : Option String

-- What the service's calls throw, by the message of the exception.
pub data Failure : Type 0 where
  transaction_id_required source_account_required target_account_required : Failure
  same_accounts bad_amount correlation_id_required : Failure
  cannot_fail unexpected_status not_found : Failure
  envelope_invalid unsupported_event customer_id_required invalid_kyc_status : Failure
  bank_code_invalid external_account_invalid account_id_required broker_down : Failure

-- The checks of the constructor, in their order.
unfoldable pub check_transaction : Transaction → Option Failure
check_transaction t =
    if t.transaction_id == 0
    then some transaction_id_required
    else if str_eq t.source_account ""
    then some source_account_required
    else if str_eq t.target_account ""
    then some target_account_required
    else if str_eq t.source_account t.target_account
    then some same_accounts
    else if not (ltb_ℤ (pos 0) t.amount)
    then some bad_amount
    else if t.correlation_id == 0
    then some correlation_id_required
    else none

abbrev pub touch : ℕ → Transaction → Transaction
touch now t = record t { updated_at = now }

abbrev ensure_status :
    TransactionStatus → Transaction → Result Failure Transaction → Result Failure Transaction
ensure_status expected t next = if is_status t.status expected then next else err unexpected_status

unfoldable pub mark_as_processing : ℕ → Transaction → Result Failure Transaction
mark_as_processing now t =
    ensure_status TransactionStatus.pending t
      (ok (touch now (record t { status = TransactionStatus.processing })))

unfoldable pub mark_as_completed : ℕ → Transaction → Result Failure Transaction
mark_as_completed now t =
    ensure_status TransactionStatus.processing t
      (ok (touch now (record t { status = TransactionStatus.completed })))

-- `reason ?? this._failureReason`
abbrev pub keep_reason : Option String → Option String → Option String
keep_reason none old = old
keep_reason (some reason) old = some reason

unfoldable pub mark_as_failed : ℕ → Option String → Transaction → Result Failure Transaction
mark_as_failed now reason t =
    if is_status t.status TransactionStatus.pending
      || is_status t.status TransactionStatus.processing
    then ok (
        touch now (record t {
          status = TransactionStatus.failed;
          failure_reason = keep_reason reason t.failure_reason;
        }))
    else err cannot_fail

unfoldable pub mark_as_compensating : ℕ → Option String → Transaction → Result Failure Transaction
mark_as_compensating now reason t = ensure_status TransactionStatus.processing t (
    ok (
      touch now (record t {
        status = TransactionStatus.compensating;
        failure_reason = keep_reason reason t.failure_reason;
      })))

unfoldable pub mark_as_compensated : ℕ → Transaction → Result Failure Transaction
mark_as_compensated now t =
    ensure_status TransactionStatus.compensating t
      (ok (touch now (record t { status = TransactionStatus.compensated })))

-- An event of the partner bank that is late: the current state is final, or of the same stage or
-- a later one.
abbrev pub is_late : Option InterbankState → InterbankState → Bool
is_late none state = false
is_late (some current) state =
    is_final_interbank_state (some current) || leb (interbank_stage state) (interbank_stage current)

-- The `switch` of `advanceInterbank`; PENDING is no case of it.
abbrev pub apply_state : InterbankState → Option String → Transaction → Transaction
apply_state InterbankState.pending reason t = t
apply_state InterbankState.sent reason t = record t { status = TransactionStatus.processing }
apply_state InterbankState.timeout reason t = record t { status = TransactionStatus.processing }
apply_state InterbankState.accepted reason t = record t { status = TransactionStatus.processing }
apply_state InterbankState.rejected reason t = record t {
  status =
      if is_status t.status TransactionStatus.pending
      then TransactionStatus.failed
      else TransactionStatus.compensating;
  failure_reason = keep_reason reason t.failure_reason;
}
apply_state InterbankState.reversed reason t = record t {
  status = TransactionStatus.compensating;
  failure_reason = keep_reason reason t.failure_reason;
}

-- The transaction as it is left, and whether it changed.
unfoldable pub advance_interbank :
    ℕ → InterbankState → Option String → Transaction → Transaction × Bool
advance_interbank now state reason t =
    if is_late t.interbank_state state
    then (t, false)
    else (touch now (apply_state state reason (record t { interbank_state = some state })), true)

pub data Settlement : Type 0 where
  debited released : Settlement

abbrev pub settled_status : Settlement → TransactionStatus
settled_status debited = TransactionStatus.completed
settled_status released = TransactionStatus.compensated

abbrev pub settled_state : Settlement → InterbankState
settled_state debited = InterbankState.accepted
settled_state released = InterbankState.reversed

abbrev pub is_closed : TransactionStatus → Bool
is_closed s =
    is_status s TransactionStatus.completed
    || is_status s TransactionStatus.compensated
    || is_status s TransactionStatus.failed

unfoldable pub settle_interbank : ℕ → Settlement → Transaction → Transaction × Bool
settle_interbank now how t = if is_closed t.status then (t, false) else (
  touch now (record t {
    interbank_state =
        if is_final_interbank_state t.interbank_state
        then t.interbank_state
        else some (settled_state how);
    status = settled_status how;
  }),
  true,
)
