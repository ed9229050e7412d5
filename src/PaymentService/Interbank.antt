-- ===== src/PaymentService/Interbank.antt =====
-- The protocol with the partner banks: apps/payment-service/src/interbank, with the rows of
-- interbank-transfer.entity.ts and interbank-reversal.entity.ts and what interbank.service.ts
-- reads from outside. Bank codes, ids and texts that are only compared are numbers, accounts are
-- lists of codes, and texts for people are left out. Money is in whole cents, times are in
-- milliseconds. A statement on the database runs alone, and so does a call of the service here;
-- where a call waits for the partner bank, its second half takes the row as it was read before,
-- which may be out of date.
pub mod Outbox
pub mod Sender
pub mod Timeouts
pub mod Receiver
pub mod Callbacks
pub mod Reversals
pub mod ReversalRequests
pub mod Reconciliation
pub mod Worker
pub mod Moves
pub mod Invariant
pub mod Statements
pub mod History
use proyecto_sa_b.Prelude.{
  ℕ, ◌+◌, Bool, true, false, Option, none, some, List, [], ◌∷◌, ◌++◌, leb, if◌then◌else◌,
}
use proyecto_sa_b.Prelude.Int.{ℤ}
use proyecto_sa_b.Prelude.Dict.{Dict, lookup, insert}
use proyecto_sa_b.Prelude.Action.{Action}
use proyecto_sa_b.PaymentService.Rules.{Response, PartnerStatus, CancelAnswer}

pub data Direction : Type 0 where
  out_going in_coming : Direction

-- `OutState` and `InState` together: the column `state` is a text.
pub data State : Type 0 where
  pending sent accepted rejected timeout reversed processing cancelled : State

pub data Reason : Type 0 where
  cancelled expired processing_error timeout timeout_no_response : Reason
  of_partner : ℕ → Reason

pub data TimeoutStep : Type 0 where
  query cancel : TimeoutStep

pub data CallbackState : Type 0 where
  pending delivered failed : CallbackState

pub record Transfer : Type 0 where
  pub direction : Direction
  pub partner_bank_code : ℕ
  pub origin_account : Option (List ℕ)
  pub destination_account : Option (List ℕ)
  pub amount : ℤ
  pub description : Option ℕ
  pub message_created_at : Option ℕ
  pub expires_at : Option ℕ
  pub state : State
  pub reason_code : Option Reason
  pub request_hash : Option ℕ
  pub transaction_id : Option ℕ
  pub correlation_id : ℕ
  pub is_refund : Bool
  pub send_attempts : ℕ
  pub next_attempt_at : Option ℕ
  pub locked_until : Option ℕ
  pub timeout_at : Option ℕ
  pub timeout_step : Option TimeoutStep
  pub step_attempts : ℕ
  pub callback_state : Option CallbackState
  pub callback_attempts : ℕ
  pub resolved_at : Option ℕ
  pub pending_event : Bool
  pub created_at : ℕ
  pub updated_at : ℕ

pub data ReversalState : Type 0 where
  pending requested processing completed failed : ReversalState

pub record Reversal : Type 0 where
  pub direction : Direction
  pub original_transfer_id : ℕ
  pub partner_bank_code : ℕ
  pub amount : ℤ
  pub state : ReversalState
  pub refund_transfer_id : Option ℕ
  pub correlation_id : ℕ
  pub attempts : ℕ
  pub next_attempt_at : Option ℕ
  pub locked_until : Option ℕ
  pub pending_event : Bool
  pub created_at : ℕ
  pub updated_at : ℕ

pub data Payload : Type 0 where
  deposit_requested :
      (id bank : ℕ) → (origin destination : Option (List ℕ)) → ℤ → (expires : Option ℕ) → Payload
  transfer_changed :
      (transaction : Option ℕ)
      → (id bank : ℕ) → ℤ
      → State
      → Option Reason
      → (expires : Option ℕ) → Payload
  reversal_requested : (id original : ℕ) → ℤ → Payload

-- The id of an event is a hash of the row's id and state, which the payload shows.
pub record Message : Type 0 where
  pub correlation_id : ℕ
  pub payload : Payload

pub record World : Type 0 where
  pub transfers : Dict Transfer
  pub reversals : Dict Reversal
  pub processed : Dict ℕ
  pub published : List Message
  pub broker : Bool

-- The errors of the HTTP interface, and what else a call throws.
pub data Failure : Type 0 where
  validation_error unauthorized not_found idempotency_conflict : Failure
  expired service_unavailable null_date : Failure

abbrev pub Call : Type 0 → Type 0
Call A = Action World Failure A

-- Seeds of `deterministicUuid` for new rows.
pub data Seed : Type 0 where
  refund reversal_out : ℕ → Seed

-- What a response of `POST /reversals` and `GET /reversals/{id}` says.
pub data ReversalAnswer : Type 0 where
  completed : (refund : Option ℕ) → ReversalAnswer
  failed : ReversalAnswer

-- What the service reads from outside: the clock, the configuration, the hashes, and the answers of
-- the partner banks and of Account. An answer `none` of Account stands for any failure of that call.
pub record Env : Type 0 where
  pub now : ℕ
  pub own_bank : Option ℕ
  pub margin_seconds : ℕ
  pub query_attempts : ℕ
  pub fresh : ℕ
  pub uuid : Seed → ℕ
  pub post_transfer : ℕ → Transfer → Response (PartnerStatus × Option Reason)
  pub not_configured : ℕ → Bool
  pub get_transfer : ℕ → Transfer → Response PartnerStatus
  pub post_cancel : ℕ → Transfer → Response CancelAnswer
  pub post_result : ℕ → Transfer → ℕ
  pub post_reversal : ℕ → Reversal → ℕ
  pub get_reversal : ℕ → Reversal → Response ReversalAnswer
  pub cancel_at_account : ℕ → Option (CancelAnswer × Option Reason)

abbrev pub same_direction : Direction → Direction → Bool
same_direction out_going out_going = true
same_direction in_coming in_coming = true
same_direction _ _ = false

-- `Or(IsNull(), LessThanOrEqual(now))`
abbrev pub is_due : ℕ → Option ℕ → Bool
is_due now none = true
is_due now (some at) = leb at now

abbrev pub set_transfer : ℕ → Transfer → World → World
set_transfer id r w = record w { transfers = insert id r w.transfers }

abbrev pub set_reversal : ℕ → Reversal → World → World
set_reversal id r w = record w { reversals = insert id r w.reversals }
