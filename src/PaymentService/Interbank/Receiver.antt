-- ===== src/PaymentService/Interbank/Receiver.antt =====
-- The bank as a receiver: `receiveTransfer`, `getTransfer` and `cancelTransfer` of
-- interbank.service.ts. A caller that is no bank code is `none`, and so is an id that is no UUID.
pub mod Requests
pub mod Kept
pub mod Once
pub mod Cancelled
pub mod Answered
use proyecto_sa_b.Prelude.{
  ℕ, zero, suc, ◌+◌, Bool, true, false, Option, none, some, List, [], ◌∷◌, ◌==◌, ◌&&◌, ◌||◌, not,
  ltb, leb, get_or, is_some, if◌then◌else◌,
}
use proyecto_sa_b.Prelude.Int.{pos}
use proyecto_sa_b.Prelude.Dict.{lookup}
use proyecto_sa_b.Prelude.Program.{return, fail, attempt, skip, require, ◌>>=◌, ◌>>◌}
use proyecto_sa_b.PaymentService.Rules.{
  Verdict, CallbackDecision, apply, ignore, conflict, late_accepted, callback_decision, OutState,
  CancelAnswer, backoff_ms,
}
use proyecto_sa_b.PaymentService.Interbank.{
  Direction, out_going, in_coming, State, Transfer, Reason, CallbackState, World, Call, Env,
  validation_error, unauthorized, not_found, idempotency_conflict, expired, service_unavailable,
  same_direction,
}
use proyecto_sa_b.PaymentService.Interbank.Outbox.{
  is_state, transition, update, insert_new, claim, flush_row,
}
use proyecto_sa_b.PaymentService.Interbank.Sender.{find, finalize_out, no_patch, with_reason}
use proyecto_sa_b.PaymentService.Interbank.ReversalRequests.{create_reversal_request}
use proyecto_sa_b.PaymentService.Interbank.Receiver.Requests.{
  TransferRequest, validate_transfer_request, incoming, cancelled_unknown,
}

-- `statusBody`: the state, and the reason where the transfer was rejected or cancelled.
abbrev pub status_body : Transfer → State × Option Reason
status_body r = (
  r.state,
  if is_state r.state State.rejected || is_state r.state State.cancelled
      then r.reason_code
      else none,
)

abbrev other_hash : ℕ → Option ℕ → Bool
other_hash hash none = false
other_hash hash (some h) = not (h == hash)

abbrev pub is_foreign : ℕ → Transfer → Bool
is_foreign caller r =
    not (same_direction r.direction in_coming) || not (r.partner_bank_code == caller)

-- The answers of `POST /transfers`: 202, or 200 with the state for a repetition.
pub data Receipt : Type 0 where
  received : Receipt
  again : State → Option Reason → Receipt

abbrev pub repeated : Transfer → (hash caller : ℕ) → Call Receipt
repeated r hash caller =
    if is_foreign caller r || other_hash hash r.request_hash
    then fail idempotency_conflict
    else return (again r.state (status_body r).1)

abbrev pub some_bank : Option ℕ → Call ℕ
some_bank none = fail unauthorized
some_bank (some bank) = return bank

abbrev pub or_unavailable : Option ℕ → Call ℕ
or_unavailable none = fail service_unavailable
or_unavailable (some bank) = return bank

abbrev pub own_bank : Env → Call ℕ
own_bank env = or_unavailable env.own_bank

abbrev pub some_id : Option ℕ → Call ℕ
some_id none = fail validation_error
some_id (some id) = return id

abbrev receive_again : (hash caller : ℕ) → Option Transfer → Call Receipt
receive_again hash caller none = fail service_unavailable
receive_again hash caller (some r) = repeated r hash caller

abbrev receive_new : Env → (hash caller : ℕ) → TransferRequest → Option Transfer → Call Receipt
receive_new env hash caller req (some r) = repeated r hash caller
receive_new env hash caller req none = do
  require (ltb env.now (get_or req.expires_at 0)) expired
  fresh ← insert_new (get_or req.transfer_id 0) (incoming env.now env.fresh hash req)
  if fresh
      then flush_row (get_or req.transfer_id 0) >> return received
      else find (get_or req.transfer_id 0) >>= receive_again hash caller

abbrev pub equals : ℕ → Option ℕ → Bool
equals n none = false
equals n (some k) = k == n

-- `receiveTransfer`; `hash` is the fingerprint that `hashTransfer` gives the request.
unfoldable pub receive_transfer :
    Env
    → (hash : TransferRequest → ℕ) → (caller idempotency_key : Option ℕ) → TransferRequest
    → Call Receipt
receive_transfer env hash caller key req = do
  bank ← some_bank caller
  require (validate_transfer_request req) validation_error
  require (equals (get_or req.transfer_id 0) key) validation_error
  own ← own_bank env
  require (equals own req.destination_bank_code) validation_error
  require (equals bank req.origin_bank_code) unauthorized
  existing ← find (get_or req.transfer_id 0)
  receive_new env (hash req) bank req existing

abbrev shown : ℕ → Option Transfer → Call (State × Option Reason)
shown bank none = fail not_found
shown bank (some r) = do
  require (same_direction r.direction in_coming) not_found
  require (r.partner_bank_code == bank) unauthorized
  return (status_body r)

-- `getTransfer`
unfoldable pub get_transfer : (caller id : Option ℕ) → Call (State × Option Reason)
get_transfer caller id = do
  bank ← some_bank caller
  key ← some_id id
  row ← find key
  shown bank row

abbrev pub resolve_patch : Env → State → Option Reason → Transfer → Transfer
resolve_patch env state reason r = record r {
  state = state;
  reason_code = reason;
  resolved_at = some env.now;
  callback_state = some CallbackState.pending;
  callback_attempts = 0;
  next_attempt_at = some env.now;
}

abbrev accepted_patch : Env → Transfer → Transfer
accepted_patch env r = record r {
  state = State.accepted;
  resolved_at = some env.now;
  callback_state = some CallbackState.pending;
  callback_attempts = 0;
  next_attempt_at = some env.now;
}

abbrev cancelled_patch : Env → Transfer → Transfer
cancelled_patch env r = record r {
  state = State.cancelled;
  reason_code = some Reason.cancelled;
  resolved_at = some env.now;
}

abbrev pub processing_only : List State
processing_only = State.processing ∷ []

-- What Account decided about the deposit.
abbrev apply_verdict : Env → ℕ → Option (CancelAnswer × Option Reason) → Call Bool
apply_verdict env id none = fail service_unavailable
apply_verdict env id (some (CancelAnswer.cancelled, _)) =
    transition env.now id processing_only (cancelled_patch env)
apply_verdict env id (some (CancelAnswer.already_accepted, _)) =
    transition env.now id processing_only (accepted_patch env)
apply_verdict env id (some (CancelAnswer.already_rejected, reason)) =
    transition env.now id processing_only
      (resolve_patch env State.rejected (some (get_or reason Reason.processing_error)))

abbrev pub cancel_answer : State → CancelAnswer
cancel_answer State.accepted = CancelAnswer.already_accepted
cancel_answer State.rejected = CancelAnswer.already_rejected
cancel_answer _ = CancelAnswer.cancelled

abbrev answer_row : Option Transfer → Call CancelAnswer
answer_row none = fail service_unavailable
answer_row (some r) = return (cancel_answer r.state)

abbrev cancel_found : Env → (id caller : ℕ) → Option Transfer → Call CancelAnswer
cancel_found env id caller none = fail service_unavailable
cancel_found env id caller (some r) =
    if is_foreign caller r
    then fail unauthorized
    else if is_state r.state State.processing
    then apply_verdict env id (env.cancel_at_account id) >> find id >>= answer_row
    else return (cancel_answer r.state)

-- The body of a cancellation: the bank that it names, and whether its reason is one of the two.
pub record CancelRequest : Type 0 where
  pub origin_bank_code : Option ℕ
  pub known_reason : Bool

-- `cancelTransfer`
unfoldable pub cancel_transfer : Env → (caller id : Option ℕ) → CancelRequest → Call CancelAnswer
cancel_transfer env caller id body = do
  bank ← some_bank caller
  key ← some_id id
  require (equals bank body.origin_bank_code) unauthorized
  require body.known_reason validation_error
  row ← find key
  if is_some row then skip else insert_new key (cancelled_unknown env.now env.fresh bank) >> skip
  again_row ← find key
  cancel_found env key bank again_row
