-- ===== src/PaymentService/Interbank/Callbacks.antt =====
-- Callbacks: `receiveResult`, `onDepositResult` and `deliverCallback` of interbank.service.ts.
pub mod Kept
use proyecto_sa_b.Prelude.{
  ℕ, zero, suc, ◌+◌, Bool, true, false, Option, none, some, List, [], ◌∷◌, ◌==◌, ◌&&◌, ◌||◌, not,
  ltb, leb, get_or, is_some, if◌then◌else◌,
}
use proyecto_sa_b.Prelude.Int.{pos}
use proyecto_sa_b.Prelude.Dict.{lookup}
use proyecto_sa_b.Prelude.Program.{return, fail, attempt, skip, require, ◌>>=◌, ◌>>◌}
use proyecto_sa_b.PaymentService.Rules.{
  Verdict, CallbackDecision, apply, ignore, conflict, late_accepted, callback_decision, OutState,
  CancelAnswer, backoff_ms,
}
use proyecto_sa_b.PaymentService.Interbank.{
  Direction, out_going, in_coming, State, Transfer, Reason, CallbackState, World, Call, Env,
  validation_error, unauthorized, not_found, idempotency_conflict, expired, service_unavailable,
  same_direction,
}
use proyecto_sa_b.PaymentService.Interbank.Outbox.{
  is_state, transition, update, insert_new, claim, flush_row,
}
use proyecto_sa_b.PaymentService.Interbank.Sender.{find, finalize_out, no_patch, with_reason}
use proyecto_sa_b.PaymentService.Interbank.ReversalRequests.{create_reversal_request}
use proyecto_sa_b.PaymentService.Interbank.Receiver.Requests.{
  TransferRequest, validate_transfer_request, incoming, cancelled_unknown,
}
use proyecto_sa_b.PaymentService.Interbank.Receiver.{
  some_bank, some_id, own_bank, equals, processing_only, resolve_patch, or_unavailable,
}

-- `row.state as any`: a state of the other direction falls to the last line of the rule.
abbrev pub out_state : State → OutState
out_state State.pending = OutState.pending
out_state State.sent = OutState.sent
out_state State.timeout = OutState.timeout
out_state State.accepted = OutState.accepted
out_state State.reversed = OutState.reversed
out_state _ = OutState.rejected

abbrev waiting_states : List State
waiting_states = State.pending ∷ State.sent ∷ State.timeout ∷ []

abbrev finish : Env → ℕ → Verdict → Option Reason → Call Bool
finish env id Verdict.accepted reason = finalize_out env id waiting_states State.accepted no_patch
finish env id Verdict.rejected reason =
    finalize_out env id waiting_states State.rejected
      (with_reason (some (get_or reason Reason.processing_error)))

abbrev decide_callback :
    Env
    → ℕ
    → Verdict
    → Option Reason
    → Transfer
    → CallbackDecision
    → Call (Unit {0})
    → Call (Unit {0})
decide_callback env id v reason r ignore retry = skip
decide_callback env id v reason r conflict retry = skip
decide_callback env id v reason r late_accepted retry = create_reversal_request env id r
decide_callback env id v reason r apply retry = do
  closed ← finish env id v reason
  if closed then skip else retry

abbrev callback_found :
    Env
    → (id caller destination : ℕ) → Verdict
    → Option Reason
    → Call (Unit {0})
    → Option Transfer
    → Call (Unit {0})
callback_found env id caller destination v reason retry none = fail not_found
callback_found env id caller destination v reason retry (some r) = do
  require (same_direction r.direction out_going) not_found
  require (r.partner_bank_code == caller && destination == caller) unauthorized
  decide_callback env id v reason r (callback_decision (out_state r.state) v) retry

-- The loop of three attempts.
unfoldable pub receive_loop :
    (attempts : ℕ) → Env → (id caller destination : ℕ) → Verdict → Option Reason → Call (Unit {0})
receive_loop zero env id caller destination v reason = skip
receive_loop (suc n) env id caller destination v reason = do
  row ← find id
  callback_found env id caller destination v reason
      (receive_loop n env id caller destination v reason) row

-- The body of a callback; `sound` says that it is an object with no other field and a date.
pub record ResultBody : Type 0 where
  pub sound : Bool
  pub transfer_id : Option ℕ
  pub destination_bank_code : Option ℕ
  pub status : Option Verdict
  pub reason_code : Option Reason

abbrev checked_result :
    Env → (id caller : ℕ) → Option Reason → Option ℕ → Option Verdict → Call (Unit {0})
checked_result env id caller reason (some destination) (some v) =
    receive_loop 3 env id caller destination v reason
checked_result env id caller reason _ _ = fail validation_error

-- `receiveResult`
unfoldable pub receive_result : Env → (caller id : Option ℕ) → ResultBody → Call (Unit {0})
receive_result env caller id body = do
  bank ← some_bank caller
  key ← some_id id
  require (body.sound && equals key body.transfer_id) validation_error
  checked_result env key bank body.reason_code body.destination_bank_code body.status

abbrev day_ms : ℕ
day_ms = 86400000

abbrev delivered_patch : Env → Transfer → Transfer
delivered_patch env r = record r {
  callback_state = some CallbackState.delivered;
  locked_until = none;
  updated_at = env.now;
}

abbrev failed_patch : Env → Transfer → Transfer → Transfer
failed_patch env seen r = record r {
  callback_state = some CallbackState.failed;
  callback_attempts = seen.callback_attempts + 1;
  locked_until = none;
  updated_at = env.now;
}

abbrev later_patch : Env → Transfer → Transfer → Transfer
later_patch env seen r = record r {
  callback_attempts = seen.callback_attempts + 1;
  next_attempt_at = some (env.now + backoff_ms (pos seen.callback_attempts) 2000 900000);
  locked_until = none;
  updated_at = env.now;
}

-- `deliverCallback`, with the row as it was read.
unfoldable pub deliver_callback : Env → ℕ → Transfer → Call (Unit {0})
deliver_callback env id seen = do
  bank ← own_bank env
  if env.post_result id seen == 200
      then update id (delivered_patch env)
      else if ltb (get_or seen.resolved_at seen.created_at + day_ms) env.now
      then update id (failed_patch env seen)
      else update id (later_patch env seen)

abbrev deliver_found : Env → ℕ → Option Transfer → Call (Unit {0})
deliver_found env id none = skip
deliver_found env id (some r) = do
  claimed ← claim env.now id
  if claimed then attempt (deliver_callback env id r) else skip

abbrev verdict_patch : Env → Verdict → Option Reason → Transfer → Transfer
verdict_patch env Verdict.accepted reason = resolve_patch env State.accepted none
verdict_patch env Verdict.rejected reason =
    resolve_patch env State.rejected (some (get_or reason Reason.processing_error))

abbrev result_found : Env → ℕ → Verdict → Option Reason → Option Transfer → Call (Unit {0})
result_found env id v reason none = skip
result_found env id v reason (some r) =
    if same_direction r.direction in_coming && is_state r.state State.processing
    then transition env.now id processing_only (verdict_patch env v reason)
      >> find id
      >>= deliver_found env id
    else skip

-- `onDepositResult`
unfoldable pub on_deposit_result : Env → ℕ → Verdict → Option Reason → Call (Unit {0})
on_deposit_result env id v reason = do row ← find id; result_found env id v reason row
