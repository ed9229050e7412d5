-- ===== src/PaymentService/Interbank/ReversalRequests.antt =====
-- Reversals that this bank asks for, of a deposit that was credited after its sender had taken its
-- hold back: `createReversalRequest` and `processReversals` of interbank.service.ts.
pub mod Kept
use proyecto_sa_b.Prelude.{
  ℕ, ◌+◌, Bool, true, false, Option, none, some, ◌==◌, ◌&&◌, ◌||◌, not, ltb, leb, keep, take,
  is_some, if◌then◌else◌,
}
use proyecto_sa_b.Prelude.Int.{ℤ, pos, eqb_ℤ}
use proyecto_sa_b.Prelude.Dict.{lookup}
use proyecto_sa_b.Prelude.Program.{
  return, fail, read, write, change, attempt, skip, require, for_each, ◌>>=◌, ◌>>◌,
}
use proyecto_sa_b.PaymentService.Rules.{Response, backoff_ms}
use proyecto_sa_b.PaymentService.Interbank.{
  Direction, out_going, in_coming, State, Transfer, Reversal, ReversalState, ReversalAnswer, refund,
  reversal_out, World, Call, Env, validation_error, unauthorized, not_found, idempotency_conflict,
  service_unavailable, same_direction, is_due, set_reversal,
}
use proyecto_sa_b.PaymentService.Interbank.Outbox.{is_state, insert_new, flush_reversal}
use proyecto_sa_b.PaymentService.Interbank.Sender.{find, send_now, outgoing, to_seconds}
use proyecto_sa_b.PaymentService.Interbank.Reversals.{
  insert_reversal, update_reversal, reversal_row, is_reversal_state,
}

-- `createReversalRequest`; an id that is there already has been asked for.
unfoldable pub create_reversal_request : Env → ℕ → Transfer → Call (Unit {0})
create_reversal_request env id r =
    insert_reversal (env.uuid (reversal_out id)) (
      reversal_row env.now out_going id r.partner_bank_code r.amount ReversalState.pending
        r.correlation_id (some env.now) false)
    >> skip

abbrev is_open : ℕ → Reversal → Bool
is_open now v =
    same_direction v.direction out_going
    && (is_reversal_state v.state ReversalState.pending
        || is_reversal_state v.state ReversalState.requested)
    && is_due now v.next_attempt_at
    && is_due now v.locked_until

abbrev claim_reversal_in : (now id : ℕ) → World → Bool × World
claim_reversal_in now id w = elim (lookup id w.reversals) [
  | none ↦ (false, w)
  | some v ↦
      if is_due now v.locked_until
      then (true, set_reversal id (record v { locked_until = some (now + 30000) }) w)
      else (false, w)
]

abbrev claim_reversal : (now id : ℕ) → Call Bool
claim_reversal now id = change (claim_reversal_in now id)

abbrev close_patch : Env → ReversalState → Option ℕ → Reversal → Reversal
close_patch env state refund_id v = record v {
  state = state;
  refund_transfer_id = refund_id;
  locked_until = none;
  updated_at = env.now;
}

abbrev give_up_patch : Env → Reversal → Reversal
give_up_patch env v = record v {
  state = ReversalState.failed;
  locked_until = none;
  updated_at = env.now;
}

abbrev requested_patch : Env → Reversal → Reversal
requested_patch env v = record v {
  state = ReversalState.requested;
  next_attempt_at = some (env.now + 10000);
  locked_until = none;
  updated_at = env.now;
}

abbrev wait_patch : Env → (attempts wait : ℕ) → Reversal → Reversal
wait_patch env attempts wait v = record v {
  attempts = attempts + 1;
  next_attempt_at = some (env.now + wait);
  locked_until = none;
  updated_at = env.now;
}

abbrev is_given_up : Env → Reversal → Bool
is_given_up env v = ltb (v.created_at + 86400000) env.now

abbrev asked_reversal : Env → ℕ → Reversal → (status : ℕ) → Call (Unit {0})
asked_reversal env id v status =
    if status == 202 || status == 200
    then update_reversal id (requested_patch env)
    else if leb 400 status && ltb status 500 && not (status == 429)
    then update_reversal id (give_up_patch env)
    else if is_given_up env v
    then update_reversal id (give_up_patch env)
    else update_reversal id (wait_patch env v.attempts (backoff_ms (pos v.attempts) 2000 300000))

abbrev ask_as : Env → ℕ → Reversal → Option ℕ → Call (Unit {0})
ask_as env id v none = fail service_unavailable
ask_as env id v (some bank) = asked_reversal env id v (env.post_reversal id v)

abbrev not_done : Env → ℕ → Reversal → Call (Unit {0})
not_done env id v =
    if is_given_up env v
    then update_reversal id (give_up_patch env)
    else update_reversal id (wait_patch env v.attempts 10000)

abbrev polled : Env → ℕ → Reversal → Option ReversalAnswer → Call (Unit {0})
polled env id v (some (ReversalAnswer.completed refund_id)) =
    update_reversal id (close_patch env ReversalState.completed refund_id)
polled env id v (some ReversalAnswer.failed) = update_reversal id (give_up_patch env)
polled env id v none = not_done env id v

abbrev said_of : Response ReversalAnswer → Option ReversalAnswer
said_of res = if res.status == 200 then res.said else none

-- One round of the loop of `processReversals`.
unfoldable pub process_reversal : Env → ℕ × Reversal → Call (Unit {0})
process_reversal env (id, v) = do
  claimed ← claim_reversal env.now id
  if claimed
      then if is_reversal_state v.state ReversalState.pending
        then elim env.own_bank [
          | none ↦ fail service_unavailable
          | some bank ↦ asked_reversal env id v (env.post_reversal id v)
        ]
        else polled env id v (said_of (env.get_reversal id v))
      else skip

-- `processReversals`
unfoldable pub process_reversals : Env → Call (Unit {0})
process_reversals env = do
  rows ← read (λ (w : World). take 20 (keep (λ e. is_open env.now e.1) w.reversals))
  for_each (process_reversal env) rows
