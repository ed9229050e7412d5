-- ===== src/PaymentService/Interbank/Timeouts.antt =====
-- The protocol of a sender that waits too long: `expireOutbound`, `processTimeouts` and
-- `resolveTimeout` of interbank.service.ts.
pub mod Kept
pub mod Others
pub mod Ending
pub mod Release
pub mod Round
use proyecto_sa_b.Prelude.{
  ℕ, ◌+◌, Bool, true, false, Option, none, some, List, [], ◌∷◌, ◌&&◌, ◌||◌, not, ltb, leb, keep,
  take, if◌then◌else◌,
}
use proyecto_sa_b.Prelude.Int.{pos}
use proyecto_sa_b.Prelude.Program.{fail, read, skip, for_each, ◌>>=◌, ◌>>◌}
use proyecto_sa_b.PaymentService.Rules.{
  Resolution, accept, release, cancel, retry, resolve_query, resolve_cancel, margin_expired,
  backoff_ms,
}
use proyecto_sa_b.PaymentService.Interbank.{
  out_going, State, Transfer, Reason, TimeoutStep, World, Call, Env, service_unavailable, null_date,
  same_direction, is_due,
}
use proyecto_sa_b.PaymentService.Interbank.Outbox.{
  is_state, one_of, transition, update, claim, flush_row,
}
use proyecto_sa_b.PaymentService.Interbank.Sender.{finalize_out, no_patch, with_reason}

abbrev pub open_states : List State
open_states = State.pending ∷ State.sent ∷ []

-- `expiresAt: LessThan(now)`, which no missing date satisfies
abbrev pub is_before : ℕ → Option ℕ → Bool
is_before now none = false
is_before now (some at) = ltb at now

abbrev pub is_overdue : ℕ → Transfer → Bool
is_overdue now r =
    same_direction r.direction out_going && one_of open_states r.state && is_before now r.expires_at

abbrev timeout_patch : Env → Transfer → Transfer → Transfer
timeout_patch env seen r = record r {
  state = State.timeout;
  timeout_at = some env.now;
  timeout_step = some TimeoutStep.query;
  step_attempts = 0;
  next_attempt_at = some env.now;
  pending_event = not seen.is_refund;
}

unfoldable pub expire_row : Env → ℕ × Transfer → Call (Unit {0})
expire_row env (id, seen) = do
  moved ← transition env.now id open_states (timeout_patch env seen)
  if moved then flush_row id else skip

abbrev pub rows_of : (Transfer → Bool) → ℕ → Call (List (ℕ × Transfer))
rows_of p limit = read (λ (w : World). take limit (keep (λ e. p e.1) w.transfers))

-- `expireOutbound`
unfoldable pub expire_outbound : Env → Call (Unit {0})
expire_outbound env = do rows ← rows_of (is_overdue env.now) 50; for_each (expire_row env) rows

abbrev pub is_cancelling : Option TimeoutStep → Bool
is_cancelling (some TimeoutStep.cancel) = true
is_cancelling _ = false

abbrev cancel_patch : Env → Transfer → Transfer
cancel_patch env r = record r {
  timeout_step = some TimeoutStep.cancel;
  step_attempts = 0;
  next_attempt_at = some env.now;
  locked_until = none;
  updated_at = env.now;
}

abbrev again_patch : Env → Transfer → Transfer → Transfer
again_patch env seen r = record r {
  step_attempts = seen.step_attempts + 1;
  next_attempt_at = some (env.now + backoff_ms (pos seen.step_attempts) 2000 30000);
  locked_until = none;
  updated_at = env.now;
}

abbrev resolved : Env → ℕ → Transfer → Resolution → Call (Unit {0})
resolved env id seen accept =
    finalize_out env id (State.timeout ∷ []) State.accepted no_patch >> skip
resolved env id seen release =
    finalize_out env id (State.timeout ∷ []) State.reversed (with_reason (some Reason.timeout))
    >> skip
resolved env id seen cancel = update id (cancel_patch env)
resolved env id seen retry =
    if not (is_cancelling seen.timeout_step) && leb env.query_attempts (seen.step_attempts + 1)
    then update id (cancel_patch env)
    else update id (again_patch env seen)

-- The answer of the partner bank to a query, or to a cancellation.
abbrev pub asked : Env → ℕ → Transfer → Resolution
asked env id seen =
    if is_cancelling seen.timeout_step
    then resolve_cancel (env.post_cancel id seen)
    else resolve_query (env.get_transfer id seen)

abbrev needs_own_bank : Env → Transfer → Bool
needs_own_bank env seen =
    is_cancelling seen.timeout_step && elim env.own_bank [ none ↦ true | some _ ↦ false ]

abbrev given_up : Env → ℕ → Call (Unit {0})
given_up env id =
    finalize_out env id (State.timeout ∷ []) State.reversed
      (with_reason (some Reason.timeout_no_response))
    >> skip

abbrev resolve_until : Env → ℕ → Transfer → Option ℕ → Call (Unit {0})
resolve_until env id seen none = fail null_date
resolve_until env id seen (some at) =
    if margin_expired at env.now env.margin_seconds
    then given_up env id
    else if needs_own_bank env seen
    then fail service_unavailable
    else resolved env id seen (asked env id seen)

-- `resolveTimeout`, with the row as it was read.
unfoldable pub resolve_timeout : Env → ℕ → Transfer → Call (Unit {0})
resolve_timeout env id seen = resolve_until env id seen seen.expires_at

abbrev pub margin_passed : Env → Option ℕ → Bool
margin_passed env none = false
margin_passed env (some at) = margin_expired at env.now env.margin_seconds

-- The rows of `processTimeouts` before they are claimed. (A missing date throws there.)
abbrev pub is_waiting : ℕ → Transfer → Bool
is_waiting now r =
    same_direction r.direction out_going
    && is_state r.state State.timeout
    && is_due now r.locked_until

abbrev pub to_resolve : Env → ℕ × Transfer → Bool
to_resolve env (_, r) = is_due env.now r.next_attempt_at || margin_passed env r.expires_at

unfoldable pub resolve_row : Env → ℕ × Transfer → Call (Unit {0})
resolve_row env (id, seen) = do
  claimed ← claim env.now id
  if claimed then resolve_timeout env id seen else skip

-- `processTimeouts`
unfoldable pub process_timeouts : Env → Call (Unit {0})
process_timeouts env = do
  rows ← rows_of (is_waiting env.now) 100
  for_each (resolve_row env) (keep (to_resolve env) rows)
