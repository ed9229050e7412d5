-- ===== src/PaymentService/Interbank/Receiver/Answered.antt =====
-- The two sides of a cancellation together: a sender that reads the answer of a bank that runs this
-- service by `resolveCancel` of interbank.rules.ts, with `reply` of interbank.controller.ts.
use proyecto_sa_b.Prelude.{ℕ, ◌≡◌, refl, ◌⊎◌, inl, inr, true, false, Option, none, some, arith}
use proyecto_sa_b.Prelude.Action.{Result, ok, err}
use proyecto_sa_b.Prelude.Dict.{lookup}
use proyecto_sa_b.PaymentService.Rules.{
  CancelAnswer, Response, Resolution, accept, release, cancel, retry, resolve_cancel,
}
use proyecto_sa_b.PaymentService.Interbank.{
  State, Transfer, World, Env, Failure, in_coming, validation_error, unauthorized, not_found,
  idempotency_conflict, expired, service_unavailable, null_date,
}
use proyecto_sa_b.PaymentService.Interbank.Outbox.{number, is_state}
use proyecto_sa_b.PaymentService.Interbank.Receiver.{cancel_answer, CancelRequest, cancel_transfer}
use proyecto_sa_b.PaymentService.Interbank.Receiver.Cancelled.{cancel_stored}
use proyecto_sa_b.PaymentService.Interbank.Moves.{fits, can_reach, number_same}
use proyecto_sa_b.PaymentService.Interbank.History.{
  History, step, cancel_post, no_rows, no_rows-Inv, History-Inv,
}
use proyecto_sa_b.PaymentService.Interbank.History.Outcomes.{transfers_only_advance}

-- The status of an `InterbankHttpError` in `reply` of interbank.controller.ts; any other exception is
-- a 503.
abbrev pub status_of : Failure → ℕ
status_of validation_error = 400
status_of unauthorized = 401
status_of not_found = 404
status_of idempotency_conflict = 409
status_of expired = 422
status_of service_unavailable = 503
status_of null_date = 503

-- What `cancelTransfer` returns or throws, by `reply` over HTTP.
abbrev pub cancel_response : Result Failure CancelAnswer → Response CancelAnswer
cancel_response (ok a) = record { network_error = false; status = 200; said = some a }
cancel_response (err e) = record { network_error = false; status = status_of e; said = none }

-- What the sender may rely on: after a release the deposit is cancelled or rejected, and after an
-- acceptance it is accepted.
abbrev pub Agrees : Resolution → State → Type 0
Agrees release s = (s ≡ State.cancelled) ⊎ (s ≡ State.rejected)
Agrees accept s = s ≡ State.accepted
Agrees cancel s = Unit
Agrees retry s = Unit

abbrev pub Stands : Resolution → ℕ → World → Type 0
Stands release id w = (r : Transfer) × (lookup id w.transfers ≡ some r) × Agrees release r.state
Stands accept id w = (r : Transfer) × (lookup id w.transfers ≡ some r) × Agrees accept r.state
Stands cancel id w = Unit
Stands retry id w = Unit

-- A state of a deposit that is not in process is its last.
stays :
    (s s' : State)
    → fits in_coming s ≡ true
    → is_state s State.processing ≡ false
    → can_reach s s' ≡ true
    → number s' ≡ number s
stays s s' f out g = ground arith

answer-Agrees :
    (s s' : State) (a : CancelAnswer)
    → fits in_coming s ≡ true
    → is_state s State.processing ≡ false
    → cancel_answer s ≡ a
    → number s' ≡ number s
    → Agrees (resolve_cancel (cancel_response (ok a))) s'
unfolding resolve_cancel
answer-Agrees State.pending s' a f out e n = cc
answer-Agrees State.sent s' a f out e n = cc
answer-Agrees State.timeout s' a f out e n = cc
answer-Agrees State.reversed s' a f out e n = cc
answer-Agrees State.processing s' a f out e n = cc
answer-Agrees State.accepted s' a f out e n = rw⁻¹ e (number_same s' State.accepted n)
answer-Agrees State.rejected s' a f out e n = rw⁻¹ e (inr (number_same s' State.rejected n))
answer-Agrees State.cancelled s' a f out e n = rw⁻¹ e (inl (number_same s' State.cancelled n))

stands :
    (how : Resolution) (id : ℕ) (w : World) (r : Transfer)
    → lookup id w.transfers ≡ some r
    → Agrees how r.state
    → Stands how id w
stands release id w r e agrees = (r, e, agrees)
stands accept id w r e agrees = (r, e, agrees)
stands cancel id w r e agrees = tt
stands retry id w r e agrees = tt

no_answer : (f : Failure) → resolve_cancel (cancel_response (err f)) ≡ retry
unfolding resolve_cancel
no_answer validation_error = refl
no_answer unauthorized = refl
no_answer not_found = refl
no_answer idempotency_conflict = refl
no_answer expired = refl
no_answer service_unavailable = refl
no_answer null_date = refl

-- A sender that asks a bank that runs this service to cancel, and ends its transfer on the answer, ends
-- it as the receiver does: whatever had come before and whatever comes after, in any order, once the
-- sender releases its hold the deposit is cancelled or rejected for good, and once it takes the
-- transfer for accepted the deposit is accepted for good. An error is never taken for either.
pub cancel_transfer-Stands :
    (env : Env) (caller : Option ℕ) (key : ℕ) (body : CancelRequest) (b w : World)
    → History no_rows b
    → History (cancel_transfer env caller (some key) body b).1 w
    → Stands
        (resolve_cancel (cancel_response (cancel_transfer env caller (some key) body b).0))
        key
        w
cancel_transfer-Stands env caller key body b w past next =
    said (cancel_transfer env caller (some key) body b).0 refl
  where
    said :
        (x : Result Failure CancelAnswer)
        → (cancel_transfer env caller (some key) body b).0 ≡ x
        → Stands (resolve_cancel (cancel_response x)) key w
    said (err f) e = rw (no_answer f) tt
    said (ok a) e =
        let (r', found, closed) = cancel_stored env caller key body b a e in
        let now = step past env (cancel_post caller (some key) body) in
        let sound = (History-Inv no_rows _ no_rows-Inv now).sound key r' found in
        let fit = rw closed.comes at sound.fit in
        let (r, found', reached, fixed) = transfers_only_advance _ w key r' now next found in
        stands (resolve_cancel (cancel_response (ok a))) key w r found' (
          answer-Agrees r'.state r.state a fit closed.out closed.answer
            (stays r'.state r.state fit closed.out reached))
