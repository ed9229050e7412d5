-- ===== src/InterbankMock/Receiver.antt =====
-- The mock as a receiver: `receiveTransfer`, `getTransfer`, `cancelTransfer`, `resolve` and
-- `deliverCallback` of bank.ts. In `deliverCallback` the request and its answer are one step: what
-- follows the answer is not read by any other handler.
use proyecto_sa_b.Prelude.{
  ℕ, ◌+◌, Bool, true, false, Option, none, some, List, [], ◌==◌, ◌&&◌, ◌||◌, not, ltb, leb, get_or,
  is_some, if◌then◌else◌,
}
use proyecto_sa_b.Prelude.Dict.{lookup}
use proyecto_sa_b.InterbankMock.{
  Mode, reject, no_callback, Reason, amount_limit_exceeded, currency_not_supported, expired,
  InState, Request, Incoming, resolving, delivering, Verdict, result_post, World, Env, Reply,
  failed, received, status_of, schedule, call, set_incoming,
}

-- The body of `POST /transfers`. A field that is missing or does not have the form that is asked for
-- is `none`; `description_length` is 0 where there is none.
pub record Body : Type 0 where
  pub has_other_fields : Bool
  pub transfer_id : Option ℕ
  pub origin_bank_code : Option ℕ
  pub destination_bank_code : Option ℕ
  pub origin_account : Option (List ℕ)
  pub destination_account : Option (List ℕ)
  pub amount : Option ℕ
  pub has_currency : Bool
  pub is_gtq : Bool
  pub description_length : ℕ
  pub created_at : Option ℕ
  pub expires_at : Option ℕ

-- `validateTransfer`: whether it finds nothing.
unfoldable pub validate_transfer : Body → Bool
validate_transfer r =
    not r.has_other_fields
    && is_some r.transfer_id
    && is_some r.origin_bank_code
    && is_some r.destination_bank_code
    && is_some r.origin_account
    && is_some r.destination_account
    && is_some r.amount
    && r.has_currency
    && leb r.description_length 140
    && is_some r.created_at
    && is_some r.expires_at

abbrev pub request_of : Body → Request
request_of r = record {
  transfer_id = get_or r.transfer_id 0;
  origin_account = get_or r.origin_account [];
  destination_account = get_or r.destination_account [];
  amount = get_or r.amount 0;
  is_gtq = r.is_gtq;
  expires_at = get_or r.expires_at 0;
}

abbrev pub status_reply : Incoming → Reply
status_reply t = status_of t.status t.reason_code

abbrev pub new_incoming : Env → Request → Incoming
new_incoming env r = record {
  hash = some (env.hash r);
  request = some r;
  status = InState.processing;
  reason_code = none;
  received_at = env.now;
  updated_at = env.now;
  callback = none;
}

-- The cancellation had come before the transfer: it is rejected by a callback.
abbrev pub arrived_cancelled : Env → Request → Incoming → World → Reply × World
arrived_cancelled env r t w = (
  received,
  schedule (delivering r.transfer_id 1)
      (set_incoming r.transfer_id (record t { hash = some (env.hash r); request = some r }) w),
)

abbrev pub resolves : Mode → Bool
resolves no_callback = false
resolves _ = true

abbrev pub schedule_resolve : ℕ → World → World
schedule_resolve id w = if resolves w.config.mode then schedule (resolving id) w else w

abbrev pub take_in : Env → Request → World → Reply × World
take_in env r w = if ltb r.expires_at env.now then (failed 422, w) else (
  received,
  schedule_resolve r.transfer_id (set_incoming r.transfer_id (new_incoming env r) w),
)

abbrev pub known_hash : Env → Request → Incoming → Option ℕ → World → Reply × World
known_hash env r t none w = arrived_cancelled env r t w
known_hash env r t (some h) w = if h == env.hash r then (status_reply t, w) else (failed 409, w)

abbrev pub receive_known : Env → Request → Option Incoming → World → Reply × World
receive_known env r none w = take_in env r w
receive_known env r (some t) w = known_hash env r t t.hash w

abbrev equals : ℕ → Option ℕ → Bool
equals n none = false
equals n (some k) = k == n

-- `receiveTransfer`; `traced` says whether the header `traceparent` has its form.
unfoldable pub receive_transfer :
    Env → (key : Option ℕ) → (traced : Bool) → Body → World → Reply × World
receive_transfer env key traced body w =
    if traced && validate_transfer body && equals (request_of body).transfer_id key
    then receive_known env (request_of body) (lookup (request_of body).transfer_id w.incoming) w
    else (failed 400, w)

abbrev shown : Option Incoming → Reply
shown none = failed 404
shown (some t) = status_reply t

-- `getTransfer`
unfoldable pub get_transfer : ℕ → World → Reply
get_transfer id w = shown (lookup id w.incoming)

abbrev pub is_processing : InState → Bool
is_processing InState.processing = true
is_processing _ = false

-- The answers to a cancellation.
pub data CancelReply : Type 0 where
  refused : CancelReply
  cancelled already_accepted already_rejected : CancelReply

abbrev pub cancel_reply : InState → CancelReply
cancel_reply InState.accepted = already_accepted
cancel_reply InState.rejected = already_rejected
cancel_reply _ = CancelReply.cancelled

abbrev pub cancel_now : Env → Incoming → Incoming
cancel_now env t = record t {
  status = InState.cancelled;
  reason_code = some Reason.cancelled;
  updated_at = env.now;
}

abbrev pub cancelled_unknown : Env → Incoming
cancelled_unknown env = record {
  hash = none;
  request = none;
  status = InState.cancelled;
  reason_code = some Reason.cancelled;
  received_at = env.now;
  updated_at = env.now;
  callback = none;
}

abbrev pub cancel_known : Env → ℕ → Option Incoming → World → CancelReply × World
cancel_known env id none w = (CancelReply.cancelled, set_incoming id (cancelled_unknown env) w)
cancel_known env id (some t) w =
    if is_processing t.status
    then (CancelReply.cancelled, set_incoming id (cancel_now env t) w)
    else (cancel_reply t.status, w)

-- `cancelTransfer`; `sound` says that the body names a bank and one of the two reasons.
unfoldable pub cancel_transfer : Env → ℕ → (sound : Bool) → World → CancelReply × World
cancel_transfer env id sound w =
    if sound then cancel_known env id (lookup id w.incoming) w else (refused, w)

-- Why `resolve` rejects a transfer.
abbrev pub mode_reason : Mode → Reason → Option Reason
mode_reason reject reason = some reason
mode_reason _ reason = none

unfoldable pub reject_reason_of : Env → World → Request → Option Reason
reject_reason_of env w r =
    if ltb r.expires_at env.now
    then some expired
    else if ltb 1000000 r.amount || ltb r.amount 1
    then some amount_limit_exceeded
    else if not r.is_gtq
    then some currency_not_supported
    else mode_reason w.config.mode w.config.reject_reason

abbrev pub verdict_of : InState → Verdict
verdict_of InState.accepted = Verdict.accepted
verdict_of _ = Verdict.rejected

abbrev pub deliver_answered : ℕ → (attempt status : ℕ) → World → World
deliver_answered id attempt status w =
    if status == 200
    then w
    else if ltb attempt 6
    then schedule (delivering id (attempt + 1)) w
    else w

abbrev pub deliver_found : Env → (id attempt : ℕ) → Option Incoming → World → World
deliver_found env id attempt none w = w
deliver_found env id attempt (some t) w =
    let c = result_post id (verdict_of t.status) t.reason_code in
    deliver_answered id attempt (env.send c)
      (set_incoming id (record t { callback = some (env.send c, attempt) }) (call c w))

-- `deliverCallback`; the wait of the next attempt, `2000 * 2 ** (attempt - 1)`, is left out.
unfoldable pub deliver_callback : Env → (id attempt : ℕ) → World → World
deliver_callback env id attempt w = deliver_found env id attempt (lookup id w.incoming) w

abbrev pub resolved : Env → World → Incoming → Option Reason → Incoming
resolved env w t none = record t {
  status = InState.accepted;
  reason_code = none;
  updated_at = env.now;
}
resolved env w t (some reason) = record t {
  status = InState.rejected;
  reason_code = some reason;
  updated_at = env.now;
}

abbrev pub reason_for : Env → World → Option Request → Option Reason
reason_for env w none = none
reason_for env w (some r) = reject_reason_of env w r

abbrev pub resolve_found : Env → ℕ → Option Incoming → World → World
resolve_found env id none w = w
resolve_found env id (some t) w =
    if is_processing t.status
    then deliver_callback env id 1
        (set_incoming id (resolved env w t (reason_for env w t.request)) w)
    else w

-- `resolve`
unfoldable pub resolve : Env → ℕ → World → World
resolve env id w = resolve_found env id (lookup id w.incoming) w
