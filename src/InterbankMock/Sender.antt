-- ===== src/InterbankMock/Sender.antt =====
-- The mock as a sender, its reversals and its list for the reconciliation: `sendTransfer`,
-- `receiveResult`, `requestReversal`, `getReversal` and `reconciliation` of bank.ts. `sendTransfer`
-- has a second half, which runs when the partner has answered.
use proyecto_sa_b.Prelude.{
  ℕ, ◌-◌, ◌*◌, ◌/◌, Bool, Option, none, some, List, ◌==◌, ◌&&◌, ◌||◌, leb, get_or, is_some, keep,
  drop, take, length, if◌then◌else◌,
}
use proyecto_sa_b.Prelude.Dict.{lookup, insert}
use proyecto_sa_b.InterbankMock.{
  InState, Request, Incoming, Outgoing, Reversal, ReversalStatus, sending, transfer_post, World,
  Env, schedule, call,
}

abbrev pub new_outgoing : (now : ℕ) → (origin destination : List ℕ) → (amount : ℕ) → Outgoing
new_outgoing now origin destination amount = record {
  origin_account = origin;
  destination_account = destination;
  amount = amount;
  sent_status = 0;
  result = none;
  created_at = now;
}

-- `sendTransfer` up to its request; `reversal` is the reversal that waits for it.
unfoldable pub send_transfer :
    Env
    → (destination : List ℕ) → (amount : ℕ) → (origin : List ℕ) → (reversal : Option ℕ) → World
    → World
send_transfer env destination amount origin reversal w =
    schedule (sending env.fresh (new_outgoing env.now origin destination amount) reversal)
      (call (transfer_post env.fresh origin destination amount) w)

abbrev is_taken : ℕ → Bool
is_taken status = status == 202 || status == 200

abbrev pub refunded : (id status : ℕ) → Reversal → Reversal
refunded id status v = record v {
  refund_transfer_id = some id;
  status = if is_taken status then ReversalStatus.completed else ReversalStatus.failed;
}

abbrev pub refund_found : (id status reversal : ℕ) → Option Reversal → World → World
refund_found id status reversal none w = w
refund_found id status reversal (some v) w = record w {
  reversals = insert reversal (refunded id status v) w.reversals;
}

abbrev pub refund_if : (id status : ℕ) → Option ℕ → World → World
refund_if id status none w = w
refund_if id status (some reversal) w =
    refund_found id status reversal (lookup reversal w.reversals) w

-- `sendTransfer` after the answer, and what `requestReversal` does after it.
unfoldable pub sent_transfer : (id status : ℕ) → Outgoing → (reversal : Option ℕ) → World → World
sent_transfer id status o reversal w =
    refund_if id status reversal
      (record w { outgoing = insert id (record o { sent_status = status }) w.outgoing })

abbrev pub result_found : (id result : ℕ) → Option Outgoing → World → ℕ × World
result_found id result none w = (404, w)
result_found id result (some o) w =
    (200, record w { outgoing = insert id (record o { result = some result }) w.outgoing })

-- `receiveResult`: the status of its answer; it stores whatever the body is.
unfoldable pub receive_result : (id result : ℕ) → World → ℕ × World
receive_result id result w = result_found id result (lookup id w.outgoing) w

-- The body of a reversal; a field that does not have its form is `none`.
pub record ReversalBody : Type 0 where
  pub reversal_id : Option ℕ
  pub original_transfer_id : Option ℕ
  pub amount : Option ℕ
  pub is_gtq : Bool

-- The status of the answer, and the reversal where it is 202.
abbrev pub ReversalReply : Type 0
ReversalReply = ℕ × Option Reversal

abbrev pub new_reversal : ℕ → ReversalStatus → Reversal
new_reversal original status = record {
  original_transfer_id = original;
  status = status;
  refund_transfer_id = none;
}

abbrev pub set_reversal : ℕ → Reversal → World → World
set_reversal id v w = record w { reversals = insert id v w.reversals }

abbrev pub reverse_request :
    Env → (id original : ℕ) → InState → Request → World → ReversalReply × World
reverse_request env id original InState.accepted r w =
    let v = new_reversal original ReversalStatus.processing in
    (
      (202, some v),
      send_transfer env r.origin_account r.amount r.destination_account (some id)
          (set_reversal id v w),
    )
reverse_request env id original _ r w =
    let v = new_reversal original ReversalStatus.failed in ((202, some v), set_reversal id v w)

abbrev pub reverse_content :
    Env → (id original : ℕ) → InState → Option Request → World → ReversalReply × World
reverse_content env id original status none w = ((404, none), w)
reverse_content env id original status (some r) w = reverse_request env id original status r w

abbrev pub reverse_original :
    Env → (id original : ℕ) → Option Incoming → World → ReversalReply × World
reverse_original env id original none w = ((404, none), w)
reverse_original env id original (some t) w = reverse_content env id original t.status t.request w

abbrev pub reverse_known : Env → (id original : ℕ) → Option Reversal → World → ReversalReply × World
reverse_known env id original (some v) w = ((202, some v), w)
reverse_known env id original none w =
    reverse_original env id original (lookup original w.incoming) w

-- `requestReversal`
unfoldable pub request_reversal : Env → ReversalBody → World → ReversalReply × World
request_reversal env body w =
    if is_some body.reversal_id
      && is_some body.original_transfer_id
      && is_some body.amount
      && body.is_gtq
    then reverse_known env (get_or body.reversal_id 0) (get_or body.original_transfer_id 0)
        (lookup (get_or body.reversal_id 0) w.reversals) w
    else ((400, none), w)

abbrev shown_reversal : Option Reversal → ReversalReply
shown_reversal none = (404, none)
shown_reversal (some v) = (200, some v)

-- `getReversal`
unfoldable pub get_reversal : ℕ → World → ReversalReply
get_reversal id w = shown_reversal (lookup id w.reversals)

-- A page of the list for the reconciliation.
pub record Page : Type 0 where
  pub total_items : ℕ
  pub items : List (ℕ × Incoming)

-- `iso(t.receivedAt).slice(0, 10)`
abbrev pub day_of : ℕ → ℕ
day_of at = at / 86400000

abbrev pub is_of_day : ℕ → ℕ × Incoming → Bool
is_of_day day (_, t) = is_some t.hash && day_of t.received_at == day

-- `reconciliation`; a date that does not have its form is `none`. Its answers 400 are `none`.
unfoldable pub reconciliation : (date : Option ℕ) → (page page_size : ℕ) → World → Option Page
reconciliation none page page_size w = none
reconciliation (some day) page page_size w =
    let all = keep (is_of_day day) w.incoming in
    if leb 1 page && leb 1 page_size && leb page_size 500
    then some (record {
      total_items = length all;
      items = take page_size (drop ((page - 1) * page_size) all);
    })
    else none
