-- ===== src/PaymentService/Interbank/Outbox.antt =====
-- The statements on the table of transfers, and the outbox: `transition`, `claim`, `eventFor`,
-- `flushRow` and `flushReversal` of interbank.service.ts.
use proyecto_sa_b.Prelude.{
  ℕ, ◌+◌, Bool, true, false, Option, none, some, List, [], ◌∷◌, ◌++◌, ◌==◌, ◌&&◌, is_some,
  if◌then◌else◌,
}
use proyecto_sa_b.Prelude.Dict.{lookup}
use proyecto_sa_b.Prelude.Program.{change, write}
use proyecto_sa_b.PaymentService.Interbank.{
  Direction, out_going, in_coming, State, Transfer, Reversal, ReversalState, deposit_requested,
  transfer_changed, reversal_requested, Message, World, Call, same_direction, is_due, set_transfer,
  set_reversal,
}

abbrev pub number : State → ℕ
number State.pending = 0
number State.sent = 1
number State.accepted = 2
number State.rejected = 3
number State.timeout = 4
number State.reversed = 5
number State.processing = 6
number State.cancelled = 7

abbrev pub is_state : State → State → Bool
is_state s t = number s == number t

-- `In(states)`
abbrev pub one_of : List State → State → Bool
one_of [] s = false
one_of (x ∷ xs) s = if is_state s x then true else one_of xs s

-- The conditional update: whether a row was in one of the states, and the table after it.
abbrev pub transition_in : (now id : ℕ) → List State → (Transfer → Transfer) → World → Bool × World
transition_in now id from patch w = elim (lookup id w.transfers) [
  | none ↦ (false, w)
  | some r ↦
      if one_of from r.state
      then (true, set_transfer id (record (patch r) { updated_at = now; locked_until = none }) w)
      else (false, w)
]

unfoldable pub transition : (now id : ℕ) → List State → (Transfer → Transfer) → Call Bool
transition now id from patch = change (transition_in now id from patch)

-- `transfers.update({ id }, …)` with no condition on the state.
abbrev pub update_in : ℕ → (Transfer → Transfer) → World → World
update_in id patch w = elim (lookup id w.transfers) [
  | none ↦ w
  | some r ↦ set_transfer id (patch r) w
]

unfoldable pub update : ℕ → (Transfer → Transfer) → Call (Unit {0})
update id patch = write (update_in id patch)

-- `insert`, which throws where the id is there: whether it did not.
abbrev pub insert_in : ℕ → Transfer → World → Bool × World
insert_in id r w =
    if is_some (lookup id w.transfers) then (false, w) else (true, set_transfer id r w)

unfoldable pub insert_new : ℕ → Transfer → Call Bool
insert_new id r = change (insert_in id r)

abbrev pub claim_in : (now id : ℕ) → World → Bool × World
claim_in now id w = elim (lookup id w.transfers) [
  | none ↦ (false, w)
  | some r ↦
      if is_due now r.locked_until
      then (true, set_transfer id (record r { locked_until = some (now + 30000) }) w)
      else (false, w)
]

unfoldable pub claim : (now id : ℕ) → Call Bool
claim now id = change (claim_in now id)

abbrev pub changed : ℕ → Transfer → Option Message
changed id r = some (record {
  correlation_id = r.correlation_id;
  payload =
      transfer_changed r.transaction_id id r.partner_bank_code r.amount r.state r.reason_code
        r.expires_at;
})

abbrev pub out_event : ℕ → Transfer → State → Option Message
out_event id r State.sent = changed id r
out_event id r State.timeout = changed id r
out_event id r State.accepted = changed id r
out_event id r State.rejected = changed id r
out_event id r State.reversed = changed id r
out_event id r _ = none

abbrev pub in_event : ℕ → Transfer → State → Option Message
in_event id r State.processing = some (record {
  correlation_id = r.correlation_id;
  payload =
      deposit_requested id r.partner_bank_code r.origin_account r.destination_account r.amount
        r.expires_at;
})
in_event id r _ = none

-- `eventFor`
abbrev pub event_of : ℕ → Transfer → Direction → Option Message
event_of id r in_coming = in_event id r r.state
event_of id r out_going = if r.is_refund then none else out_event id r r.state

abbrev pub event_for : ℕ → Transfer → Option Message
event_for id r = event_of id r r.direction

-- The flag is cleared only if the row is still in the state that was published.
abbrev pub clear_in : ℕ → State → World → World
clear_in id s w = elim (lookup id w.transfers) [
  | none ↦ w
  | some r ↦
      if is_state r.state s then set_transfer id (record r { pending_event = false }) w else w
]

abbrev pub publish_in : Message → World → World
publish_in m w = record w { published = w.published ++ m ∷ [] }

-- The part of `flushRow` after the row was read. Where the broker is down, nothing changes.
abbrev pub flush_seen : ℕ → Transfer → World → World
flush_seen id seen w =
    if seen.pending_event
    then elim (event_for id seen) [
      | none ↦ clear_in id seen.state w
      | some m ↦ if w.broker then clear_in id seen.state (publish_in m w) else w
    ]
    else w

abbrev pub flush_in : ℕ → World → World
flush_in id w = elim (lookup id w.transfers) [ none ↦ w | some r ↦ flush_seen id r w ]

unfoldable pub flush_row : ℕ → Call (Unit {0})
flush_row id = write (flush_in id)

abbrev pub is_processing : ReversalState → Bool
is_processing ReversalState.processing = true
is_processing _ = false

abbrev pub reversal_event : ℕ → Reversal → Message
reversal_event id v = record {
  correlation_id = v.correlation_id;
  payload = reversal_requested id v.original_transfer_id v.amount;
}

abbrev pub flush_reversal_seen : ℕ → Reversal → World → World
flush_reversal_seen id v w =
    if v.pending_event && same_direction v.direction in_coming && is_processing v.state
    then if w.broker
      then set_reversal id (record v { pending_event = false }) (publish_in (reversal_event id v) w)
      else w
    else w

abbrev pub flush_reversal_in : ℕ → World → World
flush_reversal_in id w = elim (lookup id w.reversals) [
  | none ↦ w
  | some v ↦ flush_reversal_seen id v w
]

unfoldable pub flush_reversal : ℕ → Call (Unit {0})
flush_reversal id = write (flush_reversal_in id)
