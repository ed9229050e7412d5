-- ===== src/PaymentService/Interbank/History/Outcomes.antt =====
-- What holds of the tables after any history: the states of a transfer, and its events.
use mathlib.Core.List.{Memᴰ}
use mathlib.Core.List.Memᴰ
use proyecto_sa_b.Prelude.{
  ℕ, ◌≡◌, refl, ◌⊎◌, inl, inr, Bool, true, false, some, ◌||◌, arith, Bool-cases, Option-cases,
  if◌then◌else◌,
}
use proyecto_sa_b.Prelude.Dict.{lookup}
use proyecto_sa_b.Prelude.Program.{write}
use proyecto_sa_b.PaymentService.Interbank.{State, Transfer, Message, World}
use proyecto_sa_b.PaymentService.Interbank.Outbox.{
  is_state, event_for, flush_row, flush_in, clear_in, publish_in,
}
use proyecto_sa_b.PaymentService.Interbank.Moves.{fixed_of, can_reach}
use proyecto_sa_b.PaymentService.Interbank.Invariant.{Inv, Inv-self}
use proyecto_sa_b.PaymentService.Interbank.History.{History, no_rows, no_rows-Inv, History-Inv}

-- Whatever requests, events, worker rounds and late answers come in whatever order, a transfer that
-- is in the table stays there, its direction, amount, banks, accounts and expiry never change, and
-- its state only moves on along the states of its direction.
pub transfers_only_advance :
    (b w : World) (id : ℕ) (before : Transfer)
    → History no_rows b
    → History b w
    → lookup id b.transfers ≡ some before
    → (after : Transfer) × (lookup id w.transfers ≡ some after)
      × (can_reach before.state after.state ≡ true)
      × (fixed_of after ≡ fixed_of before)
transfers_only_advance b w id before past next e =
    let sound : Inv no_rows b = History-Inv no_rows b no_rows-Inv past in
    let (after, found, a) = (History-Inv b w (Inv-self no_rows b sound) next).follows id before e in
    (after, found, a.reached, a.fixed)

abbrev pub is_final : State → Bool
is_final s =
    is_state s State.accepted
    || is_state s State.rejected
    || is_state s State.reversed
    || is_state s State.cancelled

-- A transfer that is accepted, rejected, reversed or cancelled keeps this state for good: no
-- callback, no late answer of a partner bank and no second row of the worker changes it.
pub final_states_stay :
    (b w : World) (id : ℕ) (before : Transfer)
    → History no_rows b
    → History b w
    → lookup id b.transfers ≡ some before
    → is_final before.state ≡ true
    → (after : Transfer) × (lookup id w.transfers ≡ some after)
      × (is_state after.state before.state ≡ true)
final_states_stay b w id before past next e final =
    let (after, found, reached, fixed) = transfers_only_advance b w id before past next e in
    (after, found, ground arith)

-- Whatever the broker and the partner banks do, the event that belongs to the state of a transfer is
-- either still marked as pending or has been handed to the broker: none is lost.
pub no_event_is_lost :
    (w : World) (id : ℕ) (r : Transfer) (m : Message)
    → History no_rows w
    → lookup id w.transfers ≡ some r
    → event_for id r ≡ some m
    → (r.pending_event ≡ true) ⊎ Memᴰ m w.published
no_event_is_lost w id r m past found e =
    ((History-Inv no_rows w no_rows-Inv past).sound id r found).kept m e

clear_in-published : (id : ℕ) (s : State) (w : World) → (clear_in id s w).published ≡ w.published
clear_in-published id s w = elim (Option-cases (lookup id w.transfers)) [
  | inl missing ↦ rw (clear_in, missing) refl
  | inr (r, e) ↦ elim (Bool-cases (is_state r.state s)) [
    | inl same ↦ rw (clear_in, e, same) refl
    | inr other ↦ rw (clear_in, e, other) refl
  ]
]

flush_seen_up :
    (w : World) (id : ℕ) (r : Transfer) (m : Message) (up : Bool)
    → up ≡ true
    → Memᴰ m (if up then clear_in id r.state (publish_in m w) else w).published
flush_seen_up w id r m false e = absurd (ground arith)
flush_seen_up w id r m true e =
    rw (clear_in-published id r.state (publish_in m w))
      (Memᴰ.append_right w.published (Memᴰ.head refl))

-- With the broker up, one flush of a row is enough: the event that belongs to its state has then been
-- handed to the broker, now or before.
pub flush_row_delivers :
    (w : World) (id : ℕ) (r : Transfer) (m : Message)
    → History no_rows w
    → w.broker ≡ true
    → lookup id w.transfers ≡ some r
    → event_for id r ≡ some m
    → Memᴰ m (flush_row id w).1.published
unfolding flush_row write
flush_row_delivers w id r m past up found e = elim (Bool-cases r.pending_event) [
  | inl waits ↦ rw (flush_in, found, waits, e) (flush_seen_up w id r m w.broker up)
  | inr done ↦ elim (no_event_is_lost w id r m past found e) [
    | inl waits ↦ absurd (ground arith)
    | inr said ↦ rw (flush_in, found, done) said
  ]
]
