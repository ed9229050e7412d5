-- ===== src/PaymentService/Interbank/Receiver/Cancelled.antt =====
-- What the answer CANCELLED to a partner bank promises.
use proyecto_sa_b.Prelude.{
  ℕ, ◌≡◌, refl, inl, inr, true, false, Option, none, some, get_or, arith, Bool-cases, Option-cases,
}
use proyecto_sa_b.Prelude.Action.{ok}
use proyecto_sa_b.Prelude.Dict.{lookup, lookup-insert_self}
use proyecto_sa_b.Prelude.Program.{return, fail, ◌>>=◌, ◌>>◌}
use proyecto_sa_b.PaymentService.Rules.{CancelAnswer}
use proyecto_sa_b.PaymentService.Interbank.{
  Direction, same_direction, in_coming, out_going, State, Transfer, World, Reason, Env,
  set_transfer,
}
use proyecto_sa_b.PaymentService.Interbank.Outbox.{
  is_state, transition, transition_in, insert_new, insert_in,
}
use proyecto_sa_b.PaymentService.Interbank.Sender.{find}
use proyecto_sa_b.PaymentService.Interbank.Receiver.{
  is_foreign, apply_verdict, answer_row, cancel_answer, cancel_found, CancelRequest,
  cancel_transfer, cancelled_patch, accepted_patch, resolve_patch, equals,
}
use proyecto_sa_b.PaymentService.Interbank.Receiver.Requests.{cancelled_unknown}
use proyecto_sa_b.PaymentService.Interbank.Moves.{fits, can_reach}
use proyecto_sa_b.PaymentService.Interbank.History.{
  History, step, cancel_post, no_rows, no_rows-Inv, History-Inv,
}
use proyecto_sa_b.PaymentService.Interbank.History.Outcomes.{transfers_only_advance}

-- A deposit that is no longer in process, and what a cancellation of it is answered.
pub record Closed (a : CancelAnswer) (r : Transfer) : Type 0 where
  pub comes : r.direction ≡ in_coming
  pub out : is_state r.state State.processing ≡ false
  pub answer : cancel_answer r.state ≡ a

own_row : (caller : ℕ) (d : Direction) → same_direction d in_coming ≡ true → d ≡ in_coming
own_row caller in_coming e = refl
own_row caller out_going e = cc

verdict_stored :
    (env : Env) (id : ℕ) (b : World) (r : Transfer) (a : CancelAnswer)
    (verdict : Option (CancelAnswer × Option Reason))
    → lookup id b.transfers ≡ some r
    → r.direction ≡ in_coming
    → is_state r.state State.processing ≡ true
    → ((apply_verdict env id verdict >> find id >>= answer_row) b).0 ≡ ok a
    → (r' : Transfer) × (lookup id
          ((apply_verdict env id verdict >> find id >>= answer_row) b).1.transfers
        ≡ some r')
      × Closed a r'
unfolding ◌>>=◌ find transition
verdict_stored env id b r a none e d s h = cc
verdict_stored env id b r a (some (CancelAnswer.cancelled, reason)) e d s h =
    let r' : Transfer = record (cancelled_patch env r) {
      updated_at = env.now;
      locked_until = none;
    } in
    let found = lookup-insert_self id r' b.transfers in
    let said : ok CancelAnswer.cancelled ≡ ok a = rw (e, transition_in, s, found) at h in
    let closed : Closed a r' = record { comes = d; out = refl; answer = cc } in
    simp (e, transition_in, s) (rw found (r', found, closed))
verdict_stored env id b r a (some (CancelAnswer.already_accepted, reason)) e d s h =
    let r' : Transfer = record (accepted_patch env r) {
      updated_at = env.now;
      locked_until = none;
    } in
    let found = lookup-insert_self id r' b.transfers in
    let said : ok CancelAnswer.already_accepted ≡ ok a = rw (e, transition_in, s, found) at h in
    let closed : Closed a r' = record { comes = d; out = refl; answer = cc } in
    simp (e, transition_in, s) (rw found (r', found, closed))
verdict_stored env id b r a (some (CancelAnswer.already_rejected, reason)) e d s h =
    let r' : Transfer =
      record (resolve_patch env State.rejected (some (get_or reason Reason.processing_error)) r) {
        updated_at = env.now;
        locked_until = none;
      } in
    let found = lookup-insert_self id r' b.transfers in
    let said : ok CancelAnswer.already_rejected ≡ ok a = rw (e, transition_in, s, found) at h in
    let closed : Closed a r' = record { comes = d; out = refl; answer = cc } in
    simp (e, transition_in, s) (rw found (r', found, closed))

cancel_found_stored :
    (env : Env) (id caller : ℕ) (b : World) (a : CancelAnswer) (row : Option Transfer)
    → lookup id b.transfers ≡ row
    → (cancel_found env id caller row b).0 ≡ ok a
    → (r' : Transfer) × (lookup id (cancel_found env id caller row b).1.transfers ≡ some r')
      × Closed a r'
unfolding fail return
cancel_found_stored env id caller b a none e h = cc
cancel_found_stored env id caller b a (some r) e h = elim (Bool-cases (is_foreign caller r)) [
  | inl foreign ↦ let no_ok = rw foreign at h in cc
  | inr own ↦
      let comes : r.direction ≡ in_coming = own_row caller r.direction (ground arith) in
      elim (Bool-cases (is_state r.state State.processing)) [
        | inl open_row ↦
            rw (own, open_row)
              (verdict_stored env id b r a (env.cancel_at_account id) e comes open_row
                (rw (own, open_row) at h))
        | inr over ↦
            let answer : cancel_answer r.state ≡ a = let h' = rw (own, over) at h in cc in
            rw (own, over) (r, e, record { comes = comes; out = over; answer = answer })
      ]
]

pub cancel_stored :
    (env : Env) (caller : Option ℕ) (key : ℕ) (body : CancelRequest) (b : World) (a : CancelAnswer)
    → (cancel_transfer env caller (some key) body b).0 ≡ ok a
    → (r' : Transfer) × (lookup key (cancel_transfer env caller (some key) body b).1.transfers
        ≡ some r')
      × Closed a r'
unfolding cancel_transfer ◌>>=◌ find insert_new
cancel_stored env none key body b a h = cc
cancel_stored env (some bank) key body b a h =
    elim (Bool-cases (equals bank body.origin_bank_code)) [
      | inr other ↦ let no_ok = rw other at h in cc
      | inl same ↦ elim (Bool-cases body.known_reason) [
        | inr unknown ↦ let no_ok = simp (same, unknown) at h in cc
        | inl known ↦ elim (Option-cases (lookup key b.transfers)) [
          | inr (r, e) ↦
              let stored = cancel_found_stored env key bank b a (lookup key b.transfers) refl in
              rw (same, known, e) (stored (rw (same, known, e) at h))
          | inl missing ↦
              let row : Transfer = cancelled_unknown env.now env.fresh bank in
              let b1 : World = set_transfer key row b in
              let stored = cancel_found_stored env key bank b1 a (lookup key b1.transfers) refl in
              rw (same, known, missing, insert_in, missing)
                (stored (rw (same, known, missing, insert_in, missing) at h))
        ]
      ]
    ]

only_cancelled :
    (r : Transfer) (s : State)
    → r.state ≡ s
    → fits in_coming s ≡ true
    → Closed CancelAnswer.cancelled r
    → s ≡ State.cancelled
only_cancelled r State.pending e f c = absurd (ground arith)
only_cancelled r State.sent e f c = absurd (ground arith)
only_cancelled r State.timeout e f c = absurd (ground arith)
only_cancelled r State.reversed e f c = absurd (ground arith)
only_cancelled r State.accepted e f c = let a = rw e at c.answer in cc
only_cancelled r State.rejected e f c = let a = rw e at c.answer in cc
only_cancelled r State.processing e f c = let a = rw e at c.out in cc
only_cancelled r State.cancelled e f c = refl

stays_cancelled : (s : State) → can_reach State.cancelled s ≡ true → s ≡ State.cancelled
stays_cancelled State.cancelled e = refl
stays_cancelled State.pending e = cc
stays_cancelled State.sent e = cc
stays_cancelled State.timeout e = cc
stays_cancelled State.reversed e = cc
stays_cancelled State.accepted e = cc
stays_cancelled State.rejected e = cc
stays_cancelled State.processing e = cc

-- After the answer CANCELLED the transfer is cancelled for good, whether it had come before, is in
-- process or comes later: whatever happens next, it is never accepted.
pub cancelled_for_good :
    (env : Env) (caller : Option ℕ) (key : ℕ) (body : CancelRequest) (b w : World)
    → History no_rows b
    → (cancel_transfer env caller (some key) body b).0 ≡ ok CancelAnswer.cancelled
    → History (cancel_transfer env caller (some key) body b).1 w
    → (r : Transfer) × (lookup key w.transfers ≡ some r) × (r.state ≡ State.cancelled)
cancelled_for_good env caller key body b w past done next =
    let (r', found, closed) = cancel_stored env caller key body b CancelAnswer.cancelled done in
    let now = step past env (cancel_post caller (some key) body) in
    let sound = (History-Inv no_rows _ no_rows-Inv now).sound key r' found in
    let final = only_cancelled r' r'.state refl (rw closed.comes at sound.fit) closed in
    let (r, found', reached, fixed) = transfers_only_advance _ w key r' now next found in
    (r, found', stays_cancelled r.state (rw final at reached))
