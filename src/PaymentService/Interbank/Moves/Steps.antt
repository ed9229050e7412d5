-- ===== src/PaymentService/Interbank/Moves/Steps.antt =====
-- The changes of state that the service makes, of transfers that go out and of deposits that come
-- in, and the two kinds of new rows.
use proyecto_sa_b.Prelude.{
  ℕ, ◌≡◌, refl, sym, ap, ◌∙◌, ◌≢◌, inl, inr, Bool, true, none, List, ◌==◌, ◌||◌, not, leb, ltb,
  arith,
}
use proyecto_sa_b.PaymentService.Interbank.{
  Direction, out_going, in_coming, State, Transfer, Message,
}
use proyecto_sa_b.PaymentService.Interbank.Outbox.{number, event_for, event_of}
use proyecto_sa_b.PaymentService.Interbank.Moves.{
  Fixed, fixed_of, fits, can_reach, RowSound, Moves, moved, settled,
}

abbrev pub is_open : ℕ → Bool
is_open n = ltb n 2 || n == 4

fits-leave :
    (d : Direction) (s t : State)
    → fits d s ≡ true
    → is_open (number s) ≡ true
    → leb (number t) 5 ≡ true
    → fits d t ≡ true
fits-leave out_going s t f o l = l
fits-leave in_coming s t f o l = ground arith

-- A transfer of this bank moves on, and its event waits unless it is a refund.
pub moved_out :
    (id : ℕ) (r r' : Transfer)
    → fixed_of r' ≡ fixed_of r
    → fits r.direction r.state ≡ true
    → is_open (number r.state) ≡ true
    → can_reach r.state r'.state ≡ true
    → number r.state ≢ number r'.state
    → r'.pending_event ≡ not r.is_refund
    → Moves id r r'
moved_out id r r' f fit o reached other p =
    let bound : leb (number r'.state) 5 ≡ true = ground arith in
    let plain : number r'.state ≢ 6 = ground arith in
    moved f reached other (fits-leave r.direction r.state r'.state fit o bound)
      (elim (settled id r' plain) [
        | inl quiet ↦ inl quiet
        | inr loud ↦ inr (p ∙ sym (ap (λ (x : Fixed). not x.is_refund) f) ∙ loud)
      ])

arrived : (d : Direction) (s : State) → fits d s ≡ true → number s ≡ 6 → d ≡ in_coming
arrived out_going s f e = absurd (ground arith)
arrived in_coming s f e = refl

-- A deposit in process gets a final state, of which Account is not told.
pub moved_in :
    (id : ℕ) (r r' : Transfer)
    → fixed_of r' ≡ fixed_of r
    → fits r.direction r.state ≡ true
    → number r.state ≡ 6
    → can_reach r.state r'.state ≡ true
    → (event_of id r' in_coming ≡ none)
    → number r.state ≢ number r'.state
    → Moves id r r'
moved_in id r r' f fit o reached quiet other =
    let comes : r.direction ≡ in_coming = arrived r.direction r.state fit o in
    let still : r'.direction ≡ in_coming = ap (λ (x : Fixed). x.direction) f ∙ comes in
    moved f reached other (rw comes (ground arith)) (inl (rw still quiet))

-- A row that is stored with its event waiting, or without an event.
pub waiting-RowSound :
    (id : ℕ) (r : Transfer)
    → fits r.direction r.state ≡ true
    → r.pending_event ≡ true
    → (messages : List Message) → RowSound id r messages
waiting-RowSound id r fit p messages = record { fit = fit; kept = λ m e. inl p }

pub quiet-RowSound :
    (id : ℕ) (r : Transfer)
    → fits r.direction r.state ≡ true
    → event_for id r ≡ none
    → (messages : List Message) → RowSound id r messages
quiet-RowSound id r fit quiet messages = record { fit = fit; kept = λ m e. cc }
