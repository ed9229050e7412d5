-- ===== src/PaymentService/Interbank/Sender/Closing.antt =====
-- What closing a transfer and flushing its event leave in the table.
use proyecto_sa_b.Prelude.{
  ℕ, ◌≡◌, refl, inl, inr, Bool, true, false, none, some, List, Bool-cases, Option-cases,
  if◌then◌else◌,
}
use proyecto_sa_b.Prelude.Action.{ok}
use proyecto_sa_b.Prelude.Dict.{lookup, lookup-insert_self}
use proyecto_sa_b.Prelude.Program.{◌>>=◌}
use proyecto_sa_b.PaymentService.Interbank.{State, Transfer, World, Env, set_transfer}
use proyecto_sa_b.PaymentService.Interbank.Outbox.{
  is_state, one_of, transition, transition_in, event_for, clear_in, publish_in, flush_row, flush_in,
  flush_seen,
}
use proyecto_sa_b.PaymentService.Interbank.Sender.{find, finalize_out, finalize_patch}

-- A flush leaves all of a row but its flag.
pub data Flushed (r : Transfer) : Transfer → Type 0 where
  kept : Flushed r r
  cleared : Flushed r (record r { pending_event = false })

pub clear_in_found :
    (id : ℕ) (s : State) (w : World) (r : Transfer)
    → lookup id w.transfers ≡ some r
    → (r' : Transfer) × (lookup id (clear_in id s w).transfers ≡ some r') × Flushed r r'
clear_in_found id s w r e = elim (Bool-cases (is_state r.state s)) [
  | inl same ↦
      let r' : Transfer = record r { pending_event = false } in
      rw (clear_in, e, same) (r', lookup-insert_self id r' w.transfers, cleared)
  | inr other ↦ rw (clear_in, e, other) (r, e, kept)
]

flush_if_found :
    (id : ℕ) (w w' : World) (r : Transfer) (s : State) (up : Bool)
    → lookup id w.transfers ≡ some r
    → lookup id w'.transfers ≡ some r
    → (r' : Transfer) × (lookup id (if up then clear_in id s w' else w).transfers ≡ some r')
      × Flushed r r'
flush_if_found id w w' r s true e e' = clear_in_found id s w' r e'
flush_if_found id w w' r s false e e' = (r, e, kept)

pub flush_in_found :
    (id : ℕ) (w : World) (r : Transfer)
    → lookup id w.transfers ≡ some r
    → (r' : Transfer) × (lookup id (flush_in id w).transfers ≡ some r') × Flushed r r'
flush_in_found id w r e = elim (Bool-cases r.pending_event) [
  | inr done ↦ simp (flush_in, e, flush_seen, done) (r, refl, kept)
  | inl waits ↦ elim (Option-cases (event_for id r)) [
    | inl quiet ↦ simp (flush_in, e, flush_seen, waits, quiet) (clear_in_found id r.state w r e)
    | inr (m, em) ↦
        simp (flush_in, e, flush_seen, waits, em)
          (flush_if_found id w (publish_in m w) r r.state w.broker e e)
  ]
]

Flushed-fields :
    (r r' : Transfer) → Flushed r r' → (r'.state ≡ r.state) × (r'.reason_code ≡ r.reason_code)
Flushed-fields r r' kept = (refl, refl)
Flushed-fields r r' cleared = (refl, refl)

-- Closing a row that is there, and in one of the states, always takes effect.
pub finalize_out_closes :
    (env : Env) (id : ℕ) (from : List State) (next : State) (patch : Transfer → Transfer)
    (w : World) (r : Transfer)
    → lookup id w.transfers ≡ some r
    → one_of from r.state ≡ true
    → ((finalize_out env id from next patch w).0 ≡ ok true)
      × ((r' : Transfer) × (lookup id (finalize_out env id from next patch w).1.transfers ≡ some r')
          × (r'.state ≡ next)
          × (r'.reason_code ≡ (patch r).reason_code))
unfolding finalize_out find transition flush_row ◌>>=◌
finalize_out_closes env id from next patch w r e f =
    let moved : Transfer = record (finalize_patch env next r.is_refund patch r) {
      updated_at = env.now;
      locked_until = none;
    } in
    let (r', e', flushed) =
      flush_in_found id (set_transfer id moved w) moved (lookup-insert_self id moved w.transfers) in
    simp (e, transition_in, f)
      (refl, (r', e', (Flushed-fields moved r' flushed).0, (Flushed-fields moved r' flushed).1))
