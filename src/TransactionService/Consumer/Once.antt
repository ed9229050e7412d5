-- ===== src/TransactionService/Consumer/Once.antt =====
-- How the table of processed events guards the handlers.
use proyecto_sa_b.Prelude.{ℕ, ◌≡◌, true, arith, Option-cases, inl, inr}
use proyecto_sa_b.Prelude.Dict.{lookup, lookup-insert_self}
use proyecto_sa_b.Prelude.Action.{ok}
use proyecto_sa_b.TransactionService.World.{World}
use proyecto_sa_b.TransactionService.Incoming.{BankEvent}
use proyecto_sa_b.TransactionService.Consumer.{
  Env, handle_message, has_been_processed, mark_as_processed,
}

mark_as_processed_marks :
    (id now : ℕ) (w : World) → has_been_processed id (mark_as_processed id now w) ≡ true
unfolding has_been_processed
mark_as_processed_marks id now w = elim (Option-cases (lookup id w.processed)) [
  | inl new ↦ rw (new, lookup-insert_self id now w.processed)
  | inr (v, old) ↦ rw (old, old)
]

-- A message that is handled without an exception names an event that is marked as processed in
-- the world that it leaves, and delivering it again, at any later time and under any limits,
-- returns and changes nothing at all.
pub handle_message_twice :
    (env env' : Env) (e : BankEvent) (w w' : World)
    → handle_message env e w ≡ (ok tt, w')
    → (has_been_processed e.event_id w' ≡ true) × (handle_message env' e w' ≡ (ok tt, w'))
unfolding handle_message
handle_message_twice env env' e w w' h = grind (arith, mark_as_processed_marks)
