-- ===== src/TransactionService/Consumer/Delivered.antt =====
-- The handlers of an interbank deposit, as they change the table of transactions.
use proyecto_sa_b.Prelude.{ℕ, ◌≡◌, ◌≢◌, none, some, arith, ◌==◌, if◌then◌else◌}
use proyecto_sa_b.Prelude.Dict.{lookup, lookup-insert}
use proyecto_sa_b.TransactionService.Status.{InterbankState}
use proyecto_sa_b.TransactionService.Entity.{Transaction, Settlement}
use proyecto_sa_b.TransactionService.Entity.Delivery.{
  Delivery, reserved, advanced, settled, deliver,
}
use proyecto_sa_b.TransactionService.World.{World, Call}
use proyecto_sa_b.TransactionService.Incoming.{BankEvent, Payload, to_interbank_failure_reason}
use proyecto_sa_b.TransactionService.Consumer.{
  Env, has_reason, handle_funds_reserved, handle_interbank_advance, handle_interbank_settled,
}

pub data Stage : Type 0 where
  funds_reserved : Stage
  partner_says : InterbankState → Stage
  account_says : Settlement → Stage

-- The handler that `dispatch` picks.
unfoldable pub handler_of : Env → Stage → BankEvent → Payload → Call (Unit {0})
unfolding handle_funds_reserved handle_interbank_advance handle_interbank_settled
handler_of env funds_reserved e p = handle_funds_reserved env e p
handler_of env (partner_says state) e p = handle_interbank_advance env state e p
handler_of env (account_says how) e p = handle_interbank_settled env how e p

abbrev pub delivery_of : Stage → Payload → Delivery
delivery_of funds_reserved p = reserved
delivery_of (partner_says state) p =
    advanced state (if has_reason state then some (to_interbank_failure_reason p) else none)
delivery_of (account_says how) p = settled how

-- Whether or not the broker is up and whether or not the handler throws, the row that the event
-- names is afterwards the delivery's result, and every other row is as it was.
pub handler_of-deliver :
    (env : Env) (d : Stage) (e : BankEvent) (p : Payload) (t : Transaction) (w : World) (j : ℕ)
    → p.transaction_id ≢ 0
    → t.transaction_id ≡ p.transaction_id
    → lookup p.transaction_id w.repository ≡ some t
    → lookup j (handler_of env d e p w).1.repository ≡ (
        if j == p.transaction_id
        then some (deliver env.now (delivery_of d p) t)
        else lookup j w.repository)
unfolding handler_of deliver
handler_of-deliver env funds_reserved e p t w j named keyed stored = grind (arith, lookup-insert)
handler_of-deliver env (partner_says InterbankState.pending) e p t w j named keyed stored =
    grind (arith, lookup-insert)
handler_of-deliver env (partner_says InterbankState.sent) e p t w j named keyed stored =
    grind (arith, lookup-insert)
handler_of-deliver env (partner_says InterbankState.timeout) e p t w j named keyed stored =
    grind (arith, lookup-insert)
handler_of-deliver env (partner_says InterbankState.accepted) e p t w j named keyed stored =
    grind (arith, lookup-insert)
handler_of-deliver env (partner_says InterbankState.rejected) e p t w j named keyed stored =
    grind (arith, lookup-insert)
handler_of-deliver env (partner_says InterbankState.reversed) e p t w j named keyed stored =
    grind (arith, lookup-insert)
handler_of-deliver env (account_says how) e p t w j named keyed stored =
    grind (arith, lookup-insert)
