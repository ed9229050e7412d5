-- ===== src/TransactionService/Consumer/Retry.antt =====
-- What a redelivery makes of a message whose handler saved the transaction and then failed to
-- publish.
use proyecto_sa_b.Prelude.{ℕ, ◌≡◌, ◌≢◌, refl, true, false, some, none, [], ◌∷◌, ◌++◌, List, arith}
use proyecto_sa_b.Prelude.Dict.{lookup, insert, lookup-insert_self}
use proyecto_sa_b.Prelude.Action.{ok, err}
use proyecto_sa_b.TransactionService.Status.{TransactionStatus, to_public_status}
use proyecto_sa_b.TransactionService.Entity.{
  Transaction, broker_down, Settlement, is_closed, settle_interbank,
}
use proyecto_sa_b.TransactionService.World.{
  World, Message, OutgoingType, transaction_completed, transaction_status_changed, outcome, changed,
}
use proyecto_sa_b.TransactionService.Publisher.{create_event}
use proyecto_sa_b.TransactionService.Incoming.{BankEvent, Payload}
use proyecto_sa_b.TransactionService.Consumer.{
  Env, handle_transfer_completed, handle_interbank_settled,
}

-- What is published once an outcome has been announced by its two messages.
abbrev pub announced : OutgoingType → Transaction → ℕ → List Message → List Message
announced type t causation before =
    (before ++ create_event type t (outcome none) causation ∷ [])
    ++ create_event transaction_status_changed t
        (changed t.source_account (to_public_status t.status) t.updated_at) causation
      ∷ []

abbrev pub completed_at : ℕ → Transaction → Transaction
completed_at now t = record t { status = TransactionStatus.completed; updated_at = now }

settled_is_completed :
    (now : ℕ) (t : Transaction)
    → is_closed t.status ≡ false
    → (settle_interbank now Settlement.debited t).0.status ≡ TransactionStatus.completed
unfolding settle_interbank
settled_is_completed now t s = ground arith

module _ (env env' : Env) (e : BankEvent) (p : Payload) (t : Transaction)
    (named : p.transaction_id ≢ 0) (keyed : t.transaction_id ≡ p.transaction_id) where
  completed_first :
      (w : World)
      → lookup p.transaction_id w.repository ≡ some t
      → w.broker ≡ false
      → t.status ≡ TransactionStatus.processing
      → handle_transfer_completed env e p w ≡ (
        err broker_down,
        record w { repository = insert p.transaction_id (completed_at env.now t) w.repository },
      )
  unfolding handle_transfer_completed
  completed_first w stored down s = ground arith

  completed_again :
      (w : World)
      → lookup p.transaction_id w.repository ≡ some (completed_at env.now t)
      → w.broker ≡ true
      → handle_transfer_completed env' e p w ≡ (
        ok tt,
        record w {
          published =
              announced transaction_completed (completed_at env.now t) e.event_id w.published;
        },
      )
  unfolding handle_transfer_completed
  completed_again w stored up = ground arith

  settled_first :
      (w : World)
      → lookup p.transaction_id w.repository ≡ some t
      → w.broker ≡ false
      → is_closed t.status ≡ false
      → handle_interbank_settled env Settlement.debited e p w ≡ (
        err broker_down,
        record w {
          repository =
              insert p.transaction_id
                (settle_interbank env.now Settlement.debited t).0
                w.repository;
        },
      )
  unfolding handle_interbank_settled
  settled_first w stored down s = ground arith

  settled_again :
      (w : World) (t' : Transaction)
      → lookup p.transaction_id w.repository ≡ some t'
      → is_closed t'.status ≡ true
      → handle_interbank_settled env' Settlement.debited e p w ≡ (ok tt, w)
  unfolding handle_interbank_settled
  settled_again w t' stored closed = ground arith

-- The debit of an internal transfer that is PROCESSING, delivered while the broker is down and
-- again when it is up: the first delivery throws and leaves the row COMPLETED, the second returns
-- and publishes `transaction.completed` and `transaction.status.changed` of that row, once.
pub handle_transfer_completed-retry :
    (env env' : Env) (e : BankEvent) (p : Payload) (t : Transaction) (w : World)
    → p.transaction_id ≢ 0
    → t.transaction_id ≡ p.transaction_id
    → lookup p.transaction_id w.repository ≡ some t
    → w.broker ≡ false
    → t.status ≡ TransactionStatus.processing
    → let (r, w') = handle_transfer_completed env e p w in
      let (r', w'') = handle_transfer_completed env' e p (record w' { broker = true }) in
      (r ≡ err broker_down)
      × (lookup p.transaction_id w'.repository ≡ some (completed_at env.now t))
      × (r' ≡ ok tt)
      × (w''.published
          ≡ announced transaction_completed (completed_at env.now t) e.event_id w.published)
handle_transfer_completed-retry env env' e p t w named keyed stored down s =
    let saved = lookup-insert_self p.transaction_id (completed_at env.now t) w.repository in
    let up = record w {
      repository = insert p.transaction_id (completed_at env.now t) w.repository;
      broker = true;
    } in
    rw (completed_first env env' e p t named keyed w stored down s)
      (rw (completed_again env env' e p t named keyed up saved refl) (refl, saved, refl, refl))

-- The debit of an interbank transfer that is not closed, delivered while the broker is down and
-- again when it is up: the first delivery throws and leaves the row COMPLETED, the second returns
-- and publishes nothing, so the outcome is never announced.
pub handle_interbank_settled-lost :
    (env env' : Env) (e : BankEvent) (p : Payload) (t : Transaction) (w : World)
    → p.transaction_id ≢ 0
    → t.transaction_id ≡ p.transaction_id
    → lookup p.transaction_id w.repository ≡ some t
    → w.broker ≡ false
    → is_closed t.status ≡ false
    → let (r, w') = handle_interbank_settled env Settlement.debited e p w in
      let (r', w'') =
        handle_interbank_settled env' Settlement.debited e p (record w' { broker = true }) in
      (r ≡ err broker_down)
      × (lookup p.transaction_id w'.repository
          ≡ some (settle_interbank env.now Settlement.debited t).0)
      × ((settle_interbank env.now Settlement.debited t).0.status ≡ TransactionStatus.completed)
      × (r' ≡ ok tt)
      × (w''.published ≡ w.published)
handle_interbank_settled-lost env env' e p t w named keyed stored down s =
    let t' = (settle_interbank env.now Settlement.debited t).0 in
    let saved = lookup-insert_self p.transaction_id t' w.repository in
    let up = record w { repository = insert p.transaction_id t' w.repository; broker = true } in
    rw (settled_first env env' e p t named keyed w stored down s) (
      rw
        (settled_again env env' e p t named keyed up t' saved
          (rw (settled_is_completed env.now t s)))
        (refl, saved, settled_is_completed env.now t s, refl, refl))
