-- ===== src/AccountService/Saga/Events.antt =====
-- The saga of the accounts as a consumer of events: what is handled once, and what a redelivery
-- after a failed publish does.
use proyecto_sa_b.Prelude.{ℕ, ◌≡◌, refl, true, false, arith, is_some}
use proyecto_sa_b.Prelude.Int.{ℤ}
use proyecto_sa_b.Prelude.Dict.{lookup, lookup-insert_self}
use proyecto_sa_b.Prelude.Action.{ok, err}
use proyecto_sa_b.AccountService.Rows.{
  Tables, Account, World, broker_down, exists_by, save_processed,
}
use proyecto_sa_b.AccountService.Anomaly.{AnomalyConfig}
use proyecto_sa_b.AccountService.Saga.{
  Step, Transfer, SagaEvent, transaction_created, reserved, reserve_rows, handle, reserve,
  check_anomaly,
}

-- An event that was handled without an exception is marked as processed, and a second delivery of
-- its id, at any time and whatever its type and payload, changes nothing.
pub handle_twice :
    (c c' : AnomalyConfig) (now now' id correlation correlation' : ℕ) (e e' : SagaEvent)
    (w w' : World)
    → handle c now id correlation e w ≡ (ok tt, w')
    → (exists_by id w' ≡ true) × (handle c' now' id correlation' e' w' ≡ (ok tt, w'))
unfolding handle
handle_twice c c' now now' id correlation correlation' e e' w w' h =
    grind (arith, lookup-insert_self)

-- With the broker down a reservation is written, and then the handler throws.
reserve_down :
    (c : AnomalyConfig) (now correlation : ℕ) (p : Transfer) (fee : ℤ) (s : Account) (w : World)
    → (reserve_rows now p w.tables).0 ≡ reserved fee s
    → w.broker ≡ false
    → let (r, w') = reserve c now correlation p w in
      (r ≡ err broker_down)
      × (w'.tables ≡ (reserve_rows now p w.tables).1)
      × (w'.published ≡ w.published)
      × (w'.processed ≡ w.processed)
unfolding reserve check_anomaly
reserve_down c now correlation p fee s w taken down = ground arith

reserve_rows-stored :
    (now : ℕ) (p : Transfer) (t : Tables) (fee : ℤ) (s : Account)
    → (reserve_rows now p t).0 ≡ reserved fee s
    → is_some (lookup p.transaction_id (reserve_rows now p t).1.reservations) ≡ true
unfolding reserve_rows
reserve_rows-stored now p t fee s e = grind (arith, lookup-insert_self)

reserve_again :
    (c : AnomalyConfig) (now correlation : ℕ) (p : Transfer) (w : World)
    → is_some (lookup p.transaction_id w.tables.reservations) ≡ true
    → reserve c now correlation p w ≡ (ok Step.skipped, w)
unfolding reserve reserve_rows
reserve_again c now correlation p w e = ground arith

handle_raises :
    (c : AnomalyConfig) (now id correlation : ℕ) (p : Transfer) (w : World)
    → exists_by id w ≡ false
    → (reserve c now correlation p w).0 ≡ err broker_down
    → handle c now id correlation (transaction_created p) w
      ≡ (err broker_down, (reserve c now correlation p w).1)
unfolding handle
handle_raises c now id correlation p w new e = ground arith

handle_skips :
    (c : AnomalyConfig) (now id correlation : ℕ) (p : Transfer) (w : World)
    → exists_by id w ≡ false
    → reserve c now correlation p w ≡ (ok Step.skipped, w)
    → handle c now id correlation (transaction_created p) w ≡ (ok tt, save_processed id now w)
unfolding handle
handle_skips c now id correlation p w new e = ground arith

-- If the broker is down when a `transaction.created` is handled for which the funds suffice, the
-- reservation is stored and the handler throws; the redelivery with the broker up returns, marks
-- the event as processed, and publishes nothing: `account.funds.reserved` is never sent.
pub handle-lost :
    (c c' : AnomalyConfig) (now now' id correlation : ℕ) (p : Transfer) (fee : ℤ) (s : Account)
    (w : World)
    → exists_by id w ≡ false
    → w.broker ≡ false
    → (reserve_rows now p w.tables).0 ≡ reserved fee s
    → let (r, w') = handle c now id correlation (transaction_created p) w in
      let (r', w'') =
        handle c' now' id correlation (transaction_created p) (record w' { broker = true }) in
      (r ≡ err broker_down)
      × (is_some (lookup p.transaction_id w'.tables.reservations) ≡ true)
      × (r' ≡ ok tt)
      × (exists_by id w'' ≡ true)
      × (w''.tables ≡ w'.tables)
      × (w''.published ≡ w.published)
handle-lost c c' now now' id correlation p fee s w new down taken =
    let (raised, written, quiet, unmarked) = reserve_down c now correlation p fee s w taken down in
    let w1 = (reserve c now correlation p w).1 in
    let up = record w1 { broker = true } in
    let stored : is_some (lookup p.transaction_id w1.tables.reservations) ≡ true =
      rw written (reserve_rows-stored now p w.tables fee s taken) in
    let new' : exists_by id up ≡ false = rw unmarked new in
    rw (handle_raises c now id correlation p w new raised) (
      rw
        (handle_skips c' now' id correlation p up new'
          (reserve_again c' now' correlation p up stored))
        (refl, stored, refl, rw (lookup-insert_self id now' w1.processed), refl, quiet))
