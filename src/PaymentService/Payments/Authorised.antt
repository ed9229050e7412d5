-- ===== src/PaymentService/Payments/Authorised.antt =====
-- What is authorised, and how often.
use proyecto_sa_b.Prelude.{
  ℕ, ◌≡◌, refl, true, false, Option, none, some, [], ◌∷◌, ◌++◌, arith, Bool-cases, inl, inr,
}
use proyecto_sa_b.Prelude.Int.{ℤ, pos, ◌≤ℤ◌, int_laws}
use proyecto_sa_b.Prelude.Dict.{lookup, lookup-insert_self}
use proyecto_sa_b.Prelude.Action.{ok, err}
use proyecto_sa_b.PaymentService.Payments.{
  approved, SimulationSettings, simulate_external_processor, success, decide, Env, FundsReserved,
  World, broker_down, handle, exists_by, paid, payment_of, message_of,
}

-- A payment is approved only if its amount is a number of at least one cent and within the limit,
-- and the processor answered with success.
pub decide-approved :
    (max : ℤ) (s : SimulationSettings) (roll : ℕ) (amount : Option ℤ)
    → (decide max s roll amount).0 ≡ approved
    → (a : ℤ) × (amount ≡ some a)
      × (pos 1 ≤ℤ a)
      × (a ≤ℤ max)
      × (simulate_external_processor s roll ≡ success)
      × ((decide max s roll amount).1 ≡ none)
unfolding decide
decide-approved max s roll none e = absurd (ground arith)
decide-approved max s roll (some a) e =
    (a, refl, grind int_laws, grind int_laws, ground arith, ground arith)

-- Once a transaction has a payment, no event for it, under whatever event id, makes another one or
-- publishes anything.
pub handle-paid :
    (env : Env) (e : FundsReserved) (w : World)
    → paid e.transaction_id w ≡ true
    → let (r, w') = handle env e w in
      (r ≡ ok tt) × (w'.payments ≡ w.payments) × (w'.published ≡ w.published)
unfolding handle
handle-paid env e w h = elim (Bool-cases (exists_by e.event_id w)) [
  | inl known ↦ (ground arith, ground arith, ground arith)
  | inr new ↦ (ground arith, ground arith, ground arith)
]

-- The first event for a transaction, with the broker up, stores its decided payment, publishes
-- exactly the message of it, and is marked as processed.
pub handle_first :
    (env : Env) (e : FundsReserved) (w : World)
    → exists_by e.event_id w ≡ false
    → paid e.transaction_id w ≡ false
    → w.broker ≡ true
    → let (r, w') = handle env e w in
      let p = payment_of env e (decide env.max env.simulation env.roll e.amount) in
      (r ≡ ok tt)
      × (lookup e.transaction_id w'.payments ≡ some p)
      × (w'.published ≡ w.published ++ message_of e p ∷ [])
      × (exists_by e.event_id w' ≡ true)
unfolding handle
handle_first env e w new unpaid up = (
  ground arith,
  grind (arith, lookup-insert_self),
  ground arith,
  grind (arith, lookup-insert_self),
)

-- If the broker is down at the first event for a transaction, its payment is stored and the
-- handler throws; the redelivery with the broker up returns, marks the event as processed, and
-- publishes nothing: neither `payment.approved` nor `payment.rejected` is ever sent.
pub handle_lost :
    (env env' : Env) (e : FundsReserved) (w : World)
    → exists_by e.event_id w ≡ false
    → paid e.transaction_id w ≡ false
    → w.broker ≡ false
    → let (r, w') = handle env e w in
      let (r', w'') = handle env' e (record w' { broker = true }) in
      (r ≡ err broker_down)
      × (paid e.transaction_id w' ≡ true)
      × (r' ≡ ok tt)
      × (exists_by e.event_id w'' ≡ true)
      × (w''.published ≡ w.published)
unfolding handle
handle_lost env env' e w new unpaid down = (
  ground arith,
  grind (arith, lookup-insert_self),
  grind (arith, lookup-insert_self),
  grind (arith, lookup-insert_self),
  grind (arith, lookup-insert_self),
)
