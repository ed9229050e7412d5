-- ===== src/PaymentService/Payments.antt =====
-- The simulated authorisation of a payment: payment.service.ts of
-- apps/payment-service/src/payment. Amounts and the limit are in whole cents, an amount that is no
-- finite number is `none`, and the rates and the roll of the dice are parts of one common whole.
-- The table of payments is keyed by the transaction, by which alone it is searched. `broker` says
-- whether a publish goes through; where it does not, it throws.
pub mod Authorised
pub mod Simulation
use proyecto_sa_b.Prelude.{
  ℕ, ◌+◌, Bool, true, false, Option, none, some, List, [], ◌∷◌, ◌++◌, ltb, is_some, not,
  if◌then◌else◌,
}
use proyecto_sa_b.Prelude.Int.{ℤ, pos, ltb_ℤ}
use proyecto_sa_b.Prelude.Dict.{Dict, lookup, insert}
use proyecto_sa_b.Prelude.Action.{ok, err, Action, pure, gets, modify, ◌>>=◌, ◌>>◌}

pub data PaymentStatus : Type 0 where
  approved rejected : PaymentStatus

pub data Reason : Type 0 where
  invalid_amount payment_limit_exceeded external_failure timeout : Reason

pub record Payment : Type 0 where
  pub payment_id : ℕ
  pub amount : Option ℤ
  pub status : PaymentStatus
  pub reason : Option Reason
  pub correlation_id : ℕ
  pub created_at : ℕ

pub data ExternalResult : Type 0 where
  success failure timed_out : ExternalResult

pub record SimulationSettings : Type 0 where
  pub failure_rate : ℕ
  pub timeout_rate : ℕ
  pub timeout_ms : ℕ
  pub latency_ms : ℕ

-- What the processor answers for a roll of the dice; the waits are left out.
unfoldable pub simulate_external_processor : SimulationSettings → ℕ → ExternalResult
simulate_external_processor s roll =
    if ltb roll s.timeout_rate
    then timed_out
    else if ltb roll (s.timeout_rate + s.failure_rate)
    then failure
    else success

abbrev pub PaymentOutcome : Type 0
PaymentOutcome = PaymentStatus × Option Reason

abbrev outcome_of : ExternalResult → PaymentOutcome
outcome_of success = (approved, none)
outcome_of failure = (rejected, some external_failure)
outcome_of timed_out = (rejected, some timeout)

abbrev decide_amount : (max : ℤ) → ExternalResult → Option ℤ → PaymentOutcome
decide_amount max external none = (rejected, some invalid_amount)
decide_amount max external (some amount) =
    if not (ltb_ℤ (pos 0) amount)
    then (rejected, some invalid_amount)
    else if ltb_ℤ max amount
    then (rejected, some payment_limit_exceeded)
    else outcome_of external

unfoldable pub decide : (max : ℤ) → SimulationSettings → (roll : ℕ) → Option ℤ → PaymentOutcome
unfolding simulate_external_processor
decide max s roll amount = decide_amount max (simulate_external_processor s roll) amount

-- The limit, the rates in force, and what the clock, `randomUUID` and `Math.random` give.
pub record Env : Type 0 where
  pub max : ℤ
  pub simulation : SimulationSettings
  pub roll : ℕ
  pub fresh : ℕ
  pub now : ℕ

-- `payment.approved` or `payment.rejected`, by the status.
pub record Message : Type 0 where
  pub correlation_id : ℕ
  pub payment_id : ℕ
  pub transaction_id : ℕ
  pub status : PaymentStatus
  pub reason : Option Reason

pub record World : Type 0 where
  pub payments : Dict Payment
  pub processed : Dict ℕ
  pub published : List Message
  pub broker : Bool

pub data Failure : Type 0 where
  broker_down : Failure

abbrev pub Call : Type 0 → Type 0
Call A = Action World Failure A

abbrev publish : Message → Call (Unit {0})
publish m w =
    if w.broker
    then (ok tt, record w { published = w.published ++ m ∷ [] })
    else (err broker_down, w)

-- `account.funds.reserved`
pub record FundsReserved : Type 0 where
  pub event_id : ℕ
  pub correlation_id : ℕ
  pub transaction_id : ℕ
  pub amount : Option ℤ

abbrev pub payment_of : Env → FundsReserved → PaymentOutcome → Payment
payment_of env e (status, reason) = record {
  payment_id = env.fresh;
  amount = e.amount;
  status = status;
  reason = reason;
  correlation_id = e.correlation_id;
  created_at = env.now;
}

abbrev pub message_of : FundsReserved → Payment → Message
message_of e p = record {
  correlation_id = e.correlation_id;
  payment_id = p.payment_id;
  transaction_id = e.transaction_id;
  status = p.status;
  reason = p.reason;
}

abbrev save_payment : ℕ → Payment → World → World
save_payment tx p w = record w { payments = insert tx p w.payments }

abbrev pub exists_by : ℕ → World → Bool
exists_by id w = is_some (lookup id w.processed)

abbrev pub paid : ℕ → World → Bool
paid tx w = is_some (lookup tx w.payments)

abbrev save_processed : ℕ → ℕ → World → World
save_processed id now w = record w { processed = insert id now w.processed }

unfoldable pub process : Env → FundsReserved → Call (Unit {0})
unfolding decide
process env e = do
  modify (
      save_payment e.transaction_id
        (payment_of env e (decide env.max env.simulation env.roll e.amount)))
  publish (message_of e (payment_of env e (decide env.max env.simulation env.roll e.amount)))

-- `PaymentService.handle`
unfoldable pub handle : Env → FundsReserved → Call (Unit {0})
unfolding process
handle env e = do
  known ← gets (exists_by e.event_id)
  if known then pure tt else do
    existing ← gets (paid e.transaction_id)
    if existing then pure tt else process env e
    modify (save_processed e.event_id env.now)
