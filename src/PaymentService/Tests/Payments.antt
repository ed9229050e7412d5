-- ===== src/PaymentService/Tests/Payments.antt =====
-- Payments to try the authorisation on.
use proyecto_sa_b.Prelude.{◌≡◌, refl, true, false, none, some, []}
use proyecto_sa_b.Prelude.Int.{pos}
use proyecto_sa_b.Prelude.Action.{ok, err}
use proyecto_sa_b.PaymentService.Payments.{
  approved, SimulationSettings, simulate_external_processor, decide, Env, FundsReserved, World,
  broker_down, handle, exists_by, paid, payment_of, Payment,
}
use proyecto_sa_b.PaymentService.Payments.Authorised.{handle_lost}

-- Failures at 10 and timeouts at 5 in a hundred, and a roll above both.
abbrev settings : SimulationSettings
settings = record { failure_rate = 10; timeout_rate = 5; timeout_ms = 0; latency_ms = 0 }

abbrev env : Env
env = record { max = pos 100000000; simulation = settings; roll = 50; fresh = 90; now = 500 }

abbrev event : FundsReserved
event = record { event_id = 600; correlation_id = 41; transaction_id = 7; amount = some (pos 900) }

abbrev world : World
world = record { payments = []; processed = []; published = []; broker = true }

abbrev payment : Payment
payment = payment_of env event (approved, none)

decided : (decide (pos 100000000) settings 50 (some (pos 900))).0 ≡ approved
unfolding decide simulate_external_processor
decided = refl

handle_lost_example :
    let (r, w') = handle env event (record world { broker = false }) in
    let (r', w'') = handle env event (record w' { broker = true }) in
    (r ≡ err broker_down)
    × (paid 7 w' ≡ true)
    × (r' ≡ ok tt)
    × (exists_by 600 w'' ≡ true)
    × (w''.published ≡ [])
handle_lost_example = handle_lost env env event (record world { broker = false }) refl refl refl
