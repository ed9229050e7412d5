-- ===== src/PaymentService/Tests/Simulation.antt =====
-- Settings of the environment and changes of them, to try the ranges on.
use proyecto_sa_b.Prelude.{none, some, [], ◌∷◌, List, arith}
use proyecto_sa_b.Prelude.Int.{pos}
use proyecto_sa_b.PaymentService.Payments.{SimulationSettings}
use proyecto_sa_b.PaymentService.Payments.Simulation.{
  failure_rate_key, timeout_ms_key, no_patch, Change, set_to, reset, change_all,
  effective_simulation,
}
use proyecto_sa_b.PaymentService.Payments.Simulation.Ranges.{InRange, effective_simulation-InRange}

abbrev defaults : SimulationSettings
defaults = record { failure_rate = 10; timeout_rate = 5; timeout_ms = 300000; latency_ms = 0 }

abbrev changes : List Change
changes =
    set_to (some ((some failure_rate_key, some (pos 90)) ∷ []))
    ∷ reset
    ∷ set_to (some ((some failure_rate_key, some (pos 98)) ∷ (some timeout_ms_key, none) ∷ []))
    ∷ []

effective_simulation-InRange_example :
    InRange 100 (effective_simulation defaults (change_all 100 defaults changes no_patch))
effective_simulation-InRange_example =
    effective_simulation-InRange 100 defaults changes
      (record { rates = omega arith; timeout = omega arith; latency = omega arith })
