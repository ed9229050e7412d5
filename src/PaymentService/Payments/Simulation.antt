-- ===== src/PaymentService/Payments/Simulation.antt =====
-- The change of the simulated processor while it runs: apps/payment-service/src/payment/
-- simulation-config.ts, and `setSimulation`, `resetSimulation` and `effectiveSimulation` of
-- payment.service.ts. `whole` stands for the number 1, and every number is counted in its parts; a
-- value that is no finite number is `none`, and so is a key that is no field.
pub mod Ranges
use proyecto_sa_b.Prelude.{
  ℕ, ◌+◌, ◌*◌, Bool, true, false, Option, none, some, List, [], ◌∷◌, ◌==◌, leb, ltb, get_or,
  if◌then◌else◌,
}
use proyecto_sa_b.Prelude.Int.{ℤ, pos, negsuc}
use proyecto_sa_b.PaymentService.Payments.{SimulationSettings}

pub data Key : Type 0 where
  failure_rate_key timeout_rate_key timeout_ms_key latency_ms_key : Key

-- `Partial<SimulationSettings>`
pub record Patch : Type 0 where
  pub failure_rate : Option ℕ
  pub timeout_rate : Option ℕ
  pub timeout_ms : Option ℕ
  pub latency_ms : Option ℕ

abbrev pub no_patch : Patch
no_patch = record { failure_rate = none; timeout_rate = none; timeout_ms = none; latency_ms = none }

-- The upper ends of `RANGES`; the lower ends are 0.
abbrev pub upper : (whole : ℕ) → Key → ℕ
upper whole failure_rate_key = whole
upper whole timeout_rate_key = whole
upper whole timeout_ms_key = 60000 * whole
upper whole latency_ms_key = 60000 * whole

abbrev pub set_field : Key → ℕ → Patch → Patch
set_field failure_rate_key v p = record p { failure_rate = some v }
set_field timeout_rate_key v p = record p { timeout_rate = some v }
set_field timeout_ms_key v p = record p { timeout_ms = some v }
set_field latency_ms_key v p = record p { latency_ms = some v }

-- One round of the loop of `parseSimulationPatch`: the patch, and the number of errors.
abbrev pub parse_entry : (whole : ℕ) → Option Key → Option ℤ → Patch × ℕ → Patch × ℕ
parse_entry whole none value (p, errors) = (p, errors + 1)
parse_entry whole (some key) none (p, errors) = (p, errors + 1)
parse_entry whole (some key) (some (negsuc v)) (p, errors) = (p, errors + 1)
parse_entry whole (some key) (some (pos v)) (p, errors) =
    if leb v (upper whole key) then (set_field key v p, errors) else (p, errors + 1)

abbrev pub parse_entries : (whole : ℕ) → List (Option Key × Option ℤ) → Patch × ℕ → Patch × ℕ
parse_entries whole [] so_far = so_far
parse_entries whole ((key, value) ∷ rest) so_far =
    parse_entries whole rest (parse_entry whole key value so_far)

-- `parseSimulationPatch`; an input that is no object is `none`.
unfoldable pub parse_simulation_patch :
    (whole : ℕ) → Option (List (Option Key × Option ℤ)) → Patch × ℕ
parse_simulation_patch whole none = (no_patch, 1)
parse_simulation_patch whole (some entries) = parse_entries whole entries (no_patch, 0)

-- `{ ...base, ...patch }`
abbrev pub spread : SimulationSettings → Patch → SimulationSettings
spread base p = record {
  failure_rate = get_or p.failure_rate base.failure_rate;
  timeout_rate = get_or p.timeout_rate base.timeout_rate;
  timeout_ms = get_or p.timeout_ms base.timeout_ms;
  latency_ms = get_or p.latency_ms base.latency_ms;
}

abbrev pub or_else : Option ℕ → Option ℕ → Option ℕ
or_else none old = old
or_else (some v) old = some v

-- `{ ...overrides, ...patch }`
abbrev pub spread_patch : Patch → Patch → Patch
spread_patch old p = record {
  failure_rate = or_else p.failure_rate old.failure_rate;
  timeout_rate = or_else p.timeout_rate old.timeout_rate;
  timeout_ms = or_else p.timeout_ms old.timeout_ms;
  latency_ms = or_else p.latency_ms old.latency_ms;
}

-- `mergeSimulation`: the number of errors.
unfoldable pub merge_simulation : (whole : ℕ) → SimulationSettings → Patch → ℕ
merge_simulation whole base p =
    if ltb whole ((spread base p).failure_rate + (spread base p).timeout_rate) then 1 else 0

-- `setSimulation`: whether it had no errors, and the overrides after it. `base` has the values of
-- the environment.
unfoldable pub set_simulation :
    (whole : ℕ) → SimulationSettings → Option (List (Option Key × Option ℤ)) → Patch → Bool × Patch
set_simulation whole base input overrides =
    let (p, errors) = parse_simulation_patch whole input in
    if errors == 0
    then if merge_simulation whole (spread base overrides) p == 0
      then (true, spread_patch overrides p)
      else (false, overrides)
    else (false, overrides)

pub data Change : Type 0 where
  set_to : Option (List (Option Key × Option ℤ)) → Change
  reset : Change

abbrev pub change : (whole : ℕ) → SimulationSettings → Change → Patch → Patch
change whole base (set_to input) overrides = (set_simulation whole base input overrides).1
change whole base reset overrides = no_patch

abbrev pub change_all : (whole : ℕ) → SimulationSettings → List Change → Patch → Patch
change_all whole base [] overrides = overrides
change_all whole base (c ∷ cs) overrides = change_all whole base cs (change whole base c overrides)

-- `effectiveSimulation`
unfoldable pub effective_simulation : SimulationSettings → Patch → SimulationSettings
effective_simulation base overrides = spread base overrides
