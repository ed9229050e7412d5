-- ===== src/PaymentService/Payments/Simulation/Ranges.antt =====
-- The ranges of the settings in force.
use proyecto_sa_b.Prelude.{
  ℕ, ◌+◌, ◌*◌, ◌≤◌, ◌≡◌, refl, inl, inr, Option, none, some, List, [], ◌∷◌, ◌==◌, ==_iff, leb,
  get_or, arith, Bool-cases,
}
use proyecto_sa_b.Prelude.Int.{ℤ, pos, negsuc}
use proyecto_sa_b.PaymentService.Payments.{SimulationSettings}
use proyecto_sa_b.PaymentService.Payments.Simulation.{
  Key, failure_rate_key, timeout_rate_key, timeout_ms_key, latency_ms_key, Patch, no_patch, upper,
  set_field, parse_entry, parse_entries, parse_simulation_patch, spread, or_else, spread_patch,
  merge_simulation, set_simulation, Change, set_to, reset, change_all, effective_simulation,
}

-- The rates are at most 1 together, and the waits at most a minute.
pub record InRange (whole : ℕ) (s : SimulationSettings) : Type 0 where
  pub rates : s.failure_rate + s.timeout_rate ≤ whole
  pub timeout : s.timeout_ms ≤ 60000 * whole
  pub latency : s.latency_ms ≤ 60000 * whole

-- What a sound patch may set for the waits.
abbrev IsAtMost : ℕ → Option ℕ → Type 0
IsAtMost n none = Unit
IsAtMost n (some v) = v ≤ n

record Sound (whole : ℕ) (p : Patch) : Type 0 where
  timeout : IsAtMost (60000 * whole) p.timeout_ms
  latency : IsAtMost (60000 * whole) p.latency_ms

set_field-Sound :
    (whole : ℕ) (key : Key) (v : ℕ) (p : Patch)
    → v ≤ upper whole key
    → Sound whole p
    → Sound whole (set_field key v p)
set_field-Sound whole failure_rate_key v p b h = record { timeout = h.timeout; latency = h.latency }
set_field-Sound whole timeout_rate_key v p b h = record { timeout = h.timeout; latency = h.latency }
set_field-Sound whole timeout_ms_key v p b h = record { timeout = b; latency = h.latency }
set_field-Sound whole latency_ms_key v p b h = record { timeout = h.timeout; latency = b }

parse_entry-Sound :
    (whole : ℕ) (key : Option Key) (value : Option ℤ) (p : Patch) (errors : ℕ)
    → Sound whole p
    → Sound whole (parse_entry whole key value (p, errors)).0
parse_entry-Sound whole none value p errors h = h
parse_entry-Sound whole (some key) none p errors h = h
parse_entry-Sound whole (some key) (some (negsuc v)) p errors h = h
parse_entry-Sound whole (some key) (some (pos v)) p errors h =
    elim (Bool-cases (leb v (upper whole key))) [
      | inl within ↦ rw within (set_field-Sound whole key v p (ground arith) h)
      | inr beyond ↦ rw beyond h
    ]

parse_entries-Sound :
    (whole : ℕ) (entries : List (Option Key × Option ℤ)) (p : Patch) (errors : ℕ)
    → Sound whole p
    → Sound whole (parse_entries whole entries (p, errors)).0
parse_entries-Sound whole [] p errors h = h
parse_entries-Sound whole ((key, value) ∷ rest) p errors h =
    let (p', errors') = parse_entry whole key value (p, errors) in
    parse_entries-Sound whole rest _ _ (parse_entry-Sound whole key value p errors h)

parse-Sound :
    (whole : ℕ) (input : Option (List (Option Key × Option ℤ)))
    → Sound whole (parse_simulation_patch whole input).0
unfolding parse_simulation_patch
parse-Sound whole none = record { timeout = tt; latency = tt }
parse-Sound whole (some entries) =
    parse_entries-Sound whole entries no_patch 0 (record { timeout = tt; latency = tt })

get_or_bound : (n old : ℕ) (o : Option ℕ) → IsAtMost n o → old ≤ n → get_or o old ≤ n
get_or_bound n old none h b = b
get_or_bound n old (some v) h b = h

get_or-or_else : (o old : Option ℕ) (v : ℕ) → get_or (or_else o old) v ≡ get_or o (get_or old v)
get_or-or_else none old v = refl
get_or-or_else (some u) old v = refl

-- A patch that is merged without an error keeps the settings in range.
merged-InRange :
    (whole : ℕ) (base : SimulationSettings) (old p : Patch)
    → Sound whole p
    → InRange whole (spread base old)
    → merge_simulation whole (spread base old) p ≡ 0
    → InRange whole (spread base (spread_patch old p))
unfolding merge_simulation
merged-InRange whole base old p s h e =
    let f = get_or-or_else p.failure_rate old.failure_rate base.failure_rate in
    let t = get_or-or_else p.timeout_rate old.timeout_rate base.timeout_rate in
    record {
      rates = rw (f, t) (ground arith);
      timeout =
          rw (get_or-or_else p.timeout_ms old.timeout_ms base.timeout_ms)
            (get_or_bound _ _ p.timeout_ms s.timeout h.timeout);
      latency =
          rw (get_or-or_else p.latency_ms old.latency_ms base.latency_ms)
            (get_or_bound _ _ p.latency_ms s.latency h.latency);
    }

set_simulation-InRange :
    (whole : ℕ) (base : SimulationSettings) (input : Option (List (Option Key × Option ℤ)))
    (old : Patch)
    → InRange whole (spread base old)
    → InRange whole (spread base (set_simulation whole base input old).1)
unfolding set_simulation
set_simulation-InRange whole base input old h =
    let p = (parse_simulation_patch whole input).0 in
    elim (Bool-cases ((parse_simulation_patch whole input).1 == 0)) [
      | inr invalid ↦ rw invalid h
      | inl valid ↦ elim (Bool-cases (merge_simulation whole (spread base old) p == 0)) [
        | inr too_much ↦ rw (valid, too_much) h
        | inl merged ↦
            rw (valid, merged)
              (merged-InRange whole base old p (parse-Sound whole input) h
                ((==_iff (merge_simulation whole (spread base old) p) 0).0 merged))
      ]
    ]

change_all-InRange :
    (whole : ℕ) (base : SimulationSettings) (cs : List Change) (old : Patch)
    → InRange whole base
    → InRange whole (spread base old)
    → InRange whole (spread base (change_all whole base cs old))
change_all-InRange whole base [] old b h = h
change_all-InRange whole base (set_to input ∷ cs) old b h =
    change_all-InRange whole base cs _ b (set_simulation-InRange whole base input old h)
change_all-InRange whole base (reset ∷ cs) old b h = change_all-InRange whole base cs no_patch b b

-- If the settings of the environment are in range, those in force are so after any changes, whatever
-- their inputs say: the two rates are together at most 1, and each wait at most a minute.
pub effective_simulation-InRange :
    (whole : ℕ) (base : SimulationSettings) (cs : List Change)
    → InRange whole base
    → InRange whole (effective_simulation base (change_all whole base cs no_patch))
unfolding effective_simulation
effective_simulation-InRange whole base cs b = change_all-InRange whole base cs no_patch b b
