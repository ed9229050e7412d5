-- ===== src/AccountService/Anomaly.antt =====
-- The detector of unusual activity: anomaly-detector.ts of apps/account-service/src/account. Times
-- and the window are whole milliseconds.
use proyecto_sa_b.Prelude.{
  ℕ, ◌+◌, Bool, true, false, Option, none, some, List, [], ◌∷◌, ◌++◌, ltb, leb, get_or, length,
  keep, if◌then◌else◌,
}
use proyecto_sa_b.Prelude.Dict.{Dict, lookup, insert}
use proyecto_sa_b.AccountService.Rows.{Detector}

pub record AnomalyConfig : Type 0 where
  pub max_ops : ℕ
  pub window_ms : ℕ

pub record Anomaly : Type 0 where
  pub account_id : ℕ
  pub operation_count : ℕ
  pub threshold : ℕ
  pub window_ms : ℕ

-- `t > now - windowMs`; the difference may be negative there, so the window is added here.
abbrev pub is_recent : AnomalyConfig → ℕ → ℕ → Bool
is_recent c now t = ltb now (t + c.window_ms)

abbrev pub any_recent : AnomalyConfig → ℕ → List ℕ → Bool
any_recent c now [] = false
any_recent c now (t ∷ ts) = if is_recent c now t then true else any_recent c now ts

abbrev pub sweep_hits : AnomalyConfig → ℕ → Dict (List ℕ) → Dict (List ℕ)
sweep_hits c now = keep (λ e. any_recent c now e.1)

abbrev pub sweep_alerts : AnomalyConfig → ℕ → Dict ℕ → Dict ℕ
sweep_alerts c now = keep (λ e. is_recent c now e.1)

unfoldable pub sweep : AnomalyConfig → ℕ → Detector → Detector
sweep c now d = record {
  hits = sweep_hits c now d.hits;
  last_alert = sweep_alerts c now d.last_alert;
}

-- The operations of the account within the window, this one included.
abbrev pub recent_hits : AnomalyConfig → ℕ → ℕ → Detector → List ℕ
recent_hits c account now d = keep (is_recent c now) (get_or (lookup account d.hits) []) ++ now ∷ []

-- `now - last < windowMs`
abbrev pub alerted_lately : AnomalyConfig → ℕ → Option ℕ → Bool
alerted_lately c now none = false
alerted_lately c now (some last) = ltb now (last + c.window_ms)

abbrev tidy : AnomalyConfig → ℕ → Detector → Detector
tidy c now d = if ltb 10000 (length d.hits) then sweep c now d else d

abbrev alert : AnomalyConfig → ℕ → ℕ → List ℕ → Detector → Option Anomaly × Detector
alert c account now recent d =
    if leb (length recent) c.max_ops
    then (none, d)
    else if alerted_lately c now (lookup account d.last_alert)
    then (none, d)
    else (
      some (record {
        account_id = account;
        operation_count = length recent;
        threshold = c.max_ops;
        window_ms = c.window_ms;
      }),
      record d { last_alert = insert account now d.last_alert },
    )

-- `AnomalyDetector.record`
unfoldable pub record_operation : AnomalyConfig → ℕ → ℕ → Detector → Option Anomaly × Detector
unfolding sweep
record_operation c account now d =
    let recent = recent_hits c account now d in
    alert c account now recent (tidy c now (record d { hits = insert account recent d.hits }))
