-- ===== src/PaymentService/Interbank/Reversals/Kept.antt =====
-- The operations on reversals keep the invariant of the tables.
use proyecto_sa_b.Prelude.{
  ℕ, refl, Bool, true, false, Option, none, some, is_some, Option-cases, Bool-cases, inl, inr,
  if◌then◌else◌,
}
use proyecto_sa_b.Prelude.Int.{ℤ}
use proyecto_sa_b.Prelude.Dict.{lookup}
use proyecto_sa_b.Prelude.Program.Keeps.{
  Keeps, skip-Keeps, return-Keeps, fail-Keeps, read-Keeps, change-Keeps, write-Keeps, program_rules,
}
use proyecto_sa_b.PaymentService.Interbank.{
  Transfer, Reversal, World, Env, set_reversal, service_unavailable, unauthorized, validation_error,
  not_found,
}
use proyecto_sa_b.PaymentService.Interbank.Outbox.{
  publish_in, insert_new, flush_reversal, flush_reversal_in, reversal_event,
}
use proyecto_sa_b.PaymentService.Interbank.Sender.{find}
use proyecto_sa_b.PaymentService.Interbank.Sender.Kept.{send_now-Keeps}
use proyecto_sa_b.PaymentService.Interbank.Reversals.{
  find_reversal, insert_reversal, insert_reversal_in, update_reversal, update_reversal_in,
  ReversalRequest, or_refused, reverse_original, new_reversal, checked_reversal, request_reversal,
  shown_reversal, get_reversal, on_reversal_failed, refund_row, refund_original, debited_found,
  on_reversal_debited,
}
use proyecto_sa_b.PaymentService.Interbank.Moves.Steps.{quiet-RowSound}
use proyecto_sa_b.PaymentService.Interbank.Invariant.{Inv, publish-Inv}
use proyecto_sa_b.PaymentService.Interbank.Statements.{insert_new-Keeps}

-- Reversals are in a table of their own.
pub set_reversal-Inv : (b w : World) (id : ℕ) (v : Reversal) → Inv b w → Inv b (set_reversal id v w)
set_reversal-Inv b w id v h = record { follows = h.follows; sound = h.sound; distinct = h.distinct }

module _ {b : World} where
  find_reversal-Keeps : (id : ℕ) → Keeps (Inv b) (find_reversal id)
  find_reversal-Keeps id = read-Keeps _

  find_row-Keeps : (id : ℕ) → Keeps (Inv b) (find id)
  find_row-Keeps id = read-Keeps _

  pub insert_reversal-Keeps : (id : ℕ) (v : Reversal) → Keeps (Inv b) (insert_reversal id v)
  insert_reversal-Keeps id v = change-Keeps (insert_reversal_in id v) (λ w h.
      elim (Bool-cases (is_some (lookup id w.reversals))) [
        | inl there ↦ rw (insert_reversal_in, there) h
        | inr missing ↦ rw (insert_reversal_in, missing) (set_reversal-Inv b w id v h)
      ])

  pub update_reversal-Keeps :
      (id : ℕ) (patch : Reversal → Reversal) → Keeps (Inv b) (update_reversal id patch)
  update_reversal-Keeps id patch = write-Keeps (update_reversal_in id patch) (λ w h.
      elim (Option-cases (lookup id w.reversals)) [
        | inl missing ↦ rw (update_reversal_in, missing) h
        | inr (v, e) ↦ rw (update_reversal_in, e) (set_reversal-Inv b w id (patch v) h)
      ])

  flush_seen_if :
      (w : World) (id : ℕ) (v : Reversal)
      → Inv b w
      → (waits up : Bool)
      → Inv b (
          if waits
          then if up
            then set_reversal id
                (record v { pending_event = false })
                (publish_in (reversal_event id v) w)
            else w
          else w)
  flush_seen_if w id v h false up = h
  flush_seen_if w id v h true false = h
  flush_seen_if w id v h true true =
      set_reversal-Inv b (publish_in (reversal_event id v) w) id _
        (publish-Inv b w (reversal_event id v) h)

  pub flush_reversal-Keeps : (id : ℕ) → Keeps (Inv b) (flush_reversal id)
  unfolding flush_reversal
  flush_reversal-Keeps id = write-Keeps (flush_reversal_in id) (λ w h.
      elim (Option-cases (lookup id w.reversals)) [
        | inl missing ↦ rw (flush_reversal_in, missing) h
        | inr (v, e) ↦ rw (flush_reversal_in, e) (flush_seen_if w id v h _ w.broker)
      ])

ruleset reversal_rules = (
  program_rules, find_reversal-Keeps, find_row-Keeps, insert_reversal-Keeps, update_reversal-Keeps,
  flush_reversal-Keeps, send_now-Keeps,
)

module _ {b : World} where
  reverse_original-Keeps :
      (env : Env) (id original bank : ℕ) (amount : ℤ) (plain : Bool) (row : Option Transfer)
      → Keeps (Inv b) (reverse_original env id original bank amount plain row)
  reverse_original-Keeps env id original bank amount plain none = fail-Keeps not_found
  reverse_original-Keeps env id original bank amount plain (some r) =
      search (reversal_rules, or_refused-Keeps) depth 20
    where
      or_refused-Keeps : (row : Option Reversal) → Keeps (Inv b) (or_refused row)
      or_refused-Keeps none = fail-Keeps service_unavailable
      or_refused-Keeps (some v) = return-Keeps _

  new_reversal-Keeps :
      (env : Env) (id original bank : ℕ) (amount : ℤ) (plain : Bool) (row : Option Reversal)
      → Keeps (Inv b) (new_reversal env id original bank amount plain row)
  new_reversal-Keeps env id original bank amount plain (some v) = search (reversal_rules)
  new_reversal-Keeps env id original bank amount plain none =
      search (reversal_rules, reverse_original-Keeps)

  checked_reversal-Keeps :
      (env : Env) (bank : ℕ) (id original : Option ℕ) (amount : Option ℤ) (plain : Bool)
      → Keeps (Inv b) (checked_reversal env bank id original amount plain)
  checked_reversal-Keeps env bank (some id) (some original) (some amount) plain =
      search (reversal_rules, new_reversal-Keeps)
  checked_reversal-Keeps env bank none original amount plain = fail-Keeps validation_error
  checked_reversal-Keeps env bank (some id) none amount plain = fail-Keeps validation_error
  checked_reversal-Keeps env bank (some id) (some original) none plain = fail-Keeps validation_error

  pub request_reversal-Keeps :
      (env : Env) (caller : Option ℕ) (body : ReversalRequest)
      → Keeps (Inv b) (request_reversal env caller body)
  unfolding request_reversal
  request_reversal-Keeps env none body = fail-Keeps unauthorized
  request_reversal-Keeps env (some bank) body = search (reversal_rules, checked_reversal-Keeps)

  shown_reversal-Keeps :
      (bank : ℕ) (row : Option Reversal) → Keeps (Inv b) (shown_reversal bank row)
  shown_reversal-Keeps bank none = fail-Keeps not_found
  shown_reversal-Keeps bank (some v) = search (reversal_rules) depth 10

  pub get_reversal-Keeps : (caller id : Option ℕ) → Keeps (Inv b) (get_reversal caller id)
  unfolding get_reversal
  get_reversal-Keeps none id = fail-Keeps unauthorized
  get_reversal-Keeps (some bank) none = fail-Keeps validation_error
  get_reversal-Keeps (some bank) (some id) = search (reversal_rules, shown_reversal-Keeps)

  pub on_reversal_failed-Keeps : (env : Env) (id : ℕ) → Keeps (Inv b) (on_reversal_failed env id)
  unfolding on_reversal_failed
  on_reversal_failed-Keeps env id = update_reversal-Keeps id _

  refund-Keeps :
      (env : Env) (id correlation : ℕ) (r : Transfer)
      → Keeps (Inv b) (insert_new id (refund_row env correlation r))
  refund-Keeps env id correlation r = insert_new-Keeps id _ (quiet-RowSound id _ refl refl)

  refund_original-Keeps :
      (env : Env) (id correlation : ℕ) (row : Option Transfer)
      → Keeps (Inv b) (refund_original env id correlation row)
  refund_original-Keeps env id correlation none = on_reversal_failed-Keeps env id
  refund_original-Keeps env id correlation (some r) = search (reversal_rules, refund-Keeps) depth 12

  debited_found-Keeps :
      (env : Env) (id correlation : ℕ) (row : Option Reversal)
      → Keeps (Inv b) (debited_found env id correlation row)
  debited_found-Keeps env id correlation none = skip-Keeps
  debited_found-Keeps env id correlation (some v) = search (reversal_rules, refund_original-Keeps)

  pub on_reversal_debited-Keeps :
      (env : Env) (id correlation : ℕ) → Keeps (Inv b) (on_reversal_debited env id correlation)
  unfolding on_reversal_debited
  on_reversal_debited-Keeps env id correlation = search (reversal_rules, debited_found-Keeps)
