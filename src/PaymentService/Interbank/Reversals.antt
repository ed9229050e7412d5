-- ===== src/PaymentService/Interbank/Reversals.antt =====
-- Reversals that a partner bank asks for: `requestReversal`, `getReversal`, `onReversalDebited` and
-- `onReversalFailed` of interbank.service.ts, and the statements on the table of reversals.
pub mod Kept
use proyecto_sa_b.Prelude.{
  ℕ, ◌+◌, Bool, true, false, Option, none, some, ◌==◌, ◌&&◌, ◌||◌, not, ltb, leb, keep, take,
  is_some, if◌then◌else◌,
}
use proyecto_sa_b.Prelude.Int.{ℤ, pos, eqb_ℤ}
use proyecto_sa_b.Prelude.Dict.{lookup}
use proyecto_sa_b.Prelude.Program.{
  return, fail, read, write, change, attempt, skip, require, for_each, ◌>>=◌, ◌>>◌,
}
use proyecto_sa_b.PaymentService.Rules.{Response, backoff_ms}
use proyecto_sa_b.PaymentService.Interbank.{
  Direction, out_going, in_coming, State, Transfer, Reversal, ReversalState, ReversalAnswer, refund,
  reversal_out, World, Call, Env, validation_error, unauthorized, not_found, idempotency_conflict,
  service_unavailable, same_direction, is_due, set_reversal,
}
use proyecto_sa_b.PaymentService.Interbank.Outbox.{is_state, insert_new, flush_reversal}
use proyecto_sa_b.PaymentService.Interbank.Sender.{find, send_now, outgoing, to_seconds}

abbrev pub find_reversal : ℕ → Call (Option Reversal)
find_reversal id = read (λ (w : World). lookup id w.reversals)

abbrev pub insert_reversal_in : ℕ → Reversal → World → Bool × World
insert_reversal_in id v w =
    if is_some (lookup id w.reversals) then (false, w) else (true, set_reversal id v w)

abbrev pub insert_reversal : ℕ → Reversal → Call Bool
insert_reversal id v = change (insert_reversal_in id v)

abbrev pub update_reversal_in : ℕ → (Reversal → Reversal) → World → World
update_reversal_in id patch w = elim (lookup id w.reversals) [
  | none ↦ w
  | some v ↦ set_reversal id (patch v) w
]

abbrev pub update_reversal : ℕ → (Reversal → Reversal) → Call (Unit {0})
update_reversal id patch = write (update_reversal_in id patch)

abbrev pub reversal_row :
    (now : ℕ)
    → Direction
    → (original bank : ℕ) → ℤ
    → ReversalState
    → (correlation : ℕ) → (next : Option ℕ) → (waits : Bool) → Reversal
reversal_row now direction original bank amount state correlation next waits = record {
  direction = direction;
  original_transfer_id = original;
  partner_bank_code = bank;
  amount = amount;
  state = state;
  refund_transfer_id = none;
  correlation_id = correlation;
  attempts = 0;
  next_attempt_at = next;
  locked_until = none;
  pending_event = waits;
  created_at = now;
  updated_at = now;
}

-- The body of `POST /reversals`; `sound` says that its currency is GTQ, and `plain_amount` that the
-- text of its amount is the one that `formatAmount` writes, so not `0150.00` or `150`.
pub record ReversalRequest : Type 0 where
  pub sound : Bool
  pub reversal_id : Option ℕ
  pub original_transfer_id : Option ℕ
  pub origin_bank_code : Option ℕ
  pub amount : Option ℤ
  pub plain_amount : Bool

abbrev pub reversal_body : Reversal → ReversalState × Option ℕ
reversal_body v = (v.state, v.refund_transfer_id)

abbrev is_number : ReversalState → ℕ
is_number ReversalState.pending = 0
is_number ReversalState.requested = 1
is_number ReversalState.processing = 2
is_number ReversalState.completed = 3
is_number ReversalState.failed = 4

abbrev pub is_reversal_state : ReversalState → ReversalState → Bool
is_reversal_state s t = is_number s == is_number t

abbrev repeated_reversal : (bank original : ℕ) → Reversal → Call (ReversalState × Option ℕ)
repeated_reversal bank original v =
    if not (same_direction v.direction in_coming)
      || not (v.partner_bank_code == bank)
      || not (v.original_transfer_id == original)
    then fail idempotency_conflict
    else return (reversal_body v)

abbrev or_refused : Option Reversal → Call (ReversalState × Option ℕ)
or_refused none = fail service_unavailable
or_refused (some v) = return (reversal_body v)

abbrev reverse_original :
    Env
    → (id original bank : ℕ) → ℤ
    → (plain : Bool) → Option Transfer
    → Call (ReversalState × Option ℕ)
reverse_original env id original bank amount plain none = fail not_found
reverse_original env id original bank amount plain (some r) = do
  require
      (same_direction r.direction in_coming
        && r.partner_bank_code == bank
        && is_state r.state State.accepted)
      not_found
  require (eqb_ℤ r.amount amount && plain) validation_error
  fresh ← insert_reversal id (
      reversal_row env.now in_coming original bank r.amount ReversalState.processing env.fresh none
        true)
  if fresh
      then flush_reversal id >> return (ReversalState.processing, none)
      else find_reversal id >>= or_refused

abbrev new_reversal :
    Env
    → (id original bank : ℕ) → ℤ
    → (plain : Bool) → Option Reversal
    → Call (ReversalState × Option ℕ)
new_reversal env id original bank amount plain (some v) = repeated_reversal bank original v
new_reversal env id original bank amount plain none = do
  row ← find original
  reverse_original env id original bank amount plain row

abbrev checked_reversal :
    Env
    → (bank : ℕ) → (id original : Option ℕ) → Option ℤ
    → (plain : Bool) → Call (ReversalState × Option ℕ)
checked_reversal env bank (some id) (some original) (some amount) plain = do
  existing ← find_reversal id
  new_reversal env id original bank amount plain existing
checked_reversal env bank _ _ _ plain = fail validation_error

abbrev names : ℕ → Option ℕ → Bool
names bank none = false
names bank (some other) = other == bank

-- `requestReversal`
unfoldable pub request_reversal :
    Env → (caller : Option ℕ) → ReversalRequest → Call (ReversalState × Option ℕ)
request_reversal env none body = fail unauthorized
request_reversal env (some bank) body = do
  require (body.sound && names bank body.origin_bank_code) validation_error
  checked_reversal env bank body.reversal_id body.original_transfer_id body.amount body.plain_amount

abbrev completed_patch : Env → ℕ → Reversal → Reversal
completed_patch env refund_id v = record v {
  state = ReversalState.completed;
  refund_transfer_id = some refund_id;
  updated_at = env.now;
  pending_event = false;
}

abbrev failed_patch : Env → Reversal → Reversal
failed_patch env v =
    if is_reversal_state v.state ReversalState.processing
    then record v { state = ReversalState.failed; updated_at = env.now }
    else v

abbrev shown_reversal : ℕ → Option Reversal → Call (ReversalState × Option ℕ)
shown_reversal bank none = fail not_found
shown_reversal bank (some v) = do
  require (same_direction v.direction in_coming) not_found
  require (v.partner_bank_code == bank) unauthorized
  return (reversal_body v)

-- `getReversal`; an id that is no UUID is `none`.
unfoldable pub get_reversal : (caller id : Option ℕ) → Call (ReversalState × Option ℕ)
get_reversal none id = fail unauthorized
get_reversal (some bank) none = fail validation_error
get_reversal (some bank) (some id) = do row ← find_reversal id; shown_reversal bank row

-- `onReversalFailed`
unfoldable pub on_reversal_failed : Env → ℕ → Call (Unit {0})
on_reversal_failed env id = update_reversal id (failed_patch env)

-- The refund goes out as a new transfer, from the account that was credited.
abbrev pub refund_row : Env → (correlation : ℕ) → Transfer → Transfer
refund_row env correlation r =
    outgoing (to_seconds env.now) r.partner_bank_code r.destination_account r.origin_account
      r.amount none none correlation true

abbrev refund_original : Env → (id correlation : ℕ) → Option Transfer → Call (Unit {0})
refund_original env id correlation none = on_reversal_failed env id
refund_original env id correlation (some r) = do
  insert_new (env.uuid (refund id)) (refund_row env correlation r)
  update_reversal id (completed_patch env (env.uuid (refund id)))
  attempt (send_now env (env.uuid (refund id)))

abbrev debited_found : Env → (id correlation : ℕ) → Option Reversal → Call (Unit {0})
debited_found env id correlation none = skip
debited_found env id correlation (some v) =
    if same_direction v.direction in_coming && is_reversal_state v.state ReversalState.processing
    then find v.original_transfer_id >>= refund_original env id correlation
    else skip

-- `onReversalDebited`
unfoldable pub on_reversal_debited : Env → (id correlation : ℕ) → Call (Unit {0})
on_reversal_debited env id correlation = do
  row ← find_reversal id
  debited_found env id correlation row
