-- ===== src/InterbankMock.antt =====
-- The simulated partner bank: apps/interbank-mock/src/bank.ts, with what its class keeps in
-- memory. It answers the same contract as payment-service. Bank codes, ids and texts that are
-- only compared are numbers, amounts are whole cents, times are milliseconds, and tracing is
-- left out. The objects that timers hold are those of the maps, so that an id stands for them:
-- no object is ever replaced.
pub mod Receiver
pub mod Sender
pub mod History
pub mod Invariant
pub mod Kept
pub mod Outcomes
mod Tests
use proyecto_sa_b.Prelude.{
  ℕ, ◌+◌, Bool, true, false, Option, none, some, List, [], ◌∷◌, ◌++◌, ◌&&◌, leb, if◌then◌else◌,
}
use proyecto_sa_b.Prelude.Dict.{Dict, insert}

pub data Mode : Type 0 where
  accept reject no_callback down : Mode

pub data Reason : Type 0 where
  account_not_found account_inactive amount_limit_exceeded currency_not_supported : Reason
  expired cancelled processing_error : Reason

pub record MockConfig : Type 0 where
  pub mode : Mode
  pub latency_ms : ℕ
  pub callback_delay_ms : ℕ
  pub reject_reason : Reason

pub data InState : Type 0 where
  processing accepted rejected cancelled : InState

-- A request that has passed `validateTransfer`.
pub record Request : Type 0 where
  pub transfer_id : ℕ
  pub origin_account : List ℕ
  pub destination_account : List ℕ
  pub amount : ℕ
  pub is_gtq : Bool
  pub expires_at : ℕ

-- `hash` is `none` for the empty text, and `request` for the empty object.
pub record Incoming : Type 0 where
  pub hash : Option ℕ
  pub request : Option Request
  pub status : InState
  pub reason_code : Option Reason
  pub received_at : ℕ
  pub updated_at : ℕ
  pub callback : Option (ℕ × ℕ)

pub record Outgoing : Type 0 where
  pub origin_account : List ℕ
  pub destination_account : List ℕ
  pub amount : ℕ
  pub sent_status : ℕ
  pub result : Option ℕ
  pub created_at : ℕ

pub data ReversalStatus : Type 0 where
  processing completed failed : ReversalStatus

pub record Reversal : Type 0 where
  pub original_transfer_id : ℕ
  pub status : ReversalStatus
  pub refund_transfer_id : Option ℕ

-- What a timer or the answer to a request will run.
pub data Job : Type 0 where
  resolving : (id : ℕ) → Job
  delivering : (id attempt : ℕ) → Job
  sending : (id : ℕ) → Outgoing → (reversal : Option ℕ) → Job

pub data Verdict : Type 0 where
  accepted rejected : Verdict

-- What the mock has sent to its partner.
pub data Call : Type 0 where
  result_post : (id : ℕ) → Verdict → Option Reason → Call
  transfer_post : (id : ℕ) → (origin destination : List ℕ) → (amount : ℕ) → Call

pub record World : Type 0 where
  pub config : MockConfig
  pub incoming : Dict Incoming
  pub outgoing : Dict Outgoing
  pub reversals : Dict Reversal
  pub scheduled : List Job
  pub sent : List Call

-- The clock, the hash, `randomUUID`, and the status that the partner answers to a call, which is 0
-- where it cannot be reached.
pub record Env : Type 0 where
  pub now : ℕ
  pub hash : Request → ℕ
  pub fresh : ℕ
  pub send : Call → ℕ

-- Answers of the contract; `failed` has the status of an error.
pub data Reply : Type 0 where
  failed : (status : ℕ) → Reply
  received : Reply
  status_of : InState → Option Reason → Reply

abbrev pub schedule : Job → World → World
schedule j w = record w { scheduled = w.scheduled ++ j ∷ [] }

abbrev pub call : Call → World → World
call c w = record w { sent = w.sent ++ c ∷ [] }

abbrev pub set_incoming : ℕ → Incoming → World → World
set_incoming id t w = record w { incoming = insert id t w.incoming }

-- A patch of the configuration: a field that is given and not allowed is `some none`.
pub record ConfigPatch : Type 0 where
  pub mode : Option (Option Mode)
  pub latency_ms : Option (Option ℕ)
  pub callback_delay_ms : Option (Option ℕ)
  pub reject_reason : Option (Option Reason)

abbrev pub patched : {A : Type 0} → Option (Option A) → A → Option A
patched none old = some old
patched (some given) old = given

abbrev pub is_wait : ℕ → Bool
is_wait ms = leb ms 600000

abbrev pub checked_config : Option Mode → Option ℕ → Option ℕ → Option Reason → Option MockConfig
checked_config (some mode) (some latency) (some delay) (some reason) =
    if is_wait latency && is_wait delay
    then some (record {
      mode = mode;
      latency_ms = latency;
      callback_delay_ms = delay;
      reject_reason = reason;
    })
    else none
checked_config _ _ _ _ = none

abbrev pub or_kept : Option MockConfig → World → Bool × World
or_kept none w = (false, w)
or_kept (some next) w = (true, record w { config = next })

-- `setConfig`: whether the patch was taken.
unfoldable pub set_config : ConfigPatch → World → Bool × World
set_config p w =
    or_kept
      (checked_config (patched p.mode w.config.mode) (patched p.latency_ms w.config.latency_ms)
        (patched p.callback_delay_ms w.config.callback_delay_ms)
        (patched p.reject_reason w.config.reject_reason))
      w

abbrev pub is_down : Mode → Bool
is_down down = true
is_down _ = false

-- `unavailable`
abbrev pub unavailable : World → Option Reply
unavailable w = if is_down w.config.mode then some (failed 503) else none
