-- ===== src/TransactionService/World.antt =====
-- The tables of transaction-service and what it has published. `broker` says whether a publish
-- goes through while a message is handled; where it does not, `publish` throws.
use proyecto_sa_b.Prelude.{ℕ, String, Bool, Option, List, [], ◌∷◌, ◌++◌, if◌then◌else◌}
use proyecto_sa_b.Prelude.Int.{ℤ}
use proyecto_sa_b.Prelude.Dict.{Dict}
use proyecto_sa_b.Prelude.Action.{Result, ok, err, Action}
use proyecto_sa_b.TransactionService.Status.{TransactionStatus, PublicTransactionStatus}
use proyecto_sa_b.TransactionService.Entity.{Transaction, Failure, broker_down}

pub data KycStatus : Type 0 where
  pending verified rejected : KycStatus

pub record CustomerKycStatus : Type 0 where
  pub status : KycStatus
  pub updated_at : ℕ

pub data OutgoingType : Type 0 where
  transaction_created interbank_transfer_requested transaction_completed : OutgoingType
  transaction_failed transaction_compensated transaction_status_changed : OutgoingType

pub data OutgoingPayload : Type 0 where
  created : (source target : String) → ℤ → OutgoingPayload
  requested :
      (source : String)
      → (bank : Option String) → (account : String) → ℤ
      → (description : Option String) → OutgoingPayload
  outcome : (reason : Option String) → OutgoingPayload
  changed : (account : String) → Option PublicTransactionStatus → ℕ → OutgoingPayload

-- The id of an event is a hash of the transaction's id, the type and the status.
pub record Message : Type 0 where
  pub event_type : OutgoingType
  pub transaction_id : ℕ
  pub status : TransactionStatus
  pub correlation_id : ℕ
  pub causation_id : ℕ
  pub payload : OutgoingPayload

pub record World : Type 0 where
  pub repository : Dict Transaction
  pub kyc : Dict CustomerKycStatus
  pub processed : Dict ℕ
  pub published : List Message
  pub broker : Bool

abbrev pub Call : Type 0 → Type 0
Call A = Action World Failure A

-- A call of a service that works on the table of transactions alone.
abbrev pub on_repository :
    {A : Type 0} → (Dict Transaction → Result Failure A × Dict Transaction) → Call A
on_repository m w = let (r, repo) = m w.repository in (r, record w { repository = repo })

abbrev pub publish : Message → Call (Unit {0})
publish m w =
    if w.broker
    then (ok tt, record w { published = w.published ++ m ∷ [] })
    else (err broker_down, w)
