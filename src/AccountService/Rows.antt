-- ===== src/AccountService/Rows.antt =====
-- The tables of account-service: account.entity.ts, reservation.entity.ts,
-- interbank-operation.entity.ts and processed-event.entity.ts of apps/account-service/src/account,
-- and the events that it publishes. Money is in whole cents, times are in milliseconds, ids are
-- numbers. `broker` says whether a publish goes through; where it does not, it throws.
use proyecto_sa_b.Prelude.{
  ℕ, Bool, true, false, Option, List, [], ◌∷◌, ◌++◌, is_some, if◌then◌else◌,
}
use proyecto_sa_b.Prelude.Int.{ℤ}
use proyecto_sa_b.Prelude.Dict.{Dict, lookup, insert}
use proyecto_sa_b.Prelude.Action.{ok, err, Action}

pub data AccountType : Type 0 where
  monetary savings : AccountType

pub data AccountStatus : Type 0 where
  active inactive : AccountStatus

pub record Account : Type 0 where
  pub customer_id : ℕ
  pub type : AccountType
  pub balance : ℤ
  pub reserved_balance : ℤ
  pub min_balance : ℤ
  pub fee_amount : Option ℤ
  pub status : AccountStatus
  pub created_at : ℕ
  pub last_activity_at : ℕ

pub data ReservationStatus : Type 0 where
  reserved completed released : ReservationStatus

pub record Reservation : Type 0 where
  pub source_account : ℕ
  pub target_account : ℕ
  pub amount : ℤ
  pub fee_amount : ℤ
  pub status : ReservationStatus
  pub created_at : ℕ

pub data Direction : Type 0 where
  out_going in_coming : Direction

pub data OperationStatus : Type 0 where
  reserved debited released credited rejected cancelled refunded : OperationStatus

-- The reasons of `RejectReason` and `OutRejectReason`, and those of a failed reversal.
pub data Reason : Type 0 where
  account_not_found account_inactive amount_limit_exceeded currency_not_supported : Reason
  expired cancelled processing_error account_not_found_or_inactive : Reason
  insufficient_funds invalid_amount original_not_credited : Reason
  of_partner : ℕ → Reason

pub record Operation : Type 0 where
  pub direction : Direction
  pub account_id : Option ℕ
  pub partner_bank_code : Option ℕ
  pub amount : ℤ
  pub fee_amount : ℤ
  pub status : OperationStatus
  pub reason_code : Option Reason
  pub transaction_id : Option ℕ
  pub reversal_id : Option ℕ
  pub created_at : ℕ
  pub updated_at : ℕ

-- The body of an event; the arguments are the payload's fields, with texts as numbers.
pub data Body : Type 0 where
  account_created : (account : ℕ) → Account → Body
  account_deactivated : (account customer : ℕ) → Body
  funds_reserved : (transaction source target : ℕ) → (amount fee : ℤ) → Body
  funds_rejected : (transaction : ℕ) → Reason → Body
  transfer_completed : (transaction source target : ℕ) → (amount fee : ℤ) → Body
  funds_released : (transaction : ℕ) → (amount fee : ℤ) → Body
  anomaly_detected : (account customer transaction count threshold window_ms detected_at : ℕ) → Body
  interbank_funds_reserved :
      (transaction : Option ℕ)
      → (id source : ℕ) → (bank : Option ℕ) → (destination : List ℕ) → (amount fee : ℤ)
      → (description : Option ℕ) → Body
  interbank_funds_rejected : (transaction : Option ℕ) → (id : ℕ) → Option Reason → Body
  interbank_completed :
      (transaction : Option ℕ) → (id : ℕ) → (source : Option ℕ) → (amount fee : ℤ) → Body
  interbank_released :
      (transaction : Option ℕ) → (id : ℕ) → (amount fee : ℤ) → (timed_out : Bool) → Body
  deposit_credited :
      (id : ℕ) → (account : Option ℕ) → (amount : ℤ) → (bank origin : Option ℕ) → Body
  deposit_rejected : (id : ℕ) → Reason → Body
  reversal_debited : (reversal original : ℕ) → (account : Option ℕ) → (amount : ℤ) → Body
  reversal_failed : (reversal original : ℕ) → Reason → Body

pub record Event : Type 0 where
  pub correlation_id : ℕ
  pub body : Body

-- The memory of the anomaly detector: the times of an account's operations, and of its last alert.
pub record Detector : Type 0 where
  pub hits : Dict (List ℕ)
  pub last_alert : Dict ℕ

pub record Tables : Type 0 where
  pub accounts : Dict Account
  pub reservations : Dict Reservation
  pub operations : Dict Operation

pub record World : Type 0 where
  pub tables : Tables
  pub processed : Dict ℕ
  pub detector : Detector
  pub published : List Event
  pub broker : Bool

pub data Failure : Type 0 where
  invalid_account_type invalid_initial_balance invalid_min_balance invalid_fee_amount : Failure
  account_missing broker_down : Failure

abbrev pub Call : Type 0 → Type 0
Call A = Action World Failure A

abbrev pub emit : ℕ → Body → Call (Unit {0})
emit correlation body w =
    if w.broker
    then (
      ok tt,
      record w {
        published = w.published ++ record { correlation_id = correlation; body = body } ∷ [];
      },
    )
    else (err broker_down, w)

abbrev pub is_active : AccountStatus → Bool
is_active active = true
is_active inactive = false

abbrev pub exists_by : ℕ → World → Bool
exists_by id w = is_some (lookup id w.processed)

abbrev pub save_processed : ℕ → ℕ → World → World
save_processed id now w = record w { processed = insert id now w.processed }
