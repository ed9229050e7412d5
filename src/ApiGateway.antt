-- ===== src/ApiGateway.antt =====
-- The API gateway, apps/api-gateway/src: who may call which route, and what its controllers ask of
-- the other services. Ids, tokens and texts that are only compared are numbers, accounts are strings,
-- and amounts are whole cents. What `jwt.verify` and the other services answer is an argument.
pub mod Guards
pub mod Transfers
pub mod Contract
pub mod Controllers
pub mod Access
mod Tests
use proyecto_sa_b.Prelude.{ℕ, String, Bool, Option, none, some, List, [], ◌∷◌, ◌++◌, if◌then◌else◌}
use proyecto_sa_b.Prelude.Int.{ℤ}
use proyecto_sa_b.Prelude.Action.{Action}
use proyecto_sa_b.Prelude.Program.{return, fail, write, ◌>>◌}
use proyecto_sa_b.TransactionService.Entity.{Transaction}
use proyecto_sa_b.TransactionService.Query.{HistoryQueryParams, HistoryResult}

pub data Role : Type 0 where
  client cashier admin other : Role

-- What a token says; a field that it lacks is `none`.
pub record User : Type 0 where
  pub role : Role
  pub customer_id : Option ℕ
  pub email : Option ℕ

-- The header `Authorization`, if it starts with "Bearer ".
abbrev pub Authorization : Type 0
Authorization = Option ℕ

pub data Event : Type 0 where
  transfer_requested :
      (source target : String) → ℤ → (requested_by requested_email : Option ℕ) → Event
  interbank_requested :
      (source : String)
      → (bank : ℕ) → (destination : List ℕ) → ℤ
      → (description : Option ℕ) → (requested_by : Option ℕ) → Event

pub record Published : Type 0 where
  pub correlation_id : ℕ
  pub event : Event

-- A call of the contract between banks.
pub data ContractPath : Type 0 where
  transfers reversals reconciliation : ContractPath
  transfer cancel result reversal : ℕ → ContractPath

-- What is passed on to another service for a customer, or for a partner bank.
pub data Forward : Type 0 where
  new_account : (customer : Option ℕ) → Forward
  accounts_of : (customer : Option ℕ) → Forward
  account_maintenance : Forward
  customers_call : Forward
  admin_call : Forward
  contract_health_call : Forward
  contract_call : (caller : ℕ) → ContractPath → Forward

pub record World : Type 0 where
  pub published : List Published
  pub forwarded : List Forward

-- Errors are the statuses of exceptions.
abbrev pub Call : Type 0 → Type 0
Call A = Action World ℕ A

pub data Upstream (A : Type 0) : Type 0 where
  answered : A → Upstream A
  refused : (status : ℕ) → Upstream A
  unreachable : Upstream A

-- `proxyJson`: a service that cannot be reached in time is a 503.
abbrev pub ask : {A : Type 0} → Upstream A → Call A
ask (answered a) = return a
ask (refused status) = fail status
ask unreachable = fail 503

pub record Account : Type 0 where
  pub account_id : String
  pub customer_id : ℕ

-- `account` is the answer of account-service at the path of an id, which is escaped or written as it is.
pub record Env : Type 0 where
  pub verify : ℕ → Option User
  pub keys : List (ℕ × List ℕ)
  pub fresh : ℕ
  pub broker : Bool
  pub account : (escaped : Bool) → String → Upstream Account
  pub transaction : ℕ → Upstream Transaction
  pub history : HistoryQueryParams → Upstream HistoryResult

-- `relayed` is whatever another service answers, also that it cannot be reached.
pub data Reply : Type 0 where
  accepted : (correlation_id : ℕ) → Reply
  shown_transaction : Transaction → Reply
  shown_history : HistoryResult → Reply
  shown_account : Account → Reply
  relayed : Reply

-- `rabbit.publish`, which throws while the broker cannot be reached.
abbrev pub publish : Env → Published → Call (Unit {0})
publish env p =
    if env.broker then write (λ w. record w { published = w.published ++ p ∷ [] }) else fail 500

abbrev pub pass_on : Forward → Call Reply
pass_on f = write (λ w. record w { forwarded = w.forwarded ++ f ∷ [] }) >> return relayed

-- `resolveCorrelationId`; a header that is no UUID is `none`.
abbrev pub resolve_correlation_id : Env → Option ℕ → ℕ
resolve_correlation_id env (some id) = id
resolve_correlation_id env none = env.fresh
