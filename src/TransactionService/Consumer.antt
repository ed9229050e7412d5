-- ===== src/TransactionService/Consumer.antt =====
-- The consumer of transaction-service: presentation/consumers/transaction-events.consumer.ts of
-- apps/transaction-service/src/transaction, with event-idempotency.service.ts. `Env` is what a run
-- reads from outside: the clock, the id that `randomUUID` gives and INTERBANK_MAX_AMOUNT.
pub mod Once
pub mod Delivered
pub mod Retry
pub mod Requests
use proyecto_sa_b.Prelude.{
  ℕ, String, Bool, true, false, Option, none, some, ◌&&◌, is_some, get_or, if◌then◌else◌,
}
use proyecto_sa_b.Prelude.Int.{ℤ, pos, ltb_ℤ}
use proyecto_sa_b.Prelude.Dict.{lookup, insert}
use proyecto_sa_b.Prelude.Action.{ok, err, pure, raise, gets, modify, ◌>>=◌, ◌>>◌}
use proyecto_sa_b.TransactionService.Status.{TransactionStatus, InterbankState, is_status}
use proyecto_sa_b.TransactionService.Entity.{
  Transaction, Failure, unsupported_event, envelope_invalid, Settlement, debited, released,
}
use proyecto_sa_b.TransactionService.Updates.{
  mark_as_processing, mark_as_completed, mark_as_failed, mark_as_compensating, mark_as_compensated,
  advance_interbank, settle_interbank,
}
use proyecto_sa_b.TransactionService.World.{World, Call, on_repository}
use proyecto_sa_b.TransactionService.Publisher.{
  publish_transaction_created, publish_interbank_transfer_requested, publish_transaction_completed,
  publish_transaction_failed, publish_transaction_compensated,
}
use proyecto_sa_b.TransactionService.Creation.{
  execute, record_incoming_interbank, apply_status_change, is_verified,
}
use proyecto_sa_b.TransactionService.Incoming.{
  EventType, Payload, BankEvent, validate_envelope, validate_transfer_requested,
  validate_interbank_requested, validate_transaction_reference, validate_deposit_credited,
  to_payment_failure_reason, to_interbank_failure_reason, interbank_max_amount,
}

pub record Env : Type 0 where
  pub now : ℕ
  pub fresh : ℕ
  pub max_amount : Option ℤ

abbrev check : Option Failure → Call (Unit {0})
check none = pure tt
check (some e) = raise e

abbrev when : Bool → Call (Unit {0}) → Call (Unit {0})
when c m = if c then m else pure tt

-- After its check an amount is a number.
abbrev amount_of : Payload → ℤ
amount_of p = get_or p.amount (pos 0)

-- What follows in `handleTransferRequested` for a transaction that is still PENDING.
unfoldable pub decide_transfer : Env → BankEvent → Payload → Transaction → Call (Unit {0})
unfolding is_verified mark_as_failed publish_transaction_failed publish_transaction_created
decide_transfer env e p t = do
  verified ← gets (λ w. is_verified p.requested_by w.kyc)
  if verified then publish_transaction_created t e.event_id else do
    failed ← on_repository (mark_as_failed env.now (some "KYC_NOT_VERIFIED") t.transaction_id)
    publish_transaction_failed failed "KYC_NOT_VERIFIED" e.event_id

unfoldable pub handle_transfer_requested : Env → BankEvent → Payload → Call (Unit {0})
unfolding validate_transfer_requested execute decide_transfer
handle_transfer_requested env e p = do
  check (validate_transfer_requested p)
  t ← on_repository (
      execute env.fresh env.now (record {
        source_account = p.source_account;
        target_account = p.target_account;
        amount = amount_of p;
        correlation_id = e.correlation_id;
        destination_bank_code = none;
      }))
  when (is_status t.status TransactionStatus.pending) (decide_transfer env e p t)

-- Why a pending interbank request is refused, if it is.
abbrev refusal : Env → Bool → ℤ → Option String
refusal env false amount = some "KYC_NOT_VERIFIED"
refusal env true amount =
    if ltb_ℤ (interbank_max_amount env.max_amount) amount
    then some "AMOUNT_LIMIT_EXCEEDED"
    else none

-- What follows in `handleInterbankRequested` for a transaction that is still PENDING.
unfoldable pub decide_interbank : Env → BankEvent → Payload → Transaction → Call (Unit {0})
unfolding is_verified advance_interbank publish_transaction_failed interbank_max_amount
    publish_interbank_transfer_requested
decide_interbank env e p t = do
  verified ← gets (λ w. is_verified p.requested_by w.kyc)
  elim (refusal env verified (amount_of p)) [
    | none ↦ publish_interbank_transfer_requested t p.description e.event_id
    | some reason ↦ do
      moved ←
          on_repository
            (advance_interbank env.now InterbankState.rejected (some reason) t.transaction_id)
      publish_transaction_failed moved.0 reason e.event_id
  ]

abbrev is_pending_state : Option InterbankState → Bool
is_pending_state (some InterbankState.pending) = true
is_pending_state _ = false

unfoldable pub handle_interbank_requested : Env → BankEvent → Payload → Call (Unit {0})
unfolding validate_interbank_requested execute decide_interbank
handle_interbank_requested env e p = do
  check (validate_interbank_requested p)
  t ← on_repository (
      execute env.fresh env.now (record {
        source_account = p.source_account;
        target_account = p.destination_account;
        amount = amount_of p;
        correlation_id = e.correlation_id;
        destination_bank_code = some p.destination_bank_code;
      }))
  when (is_status t.status TransactionStatus.pending && is_pending_state t.interbank_state)
      (decide_interbank env e p t)

abbrev has_reason : InterbankState → Bool
has_reason InterbankState.rejected = true
has_reason InterbankState.reversed = true
has_reason _ = false

unfoldable pub handle_interbank_advance :
    Env → InterbankState → BankEvent → Payload → Call (Unit {0})
unfolding validate_transaction_reference to_interbank_failure_reason advance_interbank
    publish_transaction_failed
handle_interbank_advance env state e p = do
  check (validate_transaction_reference p)
  moved ← on_repository (
      advance_interbank env.now state
        (if has_reason state then some (to_interbank_failure_reason p) else none) p.transaction_id)
  when (moved.1 && is_status moved.0.status TransactionStatus.failed) (
      publish_transaction_failed moved.0 (get_or moved.0.failure_reason "INTERBANK_REJECTED")
        e.event_id)

abbrev publish_settlement : Settlement → Transaction → ℕ → Call (Unit {0})
publish_settlement debited t causation = publish_transaction_completed t causation
publish_settlement released t causation = publish_transaction_compensated t causation

unfoldable pub handle_interbank_settled : Env → Settlement → BankEvent → Payload → Call (Unit {0})
unfolding validate_transaction_reference settle_interbank publish_transaction_completed
    publish_transaction_compensated
handle_interbank_settled env how e p = do
  check (validate_transaction_reference p)
  moved ← on_repository (settle_interbank env.now how p.transaction_id)
  when moved.1 (publish_settlement how moved.0 e.event_id)

unfoldable pub handle_deposit_credited : Env → BankEvent → Payload → Call (Unit {0})
unfolding validate_deposit_credited record_incoming_interbank
handle_deposit_credited env e p = do
  check (validate_deposit_credited p)
  on_repository (
      record_incoming_interbank env.fresh env.now (record {
        origin_bank_code = p.origin_bank_code;
        origin_account = p.origin_account;
        account_id = p.account_id;
        amount = amount_of p;
        correlation_id = e.correlation_id;
      }))
  pure tt

-- A timestamp that is no date is replaced by the clock.
unfoldable pub handle_kyc_status_changed : Env → BankEvent → Payload → Call (Unit {0})
unfolding apply_status_change
handle_kyc_status_changed env e p w =
    let (r, table) =
      apply_status_change p.customer_id p.estado_nuevo (get_or e.timestamp env.now) w.kyc in
    elim r [ ok _ ↦ (ok tt, record w { kyc = table }) | err f ↦ (err f, record w { kyc = table }) ]

unfoldable pub handle_funds_reserved : Env → BankEvent → Payload → Call (Unit {0})
unfolding validate_transaction_reference mark_as_processing
handle_funds_reserved env e p = do
  check (validate_transaction_reference p)
  on_repository (mark_as_processing env.now p.transaction_id)
  pure tt

-- `handleFundsRejected` and `handleTransferFailed` differ in the reason that stands for none.
unfoldable pub handle_saga_failed : Env → String → BankEvent → Payload → Call (Unit {0})
unfolding validate_transaction_reference mark_as_failed publish_transaction_failed
handle_saga_failed env default e p = do
  check (validate_transaction_reference p)
  t ← on_repository (mark_as_failed env.now (some (get_or p.reason default)) p.transaction_id)
  when (is_status t.status TransactionStatus.failed)
      (publish_transaction_failed t (get_or p.reason default) e.event_id)

unfoldable pub handle_payment_rejected : Env → BankEvent → Payload → Call (Unit {0})
unfolding validate_transaction_reference mark_as_compensating to_payment_failure_reason
handle_payment_rejected env e p = do
  check (validate_transaction_reference p)
  on_repository
      (mark_as_compensating env.now (some (to_payment_failure_reason p.reason)) p.transaction_id)
  pure tt

unfoldable pub handle_transfer_completed : Env → BankEvent → Payload → Call (Unit {0})
unfolding validate_transaction_reference mark_as_completed publish_transaction_completed
handle_transfer_completed env e p = do
  check (validate_transaction_reference p)
  t ← on_repository (mark_as_completed env.now p.transaction_id)
  when (is_status t.status TransactionStatus.completed) (publish_transaction_completed t e.event_id)

unfoldable pub handle_funds_released : Env → BankEvent → Payload → Call (Unit {0})
unfolding validate_transaction_reference mark_as_compensated publish_transaction_compensated
handle_funds_released env e p = do
  check (validate_transaction_reference p)
  t ← on_repository (mark_as_compensated env.now p.transaction_id)
  when (is_status t.status TransactionStatus.compensated)
      (publish_transaction_compensated t e.event_id)

unfoldable pub dispatch : Env → EventType → BankEvent → Payload → Call (Unit {0})
dispatch env EventType.transfer_requested e p = handle_transfer_requested env e p
dispatch env EventType.funds_reserved e p = handle_funds_reserved env e p
dispatch env EventType.funds_rejected e p = handle_saga_failed env "FUNDS_REJECTED" e p
dispatch env EventType.payment_rejected e p = handle_payment_rejected env e p
dispatch env EventType.transfer_completed e p = handle_transfer_completed env e p
dispatch env EventType.transfer_failed e p = handle_saga_failed env "TRANSFER_FAILED" e p
dispatch env EventType.funds_released e p = handle_funds_released env e p
dispatch env EventType.kyc_status_changed e p = handle_kyc_status_changed env e p
dispatch env EventType.interbank_requested e p = handle_interbank_requested env e p
dispatch env EventType.interbank_funds_reserved e p = handle_funds_reserved env e p
dispatch env EventType.interbank_funds_rejected e p =
    handle_interbank_advance env InterbankState.rejected e p
dispatch env EventType.interbank_rejected e p =
    handle_interbank_advance env InterbankState.rejected e p
dispatch env EventType.interbank_sent e p = handle_interbank_advance env InterbankState.sent e p
dispatch env EventType.interbank_timeout e p =
    handle_interbank_advance env InterbankState.timeout e p
dispatch env EventType.interbank_accepted e p =
    handle_interbank_advance env InterbankState.accepted e p
dispatch env EventType.interbank_reversed e p =
    handle_interbank_advance env InterbankState.reversed e p
dispatch env EventType.interbank_completed e p = handle_interbank_settled env debited e p
dispatch env EventType.interbank_funds_released e p = handle_interbank_settled env released e p
dispatch env EventType.deposit_credited e p = handle_deposit_credited env e p
dispatch env _ e p = raise unsupported_event

-- `orIgnore`: an id that is there already keeps its row.
abbrev pub mark_as_processed : ℕ → ℕ → World → World
mark_as_processed id now w =
    if is_some (lookup id w.processed)
    then w
    else record w { processed = insert id now w.processed }

unfoldable pub has_been_processed : ℕ → World → Bool
has_been_processed id w = is_some (lookup id w.processed)

abbrev process : Env → BankEvent → Option Payload → Call (Unit {0})
process env e none = raise envelope_invalid
process env e (some p) = do
  check (validate_envelope e)
  known ← gets (has_been_processed e.event_id)
  if known
      then pure tt
      else do dispatch env e.event_type e p; modify (mark_as_processed e.event_id env.now)

unfoldable pub handle_message : Env → BankEvent → Call (Unit {0})
unfolding validate_envelope has_been_processed
handle_message env e = process env e e.payload
