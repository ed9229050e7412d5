-- ===== src/TransactionService/Tests/Messages.antt =====
-- Requests and messages to try the transaction service on.
use proyecto_sa_b.Prelude.{ℕ, ◌≡◌, ◌≤◌, refl, true, false, none, some, [], ◌∷◌, arith, All}
use mathlib.Core.List.{Memᴰ}
use proyecto_sa_b.Prelude.Int.{pos}
use proyecto_sa_b.Prelude.Dict.{lookup}
use proyecto_sa_b.Prelude.Action.{ok, err}
use proyecto_sa_b.TransactionService.Status.{TransactionStatus, InterbankState}
use proyecto_sa_b.TransactionService.Entity
use proyecto_sa_b.TransactionService.Entity.{
  Transaction, Settlement, broker_down, is_closed, check_transaction,
}
use proyecto_sa_b.TransactionService.Entity.Delivery.{advanced, deliver}
use proyecto_sa_b.TransactionService.World.{
  World, KycStatus, CustomerKycStatus, transaction_completed, transaction_created,
  transaction_failed, created, outcome,
}
use proyecto_sa_b.TransactionService.Creation.{
  CreateTransactionCommand, execute, new_transaction, is_verified,
}
use proyecto_sa_b.TransactionService.Creation.Retried.{
  processing, perform, start, step, execute_again,
}
use proyecto_sa_b.TransactionService.Creation.Kyc.{apply_all, apply_all-latest}
use proyecto_sa_b.TransactionService.Incoming.{
  BankEvent, Payload, EventType, validate_transfer_requested,
}
use proyecto_sa_b.TransactionService.Consumer.{
  Env, handle_message, handle_transfer_requested, handle_transfer_completed,
  handle_interbank_settled, has_been_processed, dispatch, handle_funds_reserved,
}
use proyecto_sa_b.TransactionService.Consumer.Once.{handle_message_twice}
use proyecto_sa_b.TransactionService.Consumer.Delivered.{
  partner_says, handler_of, handler_of-deliver,
}
use proyecto_sa_b.TransactionService.Consumer.Retry.{
  handle_transfer_completed-retry, handle_interbank_settled-lost, completed_at, announced,
}
use proyecto_sa_b.TransactionService.Consumer.Requests
use proyecto_sa_b.TransactionService.Consumer.Requests.{
  handle_transfer_requested-gate, opened, failed_kyc,
}
use proyecto_sa_b.TransactionService.Tests.{interbank_transfer, processing_transfer}

abbrev command : CreateTransactionCommand
command = record {
  source_account = "ana";
  target_account = "luis";
  amount = pos 900;
  correlation_id = 41;
  destination_bank_code = none;
}

abbrev first_opened : Transaction
first_opened = new_transaction 8 200 command

first_result : (execute 8 200 command []).0 ≡ ok first_opened
unfolding execute new_transaction
first_result = ground arith

-- The saga is running when it is opened again.
execute_again_example :
    (t' : Transaction) × (execute 9 300
        (record command { amount = pos 5 })
        (perform (processing 250 8) (execute 8 200 command []).1)
      ≡ (ok t', perform (processing 250 8) (execute 8 200 command []).1))
    × (t'.transaction_id ≡ first_opened.transaction_id)
execute_again_example =
    execute_again 8 200 9 300 command (record command { amount = pos 5 }) []
      (perform (processing 250 8) (execute 8 200 command []).1) first_opened start refl refl
      first_result (step start (processing 250 8) tt)

abbrev verified_at : ℕ → CustomerKycStatus
verified_at n = record { status = KycStatus.verified; updated_at = n }

abbrev rejected_at : ℕ → CustomerKycStatus
rejected_at n = record { status = KycStatus.rejected; updated_at = n }

apply_all-latest_example :
    (r : CustomerKycStatus) × (lookup 5 (apply_all 5 (verified_at 30 ∷ rejected_at 20 ∷ []) [])
      ≡ some r)
    × All
        (λ (o : CustomerKycStatus). o.updated_at ≤ r.updated_at)
        (verified_at 30 ∷ rejected_at 20 ∷ [])
    × Memᴰ r (verified_at 30 ∷ rejected_at 20 ∷ [])
apply_all-latest_example =
    apply_all-latest 5 (verified_at 30) (rejected_at 20 ∷ []) [] (ground arith) refl

abbrev payload : Payload
payload = record {
  transaction_id = 7;
  source_account = "ana";
  target_account = "luis";
  destination_bank_code = "";
  destination_account = "";
  account_id = "";
  amount = some (pos 900);
  description = none;
  requested_by = 5;
  reason = none;
  reason_code = none;
  customer_id = 0;
  estado_nuevo = none;
  origin_bank_code = none;
  origin_account = none;
}

abbrev event : EventType → BankEvent
event type = record {
  event_id = 600;
  event_type = type;
  timestamp = none;
  correlation_id = 41;
  payload = some payload;
}

abbrev env : Env
env = record { now = 500; fresh = 8; max_amount = none }

-- Ana is verified, and the broker is up.
abbrev ready : World
ready = record {
  repository = [];
  kyc = (5, verified_at 10) ∷ [];
  processed = [];
  published = [];
  broker = true;
}

abbrev stored : Transaction → World
stored t = record ready { repository = (7, t) ∷ [] }

abbrev internal_transfer : Transaction
internal_transfer = record processing_transfer {
  destination_bank_code = none;
  interbank_state = none;
}

handle_message_first :
    handle_message env (event EventType.funds_reserved) (stored interbank_transfer)
    ≡ (ok tt, (handle_message env (event EventType.funds_reserved) (stored interbank_transfer)).1)
unfolding handle_message dispatch handle_funds_reserved
handle_message_first = refl

handle_message_twice_example :
    (has_been_processed 600
        (handle_message env (event EventType.funds_reserved) (stored interbank_transfer)).1
      ≡ true)
    × (handle_message env
          (event EventType.funds_reserved)
          (handle_message env (event EventType.funds_reserved) (stored interbank_transfer)).1
        ≡ (
          ok tt,
          (handle_message env (event EventType.funds_reserved) (stored interbank_transfer)).1,
        ))
handle_message_twice_example =
    handle_message_twice env env (event EventType.funds_reserved) (stored interbank_transfer) _
      handle_message_first

handler_of-deliver_example :
    lookup 7
      (handler_of env
        (partner_says InterbankState.accepted)
        (event EventType.interbank_completed)
        payload
        (stored processing_transfer)).1.repository
    ≡ some (deliver 500 (advanced InterbankState.accepted none) processing_transfer)
handler_of-deliver_example =
    handler_of-deliver env (partner_says InterbankState.accepted)
      (event EventType.interbank_completed) payload processing_transfer (stored processing_transfer)
      7 (ground arith) refl refl

-- The broker is down at the first delivery.
abbrev down : Transaction → World
down t = record (stored t) { broker = false }

handle_transfer_completed-retry_example :
    let e = event EventType.transfer_completed in
    let (r, w') = handle_transfer_completed env e payload (down internal_transfer) in
    let (r', w'') = handle_transfer_completed env e payload (record w' { broker = true }) in
    (r ≡ err broker_down)
    × (lookup 7 w'.repository ≡ some (completed_at 500 internal_transfer))
    × (r' ≡ ok tt)
    × (w''.published ≡ announced transaction_completed (completed_at 500 internal_transfer) 600 [])
handle_transfer_completed-retry_example =
    handle_transfer_completed-retry env env (event EventType.transfer_completed) payload
      internal_transfer (down internal_transfer) (ground arith) refl refl refl refl

handle_interbank_settled-lost_example :
    let e = event EventType.interbank_completed in
    let t' = (Entity.settle_interbank 500 Settlement.debited processing_transfer).0 in
    let (r, w') =
      handle_interbank_settled env Settlement.debited e payload (down processing_transfer) in
    let (r', w'') =
      handle_interbank_settled env Settlement.debited e payload (record w' { broker = true }) in
    (r ≡ err broker_down)
    × (lookup 7 w'.repository ≡ some t')
    × (t'.status ≡ TransactionStatus.completed)
    × (r' ≡ ok tt)
    × (w''.published ≡ [])
handle_interbank_settled-lost_example =
    handle_interbank_settled-lost env env (event EventType.interbank_completed) payload
      processing_transfer (down processing_transfer) (ground arith) refl refl refl refl

payload_sound : validate_transfer_requested payload ≡ none
unfolding validate_transfer_requested
payload_sound = refl

opened_sound : check_transaction (opened env (event EventType.transfer_requested) payload) ≡ none
unfolding check_transaction new_transaction
opened_sound = refl

handle_transfer_requested-gate_example :
    let e = event EventType.transfer_requested in
    let (r, w') = handle_transfer_requested env e payload ready in
    let t = opened env e payload in
    (r ≡ ok tt)
    × (is_verified 5 ready.kyc ≡ true
        → (lookup 8 w'.repository ≡ some t)
          × (t.status ≡ TransactionStatus.pending)
          × (w'.published
              ≡ Requests.announced transaction_created (created "ana" "luis" (pos 900)) t 600 []))
    × (is_verified 5 ready.kyc ≡ false
        → (lookup 8 w'.repository ≡ some (failed_kyc t))
          × (w'.published
              ≡ Requests.announced transaction_failed
                  (outcome (some "KYC_NOT_VERIFIED"))
                  (failed_kyc t)
                  600
                  []))
handle_transfer_requested-gate_example =
    handle_transfer_requested-gate env (event EventType.transfer_requested) payload ready
      payload_sound refl opened_sound refl
