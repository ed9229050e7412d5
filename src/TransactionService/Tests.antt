-- ===== src/TransactionService/Tests.antt =====
-- Transfers, messages and tables to try the transaction service on.
mod Messages
mod Query
mod Retries
use proyecto_sa_b.Prelude.{
  ℕ, ◌≡◌, ◌≤◌, ◌↔◌, refl, true, false, none, some, List, [], ◌∷◌, arith, All,
}
use mathlib.Core.List.{Memᴰ}
use proyecto_sa_b.Prelude.Int.{pos}
use proyecto_sa_b.Prelude.Dict.{lookup}
use proyecto_sa_b.Prelude.Action.{ok, err}
use proyecto_sa_b.TransactionService.Status.{
  TransactionStatus, InterbankState, PublicTransactionStatus, internal_statuses_for, includes,
  to_public_status, is_final_interbank_state,
}
use proyecto_sa_b.TransactionService.Status.Grouping.{to_public_status_iff}
use proyecto_sa_b.TransactionService.Entity
use proyecto_sa_b.TransactionService.Entity.{
  Transaction, Settlement, broker_down, is_closed, check_transaction,
}
use proyecto_sa_b.TransactionService.Entity.Stages.{
  Forward, SameTransfer, mark-Forward, advance_interbank-Forward, settle_interbank-closes,
}
use proyecto_sa_b.TransactionService.Entity.Delivery.{
  Delivery, reserved, advanced, settled, deliver, deliver_all, deliver_all-closed,
}
use proyecto_sa_b.TransactionService.Entity.Outcomes.{accepted_ends, refused_ends}
use proyecto_sa_b.TransactionService.World.{
  World, KycStatus, CustomerKycStatus, transaction_completed, transaction_created,
  transaction_failed, created, outcome,
}
use proyecto_sa_b.TransactionService.Creation.{
  CreateTransactionCommand, execute, new_transaction, is_verified,
}
use proyecto_sa_b.TransactionService.Creation.Kyc.{apply_all, apply_all-latest}
use proyecto_sa_b.TransactionService.Incoming.{
  BankEvent, Payload, EventType, validate_transfer_requested,
}
use proyecto_sa_b.TransactionService.Consumer.{
  Env, handle_message, handle_transfer_requested, handle_transfer_completed,
  handle_interbank_settled, has_been_processed, dispatch, handle_funds_reserved,
}
use proyecto_sa_b.TransactionService.Consumer.Once.{handle_message_twice}
use proyecto_sa_b.TransactionService.Consumer.Delivered.{
  partner_says, handler_of, handler_of-deliver,
}
use proyecto_sa_b.TransactionService.Consumer.Retry.{
  handle_transfer_completed-retry, handle_interbank_settled-lost, completed_at, announced,
}
use proyecto_sa_b.TransactionService.Consumer.Requests
use proyecto_sa_b.TransactionService.Consumer.Requests.{
  handle_transfer_requested-gate, opened, failed_kyc,
}

-- Ana's transfer to an account of another bank, as it is opened.
abbrev interbank_transfer : Transaction
interbank_transfer = record {
  transaction_id = 7;
  source_account = "ana";
  target_account = "ext";
  amount = pos 1500;
  status = TransactionStatus.pending;
  correlation_id = 40;
  created_at = 100;
  updated_at = 100;
  failure_reason = none;
  destination_bank_code = some "BANK07";
  interbank_state = some InterbankState.pending;
  origin_bank_code = none;
}

abbrev processing_transfer : Transaction
processing_transfer = record interbank_transfer {
  status = TransactionStatus.processing;
  interbank_state = some InterbankState.sent;
}

abbrev completed_transfer : Transaction
completed_transfer = record interbank_transfer {
  status = TransactionStatus.completed;
  interbank_state = some InterbankState.accepted;
}

abbrev marked : Transaction
marked = record interbank_transfer { status = TransactionStatus.processing; updated_at = 120 }

marked_eq : Entity.mark_as_processing 120 interbank_transfer ≡ ok marked
unfolding Entity.mark_as_processing
marked_eq = refl

-- Every event of the deposit, in the order in which they are sent.
abbrev late_events : List (ℕ × Delivery)
late_events =
    (150, reserved)
    ∷ (151, advanced InterbankState.sent none)
    ∷ (152, advanced InterbankState.rejected (some "ACCOUNT_NOT_FOUND"))
    ∷ (153, settled Settlement.released)
    ∷ []

deliver_all-closed_example : deliver_all late_events completed_transfer ≡ completed_transfer
deliver_all-closed_example =
    deliver_all-closed late_events completed_transfer (record { final_if_closed = λ _. refl }) refl

-- The partner's answer comes before the reservation, and the debit comes twice.
abbrev accepted_events : List (ℕ × Delivery)
accepted_events =
    (150, advanced InterbankState.accepted none)
    ∷ (151, reserved)
    ∷ (152, settled Settlement.debited)
    ∷ (153, advanced InterbankState.sent none)
    ∷ (154, settled Settlement.debited)
    ∷ []

accepted_ends_example :
    ((deliver_all accepted_events interbank_transfer).status ≡ TransactionStatus.completed)
    × ((deliver_all accepted_events interbank_transfer).interbank_state
        ≡ some InterbankState.accepted)
accepted_ends_example =
    accepted_ends accepted_events interbank_transfer refl refl (tt, (tt, (tt, (tt, (tt, tt))))) refl

abbrev refused_events : List (ℕ × Delivery)
refused_events =
    (150, settled Settlement.released)
    ∷ (151, advanced InterbankState.timeout none)
    ∷ (152, advanced InterbankState.reversed none)
    ∷ []

refused_ends_example :
    (to_public_status (deliver_all refused_events interbank_transfer).status
      ≡ some PublicTransactionStatus.failed)
    × (is_final_interbank_state (deliver_all refused_events interbank_transfer).interbank_state
        ≡ true)
refused_ends_example =
    refused_ends refused_events interbank_transfer refl refl (tt, (tt, (tt, tt))) refl
