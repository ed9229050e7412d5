-- ===== src/TransactionService/Publisher.antt =====
-- The events that transaction-service publishes:
-- infrastructure/messaging/transaction-event.publisher.ts of apps/transaction-service. Every event
-- of the saga is followed by `transaction.status.changed`.
use proyecto_sa_b.Prelude.{ℕ, String, Option, some}
use proyecto_sa_b.Prelude.Action.{◌>>◌}
use proyecto_sa_b.TransactionService.Status.{to_public_status}
use proyecto_sa_b.TransactionService.Entity.{Transaction}
use proyecto_sa_b.TransactionService.World.{
  OutgoingType, transaction_created, interbank_transfer_requested, transaction_completed,
  transaction_failed, transaction_compensated, transaction_status_changed, OutgoingPayload, created,
  requested, outcome, changed, Message, Call, publish,
}

unfoldable pub create_event : OutgoingType → Transaction → OutgoingPayload → ℕ → Message
create_event type t payload causation = record {
  event_type = type;
  transaction_id = t.transaction_id;
  status = t.status;
  correlation_id = t.correlation_id;
  causation_id = causation;
  payload = payload;
}

unfoldable pub publish_status_changed : Transaction → ℕ → Call (Unit {0})
unfolding create_event to_public_status
publish_status_changed t causation = publish (
    create_event transaction_status_changed t
      (changed t.source_account (to_public_status t.status) t.updated_at) causation)

unfoldable pub publish_transaction_created : Transaction → ℕ → Call (Unit {0})
unfolding create_event publish_status_changed
publish_transaction_created t causation = do
  publish (
      create_event transaction_created t (created t.source_account t.target_account t.amount)
        causation)
  publish_status_changed t causation

unfoldable pub publish_interbank_transfer_requested :
    Transaction → Option String → ℕ → Call (Unit {0})
unfolding create_event publish_status_changed
publish_interbank_transfer_requested t description causation = do
  publish (
      create_event interbank_transfer_requested t
        (requested t.source_account t.destination_bank_code t.target_account t.amount description)
        causation)
  publish_status_changed t causation

unfoldable pub publish_transaction_completed : Transaction → ℕ → Call (Unit {0})
unfolding create_event publish_status_changed
publish_transaction_completed t causation = do
  publish (create_event transaction_completed t (outcome Option.none) causation)
  publish_status_changed t causation

unfoldable pub publish_transaction_failed : Transaction → String → ℕ → Call (Unit {0})
unfolding create_event publish_status_changed
publish_transaction_failed t reason causation = do
  publish (create_event transaction_failed t (outcome (some reason)) causation)
  publish_status_changed t causation

unfoldable pub publish_transaction_compensated : Transaction → ℕ → Call (Unit {0})
unfolding create_event publish_status_changed
publish_transaction_compensated t causation = do
  publish (create_event transaction_compensated t (outcome t.failure_reason) causation)
  publish_status_changed t causation
