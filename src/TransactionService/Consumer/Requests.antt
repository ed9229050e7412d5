-- ===== src/TransactionService/Consumer/Requests.antt =====
-- The start of a saga: what becomes of a request for a transfer.
use proyecto_sa_b.Prelude.{
  ℕ, ◌≡◌, refl, inl, inr, Bool-cases, true, false, some, none, [], ◌∷◌, ◌++◌, arith, List, get_or,
}
use proyecto_sa_b.Prelude.Int.{pos}
use proyecto_sa_b.Prelude.Dict.{lookup, insert, lookup-insert_self}
use proyecto_sa_b.Prelude.Action.{ok}
use proyecto_sa_b.TransactionService.Status.{TransactionStatus, to_public_status}
use proyecto_sa_b.TransactionService.Entity.{Transaction, check_transaction}
use proyecto_sa_b.TransactionService.World.{
  World, OutgoingType, transaction_created, transaction_failed, transaction_status_changed, outcome,
  created, changed, Message, OutgoingPayload,
}
use proyecto_sa_b.TransactionService.Publisher.{create_event}
use proyecto_sa_b.TransactionService.Incoming.{BankEvent, Payload, validate_transfer_requested}
use proyecto_sa_b.TransactionService.Creation.{
  CreateTransactionCommand, new_transaction, find_by_correlation_id, is_verified, execute,
}
use proyecto_sa_b.TransactionService.Consumer.{Env, handle_transfer_requested}

-- The command that an accepted request is turned into.
abbrev pub command_of : BankEvent → Payload → CreateTransactionCommand
command_of e p = record {
  source_account = p.source_account;
  target_account = p.target_account;
  amount = get_or p.amount (pos 0);
  correlation_id = e.correlation_id;
  destination_bank_code = none;
}

-- What is published once an event has been announced and the status after it.
abbrev pub announced :
    OutgoingType → OutgoingPayload → Transaction → ℕ → List Message → List Message
announced type payload t causation before =
    (before ++ create_event type t payload causation ∷ [])
    ++ create_event transaction_status_changed t
        (changed t.source_account (to_public_status t.status) t.updated_at) causation
      ∷ []

abbrev pub opened : Env → BankEvent → Payload → Transaction
opened env e p = new_transaction env.fresh env.now (command_of e p)

abbrev pub failed_kyc : Transaction → Transaction
failed_kyc t = record t {
  status = TransactionStatus.failed;
  failure_reason = some "KYC_NOT_VERIFIED";
}

module _ (env : Env) (e : BankEvent) (p : Payload) (w : World)
    (sound : validate_transfer_requested p ≡ none)
    (new : find_by_correlation_id e.correlation_id w.repository ≡ none)
    (legal : check_transaction (opened env e p) ≡ none) (up : w.broker ≡ true) where
  stored_pending :
      execute env.fresh env.now (command_of e p) w.repository
      ≡ (ok (opened env e p), insert env.fresh (opened env e p) w.repository)
  unfolding execute
  stored_pending = ground arith

  verified_published :
      is_verified p.requested_by w.kyc ≡ true
      → handle_transfer_requested env e p w ≡ (
        ok tt,
        record w {
          repository = insert env.fresh (opened env e p) w.repository;
          published =
              announced transaction_created
                (created p.source_account p.target_account (get_or p.amount (pos 0)))
                (opened env e p)
                e.event_id
                w.published;
        },
      )
  unfolding handle_transfer_requested
  verified_published v = ground (arith, stored_pending)

  unverified_published :
      is_verified p.requested_by w.kyc ≡ false
      → handle_transfer_requested env e p w ≡ (
        ok tt,
        record w {
          repository =
              insert env.fresh
                (failed_kyc (opened env e p))
                (insert env.fresh (opened env e p) w.repository);
          published =
              announced transaction_failed
                (outcome (some "KYC_NOT_VERIFIED"))
                (failed_kyc (opened env e p))
                e.event_id
                w.published;
        },
      )
  unfolding handle_transfer_requested
  unverified_published v =
      ground (arith, lookup-insert_self env.fresh (opened env e p) w.repository)

-- A sound request under a new correlation id, with the broker up, is handled without an exception
-- and stores one transaction. If the customer is verified, it is PENDING and exactly
-- `transaction.created` and its status are published; if not, it is FAILED for KYC_NOT_VERIFIED and
-- exactly `transaction.failed` and its status are, so that Account never hears of it.
pub handle_transfer_requested-gate :
    (env : Env) (e : BankEvent) (p : Payload) (w : World)
    → validate_transfer_requested p ≡ none
    → find_by_correlation_id e.correlation_id w.repository ≡ none
    → check_transaction (opened env e p) ≡ none
    → w.broker ≡ true
    → let (r, w') = handle_transfer_requested env e p w in
      let t = opened env e p in
      (r ≡ ok tt)
      × (is_verified p.requested_by w.kyc ≡ true
          → (lookup env.fresh w'.repository ≡ some t)
            × (t.status ≡ TransactionStatus.pending)
            × (w'.published
                ≡ announced transaction_created
                    (created p.source_account p.target_account (get_or p.amount (pos 0)))
                    t
                    e.event_id
                    w.published))
      × (is_verified p.requested_by w.kyc ≡ false
          → (lookup env.fresh w'.repository ≡ some (failed_kyc t))
            × (w'.published
                ≡ announced transaction_failed
                    (outcome (some "KYC_NOT_VERIFIED"))
                    (failed_kyc t)
                    e.event_id
                    w.published))
unfolding new_transaction
handle_transfer_requested-gate env e p w sound new legal up =
    elim (Bool-cases (is_verified p.requested_by w.kyc)) [
      | inl verified ↦
          rw (verified_published env e p w sound new legal up verified)
            (refl, λ _. (lookup-insert_self env.fresh _ w.repository, refl, refl), λ h. cc)
      | inr unverified ↦
          rw (unverified_published env e p w sound new legal up unverified)
            (refl, λ h. cc, λ _. (lookup-insert_self env.fresh _ _, refl))
    ]
