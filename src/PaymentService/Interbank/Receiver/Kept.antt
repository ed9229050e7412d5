-- ===== src/PaymentService/Interbank/Receiver/Kept.antt =====
-- Receipts, queries and cancellations keep the invariant of the tables.
use proyecto_sa_b.Prelude.{ℕ, ◌≡◌, refl, true, Option, none, some, ◌==◌, ◌&&◌, not, arith}
use proyecto_sa_b.Prelude.Program.Keeps.{Keeps, return-Keeps, fail-Keeps, read-Keeps, program_rules}
use proyecto_sa_b.PaymentService.Rules.{CancelAnswer}
use proyecto_sa_b.PaymentService.Interbank.{
  State, Transfer, World, Reason, Env, service_unavailable, unauthorized, validation_error,
  not_found,
}
use proyecto_sa_b.PaymentService.Interbank.Outbox.{number, insert_new, transition}
use proyecto_sa_b.PaymentService.Interbank.Sender.{find}
use proyecto_sa_b.PaymentService.Interbank.Receiver.{
  some_bank, some_id, or_unavailable, receive_again, receive_new, receive_transfer, get_transfer,
  shown, resolve_patch, accepted_patch, cancelled_patch, apply_verdict, processing_only, answer_row,
  cancel_found, cancel_transfer, CancelRequest,
}
use proyecto_sa_b.PaymentService.Interbank.Receiver.Requests.{
  TransferRequest, incoming, cancelled_unknown,
}
use proyecto_sa_b.PaymentService.Interbank.Moves.{fixed_of, reach_number, quiet_in}
use proyecto_sa_b.PaymentService.Interbank.Moves.Steps.{moved_in, waiting-RowSound, quiet-RowSound}
use proyecto_sa_b.PaymentService.Interbank.Invariant.{Inv}
use proyecto_sa_b.PaymentService.Interbank.Statements.{
  transition-Keeps, insert_new-Keeps, flush_row-Keeps,
}

module _ {b : World} where
  pub some_bank-Keeps : (caller : Option ℕ) → Keeps (Inv b) (some_bank caller)
  some_bank-Keeps none = fail-Keeps unauthorized
  some_bank-Keeps (some bank) = return-Keeps bank

  pub some_id-Keeps : (id : Option ℕ) → Keeps (Inv b) (some_id id)
  some_id-Keeps none = fail-Keeps validation_error
  some_id-Keeps (some id) = return-Keeps id

  pub or_unavailable-Keeps : (own : Option ℕ) → Keeps (Inv b) (or_unavailable own)
  or_unavailable-Keeps none = fail-Keeps service_unavailable
  or_unavailable-Keeps (some bank) = return-Keeps bank

  pub find_row-Keeps : (id : ℕ) → Keeps (Inv b) (find id)
  find_row-Keeps id = read-Keeps _

  receive_again-Keeps :
      (hash caller : ℕ) (row : Option Transfer) → Keeps (Inv b) (receive_again hash caller row)
  receive_again-Keeps hash caller none = fail-Keeps service_unavailable
  receive_again-Keeps hash caller (some r) = search (program_rules)

  incoming-Keeps :
      (now fresh hash id : ℕ) (req : TransferRequest)
      → Keeps (Inv b) (insert_new id (incoming now fresh hash req))
  incoming-Keeps now fresh hash id req = insert_new-Keeps id _ (waiting-RowSound id _ refl refl)

  receive_new-Keeps :
      (env : Env) (hash caller : ℕ) (req : TransferRequest) (row : Option Transfer)
      → Keeps (Inv b) (receive_new env hash caller req row)
  receive_new-Keeps env hash caller req (some r) = search (program_rules)
  receive_new-Keeps env hash caller req none =
      search (program_rules, incoming-Keeps, flush_row-Keeps, find_row-Keeps, receive_again-Keeps)

  pub receive_transfer-Keeps :
      (env : Env) (hash : TransferRequest → ℕ) (caller key : Option ℕ) (req : TransferRequest)
      → Keeps (Inv b) (receive_transfer env hash caller key req)
  unfolding receive_transfer
  receive_transfer-Keeps env hash caller key req =
      search
        (program_rules, some_bank-Keeps, or_unavailable-Keeps, find_row-Keeps, receive_new-Keeps)
        depth 20

  shown-Keeps : (bank : ℕ) (row : Option Transfer) → Keeps (Inv b) (shown bank row)
  shown-Keeps bank none = fail-Keeps not_found
  shown-Keeps bank (some r) = search (program_rules) depth 10

  pub get_transfer-Keeps : (caller id : Option ℕ) → Keeps (Inv b) (get_transfer caller id)
  unfolding get_transfer
  get_transfer-Keeps caller id =
      search (program_rules, some_bank-Keeps, some_id-Keeps, find_row-Keeps, shown-Keeps) depth 12

  -- A deposit in process is closed.
  pub close-Keeps :
      (now id : ℕ) (patch : Transfer → Transfer)
      → ((r : Transfer) → fixed_of (patch r) ≡ fixed_of r)
      → ((r : Transfer)
          → reach_number 6 (number (patch r).state) && not (number (patch r).state == 6) ≡ true)
      → Keeps (Inv b) (transition now id processing_only patch)
  close-Keeps now id patch plain ends = transition-Keeps now id processing_only patch (λ r f.
      let opened = f.state in
      let closed = ends r in
      let from : number r.state ≡ 6 = ground arith in
      let r' : Transfer = record (patch r) { updated_at = now; locked_until = none } in
      moved_in id r r' (plain r) f.fit from (rw from (ground arith))
        (quiet_in id r' r'.state (ground arith)) (ground arith))

  apply_verdict-Keeps :
      (env : Env) (id : ℕ) (verdict : Option (CancelAnswer × Option Reason))
      → Keeps (Inv b) (apply_verdict env id verdict)
  apply_verdict-Keeps env id none = fail-Keeps service_unavailable
  apply_verdict-Keeps env id (some (CancelAnswer.cancelled, reason)) =
      close-Keeps env.now id (cancelled_patch env) (λ r. refl) (λ r. refl)
  apply_verdict-Keeps env id (some (CancelAnswer.already_accepted, reason)) =
      close-Keeps env.now id (accepted_patch env) (λ r. refl) (λ r. refl)
  apply_verdict-Keeps env id (some (CancelAnswer.already_rejected, reason)) =
      close-Keeps env.now id (resolve_patch env State.rejected _) (λ r. refl) (λ r. refl)

  answer_row-Keeps : (row : Option Transfer) → Keeps (Inv b) (answer_row row)
  answer_row-Keeps none = fail-Keeps service_unavailable
  answer_row-Keeps (some r) = return-Keeps _

  cancel_found-Keeps :
      (env : Env) (id caller : ℕ) (row : Option Transfer)
      → Keeps (Inv b) (cancel_found env id caller row)
  cancel_found-Keeps env id caller none = fail-Keeps service_unavailable
  cancel_found-Keeps env id caller (some r) =
      search (program_rules, apply_verdict-Keeps, find_row-Keeps, answer_row-Keeps) depth 12

  unknown-Keeps :
      (now fresh bank id : ℕ) → Keeps (Inv b) (insert_new id (cancelled_unknown now fresh bank))
  unknown-Keeps now fresh bank id = insert_new-Keeps id _ (quiet-RowSound id _ refl refl)

  pub cancel_transfer-Keeps :
      (env : Env) (caller id : Option ℕ) (body : CancelRequest)
      → Keeps (Inv b) (cancel_transfer env caller id body)
  unfolding cancel_transfer
  cancel_transfer-Keeps env caller id body =
      search
        (
          program_rules, some_bank-Keeps, some_id-Keeps, find_row-Keeps, unknown-Keeps,
          cancel_found-Keeps,
        )
        depth 20
