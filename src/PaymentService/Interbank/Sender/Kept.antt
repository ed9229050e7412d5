-- ===== src/PaymentService/Interbank/Sender/Kept.antt =====
-- The operations of the bank as a sender keep the invariant of the tables.
use proyecto_sa_b.Prelude.{
  ℕ, ◌≡◌, refl, sym, ap, ◌≢◌, Bool, true, false, Option, none, some, List, [], ◌∷◌, ◌==◌, ◌||◌, not,
  arith,
}
use proyecto_sa_b.Prelude.Dict.{lookup}
use proyecto_sa_b.Prelude.Program.Keeps.{
  Keeps, skip-Keeps, return-Keeps, bind-Keeps, if-Keeps, fail-Keeps, attempt-Keeps,
}
use proyecto_sa_b.PaymentService.Rules.{Response, PartnerStatus}
use proyecto_sa_b.PaymentService.Interbank.{
  State, Transfer, World, Reason, Env, service_unavailable,
}
use proyecto_sa_b.PaymentService.Interbank.Outbox.{number, one_of, update}
use proyecto_sa_b.PaymentService.Interbank.Sender.{
  finalize_out, finalize_found, finalize_patch, no_patch, with_reason, mark_sent, refused, known,
  after_send, send_found, send_as, send_now, FundsReserved, on_funds_reserved, sent_patch,
  retry_patch, SendResult,
}
use proyecto_sa_b.PaymentService.Interbank.Moves.{Fixed, fixed_of, reach_number, touched}
use proyecto_sa_b.PaymentService.Interbank.Moves.Steps.{is_open, moved_out, quiet-RowSound}
use proyecto_sa_b.PaymentService.Interbank.Invariant.{Inv}
use proyecto_sa_b.PaymentService.Interbank.Statements.{
  transition-Keeps, update-Keeps, insert_new-Keeps, flush_row-Keeps, find-Keeps,
}

-- From each of the states a transfer may go to `next`, and it is not there yet.
pub record Leads (from : List State) (next : State) : Type 0 where
  pub opened : (s : State) → one_of from s ≡ true → is_open (number s) ≡ true
  pub leads : (s : State) → one_of from s ≡ true → reach_number (number s) (number next) ≡ true
  pub apart : (s : State) → one_of from s ≡ true → number s ≢ number next

-- A change of the columns that are not in an event, or that only a change of state sets.
abbrev pub Plain : (Transfer → Transfer) → Type 0
Plain patch = (r : Transfer) → fixed_of (patch r) ≡ fixed_of r

module _ (env : Env) (id : ℕ) (from : List State) (next : State) (patch : Transfer → Transfer)
    (plain : Plain patch) (to : Leads from next) where
  finalize_found-Keeps :
      (c : World) (seen : Transfer)
      → lookup id c.transfers ≡ some seen
      → Keeps (Inv c) (finalize_found env id from next patch (some seen))
  finalize_found-Keeps c seen e =
      bind-Keeps _ _
        (transition-Keeps env.now id from (finalize_patch env next seen.is_refund patch) (λ r f.
          moved_out id r _ (plain r) f.fit (to.opened r.state f.state) (to.leads r.state f.state)
            (to.apart r.state f.state)
            (sym (ap (λ (x : Fixed). not x.is_refund) (f.version seen e).fixed))))
        (λ moved.
          if-Keeps moved _ _ (bind-Keeps _ _ (flush_row-Keeps id) (λ _. return-Keeps true))
            (return-Keeps false))

  pub finalize_out-Keeps : {b : World} → Keeps (Inv b) (finalize_out env id from next patch)
  unfolding finalize_out
  finalize_out-Keeps =
      find-Keeps id (finalize_found env id from next patch) (λ c e. return-Keeps false)
        finalize_found-Keeps

abbrev is_end : ℕ → Bool
is_end n = n == 2 || n == 3 || n == 5

ends :
    (from : List State) (next : State)
    → ((s : State) → one_of from s ≡ true → is_open (number s) ≡ true)
    → is_end (number next) ≡ true
    → Leads from next
ends from next opens e = record {
  opened = opens;
  leads = λ s f. let o = opens s f in ground arith;
  apart = λ s f. let o = opens s f in ground arith;
}

pub ends_one :
    (from next : State)
    → is_open (number from) ≡ true
    → is_end (number next) ≡ true
    → Leads (from ∷ []) next
ends_one from next o e = ends (from ∷ []) next (λ s f. ground arith) e

pub ends_two :
    (next : State) → is_end (number next) ≡ true → Leads (State.pending ∷ State.sent ∷ []) next
ends_two next e = ends (State.pending ∷ State.sent ∷ []) next (λ s f. ground arith) e

pub ends_any :
    (next : State)
    → is_end (number next) ≡ true
    → Leads (State.pending ∷ State.sent ∷ State.timeout ∷ []) next
ends_any next e =
    ends (State.pending ∷ State.sent ∷ State.timeout ∷ []) next (λ s f. ground arith) e

refused-Keeps :
    {b : World} (env : Env) (id : ℕ) (from : List State) (reason : Option Reason)
    (result : SendResult)
    → Leads from State.rejected
    → Keeps (Inv b) (refused env id from reason result)
refused-Keeps env id from reason result to =
    bind-Keeps _ _
      (finalize_out-Keeps env id from State.rejected (with_reason reason) (λ r. refl) to)
      (λ _. return-Keeps result)

-- After the answer of the partner bank, with the row as it was before the request.
module _ {b : World} (env : Env) (id : ℕ) (seen : Transfer)
    (e : lookup id b.transfers ≡ some seen) where
  mark_sent-Keeps : Keeps (Inv b) (mark_sent env id seen)
  mark_sent-Keeps =
      bind-Keeps _ _
        (transition-Keeps env.now id (State.pending ∷ []) (sent_patch seen) (λ r f.
          let waits : number r.state ≡ 0 = let open_state = f.state in ground arith in
          moved_out id r _ refl f.fit (rw waits refl) (rw waits refl) (ground arith)
            (sym (ap (λ (x : Fixed). not x.is_refund) (f.version seen e).fixed))))
        (λ _. bind-Keeps _ _ (flush_row-Keeps id) (λ _. return-Keeps SendResult.sent))

  known-Keeps :
      (said : Option (PartnerStatus × Option Reason)) → Keeps (Inv b) (known env id seen said)
  known-Keeps (some (PartnerStatus.accepted, reason)) =
      bind-Keeps _ _
        (finalize_out-Keeps env id _ State.accepted no_patch (λ r. refl)
          (ends_two State.accepted refl))
        (λ _. return-Keeps SendResult.sent)
  known-Keeps (some (PartnerStatus.rejected, reason)) =
      refused-Keeps env id _ _ SendResult.sent (ends_two State.rejected refl)
  known-Keeps (some (PartnerStatus.cancelled, reason)) =
      refused-Keeps env id _ _ SendResult.sent (ends_two State.rejected refl)
  known-Keeps (some (PartnerStatus.processing, reason)) = mark_sent-Keeps
  known-Keeps none = mark_sent-Keeps

  pub after_send-Keeps :
      (res : Response (PartnerStatus × Option Reason)) → Keeps (Inv b) (after_send env id seen res)
  unfolding after_send
  after_send-Keeps res = if-Keeps _ _ _ (refused-Keeps env id _ _ SendResult.rejected once) (
      if-Keeps _ _ _ (bind-Keeps _ _ retried (λ _. return-Keeps SendResult.retry)) (
        if-Keeps _ _ _ mark_sent-Keeps (
          if-Keeps _ _ _ (known-Keeps res.said)
            (refused-Keeps env id _ _ SendResult.rejected once))))
    where
      once : Leads (State.pending ∷ []) State.rejected
      once = ends_one State.pending State.rejected refl refl

      retried : Keeps (Inv b) (update id (retry_patch env seen))
      retried = update-Keeps id (retry_patch env seen) (λ r. touched refl refl refl refl)

module _ (env : Env) where
  send_found-Keeps :
      (c : World) (id : ℕ) (r : Transfer)
      → lookup id c.transfers ≡ some r
      → Keeps (Inv c) (send_found env id (some r))
  send_found-Keeps c id r e = if-Keeps _ _ _ (named env.own_bank) skip-Keeps
    where
      named : (own : Option ℕ) → Keeps (Inv c) (send_as env id r own)
      named none = fail-Keeps service_unavailable
      named (some bank) =
          bind-Keeps _ _ (after_send-Keeps {b = c} env id r e (env.post_transfer id r))
            (λ _. skip-Keeps)

  pub send_now-Keeps : {b : World} (id : ℕ) → Keeps (Inv b) (send_now env id)
  unfolding send_now
  send_now-Keeps id =
      find-Keeps id (send_found env id) (λ c e. skip-Keeps) (λ c r. send_found-Keeps c id r)

  pub on_funds_reserved-Keeps :
      {b : World} (p : FundsReserved) → Keeps (Inv b) (on_funds_reserved env p)
  unfolding on_funds_reserved
  on_funds_reserved-Keeps p =
      bind-Keeps _ _
        (insert_new-Keeps p.interbank_transfer_id _
          (quiet-RowSound p.interbank_transfer_id _ refl refl))
        (λ _. attempt-Keeps _ (send_now-Keeps p.interbank_transfer_id))
