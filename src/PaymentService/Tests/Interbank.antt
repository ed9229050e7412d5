-- ===== src/PaymentService/Tests/Interbank.antt =====
-- A deposit that comes in and is cancelled, and a transfer that waits too long, to try the protocol
-- with the partner banks on.
use mathlib.Core.List.{Memᴰ}
use proyecto_sa_b.Prelude.{
  ℕ, ◌+◌, ◌*◌, ◌≤◌, ◌≡◌, ◌⊎◌, refl, true, false, none, some, [], ◌∷◌, arith,
}
use proyecto_sa_b.Prelude.Int.{pos}
use proyecto_sa_b.Prelude.Action.{ok}
use proyecto_sa_b.Prelude.Dict.{lookup}
use proyecto_sa_b.Prelude.Program.{◌>>=◌}
use proyecto_sa_b.PaymentService.Rules.{
  Response, PartnerStatus, CancelAnswer, margin_expired, resolve_query, resolve_cancel, release,
}
use proyecto_sa_b.PaymentService.Interbank.{
  State, Transfer, Reason, TimeoutStep, Message, deposit_requested, World, Env,
}
use proyecto_sa_b.PaymentService.Interbank.Outbox.{insert_new, flush_row, transition}
use proyecto_sa_b.PaymentService.Interbank.Moves.{can_reach, fixed_of}
use proyecto_sa_b.PaymentService.Interbank.Sender.{outgoing, finalize_out}
use proyecto_sa_b.PaymentService.Interbank.Timeouts.{resolve_timeout, process_timeouts}
use proyecto_sa_b.PaymentService.Interbank.Timeouts.Round.{IsGivenUp, process_timeouts-IsGivenUp}
use proyecto_sa_b.PaymentService.Interbank.Timeouts.Release.{says_undone, resolve_timeout_released}
use proyecto_sa_b.PaymentService.Interbank.Receiver.{
  receive_transfer, again, received, status_body, CancelRequest, cancel_transfer,
}
use proyecto_sa_b.PaymentService.Interbank.Receiver.Requests.{
  TransferRequest, text, incoming, validate_transfer_request, cancelled_unknown,
}
use proyecto_sa_b.PaymentService.Interbank.Receiver.Once.{receive_transfer_once}
use proyecto_sa_b.PaymentService.Interbank.Receiver.Cancelled.{cancelled_for_good}
use proyecto_sa_b.PaymentService.Interbank.Receiver.Answered.{
  Stands, cancel_response, cancel_transfer-Stands,
}
use proyecto_sa_b.PaymentService.Interbank.History.{
  History, start, step, no_rows, perform, transfer_post, cancel_post,
}
use proyecto_sa_b.PaymentService.Interbank.History.Outcomes.{
  transfers_only_advance, no_event_is_lost, flush_row_delivers,
}

abbrev no_answer : {A : Type 0} → Response A
no_answer = record { network_error = true; status = 0; said = none }

-- A partner bank that never answers, and an Account that cancels.
abbrev silent : ℕ → Env
silent now = record {
  now = now;
  own_bank = some 1;
  margin_seconds = 300;
  query_attempts = 3;
  fresh = 70;
  uuid = λ seed. 80;
  post_transfer = λ id r. no_answer;
  not_configured = λ bank. false;
  get_transfer = λ id r. no_answer;
  post_cancel = λ id r. no_answer;
  post_result = λ id r. 0;
  post_reversal = λ id v. 0;
  get_reversal = λ id v. record { network_error = true; status = 0; said = none };
  cancel_at_account = λ id. some (CancelAnswer.cancelled, none);
}

abbrev request : TransferRequest
request = record {
  is_object = true;
  has_other_fields = false;
  transfer_id = some 9;
  origin_bank_code = some 2;
  destination_bank_code = some 1;
  origin_account = some (b'a' ∷ []);
  destination_account = some (b'b' ∷ []);
  amount = some 1500;
  is_gtq = true;
  description = text 4 5;
  created_at = some 1000;
  expires_at = some 181000;
}

abbrev fingerprint : TransferRequest → ℕ
fingerprint r = 77

abbrev cancellation : CancelRequest
cancellation = record { origin_bank_code = some 2; known_reason = true }

abbrev taken : World
taken = perform (silent 2000) (transfer_post fingerprint (some 2) (some 9) request) no_rows

abbrev taken_row : Transfer
taken_row = record (incoming 2000 70 77 request) { pending_event = false }

taken_past : History no_rows taken
taken_past = step start (silent 2000) (transfer_post fingerprint (some 2) (some 9) request)

taken_found : lookup 9 taken.transfers ≡ some taken_row
unfolding receive_transfer validate_transfer_request insert_new flush_row ◌>>=◌
taken_found = refl

abbrev undone : World
undone = perform (silent 3000) (cancel_post (some 2) (some 9) cancellation) taken

undone_next : History taken undone
undone_next = step start (silent 3000) (cancel_post (some 2) (some 9) cancellation)

transfers_only_advance_example :
    (after : Transfer) × (lookup 9 undone.transfers ≡ some after)
    × (can_reach taken_row.state after.state ≡ true)
    × (fixed_of after ≡ fixed_of taken_row)
transfers_only_advance_example =
    transfers_only_advance taken undone 9 taken_row taken_past undone_next taken_found

abbrev unknown : World
unknown = perform (silent 2000) (cancel_post (some 2) (some 9) cancellation) no_rows

unknown_past : History no_rows unknown
unknown_past = step start (silent 2000) (cancel_post (some 2) (some 9) cancellation)

unknown_found : lookup 9 unknown.transfers ≡ some (cancelled_unknown 2000 70 2)
unfolding cancel_transfer insert_new ◌>>=◌
unknown_found = refl

abbrev after_unknown : World
after_unknown = perform (silent 3000) (transfer_post fingerprint (some 2) (some 9) request) unknown

unknown_next : History unknown after_unknown
unknown_next = step start (silent 3000) (transfer_post fingerprint (some 2) (some 9) request)

abbrev deposit : Message
deposit = record {
  correlation_id = 70;
  payload = deposit_requested 9 2 (some (b'a' ∷ [])) (some (b'b' ∷ [])) (pos 1500) (some 181000);
}

no_event_is_lost_example : (taken_row.pending_event ≡ true) ⊎ Memᴰ deposit taken.published
no_event_is_lost_example = no_event_is_lost taken 9 taken_row deposit taken_past taken_found refl

taken_up : taken.broker ≡ true
unfolding receive_transfer validate_transfer_request insert_new flush_row ◌>>=◌
taken_up = refl

flush_row_delivers_example : Memᴰ deposit (flush_row 9 taken).1.published
flush_row_delivers_example =
    flush_row_delivers taken 9 taken_row deposit taken_past taken_up taken_found refl

abbrev late_row : Transfer
late_row =
    record (outgoing 1000 2 (some (b'a' ∷ [])) (some (b'b' ∷ [])) (pos 1500) none (some 4) 5
      false) { state = State.timeout; timeout_step = some TimeoutStep.query }

abbrev late : World
late = record no_rows { transfers = (6, late_row) ∷ [] }

-- Another transfer waits, and the next attempt for the late one is not due yet.
abbrev waiting : World
waiting = record no_rows {
  transfers =
      (5, record late_row { expires_at = some 400000 })
      ∷ (6, record late_row { next_attempt_at = some 490000 })
      ∷ [];
}

process_timeouts-IsGivenUp_example : IsGivenUp 6 (process_timeouts (silent 481000) waiting).1
process_timeouts-IsGivenUp_example =
    process_timeouts-IsGivenUp (silent 481000) 1 6 181000 waiting
      (record late_row { next_attempt_at = some 490000 }) (refl, (refl, tt)) refl (omega arith)
      ((400000, refl), ((181000, refl), tt)) refl refl refl (omega arith)

-- A partner bank that rejected the transfer, asked long before the margin has passed.
abbrev refusing : Env
refusing = record (silent 190000) {
  get_transfer =
      λ id r. record { network_error = false; status = 200; said = some PartnerStatus.rejected };
}

abbrev released_row : Transfer
released_row = record late_row {
  state = State.reversed;
  reason_code = some Reason.timeout;
  resolved_at = some 190000;
  timeout_step = none;
  updated_at = 190000;
}

released_found : lookup 6 (resolve_timeout refusing 6 late_row late).1.transfers ≡ some released_row
unfolding resolve_timeout margin_expired resolve_query finalize_out transition flush_row ◌>>=◌
released_found = refl

resolve_timeout_released_example :
    (181000 + 300 * 1000 ≤ 190000) ⊎ (says_undone refusing 6 late_row ≡ true)
resolve_timeout_released_example =
    resolve_timeout_released refusing 6 late late_row released_row late_row 181000 refl refl refl
      released_found refl

taken_answer :
    (receive_transfer (silent 2000) fingerprint (some 2) (some 9) request no_rows).0 ≡ ok received
unfolding receive_transfer validate_transfer_request insert_new flush_row ◌>>=◌
taken_answer = refl

receive_transfer_once_example :
    (r : Transfer) × (lookup 9 undone.transfers ≡ some r)
    × (receive_transfer (silent 4000) fingerprint (some 2) (some 9) request undone
        ≡ (ok (again r.state (status_body r).1), undone))
receive_transfer_once_example =
    receive_transfer_once (silent 2000) (silent 4000) fingerprint (some 2) (some 9) request no_rows
      undone start taken_answer undone_next refl

unknown_answer :
    (cancel_transfer (silent 2000) (some 2) (some 9) cancellation no_rows).0
    ≡ ok CancelAnswer.cancelled
unfolding cancel_transfer insert_new ◌>>=◌
unknown_answer = refl

cancelled_for_good_example :
    (r : Transfer) × (lookup 9 after_unknown.transfers ≡ some r) × (r.state ≡ State.cancelled)
cancelled_for_good_example =
    cancelled_for_good (silent 2000) (some 2) 9 cancellation no_rows after_unknown start
      unknown_answer unknown_next

-- The sender of `taken` cancels, and the deposit is sent to us once more.
abbrev undone_again : World
undone_again = perform (silent 4000) (transfer_post fingerprint (some 2) (some 9) request) undone

undone_again_next : History undone undone_again
undone_again_next = step start (silent 4000) (transfer_post fingerprint (some 2) (some 9) request)

undone_release :
    resolve_cancel
      (cancel_response (cancel_transfer (silent 3000) (some 2) (some 9) cancellation taken).0)
    ≡ release
unfolding cancel_transfer resolve_cancel ◌>>=◌ receive_transfer validate_transfer_request insert_new
    flush_row transition
undone_release = refl

cancel_transfer-Stands_example :
    Stands
      (resolve_cancel
        (cancel_response (cancel_transfer (silent 3000) (some 2) (some 9) cancellation taken).0))
      9
      undone_again
cancel_transfer-Stands_example =
    cancel_transfer-Stands (silent 3000) (some 2) 9 cancellation taken undone_again taken_past
      undone_again_next
