-- ===== src/InterbankMock/Tests.antt =====
-- Runs of the mock, and concrete cases of its theorems.
use mathlib.Core.List.{Memᴰ}
use proyecto_sa_b.Prelude.{ℕ, ◌≡◌, refl, true, false, none, some, List, [], ◌∷◌}
use proyecto_sa_b.InterbankMock.{Mode, Reason, MockConfig, Verdict, result_post, World, Env}
use proyecto_sa_b.InterbankMock.Receiver.{
  Body, validate_transfer, receive_transfer, cancel_transfer, resolve, deliver_callback,
  reject_reason_of,
}
use proyecto_sa_b.InterbankMock.Sender.{request_reversal}
use proyecto_sa_b.InterbankMock.History.{
  Operation, transfer_received, fired, perform, History, start, step, fresh_bank,
}
use proyecto_sa_b.InterbankMock.Invariant.{Decided}
use proyecto_sa_b.InterbankMock.Outcomes.{by_cancel, ask, callbacks_agree, ask_for_good}
use proyecto_sa_b.PaymentService.Rules.{resolve_cancel}

abbrev config : MockConfig
config = record {
  mode = Mode.accept;
  latency_ms = 0;
  callback_delay_ms = 1000;
  reject_reason = Reason.account_inactive;
}

-- A partner that answers 500 to everything.
abbrev env : Env
env = record { now = 1000; hash = λ r. r.amount; fresh = 90; send = λ c. 500 }

abbrev body : ℕ → ℕ → Body
body id amount = record {
  has_other_fields = false;
  transfer_id = some id;
  origin_bank_code = some 8;
  destination_bank_code = some 99;
  origin_account = some (1 ∷ []);
  destination_account = some (2 ∷ []);
  amount = some amount;
  has_currency = true;
  is_gtq = true;
  description_length = 0;
  created_at = some 900;
  expires_at = some 5000;
}

abbrev arrival : ℕ → ℕ → Operation
arrival id amount = transfer_received (some id) true (body id amount)

abbrev run : List Operation → World → World
run [] w = w
run (o ∷ os) w = run os (perform env o w)

abbrev accepted_once : World
accepted_once = run (arrival 7 500 ∷ fired 0 ∷ []) (fresh_bank config)

-- The first callback failed, and is sent again.
abbrev accepted_twice : World
accepted_twice = perform env (fired 0) accepted_once

accepted_twice_sent :
    accepted_twice.sent
    ≡ result_post 7 Verdict.accepted none ∷ result_post 7 Verdict.accepted none ∷ []
unfolding receive_transfer validate_transfer resolve reject_reason_of deliver_callback
accepted_twice_sent = refl

abbrev accepted_history : History (fresh_bank config) accepted_once
accepted_history = step (step start env (arrival 7 500)) env (fired 0)

callbacks_agree_example :
    (Verdict.accepted ≡ Verdict.accepted) × Decided accepted_twice.incoming 7 Verdict.accepted
unfolding receive_transfer validate_transfer resolve reject_reason_of deliver_callback
callbacks_agree_example =
    callbacks_agree config accepted_twice 7 Verdict.accepted Verdict.accepted none none
      (step accepted_history env (fired 0)) (Memᴰ.head refl) (Memᴰ.tail (Memᴰ.head refl))

-- The cancellation comes first, then the transfer, and its callback.
abbrev cancelled_first : World
cancelled_first = (ask env by_cancel 7 (fresh_bank config)).1

abbrev cancelled_later : World
cancelled_later = run (arrival 7 500 ∷ fired 0 ∷ []) cancelled_first

cancelled_later_sent :
    cancelled_later.sent ≡ result_post 7 Verdict.rejected (some Reason.cancelled) ∷ []
unfolding ask cancel_transfer receive_transfer validate_transfer deliver_callback
cancelled_later_sent = refl

-- A deposit that was only cancelled has nothing to give back.
reversal_of_cancelled :
    (request_reversal env
      (record {
        reversal_id = some 40;
        original_transfer_id = some 7;
        amount = some 500;
        is_gtq = true;
      })
      cancelled_first).0
    ≡ (404, none)
unfolding ask cancel_transfer request_reversal
reversal_of_cancelled = refl

ask_for_good_example :
    Decided cancelled_later.incoming 7 Verdict.rejected
    × ((v' : Verdict) (reason : _)
        → Memᴰ (result_post 7 v' reason) cancelled_later.sent
        → v' ≡ Verdict.rejected)
unfolding ask cancel_transfer resolve_cancel
ask_for_good_example =
    ask_for_good config (fresh_bank config) cancelled_later env by_cancel 7 Verdict.rejected start
      refl (step (step start env (arrival 7 500)) env (fired 0))
