-- ===== src/InterbankMock/Outcomes.antt =====
-- What the mock's answers and its callbacks promise, to payment-service as the sender too: it reads
-- them by the rules of apps/payment-service/src/interbank/interbank.rules.ts.
use mathlib.Core.List.{Memᴰ}
use proyecto_sa_b.Prelude.{
  ℕ, ◌≡◌, refl, sym, ◌∙◌, inl, inr, true, false, Option, none, some, arith, Bool-cases,
  Option-cases, All-Mem,
}
use proyecto_sa_b.Prelude.Dict.{Dict, lookup, lookup-insert_self}
use proyecto_sa_b.PaymentService.Rules.{
  PartnerStatus, CancelAnswer, Response, Resolution, accept, release, cancel, retry, resolve_query,
  resolve_cancel,
}
use proyecto_sa_b.InterbankMock.{
  MockConfig, InState, Reason, Incoming, Verdict, result_post, World, Env, Reply, failed, received,
  status_of, unavailable,
}
use proyecto_sa_b.InterbankMock.Receiver.{
  is_processing, verdict_of, get_transfer, CancelReply, cancel_reply, cancel_now, cancelled_unknown,
  cancel_known, cancel_transfer,
}
use proyecto_sa_b.InterbankMock.History.{History, fresh_bank}
use proyecto_sa_b.InterbankMock.Invariant.{Decided, Decided-Grows, CallSound, Inv}
use proyecto_sa_b.InterbankMock.Kept.{cancel_transfer-Inv}
use proyecto_sa_b.InterbankMock.Kept.Sender.{fresh-Inv, Inv-self, History-Inv}

-- Two decisions on one deposit are the same.
Decided-unique :
    (d : Dict Incoming) (id : ℕ) (v v' : Verdict) → Decided d id v → Decided d id v' → v ≡ v'
Decided-unique d id v v' (t, e, _, said) (t', e', _, said') =
    let same : some t ≡ some t' = sym e ∙ e' in cc

posted :
    (b w : World) (id : ℕ) (v : Verdict) (reason : Option Reason)
    → Inv b w
    → Memᴰ (result_post id v reason) w.sent
    → Decided w.incoming id v
posted b w id v reason h m =
    All-Mem (CallSound w.incoming) (result_post id v reason) w.sent h.calls m

-- All callbacks that the mock sends for a deposit, on whatever attempt, give the same result,
-- and it is that of the deposit, which is decided.
pub callbacks_agree :
    (config : MockConfig) (w : World) (id : ℕ) (v v' : Verdict) (reason reason' : Option Reason)
    → History (fresh_bank config) w
    → Memᴰ (result_post id v reason) w.sent
    → Memᴰ (result_post id v' reason') w.sent
    → (v ≡ v') × Decided w.incoming id v
callbacks_agree config w id v v' reason reason' past m m' =
    let h = History-Inv (fresh_bank config) w (fresh-Inv config) past in
    let first = posted (fresh_bank config) w id v reason h m in
    let second = posted (fresh_bank config) w id v' reason' h m' in
    (Decided-unique w.incoming id v v' first second, first)

-- The mock's answers over HTTP, as the client of payment-service gets them.
abbrev partner_status : InState → PartnerStatus
partner_status InState.processing = PartnerStatus.processing
partner_status InState.accepted = PartnerStatus.accepted
partner_status InState.rejected = PartnerStatus.rejected
partner_status InState.cancelled = PartnerStatus.cancelled

abbrev query_response : Reply → Response PartnerStatus
query_response (failed code) = record { network_error = false; status = code; said = none }
query_response received = record { network_error = false; status = 202; said = none }
query_response (status_of s reason) = record {
  network_error = false;
  status = 200;
  said = some (partner_status s);
}

abbrev cancel_response : CancelReply → Response CancelAnswer
cancel_response CancelReply.refused = record { network_error = false; status = 400; said = none }
cancel_response CancelReply.cancelled = record {
  network_error = false;
  status = 200;
  said = some CancelAnswer.cancelled;
}
cancel_response CancelReply.already_accepted = record {
  network_error = false;
  status = 200;
  said = some CancelAnswer.already_accepted;
}
cancel_response CancelReply.already_rejected = record {
  network_error = false;
  status = 200;
  said = some CancelAnswer.already_rejected;
}

pub data Question : Type 0 where
  by_query by_cancel : Question

-- A question of the sender, to a mock that is not down.
abbrev ask_up : Env → Question → ℕ → World → Resolution × World
ask_up env by_query id w = (resolve_query (query_response (get_transfer id w)), w)
ask_up env by_cancel id w =
    let (reply, w') = cancel_transfer env id true w in (resolve_cancel (cancel_response reply), w')

abbrev ask_unless : Env → Question → ℕ → Option Reply → World → Resolution × World
ask_unless env q id (some reply) w = (retry, w)
ask_unless env q id none w = ask_up env q id w

-- How the sender reads the mock's answer to a question, and the mock afterwards.
unfoldable pub ask : Env → Question → ℕ → World → Resolution × World
ask env q id w = ask_unless env q id (unavailable w) w

-- The result that a resolution stands for, where it ends the transfer.
abbrev pub settles : Resolution → Option Verdict
settles accept = some Verdict.accepted
settles release = some Verdict.rejected
settles cancel = none
settles retry = none

query_settles :
    (s : InState) (reason : Option Reason) (v : Verdict)
    → settles (resolve_query (query_response (status_of s reason))) ≡ some v
    → (is_processing s ≡ false) × (verdict_of s ≡ v)
unfolding resolve_query
query_settles InState.processing reason v e = cc
query_settles InState.accepted reason v e = ground arith
query_settles InState.rejected reason v e = ground arith
query_settles InState.cancelled reason v e = ground arith

cancel_reply-settles :
    (s : InState) (v : Verdict)
    → is_processing s ≡ false
    → settles (resolve_cancel (cancel_response (cancel_reply s))) ≡ some v
    → verdict_of s ≡ v
unfolding resolve_cancel
cancel_reply-settles InState.processing v done e = cc
cancel_reply-settles InState.accepted v done e = ground arith
cancel_reply-settles InState.rejected v done e = ground arith
cancel_reply-settles InState.cancelled v done e = ground arith

-- The three cases of `cancelTransfer`.
cancel_known-settles :
    (w : World) (env : Env) (id : ℕ) (o : Option Incoming) (v : Verdict)
    → lookup id w.incoming ≡ o
    → (let (reply, w') = cancel_known env id o w in
        settles (resolve_cancel (cancel_response reply)) ≡ some v → Decided w'.incoming id v)
unfolding resolve_cancel
cancel_known-settles w env id none v found =
    λ e. (cancelled_unknown env, lookup-insert_self id _ w.incoming, refl, ground arith)
cancel_known-settles w env id (some t) v found = elim (Bool-cases (is_processing t.status)) [
  | inl open_now ↦
      rw open_now λ e. (cancel_now env t, lookup-insert_self id _ w.incoming, refl, ground arith)
  | inr done ↦ rw done λ e. (t, found, done, cancel_reply-settles t.status v done e)
]

answer_settles :
    (w : World) (env : Env) (q : Question) (id : ℕ) (o : Option Reply) (v : Verdict)
    → settles (ask_unless env q id o w).0 ≡ some v
    → Decided (ask_unless env q id o w).1.incoming id v
unfolding get_transfer cancel_transfer resolve_query
answer_settles w env q id (some reply) v e = cc
answer_settles w env by_query id none v e = elim (Option-cases (lookup id w.incoming)) [
  | inl new ↦ let no : none ≡ some v = rw new at e in cc
  | inr (t, old) ↦
      let told : settles (resolve_query (query_response (status_of t.status t.reason_code)))
          ≡ some v =
        rw old at e in
      let (done, said) = query_settles t.status t.reason_code v told in (t, old, done, said)
]
answer_settles w env by_cancel id none v e =
    cancel_known-settles w env id (lookup id w.incoming) v refl e

ask-Inv :
    (b w : World) (env : Env) (q : Question) (id : ℕ) (o : Option Reply)
    → Inv b w
    → Inv b (ask_unless env q id o w).1
ask-Inv b w env q id (some reply) h = h
ask-Inv b w env by_query id none h = h
ask-Inv b w env by_cancel id none h = cancel_transfer-Inv b w env id true h

-- If the sender ends a transfer on the mock's answer to its query or to its cancellation, then
-- for ever after, whatever comes in any order, the mock holds the deposit as decided the same
-- way, and no callback it has sent or will send for it says otherwise.
pub ask_for_good :
    (config : MockConfig) (w w' : World) (env : Env) (q : Question) (id : ℕ) (v : Verdict)
    → History (fresh_bank config) w
    → settles (ask env q id w).0 ≡ some v
    → History (ask env q id w).1 w'
    → Decided w'.incoming id v
      × ((v' : Verdict) (reason : Option Reason) → Memᴰ (result_post id v' reason) w'.sent → v' ≡ v)
unfolding ask
ask_for_good config w w' env q id v past e future =
    let b = fresh_bank config in
    let h = History-Inv b w (fresh-Inv config) past in
    let o = unavailable w in
    let asked = (ask_unless env q id o w).1 in
    let h' = Inv-self b asked (ask-Inv b w env q id o h) in
    let later = History-Inv asked w' h' future in
    let kept =
      Decided-Grows asked.incoming w'.incoming id v later.follows
        (answer_settles w env q id o v e) in
    (
      kept,
      λ v' reason m. Decided-unique w'.incoming id v' v (posted asked w' id v' reason later m) kept,
    )
