-- ===== src/InterbankMock/Kept/Sender.antt =====
-- The mock's other operations, and any sequence of all of them, keep the invariant.
use proyecto_sa_b.Prelude.{ℕ, zero, suc, Option, none, some, List, [], ◌∷◌, All}
use proyecto_sa_b.InterbankMock.{
  MockConfig, ConfigPatch, set_config, patched, checked_config, or_kept, InState, Request, Incoming,
  Outgoing, Reversal, Job, resolving, delivering, sending, transfer_post, World, Env,
}
use proyecto_sa_b.InterbankMock.Sender.{
  send_transfer, refund_if, refund_found, sent_transfer, result_found, receive_result, ReversalBody,
  reverse_request, reverse_content, reverse_original, reverse_known, request_reversal,
}
use proyecto_sa_b.InterbankMock.Invariant.{JobSound, Inv, schedule-Inv, call-Inv}
use proyecto_sa_b.InterbankMock.Invariant.{Grows-refl}
use proyecto_sa_b.InterbankMock.History.{
  Operation, transfer_received, cancel_received, result_received, reversal_received, config_set,
  transfer_sent, fired, run_job, put_back, pick, fire, perform, History, start, step, fresh_bank,
}
use proyecto_sa_b.InterbankMock.Kept.{
  same-Inv, if_Inv, receive_transfer-Inv, cancel_transfer-Inv, deliver_callback-Inv, resolve-Inv,
}

send_transfer-Inv :
    (b w : World) (env : Env) (destination : List ℕ) (amount : ℕ) (origin : List ℕ)
    (reversal : Option ℕ)
    → Inv b w
    → Inv b (send_transfer env destination amount origin reversal w)
unfolding send_transfer
send_transfer-Inv b w env destination amount origin reversal h =
    schedule-Inv b _ (sending env.fresh _ reversal)
      (call-Inv b w (transfer_post env.fresh origin destination amount) h tt) tt

refund_found-Inv :
    (b w : World) (id status reversal : ℕ) (o : Option Reversal)
    → Inv b w
    → Inv b (refund_found id status reversal o w)
refund_found-Inv b w id status reversal none h = h
refund_found-Inv b w id status reversal (some v) h = same-Inv b w w.config w.outgoing _ h

refund_if-Inv :
    (b w : World) (id status : ℕ) (reversal : Option ℕ)
    → Inv b w
    → Inv b (refund_if id status reversal w)
refund_if-Inv b w id status none h = h
refund_if-Inv b w id status (some reversal) h = refund_found-Inv b w id status reversal _ h

pub sent_transfer-Inv :
    (b w : World) (id status : ℕ) (o : Outgoing) (reversal : Option ℕ)
    → Inv b w
    → Inv b (sent_transfer id status o reversal w)
unfolding sent_transfer
sent_transfer-Inv b w id status o reversal h =
    refund_if-Inv b _ id status reversal (same-Inv b w w.config _ w.reversals h)

result_found-Inv :
    (b w : World) (id result : ℕ) (o : Option Outgoing)
    → Inv b w
    → Inv b (result_found id result o w).1
result_found-Inv b w id result none h = h
result_found-Inv b w id result (some o) h = same-Inv b w w.config _ w.reversals h

reverse_request-Inv :
    (b w : World) (env : Env) (id original : ℕ) (status : InState) (r : Request)
    → Inv b w
    → Inv b (reverse_request env id original status r w).1
reverse_request-Inv b w env id original InState.accepted r h =
    send_transfer-Inv b _ env r.origin_account r.amount r.destination_account (some id)
      (same-Inv b w w.config w.outgoing _ h)
reverse_request-Inv b w env id original InState.processing r h =
    same-Inv b w w.config w.outgoing _ h
reverse_request-Inv b w env id original InState.rejected r h = same-Inv b w w.config w.outgoing _ h
reverse_request-Inv b w env id original InState.cancelled r h = same-Inv b w w.config w.outgoing _ h

reverse_content-Inv :
    (b w : World) (env : Env) (id original : ℕ) (status : InState) (o : Option Request)
    → Inv b w
    → Inv b (reverse_content env id original status o w).1
reverse_content-Inv b w env id original status none h = h
reverse_content-Inv b w env id original status (some r) h =
    reverse_request-Inv b w env id original status r h

reverse_original-Inv :
    (b w : World) (env : Env) (id original : ℕ) (o : Option Incoming)
    → Inv b w
    → Inv b (reverse_original env id original o w).1
reverse_original-Inv b w env id original none h = h
reverse_original-Inv b w env id original (some t) h =
    reverse_content-Inv b w env id original t.status t.request h

reverse_known-Inv :
    (b w : World) (env : Env) (id original : ℕ) (o : Option Reversal)
    → Inv b w
    → Inv b (reverse_known env id original o w).1
reverse_known-Inv b w env id original (some v) h = h
reverse_known-Inv b w env id original none h = reverse_original-Inv b w env id original _ h

request_reversal-Inv :
    (b w : World) (env : Env) (body : ReversalBody)
    → Inv b w
    → Inv b (request_reversal env body w).1
unfolding request_reversal
request_reversal-Inv b w env body h = if_Inv b _ _ _ (reverse_known-Inv b w env _ _ _ h) h

or_kept-Inv : (b w : World) (o : Option MockConfig) → Inv b w → Inv b (or_kept o w).1
or_kept-Inv b w none h = h
or_kept-Inv b w (some next) h = same-Inv b w next w.outgoing w.reversals h

set_config-Inv : (b w : World) (p : ConfigPatch) → Inv b w → Inv b (set_config p w).1
unfolding set_config
set_config-Inv b w p h =
    or_kept-Inv b w
      (checked_config (patched p.mode w.config.mode) (patched p.latency_ms w.config.latency_ms)
        (patched p.callback_delay_ms w.config.callback_delay_ms)
        (patched p.reject_reason w.config.reject_reason))
      h

abbrev Picked : (Job → Type 0) → Option (Job × List Job) → Type 0
Picked P none = Unit
Picked P (some (j, js)) = P j × All P js

put_back-Picked :
    (P : Job → Type 0) (j : Job) (o : Option (Job × List Job))
    → P j
    → Picked P o
    → Picked P (put_back j o)
put_back-Picked P j none first rest = tt
put_back-Picked P j (some (k, ks)) first (picked, others) = (picked, (first, others))

-- The job that is picked has what all have, and so have the others.
pick-Picked : (P : Job → Type 0) (n : ℕ) (js : List Job) → All P js → Picked P (pick n js)
pick-Picked P n [] h = tt
pick-Picked P zero (j ∷ js) (first, rest) = (first, rest)
pick-Picked P (suc n) (j ∷ js) (first, rest) =
    put_back-Picked P j (pick n js) first (pick-Picked P n js rest)

run_job-Inv :
    (b w : World) (env : Env) (j : Job) → Inv b w → JobSound w.incoming j → Inv b (run_job env j w)
run_job-Inv b w env (resolving id) h s = resolve-Inv b w env id h
run_job-Inv b w env (delivering id attempt) h s = deliver_callback-Inv b w env id attempt h s
run_job-Inv b w env (sending id o reversal) h s = sent_transfer-Inv b w id _ o reversal h

fire-Inv :
    (b w : World) (env : Env) (o : Option (Job × List Job))
    → Inv b w
    → Picked (JobSound w.incoming) o
    → Inv b (fire env o w)
fire-Inv b w env none h picked = h
fire-Inv b w env (some (j, js)) h (sound, others) =
    run_job-Inv b (record w { scheduled = js }) env j
      (record { follows = h.follows; jobs = others; calls = h.calls; blank = h.blank }) sound

perform-Inv : (b w : World) (env : Env) (o : Operation) → Inv b w → Inv b (perform env o w)
unfolding receive_result
perform-Inv b w env (transfer_received key traced body) h =
    receive_transfer-Inv b w env key traced body h
perform-Inv b w env (cancel_received id sound) h = cancel_transfer-Inv b w env id sound h
perform-Inv b w env (result_received id result) h = result_found-Inv b w id result _ h
perform-Inv b w env (reversal_received body) h = request_reversal-Inv b w env body h
perform-Inv b w env (config_set p) h = set_config-Inv b w p h
perform-Inv b w env (transfer_sent destination amount origin) h =
    send_transfer-Inv b w env destination amount origin none h
perform-Inv b w env (fired place) h =
    fire-Inv b w env (pick place w.scheduled) h
      (pick-Picked (JobSound w.incoming) place w.scheduled h.jobs)

pub fresh-Inv : (config : MockConfig) → Inv (fresh_bank config) (fresh_bank config)
fresh-Inv config = record { follows = Grows-refl []; jobs = tt; calls = tt; blank = λ id t e. cc }

pub Inv-self : (b w : World) → Inv b w → Inv w w
Inv-self b w h = record {
  follows = Grows-refl w.incoming;
  jobs = h.jobs;
  calls = h.calls;
  blank = h.blank;
}

pub History-Inv : (b w : World) → Inv b b → History b w → Inv b w
History-Inv b w h start = h
History-Inv b w h (step {w = before} past env o) =
    perform-Inv b before env o (History-Inv b before h past)
