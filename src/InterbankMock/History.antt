-- ===== src/InterbankMock/History.antt =====
-- Everything that can happen to the mock, in any order. Timers may fire in any order, since their
-- delays change with the configuration.
use proyecto_sa_b.Prelude.{ℕ, zero, suc, Option, none, some, Bool, List, [], ◌∷◌}
use proyecto_sa_b.InterbankMock.{
  MockConfig, ConfigPatch, set_config, Job, resolving, delivering, sending, transfer_post, World,
  Env,
}
use proyecto_sa_b.InterbankMock.Receiver.{
  Body, receive_transfer, cancel_transfer, resolve, deliver_callback,
}
use proyecto_sa_b.InterbankMock.Sender.{
  send_transfer, sent_transfer, receive_result, ReversalBody, request_reversal,
}

pub data Operation : Type 0 where
  transfer_received : (key : Option ℕ) → (traced : Bool) → Body → Operation
  cancel_received : (id : ℕ) → (sound : Bool) → Operation
  result_received : (id result : ℕ) → Operation
  reversal_received : ReversalBody → Operation
  config_set : ConfigPatch → Operation
  transfer_sent : (destination : List ℕ) → (amount : ℕ) → (origin : List ℕ) → Operation
  -- The job at this place of the list is run.
  fired : (place : ℕ) → Operation

abbrev pub run_job : Env → Job → World → World
run_job env (resolving id) w = resolve env id w
run_job env (delivering id attempt) w = deliver_callback env id attempt w
run_job env (sending id o reversal) w =
    sent_transfer id (env.send (transfer_post id o.origin_account o.destination_account o.amount)) o
      reversal w

abbrev pub put_back : Job → Option (Job × List Job) → Option (Job × List Job)
put_back j none = none
put_back j (some (k, ks)) = some (k, j ∷ ks)

-- The job at a place, and the others.
abbrev pub pick : ℕ → List Job → Option (Job × List Job)
pick n [] = none
pick zero (j ∷ js) = some (j, js)
pick (suc n) (j ∷ js) = put_back j (pick n js)

abbrev pub fire : Env → Option (Job × List Job) → World → World
fire env none w = w
fire env (some (j, js)) w = run_job env j (record w { scheduled = js })

abbrev pub perform : Env → Operation → World → World
perform env (transfer_received key traced body) w = (receive_transfer env key traced body w).1
perform env (cancel_received id sound) w = (cancel_transfer env id sound w).1
perform env (result_received id result) w = (receive_result id result w).1
perform env (reversal_received body) w = (request_reversal env body w).1
perform env (config_set p) w = (set_config p w).1
perform env (transfer_sent destination amount origin) w =
    send_transfer env destination amount origin none w
perform env (fired place) w = fire env (pick place w.scheduled) w

pub data History : World → World → Type 0 where
  start : {b : World} → History b b
  step : {b w : World} → History b w → (env : Env) → (o : Operation) → History b (perform env o w)

abbrev pub fresh_bank : MockConfig → World
fresh_bank config = record {
  config = config;
  incoming = [];
  outgoing = [];
  reversals = [];
  scheduled = [];
  sent = [];
}
