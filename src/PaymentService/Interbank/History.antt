-- ===== src/PaymentService/Interbank/History.antt =====
-- Everything that the service does to its tables, in any order: the requests of the partner banks,
-- the events of Account, the worker, and the second halves of the calls that wait for a partner bank
-- or for the broker, which take a row as it was at some earlier time.
pub mod Outcomes
use mathlib.Core.List.{Memᴰ}
use proyecto_sa_b.Prelude.{ℕ, ◌≡◌, refl, Bool, true, false, Option, none, some, List, []}
use proyecto_sa_b.Prelude.Dict.{lookup}
use proyecto_sa_b.PaymentService.Rules.{Response, PartnerStatus}
use proyecto_sa_b.PaymentService.Interbank.{Transfer, Reason, World, Env}
use proyecto_sa_b.PaymentService.Interbank.Outbox.{flush_seen}
use proyecto_sa_b.PaymentService.Interbank.Sender.{after_send}
use proyecto_sa_b.PaymentService.Interbank.Sender.Kept.{after_send-Keeps}
use proyecto_sa_b.PaymentService.Interbank.Timeouts.{resolve_timeout}
use proyecto_sa_b.PaymentService.Interbank.Timeouts.Kept.{resolve_timeout-Keeps}
use proyecto_sa_b.PaymentService.Interbank.Receiver.{
  receive_transfer, get_transfer, CancelRequest, cancel_transfer,
}
use proyecto_sa_b.PaymentService.Interbank.Callbacks.{ResultBody, receive_result, deliver_callback}
use proyecto_sa_b.PaymentService.Interbank.Receiver.Kept.{
  receive_transfer-Keeps, get_transfer-Keeps, cancel_transfer-Keeps,
}
use proyecto_sa_b.PaymentService.Interbank.Callbacks.Kept.{
  receive_result-Keeps, deliver_callback-Keeps,
}
use proyecto_sa_b.PaymentService.Interbank.Receiver.Requests.{TransferRequest}
use proyecto_sa_b.PaymentService.Interbank.Reversals.{
  ReversalRequest, request_reversal, get_reversal,
}
use proyecto_sa_b.PaymentService.Interbank.Reversals.Kept.{
  request_reversal-Keeps, get_reversal-Keeps,
}
use proyecto_sa_b.PaymentService.Interbank.Worker.{tick, AccountEvent, handle_event}
use proyecto_sa_b.PaymentService.Interbank.Worker.Kept.{tick-Keeps, handle_event-Keeps}
use proyecto_sa_b.PaymentService.Interbank.Invariant.{Inv, Inv-self, Inv-trans}
use proyecto_sa_b.PaymentService.Interbank.Statements.{flush_seen-Inv}

-- A call that runs from its beginning.
pub data Operation : Type 0 where
  transfer_post :
      (hash : TransferRequest → ℕ) → (caller key : Option ℕ) → TransferRequest → Operation
  transfer_get : (caller id : Option ℕ) → Operation
  cancel_post : (caller id : Option ℕ) → CancelRequest → Operation
  result_post : (caller id : Option ℕ) → ResultBody → Operation
  reversal_post : (caller : Option ℕ) → ReversalRequest → Operation
  reversal_get : (caller id : Option ℕ) → Operation
  account_event : (id : ℕ) → AccountEvent → Operation
  worker_tick : Operation
  broker_turns : Bool → Operation

abbrev pub perform : Env → Operation → World → World
perform env (transfer_post hash caller key req) w = (receive_transfer env hash caller key req w).1
perform env (transfer_get caller id) w = (get_transfer caller id w).1
perform env (cancel_post caller id body) w = (cancel_transfer env caller id body w).1
perform env (result_post caller id body) w = (receive_result env caller id body w).1
perform env (reversal_post caller body) w = (request_reversal env caller body w).1
perform env (reversal_get caller id) w = (get_reversal caller id w).1
perform env (account_event id e) w = (handle_event env id e w).1
perform env worker_tick w = (tick env w).1
perform env (broker_turns up) w = record w { broker = up }

-- The second half of a call, with the row `seen` that its first half read.
pub data Rest : Type 0 where
  sent : Response (PartnerStatus × Option Reason) → Rest
  resolving called_back flushing : Rest

abbrev pub go_on : Env → Rest → (id : ℕ) → (seen : Transfer) → World → World
go_on env (sent res) id seen w = (after_send env id seen res w).1
go_on env resolving id seen w = (resolve_timeout env id seen w).1
go_on env called_back id seen w = (deliver_callback env id seen w).1
go_on env flushing id seen w = flush_seen id seen w

-- From `b` the service can come to `w`.
pub data History : World → World → Type 0 where
  start : {b : World} → History b b
  step : {b w : World} → History b w → (env : Env) → (o : Operation) → History b (perform env o w)
  rest :
      {b c w : World}
      → History b c
      → (id : ℕ) → (seen : Transfer) → lookup id c.transfers ≡ some seen
      → History c w
      → (env : Env) → (how : Rest) → History b (go_on env how id seen w)

abbrev pub no_rows : World
no_rows = record { transfers = []; reversals = []; processed = []; published = []; broker = true }

pub no_rows-Inv : Inv no_rows no_rows
no_rows-Inv = record { follows = λ id r e. cc; sound = λ id r e. cc; distinct = tt }

perform-Inv : (b w : World) (env : Env) (o : Operation) → Inv b w → Inv b (perform env o w)
perform-Inv b w env (transfer_post hash caller key req) h =
    (receive_transfer-Keeps env hash caller key req).run w h
perform-Inv b w env (transfer_get caller id) h = (get_transfer-Keeps caller id).run w h
perform-Inv b w env (cancel_post caller id body) h =
    (cancel_transfer-Keeps env caller id body).run w h
perform-Inv b w env (result_post caller id body) h =
    (receive_result-Keeps env caller id body).run w h
perform-Inv b w env (reversal_post caller body) h = (request_reversal-Keeps env caller body).run w h
perform-Inv b w env (reversal_get caller id) h = (get_reversal-Keeps caller id).run w h
perform-Inv b w env (account_event id e) h = (handle_event-Keeps env id e).run w h
perform-Inv b w env worker_tick h = (tick-Keeps env).run w h
perform-Inv b w env (broker_turns up) h = record {
  follows = h.follows;
  sound = h.sound;
  distinct = h.distinct;
}

go_on-Inv :
    (c w : World) (env : Env) (how : Rest) (id : ℕ) (seen : Transfer)
    → lookup id c.transfers ≡ some seen
    → Inv c w
    → Inv c (go_on env how id seen w)
go_on-Inv c w env (sent res) id seen e h = (after_send-Keeps env id seen e res).run w h
go_on-Inv c w env resolving id seen e h = (resolve_timeout-Keeps env id seen).run w h
go_on-Inv c w env called_back id seen e h = (deliver_callback-Keeps env id seen).run w h
go_on-Inv c w env flushing id seen e h = flush_seen-Inv w id seen h e

pub History-Inv : (b w : World) → Inv b b → History b w → Inv b w
History-Inv b w h start = h
History-Inv b w h (step {w = before} past env o) =
    perform-Inv b before env o (History-Inv b before h past)
History-Inv b w h (rest {c = c} {w = before} past id seen e recent env how) =
    let first : Inv b c = History-Inv b c h past in
    let second : Inv c before = History-Inv c before (Inv-self b c first) recent in
    Inv-trans b c _ first (go_on-Inv c before env how id seen e second)
