-- ===== src/PaymentService/Interbank/Sender.antt =====
-- The bank as a sender: `onFundsReserved`, `sendNow`, `afterSend` and `finalizeOut` of
-- interbank.service.ts.
pub mod Kept
pub mod Closing
use proyecto_sa_b.Prelude.{
  ℕ, ◌+◌, ◌-◌, ◌%◌, Bool, true, false, Option, none, some, List, [], ◌∷◌, ◌==◌, ◌&&◌, ◌||◌, not,
  leb, get_or, if◌then◌else◌,
}
use proyecto_sa_b.Prelude.Int.{ℤ, pos}
use proyecto_sa_b.Prelude.Dict.{lookup}
use proyecto_sa_b.Prelude.Program.{return, fail, read, attempt, skip, ◌>>=◌, ◌>>◌}
use proyecto_sa_b.PaymentService.Rules.{Response, PartnerStatus, backoff_ms, to_external_account}
use proyecto_sa_b.PaymentService.Interbank.{
  out_going, State, Transfer, Reason, World, Call, Env, service_unavailable, same_direction,
}
use proyecto_sa_b.PaymentService.Interbank.Outbox.{
  is_state, transition, update, insert_new, flush_row,
}

abbrev pub find : ℕ → Call (Option Transfer)
find id = read (λ (w : World). lookup id w.transfers)

abbrev pub finalize_patch : Env → State → Bool → (Transfer → Transfer) → Transfer → Transfer
finalize_patch env next is_refund patch r = record (patch r) {
  state = next;
  resolved_at = some env.now;
  timeout_step = none;
  pending_event = not is_refund;
}

abbrev pub finalize_found :
    Env → ℕ → List State → State → (Transfer → Transfer) → Option Transfer → Call Bool
finalize_found env id from next patch none = return false
finalize_found env id from next patch (some current) = do
  moved ← transition env.now id from (finalize_patch env next current.is_refund patch)
  if moved then flush_row id >> return true else return false

-- `finalizeOut`: whether the transfer was in one of the states and is closed now.
unfoldable pub finalize_out : Env → ℕ → List State → State → (Transfer → Transfer) → Call Bool
finalize_out env id from next patch = do
  current ← find id
  finalize_found env id from next patch current

abbrev pub no_patch : Transfer → Transfer
no_patch r = r

abbrev pub with_reason : Option Reason → Transfer → Transfer
with_reason reason r = record r { reason_code = reason }

pub data SendResult : Type 0 where
  sent retry rejected : SendResult

abbrev retry_patch : Env → Transfer → Transfer → Transfer
retry_patch env seen r = record r {
  send_attempts = seen.send_attempts + 1;
  next_attempt_at = some (env.now + backoff_ms (pos seen.send_attempts) 2000 60000);
  locked_until = none;
  updated_at = env.now;
}

abbrev sent_patch : Transfer → Transfer → Transfer
sent_patch seen r = record r {
  state = State.sent;
  send_attempts = seen.send_attempts + 1;
  pending_event = not seen.is_refund;
}

abbrev mark_sent : Env → ℕ → Transfer → Call SendResult
mark_sent env id seen = do
  transition env.now id (State.pending ∷ []) (sent_patch seen)
  flush_row id
  return SendResult.sent

abbrev refused : Env → ℕ → List State → Option Reason → SendResult → Call SendResult
refused env id from reason result = do
  finalize_out env id from State.rejected (with_reason reason)
  return result

-- The receiver knew the id already, and says what became of it.
abbrev known : Env → ℕ → Transfer → Option (PartnerStatus × Option Reason) → Call SendResult
known env id seen (some (PartnerStatus.accepted, _)) = do
  finalize_out env id (State.pending ∷ State.sent ∷ []) State.accepted no_patch
  return SendResult.sent
known env id seen (some (PartnerStatus.rejected, reason)) =
    refused env id (State.pending ∷ State.sent ∷ []) (some (get_or reason Reason.processing_error))
      SendResult.sent
known env id seen (some (PartnerStatus.cancelled, reason)) =
    refused env id (State.pending ∷ State.sent ∷ []) (some (get_or reason Reason.processing_error))
      SendResult.sent
known env id seen _ = mark_sent env id seen

-- `afterSend`, with the row as it was read before the request was sent.
unfoldable pub after_send :
    Env → ℕ → Transfer → Response (PartnerStatus × Option Reason) → Call SendResult
after_send env id seen res =
    if env.not_configured seen.partner_bank_code
    then refused env id (State.pending ∷ []) (some Reason.processing_error) SendResult.rejected
    else if res.network_error || leb 500 res.status || res.status == 429 || res.status == 0
    then update id (retry_patch env seen) >> return SendResult.retry
    else if res.status == 202 || res.status == 409
    then mark_sent env id seen
    else if res.status == 200
    then known env id seen res.said
    else refused env id (State.pending ∷ [])
        (some (if res.status == 422 then Reason.expired else Reason.processing_error))
        SendResult.rejected

abbrev send_as : Env → ℕ → Transfer → Option ℕ → Call (Unit {0})
send_as env id r none = fail service_unavailable
send_as env id r (some bank) = after_send env id r (env.post_transfer id r) >> skip

abbrev send_found : Env → ℕ → Option Transfer → Call (Unit {0})
send_found env id none = skip
send_found env id (some r) =
    if same_direction r.direction out_going && is_state r.state State.pending
    then send_as env id r env.own_bank
    else skip

-- `sendNow`
unfoldable pub send_now : Env → ℕ → Call (Unit {0})
send_now env id = do row ← find id; send_found env id row

-- `now.setMilliseconds(0)`
abbrev pub to_seconds : ℕ → ℕ
to_seconds now = now - now % 1000

-- The payload of `account.interbank.funds.reserved`.
pub record FundsReserved : Type 0 where
  pub interbank_transfer_id : ℕ
  pub transaction_id : Option ℕ
  pub source_account : List ℕ
  pub destination_bank_code : ℕ
  pub destination_account : List ℕ
  pub amount : ℤ
  pub description : Option ℕ
  pub correlation_id : ℕ

-- A new outgoing row, as `onFundsReserved` and `onReversalDebited` build it.
abbrev pub outgoing :
    (now bank : ℕ)
    → (origin destination : Option (List ℕ)) → ℤ
    → (description : Option ℕ) → (transaction : Option ℕ) → (correlation : ℕ) → (is_refund : Bool)
    → Transfer
outgoing now bank origin destination amount description transaction correlation is_refund = record {
  direction = out_going;
  partner_bank_code = bank;
  origin_account = origin;
  destination_account = destination;
  amount = amount;
  description = description;
  message_created_at = some now;
  expires_at = some (now + 180000);
  state = State.pending;
  reason_code = none;
  request_hash = none;
  transaction_id = transaction;
  correlation_id = correlation;
  is_refund = is_refund;
  send_attempts = 0;
  next_attempt_at = none;
  locked_until = none;
  timeout_at = none;
  timeout_step = none;
  step_attempts = 0;
  callback_state = none;
  callback_attempts = 0;
  resolved_at = none;
  pending_event = false;
  created_at = now;
  updated_at = now;
}

-- `onFundsReserved`; a failure of the immediate send is left to the worker.
unfoldable pub on_funds_reserved : Env → FundsReserved → Call (Unit {0})
on_funds_reserved env p = do
  insert_new p.interbank_transfer_id (
      outgoing (to_seconds env.now) p.destination_bank_code
        (some (to_external_account p.source_account)) (some p.destination_account) p.amount
        p.description p.transaction_id p.correlation_id false)
  attempt (send_now env p.interbank_transfer_id)
