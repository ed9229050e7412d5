-- ===== src/AccountService/Deposits.antt =====
-- The receiving side of interbank deposits: `credit`, `cancelDeposit`, `reverse` and `handle` of
-- interbank.service.ts in apps/account-service/src/account.
pub mod Incoming
pub mod Once
pub mod Handled
use proyecto_sa_b.Prelude.{
  ℕ, Bool, true, false, Option, none, some, List, not, ◌==◌, get_or, if◌then◌else◌,
}
use proyecto_sa_b.Prelude.Int.{ℤ, pos, ◌-ℤ◌, ltb_ℤ}
use proyecto_sa_b.Prelude.Dict.{lookup}
use proyecto_sa_b.Prelude.Action.{pure, gets, modify, ◌>>=◌, ◌>>◌}
use proyecto_sa_b.AccountService.Rows.{
  Account, in_coming, Operation, OperationStatus, Reason, insufficient_funds, original_not_credited,
  processing_error, cancelled, deposit_credited, deposit_rejected, reversal_debited,
  reversal_failed, Tables, Call, emit, exists_by, save_processed,
}
use proyecto_sa_b.AccountService.Rules.{from_external_account, check_incoming_deposit}
use proyecto_sa_b.AccountService.Saga.{Step, in_transaction, set_account, receive}
use proyecto_sa_b.AccountService.Interbank.{
  Payload, amount_of, set_operation, of_direction, account_of, reserve, debit, release,
}

-- The id of the account that the deposit names, if it can be one of this bank.
abbrev pub named_account : (List ℕ → ℕ) → Payload → Option ℕ
named_account key p = elim (from_external_account p.destination_account) [
  | none ↦ none
  | some text ↦ some (key text)
]

abbrev pub find_account : Option ℕ → Tables → Option Account
find_account none t = none
find_account (some id) t = lookup id t.accounts

abbrev pub status_of : Option Reason → OperationStatus
status_of none = OperationStatus.credited
status_of (some _) = OperationStatus.rejected

abbrev pub incoming_operation : ℕ → Payload → Option ℕ → Option Reason → Operation
incoming_operation now p account reason = record {
  direction = in_coming;
  account_id = account;
  partner_bank_code = p.origin_bank_code;
  amount = amount_of p;
  fee_amount = pos 0;
  status = status_of reason;
  reason_code = reason;
  transaction_id = none;
  reversal_id = none;
  created_at = now;
  updated_at = now;
}

abbrev credit_account : ℕ → Payload → Option ℕ → Option Reason → Option Account → Tables → Tables
credit_account now p (some id) none (some a) t = set_account id (receive now (amount_of p) a) t
credit_account now p _ _ _ t = t

abbrev credit_checked :
    ℕ → Payload → Option ℕ → Option Reason → Option Account → Tables → (Operation × Bool) × Tables
credit_checked now p id reason account t = (
  (incoming_operation now p id reason, true),
  credit_account now p id reason account
      (set_operation (get_or p.interbank_transfer_id 0) (incoming_operation now p id reason) t),
)

-- The transaction of `credit`: the operation, and whether it is new.
unfoldable pub credit_rows : (List ℕ → ℕ) → ℕ → Payload → Tables → (Operation × Bool) × Tables
credit_rows key now p t = elim (lookup (get_or p.interbank_transfer_id 0) t.operations) [
  | some o ↦ ((o, false), t)
  | none ↦
      let id = named_account key p in
      let account = find_account id t in
      credit_checked now p id
        (check_incoming_deposit (record {
          now = now;
          expires_at = p.expires_at;
          amount = p.amount;
          currency = p.currency;
          account = account;
        }))
        account t
]

abbrev emit_rejected : ℕ → Payload → Operation → Call (Unit {0})
emit_rejected correlation p o =
    emit correlation
      (deposit_rejected (get_or p.interbank_transfer_id 0) (get_or o.reason_code processing_error))

abbrev emit_credited : ℕ → Payload → Operation → Call (Unit {0})
emit_credited correlation p o = emit correlation (
    deposit_credited (get_or p.interbank_transfer_id 0) o.account_id o.amount o.partner_bank_code
      p.origin_account)

abbrev emit_deposit_result : ℕ → Payload → Operation → OperationStatus → Call (Unit {0})
emit_deposit_result correlation p o OperationStatus.credited = emit_credited correlation p o
emit_deposit_result correlation p o OperationStatus.refunded = emit_credited correlation p o
emit_deposit_result correlation p o _ = emit_rejected correlation p o

abbrev credit_step : Bool → OperationStatus → Step
credit_step fresh OperationStatus.credited = Step.done
credit_step fresh _ = if fresh then Step.rejected else Step.skipped

unfoldable pub credit : (List ℕ → ℕ) → ℕ → ℕ → Payload → Call Step
credit key now correlation p = do
  decision ← in_transaction (λ t. some (credit_rows key now p t))
  emit_deposit_result correlation p decision.0 decision.0.status
  pure (credit_step decision.1 decision.0.status)

pub data CancelResult : Type 0 where
  is_cancelled already_accepted : CancelResult
  already_rejected : Option Reason → CancelResult

abbrev pub cancelled_operation : ℕ → Operation
cancelled_operation now = record {
  direction = in_coming;
  account_id = none;
  partner_bank_code = none;
  amount = pos 0;
  fee_amount = pos 0;
  status = OperationStatus.cancelled;
  reason_code = some cancelled;
  transaction_id = none;
  reversal_id = none;
  created_at = now;
  updated_at = now;
}

abbrev cancel_status : Operation → OperationStatus → CancelResult
cancel_status o OperationStatus.credited = already_accepted
cancel_status o OperationStatus.refunded = already_accepted
cancel_status o OperationStatus.rejected = already_rejected o.reason_code
cancel_status o _ = is_cancelled

-- `cancelDeposit`
unfoldable pub cancel_deposit : ℕ → ℕ → Tables → CancelResult × Tables
cancel_deposit now id t = elim (lookup id t.operations) [
  | none ↦ (is_cancelled, set_operation id (cancelled_operation now) t)
  | some o ↦ (cancel_status o o.status, t)
]

pub data Reverse : Type 0 where
  reversed : Operation → (again : Bool) → Reverse
  failed : Reason → Reverse

-- The balance less what is reserved; the minimum does not count here.
abbrev pub covers : ℤ → Account → Bool
covers amount a = not (ltb_ℤ (a.balance -ℤ a.reserved_balance) amount)

abbrev pub refund : ℕ → ℤ → Account → Account
refund now amount a = record a { balance = a.balance -ℤ amount; last_activity_at = now }

abbrev pub refunded_operation : ℕ → Payload → Operation → Operation
refunded_operation now p o = record o {
  status = OperationStatus.refunded;
  reversal_id = some p.reversal_id;
  updated_at = now;
}

abbrev reverse_account : ℕ → Payload → Operation → Option Account → Tables → Reverse × Tables
reverse_account now p o none t = (failed insufficient_funds, t)
reverse_account now p o (some a) t =
    if covers o.amount a
    then (
      reversed (refunded_operation now p o) false,
      set_operation p.original_transfer_id (refunded_operation now p o)
          (set_account (get_or o.account_id 0) (refund now o.amount a) t),
    )
    else (failed insufficient_funds, t)

abbrev is_reversal : ℕ → Option ℕ → Bool
is_reversal id none = false
is_reversal id (some other) = other == id

abbrev reverse_status : ℕ → Payload → Operation → OperationStatus → Tables → Reverse × Tables
reverse_status now p o OperationStatus.refunded t =
    if is_reversal p.reversal_id o.reversal_id
    then (reversed o true, t)
    else (failed original_not_credited, t)
reverse_status now p o OperationStatus.credited t = reverse_account now p o (account_of o t) t
reverse_status now p o _ t = (failed original_not_credited, t)

-- The transaction of `reverse`.
unfoldable pub reverse_rows : ℕ → Payload → Tables → Reverse × Tables
reverse_rows now p t = elim (of_direction in_coming (lookup p.original_transfer_id t.operations)) [
  | none ↦ (failed original_not_credited, t)
  | some o ↦ reverse_status now p o o.status t
]

abbrev reverse_after : ℕ → Payload → Reverse → Call Step
reverse_after correlation p (failed reason) = do
  emit correlation (reversal_failed p.reversal_id p.original_transfer_id reason)
  pure Step.rejected
reverse_after correlation p (reversed o again) = do
  emit correlation (reversal_debited p.reversal_id p.original_transfer_id o.account_id o.amount)
  pure (if again then Step.skipped else Step.done)

unfoldable pub reverse : ℕ → ℕ → Payload → Call Step
reverse now correlation p = do
  outcome ← in_transaction (λ t. some (reverse_rows now p t))
  reverse_after correlation p outcome

pub data InterbankEvent : Type 0 where
  transfer_requested transfer_accepted transfer_rejected transfer_reversed : InterbankEvent
  deposit_requested reversal_requested unknown : InterbankEvent

unfoldable pub run_step : (List ℕ → ℕ) → ℕ → ℕ → InterbankEvent → Payload → Call Step
run_step key now correlation transfer_requested p = reserve now correlation p
run_step key now correlation transfer_accepted p = debit now correlation p
run_step key now correlation transfer_rejected p = release now correlation false p
run_step key now correlation transfer_reversed p = release now correlation true p
run_step key now correlation deposit_requested p = credit key now correlation p
run_step key now correlation reversal_requested p = reverse now correlation p
run_step key now correlation unknown p = pure Step.skipped

-- `InterbankService.handle`
unfoldable pub handle :
    (List ℕ → ℕ) → ℕ → (event_id correlation : ℕ) → InterbankEvent → Payload → Call (Unit {0})
handle key now event_id correlation e p = do
  known ← gets (exists_by event_id)
  if known
      then pure tt
      else do run_step key now correlation e p; modify (save_processed event_id now)
