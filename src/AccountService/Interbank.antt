-- ===== src/AccountService/Interbank.antt =====
-- Interbank deposits on the side of the accounts: interbank.service.ts of
-- apps/account-service/src/account. A database transaction runs alone, since it locks its rows; the
-- events are published after it. `key` numbers the texts of account ids, `now` is the clock.
pub mod Books
pub mod Outgoing
pub mod Closed
use proyecto_sa_b.Prelude.{ℕ, Bool, Option, none, some, List, get_or}
use proyecto_sa_b.Prelude.Int.{ℤ, pos, ◌+ℤ◌}
use proyecto_sa_b.Prelude.Dict.{lookup, insert}
use proyecto_sa_b.Prelude.Action.{pure, ◌>>=◌, ◌>>◌}
use proyecto_sa_b.AccountService.Rows.{
  Account, Direction, out_going, in_coming, Operation, OperationStatus, Reason,
  account_not_found_or_inactive, interbank_funds_reserved, interbank_funds_rejected,
  interbank_completed, interbank_released, Tables, Call, emit,
}
use proyecto_sa_b.AccountService.Rules.{check_outgoing}
use proyecto_sa_b.AccountService.Saga.{Step, in_transaction, set_account, fee_of, hold, pay, unhold}

-- The fields of the payloads together.
pub record Payload : Type 0 where
  pub transaction_id : Option ℕ
  pub interbank_transfer_id : Option ℕ
  pub source_account : ℕ
  pub destination_bank_code : Option ℕ
  pub destination_account : List ℕ
  pub amount : Option ℤ
  pub currency : Option Bool
  pub description : Option ℕ
  pub reason_code : Option Reason
  pub expires_at : Option ℕ
  pub origin_bank_code : Option ℕ
  pub origin_account : Option ℕ
  pub reversal_id : ℕ
  pub original_transfer_id : ℕ

-- `p.interbankTransferId ?? p.transactionId`
abbrev pub id_of : Payload → ℕ
id_of p = get_or p.interbank_transfer_id (get_or p.transaction_id 0)

abbrev pub set_operation : ℕ → Operation → Tables → Tables
set_operation id o t = record t { operations = insert id o t.operations }

abbrev pub amount_of : Payload → ℤ
amount_of p = get_or p.amount (pos 0)

abbrev pub outgoing_operation : ℕ → Payload → ℤ → OperationStatus → Option Reason → Operation
outgoing_operation now p fee status reason = record {
  direction = out_going;
  account_id = some p.source_account;
  partner_bank_code = p.destination_bank_code;
  amount = amount_of p;
  fee_amount = fee;
  status = status;
  reason_code = reason;
  transaction_id = p.transaction_id;
  reversal_id = none;
  created_at = now;
  updated_at = now;
}

pub data Reserve : Type 0 where
  existing : Operation → Reserve
  rejected : Reason → Reserve
  reserved : (fee : ℤ) → Reserve

abbrev reserve_source : ℕ → Payload → Option Reason → Option Account → Tables → Reserve × Tables
reserve_source now p (some reason) source t = (
  rejected reason,
  set_operation (id_of p) (outgoing_operation now p (pos 0) OperationStatus.rejected (some reason))
      t,
)
reserve_source now p none none t = (
  rejected account_not_found_or_inactive,
  set_operation (id_of p) (outgoing_operation now p (pos 0) OperationStatus.rejected none) t,
)
reserve_source now p none (some s) t = (
  reserved (fee_of s),
  set_operation (id_of p) (outgoing_operation now p (fee_of s) OperationStatus.reserved none)
      (set_account p.source_account (hold now (amount_of p +ℤ fee_of s) s) t),
)

-- The transaction of `reserve`.
unfoldable pub reserve_rows : ℕ → Payload → Tables → Reserve × Tables
reserve_rows now p t = elim (lookup (id_of p) t.operations) [
  | some o ↦ (existing o, t)
  | none ↦
      let source = lookup p.source_account t.accounts in
      reserve_source now p (check_outgoing p.amount p.currency source) source t
]

abbrev emit_reserved : ℕ → Payload → ℤ → Call (Unit {0})
emit_reserved correlation p fee = emit correlation (
    interbank_funds_reserved p.transaction_id (id_of p) p.source_account p.destination_bank_code
      p.destination_account (amount_of p) fee p.description)

abbrev answer_existing : ℕ → Payload → Operation → OperationStatus → Call (Unit {0})
answer_existing correlation p o OperationStatus.reserved = emit_reserved correlation p o.fee_amount
answer_existing correlation p o OperationStatus.rejected =
    emit correlation (interbank_funds_rejected p.transaction_id (id_of p) o.reason_code)
answer_existing correlation p o _ = pure tt

abbrev reserve_after : ℕ → Payload → Reserve → Call Step
reserve_after correlation p (existing o) = do
  answer_existing correlation p o o.status
  pure Step.skipped
reserve_after correlation p (rejected reason) = do
  emit correlation (interbank_funds_rejected p.transaction_id (id_of p) (some reason))
  pure Step.rejected
reserve_after correlation p (reserved fee) = do emit_reserved correlation p fee; pure Step.done

unfoldable pub reserve : ℕ → ℕ → Payload → Call Step
reserve now correlation p = do
  outcome ← in_transaction (λ t. some (reserve_rows now p t))
  reserve_after correlation p outcome

-- `findOne` with `direction: 'OUT'` or `'IN'`.
abbrev pub of_direction : Direction → Option Operation → Option Operation
of_direction d none = none
of_direction out_going (some o) = elim o.direction [ out_going ↦ some o | in_coming ↦ none ]
of_direction in_coming (some o) = elim o.direction [ in_coming ↦ some o | out_going ↦ none ]

-- The account of an operation, or nothing where `findOneByOrFail` throws.
abbrev pub account_of : Operation → Tables → Option Account
account_of o t = elim o.account_id [ none ↦ none | some a ↦ lookup a t.accounts ]

-- The operation is closed by its new row, and its account replaced by the changed one.
abbrev close_with :
    ℕ → Operation → (Account → Account) → Operation → Tables → Option (Option Operation × Tables)
close_with id o change o' t = elim (account_of o t) [
  | none ↦ none
  | some a ↦ some (some o', set_operation id o' (set_account (get_or o.account_id 0) (change a) t))
]

abbrev debit_status :
    ℕ → ℕ → Operation → OperationStatus → Tables → Option (Option Operation × Tables)
debit_status now id o OperationStatus.reserved t =
    close_with id o (pay now (o.amount +ℤ o.fee_amount))
      (record o { status = OperationStatus.debited; updated_at = now }) t
debit_status now id o _ t = some (none, t)

abbrev debit_from : ℕ → ℕ → Option Operation → Tables → Option (Option Operation × Tables)
debit_from now id none t = some (none, t)
debit_from now id (some o) t = debit_status now id o o.status t

-- The transaction of `debit`; an operation is returned where it was debited now.
unfoldable pub debit_rows : ℕ → Payload → Tables → Option (Option Operation × Tables)
debit_rows now p t =
    debit_from now (id_of p) (of_direction out_going (lookup (id_of p) t.operations)) t

abbrev debit_after : ℕ → Payload → Option Operation → Call Step
debit_after correlation p none = pure Step.skipped
debit_after correlation p (some o) = do
  emit correlation
      (interbank_completed o.transaction_id (id_of p) o.account_id o.amount o.fee_amount)
  pure Step.done

unfoldable pub debit : ℕ → ℕ → Payload → Call Step
debit now correlation p = do o ← in_transaction (debit_rows now p); debit_after correlation p o

abbrev release_status :
    ℕ → Payload → Operation → OperationStatus → Tables → Option (Option Operation × Tables)
release_status now p o OperationStatus.reserved t =
    close_with (id_of p) o (unhold now (o.amount +ℤ o.fee_amount))
      (record o {
        status = OperationStatus.released;
        reason_code = p.reason_code;
        updated_at = now;
      })
      t
release_status now p o _ t = some (none, t)

abbrev release_from : ℕ → Payload → Option Operation → Tables → Option (Option Operation × Tables)
release_from now p none t = some (none, t)
release_from now p (some o) t = release_status now p o o.status t

-- The transaction of `release`.
unfoldable pub release_rows : ℕ → Payload → Tables → Option (Option Operation × Tables)
release_rows now p t = release_from now p (of_direction out_going (lookup (id_of p) t.operations)) t

abbrev release_after : ℕ → Payload → Bool → Option Operation → Call Step
release_after correlation p timed_out none = pure Step.skipped
release_after correlation p timed_out (some o) = do
  emit correlation (interbank_released o.transaction_id (id_of p) o.amount o.fee_amount timed_out)
  pure Step.done

-- `timed_out` says whether the event is `interbank.transfer.reversed`.
unfoldable pub release : ℕ → ℕ → Bool → Payload → Call Step
release now correlation timed_out p = do
  o ← in_transaction (release_rows now p)
  release_after correlation p timed_out o
