-- ===== src/AccountService/Tests/Interbank.antt =====
-- Interbank transfers and deposits to try the account service on.
use proyecto_sa_b.Prelude.{
  List, zero, suc, ◌≢◌, none, Option, ℕ, ◌≡◌, refl, true, false, some, [], ◌∷◌,
}
use proyecto_sa_b.Prelude.Int.{pos}
use proyecto_sa_b.AccountService.Rows.{Tables}
use proyecto_sa_b.AccountService.Saga.Holds.{IsBalanced}
use proyecto_sa_b.AccountService.Rows.{Operation, OperationStatus, Direction}
use proyecto_sa_b.AccountService.Interbank.{
  Payload, debit_rows, release_rows as interbank_release_rows,
}
use proyecto_sa_b.AccountService.Rules.{check_incoming_deposit, from_external_account}
use proyecto_sa_b.AccountService.Deposits.{
  credit_rows, cancel_deposit, is_cancelled, InterbankEvent, handle as interbank_handle,
}
use proyecto_sa_b.AccountService.Deposits.Handled.{interbank_handle-IsBalanced}
use proyecto_sa_b.AccountService.Deposits.Once.{credit_rows-cancel_deposit}
use proyecto_sa_b.AccountService.Tests.{books, books-IsBalanced, world}

abbrev zeros : ℕ → List ℕ
zeros zero = []
zeros (suc n) = b'0' ∷ zeros n

-- A request of the partner bank for account 2, named by 32 hexadecimal digits.
abbrev payload : Payload
payload = record {
  transaction_id = none;
  interbank_transfer_id = some 80;
  source_account = 1;
  destination_bank_code = none;
  destination_account = zeros 32;
  amount = some (pos 700);
  currency = some true;
  description = none;
  reason_code = none;
  expires_at = some 900;
  origin_bank_code = some 3;
  origin_account = some 4;
  reversal_id = 0;
  original_transfer_id = 0;
}

-- Every name is that of account 2.
abbrev key : List ℕ → ℕ
key name = 2

abbrev outgoing : OperationStatus → Operation
outgoing status = record {
  direction = Direction.out_going;
  account_id = some 1;
  partner_bank_code = some 3;
  amount = pos 600;
  fee_amount = pos 50;
  status = status;
  reason_code = none;
  transaction_id = some 80;
  reversal_id = none;
  created_at = 10;
  updated_at = 10;
}

-- Outgoing transfer 80 is RESERVED.
abbrev sent : Tables
sent = record books { operations = (80, outgoing OperationStatus.reserved) ∷ [] }

abbrev debited : Operation
debited = record (outgoing OperationStatus.reserved) {
  status = OperationStatus.debited;
  updated_at = 20;
}

abbrev left_by : Option (Option Operation × Tables) → Tables
left_by none = books
left_by (some (_, t)) = t

debit_first : debit_rows 20 payload sent ≡ some (some debited, left_by (debit_rows 20 payload sent))
unfolding debit_rows
debit_first = refl

abbrev released_operation : Operation
released_operation = record (outgoing OperationStatus.reserved) {
  status = OperationStatus.released;
  updated_at = 20;
}

release_first :
    interbank_release_rows 20 payload sent
    ≡ some (some released_operation, left_by (interbank_release_rows 20 payload sent))
unfolding interbank_release_rows
release_first = refl

interbank_handle-IsBalanced_example :
    IsBalanced
      (interbank_handle key 20 701 40 InterbankEvent.deposit_requested payload world).1.tables
interbank_handle-IsBalanced_example =
    interbank_handle-IsBalanced key 20 701 40 InterbankEvent.deposit_requested payload world
      books-IsBalanced

cancel_first : (cancel_deposit 20 80 books).0 ≡ is_cancelled
unfolding cancel_deposit
cancel_first = refl

credit_rows-cancel_deposit_example :
    let t' = (cancel_deposit 20 80 books).1 in
    let ((o, fresh), t'') = credit_rows key 30 payload t' in
    (t'' ≡ t')
    × (fresh ≡ false)
    × (o.status ≢ OperationStatus.credited)
    × (o.status ≢ OperationStatus.refunded)
credit_rows-cancel_deposit_example =
    credit_rows-cancel_deposit key 20 30 80 payload books cancel_first refl

credited_first : (credit_rows key 20 payload books).0.0.status ≡ OperationStatus.credited
unfolding credit_rows check_incoming_deposit from_external_account
credited_first = refl
