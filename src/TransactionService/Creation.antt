-- ===== src/TransactionService/Creation.antt =====
-- How a transaction enters the table, and the projection of the customers' KYC status:
-- application/services/create-transaction.service.ts and customer-kyc.service.ts of
-- apps/transaction-service/src/transaction. `fresh` is the id that `randomUUID` gives.
pub mod Correlation
pub mod Rows
pub mod Retried
pub mod Kyc
use text.Mathlib.Text.{◌==◌ as str_eq}
use proyecto_sa_b.Prelude.{
  ℕ, String, Bool, true, false, Option, none, some, ◌∷◌, [], ◌==◌, leb, get_or, if◌then◌else◌,
}
use proyecto_sa_b.Prelude.Int.{ℤ}
use proyecto_sa_b.Prelude.Dict.{Dict, lookup, insert}
use proyecto_sa_b.Prelude.Action.{
  Result, ok, err, pure, gets, raise_if, or_raise, ◌>>=◌, ◌>>◌, modify,
}
use proyecto_sa_b.TransactionService.Status.{TransactionStatus, InterbankState}
use proyecto_sa_b.TransactionService.Entity.{
  Transaction, Failure, bad_amount, customer_id_required, invalid_kyc_status, check_transaction,
}
use proyecto_sa_b.TransactionService.Updates.{Repository, save}
use proyecto_sa_b.TransactionService.World.{
  KycStatus, CustomerKycStatus, World, Call, on_repository,
}

abbrev pub find_by_correlation_id : ℕ → Repository → Option Transaction
find_by_correlation_id c [] = none
find_by_correlation_id c ((_, t) ∷ repo) =
    if t.correlation_id == c then some t else find_by_correlation_id c repo

-- `new Transaction(…)` and `save`.
abbrev save_new : Transaction → Repository → Result Failure Transaction × Repository
save_new t repo = elim (check_transaction t) [ some e ↦ (err e, repo) | none ↦ (ok t, save t repo) ]

pub record CreateTransactionCommand : Type 0 where
  pub source_account : String
  pub target_account : String
  pub amount : ℤ
  pub correlation_id : ℕ
  pub destination_bank_code : Option String

unfoldable pub new_transaction : ℕ → ℕ → CreateTransactionCommand → Transaction
new_transaction fresh now c = record {
  transaction_id = fresh;
  source_account = c.source_account;
  target_account = c.target_account;
  amount = c.amount;
  status = TransactionStatus.pending;
  correlation_id = c.correlation_id;
  created_at = now;
  updated_at = now;
  failure_reason = none;
  destination_bank_code = c.destination_bank_code;
  interbank_state = elim c.destination_bank_code [
    | none ↦ none
    | some code ↦ if str_eq code "" then none else some InterbankState.pending
  ];
  origin_bank_code = none;
}

unfoldable pub execute :
    ℕ → ℕ → CreateTransactionCommand → Repository → Result Failure Transaction × Repository
unfolding new_transaction check_transaction
execute fresh now c repo = elim (find_by_correlation_id c.correlation_id repo) [
  | some t ↦ (ok t, repo)
  | none ↦ save_new (new_transaction fresh now c) repo
]

abbrev created :
    Result Failure Transaction × Repository → Result Failure (Transaction × Bool) × Repository
created (ok t, repo) = (ok (t, true), repo)
created (err e, repo) = (err e, repo)

pub record RecordIncomingInterbankCommand : Type 0 where
  pub origin_bank_code : Option String
  pub origin_account : Option String
  pub account_id : String
  pub amount : ℤ
  pub correlation_id : ℕ

-- `a || d`
abbrev or_else : Option String → String → String
or_else none d = d
or_else (some a) d = if str_eq a "" then d else a

unfoldable pub incoming_transaction : ℕ → ℕ → RecordIncomingInterbankCommand → Transaction
incoming_transaction fresh now c = record {
  transaction_id = fresh;
  source_account = or_else c.origin_account (get_or c.origin_bank_code "EXTERNAL");
  target_account = c.account_id;
  amount = c.amount;
  status = TransactionStatus.completed;
  correlation_id = c.correlation_id;
  created_at = now;
  updated_at = now;
  failure_reason = none;
  destination_bank_code = none;
  interbank_state = some InterbankState.accepted;
  origin_bank_code = some (get_or c.origin_bank_code "EXTERNAL");
}

unfoldable pub record_incoming_interbank :
    ℕ
    → ℕ
    → RecordIncomingInterbankCommand
    → Repository
    → Result Failure (Transaction × Bool) × Repository
unfolding incoming_transaction check_transaction
record_incoming_interbank fresh now c repo = elim (find_by_correlation_id c.correlation_id repo) [
  | some t ↦ (ok (t, false), repo)
  | none ↦ created (save_new (incoming_transaction fresh now c) repo)
]

abbrev is_older : ℕ → Option CustomerKycStatus → Bool
is_older changed_at none = true
is_older changed_at (some current) = if leb changed_at current.updated_at then false else true

-- A status that is not one of the three is `none`. A change not newer than the stored one is
-- ignored.
unfoldable pub apply_status_change :
    ℕ → Option KycStatus → ℕ → Dict CustomerKycStatus → Result Failure Bool × Dict CustomerKycStatus
apply_status_change customer none changed_at table =
    (err (if customer == 0 then customer_id_required else invalid_kyc_status), table)
apply_status_change customer (some status) changed_at table =
    if customer == 0
    then (err customer_id_required, table)
    else if is_older changed_at (lookup customer table)
    then (ok true, insert customer (record { status = status; updated_at = changed_at }) table)
    else (ok false, table)

abbrev says_verified : KycStatus → Bool
says_verified KycStatus.verified = true
says_verified _ = false

abbrev is_verified_status : Option CustomerKycStatus → Bool
is_verified_status none = false
is_verified_status (some current) = says_verified current.status

unfoldable pub is_verified : ℕ → Dict CustomerKycStatus → Bool
is_verified customer table =
    if customer == 0 then false else is_verified_status (lookup customer table)
