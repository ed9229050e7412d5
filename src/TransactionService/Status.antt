-- ===== src/TransactionService/Status.antt =====
-- The enums of a transaction: domain/enums/transaction-status.enum.ts, interbank-state.enum.ts and
-- public-transaction-status.enum.ts of apps/transaction-service/src/transaction, and the stages of
-- the saga in application/services/update-transaction-state.service.ts.
pub mod Grouping
use proyecto_sa_b.Prelude.{ℕ, Bool, true, false, Option, none, some, List, [], ◌∷◌}
use proyecto_sa_b.Prelude.{◌==◌, leb, if◌then◌else◌}

pub data TransactionStatus : Type 0 where
  pending processing completed failed compensating compensated : TransactionStatus

pub data InterbankState : Type 0 where
  pending sent timeout accepted rejected reversed : InterbankState

pub data PublicTransactionStatus : Type 0 where
  pending approved failed : PublicTransactionStatus

-- The place of a status in its enum, by which two are compared.
abbrev pub ordinal : TransactionStatus → ℕ
ordinal TransactionStatus.pending = 0
ordinal TransactionStatus.processing = 1
ordinal TransactionStatus.completed = 2
ordinal TransactionStatus.failed = 3
ordinal TransactionStatus.compensating = 4
ordinal TransactionStatus.compensated = 5

abbrev pub is_status : TransactionStatus → TransactionStatus → Bool
is_status a b = ordinal a == ordinal b

-- `INTERBANK_STAGE`
abbrev pub interbank_stage : InterbankState → ℕ
interbank_stage InterbankState.pending = 0
interbank_stage InterbankState.sent = 1
interbank_stage InterbankState.timeout = 2
interbank_stage InterbankState.accepted = 3
interbank_stage InterbankState.rejected = 3
interbank_stage InterbankState.reversed = 3

abbrev pub is_final_interbank_state : Option InterbankState → Bool
is_final_interbank_state none = false
is_final_interbank_state (some state) = interbank_stage state == 3

-- `SAGA_STAGE`
abbrev pub saga_stage : TransactionStatus → ℕ
saga_stage TransactionStatus.pending = 0
saga_stage TransactionStatus.processing = 1
saga_stage TransactionStatus.compensating = 2
saga_stage TransactionStatus.completed = 3
saga_stage TransactionStatus.failed = 3
saga_stage TransactionStatus.compensated = 3

abbrev pub is_stale : TransactionStatus → TransactionStatus → Bool
is_stale current target = leb (saga_stage target) (saga_stage current)

-- `INTERNAL_BY_PUBLIC`
unfoldable pub internal_statuses_for : PublicTransactionStatus → List TransactionStatus
internal_statuses_for PublicTransactionStatus.pending =
    TransactionStatus.pending ∷ TransactionStatus.processing ∷ TransactionStatus.compensating ∷ []
internal_statuses_for PublicTransactionStatus.approved = TransactionStatus.completed ∷ []
internal_statuses_for PublicTransactionStatus.failed =
    TransactionStatus.failed ∷ TransactionStatus.compensated ∷ []

abbrev pub includes : List TransactionStatus → TransactionStatus → Bool
includes [] s = false
includes (t ∷ ts) s = if is_status t s then true else includes ts s

-- The first entry of the table that lists the status; `none` where the source throws.
abbrev find_entry :
    List PublicTransactionStatus → TransactionStatus → Option PublicTransactionStatus
find_entry [] s = none
find_entry (p ∷ ps) s = if includes (internal_statuses_for p) s then some p else find_entry ps s

unfoldable pub to_public_status : TransactionStatus → Option PublicTransactionStatus
unfolding internal_statuses_for
to_public_status = find_entry (
    PublicTransactionStatus.pending ∷ PublicTransactionStatus.approved
    ∷ PublicTransactionStatus.failed ∷ [])
