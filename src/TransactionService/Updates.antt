-- ===== src/TransactionService/Updates.antt =====
-- The service that moves stored transactions:
-- application/services/update-transaction-state.service.ts of
-- apps/transaction-service/src/transaction. The repository is the table of transactions by id.
use proyecto_sa_b.Prelude.{ℕ, String, Bool, Option, none, some, if◌then◌else◌}
use proyecto_sa_b.Prelude.Dict.{Dict, lookup, insert}
use proyecto_sa_b.Prelude.Action.{Result, ok, err}
use proyecto_sa_b.TransactionService.Status.{TransactionStatus, InterbankState, is_stale}
use proyecto_sa_b.TransactionService.Entity
use proyecto_sa_b.TransactionService.Entity.{Transaction, Failure, not_found, Settlement, touch}

abbrev pub Repository : Type 0
Repository = Dict Transaction

-- `save` writes the whole row.
abbrev pub save : Transaction → Repository → Repository
save t repo = insert t.transaction_id t repo

-- What a method of the entity leaves behind: its exception leaves the table alone.
abbrev pub store : Repository → Result Failure Transaction → Result Failure Transaction × Repository
store repo (ok t) = (ok t, save t repo)
store repo (err e) = (err e, repo)

-- The shape of the five `markAs…`: a stale event returns the transaction as it is.
abbrev pub mark :
    TransactionStatus
    → (Transaction → Result Failure Transaction)
    → Option Transaction
    → Repository
    → Result Failure Transaction × Repository
mark target method none repo = (err not_found, repo)
mark target method (some t) repo =
    if is_stale t.status target then (ok t, repo) else store repo (method t)

unfoldable pub mark_as_processing : ℕ → ℕ → Repository → Result Failure Transaction × Repository
unfolding Entity.mark_as_processing
mark_as_processing now id repo =
    mark TransactionStatus.processing (Entity.mark_as_processing now) (lookup id repo) repo

unfoldable pub mark_as_completed : ℕ → ℕ → Repository → Result Failure Transaction × Repository
unfolding Entity.mark_as_completed
mark_as_completed now id repo =
    mark TransactionStatus.completed (Entity.mark_as_completed now) (lookup id repo) repo

unfoldable pub mark_as_failed :
    ℕ → Option String → ℕ → Repository → Result Failure Transaction × Repository
unfolding Entity.mark_as_failed
mark_as_failed now reason id repo =
    mark TransactionStatus.failed (Entity.mark_as_failed now reason) (lookup id repo) repo

unfoldable pub mark_as_compensating :
    ℕ → Option String → ℕ → Repository → Result Failure Transaction × Repository
unfolding Entity.mark_as_compensating
mark_as_compensating now reason id repo =
    mark TransactionStatus.compensating (Entity.mark_as_compensating now reason) (lookup id repo)
      repo

unfoldable pub mark_as_compensated : ℕ → ℕ → Repository → Result Failure Transaction × Repository
unfolding Entity.mark_as_compensated
mark_as_compensated now id repo =
    mark TransactionStatus.compensated (Entity.mark_as_compensated now) (lookup id repo) repo

-- The transaction is saved if it changed.
abbrev pub keep_change :
    Repository → Transaction × Bool → Result Failure (Transaction × Bool) × Repository
keep_change repo (t, changed) = (ok (t, changed), if changed then save t repo else repo)

abbrev pub move :
    (Transaction → Transaction × Bool)
    → Option Transaction
    → Repository
    → Result Failure (Transaction × Bool) × Repository
move method none repo = (err not_found, repo)
move method (some t) repo = keep_change repo (method t)

unfoldable pub advance_interbank :
    ℕ
    → InterbankState
    → Option String
    → ℕ
    → Repository
    → Result Failure (Transaction × Bool) × Repository
unfolding Entity.advance_interbank
advance_interbank now state reason id repo =
    move (Entity.advance_interbank now state reason) (lookup id repo) repo

unfoldable pub settle_interbank :
    ℕ → Settlement → ℕ → Repository → Result Failure (Transaction × Bool) × Repository
unfolding Entity.settle_interbank
settle_interbank now how id repo = move (Entity.settle_interbank now how) (lookup id repo) repo
