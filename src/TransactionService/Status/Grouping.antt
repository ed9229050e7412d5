-- ===== src/TransactionService/Status/Grouping.antt =====
-- How the six statuses of the saga fall into the three that the contract shows.
use proyecto_sa_b.Prelude.{◌≡◌, ◌↔◌, true, some, arith}
use proyecto_sa_b.TransactionService.Status.{
  TransactionStatus, PublicTransactionStatus, internal_statuses_for, includes, to_public_status,
}

-- A status is shown as exactly the public status whose group lists it, and every status is in a
-- group: no status makes `toPublicStatus` throw.
pub to_public_status_iff :
    (s : TransactionStatus)
    → (p : PublicTransactionStatus) × (to_public_status s ≡ some p)
      × ((q : PublicTransactionStatus)
          → (includes (internal_statuses_for q) s ≡ true) ↔ (to_public_status s ≡ some q))
unfolding to_public_status internal_statuses_for
to_public_status_iff TransactionStatus.pending =
    (PublicTransactionStatus.pending, ground arith, λ q. ground arith)
to_public_status_iff TransactionStatus.processing =
    (PublicTransactionStatus.pending, ground arith, λ q. ground arith)
to_public_status_iff TransactionStatus.compensating =
    (PublicTransactionStatus.pending, ground arith, λ q. ground arith)
to_public_status_iff TransactionStatus.completed =
    (PublicTransactionStatus.approved, ground arith, λ q. ground arith)
to_public_status_iff TransactionStatus.failed =
    (PublicTransactionStatus.failed, ground arith, λ q. ground arith)
to_public_status_iff TransactionStatus.compensated =
    (PublicTransactionStatus.failed, ground arith, λ q. ground arith)
