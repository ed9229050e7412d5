-- ===== src/TransactionService/Entity/Delivery.antt =====
-- The events of an interbank deposit may come late, twice and in any order: what a transaction
-- makes of a whole sequence of them.
use proyecto_sa_b.Prelude.{ℕ, ◌≡◌, refl, String, true, Option, List, [], ◌∷◌, arith, if◌then◌else◌}
use proyecto_sa_b.Prelude.Action.{Result, ok, err}
use proyecto_sa_b.TransactionService.Status.{
  TransactionStatus, InterbankState, is_final_interbank_state, is_stale,
}
use proyecto_sa_b.TransactionService.Entity.{
  Transaction, Failure, mark_as_processing, advance_interbank, settle_interbank, Settlement,
  is_closed,
}

pub data Delivery : Type 0 where
  reserved : Delivery
  advanced : InterbankState → Option String → Delivery
  settled : Settlement → Delivery

abbrev after_mark : Transaction → Result Failure Transaction → Transaction
after_mark t (ok t') = t'
after_mark t (err e) = t

-- What the consumer does to the transaction that the event names.
unfoldable pub deliver : ℕ → Delivery → Transaction → Transaction
unfolding mark_as_processing advance_interbank settle_interbank
deliver now reserved t =
    if is_stale t.status TransactionStatus.processing
    then t
    else after_mark t (mark_as_processing now t)
deliver now (advanced state reason) t = (advance_interbank now state reason t).0
deliver now (settled how) t = (settle_interbank now how t).0

unfoldable pub deliver_all : List (ℕ × Delivery) → Transaction → Transaction
deliver_all [] t = t
deliver_all ((now, d) ∷ ds) t = deliver_all ds (deliver now d t)

-- A closed interbank transaction has a final interbank state.
pub record IsCoherent (t : Transaction) : Type 0 where
  pub final_if_closed :
      is_closed t.status ≡ true → is_final_interbank_state t.interbank_state ≡ true

pub deliver-IsCoherent :
    (now : ℕ) (d : Delivery) (t : Transaction) → IsCoherent t → IsCoherent (deliver now d t)
unfolding deliver
deliver-IsCoherent now reserved t h = ground arith
deliver-IsCoherent now (advanced InterbankState.pending r) t h = ground arith
deliver-IsCoherent now (advanced InterbankState.sent r) t h = ground arith
deliver-IsCoherent now (advanced InterbankState.timeout r) t h = ground arith
deliver-IsCoherent now (advanced InterbankState.accepted r) t h = ground arith
deliver-IsCoherent now (advanced InterbankState.rejected r) t h = ground arith
deliver-IsCoherent now (advanced InterbankState.reversed r) t h = ground arith
deliver-IsCoherent now (settled Settlement.debited) t h = ground arith
deliver-IsCoherent now (settled Settlement.released) t h = ground arith

deliver_closed :
    (now : ℕ) (d : Delivery) (t : Transaction)
    → IsCoherent t
    → is_closed t.status ≡ true
    → deliver now d t ≡ t
unfolding deliver
deliver_closed now reserved t h c = ground arith
deliver_closed now (advanced state r) t h c = ground arith
deliver_closed now (settled how) t h c = ground arith

-- Once a coherent interbank transaction is COMPLETED, COMPENSATED or FAILED, no sequence of
-- reservations, advances and settlements, at any times, changes it in any field.
pub deliver_all-closed :
    (ds : List (ℕ × Delivery)) (t : Transaction)
    → IsCoherent t
    → is_closed t.status ≡ true
    → deliver_all ds t ≡ t
unfolding deliver_all
deliver_all-closed [] t h c = refl
deliver_all-closed ((now, d) ∷ ds) t h c =
    rw (deliver_closed now d t h c) (deliver_all-closed ds t h c)
