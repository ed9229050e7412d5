-- ===== src/TransactionService/Entity/Outcomes.antt =====
-- Where an outgoing interbank deposit ends, whatever the order of its events.
use proyecto_sa_b.Prelude.{ℕ, ◌≡◌, ◌≢◌, Bool, true, false, some, List, [], ◌∷◌, arith, All}
use proyecto_sa_b.TransactionService.Status.{
  TransactionStatus, InterbankState, PublicTransactionStatus, to_public_status,
  is_final_interbank_state,
}
use proyecto_sa_b.TransactionService.Entity.{Transaction, Settlement, is_closed}
use proyecto_sa_b.TransactionService.Entity.Delivery.{
  Delivery, reserved, advanced, settled, deliver, deliver_all, IsCoherent, deliver-IsCoherent,
  deliver_all-closed,
}

-- What Account and Payment send of a deposit that the partner bank accepts.
abbrev pub IsOfAccepted : ℕ × Delivery → Type 0
IsOfAccepted (_, reserved) = Unit {0}
IsOfAccepted (_, advanced InterbankState.sent _) = Unit {0}
IsOfAccepted (_, advanced InterbankState.timeout _) = Unit {0}
IsOfAccepted (_, advanced InterbankState.accepted _) = Unit {0}
IsOfAccepted (_, settled Settlement.debited) = Unit {0}
IsOfAccepted _ = ⊥

-- What they send of one that is rejected or reversed.
abbrev pub IsOfRefused : ℕ × Delivery → Type 0
IsOfRefused (_, reserved) = Unit {0}
IsOfRefused (_, advanced InterbankState.sent _) = Unit {0}
IsOfRefused (_, advanced InterbankState.timeout _) = Unit {0}
IsOfRefused (_, advanced InterbankState.rejected _) = Unit {0}
IsOfRefused (_, advanced InterbankState.reversed _) = Unit {0}
IsOfRefused (_, settled Settlement.released) = Unit {0}
IsOfRefused _ = ⊥

-- Account's last word, the debit or the release, is among the events.
abbrev pub has_settlement : List (ℕ × Delivery) → Bool
has_settlement [] = false
has_settlement ((_, settled _) ∷ ds) = true
has_settlement (_ ∷ ds) = has_settlement ds

-- The states that such a transaction passes through.
record AcceptedPath (t : Transaction) : Type 0 where
  coherent : IsCoherent t
  not_rejected : t.interbank_state ≢ some InterbankState.rejected
  not_reversed : t.interbank_state ≢ some InterbankState.reversed
  not_failed : t.status ≢ TransactionStatus.failed
  not_compensated : t.status ≢ TransactionStatus.compensated

deliver-AcceptedPath :
    (d : ℕ × Delivery) (t : Transaction)
    → IsOfAccepted d
    → AcceptedPath t
    → AcceptedPath (deliver d.0 d.1 t)
unfolding deliver
deliver-AcceptedPath (now, reserved) t o h = ground arith
deliver-AcceptedPath (now, advanced InterbankState.sent r) t o h = ground arith
deliver-AcceptedPath (now, advanced InterbankState.timeout r) t o h = ground arith
deliver-AcceptedPath (now, advanced InterbankState.accepted r) t o h = ground arith
deliver-AcceptedPath (now, settled Settlement.debited) t o h = ground arith
deliver-AcceptedPath (now, advanced InterbankState.pending r) t o h = elim o [ ]
deliver-AcceptedPath (now, advanced InterbankState.rejected r) t o h = elim o [ ]
deliver-AcceptedPath (now, advanced InterbankState.reversed r) t o h = elim o [ ]
deliver-AcceptedPath (now, settled Settlement.released) t o h = elim o [ ]

abbrev Ended : Transaction → Type 0
Ended t =
    (t.status ≡ TransactionStatus.completed) × (t.interbank_state ≡ some InterbankState.accepted)

AcceptedPath-Ended : (t : Transaction) → AcceptedPath t → is_closed t.status ≡ true → Ended t
AcceptedPath-Ended t h c = ground arith

settled_closes :
    (now : ℕ) (how : Settlement) (t : Transaction)
    → is_closed (deliver now (settled how) t).status ≡ true
unfolding deliver
settled_closes now Settlement.debited t = ground arith
settled_closes now Settlement.released t = ground arith

-- After a settlement the rest of the events does nothing.
deliver_all-settled :
    (now : ℕ) (how : Settlement) (ds : List (ℕ × Delivery)) (t : Transaction)
    → IsCoherent t
    → deliver_all ((now, settled how) ∷ ds) t ≡ deliver now (settled how) t
unfolding deliver_all
deliver_all-settled now how ds t h =
    deliver_all-closed ds _ (deliver-IsCoherent now (settled how) t h) (settled_closes now how t)

Ended-deliver_all :
    (ds : List (ℕ × Delivery)) (t : Transaction)
    → AcceptedPath t
    → All IsOfAccepted ds
    → has_settlement ds ≡ true
    → Ended (deliver_all ds t)
unfolding deliver_all
Ended-deliver_all [] t h o s = cc
Ended-deliver_all ((now, reserved) ∷ ds) t h o s =
    Ended-deliver_all ds _ (deliver-AcceptedPath (now, reserved) t o.0 h) o.1 s
Ended-deliver_all ((now, advanced state r) ∷ ds) t h o s =
    Ended-deliver_all ds _ (deliver-AcceptedPath (now, advanced state r) t o.0 h) o.1 s
Ended-deliver_all ((now, settled how) ∷ ds) t h o s =
    rw (deliver_all-settled now how ds t h.coherent) (
      AcceptedPath-Ended _ (deliver-AcceptedPath (now, settled how) t o.0 h)
        (settled_closes now how t))

-- A pending interbank transaction to which the events of an accepted deposit are delivered, late,
-- repeated or in any order, but the debit among them, ends COMPLETED and ACCEPTED.
pub accepted_ends :
    (ds : List (ℕ × Delivery)) (t : Transaction)
    → t.status ≡ TransactionStatus.pending
    → t.interbank_state ≡ some InterbankState.pending
    → All IsOfAccepted ds
    → has_settlement ds ≡ true
    → let t' = deliver_all ds t in
      (t'.status ≡ TransactionStatus.completed)
      × (t'.interbank_state ≡ some InterbankState.accepted)
accepted_ends ds t p i o s = Ended-deliver_all ds t (ground arith) o s

record RefusedPath (t : Transaction) : Type 0 where
  coherent : IsCoherent t
  not_completed : t.status ≢ TransactionStatus.completed

deliver-RefusedPath :
    (d : ℕ × Delivery) (t : Transaction)
    → IsOfRefused d
    → RefusedPath t
    → RefusedPath (deliver d.0 d.1 t)
unfolding deliver
deliver-RefusedPath (now, reserved) t o h = ground arith
deliver-RefusedPath (now, advanced InterbankState.sent r) t o h = ground arith
deliver-RefusedPath (now, advanced InterbankState.timeout r) t o h = ground arith
deliver-RefusedPath (now, advanced InterbankState.rejected r) t o h = ground arith
deliver-RefusedPath (now, advanced InterbankState.reversed r) t o h = ground arith
deliver-RefusedPath (now, settled Settlement.released) t o h = ground arith
deliver-RefusedPath (now, advanced InterbankState.pending r) t o h = elim o [ ]
deliver-RefusedPath (now, advanced InterbankState.accepted r) t o h = elim o [ ]
deliver-RefusedPath (now, settled Settlement.debited) t o h = elim o [ ]

abbrev Refused : Transaction → Type 0
Refused t =
    (to_public_status t.status ≡ some PublicTransactionStatus.failed)
    × (is_final_interbank_state t.interbank_state ≡ true)

RefusedPath-Refused : (t : Transaction) → RefusedPath t → is_closed t.status ≡ true → Refused t
unfolding to_public_status
RefusedPath-Refused t h c = ground arith

Refused-deliver_all :
    (ds : List (ℕ × Delivery)) (t : Transaction)
    → RefusedPath t
    → All IsOfRefused ds
    → has_settlement ds ≡ true
    → Refused (deliver_all ds t)
unfolding deliver_all
Refused-deliver_all [] t h o s = cc
Refused-deliver_all ((now, reserved) ∷ ds) t h o s =
    Refused-deliver_all ds _ (deliver-RefusedPath (now, reserved) t o.0 h) o.1 s
Refused-deliver_all ((now, advanced state r) ∷ ds) t h o s =
    Refused-deliver_all ds _ (deliver-RefusedPath (now, advanced state r) t o.0 h) o.1 s
Refused-deliver_all ((now, settled how) ∷ ds) t h o s =
    rw (deliver_all-settled now how ds t h.coherent) (
      RefusedPath-Refused _ (deliver-RefusedPath (now, settled how) t o.0 h)
        (settled_closes now how t))

-- A pending interbank transaction to which the events of a rejected or reversed deposit are
-- delivered, late, repeated or in any order, but the release among them, ends with a final
-- interbank state and is shown as FAILED.
pub refused_ends :
    (ds : List (ℕ × Delivery)) (t : Transaction)
    → t.status ≡ TransactionStatus.pending
    → t.interbank_state ≡ some InterbankState.pending
    → All IsOfRefused ds
    → has_settlement ds ≡ true
    → let t' = deliver_all ds t in
      (to_public_status t'.status ≡ some PublicTransactionStatus.failed)
      × (is_final_interbank_state t'.interbank_state ≡ true)
refused_ends ds t p i o s = Refused-deliver_all ds t (ground arith) o s
