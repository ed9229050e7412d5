-- ===== src/AccountService/Saga/Backed.antt =====
-- Accounts under the updates of the saga, and what is held under those of the reservations.
use proyecto_sa_b.Prelude.{
  ℕ, ◌≡◌, ◌≢◌, refl, sym, ◌∙◌, ap, true, false, none, some, ◌==◌, inl, inr, arith, ==_iff,
}
use mathlib.Core.Path.{subst₂}
use proyecto_sa_b.Prelude.Int.{ℤ, pos, ◌+ℤ◌, ◌-ℤ◌, ◌≤ℤ◌, int_laws, clamp_of_nonneg}
use proyecto_sa_b.Prelude.Dict.{
  Dict, lookup, insert, lookup-insert_cases, sum_by-insert, sum_by-insert_new,
}
use proyecto_sa_b.AccountService.Rows.{Account, Reservation, ReservationStatus, Operation, Tables}
use proyecto_sa_b.AccountService.Saga.{set_reservation, hold, has_funds, pay, receive, unhold}
use proyecto_sa_b.AccountService.Interbank.{set_operation}
use proyecto_sa_b.AccountService.Saga.Holds.{
  reservation_hold, operation_hold, held, is_reserved, IsBacked,
}

pub hold-IsBacked :
    (now : ℕ) (total h : ℤ) (a : Account)
    → IsBacked h a
    → has_funds total a ≡ true
    → IsBacked (h +ℤ total) (hold now total a)
hold-IsBacked now total h a b f = record {
  exact = rw b.exact;
  covered = grind int_laws;
  minimum = b.minimum;
  fee = b.fee;
}

pub pay-IsBacked :
    (now : ℕ) (total h : ℤ) (a : Account)
    → IsBacked h a
    → total ≤ℤ h
    → IsBacked (h -ℤ total) (pay now total a)
pay-IsBacked now total h a b le =
    let kept = clamp_of_nonneg (a.reserved_balance -ℤ total) (rw b.exact (omega int_laws)) in
    record {
      exact = kept ∙ ap (λ x. x -ℤ total) b.exact;
      covered = rw kept (omega (int_laws, b.covered));
      minimum = b.minimum;
      fee = b.fee;
    }

pub unhold-IsBacked :
    (now : ℕ) (total h : ℤ) (a : Account)
    → IsBacked h a
    → pos 0 ≤ℤ total
    → total ≤ℤ h
    → IsBacked (h -ℤ total) (unhold now total a)
unhold-IsBacked now total h a b p le =
    let kept = clamp_of_nonneg (a.reserved_balance -ℤ total) (rw b.exact (omega int_laws)) in
    record {
      exact = kept ∙ ap (λ x. x -ℤ total) b.exact;
      covered = rw kept (omega (int_laws, b.covered));
      minimum = b.minimum;
      fee = b.fee;
    }

pub receive-IsBacked :
    (now : ℕ) (amount h : ℤ) (a : Account)
    → IsBacked h a
    → pos 0 ≤ℤ amount
    → IsBacked h (receive now amount a)
receive-IsBacked now amount h a b p = record {
  exact = b.exact;
  covered = omega (int_laws, b.covered);
  minimum = b.minimum;
  fee = b.fee;
}

pub self_eq : (a : ℕ) → (a == a) ≡ true
self_eq a = (==_iff a a).1 refl

pub ne_test : {a b : ℕ} → a ≢ b → (a == b) ≡ false
ne_test ne = ground arith

pub IsBacked-eq : {h h' : ℤ} {a a' : Account} → h ≡ h' → a ≡ a' → IsBacked h a → IsBacked h' a'
IsBacked-eq p q b = subst₂ IsBacked p q b

less_right : (a o c : ℤ) → a +ℤ o ≡ c +ℤ pos 0 → a ≡ c -ℤ o
less_right a o c e = grind int_laws

add_left : (a b c n : ℤ) → a ≡ b +ℤ n → c +ℤ a ≡ c +ℤ b +ℤ n
add_left a b c n e = grind int_laws

add_both : (a o b n c : ℤ) → a +ℤ o ≡ b +ℤ n → c +ℤ a +ℤ o ≡ c +ℤ b +ℤ n
add_both a o b n c e = grind int_laws

add_right : (a o b n c : ℤ) → a +ℤ o ≡ b +ℤ n → a +ℤ c +ℤ o ≡ b +ℤ c +ℤ n
add_right a o b n c e = grind int_laws

-- A new reservation adds what it holds, and a changed one replaces it.
pub held-set_reservation_new :
    (j tx : ℕ) (r : Reservation) (t : Tables)
    → lookup tx t.reservations ≡ none
    → held j (set_reservation tx r t) ≡ held j t +ℤ reservation_hold j r
held-set_reservation_new j tx r t e =
    grind (int_laws, sum_by-insert_new (reservation_hold j) tx r t.reservations e)

pub held-set_reservation :
    (j tx : ℕ) (r old : Reservation) (t : Tables)
    → lookup tx t.reservations ≡ some old
    → held j (set_reservation tx r t) +ℤ reservation_hold j old ≡ held j t +ℤ reservation_hold j r
held-set_reservation j tx r old t e =
    add_right _ (reservation_hold j old) _ (reservation_hold j r) _
      (sum_by-insert (reservation_hold j) tx r old t.reservations e)

-- A RESERVED reservation that is closed gives back what it held.
pub held-closed :
    (j tx : ℕ) (r : Reservation) (status : ReservationStatus) (t : Tables)
    → lookup tx t.reservations ≡ some r
    → is_reserved status ≡ false
    → held j (set_reservation tx (record r { status = status }) t)
      ≡ held j t -ℤ reservation_hold j r
held-closed j tx r status t found closed =
    less_right _ _ _
      (rw closed at (held-set_reservation j tx (record r { status = status }) r t found))

-- If one account is replaced by a backed one and nothing else changes in what is held of the
-- others, all accounts are backed.
pub set_account-IsBacked :
    (h h' : ℕ → ℤ) (k : ℕ) (s' : Account) (d : Dict Account)
    → ((id : ℕ) (a : Account) → lookup id d ≡ some a → IsBacked (h id) a)
    → IsBacked (h' k) s'
    → ((id : ℕ) → id ≢ k → h id ≡ h' id)
    → (id : ℕ) (a : Account) → lookup id (insert k s' d) ≡ some a
    → IsBacked (h' id) a
set_account-IsBacked h h' k s' d old new same id a e = elim (lookup-insert_cases id k a s' d e) [
  | inl (here, is) ↦ IsBacked-eq (ap h' (sym here)) is new
  | inr (other, found) ↦ IsBacked-eq (same id other) refl (old id a found)
]

-- A new operation adds what it holds, and a changed one replaces it.
pub held-set_operation_new :
    (j id : ℕ) (o : Operation) (t : Tables)
    → lookup id t.operations ≡ none
    → held j (set_operation id o t) ≡ held j t +ℤ operation_hold j o
held-set_operation_new j id o t e =
    add_left _ _ _ _ (sum_by-insert_new (operation_hold j) id o t.operations e)

pub held-set_operation :
    (j id : ℕ) (o old : Operation) (t : Tables)
    → lookup id t.operations ≡ some old
    → held j (set_operation id o t) +ℤ operation_hold j old ≡ held j t +ℤ operation_hold j o
held-set_operation j id o old t e =
    add_both _ _ _ _ _ (sum_by-insert (operation_hold j) id o old t.operations e)
