-- ===== src/AccountService/Saga/Closing.antt =====
-- The books under the transactions of `complete` and `release`.
use proyecto_sa_b.Prelude.{ℕ, ◌≡◌, refl, sym, true, Option, some, inl, inr, arith, Option-cases}
use proyecto_sa_b.Prelude.Int.{◌+ℤ◌, ◌-ℤ◌, int_laws, -ℤ_zero}
use proyecto_sa_b.Prelude.Dict.{lookup, insert, lookup-insert_cases, AllRows-insert, AllRows-lookup}
use proyecto_sa_b.AccountService.Rows.{Account, Reservation, ReservationStatus, Tables}
use proyecto_sa_b.AccountService.Saga.{
  set_account, set_reservation, pay, receive, unhold, complete_rows, release_rows,
}
use proyecto_sa_b.AccountService.Saga.Holds.{
  reservation_hold, held, is_reserved, IsBacked, IsBalanced, hold-le-held,
}
use proyecto_sa_b.AccountService.Saga.Backed.{
  pay-IsBacked, unhold-IsBacked, receive-IsBacked, self_eq, ne_test, IsBacked-eq, held-closed,
}

-- A RESERVED reservation that is closed gives back what it held.
module _ (tx : ℕ) (r : Reservation) (t : Tables) (b : IsBalanced t)
    (found : lookup tx t.reservations ≡ some r) (active : is_reserved r.status ≡ true) where
  -- Once the source's account is replaced by one that is backed by what is left.
  source-IsBacked :
      (s' : Account) (id : ℕ) (a : Account)
      → IsBacked (held r.source_account t -ℤ (r.amount +ℤ r.fee_amount)) s'
      → lookup id (insert r.source_account s' t.accounts) ≡ some a
      → IsBacked (held id t -ℤ reservation_hold id r) a
  source-IsBacked s' id a left e =
      elim (lookup-insert_cases id r.source_account a s' t.accounts e) [
        | inl (same, is) ↦ IsBacked-eq (rw (same, active, self_eq r.source_account)) is left
        | inr (other, old) ↦
            IsBacked-eq (rw (active, ne_test other) (-ℤ_zero _)) refl (b.accounts id a old)
      ]

-- What `complete` leaves of an active reservation: the source pays the amount and the fee, the
-- target receives the amount, and the reservation is COMPLETED.
abbrev pub paid_tables : ℕ → ℕ → Reservation → Account → Account → Tables → Tables
paid_tables now tx r s u t =
    set_reservation tx (record r { status = ReservationStatus.completed })
      (set_account r.target_account (receive now r.amount u)
        (set_account r.source_account (pay now (r.amount +ℤ r.fee_amount) s) t))

pub complete_rows-cases :
    (now tx : ℕ) (r : Reservation) (t t' : Tables) (x : Option Reservation)
    → lookup tx t.reservations ≡ some r
    → is_reserved r.status ≡ true
    → complete_rows now tx t ≡ some (x, t')
    → (s u : Account) × (lookup r.source_account t.accounts ≡ some s)
      × (lookup r.target_account
            (insert r.source_account (pay now (r.amount +ℤ r.fee_amount) s) t.accounts)
          ≡ some u)
      × (t' ≡ paid_tables now tx r s u t)
unfolding complete_rows
complete_rows-cases now tx r t t' x found active e =
    elim (Option-cases (lookup r.source_account t.accounts)) [
      | inl missing ↦ absurd (ground arith)
      | inr (s, source) ↦
          elim (Option-cases (
            lookup r.target_account
              (insert r.source_account (pay now (r.amount +ℤ r.fee_amount) s) t.accounts))) [
                | inl missing ↦ absurd (ground arith)
                | inr (u, target) ↦ (s, u, source, target, ground arith)
              ]
    ]

paid_tables-IsBalanced :
    (now tx : ℕ) (r : Reservation) (s u : Account) (t : Tables)
    → IsBalanced t
    → lookup tx t.reservations ≡ some r
    → is_reserved r.status ≡ true
    → lookup r.source_account t.accounts ≡ some s
    → lookup r.target_account
        (insert r.source_account (pay now (r.amount +ℤ r.fee_amount) s) t.accounts)
      ≡ some u
    → IsBalanced (paid_tables now tx r s u t)
paid_tables-IsBalanced now tx r s u t b found active source target =
    let charge = AllRows-lookup _ tx r t.reservations b.reservations found in
    let left =
      pay-IsBacked now (r.amount +ℤ r.fee_amount) _ s (b.accounts r.source_account s source)
        (hold-le-held tx r t b found active) in
    let s' = pay now (r.amount +ℤ r.fee_amount) s in
    let after = λ (id : ℕ). held-closed id tx r ReservationStatus.completed t found refl in
    record {
      accounts = λ id a e.
          elim (lookup-insert_cases id r.target_account a (receive now r.amount u)
            (insert r.source_account s' t.accounts) e) [
              | inl (same, is) ↦ IsBacked-eq (sym (rw same (after r.target_account))) is (
                  receive-IsBacked now r.amount _ u
                    (source-IsBacked tx r t b found active s' r.target_account u left target)
                    charge.0)
              | inr (other, old) ↦
                  IsBacked-eq (sym (after id)) refl
                    (source-IsBacked tx r t b found active s' id a left old)
            ];
      reservations = AllRows-insert _ tx _ t.reservations b.reservations charge;
      operations = b.operations;
    }

-- The payment of a reservation that is still RESERVED keeps the books balanced, also where source
-- and target are one account.
pub complete_rows-IsBalanced :
    (now tx : ℕ) (r : Reservation) (t t' : Tables) (x : Option Reservation)
    → IsBalanced t
    → lookup tx t.reservations ≡ some r
    → is_reserved r.status ≡ true
    → complete_rows now tx t ≡ some (x, t')
    → IsBalanced t'
complete_rows-IsBalanced now tx r t t' x b found active e =
    let (s, u, source, target, is) = complete_rows-cases now tx r t t' x found active e in
    rw is (paid_tables-IsBalanced now tx r s u t b found active source target)

abbrev pub released_tables : ℕ → ℕ → Reservation → Account → Tables → Tables
released_tables now tx r s t =
    set_reservation tx (record r { status = ReservationStatus.released })
      (set_account r.source_account (unhold now (r.amount +ℤ r.fee_amount) s) t)

pub release_rows-cases :
    (now tx : ℕ) (r : Reservation) (t t' : Tables) (x : Option Reservation)
    → lookup tx t.reservations ≡ some r
    → is_reserved r.status ≡ true
    → release_rows now tx t ≡ some (x, t')
    → (s : Account) × (lookup r.source_account t.accounts ≡ some s)
      × (t' ≡ released_tables now tx r s t)
unfolding release_rows
release_rows-cases now tx r t t' x found active e =
    elim (Option-cases (lookup r.source_account t.accounts)) [
      | inl missing ↦ absurd (ground arith)
      | inr (s, source) ↦ (s, source, ground arith)
    ]

-- The release of a reservation that is still RESERVED keeps the books balanced.
pub release_rows-IsBalanced :
    (now tx : ℕ) (r : Reservation) (t t' : Tables) (x : Option Reservation)
    → IsBalanced t
    → lookup tx t.reservations ≡ some r
    → is_reserved r.status ≡ true
    → release_rows now tx t ≡ some (x, t')
    → IsBalanced t'
release_rows-IsBalanced now tx r t t' x b found active e =
    let (s, source, is) = release_rows-cases now tx r t t' x found active e in
    let charge = AllRows-lookup _ tx r t.reservations b.reservations found in
    let left =
      unhold-IsBacked now (r.amount +ℤ r.fee_amount) _ s (b.accounts r.source_account s source)
        (omega (int_laws, charge)) (hold-le-held tx r t b found active) in
    let s' = unhold now (r.amount +ℤ r.fee_amount) s in
    rw is (record {
      accounts = λ id a f.
          IsBacked-eq (sym (held-closed id tx r ReservationStatus.released t found refl)) refl
            (source-IsBacked tx r t b found active s' id a left f);
      reservations = AllRows-insert _ tx _ t.reservations b.reservations charge;
      operations = b.operations;
    })
