-- ===== src/AccountService/Saga/Holds.antt =====
-- What the accounts' reserved balances are made of: the holds of the reservations and of the
-- outgoing interbank operations that are still RESERVED.
use proyecto_sa_b.Prelude.{
  ℕ, ◌≡◌, Bool, true, false, Option, none, some, [], ◌∷◌, ◌==◌, ◌&&◌, if◌then◌else◌,
}
use proyecto_sa_b.Prelude.Int.{ℤ, pos, ◌+ℤ◌, ◌≤ℤ◌, int_laws}
use proyecto_sa_b.Prelude.Dict.{Dict, lookup, AllRows, sum_by, sum_by-nonneg, le-sum_by}
use proyecto_sa_b.AccountService.Rows.{
  Account, Reservation, ReservationStatus, Operation, OperationStatus, Direction, out_going, Tables,
}
use proyecto_sa_b.AccountService.Saga.{fee_of}

abbrev pub is_reserved : ReservationStatus → Bool
is_reserved ReservationStatus.reserved = true
is_reserved _ = false

abbrev pub is_outgoing : Direction → Bool
is_outgoing out_going = true
is_outgoing _ = false

abbrev pub is_held : OperationStatus → Bool
is_held OperationStatus.reserved = true
is_held _ = false

abbrev pub is_of : ℕ → Option ℕ → Bool
is_of a none = false
is_of a (some b) = a == b

-- What a reservation holds of the balance of account `a`.
abbrev pub reservation_hold : ℕ → Reservation → ℤ
reservation_hold a r =
    if is_reserved r.status && a == r.source_account then r.amount +ℤ r.fee_amount else pos 0

abbrev pub operation_hold : ℕ → Operation → ℤ
operation_hold a o =
    if is_outgoing o.direction && is_held o.status && is_of a o.account_id
    then o.amount +ℤ o.fee_amount
    else pos 0

abbrev pub held : ℕ → Tables → ℤ
held a t = sum_by (reservation_hold a) t.reservations +ℤ sum_by (operation_hold a) t.operations

-- An amount and a fee are not negative.
abbrev pub IsCharge : ℤ → ℤ → Type 0
IsCharge amount fee = (pos 0 ≤ℤ amount) × (pos 0 ≤ℤ fee)

-- An operation that holds money has a charge. A rejected one may have any amount.
abbrev pub IsHeldCharge : Operation → Type 0
IsHeldCharge o = is_held o.status ≡ true → IsCharge o.amount o.fee_amount

-- An account's reserved balance is `total` and lies within its balance; its minimum and its fee are
-- not negative.
pub record IsBacked (total : ℤ) (a : Account) : Type 0 where
  pub exact : a.reserved_balance ≡ total
  pub covered : a.reserved_balance ≤ℤ a.balance
  pub minimum : pos 0 ≤ℤ a.min_balance
  pub fee : pos 0 ≤ℤ fee_of a

-- The books are balanced: each account's reserved balance is exactly what is held of it and lies
-- within its balance, and no fee, minimum or amount that is held is negative.
pub record IsBalanced (t : Tables) : Type 0 where
  pub accounts : (id : ℕ) (a : Account) → lookup id t.accounts ≡ some a → IsBacked (held id t) a
  pub reservations : AllRows (λ r. IsCharge r.amount r.fee_amount) t.reservations
  pub operations : AllRows IsHeldCharge t.operations

holds_nonneg :
    (a : ℕ) (d : Dict Reservation)
    → AllRows (λ r. IsCharge r.amount r.fee_amount) d
    → AllRows (λ r. pos 0 ≤ℤ reservation_hold a r) d
holds_nonneg a [] h = tt
holds_nonneg a ((k, r) ∷ d) h = (grind int_laws, holds_nonneg a d h.1)

operation_holds_nonneg :
    (a : ℕ) (d : Dict Operation)
    → AllRows IsHeldCharge d
    → AllRows (λ r. pos 0 ≤ℤ operation_hold a r) d
operation_holds_nonneg a [] h = tt
operation_holds_nonneg a ((k, r) ∷ d) h = (grind int_laws, operation_holds_nonneg a d h.1)

-- What one RESERVED reservation holds is part of what is held of its source.
pub hold-le-held :
    (tx : ℕ) (r : Reservation) (t : Tables)
    → IsBalanced t
    → lookup tx t.reservations ≡ some r
    → is_reserved r.status ≡ true
    → r.amount +ℤ r.fee_amount ≤ℤ held r.source_account t
hold-le-held tx r t b e s = grind (
  int_laws,
  le-sum_by (reservation_hold r.source_account) tx r t.reservations
      (holds_nonneg r.source_account t.reservations b.reservations) e,
  sum_by-nonneg (operation_hold r.source_account) t.operations
      (operation_holds_nonneg r.source_account t.operations b.operations),
)

-- So is what one RESERVED outgoing operation holds.
pub operation_hold-le-held :
    (id k : ℕ) (o : Operation) (t : Tables)
    → IsBalanced t
    → lookup id t.operations ≡ some o
    → operation_hold k o ≤ℤ held k t
operation_hold-le-held id k o t b e = grind (
  int_laws,
  le-sum_by (operation_hold k) id o t.operations
      (operation_holds_nonneg k t.operations b.operations) e,
  sum_by-nonneg (reservation_hold k) t.reservations (holds_nonneg k t.reservations b.reservations),
)
