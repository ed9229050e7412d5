-- ===== src/AccountService/Saga/Balanced.antt =====
-- The books under the transaction of `reserve`.
use proyecto_sa_b.Prelude.{
  ℕ, ◌≡◌, refl, sym, true, none, some, ◌⊎◌, inl, inr, arith, Bool-cases, Option-cases,
}
use proyecto_sa_b.Prelude.Int.{ℤ, pos, ◌+ℤ◌, ◌≤ℤ◌, +ℤ_zero}
use proyecto_sa_b.Prelude.Dict.{lookup, lookup-insert_cases, AllRows-insert}
use proyecto_sa_b.AccountService.Rows.{Account, Reservation, ReservationStatus, Tables}
use proyecto_sa_b.AccountService.Saga.{
  fee_of, set_account, set_reservation, Transfer, reserved, hold, has_funds, reserve_rows,
  both_active,
}
use proyecto_sa_b.AccountService.Saga.Holds.{IsBalanced}
use proyecto_sa_b.AccountService.Saga.Backed.{
  hold-IsBacked, self_eq, ne_test, IsBacked-eq, held-set_reservation_new,
}

-- The row that `reserve` writes.
abbrev pub reservation_of : ℕ → Transfer → ℤ → Reservation
reservation_of now p fee = record {
  source_account = p.source_account;
  target_account = p.target_account;
  amount = p.amount;
  fee_amount = fee;
  status = ReservationStatus.reserved;
  created_at = now;
}

abbrev pub reserved_tables : ℕ → Transfer → Account → Tables → Tables
reserved_tables now p s t =
    set_reservation p.transaction_id (reservation_of now p (fee_of s))
      (set_account p.source_account (hold now (p.amount +ℤ fee_of s) s) t)

-- `reserve` either leaves the tables alone, or it found a source with the funds and no earlier
-- reservation, and wrote both rows.
pub reserve_rows-cases :
    (now : ℕ) (p : Transfer) (t : Tables)
    → ((reserve_rows now p t).1 ≡ t)
      ⊎ ((s : Account) × (reserve_rows now p t
            ≡ (reserved (fee_of s) (hold now (p.amount +ℤ fee_of s) s), reserved_tables now p s t))
          × (lookup p.transaction_id t.reservations ≡ none)
          × (lookup p.source_account t.accounts ≡ some s)
          × (has_funds (p.amount +ℤ fee_of s) s ≡ true))
unfolding reserve_rows
reserve_rows-cases now p t = elim (Option-cases (lookup p.transaction_id t.reservations)) [
  | inr (r, old) ↦ inl (ground arith)
  | inl new ↦ elim (Option-cases (lookup p.source_account t.accounts)) [
    | inl missing ↦ inl (ground arith)
    | inr (s, found) ↦
        elim (Bool-cases (both_active (some s) (lookup p.target_account t.accounts))) [
          | inl act ↦ elim (Bool-cases (has_funds (p.amount +ℤ fee_of s) s)) [
            | inl funds ↦ inr (s, ground arith, new, found, funds)
            | inr short ↦ inl (ground arith)
          ]
          | inr inact ↦ inl (ground arith)
        ]
  ]
]

-- A reservation that is taken keeps the books balanced.
reserved_tables-IsBalanced :
    (now : ℕ) (p : Transfer) (s : Account) (t : Tables)
    → IsBalanced t
    → pos 0 ≤ℤ p.amount
    → lookup p.transaction_id t.reservations ≡ none
    → lookup p.source_account t.accounts ≡ some s
    → has_funds (p.amount +ℤ fee_of s) s ≡ true
    → IsBalanced (reserved_tables now p s t)
reserved_tables-IsBalanced now p s t b pos_amount new found funds = record {
  accounts = λ id a e. elim (lookup-insert_cases id p.source_account a _ t.accounts e) [
    | inl (same, is) ↦
        IsBacked-eq
          (sym (
            rw (
              same,
              held-set_reservation_new p.source_account p.transaction_id
                  (reservation_of now p (fee_of s))
                  (set_account p.source_account (hold now (p.amount +ℤ fee_of s) s) t) new,
              self_eq p.source_account,
            )))
          is
          (hold-IsBacked now (p.amount +ℤ fee_of s) _ s (b.accounts p.source_account s found) funds)
    | inr (other, old) ↦
        IsBacked-eq
          (sym (
            rw
              (
                held-set_reservation_new id p.transaction_id (reservation_of now p (fee_of s))
                    (set_account p.source_account (hold now (p.amount +ℤ fee_of s) s) t) new,
                ne_test other,
              )
              (sym (+ℤ_zero _))))
          refl (b.accounts id a old)
  ];
  reservations =
      AllRows-insert _ p.transaction_id _ t.reservations b.reservations
        (pos_amount, (b.accounts p.source_account s found).fee);
  operations = b.operations;
}

-- For an amount that is not negative `reserve` keeps balanced books balanced, whatever it decides.
pub reserve_rows-IsBalanced :
    (now : ℕ) (p : Transfer) (t : Tables)
    → IsBalanced t
    → pos 0 ≤ℤ p.amount
    → IsBalanced (reserve_rows now p t).1
reserve_rows-IsBalanced now p t b pos_amount = elim (reserve_rows-cases now p t) [
  | inl same ↦ rw same b
  | inr (s, e, new, found, funds) ↦
      rw e (reserved_tables-IsBalanced now p s t b pos_amount new found funds)
]
