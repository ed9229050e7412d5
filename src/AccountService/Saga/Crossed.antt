-- ===== src/AccountService/Saga/Crossed.antt =====
-- A reservation that is released after it was completed: the guard of `release` looks at one status.
use proyecto_sa_b.Prelude.{ℕ, ◌≡◌, refl, some, arith, sym, ◌∙◌, ap}
use proyecto_sa_b.Prelude.Int.{ℤ, pos, ◌+ℤ◌, ◌-ℤ◌, ◌≤ℤ◌, int_laws, clamp_of_nonneg}
use proyecto_sa_b.Prelude.Dict.{lookup, lookup-insert_self}
use proyecto_sa_b.AccountService.Rows.{Account, Reservation, ReservationStatus, Tables}
use proyecto_sa_b.AccountService.Saga.{release_rows, set_account, set_reservation, unhold}
use proyecto_sa_b.AccountService.Saga.Holds.{held, IsBalanced}
use proyecto_sa_b.AccountService.Saga.Backed.{held-closed}

release_rows-completed :
    (now tx : ℕ) (r : Reservation) (s : Account) (t : Tables)
    → lookup tx t.reservations ≡ some r
    → r.status ≡ ReservationStatus.completed
    → lookup r.source_account t.accounts ≡ some s
    → release_rows now tx t
      ≡ some (
        some r,
        set_reservation tx
            (record r { status = ReservationStatus.released })
            (set_account r.source_account (unhold now (r.amount +ℤ r.fee_amount) s) t),
      )
unfolding release_rows
release_rows-completed now tx r s t found done source = ground arith

no_drop : (h total x : ℤ) → pos 1 ≤ℤ total → x ≡ h -ℤ total → x ≡ h -ℤ pos 0 → ⊥
no_drop h total x p e f = grind int_laws

-- If the release of a COMPLETED reservation of a positive total reaches an account that other
-- holds still reserve at least that total of, it goes through, and the books, balanced before, are
-- not balanced any more.
pub release_rows-unbalances :
    (now tx : ℕ) (r : Reservation) (s : Account) (t : Tables)
    → IsBalanced t
    → lookup tx t.reservations ≡ some r
    → r.status ≡ ReservationStatus.completed
    → lookup r.source_account t.accounts ≡ some s
    → pos 1 ≤ℤ r.amount +ℤ r.fee_amount
    → r.amount +ℤ r.fee_amount ≤ℤ s.reserved_balance
    → (t' : Tables) × (release_rows now tx t ≡ some (some r, t')) × ¬ IsBalanced t'
release_rows-unbalances now tx r s t b found done source positive reserved = (
  _,
  release_rows-completed now tx r s t found done source,
  λ b'.
      no_drop (held r.source_account t) (r.amount +ℤ r.fee_amount)
        (held r.source_account (
          set_reservation tx (record r { status = ReservationStatus.released })
            (set_account r.source_account (unhold now (r.amount +ℤ r.fee_amount) s) t)))
        positive
        (sym
            (b'.accounts r.source_account _ (
              lookup-insert_self r.source_account (unhold now (r.amount +ℤ r.fee_amount) s)
                t.accounts)).exact
          ∙ (clamp_of_nonneg (s.reserved_balance -ℤ (r.amount +ℤ r.fee_amount)) (omega int_laws)
              ∙ ap (λ x. x -ℤ (r.amount +ℤ r.fee_amount))
                  (b.accounts r.source_account s source).exact))
        (rw done at (held-closed r.source_account tx r ReservationStatus.released t found refl)),
)
