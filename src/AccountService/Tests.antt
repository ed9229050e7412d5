-- ===== src/AccountService/Tests.antt =====
-- Accounts and books to try the account service on.
mod Interbank
use proyecto_sa_b.Prelude.{
  List, zero, suc, ◌≢◌, if◌then◌else◌, none, Option, ℕ, ◌≡◌, ◌==◌, inl, inr, refl, sym, true, false,
  some, [], ◌∷◌, arith, is_some, Bool-cases,
}
use proyecto_sa_b.Prelude.Int.{ℤ, pos, ◌+ℤ◌, ◌-ℤ◌, int_laws}
use proyecto_sa_b.Prelude.Dict.{lookup}
use proyecto_sa_b.Prelude.Action.{ok, err}
use proyecto_sa_b.AccountService.Rows.{
  Account, AccountType, AccountStatus, Reservation, ReservationStatus, Tables, World, broker_down,
  exists_by,
}
use proyecto_sa_b.AccountService.Anomaly.{AnomalyConfig, record_operation}
use proyecto_sa_b.AccountService.Saga.{
  Transfer, reserved, hold, reserve_rows, complete_rows, release_rows, transaction_created, handle,
  reserve, check_anomaly,
}
use proyecto_sa_b.AccountService.Saga.Holds.{held, IsBacked, IsBalanced}
use proyecto_sa_b.AccountService.Saga.Backed.{IsBacked-eq}
use proyecto_sa_b.AccountService.Saga.Balanced.{reserve_rows-IsBalanced}
use proyecto_sa_b.AccountService.Saga.Closing.{
  complete_rows-IsBalanced, release_rows-IsBalanced, paid_tables, released_tables,
}
use proyecto_sa_b.AccountService.Saga.Money.{
  balances, balances-reserve_rows, balances-complete_rows, balances-release_rows,
}
use proyecto_sa_b.AccountService.Saga.Crossed.{release_rows-unbalances}
use proyecto_sa_b.AccountService.Saga.Events.{handle_twice, handle-lost}

abbrev account : ℤ → ℤ → Account
account total kept = record {
  customer_id = 5;
  type = AccountType.monetary;
  balance = total;
  reserved_balance = kept;
  min_balance = pos 100;
  fee_amount = some (pos 50);
  status = AccountStatus.active;
  created_at = 0;
  last_activity_at = 0;
}

abbrev reservation : ReservationStatus → Reservation
reservation status = record {
  source_account = 1;
  target_account = 2;
  amount = pos 1000;
  fee_amount = pos 50;
  status = status;
  created_at = 10;
}

-- Account 1 has one hold of 1050, reservation 30; reservation 31 is paid.
abbrev books : Tables
books = record {
  accounts = (1, account (pos 9000) (pos 1050)) ∷ (2, account (pos 400) (pos 0)) ∷ [];
  reservations =
      (30, reservation ReservationStatus.reserved)
      ∷ (31, reservation ReservationStatus.completed)
      ∷ [];
  operations = [];
}

one-IsBacked : (h : ℤ) → h ≡ pos 1050 → IsBacked h (account (pos 9000) (pos 1050))
one-IsBacked h e = record {
  exact = sym e;
  covered = omega int_laws;
  minimum = omega int_laws;
  fee = omega int_laws;
}

two-IsBacked : (h : ℤ) → h ≡ pos 0 → IsBacked h (account (pos 400) (pos 0))
two-IsBacked h e = record {
  exact = sym e;
  covered = omega int_laws;
  minimum = omega int_laws;
  fee = omega int_laws;
}

books_accounts :
    (id : ℕ) (a : Account) → lookup id books.accounts ≡ some a → IsBacked (held id books) a
books_accounts id a e = elim (Bool-cases (id == 1)) [
  | inl one ↦
      IsBacked-eq refl (ground arith) (one-IsBacked (held id books) (rw one (omega int_laws)))
  | inr other ↦ elim (Bool-cases (id == 2)) [
    | inl two ↦
        IsBacked-eq refl (ground arith) (two-IsBacked (held id books) (rw other (omega int_laws)))
    | inr neither ↦ absurd (ground arith)
  ]
]

books-IsBalanced : IsBalanced books
books-IsBalanced = record {
  accounts = books_accounts;
  reservations = ((omega int_laws, omega int_laws), ((omega int_laws, omega int_laws), tt));
  operations = tt;
}

abbrev transfer : Transfer
transfer = record { transaction_id = 32; source_account = 1; target_account = 2; amount = pos 2000 }

reserve_rows-IsBalanced_example : IsBalanced (reserve_rows 20 transfer books).1
reserve_rows-IsBalanced_example =
    reserve_rows-IsBalanced 20 transfer books books-IsBalanced (omega int_laws)

abbrev held_one : Reservation
held_one = reservation ReservationStatus.reserved

abbrev paid : Tables
paid = paid_tables 20 30 held_one (account (pos 9000) (pos 1050)) (account (pos 400) (pos 0)) books

complete_books : complete_rows 20 30 books ≡ some (some held_one, paid)
unfolding complete_rows
complete_books = refl

complete_rows-IsBalanced_example : IsBalanced paid
complete_rows-IsBalanced_example =
    complete_rows-IsBalanced 20 30 held_one books paid (some held_one) books-IsBalanced refl refl
      complete_books

abbrev given_back : Tables
given_back = released_tables 20 30 held_one (account (pos 9000) (pos 1050)) books

release_books : release_rows 20 30 books ≡ some (some held_one, given_back)
unfolding release_rows
release_books = refl

release_rows-IsBalanced_example : IsBalanced given_back
release_rows-IsBalanced_example =
    release_rows-IsBalanced 20 30 held_one books given_back (some held_one) books-IsBalanced refl
      refl release_books

balances-complete_rows_example : balances paid +ℤ pos 50 ≡ balances books
balances-complete_rows_example =
    balances-complete_rows 20 30 held_one books paid (some held_one) refl refl complete_books

release_rows-unbalances_example :
    (t' : Tables) × (release_rows 20 31 books
      ≡ some (some (reservation ReservationStatus.completed), t'))
    × ¬ IsBalanced t'
release_rows-unbalances_example =
    release_rows-unbalances 20 31 (reservation ReservationStatus.completed)
      (account (pos 9000) (pos 1050)) books books-IsBalanced refl refl refl (omega int_laws)
      (omega int_laws)

abbrev limits : AnomalyConfig
limits = record { max_ops = 5; window_ms = 600000 }

abbrev world : World
world = record {
  tables = books;
  processed = [];
  detector = record { hits = []; last_alert = [] };
  published = [];
  broker = true;
}

abbrev handled : World
handled = (handle limits 20 700 40 (transaction_created transfer) world).1

handle_first : handle limits 20 700 40 (transaction_created transfer) world ≡ (ok tt, handled)
unfolding handle reserve reserve_rows ◌-ℤ◌ ◌+ℤ◌ check_anomaly record_operation
handle_first = refl

reserve_taken :
    (reserve_rows 20 transfer books).0
    ≡ reserved (pos 50) (hold 20 (pos 2000 +ℤ pos 50) (account (pos 9000) (pos 1050)))
unfolding reserve_rows ◌-ℤ◌ ◌+ℤ◌
reserve_taken = refl

handle-lost_example :
    let (r, w') =
      handle limits 20 700 40 (transaction_created transfer) (record world { broker = false }) in
    let (r', w'') =
      handle limits 25 700 40 (transaction_created transfer) (record w' { broker = true }) in
    (r ≡ err broker_down)
    × (is_some (lookup 32 w'.tables.reservations) ≡ true)
    × (r' ≡ ok tt)
    × (exists_by 700 w'' ≡ true)
    × (w''.tables ≡ w'.tables)
    × (w''.published ≡ [])
handle-lost_example =
    handle-lost limits limits 20 25 700 40 transfer (pos 50)
      (hold 20 (pos 2000 +ℤ pos 50) (account (pos 9000) (pos 1050)))
      (record world { broker = false }) refl refl reserve_taken
