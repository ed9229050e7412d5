-- ===== src/AccountService/Deposits/Handled.antt =====
-- What the handler of interbank events does to the tables, whatever becomes of its publishes.
use proyecto_sa_b.Prelude.{
  ℕ, Bool, ◌≡◌, true, false, Option, none, some, List, inl, inr, arith, Option-cases, Bool-cases,
  ◌⊎◌,
}
use proyecto_sa_b.AccountService.Rows.{World, Tables, Operation, exists_by}
use proyecto_sa_b.AccountService.Interbank
use proyecto_sa_b.AccountService.Interbank.{
  Payload, reserve_rows, debit_rows, release_rows, debit, release, Reserve,
}
use proyecto_sa_b.AccountService.Interbank.Outgoing.{
  interbank_reserve-IsBalanced, interbank_debit-IsBalanced, interbank_release-IsBalanced,
}
use proyecto_sa_b.AccountService.Deposits.{
  credit, credit_rows, reverse, reverse_rows, InterbankEvent, run_step, handle,
}
use proyecto_sa_b.AccountService.Deposits.Incoming.{credit_rows-IsBalanced, reverse_rows-IsBalanced}
use proyecto_sa_b.AccountService.Saga.Holds.{IsBalanced}

reserve_tables :
    (now correlation : ℕ) (p : Payload) (w : World)
    → (Interbank.reserve now correlation p w).1.tables ≡ (reserve_rows now p w.tables).1
unfolding Interbank.reserve
reserve_tables now correlation p w = ground arith

-- Where the transaction throws, the tables stay; else they are what it leaves.
debit_tables :
    (now correlation : ℕ) (p : Payload) (w : World)
    → (debit_rows now p w.tables ≡ none → (debit now correlation p w).1.tables ≡ w.tables)
      × ((x : Option Operation) (t' : Tables)
          → debit_rows now p w.tables ≡ some (x, t')
          → (debit now correlation p w).1.tables ≡ t')
unfolding debit
debit_tables now correlation p w = (λ e. ground arith, λ x t' e. ground arith)

release_tables :
    (now correlation : ℕ) (late : Bool) (p : Payload) (w : World)
    → (release_rows now p w.tables ≡ none → (release now correlation late p w).1.tables ≡ w.tables)
      × ((x : Option Operation) (t' : Tables)
          → release_rows now p w.tables ≡ some (x, t')
          → (release now correlation late p w).1.tables ≡ t')
unfolding release
release_tables now correlation late p w = (λ e. ground arith, λ x t' e. ground arith)

credit_tables :
    (key : List ℕ → ℕ) (now correlation : ℕ) (p : Payload) (w : World)
    → (credit key now correlation p w).1.tables ≡ (credit_rows key now p w.tables).1
unfolding credit
credit_tables key now correlation p w = ground arith

reverse_tables :
    (now correlation : ℕ) (p : Payload) (w : World)
    → (reverse now correlation p w).1.tables ≡ (reverse_rows now p w.tables).1
unfolding reverse
reverse_tables now correlation p w = ground arith

debit-IsBalanced :
    (now correlation : ℕ) (p : Payload) (w : World)
    → IsBalanced w.tables
    → IsBalanced (debit now correlation p w).1.tables
debit-IsBalanced now correlation p w b = elim (Option-cases (debit_rows now p w.tables)) [
  | inl thrown ↦ rw ((debit_tables now correlation p w).0 thrown) b
  | inr ((x, t'), e) ↦
      rw ((debit_tables now correlation p w).1 x t' e)
        (interbank_debit-IsBalanced now p w.tables t' x b e)
]

release-IsBalanced :
    (now correlation : ℕ) (late : Bool) (p : Payload) (w : World)
    → IsBalanced w.tables
    → IsBalanced (release now correlation late p w).1.tables
release-IsBalanced now correlation late p w b = elim (Option-cases (release_rows now p w.tables)) [
  | inl thrown ↦ rw ((release_tables now correlation late p w).0 thrown) b
  | inr ((x, t'), e) ↦
      rw ((release_tables now correlation late p w).1 x t' e)
        (interbank_release-IsBalanced now p w.tables t' x b e)
]

run_step-IsBalanced :
    (key : List ℕ → ℕ) (now correlation : ℕ) (e : InterbankEvent) (p : Payload) (w : World)
    → IsBalanced w.tables
    → IsBalanced (run_step key now correlation e p w).1.tables
unfolding run_step
run_step-IsBalanced key now correlation InterbankEvent.transfer_requested p w b =
    rw (reserve_tables now correlation p w) (interbank_reserve-IsBalanced now p w.tables b)
run_step-IsBalanced key now correlation InterbankEvent.transfer_accepted p w b =
    debit-IsBalanced now correlation p w b
run_step-IsBalanced key now correlation InterbankEvent.transfer_rejected p w b =
    release-IsBalanced now correlation false p w b
run_step-IsBalanced key now correlation InterbankEvent.transfer_reversed p w b =
    release-IsBalanced now correlation true p w b
run_step-IsBalanced key now correlation InterbankEvent.deposit_requested p w b =
    rw (credit_tables key now correlation p w) (credit_rows-IsBalanced key now p w.tables b)
run_step-IsBalanced key now correlation InterbankEvent.reversal_requested p w b =
    rw (reverse_tables now correlation p w) (reverse_rows-IsBalanced now p w.tables b)
run_step-IsBalanced key now correlation InterbankEvent.unknown p w b = b

handle_tables :
    (key : List ℕ → ℕ) (now id correlation : ℕ) (e : InterbankEvent) (p : Payload) (w : World)
    → ((handle key now id correlation e p w).1.tables ≡ w.tables)
      ⊎ ((handle key now id correlation e p w).1.tables
          ≡ (run_step key now correlation e p w).1.tables)
unfolding handle
handle_tables key now id correlation e p w = elim (Bool-cases (exists_by id w)) [
  | inl known ↦ inl (ground arith)
  | inr new ↦ inr (ground arith)
]

-- Whatever interbank event is handled, new, repeated or late, with the broker up or down, and
-- whether or not the handler throws, books that were balanced are balanced afterwards.
pub interbank_handle-IsBalanced :
    (key : List ℕ → ℕ) (now id correlation : ℕ) (e : InterbankEvent) (p : Payload) (w : World)
    → IsBalanced w.tables
    → IsBalanced (handle key now id correlation e p w).1.tables
interbank_handle-IsBalanced key now id correlation e p w b =
    elim (handle_tables key now id correlation e p w) [
      | inl same ↦ rw same b
      | inr stepped ↦ rw stepped (run_step-IsBalanced key now correlation e p w b)
    ]
