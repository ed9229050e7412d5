-- ===== src/AccountService/Deposits/Incoming.antt =====
-- The books under the credit, the cancellation and the reversal of an incoming deposit.
use proyecto_sa_b.Prelude.{
  ℕ, ◌≡◌, refl, sym, true, false, Option, none, some, List, inl, inr, arith, Option-cases,
  Bool-cases, Bool, not, ◌&&◌, ◌⊎◌, get_or,
}
use proyecto_sa_b.Prelude.Int.{ℤ, pos, ◌≤ℤ◌, int_laws, -ℤ_zero}
use proyecto_sa_b.Prelude.Dict.{lookup}
use proyecto_sa_b.AccountService.Rows.{Account, Operation, OperationStatus, Tables}
use proyecto_sa_b.AccountService.Rules.{DepositFacts, check_incoming_deposit}
use proyecto_sa_b.AccountService.Saga.{set_account, receive}
use proyecto_sa_b.AccountService.Interbank.{Payload, amount_of, set_operation}
use proyecto_sa_b.AccountService.Deposits.{
  named_account, find_account, incoming_operation, credit_rows, cancel_deposit, refund, covers,
  refunded_operation, reverse_rows,
}
use proyecto_sa_b.AccountService.Saga.Holds.{is_held, is_outgoing, held, IsBacked, IsBalanced}
use proyecto_sa_b.AccountService.Saga.Backed.{IsBacked-eq, receive-IsBacked, set_account-IsBacked}
use proyecto_sa_b.AccountService.Interbank.Books.{
  operation_hold_closed, set_operation-IsBalanced, close-IsBalanced,
}

-- The facts that `credit` checks.
abbrev pub facts : ℕ → Payload → Option Account → DepositFacts
facts now p account = record {
  now = now;
  expires_at = p.expires_at;
  amount = p.amount;
  currency = p.currency;
  account = account;
}

check_incoming_deposit_sound :
    (now : ℕ) (p : Payload) (account : Option Account)
    → check_incoming_deposit (facts now p account) ≡ none
    → (pos 0 ≤ℤ amount_of p) × ((a : Account) × (account ≡ some a))
unfolding check_incoming_deposit
check_incoming_deposit_sound now p none e = absurd (ground arith)
check_incoming_deposit_sound now p (some a) e = (grind int_laws, (a, refl))

abbrev pub id_of_deposit : Payload → ℕ
id_of_deposit p = get_or p.interbank_transfer_id 0

abbrev pub credited_tables : ℕ → Payload → ℕ → Account → Tables → Tables
credited_tables now p k a t =
    set_account k (receive now (amount_of p) a)
      (set_operation (id_of_deposit p) (incoming_operation now p (some k) none) t)

-- What `credit` leaves: the tables as they were, a rejected operation, or a credited one.
pub credit_rows_cases :
    (key : List ℕ → ℕ) (now : ℕ) (p : Payload) (t : Tables)
    → ((o : Operation) × (credit_rows key now p t ≡ ((o, false), t))
        × (lookup (id_of_deposit p) t.operations ≡ some o))
      ⊎ ((lookup (id_of_deposit p) t.operations ≡ none)
          × (((o : Operation) × (o.status ≡ OperationStatus.rejected)
                × (credit_rows key now p t ≡ ((o, true), set_operation (id_of_deposit p) o t)))
              ⊎ ((k : ℕ) × (a : Account) × (lookup k t.accounts ≡ some a)
                  × (check_incoming_deposit (facts now p (some a)) ≡ none)
                  × (credit_rows key now p t ≡ (
                    (incoming_operation now p (some k) none, true),
                    credited_tables now p k a t,
                  )))))
unfolding credit_rows
credit_rows_cases key now p t = elim (Option-cases (lookup (id_of_deposit p) t.operations)) [
  | inr (o, old) ↦ inl (o, ground arith, old)
  | inl new ↦ inr (
    new,
    elim (Option-cases
        (check_incoming_deposit (facts now p (find_account (named_account key p) t)))) [
          | inr (reason, refused) ↦
              inl (incoming_operation now p (named_account key p) (some reason), refl, ground arith)
          | inl passed ↦
              let (_, (a, found)) = check_incoming_deposit_sound now p _ passed in
              elim (Option-cases (named_account key p)) [
                | inl nobody ↦ absurd (ground arith)
                | inr (k, named) ↦ inr (k, a, ground arith, rw found at passed, ground arith)
              ]
        ],
  )
]

-- Whatever it decides, the credit of an incoming deposit keeps the books balanced.
pub credit_rows-IsBalanced :
    (key : List ℕ → ℕ) (now : ℕ) (p : Payload) (t : Tables)
    → IsBalanced t
    → IsBalanced (credit_rows key now p t).1
credit_rows-IsBalanced key now p t b = elim (credit_rows_cases key now p t) [
  | inl (o, same, old) ↦ rw same b
  | inr (new, inl (o, closed, is)) ↦
      rw is (set_operation-IsBalanced (id_of_deposit p) o t b new (rw closed))
  | inr (new, inr (k, a, found, passed, is)) ↦
      let b' =
        set_operation-IsBalanced (id_of_deposit p) (incoming_operation now p (some k) none) t b new
          refl in
      rw is (record {
        accounts =
            set_account-IsBacked
              (λ j.
                held j (set_operation (id_of_deposit p) (incoming_operation now p (some k) none) t))
              (λ j.
                held j (set_operation (id_of_deposit p) (incoming_operation now p (some k) none) t))
              k _ t.accounts b'.accounts
              (receive-IsBacked now (amount_of p) _ a (b'.accounts k a found)
                (check_incoming_deposit_sound now p (some a) passed).0)
              (λ j other. refl);
        reservations = b'.reservations;
        operations = b'.operations;
      })
]

-- So does its cancellation.
pub cancel_deposit-IsBalanced :
    (now id : ℕ) (t : Tables) → IsBalanced t → IsBalanced (cancel_deposit now id t).1
unfolding cancel_deposit
cancel_deposit-IsBalanced now id t b = elim (Option-cases (lookup id t.operations)) [
  | inr (o, old) ↦ rw (old, cancel_deposit) b
  | inl new ↦ rw (new, cancel_deposit) (set_operation-IsBalanced id _ t b new refl)
]

abbrev is_credited : OperationStatus → Bool
is_credited OperationStatus.credited = true
is_credited _ = false

abbrev is_credited_in : Operation → Bool
is_credited_in o = not (is_outgoing o.direction) && is_credited o.status

refund-IsBacked :
    (now : ℕ) (amount h : ℤ) (a : Account)
    → IsBacked h a
    → covers amount a ≡ true
    → IsBacked h (refund now amount a)
refund-IsBacked now amount h a b f = record {
  exact = b.exact;
  covered = grind int_laws;
  minimum = b.minimum;
  fee = b.fee;
}

reverse_rows_cases :
    (now : ℕ) (p : Payload) (t : Tables)
    → ((reverse_rows now p t).1 ≡ t)
      ⊎ ((o : Operation) × (k : ℕ) × (a : Account) × (lookup p.original_transfer_id t.operations
            ≡ some o)
          × (is_held o.status ≡ false)
          × (o.account_id ≡ some k)
          × (lookup k t.accounts ≡ some a)
          × (covers o.amount a ≡ true)
          × ((reverse_rows now p t).1
              ≡ set_operation p.original_transfer_id
                  (refunded_operation now p o)
                  (set_account k (refund now o.amount a) t)))
unfolding reverse_rows
reverse_rows_cases now p t = elim (Option-cases (lookup p.original_transfer_id t.operations)) [
  | inl missing ↦ inl (ground arith)
  | inr (o, found) ↦ elim (Option-cases o.account_id) [
    | inl nobody ↦ inl (ground arith)
    | inr (k, of_k) ↦ elim (Option-cases (lookup k t.accounts)) [
      | inl no_account ↦ inl (ground arith)
      | inr (a, source) ↦ elim (Bool-cases (covers o.amount a)) [
        | inr short ↦ inl (ground arith)
        | inl enough ↦ elim (Bool-cases (is_credited_in o)) [
          | inl credited ↦ inr (o, k, a, found, ground arith, of_k, source, enough, ground arith)
          | inr other ↦ inl (ground arith)
        ]
      ]
    ]
  ]
]

-- So does its reversal.
pub reverse_rows-IsBalanced :
    (now : ℕ) (p : Payload) (t : Tables) → IsBalanced t → IsBalanced (reverse_rows now p t).1
reverse_rows-IsBalanced now p t b = elim (reverse_rows_cases now p t) [
  | inl same ↦ rw same b
  | inr (o, k, a, found, open_hold, of_k, source, enough, is) ↦ rw is (
      close-IsBalanced p.original_transfer_id k o (refunded_operation now p o) _ t b found of_k refl
        (IsBacked-eq (sym (rw (operation_hold_closed k o open_hold) (sym (-ℤ_zero _)))) refl
          (refund-IsBacked now o.amount _ a (b.accounts k a source) enough)))
]
