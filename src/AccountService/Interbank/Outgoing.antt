-- ===== src/AccountService/Interbank/Outgoing.antt =====
-- The books under the hold, the debit and the release of an outgoing transfer.
use proyecto_sa_b.Prelude.{
  ℕ, ◌≡◌, refl, true, false, Option, none, some, inl, inr, arith, Option-cases, Bool-cases, ◌&&◌,
  ◌⊎◌,
}
use proyecto_sa_b.Prelude.Int.{pos, ◌+ℤ◌, ◌≤ℤ◌, int_laws}
use proyecto_sa_b.Prelude.Dict.{lookup, AllRows-lookup}
use proyecto_sa_b.AccountService.Rows.{Account, Operation, OperationStatus, Tables}
use proyecto_sa_b.AccountService.Rules.{check_outgoing}
use proyecto_sa_b.AccountService.Saga.{set_account, hold, pay, unhold, fee_of, has_funds}
use proyecto_sa_b.AccountService.Interbank.{
  Payload, id_of, amount_of, set_operation, outgoing_operation, reserve_rows, debit_rows,
  release_rows,
}
use proyecto_sa_b.AccountService.Saga.Holds.{
  is_held, is_outgoing, held, IsBalanced, operation_hold-le-held,
}
use proyecto_sa_b.AccountService.Saga.Backed.{
  IsBacked-eq, hold-IsBacked, pay-IsBacked, unhold-IsBacked, self_eq,
}
use proyecto_sa_b.AccountService.Interbank.Books.{
  operation_hold_of, set_operation-IsBalanced, set_held-IsBalanced, close-IsBalanced,
}

check_outgoing_sound :
    (p : Payload) (s : Account)
    → check_outgoing p.amount p.currency (some s) ≡ none
    → (pos 0 ≤ℤ amount_of p) × (has_funds (amount_of p +ℤ fee_of s) s ≡ true)
unfolding check_outgoing
check_outgoing_sound p s e = grind int_laws

abbrev held_tables : ℕ → Payload → Account → Tables → Tables
held_tables now p s t =
    set_operation (id_of p) (outgoing_operation now p (fee_of s) OperationStatus.reserved none)
      (set_account p.source_account (hold now (amount_of p +ℤ fee_of s) s) t)

held_tables-IsBalanced :
    (now : ℕ) (p : Payload) (s : Account) (t : Tables)
    → IsBalanced t
    → lookup (id_of p) t.operations ≡ none
    → lookup p.source_account t.accounts ≡ some s
    → check_outgoing p.amount p.currency (some s) ≡ none
    → IsBalanced (held_tables now p s t)
held_tables-IsBalanced now p s t b new found passed =
    let (positive, funds) = check_outgoing_sound p s passed in
    let backed = b.accounts p.source_account s found in
    set_held-IsBalanced (id_of p) p.source_account
      (outgoing_operation now p (fee_of s) OperationStatus.reserved none) _ t b new refl
      (positive, backed.fee)
      (IsBacked-eq (rw (self_eq p.source_account)) refl
        (hold-IsBacked now (amount_of p +ℤ fee_of s) _ s backed funds))

-- What the reservation leaves: the tables as they were, a rejected operation, or the two rows.
reserve_rows_cases :
    (now : ℕ) (p : Payload) (t : Tables)
    → ((reserve_rows now p t).1 ≡ t)
      ⊎ ((lookup (id_of p) t.operations ≡ none)
          × (((o : Operation) × (is_held o.status ≡ false)
                × ((reserve_rows now p t).1 ≡ set_operation (id_of p) o t))
              ⊎ ((s : Account) × (lookup p.source_account t.accounts ≡ some s)
                  × (check_outgoing p.amount p.currency (some s) ≡ none)
                  × ((reserve_rows now p t).1 ≡ held_tables now p s t))))
unfolding reserve_rows
reserve_rows_cases now p t = elim (Option-cases (lookup (id_of p) t.operations)) [
  | inr (o, old) ↦ inl (ground arith)
  | inl new ↦ inr (
    new,
    elim (Option-cases (check_outgoing p.amount p.currency (lookup p.source_account t.accounts))) [
      | inr (reason, refused) ↦ inl (
        outgoing_operation now p (pos 0) OperationStatus.rejected (some reason),
        refl,
        ground arith,
      )
      | inl passed ↦ elim (Option-cases (lookup p.source_account t.accounts)) [
        | inl missing ↦
            inl (outgoing_operation now p (pos 0) OperationStatus.rejected none, refl, ground arith)
        | inr (s, found) ↦ inr (s, found, rw found at passed, ground arith)
      ]
    ],
  )
]

-- Whatever it decides, the reservation keeps the books balanced.
pub interbank_reserve-IsBalanced :
    (now : ℕ) (p : Payload) (t : Tables) → IsBalanced t → IsBalanced (reserve_rows now p t).1
interbank_reserve-IsBalanced now p t b = elim (reserve_rows_cases now p t) [
  | inl same ↦ rw same b
  | inr (new, inl (o, closed, is)) ↦ rw is (set_operation-IsBalanced (id_of p) o t b new closed)
  | inr (new, inr (s, found, passed, is)) ↦
      rw is (held_tables-IsBalanced now p s t b new found passed)
]

-- A debit or a release that goes through found an outgoing operation that is RESERVED.
abbrev closed_tables : ℕ → ℕ → Operation → Account → Tables → Tables
closed_tables id k o a t = set_operation id o (set_account k a t)

debit_rows_cases :
    (now : ℕ) (p : Payload) (t t' : Tables) (x : Option Operation)
    → debit_rows now p t ≡ some (x, t')
    → (t' ≡ t)
      ⊎ ((o : Operation) × (k : ℕ) × (s : Account) × (lookup (id_of p) t.operations ≡ some o)
          × (is_outgoing o.direction ≡ true)
          × (is_held o.status ≡ true)
          × (o.account_id ≡ some k)
          × (lookup k t.accounts ≡ some s)
          × (t'
              ≡ closed_tables
                  (id_of p)
                  k
                  (record o { status = OperationStatus.debited; updated_at = now })
                  (pay now (o.amount +ℤ o.fee_amount) s)
                  t))
unfolding debit_rows
debit_rows_cases now p t t' x e = elim (Option-cases (lookup (id_of p) t.operations)) [
  | inl missing ↦ inl (ground arith)
  | inr (o, found) ↦ elim (Bool-cases (is_outgoing o.direction && is_held o.status)) [
    | inr other ↦ inl (ground arith)
    | inl held ↦ elim (Option-cases o.account_id) [
      | inl nobody ↦ absurd (ground arith)
      | inr (k, of_k) ↦ elim (Option-cases (lookup k t.accounts)) [
        | inl no_account ↦ absurd (ground arith)
        | inr (s, source) ↦
            inr (o, k, s, found, ground arith, ground arith, of_k, source, ground arith)
      ]
    ]
  ]
]

release_rows_cases :
    (now : ℕ) (p : Payload) (t t' : Tables) (x : Option Operation)
    → release_rows now p t ≡ some (x, t')
    → (t' ≡ t)
      ⊎ ((o : Operation) × (k : ℕ) × (s : Account) × (lookup (id_of p) t.operations ≡ some o)
          × (is_outgoing o.direction ≡ true)
          × (is_held o.status ≡ true)
          × (o.account_id ≡ some k)
          × (lookup k t.accounts ≡ some s)
          × (t'
              ≡ closed_tables
                  (id_of p)
                  k
                  (record o {
                    status = OperationStatus.released;
                    reason_code = p.reason_code;
                    updated_at = now;
                  })
                  (unhold now (o.amount +ℤ o.fee_amount) s)
                  t))
unfolding release_rows
release_rows_cases now p t t' x e = elim (Option-cases (lookup (id_of p) t.operations)) [
  | inl missing ↦ inl (ground arith)
  | inr (o, found) ↦ elim (Bool-cases (is_outgoing o.direction && is_held o.status)) [
    | inr other ↦ inl (ground arith)
    | inl held ↦ elim (Option-cases o.account_id) [
      | inl nobody ↦ absurd (ground arith)
      | inr (k, of_k) ↦ elim (Option-cases (lookup k t.accounts)) [
        | inl no_account ↦ absurd (ground arith)
        | inr (s, source) ↦
            inr (o, k, s, found, ground arith, ground arith, of_k, source, ground arith)
      ]
    ]
  ]
]

-- The debit of an outgoing interbank transfer keeps the books balanced, whatever the state of its
-- operation.
pub interbank_debit-IsBalanced :
    (now : ℕ) (p : Payload) (t t' : Tables) (x : Option Operation)
    → IsBalanced t
    → debit_rows now p t ≡ some (x, t')
    → IsBalanced t'
interbank_debit-IsBalanced now p t t' x b e = elim (debit_rows_cases now p t t' x e) [
  | inl same ↦ rw same b
  | inr (o, k, s, found, out, active, of_k, source, is) ↦
      let holds = operation_hold_of k o out active of_k in
      rw is (
        close-IsBalanced (id_of p) k o _ _ t b found of_k refl (
          IsBacked-eq (rw holds) refl (
            pay-IsBacked now (o.amount +ℤ o.fee_amount) _ s (b.accounts k s source)
              (rw holds at (operation_hold-le-held (id_of p) k o t b found)))))
]

-- So does its release.
pub interbank_release-IsBalanced :
    (now : ℕ) (p : Payload) (t t' : Tables) (x : Option Operation)
    → IsBalanced t
    → release_rows now p t ≡ some (x, t')
    → IsBalanced t'
interbank_release-IsBalanced now p t t' x b e = elim (release_rows_cases now p t t' x e) [
  | inl same ↦ rw same b
  | inr (o, k, s, found, out, active, of_k, source, is) ↦
      let holds = operation_hold_of k o out active of_k in
      let charge = AllRows-lookup _ (id_of p) o t.operations b.operations found active in
      rw is (
        close-IsBalanced (id_of p) k o _ _ t b found of_k refl (
          IsBacked-eq (rw holds) refl (
            unhold-IsBacked now (o.amount +ℤ o.fee_amount) _ s (b.accounts k s source)
              (omega (int_laws, charge))
              (rw holds at (operation_hold-le-held (id_of p) k o t b found)))))
]
