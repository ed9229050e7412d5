-- ===== src/AccountService/Interbank/Closed.antt =====
-- What a debit or a release of an outgoing transfer leaves for later events.
use proyecto_sa_b.Prelude.{ℕ, ◌≡◌, false, none, some, inl, inr, arith, Option-cases}
use proyecto_sa_b.Prelude.Int.{ℤ, ◌+ℤ◌, ◌-ℤ◌, int_laws}
use proyecto_sa_b.Prelude.Dict.{lookup, lookup-insert_self, sum_by-insert}
use proyecto_sa_b.AccountService.Rows.{Account, Operation, Tables}
use proyecto_sa_b.AccountService.Saga.{set_account, pay, unhold}
use proyecto_sa_b.AccountService.Saga.Money.{balances}
use proyecto_sa_b.AccountService.Saga.Holds.{is_held}
use proyecto_sa_b.AccountService.Interbank.{Payload, id_of, set_operation, debit_rows, release_rows}

closed_stays :
    (now : ℕ) (p : Payload) (o : Operation) (t : Tables)
    → lookup (id_of p) t.operations ≡ some o
    → is_held o.status ≡ false
    → (debit_rows now p t ≡ some (none, t)) × (release_rows now p t ≡ some (none, t))
unfolding debit_rows release_rows
closed_stays now p o t e closed = (ground arith, ground arith)

debited_tables :
    (now : ℕ) (p : Payload) (o : Operation) (t t' : Tables)
    → debit_rows now p t ≡ some (some o, t')
    → (k : ℕ) × (a : Account) × (lookup k t.accounts ≡ some a)
      × (is_held o.status ≡ false)
      × (t' ≡ set_operation (id_of p) o (set_account k (pay now (o.amount +ℤ o.fee_amount) a) t))
unfolding debit_rows
debited_tables now p o t t' e = elim (Option-cases (lookup (id_of p) t.operations)) [
  | inl missing ↦ absurd (ground arith)
  | inr (old, found) ↦ elim (Option-cases old.account_id) [
    | inl nobody ↦ absurd (ground arith)
    | inr (k, of_k) ↦ elim (Option-cases (lookup k t.accounts)) [
      | inl no_account ↦ absurd (ground arith)
      | inr (a, source) ↦ (k, a, source, ground arith, ground arith)
    ]
  ]
]

released_tables :
    (now : ℕ) (p : Payload) (o : Operation) (t t' : Tables)
    → release_rows now p t ≡ some (some o, t')
    → (k : ℕ) × (a : Account) × (lookup k t.accounts ≡ some a)
      × (is_held o.status ≡ false)
      × (t' ≡ set_operation (id_of p) o (set_account k (unhold now (o.amount +ℤ o.fee_amount) a) t))
unfolding release_rows
released_tables now p o t t' e = elim (Option-cases (lookup (id_of p) t.operations)) [
  | inl missing ↦ absurd (ground arith)
  | inr (old, found) ↦ elim (Option-cases old.account_id) [
    | inl nobody ↦ absurd (ground arith)
    | inr (k, of_k) ↦ elim (Option-cases (lookup k t.accounts)) [
      | inl no_account ↦ absurd (ground arith)
      | inr (a, source) ↦ (k, a, source, ground arith, ground arith)
    ]
  ]
]

-- After a debit that went through, neither a debit nor a release under its id changes a row, at any
-- time.
pub debit_rows_once :
    (now now' : ℕ) (p p' : Payload) (o : Operation) (t t' : Tables)
    → debit_rows now p t ≡ some (some o, t')
    → id_of p' ≡ id_of p
    → (debit_rows now' p' t' ≡ some (none, t')) × (release_rows now' p' t' ≡ some (none, t'))
debit_rows_once now now' p p' o t t' e same =
    let (k, a, source, closed, is) = debited_tables now p o t t' e in
    rw is (closed_stays now' p' o _ (rw same (lookup-insert_self (id_of p) o t.operations)) closed)

-- After a release that went through, neither a debit nor a release under its id changes a row, at
-- any time.
pub release_rows_once :
    (now now' : ℕ) (p p' : Payload) (o : Operation) (t t' : Tables)
    → release_rows now p t ≡ some (some o, t')
    → id_of p' ≡ id_of p
    → (debit_rows now' p' t' ≡ some (none, t')) × (release_rows now' p' t' ≡ some (none, t'))
release_rows_once now now' p p' o t t' e same =
    let (k, a, source, closed, is) = released_tables now p o t t' e in
    rw is (closed_stays now' p' o _ (rw same (lookup-insert_self (id_of p) o t.operations)) closed)

less_total : (a b s h : ℤ) → s +ℤ b ≡ a +ℤ (b -ℤ h) → s +ℤ h ≡ a
less_total a b s h e = grind int_laws

-- A debit that goes through takes exactly the amount and the fee of its operation out of all
-- accounts together.
pub balances-debit_rows :
    (now : ℕ) (p : Payload) (o : Operation) (t t' : Tables)
    → debit_rows now p t ≡ some (some o, t')
    → balances t' +ℤ (o.amount +ℤ o.fee_amount) ≡ balances t
balances-debit_rows now p o t t' e =
    let (k, a, source, closed, is) = debited_tables now p o t t' e in
    rw is (
      less_total _ a.balance _ (o.amount +ℤ o.fee_amount) (
        sum_by-insert (λ (x : Account). x.balance) k (pay now (o.amount +ℤ o.fee_amount) a) a
          t.accounts source))
