-- ===== src/AccountService/Deposits/Once.antt =====
-- What repetition, cancellation and expiry make of the credit of a deposit.
use proyecto_sa_b.Prelude.{
  ℕ, ◌≡◌, ◌≢◌, refl, true, false, Option, none, some, List, inl, inr, arith, Option-cases, Bool,
  if◌then◌else◌,
}
use proyecto_sa_b.Prelude.Int.{ℤ, pos, ◌+ℤ◌, int_laws}
use proyecto_sa_b.Prelude.Dict.{lookup, lookup-insert_self, sum_by-insert}
use proyecto_sa_b.AccountService.Rows.{Account, Operation, OperationStatus, Tables}
use proyecto_sa_b.AccountService.Rules.{check_incoming_deposit, is_expired}
use proyecto_sa_b.AccountService.Saga.{receive}
use proyecto_sa_b.AccountService.Saga.Money.{balances}
use proyecto_sa_b.AccountService.Interbank.{Payload, amount_of}
use proyecto_sa_b.AccountService.Deposits.{
  credit_rows, cancel_deposit, cancelled_operation, is_cancelled, already_accepted,
  incoming_operation,
}
use proyecto_sa_b.AccountService.Deposits.Incoming.{facts, id_of_deposit, credit_rows_cases}

-- A deposit whose id has a row is not credited.
pub credit_rows_old :
    (key : List ℕ → ℕ) (now : ℕ) (p : Payload) (o : Operation) (t : Tables)
    → lookup (id_of_deposit p) t.operations ≡ some o
    → credit_rows key now p t ≡ ((o, false), t)
unfolding credit_rows
credit_rows_old key now p o t e = ground arith

credit_rows_stored :
    (key : List ℕ → ℕ) (now : ℕ) (p : Payload) (t : Tables)
    → let ((o, _), t') = credit_rows key now p t in lookup (id_of_deposit p) t'.operations ≡ some o
credit_rows_stored key now p t = elim (credit_rows_cases key now p t) [
  | inl (o, same, old) ↦ rw same old
  | inr (new, inl (o, closed, is)) ↦ rw is (lookup-insert_self (id_of_deposit p) o t.operations)
  | inr (new, inr (k, a, found, passed, is)) ↦
      rw is
        (lookup-insert_self (id_of_deposit p) (incoming_operation now p (some k) none) t.operations)
]

-- Once a deposit was decided, every further request under its id, at any time and with whatever
-- fields, gives the operation of the first decision and changes no row.
pub credit_rows_twice :
    (key : List ℕ → ℕ) (now now' : ℕ) (p p' : Payload) (t : Tables)
    → id_of_deposit p' ≡ id_of_deposit p
    → let ((o, _), t') = credit_rows key now p t in credit_rows key now' p' t' ≡ ((o, false), t')
credit_rows_twice key now now' p p' t same =
    credit_rows_old key now' p' _ _ (rw same (credit_rows_stored key now p t))

is_cancelled_stored :
    (now id : ℕ) (t : Tables)
    → (cancel_deposit now id t).0 ≡ is_cancelled
    → (o : Operation) × (lookup id (cancel_deposit now id t).1.operations ≡ some o)
      × (o.status ≢ OperationStatus.credited)
      × (o.status ≢ OperationStatus.refunded)
unfolding cancel_deposit
is_cancelled_stored now id t e = elim (Option-cases (lookup id t.operations)) [
  | inl new ↦ (
    cancelled_operation now,
    rw (new, cancel_deposit) (lookup-insert_self id _ t.operations),
    λ h. cc,
    λ h. cc,
  )
  | inr (o, old) ↦ (o, ground arith, λ h. ground arith, λ h. ground arith)
]

-- After the answer CANCELLED no request under the id of the deposit is credited, and none changes
-- a row.
pub credit_rows-cancel_deposit :
    (key : List ℕ → ℕ) (now now' id : ℕ) (p : Payload) (t : Tables)
    → (cancel_deposit now id t).0 ≡ is_cancelled
    → id_of_deposit p ≡ id
    → let t' = (cancel_deposit now id t).1 in
      let ((o, fresh), t'') = credit_rows key now' p t' in
      (t'' ≡ t')
      × (fresh ≡ false)
      × (o.status ≢ OperationStatus.credited)
      × (o.status ≢ OperationStatus.refunded)
credit_rows-cancel_deposit key now now' id p t answer same =
    let (o, stored, not_credited, not_refunded) = is_cancelled_stored now id t answer in
    rw (credit_rows_old key now' p o (cancel_deposit now id t).1 (rw same stored))
      (refl, refl, not_credited, not_refunded)

cancel_credited :
    (now id : ℕ) (o : Operation) (t : Tables)
    → lookup id t.operations ≡ some o
    → o.status ≡ OperationStatus.credited
    → cancel_deposit now id t ≡ (already_accepted, t)
unfolding cancel_deposit
cancel_credited now id o t e s = ground arith

-- A cancellation that comes after a deposit was credited is answered ALREADY_ACCEPTED and changes
-- no row.
pub cancel_deposit-credit_rows :
    (key : List ℕ → ℕ) (now now' : ℕ) (p : Payload) (t : Tables)
    → (credit_rows key now p t).0.0.status ≡ OperationStatus.credited
    → let t' = (credit_rows key now p t).1 in
      cancel_deposit now' (id_of_deposit p) t' ≡ (already_accepted, t')
cancel_deposit-credit_rows key now now' p t credited =
    cancel_credited now' (id_of_deposit p) _ _ (credit_rows_stored key now p t) credited

abbrev pub is_credit : OperationStatus → Bool
is_credit OperationStatus.credited = true
is_credit _ = false

grown : (a o b n m : ℤ) → a +ℤ o ≡ b +ℤ n → n ≡ o +ℤ m → a ≡ b +ℤ m
grown a o b n m e f = grind int_laws

add_none : (a : ℤ) → a ≡ a +ℤ pos 0
add_none a = grind int_laws

not_late :
    (now : ℕ) (p : Payload) (account : Option Account)
    → check_incoming_deposit (facts now p account) ≡ none
    → is_expired now p.expires_at ≡ false
unfolding check_incoming_deposit
not_late now p account e = ground arith

-- The request adds the deposit's amount to all balances together where it is new and credited, and
-- nothing where it is known or rejected.
pub balances-credit_rows :
    (key : List ℕ → ℕ) (now : ℕ) (p : Payload) (t : Tables)
    → let ((o, fresh), t') = credit_rows key now p t in
      balances t'
      ≡ balances t +ℤ (if fresh then if is_credit o.status then amount_of p else pos 0 else pos 0)
balances-credit_rows key now p t = elim (credit_rows_cases key now p t) [
  | inl (o, same, old) ↦ rw same (add_none _)
  | inr (new, inl (o, closed, is)) ↦ rw is (rw closed (add_none _))
  | inr (new, inr (k, a, found, passed, is)) ↦ rw is (
      grown _ a.balance _ (a.balance +ℤ amount_of p) (amount_of p)
        (sum_by-insert (λ (x : Account). x.balance) k (receive now (amount_of p) a) a t.accounts
          found)
        refl)
]

-- A request that comes when its deposit has expired, or without a date, changes no account.
pub credit_rows_expired :
    (key : List ℕ → ℕ) (now : ℕ) (p : Payload) (t : Tables)
    → is_expired now p.expires_at ≡ true
    → (credit_rows key now p t).1.accounts ≡ t.accounts
credit_rows_expired key now p t late = elim (credit_rows_cases key now p t) [
  | inl (o, same, old) ↦ rw same refl
  | inr (new, inl (o, closed, is)) ↦ rw is refl
  | inr (new, inr (k, a, found, passed, is)) ↦
      absurd (grind (arith, not_late now p (some a) passed))
]
