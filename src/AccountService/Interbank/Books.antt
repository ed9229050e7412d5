-- ===== src/AccountService/Interbank/Books.antt =====
-- What the changes of an interbank operation do to balanced books.
use proyecto_sa_b.Prelude.{ℕ, ◌≡◌, ◌≢◌, refl, sym, ◌∙◌, true, false, none, some, arith}
use proyecto_sa_b.Prelude.Int.{ℤ, pos, ◌+ℤ◌, ◌-ℤ◌, int_laws}
use proyecto_sa_b.Prelude.Dict.{lookup, AllRows-insert}
use proyecto_sa_b.AccountService.Rows.{Account, Operation, Tables}
use proyecto_sa_b.AccountService.Saga.{set_account}
use proyecto_sa_b.AccountService.Interbank.{set_operation}
use proyecto_sa_b.AccountService.Saga.Holds.{
  operation_hold, is_held, is_outgoing, held, IsCharge, IsBacked, IsBalanced,
}
use proyecto_sa_b.AccountService.Saga.Backed.{
  IsBacked-eq, set_account-IsBacked, held-set_operation_new, held-set_operation,
}

pub operation_hold_closed :
    (j : ℕ) (o : Operation) → is_held o.status ≡ false → operation_hold j o ≡ pos 0
operation_hold_closed j o closed = ground arith

pub operation_hold_of :
    (k : ℕ) (o : Operation)
    → is_outgoing o.direction ≡ true
    → is_held o.status ≡ true
    → o.account_id ≡ some k
    → operation_hold k o ≡ o.amount +ℤ o.fee_amount
operation_hold_of k o out active of_k = ground arith

operation_hold_other :
    (j k : ℕ) (o : Operation) → o.account_id ≡ some k → j ≢ k → operation_hold j o ≡ pos 0
operation_hold_other j k o of_k other = ground arith

same_held : (a b h h' : ℤ) → a +ℤ h ≡ b +ℤ h' → h ≡ pos 0 → h' ≡ pos 0 → a ≡ b
same_held a b h h' e p q = grind int_laws

less_held : (a b h h' : ℤ) → a +ℤ h ≡ b +ℤ h' → h' ≡ pos 0 → a ≡ b -ℤ h
less_held a b h h' e p = grind int_laws

add_zero : (a h : ℤ) → h ≡ pos 0 → a ≡ a +ℤ h
add_zero a h e = grind int_laws

-- A new operation that holds nothing.
pub set_operation-IsBalanced :
    (id : ℕ) (o : Operation) (t : Tables)
    → IsBalanced t
    → lookup id t.operations ≡ none
    → is_held o.status ≡ false
    → IsBalanced (set_operation id o t)
set_operation-IsBalanced id o t b new closed = record {
  accounts = λ j a e.
      IsBacked-eq
        (add_zero _ _ (operation_hold_closed j o closed)
          ∙ sym (held-set_operation_new j id o t new))
        refl (b.accounts j a e);
  reservations = b.reservations;
  operations = AllRows-insert _ id o t.operations b.operations (λ h. cc);
}

-- A new operation that holds its charge, and an account that has it reserved.
pub set_held-IsBalanced :
    (id k : ℕ) (o : Operation) (a : Account) (t : Tables)
    → IsBalanced t
    → lookup id t.operations ≡ none
    → o.account_id ≡ some k
    → IsCharge o.amount o.fee_amount
    → IsBacked (held k t +ℤ operation_hold k o) a
    → IsBalanced (set_operation id o (set_account k a t))
set_held-IsBalanced id k o a t b new of_k charge backed =
    let after = λ (j : ℕ). held-set_operation_new j id o (set_account k a t) new in
    record {
      accounts =
          set_account-IsBacked (λ j. held j t)
            (λ j. held j (set_operation id o (set_account k a t))) k a t.accounts b.accounts
            (IsBacked-eq (sym (after k)) refl backed)
            (λ j other. add_zero _ _ (operation_hold_other j k o of_k other) ∙ sym (after j));
      reservations = b.reservations;
      operations = AllRows-insert _ id o t.operations b.operations (λ _. charge);
    }

-- An operation that is closed, and an account that gets back what it held.
pub close-IsBalanced :
    (id k : ℕ) (o o' : Operation) (a : Account) (t : Tables)
    → IsBalanced t
    → lookup id t.operations ≡ some o
    → o.account_id ≡ some k
    → is_held o'.status ≡ false
    → IsBacked (held k t -ℤ operation_hold k o) a
    → IsBalanced (set_operation id o' (set_account k a t))
close-IsBalanced id k o o' a t b found of_k closed backed =
    let after = λ (j : ℕ). held-set_operation j id o' o (set_account k a t) found in
    let zero_hold = λ (j : ℕ). operation_hold_closed j o' closed in
    record {
      accounts =
          set_account-IsBacked (λ j. held j t)
            (λ j. held j (set_operation id o' (set_account k a t))) k a t.accounts b.accounts
            (IsBacked-eq (sym (less_held _ _ _ _ (after k) (zero_hold k))) refl backed)
            (λ j other.
              sym (
                same_held _ _ _ _ (after j) (operation_hold_other j k o of_k other) (zero_hold j)));
      reservations = b.reservations;
      operations = AllRows-insert _ id o' t.operations b.operations (λ h. cc);
    }
