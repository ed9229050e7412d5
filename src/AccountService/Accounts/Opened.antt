-- ===== src/AccountService/Accounts/Opened.antt =====
-- The books under the opening of an account.
use proyecto_sa_b.Prelude.{ℕ, ◌≡◌, refl, sym, inr, arith}
use proyecto_sa_b.Prelude.Int.{pos, int_laws}
use proyecto_sa_b.AccountService.Rows.{Account, Tables}
use proyecto_sa_b.AccountService.Saga.{set_account}
use proyecto_sa_b.AccountService.Accounts.{NewAccount, new_account}
use proyecto_sa_b.AccountService.Saga.Holds.{held, IsBacked, IsBalanced}
use proyecto_sa_b.AccountService.Saga.Backed.{set_account-IsBacked, IsBacked-eq}

-- An account that passes the checks is backed where nothing is held of it.
pub new_account-IsBacked :
    (now : ℕ) (c : NewAccount) (a : Account) → new_account now c ≡ inr a → IsBacked (pos 0) a
unfolding new_account
new_account-IsBacked now c a e = record {
  exact = ground arith;
  covered = grind int_laws;
  minimum = grind int_laws;
  fee = grind int_laws;
}

-- An account that is opened under an id of which nothing is held keeps the books balanced.
pub new_account-IsBalanced :
    (now fresh : ℕ) (c : NewAccount) (a : Account) (t : Tables)
    → IsBalanced t
    → held fresh t ≡ pos 0
    → new_account now c ≡ inr a
    → IsBalanced (set_account fresh a t)
new_account-IsBalanced now fresh c a t b free e = record {
  accounts =
      set_account-IsBacked (λ j. held j t) (λ j. held j t) fresh a t.accounts b.accounts
        (IsBacked-eq (sym free) refl (new_account-IsBacked now c a e)) (λ j other. refl);
  reservations = b.reservations;
  operations = b.operations;
}
