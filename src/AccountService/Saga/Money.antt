-- ===== src/AccountService/Saga/Money.antt =====
-- Where the money of a saga goes.
use proyecto_sa_b.Prelude.{ℕ, ◌≡◌, refl, true, Option, some, inl, inr}
use proyecto_sa_b.Prelude.Int.{ℤ, ◌+ℤ◌, ◌-ℤ◌, int_laws}
use proyecto_sa_b.Prelude.Dict.{lookup, insert, sum_by, sum_by-insert}
use proyecto_sa_b.AccountService.Rows.{Account, Reservation, Tables}
use proyecto_sa_b.AccountService.Saga.{
  Transfer, hold, fee_of, pay, receive, unhold, reserve_rows, complete_rows, release_rows,
}
use proyecto_sa_b.AccountService.Saga.Holds.{is_reserved}
use proyecto_sa_b.AccountService.Saga.Balanced.{reserve_rows-cases}
use proyecto_sa_b.AccountService.Saga.Closing.{complete_rows-cases, release_rows-cases}

-- All balances together.
abbrev pub balances : Tables → ℤ
balances t = sum_by (λ (a : Account). a.balance) t.accounts

same_sum : (a b o : ℤ) → a +ℤ o ≡ b +ℤ o → a ≡ b
same_sum a b o e = grind int_laws

-- The sum after the source has paid and the target has received.
transfer_sum :
    (s0 s1 s2 bs bu amount fee : ℤ)
    → s1 +ℤ bs ≡ s0 +ℤ (bs -ℤ (amount +ℤ fee))
    → s2 +ℤ bu ≡ s1 +ℤ (bu +ℤ amount)
    → s2 +ℤ fee ≡ s0
transfer_sum s0 s1 s2 bs bu amount fee p q = grind int_laws

-- `reserve` moves no money, whatever it decides.
pub balances-reserve_rows :
    (now : ℕ) (p : Transfer) (t : Tables) → balances (reserve_rows now p t).1 ≡ balances t
balances-reserve_rows now p t = elim (reserve_rows-cases now p t) [
  | inl same ↦ rw same refl
  | inr (s, e, new, found, funds) ↦ rw e (
      same_sum _ _ s.balance (
        sum_by-insert (λ (a : Account). a.balance) p.source_account
          (hold now (p.amount +ℤ fee_of s) s) s t.accounts found))
]

-- The payment of a reservation that is still RESERVED takes exactly its fee out of all accounts
-- together, also where source and target are one account.
pub balances-complete_rows :
    (now tx : ℕ) (r : Reservation) (t t' : Tables) (x : Option Reservation)
    → lookup tx t.reservations ≡ some r
    → is_reserved r.status ≡ true
    → complete_rows now tx t ≡ some (x, t')
    → balances t' +ℤ r.fee_amount ≡ balances t
balances-complete_rows now tx r t t' x found active e =
    let (s, u, source, target, is) = complete_rows-cases now tx r t t' x found active e in
    let s' = pay now (r.amount +ℤ r.fee_amount) s in
    rw is (
      transfer_sum (balances t) _ _ s.balance u.balance r.amount r.fee_amount
        (sum_by-insert (λ (a : Account). a.balance) r.source_account s' s t.accounts source)
        (sum_by-insert (λ (a : Account). a.balance) r.target_account (receive now r.amount u) u
          (insert r.source_account s' t.accounts) target))

-- The release of a reservation that is still RESERVED moves no money.
pub balances-release_rows :
    (now tx : ℕ) (r : Reservation) (t t' : Tables) (x : Option Reservation)
    → lookup tx t.reservations ≡ some r
    → is_reserved r.status ≡ true
    → release_rows now tx t ≡ some (x, t')
    → balances t' ≡ balances t
balances-release_rows now tx r t t' x found active e =
    let (s, source, is) = release_rows-cases now tx r t t' x found active e in
    rw is (
      same_sum _ _ s.balance (
        sum_by-insert (λ (a : Account). a.balance) r.source_account
          (unhold now (r.amount +ℤ r.fee_amount) s) s t.accounts source))
