-- ===== src/AccountService/Accounts.antt =====
-- How an account is opened, and how idle ones are closed: `create` and `deactivateInactive` of
-- apps/account-service/src/account/account.service.ts. An account type that is neither of the two
-- is `none`; of an optional amount the outer `none` is a missing field and the inner one a value
-- that is no finite number. `fresh` and `event` are the ids that `randomUUID` gives for the account
-- and for the events, and `since` is the date six months ago.
pub mod Opened
use proyecto_sa_b.Prelude.{
  ℕ, ◌⊎◌, inl, inr, not, Bool, true, false, Option, none, some, List, [], ◌∷◌, ◌&&◌, ltb, length,
  keep, if◌then◌else◌,
}
use proyecto_sa_b.Prelude.Int.{ℤ, pos, ltb_ℤ}
use proyecto_sa_b.Prelude.Dict.{Dict, insert}
use proyecto_sa_b.Prelude.Action.{ok, err, pure, raise, gets, modify, ◌>>=◌, ◌>>◌}
use proyecto_sa_b.AccountService.Rows.{
  AccountType, monetary, savings, Account, active, inactive, is_active, account_created,
  account_deactivated, World, Failure, invalid_account_type, invalid_initial_balance,
  invalid_min_balance, invalid_fee_amount, Call, emit,
}
use proyecto_sa_b.AccountService.Saga.{set_account}

pub record NewAccount : Type 0 where
  pub customer_id : ℕ
  pub type : Option AccountType
  pub initial_balance : Option ℤ
  pub min_balance : Option (Option ℤ)
  pub fee_amount : Option (Option ℤ)

-- `Number.isFinite(x) && x >= 0`
abbrev is_amount : Option ℤ → Bool
is_amount none = false
is_amount (some x) = if ltb_ℤ x (pos 0) then false else true

abbrev default_min : AccountType → ℤ
default_min savings = pos 5000
default_min monetary = pos 0

abbrev resolved_min : AccountType → Option (Option ℤ) → Option ℤ
resolved_min type none = some (default_min type)
resolved_min type (some given) = given

abbrev fee_given : Option (Option ℤ) → Option ℤ
fee_given none = none
fee_given (some fee) = fee

abbrev is_fee : Option (Option ℤ) → Bool
is_fee none = true
is_fee (some fee) = is_amount fee

abbrev opened : ℕ → NewAccount → AccountType → ℤ → ℤ → Account
opened now c type balance min_balance = record {
  customer_id = c.customer_id;
  type = type;
  balance = balance;
  reserved_balance = pos 0;
  min_balance = min_balance;
  fee_amount = fee_given c.fee_amount;
  status = active;
  created_at = now;
  last_activity_at = now;
}

abbrev with_amounts : ℕ → NewAccount → AccountType → Option ℤ → Option ℤ → Failure ⊎ Account
with_amounts now c type none m = inl invalid_initial_balance
with_amounts now c type (some b) none =
    inl (if is_amount (some b) then invalid_min_balance else invalid_initial_balance)
with_amounts now c type (some b) (some m) =
    if not (is_amount (some b))
    then inl invalid_initial_balance
    else if not (is_amount (some m))
    then inl invalid_min_balance
    else if not (is_fee c.fee_amount)
    then inl invalid_fee_amount
    else inr (opened now c type b m)

-- The checks of `create` in their order, and the account that passes them.
unfoldable pub new_account : ℕ → NewAccount → Failure ⊎ Account
new_account now c = elim c.type [
  | none ↦ inl invalid_account_type
  | some type ↦ with_amounts now c type c.initial_balance (resolved_min type c.min_balance)
]

abbrev save_account : ℕ → Account → World → World
save_account id a w = record w { tables = set_account id a w.tables }

unfoldable pub create : (now fresh event : ℕ) → NewAccount → Call Account
create now fresh event c = elim (new_account now c) [
  | inl e ↦ raise e
  | inr a ↦ do modify (save_account fresh a); emit event (account_created fresh a); pure a
]

-- Active, idle since before the date, and with less than Q50.
abbrev pub is_idle : ℕ → Account → Bool
is_idle since a = is_active a.status && ltb a.last_activity_at since && ltb_ℤ a.balance (pos 5000)

abbrev deactivate_each : (ℕ → ℕ) → Dict Account → Call (Unit {0})
deactivate_each event [] = pure tt
deactivate_each event ((id, a) ∷ rest) = do
  modify (save_account id (record a { status = inactive }))
  emit (event id) (account_deactivated id a.customer_id)
  deactivate_each event rest

-- `deactivateInactive`: how many accounts it has closed.
unfoldable pub deactivate_inactive : (since : ℕ) → (event : ℕ → ℕ) → Call ℕ
deactivate_inactive since event = do
  idle ← gets (λ (w : World). keep (λ e. is_idle since e.1) w.tables.accounts)
  deactivate_each event idle
  pure (length idle)
