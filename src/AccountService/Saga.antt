-- ===== src/AccountService/Saga.antt =====
-- The internal saga on the side of the accounts: account.service.ts of
-- apps/account-service/src/account. A database transaction runs alone, since it locks its rows; the
-- events are published after it. `now` is the clock.
pub mod Holds
pub mod Backed
pub mod Balanced
pub mod Closing
pub mod Money
pub mod Crossed
pub mod Events
use proyecto_sa_b.Prelude.{
  ℕ, ◌+◌, Bool, true, false, Option, none, some, List, [], ◌∷◌, ◌&&◌, ◌||◌, not, ltb, ◌==◌, get_or,
  is_some, length, if◌then◌else◌,
}
use proyecto_sa_b.Prelude.Int.{ℤ, pos, ◌+ℤ◌, ◌-ℤ◌, ltb_ℤ, clamp}
use proyecto_sa_b.Prelude.Dict.{Dict, lookup, insert}
use proyecto_sa_b.Prelude.Action.{ok, err, pure, raise, gets, modify, raise_if, atomic, ◌>>=◌, ◌>>◌}
use proyecto_sa_b.AccountService.Rows.{
  AccountType, monetary, savings, Account, AccountStatus, active, inactive, is_active, Reservation,
  ReservationStatus, Reason, account_not_found_or_inactive, insufficient_funds, Body,
  account_created, account_deactivated, funds_reserved, funds_rejected, transfer_completed,
  funds_released, anomaly_detected, Tables, World, Failure, invalid_initial_balance,
  invalid_min_balance, invalid_fee_amount, account_missing, Call, emit, exists_by, save_processed,
}
use proyecto_sa_b.AccountService.Anomaly.{AnomalyConfig, Anomaly, record_operation}

pub data Step : Type 0 where
  done rejected skipped : Step

-- What a transaction of the tables leaves, or nothing where it throws.
abbrev pub in_transaction : {A : Type 0} → (Tables → Option (A × Tables)) → Call A
in_transaction body w = elim (body w.tables) [
  | none ↦ (err account_missing, w)
  | some (a, t) ↦ (ok a, record w { tables = t })
]

-- `Number(x ?? 0)`
abbrev pub fee_of : Account → ℤ
fee_of a = get_or a.fee_amount (pos 0)

abbrev pub set_account : ℕ → Account → Tables → Tables
set_account id a t = record t { accounts = insert id a t.accounts }

abbrev pub set_reservation : ℕ → Reservation → Tables → Tables
set_reservation id r t = record t { reservations = insert id r t.reservations }

-- The payload of `transaction.created`.
pub record Transfer : Type 0 where
  pub transaction_id : ℕ
  pub source_account : ℕ
  pub target_account : ℕ
  pub amount : ℤ

pub data Reserve : Type 0 where
  skipped : Reserve
  rejected : Reason → Option Account → Reserve
  reserved : (fee : ℤ) → Account → Reserve

-- The source with the amount and the fee held.
abbrev pub hold : ℕ → ℤ → Account → Account
hold now total a = record a {
  reserved_balance = a.reserved_balance +ℤ total;
  last_activity_at = now;
}

abbrev pub both_active : Option Account → Option Account → Bool
both_active (some s) (some t) = is_active s.status && is_active t.status
both_active _ _ = false

abbrev pub has_funds : ℤ → Account → Bool
has_funds total a = not (ltb_ℤ (a.balance -ℤ a.reserved_balance -ℤ a.min_balance) total)

abbrev reserve_from : ℕ → Transfer → Option Account → Tables → Reserve × Tables
reserve_from now p none t = (rejected account_not_found_or_inactive none, t)
reserve_from now p (some s) t =
    if not (both_active (some s) (lookup p.target_account t.accounts))
    then (rejected account_not_found_or_inactive (some s), t)
    else if not (has_funds (p.amount +ℤ fee_of s) s)
    then (rejected insufficient_funds (some s), t)
    else (
      reserved (fee_of s) (hold now (p.amount +ℤ fee_of s) s),
      set_reservation p.transaction_id
          (record {
            source_account = p.source_account;
            target_account = p.target_account;
            amount = p.amount;
            fee_amount = fee_of s;
            status = ReservationStatus.reserved;
            created_at = now;
          })
          (set_account p.source_account (hold now (p.amount +ℤ fee_of s) s) t),
    )

-- The transaction of `reserve`.
unfoldable pub reserve_rows : ℕ → Transfer → Tables → Reserve × Tables
reserve_rows now p t =
    if is_some (lookup p.transaction_id t.reservations)
    then (skipped, t)
    else reserve_from now p (lookup p.source_account t.accounts) t

-- The account with the held total taken out of its balance.
abbrev pub pay : ℕ → ℤ → Account → Account
pay now total a = record a {
  balance = a.balance -ℤ total;
  reserved_balance = clamp (a.reserved_balance -ℤ total);
  last_activity_at = now;
}

abbrev pub receive : ℕ → ℤ → Account → Account
receive now amount a = record a { balance = a.balance +ℤ amount; last_activity_at = now }

abbrev pub unhold : ℕ → ℤ → Account → Account
unhold now total a = record a {
  reserved_balance = clamp (a.reserved_balance -ℤ total);
  last_activity_at = now;
}

-- The target is read after the source is written: where both are one account they are one object.
abbrev pay_into : ℕ → Reservation → Tables → Option Account → Option Account → Option Tables
pay_into now r t (some s) (some _) =
    let t' = set_account r.source_account (pay now (r.amount +ℤ r.fee_amount) s) t in
    elim (lookup r.target_account t'.accounts) [
      | none ↦ none
      | some target ↦ some (set_account r.target_account (receive now r.amount target) t')
    ]
pay_into now r t _ _ = none

abbrev is_completed : ReservationStatus → Bool
is_completed ReservationStatus.completed = true
is_completed _ = false

abbrev is_released : ReservationStatus → Bool
is_released ReservationStatus.released = true
is_released _ = false

abbrev closing :
    ℕ → Reservation → ReservationStatus → Option Tables → Option (Option Reservation × Tables)
closing tx r status none = none
closing tx r status (some t) = some (some r, set_reservation tx (record r { status = status }) t)

abbrev complete_from : ℕ → ℕ → Option Reservation → Tables → Option (Option Reservation × Tables)
complete_from now tx none t = some (none, t)
complete_from now tx (some r) t =
    if is_completed r.status
    then some (none, t)
    else closing tx r ReservationStatus.completed
        (pay_into now r t (lookup r.source_account t.accounts) (lookup r.target_account t.accounts))

-- The transaction of `complete`: `none` where it throws, no reservation where there is nothing to
-- do.
unfoldable pub complete_rows : ℕ → ℕ → Tables → Option (Option Reservation × Tables)
complete_rows now tx t = complete_from now tx (lookup tx t.reservations) t

abbrev give_back : ℕ → Reservation → Tables → Option Account → Option Tables
give_back now r t none = none
give_back now r t (some s) =
    some (set_account r.source_account (unhold now (r.amount +ℤ r.fee_amount) s) t)

abbrev release_from : ℕ → ℕ → Option Reservation → Tables → Option (Option Reservation × Tables)
release_from now tx none t = some (none, t)
release_from now tx (some r) t =
    if is_released r.status
    then some (none, t)
    else closing tx r ReservationStatus.released
        (give_back now r t (lookup r.source_account t.accounts))

-- The transaction of `release`.
unfoldable pub release_rows : ℕ → ℕ → Tables → Option (Option Reservation × Tables)
release_rows now tx t = release_from now tx (lookup tx t.reservations) t

abbrev alert_of : ℕ → ℕ → ℕ → ℕ → Option Anomaly → Call (Unit {0})
alert_of now correlation tx customer none = pure tt
alert_of now correlation tx customer (some a) =
    emit correlation
      (anomaly_detected a.account_id customer tx a.operation_count a.threshold a.window_ms now)

unfoldable pub check_anomaly : AnomalyConfig → ℕ → ℕ → ℕ → ℕ → Account → Call (Unit {0})
check_anomaly c now account tx correlation a w =
    let (found, d) = record_operation c account now w.detector in
    alert_of now correlation tx a.customer_id found (record w { detector = d })

abbrev reserve_after : AnomalyConfig → ℕ → ℕ → Transfer → Reserve → Call Step
reserve_after c now correlation p skipped = pure Step.skipped
reserve_after c now correlation p (rejected reason none) = do
  emit correlation (funds_rejected p.transaction_id reason)
  pure Step.rejected
reserve_after c now correlation p (rejected reason (some s)) = do
  check_anomaly c now p.source_account p.transaction_id correlation s
  emit correlation (funds_rejected p.transaction_id reason)
  pure Step.rejected
reserve_after c now correlation p (reserved fee s) = do
  check_anomaly c now p.source_account p.transaction_id correlation s
  emit correlation (funds_reserved p.transaction_id p.source_account p.target_account p.amount fee)
  pure Step.done

unfoldable pub reserve : AnomalyConfig → ℕ → ℕ → Transfer → Call Step
reserve c now correlation p = do
  outcome ← in_transaction (λ t. some (reserve_rows now p t))
  reserve_after c now correlation p outcome

abbrev complete_after : ℕ → ℕ → Option Reservation → Call Step
complete_after correlation tx none = pure Step.skipped
complete_after correlation tx (some r) = do
  emit correlation (transfer_completed tx r.source_account r.target_account r.amount r.fee_amount)
  pure Step.done

unfoldable pub complete : ℕ → ℕ → ℕ → Call Step
complete now correlation tx = do
  r ← in_transaction (complete_rows now tx)
  complete_after correlation tx r

abbrev release_after : ℕ → ℕ → Option Reservation → Call Step
release_after correlation tx none = pure Step.skipped
release_after correlation tx (some r) = do
  emit correlation (funds_released tx r.amount r.fee_amount)
  pure Step.done

unfoldable pub release : ℕ → ℕ → ℕ → Call Step
release now correlation tx = do
  r ← in_transaction (release_rows now tx)
  release_after correlation tx r

-- The events that `AccountService.handle` acts on; it marks any other as processed.
pub data SagaEvent : Type 0 where
  transaction_created : Transfer → SagaEvent
  payment_approved payment_rejected : (transaction : ℕ) → SagaEvent
  other : SagaEvent

abbrev run_step : AnomalyConfig → ℕ → ℕ → SagaEvent → Call Step
run_step c now correlation (transaction_created p) = reserve c now correlation p
run_step c now correlation (payment_approved tx) = complete now correlation tx
run_step c now correlation (payment_rejected tx) = release now correlation tx
run_step c now correlation other = pure Step.skipped

unfoldable pub handle : AnomalyConfig → ℕ → (event_id correlation : ℕ) → SagaEvent → Call (Unit {0})
handle c now event_id correlation e = do
  known ← gets (exists_by event_id)
  if known then pure tt else do run_step c now correlation e; modify (save_processed event_id now)
