-- ===== src/ApiGateway/Transfers.antt =====
-- transfer.controller.ts, interbank-transfer.controller.ts, transaction.controller.ts and the route of
-- account.controller.ts that shows an account: the calls that look at whose account it is.
use text.Mathlib.Text.{◌==◌ as str_eq}
use proyecto_sa_b.Prelude.{
  ℕ, String, Bool, true, false, Option, none, some, [], ◌==◌, ◌&&◌, not, leb, get_or, is_some,
  if◌then◌else◌,
}
use proyecto_sa_b.Prelude.Int.{ℤ, pos, ltb_ℤ}
use proyecto_sa_b.Prelude.Program.{return, fail, ◌>>=◌, ◌>>◌}
use proyecto_sa_b.TransactionService.Entity.{Transaction}
use proyecto_sa_b.TransactionService.Query.{HistoryQueryParams}
use proyecto_sa_b.ApiGateway.{
  client, User, Account, transfer_requested, interbank_requested, Event, Call, Env, Reply, accepted,
  shown_transaction, shown_history, shown_account, ask, publish,
}
use proyecto_sa_b.ApiGateway.Guards.{TransferBody, InterbankBody, is_role}

-- `account.customerId !== req.user.customerId`. The column of account.entity.ts is never null, so no
-- account is that of a token without a customer.
abbrev pub is_of : Account → Option ℕ → Bool
is_of a none = false
is_of a (some customer) = a.customer_id == customer

abbrev pub owned : User → Account → Call (Unit {0})
owned user a = if is_of a user.customer_id then return tt else fail 403

abbrev pub is_client : User → Bool
is_client user = is_role client user.role

-- A CLIENT must be the owner of the account; others need not.
abbrev pub owned_by_client : Env → User → (account : String) → Call (Unit {0})
owned_by_client env user account =
    if is_client user then ask (env.account true account) >>= owned user else return tt

abbrev pub is_positive : Option ℤ → Bool
is_positive none = false
is_positive (some amount) = ltb_ℤ (pos 0) amount

abbrev pub sound_transfer : TransferBody → Bool
sound_transfer b =
    not (str_eq b.source_account "") && not (str_eq b.target_account "") && is_positive b.amount

abbrev pub transfer_event : User → TransferBody → Event
transfer_event user b =
    transfer_requested b.source_account b.target_account (get_or b.amount (pos 0)) user.customer_id
      user.email

-- `TransferController.create`
unfoldable pub create_transfer : Env → (correlation : ℕ) → User → TransferBody → Call Reply
create_transfer env correlation user b =
    if sound_transfer b
    then ask (env.account false b.source_account)
      >>= owned user
      >> publish env (record { correlation_id = correlation; event = transfer_event user b })
      >> return (accepted correlation)
    else fail 400

abbrev pub sound_interbank : InterbankBody → Bool
sound_interbank b =
    not (str_eq b.source_account "")
    && is_some b.destination_bank_code
    && is_some b.destination_account
    && is_positive b.amount
    && leb b.description_length 140

abbrev pub interbank_event : User → InterbankBody → Event
interbank_event user b =
    interbank_requested b.source_account (get_or b.destination_bank_code 0)
      (get_or b.destination_account []) (get_or b.amount (pos 0)) b.description user.customer_id

-- `InterbankTransferController.create`
unfoldable pub create_interbank : Env → (correlation : ℕ) → User → InterbankBody → Call Reply
create_interbank env correlation user b =
    if sound_interbank b
    then ask (env.account true b.source_account)
      >>= owned user
      >> publish env (record { correlation_id = correlation; event = interbank_event user b })
      >> return (accepted correlation)
    else fail 400

abbrev pub show_status : Env → User → Transaction → Call Reply
show_status env user t = owned_by_client env user t.source_account >> return (shown_transaction t)

-- `status` of both controllers
unfoldable pub status : Env → User → (correlation : ℕ) → Call Reply
status env user correlation = ask (env.transaction correlation) >>= show_status env user

-- `TransactionController.history`
unfoldable pub history : Env → User → HistoryQueryParams → Call Reply
history env user q =
    if str_eq (get_or q.account_id "") ""
    then fail 400
    else owned_by_client env user (get_or q.account_id "")
      >> (ask (env.history q) >>= λ r. return (shown_history r))

abbrev pub show_account : User → Account → Call Reply
show_account user a =
    if is_client user && not (is_of a user.customer_id) then fail 403 else return (shown_account a)

-- `AccountController.get`
unfoldable pub get_account : Env → User → (id : String) → Call Reply
get_account env user id = ask (env.account false id) >>= show_account user
