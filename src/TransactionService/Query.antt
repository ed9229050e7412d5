-- ===== src/TransactionService/Query.antt =====
-- The queries of transaction-service: get-transaction-history.service.ts, `findByAccount` and the
-- searches of typeorm-transaction.repository.ts, and transaction-query.controller.ts, of
-- apps/transaction-service/src/transaction. A date is in milliseconds. In the parameters of a request
-- a text that is not of its form is `some none`, and an empty one is `none`.
pub mod Pages
use text.Mathlib.Text.{◌==◌ as str_eq}
use proyecto_sa_b.Prelude.{
  ℕ, ◌+◌, ◌-◌, ◌*◌, String, Bool, true, false, Option, none, some, List, [], ◌∷◌, ◌==◌, ◌&&◌, ◌||◌,
  not, ltb, leb, keep, take, drop, length, map, get_or, if◌then◌else◌,
}
use proyecto_sa_b.Prelude.Int.{ℤ}
use proyecto_sa_b.Prelude.Dict.{Dict, lookup}
use proyecto_sa_b.Prelude.Sorting.{sort_by}
use proyecto_sa_b.Prelude.Action.{Result, ok, err}
use proyecto_sa_b.TransactionService.Status.{
  TransactionStatus, PublicTransactionStatus, InterbankState, internal_statuses_for, includes,
  to_public_status,
}
use proyecto_sa_b.TransactionService.Entity.{Transaction}
use proyecto_sa_b.TransactionService.Creation.{find_by_correlation_id}

pub data InvalidHistoryQuery : Type 0 where
  account_required bad_range bad_page bad_size : InvalidHistoryQuery

pub record HistoryQuery : Type 0 where
  pub account_id : String
  pub from : Option ℕ
  pub to : Option ℕ
  pub status : Option PublicTransactionStatus
  pub page : ℕ
  pub size : ℕ

-- `from && to && from.getTime() > to.getTime()`
abbrev pub is_backward : Option ℕ → Option ℕ → Bool
is_backward (some from) (some to) = ltb to from
is_backward _ _ = false

-- `validate`: what it throws.
unfoldable pub validate : HistoryQuery → Option InvalidHistoryQuery
validate q =
    if str_eq q.account_id ""
    then some account_required
    else if is_backward q.from q.to
    then some bad_range
    else if ltb q.page 1
    then some bad_page
    else if ltb q.size 1 || ltb 100 q.size
    then some bad_size
    else none

abbrev pub not_before : Option ℕ → ℕ → Bool
not_before none at = true
not_before (some from) at = leb from at

abbrev pub not_after : Option ℕ → ℕ → Bool
not_after none at = true
not_after (some to) at = leb at to

abbrev pub has_status : Option PublicTransactionStatus → TransactionStatus → Bool
has_status none s = true
has_status (some p) s = includes (internal_statuses_for p) s

-- The conditions of `findByAccount`.
unfoldable pub matches : HistoryQuery → ℕ × Transaction → Bool
matches q (_, t) =
    (str_eq t.source_account q.account_id || str_eq t.target_account q.account_id)
    && not_before q.from t.created_at
    && not_after q.to t.created_at
    && has_status q.status t.status

-- Its order: the newest first, and those of one time by their ids, downwards.
unfoldable pub newer : ℕ × Transaction → ℕ × Transaction → Bool
newer (i, t) (j, u) = ltb u.created_at t.created_at || t.created_at == u.created_at && leb j i

abbrev pub all_rows : HistoryQuery → Dict Transaction → List (ℕ × Transaction)
all_rows q repository = sort_by newer (keep (matches q) repository)

abbrev pub page_rows : HistoryQuery → Dict Transaction → List (ℕ × Transaction)
page_rows q repository = take q.size (drop ((q.page - 1) * q.size) (all_rows q repository))

-- `findByAccount`: the rows of the page, and how many there are in all.
unfoldable pub find_by_account : HistoryQuery → Dict Transaction → List (ℕ × Transaction) × ℕ
find_by_account q repository = (page_rows q repository, length (all_rows q repository))

pub data TransferDirection : Type 0 where
  outgoing incoming : TransferDirection

-- `status` is `none` where `toPublicStatus` throws.
pub record HistoryItem : Type 0 where
  pub transaction_id : ℕ
  pub source_account : String
  pub target_account : String
  pub direction : TransferDirection
  pub amount : ℤ
  pub status : Option PublicTransactionStatus
  pub detailed_status : TransactionStatus
  pub failure_reason : Option String
  pub correlation_id : ℕ
  pub destination_bank_code : Option String
  pub origin_bank_code : Option String
  pub interbank_state : Option InterbankState
  pub created_at : ℕ
  pub updated_at : ℕ

unfoldable pub history_item : (account : String) → ℕ × Transaction → HistoryItem
history_item account (_, t) = record {
  transaction_id = t.transaction_id;
  source_account = t.source_account;
  target_account = t.target_account;
  direction =
      if str_eq t.source_account account
      then TransferDirection.outgoing
      else TransferDirection.incoming;
  amount = t.amount;
  status = to_public_status t.status;
  detailed_status = t.status;
  failure_reason = t.failure_reason;
  correlation_id = t.correlation_id;
  destination_bank_code = t.destination_bank_code;
  origin_bank_code = t.origin_bank_code;
  interbank_state = t.interbank_state;
  created_at = t.created_at;
  updated_at = t.updated_at;
}

pub record HistoryResult : Type 0 where
  pub items : List HistoryItem
  pub page : ℕ
  pub size : ℕ
  pub total : ℕ

abbrev pub page_of : HistoryQuery → List (ℕ × Transaction) × ℕ → HistoryResult
page_of q (rows, total) = record {
  items = map (history_item q.account_id) rows;
  page = q.page;
  size = q.size;
  total = total;
}

abbrev pub unless_invalid :
    Option InvalidHistoryQuery → HistoryResult → Result InvalidHistoryQuery HistoryResult
unless_invalid (some e) r = err e
unless_invalid none r = ok r

-- `execute`
unfoldable pub execute : HistoryQuery → Dict Transaction → Result InvalidHistoryQuery HistoryResult
execute q repository = unless_invalid (validate q) (page_of q (find_by_account q repository))

pub record HistoryQueryParams : Type 0 where
  pub account_id : Option String
  pub from : Option (Option ℕ)
  pub to : Option (Option ℕ)
  pub status : Option (Option PublicTransactionStatus)
  pub page : Option (Option ℕ)
  pub size : Option (Option ℕ)

-- `parseDate`, and the test of the status: `none` where they throw.
abbrev pub optional : {A : Type 0} → Option (Option A) → Option (Option A)
optional none = some none
optional (some none) = none
optional (some (some a)) = some (some a)

-- `parseIntParam`
abbrev pub number_param : Option (Option ℕ) → (fallback : ℕ) → Option ℕ
number_param none fallback = some fallback
number_param (some n) fallback = n

abbrev pub query_of :
    (account : String)
    → (from to : Option (Option ℕ)) → Option (Option PublicTransactionStatus)
    → (page size : Option ℕ) → Option HistoryQuery
query_of account (some from) (some to) (some status) (some page) (some size) = some (record {
  account_id = account;
  from = from;
  to = to;
  status = status;
  page = page;
  size = size;
})
query_of account _ _ _ _ _ = none

-- An error is answered with 400.
abbrev pub bad_request : Result InvalidHistoryQuery HistoryResult → Option HistoryResult
bad_request (ok r) = some r
bad_request (err e) = none

abbrev pub executed : Option HistoryQuery → Dict Transaction → Option HistoryResult
executed none repository = none
executed (some q) repository = bad_request (execute q repository)

-- `byAccount`; `none` is its answer 400.
unfoldable pub by_account : HistoryQueryParams → Dict Transaction → Option HistoryResult
by_account p repository =
    executed
      (query_of (get_or p.account_id "") (optional p.from) (optional p.to) (optional p.status)
        (number_param p.page 1) (number_param p.size 20))
      repository

-- `byId`; `none` is its answer 404.
unfoldable pub by_id : ℕ → Dict Transaction → Option Transaction
by_id id repository = lookup id repository

-- `byCorrelation`; `none` is its answer 404.
unfoldable pub by_correlation : ℕ → Dict Transaction → Option Transaction
by_correlation correlation repository = find_by_correlation_id correlation repository
