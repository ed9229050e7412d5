-- ===== src/TransactionService/Tests/Query.antt =====
-- A table of three transfers to ask for the history of.
use mathlib.Core.List.{Permᴰ}
use proyecto_sa_b.Prelude.{ℕ, ◌≤◌, ◌≡◌, refl, String, none, some, List, [], ◌∷◌, arith, keep, map}
use proyecto_sa_b.Prelude.Int.{pos}
use proyecto_sa_b.Prelude.Dict.{Dict}
use proyecto_sa_b.Prelude.Sorting.{Ordered}
use proyecto_sa_b.TransactionService.Status.{TransactionStatus, PublicTransactionStatus}
use proyecto_sa_b.TransactionService.Entity.{Transaction}
use proyecto_sa_b.TransactionService.Query.{
  HistoryQuery, HistoryQueryParams, validate, matches, newer, HistoryItem, history_item,
  HistoryResult, page_of, find_by_account, execute, by_account,
}
use proyecto_sa_b.TransactionService.Query.Pages.{
  Answers, execute-Answers, first_pages, first_pages_all,
}

abbrev row : ℕ → String → TransactionStatus → Transaction
row id source status = record {
  transaction_id = id;
  source_account = source;
  target_account = "c";
  amount = pos 500;
  status = status;
  correlation_id = id;
  created_at = 100;
  updated_at = 100;
  failure_reason = none;
  destination_bank_code = none;
  interbank_state = none;
  origin_bank_code = none;
}

abbrev table : Dict Transaction
table =
    (1, row 1 "a" TransactionStatus.completed)
    ∷ (2, row 2 "b" TransactionStatus.completed)
    ∷ (3, row 3 "a" TransactionStatus.failed)
    ∷ (4, row 4 "a" TransactionStatus.processing)
    ∷ []

abbrev query : HistoryQuery
query = record { account_id = "a"; from = some 50; to = none; status = none; page = 1; size = 2 }

abbrev answer : HistoryResult
answer = page_of query (find_by_account query table)

answer_ids : map (λ (i : HistoryItem). i.transaction_id) answer.items ≡ 4 ∷ 3 ∷ []
unfolding find_by_account matches newer history_item
answer_ids = refl

execute-Answers_example : (query.size ≤ 100) × Answers query table answer
unfolding execute validate
execute-Answers_example = execute-Answers query table answer refl

first_pages_all_example :
    (rows : List (ℕ × Transaction)) × Permᴰ rows (keep (matches query) table)
    × Ordered newer rows
    × (first_pages query table 2 ≡ map (history_item "a") rows)
unfolding validate matches
first_pages_all_example = first_pages_all query table 2 refl (omega arith)

-- A page that is no number, and one that is 0.
abbrev params : HistoryQueryParams
params = record {
  account_id = some "a";
  from = none;
  to = none;
  status = some (some PublicTransactionStatus.failed);
  page = none;
  size = none;
}

refused_pages :
    (by_account (record params { page = some none }) table ≡ none)
    × (by_account (record params { page = some (some 0) }) table ≡ none)
unfolding by_account execute validate
refused_pages = (refl, refl)
