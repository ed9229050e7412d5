-- ===== src/TransactionService/Query/Pages.antt =====
-- What the pages of a history show.
use text.Mathlib.Text.{◌==◌ as str_eq}
use mathlib.Core.Path.{subst}
use mathlib.Core.List.{Memᴰ, Permᴰ}
use proyecto_sa_b.Prelude.{
  ℕ, zero, suc, ◌+◌, ◌-◌, ◌*◌, ◌≤◌, ◌≡◌, refl, sym, ◌∙◌, ap, ◌⊎◌, inl, inr, true, Option, none,
  some, List, [], ◌++◌, arith, take, drop, keep, map, length, length-take, length-map, map-append,
  map-All, append-take-drop, take_all, Option-cases, All, All-map, All-take, All-drop, keep-All,
}
use proyecto_sa_b.Prelude.Dict.{Dict}
use proyecto_sa_b.Prelude.Action.{Result, ok, err}
use proyecto_sa_b.Prelude.Sorting.{Ordered, sort_by-Perm, sort_by-Ordered, All-Perm, length-Perm}
use proyecto_sa_b.TransactionService.Status.{PublicTransactionStatus, to_public_status}
use proyecto_sa_b.TransactionService.Status.Grouping.{to_public_status_iff}
use proyecto_sa_b.TransactionService.Entity.{Transaction}
use proyecto_sa_b.TransactionService.Query.{
  InvalidHistoryQuery, HistoryQuery, validate, not_before, not_after, has_status, matches, newer,
  all_rows, find_by_account, HistoryItem, history_item, HistoryResult, page_of, execute,
}

-- An item of an answer to a query: a row of the table, of the account, between the two dates, and
-- with the status that was asked for, if one was.
pub record Shows (q : HistoryQuery) (repository : Dict Transaction) (i : HistoryItem) : Type 0 where
  pub row : ℕ × Transaction
  pub there : Memᴰ row repository
  pub item : i ≡ history_item q.account_id row
  pub concerned :
      (str_eq i.source_account q.account_id ≡ true) ⊎ (str_eq i.target_account q.account_id ≡ true)
  pub since : not_before q.from i.created_at ≡ true
  pub until : not_after q.to i.created_at ≡ true
  pub asked : (q.status ≡ none) ⊎ (i.status ≡ q.status)

asked_for :
    (o : Option PublicTransactionStatus) (t : Transaction)
    → has_status o t.status ≡ true
    → (o ≡ none) ⊎ (to_public_status t.status ≡ o)
asked_for none t e = inl refl
asked_for (some p) t e =
    let (shown, is_shown, each) = to_public_status_iff t.status in inr ((each p).0 e)

Shows-row :
    (q : HistoryQuery) (repository : Dict Transaction) (row : ℕ × Transaction)
    → (matches q row ≡ true) × Memᴰ row repository
    → Shows q repository (history_item q.account_id row)
unfolding matches history_item
Shows-row q repository (id, t) (e, m) = record {
  row = (id, t);
  there = m;
  item = refl;
  concerned = ground arith;
  since = ground arith;
  until = ground arith;
  asked = asked_for q.status t (ground arith);
}

all_rows-All :
    (q : HistoryQuery) (repository : Dict Transaction)
    → All (λ row. (matches q row ≡ true) × Memᴰ row repository) (all_rows q repository)
all_rows-All q repository =
    All-Perm (λ row. (matches q row ≡ true) × Memᴰ row repository)
      (sort_by-Perm newer (keep (matches q) repository)) (keep-All (matches q) repository)

-- Everything an answer to a query says of the rows.
pub record Answers (q : HistoryQuery) (repository : Dict Transaction) (r : HistoryResult)
    : Type 0 where
  pub short : length r.items ≤ q.size
  pub total : r.total ≡ length (keep (matches q) repository)
  pub shown : All (Shows q repository) r.items

page_of-Answers :
    (q : HistoryQuery) (repository : Dict Transaction)
    → Answers q repository (page_of q (find_by_account q repository))
unfolding find_by_account
page_of-Answers q repository =
    let rows = drop ((q.page - 1) * q.size) (all_rows q repository) in
    let P : ℕ × Transaction → Type 0 = λ row. (matches q row ≡ true) × Memᴰ row repository in
    let fit : All P (take q.size rows) =
      All-take P q.size rows
        (All-drop P ((q.page - 1) * q.size) (all_rows q repository) (all_rows-All q repository)) in
    record {
      short = omega (
        arith,
        length-map (history_item q.account_id) (take q.size rows),
        length-take q.size rows,
      );
      total = length-Perm (sort_by-Perm newer (keep (matches q) repository));
      shown =
          map-All (history_item q.account_id) (Shows q repository) (take q.size rows)
            (All-map (Shows-row q repository) (take q.size rows) fit);
    }

valid_size : (q : HistoryQuery) → validate q ≡ none → (1 ≤ q.size) × (q.size ≤ 100)
unfolding validate
valid_size q e = ground arith

valid_page :
    (q : HistoryQuery) (n : ℕ) → validate q ≡ none → validate (record q { page = n + 1 }) ≡ none
unfolding validate
valid_page q n e = ground arith

-- If the query of a history is answered, the answer has at most as many items as were asked for,
-- and at most 100, its `total` counts all the rows that match, and each item is a row of the
-- table, of the account, between the two dates, and with the public status that was asked for,
-- if one was.
pub execute-Answers :
    (q : HistoryQuery) (repository : Dict Transaction) (r : HistoryResult)
    → execute q repository ≡ ok r
    → (q.size ≤ 100) × Answers q repository r
unfolding execute
execute-Answers q repository r e = elim (Option-cases (validate q)) [
  | inr (bad, refused) ↦ let no : err bad ≡ ok r = rw refused at e in cc
  | inl valid ↦
      let same : ok (page_of q (find_by_account q repository)) ≡ ok r = rw valid at e in
      let found : page_of q (find_by_account q repository) ≡ r = cc in
      ((valid_size q valid).1, subst (Answers q repository) found (page_of-Answers q repository))
]

-- The pages up to a number, one after the other.
abbrev items_of : Result InvalidHistoryQuery HistoryResult → List HistoryItem
items_of (ok r) = r.items
items_of (err e) = []

abbrev pub first_pages : HistoryQuery → Dict Transaction → ℕ → List HistoryItem
first_pages q repository zero = []
first_pages q repository (suc n) =
    first_pages q repository n ++ items_of (execute (record q { page = n + 1 }) repository)

first_pages-take :
    (q : HistoryQuery) (repository : Dict Transaction)
    → validate q ≡ none
    → (n : ℕ)
    → first_pages q repository n
      ≡ map (history_item q.account_id) (take (n * q.size) (all_rows q repository))
unfolding execute find_by_account matches
first_pages-take q repository valid zero = let e : 0 * q.size ≡ 0 = omega arith in rw e refl
first_pages-take q repository valid (suc n) =
    let f = history_item q.account_id in
    let rows = all_rows q repository in
    let start : (n + 1 - 1) * q.size ≡ n * q.size = ap (λ k. k * q.size) (omega arith) in
    let far : n * q.size + q.size ≡ suc n * q.size = omega arith in
    rw (valid_page q n valid, start, first_pages-take q repository valid n)
      (sym (map-append f (take (n * q.size) rows) (take q.size (drop (n * q.size) rows)))
        ∙ ap (map f) (append-take-drop (n * q.size) q.size rows)
        ∙ ap (λ k. map f (take k rows)) far)

newer_total : (x y : ℕ × Transaction) → (newer x y ≡ true) ⊎ (newer y x ≡ true)
unfolding newer
newer_total (i, t) (j, u) = ground arith

newer_follows : (x y z : ℕ × Transaction) → newer x y ≡ true → newer y z ≡ true → newer x z ≡ true
unfolding newer
newer_follows (i, t) (j, u) (k, v) e e' = ground arith

-- The pages of a query that is valid, one after the other until they hold as many items as rows
-- match, and all read from the same table, list each matching row exactly once, the newest
-- first.
pub first_pages_all :
    (q : HistoryQuery) (repository : Dict Transaction) (n : ℕ)
    → validate q ≡ none
    → length (keep (matches q) repository) ≤ n * q.size
    → (rows : List (ℕ × Transaction)) × Permᴰ rows (keep (matches q) repository)
      × Ordered newer rows
      × (first_pages q repository n ≡ map (history_item q.account_id) rows)
first_pages_all q repository n valid enough =
    let found = keep (matches q) repository in
    let rows = all_rows q repository in
    let same = sort_by-Perm newer found in
    let whole = take_all (n * q.size) rows (omega (arith, enough, length-Perm same)) in
    (
      rows,
      same,
      sort_by-Ordered newer newer_total newer_follows found,
      first_pages-take q repository valid n ∙ ap (map (history_item q.account_id)) whole,
    )
