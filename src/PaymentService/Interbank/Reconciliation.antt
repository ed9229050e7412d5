-- ===== src/PaymentService/Interbank/Reconciliation.antt =====
-- The daily reconciliation: `reconciliation`, which a partner bank calls, and `reconcile`, of
-- interbank.service.ts. A day is the number of days since 1970, which is `none` for a text that is no
-- date, and a number of a page that is no natural number is `some none`.
pub mod Pages
pub mod Partners
use proyecto_sa_b.Prelude.{
  ℕ, zero, suc, ◌+◌, ◌-◌, ◌*◌, Bool, true, false, Option, none, some, List, [], ◌∷◌, ◌++◌, ◌==◌,
  ◌&&◌, ◌||◌, not, leb, ltb, get_or, is_some, keep, take, drop, length, map, if◌then◌else◌,
}
use proyecto_sa_b.Prelude.Int.{ℤ}
use proyecto_sa_b.Prelude.Sorting.{sort_by}
use proyecto_sa_b.Prelude.Program.{fail, read}
use proyecto_sa_b.PaymentService.Rules.{ReconItem, ReconIssue, diff_reconciliation}
use proyecto_sa_b.PaymentService.Interbank.{
  Direction, in_coming, out_going, same_direction, State, Transfer, World, Call, validation_error,
  unauthorized,
}
use proyecto_sa_b.PaymentService.Interbank.Outbox.{is_state}

abbrev pub day_ms : ℕ
day_ms = 86400000

-- `And(MoreThanOrEqual(start), LessThan(start + DAY_MS))`
abbrev pub on_day : (day created_at : ℕ) → Bool
on_day day created_at = leb (day * day_ms) created_at && ltb created_at (day * day_ms + day_ms)

abbrev pub is_deposit_of : (caller day : ℕ) → ℕ × Transfer → Bool
is_deposit_of caller day (_, r) =
    same_direction r.direction in_coming
    && r.partner_bank_code == caller
    && is_some r.request_hash
    && on_day day r.created_at

-- `order: { createdAt: 'ASC', id: 'ASC' }`
abbrev pub comes_first : ℕ × Transfer → ℕ × Transfer → Bool
comes_first (i, r) (j, s) = ltb r.created_at s.created_at || r.created_at == s.created_at && leb i j

pub record Item : Type 0 where
  pub interbank_transfer_id : ℕ
  pub amount : ℤ
  pub status : State
  pub updated_at : ℕ

abbrev pub item_for : ℕ × Transfer → Item
item_for (id, r) = record {
  interbank_transfer_id = id;
  amount = r.amount;
  status = r.state;
  updated_at = r.updated_at;
}

pub record PageBody : Type 0 where
  pub total_items : ℕ
  pub items : List Item

abbrev pub deposits_of_day : (caller day : ℕ) → World → List (ℕ × Transfer)
deposits_of_day caller day w = sort_by comes_first (keep (is_deposit_of caller day) w.transfers)

-- `findAndCount`, with `skip` and `take`
abbrev find_page : (caller day page page_size : ℕ) → World → PageBody
find_page caller day page page_size w = record {
  total_items = length (deposits_of_day caller day w);
  items =
      map item_for (take page_size (drop ((page - 1) * page_size) (deposits_of_day caller day w)));
}

-- A number of the query, or what it is without one.
abbrev number_or : ℕ → Option (Option ℕ) → Option ℕ
number_or default none = some default
number_or default (some raw) = raw

abbrev read_page : (caller day : ℕ) → (page page_size : Option ℕ) → Call PageBody
read_page caller day (some page) (some page_size) =
    if not (leb 1 page) || not (leb 1 page_size) || not (leb page_size 500)
    then fail validation_error
    else read (find_page caller day page page_size)
read_page caller day _ _ = fail validation_error

abbrev for_caller : (caller day : Option ℕ) → (page page_size : Option (Option ℕ)) → Call PageBody
for_caller none day page page_size = fail unauthorized
for_caller (some caller) none page page_size = fail validation_error
for_caller (some caller) (some day) page page_size =
    read_page caller day (number_or 1 page) (number_or 100 page_size)

-- `reconciliation`
unfoldable pub reconciliation :
    (caller day : Option ℕ) → (page page_size : Option (Option ℕ)) → Call PageBody
reconciliation caller day page page_size = for_caller caller day page page_size

-- A partner's answer with status 200 and a body, whose fields may be missing.
pub record Answer : Type 0 where
  pub total_items : Option ℕ
  pub items : Option (List ReconItem)

-- The items that the loop over the pages of a partner has at its end.
pub data Fetched : Type 0 where
  unreachable complete : List ReconItem → Fetched
  unfinished : Fetched

-- `theirs.length < total`, where `none` is `Infinity`
abbrev pub is_short : List ReconItem → Option ℕ → Bool
is_short theirs none = true
is_short theirs (some total) = ltb (length theirs) total

abbrev pub is_nil : List ReconItem → Bool
is_nil [] = true
is_nil (x ∷ xs) = false

abbrev pub next_page :
    Option Answer → List ReconItem → (Option ℕ → List ReconItem → Fetched) → Fetched
next_page none theirs again = unreachable theirs
next_page (some a) theirs again =
    if is_nil (get_or a.items [])
    then complete theirs
    else again (some (get_or a.total_items 0)) (theirs ++ get_or a.items [])

-- The loop over the pages, on fuel.
abbrev pub fetch :
    (ask : ℕ → Option Answer) → (fuel page : ℕ) → (total : Option ℕ) → List ReconItem → Fetched
fetch ask zero page total theirs = unfinished
fetch ask (suc fuel) page total theirs =
    if is_short theirs total
    then next_page (ask page) theirs (fetch ask fuel (page + 1))
    else complete theirs

-- Of one partner; `issues` is `none` for UNREACHABLE.
pub record Report : Type 0 where
  pub partner : ℕ
  pub ours : ℕ
  pub theirs : ℕ
  pub issues : Option (List ReconIssue)

abbrev pub our_item : ℕ × Transfer → ReconItem
our_item (id, r) = record { id = id; amount = r.amount; accepted = is_state r.state State.accepted }

abbrev is_sent_to : (partner day : ℕ) → ℕ × Transfer → Bool
is_sent_to partner day (_, r) =
    same_direction r.direction out_going
    && r.partner_bank_code == partner
    && on_day day r.created_at

abbrev pub our_items : (partner day : ℕ) → World → List ReconItem
our_items partner day w = map our_item (keep (is_sent_to partner day) w.transfers)

abbrev pub report : (partner : ℕ) → List ReconItem → Fetched → Option Report
report partner ours unfinished = none
report partner ours (unreachable theirs) =
    some (record { partner = partner; ours = length ours; theirs = length theirs; issues = none })
report partner ours (complete theirs) = some (record {
  partner = partner;
  ours = length ours;
  theirs = length theirs;
  issues = some (diff_reconciliation ours theirs);
})

-- The body of the loop over the partners; `none` where the fuel runs out.
unfoldable pub reconcile_partner :
    (ask : ℕ → Option Answer) → (fuel day partner : ℕ) → World → Option Report
reconcile_partner ask fuel day partner w =
    report partner (our_items partner day w) (fetch ask fuel 1 none [])

abbrev pub add_report : Option Report → Option (List Report) → Option (List Report)
add_report (some first) (some rest) = some (first ∷ rest)
add_report _ _ = none

-- `reconcile`
unfoldable pub reconcile :
    (ask : (partner page : ℕ) → Option Answer)
    → (fuel day : ℕ) → (partners : List ℕ) → World
    → Option (List Report)
reconcile ask fuel day [] w = some []
reconcile ask fuel day (partner ∷ partners) w =
    add_report (reconcile_partner (ask partner) fuel day partner w)
      (reconcile ask fuel day partners w)
