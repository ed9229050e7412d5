-- ===== src/PaymentService/Interbank/Reconciliation/Partners.antt =====
-- The reconciliation between two banks: one that runs payment-service reads the pages of another one,
-- and of the simulated bank.
use mathlib.Core.List.{Permᴰ}
use proyecto_sa_b.Prelude.{
  ℕ, ◌-◌, ◌*◌, ◌≤◌, ◌<◌, ◌≡◌, ◌↔◌, refl, sym, ◌∙◌, ap, true, Option, none, some, List, [], ◌∷◌,
  arith, leb, take, drop, keep, map, length, length-map, map-take, map-drop, get_or, All,
}
use proyecto_sa_b.Prelude.Action.{Result, ok, err}
use proyecto_sa_b.Prelude.Program.{fail, read}
use proyecto_sa_b.Prelude.Sorting.{sort_by-Perm, length-Perm}
use proyecto_sa_b.PaymentService.Rules.{ReconItem, item_of, diff_reconciliation}
use proyecto_sa_b.PaymentService.Rules.Reconciliation.{AgreesWith, IsKnown, diff_reconciliation_nil}
use proyecto_sa_b.PaymentService.Interbank.{State, Transfer, World, Failure}
use proyecto_sa_b.PaymentService.Interbank.Outbox.{is_state}
use proyecto_sa_b.PaymentService.Interbank.Reconciliation.{
  is_deposit_of, comes_first, Item, item_for, PageBody, deposits_of_day, reconciliation, Answer,
  complete, fetch, our_item, our_items, Report, reconcile_partner,
}
use proyecto_sa_b.PaymentService.Interbank.Reconciliation.Pages.{paged, fetch-paged}

abbrev read_item : Item → ReconItem
read_item i = record {
  id = i.interbank_transfer_id;
  amount = i.amount;
  accepted = is_state i.status State.accepted;
}

-- A body over HTTP; an error has another status than 200.
abbrev answer_of : Result Failure PageBody → Option Answer
answer_of (err e) = none
answer_of (ok body) =
    some (record { total_items = some body.total_items; items = some (map read_item body.items) })

-- Another payment-service as the partner of the bank `caller`.
abbrev pub ask_service : (caller day : ℕ) → World → (page : ℕ) → Option Answer
ask_service caller day w page =
    answer_of (reconciliation (some caller) (some day) (some (some page)) (some (some 500)) w).0

map-map : (xs : List (ℕ × Transfer)) → map read_item (map item_for xs) ≡ map our_item xs
map-map [] = refl
map-map (x ∷ xs) = ap (λ ys. our_item x ∷ ys) (map-map xs)

ask_service-paged :
    (caller day : ℕ) (w : World) (page : ℕ)
    → 1 ≤ page
    → ask_service caller day w page ≡ paged (map our_item (deposits_of_day caller day w)) page
unfolding reconciliation fail read
ask_service-paged caller day w page above =
    let rows = deposits_of_day caller day w in
    let first : leb 1 page ≡ true = ground arith in
    let total : length rows ≡ length (map our_item rows) = sym (length-map our_item rows) in
    let cut : map read_item (map item_for (take 500 (drop ((page - 1) * 500) rows)))
        ≡ take 500 (drop ((page - 1) * 500) (map our_item rows)) =
      map-map (take 500 (drop ((page - 1) * 500) rows))
      ∙ map-take our_item 500 (drop ((page - 1) * 500) rows)
      ∙ ap (take 500) (map-drop our_item ((page - 1) * 500) rows) in
    rw (first, total, cut) refl

-- With more requests allowed than there are such deposits, and while the table stays as it is, a
-- bank that reconciles with another payment-service reads each deposit of the day that this one
-- has from it, once, and nothing else, over however many pages.
pub fetch-reconciliation :
    (caller day fuel : ℕ) (w : World)
    → length (keep (is_deposit_of caller day) w.transfers) < fuel
    → (rows : List (ℕ × Transfer)) × Permᴰ rows (keep (is_deposit_of caller day) w.transfers)
      × (fetch (ask_service caller day w) fuel 1 none [] ≡ complete (map our_item rows))
fetch-reconciliation caller day fuel w enough =
    let found = keep (is_deposit_of caller day) w.transfers in
    let rows = deposits_of_day caller day w in
    let same = sort_by-Perm comes_first found in
    (
      rows,
      same,
      fetch-paged (ask_service caller day w) (map our_item rows) fuel
          (ask_service-paged caller day w)
          (omega (arith, enough, length-map our_item rows, length-Perm same)),
    )

-- `reconcile` between two banks that run this service, of which the first is `own` to the
-- second, while their tables stay as they are: with more requests allowed than the day has
-- deposits it is done, and it reports nothing exactly if each transfer that the first has sent
-- that day agrees with the second's deposit of its id, and each deposit that the second has
-- accepted is one of these.
pub reconcile_partner-nil :
    (own partner day fuel : ℕ) (w w' : World)
    → length (deposits_of_day own day w') < fuel
    → (r : Report) × (reconcile_partner (ask_service own day w') fuel day partner w ≡ some r)
      × ((r.issues ≡ some []) ↔ (
          let ours = our_items partner day w in
          let theirs = map our_item (deposits_of_day own day w') in
          All (λ mine. AgreesWith mine (item_of mine.id theirs)) ours × All (IsKnown ours) theirs))
unfolding reconcile_partner
reconcile_partner-nil own partner day fuel w w' enough =
    let ours = our_items partner day w in
    let theirs = map our_item (deposits_of_day own day w') in
    let pages =
      fetch-paged (ask_service own day w') theirs fuel (ask_service-paged own day w')
        (omega (arith, enough, length-map our_item (deposits_of_day own day w'))) in
    let (there, back) = diff_reconciliation_nil ours theirs in
    (
      record {
        partner = partner;
        ours = length ours;
        theirs = length theirs;
        issues = some (diff_reconciliation ours theirs);
      },
      rw pages refl,
      (λ e. there (ap (λ o. get_or o []) e), λ h. ap some (back h)),
    )
