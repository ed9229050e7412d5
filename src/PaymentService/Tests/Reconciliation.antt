-- ===== src/PaymentService/Tests/Reconciliation.antt =====
-- Two banks with a deposit between them, and the lists of a day.
use mathlib.Core.List.{Permᴰ}
use proyecto_sa_b.Prelude.{
  ℕ, zero, suc, ◌+◌, ◌≡◌, ◌≢◌, ◌↔◌, refl, true, false, Option, none, some, List, [], ◌∷◌, arith,
  All, keep, map,
}
use proyecto_sa_b.Prelude.Int.{pos}
use proyecto_sa_b.Prelude.Program.{read}
use proyecto_sa_b.PaymentService.Rules.{IssueType, item_of, diff_reconciliation}
use proyecto_sa_b.PaymentService.Rules.Reconciliation.{AgreesWith, IsKnown}
use proyecto_sa_b.PaymentService.Interbank.{State, Transfer, World, in_coming}
use proyecto_sa_b.PaymentService.Interbank.Sender.{outgoing}
use proyecto_sa_b.PaymentService.Interbank.History.{no_rows}
use proyecto_sa_b.PaymentService.Interbank.Reconciliation.{
  is_deposit_of, deposits_of_day, reconciliation, Answer, complete, unfinished, fetch, our_item,
  our_items, Report, reconcile_partner, reconcile,
}
use proyecto_sa_b.PaymentService.Interbank.Reconciliation.Pages.{
  Claims, fetch_ends, gained, RunsAhead, fetch_never_ends,
}
use proyecto_sa_b.PaymentService.Interbank.Reconciliation.Partners.{
  ask_service, fetch-reconciliation, reconcile_partner-nil,
}

abbrev sent_row : ℕ → Transfer
sent_row at =
    record (outgoing at 2 (some (b'a' ∷ [])) (some (b'b' ∷ [])) (pos 1500) none (some 4) 5 false) {
      state = State.accepted;
    }

abbrev received_row : ℕ → Transfer
received_row at = record (sent_row at) {
  direction = in_coming;
  partner_bank_code = 1;
  request_hash = some 77;
}

abbrev sender : World
sender = record no_rows { transfers = (6, sent_row 90000000) ∷ [] }

abbrev receiver : ℕ → World
receiver at = record no_rows { transfers = (6, received_row at) ∷ (5, received_row 90000000) ∷ [] }

fetch-reconciliation_example :
    (rows : List (ℕ × Transfer)) × Permᴰ rows
      (keep (is_deposit_of 1 1) (receiver 90001000).transfers)
    × (fetch (ask_service 1 1 (receiver 90001000)) 3 1 none [] ≡ complete (map our_item rows))
fetch-reconciliation_example = fetch-reconciliation 1 1 3 (receiver 90001000) (omega arith)

reconcile_partner-nil_example :
    (r : Report) × (reconcile_partner (ask_service 1 1 (receiver 90001000)) 3 1 2 sender ≡ some r)
    × ((r.issues ≡ some []) ↔ (
        All
          (λ mine.
            AgreesWith mine
              (item_of mine.id (map our_item (deposits_of_day 1 1 (receiver 90001000)))))
          (our_items 2 1 sender)
        × All
            (IsKnown (our_items 2 1 sender))
            (map our_item (deposits_of_day 1 1 (receiver 90001000)))))
reconcile_partner-nil_example =
    reconcile_partner-nil 1 2 1 3 sender (receiver 90001000) (omega arith)

-- A transfer sent in the last second of a day and received on the next one is missing on both days.
abbrev before_midnight : World
before_midnight = record no_rows { transfers = (6, sent_row 172799500) ∷ [] }

abbrev after_midnight : World
after_midnight = record no_rows { transfers = (6, received_row 172800500) ∷ [] }

midnight_sent :
    reconcile (λ partner. ask_service 1 1 after_midnight) 9 1 (2 ∷ []) before_midnight
    ≡ some (
        record {
          partner = 2;
          ours = 1;
          theirs = 0;
          issues = some (record { id = 6; type = IssueType.missing_at_partner } ∷ []);
        }
        ∷ [])
unfolding reconcile reconcile_partner reconciliation diff_reconciliation read
midnight_sent = refl

-- A partner that answers the same item again and again.
abbrev stuck : ℕ → Option Answer
stuck page = some (record {
  total_items = some 3;
  items = some (record { id = 1; amount = pos 5; accepted = true } ∷ []);
})

stuck-Claims : (page : ℕ) → Claims 3 (stuck page)
stuck-Claims page = omega arith

fetch_ends_example : fetch stuck 5 1 none [] ≢ unfinished
fetch_ends_example = fetch_ends stuck 3 5 stuck-Claims (omega arith)

-- A partner that answers one item on each page, and one more in its total than there have been.
abbrev growing : ℕ → Option Answer
growing page = some (record {
  total_items = some (page + 1);
  items = some (record { id = page; amount = pos 5; accepted = true } ∷ []);
})

gained-growing : (n : ℕ) → gained growing n ≡ n
gained-growing zero = refl
gained-growing (suc n) = omega (arith, gained-growing n)

growing-RunsAhead : RunsAhead growing
growing-RunsAhead n = (refl, omega (arith, gained-growing n))

fetch_never_ends_example : fetch growing 1000 1 none [] ≡ unfinished
fetch_never_ends_example = fetch_never_ends growing 1000 growing-RunsAhead
