-- ===== src/PaymentService/Interbank/Reconciliation/Pages.antt =====
-- The loop of `reconcile` over the pages of a partner.
use proyecto_sa_b.Prelude.{
  ℕ, zero, suc, ◌+◌, ◌-◌, ◌*◌, ◌≤◌, ◌<◌, ◌≡◌, ◌≢◌, refl, sym, min, ◌∙◌, ap, ◌⊎◌, inl, inr, true,
  false, Option, none, some, List, [], ◌∷◌, ◌++◌, arith, ltb, take, drop, length, length-append,
  length-take, length-drop, append-take-drop, take_all, Bool-cases, Option-cases, get_or,
}
use proyecto_sa_b.PaymentService.Rules.{ReconItem}
use proyecto_sa_b.PaymentService.Interbank.Reconciliation.{
  Answer, Fetched, complete, unfinished, is_short, is_nil, next_page, fetch,
}

-- A partner's answer if it pages a list by 500, as the contract says.
abbrev pub paged : List ReconItem → (page : ℕ) → Option Answer
paged all page = some (record {
  total_items = some (length all);
  items = some (take 500 (drop ((page - 1) * 500) all));
})

-- What has been read when a page is asked for: the pages before it.
record Read (all : List ReconItem) (page : ℕ) (total : Option ℕ) (theirs : List ReconItem)
    : Type 0 where
  so_far : take ((page - 1) * 500) all ≡ theirs
  known : (total ≡ none) ⊎ (total ≡ some (length all))
  above : 1 ≤ page

is_nil_iff : (xs : List ReconItem) → (is_nil xs ≡ true) → length xs ≡ 0
is_nil_iff [] e = refl
is_nil_iff (x ∷ xs) e = cc

nil_length : (xs : List ReconItem) → (is_nil xs ≡ false) → 1 ≤ length xs
nil_length [] e = cc
nil_length (x ∷ xs) e = omega arith

long_read :
    (theirs : List ReconItem) (total : Option ℕ) (n : ℕ)
    → (total ≡ none) ⊎ (total ≡ some n)
    → is_short theirs total ≡ false
    → n ≤ length theirs
long_read theirs none n known long = cc
long_read theirs (some m) n (inl e) long = cc
long_read theirs (some m) n (inr e) long = ground arith

Read-step :
    (all theirs : List ReconItem) (page : ℕ) (total : Option ℕ)
    → Read all page total theirs
    → Read all (page + 1) (some (length all)) (theirs ++ take 500 (drop ((page - 1) * 500) all))
Read-step all theirs page total h =
    let here = take 500 (drop ((page - 1) * 500) all) in
    let e : (page - 1) * 500 + 500 ≡ (page + 1 - 1) * 500 = omega (arith, h.above) in
    record {
      so_far =
          sym (ap (λ n. take n all) e)
          ∙ sym (append-take-drop ((page - 1) * 500) 500 all)
          ∙ ap (λ (xs : List ReconItem). xs ++ here) h.so_far;
      known = inr refl;
      above = omega arith;
    }

fetch_from :
    (ask : ℕ → Option Answer) (all : List ReconItem)
    → ((page : ℕ) → 1 ≤ page → ask page ≡ paged all page)
    → (fuel page : ℕ) (total : Option ℕ) (theirs : List ReconItem) → Read all page total theirs
    → length all - length theirs < fuel
    → fetch ask fuel page total theirs ≡ complete all
fetch_from ask all f zero page total theirs h enough = absurd (omega arith)
fetch_from ask all f (suc fuel) page total theirs h enough =
    let here = take 500 (drop ((page - 1) * 500) all) in
    let read : length theirs ≡ min ((page - 1) * 500) (length all) =
      sym (ap length h.so_far) ∙ length-take ((page - 1) * 500) all in
    let size : length here ≡ min 500 (length all - (page - 1) * 500) =
      length-take 500 (drop ((page - 1) * 500) all)
      ∙ ap (min 500) (length-drop ((page - 1) * 500) all) in
    let whole : length all ≤ (page - 1) * 500 → theirs ≡ all =
      λ past. sym h.so_far ∙ take_all ((page - 1) * 500) all past in
    elim (Bool-cases (is_short theirs total)) [
      | inr long ↦ rw long (
          ap complete
            (whole (omega (arith, read, long_read theirs total (length all) h.known long))))
      | inl short ↦ elim (Bool-cases (is_nil here)) [
        | inl last ↦
            rw (short, f page h.above, last)
              (ap complete (whole (omega (arith, size, is_nil_iff here last))))
        | inr more ↦
            let rest =
              fetch_from ask all f fuel (page + 1) (some (length all)) (theirs ++ here)
                (Read-step all theirs page total h)
                (omega
                  (arith, enough, read, size, length-append theirs here, nil_length here more)) in
            rw (short, f page h.above, more) rest
      ]
    ]

-- From a partner that pages a list of items by 500, as the contract between the banks has it, and
-- whose list does not change meanwhile, the loop reads exactly that list, in its order and nothing
-- twice, however long it is. It makes at most one request more than there are items.
pub fetch-paged :
    (ask : ℕ → Option Answer) (all : List ReconItem) (fuel : ℕ)
    → ((page : ℕ) → 1 ≤ page → ask page ≡ paged all page)
    → length all < fuel
    → fetch ask fuel 1 none [] ≡ complete all
fetch-paged ask all fuel f enough =
    fetch_from ask all f fuel 1 none []
      (record { so_far = refl; known = inl refl; above = omega arith }) (omega arith)

-- The totals that a partner may answer.
abbrev pub Claims : ℕ → Option Answer → Type 0
Claims n none = Unit
Claims n (some a) = get_or a.total_items 0 ≤ n

next_page_ends :
    (n : ℕ) (o : Option Answer) (theirs : List ReconItem)
    (again : Option ℕ → List ReconItem → Fetched)
    → Claims n o
    → ((total : ℕ) (more : List ReconItem)
        → total ≤ n
        → length theirs < length more
        → again (some total) more ≢ unfinished)
    → next_page o theirs again ≢ unfinished
next_page_ends n none theirs again low f = λ e. cc
next_page_ends n (some a) theirs again low f = elim (Bool-cases (is_nil (get_or a.items []))) [
  | inl last ↦ rw last λ e. cc
  | inr more ↦ rw more (
      f (get_or a.total_items 0) (theirs ++ get_or a.items []) low (
        omega
          (arith, length-append theirs (get_or a.items []), nil_length (get_or a.items []) more)))
]

finishes_from :
    (ask : ℕ → Option Answer) (n : ℕ)
    → ((page : ℕ) → Claims n (ask page))
    → (fuel page total : ℕ) (theirs : List ReconItem) → total ≤ n
    → n - length theirs < fuel
    → fetch ask fuel page (some total) theirs ≢ unfinished
finishes_from ask n f zero page total theirs low enough = absurd (omega arith)
finishes_from ask n f (suc fuel) page total theirs low enough =
    elim (Bool-cases (ltb (length theirs) total)) [
      | inr long ↦ rw long λ e. cc
      | inl short ↦ rw short (
          next_page_ends n (ask page) theirs (fetch ask fuel (page + 1)) (f page)
            (λ total' more low' grown.
              finishes_from ask n f fuel (page + 1) total' more low' (ground arith)))
    ]

-- If no answer of a partner gives a total above `n`, the loop ends after at most `n + 2` requests,
-- whatever items the partner answers, none or the same ones again.
pub fetch_ends :
    (ask : ℕ → Option Answer) (n fuel : ℕ)
    → ((page : ℕ) → Claims n (ask page))
    → n + 2 ≤ fuel
    → fetch ask fuel 1 none [] ≢ unfinished
fetch_ends ask n zero f enough = absurd (omega arith)
fetch_ends ask n (suc fuel) f enough =
    next_page_ends n (ask 1) [] (fetch ask fuel (1 + 1)) (f 1)
      (λ total more low grown. finishes_from ask n f fuel (1 + 1) total more low (omega arith))

abbrev pub items_of : Option Answer → List ReconItem
items_of none = []
items_of (some a) = get_or a.items []

abbrev pub total_of : Option Answer → ℕ
total_of none = 0
total_of (some a) = get_or a.total_items 0

-- How many items the first pages of a partner have.
abbrev pub gained : (ℕ → Option Answer) → ℕ → ℕ
gained ask zero = 0
gained ask (suc n) = gained ask n + length (items_of (ask (n + 1)))

-- Each page has items, and gives a total above the number of the items up to it.
abbrev pub RunsAhead : (ℕ → Option Answer) → Type 0
RunsAhead ask =
    (n : ℕ)
    → (is_nil (items_of (ask (n + 1))) ≡ false) × (gained ask (suc n) < total_of (ask (n + 1)))

runs_on :
    (ask : ℕ → Option Answer)
    → RunsAhead ask
    → (fuel n page : ℕ) (total : Option ℕ) (theirs : List ReconItem) → page ≡ n + 1
    → length theirs ≡ gained ask n
    → is_short theirs total ≡ true
    → fetch ask fuel page total theirs ≡ unfinished
runs_on ask f zero n page total theirs here size short = refl
runs_on ask f (suc fuel) n page total theirs here size short = elim (Option-cases (ask (n + 1))) [
  | inl missing ↦ let none_there : true ≡ false = rw missing at (f n).0 in cc
  | inr (a, e) ↦
      let more : is_nil (get_or a.items []) ≡ false = rw e at (f n).0 in
      let above : gained ask n + length (get_or a.items []) < get_or a.total_items 0 =
        rw e at (f n).1 in
      let both = length-append theirs (get_or a.items []) in
      let next : length (theirs ++ get_or a.items []) ≡ gained ask (suc n) =
        rw e (omega (arith, both, size)) in
      rw (short, here, e, more)
        (runs_on ask f fuel (suc n) (n + 1 + 1) (some (get_or a.total_items 0))
          (theirs ++ get_or a.items []) (omega arith) next (ground (arith, both, size, above)))
]

-- A partner whose pages never run out of items, and whose total is always above the number of the items that it
-- has answered so far, keeps the loop going for ever: no number of requests is enough.
pub fetch_never_ends :
    (ask : ℕ → Option Answer) (fuel : ℕ) → RunsAhead ask → fetch ask fuel 1 none [] ≡ unfinished
fetch_never_ends ask fuel f = runs_on ask f fuel 0 1 none [] refl refl refl
