-- ===== src/PaymentService/Rules/Reconciliation.antt =====
-- When the daily reconciliation finds nothing.
use proyecto_sa_b.Prelude.{
  ◌≡◌, ◌↔◌, true, false, Option, none, some, List, [], ◌∷◌, ◌++◌, arith, All, is_some,
}
use proyecto_sa_b.Prelude.Int.{int_laws}
use proyecto_sa_b.PaymentService.Rules.{
  ReconItem, ReconIssue, item_of, compare_item, missing_item, compare_all, missing_all,
  diff_reconciliation,
}

-- What one of our transfers must be to the partner's item of its id: not accepted if there is
-- none, else of the same amount and accepted on both sides or on neither.
abbrev pub AgreesWith : ReconItem → Option ReconItem → Type 0
AgreesWith mine none = mine.accepted ≡ false
AgreesWith mine (some other) = (mine.amount ≡ other.amount) × (mine.accepted ≡ other.accepted)

-- An accepted item of the partner must be one of ours.
abbrev pub IsKnown : List ReconItem → ReconItem → Type 0
IsKnown ours other = other.accepted ≡ true → is_some (item_of other.id ours) ≡ true

append_nil : (xs ys : List ReconIssue) → (xs ++ ys ≡ []) ↔ ((xs ≡ []) × (ys ≡ []))
append_nil [] ys = ground arith
append_nil (x ∷ xs) ys = ground arith

compare_item_nil :
    (mine : ReconItem) (other : Option ReconItem)
    → (compare_item mine other ≡ []) ↔ AgreesWith mine other
compare_item_nil mine none = ground arith
compare_item_nil mine (some other) = grind int_laws

missing_item_nil :
    (ours : List ReconItem) (other : ReconItem)
    → (missing_item (item_of other.id ours) other ≡ []) ↔ IsKnown ours other
missing_item_nil ours other = ground arith

compare_all_nil :
    (ours theirs : List ReconItem)
    → (compare_all ours theirs ≡ []) ↔ All (λ mine. AgreesWith mine (item_of mine.id theirs)) ours
compare_all_nil [] theirs = ground arith
compare_all_nil (mine ∷ ours) theirs =
    let here = compare_item_nil mine (item_of mine.id theirs) in
    let rest = compare_all_nil ours theirs in
    let both = append_nil (compare_item mine (item_of mine.id theirs)) (compare_all ours theirs) in
    (λ e. (here.0 (both.0 e).0, rest.0 (both.0 e).1), λ h. both.1 (here.1 h.0, rest.1 h.1))

missing_all_nil :
    (ours theirs : List ReconItem) → (missing_all ours theirs ≡ []) ↔ All (IsKnown ours) theirs
missing_all_nil ours [] = ground arith
missing_all_nil ours (other ∷ theirs) =
    let here = missing_item_nil ours other in
    let rest = missing_all_nil ours theirs in
    let both = append_nil (missing_item (item_of other.id ours) other) (missing_all ours theirs) in
    (λ e. (here.0 (both.0 e).0, rest.0 (both.0 e).1), λ h. both.1 (here.1 h.0, rest.1 h.1))

-- The reconciliation reports nothing exactly if each of our transfers agrees with the partner's
-- last item of its id, and each accepted item of the partner is one of ours.
pub diff_reconciliation_nil :
    (ours theirs : List ReconItem)
    → (diff_reconciliation ours theirs ≡ [])
      ↔ (All (λ mine. AgreesWith mine (item_of mine.id theirs)) ours × All (IsKnown ours) theirs)
unfolding diff_reconciliation
diff_reconciliation_nil ours theirs =
    let mine = compare_all_nil ours theirs in
    let missing = missing_all_nil ours theirs in
    let both = append_nil (compare_all ours theirs) (missing_all ours theirs) in
    (λ e. (mine.0 (both.0 e).0, missing.0 (both.0 e).1), λ h. both.1 (mine.1 h.0, missing.1 h.1))
