-- ===== src/PaymentService/Rules.antt =====
-- The rules of the contract between banks: interbank.rules.ts of
-- apps/payment-service/src/interbank. Times are in milliseconds, amounts in whole cents, ids are
-- numbers, and a text that is none of those that the code compares is `none`.
pub mod Backoff
pub mod Reconciliation
use proyecto_sa_b.Prelude.{
  ℕ, ◌+◌, ◌*◌, ◌^◌, min, Bool, true, false, Option, none, some, List, [], ◌∷◌, ◌++◌, ◌==◌, ◌&&◌,
  ◌||◌, not, leb, is_some, if◌then◌else◌,
}
use proyecto_sa_b.Prelude.{map, keep}
use proyecto_sa_b.Prelude.Int.{ℤ, pos, negsuc, eqb_ℤ}
use proyecto_sa_b.AccountService.Rules.{lower}

pub data OutState : Type 0 where
  pending sent accepted rejected timeout reversed : OutState

-- `accountId.replace(/-/g, '').toLowerCase()`, on codes
unfoldable pub to_external_account : List ℕ → List ℕ
to_external_account account = map lower (keep (λ c. not (c == b'-')) account)

-- `Math.max(0, attempt)`
abbrev pub attempt_of : ℤ → ℕ
attempt_of (pos n) = n
attempt_of (negsuc n) = 0

unfoldable pub backoff_ms : (attempt : ℤ) → (base cap : ℕ) → ℕ
backoff_ms attempt base cap = min cap (base * 2 ^ attempt_of attempt)

pub data Verdict : Type 0 where
  accepted rejected : Verdict

pub data CallbackDecision : Type 0 where
  apply ignore conflict late_accepted : CallbackDecision

unfoldable pub callback_decision : OutState → Verdict → CallbackDecision
callback_decision OutState.accepted Verdict.accepted = ignore
callback_decision OutState.accepted Verdict.rejected = conflict
callback_decision OutState.rejected Verdict.accepted = late_accepted
callback_decision OutState.rejected Verdict.rejected = ignore
callback_decision OutState.reversed Verdict.accepted = late_accepted
callback_decision OutState.reversed Verdict.rejected = ignore
callback_decision _ _ = apply

pub data Resolution : Type 0 where
  accept release cancel retry : Resolution

-- A response over HTTP; `said` is the field of the body that the rule reads.
pub record Response (A : Type 0) : Type 0 where
  pub network_error : Bool
  pub status : ℕ
  pub said : Option A

pub data PartnerStatus : Type 0 where
  accepted rejected cancelled processing : PartnerStatus

abbrev queried : Option PartnerStatus → Resolution
queried (some PartnerStatus.accepted) = accept
queried (some PartnerStatus.rejected) = release
queried (some PartnerStatus.cancelled) = release
queried (some PartnerStatus.processing) = cancel
queried none = retry

unfoldable pub resolve_query : Response PartnerStatus → Resolution
resolve_query r =
    if r.network_error
    then retry
    else if r.status == 200
    then queried r.said
    else if r.status == 404
    then cancel
    else retry

pub data CancelAnswer : Type 0 where
  cancelled already_rejected already_accepted : CancelAnswer

abbrev answered : Option CancelAnswer → Resolution
answered (some CancelAnswer.cancelled) = release
answered (some CancelAnswer.already_rejected) = release
answered (some CancelAnswer.already_accepted) = accept
answered none = retry

unfoldable pub resolve_cancel : Response CancelAnswer → Resolution
resolve_cancel r = if r.network_error || not (r.status == 200) then retry else answered r.said

unfoldable pub margin_expired : (expires_at now margin_seconds : ℕ) → Bool
margin_expired expires_at now margin_seconds = leb (expires_at + margin_seconds * 1000) now

-- A transfer of a day; `accepted` says whether its status is ACCEPTED.
pub record ReconItem : Type 0 where
  pub id : ℕ
  pub amount : ℤ
  pub accepted : Bool

pub data IssueType : Type 0 where
  missing_at_partner missing_locally status_mismatch amount_mismatch : IssueType

pub record ReconIssue : Type 0 where
  pub id : ℕ
  pub type : IssueType

-- `new Map(items.map((x) => [x.id, x])).get(id)`: the last item of the id.
abbrev pub item_of : ℕ → List ReconItem → Option ReconItem
item_of id [] = none
item_of id (x ∷ xs) =
    let later = item_of id xs in
    if is_some later then later else if x.id == id then some x else none

abbrev pub issue_if : Bool → ℕ → IssueType → List ReconIssue
issue_if c id type = if c then record { id = id; type = type } ∷ [] else []

abbrev pub differ : Bool → Bool → Bool
differ true b = not b
differ false b = b

-- The first loop's body, and the second's.
abbrev pub compare_item : ReconItem → Option ReconItem → List ReconIssue
compare_item mine none = issue_if mine.accepted mine.id missing_at_partner
compare_item mine (some other) =
    issue_if (not (eqb_ℤ mine.amount other.amount)) mine.id amount_mismatch
    ++ issue_if (differ mine.accepted other.accepted) mine.id status_mismatch

abbrev pub missing_item : Option ReconItem → ReconItem → List ReconIssue
missing_item known other = issue_if (not (is_some known) && other.accepted) other.id missing_locally

abbrev pub compare_all : List ReconItem → List ReconItem → List ReconIssue
compare_all [] theirs = []
compare_all (mine ∷ ours) theirs =
    compare_item mine (item_of mine.id theirs) ++ compare_all ours theirs

abbrev pub missing_all : List ReconItem → List ReconItem → List ReconIssue
missing_all ours [] = []
missing_all ours (other ∷ theirs) =
    missing_item (item_of other.id ours) other ++ missing_all ours theirs

unfoldable pub diff_reconciliation : List ReconItem → List ReconItem → List ReconIssue
diff_reconciliation ours theirs = compare_all ours theirs ++ missing_all ours theirs
