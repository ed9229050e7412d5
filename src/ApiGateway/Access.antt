-- ===== src/ApiGateway/Access.antt =====
-- Whom the gateway lets do what: a controller that asks for a transfer or shows one.
pub mod Requests
pub mod History
use text.Mathlib.Text.{◌==◌ as str_eq}
use mathlib.Core.Path.{subst}
use mathlib.Core.List.{Memᴰ}
use proyecto_sa_b.Prelude.{
  ℕ, String, ◌≡◌, refl, sym, ◌∙◌, ap, ◌⊎◌, inl, inr, Bool, true, false, not, ◌&&◌, ◌||◌, Option,
  none, some, List, [], ◌∷◌, ◌++◌, ◌==◌, arith, Bool-cases, Option-cases, All, get_or,
  if◌then◌else◌,
}
use proyecto_sa_b.Prelude.Int.{ℤ, pos, ltb_ℤ}
use proyecto_sa_b.Prelude.Action.{Result, ok, err}
use proyecto_sa_b.Prelude.Program.{return, fail, write, ◌>>=◌, ◌>>◌}
use proyecto_sa_b.Prelude.Program.Keeps.{Keeps, write-Keeps, bind-Keeps, program_rules}
use proyecto_sa_b.TransactionService.Query.{HistoryQueryParams}
use proyecto_sa_b.ApiGateway.{
  Role, client, User, Authorization, Account, Event, transfer_requested, interbank_requested,
  Published, Forward, ContractPath, contract_call, World, Call, Upstream, answered, refused,
  unreachable, Env, Reply, shown_history, ask, publish, pass_on, resolve_correlation_id,
}
use proyecto_sa_b.ApiGateway.Guards.{
  TransferBody, InterbankBody, PartnerHeaders, Route, is_public, roles_of, is_role, has_role,
  allowed, verified, token_user, jwt_guard, roles_guard,
}
use proyecto_sa_b.ApiGateway.Transfers.{
  is_of, owned, is_client, owned_by_client, is_positive, sound_transfer, transfer_event,
  create_transfer, sound_interbank, interbank_event, create_interbank, status, history, get_account,
}
use proyecto_sa_b.ApiGateway.Contract.{same_bytes, find_key, bank_for_key, guarded_bank, guarded}
use proyecto_sa_b.ApiGateway.Controllers.{serve_user, serve, Request, handle}

abbrev source_of : Event → String
source_of (transfer_requested source target amount user email) = source
source_of (interbank_requested source bank destination amount description user) = source

abbrev amount_of : Event → ℤ
amount_of (transfer_requested source target amount user email) = amount
amount_of (interbank_requested source bank destination amount description user) = amount

abbrev requester_of : Event → Option ℕ
requester_of (transfer_requested source target amount user email) = user
requester_of (interbank_requested source bank destination amount description user) = user

-- The account that the event takes money from is the user's, as account-service says.
pub record Owned (env : Env) (user : User) (e : Event) : Type 0 where
  pub account : Account
  pub escaped : Bool
  pub said : env.account escaped (source_of e) ≡ answered account
  pub owner : is_of account user.customer_id ≡ true
  pub requester : requester_of e ≡ user.customer_id
  pub positive : ltb_ℤ (pos 0) (amount_of e) ≡ true

-- Nothing is published, or one event.
abbrev pub PublishesIf : (Event → Type 0) → World → World → Type 0
PublishesIf P w w' =
    (w'.published ≡ w.published)
    ⊎ ((correlation : ℕ) × ((e : Event) × P e
          × (w'.published
              ≡ w.published ++ record { correlation_id = correlation; event = e } ∷ [])))

module _ (env : Env) (user : User) (w : World) where
  request_event_of :
      (escaped : Bool) (correlation : ℕ) (e : Event) (reply : Reply) (u : Upstream Account)
      → env.account escaped (source_of e) ≡ u
      → requester_of e ≡ user.customer_id
      → ltb_ℤ (pos 0) (amount_of e) ≡ true
      → PublishesIf
          (Owned env user)
          w
          ((ask u
              >>= owned user
              >> publish env (record { correlation_id = correlation; event = e })
              >> return reply)
            w).1
  unfolding ◌>>=◌ return fail write
  request_event_of escaped correlation e reply unreachable said by above = inl refl
  request_event_of escaped correlation e reply (refused code) said by above = inl refl
  request_event_of escaped correlation e reply (answered a) said by above =
      elim (Bool-cases (is_of a user.customer_id)) [
        | inr foreign ↦ inl (rw foreign refl)
        | inl own ↦ elim (Bool-cases env.broker) [
          | inr off ↦ inl (rw (own, off) refl)
          | inl up ↦ inr (
            correlation,
            (
              e,
              record {
                account = a;
                escaped = escaped;
                said = said;
                owner = own;
                requester = by;
                positive = above;
              },
              rw (own, up) refl,
            ),
          )
        ]
      ]

  positive_amount : (o : Option ℤ) → is_positive o ≡ true → ltb_ℤ (pos 0) (get_or o (pos 0)) ≡ true
  positive_amount none e = cc
  positive_amount (some amount) e = e

  pub create_transfer-Owned :
      (correlation : ℕ) (b : TransferBody)
      → PublishesIf (Owned env user) w (create_transfer env correlation user b w).1
  unfolding create_transfer fail
  create_transfer-Owned correlation b = elim (Bool-cases (sound_transfer b)) [
    | inr bad ↦ rw bad (inl refl)
    | inl good ↦ rw good (
        request_event_of false correlation (transfer_event user b) (Reply.accepted correlation)
          (env.account false b.source_account) refl refl (positive_amount b.amount (ground arith)))
  ]

  pub create_interbank-Owned :
      (correlation : ℕ) (b : InterbankBody)
      → PublishesIf (Owned env user) w (create_interbank env correlation user b w).1
  unfolding create_interbank fail
  create_interbank-Owned correlation b = elim (Bool-cases (sound_interbank b)) [
    | inr bad ↦ rw bad (inl refl)
    | inl good ↦ rw good (
        request_event_of true correlation (interbank_event user b) (Reply.accepted correlation)
          (env.account true b.source_account) refl refl (positive_amount b.amount (ground arith)))
  ]

-- A call that only reads.
abbrev pub Reads : World → {A : Type 0} → Call A → Type 0
Reads b m = Keeps (λ w. w ≡ b) m

ask-Reads : (b : World) {A : Type 0} (u : Upstream A) → Reads b (ask u)
ask-Reads b (answered a) = search program_rules
ask-Reads b (refused code) = search program_rules
ask-Reads b unreachable = search program_rules

owned-Reads : (b : World) (user : User) (a : Account) → Reads b (owned user a)
owned-Reads b user a = search program_rules

owned_by_client-Reads :
    (b : World) (env : Env) (user : User) (account : String)
    → Reads b (owned_by_client env user account)
owned_by_client-Reads b env user account = search (program_rules, ask-Reads, owned-Reads) depth 12

pub status-Reads :
    (b : World) (env : Env) (user : User) (correlation : ℕ) → Reads b (status env user correlation)
unfolding status
status-Reads b env user correlation =
    search (program_rules, ask-Reads, owned_by_client-Reads) depth 12

pub history-Reads :
    (b : World) (env : Env) (user : User) (q : HistoryQueryParams) → Reads b (history env user q)
unfolding history
history-Reads b env user q = search (program_rules, ask-Reads, owned_by_client-Reads) depth 12

pub get_account-Reads :
    (b : World) (env : Env) (user : User) (id : String) → Reads b (get_account env user id)
unfolding get_account
get_account-Reads b env user id = search (program_rules, ask-Reads) depth 12
