-- ===== src/ApiGateway/Access/Requests.antt =====
-- Whom the gateway lets do what: a whole request, through the guards.
use proyecto_sa_b.Prelude.{
  ℕ, ◌≡◌, refl, ◌∙◌, ap, inl, inr, true, false, Option, none, some, [], ◌∷◌, arith, Bool-cases,
}
use proyecto_sa_b.Prelude.Program.{return, fail, write, ◌>>=◌}
use proyecto_sa_b.ApiGateway.{
  client, User, Authorization, Event, ContractPath, World, Env, resolve_correlation_id,
}
use proyecto_sa_b.ApiGateway.Guards.{
  PartnerHeaders, Route, is_public, roles_of, allowed, verified, token_user, jwt_guard, roles_guard,
}
use proyecto_sa_b.ApiGateway.Transfers.{is_client, create_transfer, create_interbank}
use proyecto_sa_b.ApiGateway.Contract.{bank_for_key, guarded_bank, guarded}
use proyecto_sa_b.ApiGateway.Controllers.{serve_user, serve, Request, handle}
use proyecto_sa_b.ApiGateway.Access.{
  Owned, PublishesIf, create_transfer-Owned, create_interbank-Owned, status-Reads, history-Reads,
  get_account-Reads,
}

-- What is known of a request that has an event published.
pub record Granted (env : Env) (r : Request) (e : Event) : Type 0 where
  pub token : ℕ
  pub user : User
  pub given : r.authorization ≡ some token
  pub verifies : env.verify token ≡ some user
  pub is_a_client : is_client user ≡ true
  pub owns : Owned env user e

PublishesIf-map :
    (P Q : Event → Type 0) (w w' : World)
    → ((e : Event) → P e → Q e)
    → PublishesIf P w w'
    → PublishesIf Q w w'
PublishesIf-map P Q w w' f (inl same) = inl same
PublishesIf-map P Q w w' f (inr (correlation, (e, p, new))) = inr (correlation, (e, f e p, new))

abbrev OfClient : Env → User → Event → Type 0
OfClient env user e = (is_client user ≡ true) × Owned env user e

client_only : (user : User) → allowed (client ∷ []) (some user) ≡ true → is_client user ≡ true
client_only user e = ground arith

module _ (env : Env) (correlation : ℕ) (w : World) where
  guarded-bank_published :
      (h : PartnerHeaders) (p : ContractPath) (o : Option ℕ)
      → (guarded_bank h p o w).1.published ≡ w.published
  unfolding ◌>>=◌ return fail write
  guarded-bank_published h p none = refl
  guarded-bank_published h p (some bank) = elim (Bool-cases h.traced) [
    | inl traced ↦ rw traced refl
    | inr untraced ↦ rw untraced refl
  ]

  serve_user-Owned :
      (user : User) (route : Route)
      → allowed (roles_of route) (some user) ≡ true
      → PublishesIf (OfClient env user) w (serve_user env correlation user route w).1
  unfolding roles_of ◌>>=◌ return write
  serve_user-Owned user (Route.create_transfer b) e =
      PublishesIf-map (Owned env user) (OfClient env user) w
        (create_transfer env correlation user b w).1 (λ x own. (client_only user e, own))
        (create_transfer-Owned env user w correlation b)
  serve_user-Owned user (Route.create_interbank b) e =
      PublishesIf-map (Owned env user) (OfClient env user) w
        (create_interbank env correlation user b w).1 (λ x own. (client_only user e, own))
        (create_interbank-Owned env user w correlation b)
  serve_user-Owned user (Route.transfer_status id) e =
      inl (ap (λ (x : World). x.published) ((status-Reads w env user id).run w refl))
  serve_user-Owned user (Route.interbank_status id) e =
      inl (ap (λ (x : World). x.published) ((status-Reads w env user id).run w refl))
  serve_user-Owned user (Route.history q) e =
      inl (ap (λ (x : World). x.published) ((history-Reads w env user q).run w refl))
  serve_user-Owned user (Route.get_account id) e =
      inl (ap (λ (x : World). x.published) ((get_account-Reads w env user id).run w refl))
  serve_user-Owned user _ e = inl refl

  serve-none_published :
      (route : Route) → (serve env correlation none route w).1.published ≡ w.published
  unfolding guarded ◌>>=◌ return fail write
  serve-none_published (Route.contract h p) =
      guarded-bank_published h p (bank_for_key env.keys h.api_key)
  serve-none_published _ = refl

  serve-Owned :
      (user : User) (route : Route)
      → is_public route ≡ false
      → allowed (roles_of route) (some user) ≡ true
      → PublishesIf (OfClient env user) w (serve env correlation (some user) route w).1
  unfolding is_public
  serve-Owned user (Route.contract h p) shut e = cc
  serve-Owned user Route.contract_health shut e = cc
  serve-Owned user Route.health shut e = cc
  serve-Owned user Route.ready shut e = cc
  serve-Owned user Route.register shut e = cc
  serve-Owned user Route.login shut e = cc
  serve-Owned user Route.activate shut e = cc
  serve-Owned user route shut e = serve_user-Owned user route e

module _ (env : Env) (r : Request) (w : World) where
  let_through :
      (o : Option User)
      → ((user : User)
          → o ≡ some user
          → (is_public r.route ≡ false)
            × ((token : ℕ) × (r.authorization ≡ some token) × (env.verify token ≡ some user)))
      → PublishesIf
          (Granted env r)
          w
          ((roles_guard r.route o >>= λ _.
              serve env (resolve_correlation_id env r.correlation) o r.route)
            w).1
  unfolding roles_guard ◌>>=◌ return fail
  let_through none known = elim (Bool-cases (allowed (roles_of r.route) none)) [
    | inr no_role ↦ rw no_role (inl refl)
    | inl any_role ↦
        rw any_role
          (inl (serve-none_published env (resolve_correlation_id env r.correlation) w r.route))
  ]
  let_through (some user) known = elim (Bool-cases (allowed (roles_of r.route) (some user))) [
    | inr no_role ↦ rw no_role (inl refl)
    | inl good_role ↦
        let (shut, (token, given, verifies)) = known user refl in
        let correlation = resolve_correlation_id env r.correlation in
        rw good_role (
          PublishesIf-map (OfClient env user) (Granted env r) w
            (serve env correlation (some user) r.route w).1
            (λ e (a_client, owns). record {
              token = token;
              user = user;
              given = given;
              verifies = verifies;
              is_a_client = a_client;
              owns = owns;
            })
            (serve-Owned env correlation w user r.route shut good_role))
  ]

  by_user :
      (token : ℕ) (o : Option User)
      → is_public r.route ≡ false
      → r.authorization ≡ some token
      → env.verify token ≡ o
      → PublishesIf
          (Granted env r)
          w
          ((verified o >>= λ user. roles_guard r.route user >>= λ _.
              serve env (resolve_correlation_id env r.correlation) user r.route)
            w).1
  unfolding ◌>>=◌ return fail
  by_user token none shut given e = inl refl
  by_user token (some user) shut given e =
      let_through (some user) (λ u same. (shut, (token, given, e ∙ same)))

  by_token :
      (o : Authorization)
      → is_public r.route ≡ false
      → r.authorization ≡ o
      → PublishesIf
          (Granted env r)
          w
          ((token_user env o >>= λ user. roles_guard r.route user >>= λ _.
              serve env (resolve_correlation_id env r.correlation) user r.route)
            w).1
  unfolding ◌>>=◌ fail
  by_token none shut given = inl refl
  by_token (some token) shut given = by_user token (env.verify token) shut given refl

-- A request has at most one event published, and that one asks for a positive amount out of an
-- account that account-service says is the requester's, who is a CLIENT with a valid token.
pub handle-Granted :
    (env : Env) (r : Request) (w : World) → PublishesIf (Granted env r) w (handle env r w).1
unfolding handle jwt_guard ◌>>=◌ return
handle-Granted env r w = elim (Bool-cases (is_public r.route)) [
  | inl shown ↦ rw shown (let_through env r w none (λ user e. absurd cc))
  | inr shut ↦ rw shut (by_token env r w r.authorization shut refl)
]
