-- ===== src/ApiGateway/Controllers.antt =====
-- A request through the guards and its controller. Calls that are passed on whole to one service,
-- such as those of customer.controller.ts and admin.controller.ts, differ by their service alone.
use proyecto_sa_b.Prelude.{ℕ, Option, none, some, if◌then◌else◌}
use proyecto_sa_b.Prelude.Program.{return, fail, ◌>>=◌, ◌>>◌}
use proyecto_sa_b.ApiGateway.{
  User, Authorization, new_account, accounts_of, account_maintenance, customers_call, admin_call,
  contract_health_call, Call, Env, Reply, relayed, pass_on, resolve_correlation_id,
}
use proyecto_sa_b.ApiGateway.Guards.{Route, jwt_guard, roles_guard}
use proyecto_sa_b.ApiGateway.Transfers.{
  is_client, create_transfer, create_interbank, status, history, get_account,
}
use proyecto_sa_b.ApiGateway.Contract.{guarded}

-- `role === 'CLIENT' ? own : asked ?? own`
abbrev pub customer_for : User → (asked : Option ℕ) → Option ℕ
customer_for user none = user.customer_id
customer_for user (some asked) = if is_client user then user.customer_id else some asked

-- The handler of a route that is not public.
abbrev pub serve_user : Env → (correlation : ℕ) → User → Route → Call Reply
serve_user env correlation user Route.me = pass_on customers_call
serve_user env correlation user Route.update_me = pass_on customers_call
serve_user env correlation user Route.list_customers = pass_on customers_call
serve_user env correlation user Route.set_kyc = pass_on customers_call
serve_user env correlation user (Route.create_account c) =
    pass_on (new_account (customer_for user c))
serve_user env correlation user (Route.list_accounts c) =
    pass_on (accounts_of (customer_for user c))
serve_user env correlation user (Route.get_account id) = get_account env user id
serve_user env correlation user Route.deactivate_inactive = pass_on account_maintenance
serve_user env correlation user (Route.create_transfer b) = create_transfer env correlation user b
serve_user env correlation user (Route.transfer_status id) = status env user id
serve_user env correlation user (Route.create_interbank b) = create_interbank env correlation user b
serve_user env correlation user (Route.interbank_status id) = status env user id
serve_user env correlation user (Route.history q) = history env user q
serve_user env correlation user _ = pass_on admin_call

-- The handler of a public route, and of any other, which reads `req.user` and fails without one.
abbrev pub serve : Env → (correlation : ℕ) → Option User → Route → Call Reply
serve env correlation user (Route.contract h p) = guarded env h p
serve env correlation user Route.contract_health = pass_on contract_health_call
serve env correlation user Route.health = return relayed
serve env correlation user Route.ready = return relayed
serve env correlation user Route.register = pass_on customers_call
serve env correlation user Route.login = pass_on customers_call
serve env correlation user Route.activate = pass_on customers_call
serve env correlation none _ = fail 500
serve env correlation (some user) route = serve_user env correlation user route

pub record Request : Type 0 where
  pub authorization : Authorization
  pub correlation : Option ℕ
  pub route : Route

-- A request through the middleware, the two guards and the controller.
unfoldable pub handle : Env → Request → Call Reply
handle env r = do
  user ← jwt_guard env r.route r.authorization
  roles_guard r.route user
  serve env (resolve_correlation_id env r.correlation) user r.route
