-- ===== src/ApiGateway/Guards.antt =====
-- The routes of the gateway with their decorators `@Public` and `@Roles`, and the two guards that
-- every request passes, JwtGuard and then RolesGuard, of auth/jwt.guard.ts and auth/roles.guard.ts.
use proyecto_sa_b.Prelude.{
  ℕ, String, Bool, true, false, Option, none, some, List, [], ◌∷◌, ◌==◌, if◌then◌else◌,
}
use proyecto_sa_b.Prelude.Int.{ℤ}
use proyecto_sa_b.Prelude.Program.{return, fail}
use proyecto_sa_b.TransactionService.Query.{HistoryQueryParams}
use proyecto_sa_b.ApiGateway.{
  Role, client, cashier, admin, other, User, Authorization, ContractPath, Call, Env,
}

-- The body of `POST /api/transfers`; an amount that is no finite number is `none`.
pub record TransferBody : Type 0 where
  pub source_account : String
  pub target_account : String
  pub amount : Option ℤ

-- The body of `POST /api/interbank-transfers`; a field that does not have its form is `none`.
pub record InterbankBody : Type 0 where
  pub source_account : String
  pub destination_bank_code : Option ℕ
  pub destination_account : Option (List ℕ)
  pub amount : Option ℤ
  pub description : Option ℕ
  pub description_length : ℕ

-- The headers of a partner bank: its key, whether `traceparent` has its form, and the bank code that
-- it claims to have.
pub record PartnerHeaders : Type 0 where
  pub api_key : Option (List ℕ)
  pub traced : Bool
  pub caller_bank_code : Option ℕ

pub data Route : Type 0 where
  register login activate : Route
  me update_me list_customers set_kyc : Route
  create_account : (customer : Option ℕ) → Route
  list_accounts : (customer : Option ℕ) → Route
  get_account : String → Route
  deactivate_inactive : Route
  create_transfer : TransferBody → Route
  transfer_status : (correlation : ℕ) → Route
  create_interbank : InterbankBody → Route
  interbank_status : (correlation : ℕ) → Route
  history : HistoryQueryParams → Route
  audit simulation set_simulation reset_simulation : Route
  payments payment : Route
  health ready : Route
  contract : PartnerHeaders → ContractPath → Route
  contract_health : Route

-- `@Public`
unfoldable pub is_public : Route → Bool
is_public register = true
is_public login = true
is_public activate = true
is_public health = true
is_public ready = true
is_public (contract h p) = true
is_public contract_health = true
is_public _ = false

-- `@Roles`
unfoldable pub roles_of : Route → List Role
roles_of list_customers = admin ∷ cashier ∷ []
roles_of set_kyc = admin ∷ []
roles_of deactivate_inactive = admin ∷ cashier ∷ []
roles_of (create_transfer b) = client ∷ []
roles_of (create_interbank b) = client ∷ []
roles_of audit = admin ∷ []
roles_of simulation = admin ∷ []
roles_of set_simulation = admin ∷ []
roles_of reset_simulation = admin ∷ []
roles_of payments = admin ∷ cashier ∷ []
roles_of payment = admin ∷ cashier ∷ []
roles_of _ = []

abbrev pub number : Role → ℕ
number client = 0
number cashier = 1
number admin = 2
number other = 3

abbrev pub is_role : Role → Role → Bool
is_role r s = number r == number s

abbrev pub has_role : List Role → Role → Bool
has_role [] r = false
has_role (s ∷ ss) r = if is_role s r then true else has_role ss r

abbrev pub verified : Option User → Call (Option User)
verified none = fail 401
verified (some user) = return (some user)

abbrev pub token_user : Env → Authorization → Call (Option User)
token_user env none = fail 401
token_user env (some token) = verified (env.verify token)

-- `JwtGuard.canActivate`: the user that it leaves at the request.
unfoldable pub jwt_guard : Env → Route → Authorization → Call (Option User)
jwt_guard env route authorization =
    if is_public route then return none else token_user env authorization

abbrev pub allowed : List Role → Option User → Bool
allowed [] user = true
allowed (r ∷ rs) none = false
allowed (r ∷ rs) (some user) = has_role (r ∷ rs) user.role

-- `RolesGuard.canActivate`
unfoldable pub roles_guard : Route → Option User → Call (Unit {0})
roles_guard route user = if allowed (roles_of route) user then return tt else fail 403
