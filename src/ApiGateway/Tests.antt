-- ===== src/ApiGateway/Tests.antt =====
-- A customer, a cashier and a partner bank to try the gateway on.
use proyecto_sa_b.Prelude.{◌≡◌, ◌⊎◌, refl, true, none, some, zero, suc, [], ◌∷◌, All}
use proyecto_sa_b.Prelude.Int.{pos}
use proyecto_sa_b.Prelude.Action.{err}
use proyecto_sa_b.Prelude.Program.{return, fail, write, ◌>>=◌}
use proyecto_sa_b.TransactionService.Query.{
  HistoryQueryParams, HistoryResult, validate, matches, history_item, find_by_account, execute,
  by_account,
}
use proyecto_sa_b.Prelude.Dict.{Dict}
use proyecto_sa_b.TransactionService.Status.{TransactionStatus}
use proyecto_sa_b.TransactionService.Entity.{Transaction}
use proyecto_sa_b.ApiGateway.{
  client, User, answered, refused, World, Env, transfers, transfer_requested, contract_call,
}
use proyecto_sa_b.ApiGateway.Guards.{
  TransferBody, PartnerHeaders, Route, is_public, roles_of, jwt_guard, roles_guard,
}
use proyecto_sa_b.ApiGateway.Transfers.{create_transfer, history}
use proyecto_sa_b.ApiGateway.Contract.{bank_for_key, guarded}
use proyecto_sa_b.ApiGateway.Controllers.{Request, handle}
use proyecto_sa_b.ApiGateway.Access.{PublishesIf}
use proyecto_sa_b.ApiGateway.Access.Requests.{Granted, handle-Granted}
use proyecto_sa_b.ApiGateway.Access.History.{
  history_response, MaySee, Concerns, PassedOn, history-Concerns, guarded-Mem,
}

abbrev customer : User
customer = record { role = client; customer_id = some 5; email = some 6 }

abbrev transfer : Transaction
transfer = record {
  transaction_id = 1;
  source_account = "a";
  target_account = "c";
  amount = pos 500;
  status = TransactionStatus.completed;
  correlation_id = 2;
  created_at = 100;
  updated_at = 100;
  failure_reason = none;
  destination_bank_code = none;
  interbank_state = none;
  origin_bank_code = none;
}

abbrev table : Dict Transaction
table = (1, transfer) ∷ []

-- Token 1 is the customer's; account "a" is theirs and "b" is not.
abbrev env : Env
env = record {
  verify = λ token. elim token [ zero ↦ none | suc n ↦ some customer ];
  keys = (13, 7 ∷ 7 ∷ []) ∷ (99, 8 ∷ []) ∷ [];
  fresh = 40;
  broker = true;
  account = λ escaped id. answered (record { account_id = "a"; customer_id = 5 });
  transaction = λ id. refused 404;
  history = λ q. history_response (by_account q table);
}

abbrev quiet : World
quiet = record { published = []; forwarded = [] }

abbrev body : TransferBody
body = record { source_account = "a"; target_account = "b"; amount = some (pos 500) }

abbrev request : Request
request = record { authorization = some 1; correlation = none; route = Route.create_transfer body }

request_published :
    (handle env request quiet).1.published
    ≡ record { correlation_id = 40; event = transfer_requested "a" "b" (pos 500) (some 5) (some 6) }
      ∷ []
unfolding handle jwt_guard roles_guard is_public roles_of create_transfer ◌>>=◌ return write
request_published = refl

-- Without a token.
request_refused : (handle env (record request { authorization = none }) quiet).0 ≡ err 401
unfolding handle jwt_guard is_public ◌>>=◌ fail
request_refused = refl

handle-Granted_example : PublishesIf (Granted env request) quiet (handle env request quiet).1
handle-Granted_example = handle-Granted env request quiet

abbrev headers : PartnerHeaders
headers = record { api_key = some (8 ∷ []); traced = true; caller_bank_code = some 13 }

partner_named : (guarded env headers transfers quiet).1.forwarded ≡ contract_call 99 transfers ∷ []
unfolding guarded bank_for_key ◌>>=◌ return write
partner_named = refl

guarded-Mem_example :
    ((guarded env headers transfers quiet).1.forwarded ≡ [])
    ⊎ PassedOn env headers transfers quiet (guarded env headers transfers quiet).1
guarded-Mem_example = guarded-Mem env headers transfers quiet

abbrev params : HistoryQueryParams
params = record {
  account_id = some "a";
  from = none;
  to = none;
  status = none;
  page = none;
  size = none;
}

abbrev answer : HistoryResult
answer = record { items = history_item "a" (1, transfer) ∷ []; page = 1; size = 20; total = 1 }

history-Concerns_example : MaySee env customer "a" × All (Concerns "a") answer.items
unfolding history by_account execute validate find_by_account matches ◌>>=◌ return
history-Concerns_example = history-Concerns env customer params table quiet answer refl refl
