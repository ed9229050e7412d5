-- ===== src/ApiGateway/Access/History.antt =====
-- Whom the gateway lets do what: the history of an account, as transaction-service answers it, and
-- the calls of a partner bank.
use text.Mathlib.Text.{◌==◌ as str_eq}
use mathlib.Core.Path.{subst}
use mathlib.Core.List.{Memᴰ}
use proyecto_sa_b.Prelude.{
  ℕ, String, ◌≡◌, refl, sym, ap, ◌⊎◌, inl, inr, true, false, Option, none, some, List, [], ◌∷◌,
  ◌++◌, arith, Bool-cases, All, All-map, get_or,
}
use proyecto_sa_b.Prelude.Dict.{Dict}
use proyecto_sa_b.Prelude.Action.{Result, ok, err}
use proyecto_sa_b.Prelude.Program.{return, fail, write, ◌>>=◌, ◌>>◌}
use proyecto_sa_b.TransactionService.Status.{PublicTransactionStatus}
use proyecto_sa_b.TransactionService.Entity.{Transaction}
use proyecto_sa_b.TransactionService.Query.{
  HistoryQuery, HistoryQueryParams, HistoryItem, HistoryResult, InvalidHistoryQuery, optional,
  number_param, query_of, bad_request, executed, execute, by_account,
}
use proyecto_sa_b.TransactionService.Query.Pages.{execute-Answers}
use proyecto_sa_b.ApiGateway.{
  User, Account, World, Call, Upstream, answered, refused, unreachable, Env, Reply, shown_history,
  ask, ContractPath, contract_call,
}
use proyecto_sa_b.ApiGateway.Guards.{PartnerHeaders}
use proyecto_sa_b.ApiGateway.Transfers.{is_of, owned, is_client, history}
use proyecto_sa_b.ApiGateway.Contract.{same_bytes, find_key, bank_for_key, guarded_bank, guarded}

-- The answer of transaction-service over HTTP.
abbrev pub history_response : Option HistoryResult → Upstream HistoryResult
history_response none = refused 400
history_response (some h) = answered h

-- The item's transfer goes out of the account or into it.
abbrev pub Concerns : String → HistoryItem → Type 0
Concerns account i =
    (str_eq i.source_account account ≡ true) ⊎ (str_eq i.target_account account ≡ true)

executed_shown :
    (o : Option HistoryQuery) (repository : Dict Transaction) (h : HistoryResult)
    → executed o repository ≡ some h
    → (query : HistoryQuery) × (o ≡ some query) × (execute query repository ≡ ok h)
executed_shown none repository h e = cc
executed_shown (some query) repository h e = (query, refl, answered_ok (execute query repository) e)
  where
    answered_ok : (x : Result InvalidHistoryQuery HistoryResult) → bad_request x ≡ some h → x ≡ ok h
    answered_ok (ok found) same = cc
    answered_ok (err bad) same = cc

query_of_account :
    (account : String) (from to : Option (Option ℕ))
    (status : Option (Option PublicTransactionStatus)) (page size : Option ℕ) (query : HistoryQuery)
    → query_of account from to status page size ≡ some query
    → query.account_id ≡ account
query_of_account account none to status page size query e = cc
query_of_account account (some from) none status page size query e = cc
query_of_account account (some from) (some to) none page size query e = cc
query_of_account account (some from) (some to) (some status) none size query e = cc
query_of_account account (some from) (some to) (some status) (some page) none query e = cc
query_of_account account (some from) (some to) (some status) (some page) (some size) query e =
    ap (λ (o : Option HistoryQuery). elim o [ none ↦ account | some q ↦ q.account_id ]) (sym e)

by_account-Concerns :
    (q : HistoryQueryParams) (repository : Dict Transaction) (h : HistoryResult)
    → by_account q repository ≡ some h
    → All (Concerns (get_or q.account_id "")) h.items
unfolding by_account
by_account-Concerns q repository h e =
    let (query, asked, done) =
      executed_shown
        (query_of (get_or q.account_id "") (optional q.from) (optional q.to) (optional q.status)
          (number_param q.page 1) (number_param q.size 20))
        repository h e in
    let same =
      query_of_account (get_or q.account_id "") (optional q.from) (optional q.to)
        (optional q.status) (number_param q.page 1) (number_param q.size 20) query asked in
    let answers = (execute-Answers query repository h done).1 in
    All-map (λ i s. subst (λ a. Concerns a i) same s.concerned) h.items answers.shown

response_shown :
    (o : Option HistoryResult) (w : World) (h : HistoryResult)
    → ((ask (history_response o) >>= λ r. return (shown_history r)) w).0 ≡ ok (shown_history h)
    → o ≡ some h
unfolding ◌>>=◌ return fail
response_shown none w h e = cc
response_shown (some found) w h e = cc

-- What a user who is shown a history may see: a CLIENT is the owner of the account that was asked for.
abbrev pub MaySee : Env → User → String → Type 0
MaySee env user account =
    (is_client user ≡ false)
    ⊎ ((a : Account) × (env.account true account ≡ answered a) × (is_of a user.customer_id ≡ true))

owner_shown :
    (env : Env) (user : User) (account : String) (u : Upstream Account) (k : Call Reply) (w : World)
    (reply : Reply)
    → env.account true account ≡ u
    → ((ask u >>= owned user >> k) w).0 ≡ ok reply
    → ((a : Account) × (env.account true account ≡ answered a) × (is_of a user.customer_id ≡ true))
      × ((k w).0 ≡ ok reply)
unfolding ◌>>=◌ return fail
owner_shown env user account unreachable k w reply said e = cc
owner_shown env user account (refused code) k w reply said e = cc
owner_shown env user account (answered a) k w reply said e =
    elim (Bool-cases (is_of a user.customer_id)) [
      | inl own ↦ ((a, said, own), rw own at e)
      | inr foreign ↦ let no : err 403 ≡ ok reply = rw foreign at e in cc
    ]

-- A history that the gateway shows, from a transaction-service whose table is `repository`, has
-- transfers out of the account that was asked for or into it alone, and a CLIENT sees it only if
-- account-service says that the account is theirs.
pub history-Concerns :
    (env : Env) (user : User) (q : HistoryQueryParams) (repository : Dict Transaction) (w : World)
    (h : HistoryResult)
    → env.history q ≡ history_response (by_account q repository)
    → (history env user q w).0 ≡ ok (shown_history h)
    → MaySee env user (get_or q.account_id "") × All (Concerns (get_or q.account_id "")) h.items
unfolding history ◌>>=◌ return fail
history-Concerns env user q repository w h same e =
    let account = get_or q.account_id "" in
    let k : Call Reply = ask (env.history q) >>= λ r. return (shown_history r) in
    let shown_by : (k w).0 ≡ ok (shown_history h) → All (Concerns account) h.items = λ d.
      by_account-Concerns q repository h
        (response_shown (by_account q repository) w h (rw same at d)) in
    elim (Bool-cases (str_eq account "")) [
      | inl blank ↦ let no : err 400 ≡ ok (shown_history h) = rw blank at e in cc
      | inr named ↦ elim (Bool-cases (is_client user)) [
        | inr staff ↦ (inl staff, shown_by (rw (named, staff) at e))
        | inl a_client ↦
            let (own, d) =
              owner_shown env user account (env.account true account) k w (shown_history h) refl
                (rw (named, a_client) at e) in
            (inr own, shown_by d)
      ]
    ]

same_bytes_equal : (xs ys : List ℕ) → same_bytes xs ys ≡ true → xs ≡ ys
same_bytes_equal [] [] e = refl
same_bytes_equal [] (y ∷ ys) e = cc
same_bytes_equal (x ∷ xs) [] e = cc
same_bytes_equal (x ∷ xs) (y ∷ ys) e =
    let first : x ≡ y = ground arith in
    let rest : same_bytes xs ys ≡ true = ground arith in
    let others = same_bytes_equal xs ys rest in cc

find_key-Mem :
    (keys : List (ℕ × List ℕ)) (given : List ℕ) (bank : ℕ)
    → find_key keys given ≡ some bank
    → Memᴰ (bank, given) keys
find_key-Mem [] given bank e = cc
find_key-Mem ((b, key) ∷ keys) given bank e = elim (Bool-cases (same_bytes key given)) [
  | inl same ↦
      let here : some b ≡ some bank = rw same at e in
      let equal = same_bytes_equal key given same in Memᴰ.head (cc)
  | inr other ↦ Memᴰ.tail (find_key-Mem keys given bank (rw other at e))
]

-- What is known of a partner bank's call that is passed on.
abbrev pub PassedOn : Env → PartnerHeaders → ContractPath → World → World → Type 0
PassedOn env h p w w' =
    (bank : ℕ) × ((key : List ℕ) × (h.api_key ≡ some key)
      × Memᴰ (bank, key) env.keys
      × (w'.forwarded ≡ w.forwarded ++ contract_call bank p ∷ []))

bank_found :
    (env : Env) (h : PartnerHeaders) (p : ContractPath) (w : World) (key : List ℕ) (o : Option ℕ)
    → h.api_key ≡ some key
    → find_key env.keys key ≡ o
    → ((guarded_bank h p o w).1.forwarded ≡ w.forwarded)
      ⊎ PassedOn env h p w (guarded_bank h p o w).1
unfolding ◌>>=◌ return fail write
bank_found env h p w key none given found = inl refl
bank_found env h p w key (some bank) given found = elim (Bool-cases h.traced) [
  | inl traced ↦ rw traced (inr (bank, (key, given, find_key-Mem env.keys key bank found, refl)))
  | inr untraced ↦ rw untraced (inl refl)
]

key_found :
    (env : Env) (h : PartnerHeaders) (p : ContractPath) (w : World) (o : Option (List ℕ))
    → h.api_key ≡ o
    → (let w' = (guarded_bank h p (bank_for_key env.keys o) w).1 in
        (w'.forwarded ≡ w.forwarded) ⊎ PassedOn env h p w w')
unfolding bank_for_key fail
key_found env h p w none given = inl refl
key_found env h p w (some []) given = inl refl
key_found env h p w (some (x ∷ xs)) given = bank_found env h p w (x ∷ xs) _ given refl

-- A call of a partner bank is not passed on to payment-service, or it is passed on in the name
-- of a bank whose configured key the caller has shown, whatever bank the caller says it is.
pub guarded-Mem :
    (env : Env) (h : PartnerHeaders) (p : ContractPath) (w : World)
    → (let w' = (guarded env h p w).1 in (w'.forwarded ≡ w.forwarded) ⊎ PassedOn env h p w w')
unfolding guarded
guarded-Mem env h p w = key_found env h p w h.api_key refl
