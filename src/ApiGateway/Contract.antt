-- ===== src/ApiGateway/Contract.antt =====
-- interbank.controller.ts: the contract between banks as the partner banks reach it.
use proyecto_sa_b.Prelude.{
  ℕ, Bool, true, false, Option, none, some, List, [], ◌∷◌, ◌==◌, ◌&&◌, if◌then◌else◌,
}
use proyecto_sa_b.Prelude.Program.{fail}
use proyecto_sa_b.ApiGateway.{ContractPath, contract_call, Call, Env, Reply, pass_on}
use proyecto_sa_b.ApiGateway.Guards.{PartnerHeaders}

-- `k.length === given.length && timingSafeEqual(k, given)`
abbrev pub same_bytes : List ℕ → List ℕ → Bool
same_bytes [] [] = true
same_bytes (x ∷ xs) (y ∷ ys) = x == y && same_bytes xs ys
same_bytes _ _ = false

abbrev pub find_key : List (ℕ × List ℕ) → List ℕ → Option ℕ
find_key [] given = none
find_key ((bank, key) ∷ keys) given =
    if same_bytes key given then some bank else find_key keys given

-- `bankForKey`; a missing or empty key is no key.
unfoldable pub bank_for_key : List (ℕ × List ℕ) → (api_key : Option (List ℕ)) → Option ℕ
bank_for_key keys none = none
bank_for_key keys (some []) = none
bank_for_key keys (some (x ∷ xs)) = find_key keys (x ∷ xs)

abbrev pub guarded_bank : PartnerHeaders → ContractPath → Option ℕ → Call Reply
guarded_bank h p none = fail 401
guarded_bank h p (some bank) = if h.traced then pass_on (contract_call bank p) else fail 400

-- `guarded` and `forward`
unfoldable pub guarded : Env → PartnerHeaders → ContractPath → Call Reply
guarded env h p = guarded_bank h p (bank_for_key env.keys h.api_key)
