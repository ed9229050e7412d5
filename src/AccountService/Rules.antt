-- ===== src/AccountService/Rules.antt =====
-- The rules of an interbank deposit on the side of the accounts: interbank.rules.ts of
-- apps/account-service/src/account. Texts are lists of code points; an amount that is no finite
-- number is `none`, and so is a date that is none.
use proyecto_sa_b.Prelude.{
  ℕ, ◌+◌, Bool, true, false, Option, none, some, List, [], ◌∷◌, ◌++◌, ◌&&◌, ◌||◌, not, leb, ◌==◌,
  get_or, length, map, keep, take, drop, if◌then◌else◌,
}
use proyecto_sa_b.Prelude.Int.{ℤ, pos, ◌+ℤ◌, ◌-ℤ◌, ltb_ℤ}
use proyecto_sa_b.Prelude.Text.{every, is_digit}
use proyecto_sa_b.AccountService.Rows.{
  Account, is_active, Reason, account_not_found, account_inactive, amount_limit_exceeded,
  currency_not_supported, expired, processing_error, account_not_found_or_inactive,
  insufficient_funds, invalid_amount,
}

-- Q10,000.00 and Q0.01
abbrev pub max_interbank_amount : ℤ
max_interbank_amount = pos 1000000

abbrev pub min_interbank_amount : ℤ
min_interbank_amount = pos 1

abbrev pub is_upper_hex : ℕ → Bool
is_upper_hex c = leb b'A' c && leb c b'F'

-- One of `[0-9a-f]`, with the flag `i`.
abbrev pub is_hex : ℕ → Bool
is_hex c = is_digit c || (leb b'a' c && leb c b'f') || is_upper_hex c

-- `toLowerCase` on the letters A to Z.
abbrev pub lower : ℕ → ℕ
lower c = if leb b'A' c && leb c b'Z' then c + 32 else c

-- `replace(/-/g, '').toLowerCase()`
unfoldable pub to_external_account : List ℕ → List ℕ
to_external_account id = map lower (keep (λ c. not (c == b'-')) id)

abbrev pub is_hex32 : List ℕ → Bool
is_hex32 s = (length s == 32) && every is_hex s

-- Five groups of hexadecimal digits with a dash before all but the first; each part is cut off by
-- its length.
abbrev pub is_group : ℕ → List ℕ → Bool
is_group n s = (length (take n s) == n) && every is_hex (take n s)

abbrev pub after_dash : (List ℕ → Bool) → List ℕ → Bool
after_dash rest [] = false
after_dash rest (c ∷ s) = (c == b'-') && rest s

unfoldable pub is_uuid : List ℕ → Bool
is_uuid s =
    is_group 8 s
    && after_dash
        (λ a.
          is_group 4 a
          && after_dash
              (λ b.
                is_group 4 b
                && after_dash
                    (λ c.
                      is_group 4 c
                      && after_dash (λ d. is_group 12 d && (length d == 12)) (drop 4 c))
                    (drop 4 b))
              (drop 4 a))
        (drop 8 s)

-- The text of an account of this bank with its dashes, if it can be one.
unfoldable pub from_external_account : List ℕ → Option (List ℕ)
unfolding is_uuid
from_external_account value =
    if is_uuid value
    then some (map lower value)
    else if not (is_hex32 value)
    then none
    else let v = map lower value in
      some (
        take 8 v
        ++ (b'-' ∷ take 4 (drop 8 v)
            ++ (b'-' ∷ take 4 (drop 12 v) ++ (b'-' ∷ take 4 (drop 16 v) ++ (b'-' ∷ drop 20 v)))))

-- The currency is `none` where the field is missing, and `some true` where it is GTQ.
abbrev pub is_other_currency : Option Bool → Bool
is_other_currency none = false
is_other_currency (some gtq) = not gtq

pub record DepositFacts : Type 0 where
  pub now : ℕ
  pub expires_at : Option ℕ
  pub amount : Option ℤ
  pub currency : Option Bool
  pub account : Option Account

abbrev pub is_expired : ℕ → Option ℕ → Bool
is_expired now none = true
is_expired now (some at) = leb at now

abbrev deposit_amount : Option ℤ → Option Reason
deposit_amount none = some processing_error
deposit_amount (some amount) =
    if ltb_ℤ amount min_interbank_amount
    then some processing_error
    else if ltb_ℤ max_interbank_amount amount
    then some amount_limit_exceeded
    else none

abbrev deposit_account : Option Account → Option ℤ → Option Reason
deposit_account none amount = some account_not_found
deposit_account (some a) amount =
    if not (is_active a.status) then some account_inactive else deposit_amount amount

unfoldable pub check_incoming_deposit : DepositFacts → Option Reason
check_incoming_deposit f =
    if is_expired f.now f.expires_at
    then some expired
    else if is_other_currency f.currency
    then some currency_not_supported
    else deposit_account f.account f.amount

-- `balance - reservedBalance - minBalance`
abbrev pub available : Account → ℤ
available a = a.balance -ℤ a.reserved_balance -ℤ a.min_balance

abbrev outgoing_source : ℤ → Option Account → Option Reason
outgoing_source amount none = some account_not_found_or_inactive
outgoing_source amount (some a) =
    if not (is_active a.status)
    then some account_not_found_or_inactive
    else if ltb_ℤ (available a) (amount +ℤ get_or a.fee_amount (pos 0))
    then some insufficient_funds
    else none

unfoldable pub check_outgoing : Option ℤ → Option Bool → Option Account → Option Reason
check_outgoing none currency source = some invalid_amount
check_outgoing (some amount) currency source =
    if ltb_ℤ amount min_interbank_amount
    then some invalid_amount
    else if is_other_currency currency
    then some currency_not_supported
    else if ltb_ℤ max_interbank_amount amount
    then some amount_limit_exceeded
    else outgoing_source amount source
