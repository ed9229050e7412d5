-- ===== src/PaymentService/Interbank/Receiver/Requests.antt =====
-- The body of `POST /transfers`: `validateTransferRequest` of interbank.rules.ts, and the rows that
-- the receiver makes of a request and of the cancellation of an unknown id. A field that does not
-- have the form that the contract asks for is `none`; amounts are in cents, dates in milliseconds.
use proyecto_sa_b.Prelude.{
  ℕ, ◌+◌, Bool, true, false, Option, none, some, List, ◌&&◌, not, leb, get_or, is_some,
}
use proyecto_sa_b.Prelude.Int.{pos}
use proyecto_sa_b.PaymentService.Interbank.{in_coming, State, Transfer, Reason}

-- The length of the description if it is a text; `other_text` if it is anything else.
pub data Description : Type 0 where
  missing other_text : Description
  text : (length key : ℕ) → Description

pub record TransferRequest : Type 0 where
  pub is_object : Bool
  pub has_other_fields : Bool
  pub transfer_id : Option ℕ
  pub origin_bank_code : Option ℕ
  pub destination_bank_code : Option ℕ
  pub origin_account : Option (List ℕ)
  pub destination_account : Option (List ℕ)
  pub amount : Option ℕ
  pub is_gtq : Bool
  pub description : Description
  pub created_at : Option ℕ
  pub expires_at : Option ℕ

abbrev is_amount : Option ℕ → Bool
is_amount none = false
is_amount (some cents) = leb 1 cents

abbrev is_description : Description → Bool
is_description missing = true
is_description other_text = false
is_description (text length key) = leb length 140

-- 180 seconds, give or take five
abbrev is_span : Option ℕ → Option ℕ → Bool
is_span (some created) (some expires) =
    leb (created + 175000) expires && leb expires (created + 185000)
is_span _ _ = false

-- Whether the list of errors is empty.
unfoldable pub validate_transfer_request : TransferRequest → Bool
validate_transfer_request r =
    r.is_object
    && not r.has_other_fields
    && is_some r.transfer_id
    && is_some r.origin_bank_code
    && is_some r.destination_bank_code
    && is_some r.origin_account
    && is_some r.destination_account
    && is_amount r.amount
    && r.is_gtq
    && is_description r.description
    && is_span r.created_at r.expires_at

abbrev description_key : Description → Option ℕ
description_key (text length key) = some key
description_key _ = none

abbrev received_row :
    (now fresh bank : ℕ) → State → Option Reason → (resolved : Option ℕ) → Bool → Transfer
received_row now fresh bank state reason resolved waits = record {
  direction = in_coming;
  partner_bank_code = bank;
  origin_account = none;
  destination_account = none;
  amount = pos 0;
  description = none;
  message_created_at = none;
  expires_at = none;
  state = state;
  reason_code = reason;
  request_hash = none;
  transaction_id = none;
  correlation_id = fresh;
  is_refund = false;
  send_attempts = 0;
  next_attempt_at = none;
  locked_until = none;
  timeout_at = none;
  timeout_step = none;
  step_attempts = 0;
  callback_state = none;
  callback_attempts = 0;
  resolved_at = resolved;
  pending_event = waits;
  created_at = now;
  updated_at = now;
}

-- The row of a request that is taken in.
abbrev pub incoming : (now fresh hash : ℕ) → TransferRequest → Transfer
incoming now fresh hash r =
    record (received_row now fresh (get_or r.origin_bank_code 0) State.processing none none true) {
      origin_account = r.origin_account;
      destination_account = r.destination_account;
      amount = pos (get_or r.amount 0);
      description = description_key r.description;
      message_created_at = r.created_at;
      expires_at = r.expires_at;
      request_hash = some hash;
    }

-- The row of a transfer that is cancelled before it comes.
abbrev pub cancelled_unknown : (now fresh bank : ℕ) → Transfer
cancelled_unknown now fresh bank =
    received_row now fresh bank State.cancelled (some Reason.cancelled) (some now) false
