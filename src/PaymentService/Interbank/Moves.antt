-- ===== src/PaymentService/Interbank/Moves.antt =====
-- What a statement may do to one row of the table of transfers: which states follow which, which
-- fields stay, and when the outbox holds an event for the row.
pub mod Steps
use mathlib.Core.List.{Memᴰ}
use mathlib.Core.List.Memᴰ
use proyecto_sa_b.Prelude.{
  ℕ, ◌≡◌, refl, sym, ap, ◌∙◌, ◌≢◌, ◌⊎◌, inl, inr, Bool, true, false, Option, none, some, List, ◌++◌,
  not, ◌==◌, ◌&&◌, ◌||◌, leb, ltb, arith, Bool-cases, if◌then◌else◌,
}
use proyecto_sa_b.Prelude.Int.{ℤ}
use proyecto_sa_b.PaymentService.Interbank.{
  Direction, out_going, in_coming, State, Transfer, Message,
}
use proyecto_sa_b.PaymentService.Interbank.Outbox.{number, event_for, event_of, in_event}

-- `OutState` and `InState` of interbank-transfer.entity.ts, by number: a pending or sent transfer
-- goes on to any later state of a sender, a timeout and a deposit in process to a final one.
abbrev pub reach_number : ℕ → ℕ → Bool
reach_number m n =
    m == n
    || (leb m 1 && ltb m n && leb n 5)
    || (m == 4 && (n == 2 || n == 3 || n == 5))
    || (m == 6 && (n == 2 || n == 3 || n == 7))

abbrev pub can_reach : State → State → Bool
can_reach s t = reach_number (number s) (number t)

abbrev pub fits : Direction → State → Bool
fits out_going s = leb (number s) 5
fits in_coming s = number s == 2 || number s == 3 || number s == 6 || number s == 7

pub reach_trans :
    (a b c : ℕ) → reach_number a b ≡ true → reach_number b c ≡ true → reach_number a c ≡ true
reach_trans a b c p q = ground arith

pub reach_back : (a b c : ℕ) → reach_number a b ≡ true → reach_number b c ≡ true → a ≡ c → b ≡ c
reach_back a b c p q e = ground arith

state_of : ℕ → State
state_of n =
    if n == 0
    then State.pending
    else if n == 1
    then State.sent
    else if n == 2
    then State.accepted
    else if n == 3
    then State.rejected
    else if n == 4
    then State.timeout
    else if n == 5
    then State.reversed
    else if n == 6
    then State.processing
    else State.cancelled

state_of-number : (s : State) → state_of (number s) ≡ s
unfolding state_of
state_of-number State.pending = refl
state_of-number State.sent = refl
state_of-number State.accepted = refl
state_of-number State.rejected = refl
state_of-number State.timeout = refl
state_of-number State.reversed = refl
state_of-number State.processing = refl
state_of-number State.cancelled = refl

pub number_same : (s t : State) → number s ≡ number t → s ≡ t
number_same s t e = sym (state_of-number s) ∙ ap state_of e ∙ state_of-number t

-- The fields that no operation changes once the row is there.
pub record Fixed : Type 0 where
  pub direction : Direction
  pub partner_bank_code : ℕ
  pub amount : ℤ
  pub origin_account : Option (List ℕ)
  pub destination_account : Option (List ℕ)
  pub expires_at : Option ℕ
  pub transaction_id : Option ℕ
  pub correlation_id : ℕ
  pub is_refund : Bool
  pub request_hash : Option ℕ

abbrev pub fixed_of : Transfer → Fixed
fixed_of r = record {
  direction = r.direction;
  partner_bank_code = r.partner_bank_code;
  amount = r.amount;
  origin_account = r.origin_account;
  destination_account = r.destination_account;
  expires_at = r.expires_at;
  transaction_id = r.transaction_id;
  correlation_id = r.correlation_id;
  is_refund = r.is_refund;
  request_hash = r.request_hash;
}

-- `r` is a later version of the row `r0`, or the same.
pub record Advances (id : ℕ) (r0 r : Transfer) : Type 0 where
  pub fixed : fixed_of r ≡ fixed_of r0
  pub reached : can_reach r0.state r.state ≡ true
  pub same : number r0.state ≡ number r.state → event_for id r ≡ event_for id r0

-- A row whose event for its state is in the outbox or has been published.
pub record RowSound (id : ℕ) (r : Transfer) (messages : List Message) : Type 0 where
  pub fit : fits r.direction r.state ≡ true
  pub kept : (m : Message) → event_for id r ≡ some m → (r.pending_event ≡ true) ⊎ Memᴰ m messages

-- What one statement may do to the row `r`.
pub data Moves (id : ℕ) (r : Transfer) : Transfer → Type 0 where
  touched :
      {r' : Transfer}
      → fixed_of r' ≡ fixed_of r
      → r'.state ≡ r.state
      → event_for id r' ≡ event_for id r
      → r'.pending_event ≡ r.pending_event
      → Moves id r r'
  moved :
      {r' : Transfer}
      → fixed_of r' ≡ fixed_of r
      → can_reach r.state r'.state ≡ true
      → number r.state ≢ number r'.state
      → fits r.direction r'.state ≡ true
      → (event_for id r' ≡ none) ⊎ (r'.pending_event ≡ true)
      → Moves id r r'

pub Advances-refl : (id : ℕ) (r : Transfer) → Advances id r r
Advances-refl id r = record { fixed = refl; reached = ground arith; same = λ _. refl }

pub Advances-trans :
    (id : ℕ) (r0 r1 r2 : Transfer) → Advances id r0 r1 → Advances id r1 r2 → Advances id r0 r2
Advances-trans id r0 r1 r2 a b = record {
  fixed = b.fixed ∙ a.fixed;
  reached = reach_trans (number r0.state) (number r1.state) (number r2.state) a.reached b.reached;
  same = λ e.
      let stays : number r1.state ≡ number r2.state =
        reach_back (number r0.state) (number r1.state) (number r2.state) a.reached b.reached e in
      b.same stays ∙ a.same (e ∙ sym stays);
}

pub Moves-Advances : (id : ℕ) (r r' : Transfer) → Moves id r r' → Advances id r r'
Moves-Advances id r r' (touched f s e p) = record {
  fixed = f;
  reached = rw s (ground arith);
  same = λ _. e;
}
Moves-Advances id r r' (moved f reached other fit e) = record {
  fixed = f;
  reached = reached;
  same = λ equal. absurd (other equal);
}

pub Moves-RowSound :
    (id : ℕ) (r r' : Transfer) (messages : List Message)
    → Moves id r r'
    → RowSound id r messages
    → RowSound id r' messages
Moves-RowSound id r r' messages (touched f s e p) h = record {
  fit = rw (s, ap (λ (x : Fixed). x.direction) f) h.fit;
  kept = λ m em. rw p (h.kept m (sym e ∙ em));
}
Moves-RowSound id r r' messages (moved f reached other fit e) h = record {
  fit = rw (ap (λ (x : Fixed). x.direction) f) fit;
  kept = λ m em. elim e [ inl quiet ↦ cc | inr waits ↦ inl waits ];
}

pub RowSound-append :
    (id : ℕ) (r : Transfer) (messages more : List Message)
    → RowSound id r messages
    → RowSound id r (messages ++ more)
RowSound-append id r messages more h = record {
  fit = h.fit;
  kept = λ m e. elim (h.kept m e) [
    | inl waits ↦ inl waits
    | inr said ↦ inr (Memᴰ.append_left more said)
  ];
}

-- A row that is not in process has an event only if it is no refund.
pub quiet_in : (id : ℕ) (r : Transfer) (s : State) → number s ≢ 6 → in_event id r s ≡ none
quiet_in id r State.processing h = absurd (h refl)
quiet_in id r State.pending h = refl
quiet_in id r State.sent h = refl
quiet_in id r State.accepted h = refl
quiet_in id r State.rejected h = refl
quiet_in id r State.timeout h = refl
quiet_in id r State.reversed h = refl
quiet_in id r State.cancelled h = refl

settled_of :
    (id : ℕ) (r : Transfer) (d : Direction)
    → number r.state ≢ 6
    → (event_of id r d ≡ none) ⊎ (r.is_refund ≡ false)
settled_of id r in_coming h = inl (quiet_in id r r.state h)
settled_of id r out_going h = elim (Bool-cases r.is_refund) [
  | inl refunds ↦ inl (rw refunds refl)
  | inr plain ↦ inr plain
]

pub settled :
    (id : ℕ) (r : Transfer)
    → number r.state ≢ 6
    → (event_for id r ≡ none) ⊎ (not r.is_refund ≡ true)
settled id r h = elim (settled_of id r r.direction h) [
  | inl quiet ↦ inl quiet
  | inr plain ↦ inr (ap not plain)
]
