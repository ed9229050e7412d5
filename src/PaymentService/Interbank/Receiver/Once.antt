-- ===== src/PaymentService/Interbank/Receiver/Once.antt =====
-- A deposit is taken in once: what a repetition of the same request does.
use proyecto_sa_b.Prelude.{
  ℕ, ◌≡◌, refl, ap, ◌∙◌, inl, inr, Bool, true, false, Option, none, some, ◌&&◌, ◌||◌, ltb, get_or,
  arith, Bool-cases, Option-cases,
}
use proyecto_sa_b.Prelude.Action.{ok, err}
use proyecto_sa_b.Prelude.Dict.{lookup, lookup-insert_self}
use proyecto_sa_b.Prelude.Program.{return, ◌>>=◌}
use proyecto_sa_b.PaymentService.Interbank.{
  Transfer, World, Env, Failure, set_transfer, in_coming, unauthorized, validation_error,
  service_unavailable,
}
use proyecto_sa_b.PaymentService.Interbank.Outbox.{insert_new, insert_in, flush_row}
use proyecto_sa_b.PaymentService.Interbank.Sender.{find}
use proyecto_sa_b.PaymentService.Interbank.Receiver.{
  received, again, repeated, status_body, receive_new, receive_transfer, is_foreign, other_hash,
  equals,
}
use proyecto_sa_b.PaymentService.Interbank.Receiver.Requests.{
  TransferRequest, incoming, validate_transfer_request,
}
use proyecto_sa_b.PaymentService.Interbank.Moves.{Fixed, fixed_of}
use proyecto_sa_b.PaymentService.Interbank.Invariant.{Inv-self}
use proyecto_sa_b.PaymentService.Interbank.History.{
  History, step, transfer_post, no_rows, no_rows-Inv, History-Inv,
}
use proyecto_sa_b.PaymentService.Interbank.Sender.Closing.{Flushed, kept, cleared, flush_in_found}

-- The checks that come before the table is read.
abbrev passes : Option ℕ → (caller key : Option ℕ) → TransferRequest → Bool
passes (some own) (some bank) key req =
    validate_transfer_request req
    && equals (get_or req.transfer_id 0) key
    && equals own req.destination_bank_code
    && equals bank req.origin_bank_code
passes _ _ key req = false

passes-own :
    (own caller key : Option ℕ) (req : TransferRequest)
    → passes own caller key req ≡ true
    → (bank : ℕ) × (home : ℕ) × (caller ≡ some bank)
      × (own ≡ some home)
      × (passes (some home) (some bank) key req ≡ true)
passes-own none caller key req h = absurd (ground arith)
passes-own (some home) none key req h = absurd (ground arith)
passes-own (some home) (some bank) key req h = (bank, home, refl, refl, h)

module _ (hash : TransferRequest → ℕ) (key : Option ℕ) (req : TransferRequest) where
  receive_passed :
      (env : Env) (w : World) (home bank : ℕ)
      → env.own_bank ≡ some home
      → passes (some home) (some bank) key req ≡ true
      → receive_transfer env hash (some bank) key req w
        ≡ receive_new env (hash req) bank req (lookup (get_or req.transfer_id 0) w.transfers) w
  unfolding receive_transfer ◌>>=◌ find
  receive_passed env w home bank e h = ground arith

  receive_refused :
      (env : Env) (w : World) (caller : Option ℕ)
      → passes env.own_bank caller key req ≡ false
      → (e : Failure) × (receive_transfer env hash caller key req w ≡ (err e, w))
  unfolding receive_transfer ◌>>=◌ find
  receive_refused env w none h = (unauthorized, refl)
  receive_refused env w (some bank) h = elim (Bool-cases (validate_transfer_request req)) [
    | inr invalid ↦ (validation_error, ground arith)
    | inl valid ↦ elim (Bool-cases (equals (get_or req.transfer_id 0) key)) [
      | inr other_key ↦ (validation_error, ground arith)
      | inl same_key ↦ elim (Option-cases env.own_bank) [
        | inl off ↦ (service_unavailable, ground arith)
        | inr (home, e) ↦ elim (Bool-cases (equals home req.destination_bank_code)) [
          | inr elsewhere ↦ (validation_error, ground arith)
          | inl here ↦ (unauthorized, ground arith)
        ]
      ]
    ]
  ]

  -- What is there after a request was taken in.
  receive_new_stored :
      (env : Env) (code bank : ℕ) (b : World)
      → (receive_new env code bank req (lookup (get_or req.transfer_id 0) b.transfers) b).0
        ≡ ok received
      → (r : Transfer) × (lookup
            (get_or req.transfer_id 0)
            (receive_new env code bank req
              (lookup (get_or req.transfer_id 0) b.transfers)
              b).1.transfers
          ≡ some r)
        × Flushed (incoming env.now env.fresh code req) r
  unfolding ◌>>=◌ find insert_new flush_row
  receive_new_stored env code bank b h =
      elim (Option-cases (lookup (get_or req.transfer_id 0) b.transfers)) [
        | inr (old, e) ↦
            elim (Bool-cases (is_foreign bank old || other_hash code old.request_hash)) [
              | inl foreign ↦ let no_ok = rw (e, foreign) at h in cc
              | inr own ↦ let no_ok = rw (e, own) at h in cc
            ]
        | inl missing ↦ elim (Bool-cases (ltb env.now (get_or req.expires_at 0))) [
          | inr late ↦ let no_ok = rw (missing, late) at h in cc
          | inl early ↦
              let row : Transfer = incoming env.now env.fresh code req in
              rw (missing, early, insert_in, missing)
                (flush_in_found (get_or req.transfer_id 0)
                  (set_transfer (get_or req.transfer_id 0) row b) row
                  (lookup-insert_self (get_or req.transfer_id 0) row b.transfers))
        ]
      ]

  -- A row of the request's bank and fingerprint answers the request with its state.
  repeated_known :
      (bank : ℕ) (r : Transfer)
      → r.direction ≡ in_coming
      → r.partner_bank_code ≡ bank
      → r.request_hash ≡ some (hash req)
      → (w : World) → repeated r (hash req) bank w ≡ (ok (again r.state (status_body r).1), w)
  unfolding return
  repeated_known bank r d p f w =
      let own_hash : other_hash (hash req) r.request_hash ≡ false = rw f (ground arith) in
      let own_row : is_foreign bank r ≡ false = rw d (ground arith) in rw (own_row, own_hash) refl

  origin_of :
      (home bank : ℕ)
      → passes (some home) (some bank) key req ≡ true
      → get_or req.origin_bank_code 0 ≡ bank
  origin_of home bank h = ground arith

  same_fixed : (r0 r1 : Transfer) → Flushed r0 r1 → fixed_of r1 ≡ fixed_of r0
  same_fixed r0 r1 kept = refl
  same_fixed r0 r1 cleared = refl

  fixed_known :
      (env : Env) (bank home : ℕ) (r1 r : Transfer)
      → passes (some home) (some bank) key req ≡ true
      → Flushed (incoming env.now env.fresh (hash req) req) r1
      → fixed_of r ≡ fixed_of r1
      → (r.direction ≡ in_coming)
        × (r.partner_bank_code ≡ bank)
        × (r.request_hash ≡ some (hash req))
  fixed_known env bank home r1 r h fl f =
      let whole = f ∙ same_fixed (incoming env.now env.fresh (hash req) req) r1 fl in
      (
        ap (λ (x : Fixed). x.direction) whole,
        ap (λ (x : Fixed). x.partner_bank_code) whole ∙ origin_of home bank h,
        ap (λ (x : Fixed). x.request_hash) whole,
      )

-- A request that was taken in is not taken in a second time: whatever happens in between, the same
-- request is answered with the state that the transfer has by then, and changes nothing.
pub receive_transfer_once :
    (env env' : Env) (hash : TransferRequest → ℕ) (caller key : Option ℕ) (req : TransferRequest)
    (b w : World)
    → History no_rows b
    → (receive_transfer env hash caller key req b).0 ≡ ok received
    → History (receive_transfer env hash caller key req b).1 w
    → env'.own_bank ≡ env.own_bank
    → (r : Transfer) × (lookup (get_or req.transfer_id 0) w.transfers ≡ some r)
      × (receive_transfer env' hash caller key req w ≡ (ok (again r.state (status_body r).1), w))
receive_transfer_once env env' hash caller key req b w past done next e =
    elim (Bool-cases (passes env.own_bank caller key req)) [
      | inr refused ↦
          let (error, failed) = receive_refused hash key req env b caller refused in
          let no_ok = rw failed at done in cc
      | inl passed ↦
          let (bank, home, is_bank, is_home, p) = passes-own env.own_bank caller key req passed in
          let id = get_or req.transfer_id 0 in
          let first : receive_transfer env hash caller key req b
              ≡ receive_new env (hash req) bank req (lookup id b.transfers) b =
            rw is_bank (receive_passed hash key req env b home bank is_home p) in
          let stored : (r1 : Transfer) × (lookup id
                  (receive_transfer env hash caller key req b).1.transfers
                ≡ some r1)
              × Flushed (incoming env.now env.fresh (hash req) req) r1 =
            rw first (receive_new_stored hash key req env (hash req) bank b (rw first at done)) in
          let (r1, e1, flushed) = stored in
          let sound =
            History-Inv no_rows _ no_rows-Inv (step past env (transfer_post hash caller key req)) in
          let (r, found, later) =
            (History-Inv _ w (Inv-self no_rows _ sound) next).follows id r1 e1 in
          let (d, q, f) = fixed_known hash key req env bank home r1 r p flushed later.fixed in
          let second : receive_transfer env' hash caller key req w
              ≡ receive_new env' (hash req) bank req (lookup id w.transfers) w =
            rw is_bank (receive_passed hash key req env' w home bank (e ∙ is_home) p) in
          (r, found, second ∙ rw found (repeated_known hash key req bank r d q f w))
    ]
