-- ===== src/InterbankMock/Kept.antt =====
-- The operations of the mock as a receiver keep the invariant.
pub mod Sender
use proyecto_sa_b.Prelude.{
  ℕ, zero, suc, ◌+◌, ◌≤◌, ◌≡◌, refl, sym, ◌∙◌, ◌⊎◌, inl, inr, Bool, true, false, Option, none, some,
  List, [], ◌∷◌, ◌++◌, ◌==◌, ltb, arith, Bool-cases, Option-cases, All, if◌then◌else◌,
}
use proyecto_sa_b.Prelude.Dict.{Dict, lookup, insert, lookup-insert_self}
use proyecto_sa_b.InterbankMock.{
  MockConfig, ConfigPatch, set_config, or_kept, InState, Reason, Request, Incoming, Outgoing,
  Reversal, Job, resolving, delivering, sending, Verdict, Call, result_post, transfer_post, World,
  Env, schedule, call, set_incoming,
}
use proyecto_sa_b.InterbankMock.Receiver.{
  is_processing, verdict_of, Body, request_of, new_incoming, arrived_cancelled, resolves,
  schedule_resolve, take_in, known_hash, receive_known, receive_transfer, cancel_now,
  cancelled_unknown, cancel_known, cancel_transfer, deliver_answered, deliver_found,
  deliver_callback, resolved, reason_for, resolve_found, resolve,
}
use proyecto_sa_b.InterbankMock.Sender.{
  new_outgoing, send_transfer, refund_if, refund_found, sent_transfer, result_found, receive_result,
  ReversalBody, reverse_request, reverse_content, reverse_original, reverse_known, set_reversal,
  request_reversal,
}
use proyecto_sa_b.InterbankMock.Invariant.{
  Later, Grows, Decided, JobSound, CallSound, Inv, Grows-insert, Grows-insert_new, Decided-Grows,
  store-Inv, schedule-Inv, call-Inv,
}

-- What keeps the deposits, the timers and the calls keeps the invariant.
pub same-Inv :
    (b w : World) (config : MockConfig) (outgoing : Dict Outgoing) (reversals : Dict Reversal)
    → Inv b w
    → Inv b (record w { config = config; outgoing = outgoing; reversals = reversals })
same-Inv b w config outgoing reversals h = record {
  follows = h.follows;
  jobs = h.jobs;
  calls = h.calls;
  blank = h.blank;
}

pub if_Inv :
    (b : World) (c : Bool) {A : Type 0} (x y : A × World)
    → Inv b x.1
    → Inv b y.1
    → Inv b (if c then x else y).1
if_Inv b true x y h g = h
if_Inv b false x y h g = g

arrived_cancelled-Inv :
    (b w : World) (env : Env) (r : Request) (t : Incoming)
    → Inv b w
    → lookup r.transfer_id w.incoming ≡ some t
    → t.hash ≡ none
    → Inv b (arrived_cancelled env r t w).1
arrived_cancelled-Inv b w env r t h e missing =
    let t' : Incoming = record t { hash = some (env.hash r); request = some r } in
    let off : t.status ≡ InState.cancelled = h.blank r.transfer_id t e missing in
    let stored =
      store-Inv b w r.transfer_id t' h (Grows-insert w.incoming r.transfer_id t t' e (inr refl))
        (λ no_hash. cc) in
    schedule-Inv b (set_incoming r.transfer_id t' w) (delivering r.transfer_id 1) stored (
      omega arith,
      omega arith,
      (
        verdict_of t.status,
        (t', lookup-insert_self r.transfer_id t' w.incoming, rw off refl, refl),
      ),
    )

take_in-Inv :
    (b w : World) (env : Env) (r : Request)
    → Inv b w
    → lookup r.transfer_id w.incoming ≡ none
    → Inv b (take_in env r w).1
take_in-Inv b w env r h e = elim (Bool-cases (ltb r.expires_at env.now)) [
  | inl late ↦ rw late h
  | inr early ↦
      let t = new_incoming env r in
      let stored =
        store-Inv b w r.transfer_id t h (Grows-insert_new w.incoming r.transfer_id t e)
          (λ no_hash. cc) in
      elim (Bool-cases (resolves w.config.mode)) [
        | inl answers ↦ rw (early, answers) (schedule-Inv b _ (resolving r.transfer_id) stored tt)
        | inr silent ↦ rw (early, silent) stored
      ]
]

known_hash-Inv :
    (b w : World) (env : Env) (r : Request) (t : Incoming) (o : Option ℕ)
    → Inv b w
    → lookup r.transfer_id w.incoming ≡ some t
    → t.hash ≡ o
    → Inv b (known_hash env r t o w).1
known_hash-Inv b w env r t none h e missing = arrived_cancelled-Inv b w env r t h e missing
known_hash-Inv b w env r t (some code) h e there = elim (Bool-cases (code == env.hash r)) [
  | inl same ↦ rw same h
  | inr other ↦ rw other h
]

receive_known-Inv :
    (b w : World) (env : Env) (r : Request) (o : Option Incoming)
    → Inv b w
    → lookup r.transfer_id w.incoming ≡ o
    → Inv b (receive_known env r o w).1
receive_known-Inv b w env r none h e = take_in-Inv b w env r h e
receive_known-Inv b w env r (some t) h e = known_hash-Inv b w env r t t.hash h e refl

pub receive_transfer-Inv :
    (b w : World) (env : Env) (key : Option ℕ) (traced : Bool) (body : Body)
    → Inv b w
    → Inv b (receive_transfer env key traced body w).1
unfolding receive_transfer
receive_transfer-Inv b w env key traced body h =
    if_Inv b _ _ _ (receive_known-Inv b w env (request_of body) _ h refl) h

cancel_known-Inv :
    (b w : World) (env : Env) (id : ℕ) (o : Option Incoming)
    → Inv b w
    → lookup id w.incoming ≡ o
    → Inv b (cancel_known env id o w).1
cancel_known-Inv b w env id none h e =
    store-Inv b w id (cancelled_unknown env) h
      (Grows-insert_new w.incoming id (cancelled_unknown env) e) (λ missing. refl)
cancel_known-Inv b w env id (some t) h e = elim (Bool-cases (is_processing t.status)) [
  | inl open_now ↦ rw open_now (
      store-Inv b w id (cancel_now env t) h
        (Grows-insert w.incoming id t (cancel_now env t) e (inl open_now)) (λ missing. refl))
  | inr over ↦ rw over h
]

pub cancel_transfer-Inv :
    (b w : World) (env : Env) (id : ℕ) (sound : Bool)
    → Inv b w
    → Inv b (cancel_transfer env id sound w).1
unfolding cancel_transfer
cancel_transfer-Inv b w env id true h = cancel_known-Inv b w env id _ h refl
cancel_transfer-Inv b w env id false h = h

deliver_answered-Inv :
    (b w : World) (id attempt status : ℕ) (v : Verdict)
    → Inv b w
    → Decided w.incoming id v
    → attempt ≤ 6
    → Inv b (deliver_answered id attempt status w)
deliver_answered-Inv b w id attempt status v h d n = elim (Bool-cases (status == 200)) [
  | inl fine ↦ rw fine h
  | inr failed ↦ elim (Bool-cases (ltb attempt 6)) [
    | inl more ↦
        rw (failed, more)
          (schedule-Inv b w (delivering id (attempt + 1)) h (omega arith, ground arith, (v, d)))
    | inr last ↦ rw (failed, last) h
  ]
]

-- A decided deposit is announced with its own verdict.
deliver_found-Inv :
    (b w : World) (env : Env) (id attempt : ℕ) (t : Incoming)
    → Inv b w
    → lookup id w.incoming ≡ some t
    → is_processing t.status ≡ false
    → attempt ≤ 6
    → Inv b (deliver_found env id attempt (some t) w)
deliver_found-Inv b w env id attempt t h e done n =
    let c = result_post id (verdict_of t.status) t.reason_code in
    let t' : Incoming = record t { callback = some (env.send c, attempt) } in
    let called = call-Inv b w c h (t, e, done, refl) in
    let stored =
      store-Inv b (call c w) id t' called (Grows-insert w.incoming id t t' e (inr refl))
        (h.blank id t e) in
    deliver_answered-Inv b (set_incoming id t' (call c w)) id attempt (env.send c)
      (verdict_of t.status) stored (t', lookup-insert_self id t' w.incoming, done, refl) n

pub deliver_callback-Inv :
    (b w : World) (env : Env) (id attempt : ℕ)
    → Inv b w
    → JobSound w.incoming (delivering id attempt)
    → Inv b (deliver_callback env id attempt w)
unfolding deliver_callback
deliver_callback-Inv b w env id attempt h (low, n, (v, (t, e, done, said))) =
    rw e (deliver_found-Inv b w env id attempt t h e done n)

resolved_over :
    (env : Env) (w : World) (t : Incoming) (o : Option Reason)
    → (is_processing (resolved env w t o).status ≡ false) × ((resolved env w t o).hash ≡ t.hash)
resolved_over env w t none = (refl, refl)
resolved_over env w t (some reason) = (refl, refl)

resolve_found-Inv :
    (b w : World) (env : Env) (id : ℕ) (o : Option Incoming)
    → Inv b w
    → lookup id w.incoming ≡ o
    → Inv b (resolve_found env id o w)
unfolding deliver_callback
resolve_found-Inv b w env id none h e = h
resolve_found-Inv b w env id (some t) h e = elim (Bool-cases (is_processing t.status)) [
  | inr over ↦ rw over h
  | inl open_now ↦
      let t' = resolved env w t (reason_for env w t.request) in
      let (over, same_hash) = resolved_over env w t (reason_for env w t.request) in
      let stored =
        store-Inv b w id t' h (Grows-insert w.incoming id t t' e (inl open_now)) (λ missing.
          let off = h.blank id t e (sym same_hash ∙ missing) in
          let no_more = rw off at open_now in cc) in
      let found = lookup-insert_self id t' w.incoming in
      rw (open_now, found)
        (deliver_found-Inv b (set_incoming id t' w) env id 1 t' stored found over (omega arith))
]

pub resolve-Inv : (b w : World) (env : Env) (id : ℕ) → Inv b w → Inv b (resolve env id w)
unfolding resolve
resolve-Inv b w env id h = resolve_found-Inv b w env id _ h refl
