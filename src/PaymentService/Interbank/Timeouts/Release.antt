-- ===== src/PaymentService/Interbank/Timeouts/Release.antt =====
-- When the protocol of a timeout gives the held money back.
use proyecto_sa_b.Prelude.{
  ℕ, ◌+◌, ◌*◌, ◌≤◌, ◌≡◌, refl, ◌⊎◌, inl, inr, Bool, true, false, Option, none, some, [], ◌∷◌, ◌==◌,
  ◌&&◌, not, leb, arith, Bool-cases, Option-cases, if◌then◌else◌,
}
use proyecto_sa_b.Prelude.Dict.{lookup, lookup-insert_self}
use proyecto_sa_b.Prelude.Program.{◌>>=◌}
use proyecto_sa_b.Prelude.Program.Keeps.{
  Keeps, skip-Keeps, bind-Keeps, if-Keeps, fail-Keeps, write-Keeps,
}
use proyecto_sa_b.PaymentService.Rules.{
  PartnerStatus, CancelAnswer, Resolution, accept, release, cancel, retry, resolve_query,
  resolve_cancel, margin_expired,
}
use proyecto_sa_b.PaymentService.Interbank.{
  State, Transfer, World, Reason, Env, service_unavailable,
}
use proyecto_sa_b.PaymentService.Interbank.Outbox.{
  is_state, transition, transition_in, update, update_in,
}
use proyecto_sa_b.PaymentService.Interbank.Sender.{find, finalize_out, no_patch, with_reason}
use proyecto_sa_b.PaymentService.Interbank.Timeouts.{
  is_cancelling, cancel_patch, again_patch, asked, resolved, resolve_until, resolve_timeout,
}
use proyecto_sa_b.PaymentService.Interbank.Sender.Closing.{finalize_out_closes}

abbrev is_undone_query : Option PartnerStatus → Bool
is_undone_query (some PartnerStatus.rejected) = true
is_undone_query (some PartnerStatus.cancelled) = true
is_undone_query _ = false

abbrev is_undone_cancel : Option CancelAnswer → Bool
is_undone_cancel (some CancelAnswer.cancelled) = true
is_undone_cancel (some CancelAnswer.already_rejected) = true
is_undone_cancel _ = false

-- The partner bank said in its answer, by a status 200, that it has not credited the deposit.
abbrev pub says_undone : Env → ℕ → Transfer → Bool
says_undone env id seen =
    if is_cancelling seen.timeout_step
    then not (env.post_cancel id seen).network_error
      && (env.post_cancel id seen).status == 200
      && is_undone_cancel (env.post_cancel id seen).said
    else not (env.get_transfer id seen).network_error
      && (env.get_transfer id seen).status == 200
      && is_undone_query (env.get_transfer id seen).said

-- A transfer in TIMEOUT is closed as REVERSED once the margin after its expiry has passed, whatever
-- the partner bank answers or fails to answer.
pub resolve_timeout_closes :
    (env : Env) (id : ℕ) (w : World) (r seen : Transfer) (at : ℕ)
    → lookup id w.transfers ≡ some r
    → r.state ≡ State.timeout
    → seen.expires_at ≡ some at
    → at + env.margin_seconds * 1000 ≤ env.now
    → (r' : Transfer) × (lookup id (resolve_timeout env id seen w).1.transfers ≡ some r')
      × (r'.state ≡ State.reversed)
      × (r'.reason_code ≡ some Reason.timeout_no_response)
unfolding resolve_timeout ◌>>=◌ margin_expired
resolve_timeout_closes env id w r seen at e t x late =
    let (done, closed) =
      finalize_out_closes env id (State.timeout ∷ []) State.reversed
        (with_reason (some Reason.timeout_no_response)) w r e (rw t refl) in
    let passed : leb (at + env.margin_seconds * 1000) env.now ≡ true = ground arith in
    rw (x, passed, done) closed

-- No row of the id is REVERSED.
abbrev Unreleased : ℕ → World → Type 0
Unreleased id w =
    (r : Transfer) → lookup id w.transfers ≡ some r → is_state r.state State.reversed ≡ false

module _ (id : ℕ) where
  update-Unreleased :
      (patch : Transfer → Transfer)
      → ((r : Transfer) → (patch r).state ≡ r.state)
      → Keeps (Unreleased id) (update id patch)
  unfolding update
  update-Unreleased patch same = write-Keeps (update_in id patch) (λ w h.
      elim (Option-cases (lookup id w.transfers)) [
        | inl missing ↦ rw (update_in, missing) h
        | inr (r, e) ↦
            rw (update_in, e)
              (λ r' e'.
                let found : r' ≡ patch r =
                  ground (arith, lookup-insert_self id (patch r) w.transfers) in
                rw (found, same r) (h r e))
      ])

  -- A transfer that is closed as accepted is not reversed, and one that is not closed stays.
  accepted-Unreleased :
      (env : Env)
      → Keeps (Unreleased id) (finalize_out env id (State.timeout ∷ []) State.accepted no_patch)
  unfolding finalize_out find transition ◌>>=◌
  accepted-Unreleased env = record {
    run = λ w h. elim (Option-cases (lookup id w.transfers)) [
      | inl missing ↦ simp (missing) (λ r e. cc)
      | inr (r, e) ↦ elim (Bool-cases (is_state r.state State.timeout)) [
        | inl waits ↦ λ r2 e2.
            let (done, (r', e', state, reason)) =
              finalize_out_closes env id (State.timeout ∷ []) State.accepted no_patch w r e
                (rw waits refl) in
            let same : r' ≡ r2 = cc in rw⁻¹ same (rw state refl)
        | inr other ↦
            simp (e, transition_in, other) (λ r' e'. let same : r ≡ r' = cc in rw⁻¹ same (h r e))
      ]
    ];
  }

  resolved-Unreleased :
      (env : Env) (seen : Transfer) (how : Resolution)
      → (how ≡ release) ⊎ Keeps (Unreleased id) (resolved env id seen how)
  resolved-Unreleased env seen accept =
      inr (bind-Keeps _ _ (accepted-Unreleased env) (λ _. skip-Keeps))
  resolved-Unreleased env seen release = inl refl
  resolved-Unreleased env seen cancel = inr (update-Unreleased (cancel_patch env) (λ r. refl))
  resolved-Unreleased env seen retry = inr (
      if-Keeps _ _ _ (update-Unreleased (cancel_patch env) (λ r. refl))
        (update-Unreleased (again_patch env seen) (λ r. refl)))

asked_undone :
    (env : Env) (id : ℕ) (seen : Transfer)
    → asked env id seen ≡ release
    → says_undone env id seen ≡ true
unfolding resolve_query resolve_cancel
asked_undone env id seen e = ground arith

resolve_until_released :
    (env : Env) (id : ℕ) (w : World) (r r' seen : Transfer) (at : ℕ)
    → lookup id w.transfers ≡ some r
    → r.state ≡ State.timeout
    → (o : Option ℕ) → o ≡ some at
    → lookup id (resolve_until env id seen o w).1.transfers ≡ some r'
    → r'.state ≡ State.reversed
    → (at + env.margin_seconds * 1000 ≤ env.now) ⊎ (says_undone env id seen ≡ true)
unfolding margin_expired
resolve_until_released env id w r r' seen at e t none x e' v = cc
resolve_until_released env id w r r' seen at e t (some at') x e' v =
    elim (Bool-cases (leb (at' + env.margin_seconds * 1000) env.now)) [
      | inl passed ↦ inl (ground arith)
      | inr early ↦ elim (resolved-Unreleased id env seen (asked env id seen)) [
        | inl released ↦ inr (asked_undone env id seen released)
        | inr keeps ↦
            let open_row : Unreleased id w =
              λ r2 e2. let same : r ≡ r2 = cc in rw⁻¹ same (rw t refl) in
            let whole = if-Keeps _ _ _ (fail-Keeps service_unavailable) keeps in
            let left = whole.run w open_row r' (rw early at e') in
            let off : true ≡ false = rw v at left in cc
      ]
    ]

-- One round of the protocol releases a transfer only if the margin after its expiry has passed, or if
-- the partner bank answered, with a status 200, that the transfer is rejected or cancelled.
pub resolve_timeout_released :
    (env : Env) (id : ℕ) (w : World) (r r' seen : Transfer) (at : ℕ)
    → lookup id w.transfers ≡ some r
    → r.state ≡ State.timeout
    → seen.expires_at ≡ some at
    → lookup id (resolve_timeout env id seen w).1.transfers ≡ some r'
    → r'.state ≡ State.reversed
    → (at + env.margin_seconds * 1000 ≤ env.now) ⊎ (says_undone env id seen ≡ true)
unfolding resolve_timeout
resolve_timeout_released env id w r r' seen at e t x e' v =
    resolve_until_released env id w r r' seen at e t seen.expires_at x e' v
