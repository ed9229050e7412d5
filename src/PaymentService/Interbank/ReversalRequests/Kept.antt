-- ===== src/PaymentService/Interbank/ReversalRequests/Kept.antt =====
-- The reversals that this bank asks for keep the invariant of the tables.
use proyecto_sa_b.Prelude.{ℕ, Option, none, some, Option-cases, Bool-cases, inl, inr}
use proyecto_sa_b.Prelude.Dict.{lookup}
use proyecto_sa_b.Prelude.Program.Keeps.{
  Keeps, skip-Keeps, bind-Keeps, if-Keeps, fail-Keeps, change-Keeps, program_rules,
}
use proyecto_sa_b.PaymentService.Interbank.{
  Transfer, Reversal, ReversalAnswer, World, Env, service_unavailable, is_due,
}
use proyecto_sa_b.PaymentService.Interbank.ReversalRequests.{
  create_reversal_request, claim_reversal, claim_reversal_in, ask_as, polled, process_reversal,
  process_reversals,
}
use proyecto_sa_b.PaymentService.Interbank.Reversals.Kept.{
  set_reversal-Inv, insert_reversal-Keeps, update_reversal-Keeps,
}
use proyecto_sa_b.PaymentService.Interbank.Invariant.{Inv}

module _ {b : World} where
  claim_reversal-Keeps : (now id : ℕ) → Keeps (Inv b) (claim_reversal now id)
  claim_reversal-Keeps now id = change-Keeps (claim_reversal_in now id) (λ w h.
      elim (Option-cases (lookup id w.reversals)) [
        | inl missing ↦ rw (claim_reversal_in, missing) h
        | inr (v, e) ↦ elim (Bool-cases (is_due now v.locked_until)) [
          | inl due ↦ rw (claim_reversal_in, e, due) (set_reversal-Inv b w id _ h)
          | inr held ↦ rw (claim_reversal_in, e, held) h
        ]
      ])

  pub create_reversal_request-Keeps :
      (env : Env) (id : ℕ) (r : Transfer) → Keeps (Inv b) (create_reversal_request env id r)
  unfolding create_reversal_request
  create_reversal_request-Keeps env id r = search (program_rules, insert_reversal-Keeps)

  ask_as-Keeps :
      (env : Env) (id : ℕ) (v : Reversal) (own : Option ℕ) → Keeps (Inv b) (ask_as env id v own)
  ask_as-Keeps env id v none = fail-Keeps service_unavailable
  ask_as-Keeps env id v (some bank) = search (program_rules, update_reversal-Keeps) depth 12

  polled-Keeps :
      (env : Env) (id : ℕ) (v : Reversal) (said : Option ReversalAnswer)
      → Keeps (Inv b) (polled env id v said)
  polled-Keeps env id v (some (ReversalAnswer.completed refund)) = update_reversal-Keeps id _
  polled-Keeps env id v (some ReversalAnswer.failed) = update_reversal-Keeps id _
  polled-Keeps env id v none = search (program_rules, update_reversal-Keeps)

  process_reversal-Keeps : (env : Env) (x : ℕ × Reversal) → Keeps (Inv b) (process_reversal env x)
  unfolding process_reversal
  process_reversal-Keeps env (id, v) = bind-Keeps _ _ (claim_reversal-Keeps env.now id) (λ claimed.
      if-Keeps claimed _ _
        (if-Keeps _ _ _ (ask_as-Keeps env id v env.own_bank) (polled-Keeps env id v _)) skip-Keeps)

  pub process_reversals-Keeps : (env : Env) → Keeps (Inv b) (process_reversals env)
  unfolding process_reversals
  process_reversals-Keeps env =
      search (program_rules, update_reversal-Keeps, process_reversal-Keeps)
