-- ===== src/PaymentService/Interbank/Timeouts/Ending.antt =====
-- When `processTimeouts` of interbank.service.ts throws at a row.
use proyecto_sa_b.Prelude.{
  ℕ, ◌≡◌, Bool, true, false, Option, none, some, List, arith, if◌then◌else◌,
}
use proyecto_sa_b.Prelude.Program.{fail}
use proyecto_sa_b.Prelude.Program.Ends.{
  Ends, return-Ends, read-Ends, change-Ends, if-Ends, write-Ends, skip-Ends, bind-Ends,
}
use proyecto_sa_b.PaymentService.Rules.{Resolution, accept, release, cancel, retry}
use proyecto_sa_b.PaymentService.Interbank.{State, Transfer, Env, service_unavailable, Call}
use proyecto_sa_b.PaymentService.Interbank.Outbox.{transition, update, claim, flush_row}
use proyecto_sa_b.PaymentService.Interbank.Sender.{finalize_out, finalize_found}
use proyecto_sa_b.PaymentService.Interbank.Timeouts.{
  resolved, resolve_until, resolve_timeout, resolve_row, asked, needs_own_bank,
}

-- The bank has a code, so that no cancellation throws.
module _ (env : Env) (bank : ℕ) (own : env.own_bank ≡ some bank) (id : ℕ) where
  finalize_found-Ends :
      (from : List State) (next : State) (patch : Transfer → Transfer) (row : Option Transfer)
      → Ends (finalize_found env id from next patch row)
  unfolding transition flush_row
  finalize_found-Ends from next patch none = return-Ends false
  finalize_found-Ends from next patch (some r) = bind-Ends _ _ (change-Ends _) (λ moved.
      if-Ends moved _ _ (bind-Ends _ _ (write-Ends _) (λ _. return-Ends true)) (return-Ends false))

  finalize_out-Ends :
      (from : List State) (next : State) (patch : Transfer → Transfer)
      → Ends (finalize_out env id from next patch)
  unfolding finalize_out
  finalize_out-Ends from next patch =
      bind-Ends _ _ (read-Ends _) (finalize_found-Ends from next patch)

  resolved-Ends : (seen : Transfer) (how : Resolution) → Ends (resolved env id seen how)
  unfolding update
  resolved-Ends seen accept = bind-Ends _ _ (finalize_out-Ends _ _ _) (λ _. skip-Ends)
  resolved-Ends seen release = bind-Ends _ _ (finalize_out-Ends _ _ _) (λ _. skip-Ends)
  resolved-Ends seen cancel = write-Ends _
  resolved-Ends seen retry = if-Ends _ _ _ (write-Ends _) (write-Ends _)

  -- The bank's own code, which a cancellation names, is there.
  named-Ends :
      (b : Bool) (m : Call (Unit {0}))
      → b ≡ false
      → Ends m
      → Ends (if b then fail service_unavailable else m)
  named-Ends true m e h = cc
  named-Ends false m e h = h

  resolve_until-Ends :
      (seen : Transfer) (o : Option ℕ) (at : ℕ) → o ≡ some at → Ends (resolve_until env id seen o)
  resolve_until-Ends seen none at e = cc
  resolve_until-Ends seen (some x) at e =
      if-Ends _ _ _ (bind-Ends _ _ (finalize_out-Ends _ _ _) (λ _. skip-Ends)) (
        named-Ends (needs_own_bank env seen) (resolved env id seen (asked env id seen))
          (ground arith) (resolved-Ends seen (asked env id seen)))

  pub resolve_row-Ends :
      (seen : Transfer) (at : ℕ) → seen.expires_at ≡ some at → Ends (resolve_row env (id, seen))
  unfolding resolve_row resolve_timeout claim
  resolve_row-Ends seen at e =
      bind-Ends _ _ (change-Ends _)
        (λ claimed. if-Ends claimed _ _ (resolve_until-Ends seen seen.expires_at at e) skip-Ends)
