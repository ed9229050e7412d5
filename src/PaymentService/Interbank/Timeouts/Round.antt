-- ===== src/PaymentService/Interbank/Timeouts/Round.antt =====
-- A whole round of `processTimeouts` of interbank.service.ts, and a transfer whose margin has passed.
use proyecto_sa_b.Prelude.{
  ℕ, ◌+◌, ◌*◌, ◌≤◌, ◌≡◌, refl, inl, inr, true, Option, none, some, List, [], ◌∷◌, ◌==◌, ==_iff,
  keep, take_all, length, leb, arith, All, All-keep, Bool-cases,
}
use proyecto_sa_b.Prelude.Dict.{lookup, lookup-insert_self}
use proyecto_sa_b.Prelude.Dict.Distinct.{Distinct, Distinct-keep, lookup-keep}
use proyecto_sa_b.Prelude.Program.{for_each, read, ◌>>=◌}
use proyecto_sa_b.Prelude.Program.Keeps.{Keeps, skip-Keeps, bind-Keeps}
use proyecto_sa_b.PaymentService.Rules.{margin_expired}
use proyecto_sa_b.PaymentService.Interbank.{
  State, Transfer, World, Reason, Env, is_due, set_transfer,
}
use proyecto_sa_b.PaymentService.Interbank.Outbox.{is_state, claim, claim_in}
use proyecto_sa_b.PaymentService.Interbank.Timeouts.{
  resolve_row, process_timeouts, is_waiting, to_resolve,
}
use proyecto_sa_b.PaymentService.Interbank.Moves.{number_same}
use proyecto_sa_b.PaymentService.Interbank.Timeouts.Release.{resolve_timeout_closes}
use proyecto_sa_b.PaymentService.Interbank.Timeouts.Others.{At, resolve_row-At}
use proyecto_sa_b.PaymentService.Interbank.Timeouts.Ending.{resolve_row-Ends}

-- The transfer is closed for want of an answer.
abbrev pub IsGivenUp : ℕ → World → Type 0
IsGivenUp id w =
    (r : Transfer) × (lookup id w.transfers ≡ some r)
    × (r.state ≡ State.reversed)
    × (r.reason_code ≡ some Reason.timeout_no_response)

abbrev pub HasExpiry : ℕ × Transfer → Type 0
HasExpiry (_, r) = (at : ℕ) × (r.expires_at ≡ some at)

-- The turn of a row.
resolve_row-IsGivenUp :
    (env : Env) (id at : ℕ) (w : World) (r seen : Transfer)
    → lookup id w.transfers ≡ some r
    → r.state ≡ State.timeout
    → is_due env.now r.locked_until ≡ true
    → seen.expires_at ≡ some at
    → at + env.margin_seconds * 1000 ≤ env.now
    → IsGivenUp id (resolve_row env (id, seen) w).1
unfolding resolve_row claim ◌>>=◌
resolve_row-IsGivenUp env id at w r seen e t due x late =
    let claimed : Transfer = record r { locked_until = some (env.now + 30000) } in
    simp (e, claim_in, due)
      (resolve_timeout_closes env id (set_transfer id claimed w) claimed seen at
        (lookup-insert_self id claimed w.transfers) t x late)

others-At :
    (env : Env) (id : ℕ) (o : Option Transfer) (rows : List (ℕ × Transfer))
    → lookup id rows ≡ none
    → Keeps (At id o) (for_each (resolve_row env) rows)
unfolding for_each
others-At env id o [] e = skip-Keeps
others-At env id o ((j, seen) ∷ rows) e = elim (Bool-cases (id == j)) [
  | inl same ↦ absurd (ground arith)
  | inr other ↦
      bind-Keeps _ _ (resolve_row-At id j o other env seen)
        (λ _. others-At env id o rows (rw other at e))
]

rows-IsGivenUp :
    (env : Env) (bank id at : ℕ)
    → env.own_bank ≡ some bank
    → at + env.margin_seconds * 1000 ≤ env.now
    → (r seen : Transfer) → r.state ≡ State.timeout
    → is_due env.now r.locked_until ≡ true
    → seen.expires_at ≡ some at
    → (rows : List (ℕ × Transfer)) (w : World) → Distinct rows
    → All HasExpiry rows
    → lookup id rows ≡ some seen
    → lookup id w.transfers ≡ some r
    → IsGivenUp id (for_each (resolve_row env) rows w).1
unfolding for_each ◌>>=◌
rows-IsGivenUp env bank id at own late r seen t due x [] w d h found e = cc
rows-IsGivenUp env bank id at own late r seen t due x ((j, s) ∷ rows) w d h found e =
    let (until, known) = h.0 in
    let (_, ended) = (resolve_row-Ends env bank own j s until known).run w in
    elim (Bool-cases (id == j)) [
      | inl same ↦
          let equal : id ≡ j = (==_iff id j).0 same in
          let first : some s ≡ some seen = rw same at found in
          let alike : s ≡ seen = ground arith in
          let turn : IsGivenUp id (resolve_row env (j, s) w).1 =
            rw equal
              (resolve_row-IsGivenUp env j at w r s (rw equal at e) t due (rw alike x) late) in
          let (r', e', state, reason) = turn in
          let apart : lookup id rows ≡ none = rw equal d.0 in
          let after = (others-At env id (some r') rows apart).run (resolve_row env (j, s) w).1 e' in
          rw ended (r', after, state, reason)
      | inr other ↦
          let left = (resolve_row-At id j (some r) other env s).run w e in
          let rest =
            rows-IsGivenUp env bank id at own late r seen t due x rows (resolve_row env (j, s) w).1
              d.1 h.1 (rw other at found) left in
          rw ended rest
    ]

-- One round of `processTimeouts` closes every transfer in TIMEOUT whose margin has passed and that no
-- other round has claimed, as REVERSED and with the reason TIMEOUT_NO_RESPONSE, whatever the partner
-- banks answer, wherever the transfer stands among the others, and also if its next attempt is not due
-- yet. The conditions: ids are unique in the table, at most 100 transfers wait, each of them has an
-- expiry, and the bank has its code.
pub process_timeouts-IsGivenUp :
    (env : Env) (bank id at : ℕ) (w : World) (r : Transfer)
    → Distinct w.transfers
    → env.own_bank ≡ some bank
    → length (keep (λ (e : ℕ × Transfer). is_waiting env.now e.1) w.transfers) ≤ 100
    → All HasExpiry (keep (λ (e : ℕ × Transfer). is_waiting env.now e.1) w.transfers)
    → lookup id w.transfers ≡ some r
    → is_waiting env.now r ≡ true
    → r.expires_at ≡ some at
    → at + env.margin_seconds * 1000 ≤ env.now
    → IsGivenUp id (process_timeouts env w).1
unfolding process_timeouts for_each read ◌>>=◌ margin_expired
process_timeouts-IsGivenUp env bank id at w r distinct own few dated e waits x late =
    let waiting = keep (λ (e : ℕ × Transfer). is_waiting env.now e.1) w.transfers in
    let due : is_due env.now r.locked_until ≡ true = ground arith in
    let out : r.state ≡ State.timeout =
      let alike : is_state r.state State.timeout ≡ true = ground arith in
      number_same r.state State.timeout ((==_iff _ _).0 alike) in
    let passed : leb (at + env.margin_seconds * 1000) env.now ≡ true = ground arith in
    let chosen : to_resolve env (id, r) ≡ true =
      elim (Bool-cases (is_due env.now r.next_attempt_at)) [
        | inl ready ↦ rw ready refl
        | inr early ↦ rw (early, x) passed
      ] in
    rw (take_all 100 waiting few) (
      rows-IsGivenUp env bank id at own late r r out due x (keep (to_resolve env) waiting) w
        (Distinct-keep (to_resolve env) waiting (Distinct-keep _ w.transfers distinct))
        (All-keep HasExpiry (to_resolve env) waiting dated)
        (lookup-keep id r (to_resolve env) waiting (lookup-keep id r _ w.transfers e waits) chosen)
        e)
