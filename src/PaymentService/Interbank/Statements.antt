-- ===== src/PaymentService/Interbank/Statements.antt =====
-- A rule for each statement on the tables of the protocol, that it keeps the invariant.
use mathlib.Core.List.{Memᴰ}
use mathlib.Core.List.Memᴰ
use proyecto_sa_b.Prelude.{
  ℕ, ◌≡◌, refl, sym, ◌∙◌, inl, inr, Bool, true, false, Option, none, some, List, [], ◌∷◌, ◌++◌,
  ==_iff, Bool-cases, Option-cases, if◌then◌else◌,
}
use proyecto_sa_b.Prelude.Dict.{Dict, lookup}
use proyecto_sa_b.Prelude.Dict.Distinct.{Listed, Listed-keep, Listed-take, Distinct-Listed}
use proyecto_sa_b.Prelude.Program.{for_each, ◌>>=◌}
use proyecto_sa_b.Prelude.Program.Keeps.{Keeps, change-Keeps, write-Keeps, skip-Keeps, bind-Keeps}
use proyecto_sa_b.PaymentService.Interbank.{State, Transfer, Message, World, Call, is_due}
use proyecto_sa_b.PaymentService.Interbank.Outbox.{
  number, is_state, one_of, transition, transition_in, update, update_in, insert_new, insert_in,
  claim, claim_in, event_for, clear_in, publish_in, flush_seen, flush_in, flush_row,
}
use proyecto_sa_b.PaymentService.Interbank.Sender.{find}
use proyecto_sa_b.PaymentService.Interbank.Timeouts.{rows_of}
use proyecto_sa_b.PaymentService.Interbank.Moves.{
  fits, Advances, RowSound, Moves, touched, Advances-refl,
}
use proyecto_sa_b.PaymentService.Interbank.Invariant.{
  Inv, Inv-self, Inv-trans, later, set-Inv, move-Inv, add-Inv, publish-Inv,
}

-- What is known of the row that a conditional update finds.
pub record Found (b : World) (id : ℕ) (from : List State) (r : Transfer) : Type 0 where
  pub state : one_of from r.state ≡ true
  pub fit : fits r.direction r.state ≡ true
  pub version : (seen : Transfer) → lookup id b.transfers ≡ some seen → Advances id seen r

module _ {b : World} where
  transition_in-Inv :
      (now id : ℕ) (from : List State) (patch : Transfer → Transfer)
      → ((r : Transfer)
          → Found b id from r
          → Moves id r (record (patch r) { updated_at = now; locked_until = none }))
      → (w : World) → Inv b w
      → Inv b (transition_in now id from patch w).1
  transition_in-Inv now id from patch f w h = elim (Option-cases (lookup id w.transfers)) [
    | inl missing ↦ rw (transition_in, missing) h
    | inr (r, e) ↦ elim (Bool-cases (one_of from r.state)) [
      | inl yes_from ↦
          let m = f r (record {
            state = yes_from;
            fit = (h.sound id r e).fit;
            version = λ seen es. later b w id seen r h es e;
          }) in
          rw (transition_in, e, yes_from) (move-Inv b w id r _ h e m)
      | inr no_from ↦ rw (transition_in, e, no_from) h
    ]
  ]

  pub transition-Keeps :
      (now id : ℕ) (from : List State) (patch : Transfer → Transfer)
      → ((r : Transfer)
          → Found b id from r
          → Moves id r (record (patch r) { updated_at = now; locked_until = none }))
      → Keeps (Inv b) (transition now id from patch)
  unfolding transition
  transition-Keeps now id from patch f =
      change-Keeps (transition_in now id from patch) (transition_in-Inv now id from patch f)

  pub update-Keeps :
      (id : ℕ) (patch : Transfer → Transfer)
      → ((r : Transfer) → Moves id r (patch r))
      → Keeps (Inv b) (update id patch)
  unfolding update
  update-Keeps id patch f = write-Keeps (update_in id patch) (λ w h.
      elim (Option-cases (lookup id w.transfers)) [
        | inl missing ↦ rw (update_in, missing) h
        | inr (r, e) ↦ rw (update_in, e) (move-Inv b w id r (patch r) h e (f r))
      ])

  pub insert_new-Keeps :
      (id : ℕ) (r : Transfer)
      → ((messages : List Message) → RowSound id r messages)
      → Keeps (Inv b) (insert_new id r)
  unfolding insert_new
  insert_new-Keeps id r s = change-Keeps (insert_in id r) (λ w h.
      elim (Option-cases (lookup id w.transfers)) [
        | inl missing ↦ rw missing (add-Inv b w id r h missing (s w.published))
        | inr (old, e) ↦ rw e h
      ])

  pub claim-Keeps : (now id : ℕ) → Keeps (Inv b) (claim now id)
  unfolding claim
  claim-Keeps now id = change-Keeps (claim_in now id) (λ w h.
      elim (Option-cases (lookup id w.transfers)) [
        | inl missing ↦ rw (claim_in, missing) h
        | inr (r, e) ↦ elim (Bool-cases (is_due now r.locked_until)) [
          | inl due ↦ rw (claim_in, e, due) (move-Inv b w id r _ h e (touched refl refl refl refl))
          | inr held ↦ rw (claim_in, e, held) h
        ]
      ])

  -- The flag is cleared for the state whose event has been published.
  clear_in-Inv :
      (w : World) (id : ℕ) (seen : Transfer)
      → Inv b w
      → lookup id b.transfers ≡ some seen
      → ((m : Message) → event_for id seen ≡ some m → Memᴰ m w.published)
      → Inv b (clear_in id seen.state w)
  clear_in-Inv w id seen h es said = elim (Option-cases (lookup id w.transfers)) [
    | inl missing ↦ rw (clear_in, missing) h
    | inr (r, e) ↦ elim (Bool-cases (is_state r.state seen.state)) [
      | inr other ↦ rw (clear_in, e, other) h
      | inl same ↦
          let a : Advances id seen r = later b w id seen r h es e in
          let equal : number seen.state ≡ number r.state =
            sym ((==_iff (number r.state) (number seen.state)).0 same) in
          let r' : Transfer = record r { pending_event = false } in
          let sound : RowSound id r' w.published = record {
            fit = (h.sound id r e).fit;
            kept = λ m em. inr (said m (sym (a.same equal) ∙ em));
          } in
          let step : Advances id r r' = record {
            fixed = refl;
            reached = (Advances-refl id r).reached;
            same = λ _. refl;
          } in
          rw (clear_in, e, same) (set-Inv b w id r r' h e step sound)
    ]
  ]

  flush_message-Inv :
      (w : World) (id : ℕ) (seen : Transfer) (m : Message)
      → Inv b w
      → lookup id b.transfers ≡ some seen
      → event_for id seen ≡ some m
      → (up : Bool) → Inv b (if up then clear_in id seen.state (publish_in m w) else w)
  flush_message-Inv w id seen m h es em false = h
  flush_message-Inv w id seen m h es em true =
      let said : Memᴰ m (w.published ++ m ∷ []) = Memᴰ.append_right w.published (Memᴰ.head refl) in
      clear_in-Inv (publish_in m w) id seen (publish-Inv b w m h) es
        (λ m' em'. let equal : m' ≡ m = cc in rw equal said)

  -- The part of `flushRow` after the row was read, which may have changed since.
  pub flush_seen-Inv :
      (w : World) (id : ℕ) (seen : Transfer)
      → Inv b w
      → lookup id b.transfers ≡ some seen
      → Inv b (flush_seen id seen w)
  flush_seen-Inv w id seen h es = elim (Bool-cases seen.pending_event) [
    | inr done ↦ rw done h
    | inl waits ↦ elim (Option-cases (event_for id seen)) [
      | inl quiet ↦ rw (waits, quiet) (clear_in-Inv w id seen h es (λ m em. cc))
      | inr (m, em) ↦ rw (waits, em) (flush_message-Inv w id seen m h es em w.broker)
    ]
  ]

module _ {b : World} where
  pub flush_row-Keeps : (id : ℕ) → Keeps (Inv b) (flush_row id)
  unfolding flush_row
  flush_row-Keeps id = write-Keeps (flush_in id) (λ w h.
      elim (Option-cases (lookup id w.transfers)) [
        | inl missing ↦ rw (flush_in, missing) h
        | inr (r, e) ↦
            rw (flush_in, e)
              (Inv-trans b w (flush_seen id r w) h (flush_seen-Inv w id r (Inv-self b w h) e))
      ])

-- After a row was read, the rest of the call starts from where it was read.
pub find-Keeps :
    {A : Type 0} {b : World} (id : ℕ) (k : Option Transfer → Call A)
    → ((c : World) → lookup id c.transfers ≡ none → Keeps (Inv c) (k none))
    → ((c : World) (r : Transfer) → lookup id c.transfers ≡ some r → Keeps (Inv c) (k (some r)))
    → Keeps (Inv b) (find id >>= k)
unfolding ◌>>=◌
find-Keeps {A} {b} id k f g = record {
  run = λ w h. elim (Option-cases (lookup id w.transfers)) [
    | inl missing ↦ rw missing (Inv-trans b w _ h ((f w missing).run w (Inv-self b w h)))
    | inr (r, e) ↦ rw e (Inv-trans b w _ h ((g w r e).run w (Inv-self b w h)))
  ];
}

for_rows-Keeps :
    {b : World} (f : ℕ × Transfer → Call (Unit {0})) (rows : List (ℕ × Transfer))
    → Listed b.transfers rows
    → ((id : ℕ) (r : Transfer) → lookup id b.transfers ≡ some r → Keeps (Inv b) (f (id, r)))
    → Keeps (Inv b) (for_each f rows)
unfolding for_each
for_rows-Keeps f [] h g = skip-Keeps
for_rows-Keeps f ((id, r) ∷ rows) h g =
    bind-Keeps (f (id, r)) (λ _. for_each f rows) (g id r h.0) (λ _. for_rows-Keeps f rows h.1 g)

-- A loop over rows that were selected before it, which may change while it runs.
pub rows_of-Keeps :
    {b : World} (p : Transfer → Bool) (limit : ℕ) (f : ℕ × Transfer → Call (Unit {0}))
    (choose : List (ℕ × Transfer) → List (ℕ × Transfer))
    → ((c : Dict Transfer) (rows : Dict Transfer) → Listed c rows → Listed c (choose rows))
    → ((c : World) (id : ℕ) (r : Transfer)
        → lookup id c.transfers ≡ some r
        → Keeps (Inv c) (f (id, r)))
    → Keeps (Inv b) (rows_of p limit >>= λ rows. for_each f (choose rows))
unfolding ◌>>=◌
rows_of-Keeps {b} p limit f choose listed g = record {
  run = λ w h.
      let all : Listed w.transfers w.transfers = Distinct-Listed w.transfers h.distinct in
      let chosen = Listed-take limit w.transfers _ (Listed-keep (λ e. p e.1) w.transfers _ all) in
      Inv-trans b w _ h
        ((for_rows-Keeps f _ (listed w.transfers _ chosen) (g w)).run w (Inv-self b w h));
}
