-- ===== src/InterbankMock/Invariant.antt =====
-- An invariant of what the mock keeps, which also relates it to an earlier state, and a rule for each
-- change of it.
use mathlib.Core.Path.{subst}
use proyecto_sa_b.Prelude.{
  ℕ, ◌≤◌, ◌≡◌, refl, sym, ◌∙◌, ◌⊎◌, inl, inr, true, false, none, some, [], ◌∷◌, ◌==◌, ==_iff,
  Bool-cases, All, All-map, All-append,
}
use proyecto_sa_b.Prelude.Dict.{Dict, lookup, insert, lookup-insert, lookup-insert_cases}
use proyecto_sa_b.InterbankMock.{
  InState, Incoming, Job, resolving, delivering, sending, Verdict, Call, result_post, transfer_post,
  World, schedule, call, set_incoming,
}
use proyecto_sa_b.InterbankMock.Receiver.{is_processing, verdict_of}

-- A later version of a deposit: only one in process changes its status.
abbrev pub Later : Incoming → Incoming → Type 0
Later t t' = (is_processing t.status ≡ true) ⊎ (t'.status ≡ t.status)

abbrev pub Grows : Dict Incoming → Dict Incoming → Type 0
Grows d d' =
    (id : ℕ) (t : Incoming)
    → lookup id d ≡ some t
    → (t' : Incoming) × (lookup id d' ≡ some t') × Later t t'

-- The deposit is there and decided, and the verdict is its.
abbrev pub Decided : Dict Incoming → ℕ → Verdict → Type 0
Decided d id v =
    (t : Incoming) × (lookup id d ≡ some t)
    × (is_processing t.status ≡ false)
    × (verdict_of t.status ≡ v)

abbrev pub JobSound : Dict Incoming → Job → Type 0
JobSound d (delivering id attempt) =
    (1 ≤ attempt) × (attempt ≤ 6) × ((v : Verdict) × Decided d id v)
JobSound d _ = Unit

abbrev pub CallSound : Dict Incoming → Call → Type 0
CallSound d (result_post id v reason) = Decided d id v
CallSound d _ = Unit

pub record Inv (b w : World) : Type 0 where
  pub follows : Grows b.incoming w.incoming
  pub jobs : All (JobSound w.incoming) w.scheduled
  pub calls : All (CallSound w.incoming) w.sent
  -- A deposit without content was cancelled before it came.
  pub blank :
      (id : ℕ) (t : Incoming)
      → lookup id w.incoming ≡ some t
      → t.hash ≡ none
      → t.status ≡ InState.cancelled

Later-step : (t t' t'' : Incoming) → Later t t' → Later t' t'' → Later t t''
Later-step t t' t'' (inl open_now) g = inl open_now
Later-step t t' t'' (inr same) (inl open_now) = inl (rw⁻¹ same open_now)
Later-step t t' t'' (inr same) (inr again) = inr (again ∙ same)

pub Grows-refl : (d : Dict Incoming) → Grows d d
Grows-refl d id t e = (t, e, inr refl)

pub Grows-trans : (d d' d'' : Dict Incoming) → Grows d d' → Grows d' d'' → Grows d d''
Grows-trans d d' d'' g h id t e =
    let (t', e', l) = g id t e in
    let (t'', e'', l') = h id t' e' in (t'', e'', Later-step t t' t'' l l')

pub Decided-Grows :
    (d d' : Dict Incoming) (id : ℕ) (v : Verdict) → Grows d d' → Decided d id v → Decided d' id v
Decided-Grows d d' id v g (t, e, done, said) =
    let (t', e', l) = g id t e in
    elim l [
      | inl open_now ↦ let off : true ≡ false = sym open_now ∙ done in cc
      | inr same ↦ (t', e', rw same done, rw same said)
    ]

JobSound-Grows : (d d' : Dict Incoming) → Grows d d' → (j : Job) → JobSound d j → JobSound d' j
JobSound-Grows d d' g (resolving id) h = tt
JobSound-Grows d d' g (sending id o reversal) h = tt
JobSound-Grows d d' g (delivering id attempt) (low, high, (v, decided)) =
    (low, high, (v, Decided-Grows d d' id v g decided))

CallSound-Grows : (d d' : Dict Incoming) → Grows d d' → (c : Call) → CallSound d c → CallSound d' c
CallSound-Grows d d' g (result_post id v reason) h = Decided-Grows d d' id v g h
CallSound-Grows d d' g (transfer_post id origin destination amount) h = tt

pub Grows-insert :
    (d : Dict Incoming) (id : ℕ) (t t' : Incoming)
    → lookup id d ≡ some t
    → Later t t'
    → Grows d (insert id t' d)
Grows-insert d id t t' e l j u eu = elim (Bool-cases (j == id)) [
  | inl same ↦
      let there : lookup id d ≡ some u = rw ((==_iff j id).0 same) at eu in
      let found : t ≡ u = cc in
      (t', lookup-insert j id t' d ∙ rw same refl, subst (λ x. Later x t') found l)
  | inr other ↦ (u, lookup-insert j id t' d ∙ rw other eu, inr refl)
]

pub Grows-insert_new :
    (d : Dict Incoming) (id : ℕ) (t : Incoming) → lookup id d ≡ none → Grows d (insert id t d)
Grows-insert_new d id t e j u eu = elim (Bool-cases (j == id)) [
  | inl same ↦ let there : lookup id d ≡ some u = rw ((==_iff j id).0 same) at eu in cc
  | inr other ↦ (u, lookup-insert j id t d ∙ rw other eu, inr refl)
]

-- Whatever else changes, the deposits grow and the lists stay.
pub store-Inv :
    (b w : World) (id : ℕ) (t : Incoming)
    → Inv b w
    → Grows w.incoming (insert id t w.incoming)
    → (t.hash ≡ none → t.status ≡ InState.cancelled)
    → Inv b (set_incoming id t w)
store-Inv b w id t h g quiet = record {
  follows = Grows-trans b.incoming w.incoming (insert id t w.incoming) h.follows g;
  jobs = All-map (JobSound-Grows w.incoming (insert id t w.incoming) g) w.scheduled h.jobs;
  calls = All-map (CallSound-Grows w.incoming (insert id t w.incoming) g) w.sent h.calls;
  blank = λ j u eu missing. elim (lookup-insert_cases j id u t w.incoming eu) [
    | inl (same, found) ↦
        rw⁻¹ found (quiet (subst (λ (x : Incoming). x.hash ≡ none) (sym found) missing))
    | inr (other, old) ↦ h.blank j u old missing
  ];
}

pub schedule-Inv : (b w : World) (j : Job) → Inv b w → JobSound w.incoming j → Inv b (schedule j w)
schedule-Inv b w j h s = record {
  follows = h.follows;
  jobs = All-append (JobSound w.incoming) w.scheduled (j ∷ []) h.jobs (s, tt);
  calls = h.calls;
  blank = h.blank;
}

pub call-Inv : (b w : World) (c : Call) → Inv b w → CallSound w.incoming c → Inv b (call c w)
call-Inv b w c h s = record {
  follows = h.follows;
  jobs = h.jobs;
  calls = All-append (CallSound w.incoming) w.sent (c ∷ []) h.calls (s, tt);
  blank = h.blank;
}
