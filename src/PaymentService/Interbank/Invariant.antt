-- ===== src/PaymentService/Interbank/Invariant.antt =====
-- An invariant of the tables of the protocol with partner banks, which also relates them to an
-- earlier state, and a rule for each statement that keeps it.
use mathlib.Core.Path.{subst}
use proyecto_sa_b.Prelude.{
  ℕ, ◌≡◌, refl, sym, ◌∙◌, inl, inr, none, some, [], ◌∷◌, ◌==◌, ==_iff, Bool-cases,
}
use proyecto_sa_b.Prelude.Dict.{lookup, lookup-insert, lookup-insert_cases}
use proyecto_sa_b.Prelude.Dict.Distinct.{Distinct, Distinct-insert}
use proyecto_sa_b.PaymentService.Interbank.{Transfer, Message, World, set_transfer}
use proyecto_sa_b.PaymentService.Interbank.Outbox.{publish_in}
use proyecto_sa_b.PaymentService.Interbank.Moves.{
  Advances, RowSound, Moves, Advances-refl, Advances-trans, Moves-Advances, Moves-RowSound,
  RowSound-append,
}

-- The tables of `w` are sound, and every row of `b` is still there in `w`, in the same or a later
-- version.
pub record Inv (b w : World) : Type 0 where
  pub follows :
      (id : ℕ) (r0 : Transfer)
      → lookup id b.transfers ≡ some r0
      → (r : Transfer) × (lookup id w.transfers ≡ some r) × Advances id r0 r
  pub sound : (id : ℕ) (r : Transfer) → lookup id w.transfers ≡ some r → RowSound id r w.published
  pub distinct : Distinct w.transfers

pub Inv-self : (b w : World) → Inv b w → Inv w w
Inv-self b w h = record {
  follows = λ id r0 e. (r0, e, Advances-refl id r0);
  sound = h.sound;
  distinct = h.distinct;
}

pub Inv-trans : (b c w : World) → Inv b c → Inv c w → Inv b w
Inv-trans b c w h g = record {
  follows = λ id r0 e.
      let (r1, e1, a1) = h.follows id r0 e in
      let (r2, e2, a2) = g.follows id r1 e1 in (r2, e2, Advances-trans id r0 r1 r2 a1 a2);
  sound = g.sound;
  distinct = g.distinct;
}

-- The row as it is now is a later version of the one that was read.
pub later :
    (b w : World) (id : ℕ) (seen r : Transfer)
    → Inv b w
    → lookup id b.transfers ≡ some seen
    → lookup id w.transfers ≡ some r
    → Advances id seen r
later b w id seen r h e now =
    let (r1, e1, a1) = h.follows id seen e in
    let equal : r1 ≡ r = cc in subst (Advances id seen) equal a1

-- Writing a later version of a row.
pub set-Inv :
    (b w : World) (id : ℕ) (r r' : Transfer)
    → Inv b w
    → lookup id w.transfers ≡ some r
    → Advances id r r'
    → RowSound id r' w.published
    → Inv b (set_transfer id r' w)
set-Inv b w id r r' h e a s = record {
  follows = λ j r0 e0.
      let (r1, e1, a1) = h.follows j r0 e0 in
      elim (Bool-cases (j == id)) [
        | inl same ↦
            let equal : j ≡ id = (==_iff j id).0 same in
            let there : lookup id w.transfers ≡ some r1 = rw equal at e1 in
            let first : r1 ≡ r = cc in
            (
              r',
              lookup-insert j id r' w.transfers ∙ rw same refl,
              Advances-trans j r0 r1 r' a1 (rw (equal, first) a),
            )
        | inr other ↦ (r1, lookup-insert j id r' w.transfers ∙ rw other e1, a1)
      ];
  sound = λ j u eu. elim (lookup-insert_cases j id u r' w.transfers eu) [
    | inl (same, found) ↦ rw (same, sym found) s
    | inr (other, old) ↦ h.sound j u old
  ];
  distinct = Distinct-insert id r' w.transfers h.distinct;
}

pub move-Inv :
    (b w : World) (id : ℕ) (r r' : Transfer)
    → Inv b w
    → lookup id w.transfers ≡ some r
    → Moves id r r'
    → Inv b (set_transfer id r' w)
move-Inv b w id r r' h e m =
    set-Inv b w id r r' h e (Moves-Advances id r r' m)
      (Moves-RowSound id r r' w.published m (h.sound id r e))

-- A row under a new id.
pub add-Inv :
    (b w : World) (id : ℕ) (r : Transfer)
    → Inv b w
    → lookup id w.transfers ≡ none
    → RowSound id r w.published
    → Inv b (set_transfer id r w)
add-Inv b w id r h e s = record {
  follows = λ j r0 e0.
      let (r1, e1, a1) = h.follows j r0 e0 in
      elim (Bool-cases (j == id)) [
        | inl same ↦
            let there : lookup id w.transfers ≡ some r1 = rw ((==_iff j id).0 same) at e1 in cc
        | inr other ↦ (r1, lookup-insert j id r w.transfers ∙ rw other e1, a1)
      ];
  sound = λ j u eu. elim (lookup-insert_cases j id u r w.transfers eu) [
    | inl (same, found) ↦ rw (same, sym found) s
    | inr (other, old) ↦ h.sound j u old
  ];
  distinct = Distinct-insert id r w.transfers h.distinct;
}

pub publish-Inv : (b w : World) (m : Message) → Inv b w → Inv b (publish_in m w)
publish-Inv b w m h = record {
  follows = h.follows;
  sound = λ id r e. RowSound-append id r w.published (m ∷ []) (h.sound id r e);
  distinct = h.distinct;
}
