-- ===== src/Prelude/Dict/Distinct.antt =====
-- Tables whose keys are all different, and lists of rows that were read from a table.
use Prim.Native.Nat.{ℕ, zero, suc}
use mathlib.Core.Path.{◌≡◌, refl, ◌∙◌}
use mathlib.Core.Logic.{inl, inr}
use mathlib.Core.Bool.{Bool, true, false}
use mathlib.Core.Option.{none, some}
use mathlib.Core.List.{List, [], ◌∷◌}
use native.Mathlib.Omega.{arith}
use proyecto_sa_b.Prelude.Tests.{◌==◌, Bool-cases, ==_iff}
use proyecto_sa_b.Prelude.Lists.{keep, take}
use proyecto_sa_b.Prelude.Dict.{Dict, insert, lookup, lookup-insert}

abbrev pub Distinct {ℓ} : {V : Type ℓ} → Dict V → Type ℓ
Distinct [] = Unit
Distinct ((k, v) ∷ d) = (lookup k d ≡ none) × Distinct d

-- Every row of the list is in the table under its key.
abbrev pub Listed {ℓ} : {V : Type ℓ} → Dict V → List (ℕ × V) → Type ℓ
Listed d [] = Unit
Listed d ((k, v) ∷ rows) = (lookup k d ≡ some v) × Listed d rows

module _ {ℓ} {V : Type ℓ} where
  pub Distinct-insert : (k : ℕ) (v : V) (d : Dict V) → Distinct d → Distinct (insert k v d)
  Distinct-insert k v [] h = (refl, tt)
  Distinct-insert k v ((j, u) ∷ d) h = elim (Bool-cases (k == j)) [
    | inl same ↦ rw same (rw ((==_iff k j).0 same) h.0, h.1)
    | inr other ↦
        let apart : (j == k) ≡ false = ground arith in
        rw other (lookup-insert j k v d ∙ rw apart h.0, Distinct-insert k v d h.1)
  ]

  Listed-cons :
      (k : ℕ) (v : V) (d rows : Dict V)
      → lookup k d ≡ none
      → Listed d rows
      → Listed ((k, v) ∷ d) rows
  Listed-cons k v d [] e h = tt
  Listed-cons k v d ((j, u) ∷ rows) e h = elim (Bool-cases (j == k)) [
    | inl same ↦
        let equal : j ≡ k = (==_iff j k).0 same in
        let found : lookup k d ≡ some u = rw equal at h.0 in cc
    | inr other ↦ (rw other h.0, Listed-cons k v d rows e h.1)
  ]

  pub Distinct-Listed : (d : Dict V) → Distinct d → Listed d d
  Distinct-Listed [] h = tt
  Distinct-Listed ((k, v) ∷ d) h =
      let self : (k == k) ≡ true = (==_iff k k).1 refl in
      (rw self refl, Listed-cons k v d d h.0 (Distinct-Listed d h.1))

  pub Listed-keep : (p : ℕ × V → Bool) (d rows : Dict V) → Listed d rows → Listed d (keep p rows)
  Listed-keep p d [] h = tt
  Listed-keep p d ((k, v) ∷ rows) h = elim (Bool-cases (p (k, v))) [
    | inl yes_p ↦ rw yes_p (h.0, Listed-keep p d rows h.1)
    | inr no_p ↦ rw no_p (Listed-keep p d rows h.1)
  ]

  -- The rows that are kept are found as before.
  pub lookup-keep :
      (k : ℕ) (v : V) (p : ℕ × V → Bool) (d : Dict V)
      → lookup k d ≡ some v
      → p (k, v) ≡ true
      → lookup k (keep p d) ≡ some v
  lookup-keep k v p [] e h = cc
  lookup-keep k v p ((j, u) ∷ d) e h = elim (Bool-cases (k == j)) [
    | inl same ↦
        let equal : k ≡ j = (==_iff k j).0 same in
        let first : some u ≡ some v = rw same at e in
        let alike : v ≡ u = ground arith in
        let kept : p (j, u) ≡ true = rw (equal, alike) at h in rw kept (rw same first)
    | inr other ↦
        let rest = lookup-keep k v p d (rw other at e) h in
        elim (Bool-cases (p (j, u))) [
          | inl yes_p ↦ rw yes_p (rw other rest)
          | inr no_p ↦ rw no_p rest
        ]
  ]

  lookup-keep-none :
      (k : ℕ) (p : ℕ × V → Bool) (d : Dict V) → lookup k d ≡ none → lookup k (keep p d) ≡ none
  lookup-keep-none k p [] e = refl
  lookup-keep-none k p ((j, u) ∷ d) e = elim (Bool-cases (k == j)) [
    | inl same ↦ absurd (ground arith)
    | inr other ↦
        let rest = lookup-keep-none k p d (rw other at e) in
        elim (Bool-cases (p (j, u))) [
          | inl yes_p ↦ rw yes_p (rw other rest)
          | inr no_p ↦ rw no_p rest
        ]
  ]

  pub Distinct-keep : (p : ℕ × V → Bool) (d : Dict V) → Distinct d → Distinct (keep p d)
  Distinct-keep p [] h = tt
  Distinct-keep p ((k, v) ∷ d) h = elim (Bool-cases (p (k, v))) [
    | inl yes_p ↦ rw yes_p (lookup-keep-none k p d h.0, Distinct-keep p d h.1)
    | inr no_p ↦ rw no_p (Distinct-keep p d h.1)
  ]

  pub Listed-take : (n : ℕ) (d rows : Dict V) → Listed d rows → Listed d (take n rows)
  Listed-take zero d rows h = tt
  Listed-take (suc n) d [] h = tt
  Listed-take (suc n) d ((k, v) ∷ rows) h = (h.0, Listed-take n d rows h.1)
