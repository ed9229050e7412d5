-- ===== src/Prelude/Dict.antt =====
-- A database table as rows under their primary key, in insertion order.
pub mod Distinct
use Prim.Native.Nat.{ℕ}
use mathlib.Core.Path.{◌≡◌, subst}
use mathlib.Core.Logic.{◌≢◌, ◌⊎◌, inl, inr}
use mathlib.Core.Option.{Option, none, some}
use mathlib.Core.List.{List, [], ◌∷◌}
use native.Mathlib.Omega.{arith}
use proyecto_sa_b.Prelude.Tests.{◌==◌, if◌then◌else◌, Bool-cases, ==_iff}
use proyecto_sa_b.Prelude.Int.{ℤ, pos, ◌+ℤ◌, ◌≤ℤ◌, int_laws}

abbrev pub Dict {ℓ} : Type ℓ → Type ℓ
Dict V = List (ℕ × V)

module _ {ℓ} {V : Type ℓ} where
  -- A row saved under a key that is there replaces it, and one under a new key is appended.
  abbrev pub insert : ℕ → V → Dict V → Dict V
  insert key row [] = (key, row) ∷ []
  insert key row (first ∷ rest) =
      if key == first.0 then (key, row) ∷ rest else first ∷ insert key row rest

  abbrev pub lookup : ℕ → Dict V → Option V
  lookup key [] = none
  lookup key ((first, row) ∷ rest) = if key == first then some row else lookup key rest

  -- Looking up after a save, whether or not the keys are the same.
  pub lookup-insert :
      (j k : ℕ) (v : V) (d : Dict V)
      → lookup j (insert k v d) ≡ (if j == k then some v else lookup j d)
  lookup-insert j k v [] = ground arith
  lookup-insert j k v (first ∷ rest) = ground (arith, lookup-insert j k v rest)

  pub lookup-insert_self : (k : ℕ) (v : V) (d : Dict V) → lookup k (insert k v d) ≡ some v
  lookup-insert_self k v d = grind (arith, lookup-insert k k v d)

  -- A row that is found after a save is the saved one or an old one.
  pub lookup-insert_cases :
      (j k : ℕ) (u v : V) (d : Dict V)
      → lookup j (insert k v d) ≡ some u
      → ((j ≡ k) × (v ≡ u)) ⊎ ((j ≢ k) × (lookup j d ≡ some u))
  lookup-insert_cases j k u v d e = elim (Bool-cases (j == k)) [
    | inl same ↦ inl ((==_iff j k).0 same, ground (arith, lookup-insert j k v d))
    | inr other ↦ inr (ground arith, ground (arith, lookup-insert j k v d))
  ]

-- The sum of a quantity over all rows, such as the balances of all accounts.
module _ {ℓ} {V : Type ℓ} (f : V → ℤ) where
  abbrev pub sum_by : Dict V → ℤ
  sum_by [] = pos 0
  sum_by ((_, v) ∷ d) = f v +ℤ sum_by d

  pub sum_by-insert :
      (k : ℕ) (v old : V) (d : Dict V)
      → lookup k d ≡ some old
      → sum_by (insert k v d) +ℤ f old ≡ sum_by d +ℤ f v
  sum_by-insert k v old [] e = cc
  sum_by-insert k v old (x ∷ d) e = grind (int_laws, sum_by-insert k v old d)

  pub sum_by-insert_new :
      (k : ℕ) (v : V) (d : Dict V) → lookup k d ≡ none → sum_by (insert k v d) ≡ sum_by d +ℤ f v
  sum_by-insert_new k v [] e = omega int_laws
  sum_by-insert_new k v (x ∷ d) e = grind (int_laws, sum_by-insert_new k v d)

abbrev pub AllRows {ℓ κ} : {V : Type ℓ} → (V → Type κ) → Dict V → Type κ
AllRows P [] = Unit
AllRows P ((_, v) ∷ d) = P v × AllRows P d

module _ {ℓ κ} {V : Type ℓ} (P : V → Type κ) where
  pub AllRows-lookup : (k : ℕ) (v : V) (d : Dict V) → AllRows P d → lookup k d ≡ some v → P v
  AllRows-lookup k v [] h e = cc
  AllRows-lookup k v ((j, u) ∷ d) h e = elim (Bool-cases (k == j)) [
    | inl same ↦ let found : u ≡ v = ground arith in subst P found h.0
    | inr other ↦ AllRows-lookup k v d h.1 (rw other at e)
  ]

  pub AllRows-insert : (k : ℕ) (v : V) (d : Dict V) → AllRows P d → P v → AllRows P (insert k v d)
  AllRows-insert k v [] h p = (p, tt)
  AllRows-insert k v ((j, u) ∷ d) h p = elim (Bool-cases (k == j)) [
    | inl same ↦ rw same (p, h.1)
    | inr other ↦ rw other (h.0, AllRows-insert k v d h.1 p)
  ]

module _ {ℓ} {V : Type ℓ} (f : V → ℤ) where
  pub sum_by-nonneg : (d : Dict V) → AllRows (λ v. pos 0 ≤ℤ f v) d → pos 0 ≤ℤ sum_by f d
  sum_by-nonneg [] h = omega int_laws
  sum_by-nonneg (x ∷ d) h = omega (int_laws, sum_by-nonneg d h.1)

  -- One row is at most the sum, where no row is negative.
  pub le-sum_by :
      (k : ℕ) (v : V) (d : Dict V)
      → AllRows (λ u. pos 0 ≤ℤ f u) d
      → lookup k d ≡ some v
      → f v ≤ℤ sum_by f d
  le-sum_by k v [] h e = cc
  le-sum_by k v ((j, u) ∷ d) h e = elim (Bool-cases (k == j)) [
    | inl same ↦
        let found : u ≡ v = ground arith in
        subst (λ z. f z ≤ℤ f u +ℤ sum_by f d) found (omega (int_laws, sum_by-nonneg d h.1))
    | inr other ↦ omega (int_laws, le-sum_by k v d h.1 (rw other at e))
  ]
