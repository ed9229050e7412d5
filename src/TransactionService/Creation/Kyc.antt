-- ===== src/TransactionService/Creation/Kyc.antt =====
-- What the projection of the KYC status makes of a sequence of changes.
use proyecto_sa_b.Prelude.{
  ℕ, ◌≡◌, ◌≢◌, ◌≤◌, ◌⊎◌, inl, inr, refl, ◌∙◌, none, some, List, [], ◌∷◌, arith, All, leb,
  Bool-cases,
}
use mathlib.Core.List.{Memᴰ}
use proyecto_sa_b.Prelude.Dict.{Dict, lookup, lookup-insert}
use proyecto_sa_b.TransactionService.World.{CustomerKycStatus}
use proyecto_sa_b.TransactionService.Creation.{apply_status_change}

-- The changes of one customer's status, in the order in which they arrive.
unfoldable pub apply_all :
    ℕ → List CustomerKycStatus → Dict CustomerKycStatus → Dict CustomerKycStatus
apply_all customer [] table = table
apply_all customer (c ∷ cs) table =
    apply_all customer cs (apply_status_change customer (some c.status) c.updated_at table).1

module _ (customer : ℕ) (known : customer ≢ 0) where
  -- A first change is stored as it is.
  apply_first :
      (c : CustomerKycStatus) (table : Dict CustomerKycStatus)
      → lookup customer table ≡ none
      → lookup customer (apply_status_change customer (some c.status) c.updated_at table).1 ≡ some c
  unfolding apply_status_change
  apply_first c table e = grind (arith, lookup-insert)

  -- A later one leaves the newer of the two rows.
  apply_next :
      (c old : CustomerKycStatus) (table : Dict CustomerKycStatus)
      → lookup customer table ≡ some old
      → (r : CustomerKycStatus) × (lookup customer
            (apply_status_change customer (some c.status) c.updated_at table).1
          ≡ some r)
        × (c.updated_at ≤ r.updated_at)
        × (old.updated_at ≤ r.updated_at)
        × ((r ≡ c) ⊎ (r ≡ old))
  unfolding apply_status_change
  apply_next c old table stored = elim (Bool-cases (leb c.updated_at old.updated_at)) [
    | inl stale ↦ (old, ground arith, ground arith, omega arith, inr refl)
    | inr newer ↦ (c, grind (arith, lookup-insert), omega arith, ground arith, inl refl)
  ]

  apply_all_from :
      (cs : List CustomerKycStatus) (old : CustomerKycStatus) (table : Dict CustomerKycStatus)
      → lookup customer table ≡ some old
      → (r : CustomerKycStatus) × (lookup customer (apply_all customer cs table) ≡ some r)
        × All (λ c. c.updated_at ≤ r.updated_at) (old ∷ cs)
        × Memᴰ r (old ∷ cs)
  unfolding apply_all
  apply_all_from [] old table e = (old, e, omega arith, Memᴰ.head refl)
  apply_all_from (c ∷ cs) old table e =
      let (r, stored, above_c, above_old, which) = apply_next c old table e in
      let (last, found, above, among) = apply_all_from cs r _ stored in
      (
        last,
        found,
        (omega (arith, above.0), (omega (arith, above.0), above.1)),
        place r which last among,
      )
    where
      place :
          (r : CustomerKycStatus)
          → (r ≡ c) ⊎ (r ≡ old)
          → (l : CustomerKycStatus) → Memᴰ l (r ∷ cs)
          → Memᴰ l (old ∷ c ∷ cs)
      place r (inl e) l m = Memᴰ.tail (rw e at m)
      place r (inr e) l (Memᴰ.head h) = Memᴰ.head (h ∙ e)
      place r (inr e) l (Memᴰ.tail m) = Memᴰ.tail (Memᴰ.tail m)

-- After the changes of a customer's status, in the order of arrival, the projection holds one of
-- them, and none of them is later than it.
pub apply_all-latest :
    (customer : ℕ) (c : CustomerKycStatus) (cs : List CustomerKycStatus)
    (table : Dict CustomerKycStatus)
    → customer ≢ 0
    → lookup customer table ≡ none
    → (r : CustomerKycStatus) × (lookup customer (apply_all customer (c ∷ cs) table) ≡ some r)
      × All (λ other. other.updated_at ≤ r.updated_at) (c ∷ cs)
      × Memᴰ r (c ∷ cs)
unfolding apply_all
apply_all-latest customer c cs table known e =
    apply_all_from customer known cs c _ (apply_first customer known c table e)
