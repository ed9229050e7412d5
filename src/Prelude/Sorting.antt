-- ===== src/Prelude/Sorting.antt =====
-- `ORDER BY`: a list sorted by a Boolean order.
use Prim.Native.Nat.{suc}
use mathlib.Core.Path.{◌≡◌, refl, sym, ◌∙◌, ap, subst}
use mathlib.Core.Logic.{◌⊎◌, inl, inr}
use mathlib.Core.Bool.{Bool, true}
use mathlib.Core.List.{List, [], ◌∷◌, Permᴰ}
use mathlib.Core.List.Permᴰ
use proyecto_sa_b.Prelude.Tests.{if◌then◌else◌, Bool-cases}
use proyecto_sa_b.Prelude.Lists.{All, All-map, length}

pub length-Perm {ℓ} : {A : Type ℓ} {xs ys : List A} → Permᴰ xs ys → length xs ≡ length ys
length-Perm Permᴰ.nil = refl
length-Perm (Permᴰ.cons e d) = ap suc (length-Perm d)
length-Perm (Permᴰ.swap e d) = refl
length-Perm (Permᴰ.trans d d') = length-Perm d ∙ length-Perm d'

pub All-Perm {ℓ κ} :
    {A : Type ℓ} (P : A → Type κ) {xs ys : List A} → Permᴰ xs ys → All P ys → All P xs
All-Perm P Permᴰ.nil h = tt
All-Perm P (Permᴰ.cons e d) h = (subst P (sym e) h.0, All-Perm P d h.1)
All-Perm P (Permᴰ.swap e e') h = (subst P (sym e) h.1.0, (subst P (sym e') h.0, h.1.1))
All-Perm P (Permᴰ.trans d d') h = All-Perm P d (All-Perm P d' h)

module _ {ℓ} {A : Type ℓ} (before : A → A → Bool) where
  abbrev pub insert_by : A → List A → List A
  insert_by x [] = x ∷ []
  insert_by x (y ∷ ys) = if before x y then x ∷ y ∷ ys else y ∷ insert_by x ys

  abbrev pub sort_by : List A → List A
  sort_by [] = []
  sort_by (x ∷ xs) = insert_by x (sort_by xs)

  -- Each item comes before all that follow.
  abbrev pub Ordered : List A → Type 0
  Ordered [] = Unit
  Ordered (x ∷ xs) = All (λ y. before x y ≡ true) xs × Ordered xs

  insert_by-Perm : (x : A) (xs : List A) → Permᴰ (insert_by x xs) (x ∷ xs)
  insert_by-Perm x [] = Permᴰ.refl (x ∷ [])
  insert_by-Perm x (y ∷ ys) = elim (Bool-cases (before x y)) [
    | inl yes_first ↦ rw yes_first (Permᴰ.refl (x ∷ y ∷ ys))
    | inr no_later ↦
        rw no_later (Permᴰ.trans (Permᴰ.cons refl (insert_by-Perm x ys)) (Permᴰ.swap refl refl))
  ]

  pub sort_by-Perm : (xs : List A) → Permᴰ (sort_by xs) xs
  sort_by-Perm [] = Permᴰ.nil
  sort_by-Perm (x ∷ xs) =
      Permᴰ.trans (insert_by-Perm x (sort_by xs)) (Permᴰ.cons refl (sort_by-Perm xs))

  insert_by-All {κ} :
      (P : A → Type κ) (x : A) (xs : List A) → P x → All P xs → All P (insert_by x xs)
  insert_by-All P x [] p h = (p, tt)
  insert_by-All P x (y ∷ ys) p h = elim (Bool-cases (before x y)) [
    | inl yes_first ↦ rw yes_first (p, h)
    | inr no_later ↦ rw no_later (h.0, insert_by-All P x ys p h.1)
  ]

  module _ (total : (x y : A) → (before x y ≡ true) ⊎ (before y x ≡ true))
      (follows : (x y z : A) → before x y ≡ true → before y z ≡ true → before x z ≡ true) where
    insert_by-Ordered : (x : A) (xs : List A) → Ordered xs → Ordered (insert_by x xs)
    insert_by-Ordered x [] h = (tt, tt)
    insert_by-Ordered x (y ∷ ys) h = elim (Bool-cases (before x y)) [
      | inl yes_first ↦ rw yes_first ((yes_first, All-map (λ z. follows x y z yes_first) ys h.0), h)
      | inr no_later ↦
          let other : before y x ≡ true = elim (total x y) [ inl e ↦ absurd (cc) | inr e ↦ e ] in
          rw no_later
            (insert_by-All (λ z. before y z ≡ true) x ys other h.0, insert_by-Ordered x ys h.1)
    ]

    pub sort_by-Ordered : (xs : List A) → Ordered (sort_by xs)
    sort_by-Ordered [] = tt
    sort_by-Ordered (x ∷ xs) = insert_by-Ordered x (sort_by xs) (sort_by-Ordered xs)
