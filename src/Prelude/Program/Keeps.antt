-- ===== src/Prelude/Program/Keeps.antt =====
-- A property of the state that a call keeps, by one rule for each combinator.
use mathlib.Core.Bool.{Bool, true, false}
use mathlib.Core.List.{List, [], ◌∷◌}
use proyecto_sa_b.Prelude.Tests.{if◌then◌else◌}
use proyecto_sa_b.Prelude.Action.{Action, Result, ok, err}
use proyecto_sa_b.Prelude.Program.{
  return, fail, read, change, attempt, write, skip, after, for_each, require, ◌>>=◌,
}

-- Whether it returns or throws, `m` leaves `P` true where it was true.
pub record Keeps {κ} {S E A : Type 0} (P : S → Type κ) (m : Action S E A) : Type κ where
  pub run : (s : S) → P s → P (m s).1

module _ {κ} {S E A : Type 0} {P : S → Type κ} where
  pub return-Keeps : (a : A) → Keeps {E = E} P (return a)
  unfolding return
  return-Keeps a = record { run = λ s h. h }

  pub fail-Keeps : (e : E) → Keeps {A = A} P (fail e)
  unfolding fail
  fail-Keeps e = record { run = λ s h. h }

  pub read-Keeps : (f : S → A) → Keeps {E = E} P (read f)
  unfolding read
  read-Keeps f = record { run = λ s h. h }

  pub change-Keeps : (f : S → A × S) → ((s : S) → P s → P (f s).1) → Keeps {E = E} P (change f)
  unfolding change
  change-Keeps f h = record { run = h }

  pub attempt-Keeps : (m : Action S E A) → Keeps P m → Keeps P (attempt m)
  unfolding attempt
  attempt-Keeps m h = record { run = h.run }

  pub if-Keeps :
      (b : Bool) (m n : Action S E A) → Keeps P m → Keeps P n → Keeps P (if b then m else n)
  if-Keeps true m n h g = h
  if-Keeps false m n h g = g

module _ {κ} {S E : Type 0} {P : S → Type κ} where
  pub write-Keeps : (f : S → S) → ((s : S) → P s → P (f s)) → Keeps {E = E} P (write f)
  unfolding write
  write-Keeps f h = record { run = h }

  pub skip-Keeps : Keeps {E = E} P skip
  unfolding skip
  skip-Keeps = record { run = λ s h. h }

  pub require-Keeps : (b : Bool) (e : E) → Keeps P (require b e)
  require-Keeps b e = if-Keeps b skip (fail e) skip-Keeps (fail-Keeps e)

module _ {κ} {S E A B : Type 0} {P : S → Type κ} where
  after-Keeps :
      (k : A → Action S E B) (r : Result E A) → ((a : A) → Keeps P (k a)) → Keeps P (after k r)
  after-Keeps k (ok a) h = h a
  after-Keeps k (err e) h = record { run = λ s g. g }

  pub bind-Keeps :
      (m : Action S E A) (k : A → Action S E B)
      → Keeps P m
      → ((a : A) → Keeps P (k a))
      → Keeps P (m >>= k)
  unfolding ◌>>=◌
  bind-Keeps m k h g = record { run = λ s p. (after-Keeps k (m s).0 g).run (m s).1 (h.run s p) }

module _ {κ} {S E A : Type 0} {P : S → Type κ} where
  pub for_each-Keeps :
      (f : A → Action S E (Unit {0})) (xs : List A)
      → ((x : A) → Keeps P (f x))
      → Keeps P (for_each f xs)
  unfolding for_each
  for_each-Keeps f [] h = skip-Keeps
  for_each-Keeps f (x ∷ xs) h =
      bind-Keeps (f x) (λ _. for_each f xs) (h x) (λ _. for_each-Keeps f xs h)

pub ruleset program_rules = (
  for_each-Keeps, return-Keeps, fail-Keeps, read-Keeps, attempt-Keeps, if-Keeps, skip-Keeps,
  bind-Keeps,
)
