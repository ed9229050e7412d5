-- ===== src/Prelude/Program.antt =====
-- Calls built by combinators that stay shut, so that a rule for each combinator proves what a whole
-- call keeps. They compute as those of Action do.
pub mod Ends
pub mod Keeps
use mathlib.Core.Bool.{Bool}
use mathlib.Core.List.{List, [], ◌∷◌}
use proyecto_sa_b.Prelude.Tests.{if◌then◌else◌}
use proyecto_sa_b.Prelude.Action.{Action, Result, ok, err}

module _ {S E A : Type 0} where
  unfoldable pub return : A → Action S E A
  return a s = (ok a, s)

  unfoldable pub fail : E → Action S E A
  fail e s = (err e, s)

  unfoldable pub read : (S → A) → Action S E A
  read f s = (ok (f s), s)

  -- A statement that writes and has a result, such as an update that counts its rows.
  unfoldable pub change : (S → A × S) → Action S E A
  change f s = let (a, s') = f s in (ok a, s')

  -- `try { … } catch { … }` around a statement whose exception is only logged.
  unfoldable pub attempt : Action S E A → Action S E (Unit {0})
  attempt m s = (ok tt, (m s).1)

module _ {S E : Type 0} where
  unfoldable pub write : (S → S) → Action S E (Unit {0})
  write f s = (ok tt, f s)

  -- Whether or not there is something to do.
  unfoldable pub skip : Action S E (Unit {0})
  skip s = (ok tt, s)

module _ {S E A B : Type 0} where
  abbrev after : (A → Action S E B) → Result E A → Action S E B
  after k (ok a) s = k a s
  after k (err e) s = (err e, s)

  infixl 5 ◌>>=◌ ◌>>◌
  unfoldable pub ◌>>=◌ : Action S E A → (A → Action S E B) → Action S E B
  unfolding return fail read change attempt write skip
  ◌>>=◌ m k s = after k (m s).0 (m s).1

  abbrev pub ◌>>◌ : Action S E A → Action S E B → Action S E B
  m >> k = m >>= λ _. k

-- `for (const x of xs) …`
unfoldable pub for_each :
    {S E A : Type 0} → (A → Action S E (Unit {0})) → List A → Action S E (Unit {0})
for_each f [] = skip
for_each f (x ∷ xs) = f x >> for_each f xs

-- `if (!b) throw …`
abbrev pub require : {S E : Type 0} → Bool → E → Action S E (Unit {0})
require b e = if b then skip else fail e
