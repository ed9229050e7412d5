-- ===== src/Prelude/Program/Ends.antt =====
-- Calls that do not throw, by one rule for each combinator.
use mathlib.Core.Path.{◌≡◌, refl}
use mathlib.Core.Bool.{Bool, true, false}
use proyecto_sa_b.Prelude.Tests.{if◌then◌else◌}
use proyecto_sa_b.Prelude.Action.{Action, ok}
use proyecto_sa_b.Prelude.Program.{return, read, change, write, skip, ◌>>=◌}

-- `m` returns, whatever the state.
pub record Ends {S E A : Type 0} (m : Action S E A) : Type 0 where
  pub run : (s : S) → (a : A) × ((m s).0 ≡ ok a)

module _ {S E A : Type 0} where
  pub return-Ends : (a : A) → Ends {S = S} {E = E} (return a)
  unfolding return
  return-Ends a = record { run = λ s. (a, refl) }

  pub read-Ends : (f : S → A) → Ends {E = E} (read f)
  unfolding read
  read-Ends f = record { run = λ s. (f s, refl) }

  pub change-Ends : (f : S → A × S) → Ends {E = E} (change f)
  unfolding change
  change-Ends f = record { run = λ s. ((f s).0, refl) }

  pub if-Ends : (b : Bool) (m n : Action S E A) → Ends m → Ends n → Ends (if b then m else n)
  if-Ends true m n h g = h
  if-Ends false m n h g = g

module _ {S E : Type 0} where
  pub write-Ends : (f : S → S) → Ends {E = E} (write f)
  unfolding write
  write-Ends f = record { run = λ s. (tt, refl) }

  pub skip-Ends : Ends {S = S} {E = E} skip
  unfolding skip
  skip-Ends = record { run = λ s. (tt, refl) }

pub bind-Ends :
    {S E A B : Type 0} (m : Action S E A) (k : A → Action S E B)
    → Ends m
    → ((a : A) → Ends (k a))
    → Ends (m >>= k)
unfolding ◌>>=◌
bind-Ends m k h g = record {
  run = λ s. let (a, e) = h.run s in let (b, f) = (g a).run (m s).1 in (b, rw e f);
}
