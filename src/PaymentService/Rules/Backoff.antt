-- ===== src/PaymentService/Rules/Backoff.antt =====
-- The waits between the attempts of a send.
use proyecto_sa_b.Prelude.{ℕ, suc, ◌*◌, ◌^◌, min, ◌≡◌, arith}
use native.Mathlib.Omega.{pow_step}
use proyecto_sa_b.Prelude.Int.{pos}
use proyecto_sa_b.PaymentService.Rules.{backoff_ms}

min_double : (cap x y : ℕ) → y ≡ 2 * x → min cap y ≡ min cap (2 * min cap x)
min_double cap x y e = omega arith

power_double : (base n : ℕ) → base * 2 ^ suc n ≡ 2 * (base * 2 ^ n)
power_double base n = rw (pow_step 2 n) (grind arith)

-- The first wait is the base, or the cap if that is less, and each further wait is twice the one
-- before it, or the cap if that is less.
pub backoff_ms_doubles :
    (n base cap : ℕ)
    → (backoff_ms (pos 0) base cap ≡ min cap base)
      × (backoff_ms (pos (suc n)) base cap ≡ min cap (2 * backoff_ms (pos n) base cap))
unfolding backoff_ms
backoff_ms_doubles n base cap = (omega arith, min_double cap (base * 2 ^ n) _ (power_double base n))
