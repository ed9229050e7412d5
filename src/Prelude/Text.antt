-- ===== src/Prelude/Text.antt =====
-- The formats of the interbank contract, as the regular expressions test them: bank codes,
-- account numbers and amounts. A text is walked by its code points.
use Prim.Native.Char.{code}
use Prim.Native.String.{String}
use Prim.Native.Nat.{ℕ}
use mathlib.Core.Bool.{Bool, true, false, ◌&&◌, ◌||◌}
use mathlib.Core.List.{List, [], ◌∷◌}
use proyecto_sa_b.Prelude.Tests.{leb, ◌==◌}
use proyecto_sa_b.Prelude.Lists.{length}

abbrev pub codes : String → List ℕ
codes String.[] = []
codes (String.◌∷◌ c s) = code c ∷ codes s

abbrev pub every : (ℕ → Bool) → List ℕ → Bool
every p [] = true
every p (c ∷ cs) = p c && every p cs

abbrev pub is_digit : ℕ → Bool
is_digit c = leb b'0' c && leb c b'9'

abbrev pub is_account_char : ℕ → Bool
is_account_char c =
    is_digit c || (leb b'A' c && leb c b'Z') || (leb b'a' c && leb c b'z') || (c == b'-')

abbrev bank_code_codes : List ℕ → Bool
bank_code_codes (b ∷ a ∷ n ∷ k ∷ d ∷ e ∷ []) =
    (b == b'B') && (a == b'A') && (n == b'N') && (k == b'K') && is_digit d && is_digit e
bank_code_codes _ = false

-- `/^BANK[0-9]{2}$/`
unfoldable pub is_bank_code : String → Bool
is_bank_code s = bank_code_codes (codes s)

-- `/^[A-Za-z0-9-]{1,34}$/`
unfoldable pub is_account_number : String → Bool
is_account_number s =
    leb 1 (length (codes s)) && leb (length (codes s)) 34 && every is_account_char (codes s)
