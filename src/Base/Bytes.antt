-- ===== src/Base/Bytes.antt =====
-- A Go string is its sequence of bytes; the parts of `strconv` and `strings` that are used.
use Prim.Native.Nat.{ℕ, zero, suc, ◌+◌, ◌/◌, ◌%◌}
use Prim.Native.Char.{code}
use Prim.Native.String.{String}
use mathlib.Core.Path.{◌≡◌, refl}
use mathlib.Core.Logic.{◌↔◌}
use mathlib.Core.Bool.{Bool, true, false, ◌&&◌}
use mathlib.Core.List.{List, [], ◌∷◌}
use native.Mathlib.Omega.{arith}
use native.Mathlib.Decide.{ℕ_discrete}
use bitwrk.Base.Tests.{leb, ltb, if◌then◌else◌}

abbrev pub Str : Type 0
Str = List ℕ

-- The bytes of an ASCII literal.
abbrev pub codes : String → Str
codes String.[] = []
codes (String.◌∷◌ c s) = code c ∷ codes s

unfoldable pub Str-discrete : Discrete Str
unfolding ℕ_discrete
Str-discrete = hlevel ℕ_discrete

-- Go's `==` on strings.
abbrev pub str_eq : Str → Str → Bool
str_eq a b = elim (Str-discrete a b) [ yes _ ↦ true | no _ ↦ false ]

pub str_eq_iff : (a b : Str) → (str_eq a b ≡ true) ↔ (a ≡ b)
str_eq_iff a b = ground arith

module _ {ℓ} {A : Type ℓ} where
  abbrev pub length : List A → ℕ
  length [] = 0
  length (x ∷ xs) = suc (length xs)

-- Whether a byte is an ASCII digit.
abbrev pub is_digit : ℕ → Bool
is_digit c = leb b'0' c && leb c b'9'

unfoldable pub all_bytes : (ℕ → Bool) → Str → Bool
all_bytes p [] = true
all_bytes p (c ∷ s) = p c && all_bytes p s

-- `%v` of a number that is not negative. The fuel bounds the number of digits.
unfoldable pub decimal_digits : ℕ → ℕ → Str → Str
decimal_digits zero n acc = acc
decimal_digits (suc f) n acc =
    let acc' = (b'0' + n % 10) ∷ acc in
    let rest = decimal_digits f (n / 10) acc' in if ltb n 10 then acc' else rest

-- A number has fewer digits than its value plus two, so the fuel suffices.
unfoldable pub decimal : ℕ → Str
unfolding decimal_digits
decimal n = decimal_digits (suc n) n []

decimal_runs : decimal 1205 ≡ codes "1205"
unfolding decimal
decimal_runs = refl
