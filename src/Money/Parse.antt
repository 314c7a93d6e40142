-- ===== src/Money/Parse.antt =====
-- `Money.Parse` and `UnmarshalJSON` of common/money/money.go. The regular expression is written out
-- as the scanner that it stands for; the loops keep 64-bit patterns.
use bitwrk.Base.{
  ℕ, zero, suc, ◌+◌, ◌-◌, ◌*◌, ◌/◌, ◌%◌, ◌^◌, ◌≡◌, refl, Bool, true, false, not, ◌&&◌, ◌||◌, Option,
  none, some, [], ◌∷◌, Str, codes, leb, ◌==◌, is_digit, if◌then◌else◌, Result, ok, err, ◌>>=◌,
  bad_amount_pattern, unknown_unit, too_many_fraction_digits, too_many_integral_digits,
  illegal_monetary_value, reverse, Str-discrete,
}
use bitwrk.Int.{pos, negsuc, leb_ℤ, ◌*ℤ◌}
use bitwrk.Int64.{wrap64, ◌*64◌}
use bitwrk.Money.{Money, money, btc, MoneyUnit, units_by_symbol}

abbrev pub is_letter : ℕ → Bool
is_letter c = leb b'A' c && leb c b'Z' || leb b'a' c && leb c b'z'

abbrev starts_with : Str → Str → Bool
starts_with [] s = true
starts_with (c ∷ p) [] = false
starts_with (c ∷ p) (a ∷ s) = c == a && starts_with p s

-- The bytes of the rune of `[A-Za-z€$£]` at the front; 0 if another one stands there.
unfoldable pub rune_length : ℕ → Str → ℕ
rune_length a s =
    if is_letter a || a == b'$'
    then 1
    else if a == 0xe2 && starts_with (0x82 ∷ 0xac ∷ []) s
    then 3
    else if a == 0xc2 && starts_with (0xa3 ∷ []) s
    then 2
    else 0

abbrev pub push_byte : ℕ → Str × Str → Str × Str
push_byte a (t, rest) = (a ∷ t, rest)

-- `([A-Za-z€$£]*)` at the front, and the rest; the number is what is left of the current rune.
unfoldable pub span_symbol : ℕ → Str → Str × Str
span_symbol k [] = ([], [])
span_symbol (suc k) (a ∷ s) = push_byte a (span_symbol k s)
span_symbol zero (a ∷ s) = elim (rune_length a s) [
  | zero ↦ ([], a ∷ s)
  | suc k ↦ push_byte a (span_symbol k s)
]

-- `([0-9]*)` at the front, and the rest.
unfoldable pub span_digits : Str → Str × Str
span_digits [] = ([], [])
span_digits (c ∷ s) =
    let rest = push_byte c (span_digits s) in if is_digit c then rest else ([], c ∷ s)

-- `c?` for a byte: whether it stands there, and the rest.
unfoldable pub optional : ℕ → Str → Bool × Str
optional c [] = (false, [])
optional c (a ∷ s) = if a == c then (true, s) else (false, a ∷ s)

abbrev pub is_empty : Str → Bool
is_empty [] = true
is_empty (_ ∷ _) = false

-- The groups of a match.
pub record Matches : Type 0 where
  pub symbol : Str
  pub minus : Bool
  pub integral : Str
  pub fractional : Str

-- `(?:\.([0-9]+))?$`
unfoldable pub match_tail : Str → Bool → Str → Str → Option Matches
unfolding span_digits
match_tail symbol minus integral [] =
    some (record { symbol = symbol; minus = minus; integral = integral; fractional = [] })
match_tail symbol minus integral (c ∷ s) =
    let (fractional, end) = span_digits s in
    if c == b'.' && (not (is_empty fractional) && is_empty end)
    then some
        (record { symbol = symbol; minus = minus; integral = integral; fractional = fractional })
    else none

-- `^([A-Za-z€$£]+) ?(-)?([0-9]+)(?:\.([0-9]+))?$`
unfoldable pub match_pattern : Str → Option Matches
unfolding span_symbol span_digits optional match_tail rune_length
match_pattern s =
    let (symbol, s₁) = span_symbol 0 s in
    let (_, s₂) = optional b' ' s₁ in
    let (minus, s₃) = optional b'-' s₂ in
    let (integral, s₄) = span_digits s₃ in
    if is_empty symbol || is_empty integral then none else match_tail symbol minus integral s₄

-- Arithmetic on int64 patterns.
abbrev pub u64 : ℕ → ℕ
u64 n = n % 2 ^ 64

-- The loop over the fractional part.
unfoldable pub parse_fraction : ℕ → ℕ → Str → Result ℕ
parse_fraction base result [] = ok result
parse_fraction base result (c ∷ s) =
    let base' = base / 10 in
    let rest = parse_fraction base' (u64 (result + u64 (base' * (c - b'0')))) s in
    if base' == 0 then err too_many_fraction_digits else rest

-- The loop over the integral part, last digit first.
unfoldable pub parse_integral : ℕ → ℕ → Str → Result ℕ
parse_integral base result [] = ok result
parse_integral base result (c ∷ s) =
    let base' = u64 (base * 10) in
    let rest = parse_integral base' (u64 (result + u64 (base * (c - b'0')))) s in
    if leb_ℤ (pos 1_000_000_000_000_000_000) (wrap64 (pos base'))
    then err too_many_integral_digits
    else rest

unfoldable pub parse_groups : MoneyUnit → Matches → Result Money
unfolding parse_fraction parse_integral
parse_groups u m = do
  fraction ← parse_fraction u.factor 0 m.fractional
  result ← parse_integral u.factor fraction (reverse m.integral)
  ok (money ((if m.minus then negsuc 0 else pos 1) *64 wrap64 (pos result)) u.currency)

unfoldable pub parse : Str → Result Money
unfolding match_pattern units_by_symbol parse_groups
parse s = elim (match_pattern s) [
  | none ↦ err bad_amount_pattern
  | some m ↦ elim (units_by_symbol m.symbol) [ none ↦ err unknown_unit | some u ↦ parse_groups u m ]
]

-- All but the last byte, and the last byte.
abbrev split_last : ℕ → Str → Str × ℕ
split_last a [] = ([], a)
split_last a (b ∷ s) = let (t, c) = split_last b s in (a ∷ t, c)

-- What stands between two double quotes, in a text of two bytes or more.
unfoldable pub unquote : Str → Option Str
unquote [] = none
unquote (a ∷ []) = none
unquote (a ∷ b ∷ s) =
    let (inner, c) = split_last b s in if a == b'"' && c == b'"' then some inner else none

unfoldable pub unmarshal_json : Str → Result Money
unfolding parse unquote
unmarshal_json data_bytes = elim (unquote data_bytes) [
  | none ↦ err illegal_monetary_value
  | some s ↦ parse s
]

parse_runs : parse (codes "mBTC -12.5") ≡ ok (money (negsuc 1_249_999) btc)
unfolding parse wrap64 Str-discrete ◌*ℤ◌
parse_runs = refl
