-- ===== src/Int64.antt =====
-- Go's int64: an integer between -2^63 and 2^63 - 1, with arithmetic that wraps around.
use bitwrk.Base.{
  ◌+◌, ◌-◌, ◌/◌, ◌%◌, ◌^◌, ◌≤◌, ◌<◌, ◌≡◌, arith, ltb, if◌then◌else◌, Result, ok, panic,
}
use bitwrk.Int.{ℤ, pos, negsuc, pos_part, neg_part, sub_ℕ, eqb_ℤ, ◌+ℤ◌, ◌-ℤ◌, ◌*ℤ◌}

-- The int64 that an exact result wraps around to, modulo 2^64.
unfoldable pub wrap64 : ℤ → ℤ
wrap64 (pos n) = let r = n % 2 ^ 64 in if ltb r (2 ^ 63) then pos r else negsuc (2 ^ 64 - r - 1)
wrap64 (negsuc n) = let r = n % 2 ^ 64 in if ltb r (2 ^ 63) then negsuc r else pos (2 ^ 64 - r - 1)

infixl 65 ◌+64◌ ◌-64◌
infixl 70 ◌*64◌
abbrev pub ◌+64◌ : ℤ → ℤ → ℤ
a +64 b = wrap64 (a +ℤ b)

abbrev pub ◌-64◌ : ℤ → ℤ → ℤ
a -64 b = wrap64 (a -ℤ b)

abbrev pub ◌*64◌ : ℤ → ℤ → ℤ
a *64 b = wrap64 (a *ℤ b)

abbrev pub neg64 : ℤ → ℤ
neg64 a = wrap64 (pos 0 -ℤ a)

abbrev pub max_int64 : ℤ
max_int64 = pos 9223372036854775807

-- The integers that an int64 holds.
abbrev pub IsInt64 : ℤ → Type 0
IsInt64 a = (pos_part a < 2 ^ 63) × (neg_part a ≤ 2 ^ 63)

pub wrap64-IsInt64 : (a : ℤ) → IsInt64 (wrap64 a)
unfolding wrap64
wrap64-IsInt64 (pos n) = ground arith
wrap64-IsInt64 (negsuc n) = ground arith

-- No wrap-around happens within the range.
pub wrap64-id : (a : ℤ) → IsInt64 a → wrap64 a ≡ a
unfolding wrap64
wrap64-id (pos n) h = ground arith
wrap64-id (negsuc n) h = ground arith

-- For exact results of up to three times the range, wrapping moves by at most one multiple of 2^64.
pub wrap64_low :
    (a : ℤ)
    → pos_part a < 2 ^ 64
    → 2 ^ 63 ≤ pos_part a
    → (pos_part (wrap64 a) ≡ 0) × (neg_part (wrap64 a) + pos_part a ≡ 2 ^ 64)
unfolding wrap64
wrap64_low (pos n) h k = ground arith
wrap64_low (negsuc n) h k = absurd (omega arith)

pub wrap64_high :
    (a : ℤ)
    → neg_part a ≤ 2 ^ 64
    → 2 ^ 63 < neg_part a
    → (neg_part (wrap64 a) ≡ 0) × (pos_part (wrap64 a) + neg_part a ≡ 2 ^ 64)
unfolding wrap64
wrap64_high (pos n) h k = absurd (omega arith)
wrap64_high (negsuc n) h k = ground arith

-- Go's `/` on int64: truncated, and a panic on zero. (On ℕ a division by zero is 0, so of the four
-- quotients only the one of the parts that are not zero counts.)
unfoldable pub quot64 : ℤ → ℤ → Result ℤ
quot64 a b =
    if eqb_ℤ b (pos 0)
    then panic
    else ok (
        wrap64 (
          sub_ℕ (pos_part a / pos_part b + neg_part a / neg_part b)
            (pos_part a / neg_part b + neg_part a / pos_part b)))
