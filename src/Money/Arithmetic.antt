-- ===== src/Money/Arithmetic.antt =====
-- What the arithmetic of common/money/money.go returns.
use bitwrk.Base.{◌≡◌, sym, true, Bool-cases, inl, inr, arith, ok, panic, ok-injective}
use bitwrk.Int.{pos, ◌+ℤ◌, ◌-ℤ◌}
use bitwrk.Int64.{◌+64◌, ◌-64◌, IsInt64, wrap64-IsInt64}
use bitwrk.Money.{Currency, currency_eq, Money, money, add, sub, neg}

pub currency_eq_sound : (c d : Currency) → currency_eq c d ≡ true → c ≡ d
currency_eq_sound c d h = ground arith

pub currency_eq_refl : (c : Currency) → currency_eq c c ≡ true
currency_eq_refl c = ground arith

-- A sum has both summands' currency and their wrapped sum.
pub add-ok :
    (a b c : Money)
    → add a b ≡ ok c
    → (a.currency ≡ b.currency) × (c ≡ money (a.amount +64 b.amount) a.currency)
unfolding add
add-ok a b c h = elim (Bool-cases (currency_eq a.currency b.currency)) [
  | inl e ↦ (currency_eq_sound a.currency b.currency e, sym (ok-injective (rw (e, add) at h)))
  | inr e ↦ absurd (fails (rw (e, add) at h))
]
  where
    fails : panic ≡ ok c → ⊥
    fails p = cc

pub sub-ok :
    (a b c : Money)
    → sub a b ≡ ok c
    → (a.currency ≡ b.currency) × (c ≡ money (a.amount -64 b.amount) a.currency)
unfolding sub
sub-ok a b c h = elim (Bool-cases (currency_eq a.currency b.currency)) [
  | inl e ↦ (currency_eq_sound a.currency b.currency e, sym (ok-injective (rw (e, sub) at h)))
  | inr e ↦ absurd (fails (rw (e, sub) at h))
]
  where
    fails : panic ≡ ok c → ⊥
    fails p = cc

pub add-IsInt64 : (a b c : Money) → add a b ≡ ok c → IsInt64 c.amount
add-IsInt64 a b c h = rw (add-ok a b c h).1 (wrap64-IsInt64 (a.amount +ℤ b.amount))

pub sub-IsInt64 : (a b c : Money) → sub a b ≡ ok c → IsInt64 c.amount
sub-IsInt64 a b c h = rw (sub-ok a b c h).1 (wrap64-IsInt64 (a.amount -ℤ b.amount))

pub neg-IsInt64 : (a : Money) → IsInt64 (neg a).amount
unfolding neg
neg-IsInt64 a = wrap64-IsInt64 (pos 0 -ℤ a.amount)
