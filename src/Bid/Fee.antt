-- ===== src/Bid/Fee.antt =====
-- The fee of a bid, as `NewBid` of common/bitwrk/bid.go computes it.
use bitwrk.Base.{
  ℕ, zero, suc, ◌+◌, ◌-◌, ◌*◌, ◌/◌, ◌≤◌, ◌<◌, ◌^◌, ◌≡◌, refl, sym, ap, ◌∙◌, arith, Bool-cases, true,
  false, not, inl, inr, leb, Str, ok, ok-injective, guard-eq_ok, >>=-eq_ok, negative_price,
  price_too_high, illegal_bid_type, ◌||◌,
}
use native.Mathlib.Nat.{
  le-div_iff_mul-le, div-mul-le_self, lt-div-mul-add, div-zero, zero-div, mul-le-mul_left,
  div-le_self, mul_comm, add-mul,
}
use bitwrk.Int.{ℤ, pos, negsuc, ◌+ℤ◌, ◌-ℤ◌, ◌*ℤ◌, ltb_ℤ, leb_ℤ, eqb_ℤ, sub_ℕ}
use bitwrk.Int64.{wrap64, wrap64-id, ◌+64◌, ◌-64◌, ◌*64◌, quot64, max_int64}
use bitwrk.Money.{Money, money}
use bitwrk.Bid.{Bid, BidType, is_buy, is_sell, NewBidDefaults, fee_amount, new_bid}

mul_exact : (a b : ℕ) → pos a *ℤ pos b ≡ pos (a * b)
unfolding ◌*ℤ◌
mul_exact a b = ground arith

add_exact : (a b : ℕ) → pos a +ℤ pos b ≡ pos (a + b)
unfolding ◌+ℤ◌
add_exact a b = ground arith

sub_exact : (a b : ℕ) → b ≤ a → pos a -ℤ pos b ≡ pos (a - b)
unfolding ◌-ℤ◌
sub_exact a b l = ground arith

mul_pos : (a b : ℕ) → a * b < 2 ^ 63 → pos a *64 pos b ≡ pos (a * b)
mul_pos a b h = ap wrap64 (mul_exact a b) ∙ wrap64-id (pos (a * b)) (h, omega arith)

add_pos : (a b : ℕ) → a + b < 2 ^ 63 → pos a +64 pos b ≡ pos (a + b)
add_pos a b h = ap wrap64 (add_exact a b) ∙ wrap64-id (pos (a + b)) (h, omega arith)

sub_pos : (a b : ℕ) → a < 2 ^ 63 → b ≤ a → pos a -64 pos b ≡ pos (a - b)
sub_pos a b h l =
    ap wrap64 (sub_exact a b l) ∙ wrap64-id (pos (a - b)) (omega (arith, h), omega arith)

sub_zero : (x : ℕ) → sub_ℕ (x + 0) 0 ≡ pos x
sub_zero x = ground arith

quot_pos : (a d : ℕ) → a < 2 ^ 63 → zero < d → quot64 (pos a) (pos d) ≡ ok (pos (a / d))
unfolding quot64
quot_pos a zero h l = absurd (omega (arith, l))
quot_pos a (suc d) h l =
    let bound : a / suc d < 2 ^ 63 = omega (arith, div-le_self a (suc d), h) in
    let nz : eqb_ℤ (pos (suc d)) (pos 0) ≡ false = ground arith in
    rw (nz, div-zero a, zero-div (suc d))
      (ap ok (ap wrap64 (sub_zero (a / suc d)) ∙ wrap64-id (pos (a / suc d)) (bound, omega arith)))

-- The ratio of a price, rounded up.
ceiling : (m d : ℕ) → zero < d → (m ≤ (m + d - 1) / d * d) × ((m + d - 1) / d * d < m + d)
ceiling m d l =
    let above : m + d - 1 < (m + d - 1) / d * d + d = lt-div-mul-add l in
    (omega (arith, above, l), omega (arith, div-mul-le_self (m + d - 1) d, l))

-- The two guards on the ratio and the price keep the product within an int64.
product_fits : (n d p : ℕ) → (n + 1) * d < 2 ^ 63 → p < (2 ^ 63 - 1) / (n + 1) → n * p + d < 2 ^ 63
product_fits n d p r l =
    let below : p ≤ (2 ^ 63 - 1) / (n + 1) = omega (arith, l) in
    let small : p * (n + 1) ≤ 2 ^ 63 - 1 = (le-div_iff_mul-le (omega arith)).0 below in
    let split : p * (n + 1) ≡ n * p + p = omega (arith, mul_comm p (n + 1), add-mul n 1 p) in
    let both : (n + 1) * d ≡ n * d + d = omega (arith, add-mul n 1 d) in
    elim (Bool-cases (leb d p)) [
      | inl y ↦ let y' : d ≤ p = ground (arith, y) in omega (arith, small, split, y')
      | inr y ↦ let y' : p ≤ d = ground (arith, y) in omega (arith, mul-le-mul_left n y', both, r)
    ]

-- The fee of a price, where nothing overflows.
fee_amount_pos :
    (defaults : NewBidDefaults) (n d p : ℕ)
    → defaults.fee_ratio_numerator ≡ pos n
    → defaults.fee_ratio_denominator ≡ pos d
    → zero < d
    → n * p + d < 2 ^ 63
    → fee_amount defaults (pos p) ≡ ok (pos ((n * p + d - 1) / d))
unfolding fee_amount
fee_amount_pos defaults n d p en ed l h =
    rw
      (
        en,
        ed,
        mul_pos n p (omega (arith, h)),
        add_pos (n * p) d h,
        sub_pos (n * p + d) 1 h (omega (arith, l)),
      )
      (quot_pos (n * p + d - 1) d (omega (arith, h)) l)

non_negative : (a : ℤ) → not (ltb_ℤ a (pos 0)) ≡ true → (p : ℕ) × (a ≡ pos p)
non_negative (pos p) h = (p, refl)
non_negative (negsuc p) h = absurd (ground arith)

below_limit : (m p : ℕ) → not (leb_ℤ (pos m) (pos p)) ≡ true → p < m
below_limit m p h = ground arith

-- If the default ratio n/d is such that (n + 1) d fits an int64, and `NewBid` succeeds, then the bid
-- has the price, in the state and with the time to live of the defaults, and its fee, in the price's
-- currency, is the ratio of the price rounded up to an integer, without any overflow.
pub new_bid-fee :
    (now : ℕ) (bid_type : BidType) (article : Str) (price : Money)
    (participant document signature : Str) (defaults : NewBidDefaults) (b : Bid) (n d : ℕ)
    → defaults.fee_ratio_numerator ≡ pos n
    → defaults.fee_ratio_denominator ≡ pos d
    → zero < d
    → (n + 1) * d < 2 ^ 63
    → new_bid now bid_type article price participant document signature defaults ≡ ok b
    → (b.price ≡ price)
      × ((b.state ≡ defaults.initial_state) × (b.expires ≡ now + defaults.timeout))
      × ((p : ℕ) × (f : ℕ) × (price.amount ≡ pos p)
          × (b.fee ≡ money (pos f) price.currency)
          × (n * p ≤ f * d)
          × (f * d < n * p + d))
unfolding new_bid
new_bid-fee now bid_type article price participant document signature defaults b n d en ed l r h =
    let (e₁, h₁) = guard-eq_ok (is_buy bid_type || is_sell bid_type) illegal_bid_type _ h in
    let (e₂, h₂) = guard-eq_ok (not (ltb_ℤ price.amount (pos 0))) negative_price _ h₁ in
    let (limit, e₃, h₃) =
      >>=-eq_ok (quot64 max_int64 (defaults.fee_ratio_numerator +64 pos 1)) _ h₂ in
    let (e₄, h₄) = guard-eq_ok (not (leb_ℤ limit price.amount)) price_too_high _ h₃ in
    let (fee, e₅, h₅) = >>=-eq_ok (fee_amount defaults price.amount) _ h₄ in
    let (p, ep) = non_negative price.amount e₂ in
    let positive : 1 ≤ d = omega (arith, l) in
    let ratio : n + 1 < 2 ^ 63 = omega (arith, mul-le-mul_left (n + 1) positive, r) in
    let at_limit : limit ≡ pos ((2 ^ 63 - 1) / (n + 1)) = ok-injective (
      sym e₃
      ∙ ap (λ z. quot64 max_int64 (z +64 pos 1)) en
      ∙ ap (quot64 max_int64) (add_pos n 1 ratio)
      ∙ quot_pos (2 ^ 63 - 1) (n + 1) (omega arith) (omega arith)) in
    let fits : n * p + d < 2 ^ 63 =
      product_fits n d p r (below_limit ((2 ^ 63 - 1) / (n + 1)) p (rw (at_limit, ep) at e₄)) in
    let exact : fee ≡ pos ((n * p + d - 1) / d) =
      ok-injective
        (sym e₅ ∙ ap (fee_amount defaults) ep ∙ fee_amount_pos defaults n d p en ed l fits) in
    let made = ok-injective h₅ in
    (
      sym (ap (λ x. x.price) made),
      (sym (ap (λ x. x.state) made), sym (ap (λ x. x.expires) made)),
      (
        p,
        (n * p + d - 1) / d,
        ep,
        sym (ap (λ x. x.fee) made) ∙ ap (λ z. money z price.currency) exact,
        (ceiling (n * p) d l).0,
        (ceiling (n * p) d l).1,
      ),
    )
