-- ===== src/Bid/Accounting/Shifts.antt =====
-- About `Book` and `Retire` of common/bitwrk/bid.go and the two parts of the participant's account.
use mathlib.Core.Path.{subst}
use bitwrk.Base.{
  ℕ, ◌≡◌, refl, sym, ap, ◌||◌, Bool-cases, none, some, Str, inl, inr, ok, lift-eq_ok, return-eq_ok,
  if◌then◌else◌,
}
use bitwrk.Int.{ℤ, pos, pos_part, neg_part, ◌+ℤ◌, ◌-ℤ◌, int_laws}
use bitwrk.Int64.{◌+64◌}
use bitwrk.Money.{Money, add, neg}
use bitwrk.Money.Arithmetic.{add-ok, add-IsInt64, neg-IsInt64}
use bitwrk.Dao.{Dao, Accounts, bid, bid_reimburse}
use bitwrk.Account.Conserve.{AllValid}
use bitwrk.Account.Moves.{Shifted, nothing-Shifted, place-Transfer}
use bitwrk.Bid.{Bid, is_sell, is_placed, is_in_queue}
use bitwrk.Bid.Accounting.{block_price, book, reimburse_price, reimburse_and_expire, expire, retire}

-- What a bid blocks while it is open: its price and its fee if it buys, and nothing if it sells.
abbrev pub locked_amount : Bid → ℤ
locked_amount b = if is_sell b.bid_type then pos 0 else b.price.amount +64 b.fee.amount

pub neg-currency : (m : Money) → (neg m).currency ≡ m.currency
unfolding neg
neg-currency m = refl

pub negated_left : (x y : ℤ) → x +ℤ y ≡ pos 0 → x ≡ pos 0 -ℤ y
negated_left x y h = omega (int_laws, ap pos_part h, ap neg_part h)

pub negated_right : (x y : ℤ) → x +ℤ y ≡ pos 0 → y ≡ pos 0 -ℤ x
negated_right x y h = omega (int_laws, ap pos_part h, ap neg_part h)

zero_minus_zero : pos 0 ≡ pos 0 -ℤ pos 0
zero_minus_zero = omega int_laws

module _ (d : Dao) (acc : Accounts d) where
  pub book-Shifted :
      (b : Bid) (key : Str) (s t : d.State)
      → acc.IsConsistent s
      → AllValid d acc s
      → book d b key s ≡ (ok tt, t)
      → Shifted d acc b.participant b.participant (pos 0 -ℤ locked_amount b) (locked_amount b) s t
  unfolding book
  book-Shifted b key s t i v h = elim (Bool-cases (is_sell b.bid_type)) [
    | inl e ↦ rw e (
        subst (λ x. Shifted d acc b.participant b.participant x (pos 0) s t) zero_minus_zero
          (nothing-Shifted d acc b.participant s t (ap (λ x. x.1) (rw (e, book) at h))))
    | inr e ↦
        let (price, e₁, h₁) =
          lift-eq_ok (add b.price b.fee) (block_price d b key) s (rw (e, book) at h) in
        let (moved, balanced) =
          place-Transfer d acc b.created bid b.participant (neg price) price b.price.currency
            (some key) none none none s t (neg-currency price) i v
            (neg-IsInt64 price, add-IsInt64 b.price b.fee price e₁) h₁ in
        let exact : price.amount ≡ b.price.amount +64 b.fee.amount =
          ap (λ m. m.amount) (add-ok b.price b.fee price e₁).1 in
        rw (e, ← exact)
          (subst (λ x. Shifted d acc b.participant b.participant x price.amount s t)
            (negated_left (neg price).amount price.amount balanced) moved)
  ]

  pub retire-Shifted :
      (b b' : Bid) (key : Str) (now : ℕ) (s t : d.State)
      → acc.IsConsistent s
      → AllValid d acc s
      → retire d b key now s ≡ (ok b', t)
      → let freed = if is_placed b.state || is_in_queue b.state then locked_amount b else pos 0 in
        Shifted d acc b.participant b.participant freed (pos 0 -ℤ freed) s t
  unfolding retire
  retire-Shifted b b' key now s t i v h =
      elim (Bool-cases (is_placed b.state || is_in_queue b.state)) [
        | inr e ↦ rw e (nothing (ap (λ x. x.1) (rw (e, retire) at h)))
        | inl e ↦ elim (Bool-cases (is_sell b.bid_type)) [
          | inl f ↦ rw (e, f) (nothing (ap (λ x. x.1) (rw (e, retire, f) at h)))
          | inr f ↦
              let (price, e₁, h₁) =
                lift-eq_ok (add b.price b.fee) (reimburse_and_expire d b key now) s
                  (rw (e, retire, f) at h) in
              let (e₂, _) = return-eq_ok (reimburse_price d b key now price) (expire d b) s h₁ in
              let (moved, balanced) =
                place-Transfer d acc now bid_reimburse b.participant price (neg price)
                  b.price.currency (some key) none none none s t (sym (neg-currency price)) i v
                  (add-IsInt64 b.price b.fee price e₁, neg-IsInt64 price) e₂ in
              let exact : price.amount ≡ b.price.amount +64 b.fee.amount =
                ap (λ m. m.amount) (add-ok b.price b.fee price e₁).1 in
              rw (e, f, ← exact)
                (subst (λ y. Shifted d acc b.participant b.participant price.amount y s t)
                  (negated_right price.amount (neg price).amount balanced) moved)
        ]
      ]
    where
      nothing : s ≡ t → Shifted d acc b.participant b.participant (pos 0) (pos 0 -ℤ pos 0) s t
      nothing same =
          subst (λ y. Shifted d acc b.participant b.participant (pos 0) y s t) zero_minus_zero
            (nothing-Shifted d acc b.participant s t same)
