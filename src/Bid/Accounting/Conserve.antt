-- ===== src/Bid/Accounting/Conserve.antt =====
-- About `Book` and `Retire` of common/bitwrk/bid.go and the money in the accounts.
use bitwrk.Base.{
  ℕ, ◌≡◌, refl, sym, ap, true, Bool-cases, Option, none, some, List, Str, inl, inr, arith, ok,
  ok-injective, lift-eq_ok, return-eq_ok, if◌then◌else◌, ◌||◌,
}
use mathlib.Core.Path.{subst}
use bitwrk.Int.{ℤ, pos, pos_part, neg_part, ◌+ℤ◌, int_laws}
use bitwrk.Int64.{IsInt64}
use bitwrk.Money.{Currency, Money, add, neg}
use bitwrk.Money.Arithmetic.{add-IsInt64, neg-IsInt64}
use bitwrk.Dao.{Dao, Accounts, AccountMovementType, bid, bid_reimburse}
use bitwrk.Account.Validate.{in_currency}
use bitwrk.Account.Conserve.{AllValid, holdings, place_account_movement_conserves}
use bitwrk.Account.Total.{contains, Distinct}
use bitwrk.Account.Place.{place_account_movement}
use bitwrk.Bid.{Bid, is_sell, is_placed, is_in_queue}
use bitwrk.Bid.Accounting.{
  zero_money, block_price, book, reimburse_price, reimburse_and_expire, expire, retire,
}

pub in_currency-zero : (c : Currency) (m : Money) → in_currency c (zero_money m) ≡ pos 0
in_currency-zero c m = ground arith

plus_nothing : (a b z : ℤ) → z ≡ pos 0 → a +ℤ (z +ℤ z) ≡ b → a ≡ b
plus_nothing a b z e h =
    let h' : a +ℤ (pos 0 +ℤ pos 0) ≡ b = rw e at h in
    omega (int_laws, ap pos_part h', ap neg_part h')

-- What a call leaves that moves money only between the accounts of `ps`.
pub record Conserves (d : Dao) (acc : Accounts d) (p : Str) (s t : d.State) : Type 0 where
  pub consistent : acc.IsConsistent t
  pub valid : AllValid d acc t
  pub conserved :
      (c : Currency) (ps : List Str)
      → Distinct ps
      → contains p ps ≡ true
      → holdings d acc c t ps ≡ holdings d acc c s ps

module _ (d : Dao) (acc : Accounts d) where
  -- A movement within one account, with no fee and nothing for the world.
  pub within_account :
      (now : ℕ) (m_type : AccountMovementType) (p : Str) (x y z : Money)
      (bid_key tx_key deposit_key withdrawal_key : Option Str) (s t : d.State)
      → acc.IsConsistent s
      → AllValid d acc s
      → IsInt64 x.amount × IsInt64 y.amount
      → place_account_movement d now m_type p p x y
          (zero_money z)
          (zero_money z)
          bid_key
          tx_key
          deposit_key
          withdrawal_key
          s
        ≡ (ok tt, t)
      → Conserves d acc p s t
  within_account now m_type p x y z bid_key tx_key deposit_key withdrawal_key s t i v (ix, iy) h =
      let (i', v', same) =
        place_account_movement_conserves d acc now m_type p p x y (zero_money z) (zero_money z)
          bid_key tx_key deposit_key withdrawal_key s t i v (ix, iy, omega arith, omega arith) h in
      record {
        consistent = i';
        valid = v';
        conserved = λ c ps u k. plus_nothing _ _ _ (in_currency-zero c z) (same c ps u k k);
      }

  pub nothing_moved :
      (p : Str) (s t : d.State)
      → acc.IsConsistent s
      → AllValid d acc s
      → s ≡ t
      → Conserves d acc p s t
  nothing_moved p s t i v e =
      subst (Conserves d acc p s) e
        (record { consistent = i; valid = v; conserved = λ c ps u k. refl })

  -- If a bid is booked, then all accounts are valid and the money of any accounts with the bid's
  -- participant among them is what it was, in each currency.
  pub book-Conserves :
      (b : Bid) (key : Str) (s t : d.State)
      → acc.IsConsistent s
      → AllValid d acc s
      → book d b key s ≡ (ok tt, t)
      → Conserves d acc b.participant s t
  unfolding book
  book-Conserves b key s t i v h = elim (Bool-cases (is_sell b.bid_type)) [
    | inl e ↦ nothing_moved b.participant s t i v (ap (λ x. x.1) (rw (e, book) at h))
    | inr e ↦
        let (price, e₁, h₁) =
          lift-eq_ok (add b.price b.fee) (block_price d b key) s (rw (e, book) at h) in
        within_account b.created bid b.participant (neg price) price b.price (some key) none none
          none s t i v (neg-IsInt64 price, add-IsInt64 b.price b.fee price e₁) h₁
  ]

  -- If a bid is retired, then all accounts are valid and the money of any accounts with the bid's
  -- participant among them is what it was, in each currency; a bid that was placed or in the queue
  -- has expired, and any other is left as it is.
  pub retire-Conserves :
      (b b' : Bid) (key : Str) (now : ℕ) (s t : d.State)
      → acc.IsConsistent s
      → AllValid d acc s
      → retire d b key now s ≡ (ok b', t)
      → Conserves d acc b.participant s t
        × (b' ≡ (if is_placed b.state || is_in_queue b.state then expire d b else b))
  unfolding retire
  retire-Conserves b b' key now s t i v h =
      elim (Bool-cases (is_placed b.state || is_in_queue b.state)) [
        | inr e ↦
            let h' = rw (e, retire) at h in
            (
              nothing_moved b.participant s t i v (ap (λ x. x.1) h'),
              rw e (sym (ok-injective (ap (λ x. x.0) h'))),
            )
        | inl e ↦ elim (Bool-cases (is_sell b.bid_type)) [
          | inl f ↦
              let h' = rw (e, retire, f) at h in
              (
                nothing_moved b.participant s t i v (ap (λ x. x.1) h'),
                rw e (sym (ok-injective (ap (λ x. x.0) h'))),
              )
          | inr f ↦
              let (price, e₁, h₁) =
                lift-eq_ok (add b.price b.fee) (reimburse_and_expire d b key now) s
                  (rw (e, retire, f) at h) in
              let (e₂, same) = return-eq_ok (reimburse_price d b key now price) (expire d b) s h₁ in
              (
                within_account now bid_reimburse b.participant price (neg price) b.price (some key)
                    none none none s t i v (add-IsInt64 b.price b.fee price e₁, neg-IsInt64 price)
                    e₂,
                rw e (sym same),
              )
        ]
      ]
