-- ===== src/Transaction/Accounting/Shifts.antt =====
-- About `Book` and `Retire` of common/bitwrk/transaction.go and the two parts of the accounts of the
-- buyer and the seller.
use mathlib.Core.Path.{subst}
use bitwrk.Base.{
  ℕ, ◌≡◌, refl, sym, ap, ◌∙◌, true, false, Bool-cases, none, some, Str, inl, inr, arith, ok,
  lift-eq_ok, return-eq_ok, >>=-eq_ok, if◌then◌else◌, ltb,
}
use bitwrk.Int.{ℤ, pos, pos_part, neg_part, ◌+ℤ◌, ◌-ℤ◌, ◌≤ℤ◌, ltb_ℤ, eqb_ℤ, int_laws}
use bitwrk.Int64.{◌+64◌, ◌-64◌, IsInt64}
use bitwrk.Money.{currency_eq, Money, add, neg}
use bitwrk.Money.Arithmetic.{add-ok, sub-ok, add-IsInt64, neg-IsInt64, currency_eq_sound}
use bitwrk.Dao.{Dao, Accounts, transaction, transaction_finish, transaction_reimburse}
use bitwrk.Account.Validate.{HasInt64Amounts, in_currency, validate_balances}
use bitwrk.Account.Place.{new_movement, place_account_movement}
use bitwrk.Account.Conserve.{AllValid, place_movement_lem}
use bitwrk.Account.Moves.{
  Shifted, nothing-Shifted, place-Transfer, place-Shifted, in_its_currency, in_currency-nothing,
}
use bitwrk.Bid.{Bid}
use bitwrk.Bid.Accounting.{zero_money}
use bitwrk.Bid.Accounting.Shifts.{neg-currency, negated_right}
use bitwrk.Transaction.{is_active, Transaction}
use bitwrk.Transaction.Accounting.{
  price_delta, book_delta, book, is_paid, settle, settle_and_retire, retire_transaction, retire,
}
use bitwrk.Transaction.Accounting.Conserve.{
  pays_seller, is_paid_lem, err≢ok, panic≢ok, price_delta-IsInt64,
}

-- What the buyer blocked for the bid, less what the transaction costs.
abbrev pub surplus : Transaction → Bid → ℤ
surplus tx b = (b.price.amount +64 b.fee.amount) -64 (tx.price.amount +64 tx.fee.amount)

price_delta-surplus :
    (tx : Transaction) (b : Bid) (delta : Money)
    → price_delta tx b ≡ ok delta
    → delta.amount ≡ surplus tx b
unfolding price_delta
price_delta-surplus tx b delta h =
    let (x, e₁, h₁) = >>=-eq_ok (add b.price b.fee) _ h in
    let (y, e₂, h₂) = >>=-eq_ok (add tx.price tx.fee) _ h₁ in
    ap (λ m. m.amount) (sub-ok x y delta h₂).1
    ∙ ap (λ m. m.amount -64 y.amount) (add-ok b.price b.fee x e₁).1
    ∙ ap (λ m. (b.price.amount +64 b.fee.amount) -64 m.amount) (add-ok tx.price tx.fee y e₂).1

not_negative : (a : ℤ) → ltb_ℤ a (pos 0) ≡ false → pos 0 ≤ℤ a
not_negative a h = ground arith

is_zero : (a : ℤ) → eqb_ℤ a (pos 0) ≡ true → a ≡ pos 0
is_zero a h = ground arith

-- A price and a fee, and what is taken for them.
balance_of_three : (a y f z : ℤ) → z ≡ pos 0 → a +ℤ y +ℤ (f +ℤ z) ≡ pos 0 → y ≡ pos 0 -ℤ (a +ℤ f)
balance_of_three a y f z e h =
    let h' : a +ℤ y +ℤ (f +ℤ pos 0) ≡ pos 0 = rw e at h in
    omega (int_laws, ap pos_part h', ap neg_part h')

module _ (d : Dao) (acc : Accounts d) where
  -- What retiring a transaction does to the accounts: either the seller receives the price, and the
  -- buyer's blocked money falls by the price and the fee; or what the buyer had blocked for both is
  -- available again.
  abbrev pub Settlement : Transaction → d.State → d.State → Type 0
  Settlement tx s t =
      if pays_seller tx.phase
      then Shifted d acc tx.seller tx.buyer tx.price.amount
          (pos 0 -ℤ (tx.price.amount +ℤ tx.fee.amount)) s t
      else Shifted d acc tx.buyer tx.buyer (tx.price.amount +64 tx.fee.amount)
          (pos 0 -ℤ (tx.price.amount +64 tx.fee.amount)) s t

  pub tx_book-Shifted :
      (tx : Transaction) (tx_id : Str) (b : Bid) (s t : d.State)
      → acc.IsConsistent s
      → AllValid d acc s
      → book d tx tx_id b s ≡ (ok tt, t)
      → (pos 0 ≤ℤ surplus tx b)
        × Shifted d acc tx.buyer tx.buyer (surplus tx b) (pos 0 -ℤ surplus tx b) s t
  unfolding book
  tx_book-Shifted tx tx_id b s t i v h =
      let (delta, e₁, h₁) = lift-eq_ok (price_delta tx b) (book_delta d tx tx_id) s h in
      let is_surplus = price_delta-surplus tx b delta e₁ in
      rw (← is_surplus) (elim (Bool-cases (ltb_ℤ delta.amount (pos 0))) [
        | inl e ↦ absurd (err≢ok (ap (λ x. x.0) (rw e at h₁)))
        | inr e ↦ elim (Bool-cases (eqb_ℤ delta.amount (pos 0))) [
          | inl f ↦ (
            not_negative delta.amount e,
            rw (is_zero delta.amount f) (
                subst (λ y. Shifted d acc tx.buyer tx.buyer (pos 0) y s t) (omega int_laws)
                  (nothing-Shifted d acc tx.buyer s t (ap (λ x. x.1) (rw (e, f) at h₁)))),
          )
          | inr f ↦
              let (moved, balanced) =
                place-Transfer d acc tx.matched_at transaction tx.buyer delta (neg delta)
                  tx.price.currency none (some tx_id) none none s t (sym (neg-currency delta)) i v
                  (price_delta-IsInt64 tx b delta e₁, neg-IsInt64 delta) (rw (e, f) at h₁) in
              (
                not_negative delta.amount e,
                subst (λ y. Shifted d acc tx.buyer tx.buyer delta.amount y s t)
                    (negated_right delta.amount (neg delta).amount balanced) moved,
              )
        ]
      ])

  settle-Settlement :
      (tx : Transaction) (tx_id : Str) (now : ℕ) (cost : Money) (s t : d.State)
      → acc.IsConsistent s
      → AllValid d acc s
      → IsInt64 tx.price.amount × IsInt64 tx.fee.amount
      → tx.price.currency ≡ tx.fee.currency
      → add tx.price tx.fee ≡ ok cost
      → settle d tx tx_id now cost s ≡ (ok tt, t)
      → Settlement tx s t
  unfolding place_account_movement new_movement
  settle-Settlement tx tx_id now cost s t i v (ip, jf) same e₁ h =
      let is_cost = (add-ok tx.price tx.fee cost e₁).1 in
      let ic = add-IsInt64 tx.price tx.fee cost e₁ in
      elim (Bool-cases (is_paid tx.phase)) [
        | inl e ↦
            let placed = rw e at h in
            let m =
              new_movement now transaction_finish tx.seller tx.buyer tx.price (neg cost) tx.fee
                (zero_money tx.price) none (some tx_id) none none in
            let ints : HasInt64Amounts m = (ip, neg-IsInt64 cost, jf, omega arith) in
            let (validated, _, _, _) = place_movement_lem d acc m s t i v ints placed in
            let c = tx.price.currency in
            let cost_in_c : (neg cost).currency ≡ c =
              neg-currency cost ∙ ap (λ x. x.currency) is_cost in
            let balanced : tx.price.amount
                  +ℤ (neg cost).amount
                  +ℤ (tx.fee.amount +ℤ in_currency c (zero_money tx.price))
                ≡ pos 0 =
              (rw
                (
                  ← in_its_currency c tx.price refl,
                  ← in_its_currency c (neg cost) cost_in_c,
                  ← in_its_currency c tx.fee (sym same),
                )
                (validate_balances m c ints validated)) in
            rw (sym (is_paid_lem tx.phase) ∙ e) (
              subst (λ y. Shifted d acc tx.seller tx.buyer tx.price.amount y s t)
                (balance_of_three tx.price.amount (neg cost).amount tx.fee.amount _
                  (in_currency-nothing c (zero_money tx.price) refl) balanced)
                (place-Shifted d acc now transaction_finish tx.seller tx.buyer tx.price (neg cost)
                  tx.fee (zero_money tx.price) none (some tx_id) none none s t i v
                  (ip, neg-IsInt64 cost) placed))
        | inr e ↦
            let (moved, balanced) =
              place-Transfer d acc now transaction_reimburse tx.buyer cost (neg cost)
                tx.price.currency none (some tx_id) none none s t (sym (neg-currency cost)) i v
                (ic, neg-IsInt64 cost) (rw e at h) in
            let exact : cost.amount ≡ tx.price.amount +64 tx.fee.amount =
              ap (λ x. x.amount) is_cost in
            rw (sym (is_paid_lem tx.phase) ∙ e, ← exact)
              (subst (λ y. Shifted d acc tx.buyer tx.buyer cost.amount y s t)
                (negated_right cost.amount (neg cost).amount balanced) moved)
      ]

  pub tx_retire-Settlement :
      (tx tx' : Transaction) (tx_id : Str) (now : ℕ) (s t : d.State)
      → acc.IsConsistent s
      → AllValid d acc s
      → IsInt64 tx.price.amount × IsInt64 tx.fee.amount
      → retire d tx tx_id now s ≡ (ok tx', t)
      → Settlement tx s t
  unfolding retire
  tx_retire-Settlement tx tx' tx_id now s t i v ints h =
      elim (Bool-cases (currency_eq tx.price.currency tx.fee.currency)) [
        | inr e ↦ absurd (panic≢ok (ap (λ x. x.0) (rw (e, retire) at h)))
        | inl e ↦ elim (Bool-cases (is_active tx.state)) [
          | inr f ↦ absurd (err≢ok (ap (λ x. x.0) (rw (e, f, retire) at h)))
          | inl f ↦ elim (Bool-cases (ltb now tx.timeout)) [
            | inl g ↦ absurd (err≢ok (ap (λ x. x.0) (rw (e, f, g, retire) at h)))
            | inr g ↦
                let (cost, e₁, h₁) =
                  lift-eq_ok (add tx.price tx.fee) (settle_and_retire d tx tx_id now) s
                    (rw (e, f, g, retire) at h) in
                let (e₂, _) =
                  return-eq_ok (settle d tx tx_id now cost) (retire_transaction d tx) s h₁ in
                settle-Settlement tx tx_id now cost s t i v ints
                  (currency_eq_sound tx.price.currency tx.fee.currency e) e₁ e₂
          ]
        ]
      ]
