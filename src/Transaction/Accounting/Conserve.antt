-- ===== src/Transaction/Accounting/Conserve.antt =====
-- About `Book` and `Retire` of common/bitwrk/transaction.go and the money in the accounts.
use bitwrk.Base.{
  ℕ, ◌≤◌, ◌≡◌, refl, sym, ap, true, false, Bool, Bool-cases, ◌∙◌, none, some, List, Str, inl, inr,
  arith, Error, Result, ok, err, panic, lift-eq_ok, return-eq_ok, >>=-eq_ok, if◌then◌else◌, ltb,
}
use bitwrk.Int.{ℤ, pos, pos_part, neg_part, ◌+ℤ◌, ltb_ℤ, eqb_ℤ, int_laws}
use bitwrk.Int64.{◌+64◌, IsInt64}
use bitwrk.Money.{Currency, currency_eq, Money, add, neg}
use bitwrk.Money.Arithmetic.{add-IsInt64, sub-IsInt64, neg-IsInt64}
use bitwrk.Dao.{Dao, Accounts, transaction, transaction_finish, transaction_reimburse}
use bitwrk.Account.Validate.{in_currency}
use bitwrk.Account.Conserve.{AllValid, holdings, place_account_movement_conserves}
use bitwrk.Account.Total.{contains, Distinct}
use bitwrk.Bid.{Bid}
use bitwrk.Bid.Accounting.{zero_money}
use bitwrk.Bid.Accounting.Conserve.{Conserves, within_account, nothing_moved, in_currency-zero}
use bitwrk.Transaction.{
  TxPhase, TxPhase-discrete, establishing, buyer_established, seller_established, transmitting,
  working, unverified, finished, work_disputed, result_disputed, TxState, active, retired,
  is_active, Transaction,
}
use bitwrk.Transaction.Accounting.{
  price_delta, book_delta, book, is_paid, settle, settle_and_retire, retire_transaction, retire,
}

pub price_delta-IsInt64 :
    (tx : Transaction) (b : Bid) (delta : Money)
    → price_delta tx b ≡ ok delta
    → IsInt64 delta.amount
unfolding price_delta
price_delta-IsInt64 tx b delta h =
    let (x, _, h₁) = >>=-eq_ok (add b.price b.fee) _ h in
    let (y, _, h₂) = >>=-eq_ok (add tx.price tx.fee) _ h₁ in sub-IsInt64 x y delta h₂

plus_zero : (a f z b : ℤ) → z ≡ pos 0 → a +ℤ (f +ℤ z) ≡ b → a +ℤ f ≡ b
plus_zero a f z b e h =
    let h' : a +ℤ (f +ℤ pos 0) ≡ b = rw e at h in omega (int_laws, ap pos_part h', ap neg_part h')

right_zero : (a : ℤ) → a +ℤ pos 0 ≡ a
right_zero a = omega int_laws

is_active-true : (s : TxState) → is_active s ≡ true → s ≡ active
is_active-true active h = refl
is_active-true retired h = cc

not_before : (a b : ℕ) → ltb a b ≡ false → b ≤ a
not_before a b h = ground arith

pub panic≢ok : {A : Type 0} {a : A} → ◌≡◌ {A = Result A} panic (ok a) → ⊥
panic≢ok h = cc

pub err≢ok : {A : Type 0} {a : A} {e : Error} → ◌≡◌ {A = Result A} (err e) (ok a) → ⊥
err≢ok h = cc

-- In which phases the seller is paid when a transaction retires; in the others, the buyer gets
-- everything back.
abbrev pub pays_seller : TxPhase → Bool
pays_seller establishing = false
pays_seller buyer_established = false
pays_seller seller_established = false
pays_seller transmitting = false
pays_seller working = false
pays_seller unverified = true
pays_seller finished = true
pays_seller work_disputed = false
pays_seller result_disputed = false

pub is_paid_lem : (p : TxPhase) → is_paid p ≡ pays_seller p
unfolding TxPhase-discrete
is_paid_lem establishing = refl
is_paid_lem buyer_established = refl
is_paid_lem seller_established = refl
is_paid_lem transmitting = refl
is_paid_lem working = refl
is_paid_lem unverified = refl
is_paid_lem finished = refl
is_paid_lem work_disputed = refl
is_paid_lem result_disputed = refl

-- The fee that leaves the accounts when a transaction retires.
abbrev pub fee_due : Currency → Transaction → ℤ
fee_due c tx = if pays_seller tx.phase then in_currency c tx.fee else pos 0

module _ (d : Dao) (acc : Accounts d) where
  -- If a transaction is booked, then all accounts are valid and the money of any accounts with the
  -- buyer's among them is what it was, in each currency.
  pub tx_book-Conserves :
      (tx : Transaction) (tx_id : Str) (buyer_bid : Bid) (s t : d.State)
      → acc.IsConsistent s
      → AllValid d acc s
      → book d tx tx_id buyer_bid s ≡ (ok tt, t)
      → Conserves d acc tx.buyer s t
  unfolding book
  tx_book-Conserves tx tx_id buyer_bid s t i v h =
      let (delta, e₁, h₁) = lift-eq_ok (price_delta tx buyer_bid) (book_delta d tx tx_id) s h in
      elim (Bool-cases (ltb_ℤ delta.amount (pos 0))) [
        | inl e ↦ absurd (err≢ok (ap (λ x. x.0) (rw e at h₁)))
        | inr e ↦ elim (Bool-cases (eqb_ℤ delta.amount (pos 0))) [
          | inl f ↦ nothing_moved d acc tx.buyer s t i v (ap (λ x. x.1) (rw (e, f) at h₁))
          | inr f ↦
              within_account d acc tx.matched_at transaction tx.buyer delta (neg delta) tx.price
                none (some tx_id) none none s t i v
                (price_delta-IsInt64 tx buyer_bid delta e₁, neg-IsInt64 delta) (rw (e, f) at h₁)
        ]
      ]

  settle_conserves :
      (tx : Transaction) (tx_id : Str) (now : ℕ) (cost : Money) (s t : d.State)
      → acc.IsConsistent s
      → AllValid d acc s
      → IsInt64 tx.price.amount × IsInt64 tx.fee.amount × IsInt64 cost.amount
      → settle d tx tx_id now cost s ≡ (ok tt, t)
      → acc.IsConsistent t
        × AllValid d acc t
        × ((c : Currency) (ps : List Str)
            → Distinct ps
            → contains tx.seller ps ≡ true
            → contains tx.buyer ps ≡ true
            → holdings d acc c t ps +ℤ fee_due c tx ≡ holdings d acc c s ps)
  settle_conserves tx tx_id now cost s t i v (ip, jf, ic) h = elim (Bool-cases (is_paid tx.phase)) [
    | inl e ↦
        let (i', v', same) =
          place_account_movement_conserves d acc now transaction_finish tx.seller tx.buyer tx.price
            (neg cost) tx.fee (zero_money tx.price) none (some tx_id) none none s t i v
            (ip, neg-IsInt64 cost, jf, omega arith) (rw e at h) in
        (
          i',
          v',
          λ c ps u ks kb.
              rw (sym (is_paid_lem tx.phase) ∙ e)
                (plus_zero _ _ _ _ (in_currency-zero c tx.price) (same c ps u ks kb)),
        )
    | inr e ↦
        let moved =
          within_account d acc now transaction_reimburse tx.buyer cost (neg cost) tx.price none
            (some tx_id) none none s t i v (ic, neg-IsInt64 cost) (rw e at h) in
        (
          moved.consistent,
          moved.valid,
          λ c ps u ks kb.
              rw (sym (is_paid_lem tx.phase) ∙ e, moved.conserved c ps u kb) (right_zero _),
        )
  ]

  -- If a transaction is retired, then it was active and timed out, it is marked as retired and its
  -- revision is counted up, all accounts are valid, and in each currency the money of any accounts
  -- with the buyer's and the seller's among them has fallen by the fee if the transaction retires in
  -- FINISHED or UNVERIFIED, and is what it was in any other phase.
  pub tx_retire_conserves :
      (tx tx' : Transaction) (tx_id : Str) (now : ℕ) (s t : d.State)
      → acc.IsConsistent s
      → AllValid d acc s
      → IsInt64 tx.price.amount × IsInt64 tx.fee.amount
      → retire d tx tx_id now s ≡ (ok tx', t)
      → ((tx.state ≡ active)
          × (tx.timeout ≤ now)
          × (tx' ≡ record tx { state = retired; revision = tx.revision +64 pos 1 }))
        × acc.IsConsistent t
        × AllValid d acc t
        × ((c : Currency) (ps : List Str)
            → Distinct ps
            → contains tx.seller ps ≡ true
            → contains tx.buyer ps ≡ true
            → holdings d acc c t ps +ℤ fee_due c tx ≡ holdings d acc c s ps)
  unfolding retire
  tx_retire_conserves tx tx' tx_id now s t i v (ip, jf) h =
      elim (Bool-cases (currency_eq tx.price.currency tx.fee.currency)) [
        | inr e ↦ absurd (panic≢ok (ap (λ x. x.0) (rw (e, retire) at h)))
        | inl e ↦ elim (Bool-cases (is_active tx.state)) [
          | inr f ↦ absurd (err≢ok (ap (λ x. x.0) (rw (e, f, retire) at h)))
          | inl f ↦ elim (Bool-cases (ltb now tx.timeout)) [
            | inl g ↦ absurd (err≢ok (ap (λ x. x.0) (rw (e, f, g, retire) at h)))
            | inr g ↦
                let (cost, e₁, h₁) =
                  lift-eq_ok (add tx.price tx.fee) (settle_and_retire d tx tx_id now) s
                    (rw (e, f, g, retire) at h) in
                let (e₂, same) =
                  return-eq_ok (settle d tx tx_id now cost) (retire_transaction d tx) s h₁ in
                let (i', v', moved) =
                  settle_conserves tx tx_id now cost s t i v
                    (ip, jf, add-IsInt64 tx.price tx.fee cost e₁) e₂ in
                ((is_active-true tx.state f, not_before now tx.timeout g, sym same), i', v', moved)
          ]
        ]
      ]
