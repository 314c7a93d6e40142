-- ===== src/Account/Moves.antt =====
-- About what the movements of common/bitwrk/account.go do to the two parts of the accounts.
use bitwrk.Base.{
  ℕ, ◌≡◌, refl, sym, ap, ◌∙◌, false, Bool-cases, Option, Str, str_eq, str_eq_iff, inl, inr,
  if◌then◌else◌, some, ok, bind-eq_ok, lift-eq_ok, arith,
}
use mathlib.Core.Path.{subst}
use bitwrk.Int.{ℤ, pos, pos_part, neg_part, ◌+ℤ◌, int_laws}
use bitwrk.Int64.{IsInt64}
use bitwrk.Money.{Currency, Money, money}
use bitwrk.Dao.{Dao, Accounts, ParticipantAccount, AccountMovementType}
use bitwrk.Account.{Part, available, blocked, balance, validate}
use bitwrk.Account.Apply.{other_balance, apply_lem, apply_amounts}
use bitwrk.Account.Validate.{HasInt64Amounts, in_currency, validate_balances}
use bitwrk.Account.Conserve.{place_movement_lem, AllValid, post-view, post-Posted, key-Same}
use bitwrk.Account.Place.{
  post, save_placed, post_blocked, post_both, place_valid, new_movement, place_movement,
  place_account_movement,
}

plus_zero : (a : ℤ) → a +ℤ pos 0 ≡ a
plus_zero a = omega int_laws

pub in_its_currency : (c : Currency) (m : Money) → m.currency ≡ c → in_currency c m ≡ m.amount
in_its_currency c m e = ground arith

pub in_currency-nothing : (c : Currency) (m : Money) → m.amount ≡ pos 0 → in_currency c m ≡ pos 0
in_currency-nothing c m e = ground arith

-- Two amounts of one currency that balance.
pub cancel :
    (x y nothing : Money)
    → x.currency ≡ y.currency
    → nothing.amount ≡ pos 0
    → in_currency y.currency x
        +ℤ in_currency y.currency y
        +ℤ (in_currency y.currency nothing +ℤ in_currency y.currency nothing)
      ≡ pos 0
    → x.amount +ℤ y.amount ≡ pos 0
cancel x y nothing same none h =
    let hx = in_its_currency y.currency x same in
    let hy = in_its_currency y.currency y refl in
    let hn = in_currency-nothing y.currency nothing none in
    let h' : x.amount +ℤ y.amount +ℤ (pos 0 +ℤ pos 0) ≡ pos 0 =
      (sym (
          ap (λ a. a +ℤ in_currency y.currency y +ℤ (pos 0 +ℤ pos 0)) hx
          ∙ ap (λ b. x.amount +ℤ b +ℤ (pos 0 +ℤ pos 0)) hy)
        ∙ sym (ap (λ n. in_currency y.currency x +ℤ in_currency y.currency y +ℤ (n +ℤ n)) hn)
        ∙ h) in
    omega (int_laws, ap pos_part h', ap neg_part h')

module _ (d : Dao) (acc : Accounts d) where
  open acc use {IsConsistent, view}

  -- What one participant has available and another one (or the same) has blocked have changed by
  -- these, and every other amount is as it was.
  pub record Shifted (a b : Str) (x y : ℤ) (s t : d.State) : Type 0 where
    pub available_by : (view t a).available_amount ≡ (view s a).available_amount +ℤ x
    pub blocked_by : (view t b).blocked_amount ≡ (view s b).blocked_amount +ℤ y
    pub other_available :
        (q : Str) → str_eq q a ≡ false → (view t q).available_amount ≡ (view s q).available_amount
    pub other_blocked :
        (q : Str) → str_eq q b ≡ false → (view t q).blocked_amount ≡ (view s q).blocked_amount

  -- One posting changes one amount.
  post-Shifted :
      (part : Part) (p : Str) (delta : Money) (key : Str) (s t : d.State) {r : Option Str}
      → IsConsistent s
      → AllValid d acc s
      → IsInt64 delta.amount
      → post d part p delta key s ≡ (ok r, t)
      → (balance part (view t p) ≡ balance part (view s p) +ℤ delta.amount)
        × ((q : Str) → other_balance part (view t q) ≡ other_balance part (view s q))
        × ((q : Str) → str_eq q p ≡ false → balance part (view t q) ≡ balance part (view s q))
  unfolding balance
  post-Shifted part p delta key s t i v fits h =
      let (i', (a, e, look)) = post-view d acc part p delta key s t i h in
      let (_, owner, _) = apply_lem part delta (view s p) a (v p) fits e in
      let (moved, stays) = apply_amounts part delta (view s p) a (v p) fits e in
      let at_p : a.participant ≡ p = owner ∙ acc.view-participant s p i in
      let elsewhere : (q : Str) → str_eq q p ≡ false → view t q ≡ view s q = (λ q n.
        look q
        ∙ ap (λ b. if b then record a { last_movement_key = some key } else view s q)
            (ap (str_eq q) at_p ∙ n)) in
      let here : view t p ≡ record a { last_movement_key = some key } =
        look p
        ∙ ap (λ b. if b then record a { last_movement_key = some key } else view s p)
            (ap (str_eq p) at_p ∙ (str_eq_iff p p).1 refl) in
      (
        ap (balance part) here ∙ balance-key part a key ∙ moved,
        λ q. elim (Bool-cases (str_eq q p)) [
          | inl y ↦
              let same : q ≡ p = (str_eq_iff q p).0 y in
              rw same (ap (other_balance part) here ∙ other-key part a key ∙ stays)
          | inr n ↦ ap (other_balance part) (elsewhere q n)
        ],
        λ q n. ap (balance part) (elsewhere q n),
      )
    where
      balance-key :
          (k : Part) (b : ParticipantAccount) (m : Str)
          → balance k (record b { last_movement_key = some m }) ≡ balance k b
      balance-key available b m = refl
      balance-key blocked b m = refl

      other-key :
          (k : Part) (b : ParticipantAccount) (m : Str)
          → other_balance k (record b { last_movement_key = some m }) ≡ other_balance k b
      other-key available b m = refl
      other-key blocked b m = refl

  -- If `PlaceAccountMovement` succeeds with int64 deltas, then the two amounts change by the deltas,
  -- without a wrap-around, and no other amount changes.
  pub place-Shifted :
      (now : ℕ) (m_type : AccountMovementType) (a b : Str) (x y fee world : Money)
      (bid_key tx_key deposit_key withdrawal_key : Option Str) (s t : d.State)
      → IsConsistent s
      → AllValid d acc s
      → IsInt64 x.amount × IsInt64 y.amount
      → place_account_movement d now m_type a b x y fee world bid_key tx_key deposit_key
          withdrawal_key s
        ≡ (ok tt, t)
      → Shifted a b x.amount y.amount s t
  unfolding place_account_movement place_movement new_movement balance
  place-Shifted now m_type a b x y fee world bk tk dk wk s t i v (ix, iy) h =
      let m = new_movement now m_type a b x y fee world bk tk dk wk in
      let (_, _, h₀) = lift-eq_ok (validate m) (place_valid d m) s h in
      let (key, s₁, e₁, h₁) = bind-eq_ok (d.new_account_movement_key a) (post_both d m) s h₀ in
      let (i₁, v₁, _) = key-Same d acc a key s s₁ i v e₁ in
      let (_, look₁) = acc.new_key_lem a key s s₁ i e₁ in
      let (r₂, s₂, e₂, h₂) = bind-eq_ok (post d available a x key) (post_blocked d m key) s₁ h₁ in
      let p₂ = post-Posted d acc available a x key s₁ s₂ i₁ v₁ ix e₂ in
      let (a₂, b₂, o₂) = post-Shifted available a x key s₁ s₂ i₁ v₁ ix e₂ in
      let (r₃, s₃, e₃, h₃) = bind-eq_ok (post d blocked b y key) (save_placed d m key r₂) s₂ h₂ in
      let p₃ = post-Posted d acc blocked b y key s₂ s₃ p₂.consistent p₂.valid iy e₃ in
      let (b₃, a₃, o₃) = post-Shifted blocked b y key s₂ s₃ p₂.consistent p₂.valid iy e₃ in
      let (_, look₄) = acc.save_movement_lem _ s₃ t p₃.consistent h₃ in
      record {
        available_by =
            ap (λ z. z.available_amount) (look₄ a)
            ∙ a₃ a
            ∙ a₂
            ∙ ap (λ z. z.available_amount +ℤ x.amount) (look₁ a);
        blocked_by =
            ap (λ z. z.blocked_amount) (look₄ b)
            ∙ b₃
            ∙ ap (λ z. z +ℤ y.amount) (b₂ b ∙ ap (λ z. z.blocked_amount) (look₁ b));
        other_available = λ q n.
            ap (λ z. z.available_amount) (look₄ q)
            ∙ a₃ q
            ∙ o₂ q n
            ∙ ap (λ z. z.available_amount) (look₁ q);
        other_blocked = λ q n.
            ap (λ z. z.blocked_amount) (look₄ q)
            ∙ o₃ q n
            ∙ b₂ q
            ∙ ap (λ z. z.blocked_amount) (look₁ q);
      }

  pub nothing-Shifted : (p : Str) (s t : d.State) → s ≡ t → Shifted p p (pos 0) (pos 0) s t
  nothing-Shifted p s t e = subst (Shifted p p (pos 0) (pos 0) s) e (record {
    available_by = sym (plus_zero (view s p).available_amount);
    blocked_by = sym (plus_zero (view s p).blocked_amount);
    other_available = λ q n. refl;
    other_blocked = λ q n. refl;
  })

  -- With no fee and nothing for the world, the deltas in one currency cancel out.
  pub place-Transfer :
      (now : ℕ) (m_type : AccountMovementType) (p : Str) (x y : Money) (z : Currency)
      (bid_key tx_key deposit_key withdrawal_key : Option Str) (s t : d.State)
      → x.currency ≡ y.currency
      → IsConsistent s
      → AllValid d acc s
      → IsInt64 x.amount × IsInt64 y.amount
      → place_account_movement d now m_type p p x y
          (money (pos 0) z)
          (money (pos 0) z)
          bid_key
          tx_key
          deposit_key
          withdrawal_key
          s
        ≡ (ok tt, t)
      → Shifted p p x.amount y.amount s t × (x.amount +ℤ y.amount ≡ pos 0)
  unfolding place_account_movement new_movement
  place-Transfer now m_type p x y z bk tk dk wk s t same i v (ix, iy) h =
      let nothing = money (pos 0) z in
      let m = new_movement now m_type p p x y nothing nothing bk tk dk wk in
      let ints : HasInt64Amounts m = (ix, iy, omega arith, omega arith) in
      let (validated, _, _, _) = place_movement_lem d acc m s t i v ints h in
      (
        place-Shifted now m_type p p x y nothing nothing bk tk dk wk s t i v (ix, iy) h,
        cancel x y nothing same refl (validate_balances m y.currency ints validated),
      )
