-- ===== src/Account/Apply.antt =====
-- What `CanApply` and `Apply` of common/bitwrk/account.go do to an account.
use bitwrk.Base.{
  ◌^◌, ◌<◌, ◌≡◌, refl, sym, ◌⊎◌, inl, inr, Bool, true, false, Bool-cases, if◌then◌else◌, Error, ok,
  err, ok-injective, dec_lt, arith,
}
use bitwrk.Int.{ℤ, pos, pos_part, ◌+ℤ◌, ◌≤ℤ◌, eqb_ℤ, int_laws, part_laws}
use bitwrk.Int64.{wrap64, ◌+64◌, IsInt64, wrap64-id, wrap64-IsInt64, wrap64_low}
use bitwrk.Money.{Currency, currency_eq, Money}
use bitwrk.Dao.{ParticipantAccount}
use bitwrk.Account.{
  Part, available, blocked, balance, set_balance, is_currency_mutable, can_apply, apply,
}
use bitwrk.Account.Validate.{in_currency}

-- Neither amount of an account is negative, and both are int64 values.
pub record IsValid (a : ParticipantAccount) : Type 0 where
  pub available_nonneg : pos 0 ≤ℤ a.available_amount
  pub available_fits : pos_part a.available_amount < 2 ^ 63
  pub blocked_nonneg : pos 0 ≤ℤ a.blocked_amount
  pub blocked_fits : pos_part a.blocked_amount < 2 ^ 63

-- All the money of an account, if it is in the given currency.
unfoldable pub worth : Currency → ParticipantAccount → ℤ
worth c a = if currency_eq a.currency c then a.available_amount +ℤ a.blocked_amount else pos 0

-- If the wrapped sum of a balance and a delta is not negative, it is exact.
pub exact_balance :
    (d b : ℤ)
    → IsInt64 d
    → pos 0 ≤ℤ b
    → pos_part b < 2 ^ 63
    → pos 0 ≤ℤ wrap64 (d +ℤ b)
    → wrap64 (d +ℤ b) ≡ d +ℤ b
exact_balance d b i nb fb h = elim (dec_lt (pos_part (d +ℤ b)) (2 ^ 63)) [
  | yes p ↦ wrap64-id (d +ℤ b) (p, omega part_laws)
  | no p ↦
      let small : pos_part (d +ℤ b) < 2 ^ 64 = omega part_laws in
      absurd (omega (arith, wrap64_low (d +ℤ b) small (omega arith)))
]

-- How `Apply` ends well.
pub data Applied (p : Part) (delta : Money) (a : ParticipantAccount)
    : ParticipantAccount → Type 0 where
  unchanged : {a' : ParticipantAccount} → delta.amount ≡ pos 0 → a' ≡ a → Applied p delta a a'
  changed :
      {a' : ParticipantAccount}
      → a' ≡ set_balance p (balance p a +64 delta.amount) (record a { currency = delta.currency })
      → pos 0 ≤ℤ (delta.amount +64 balance p a)
      → (a.currency ≡ delta.currency) ⊎ ((a.available_amount ≡ pos 0) × (a.blocked_amount ≡ pos 0))
      → Applied p delta a a'

can_apply-true :
    (p : Part) (delta : Money) (a : ParticipantAccount)
    → can_apply p delta a ≡ true
    → (pos 0 ≤ℤ (delta.amount +64 balance p a))
      × ((delta.amount ≡ pos 0)
          ⊎ (a.currency ≡ delta.currency)
          ⊎ ((a.available_amount ≡ pos 0) × (a.blocked_amount ≡ pos 0)))
unfolding can_apply is_currency_mutable
can_apply-true p delta a h = ground arith

apply-Applied :
    (p : Part) (delta : Money) (a a' : ParticipantAccount)
    → apply p delta a ≡ ok a'
    → Applied p delta a a'
unfolding apply
apply-Applied p delta a a' h = elim (Bool-cases (can_apply p delta a)) [
  | inr no_way ↦ absurd (fails (rw no_way at h))
  | inl can ↦ elim (Bool-cases (eqb_ℤ delta.amount (pos 0))) [
    | inl z ↦ unchanged (ground arith) (ok-injective (sym (rw (can, z) at h)))
    | inr nz ↦
        let (nonneg, cur) = can_apply-true p delta a can in
        changed (ok-injective (sym (rw (can, nz) at h))) nonneg
          (elim cur [ inl z ↦ absurd (ground arith) | inr k ↦ k ])
  ]
]
  where
    fails : {e : Error} → err e ≡ ok a' → ⊥
    fails e = cc

-- Adding `d` to the worth `x +ℤ y`, where `old` and `new` tell whether the account was and is in
-- the currency that is looked at.
shift_worth :
    (old new : Bool) (d x y z : ℤ)
    → (old ≡ new) ⊎ ((x ≡ pos 0) × (y ≡ pos 0))
    → z ≡ d +ℤ (x +ℤ y)
    → (if new then z else pos 0) ≡ (if old then x +ℤ y else pos 0) +ℤ (if new then d else pos 0)
shift_worth true true d x y z h e = rw e (omega int_laws)
shift_worth false false d x y z h e = omega int_laws
shift_worth true false d x y z (inl h) e = absurd (cc)
shift_worth true false d x y z (inr (ex, ey)) e = rw (ex, ey) (omega int_laws)
shift_worth false true d x y z (inl h) e = absurd (cc)
shift_worth false true d x y z (inr (ex, ey)) e = rw (e, ex, ey) (omega int_laws)

add_nothing :
    (b c : Bool) (x : ℤ)
    → (if b then x else pos 0) ≡ (if b then x else pos 0) +ℤ (if c then pos 0 else pos 0)
add_nothing true true x = omega int_laws
add_nothing true false x = omega int_laws
add_nothing false true x = omega int_laws
add_nothing false false x = omega int_laws

-- What an account gains in each currency when an applied delta changes one of its parts.
worth-apply :
    (p : Part) (delta : Money) (a a' : ParticipantAccount) (c : Currency)
    → balance p a +64 delta.amount ≡ delta.amount +ℤ balance p a
    → Applied p delta a a'
    → worth c a' ≡ worth c a +ℤ in_currency c delta
unfolding worth balance set_balance
worth-apply p delta a a' c exact (unchanged z e) =
    rw (e, z) (add_nothing (currency_eq a.currency c) (currency_eq delta.currency c) _)
worth-apply available delta a a' c exact (changed e nonneg cur) =
    rw (e, exact)
      (shift_worth (currency_eq a.currency c) (currency_eq delta.currency c) delta.amount
        a.available_amount a.blocked_amount _ (elim cur [ inl k ↦ inl (rw k refl) | inr k ↦ inr k ])
        (omega int_laws))
worth-apply blocked delta a a' c exact (changed e nonneg cur) =
    rw (e, exact)
      (shift_worth (currency_eq a.currency c) (currency_eq delta.currency c) delta.amount
        a.available_amount a.blocked_amount _ (elim cur [ inl k ↦ inl (rw k refl) | inr k ↦ inr k ])
        (omega int_laws))

balance_bounds :
    (p : Part) (a : ParticipantAccount)
    → IsValid a
    → (pos 0 ≤ℤ balance p a) × (pos_part (balance p a) < 2 ^ 63)
unfolding balance
balance_bounds available a v = (v.available_nonneg, v.available_fits)
balance_bounds blocked a v = (v.blocked_nonneg, v.blocked_fits)

+ℤ_comm : (a b : ℤ) → a +ℤ b ≡ b +ℤ a
+ℤ_comm a b = omega int_laws

-- The new balance is exact, not negative, and an int64.
apply-exact :
    (p : Part) (delta : Money) (a a' : ParticipantAccount)
    → IsValid a
    → IsInt64 delta.amount
    → Applied p delta a a'
    → (balance p a +64 delta.amount ≡ delta.amount +ℤ balance p a)
      × (pos 0 ≤ℤ (balance p a +64 delta.amount))
      × (pos_part (balance p a +64 delta.amount) < 2 ^ 63)
apply-exact p delta a a' v i (unchanged z e) =
    let (nonneg, fits) = balance_bounds p a v in
    let same : balance p a +64 pos 0 ≡ balance p a =
      (let n : balance p a +ℤ pos 0 ≡ balance p a = omega int_laws in
        rw n (wrap64-id (balance p a) (omega arith))) in
    rw (z, same) (omega int_laws, nonneg, fits)
apply-exact p delta a a' v i (changed e pos_sum cur) =
    let (nonneg, fits) = balance_bounds p a v in
    let exact = exact_balance delta.amount (balance p a) i nonneg fits pos_sum in
    rw (+ℤ_comm (balance p a) delta.amount)
      (exact, pos_sum, (wrap64-IsInt64 (delta.amount +ℤ balance p a)).0)

apply-IsValid :
    (p : Part) (delta : Money) (a a' : ParticipantAccount)
    → IsValid a
    → (pos 0 ≤ℤ (balance p a +64 delta.amount)) × (pos_part (balance p a +64 delta.amount) < 2 ^ 63)
    → Applied p delta a a'
    → IsValid a' × (a'.participant ≡ a.participant)
unfolding balance set_balance
apply-IsValid p delta a a' v h (unchanged z e) = rw e (v, refl)
apply-IsValid available delta a a' v h (changed e pos_sum cur) = rw e (ground (arith, v), refl)
apply-IsValid blocked delta a a' v h (changed e pos_sum cur) = rw e (ground (arith, v), refl)

-- If `Apply` accepts an int64 delta on a valid account, then the account stays valid and keeps its
-- owner, and its money grows by the delta, in each currency: no wrap-around, and no other money
-- changes its currency.
pub apply_lem :
    (p : Part) (delta : Money) (a a' : ParticipantAccount)
    → IsValid a
    → IsInt64 delta.amount
    → apply p delta a ≡ ok a'
    → IsValid a'
      × (a'.participant ≡ a.participant)
      × ((c : Currency) → worth c a' ≡ worth c a +ℤ in_currency c delta)
apply_lem p delta a a' v i h =
    let applied = apply-Applied p delta a a' h in
    let (exact, nonneg, fits) = apply-exact p delta a a' v i applied in
    let (valid, owner) = apply-IsValid p delta a a' v (nonneg, fits) applied in
    (valid, owner, λ c. worth-apply p delta a a' c exact applied)

-- The amount of the other part.
abbrev pub other_balance : Part → ParticipantAccount → ℤ
other_balance available a = a.blocked_amount
other_balance blocked a = a.available_amount

amounts-apply :
    (p : Part) (delta : Money) (a a' : ParticipantAccount)
    → balance p a +64 delta.amount ≡ delta.amount +ℤ balance p a
    → Applied p delta a a'
    → (balance p a' ≡ balance p a +ℤ delta.amount) × (other_balance p a' ≡ other_balance p a)
unfolding balance set_balance
amounts-apply available delta a a' exact (unchanged z e) = rw (e, z) (omega int_laws, refl)
amounts-apply blocked delta a a' exact (unchanged z e) = rw (e, z) (omega int_laws, refl)
amounts-apply available delta a a' exact (changed e nonneg cur) =
    rw (e, exact) (+ℤ_comm delta.amount a.available_amount, refl)
amounts-apply blocked delta a a' exact (changed e nonneg cur) =
    rw (e, exact) (+ℤ_comm delta.amount a.blocked_amount, refl)

-- An applied delta is added to one of the two amounts, and the other stays.
pub apply_amounts :
    (p : Part) (delta : Money) (a a' : ParticipantAccount)
    → IsValid a
    → IsInt64 delta.amount
    → apply p delta a ≡ ok a'
    → (balance p a' ≡ balance p a +ℤ delta.amount) × (other_balance p a' ≡ other_balance p a)
apply_amounts p delta a a' v i h =
    let applied = apply-Applied p delta a a' h in
    amounts-apply p delta a a' (apply-exact p delta a a' v i applied).0 applied
