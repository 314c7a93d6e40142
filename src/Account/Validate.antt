-- ===== src/Account/Validate.antt =====
-- About `AccountMovement.Validate` of common/bitwrk/account.go.
use bitwrk.Base.{
  ◌^◌, ◌<◌, ◌≡◌, refl, sym, ap, ◌∙◌, ◌⊎◌, inl, inr, Bool-cases, Option, none, some, if◌then◌else◌,
  ok, >>=-eq_ok, ensure, sum_not_zero, arith,
}
use native.Mathlib.Nat.{le_of_lt}
use bitwrk.Int.{ℤ, pos, negsuc, pos_part, neg_part, ◌+ℤ◌, ◌≤ℤ◌, ◌<ℤ◌, eqb_ℤ, int_laws, part_laws}
use bitwrk.Int64.{wrap64, ◌+64◌, IsInt64, wrap64-id, wrap64-IsInt64}
use bitwrk.Money.{Currency, currency_eq, Money}
use bitwrk.Dao.{
  AccountMovement, AccountMovementType, invalid, pay_in, pay_out, pay_out_reimburse, bid,
  bid_reimburse, transaction, transaction_finish, transaction_reimburse,
}
use bitwrk.Account.{
  tally, validate_currency, check_flow_direction, check_cash_flow_direction, check_type, validate,
}

-- The amount of money in one currency.
abbrev pub in_currency : Currency → Money → ℤ
in_currency c m = if currency_eq m.currency c then m.amount else pos 0

-- The four amounts of a movement are int64 values.
abbrev pub HasInt64Amounts : AccountMovement → Type 0
HasInt64Amounts m =
    IsInt64 m.available_delta.amount
    × IsInt64 m.blocked_delta.amount
    × IsInt64 m.fee.amount
    × IsInt64 m.world.amount

-- The directions in which the four amounts may flow, for some type of movement.
abbrev Flows : ℤ → ℤ → ℤ → ℤ → Type 0
Flows a b f w =
    ((a ≤ℤ pos 0) × (pos 0 ≤ℤ b) × (f ≡ pos 0) × (w ≡ pos 0))
    ⊎ ((pos 0 ≤ℤ a) × (b ≤ℤ pos 0) × (pos 0 ≤ℤ f) × (w ≡ pos 0))
    ⊎ ((pos 0 ≤ℤ a) × (b ≡ pos 0) × (f ≡ pos 0) × (w ≤ℤ pos 0))
    ⊎ ((a ≤ℤ pos 0) × (b ≡ pos 0) × (f ≡ pos 0) × (pos 0 ≤ℤ w))

check_flow-le : (v : ℤ) → check_flow_direction (negsuc 0) v ≡ ok tt → v ≤ℤ pos 0
unfolding check_flow_direction
check_flow-le v h = ground arith

check_flow-eq : (v : ℤ) → check_flow_direction (pos 0) v ≡ ok tt → v ≡ pos 0
unfolding check_flow_direction
check_flow-eq v h = ground arith

check_flow-ge : (v : ℤ) → check_flow_direction (pos 1) v ≡ ok tt → pos 0 ≤ℤ v
unfolding check_flow_direction
check_flow-ge v h = ground arith

check_flow-gt : (v : ℤ) → check_flow_direction (pos 2) v ≡ ok tt → pos 0 <ℤ v
unfolding check_flow_direction
check_flow-gt v h = ground arith

check_flow-lt : (v : ℤ) → check_flow_direction (negsuc 1) v ≡ ok tt → v <ℤ pos 0
unfolding check_flow_direction
check_flow-lt v h = ground arith

check_cash_flow-ok :
    (m : AccountMovement) (a b c d : ℤ)
    → check_cash_flow_direction m a b c d ≡ ok tt
    → (check_flow_direction a m.available_delta.amount ≡ ok tt)
      × (check_flow_direction b m.blocked_delta.amount ≡ ok tt)
      × (check_flow_direction c m.fee.amount ≡ ok tt)
      × (check_flow_direction d m.world.amount ≡ ok tt)
unfolding check_cash_flow_direction
check_cash_flow-ok m a b c d h = ground arith

-- The three types that unblock money of the same account allow the same flows.
refund :
    (m : AccountMovement)
    → (check_flow_direction (pos 1) m.available_delta.amount ≡ ok tt)
      × (check_flow_direction (negsuc 0) m.blocked_delta.amount ≡ ok tt)
      × (check_flow_direction (pos 0) m.fee.amount ≡ ok tt)
      × (check_flow_direction (pos 0) m.world.amount ≡ ok tt)
    → Flows m.available_delta.amount m.blocked_delta.amount m.fee.amount m.world.amount
refund m (a, b, f, w) =
    let f0 = check_flow-eq _ f in
    inr (inl (check_flow-ge _ a, check_flow-le _ b, rw f0 (omega arith), check_flow-eq _ w))

check_type-Flows :
    (t : AccountMovementType) (m : AccountMovement)
    → check_type t m ≡ ok tt
    → Flows m.available_delta.amount m.blocked_delta.amount m.fee.amount m.world.amount
unfolding check_type
check_type-Flows bid m h =
    let (a, b, f, w) = check_cash_flow-ok m (negsuc 0) (pos 1) (pos 0) (pos 0) h in
    inl (check_flow-le _ a, check_flow-ge _ b, check_flow-eq _ f, check_flow-eq _ w)
check_type-Flows bid_reimburse m h =
    refund m (check_cash_flow-ok m (pos 1) (negsuc 0) (pos 0) (pos 0) h)
check_type-Flows transaction m h =
    refund m (check_cash_flow-ok m (pos 1) (negsuc 0) (pos 0) (pos 0) h)
check_type-Flows transaction_finish m h =
    let (a, b, f, w) = check_cash_flow-ok m (pos 1) (negsuc 0) (pos 1) (pos 0) h in
    inr (inl (check_flow-ge _ a, check_flow-le _ b, check_flow-ge _ f, check_flow-eq _ w))
check_type-Flows transaction_reimburse m h =
    refund m (check_cash_flow-ok m (pos 1) (negsuc 0) (pos 0) (pos 0) h)
check_type-Flows pay_in m h =
    let (a, b, f, w) = check_cash_flow-ok m (pos 2) (pos 0) (pos 0) (negsuc 1) h in
    inr (
      inr (
        inl (
          le_of_lt (check_flow-gt _ a),
          check_flow-eq _ b,
          check_flow-eq _ f,
          le_of_lt (check_flow-lt _ w),
        )))
check_type-Flows pay_out m h =
    let (a, b, f, w) = check_cash_flow-ok m (negsuc 1) (pos 0) (pos 0) (pos 2) h in
    inr (
      inr (
        inr (
          le_of_lt (check_flow-lt _ a),
          check_flow-eq _ b,
          check_flow-eq _ f,
          le_of_lt (check_flow-gt _ w),
        )))
check_type-Flows pay_out_reimburse m h = cc
check_type-Flows invalid m h = cc

-- A wrapped sum that is zero is an exact zero, within twice the range.
wrap64_zero : (z : ℤ) → pos_part z < 2 ^ 64 → neg_part z < 2 ^ 64 → wrap64 z ≡ pos 0 → z ≡ pos 0
unfolding wrap64
wrap64_zero (pos n) h k e = ground arith
wrap64_zero (negsuc n) h k e = ground arith

-- Adding two amounts of opposite signs never wraps.
opposite :
    (a b : ℤ)
    → IsInt64 a
    → IsInt64 b
    → ((a ≤ℤ pos 0) × (pos 0 ≤ℤ b)) ⊎ ((pos 0 ≤ℤ a) × (b ≤ℤ pos 0))
    → a +64 b ≡ a +ℤ b
opposite a b ia ib h = wrap64-id (a +ℤ b) (omega part_laws)

wrap64-add_zero : (z : ℤ) → IsInt64 z → wrap64 (z +ℤ pos 0) ≡ z
wrap64-add_zero z h = let e : z +ℤ pos 0 ≡ z = omega int_laws in rw e (wrap64-id z h)

-- With no money for the world the last wrap-around is the one after the fee.
sum_exact_fee :
    (a b f : ℤ)
    → IsInt64 a × IsInt64 b × IsInt64 f
    → ((a ≤ℤ pos 0) × (pos 0 ≤ℤ b)) ⊎ ((pos 0 ≤ℤ a) × (b ≤ℤ pos 0))
    → pos 0 ≤ℤ f
    → a +64 b +64 f +64 pos 0 ≡ pos 0
    → a +ℤ b +ℤ (f +ℤ pos 0) ≡ pos 0
sum_exact_fee a b f (ia, ib, jf) dir pf h =
    let e : a +64 b ≡ a +ℤ b = opposite a b ia ib dir in
    let total : wrap64 (a +ℤ b +ℤ f) ≡ pos 0 =
      sym (wrap64-add_zero _ (wrap64-IsInt64 (a +ℤ b +ℤ f))) ∙ (rw e at h) in
    let i : IsInt64 (a +ℤ b) = rw e at (wrap64-IsInt64 (a +ℤ b)) in
    let exact : a +ℤ b +ℤ f ≡ pos 0 =
      wrap64_zero (a +ℤ b +ℤ f) (omega part_laws) (omega part_laws) total in
    omega (int_laws, ap pos_part exact, ap neg_part exact)

-- With neither a blocked amount nor a fee nothing wraps.
sum_exact_world :
    (a w : ℤ)
    → IsInt64 a × IsInt64 w
    → ((a ≤ℤ pos 0) × (pos 0 ≤ℤ w)) ⊎ ((pos 0 ≤ℤ a) × (w ≤ℤ pos 0))
    → a +64 pos 0 +64 pos 0 +64 w ≡ pos 0
    → a +ℤ pos 0 +ℤ (pos 0 +ℤ w) ≡ pos 0
sum_exact_world a w (ia, iw) dir h =
    let e : a +64 pos 0 ≡ a = wrap64-add_zero a ia in
    let exact : a +ℤ w ≡ pos 0 = sym (opposite a w ia iw dir) ∙ (rw (e, e) at h) in
    omega (int_laws, ap pos_part exact, ap neg_part exact)

-- The sum of `Validate` is exact if it comes out as zero, whatever wraps on the way.
sum_exact :
    (a b f w : ℤ)
    → IsInt64 a × IsInt64 b × IsInt64 f × IsInt64 w
    → Flows a b f w
    → a +64 b +64 f +64 w ≡ pos 0
    → a +ℤ b +ℤ (f +ℤ w) ≡ pos 0
sum_exact a b f w (ia, ib, jf, iw) (inl (pa, pb, ef, ew)) h =
    rw ew (sum_exact_fee a b f (ia, ib, jf) (inl (pa, pb)) (rw ef (omega arith)) (rw ew at h))
sum_exact a b f w (ia, ib, jf, iw) (inr (inl (pa, pb, pf, ew))) h =
    rw ew (sum_exact_fee a b f (ia, ib, jf) (inr (pa, pb)) pf (rw ew at h))
sum_exact a b f w (ia, ib, jf, iw) (inr (inr (inl (pa, eb, ef, pw)))) h =
    rw (eb, ef) (sum_exact_world a w (ia, iw) (inr (pa, pw)) (rw (eb, ef) at h))
sum_exact a b f w (ia, ib, jf, iw) (inr (inr (inr (pa, eb, ef, pw)))) h =
    rw (eb, ef) (sum_exact_world a w (ia, iw) (inl (pa, pw)) (rw (eb, ef) at h))

-- An amount fits a currency if it is zero or in that currency.
abbrev Fits : Option Currency → Money → Type 0
Fits c m = (m.amount ≡ pos 0) ⊎ (c ≡ some m.currency)

-- One step of `Validate`: it skips a zero amount, and adds another to the sum.
tally-ok :
    (m : Money) (c : Option Currency) (s : ℤ) (t : Option Currency × ℤ)
    → tally m (c, s) ≡ ok t
    → ((m.amount ≡ pos 0) × (t ≡ (c, s)))
      ⊎ ((t ≡ (some m.currency, s +64 m.amount)) × ((c ≡ none) ⊎ (c ≡ some m.currency)))
unfolding tally validate_currency
tally-ok m none s t h = ground arith
tally-ok m (some d) s t h = ground arith

Fits-step :
    (m n : Money) (c : Option Currency)
    → (c ≡ none) ⊎ (c ≡ some m.currency)
    → Fits c n
    → Fits (some m.currency) n
Fits-step m n c h k = ground arith

-- The sum, and the currency that this and all earlier amounts fit.
tally_lem :
    (m : Money) (c : Option Currency) (s : ℤ) (t : Option Currency × ℤ)
    → IsInt64 s
    → tally m (c, s) ≡ ok t
    → (t.1 ≡ s +64 m.amount) × Fits t.0 m × ((n : Money) → Fits c n → Fits t.0 n)
tally_lem m c s t i h = elim (tally-ok m c s t h) [
  | inl (z, e) ↦ (rw (e, z) (sym (wrap64-add_zero s i)), inl z, λ n k. rw e k)
  | inr (e, d) ↦ (rw e refl, inr (rw e refl), λ n k. rw e (Fits-step m n c d k))
]

ensure-eqb_ℤ : (z : ℤ) → ensure (eqb_ℤ z (pos 0)) sum_not_zero ≡ ok tt → z ≡ pos 0
ensure-eqb_ℤ z h = ground arith

wrap64-zero_add : (z : ℤ) → IsInt64 z → wrap64 (pos 0 +ℤ z) ≡ z
wrap64-zero_add z h = let e : pos 0 +ℤ z ≡ z = omega int_laws in rw e (wrap64-id z h)

validate-ok :
    (m : AccountMovement)
    → HasInt64Amounts m
    → validate m ≡ ok tt
    → (m.available_delta.amount +64 m.blocked_delta.amount +64 m.fee.amount +64 m.world.amount
        ≡ pos 0)
      × (check_type m.movement_type m ≡ ok tt)
      × ((c : Option Currency) × Fits c m.available_delta
          × Fits c m.blocked_delta
          × Fits c m.fee
          × Fits c m.world)
unfolding validate
validate-ok m (ia, ib, jf, iw) h =
    let (t₁, e₁, h₁) = >>=-eq_ok (tally m.available_delta (none, pos 0)) _ h in
    let (t₂, e₂, h₂) = >>=-eq_ok (tally m.blocked_delta t₁) _ h₁ in
    let (t₃, e₃, h₃) = >>=-eq_ok (tally m.fee t₂) _ h₂ in
    let (t₄, e₄, h₄) = >>=-eq_ok (tally m.world t₃) _ h₃ in
    let (u, e₅, h₅) = >>=-eq_ok (check_type m.movement_type m) _ h₄ in
    let (s₁, f₁, k₁) = tally_lem m.available_delta none (pos 0) t₁ (omega arith) e₁ in
    let i₁ : IsInt64 t₁.1 = rw s₁ (wrap64-IsInt64 _) in
    let (s₂, f₂, k₂) = tally_lem m.blocked_delta t₁.0 t₁.1 t₂ i₁ e₂ in
    let i₂ : IsInt64 t₂.1 = rw s₂ (wrap64-IsInt64 _) in
    let (s₃, f₃, k₃) = tally_lem m.fee t₂.0 t₂.1 t₃ i₂ e₃ in
    let i₃ : IsInt64 t₃.1 = rw s₃ (wrap64-IsInt64 _) in
    let (s₄, f₄, k₄) = tally_lem m.world t₃.0 t₃.1 t₄ i₃ e₄ in
    let first : t₁.1 ≡ m.available_delta.amount =
      s₁ ∙ wrap64-zero_add m.available_delta.amount ia in
    let z : t₄.1 ≡ pos 0 = ensure-eqb_ℤ t₄.1 h₅ in
    (
      rw (← first, ← s₂, ← s₃, ← s₄) z,
      e₅,
      (t₄.0, k₄ _ (k₃ _ (k₂ _ f₁)), k₄ _ (k₃ _ f₂), k₄ _ f₃, f₄),
    )

in_currency-Fits :
    (c : Option Currency) (d : Currency) (m : Money)
    → Fits c m
    → in_currency d m
      ≡ (elim c [ none ↦ pos 0 | some e ↦ if currency_eq e d then m.amount else pos 0 ])
in_currency-Fits none d m h = ground arith
in_currency-Fits (some e) d m h = ground arith

-- With all amounts in one currency, the sum in any currency is the whole sum or nothing.
in_currency-sum :
    (c : Option Currency) (d : Currency) (k l m n : Money)
    → Fits c k
    → Fits c l
    → Fits c m
    → Fits c n
    → k.amount +ℤ l.amount +ℤ (m.amount +ℤ n.amount) ≡ pos 0
    → in_currency d k +ℤ in_currency d l +ℤ (in_currency d m +ℤ in_currency d n) ≡ pos 0
in_currency-sum none d k l m n fk fl fm fn h =
    rw
      (
        in_currency-Fits none d k fk,
        in_currency-Fits none d l fl,
        in_currency-Fits none d m fm,
        in_currency-Fits none d n fn,
      )
      (omega int_laws)
in_currency-sum (some e) d k l m n fk fl fm fn h = elim (Bool-cases (currency_eq e d)) [
  | inl y ↦
      rw
        (
          in_currency-Fits (some e) d k fk,
          in_currency-Fits (some e) d l fl,
          in_currency-Fits (some e) d m fm,
          in_currency-Fits (some e) d n fn,
          y,
        )
        h
  | inr n' ↦
      rw
        (
          in_currency-Fits (some e) d k fk,
          in_currency-Fits (some e) d l fl,
          in_currency-Fits (some e) d m fm,
          in_currency-Fits (some e) d n fn,
          n',
        )
        (omega int_laws)
]

-- If a movement of int64 amounts validates, then in each currency its four amounts sum up to
-- exactly zero as integers, although `Validate` adds them up with wrap-around.
pub validate_balances :
    (m : AccountMovement) (c : Currency)
    → HasInt64Amounts m
    → validate m ≡ ok tt
    → in_currency c m.available_delta
        +ℤ in_currency c m.blocked_delta
        +ℤ (in_currency c m.fee +ℤ in_currency c m.world)
      ≡ pos 0
validate_balances m c i h =
    let (sum, flows, (d, fa, fb, ff, fw)) = validate-ok m i h in
    in_currency-sum d c m.available_delta m.blocked_delta m.fee m.world fa fb ff fw
      (sum_exact _ _ _ _ i (check_type-Flows m.movement_type m flows) sum)
