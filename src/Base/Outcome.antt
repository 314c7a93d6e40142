-- ===== src/Base/Outcome.antt =====
-- The outcome of a Go call: a value, an error value, or a panic; and calls that keep a state.
use Prim.Native.Nat.{ℕ}
use mathlib.Core.Path.{◌≡◌, refl, ap, ◌∙◌}
use mathlib.Core.Bool.{Bool, true, false}

-- The errors of the modelled code, one for each place that makes one, and those of the storage
-- below it, told apart by a number.
pub data Error : Type 0 where
  no_such_object key_not_set not_transactional : Error
  cant_apply currencies_mixed wrong_flow invalid_movement_type sum_not_zero : Error
  insufficient_funds wrong_currency invalid_bid_price : Error
  illegal_bid_type negative_price price_too_high unknown_bid_type : Error
  bad_amount_pattern unknown_unit too_many_fraction_digits too_many_integral_digits : Error
  illegal_monetary_value unknown_currency different_currencies : Error
  non_matching_bids old_bid_not_placed new_bid_not_in_queue old_bid_expired new_bid_expired : Error
  strange_price_delta too_young already_retired inconsistent_secret aborted : Error
  invalid_phase invalid_phase_json invalid_movement_name : Error
  bad_deposit_type non_positive_deposit bad_uid_length bad_ref_length bad_uid_char : Error
  bad_ref_char different_deposit bad_number : Error
  no_such_relation_type no_reflexive no_boolean bad_relation_json : Error
  unknown_property bad_url bad_key bad_number_of_kind : Error
  -- The model has run out of fuel: no error of the code.
  out_of_fuel : Error
  storage : ℕ → Error

pub data Result {ℓ} (A : Type ℓ) : Type ℓ where
  ok : A → Result A
  err : Error → Result A
  panic : Result A

infixl 5 ◌>>=◌ ◌>>◌
abbrev pub ◌>>=◌ {ℓ κ} : {A : Type ℓ} {B : Type κ} → Result A → (A → Result B) → Result B
ok a >>= f = f a
err e >>= f = err e
panic >>= f = panic

abbrev pub ◌>>◌ {κ} : {B : Type κ} → Result (Unit {0}) → Result B → Result B
m >> k = m >>= λ _. k

-- `if !cond { return e }`
abbrev pub ensure : Bool → Error → Result (Unit {0})
ensure true e = ok tt
ensure false e = err e

-- Inversion of a successful call.
pub >>=-eq_ok {ℓ κ} :
    {V : Type ℓ} {W : Type κ} (call : Result V) (rest : V → Result W) {w : W}
    → (call >>= rest) ≡ ok w
    → (v : V) × (call ≡ ok v) × (rest v ≡ ok w)
>>=-eq_ok panic rest h = absurd (cc)
>>=-eq_ok (err e) rest h = absurd (cc)
>>=-eq_ok (ok v) rest h = (v, refl, h)

pub ok-injective {ℓ} : {A : Type ℓ} {a b : A} → ok a ≡ ok b → a ≡ b
ok-injective h = cc

-- A call in a state. What was written before an error stays written: the caller rolls back.
abbrev pub Action : Type 0 → Type 0 → Type 0
Action S A = S → Result A × S

module _ {S : Type 0} where
  abbrev pub bind : {A B : Type 0} → Action S A → (A → Action S B) → Action S B
  bind m f s =
      let (r, s') = m s in elim r [ ok a ↦ f a s' | err e ↦ (err e, s') | panic ↦ (panic, s') ]

  abbrev pub lift : {A : Type 0} → Result A → Action S A
  lift r s = (r, s)

  -- Inversion of a successful call.
  pub bind-eq_ok :
      {A B : Type 0} (m : Action S A) (f : A → Action S B) (s : S) {b : B} {t : S}
      → bind m f s ≡ (ok b, t)
      → (a : A) × (s' : S) × (m s ≡ (ok a, s')) × (f a s' ≡ (ok b, t))
  bind-eq_ok {A} {B} m f s {b} {t} h = go (m s) refl h
    where
      go :
          (r : Result A × S)
          → m s ≡ r
          → elim r.0 [ ok a ↦ f a r.1 | err e ↦ (err e, r.1) | panic ↦ (panic, r.1) ] ≡ (ok b, t)
          → (a : A) × (s' : S) × (m s ≡ (ok a, s')) × (f a s' ≡ (ok b, t))
      go (ok a, s') e k = (a, s', e, k)
      go (err e', s') e k = absurd (cc)
      go (panic, s') e k = absurd (cc)

module _ {S : Type 0} where
  pub lift-eq_ok :
      {A B : Type 0} (r : Result A) (f : A → Action S B) (s : S) {b : B} {t : S}
      → bind (lift r) f s ≡ (ok b, t)
      → (a : A) × (r ≡ ok a) × (f a s ≡ (ok b, t))
  lift-eq_ok (ok a) f s h = (a, refl, h)
  lift-eq_ok (err e) f s h = absurd (cc)
  lift-eq_ok panic f s h = absurd (cc)

  -- A call after which a value is returned.
  pub return-eq_ok :
      {B : Type 0} (m : Action S (Unit {0})) (b' : B) (s : S) {b : B} {t : S}
      → bind m (λ _. lift (ok b')) s ≡ (ok b, t)
      → (m s ≡ (ok tt, t)) × (b' ≡ b)
  return-eq_ok {B} m b' s {b} {t} h = go (m s) refl h
    where
      go :
          (r : Result (Unit {0}) × S)
          → m s ≡ r
          → elim r.0 [ ok a ↦ lift (ok b') r.1 | err e ↦ (err e, r.1) | panic ↦ (panic, r.1) ]
            ≡ (ok b, t)
          → (m s ≡ (ok tt, t)) × (b' ≡ b)
      go (ok u, s') e k =
          (e ∙ ap (λ x. (ok tt, x)) (ap (λ x. x.1) k), ok-injective (ap (λ x. x.0) k))
      go (err e', s') e k = absurd (cc)
      go (panic, s') e k = absurd (cc)

  -- Whatever holds of the state before a result is looked at, and after each way to go on, holds
  -- in the end.
  pub lift-ends {κ} :
      {A B : Type 0} (Q : S → Type κ) (r : Result A) (f : A → Action S B) (s : S)
      → Q s
      → ((a : A) → r ≡ ok a → Q (f a s).1)
      → Q (bind (lift r) f s).1
  lift-ends Q (ok a) f s h k = k a refl
  lift-ends Q (err e) f s h k = h
  lift-ends Q panic f s h k = h

-- A test that a successful call has passed.
pub guard-eq_ok {κ} :
    {B : Type κ} (b : Bool) (e : Error) (k : Result B) {r : B}
    → (ensure b e >> k) ≡ ok r
    → (b ≡ true) × (k ≡ ok r)
guard-eq_ok true e k h = (refl, h)
guard-eq_ok false e k h = absurd (cc)
