-- ===== src/Deposit/Placement.antt =====
-- About `Deposit.Place` of common/bitwrk/deposit.go.
use bitwrk.Base.{
  ◌≡◌, refl, sym, ap, ◌∙◌, true, Bool-cases, Option-cases, none, some, List, Str, str_eq_iff,
  lookup, lookup-insert, if◌then◌else◌, inl, inr, ◌⊎◌, arith, Error, Result, ok, ok-injective, err,
  panic, no_such_object, different_deposit, bind-eq_ok,
}
use bitwrk.Int.{ℤ, pos, ◌+ℤ◌, eqb_ℤ, int_laws}
use bitwrk.Int64.{IsInt64}
use bitwrk.Money.{Currency, neg}
use bitwrk.Money.Arithmetic.{neg-IsInt64, currency_eq_refl}
use bitwrk.Dao.{Dao, Accounts, Deposit, DepositType, injection, bitcoin}
use bitwrk.Dao.Cached.{Cache, cached_dao, get_deposit, save_deposit, receive_deposit}
use bitwrk.Account.Validate.{in_currency}
use bitwrk.Account.Total.{contains, Distinct, total-ext}
use bitwrk.Account.Apply.{worth}
use bitwrk.Account.Conserve.{AllValid, holdings, place_movement_lem}
use bitwrk.Account.Place.{place_account_movement, new_movement}
use bitwrk.Bid.Accounting.{zero_money}
use bitwrk.Bid.Accounting.Conserve.{in_currency-zero}
use bitwrk.Deposit.{deposit_equals, same_type, placement_type, credit, place_after, place_deposit}

panic≢ok : {A : Type 0} {a : A} → ◌≡◌ {A = Result A} panic (ok a) → ⊥
panic≢ok h = cc

err≢ok : {A : Type 0} {a : A} {e : Error} → ◌≡◌ {A = Result A} (err e) (ok a) → ⊥
err≢ok h = cc

eqb_refl : (a : ℤ) → eqb_ℤ a a ≡ true
eqb_refl a = ground arith

same_type_refl : (a : DepositType) → same_type a a ≡ true
same_type_refl injection = refl
same_type_refl bitcoin = refl

deposit_equals_refl : (x : Deposit) → deposit_equals x x ≡ true
unfolding deposit_equals
deposit_equals_refl x =
    rw
      (
        (str_eq_iff x.account x.account).1 refl,
        eqb_refl x.amount.amount,
        currency_eq_refl x.amount.currency,
        (str_eq_iff x.reference x.reference).1 refl,
      )
      (same_type_refl x.deposit_type)

-- After a successful placement, a deposit that equals the placed one is stored under the uid.
module _ (d : Dao) where
  abbrev Stored : Deposit → Str → Cache d → Type 0
  Stored x uid c =
      (previous : Deposit) × (lookup uid c.deposits ≡ some previous)
      × (deposit_equals previous x ≡ true)

  place_after-Stored :
      (x : Deposit) (uid : Str) (r : Result Deposit) (c t : Cache d)
      → ((previous : Deposit) → r ≡ ok previous → lookup uid c.deposits ≡ some previous)
      → place_after (cached_dao d) x uid r c ≡ (ok tt, t)
      → Stored x uid t
  unfolding place_after save_deposit
  place_after-Stored x uid (ok previous) c t here h =
      elim (Bool-cases (deposit_equals previous x)) [
        | inl y ↦
            let same : c ≡ t = ap (λ z. z.1) h in
            (previous, ap (λ z. lookup uid z.deposits) (sym same) ∙ here previous refl, y)
        | inr n ↦ absurd (err≢ok (rw n at (ap (λ z. z.0) h)))
      ]
  place_after-Stored x uid (err no_such_object) c t here h =
      let (u, c₁, e₁, h₁) =
        bind-eq_ok (credit (cached_dao d) x uid) (λ _. save_deposit d uid x) c h in
      (
        x,
        ap (λ z. lookup uid z.1.deposits) (sym h₁)
            ∙ lookup-insert uid uid x c₁.deposits
            ∙ ap (λ b. if b then some x else lookup uid c₁.deposits) ((str_eq_iff uid uid).1 refl),
        deposit_equals_refl x,
      )
  place_after-Stored x uid (err _) c t here h = absurd (cc)
  place_after-Stored x uid panic c t here h = absurd (cc)

  receive_deposit-here :
      (uid : Str) (r : Result Deposit) (c : Cache d) (previous : Deposit)
      → (receive_deposit d uid r c).0 ≡ ok previous
      → lookup uid (receive_deposit d uid r c).1.deposits ≡ some previous
  unfolding receive_deposit
  receive_deposit-here uid (ok x) c previous h =
      lookup-insert uid uid x c.deposits
      ∙ ap (λ b. if b then some x else lookup uid c.deposits) ((str_eq_iff uid uid).1 refl)
      ∙ ap some (ok-injective h)
  receive_deposit-here uid (err e) c previous h = absurd (err≢ok h)
  receive_deposit-here uid panic c previous h = absurd (panic≢ok h)

  -- A deposit that was found is cached.
  get_deposit-here :
      (uid : Str) (c : Cache d) (previous : Deposit)
      → (get_deposit d uid c).0 ≡ ok previous
      → lookup uid (get_deposit d uid c).1.deposits ≡ some previous
  unfolding get_deposit
  get_deposit-here uid c previous h = elim (Option-cases (lookup uid c.deposits)) [
    | inr (x, e) ↦
        let h' : ok x ≡ ok previous = rw (e, get_deposit) at h in
        rw (e, get_deposit) (e ∙ ap some (ok-injective h'))
    | inl e ↦
        rw (e, get_deposit)
          (receive_deposit-here uid (d.get_deposit uid c.delegate).0 _ previous
            (rw (e, get_deposit) at h))
  ]

  -- Placing a deposit is idempotent: if it succeeds through the cache, then placing it again
  -- succeeds and changes nothing.
  pub place_deposit-idempotent :
      (x : Deposit) (uid : Str) (c t : Cache d)
      → place_deposit (cached_dao d) x uid c ≡ (ok tt, t)
      → place_deposit (cached_dao d) x uid t ≡ (ok tt, t)
  unfolding place_deposit place_after get_deposit
  place_deposit-idempotent x uid c t h =
      let (previous, e, equal) =
        place_after-Stored x uid (get_deposit d uid c).0 (get_deposit d uid c).1 t
          (get_deposit-here uid c) h in
      let found : get_deposit d uid t ≡ (ok previous, t) = rw (e, get_deposit) in
      ap (λ y. place_after (cached_dao d) x uid y.0 y.1) found
      ∙ ap (λ b. ((if b then ok tt else err different_deposit), t)) equal

-- What a deposit does to the accounts.
module _ (d : Dao) (acc : Accounts d) (c : Currency) (ps : List Str) where
  views-Same :
      (s t : d.State)
      → AllValid d acc s
      → acc.IsConsistent t × ((q : Str) → acc.view t q ≡ acc.view s q)
      → acc.IsConsistent t × AllValid d acc t × (holdings d acc c t ps ≡ holdings d acc c s ps)
  views-Same s t v (i, same) = (
    i,
    λ q. rw (same q) (v q),
    total-ext (λ q. worth c (acc.view t q)) (λ q. worth c (acc.view s q)) ps
        (λ q. ap (worth c) (same q)),
  )

  plus_zero : (a b z : ℤ) → z ≡ pos 0 → a +ℤ b +ℤ z ≡ a +ℤ b
  plus_zero a b z e = rw e (omega int_laws)

  -- What the placement leaves, by what was found under the uid.
  abbrev pub Placed : Deposit → Result Deposit → d.State → d.State → Type 0
  Placed x r s t =
      ((previous : Deposit) × (r ≡ ok previous)
        × (deposit_equals previous x ≡ true)
        × (holdings d acc c t ps ≡ holdings d acc c s ps))
      ⊎ ((r ≡ err no_such_object)
          × (holdings d acc c t ps ≡ holdings d acc c s ps +ℤ in_currency c x.amount))

  credit-holdings :
      (x : Deposit) (uid : Str) (s t : d.State)
      → Distinct ps
      → contains x.account ps ≡ true
      → acc.IsConsistent s
      → AllValid d acc s
      → IsInt64 x.amount.amount
      → credit d x uid s ≡ (ok tt, t)
      → acc.IsConsistent t
        × AllValid d acc t
        × (holdings d acc c t ps ≡ holdings d acc c s ps +ℤ in_currency c x.amount)
  unfolding place_account_movement new_movement
  credit-holdings x uid s t u k i v ints h =
      let (validated, i', v', moved) =
        place_movement_lem d acc
          (new_movement x.created (placement_type x) x.account x.account x.amount
            (zero_money x.amount) (zero_money x.amount) (neg x.amount) none none (some uid) none)
          s t i v (ints, omega arith, omega arith, neg-IsInt64 x.amount) h in
      (
        i',
        v',
        moved c ps u k k
            ∙ plus_zero (holdings d acc c s ps) (in_currency c x.amount) _
                (in_currency-zero c x.amount),
      )

  place_after-Placed :
      (x : Deposit) (uid : Str) (r : Result Deposit) (s t : d.State)
      → Distinct ps
      → contains x.account ps ≡ true
      → acc.IsConsistent s
      → AllValid d acc s
      → IsInt64 x.amount.amount
      → place_after d x uid r s ≡ (ok tt, t)
      → acc.IsConsistent t × AllValid d acc t × Placed x r s t
  unfolding place_after
  place_after-Placed x uid (ok previous) s t u k i v ints h =
      elim (Bool-cases (deposit_equals previous x)) [
        | inl y ↦
            let same : s ≡ t = ap (λ z. z.1) h in rw (← same) (i, v, inl (previous, refl, y, refl))
        | inr n ↦ absurd (err≢ok (rw n at (ap (λ z. z.0) h)))
      ]
  place_after-Placed x uid (err no_such_object) s t u k i v ints h =
      let (w, s₁, e₁, h₁) = bind-eq_ok (credit d x uid) (λ _. d.save_deposit uid x) s h in
      let (i₁, v₁, grown) = credit-holdings x uid s s₁ u k i v ints e₁ in
      let (i₂, v₂, same) = views-Same s₁ t v₁ (acc.save_deposit_lem uid x s₁ t i₁ h₁) in
      (i₂, v₂, inr (refl, same ∙ grown))
  place_after-Placed x uid (err _) s t u k i v ints h = absurd (cc)
  place_after-Placed x uid panic s t u k i v ints h = absurd (cc)

  -- On consistent and valid accounts, if a deposit of an int64 amount is placed, then the accounts are
  -- consistent and valid again; either an equal deposit was found under the uid, and participants
  -- that include the account's owner hold in a currency what they held before, or no deposit was
  -- found, and they hold the deposit's amount more.
  pub place_deposit-Placed :
      (x : Deposit) (uid : Str) (s t : d.State)
      → Distinct ps
      → contains x.account ps ≡ true
      → acc.IsConsistent s
      → AllValid d acc s
      → IsInt64 x.amount.amount
      → place_deposit d x uid s ≡ (ok tt, t)
      → acc.IsConsistent t × AllValid d acc t × Placed x (d.get_deposit uid s).0 s t
  unfolding place_deposit
  place_deposit-Placed x uid s t u k i v ints h =
      let (r, s₀) = d.get_deposit uid s in
      let (i₀, v₀, same) = views-Same s s₀ v (acc.get_deposit_lem uid s s₀ r i refl) in
      let (i', v', placed) = place_after-Placed x uid r s₀ t u k i₀ v₀ ints h in
      (i', v', rw (← same) placed)
