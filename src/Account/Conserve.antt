-- ===== src/Account/Conserve.antt =====
-- About `PlaceAccountMovement` of common/bitwrk/account.go and the money in the accounts.
use bitwrk.Base.{
  ℕ, ◌≡◌, refl, ap, ◌∙◌, Bool, true, false, Bool-cases, Option, some, List, Str, str_eq, str_eq_iff,
  if◌then◌else◌, inl, inr, arith, ok, bind-eq_ok, lift-eq_ok, return-eq_ok,
}
use bitwrk.Int.{ℤ, pos_part, neg_part, ◌+ℤ◌, int_laws}
use bitwrk.Int64.{IsInt64}
use bitwrk.Money.{Currency, Money}
use bitwrk.Dao.{Dao, Accounts, ParticipantAccount, AccountMovement, AccountMovementType}
use bitwrk.Account.{Part, available, blocked, apply, validate}
use bitwrk.Account.Validate.{HasInt64Amounts, in_currency, validate_balances}
use bitwrk.Account.Apply.{IsValid, worth, apply_lem}
use bitwrk.Account.Place.{
  post, save_posted, apply_delta, save_placed, post_blocked, post_both, place_valid, new_movement,
  place_movement, place_account_movement,
}
use bitwrk.Account.Total.{total, contains, Distinct, total-ext, total-change}

IsValid-if :
    (b : Bool) {x y : ParticipantAccount} → IsValid x → IsValid y → IsValid (if b then x else y)
IsValid-if true vx vy = vx
IsValid-if false vx vy = vy

-- The key of the last movement counts neither for the validity nor for the worth of an account.
IsValid-key :
    (a : ParticipantAccount) (key : Str)
    → IsValid a
    → IsValid (record a { last_movement_key = some key })
IsValid-key a key v = ground (arith, v)

worth-key :
    (c : Currency) (a : ParticipantAccount) (key : Str)
    → worth c (record a { last_movement_key = some key }) ≡ worth c a
unfolding worth
worth-key c a key = refl

worth-if :
    (c : Currency) (key q p : Str) (a : ParticipantAccount) (old : Str → ParticipantAccount) (g : ℤ)
    → a.participant ≡ p
    → worth c a ≡ worth c (old p) +ℤ g
    → worth c (if str_eq q a.participant then record a { last_movement_key = some key } else old q)
      ≡ (if str_eq q p then worth c (old q) +ℤ g else worth c (old q))
worth-if c key q p a old g owner gain = elim (Bool-cases (str_eq q p)) [
  | inl e ↦
      let e' : str_eq q a.participant ≡ true = ap (str_eq q) owner ∙ e in
      rw (e', e, worth-key c a key, gain) (rw ((str_eq_iff q p).0 e))
  | inr e ↦ let e' : str_eq q a.participant ≡ false = ap (str_eq q) owner ∙ e in rw (e', e)
]

module _ (d : Dao) (acc : Accounts d) where
  open acc use {IsConsistent, view}

  -- Every account is valid.
  abbrev pub AllValid : d.State → Type 0
  AllValid s = (p : Str) → IsValid (view s p)

  -- The money in the accounts of some participants.
  abbrev pub holdings : Currency → d.State → List Str → ℤ
  holdings c s ps = total (λ p. worth c (view s p)) ps

  -- The accounts that `post` leaves: the one posted to, with the delta applied.
  pub post-view :
      (part : Part) (p : Str) (delta : Money) (key : Str) (s t : d.State) {r : Option Str}
      → IsConsistent s
      → post d part p delta key s ≡ (ok r, t)
      → IsConsistent t
        × ((a : ParticipantAccount) × (apply part delta (view s p) ≡ ok a)
            × ((q : Str)
                → view t q ≡ (
                    if str_eq q a.participant
                    then record a { last_movement_key = some key }
                    else view s q)))
  unfolding post
  post-view part p delta key s t i h =
      let (account, s₁, e₁, h₁) = bind-eq_ok (d.get_account p) (apply_delta d part delta key) s h in
      let (applied, e₂, h₂) =
        lift-eq_ok (apply part delta account) (save_posted d account key) s₁ h₁ in
      let saved : ParticipantAccount = record applied { last_movement_key = some key } in
      let (e₃, _) = return-eq_ok (d.save_account saved) account.last_movement_key s₁ h₂ in
      let (found, i₁, v₁) = acc.get_account_lem p s s₁ account i e₁ in
      let (i₃, v₃) = acc.save_account_lem saved s₁ t i₁ e₃ in
      (i₃, (applied, rw (← found) e₂, λ q. rw (v₃ q, v₁ q)))

  -- What one posting does to a state whose accounts are all valid.
  pub record Posted (p : Str) (delta : Money) (s t : d.State) : Type 0 where
    pub consistent : IsConsistent t
    pub valid : AllValid t
    pub change :
        (c : Currency) (ps : List Str)
        → Distinct ps
        → contains p ps ≡ true
        → holdings c t ps ≡ holdings c s ps +ℤ in_currency c delta

  pub post-Posted :
      (part : Part) (p : Str) (delta : Money) (key : Str) (s t : d.State) {r : Option Str}
      → IsConsistent s
      → AllValid s
      → IsInt64 delta.amount
      → post d part p delta key s ≡ (ok r, t)
      → Posted p delta s t
  post-Posted part p delta key s t i v fits h =
      let (i', (a, e, look)) = post-view part p delta key s t i h in
      let (valid_a, owner, gain) = apply_lem part delta (view s p) a (v p) fits e in
      let at_p : a.participant ≡ p = owner ∙ acc.view-participant s p i in
      record {
        consistent = i';
        valid = λ q.
            rw (look q) (IsValid-if (str_eq q a.participant) (IsValid-key a key valid_a) (v q));
        change = λ c ps u k.
            total-change (λ q. worth c (view t q)) (λ q. worth c (view s q)) p (in_currency c delta)
              ps
              (λ q. rw (look q) (worth-if c key q p a (view s) (in_currency c delta) at_p (gain c)))
              u k;
      }

  -- What the last step leaves, which writes the movement.
  save-Posted :
      (p : Str) (delta : Money) (m : AccountMovement) (s t t' : d.State)
      → Posted p delta s t
      → d.save_movement m t ≡ (ok tt, t')
      → Posted p delta s t'
  save-Posted p delta m s t t' h e =
      let (i, look) = acc.save_movement_lem m t t' h.consistent e in
      record {
        consistent = i;
        valid = λ q. rw (look q) (h.valid q);
        change = λ c ps u k.
            total-ext (λ q. worth c (view t' q)) (λ q. worth c (view t q)) ps (λ q. rw (look q))
            ∙ h.change c ps u k;
      }

  -- A new key changes no account.
  pub key-Same :
      (p k : Str) (s t : d.State)
      → IsConsistent s
      → AllValid s
      → d.new_account_movement_key p s ≡ (ok k, t)
      → IsConsistent t
        × AllValid t
        × ((c : Currency) (ps : List Str) → holdings c t ps ≡ holdings c s ps)
  key-Same p k s t i v e =
      let (i', look) = acc.new_key_lem p k s t i e in
      (
        i',
        λ q. rw (look q) (v q),
        λ c ps. total-ext (λ q. worth c (view t q)) (λ q. worth c (view s q)) ps (λ q. rw (look q)),
      )

  -- If a movement is placed, then every account is valid again, and in each currency the money of
  -- any accounts that include the two concerned has changed by the two deltas exactly.
  pub place_movement_lem :
      (m : AccountMovement) (s t : d.State)
      → IsConsistent s
      → AllValid s
      → HasInt64Amounts m
      → place_movement d m s ≡ (ok tt, t)
      → (validate m ≡ ok tt)
        × IsConsistent t
        × AllValid t
        × ((c : Currency) (ps : List Str)
            → Distinct ps
            → contains m.available_account ps ≡ true
            → contains m.blocked_account ps ≡ true
            → holdings c t ps
              ≡ holdings c s ps +ℤ in_currency c m.available_delta +ℤ in_currency c m.blocked_delta)
  unfolding place_movement
  place_movement_lem m s t i v (ia, ib, jf, iw) h =
      let (u, e₀, h₀) = lift-eq_ok (validate m) (place_valid d m) s h in
      let (key, s₁, e₁, h₁) =
        bind-eq_ok (d.new_account_movement_key m.available_account) (post_both d m) s h₀ in
      let (i₁, v₁, same) = key-Same m.available_account key s s₁ i v e₁ in
      let (r₂, s₂, e₂, h₂) =
        bind-eq_ok (post d available m.available_account m.available_delta key)
          (post_blocked d m key) s₁ h₁ in
      let p₂ = post-Posted available m.available_account m.available_delta key s₁ s₂ i₁ v₁ ia e₂ in
      let (r₃, s₃, e₃, h₃) =
        bind-eq_ok (post d blocked m.blocked_account m.blocked_delta key) (save_placed d m key r₂)
          s₂ h₂ in
      let p₃ =
        save-Posted m.blocked_account m.blocked_delta _ s₂ s₃ t
          (post-Posted blocked m.blocked_account m.blocked_delta key s₂ s₃ p₂.consistent p₂.valid ib
            e₃)
          h₃ in
      (
        e₀,
        p₃.consistent,
        p₃.valid,
        λ c ps u ka kb. rw (p₃.change c ps u kb, p₂.change c ps u ka, same c ps),
      )

  -- If `PlaceAccountMovement` succeeds with int64 amounts, then every account is valid again, and in
  -- each currency the accounts of any participants that include the two concerned, the fee and the
  -- world's share together hold exactly what the accounts held before.
  pub place_account_movement_conserves :
      (now : ℕ) (m_type : AccountMovementType) (a_name b_name : Str)
      (available_delta blocked_delta fee world : Money)
      (bid_key tx_key deposit_key withdrawal_key : Option Str) (s t : d.State)
      → IsConsistent s
      → AllValid s
      → IsInt64 available_delta.amount
        × IsInt64 blocked_delta.amount
        × IsInt64 fee.amount
        × IsInt64 world.amount
      → place_account_movement d now m_type a_name b_name available_delta blocked_delta fee world
          bid_key tx_key deposit_key withdrawal_key s
        ≡ (ok tt, t)
      → IsConsistent t
        × AllValid t
        × ((c : Currency) (ps : List Str)
            → Distinct ps
            → contains a_name ps ≡ true
            → contains b_name ps ≡ true
            → holdings c t ps +ℤ (in_currency c fee +ℤ in_currency c world) ≡ holdings c s ps)
  unfolding place_account_movement new_movement
  place_account_movement_conserves now m_type a_name b_name ad bd fee world bid_key tx_key
        deposit_key withdrawal_key s t i v ints h =
      let m =
        new_movement now m_type a_name b_name ad bd fee world bid_key tx_key deposit_key
          withdrawal_key in
      let (validated, i', v', moved) = place_movement_lem m s t i v ints h in
      (
        i',
        v',
        λ c ps u ka kb. omega (
          int_laws,
          ap pos_part (moved c ps u ka kb),
          ap neg_part (moved c ps u ka kb),
          ap pos_part (validate_balances m c ints validated),
          ap neg_part (validate_balances m c ints validated),
        ),
      )
