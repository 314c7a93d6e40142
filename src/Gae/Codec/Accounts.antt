-- ===== src/Gae/Codec/Accounts.antt =====
-- `accountCodec` of server/gae/gae_codec.go.
use mathlib.Core.Path.{subst}
use bitwrk.Base.{
  ℕ, ◌≡◌, refl, sym, ap, ◌∙◌, Bool, true, false, Option, none, some, List, [], ◌∷◌, ◌++◌, Str,
  Str-discrete, codes, str_eq, if◌then◌else◌, Result, ok, err, ◌>>=◌, unknown_property,
}
use bitwrk.Money.{btc, currency_string}
use bitwrk.Dao.{ParticipantAccount}
use bitwrk.Dao.Cached.{fresh_account}
use bitwrk.Gae.Store.{
  Keys, IsHonest, encoded, Property, int_value, string_value, time_value, key_value, indexed,
  unindexed, as_int, as_string, as_time, as_key, key_or_panic, must_decode, load_all, load_all-then,
}
use bitwrk.Gae.Codec.Numbers.{must_parse_currency, IsKnown, must_parse_currency-string}

-- `var account ParticipantAccount`
abbrev pub zero_account : ParticipantAccount
zero_account = fresh_account []

-- Whether a string is empty.
abbrev pub is_empty : Str → Bool
is_empty [] = true
is_empty (c ∷ s) = false

module _ (K : Keys) where
  -- The `switch` of `Load`.
  unfoldable pub load_account_property : Property K → ParticipantAccount → Result ParticipantAccount
  unfolding must_parse_currency
  load_account_property p a =
      if str_eq p.name (codes "Participant")
      then (do s ← as_string K p.value; ok (record a { participant = s }))
      else if str_eq p.name (codes "LastMovementKey")
      then (do s ← as_key K p.value; ok (record a { last_movement_key = some s }))
      else if str_eq p.name (codes "Currency")
      then (do s ← as_string K p.value; c ← must_parse_currency s; ok (record a { currency = c }))
      else if str_eq p.name (codes "Available")
      then (do n ← as_int K p.value; ok (record a { available_amount = n }))
      else if str_eq p.name (codes "Blocked")
      then (do n ← as_int K p.value; ok (record a { blocked_amount = n }))
      else if str_eq p.name (codes "DepositInfo")
      then (do s ← as_string K p.value; ok (record a { deposit_info = s }))
      else if str_eq p.name (codes "LastDepositInfo")
      then (do t ← as_time K p.value; ok (record a { last_deposit_info = t }))
      else if str_eq p.name (codes "DepositAddressRequest")
      then (do s ← as_string K p.value; ok (record a { deposit_address_request = s }))
      else err unknown_property

  -- `Load`
  unfoldable pub load_account : List (Property K) → ParticipantAccount → Result ParticipantAccount
  unfolding load_account_property load_all
  load_account ps a = load_all K load_account_property ps (record a { currency = btc })

  -- `LastMovementKey`, if there is one.
  abbrev pub last_movement_property : Option Str → Result (List (Property K))
  last_movement_property none = ok []
  last_movement_property (some s) =
      must_decode K s >>= λ k. ok (unindexed K (codes "LastMovementKey") (key_value k) ∷ [])

  abbrev pub account_body : ParticipantAccount → List (Property K)
  account_body a =
      indexed K (codes "Currency") (string_value (currency_string a.currency))
      ∷ unindexed K (codes "Available") (int_value a.available_amount)
      ∷ unindexed K (codes "Blocked") (int_value a.blocked_amount)
      ∷ []

  abbrev pub deposit_info_properties : Str → ℕ → List (Property K)
  deposit_info_properties info time =
      if is_empty info
      then []
      else indexed K (codes "DepositInfo") (string_value info)
        ∷ indexed K (codes "LastDepositInfo") (time_value time)
        ∷ []

  abbrev pub request_property : Str → List (Property K)
  request_property request =
      if is_empty request
      then []
      else indexed K (codes "DepositAddressRequest") (string_value request) ∷ []

  -- `Save`
  unfoldable pub save_account_properties : ParticipantAccount → Result (List (Property K))
  unfolding currency_string
  save_account_properties a = do
    last ← last_movement_property a.last_movement_key
    ok (
        indexed K (codes "Participant") (string_value a.participant)
        ∷ (last
            ++ (account_body a
                ++ (deposit_info_properties a.deposit_info a.last_deposit_info
                    ++ request_property a.deposit_address_request))))

  -- The time of deposit information is stored with the information only.
  abbrev pub IsTimed : Str → ℕ → Type 0
  IsTimed [] time = time ≡ 0
  IsTimed (c ∷ s) time = Unit

  abbrev last_list : Option K.Key → List (Property K)
  last_list none = []
  last_list (some k) = unindexed K (codes "LastMovementKey") (key_value k) ∷ []

  last_movement_property-encoded :
      (k : Option K.Key) → IsHonest K → last_movement_property (encoded K k) ≡ ok (last_list k)
  last_movement_property-encoded none honest = refl
  last_movement_property-encoded (some k) honest =
      ap
        (λ o.
          key_or_panic K o >>= λ k. ok (unindexed K (codes "LastMovementKey") (key_value k) ∷ []))
        (honest k)

  load-last :
      (k : Option K.Key) (a : ParticipantAccount)
      → load_all K load_account_property (last_list k) (record a { last_movement_key = none })
        ≡ ok (record a { last_movement_key = encoded K k })
  unfolding load_all load_account_property Str-discrete
  load-last none a = refl
  load-last (some k) a = refl

  load-body :
      (b a : ParticipantAccount)
      → IsKnown b.currency
      → load_all K load_account_property (account_body b) a
        ≡ ok (record a {
          currency = b.currency;
          available_amount = b.available_amount;
          blocked_amount = b.blocked_amount;
        })
  unfolding load_all load_account_property Str-discrete
  load-body b a known = rw (must_parse_currency-string b.currency known) refl

  load-info :
      (info : Str) (time : ℕ) (a : ParticipantAccount)
      → IsTimed info time
      → load_all K load_account_property
          (deposit_info_properties info time)
          (record a { deposit_info = []; last_deposit_info = 0 })
        ≡ ok (record a { deposit_info = info; last_deposit_info = time })
  unfolding load_all load_account_property Str-discrete
  load-info [] time a h = rw h refl
  load-info (c ∷ s) time a h = refl

  load-request :
      (request : Str) (a : ParticipantAccount)
      → load_all K load_account_property
          (request_property request)
          (record a { deposit_address_request = [] })
        ≡ ok (record a { deposit_address_request = request })
  unfolding load_all load_account_property Str-discrete
  load-request [] a = refl
  load-request (c ∷ s) a = refl

  load-participant :
      (p : Str) (a : ParticipantAccount)
      → load_all K load_account_property (indexed K (codes "Participant") (string_value p) ∷ []) a
        ≡ ok (record a { participant = p })
  unfolding load_all load_account_property Str-discrete
  load-participant p a = refl

  -- If keys are read back as they were written, then an account in a known currency, with the string
  -- of a key, if any, as its last movement, and without a time for missing deposit information, is
  -- saved, and loaded as the same account.
  pub load_account-save :
      (a : ParticipantAccount) (k : Option K.Key)
      → IsHonest K
      → IsKnown a.currency
      → IsTimed a.deposit_info a.last_deposit_info
      → a.last_movement_key ≡ encoded K k
      → (save_account_properties a >>= λ ps. load_account ps zero_account) ≡ ok a
  unfolding save_account_properties load_account
  load_account-save a k honest known timed ek =
      let a₁ = record zero_account { participant = a.participant } in
      let a₂ = record a₁ { last_movement_key = encoded K k } in
      let a₅ = record a { last_movement_key = encoded K k } in
      let a₄ = record a₅ { deposit_address_request = [] } in
      let a₃ = record a₄ { deposit_info = []; last_deposit_info = 0 } in
      let f = load_account_property in
      subst (λ x. (save_account_properties x >>= λ ps. load_account ps zero_account) ≡ ok x)
        (ap (λ x. record a { last_movement_key = x }) (sym ek))
        (rw (last_movement_property-encoded k honest) (
          load_all-then K f (indexed K (codes "Participant") (string_value a.participant) ∷ []) _
            zero_account (load-participant a.participant zero_account)
          ∙ load_all-then K f (last_list k) _ a₁ (load-last k a₁)
          ∙ load_all-then K f (account_body a₅) _ a₂ (load-body a₅ a₂ known)
          ∙ load_all-then K f (deposit_info_properties a.deposit_info a.last_deposit_info) _ a₃
              (load-info a.deposit_info a.last_deposit_info a₃ timed)
          ∙ load-request a.deposit_address_request a₄))
