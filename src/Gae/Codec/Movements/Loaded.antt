-- ===== src/Gae/Codec/Movements/Loaded.antt =====
-- About loading what `movementCodec` of server/gae/gae_codec.go saves.
use bitwrk.Base.{
  ◌≡◌, refl, ap, ◌||◌, Option, none, some, List, [], ◌∷◌, ◌++◌, Str, Str-discrete, codes, str_eq,
  if◌then◌else◌, ok, ◌>>=◌,
}
use bitwrk.Money.{Currency, btc, Currency-discrete, money}
use bitwrk.Dao.{AccountMovement}
use bitwrk.Gae.Store.{
  Keys, IsHonest, encoded, Value, Property, key_value, indexed, unindexed, key_or_panic, load_all,
}
use bitwrk.Gae.Codec.Numbers.{IsKnown, movement_type_of-number, must_parse_currency-string}
use bitwrk.Gae.Codec.Accounts.{is_empty}
use bitwrk.Gae.Codec.Movements.{
  load_movement_currency, within_one_account, load_movement_property, movement_head,
  currency_property, available_properties, key_property, blocked_delta_property,
  blocked_account_property, fee_properties, deposit_property,
}

-- What is kept of a movement: within one account there is one predecessor.
abbrev pub stored_form : AccountMovement → AccountMovement
stored_form m =
    if str_eq m.blocked_account m.available_account || is_empty m.blocked_account
    then within_one_account m
    else m

-- `StringID` reads back the name that a key was made of.
abbrev pub KeepsNames : Keys → Type 0
KeepsNames K = (kind name : Str) → K.string_id (K.new_key kind name 0 none) ≡ name

module _ (K : Keys) where
  abbrev pub key_list : (Value K → Property K) → Option K.Key → List (Property K)
  key_list make none = []
  key_list make (some k) = make (key_value k) ∷ []

  pub key_property-encoded :
      (make : Value K → Property K) (k : Option K.Key)
      → IsHonest K
      → key_property K make (encoded K k) ≡ ok (key_list make k)
  key_property-encoded make none honest = refl
  key_property-encoded make (some k) honest =
      ap (λ o. key_or_panic K o >>= λ k. ok (make (key_value k) ∷ [])) (honest k)

  pub load-head :
      (m a : AccountMovement)
      → load_all K (load_movement_property K) (movement_head K m) a
        ≡ ok (record a { timestamp = m.timestamp; movement_type = m.movement_type })
  unfolding load_all load_movement_property Str-discrete
  load-head m a = rw (movement_type_of-number m.movement_type) refl

  pub load-currency :
      (c : Currency) (a : AccountMovement)
      → IsKnown c
      → load_all K (load_movement_property K) (currency_property K c) (load_movement_currency btc a)
        ≡ ok (load_movement_currency c a)
  unfolding load_all load_movement_property Str-discrete Currency-discrete
  load-currency btc a h = refl
  load-currency c a h = rw (must_parse_currency-string c h) refl

  pub load-available :
      (m a : AccountMovement)
      → load_all K (load_movement_property K) (available_properties K m) a
        ≡ ok (record a {
          available_delta = money m.available_delta.amount a.available_delta.currency;
          available_account = m.available_account;
        })
  unfolding load_all load_movement_property Str-discrete
  load-available m a = refl

  pub load-available_key :
      (k : Option K.Key) (a : AccountMovement)
      → load_all K
          (load_movement_property K)
          (key_list (indexed K (codes "AvailablePredecessorKey")) k)
          (record a { available_predecessor_key = none })
        ≡ ok (record a { available_predecessor_key = encoded K k })
  unfolding load_all load_movement_property Str-discrete
  load-available_key none a = refl
  load-available_key (some k) a = refl

  pub load-blocked_delta :
      (m a : AccountMovement)
      → load_all K (load_movement_property K) (blocked_delta_property K m) a
        ≡ ok (record a { blocked_delta = money m.blocked_delta.amount a.blocked_delta.currency })
  unfolding load_all load_movement_property Str-discrete
  load-blocked_delta m a = refl

  pub load-blocked :
      (m a : AccountMovement) (k : Option K.Key)
      → load_all K
          (load_movement_property K)
          (blocked_account_property K m ++ key_list (unindexed K (codes "BlockedPredecessorKey")) k)
          (record a { blocked_predecessor_key = none })
        ≡ ok (record a {
          blocked_account = m.blocked_account;
          blocked_predecessor_key = encoded K k;
        })
  unfolding load_all load_movement_property Str-discrete
  load-blocked m a none = refl
  load-blocked m a (some k) = refl

  pub load-fee :
      (m a : AccountMovement)
      → load_all K (load_movement_property K) (fee_properties K m) a
        ≡ ok (record a {
          fee = money m.fee.amount a.fee.currency;
          world = money m.world.amount a.world.currency;
        })
  unfolding load_all load_movement_property Str-discrete
  load-fee m a = refl

  pub load-bid :
      (k : Option K.Key) (a : AccountMovement)
      → load_all K
          (load_movement_property K)
          (key_list (unindexed K (codes "BidKey")) k)
          (record a { bid_key = none })
        ≡ ok (record a { bid_key = encoded K k })
  unfolding load_all load_movement_property Str-discrete
  load-bid none a = refl
  load-bid (some k) a = refl

  pub load-tx :
      (k : Option K.Key) (a : AccountMovement)
      → load_all K
          (load_movement_property K)
          (key_list (unindexed K (codes "TxKey")) k)
          (record a { tx_key = none })
        ≡ ok (record a { tx_key = encoded K k })
  unfolding load_all load_movement_property Str-discrete
  load-tx none a = refl
  load-tx (some k) a = refl

  pub load-deposit :
      (uid : Option Str) (a : AccountMovement)
      → KeepsNames K
      → load_all K
          (load_movement_property K)
          (deposit_property K uid ++ [])
          (record a { deposit_key = none })
        ≡ ok (record a { deposit_key = uid })
  unfolding load_all load_movement_property Str-discrete
  load-deposit none a h = refl
  load-deposit (some uid) a h = rw (h (codes "Deposit") uid) refl
