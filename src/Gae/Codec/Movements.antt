-- ===== src/Gae/Codec/Movements.antt =====
-- `movementCodec` of server/gae/gae_codec.go.
pub mod Whole
pub mod Loaded
use bitwrk.Base.{
  ℕ, ◌≡◌, refl, Bool, true, false, not, ◌||◌, Option, none, some, List, [], ◌∷◌, ◌++◌, Str, codes,
  str_eq, if◌then◌else◌, Error, Result, ok, err, panic, ◌>>=◌, unknown_property,
}
use bitwrk.Int.{pos}
use bitwrk.Money.{Currency, btc, currency_eq, currency_string, Money, money}
use bitwrk.Dao.{AccountMovement, AccountMovementType}
use bitwrk.Gae.Store.{
  Keys, Value, Property, int_value, string_value, time_value, key_value, indexed, unindexed, as_int,
  as_string, as_time, as_key, must_decode, load_all,
}
use bitwrk.Gae.Codec.Numbers.{movement_type_number, movement_type_of, must_parse_currency}
use bitwrk.Gae.Codec.Accounts.{is_empty}

abbrev pub load_movement_currency : Currency → AccountMovement → AccountMovement
load_movement_currency c m = record m {
  available_delta = money m.available_delta.amount c;
  blocked_delta = money m.blocked_delta.amount c;
  fee = money m.fee.amount c;
  world = money m.world.amount c;
}

-- The end of `Load`: without a blocked account of its own, a movement is within one account.
abbrev pub within_one_account : AccountMovement → AccountMovement
within_one_account m = record m {
  blocked_account = m.available_account;
  blocked_predecessor_key = m.available_predecessor_key;
}

abbrev pub complete : AccountMovement → AccountMovement
complete m = if is_empty m.blocked_account then within_one_account m else m

module _ (K : Keys) where
  -- `DepositUid(p.Value.(*datastore.Key))`
  abbrev as_deposit_uid : Value K → Result Str
  as_deposit_uid (key_value k) = ok (K.string_id k)
  as_deposit_uid _ = panic

  -- The `switch` of `Load`.
  unfoldable pub load_movement_property : Property K → AccountMovement → Result AccountMovement
  unfolding movement_type_of must_parse_currency
  load_movement_property p m =
      if str_eq p.name (codes "Timestamp")
      then (do t ← as_time K p.value; ok (record m { timestamp = t }))
      else if str_eq p.name (codes "Type")
      then (do n ← as_int K p.value; t ← movement_type_of n; ok (record m { movement_type = t }))
      else if str_eq p.name (codes "Currency")
      then (do s ← as_string K p.value; c ← must_parse_currency s; ok (load_movement_currency c m))
      else if str_eq p.name (codes "AvailableDelta")
      then (do
        n ← as_int K p.value
        ok (record m { available_delta = money n m.available_delta.currency }))
      else if str_eq p.name (codes "AvailableAccount")
      then (do s ← as_string K p.value; ok (record m { available_account = s }))
      else if str_eq p.name (codes "AvailablePredecessorKey")
      then (do s ← as_key K p.value; ok (record m { available_predecessor_key = some s }))
      else if str_eq p.name (codes "BlockedDelta")
      then (do
        n ← as_int K p.value
        ok (record m { blocked_delta = money n m.blocked_delta.currency }))
      else if str_eq p.name (codes "BlockedAccount")
      then (do s ← as_string K p.value; ok (record m { blocked_account = s }))
      else if str_eq p.name (codes "BlockedPredecessorKey")
      then (do s ← as_key K p.value; ok (record m { blocked_predecessor_key = some s }))
      else if str_eq p.name (codes "Fee")
      then (do n ← as_int K p.value; ok (record m { fee = money n m.fee.currency }))
      else if str_eq p.name (codes "World")
      then (do n ← as_int K p.value; ok (record m { world = money n m.world.currency }))
      else if str_eq p.name (codes "BidKey")
      then (do s ← as_key K p.value; ok (record m { bid_key = some s }))
      else if str_eq p.name (codes "TxKey")
      then (do s ← as_key K p.value; ok (record m { tx_key = some s }))
      else if str_eq p.name (codes "DepositKey")
      then (do s ← as_deposit_uid p.value; ok (record m { deposit_key = some s }))
      else if str_eq p.name (codes "WithdrawalKey")
      then panic
      else err unknown_property

  -- `Load`
  unfoldable pub load_movement : List (Property K) → AccountMovement → Result AccountMovement
  unfolding load_movement_property load_all
  load_movement ps m =
      load_all K load_movement_property ps (load_movement_currency btc m) >>= λ x. ok (complete x)

  abbrev pub movement_head : AccountMovement → List (Property K)
  movement_head m =
      indexed K (codes "Timestamp") (time_value m.timestamp)
      ∷ unindexed K (codes "Type") (int_value (movement_type_number m.movement_type))
      ∷ []

  abbrev pub currency_property : Currency → List (Property K)
  currency_property c =
      if currency_eq c btc
      then []
      else unindexed K (codes "Currency") (string_value (currency_string c)) ∷ []

  abbrev pub available_properties : AccountMovement → List (Property K)
  available_properties m =
      unindexed K (codes "AvailableDelta") (int_value m.available_delta.amount)
      ∷ unindexed K (codes "AvailableAccount") (string_value m.available_account)
      ∷ []

  -- The property of a key that may be missing.
  abbrev pub key_property : (Value K → Property K) → Option Str → Result (List (Property K))
  key_property make none = ok []
  key_property make (some s) = must_decode K s >>= λ k. ok (make (key_value k) ∷ [])

  abbrev pub blocked_delta_property : AccountMovement → List (Property K)
  blocked_delta_property m =
      unindexed K (codes "BlockedDelta") (int_value m.blocked_delta.amount) ∷ []

  abbrev pub blocked_account_property : AccountMovement → List (Property K)
  blocked_account_property m =
      unindexed K (codes "BlockedAccount") (string_value m.blocked_account) ∷ []

  -- A blocked account is stored if it is another one than the available.
  abbrev pub blocked_properties : AccountMovement → Result (List (Property K))
  blocked_properties m = if str_eq m.blocked_account m.available_account then ok [] else (do
    key ← key_property (unindexed K (codes "BlockedPredecessorKey")) m.blocked_predecessor_key
    ok (blocked_account_property m ++ key))

  abbrev pub fee_properties : AccountMovement → List (Property K)
  fee_properties m =
      unindexed K (codes "Fee") (int_value m.fee.amount)
      ∷ unindexed K (codes "World") (int_value m.world.amount)
      ∷ []

  abbrev pub deposit_property : Option Str → List (Property K)
  deposit_property none = []
  deposit_property (some uid) =
      unindexed K (codes "DepositKey") (key_value (K.new_key (codes "Deposit") uid 0 none)) ∷ []

  abbrev pub withdrawal_property : Option Str → Result (List (Property K))
  withdrawal_property none = ok []
  withdrawal_property (some s) = panic

  -- `Save`
  unfoldable pub save_movement_properties : AccountMovement → Result (List (Property K))
  unfolding movement_type_number currency_string
  save_movement_properties m = do
    available ←
        key_property (indexed K (codes "AvailablePredecessorKey")) m.available_predecessor_key
    blocked ← blocked_properties m
    bid ← key_property (unindexed K (codes "BidKey")) m.bid_key
    tx ← key_property (unindexed K (codes "TxKey")) m.tx_key
    withdrawal ← withdrawal_property m.withdrawal_key
    ok (
        movement_head m
        ++ (currency_property m.available_delta.currency
            ++ (available_properties m
                ++ (available
                    ++ (blocked_delta_property m
                        ++ (blocked
                            ++ (fee_properties m
                                ++ (bid
                                    ++ (tx
                                        ++ (deposit_property m.deposit_key ++ withdrawal))))))))))
