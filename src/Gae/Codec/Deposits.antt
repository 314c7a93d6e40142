-- ===== src/Gae/Codec/Deposits.antt =====
-- `depositCodec` of server/gae/gae_codec.go.
use bitwrk.Base.{
  ◌≡◌, refl, List, [], ◌∷◌, Str-discrete, codes, str_eq, if◌then◌else◌, Result, ok, err, ◌>>=◌,
  unknown_property,
}
use bitwrk.Money.{btc, currency_string, money}
use bitwrk.Dao.{Deposit}
use bitwrk.Gae.Store.{
  Keys, Property, int_value, string_value, time_value, indexed, unindexed, as_int, as_string,
  as_time, load_all,
}
use bitwrk.Gae.Codec.Numbers.{
  deposit_type_number, deposit_type_of, must_parse_currency, IsKnown, deposit_type_of-number,
  must_parse_currency-string,
}

module _ (K : Keys) where
  -- The `switch` of `Load`.
  unfoldable pub load_deposit_property : Property K → Deposit → Result Deposit
  unfolding deposit_type_of must_parse_currency
  load_deposit_property p x =
      if str_eq p.name (codes "Account")
      then (do s ← as_string K p.value; ok (record x { account = s }))
      else if str_eq p.name (codes "Amount")
      then (do n ← as_int K p.value; ok (record x { amount = money n x.amount.currency }))
      else if str_eq p.name (codes "Created")
      then (do t ← as_time K p.value; ok (record x { created = t }))
      else if str_eq p.name (codes "Currency")
      then (do
        s ← as_string K p.value
        c ← must_parse_currency s
        ok (record x { amount = money x.amount.amount c }))
      else if str_eq p.name (codes "Document")
      then (do s ← as_string K p.value; ok (record x { document = s }))
      else if str_eq p.name (codes "Reference")
      then (do s ← as_string K p.value; ok (record x { reference = s }))
      else if str_eq p.name (codes "Signature")
      then (do s ← as_string K p.value; ok (record x { signature = s }))
      else if str_eq p.name (codes "Type")
      then (do n ← as_int K p.value; t ← deposit_type_of n; ok (record x { deposit_type = t }))
      else err unknown_property

  -- `Load`
  unfoldable pub load_deposit : List (Property K) → Deposit → Result Deposit
  unfolding load_deposit_property load_all
  load_deposit ps x =
      load_all K load_deposit_property ps (record x { amount = money x.amount.amount btc })

  -- `Save`
  unfoldable pub save_deposit_properties : Deposit → List (Property K)
  unfolding deposit_type_number currency_string
  save_deposit_properties x =
      indexed K (codes "Account") (string_value x.account)
      ∷ indexed K (codes "Amount") (int_value x.amount.amount)
      ∷ indexed K (codes "Created") (time_value x.created)
      ∷ indexed K (codes "Currency") (string_value (currency_string x.amount.currency))
      ∷ unindexed K (codes "Document") (string_value x.document)
      ∷ unindexed K (codes "Reference") (string_value x.reference)
      ∷ unindexed K (codes "Signature") (string_value x.signature)
      ∷ indexed K (codes "Type") (int_value (deposit_type_number x.deposit_type))
      ∷ []

  -- A deposit in a known currency is loaded as it was saved, whatever the record held before.
  pub load_deposit-save :
      (x old : Deposit)
      → IsKnown x.amount.currency
      → load_deposit (save_deposit_properties x) old ≡ ok x
  unfolding load_deposit save_deposit_properties load_all load_deposit_property Str-discrete
  load_deposit-save x old known =
      rw (must_parse_currency-string x.amount.currency known, deposit_type_of-number x.deposit_type)
        refl
