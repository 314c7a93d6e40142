-- ===== src/Gae/Codec/Transactions.antt =====
-- `txCodec` of server/gae/gae_codec.go.
pub mod Loaded
use bitwrk.Base.{
  ℕ, zero, suc, ◌≡◌, refl, ap, Bool, true, false, Option, none, some, List, [], ◌∷◌, ◌++◌, Str,
  codes, str_eq, length, arith, if◌then◌else◌, Error, Result, ok, err, panic, ◌>>=◌,
  unknown_property, bad_url,
}
use bitwrk.Int.{pos}
use bitwrk.Money.{Currency, btc, currency_string, Money, money}
use bitwrk.Transaction.{Transaction, TxPhase, establishing, TxState, active, Receipt}
use bitwrk.Transaction.Handlers.{Runtime}
use bitwrk.Gae.Store.{
  Keys, Value, Property, int_value, string_value, time_value, bytes_value, key_value, indexed,
  unindexed, as_int, as_string, as_time, as_bytes, as_key, must_decode, load_all,
}
use bitwrk.Gae.Codec.Numbers.{
  tx_state_number, tx_state_of, phase_number, phase_of, must_parse_currency,
}

-- The zero value of an array of bytes.
unfoldable pub zeros : ℕ → Str
zeros zero = []
zeros (suc n) = 0 ∷ zeros n

-- `copy(array[:], bytes)`: what the bytes do not reach stays.
unfoldable pub copy_into : Str → Str → Str
copy_into [] b = []
copy_into (a ∷ rest) [] = a ∷ rest
copy_into (a ∷ rest) (b ∷ bs) = b ∷ copy_into rest bs

-- `new(Treceipt)`, unless there is one.
abbrev pub receipt_or_new : Option Receipt → Receipt
receipt_or_new none = record { hash = zeros 32; hash_signature = zeros 65 }
receipt_or_new (some c) = c

-- `var tx Transaction`
abbrev pub zero_tx : Transaction
zero_tx = record {
  revision = pos 0;
  buyer_bid = [];
  seller_bid = [];
  buyer = [];
  seller = [];
  article = [];
  price = money (pos 0) btc;
  fee = money (pos 0) btc;
  matched_at = 0;
  state = active;
  phase = establishing;
  timeout = 0;
  worker_url = none;
  work_hash = none;
  work_secret_hash = none;
  buyer_secret = none;
  encrypted_result_receipt = none;
  result_decryption_key = none;
}

abbrev pub load_tx_currency : Currency → Transaction → Transaction
load_tx_currency c tx = record tx { price = money tx.price.amount c; fee = money tx.fee.amount c }

module _ (K : Keys) (r : Runtime) where
  -- The `switch` of `Load`.
  unfoldable pub load_tx_property : Property K → Transaction → Result Transaction
  unfolding tx_state_of phase_of must_parse_currency zeros copy_into
  load_tx_property p tx =
      if str_eq p.name (codes "Revision")
      then (do n ← as_int K p.value; ok (record tx { revision = n }))
      else if str_eq p.name (codes "BuyerBid")
      then (do s ← as_key K p.value; ok (record tx { buyer_bid = s }))
      else if str_eq p.name (codes "SellerBid")
      then (do s ← as_key K p.value; ok (record tx { seller_bid = s }))
      else if str_eq p.name (codes "Buyer")
      then (do s ← as_string K p.value; ok (record tx { buyer = s }))
      else if str_eq p.name (codes "Seller")
      then (do s ← as_string K p.value; ok (record tx { seller = s }))
      else if str_eq p.name (codes "Article")
      then (do s ← as_string K p.value; ok (record tx { article = s }))
      else if str_eq p.name (codes "Currency")
      then (do s ← as_string K p.value; c ← must_parse_currency s; ok (load_tx_currency c tx))
      else if str_eq p.name (codes "Price")
      then (do n ← as_int K p.value; ok (record tx { price = money n tx.price.currency }))
      else if str_eq p.name (codes "Fee")
      then (do n ← as_int K p.value; ok (record tx { fee = money n tx.fee.currency }))
      else if str_eq p.name (codes "Matched")
      then (do t ← as_time K p.value; ok (record tx { matched_at = t }))
      else if str_eq p.name (codes "State")
      then (do n ← as_int K p.value; s ← tx_state_of n; ok (record tx { state = s }))
      else if str_eq p.name (codes "Phase")
      then (do n ← as_int K p.value; q ← phase_of n; ok (record tx { phase = q }))
      else if str_eq p.name (codes "Timeout")
      then (do t ← as_time K p.value; ok (record tx { timeout = t }))
      else if str_eq p.name (codes "WorkerURL")
      then (do
        u ← as_string K p.value
        if r.parse_request_uri u then ok (record tx { worker_url = some u }) else err bad_url)
      else if str_eq p.name (codes "WorkHash")
      then (do b ← as_bytes K p.value; ok (record tx { work_hash = some (copy_into (zeros 32) b) }))
      else if str_eq p.name (codes "WorkSecretHash")
      then (do
        b ← as_bytes K p.value
        ok (record tx { work_secret_hash = some (copy_into (zeros 32) b) }))
      else if str_eq p.name (codes "BuyerSecret")
      then (do
        b ← as_bytes K p.value
        ok (record tx { buyer_secret = some (copy_into (zeros 32) b) }))
      else if str_eq p.name (codes "EncryptedResultHash")
      then (do
        b ← as_bytes K p.value
        let c = receipt_or_new tx.encrypted_result_receipt
        ok (record tx { encrypted_result_receipt = some (record c { hash = copy_into c.hash b }) }))
      else if str_eq p.name (codes "EncryptedResultHashSignature")
      then (do
        b ← as_bytes K p.value
        let c = receipt_or_new tx.encrypted_result_receipt
        ok (record tx {
          encrypted_result_receipt =
              some (record c { hash_signature = copy_into c.hash_signature b });
        }))
      else if str_eq p.name (codes "ResultDecryptionKey")
      then (do
        b ← as_bytes K p.value
        ok (record tx { result_decryption_key = some (copy_into (zeros 32) b) }))
      else err unknown_property

  -- `Load`
  unfoldable pub load_tx : List (Property K) → Transaction → Result Transaction
  unfolding load_tx_property load_all
  load_tx ps tx = load_all K load_tx_property ps (load_tx_currency btc tx)

  -- The properties that `Save` always writes, and those that it may leave out.
  abbrev pub tx_head : K.Key → K.Key → Transaction → List (Property K)
  tx_head buyer_bid seller_bid tx =
      unindexed K (codes "Revision") (int_value tx.revision)
      ∷ unindexed K (codes "BuyerBid") (key_value buyer_bid)
      ∷ unindexed K (codes "SellerBid") (key_value seller_bid)
      ∷ unindexed K (codes "Buyer") (string_value tx.buyer)
      ∷ unindexed K (codes "Seller") (string_value tx.seller)
      ∷ indexed K (codes "Article") (string_value tx.article)
      ∷ indexed K (codes "Currency") (string_value (currency_string tx.price.currency))
      ∷ unindexed K (codes "Price") (int_value tx.price.amount)
      ∷ unindexed K (codes "Fee") (int_value tx.fee.amount)
      ∷ indexed K (codes "Matched") (time_value tx.matched_at)
      ∷ unindexed K (codes "State") (int_value (tx_state_number tx.state))
      ∷ unindexed K (codes "Phase") (int_value (phase_number tx.phase))
      ∷ unindexed K (codes "Timeout") (time_value tx.timeout)
      ∷ []

  abbrev pub url_property : Option Str → List (Property K)
  url_property none = []
  url_property (some u) = unindexed K (codes "WorkerURL") (string_value u) ∷ []

  abbrev pub hash_property : Str → Option Str → List (Property K)
  hash_property name none = []
  hash_property name (some b) = unindexed K name (bytes_value b) ∷ []

  -- A receipt is stored with the key, whose pointer is followed, and a key only with a receipt.
  abbrev pub receipt_properties : Option Receipt → Option Str → Result (List (Property K))
  receipt_properties none key = ok []
  receipt_properties (some c) none = panic
  receipt_properties (some c) (some key) = ok (
      unindexed K (codes "EncryptedResultHash") (bytes_value c.hash)
      ∷ unindexed K (codes "EncryptedResultHashSignature") (bytes_value c.hash_signature)
      ∷ unindexed K (codes "ResultDecryptionKey") (bytes_value key)
      ∷ [])

  -- `Save`
  unfoldable pub save_tx : Transaction → Result (List (Property K))
  unfolding tx_state_number phase_number currency_string
  save_tx tx = do
    buyer_bid ← must_decode K tx.buyer_bid
    seller_bid ← must_decode K tx.seller_bid
    sealed ← receipt_properties tx.encrypted_result_receipt tx.result_decryption_key
    ok (
        tx_head buyer_bid seller_bid tx
        ++ (url_property tx.worker_url
            ++ (hash_property (codes "WorkHash") tx.work_hash
                ++ (hash_property (codes "WorkSecretHash") tx.work_secret_hash
                    ++ (hash_property (codes "BuyerSecret") tx.buyer_secret ++ sealed)))))
