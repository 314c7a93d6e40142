-- ===== src/Gae/Codec/Transactions/Loaded.antt =====
-- About loading what `txCodec` of server/gae/gae_codec.go saves.
use mathlib.Core.Path.{subst}
use bitwrk.Base.{
  ℕ, zero, suc, ◌≡◌, refl, sym, ap, ◌∙◌, true, Option, none, some, List, [], ◌∷◌, ◌++◌, Str,
  Str-discrete, codes, length, arith, Result, ok, err, panic, ◌>>=◌,
}
use bitwrk.Money.{money}
use bitwrk.Transaction.{Transaction, Receipt}
use bitwrk.Transaction.Handlers.{Runtime}
use bitwrk.Gae.Store.{Keys, IsHonest, Property, load_all, load_all-then, key_or_panic}
use bitwrk.Gae.Codec.Numbers.{
  IsKnown, tx_state_of-number, phase_of-number, must_parse_currency-string,
}
use bitwrk.Gae.Codec.Transactions.{
  zeros, copy_into, zero_tx, load_tx_property, load_tx, tx_head, url_property, hash_property,
  receipt_properties, save_tx,
}

length-zeros : (n : ℕ) → length (zeros n) ≡ n
unfolding zeros
length-zeros zero = refl
length-zeros (suc n) = ap suc (length-zeros n)

copy_into_full : (old new : Str) → length new ≡ length old → copy_into old new ≡ new
unfolding copy_into
copy_into_full [] [] h = refl
copy_into_full [] (b ∷ bs) h = absurd (omega (arith, h))
copy_into_full (a ∷ rest) [] h = absurd (omega (arith, h))
copy_into_full (a ∷ rest) (b ∷ bs) h = ap (◌∷◌ b) (copy_into_full rest bs (omega (arith, h)))

copy-zeros : (n : ℕ) (b : Str) → length b ≡ n → copy_into (zeros n) b ≡ b
copy-zeros n b h = copy_into_full (zeros n) b (h ∙ sym (length-zeros n))

-- A missing array, or one of the right size.
abbrev pub HasSize : ℕ → Option Str → Type 0
HasSize n none = Unit
HasSize n (some b) = length b ≡ n

-- A receipt comes with a key.
abbrev pub IsSealed : Option Receipt → Option Str → Type 0
IsSealed none none = Unit
IsSealed (some c) (some key) =
    (length c.hash ≡ 32) × (length c.hash_signature ≡ 65) × (length key ≡ 32)
IsSealed _ _ = ⊥

-- A worker's URL that is accepted when it is loaded.
abbrev pub HasUrl : Runtime → Option Str → Type 0
HasUrl r none = Unit
HasUrl r (some u) = r.parse_request_uri u ≡ true

-- What is stored without loss.
pub record Storable (r : Runtime) (tx : Transaction) : Type 0 where
  pub known : IsKnown tx.price.currency
  pub currencies : tx.fee.currency ≡ tx.price.currency
  pub url : HasUrl r tx.worker_url
  pub hash : HasSize 32 tx.work_hash
  pub secret_hash : HasSize 32 tx.work_secret_hash
  pub secret : HasSize 32 tx.buyer_secret
  pub receipt : IsSealed tx.encrypted_result_receipt tx.result_decryption_key

module _ (K : Keys) (r : Runtime) where
  load-head :
      (b s : K.Key) (tx : Transaction)
      → IsKnown tx.price.currency
      → load_all K (load_tx_property K r) (tx_head K r b s tx) zero_tx
        ≡ ok (record zero_tx {
          revision = tx.revision;
          buyer_bid = K.encode b;
          seller_bid = K.encode s;
          buyer = tx.buyer;
          seller = tx.seller;
          article = tx.article;
          price = tx.price;
          fee = money tx.fee.amount tx.price.currency;
          matched_at = tx.matched_at;
          state = tx.state;
          phase = tx.phase;
          timeout = tx.timeout;
        })
  unfolding load_all load_tx_property Str-discrete
  load-head b s tx known =
      rw
        (
          must_parse_currency-string tx.price.currency known,
          tx_state_of-number tx.state,
          phase_of-number tx.phase,
        )
        refl

  load-url :
      (u : Option Str) (a : Transaction)
      → HasUrl r u
      → load_all K (load_tx_property K r) (url_property K r u) (record a { worker_url = none })
        ≡ ok (record a { worker_url = u })
  unfolding load_all load_tx_property Str-discrete
  load-url none a h = refl
  load-url (some u) a h = rw h refl

  load-hash :
      (b : Option Str) (a : Transaction)
      → HasSize 32 b
      → load_all K
          (load_tx_property K r)
          (hash_property K r (codes "WorkHash") b)
          (record a { work_hash = none })
        ≡ ok (record a { work_hash = b })
  unfolding load_all load_tx_property Str-discrete
  load-hash none a h = refl
  load-hash (some b) a h = rw (copy-zeros 32 b h) refl

  load-secret_hash :
      (b : Option Str) (a : Transaction)
      → HasSize 32 b
      → load_all K
          (load_tx_property K r)
          (hash_property K r (codes "WorkSecretHash") b)
          (record a { work_secret_hash = none })
        ≡ ok (record a { work_secret_hash = b })
  unfolding load_all load_tx_property Str-discrete
  load-secret_hash none a h = refl
  load-secret_hash (some b) a h = rw (copy-zeros 32 b h) refl

  load-secret :
      (b : Option Str) (a : Transaction)
      → HasSize 32 b
      → load_all K
          (load_tx_property K r)
          (hash_property K r (codes "BuyerSecret") b)
          (record a { buyer_secret = none })
        ≡ ok (record a { buyer_secret = b })
  unfolding load_all load_tx_property Str-discrete
  load-secret none a h = refl
  load-secret (some b) a h = rw (copy-zeros 32 b h) refl

  -- The properties of a receipt, loaded into a transaction without one.
  load-receipt :
      (c : Option Receipt) (key : Option Str) (a : Transaction)
      → IsSealed c key
      → (receipt_properties K r c key >>= λ ps.
          load_all K
            (load_tx_property K r)
            ps
            (record a { encrypted_result_receipt = none; result_decryption_key = none }))
        ≡ ok (record a { encrypted_result_receipt = c; result_decryption_key = key })
  unfolding load_all load_tx_property Str-discrete
  load-receipt none none a h = refl
  load-receipt none (some key) a h = absurd h
  load-receipt (some c) none a h = absurd h
  load-receipt (some c) (some key) a (h, s, k) =
      rw (copy-zeros 32 c.hash h, copy-zeros 65 c.hash_signature s, copy-zeros 32 key k) refl

  -- Properties in front of those that may fail to be written.
  load-front :
      (m : Result (List (Property K))) (front : List (Property K) → List (Property K))
      (a z : Transaction)
      → ((ps : List (Property K))
          → load_tx K r (front ps) zero_tx ≡ load_all K (load_tx_property K r) ps a)
      → (m >>= λ ps. load_all K (load_tx_property K r) ps a) ≡ ok z
      → ((m >>= λ ps. ok (front ps)) >>= λ ps. load_tx K r ps zero_tx) ≡ ok z
  load-front (ok ps) front a z h e = h ps ∙ e
  load-front (err x) front a z h e = e
  load-front panic front a z h e = e

  -- All but the receipt is loaded.
  load-rest :
      (tx : Transaction) (b s : K.Key) (ps : List (Property K))
      → Storable r tx
      → load_tx K r
          (tx_head K r b s tx
            ++ (url_property K r tx.worker_url
                ++ (hash_property K r (codes "WorkHash") tx.work_hash
                    ++ (hash_property K r (codes "WorkSecretHash") tx.work_secret_hash
                        ++ (hash_property K r (codes "BuyerSecret") tx.buyer_secret ++ ps)))))
          zero_tx
        ≡ load_all K (load_tx_property K r) ps (record tx {
          buyer_bid = K.encode b;
          seller_bid = K.encode s;
          fee = money tx.fee.amount tx.price.currency;
          encrypted_result_receipt = none;
          result_decryption_key = none;
        })
  unfolding load_tx
  load-rest tx b s ps st =
      let a₅ = record tx {
        buyer_bid = K.encode b;
        seller_bid = K.encode s;
        fee = money tx.fee.amount tx.price.currency;
        encrypted_result_receipt = none;
        result_decryption_key = none;
      } in
      let a₄ = record a₅ { buyer_secret = none } in
      let a₃ = record a₄ { work_secret_hash = none } in
      let a₂ = record a₃ { work_hash = none } in
      let a₁ = record a₂ { worker_url = none } in
      let f = load_tx_property K r in
      load_all-then K f (tx_head K r b s tx) _ zero_tx (load-head b s tx st.known)
      ∙ load_all-then K f (url_property K r tx.worker_url) _ a₁ (load-url tx.worker_url a₁ st.url)
      ∙ load_all-then K f (hash_property K r (codes "WorkHash") tx.work_hash) _ a₂
          (load-hash tx.work_hash a₂ st.hash)
      ∙ load_all-then K f (hash_property K r (codes "WorkSecretHash") tx.work_secret_hash) _ a₃
          (load-secret_hash tx.work_secret_hash a₃ st.secret_hash)
      ∙ load_all-then K f (hash_property K r (codes "BuyerSecret") tx.buyer_secret) _ a₄
          (load-secret tx.buyer_secret a₄ st.secret)

  -- If keys are read back as they were written, then a transaction is saved, and loaded as the same
  -- transaction, if its bids are the strings of keys, its price and fee are in one known currency,
  -- its URL is accepted, its hashes and secrets have their size, and it has a decryption key exactly
  -- if it has a receipt.
  pub load_tx-save :
      (tx : Transaction) (b s : K.Key)
      → IsHonest K
      → Storable r tx
      → tx.buyer_bid ≡ K.encode b
      → tx.seller_bid ≡ K.encode s
      → (save_tx K r tx >>= λ ps. load_tx K r ps zero_tx) ≡ ok tx
  unfolding save_tx
  load_tx-save tx b s honest st eb es =
      let saved = record tx {
        buyer_bid = K.encode b;
        seller_bid = K.encode s;
        fee = money tx.fee.amount tx.price.currency;
      } in
      let is_tx : saved ≡ tx =
        ap
          (λ x. record tx {
            buyer_bid = x;
            seller_bid = K.encode s;
            fee = money tx.fee.amount tx.price.currency;
          })
          (sym eb)
        ∙ ap (λ x. record tx { seller_bid = x; fee = money tx.fee.amount tx.price.currency })
            (sym es)
        ∙ ap (λ c. record tx { fee = money tx.fee.amount c }) (sym st.currencies) in
      subst (λ x. (save_tx K r x >>= λ ps. load_tx K r ps zero_tx) ≡ ok x) is_tx
        (rw (ap (key_or_panic K) (honest b), ap (key_or_panic K) (honest s))
          (load-front (receipt_properties K r tx.encrypted_result_receipt tx.result_decryption_key)
            _ _ saved (λ ps. load-rest tx b s ps st)
            (load-receipt tx.encrypted_result_receipt tx.result_decryption_key saved st.receipt)))
