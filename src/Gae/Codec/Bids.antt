-- ===== src/Gae/Codec/Bids.antt =====
-- `bidCodec` of server/gae/gae_codec.go.
use mathlib.Core.Path.{subst}
use bitwrk.Base.{
  ℕ, ◌≡◌, refl, sym, ap, ◌∙◌, Option, none, some, List, [], ◌∷◌, ◌++◌, Str-discrete, codes, str_eq,
  if◌then◌else◌, Result, ok, err, ◌>>=◌, unknown_property,
}
use bitwrk.Int.{pos}
use bitwrk.Money.{Currency, btc, Currency-discrete, currency_eq, currency_string, money}
use bitwrk.Bid.{Bid, buy, in_queue}
use bitwrk.Gae.Store.{
  Keys, IsHonest, encoded, Value, Property, int_value, string_value, time_value, nil_value, indexed,
  unindexed, as_int, as_string, as_time, as_key, must_decode_key, load_all, load_all-then,
  key_or_nil, must_decode_key-encoded,
}
use bitwrk.Gae.Codec.Numbers.{
  bid_type_number, bid_type_of, bid_state_number, bid_state_of, must_parse_currency, IsProper,
  IsKnown, bid_type_of-number, bid_state_of-number, must_parse_currency-string,
}

-- `var bid Bid`
abbrev pub zero_bid : Bid
zero_bid = record {
  bid_type = buy;
  state = in_queue;
  article = [];
  price = money (pos 0) btc;
  fee = money (pos 0) btc;
  participant = [];
  document = [];
  signature = [];
  created = 0;
  expires = 0;
  matched_at = none;
  transaction = none;
}

module _ (K : Keys) where
  abbrev pub load_bid_currency : Currency → Bid → Bid
  load_bid_currency c b = record b { price = money b.price.amount c; fee = money b.fee.amount c }

  abbrev load_bid_transaction : Value K → Bid → Result Bid
  load_bid_transaction nil_value b = ok (record b { transaction = none })
  load_bid_transaction v b = do s ← as_key K v; ok (record b { transaction = some s })

  -- The `switch` of `Load`.
  unfoldable pub load_bid_property : Property K → Bid → Result Bid
  unfolding bid_type_of bid_state_of must_parse_currency
  load_bid_property p b =
      if str_eq p.name (codes "Type")
      then (do n ← as_int K p.value; t ← bid_type_of n; ok (record b { bid_type = t }))
      else if str_eq p.name (codes "State")
      then (do n ← as_int K p.value; s ← bid_state_of n; ok (record b { state = s }))
      else if str_eq p.name (codes "Article")
      then (do s ← as_string K p.value; ok (record b { article = s }))
      else if str_eq p.name (codes "Currency")
      then (do s ← as_string K p.value; c ← must_parse_currency s; ok (load_bid_currency c b))
      else if str_eq p.name (codes "Price")
      then (do n ← as_int K p.value; ok (record b { price = money n b.price.currency }))
      else if str_eq p.name (codes "Fee")
      then (do n ← as_int K p.value; ok (record b { fee = money n b.fee.currency }))
      else if str_eq p.name (codes "Participant")
      then (do s ← as_string K p.value; ok (record b { participant = s }))
      else if str_eq p.name (codes "Document")
      then (do s ← as_string K p.value; ok (record b { document = s }))
      else if str_eq p.name (codes "Signature")
      then (do s ← as_string K p.value; ok (record b { signature = s }))
      else if str_eq p.name (codes "ValidFrom")
      then (do t ← as_time K p.value; ok (record b { created = t }))
      else if str_eq p.name (codes "Created")
      then (do t ← as_time K p.value; ok (record b { created = t }))
      else if str_eq p.name (codes "ValidUntil")
      then (do t ← as_time K p.value; ok (record b { expires = t }))
      else if str_eq p.name (codes "Expires")
      then (do t ← as_time K p.value; ok (record b { expires = t }))
      else if str_eq p.name (codes "Matched")
      then (do t ← as_time K p.value; ok (record b { matched_at = some t }))
      else if str_eq p.name (codes "Transaction")
      then load_bid_transaction p.value b
      else err unknown_property

  -- `Load`
  unfoldable pub load_bid : List (Property K) → Bid → Result Bid
  unfolding load_bid_property load_all
  load_bid ps b = load_all K load_bid_property ps (load_bid_currency btc b)

  -- The properties that `Save` always writes first, those that it may leave out, and the rest.
  abbrev head_of : Bid → List (Property K)
  head_of b =
      unindexed K (codes "Type") (int_value (bid_type_number b.bid_type))
      ∷ unindexed K (codes "State") (int_value (bid_state_number b.state))
      ∷ unindexed K (codes "Article") (string_value b.article)
      ∷ []

  abbrev currency_of : Currency → List (Property K)
  currency_of c =
      if currency_eq c btc
      then []
      else unindexed K (codes "Currency") (string_value (currency_string c)) ∷ []

  abbrev body_of : Bid → List (Property K)
  body_of b =
      unindexed K (codes "Price") (int_value b.price.amount)
      ∷ unindexed K (codes "Fee") (int_value b.fee.amount)
      ∷ unindexed K (codes "Participant") (string_value b.participant)
      ∷ unindexed K (codes "Document") (string_value b.document)
      ∷ unindexed K (codes "Signature") (string_value b.signature)
      ∷ indexed K (codes "Created") (time_value b.created)
      ∷ unindexed K (codes "Expires") (time_value b.expires)
      ∷ []

  abbrev matched_of : Option ℕ → List (Property K)
  matched_of none = []
  matched_of (some t) = unindexed K (codes "Matched") (time_value t) ∷ []

  -- `Save`
  unfoldable pub save_bid : Bid → Result (List (Property K))
  unfolding bid_type_number bid_state_number currency_string must_decode_key
  save_bid b = do
    key ← must_decode_key K b.transaction
    ok (
        head_of b
        ++ (currency_of b.price.currency
            ++ (body_of b
                ++ (matched_of b.matched_at ++ unindexed K (codes "Transaction") key ∷ []))))

  load-head :
      (b a : Bid)
      → IsProper b.bid_type
      → load_all K load_bid_property (head_of b) a
        ≡ ok (record a { bid_type = b.bid_type; state = b.state; article = b.article })
  unfolding load_all load_bid_property Str-discrete
  load-head b a h = rw (bid_type_of-number b.bid_type h, bid_state_of-number b.state) refl

  load-currency :
      (c : Currency) (a : Bid)
      → IsKnown c
      → load_all K load_bid_property (currency_of c) (load_bid_currency btc a)
        ≡ ok (load_bid_currency c a)
  unfolding load_all load_bid_property Str-discrete Currency-discrete
  load-currency btc a h = refl
  load-currency c a h = rw (must_parse_currency-string c h) refl

  load-body :
      (b a : Bid)
      → load_all K load_bid_property (body_of b) a
        ≡ ok (record a {
          price = money b.price.amount a.price.currency;
          fee = money b.fee.amount a.fee.currency;
          participant = b.participant;
          document = b.document;
          signature = b.signature;
          created = b.created;
          expires = b.expires;
        })
  unfolding load_all load_bid_property Str-discrete
  load-body b a = refl

  load-matched :
      (m : Option ℕ) (a : Bid)
      → load_all K load_bid_property (matched_of m) (record a { matched_at = none })
        ≡ ok (record a { matched_at = m })
  unfolding load_all load_bid_property Str-discrete
  load-matched none a = refl
  load-matched (some t) a = refl

  load-transaction :
      (k : Option K.Key) (a : Bid)
      → load_all K load_bid_property (unindexed K (codes "Transaction") (key_or_nil K k) ∷ []) a
        ≡ ok (record a { transaction = encoded K k })
  unfolding load_all load_bid_property Str-discrete
  load-transaction none a = refl
  load-transaction (some k) a = refl

  -- If keys are read back as they were written, then a bid of a proper type, with its price and its
  -- fee in one known currency, and with the string of a key, if any, as its transaction, is saved,
  -- and loaded as the same bid.
  pub load_bid-save :
      (b : Bid) (k : Option K.Key)
      → IsHonest K
      → IsProper b.bid_type
      → IsKnown b.price.currency
      → b.fee.currency ≡ b.price.currency
      → b.transaction ≡ encoded K k
      → (save_bid b >>= λ ps. load_bid ps zero_bid) ≡ ok b
  unfolding save_bid load_bid
  load_bid-save b k honest proper known same tx =
      let saved = record b {
        fee = money b.fee.amount b.price.currency;
        transaction = encoded K k;
      } in
      let is_b : saved ≡ b =
        ap (λ c. record b { fee = money b.fee.amount c; transaction = encoded K k }) (sym same)
        ∙ ap (λ t. record b { transaction = t }) (sym tx) in
      let a₁ = record zero_bid { bid_type = b.bid_type; state = b.state; article = b.article } in
      let a₂ = load_bid_currency b.price.currency a₁ in
      let a₃ = record saved { matched_at = none; transaction = none } in
      let a₄ = record saved { transaction = none } in
      subst (λ x. (save_bid x >>= λ ps. load_bid ps zero_bid) ≡ ok x) is_b
        (rw (must_decode_key-encoded K k honest) (
          load_all-then K load_bid_property (head_of saved) _ zero_bid
            (load-head saved zero_bid proper)
          ∙ load_all-then K load_bid_property (currency_of saved.price.currency) _ a₁
              (load-currency saved.price.currency a₁ known)
          ∙ load_all-then K load_bid_property (body_of saved) _ a₂ (load-body saved a₂)
          ∙ load_all-then K load_bid_property (matched_of saved.matched_at) _ a₃
              (load-matched saved.matched_at a₃)
          ∙ load-transaction k a₄))
