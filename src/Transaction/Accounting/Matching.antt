-- ===== src/Transaction/Accounting/Matching.antt =====
-- About `NewTransaction` of common/bitwrk/transaction.go.
use bitwrk.Base.{
  ℕ, ◌+◌, ◌*◌, ◌<◌, ◌≡◌, ◌≢◌, refl, sym, ap, true, false, Bool-cases, not, ◌&&◌, &&-true, inl, inr,
  some, Str, str_eq, str_eq_iff, arith, ok, ok-injective, guard-eq_ok, non_matching_bids,
  old_bid_not_placed, new_bid_not_in_queue, old_bid_expired, new_bid_expired, ltb, if◌then◌else◌,
}
use mathlib.Core.Path.{subst}
use bitwrk.Money.{Currency, currency_eq}
use bitwrk.Money.Arithmetic.{currency_eq_sound}
use bitwrk.Bid.{
  Bid, BidType, BidState, in_queue, placed, matched, is_buy, is_placed, is_in_queue, bid_match_key,
}
use bitwrk.Transaction.{Transaction, establishing, active, tx_match_key}
use bitwrk.Transaction.Messages.{second}
use bitwrk.Transaction.Accounting.{bid_type_eq, match_bid, transaction_of, new_transaction}

-- Two bids that match at a time: the older one was placed, the newer one is in the queue, and
-- neither has expired.
pub record Match (now : ℕ) (new_bid old_bid : Bid) : Type 0 where
  pub types : old_bid.bid_type ≢ new_bid.bid_type
  pub currencies : old_bid.price.currency ≡ new_bid.price.currency
  pub articles : old_bid.article ≡ new_bid.article
  pub old_placed : old_bid.state ≡ placed
  pub new_queued : new_bid.state ≡ in_queue
  pub unexpired : (now < old_bid.expires) × (now < new_bid.expires)

ltb_sound : (a b : ℕ) → ltb a b ≡ true → a < b
ltb_sound a b h = ground arith

ltb_complete : {a b : ℕ} → a < b → ltb a b ≡ true
ltb_complete h = ground arith

not-same : {a b : BidType} → a ≢ b → bid_type_eq a b ≡ false
not-same h = ground arith

currency_eq_complete : {c d : Currency} → c ≡ d → currency_eq c d ≡ true
currency_eq_complete h = ground arith

is_placed-true : (s : BidState) → is_placed s ≡ true → s ≡ placed
is_placed-true placed h = refl
is_placed-true _ h = cc

is_in_queue-true : (s : BidState) → is_in_queue s ≡ true → s ≡ in_queue
is_in_queue-true in_queue h = refl
is_in_queue-true _ h = cc

types_differ : (a b : BidType) → not (bid_type_eq a b) ≡ true → a ≢ b
types_differ a b h e = ground arith

-- If `NewTransaction` succeeds, then the bids match.
new_transaction-Match :
    (now : ℕ) (new_key old_key : Str) (new_bid old_bid : Bid) (r : Transaction × Bid × Bid)
    → new_transaction now new_key old_key new_bid old_bid ≡ ok r
    → Match now new_bid old_bid
      × (r ≡ (
        (if is_buy new_bid.bid_type
            then transaction_of now new_key new_bid old_key old_bid old_bid
            else transaction_of now old_key old_bid new_key new_bid old_bid),
        match_bid now new_bid,
        match_bid now old_bid,
      ))
unfolding new_transaction
new_transaction-Match now new_key old_key new_bid old_bid r h =
    let (kinds, h₁) =
      guard-eq_ok
        (not (bid_type_eq old_bid.bid_type new_bid.bid_type)
          && (currency_eq old_bid.price.currency new_bid.price.currency
              && str_eq old_bid.article new_bid.article))
        non_matching_bids _ h in
    let (types, same) = &&-true _ _ kinds in
    let (currencies, articles) = &&-true _ _ same in
    let (old, h₂) = guard-eq_ok (is_placed old_bid.state) old_bid_not_placed _ h₁ in
    let (new, h₃) = guard-eq_ok (is_in_queue new_bid.state) new_bid_not_in_queue _ h₂ in
    let (old_time, h₄) = guard-eq_ok (ltb now old_bid.expires) old_bid_expired _ h₃ in
    let (new_time, h₅) = guard-eq_ok (ltb now new_bid.expires) new_bid_expired _ h₄ in
    (
      record {
        types = types_differ _ _ types;
        currencies = currency_eq_sound _ _ currencies;
        articles = (str_eq_iff _ _).0 articles;
        old_placed = is_placed-true _ old;
        new_queued = is_in_queue-true _ new;
        unexpired = (ltb_sound _ _ old_time, ltb_sound _ _ new_time);
      },
      sym (ok-injective h₅),
    )

-- The tests are passed.
new_transaction-passes :
    (now : ℕ) (new_key old_key : Str) (new_bid old_bid : Bid)
    → Match now new_bid old_bid
    → new_transaction now new_key old_key new_bid old_bid
      ≡ ok (
        (if is_buy new_bid.bid_type
            then transaction_of now new_key new_bid old_key old_bid old_bid
            else transaction_of now old_key old_bid new_key new_bid old_bid),
        match_bid now new_bid,
        match_bid now old_bid,
      )
unfolding new_transaction
new_transaction-passes now new_key old_key new_bid old_bid m = rw (
  not-same m.types,
  currency_eq_complete m.currencies,
  (str_eq_iff _ _).1 m.articles,
  m.old_placed,
  m.new_queued,
  ltb_complete m.unexpired.0,
  ltb_complete m.unexpired.1,
)

-- The transaction between two bids, whichever of them is the buyer's.
record Made (now : ℕ) (new_key old_key : Str) (new_bid old_bid : Bid) (tx : Transaction)
    : Type 0 where
  bids :
      (tx.buyer_bid ≡ (if is_buy new_bid.bid_type then new_key else old_key))
      × (tx.seller_bid ≡ (if is_buy new_bid.bid_type then old_key else new_key))
  terms : (tx.price ≡ old_bid.price) × (tx.fee ≡ old_bid.fee) × (tx.article ≡ old_bid.article)
  parties :
      (tx.buyer ≡ (if is_buy new_bid.bid_type then new_bid.participant else old_bid.participant))
      × (tx.seller ≡ (if is_buy new_bid.bid_type then old_bid.participant else new_bid.participant))
  begin :
      (tx.phase ≡ establishing)
      × (tx.state ≡ active)
      × (tx.matched_at ≡ now)
      × (tx.timeout ≡ now + 60 * second)

transaction_of-Made :
    (now : ℕ) (new_key old_key : Str) (new_bid old_bid : Bid)
    → Made now new_key old_key new_bid old_bid (
        if is_buy new_bid.bid_type
        then transaction_of now new_key new_bid old_key old_bid old_bid
        else transaction_of now old_key old_bid new_key new_bid old_bid)
transaction_of-Made now new_key old_key new_bid old_bid =
    elim (Bool-cases (is_buy new_bid.bid_type)) [
      | inl e ↦ rw e (record {
        bids = (rw e, rw e);
        terms = (refl, refl, refl);
        parties = (rw e, rw e);
        begin = (refl, refl, refl, refl);
      })
      | inr e ↦ rw e (record {
        bids = (rw e, rw e);
        terms = (refl, refl, refl);
        parties = (rw e, rw e);
        begin = (refl, refl, refl, refl);
      })
    ]

match_keys :
    (tx : Transaction) (a b : Bid)
    → (tx.article ≡ a.article) × (tx.price ≡ a.price)
    → (a.article ≡ b.article) × (a.price.currency ≡ b.price.currency)
    → (tx_match_key tx ≡ bid_match_key a) × (bid_match_key a ≡ bid_match_key b)
unfolding tx_match_key bid_match_key
match_keys tx a b (ea, ep) (fa, fc) = (rw (ea, ep), rw (fa, fc))

-- If `NewTransaction` succeeds, then the bids are of different types, agree in article and currency,
-- the older one was placed, the newer one in the queue, and neither had expired; the price and the
-- fee are the older bid's, the participant of the newer bid is the buyer if it is a
-- buy, and the seller otherwise, and that of the older bid the other party; the transaction is established with a minute's time, under the match key of both bids; and both bids
-- are marked as matched, at that time, and otherwise as they were.
pub new_transaction_lem :
    (now : ℕ) (new_key old_key : Str) (new_bid old_bid : Bid) (tx : Transaction) (new' old' : Bid)
    → new_transaction now new_key old_key new_bid old_bid ≡ ok (tx, new', old')
    → Match now new_bid old_bid
      × ((tx.price ≡ old_bid.price) × (tx.fee ≡ old_bid.fee))
      × ((tx.buyer ≡ (if is_buy new_bid.bid_type then new_bid.participant else old_bid.participant))
          × (tx.seller
              ≡ (if is_buy new_bid.bid_type then old_bid.participant else new_bid.participant)))
      × ((tx.phase ≡ establishing)
          × (tx.state ≡ active)
          × (tx.matched_at ≡ now)
          × (tx.timeout ≡ now + 60 * second))
      × ((tx_match_key tx ≡ bid_match_key old_bid)
          × (bid_match_key old_bid ≡ bid_match_key new_bid))
      × ((new' ≡ record new_bid { matched_at = some now; state = matched })
          × (old' ≡ record old_bid { matched_at = some now; state = matched }))
new_transaction_lem now new_key old_key new_bid old_bid tx new' old' h =
    let (m, e) = new_transaction-Match now new_key old_key new_bid old_bid (tx, new', old') h in
    let made : Made now new_key old_key new_bid old_bid tx =
      subst (Made now new_key old_key new_bid old_bid) (sym (ap (λ x. x.0) e))
        (transaction_of-Made now new_key old_key new_bid old_bid) in
    (
      m,
      (made.terms.0, made.terms.1),
      made.parties,
      made.begin,
      match_keys tx old_bid new_bid (made.terms.2, made.terms.0) (m.articles, m.currencies),
      (ap (λ x. x.1) e, ap (λ x. x.2) e),
    )

-- If two bids match, then `NewTransaction` succeeds, with a transaction that names the key and the
-- participant of the bid that buys as the buyer's, and those of the other one as the seller's, on the
-- older bid's terms, and with both bids marked as matched at that time.
pub new_transaction-total :
    (now : ℕ) (new_key old_key : Str) (new_bid old_bid : Bid)
    → Match now new_bid old_bid
    → (tx : Transaction) × (new_transaction now new_key old_key new_bid old_bid
        ≡ ok (
          tx,
          record new_bid { matched_at = some now; state = matched },
          record old_bid { matched_at = some now; state = matched },
        ))
      × ((tx.buyer_bid ≡ (if is_buy new_bid.bid_type then new_key else old_key))
          × (tx.seller_bid ≡ (if is_buy new_bid.bid_type then old_key else new_key)))
      × ((tx.buyer ≡ (if is_buy new_bid.bid_type then new_bid.participant else old_bid.participant))
          × (tx.seller
              ≡ (if is_buy new_bid.bid_type then old_bid.participant else new_bid.participant)))
      × ((tx.price ≡ old_bid.price) × (tx.fee ≡ old_bid.fee) × (tx.article ≡ old_bid.article))
new_transaction-total now new_key old_key new_bid old_bid m =
    let made = transaction_of-Made now new_key old_key new_bid old_bid in
    (
      _,
      new_transaction-passes now new_key old_key new_bid old_bid m,
      made.bids,
      made.parties,
      made.terms,
    )
