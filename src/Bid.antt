-- ===== src/Bid.antt =====
-- common/bitwrk/bid.go: bids, their construction and their bookkeeping.
pub mod Accounting
pub mod Fee
use bitwrk.Base.{
  ℕ, ◌+◌, ◌≡◌, Bool, true, false, ◌&&◌, ◌||◌, not, Option, none, some, List, [], ◌∷◌, ◌++◌, Str,
  codes, str_eq, decimal, if◌then◌else◌, Result, ok, err, panic, ◌>>=◌, ◌>>◌, ensure,
  illegal_bid_type, negative_price, price_too_high, unknown_bid_type,
}
use bitwrk.Int.{ℤ, pos, ltb_ℤ, leb_ℤ}
use bitwrk.Int64.{◌+64◌, ◌-64◌, ◌*64◌, quot64, max_int64}
use bitwrk.Money.{Money, money, currency_string}
use bitwrk.Money.Parse.{parse}
use bitwrk.Query.{normalize, query}

-- A Go `int8` that is neither of the two constants is `other_bid_type n`.
pub data BidType : Type 0 where
  buy sell : BidType
  other_bid_type : ℕ → BidType

pub data BidState : Type 0 where
  in_queue placed matched expired : BidState

abbrev pub is_buy : BidType → Bool
is_buy buy = true
is_buy _ = false

abbrev pub is_sell : BidType → Bool
is_sell sell = true
is_sell _ = false

abbrev pub is_placed : BidState → Bool
is_placed placed = true
is_placed _ = false

abbrev pub is_in_queue : BidState → Bool
is_in_queue in_queue = true
is_in_queue _ = false

unfoldable pub bid_type_string : BidType → Str
unfolding decimal
bid_type_string buy = codes "BUY"
bid_type_string sell = codes "SELL"
bid_type_string (other_bid_type n) = codes "BidType(" ++ (decimal n ++ codes ")")

unfoldable pub bid_state_string : BidState → Str
bid_state_string in_queue = codes "INQUEUE"
bid_state_string placed = codes "PLACED"
bid_state_string matched = codes "MATCHED"
bid_state_string expired = codes "EXPIRED"

pub record Bid : Type 0 where
  pub bid_type : BidType
  pub state : BidState
  pub article : Str
  pub price : Money
  pub fee : Money
  pub participant : Str
  pub document : Str
  pub signature : Str
  pub created : ℕ
  pub expires : ℕ
  pub matched_at : Option ℕ
  pub transaction : Option Str

pub record NewBidDefaults : Type 0 where
  pub initial_state : BidState
  pub fee_ratio_numerator : ℤ
  pub fee_ratio_denominator : ℤ
  pub timeout : ℕ

-- The fee of a price, rounded up.
unfoldable pub fee_amount : NewBidDefaults → ℤ → Result ℤ
unfolding quot64
fee_amount defaults price =
    quot64 (defaults.fee_ratio_numerator *64 price +64 defaults.fee_ratio_denominator -64 pos 1)
      defaults.fee_ratio_denominator

-- `NewBid`, at the time `now`.
unfoldable pub new_bid : ℕ → BidType → Str → Money → Str → Str → Str → NewBidDefaults → Result Bid
unfolding fee_amount
new_bid now bid_type article price participant document signature defaults = do
  ensure (is_buy bid_type || is_sell bid_type) illegal_bid_type
  ensure (not (ltb_ℤ price.amount (pos 0))) negative_price
  limit ← quot64 max_int64 (defaults.fee_ratio_numerator +64 pos 1)
  ensure (not (leb_ℤ limit price.amount)) price_too_high
  fee ← fee_amount defaults price.amount
  ok (record {
    bid_type = bid_type;
    state = defaults.initial_state;
    article = article;
    price = price;
    fee = money fee price.currency;
    participant = participant;
    document = document;
    signature = signature;
    created = now;
    expires = now + defaults.timeout;
    matched_at = none;
    transaction = none;
  })

unfoldable pub parse_bid_type : Str → Result BidType
parse_bid_type s =
    if str_eq s (codes "BUY")
    then ok buy
    else if str_eq s (codes "SELL")
    then ok sell
    else err unknown_bid_type

unfoldable pub bid_document : Str → Str → Str → Str → Str → Str
unfolding query normalize
bid_document article bid_type price participant nonce = query (
    (codes "article", normalize article)
    ∷ (codes "type", bid_type)
    ∷ (codes "price", normalize price)
    ∷ (codes "address", normalize participant)
    ∷ (codes "nonce", normalize nonce)
    ∷ [])

unfoldable pub parse_bid : ℕ → Str → Str → Str → Str → Str → Str → NewBidDefaults → Result Bid
unfolding parse_bid_type parse new_bid bid_document
parse_bid now bid_type article price participant nonce signature defaults = do
  out_type ← parse_bid_type bid_type
  out_price ← parse price
  new_bid now out_type article out_price participant
      (bid_document article bid_type price participant nonce) signature defaults

-- `MatchKey`
unfoldable pub bid_match_key : Bid → Str
unfolding currency_string
bid_match_key b = b.article ++ (codes ":" ++ currency_string b.price.currency)
