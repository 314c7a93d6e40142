-- ===== src/Transaction/Accounting.antt =====
-- `NewTransaction`, `Book` and `Retire` of common/bitwrk/transaction.go.
pub mod Matching
pub mod Conserve
pub mod Shifts
use bitwrk.Base.{
  ℕ, ◌+◌, ◌*◌, ◌≡◌, Bool, true, false, not, ◌&&◌, ◌||◌, Option, none, some, Str, str_eq, ltb,
  ℕ_discrete, if◌then◌else◌, Result, ok, err, panic, ◌>>=◌, ◌>>◌, ensure, Action, bind, lift,
  non_matching_bids, old_bid_not_placed, new_bid_not_in_queue, old_bid_expired, new_bid_expired,
  strange_price_delta, already_retired, too_young,
}
use bitwrk.Int.{ℤ, pos, ltb_ℤ, eqb_ℤ}
use bitwrk.Int64.{◌+64◌}
use bitwrk.Money.{Money, currency_eq, add, sub, neg}
use bitwrk.Dao.{Dao, transaction, transaction_finish, transaction_reimburse}
use bitwrk.Account.Place.{place_account_movement}
use bitwrk.Bid.{Bid, BidType, is_buy, is_placed, is_in_queue, matched}
use bitwrk.Bid.Accounting.{zero_money}
use bitwrk.Transaction.{
  TxPhase, establishing, finished, unverified, phase_eq, TxState, active, retired, is_active,
  Transaction,
}
use bitwrk.Transaction.Messages.{second}

unfoldable pub BidType-discrete : Discrete BidType
unfolding ℕ_discrete
BidType-discrete = hlevel ℕ_discrete

abbrev pub bid_type_eq : BidType → BidType → Bool
bid_type_eq a b = elim (BidType-discrete a b) [ yes _ ↦ true | no _ ↦ false ]

-- A bid that a transaction has been made of.
abbrev pub match_bid : ℕ → Bid → Bid
match_bid now b = record b { matched_at = some now; state = matched }

-- The transaction between the bids, of which `price_bid` names the price and the fee.
abbrev pub transaction_of : ℕ → Str → Bid → Str → Bid → Bid → Transaction
transaction_of now buy_key buy_bid sell_key sell_bid price_bid = record {
  revision = pos 0;
  buyer_bid = buy_key;
  seller_bid = sell_key;
  buyer = buy_bid.participant;
  seller = sell_bid.participant;
  article = price_bid.article;
  price = price_bid.price;
  fee = price_bid.fee;
  matched_at = now;
  state = active;
  phase = establishing;
  timeout = now + 60 * second;
  worker_url = none;
  work_hash = none;
  work_secret_hash = none;
  buyer_secret = none;
  encrypted_result_receipt = none;
  result_decryption_key = none;
}

-- The result is the transaction, and the newer and the older bid after the call.
unfoldable pub new_transaction : ℕ → Str → Str → Bid → Bid → Result (Transaction × Bid × Bid)
new_transaction now new_key old_key new_bid old_bid = do
  ensure
      (not (bid_type_eq old_bid.bid_type new_bid.bid_type)
        && (currency_eq old_bid.price.currency new_bid.price.currency
            && str_eq old_bid.article new_bid.article))
      non_matching_bids
  ensure (is_placed old_bid.state) old_bid_not_placed
  ensure (is_in_queue new_bid.state) new_bid_not_in_queue
  ensure (ltb now old_bid.expires) old_bid_expired
  ensure (ltb now new_bid.expires) new_bid_expired
  ok (
    (if is_buy new_bid.bid_type
        then transaction_of now new_key new_bid old_key old_bid old_bid
        else transaction_of now old_key old_bid new_key new_bid old_bid),
    match_bid now new_bid,
    match_bid now old_bid,
  )

-- What the buyer blocked for the bid, less what the transaction costs.
unfoldable pub price_delta : Transaction → Bid → Result Money
price_delta tx buyer_bid = do
  bid_price ← add buyer_bid.price buyer_bid.fee
  tx_price ← add tx.price tx.fee
  sub bid_price tx_price

-- Whether the buyer pays at retirement.
abbrev pub is_paid : TxPhase → Bool
is_paid p = phase_eq p finished || phase_eq p unverified

module _ (d : Dao) where
  open d use {State}

  abbrev pub book_delta : Transaction → Str → Money → Action State (Unit {0})
  book_delta tx tx_id delta =
      if ltb_ℤ delta.amount (pos 0)
      then lift (err strange_price_delta)
      else if eqb_ℤ delta.amount (pos 0)
      then lift (ok tt)
      else place_account_movement d tx.matched_at transaction tx.buyer tx.buyer delta (neg delta)
          (zero_money tx.price) (zero_money tx.price) none (some tx_id) none none

  unfoldable pub book : Transaction → Str → Bid → Action State (Unit {0})
  book tx tx_id buyer_bid = bind (lift (price_delta tx buyer_bid)) (book_delta tx tx_id)

  abbrev pub settle : Transaction → Str → ℕ → Money → Action State (Unit {0})
  settle tx tx_id now cost =
      if is_paid tx.phase
      then place_account_movement d now transaction_finish tx.seller tx.buyer tx.price (neg cost)
          tx.fee (zero_money tx.price) none (some tx_id) none none
      else place_account_movement d now transaction_reimburse tx.buyer tx.buyer cost (neg cost)
          (zero_money tx.price) (zero_money tx.price) none (some tx_id) none none

  abbrev pub retire_transaction : Transaction → Transaction
  retire_transaction tx = record tx { state = retired; revision = tx.revision +64 pos 1 }

  abbrev pub settle_and_retire : Transaction → Str → ℕ → Money → Action State Transaction
  settle_and_retire tx tx_id now cost =
      bind (settle tx tx_id now cost) λ _. lift (ok (retire_transaction tx))

  -- The result is the transaction after the call.
  unfoldable pub retire : Transaction → Str → ℕ → Action State Transaction
  retire tx tx_id now =
      if not (currency_eq tx.price.currency tx.fee.currency)
      then lift panic
      else if not (is_active tx.state)
      then lift (err already_retired)
      else if ltb now tx.timeout
      then lift (err too_young)
      else bind (lift (add tx.price tx.fee)) (settle_and_retire tx tx_id now)
