-- ===== src/Bid/Accounting.antt =====
-- `CheckBalance`, `Book` and `Retire` of common/bitwrk/bid.go.
pub mod Conserve
pub mod Shifts
use bitwrk.Base.{
  ℕ, ◌≡◌, Bool, true, false, ◌||◌, not, Option, none, some, Str, if◌then◌else◌, Result, ok, err,
  panic, Action, bind, lift, insufficient_funds, wrong_currency, invalid_bid_price,
}
use bitwrk.Int.{ℤ, pos, ltb_ℤ}
use bitwrk.Money.{Money, money, add, neg}
use bitwrk.Dao.{Dao, ParticipantAccount, bid, bid_reimburse}
use bitwrk.Account.{available, can_apply}
use bitwrk.Account.Place.{place_account_movement}
use bitwrk.Bid.{Bid, is_buy, is_sell, is_placed, is_in_queue, expired}

abbrev pub zero_money : Money → Money
zero_money m = money (pos 0) m.currency

-- What the available account must be able to take, by the type of the bid.
unfoldable pub required : Bid → Result Money
required b =
    if is_buy b.bid_type
    then (elim (add b.price b.fee) [
      | ok price ↦ if ltb_ℤ price.amount (pos 0) then err invalid_bid_price else ok (neg price)
      | err e ↦ err e
      | panic ↦ panic
    ])
    else ok b.price

module _ (d : Dao) where
  open d use {State, get_account}

  abbrev pub check_account : Bid → Money → ParticipantAccount → Action State (Unit {0})
  check_account b price account = lift (
      if can_apply available price account
      then ok tt
      else if is_buy b.bid_type
      then err insufficient_funds
      else err wrong_currency)

  unfoldable pub check_balance : Bid → Action State (Unit {0})
  check_balance b =
      bind (lift (required b)) λ price. bind (get_account b.participant) (check_account b price)

  -- The movement that blocks a price.
  abbrev pub block_price : Bid → Str → Money → Action State (Unit {0})
  block_price b key price =
      place_account_movement d b.created bid b.participant b.participant (neg price) price
        (zero_money b.price) (zero_money b.price) (some key) none none none

  unfoldable pub book : Bid → Str → Action State (Unit {0})
  book b key =
      if is_sell b.bid_type
      then lift (ok tt)
      else bind (lift (add b.price b.fee)) (block_price b key)

  -- The movement that unblocks it.
  abbrev pub reimburse_price : Bid → Str → ℕ → Money → Action State (Unit {0})
  reimburse_price b key now price =
      place_account_movement d now bid_reimburse b.participant b.participant price (neg price)
        (zero_money b.price) (zero_money b.price) (some key) none none none

  abbrev pub expire : Bid → Bid
  expire b = record b { state = expired }

  abbrev pub reimburse_and_expire : Bid → Str → ℕ → Money → Action State Bid
  reimburse_and_expire b key now price =
      bind (reimburse_price b key now price) λ _. lift (ok (expire b))

  -- The result is the bid after the call.
  unfoldable pub retire : Bid → Str → ℕ → Action State Bid
  retire b key now =
      if not (is_placed b.state || is_in_queue b.state)
      then lift (ok b)
      else if is_sell b.bid_type
      then lift (ok (expire b))
      else bind (lift (add b.price b.fee)) (reimburse_and_expire b key now)
