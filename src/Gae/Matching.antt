-- ===== src/Gae/Matching.antt =====
-- server/gae/gae_matching.go: hot bids, and the queues in which they wait for a match.
pub mod Queues
pub mod Rounds
pub mod Contents
pub mod Tips
pub mod Skipping
pub mod Ledger
pub mod Outcome
pub mod Flush
pub mod Hotter
pub mod Best
pub mod Ranked
pub mod Working
pub mod Returns
use bitwrk.Base.{
  ℕ, Bool, true, false, ◌∷◌, Option, none, some, List, [], Str, ltb, if◌then◌else◌, Action,
}
use bitwrk.Int.{ltb_ℤ, eqb_ℤ}
use bitwrk.Money.{Money}
use bitwrk.Bid.{Bid, BidType, is_sell}

-- `hotBid`, with the key of the bid.
pub record HotBid (Key : Type 0) : Type 0 where
  pub bid_key : Key
  pub bid_type : BidType
  pub price : Money
  pub expires : ℕ

-- `storedHotBid`, with the key under which the hot bid itself is stored.
pub record StoredHotBid (Key : Type 0) : Type 0 where
  pub hot : HotBid Key
  pub key : Key

module _ {Key : Type 0} where
  -- `newHotBid`
  unfoldable pub new_hot_bid : Key → Bid → HotBid Key
  new_hot_bid key b = record {
    bid_key = key;
    bid_type = b.bid_type;
    price = b.price;
    expires = b.expires;
  }

  -- `hotterThan`
  unfoldable pub hotter_than : HotBid Key → HotBid Key → Bool
  hotter_than this other =
      if eqb_ℤ this.price.amount other.price.amount
      then ltb this.expires other.expires
      else if is_sell this.bid_type
      then ltb_ℤ this.price.amount other.price.amount
      else ltb_ℤ other.price.amount this.price.amount

-- What the queues call: the datastore, in a database transaction, and the task queue. Whether the
-- next result of a query can be read, and whether a deletion, a write or a new task succeeds, is up
-- to them.
pub record HotStore (Key : Type 0) : Type 1 where
  pub State : Type 0
  pub read_next : Action State (Unit {0})
  pub delete : Key → Action State (Unit {0})
  pub put : HotBid Key → Action State (Unit {0})
  -- `addApplyChangesTask`, with the matched and the placed bids
  pub schedule : ℕ → List Str → List Str → Action State (Unit {0})
