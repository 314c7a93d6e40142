-- ===== src/Gae/Server.antt =====
-- The operations of server/gae/gae_main.go and `MatchBids` of server/gae/gae_matching.go, each in a
-- database transaction.
pub mod Keeping
pub mod Known
pub mod Books
pub mod Conserve
pub mod Matches
pub mod Requests
pub mod Retirement
use bitwrk.Base.{
  ℕ, ◌*◌, Bool, true, false, some, Str, ltb, if◌then◌else◌, ok, err, panic, Action, bind, lift,
  bad_key,
}
use bitwrk.Dao.{Dao}
use bitwrk.Dao.Cached.{Cache, new_cache, below, cached_dao, flush}
use bitwrk.Bid
use bitwrk.Bid.{Bid, BidState, matched, placed, in_queue, is_buy, is_in_queue}
use bitwrk.Bid.Accounting.{check_balance}
use bitwrk.Transaction
use bitwrk.Transaction.{Transaction}
use bitwrk.Transaction.Accounting.{new_transaction}

-- What these operations call besides the accounting storage, in the same state: the datastore's
-- bids and transactions, under the strings of their keys, and the task queues.
pub record Registry (d : Dao) : Type 0 where
  -- whether `DecodeKey` accepts a string
  pub is_key : Str → Bool
  pub read_bid : Str → Action d.State Bid
  pub store_bid : Str → Bid → Action d.State (Unit {0})
  -- `Put` under a new key
  pub add_bid : Bid → Action d.State Str
  pub read_transaction : Str → Action d.State Transaction
  pub store_transaction : Str → Transaction → Action d.State (Unit {0})
  pub add_transaction : Transaction → Action d.State Str
  -- `addRetireBidTask`, `addRetireTransactionTask`, and the task that holds a new hot bid
  pub retire_bid_later : Str → Bid → Action d.State (Unit {0})
  pub retire_transaction_later : Str → Transaction → Action d.State (Unit {0})
  pub queue_hot_bid : Str → Bid → Action d.State (Unit {0})

abbrev pub is_matched : BidState → Bool
is_matched matched = true
is_matched _ = false

-- `time.Unix(0, 0)`, in nanoseconds from Go's zero time.
abbrev pub unix_epoch : ℕ
unix_epoch = 62_135_596_800 * 1_000_000_000

module _ (d : Dao) (r : Registry d) where
  open d use {State}

  -- `RunInTransaction`: what a function has written is kept only if it succeeds.
  abbrev pub run_in_transaction : {A : Type 0} → Action State A → Action State A
  run_in_transaction call s =
      let (a, s') = call s in elim a [ ok x ↦ (ok x, s') | err e ↦ (err e, s) | panic ↦ (panic, s) ]

  -- `NewGaeAccountingDao`: a call in a new cache in front of the storage.
  abbrev pub with_books : {A : Type 0} → Action (Cache d) A → Action State A
  with_books call s = let (a, c) = call (new_cache d s true) in (a, c.delegate)

  abbrev pub enqueue_added : Bid → Str → Action (Cache d) Str
  enqueue_added b key = bind (Bid.Accounting.book (cached_dao d) b key) (λ _.
      bind (below d (r.retire_bid_later key b))
        (λ _. bind (below d (r.queue_hot_bid key b)) (λ _. bind (flush d) (λ _. lift (ok key)))))

  -- `EnqueueBid`
  unfoldable pub enqueue_bid : Bid → Action State Str
  unfolding new_cache flush
  enqueue_bid b =
      with_books (
        bind (check_balance (cached_dao d) b) (λ _. bind (below d (r.add_bid b)) (enqueue_added b)))

  abbrev pub store_retired : Str → Bid → Action (Cache d) (Unit {0})
  store_retired key b = bind (below d (r.store_bid key b)) (λ _. flush d)

  abbrev pub retire_loaded_bid : Str → ℕ → Bid → Action (Cache d) (Unit {0})
  retire_loaded_bid key now b =
      if is_matched b.state
      then lift (ok tt)
      else if ltb b.created unix_epoch
      then lift (ok tt)
      else bind (Bid.Accounting.retire (cached_dao d) b key now) (store_retired key)

  -- `RetireBid`
  unfoldable pub retire_bid : Str → ℕ → Action State (Unit {0})
  unfolding new_cache flush
  retire_bid key now = with_books (bind (below d (r.read_bid key)) (retire_loaded_bid key now))

  abbrev pub place_loaded_bid : Str → Bid → Action State (Unit {0})
  place_loaded_bid key b =
      if is_in_queue b.state then r.store_bid key (record b { state = placed }) else lift (ok tt)

  -- `PlaceBid`
  unfoldable pub place_bid : Str → Action State (Unit {0})
  place_bid key =
      if r.is_key key then bind (r.read_bid key) (place_loaded_bid key) else lift (err bad_key)

  abbrev pub store_settled : Str → Transaction → Action (Cache d) (Unit {0})
  store_settled key tx = bind (below d (r.store_transaction key tx)) (λ _. flush d)

  abbrev pub retire_loaded_transaction : Str → ℕ → Transaction → Action (Cache d) (Unit {0})
  retire_loaded_transaction key now tx =
      bind (Transaction.Accounting.retire (cached_dao d) tx key now) (store_settled key)

  -- `RetireTransaction`
  unfoldable pub retire_stored_transaction : Str → ℕ → Action State (Unit {0})
  unfolding new_cache flush
  retire_stored_transaction key now =
      with_books (bind (below d (r.read_transaction key)) (retire_loaded_transaction key now))

  -- An older bid that is still in the queue counts as placed.
  abbrev pub as_placed : Bid → Bid
  as_placed b = if is_in_queue b.state then record b { state = placed } else b

  -- The books, which are opened once the bids and the transaction are stored.
  abbrev pub book_match : Transaction → Str → Bid → Action (Cache d) (Unit {0})
  book_match tx tx_key buyer_bid =
      bind (Transaction.Accounting.book (cached_dao d) tx tx_key buyer_bid) (λ _. flush d)

  -- Once the transaction is stored: both bids, the task, and the books.
  abbrev pub finish_match : Str → Str → Transaction → Bid → Bid → Str → Action State (Unit {0})
  finish_match new_id old_id tx new_bid old_bid tx_key =
      let new_bid' = record new_bid { transaction = some tx_key } in
      let old_bid' = record old_bid { transaction = some tx_key } in
      bind (r.store_bid new_id new_bid') (λ _. bind (r.store_bid old_id old_bid') (λ _.
        bind (r.retire_transaction_later tx_key tx) (λ _.
          with_books
            (book_match tx tx_key (if is_buy new_bid'.bid_type then new_bid' else old_bid')))))

  abbrev pub match_loaded : Str → Str → Transaction × Bid × Bid → Action State (Unit {0})
  match_loaded new_id old_id (tx, new_bid, old_bid) =
      bind (r.add_transaction tx) (finish_match new_id old_id tx new_bid old_bid)

  -- `MatchBids`
  unfoldable pub match_bids : ℕ → Str → Str → Action State (Unit {0})
  unfolding new_transaction new_cache flush
  match_bids now new_id old_id =
      if r.is_key new_id
      then (if r.is_key old_id
          then bind (r.read_bid new_id) (λ new_bid. bind (r.read_bid old_id) (λ old_bid.
            bind (lift (new_transaction now new_id old_id new_bid (as_placed old_bid)))
              (match_loaded new_id old_id)))
          else lift (err bad_key))
      else lift (err bad_key)
