-- ===== src/Gae/Matching/Queues.antt =====
-- `hotBidsQueue` of server/gae/gae_matching.go.
use bitwrk.Base.{
  ℕ, zero, suc, Option, none, some, List, [], ◌∷◌, Str, length, if◌then◌else◌, Result, ok, err,
  panic, Action, bind,
}
use bitwrk.Bid.{BidType}
use bitwrk.Gae.Store.{Keys}
use bitwrk.Gae.Heap.{push, pop}
use bitwrk.Gae.Matching.{HotBid, StoredHotBid, hotter_than, HotStore}

-- `hotBidsQueue`. The query stands for its results, in their order: in a database transaction, a
-- query sees what was stored when the transaction began. `iter` holds the results still to be read.
pub record Queue (Key : Type 0) : Type 0 where
  pub bid_type : BidType
  pub query : List (StoredHotBid Key)
  pub iter : Option (List (StoredHotBid Key))
  pub stored_tip : Option (StoredHotBid Key)
  pub cached : List (HotBid Key)

-- The tip of a queue is missing, stored or cached.
pub data Tip (Key : Type 0) : Type 0 where
  no_tip : Tip Key
  stored_one : StoredHotBid Key → Tip Key
  cached_one : HotBid Key → Tip Key

module _ {Key : Type 0} where
  -- `newHotBidsQueue`
  unfoldable pub new_queue : List (StoredHotBid Key) → BidType → Queue Key
  new_queue results t = record {
    bid_type = t;
    query = results;
    iter = none;
    stored_tip = none;
    cached = [];
  }

  -- The tests of `withTip`.
  unfoldable pub choose : Option (StoredHotBid Key) → List (HotBid Key) → Tip Key
  unfolding hotter_than
  choose none [] = no_tip
  choose none (b ∷ h) = cached_one b
  choose (some e) [] = stored_one e
  choose (some e) (b ∷ h) = if hotter_than e.hot b then stored_one e else cached_one b

  abbrev pub tip_bid : Tip Key → Option (HotBid Key)
  tip_bid no_tip = none
  tip_bid (stored_one e) = some e.hot
  tip_bid (cached_one b) = some b

  -- The loop of `Flush`, on fuel: the keys of the bids that are popped, and the heap that is left.
  unfoldable pub flush_heap : (Key → Str) → ℕ → List (HotBid Key) → List Str × List (HotBid Key)
  unfolding pop hotter_than
  flush_heap encode zero h = ([], h)
  flush_heap encode (suc fuel) [] = ([], [])
  flush_heap encode (suc fuel) (b ∷ h) =
      let (keys, left) = flush_heap encode fuel (pop hotter_than (b ∷ h)) in
      (encode b.bid_key ∷ keys, left)

module _ (K : Keys) (Z : HotStore K.Key) where
  open K use {Key}

  -- A queue in the state of the store.
  abbrev pub Place : Type 0
  Place = Queue Key × Z.State

  -- What the next result is, once it could be read.
  abbrev pub advance_iter : Queue Key → Option (List (StoredHotBid Key)) → Result (Queue Key)
  advance_iter q none = panic
  advance_iter q (some []) = ok (record q { stored_tip = none })
  advance_iter q (some (e ∷ es)) = ok (record q { stored_tip = some e; iter = some es })

  -- `fetchNext`; a failure leaves the queue as it is.
  unfoldable pub fetch_next : Action Place (Unit {0})
  fetch_next (q, s) =
      let (r, s') = Z.read_next s in
      elim r [
        | err e ↦ (err e, (q, s'))
        | panic ↦ (panic, (q, s'))
        | ok _ ↦ elim (advance_iter q q.iter) [
          | ok q' ↦ (ok tt, (q', s'))
          | err e ↦ (err e, (q, s'))
          | panic ↦ (panic, (q, s'))
        ]
      ]

  -- `init`
  unfoldable pub init : Action Place (Unit {0})
  unfolding fetch_next
  init (q, s) = elim q.iter [
    | some es ↦ (ok tt, (q, s))
    | none ↦ fetch_next (record q { iter = some q.query }, s)
  ]

  -- A call whose error is not looked at.
  abbrev pub ignoring : Action Place (Unit {0}) → Action Place (Unit {0})
  ignoring call p =
      let (r, p') = call p in
      elim r [ ok _ ↦ (ok tt, p') | err e ↦ (ok tt, p') | panic ↦ (panic, p') ]

  -- `withTip`, with what is done for each of the tips.
  abbrev pub with_tip : {A : Type 0} → (Tip Key → Action Place A) → Action Place A
  with_tip handle = bind (ignoring init) (λ _ (q, s). handle (choose q.stored_tip q.cached) (q, s))

  abbrev pub look_at_tip : Unit {0} → Action Place (Option (HotBid Key))
  look_at_tip _ = with_tip (λ t p. (ok (tip_bid t), p))

  -- `Tip`
  unfoldable pub tip : Action Place (Option (HotBid Key))
  unfolding init choose
  tip = bind init look_at_tip

  -- A call on the store alone.
  abbrev pub on_store : {A : Type 0} → Action Z.State A → Action Place A
  on_store call (q, s) = let (r, s') = call s in (r, (q, s'))

  abbrev pub pop_chosen : Tip Key → Action Place (Unit {0})
  pop_chosen no_tip p = (ok tt, p)
  pop_chosen (stored_one e) p = bind (on_store (Z.delete e.key)) (λ _. fetch_next) p
  pop_chosen (cached_one b) (q, s) = (ok tt, (record q { cached = pop hotter_than q.cached }, s))

  -- `Pop`
  unfoldable pub pop_tip : Action Place (Unit {0})
  unfolding init choose fetch_next pop hotter_than
  pop_tip = with_tip pop_chosen

  abbrev pub push_cached : HotBid Key → Unit {0} → Action Place (Unit {0})
  push_cached b _ (q, s) = (ok tt, (record q { cached = push hotter_than q.cached b }, s))

  -- `Insert`
  unfoldable pub insert_bid : HotBid Key → Action Place (Unit {0})
  unfolding init push hotter_than
  insert_bid b = bind init (push_cached b)

  -- `Persist`
  abbrev pub persist_all : List (HotBid Key) → Action Place (Unit {0})
  persist_all [] p = (ok tt, p)
  persist_all (b ∷ bs) p = bind (on_store (Z.put b)) (λ _. persist_all bs) p

  unfoldable pub persist : Action Place (Unit {0})
  persist (q, s) = elim q.iter [ none ↦ (ok tt, (q, s)) | some es ↦ persist_all q.cached (q, s) ]

  -- `Flush`; the size of the heap is enough fuel.
  unfoldable pub flush_cached : Queue Key → List Str × Queue Key
  unfolding flush_heap
  flush_cached q =
      let (keys, left) = flush_heap K.encode (length q.cached) q.cached in
      (keys, record q { cached = left })
