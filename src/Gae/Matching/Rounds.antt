-- ===== src/Gae/Matching/Rounds.antt =====
-- `matchIncomingBids` of server/gae/gae_matching.go.
use bitwrk.Base.{
  not, ℕ, zero, suc, Bool, true, false, Option, none, some, List, [], ◌∷◌, ◌++◌, Str, length, ltb,
  if◌then◌else◌, ok, err, out_of_fuel, Action, bind,
}
use bitwrk.Bid.{buy, sell, is_buy}
use bitwrk.Gae.Store.{Keys}
use bitwrk.Gae.Matching.{HotBid, StoredHotBid, hotter_than, HotStore}
use bitwrk.Gae.Matching.Queues.{Queue, new_queue, tip, pop_tip, insert_bid, persist, flush_cached}

module _ {Key : Type 0} where
  -- The bids that a queue holds: the tip, what is still to be read, and the heap.
  abbrev pub tip_list : Option (StoredHotBid Key) → List (HotBid Key)
  tip_list none = []
  tip_list (some e) = e.hot ∷ []

  abbrev pub hot_list : List (StoredHotBid Key) → List (HotBid Key)
  hot_list [] = []
  hot_list (e ∷ es) = e.hot ∷ hot_list es

  abbrev pub unread :
      Option (List (StoredHotBid Key)) → List (StoredHotBid Key) → List (StoredHotBid Key)
  unread none results = results
  unread (some es) results = es

  abbrev pub content : Queue Key → List (HotBid Key)
  content q = tip_list q.stored_tip ++ (hot_list (unread q.iter q.query) ++ q.cached)

module _ (K : Keys) (Z : HotStore K.Key) where
  open K use {Key}

  -- `hotBuys`, `hotSells`, and the store.
  pub record Market : Type 0 where
    pub buys : Queue Key
    pub sells : Queue Key
    pub store : Z.State

  -- A call on the queue of buys, or on that of sells.
  abbrev pub in_queue_of : Bool → {A : Type 0} → Action (Queue Key × Z.State) A → Action Market A
  in_queue_of true call m =
      let (r, (q, s)) = call (m.buys, m.store) in (r, record m { buys = q; store = s })
  in_queue_of false call m =
      let (r, (q, s)) = call (m.sells, m.store) in (r, record m { sells = q; store = s })

  abbrev pub this_queue :
      HotBid Key → {A : Type 0} → Action (Queue Key × Z.State) A → Action Market A
  this_queue b call = in_queue_of (is_buy b.bid_type) call

  abbrev pub other_queue :
      HotBid Key → {A : Type 0} → Action (Queue Key × Z.State) A → Action Market A
  other_queue b call = in_queue_of (not (is_buy b.bid_type)) call

  -- A round of the loop that pops expired bids: it ends at a bid that has not expired.
  unfoldable pub skip_tip :
      ℕ
      → Action (Queue Key × Z.State) (Unit {0})
      → Option (HotBid Key)
      → Action (Queue Key × Z.State) (Unit {0})
  unfolding pop_tip
  skip_tip now rest none p = (ok tt, p)
  skip_tip now rest (some b) p = elim (ltb now b.expires) [
    | true ↦ (ok tt, p)
    | false ↦ bind (pop_tip K Z) (λ _. rest) p
  ]

  -- The loop, on fuel, which fails if the fuel runs out.
  unfoldable pub skip_expired : ℕ → ℕ → Action (Queue Key × Z.State) (Unit {0})
  unfolding tip skip_tip
  skip_expired now zero p = (err out_of_fuel, p)
  skip_expired now (suc fuel) p = bind (tip K Z) (skip_tip now (skip_expired now fuel)) p

  -- A bid and the tip of the other queue: they match, or the bid is kept for later.
  unfoldable pub match_tip : HotBid Key → List Str → Option (HotBid Key) → Action Market (List Str)
  unfolding insert_bid pop_tip hotter_than
  match_tip bid matched none m =
      bind (this_queue bid (insert_bid K Z bid)) (λ _ m'. (ok matched, m')) m
  match_tip bid matched (some other) m = elim (hotter_than other bid) [
    | true ↦
        bind (other_queue bid (pop_tip K Z))
          (λ _ m'. (ok (matched ++ (K.encode bid.bid_key ∷ K.encode other.bid_key ∷ [])), m')) m
    | false ↦ bind (this_queue bid (insert_bid K Z bid)) (λ _ m'. (ok matched, m')) m
  ]

  -- One more than the number of bids of a queue is enough fuel for skipping them.
  abbrev pub skip_fuel : Market → HotBid Key → ℕ
  skip_fuel m bid = suc (length (content (if is_buy bid.bid_type then m.sells else m.buys)))

  unfoldable pub match_one : ℕ → HotBid Key → List Str → Action Market (List Str)
  unfolding skip_expired tip match_tip
  match_one now bid matched m =
      bind (other_queue bid (skip_expired now (skip_fuel m bid)))
        (λ _. bind (other_queue bid (tip K Z)) (match_tip bid matched)) m

  -- The loop over the incoming bids, with the keys that have been matched before.
  unfoldable pub match_all : ℕ → List (HotBid Key) → List Str → Action Market (List Str)
  unfolding match_one
  match_all now [] matched m = (ok matched, m)
  match_all now (bid ∷ bids) matched m = bind (match_one now bid matched) (match_all now bids) m

  -- After the loop.
  unfoldable pub settle_market : ℕ → List Str → Action Market (Unit {0})
  unfolding persist flush_cached
  settle_market now matched = bind (in_queue_of true (persist K Z)) (λ _.
      bind (in_queue_of false (persist K Z)) (λ _ m.
        let (bought, buys) = flush_cached K Z m.buys in
        let (sold, sells) = flush_cached K Z m.sells in
        let emptied = record m { buys = buys; sells = sells } in
        -- `len(matched) == 0 && len(placed) == 0`
        elim (matched ++ (bought ++ sold)) [
          | [] ↦ (ok tt, emptied)
          | k ∷ ks ↦
              let (r, s) = Z.schedule now matched (bought ++ sold) m.store in
              (r, record emptied { store = s })
        ]))

  -- `matchIncomingBids`, on the results of the queries for the hot buys and the hot sells.
  unfoldable pub match_incoming_bids :
      List (StoredHotBid Key)
      → List (StoredHotBid Key)
      → ℕ
      → List (HotBid Key)
      → Action Z.State (Unit {0})
  unfolding new_queue match_all settle_market
  match_incoming_bids hot_buys hot_sells now incoming s =
      let m : Market = record {
        buys = new_queue hot_buys buy;
        sells = new_queue hot_sells sell;
        store = s;
      } in
      let (r, m') = bind (match_all now incoming []) (settle_market now) m in (r, m'.store)
