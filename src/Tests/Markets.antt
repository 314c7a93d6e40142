-- ===== src/Tests/Markets.antt =====
-- A concrete market of hot bids, on a store that never fails.
use bitwrk.Base.{
  ℕ, suc, zero, suc, ◌≡◌, refl, ap, sym, arith, some, true, false, List, [], ◌∷◌, Str, codes,
  length, ok,
}
use bitwrk.Int.{pos}
use bitwrk.Money.{btc, money}
use bitwrk.Bid.{BidType, buy, sell, is_sell}
use bitwrk.Gae.Heap.{get_elem?, push, pop}
use bitwrk.Gae.Heap.Weight.{total, some-injective}
use bitwrk.Gae.Heap.Order.{Among, IsHeap}
use bitwrk.Gae.Matching.{HotBid, StoredHotBid, HotStore, hotter_than}
use bitwrk.Gae.Matching.Queues.{Queue, new_queue, flush_cached, tip, pop_tip}
use bitwrk.Gae.Matching.Rounds.{content, hot_list, Market, match_all}
use bitwrk.Gae.Matching.Ledger.{InOrder, Settled}
use bitwrk.Gae.Matching.Outcome.{match_all-Settled}
use bitwrk.Gae.Matching.Working.{Returns}
use bitwrk.Gae.Matching.Returns.{match_all-Returns}
use bitwrk.Gae.Matching.Hotter.{IsOf, hot_bids-IsHeap}
use bitwrk.Gae.Matching.Contents.{IsStarted, IsSound}
use bitwrk.Gae.Matching.Best.{IsBest, IsRanked}
use bitwrk.Gae.Matching.Ranked.{tip-IsBest, pop_tip-IsRanked}
use bitwrk.Gae.Matching.Flush.{flush_cached_lem}
use bitwrk.Tests.Codecs.{named}

abbrev calm : HotStore Str
calm = record {
  State = ℕ;
  read_next = λ s. (ok tt, suc s);
  delete = λ k s. (ok tt, suc s);
  put = λ b s. (ok tt, suc s);
  schedule = λ now matched placed s. (ok tt, suc s);
}

abbrev hot : Str → BidType → ℕ → ℕ → HotBid Str
hot key t price expires = record {
  bid_key = key;
  bid_type = t;
  price = money (pos price) btc;
  expires = expires;
}

abbrev incoming : List (HotBid Str)
incoming = hot (codes "b1") buy 6 90 ∷ hot (codes "b2") buy 9 80 ∷ hot (codes "s3") sell 8 70 ∷ []

abbrev hot_sells : List (StoredHotBid Str)
hot_sells =
    record { hot = hot (codes "s1") sell 4 5; key = codes "1" }
    ∷ record { hot = hot (codes "s2") sell 5 50; key = codes "2" }
    ∷ []

abbrev opened : Market named calm
opened = record { buys = new_queue [] buy; sells = new_queue hot_sells sell; store = 0 }

-- The first sell has expired, the second one and the first buy match, and so do the others.
abbrev report : List Str
report = codes "b1" ∷ codes "s2" ∷ codes "s3" ∷ codes "b2" ∷ []

opened-InOrder : InOrder named calm opened
unfolding new_queue
opened-InOrder true = (λ e. refl, refl)
opened-InOrder false = (λ e. refl, refl)

abbrev closed : Market named calm
closed = (match_all named calm 10 incoming [] opened).1

reported_pairs : match_all named calm 10 incoming [] opened ≡ (ok report, closed)
unfolding match_all new_queue
reported_pairs = refl

match_all-Settled_example : Settled named calm 10 incoming [] opened report closed
match_all-Settled_example =
    match_all-Settled named calm 10 incoming [] opened opened-InOrder reported_pairs

match_all-Returns_example : Returns (match_all named calm 10 incoming []) opened
match_all-Returns_example =
    match_all-Returns named calm (record { reads = λ s. refl; deletes = λ k s. refl }) 10 incoming
      [] opened opened-InOrder

abbrev waiting : Queue Str
waiting = record (new_queue [] buy) { cached = incoming }

flush_cached_lem_example :
    (total length (flush_cached named calm waiting).0
      ≡ total (λ (b : HotBid Str). length b.bid_key) waiting.cached)
    × ((flush_cached named calm waiting).1.cached ≡ [])
flush_cached_lem_example = flush_cached_lem named calm waiting length

abbrev dear : HotBid Str
dear = hot (codes "b2") buy 9 80

abbrev cheap : HotBid Str
cheap = hot (codes "b1") buy 6 90

only_buys : Among (IsOf false) (dear ∷ [])
only_buys zero x e = ap (λ b. is_sell b.bid_type) (sym (some-injective e))
only_buys (suc i) x e = absurd (cc)

dear-IsHeap : IsHeap hotter_than (dear ∷ [])
dear-IsHeap zero above x y hx hy = absurd (omega arith)
dear-IsHeap (suc k) above x y hx hy = absurd (cc)

hot_bids-IsHeap_example :
    IsHeap hotter_than (push hotter_than (dear ∷ []) cheap)
    × IsHeap hotter_than (pop hotter_than (dear ∷ []))
    × ((r : HotBid Str)
        → get_elem? (dear ∷ []) 0 ≡ some r
        → (k : ℕ) (x : HotBid Str) → get_elem? (dear ∷ []) k ≡ some x
        → hotter_than x r ≡ false)
hot_bids-IsHeap_example = hot_bids-IsHeap false (dear ∷ []) cheap only_buys refl dear-IsHeap

abbrev for_sale : Queue Str
for_sale = new_queue hot_sells sell

for_sale-IsRanked : IsRanked true for_sale
unfolding new_queue
for_sale-IsRanked = record {
  ranked = ((refl, tt), (tt, tt));
  drained = λ (es, e). absurd (cc);
  stored_kind = for_sale-kind;
  cached_kind = λ i x e. absurd (cc);
  heap = λ k above x y e. absurd (cc);
}
  where
    for_sale-kind : Among (IsOf true) (hot_list hot_sells)
    for_sale-kind zero x e = ap (λ b. is_sell b.bid_type) (sym (some-injective e))
    for_sale-kind (suc zero) x e = ap (λ b. is_sell b.bid_type) (sym (some-injective e))
    for_sale-kind (suc (suc i)) x e = absurd (cc)

abbrev looked : Queue Str
looked = (tip named calm (for_sale, 0)).1.0

abbrev cheapest : HotBid Str
cheapest = hot (codes "s1") sell 4 5

looked-ok : tip named calm (for_sale, 0) ≡ (ok (some cheapest), (looked, 1))
unfolding tip new_queue
looked-ok = refl

for_sale-IsSound : IsSound for_sale
unfolding new_queue
for_sale-IsSound e = refl

tip-IsBest_example : IsRanked true looked × IsBest true cheapest (content looked)
tip-IsBest_example =
    tip-IsBest named calm true for_sale looked 0 1 cheapest for_sale-IsSound for_sale-IsRanked
      looked-ok

looked-IsRanked : IsRanked true looked
looked-IsRanked =
    (tip-IsBest named calm true for_sale looked 0 1 cheapest for_sale-IsSound for_sale-IsRanked
      looked-ok).0

abbrev popped : Queue Str
popped = (pop_tip named calm (looked, 1)).1.0

popped-ok : pop_tip named calm (looked, 1) ≡ (ok tt, (popped, 3))
unfolding pop_tip tip new_queue
popped-ok = refl

looked-IsStarted : IsStarted looked
unfolding tip new_queue
looked-IsStarted = (_, refl)

pop_tip-IsRanked_example : IsRanked true popped
pop_tip-IsRanked_example =
    pop_tip-IsRanked named calm true looked popped 1 3 looked-IsStarted looked-IsRanked popped-ok
