-- ===== src/Gae/Matching/Flush.antt =====
-- About `Flush` of a queue of hot bids.
use bitwrk.Base.{ℕ, zero, suc, ◌≤◌, ◌≡◌, refl, List, [], ◌∷◌, Str, length, arith}
use bitwrk.Gae.Heap.{pop}
use bitwrk.Gae.Heap.Weight.{total, total-pop}
use bitwrk.Gae.Store.{Keys}
use bitwrk.Gae.Matching.{HotBid, HotStore, hotter_than}
use bitwrk.Gae.Matching.Queues.{Queue, flush_heap, flush_cached}
use bitwrk.Gae.Matching.Skipping.{length-total}

module _ {Key : Type 0} where
  flush_heap_lem :
      (encode : Key → Str) (w : Str → ℕ) (fuel : ℕ) (h : List (HotBid Key))
      → length h ≤ fuel
      → (total w (flush_heap encode fuel h).0 ≡ total (λ b. w (encode b.bid_key)) h)
        × ((flush_heap encode fuel h).1 ≡ [])
  unfolding flush_heap
  flush_heap_lem encode w zero [] b = (refl, refl)
  flush_heap_lem encode w zero (x ∷ h) b = absurd (omega arith)
  flush_heap_lem encode w (suc fuel) [] b = (refl, refl)
  flush_heap_lem encode w (suc fuel) (x ∷ h) b =
      let one : HotBid Key → ℕ = λ c. 1 in
      let rest = pop hotter_than (x ∷ h) in
      let fewer = total-pop hotter_than one (x ∷ h) {x = x} refl in
      let (left, emptied) =
        flush_heap_lem encode w fuel rest
          (omega (arith, b, length-total rest, length-total (x ∷ h), fewer)) in
      (
        omega (arith, left, total-pop hotter_than (λ b. w (encode b.bid_key)) (x ∷ h) {x = x} refl),
        emptied,
      )

-- `Flush` returns the keys of the cached bids, each exactly once, and empties the heap.
pub flush_cached_lem :
    (K : Keys) (Z : HotStore K.Key) (q : Queue K.Key) (w : Str → ℕ)
    → (total w (flush_cached K Z q).0 ≡ total (λ b. w (K.encode b.bid_key)) q.cached)
      × ((flush_cached K Z q).1.cached ≡ [])
unfolding flush_cached
flush_cached_lem K Z q w = flush_heap_lem K.encode w (length q.cached) q.cached (omega arith)
