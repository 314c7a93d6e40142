-- ===== src/Gae/Matching/Hotter.antt =====
-- About the order of hot bids, and the heap in which a queue keeps them.
use bitwrk.Base.{ℕ, ◌≡◌, ap, sym, ◌∙◌, Bool, true, false, some, List, ltb, if◌then◌else◌, arith}
use bitwrk.Int.{ℤ, ltb_ℤ, eqb_ℤ}
use bitwrk.Bid.{is_sell}
use bitwrk.Gae.Heap.{get_elem?, push, pop}
use bitwrk.Gae.Heap.Order.{Orders, Among, IsHeap}
use bitwrk.Gae.Heap.Upward.{push-IsHeap}
use bitwrk.Gae.Heap.Root.{pop-IsHeap, root_least}
use bitwrk.Gae.Matching.{HotBid, hotter_than}

-- The order of two prices and two times, as `hotterThan` decides it.
abbrev pub colder : Bool → ℤ → ℤ → ℕ → ℕ → Bool
colder sells a b s t = if eqb_ℤ a b then ltb s t else if sells then ltb_ℤ a b else ltb_ℤ b a

colder_asym :
    (sells : Bool) (a b : ℤ) (s t : ℕ) → colder sells a b s t ≡ true → colder sells b a t s ≡ false
colder_asym true a b s t h = ground arith
colder_asym false a b s t h = ground arith

colder_trans :
    (sells : Bool) (a b c : ℤ) (s t u : ℕ)
    → colder sells b a t s ≡ false
    → colder sells c b u t ≡ false
    → colder sells c a u s ≡ false
colder_trans true a b c s t u h k = ground arith
colder_trans false a b c s t u h k = ground arith

module _ {Key : Type 0} (sells : Bool) where
  -- Whether a hot bid is a sell, or is not.
  abbrev pub IsOf : HotBid Key → Type 0
  IsOf b = is_sell b.bid_type ≡ sells

  pub hotter-colder :
      (x y : HotBid Key)
      → IsOf x
      → hotter_than x y ≡ colder sells x.price.amount y.price.amount x.expires y.expires
  unfolding hotter_than
  hotter-colder x y q = ap (λ s. colder s x.price.amount y.price.amount x.expires y.expires) q

  hotter_asym :
      (x y : HotBid Key) → IsOf x → IsOf y → hotter_than x y ≡ true → hotter_than y x ≡ false
  hotter_asym x y qx qy h =
      hotter-colder y x qy
      ∙ colder_asym sells x.price.amount y.price.amount x.expires y.expires
          (sym (hotter-colder x y qx) ∙ h)

  hotter_trans :
      (x y z : HotBid Key)
      → IsOf y
      → IsOf z
      → hotter_than y x ≡ false
      → hotter_than z y ≡ false
      → hotter_than z x ≡ false
  hotter_trans x y z qy qz h k =
      hotter-colder z x qz
      ∙ colder_trans sells x.price.amount y.price.amount z.price.amount x.expires y.expires
          z.expires (sym (hotter-colder y x qy) ∙ h) (sym (hotter-colder z y qz) ∙ k)

  pub hotter-Orders : Orders hotter_than IsOf
  hotter-Orders = record {
    asym = λ {x} {y} qx qy h. hotter_asym x y qx qy h;
    trans = λ {x} {y} {z} qx qy qz h k. hotter_trans x y z qy qz h k;
  }

  -- Hot bids all of which are sells, or none of which is, are kept in a heap: if no bid is hotter
  -- than its parent, then this is so again after a push of such a bid, and after a pop, and no bid
  -- is hotter than the first one.
  pub hot_bids-IsHeap :
      (h : List (HotBid Key)) (b : HotBid Key)
      → Among IsOf h
      → IsOf b
      → IsHeap hotter_than h
      → IsHeap hotter_than (push hotter_than h b)
        × IsHeap hotter_than (pop hotter_than h)
        × ((r : HotBid Key)
            → get_elem? h 0 ≡ some r
            → (k : ℕ) (x : HotBid Key) → get_elem? h k ≡ some x
            → hotter_than x r ≡ false)
  hot_bids-IsHeap h b all q heap = (
    push-IsHeap hotter_than IsOf hotter-Orders h b all q heap,
    pop-IsHeap hotter_than IsOf hotter-Orders h all heap,
    λ r at_0 k x hk. root_least hotter_than IsOf hotter-Orders h all heap at_0 k x hk,
  )
