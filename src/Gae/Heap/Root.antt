-- ===== src/Gae/Heap/Root.antt =====
-- About taking the first element of a heap, which no other is less than.
use mathlib.Core.Path.{subst}
use bitwrk.Base.{
  ℕ, zero, suc, ◌-◌, ◌<◌, ◌≤◌, ◌≡◌, Bool, false, inl, inr, some, List, [], ◌∷◌, ◌++◌, length, arith,
  ℕ_discrete,
}
use bitwrk.Gae.Heap.{push, get_elem?, swap, take, parent, down, pop}
use bitwrk.Gae.Heap.Slices.{get_elem?_lt, length-swap}
use bitwrk.Gae.Heap.Sift.{up_keeps, down_keeps}
use bitwrk.Gae.Heap.Order.{Orders, Among, IsHeap, parent_lt, swap_read, Among-swap}
use bitwrk.Gae.Heap.Upward.{append_read, get_elem?-bound}
use bitwrk.Gae.Heap.Downward.{IsHeapBelow, same_place, down-IsHeapTo}

module _ {A : Type 0} where
  take_read :
      (n : ℕ) (l : List A) (k : ℕ) {v : A}
      → get_elem? (take n l) k ≡ some v
      → (k < n) × (get_elem? l k ≡ some v)
  take_read zero l k e = absurd (cc)
  take_read (suc n) [] k e = absurd (cc)
  take_read (suc n) (x ∷ l) zero e = (omega arith, e)
  take_read (suc n) (x ∷ l) (suc k) e = let (lt, f) = take_read n l k e in (omega (arith, lt), f)

module _ {A : Type 0} (less : A → A → Bool) (Q : A → Type 0) where
  -- What holds of all elements holds of them after a push and after a pop.
  pub push-Among : (h : List A) (x : A) → Among Q h → Q x → Among Q (push less h x)
  unfolding push
  push-Among h x all q =
      up_keeps less (Among Q) (λ l i j a. Among-swap less Q l i j a) (length h) (h ++ (x ∷ []))
        (length h)
        (λ k v at_k. elim (append_read h x v k at_k) [
          | inl (_, e) ↦ subst Q e q
          | inr e ↦ all k v e
        ])

  pub pop-Among : (h : List A) → Among Q h → Among Q (pop less h)
  unfolding pop
  pop-Among [] all k v e = absurd (cc)
  pop-Among (x ∷ []) all k v e = absurd (cc)
  pop-Among (x ∷ y ∷ ys) all k v e =
      let h = x ∷ y ∷ ys in
      let n = length h - 1 in
      let l = down less n (swap h 0 n) 0 n in
      let kept =
        down_keeps less (Among Q) n (λ g i j bi bj a. Among-swap less Q g i j a) n (swap h 0 n) 0
          (omega arith) (Among-swap less Q h 0 n all) in
      let (_, at_k) = take_read n l k e in kept k v at_k

module _ {A : Type 0} (less : A → A → Bool) (Q : A → Type 0) (order : Orders less Q) where
  open order use {asym, trans}

  -- With the last element in its first place, a heap is one below that place.
  swap-IsHeapBelow :
      (h : List A) (n : ℕ) → length h ≡ suc n → IsHeap less h → IsHeapBelow less n (swap h 0 n) 0
  swap-IsHeapBelow h n len heap =
      let (x, at_0) = get_elem?_lt h 0 (omega (arith, len)) in
      let (y, at_n) = get_elem?_lt h n (omega (arith, len)) in
      record {
        others = λ k pos lt ne v u hk hp. elim (swap_read h 0 n k at_0 at_n hk) [
          | inl (e, _) ↦ absurd (omega (arith, e, pos))
          | inr (inl (e, _)) ↦ absurd (omega (arith, e, lt))
          | inr (inr (_, _, hk')) ↦ elim (swap_read h 0 n (parent k) at_0 at_n hp) [
            | inl (e, _) ↦ absurd (ne e)
            | inr (inl (e, _)) ↦ absurd (omega (arith, e, lt, parent_lt k pos))
            | inr (inr (_, _, hp')) ↦ heap k pos v u hk' hp'
          ]
        ];
        children = λ k pos lt e none. absurd (omega (arith, none));
      }

  -- A heap stays one when its first element is popped.
  pub pop-IsHeap : (h : List A) → Among Q h → IsHeap less h → IsHeap less (pop less h)
  unfolding pop
  pop-IsHeap [] all heap = λ k pos v u hk hp. absurd (cc)
  pop-IsHeap (x ∷ xs) all heap = λ k pos v u hk hp.
      let h = x ∷ xs in
      let n = length h - 1 in
      let l = down less n (swap h 0 n) 0 n in
      let (lt, hk') = take_read n l k hk in
      let (_, hp') = take_read n l (parent k) hp in
      down-IsHeapTo less Q order n n (swap h 0 n) 0 (omega arith) (omega (arith, length-swap h 0 n))
        (Among-swap less Q h 0 n all) (swap-IsHeapBelow h n (omega arith) heap) k pos lt v u hk' hp'

  root_within :
      (fuel : ℕ) (h : List A) {r : A}
      → Among Q h
      → IsHeap less h
      → get_elem? h 0 ≡ some r
      → (k : ℕ) (x : A) → k ≤ fuel
      → get_elem? h k ≡ some x
      → less x r ≡ false
  root_within zero h all heap at_0 k x b hk = same_place less Q order h all hk at_0 (omega arith)
  root_within (suc fuel) h {r} all heap at_0 k x b hk = elim (ℕ_discrete k 0) [
    | yes e ↦ same_place less Q order h all hk at_0 e
    | no ne ↦
        let pos : 0 < k = omega (arith, ne) in
        let below = parent_lt k pos in
        let (p, hp) = get_elem?_lt h (parent k) (omega (arith, below, get_elem?-bound h k hk)) in
        trans (all 0 r at_0) (all (parent k) p hp) (all k x hk)
          (root_within fuel h all heap at_0 (parent k) p (omega (arith, b, below)) hp)
          (heap k pos x p hk hp)
  ]

  -- No element of a heap is less than the first one.
  pub root_least :
      (h : List A) {r : A}
      → Among Q h
      → IsHeap less h
      → get_elem? h 0 ≡ some r
      → (k : ℕ) (x : A) → get_elem? h k ≡ some x
      → less x r ≡ false
  root_least h all heap at_0 k x hk = root_within k h all heap at_0 k x (omega arith) hk
