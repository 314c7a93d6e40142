-- ===== src/Gae/Heap.antt =====
-- A heap in a slice: the methods of `hotBidsHeap` in server/gae/gae_matching.go, with `Push` and `Pop`
-- of Go's container/heap, which are called with them.
pub mod Slices
pub mod Sift
pub mod Weight
pub mod Order
pub mod Upward
pub mod Downward
pub mod Root
use bitwrk.Base.{
  ℕ, zero, suc, ◌+◌, ◌-◌, ◌*◌, ◌/◌, Bool, true, false, ◌&&◌, Option, none, some, List, [], ◌∷◌,
  ◌++◌, length, ltb, leb, ◌==◌, if◌then◌else◌,
}

module _ {ℓ} {A : Type ℓ} where
  abbrev pub get_elem? : List A → ℕ → Option A
  get_elem? [] i = none
  get_elem? (x ∷ xs) zero = some x
  get_elem? (x ∷ xs) (suc i) = get_elem? xs i

  -- A write out of bounds changes nothing.
  abbrev pub set : List A → ℕ → A → List A
  set [] i v = []
  set (x ∷ xs) zero v = v ∷ xs
  set (x ∷ xs) (suc i) v = x ∷ set xs i v

  abbrev pub take : ℕ → List A → List A
  take zero xs = []
  take (suc n) [] = []
  take (suc n) (x ∷ xs) = x ∷ take n xs

  -- `Swap`; the indices are in bounds wherever it is called.
  unfoldable pub swap : List A → ℕ → ℕ → List A
  swap h i j = elim (get_elem? h i) [
    | none ↦ h
    | some x ↦ elim (get_elem? h j) [ none ↦ h | some y ↦ set (set h i y) j x ]
  ]

-- The index of an element's parent; `(0 - 1) / 2` is 0 in Go as well.
abbrev pub parent : ℕ → ℕ
parent j = (j - 1) / 2

module _ {ℓ} {A : Type ℓ} (less : A → A → Bool) where
  -- `Less`
  unfoldable pub less_at : List A → ℕ → ℕ → Bool
  less_at h i j = elim (get_elem? h i) [
    | none ↦ false
    | some x ↦ elim (get_elem? h j) [ none ↦ false | some y ↦ less x y ]
  ]

  -- `up`, on fuel, of which `j` is enough.
  unfoldable pub up : ℕ → List A → ℕ → List A
  unfolding less_at swap
  up zero h j = h
  up (suc fuel) h j = elim (parent j == j) [
    | true ↦ h
    | false ↦ elim (less_at h j (parent j)) [
      | false ↦ h
      | true ↦ up fuel (swap h (parent j) j) (parent j)
    ]
  ]

  -- The child that an element is compared to: the second one if it is there and less.
  unfoldable pub child : List A → ℕ → ℕ → ℕ
  unfolding less_at
  child h i n =
      if ltb (2 * i + 2) n && less_at h (2 * i + 2) (2 * i + 1) then 2 * i + 2 else 2 * i + 1

  -- `down`, on fuel, of which `n - i` is enough.
  unfoldable pub down : ℕ → List A → ℕ → ℕ → List A
  unfolding child less_at swap
  down zero h i n = h
  down (suc fuel) h i n = elim (leb n (2 * i + 1)) [
    | true ↦ h
    | false ↦ elim (less_at h (child h i n) i) [
      | false ↦ h
      | true ↦ down fuel (swap h i (child h i n)) (child h i n) n
    ]
  ]

  -- `heap.Push`
  unfoldable pub push : List A → A → List A
  unfolding up
  push h x = up (length h) (h ++ (x ∷ [])) (length h)

  -- What `heap.Pop` leaves of a heap that is not empty; callers do not use the element.
  unfoldable pub pop : List A → List A
  unfolding down swap
  pop h = let n = length h - 1 in take n (down n (swap h 0 n) 0 n)
