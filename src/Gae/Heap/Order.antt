-- ===== src/Gae/Heap/Order.antt =====
-- About the order of a heap: no element is less than its parent.
use mathlib.Core.Path.{subst}
use bitwrk.Base.{
  ℕ, ◌<◌, ◌≡◌, ◌≢◌, ◌⊎◌, refl, ap, sym, ◌∙◌, Bool, true, false, inl, inr, Option, none, some,
  Option-cases, List, arith, ℕ_discrete,
}
use bitwrk.Gae.Heap.{get_elem?, swap, parent, less_at}
use bitwrk.Gae.Heap.Slices.{
  get_elem?-swap_first, get_elem?-swap_second, get_elem?-swap_ne, swap_missing, swap_missing_second,
}
use bitwrk.Gae.Heap.Weight.{some-injective}

-- Whether all elements satisfy `Q`.
abbrev pub Among : {A : Type 0} → (A → Type 0) → List A → Type 0
Among {A = A} Q h = (i : ℕ) (x : A) → get_elem? h i ≡ some x → Q x

module _ {A : Type 0} (less : A → A → Bool) (Q : A → Type 0) where
  -- An order of the elements that satisfy `Q`.
  pub record Orders : Type 0 where
    pub asym : {x y : A} → Q x → Q y → less x y ≡ true → less y x ≡ false
    pub trans :
        {x y z : A} → Q x → Q y → Q z → less y x ≡ false → less z y ≡ false → less z x ≡ false

module _ {A : Type 0} (less : A → A → Bool) where
  -- The element at an index is not less than that at another one.
  abbrev pub NotLess : List A → ℕ → ℕ → Type 0
  NotLess h k p = (x y : A) → get_elem? h k ≡ some x → get_elem? h p ≡ some y → less x y ≡ false

  -- No element is less than its parent; or none of the first `n`.
  abbrev pub IsHeap : List A → Type 0
  IsHeap h = (k : ℕ) → 0 < k → NotLess h k (parent k)

  abbrev pub IsHeapTo : ℕ → List A → Type 0
  IsHeapTo n h = (k : ℕ) → 0 < k → k < n → NotLess h k (parent k)

  -- A heap but for the element at `j`, which may be less than its parent, but no child of which is.
  pub record IsHeapAbove (h : List A) (j : ℕ) : Type 0 where
    pub others : (k : ℕ) → 0 < k → k ≢ j → NotLess h k (parent k)
    pub children : (k : ℕ) → 0 < k → parent k ≡ j → 0 < j → NotLess h k (parent j)

pub parent_lt : (k : ℕ) → 0 < k → parent k < k
parent_lt k h = omega arith

module _ {A : Type 0} where
  -- What stands at an index after a swap.
  pub swap_read :
      (h : List A) (i j k : ℕ) {x y v : A}
      → get_elem? h i ≡ some x
      → get_elem? h j ≡ some y
      → get_elem? (swap h i j) k ≡ some v
      → ((k ≡ i) × (y ≡ v)) ⊎ (((k ≡ j) × (x ≡ v)) ⊎ ((k ≢ i) × (k ≢ j) × (get_elem? h k ≡ some v)))
  swap_read h i j k at_i at_j at_k = elim (ℕ_discrete k i) [
    | yes e ↦ inl (
      e,
      some-injective
          (sym (get_elem?-swap_first h i j at_i at_j) ∙ ap (get_elem? (swap h i j)) (sym e) ∙ at_k),
    )
    | no ne ↦ elim (ℕ_discrete k j) [
      | yes e ↦ inr (
          inl (
            e,
            some-injective (
                sym (get_elem?-swap_second h i j at_i at_j)
                ∙ ap (get_elem? (swap h i j)) (sym e)
                ∙ at_k),
          ))
      | no ne' ↦ inr (inr (ne, ne', sym (get_elem?-swap_ne h i j k ne ne') ∙ at_k))
    ]
  ]

module _ {A : Type 0} (less : A → A → Bool) where
  pub less_at-some :
      (h : List A) (i j : ℕ) {x y : A}
      → get_elem? h i ≡ some x
      → get_elem? h j ≡ some y
      → less_at less h i j ≡ less x y
  unfolding less_at
  less_at-some h i j e f = rw (e, less_at) (rw f refl)

  -- Both elements are there if one is less.
  pub less_at_both :
      (h : List A) (i j : ℕ)
      → less_at less h i j ≡ true
      → (x y : A) × (get_elem? h i ≡ some x) × (get_elem? h j ≡ some y) × (less x y ≡ true)
  unfolding less_at
  less_at_both h i j l = go (get_elem? h i) (get_elem? h j) l
    where
      go :
          (a b : Option A)
          → elim a [ none ↦ false | some x ↦ elim b [ none ↦ false | some y ↦ less x y ] ] ≡ true
          → (x y : A) × (a ≡ some x) × (b ≡ some y) × (less x y ≡ true)
      go none b l = absurd (cc)
      go (some x) none l = absurd (cc)
      go (some x) (some y) l = (x, y, refl, refl, l)

  pub carry : {p x v u : A} → p ≡ v → x ≡ u → less p x ≡ false → less v u ≡ false
  carry e f h = cc

module _ {A : Type 0} (less : A → A → Bool) (Q : A → Type 0) where
  pub Among-swap : (h : List A) (i j : ℕ) → Among Q h → Among Q (swap h i j)
  Among-swap h i j all k v at_k = elim (Option-cases (get_elem? h i)) [
    | inl e ↦ all k v (ap (λ l. get_elem? l k) (sym (swap_missing h i j e)) ∙ at_k)
    | inr (x, at_i) ↦ elim (Option-cases (get_elem? h j)) [
      | inl e ↦ all k v (ap (λ l. get_elem? l k) (sym (swap_missing_second h i j e)) ∙ at_k)
      | inr (y, at_j) ↦ elim (swap_read h i j k at_i at_j at_k) [
        | inl (_, e) ↦ subst Q e (all j y at_j)
        | inr (inl (_, e)) ↦ subst Q e (all i x at_i)
        | inr (inr (_, _, hk)) ↦ all k v hk
      ]
    ]
  ]
