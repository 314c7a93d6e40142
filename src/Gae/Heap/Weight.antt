-- ===== src/Gae/Heap/Weight.antt =====
-- About the elements that a heap holds, counted by any weight of elements.
use bitwrk.Base.{
  ℕ, zero, suc, ◌+◌, ◌-◌, ◌≡◌, ap, ◌∙◌, Bool, inl, inr, some, Option-cases, List, [], ◌∷◌, ◌++◌,
  length, arith,
}
use bitwrk.Gae.Heap.{get_elem?, set, take, swap, down, push, pop}
use bitwrk.Gae.Heap.Sift.{up_keeps, down_keeps}
use bitwrk.Gae.Heap.Slices.{
  get_elem?_lt, swap_lem, swap_missing, swap_missing_second, at_j-set, get_elem?-swap_ne,
  get_elem?-swap_second, length-swap,
}

-- What all the elements of a list weigh together. With a weight of 1 on some elements, and of 0 on
-- the others, it is the number of these elements.
abbrev pub total {ℓ} : {A : Type ℓ} → (A → ℕ) → List A → ℕ
total w [] = 0
total w (x ∷ xs) = w x + total w xs

pub some-injective {ℓ} : {A : Type ℓ} {x y : A} → some x ≡ some y → x ≡ y
some-injective h = cc

module _ {ℓ} {A : Type ℓ} (w : A → ℕ) where
  pub total-append : (xs ys : List A) → total w (xs ++ ys) ≡ total w xs + total w ys
  total-append [] ys = omega arith
  total-append (x ∷ xs) ys = omega (arith, total-append xs ys)

  total-set :
      (xs : List A) (i : ℕ) (x y : A)
      → get_elem? xs i ≡ some x
      → total w (set xs i y) + w x ≡ total w xs + w y
  total-set [] i x y h = absurd (cc)
  total-set (z ∷ xs) zero x y h = omega (arith, ap w (some-injective h))
  total-set (z ∷ xs) (suc i) x y h = omega (arith, total-set xs i x y h)

  total-swap : (h : List A) (i j : ℕ) → total w (swap h i j) ≡ total w h
  total-swap h i j = elim (Option-cases (get_elem? h i)) [
    | inl e ↦ ap (total w) (swap_missing h i j e)
    | inr (x, e) ↦ elim (Option-cases (get_elem? h j)) [
      | inl e' ↦ ap (total w) (swap_missing_second h i j e')
      | inr (y, e') ↦
          ap (total w) (swap_lem h i j e e')
          ∙ omega (arith, total-set h i x y e, total-set (set h i y) j y x (at_j-set h i j e e'))
    ]
  ]

  total-take :
      (n : ℕ) (xs : List A) {x : A}
      → length xs ≡ suc n
      → get_elem? xs n ≡ some x
      → total w (take n xs) + w x ≡ total w xs
  total-take n [] l e = absurd (cc)
  total-take zero (x ∷ []) l e = omega (arith, ap w (some-injective e))
  total-take zero (x ∷ y ∷ xs) l e = absurd (omega arith)
  total-take (suc n) (x ∷ xs) l e = omega (arith, total-take n xs (omega arith) e)

module _ {ℓ} {A : Type ℓ} (less : A → A → Bool) (w : A → ℕ) where
  pub total-push : (h : List A) (x : A) → total w (push less h x) ≡ total w h + w x
  unfolding push
  total-push h x =
      up_keeps less (λ l. total w l ≡ total w h + w x) (λ l i j e. total-swap w l i j ∙ e)
        (length h) (h ++ (x ∷ [])) (length h) (omega (arith, total-append w h (x ∷ [])))

  -- `Pop` takes the first element away.
  pub total-pop :
      (h : List A) {x : A} → get_elem? h 0 ≡ some x → total w (pop less h) + w x ≡ total w h
  unfolding pop
  total-pop [] e = absurd (cc)
  total-pop (y ∷ []) e = omega (arith, ap w (some-injective e))
  total-pop (y ∷ z ∷ ys) {x} e =
      let h = y ∷ z ∷ ys in
      let n = length h - 1 in
      let (v, at_n) = get_elem?_lt h n (omega arith) in
      let Kept =
        λ (l : List A). (total w l ≡ total w h) × (length l ≡ suc n) × (get_elem? l n ≡ some x) in
      let (t, l, g) =
        down_keeps less Kept n
          (λ k i j bi bj (t, l, g). (
            total-swap w k i j ∙ t,
            length-swap k i j ∙ l,
            get_elem?-swap_ne k i j n (λ q. omega (arith, q)) (λ q. omega (arith, q)) ∙ g,
          ))
          n (swap h 0 n) 0 (omega arith)
          (
            total-swap w h 0 n,
            length-swap h 0 n ∙ omega arith,
            get_elem?-swap_second h 0 n e at_n,
          ) in
      total-take w n (down less n (swap h 0 n) 0 n) l g ∙ t
