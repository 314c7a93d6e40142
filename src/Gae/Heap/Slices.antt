-- ===== src/Gae/Heap/Slices.antt =====
-- About reading and swapping the elements of a slice.
use bitwrk.Base.{
  ℕ, zero, suc, ◌<◌, ◌≡◌, ◌≢◌, refl, ap, sym, ◌∙◌, inl, inr, none, some, Option-cases, List, [],
  ◌∷◌, length, arith, ℕ_discrete,
}
use bitwrk.Gae.Heap.{get_elem?, set, swap}

module _ {ℓ} {A : Type ℓ} where
  pub get_elem?-set_self :
      (xs : List A) (i : ℕ) {x : A} (y : A)
      → get_elem? xs i ≡ some x
      → get_elem? (set xs i y) i ≡ some y
  get_elem?-set_self [] i y h = absurd (cc)
  get_elem?-set_self (z ∷ xs) zero y h = refl
  get_elem?-set_self (z ∷ xs) (suc i) y h = get_elem?-set_self xs i y h

  pub get_elem?-set_ne :
      (xs : List A) (i k : ℕ) (y : A) → k ≢ i → get_elem? (set xs i y) k ≡ get_elem? xs k
  get_elem?-set_ne [] i k y h = refl
  get_elem?-set_ne (z ∷ xs) zero zero y h = absurd (h refl)
  get_elem?-set_ne (z ∷ xs) zero (suc k) y h = refl
  get_elem?-set_ne (z ∷ xs) (suc i) zero y h = refl
  get_elem?-set_ne (z ∷ xs) (suc i) (suc k) y h = get_elem?-set_ne xs i k y (λ e. h (ap suc e))

  pub length-set : (xs : List A) (i : ℕ) (y : A) → length (set xs i y) ≡ length xs
  length-set [] i y = refl
  length-set (z ∷ xs) zero y = refl
  length-set (z ∷ xs) (suc i) y = ap suc (length-set xs i y)

  pub get_elem?_lt : (xs : List A) (i : ℕ) → i < length xs → (x : A) × (get_elem? xs i ≡ some x)
  get_elem?_lt [] i h = absurd (omega arith)
  get_elem?_lt (x ∷ xs) zero h = (x, refl)
  get_elem?_lt (x ∷ xs) (suc i) h = get_elem?_lt xs i (omega arith)

  module _ (h : List A) (i j : ℕ) {x y : A} (at_i : get_elem? h i ≡ some x)
      (at_j : get_elem? h j ≡ some y) where
    -- What a swap of two elements writes.
    pub swap_lem : swap h i j ≡ set (set h i y) j x
    unfolding swap
    swap_lem = rw (at_i, swap) (rw (at_j) refl)

    pub at_j-set : get_elem? (set h i y) j ≡ some y
    at_j-set = elim (ℕ_discrete j i) [
      | yes e ↦ ap (get_elem? (set h i y)) e ∙ get_elem?-set_self h i y at_i
      | no ne ↦ get_elem?-set_ne h i j y ne ∙ at_j
    ]

    pub get_elem?-swap_second : get_elem? (swap h i j) j ≡ some x
    get_elem?-swap_second =
        ap (λ l. get_elem? l j) swap_lem ∙ get_elem?-set_self (set h i y) j x at_j-set

    pub get_elem?-swap_first : get_elem? (swap h i j) i ≡ some y
    get_elem?-swap_first = ap (λ l. get_elem? l i) swap_lem ∙ elim (ℕ_discrete i j) [
      | yes e ↦
          ap (get_elem? (set (set h i y) j x)) e
          ∙ get_elem?-set_self (set h i y) j x at_j-set
          ∙ sym at_i
          ∙ ap (get_elem? h) e
          ∙ at_j
      | no ne ↦ get_elem?-set_ne (set h i y) j i x ne ∙ get_elem?-set_self h i y at_i
    ]

  -- Out of bounds, a swap changes nothing.
  pub swap_missing : (h : List A) (i j : ℕ) → get_elem? h i ≡ none → swap h i j ≡ h
  unfolding swap
  swap_missing h i j e = rw (e, swap) refl

  pub swap_missing_second : (h : List A) (i j : ℕ) → get_elem? h j ≡ none → swap h i j ≡ h
  unfolding swap
  swap_missing_second h i j e = elim (Option-cases (get_elem? h i)) [
    | inl e' ↦ swap_missing h i j e'
    | inr (x, e') ↦ rw (e', swap) (rw e refl)
  ]

  pub get_elem?-swap_ne :
      (h : List A) (i j k : ℕ) → k ≢ i → k ≢ j → get_elem? (swap h i j) k ≡ get_elem? h k
  get_elem?-swap_ne h i j k ki kj = elim (Option-cases (get_elem? h i)) [
    | inl e ↦ ap (λ l. get_elem? l k) (swap_missing h i j e)
    | inr (x, e) ↦ elim (Option-cases (get_elem? h j)) [
      | inl e' ↦ ap (λ l. get_elem? l k) (swap_missing_second h i j e')
      | inr (y, e') ↦
          ap (λ l. get_elem? l k) (swap_lem h i j e e')
          ∙ get_elem?-set_ne (set h i y) j k x kj
          ∙ get_elem?-set_ne h i k y ki
    ]
  ]

  pub length-swap : (h : List A) (i j : ℕ) → length (swap h i j) ≡ length h
  length-swap h i j = elim (Option-cases (get_elem? h i)) [
    | inl e ↦ ap length (swap_missing h i j e)
    | inr (x, e) ↦ elim (Option-cases (get_elem? h j)) [
      | inl e' ↦ ap length (swap_missing_second h i j e')
      | inr (y, e') ↦
          ap length (swap_lem h i j e e') ∙ length-set (set h i y) j x ∙ length-set h i y
    ]
  ]
