-- ===== src/Gae/Heap/Downward.antt =====
-- About sifting down in a heap.
use mathlib.Core.Path.{subst}
use bitwrk.Base.{
  ℕ, zero, suc, ◌+◌, ◌*◌, ◌<◌, ◌≤◌, ◌≡◌, ◌≢◌, ◌⊎◌, refl, ap, sym, ◌∙◌, Bool, true, false, inl, inr,
  some, List, length, ltb, leb, arith, Bool-cases, ℕ_discrete,
}
use bitwrk.Gae.Heap.{get_elem?, swap, parent, less_at, child, down}
use bitwrk.Gae.Heap.Slices.{get_elem?_lt, length-swap}
use bitwrk.Gae.Heap.Weight.{some-injective}
use bitwrk.Gae.Heap.Sift.{child_lt}
use bitwrk.Gae.Heap.Order.{
  Orders, Among, NotLess, IsHeapTo, parent_lt, swap_read, less_at-some, less_at_both, carry,
  Among-swap,
}

pub record IsHeapBelow {A : Type 0} (less : A → A → Bool) (n : ℕ) (h : List A) (i : ℕ)
    : Type 0 where
  pub others : (k : ℕ) → 0 < k → k < n → parent k ≢ i → NotLess less h k (parent k)
  pub children : (k : ℕ) → 0 < k → k < n → parent k ≡ i → 0 < i → NotLess less h k (parent i)

-- The two children of an element.
children_of : (i k : ℕ) → 0 < k → parent k ≡ i → (k ≡ 2 * i + 1) ⊎ (k ≡ 2 * i + 2)
children_of i k pos e = elim (ℕ_discrete k (2 * i + 1)) [
  | yes y ↦ inl y
  | no n ↦ inr (omega (arith, pos, e, n))
]

-- The child that `down` compares.
child_cases :
    {A : Type 0} (less : A → A → Bool) (h : List A) (i n : ℕ)
    → ((child less h i n ≡ 2 * i + 2) × (less_at less h (2 * i + 2) (2 * i + 1) ≡ true))
      ⊎ ((child less h i n ≡ 2 * i + 1)
          × (2 * i + 2 < n → less_at less h (2 * i + 2) (2 * i + 1) ≡ false))
unfolding child
child_cases less h i n = elim (Bool-cases (ltb (2 * i + 2) n)) [
  | inl e ↦ elim (Bool-cases (less_at less h (2 * i + 2) (2 * i + 1))) [
    | inl l ↦ inl (rw (e, child) (rw l refl), l)
    | inr l ↦ inr (rw (e, child) (rw l refl), λ _. l)
  ]
  | inr e ↦ inr (rw (e, child) refl, λ b. ground arith)
]

module _ {A : Type 0} (less : A → A → Bool) (Q : A → Type 0) (order : Orders less Q) where
  open order use {asym, trans}

  irrefl : (x : A) → Q x → less x x ≡ false
  irrefl x q = elim (Bool-cases (less x x)) [ inl y ↦ asym q q y | inr n ↦ n ]

  child_is : (h : List A) (i n : ℕ) → parent (child less h i n) ≡ i
  child_is h i n = elim (child_cases less h i n) [
    | inl (e, _) ↦ omega (arith, e)
    | inr (e, _) ↦ omega (arith, e)
  ]

  child_pos : (h : List A) (i n : ℕ) → i < child less h i n
  child_pos h i n = elim (child_cases less h i n) [
    | inl (e, _) ↦ omega (arith, e)
    | inr (e, _) ↦ omega (arith, e)
  ]

  pub same_place :
      (h : List A) {i k : ℕ} {v u : A}
      → Among Q h
      → get_elem? h k ≡ some v
      → get_elem? h i ≡ some u
      → k ≡ i
      → less v u ≡ false
  same_place h {i} {k} {v} {u} all hk hi e =
      let q = some-injective (sym hk ∙ ap (get_elem? h) e ∙ hi) in
      subst (λ x. less v x ≡ false) q (irrefl v (all k v hk))

  -- No child is less than the one that is compared.
  child_least :
      (h : List A) (i n k : ℕ)
      → Among Q h
      → 0 < k
      → k < n
      → parent k ≡ i
      → NotLess less h k (child less h i n)
  child_least h i n k all pos lt e v u hk hc = elim (child_cases less h i n) [
    | inl (c, l) ↦ elim (children_of i k pos e) [
      | inl f ↦ asym (all (child less h i n) u hc) (all k v hk) (
          sym (less_at-some less h (child less h i n) k hc hk)
          ∙ ap (λ m. less_at less h m k) c
          ∙ ap (less_at less h (2 * i + 2)) f
          ∙ l)
      | inr f ↦ same_place h all hk hc (f ∙ sym c)
    ]
    | inr (c, l) ↦ elim (children_of i k pos e) [
      | inl f ↦ same_place h all hk hc (f ∙ sym c)
      | inr f ↦
          sym (less_at-some less h k (child less h i n) hk hc)
          ∙ ap (λ m. less_at less h m (child less h i n)) f
          ∙ ap (less_at less h (2 * i + 2)) c
          ∙ l (omega (arith, f, lt))
    ]
  ]

  -- A step of sifting down.
  down_step :
      (n : ℕ) (h : List A) (i : ℕ)
      → Among Q h
      → less_at less h (child less h i n) i ≡ true
      → IsHeapBelow less n h i
      → child less h i n < n
      → IsHeapBelow less n (swap h i (child less h i n)) (child less h i n)
  down_step n h i all l below c_lt =
      let c = child less h i n in
      let i_lt = child_pos h i n in
      let pc = child_is h i n in
      let (y, x, at_c, at_i, y_x) = less_at_both less h c i l in
      let qx = all i x at_i in
      let qy = all c y at_c in
      let x_y = asym qy qx y_x in
      record {
        others = λ k pos_k lt_k pk_ne v u at_k at_u.
            elim (swap_read h i c (parent k) at_i at_c at_u) [
              | inl (f, yu) ↦ elim (swap_read h i c k at_i at_c at_k) [
                | inl (e, _) ↦ absurd (omega (arith, e, f, parent_lt k pos_k))
                | inr (inl (_, xv)) ↦ carry less xv yu x_y
                | inr (inr (_, _, hk)) ↦
                    carry less refl yu (child_least h i n k all pos_k lt_k f v y hk at_c)
              ]
              | inr (inl (f, _)) ↦ absurd (pk_ne f)
              | inr (inr (p_i, p_c, hp)) ↦ elim (swap_read h i c k at_i at_c at_k) [
                | inl (e, yv) ↦
                    let up_i = ap (get_elem? h) (ap parent (sym e)) ∙ hp in
                    carry less yv refl (
                      below.children c (omega (arith, i_lt)) c_lt pc (omega (arith, e, pos_k)) y u
                        at_c up_i)
                | inr (inl (e, _)) ↦ absurd (p_i (ap parent e ∙ pc))
                | inr (inr (_, _, hk)) ↦ below.others k pos_k lt_k p_i v u hk hp
              ]
            ];
        children = λ k pos_k lt_k pk pos_c v u at_k at_u.
            elim (swap_read h i c (parent c) at_i at_c at_u) [
              | inl (_, yu) ↦ elim (swap_read h i c k at_i at_c at_k) [
                | inl (e, _) ↦ absurd (omega (arith, e, pk, parent_lt k pos_k, i_lt))
                | inr (inl (e, _)) ↦ absurd (omega (arith, e, pk, parent_lt k pos_k))
                | inr (inr (_, _, hk)) ↦ carry less refl yu (
                    below.others k pos_k lt_k (λ q. omega (arith, q, pk, i_lt)) v y hk
                      (ap (get_elem? h) pk ∙ at_c))
              ]
              | inr (inl (f, _)) ↦ absurd (omega (arith, f, parent_lt c pos_c))
              | inr (inr (ne, _, _)) ↦ absurd (ne pc)
            ];
      }

  -- When sifting down stops.
  down_end :
      (n : ℕ) (h : List A) (i : ℕ) → n ≤ 2 * i + 1 → IsHeapBelow less n h i → IsHeapTo less n h
  down_end n h i e below k pos lt =
      below.others k pos lt (λ q. omega (arith, e, q, lt, parent_lt k pos))

  down_stop :
      (n : ℕ) (h : List A) (i : ℕ)
      → n ≤ length h
      → Among Q h
      → child less h i n < n
      → less_at less h (child less h i n) i ≡ false
      → IsHeapBelow less n h i
      → IsHeapTo less n h
  down_stop n h i len all c_lt l below k pos lt v u hk hp = elim (ℕ_discrete (parent k) i) [
    | no ne ↦ below.others k pos lt ne v u hk hp
    | yes e ↦
        let c = child less h i n in
        let (y, at_c) = get_elem?_lt h c (omega (arith, len, c_lt)) in
        let y_u = sym (less_at-some less h c (parent k) at_c hp) ∙ ap (less_at less h c) e ∙ l in
        trans (all (parent k) u hp) (all c y at_c) (all k v hk) y_u
          (child_least h i n k all pos lt e v y hk at_c)
  ]

  pub down-IsHeapTo :
      (fuel n : ℕ) (h : List A) (i : ℕ)
      → n ≤ i + fuel
      → n ≤ length h
      → Among Q h
      → IsHeapBelow less n h i
      → IsHeapTo less n (down less fuel h i n)
  unfolding down
  down-IsHeapTo zero n h i b len all below = down_end n h i (omega arith) below
  down-IsHeapTo (suc fuel) n h i b len all below =
      let c = child less h i n in
      elim (Bool-cases (leb n (2 * i + 1))) [
        | inl e ↦ rw (e, down) (down_end n h i (ground arith) below)
        | inr e ↦
            let c_lt = child_lt less h i n e in
            elim (Bool-cases (less_at less h c i)) [
              | inl l ↦
                  rw (e, down)
                    (rw l (
                      down-IsHeapTo fuel n (swap h i c) c (omega (arith, b, child_pos h i n))
                        (omega (arith, len, length-swap h i c)) (Among-swap less Q h i c all)
                        (down_step n h i all l below c_lt)))
              | inr l ↦ rw (e, down) (rw l (down_stop n h i len all c_lt l below))
            ]
      ]
