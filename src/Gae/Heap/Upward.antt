-- ===== src/Gae/Heap/Upward.antt =====
-- About sifting up in a heap.
use mathlib.Core.Path.{subst}
use bitwrk.Base.{
  ℕ, zero, suc, ◌<◌, ◌≤◌, ◌≡◌, ◌⊎◌, refl, ap, sym, ◌∙◌, Bool, true, false, inl, inr, some, List, [],
  ◌∷◌, ◌++◌, length, ◌==◌, arith, Bool-cases, ℕ_discrete,
}
use bitwrk.Gae.Heap.{get_elem?, swap, parent, less_at, up, push}
use bitwrk.Gae.Heap.Weight.{some-injective}
use bitwrk.Gae.Heap.Order.{
  Orders, Among, IsHeap, IsHeapAbove, parent_lt, swap_read, less_at-some, less_at_both, carry,
  Among-swap,
}

-- The test of `up`.
is_root : (j : ℕ) → (parent j == j) ≡ true → 0 < j → ⊥
is_root j e pos = ground (arith, parent_lt j pos)

is_no_root : (j : ℕ) → (parent j == j) ≡ false → 0 < j
is_no_root zero e = absurd (cc)
is_no_root (suc j) e = omega arith

module _ {A : Type 0} where
  -- What stands in a slice to which an element was appended.
  pub append_read :
      (h : List A) (x v : A) (k : ℕ)
      → get_elem? (h ++ (x ∷ [])) k ≡ some v
      → ((k ≡ length h) × (x ≡ v)) ⊎ (get_elem? h k ≡ some v)
  append_read [] x v zero e = inl (refl, some-injective e)
  append_read [] x v (suc k) e = absurd (cc)
  append_read (y ∷ h) x v zero e = inr e
  append_read (y ∷ h) x v (suc k) e = elim (append_read h x v k e) [
    | inl (f, g) ↦ inl (ap suc f, g)
    | inr g ↦ inr g
  ]

  pub get_elem?-bound : (h : List A) (k : ℕ) {v : A} → get_elem? h k ≡ some v → k < length h
  get_elem?-bound [] k e = absurd (cc)
  get_elem?-bound (y ∷ h) zero e = omega arith
  get_elem?-bound (y ∷ h) (suc k) e = omega (arith, get_elem?-bound h k e)

module _ {A : Type 0} (less : A → A → Bool) (Q : A → Type 0) (order : Orders less Q) where
  open order use {asym, trans}

  -- A step of sifting up.
  up_step :
      (h : List A) (j : ℕ)
      → Among Q h
      → 0 < j
      → less_at less h j (parent j) ≡ true
      → IsHeapAbove less h j
      → IsHeapAbove less (swap h (parent j) j) (parent j)
  up_step h j all pos_j l above =
      let i = parent j in
      let i_lt = parent_lt j pos_j in
      let (x, p, at_j, at_i, x_p) = less_at_both less h j i l in
      let qx = all j x at_j in
      let qp = all i p at_i in
      let p_x = asym qx qp x_p in
      record {
        others = λ k pos_k k_ne v u at_k at_u. elim (swap_read h i j k at_i at_j at_k) [
          | inl (e, _) ↦ absurd (k_ne e)
          | inr (inl (e, pv)) ↦ elim (swap_read h i j (parent k) at_i at_j at_u) [
            | inl (_, xu) ↦ carry less pv xu p_x
            | inr (inl (f, _)) ↦ absurd (omega (arith, e, f, i_lt, pos_k))
            | inr (inr (f, _, _)) ↦ absurd (f (ap parent e))
          ]
          | inr (inr (_, k_j, hk)) ↦ elim (swap_read h i j (parent k) at_i at_j at_u) [
            | inl (f, xu) ↦
                let v_p = above.others k pos_k k_j v p hk (ap (get_elem? h) f ∙ at_i) in
                carry less refl xu (trans qx qp (all k v hk) p_x v_p)
            | inr (inl (f, pu)) ↦ carry less refl pu (above.children k pos_k f pos_j v p hk at_i)
            | inr (inr (_, _, hp)) ↦ above.others k pos_k k_j v u hk hp
          ]
        ];
        children = λ k pos_k pk pos_i v u at_k at_u.
            let pi_lt = parent_lt i pos_i in
            elim (swap_read h i j (parent i) at_i at_j at_u) [
              | inl (f, _) ↦ absurd (omega (arith, f, pi_lt))
              | inr (inl (f, _)) ↦ absurd (omega (arith, f, pi_lt, i_lt))
              | inr (inr (_, _, hu)) ↦
                  let p_u = above.others i pos_i (λ e. omega (arith, e, i_lt)) p u at_i hu in
                  elim (swap_read h i j k at_i at_j at_k) [
                    | inl (e, _) ↦ absurd (omega (arith, e, pk, parent_lt k pos_k))
                    | inr (inl (_, pv)) ↦ carry less pv refl p_u
                    | inr (inr (_, k_j, hk)) ↦
                        let v_p = above.others k pos_k k_j v p hk (ap (get_elem? h) pk ∙ at_i) in
                        trans (all (parent i) u hu) qp (all k v hk) p_u v_p
                  ]
            ];
      }

  -- When sifting up stops.
  up_stop :
      (h : List A) (j : ℕ)
      → IsHeapAbove less h j
      → (0 < j → less_at less h j (parent j) ≡ false)
      → IsHeap less h
  up_stop h j above stop k pos_k v u hk hp = elim (ℕ_discrete k j) [
    | no ne ↦ above.others k pos_k ne v u hk hp
    | yes e ↦
        sym (less_at-some less h k (parent k) hk hp)
        ∙ ap (λ n. less_at less h n (parent n)) e
        ∙ stop (omega (arith, e, pos_k))
  ]

  up-IsHeap :
      (fuel : ℕ) (h : List A) (j : ℕ)
      → j ≤ fuel
      → Among Q h
      → IsHeapAbove less h j
      → IsHeap less (up less fuel h j)
  unfolding up
  up-IsHeap zero h j b all above = up_stop h j above (λ pos. absurd (omega arith))
  up-IsHeap (suc fuel) h j b all above = elim (Bool-cases (parent j == j)) [
    | inl e ↦ rw (e, up) (up_stop h j above (λ pos. absurd (is_root j e pos)))
    | inr e ↦ elim (Bool-cases (less_at less h j (parent j))) [
      | inl l ↦
          rw (e, up)
            (rw l (
              up-IsHeap fuel (swap h (parent j) j) (parent j)
                (omega (arith, b, parent_lt j (is_no_root j e)))
                (Among-swap less Q h (parent j) j all) (up_step h j all (is_no_root j e) l above)))
      | inr l ↦ rw (e, up) (rw l (up_stop h j above (λ pos. l)))
    ]
  ]

  -- A heap stays one when an element is pushed.
  pub push-IsHeap :
      (h : List A) (x : A) → Among Q h → Q x → IsHeap less h → IsHeap less (push less h x)
  unfolding push
  push-IsHeap h x all qx heap =
      up-IsHeap (length h) (h ++ (x ∷ [])) (length h) (omega arith)
        (λ k v at_k. elim (append_read h x v k at_k) [
          | inl (_, e) ↦ subst Q e qx
          | inr e ↦ all k v e
        ])
        (record {
          others = λ k pos_k ne v u at_k at_u. elim (append_read h x v k at_k) [
            | inl (e, _) ↦ absurd (ne e)
            | inr hk ↦ elim (append_read h x u (parent k) at_u) [
              | inl (e, _) ↦ absurd (omega (arith, e, parent_lt k pos_k, get_elem?-bound h k hk))
              | inr hp ↦ heap k pos_k v u hk hp
            ]
          ];
          children = λ k pos_k e pos_j v u at_k at_u. elim (append_read h x v k at_k) [
            | inl (f, _) ↦ absurd (omega (arith, e, f, parent_lt k pos_k))
            | inr hk ↦ absurd (omega (arith, e, parent_lt k pos_k, get_elem?-bound h k hk))
          ];
        })
