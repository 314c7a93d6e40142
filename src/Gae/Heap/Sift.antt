-- ===== src/Gae/Heap/Sift.antt =====
-- About what sifting up and down keeps.
use bitwrk.Base.{
  ℕ, zero, suc, ◌+◌, ◌*◌, ◌<◌, ◌≡◌, Bool, true, false, inl, inr, List, leb, ◌==◌, arith, Bool-cases,
}
use bitwrk.Gae.Heap.{swap, parent, less_at, up, child, down}

module _ {ℓ} {A : Type ℓ} (less : A → A → Bool) where
  -- Sifting up and down keeps what swaps keep.
  pub up_keeps {κ} :
      (P : List A → Type κ)
      → ((h : List A) (i j : ℕ) → P h → P (swap h i j))
      → (fuel : ℕ) (h : List A) (j : ℕ) → P h
      → P (up less fuel h j)
  unfolding up
  up_keeps P step zero h j p = p
  up_keeps P step (suc fuel) h j p =
      let next = up_keeps P step fuel (swap h (parent j) j) (parent j) (step h (parent j) j p) in
      elim (parent j == j)
        as (λ b. P (elim b [
          | true ↦ h
          | false ↦ elim (less_at less h j (parent j)) [
            | false ↦ h
            | true ↦ up less fuel (swap h (parent j) j) (parent j)
          ]
        ])) [
          | true ↦ p
          | false ↦
              elim (less_at less h j (parent j))
                as (λ b.
                  P (elim b [ false ↦ h | true ↦ up less fuel (swap h (parent j) j) (parent j) ])) [
                    | false ↦ p
                    | true ↦ next
                  ]
        ]

  pub child_lt : (h : List A) (i n : ℕ) → leb n (2 * i + 1) ≡ false → child less h i n < n
  unfolding child
  child_lt h i n b = ground arith

  pub down_keeps {κ} :
      (P : List A → Type κ) (n : ℕ)
      → ((h : List A) (i j : ℕ) → i < n → j < n → P h → P (swap h i j))
      → (fuel : ℕ) (h : List A) (i : ℕ) → i < n
      → P h
      → P (down less fuel h i n)
  unfolding down
  down_keeps P n step zero h i b p = p
  down_keeps P n step (suc fuel) h i b p =
      let c = child less h i n in
      elim (Bool-cases (leb n (2 * i + 1))) [
        | inl e ↦ rw (e, down) p
        | inr e ↦
            let c_lt = child_lt h i n e in
            let next = down_keeps P n step fuel (swap h i c) c c_lt (step h i c b c_lt p) in
            rw (e, down)
              (elim (less_at less h c i)
                as (λ b. P (elim b [ false ↦ h | true ↦ down less fuel (swap h i c) c n ])) [
                  | false ↦ p
                  | true ↦ next
                ])
      ]
