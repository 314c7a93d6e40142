-- ===== src/Account/Total.antt =====
-- The money of a number of accounts, summed up in one currency.
use bitwrk.Base.{
  ◌≡◌, refl, Bool, true, false, Bool-cases, ◌||◌, List, [], ◌∷◌, Str, str_eq, str_eq_iff,
  if◌then◌else◌, inl, inr, arith,
}
use bitwrk.Int.{ℤ, pos, ◌+ℤ◌, int_laws}

unfoldable pub total : (Str → ℤ) → List Str → ℤ
total w [] = pos 0
total w (p ∷ ps) = w p +ℤ total w ps

abbrev pub contains : Str → List Str → Bool
contains p [] = false
contains p (q ∷ ps) = str_eq q p || contains p ps

-- No participant is listed twice.
abbrev pub Distinct : List Str → Type 0
Distinct [] = Unit
Distinct (p ∷ ps) = (contains p ps ≡ false) × Distinct ps

pub total-ext : (w v : Str → ℤ) (ps : List Str) → ((q : Str) → w q ≡ v q) → total w ps ≡ total v ps
unfolding total
total-ext w v [] h = refl
total-ext w v (p ∷ ps) h = rw (h p, total-ext w v ps h)

-- A change at a participant outside the list does not show.
total-outside :
    (w v : Str → ℤ) (p : Str) (d : ℤ) (ps : List Str)
    → ((q : Str) → w q ≡ (if str_eq q p then v q +ℤ d else v q))
    → contains p ps ≡ false
    → total w ps ≡ total v ps
unfolding total
total-outside w v p d [] h out = refl
total-outside w v p d (q ∷ ps) h out = elim (Bool-cases (str_eq q p)) [
  | inl e ↦ absurd (ground arith)
  | inr e ↦ rw (h q, e, total-outside w v p d ps h (rw e at out))
]

-- A change at one participant of the list shows once.
pub total-change :
    (w v : Str → ℤ) (p : Str) (d : ℤ) (ps : List Str)
    → ((q : Str) → w q ≡ (if str_eq q p then v q +ℤ d else v q))
    → Distinct ps
    → contains p ps ≡ true
    → total w ps ≡ total v ps +ℤ d
unfolding total
total-change w v p d [] h u k = absurd (cc)
total-change w v p d (q ∷ ps) h (fresh, u) k = elim (Bool-cases (str_eq q p)) [
  | inl e ↦
      let same : q ≡ p = (str_eq_iff q p).0 e in
      rw (h q, e, total-outside w v p d ps h (rw same at fresh)) (omega int_laws)
  | inr e ↦ rw (h q, e, total-change w v p d ps h u (rw e at k)) (omega int_laws)
]
