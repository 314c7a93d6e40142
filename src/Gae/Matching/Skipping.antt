-- ===== src/Gae/Matching/Skipping.antt =====
-- About the expired bids that are skipped in `matchIncomingBids`.
use mathlib.Core.Path.{subst}
use bitwrk.Base.{
  ℕ, zero, suc, ◌+◌, ◌≡◌, refl, ap, sym, ◌∙◌, ◌⊎◌, inl, Bool, true, false, Option, none, some, List,
  [], ◌∷◌, length, ltb, arith, Result, ok, Action, bind, bind-eq_ok,
}
use bitwrk.Gae.Store.{Keys}
use bitwrk.Gae.Heap.Weight.{total, some-injective}
use bitwrk.Gae.Matching.{HotBid, HotStore}
use bitwrk.Gae.Matching.Queues.{Queue, tip, pop_tip}
use bitwrk.Gae.Matching.Rounds.{skip_tip, skip_expired}
use bitwrk.Gae.Matching.Contents.{IsStarted, IsSound, weigh, SameBids, started-IsSound}
use bitwrk.Gae.Matching.Tips.{tip_of, tip_lem, pop_tip_lem}

pub length-total {ℓ} : {A : Type ℓ} (xs : List A) → length xs ≡ total (λ _. 1) xs
length-total [] = refl
length-total (x ∷ xs) = omega (arith, length-total xs)

module _ {Key : Type 0} where
  -- Whether all bids of a list have expired.
  abbrev pub HaveExpired : ℕ → List (HotBid Key) → Type 0
  HaveExpired now [] = Unit
  HaveExpired now (b ∷ bs) = (ltb now b.expires ≡ false) × HaveExpired now bs

module _ (K : Keys) (Z : HotStore K.Key) where
  open K use {Key}

  -- No tip of the queue has expired: its tip has not, or the queue is empty.
  abbrev pub IsFresh : ℕ → Queue Key → Type 0
  IsFresh now q =
      (IsStarted q × ((b : HotBid Key) → tip_of K Z q ≡ some b → ltb now b.expires ≡ true))
      ⊎ (weigh (λ _. 1) q ≡ 0)

  pub record Skipped (now : ℕ) (q q' : Queue Key) : Type 0 where
    pub skipped : List (HotBid Key)
    pub gone : HaveExpired now skipped
    pub kept : (w : HotBid Key → ℕ) → weigh w q ≡ total w skipped + weigh w q'
    pub sound : IsSound q'
    pub fresh : IsFresh now q'

  -- Skipping ends at a tip that has not expired.
  stop_lem :
      (now : ℕ) (q q1 : Queue Key)
      → IsStarted q1
      → SameBids q q1
      → ((b : HotBid Key) → tip_of K Z q1 ≡ some b → ltb now b.expires ≡ true)
      → Skipped now q q1
  stop_lem now q q1 started same fresh = record {
    skipped = [];
    gone = tt;
    kept = λ w. omega (arith, same w);
    sound = started-IsSound q1 started;
    fresh = inl (started, fresh);
  }

  -- One round, if what follows it skips expired bids.
  skip_tip_lem :
      (now : ℕ) (rest : Action (Queue Key × Z.State) (Unit {0})) (q q1 : Queue Key) (s1 : Z.State)
      (r : Option (HotBid Key)) {q' : Queue Key} {s' : Z.State}
      → ((q2 : Queue Key) (s2 : Z.State)
          → IsSound q2
          → rest (q2, s2) ≡ (ok tt, (q', s'))
          → Skipped now q2 q')
      → IsStarted q1
      → SameBids q q1
      → tip_of K Z q1 ≡ r
      → skip_tip K Z now rest r (q1, s1) ≡ (ok tt, (q', s'))
      → Skipped now q q'
  unfolding skip_tip
  skip_tip_lem now rest q q1 s1 none ih started same t h =
      subst (Skipped now q) (ap (λ x. x.1.0) h)
        (stop_lem now q q1 started same (λ b e. absurd (cc)))
  skip_tip_lem now rest q q1 s1 (some b) {q'} {s'} ih started same t h =
      go (ltb now b.expires) refl h
    where
      go :
          (y : Bool)
          → ltb now b.expires ≡ y
          → ◌≡◌ {A = Result (Unit {0}) × (Queue Key × Z.State)}
              (elim y [
                | true ↦ (ok tt, (q1, s1))
                | false ↦ bind (pop_tip K Z) (λ _. rest) (q1, s1)
              ])
              (ok tt, (q', s'))
          → Skipped now q q'
      go true y k = subst (Skipped now q) (ap (λ x. x.1.0) k) (
          stop_lem now q q1 started same
            (λ c e. ap (λ x. ltb now x.expires) (some-injective (sym e ∙ t)) ∙ y))
      go false y k =
          let (_, (q2, s2), p, l) = bind-eq_ok (pop_tip K Z) (λ _. rest) (q1, s1) k in
          let (started2, more) = pop_tip_lem K Z b q1 s1 started t p in
          let sk = ih q2 s2 (started-IsSound q2 started2) l in
          record {
            skipped = b ∷ sk.skipped;
            gone = (y, sk.gone);
            kept = λ w. omega (arith, same w, more w, sk.kept w);
            sound = sk.sound;
            fresh = sk.fresh;
          }

  -- Skipping takes expired bids away, and leaves a queue without an expired tip.
  pub skip_expired_lem :
      (now fuel : ℕ) (q : Queue Key) (s : Z.State) {q' : Queue Key} {s' : Z.State}
      → IsSound q
      → skip_expired K Z now fuel (q, s) ≡ (ok tt, (q', s'))
      → Skipped now q q'
  unfolding skip_expired skip_tip
  skip_expired_lem now zero q s {q'} {s'} sound h = absurd (cc)
  skip_expired_lem now (suc fuel) q s {q'} {s'} sound h =
      let (r, (q1, s1), e, k) =
        bind-eq_ok (tip K Z) (skip_tip K Z now (skip_expired K Z now fuel)) (q, s) h in
      let (started, same, is_tip) = tip_lem K Z q s sound e in
      skip_tip_lem now (skip_expired K Z now fuel) q q1 s1 r
        (λ q2 s2. skip_expired_lem now fuel q2 s2) started same is_tip k
