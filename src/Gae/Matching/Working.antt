-- ===== src/Gae/Matching/Working.antt =====
-- About a queue of hot bids on a datastore whose calls succeed.
use mathlib.Core.Path.{subst}
use bitwrk.Base.{
  ℕ, zero, suc, ◌<◌, arith, ◌≡◌, refl, ap, sym, ◌∙◌, true, false, Option, none, some, List, [], ◌∷◌,
  ltb, Result, ok, err, panic, Action, bind,
}
use bitwrk.Gae.Store.{Keys}
use bitwrk.Gae.Matching.{HotBid, StoredHotBid, HotStore}
use bitwrk.Gae.Matching.Queues.{
  Queue, advance_iter, fetch_next, init, tip, look_at_tip, push_cached, on_store, pop_chosen,
  pop_tip, insert_bid,
}
use bitwrk.Gae.Matching.Rounds.{skip_tip, skip_expired}
use bitwrk.Gae.Matching.Contents.{weigh, IsStarted, IsSound, started-IsSound, choose_rule, init_lem}
use bitwrk.Gae.Matching.Tips.{tip_lem, pop_tip_lem, with_tip_started, look_started, tip_of}

-- A call that returns a value.
abbrev pub Returns : {S A : Type 0} → Action S A → S → Type 0
Returns {S} {A} call s = (a : A) × (s' : S) × (call s ≡ (ok a, s'))

pub bind-Returns :
    {S A B : Type 0} (call : Action S A) (rest : A → Action S B) (s : S)
    → Returns call s
    → ((a : A) (s' : S) → call s ≡ (ok a, s') → Returns (rest a) s')
    → Returns (bind call rest) s
bind-Returns {S} {A} {B} call rest s (a, s1, e) h =
    let (b, s2, k) = h a s1 e in
    (b, s2, ap (λ r. bind {S = S} {A = A} {B = B} (λ _. r) rest s) e ∙ k)

module _ {Key : Type 0} where
  -- A store on which nothing that matching calls fails.
  pub record NeverFails (Z : HotStore Key) : Type 0 where
    pub reads : (s : Z.State) → (Z.read_next s).0 ≡ ok tt
    pub deletes : (k : Key) (s : Z.State) → (Z.delete k s).0 ≡ ok tt

module _ (K : Keys) (Z : HotStore K.Key) (works : NeverFails Z) where
  open K use {Key}

  pub on_store-Returns :
      (call : Action Z.State (Unit {0})) (q : Queue Key) (s : Z.State)
      → (call s).0 ≡ ok tt
      → on_store K Z call (q, s) ≡ (ok tt, (q, (call s).1))
  on_store-Returns call q s e = ap (λ r. (r, (q, (call s).1))) e

  pub fetch_next-Returns :
      (q : Queue Key) (s : Z.State) → IsStarted q → Returns (fetch_next K Z) (q, s)
  unfolding fetch_next
  fetch_next-Returns q s (es, i) = go (Z.read_next s) q.iter es (works.reads s) i
    where
      go :
          (r : Result (Unit {0}) × Z.State) (it : Option (List (StoredHotBid Key)))
          (es : List (StoredHotBid Key))
          → r.0 ≡ ok tt
          → it ≡ some es
          → (a : Unit {0}) × (p : Queue Key × Z.State) × ◌≡◌
              {A = Result (Unit {0}) × (Queue Key × Z.State)}
              (elim r.0 [
                | err e ↦ (err e, (q, r.1))
                | panic ↦ (panic, (q, r.1))
                | ok _ ↦ elim (advance_iter K Z q it) [
                  | ok q' ↦ (ok tt, (q', r.1))
                  | err e ↦ (err e, (q, r.1))
                  | panic ↦ (panic, (q, r.1))
                ]
              ])
              (ok a, p)
      go (ok u, s1) none es e i = absurd (cc)
      go (ok u, s1) (some []) es e i = (tt, (record q { stored_tip = none }, s1), refl)
      go (ok u, s1) (some (x ∷ xs)) es e i =
          (tt, (record q { stored_tip = some x; iter = some xs }, s1), refl)
      go (err x, s1) it es e i = absurd (cc)
      go (panic, s1) it es e i = absurd (cc)

  pub init-Returns : (q : Queue Key) (s : Z.State) → Returns (init K Z) (q, s)
  unfolding init
  init-Returns q s = go q.iter
    where
      go :
          (it : Option (List (StoredHotBid Key)))
          → (a : Unit {0}) × (p : Queue Key × Z.State) × ◌≡◌
              {A = Result (Unit {0}) × (Queue Key × Z.State)}
              (elim it [
                | some es ↦ (ok tt, (q, s))
                | none ↦ fetch_next K Z (record q { iter = some q.query }, s)
              ])
              (ok a, p)
      go (some es) = (tt, (q, s), refl)
      go none = fetch_next-Returns (record q { iter = some q.query }) s (q.query, refl)

  pub tip-Returns : (q : Queue Key) (s : Z.State) → IsSound q → Returns (tip K Z) (q, s)
  unfolding tip
  tip-Returns q s sound =
      bind-Returns (init K Z) (look_at_tip K Z) (q, s) (init-Returns q s)
        (λ _ (q1, s1) e.
          let (started, _) = init_lem K Z q s sound e in
          (tip_of K Z q1, (q1, s1), look_started K Z q1 s1 started))

  pub pop_tip-Returns : (q : Queue Key) (s : Z.State) → IsStarted q → Returns (pop_tip K Z) (q, s)
  unfolding pop_tip
  pop_tip-Returns q s started =
      subst (λ r. (a : Unit {0}) × (p : Queue Key × Z.State) × (r ≡ (ok a, p)))
        (sym (with_tip_started K Z (pop_chosen K Z) q s started))
        (choose_rule q.stored_tip q.cached (λ c. Returns (pop_chosen K Z c) (q, s))
          (tt, (q, s), refl)
          (λ e te.
            bind-Returns (on_store K Z (Z.delete e.key)) (λ _. fetch_next K Z) (q, s)
              (tt, _, on_store-Returns (Z.delete e.key) q s (works.deletes e.key s))
              (λ _ (q1, s1) d.
                fetch_next-Returns q1 s1 (subst IsStarted (ap (λ x. x.1.0) d) started)))
          (λ b bs ce. (tt, _, refl)))

  pub insert_bid-Returns :
      (b : HotBid Key) (q : Queue Key) (s : Z.State) → Returns (insert_bid K Z b) (q, s)
  unfolding insert_bid
  insert_bid-Returns b q s =
      bind-Returns (init K Z) (push_cached K Z b) (q, s) (init-Returns q s)
        (λ _ (q1, s1) e. (tt, _, refl))

  pub skip_tip-Returns :
      (now fuel : ℕ) (rest : Action (Queue Key × Z.State) (Unit {0})) (r : Option (HotBid Key))
      (q : Queue Key) (s : Z.State)
      → IsStarted q
      → tip_of K Z q ≡ r
      → weigh (λ _. 1) q < suc fuel
      → ((q1 : Queue Key) (s1 : Z.State)
          → IsSound q1
          → weigh (λ _. 1) q1 < fuel
          → Returns rest (q1, s1))
      → Returns (skip_tip K Z now rest r) (q, s)
  unfolding skip_tip
  skip_tip-Returns now fuel rest none q s started t few ih = (tt, (q, s), refl)
  skip_tip-Returns now fuel rest (some b) q s started t few ih =
      elim (ltb now b.expires)
        as (λ y.
          (a : Unit {0}) × (p : Queue Key × Z.State) × ◌≡◌
            {A = Result (Unit {0}) × (Queue Key × Z.State)}
            (elim y [ true ↦ (ok tt, (q, s)) | false ↦ bind (pop_tip K Z) (λ _. rest) (q, s) ])
            (ok a, p)) [
              | true ↦ (tt, (q, s), refl)
              | false ↦
                  bind-Returns (pop_tip K Z) (λ _. rest) (q, s) (pop_tip-Returns q s started)
                    (λ _ (q1, s1) e.
                      let (started1, more) = pop_tip_lem K Z b q s started t e in
                      ih q1 s1 (started-IsSound q1 started1) (omega (arith, few, more (λ _. 1))))
            ]

  pub skip-Returns :
      (now fuel : ℕ) (q : Queue Key) (s : Z.State)
      → IsSound q
      → weigh (λ _. 1) q < fuel
      → Returns (skip_expired K Z now fuel) (q, s)
  unfolding skip_expired
  skip-Returns now zero q s sound few = absurd (omega arith)
  skip-Returns now (suc fuel) q s sound few =
      bind-Returns (tip K Z) (skip_tip K Z now (skip_expired K Z now fuel)) (q, s)
        (tip-Returns q s sound)
        (λ r (q1, s1) e.
          let (started, same, t) = tip_lem K Z q s sound e in
          skip_tip-Returns now fuel (skip_expired K Z now fuel) r q1 s1 started t
            (omega (arith, few, same (λ _. 1))) (λ q2 s2. skip-Returns now fuel q2 s2))
