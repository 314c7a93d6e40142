-- ===== src/Gae/Matching/Contents.antt =====
-- About the bids that a queue of hot bids holds, and how its operations change them.
use bitwrk.Base.{
  ℕ, ◌+◌, ◌≡◌, refl, ap, sym, ◌∙◌, true, false, Option, none, some, List, [], ◌∷◌, ◌++◌, arith,
  if◌then◌else◌, Result, ok, err, panic, ok-injective,
}
use bitwrk.Gae.Store.{Keys}
use bitwrk.Gae.Heap.Weight.{total, total-append}
use bitwrk.Gae.Matching.{HotBid, StoredHotBid, hotter_than, HotStore}
use bitwrk.Gae.Matching.Queues.{
  Queue, Tip, no_tip, stored_one, cached_one, choose, advance_iter, fetch_next, init,
}
use bitwrk.Gae.Matching.Rounds.{tip_list, hot_list, unread, content}

module _ {Key : Type 0} where
  -- A queue whose query has been run, and one that has a stored tip only then.
  abbrev pub IsStarted : Queue Key → Type 0
  IsStarted q = (es : List (StoredHotBid Key)) × (q.iter ≡ some es)

  abbrev pub IsSound : Queue Key → Type 0
  IsSound q = q.iter ≡ none → q.stored_tip ≡ none

  abbrev pub weigh : (HotBid Key → ℕ) → Queue Key → ℕ
  weigh w q = total w (content q)

  -- The two queues hold the same bids; the first one holds one bid more.
  abbrev pub SameBids : Queue Key → Queue Key → Type 0
  SameBids q q' = (w : HotBid Key → ℕ) → weigh w q ≡ weigh w q'

  abbrev pub OneMore : Queue Key → HotBid Key → Queue Key → Type 0
  OneMore q b q' = (w : HotBid Key → ℕ) → weigh w q ≡ w b + weigh w q'

  pub started-IsSound : (q : Queue Key) → IsStarted q → IsSound q
  started-IsSound q (es, e) h = absurd (cc)

  -- The tip is one of the two, if there is any.
  pub choose_rule {κ} :
      (t : Option (StoredHotBid Key)) (h : List (HotBid Key)) (P : Tip Key → Type κ)
      → P no_tip
      → ((e : StoredHotBid Key) → t ≡ some e → P (stored_one e))
      → ((b : HotBid Key) (bs : List (HotBid Key)) → h ≡ b ∷ bs → P (cached_one b))
      → P (choose t h)
  unfolding choose
  choose_rule none [] P n s c = n
  choose_rule none (b ∷ bs) P n s c = c b bs refl
  choose_rule (some e) [] P n s c = s e refl
  choose_rule (some e) (b ∷ bs) P n s c =
      elim (hotter_than e.hot b) as (λ y. P (if y then stored_one e else cached_one b)) [
        | true ↦ s e refl
        | false ↦ c b bs refl
      ]

  pub weigh_parts :
      (w : HotBid Key → ℕ) (q : Queue Key) {es : List (StoredHotBid Key)}
      → q.iter ≡ some es
      → weigh w q ≡ total w (tip_list q.stored_tip) + total w (hot_list es) + total w q.cached
  weigh_parts w q {es} e =
      ap (λ i. total w (tip_list q.stored_tip ++ (hot_list (unread i q.query) ++ q.cached))) e
      ∙ total-append w (tip_list q.stored_tip) (hot_list es ++ q.cached)
      ∙ omega (arith, total-append w (hot_list es) q.cached)

  pub weigh_unread :
      (w : HotBid Key → ℕ) (q : Queue Key)
      → q.iter ≡ none
      → q.stored_tip ≡ none
      → weigh w q ≡ total w (hot_list q.query) + total w q.cached
  weigh_unread w q i t =
      ap (λ t. total w (tip_list t ++ (hot_list (unread q.iter q.query) ++ q.cached))) t
      ∙ ap (λ i. total w (hot_list (unread i q.query) ++ q.cached)) i
      ∙ total-append w (hot_list q.query) q.cached

module _ (K : Keys) (Z : HotStore K.Key) where
  open K use {Key}

  -- The first of the results becomes the tip.
  pub advance-weigh :
      (q : Queue Key) (i : Option (List (StoredHotBid Key))) {q' : Queue Key}
      → q.iter ≡ i
      → advance_iter K Z q i ≡ ok q'
      → IsStarted q'
        × ((w : HotBid Key → ℕ)
            → weigh w q' ≡ total w (hot_list (unread i q.query)) + total w q.cached)
  advance-weigh q none i h = absurd (cc)
  advance-weigh q (some []) i h =
      let e = ok-injective h in
      let read = ap (λ x. x.iter) (sym e) ∙ i in
      (([], read), λ w. ap (weigh w) (sym e) ∙ weigh_parts w (record q { stored_tip = none }) i)
  advance-weigh q (some (x ∷ xs)) i h =
      let e = ok-injective h in
      let q1 = record q { stored_tip = some x; iter = some xs } in
      (
        (xs, ap (λ x. x.iter) (sym e)),
        λ w. ap (weigh w) (sym e) ∙ weigh_parts w q1 refl ∙ omega arith,
      )

  pub fetch_next_lem :
      (q : Queue Key) (s : Z.State) {q' : Queue Key} {s' : Z.State}
      → fetch_next K Z (q, s) ≡ (ok tt, (q', s'))
      → advance_iter K Z q q.iter ≡ ok q'
  unfolding fetch_next
  fetch_next_lem q s {q'} {s'} h = go (Z.read_next s) (advance_iter K Z q q.iter) h
    where
      go :
          (r : Result (Unit {0}) × Z.State) (a : Result (Queue Key))
          → ◌≡◌ {A = Result (Unit {0}) × (Queue Key × Z.State)}
              (elim r.0 [
                | err e ↦ (err e, (q, r.1))
                | panic ↦ (panic, (q, r.1))
                | ok _ ↦ elim a [
                  | ok q1 ↦ (ok tt, (q1, r.1))
                  | err e ↦ (err e, (q, r.1))
                  | panic ↦ (panic, (q, r.1))
                ]
              ])
              (ok tt, (q', s'))
          → a ≡ ok q'
      go (ok u, s1) (ok q1) k = ap ok (ap (λ x. x.1.0) k)
      go (ok u, s1) (err e) k = absurd (cc)
      go (ok u, s1) panic k = absurd (cc)
      go (err e, s1) a k = absurd (cc)
      go (panic, s1) a k = absurd (cc)

  -- `init` reads the query, which leaves the bids the same.
  pub init_lem :
      (q : Queue Key) (s : Z.State) {q' : Queue Key} {s' : Z.State}
      → IsSound q
      → init K Z (q, s) ≡ (ok tt, (q', s'))
      → IsStarted q' × SameBids q q'
  unfolding init
  init_lem q s {q'} {s'} sound h = go q.iter refl h
    where
      go :
          (i : Option (List (StoredHotBid Key)))
          → q.iter ≡ i
          → ◌≡◌ {A = Result (Unit {0}) × (Queue Key × Z.State)}
              (elim i [
                | some es ↦ (ok tt, (q, s))
                | none ↦ fetch_next K Z (record q { iter = some q.query }, s)
              ])
              (ok tt, (q', s'))
          → IsStarted q' × SameBids q q'
      go (some es) i k =
          let e = ap (λ x. x.1.0) k in ((es, ap (λ x. x.iter) (sym e) ∙ i), λ w. ap (weigh w) e)
      go none i k =
          let run = record q { iter = some q.query } in
          let (started, same) = advance-weigh run (some q.query) refl (fetch_next_lem run s k) in
          (started, λ w. weigh_unread w q i (sound i) ∙ sym (same w))

  pub init_started : (q : Queue Key) (s : Z.State) → IsStarted q → init K Z (q, s) ≡ (ok tt, (q, s))
  unfolding init
  init_started q s (es, e) =
      ap
        (λ i. elim i as (λ _. Result (Unit {0}) × (Queue Key × Z.State)) [
          | some es ↦ (ok tt, (q, s))
          | none ↦ fetch_next K Z (record q { iter = some q.query }, s)
        ])
        e
