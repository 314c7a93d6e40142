-- ===== src/Gae/Matching/Tips.antt =====
-- About the operations of a queue of hot bids, and the bids that it holds.
use mathlib.Core.Path.{subst}
use bitwrk.Base.{
  ℕ, ◌≤◌, ◌≡◌, ap, sym, ◌∙◌, Option, some, List, ◌∷◌, ◌++◌, arith, ok, Action, bind, bind-eq_ok,
  ok-injective,
}
use bitwrk.Gae.Store.{Keys}
use bitwrk.Gae.Heap.{get_elem?, push, pop}
use bitwrk.Gae.Heap.Weight.{total, total-append, total-push, total-pop, some-injective}
use bitwrk.Gae.Matching.{HotBid, StoredHotBid, hotter_than, HotStore}
use bitwrk.Gae.Matching.Queues.{
  Queue, Tip, stored_one, cached_one, choose, advance_iter, fetch_next, init, ignoring, with_tip,
  tip_bid, tip, look_at_tip, push_cached, on_store, pop_chosen, pop_tip, insert_bid,
}
use bitwrk.Gae.Matching.Rounds.{tip_list, hot_list, unread}
use bitwrk.Gae.Matching.Contents.{
  IsStarted, IsSound, weigh, SameBids, OneMore, weigh_parts, choose_rule, advance-weigh,
  fetch_next_lem, init_lem, init_started,
}

module _ (K : Keys) (Z : HotStore K.Key) where
  open K use {Key}

  -- The bid that is the tip of a queue.
  abbrev pub tip_of : Queue Key → Option (HotBid Key)
  tip_of q = tip_bid (choose q.stored_tip q.cached)

  -- `withTip` in a queue whose query has been run.
  pub with_tip_started :
      {A : Type 0} (handle : Tip Key → Action (Queue Key × Z.State) A) (q : Queue Key) (s : Z.State)
      → IsStarted q
      → with_tip K Z handle (q, s) ≡ handle (choose q.stored_tip q.cached) (q, s)
  with_tip_started {A} handle q s started =
      ap
        (λ r.
          bind {S = Queue Key × Z.State} {A = Unit {0}} {B = A} (ignoring K Z (λ _. r))
            (λ _ p. handle (choose p.0.stored_tip p.0.cached) p) (q, s))
        (init_started K Z q s started)

  pub look_started :
      (q : Queue Key) (s : Z.State)
      → IsStarted q
      → look_at_tip K Z tt (q, s) ≡ (ok (tip_of q), (q, s))
  look_started q s started = with_tip_started (λ t p. (ok (tip_bid t), p)) q s started

  -- `Tip` is the queue's tip, and changes none of the bids.
  pub tip_lem :
      (q : Queue Key) (s : Z.State) {r : Option (HotBid Key)} {q' : Queue Key} {s' : Z.State}
      → IsSound q
      → tip K Z (q, s) ≡ (ok r, (q', s'))
      → IsStarted q' × SameBids q q' × (tip_of q' ≡ r)
  unfolding tip
  tip_lem q s sound h =
      let (_, (q1, s1), e, k) = bind-eq_ok (init K Z) (look_at_tip K Z) (q, s) h in
      let (started, same) = init_lem K Z q s sound e in
      let there = sym (look_started q1 s1 started) ∙ k in
      let same_queue = ap (λ x. x.1.0) there in
      (
        subst IsStarted same_queue started,
        λ w. same w ∙ ap (weigh w) same_queue,
        sym (ap tip_of same_queue) ∙ ok-injective (ap (λ x. x.0) there),
      )

  -- Once the query has been run, `Tip` changes nothing.
  pub tip_started :
      (q : Queue Key) (s : Z.State) → IsStarted q → tip K Z (q, s) ≡ (ok (tip_of q), (q, s))
  unfolding tip
  tip_started q s started =
      ap
        (λ r.
          bind {S = Queue Key × Z.State} {A = Unit {0}} {B = Option (HotBid Key)} (λ _. r)
            (look_at_tip K Z) (q, s))
        (init_started K Z q s started)
      ∙ look_started q s started

  -- A queue with a tip holds a bid.
  pub tip_counts : (q : Queue Key) (b : HotBid Key) → tip_of q ≡ some b → 1 ≤ weigh (λ _. 1) q
  tip_counts q b t =
      let one : HotBid Key → ℕ = λ c. 1 in
      choose_rule q.stored_tip q.cached (λ c. tip_bid c ≡ some b → 1 ≤ weigh one q)
        (λ n. absurd (cc))
        (λ e te _. omega (
          arith,
          ap (λ t. total one (tip_list t)) te,
          total-append one (tip_list q.stored_tip) (hot_list (unread q.iter q.query) ++ q.cached),
        ))
        (λ c cs ce _. omega (
          arith,
          ap (total one) ce,
          total-append one (tip_list q.stored_tip) (hot_list (unread q.iter q.query) ++ q.cached),
          total-append one (hot_list (unread q.iter q.query)) q.cached,
        ))
        t

  -- `Insert` adds a bid.
  pub insert_bid_lem :
      (b : HotBid Key) (q : Queue Key) (s : Z.State) {q' : Queue Key} {s' : Z.State}
      → IsSound q
      → insert_bid K Z b (q, s) ≡ (ok tt, (q', s'))
      → IsStarted q' × OneMore q' b q
  unfolding insert_bid
  insert_bid_lem b q s sound h =
      let (_, (q1, s1), e, k) = bind-eq_ok (init K Z) (push_cached K Z b) (q, s) h in
      let ((es, i), same) = init_lem K Z q s sound e in
      let grown = record q1 { cached = push hotter_than q1.cached b } in
      let there = ap (λ x. x.1.0) k in
      (
        (es, ap (λ x. x.iter) (sym there) ∙ i),
        λ w.
            ap (weigh w) (sym there)
            ∙ omega (
              arith,
              same w,
              weigh_parts w grown i,
              weigh_parts w q1 i,
              total-push hotter_than w q1.cached b,
            ),
      )

  -- `Pop` takes the tip away.
  pop_stored :
      (q : Queue Key) (s : Z.State) (e : StoredHotBid Key) {q' : Queue Key} {s' : Z.State}
      → IsStarted q
      → q.stored_tip ≡ some e
      → pop_chosen K Z (stored_one e) (q, s) ≡ (ok tt, (q', s'))
      → IsStarted q' × OneMore q e.hot q'
  pop_stored q s e {q'} {s'} (es, i) t h =
      let (_, (q1, s1), d, k) =
        bind-eq_ok (on_store K Z (Z.delete e.key)) (λ _. fetch_next K Z) (q, s) h in
      let unchanged : q1 ≡ q = sym (ap (λ x. x.1.0) d) in
      let read : fetch_next K Z (q, s1) ≡ (ok tt, (q', s')) =
        subst (λ x. fetch_next K Z (x, s1) ≡ (ok tt, (q', s'))) unchanged k in
      let (started, now) =
        advance-weigh K Z q (some es) i
          (ap (advance_iter K Z q) (sym i) ∙ fetch_next_lem K Z q s1 read) in
      (started, λ w. omega (arith, now w, weigh_parts w q i, ap (λ t. total w (tip_list t)) t))

  pop_cached :
      (q : Queue Key) (s : Z.State) (b : HotBid Key) (h : List (HotBid Key)) {q' : Queue Key}
      {s' : Z.State}
      → IsStarted q
      → q.cached ≡ b ∷ h
      → pop_chosen K Z (cached_one b) (q, s) ≡ (ok tt, (q', s'))
      → IsStarted q' × OneMore q b q'
  pop_cached q s b h (es, i) c k =
      let there = ap (λ x. x.1.0) k in
      let left = record q { cached = pop hotter_than q.cached } in
      (
        (es, ap (λ x. x.iter) (sym there) ∙ i),
        λ w. omega (
          arith,
          ap (weigh w) there,
          weigh_parts w left i,
          weigh_parts w q i,
          total-pop hotter_than w q.cached {x = b} (ap (λ l. get_elem? l 0) c),
        ),
      )

  pub pop_tip_lem :
      (b : HotBid Key) (q : Queue Key) (s : Z.State) {q' : Queue Key} {s' : Z.State}
      → IsStarted q
      → tip_of q ≡ some b
      → pop_tip K Z (q, s) ≡ (ok tt, (q', s'))
      → IsStarted q' × OneMore q b q'
  unfolding pop_tip
  pop_tip_lem b q s {q'} {s'} started t h =
      choose_rule q.stored_tip q.cached
        (λ c.
          tip_bid c ≡ some b
          → pop_chosen K Z c (q, s) ≡ (ok tt, (q', s'))
          → IsStarted q' × OneMore q b q')
        (λ none_b. absurd (cc))
        (λ e te same k.
          let (st, more) = pop_stored q s e started te k in
          (st, subst (λ x. OneMore q x q') (some-injective same) more))
        (λ c cs ce same k.
          let (st, more) = pop_cached q s c cs started ce k in
          (st, subst (λ x. OneMore q x q') (some-injective same) more))
        t (sym (with_tip_started (pop_chosen K Z) q s started) ∙ h)
