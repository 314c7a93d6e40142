-- ===== src/Gae/Matching/Ranked.antt =====
-- About the order of a queue of hot bids, by price, which its operations keep.
use mathlib.Core.Path.{subst}
use bitwrk.Base.{
  suc, ◌≡◌, refl, ap, sym, ◌∙◌, Bool, Option, none, some, List, [], ◌∷◌, ◌++◌, Result, ok,
  ok-injective, bind-eq_ok,
}
use bitwrk.Gae.Store.{Keys}
use bitwrk.Gae.Heap.Order.{Among, IsHeap}
use bitwrk.Gae.Heap.Root.{push-Among, pop-Among, pop-IsHeap}
use bitwrk.Gae.Matching.{HotBid, StoredHotBid, HotStore, hotter_than}
use bitwrk.Gae.Matching.Queues.{
  Queue, stored_one, advance_iter, fetch_next, init, tip, push_cached, look_at_tip, on_store,
  pop_chosen, pop_tip, insert_bid,
}
use bitwrk.Gae.Matching.Rounds.{tip_list, hot_list, unread, content}
use bitwrk.Gae.Matching.Contents.{IsStarted, IsSound, choose_rule, fetch_next_lem, init_lem}
use bitwrk.Gae.Matching.Tips.{with_tip_started, look_started}
use bitwrk.Gae.Matching.Hotter.{IsOf, hotter-Orders, hot_bids-IsHeap}
use bitwrk.Gae.Matching.Best.{IsBest, AreRanked, IsRanked, stored_bids, choose-IsBest}

module _ (K : Keys) (Z : HotStore K.Key) (sells : Bool) where
  open K use {Key}

  -- Reading on keeps the order, if what is still to be read is in order.
  advance-IsRanked :
      (q : Queue Key) (es : List (StoredHotBid Key)) {q' : Queue Key}
      → q.iter ≡ some es
      → AreRanked sells (hot_list es)
      → Among (IsOf sells) (hot_list es)
      → Among (IsOf sells) q.cached
      → IsHeap hotter_than q.cached
      → advance_iter K Z q (some es) ≡ ok q'
      → IsRanked sells q'
  advance-IsRanked q [] i ranked kind ck heap h =
      let q1 = record q { stored_tip = none } in
      let us = ap (λ j. hot_list (unread j q.query)) i in
      subst (IsRanked sells) (ok-injective h) (record {
        ranked = subst (AreRanked sells) (sym us) tt;
        drained = λ _ _. us;
        stored_kind = subst (Among (IsOf sells)) (sym us) kind;
        cached_kind = ck;
        heap = heap;
      })
  advance-IsRanked q (x ∷ xs) i ranked kind ck heap h =
      subst (IsRanked sells) (ok-injective h) (record {
        ranked = ranked;
        drained = λ _ e. absurd (cc);
        stored_kind = kind;
        cached_kind = ck;
        heap = heap;
      })

  init-IsRanked :
      (q : Queue Key) (s : Z.State) {q' : Queue Key} {s' : Z.State}
      → IsSound q
      → IsRanked sells q
      → init K Z (q, s) ≡ (ok tt, (q', s'))
      → IsRanked sells q'
  unfolding init
  init-IsRanked q s {q'} {s'} sound r h = go q.iter refl h
    where
      go :
          (i : Option (List (StoredHotBid Key)))
          → q.iter ≡ i
          → ◌≡◌ {A = Result (Unit {0}) × (Queue Key × Z.State)}
              (elim i [
                | some es ↦ (ok tt, (q, s))
                | none ↦ fetch_next K Z (record q { iter = some q.query }, s)
              ])
              (ok tt, (q', s'))
          → IsRanked sells q'
      go (some es) i k = subst (IsRanked sells) (ap (λ x. x.1.0) k) r
      go none i k =
          let run = record q { iter = some q.query } in
          let whole =
            ap (λ t. tip_list t ++ hot_list (unread q.iter q.query)) (sound i)
            ∙ ap (λ j. hot_list (unread j q.query)) i in
          advance-IsRanked run q.query refl (subst (AreRanked sells) whole r.ranked)
            (subst (Among (IsOf sells)) whole r.stored_kind) r.cached_kind r.heap
            (fetch_next_lem K Z run s k)

  -- If the bids of a queue are all sells, or none of which is, its stored bids are read in the order
  -- of their prices, and the others are in a heap, then this is so after `Tip`, and the bid that
  -- `Tip` returns has the best price of all the bids in the queue: none asks for less, among sells,
  -- or offers more, among others.
  pub tip-IsBest :
      (q q' : Queue Key) (s s' : Z.State) (b : HotBid Key)
      → IsSound q
      → IsRanked sells q
      → tip K Z (q, s) ≡ (ok (some b), (q', s'))
      → IsRanked sells q' × IsBest sells b (content q')
  unfolding tip
  tip-IsBest q q' s s' b sound r h =
      let (_, (q1, s1), e, k) = bind-eq_ok (init K Z) (look_at_tip K Z) (q, s) h in
      let (started, _) = init_lem K Z q s sound e in
      let there = sym (look_started K Z q1 s1 started) ∙ k in
      let r1 = init-IsRanked q s sound r e in
      subst (λ x. IsRanked sells x × IsBest sells b (content x)) (ap (λ x. x.1.0) there)
        (
          r1,
          choose-IsBest sells q1.stored_tip (hot_list (unread q1.iter q1.query)) q1.cached b
              r1.ranked (r1.drained started) r1.stored_kind r1.cached_kind r1.heap
              (ok-injective (ap (λ x. x.0) there)),
        )

  -- Such a queue is one again after a bid of the same kind has been inserted.
  pub insert_bid-IsRanked :
      (b : HotBid Key) (q q' : Queue Key) (s s' : Z.State)
      → IsSound q
      → IsRanked sells q
      → IsOf sells b
      → insert_bid K Z b (q, s) ≡ (ok tt, (q', s'))
      → IsRanked sells q'
  unfolding insert_bid
  insert_bid-IsRanked b q q' s s' sound r kind h =
      let (_, (q1, s1), e, k) = bind-eq_ok (init K Z) (push_cached K Z b) (q, s) h in
      let r1 = init-IsRanked q s sound r e in
      let (pushed, _, _) = hot_bids-IsHeap sells q1.cached b r1.cached_kind kind r1.heap in
      subst (IsRanked sells) (ap (λ x. x.1.0) k) (record {
        ranked = r1.ranked;
        drained = r1.drained;
        stored_kind = r1.stored_kind;
        cached_kind = push-Among hotter_than (IsOf sells) q1.cached b r1.cached_kind kind;
        heap = pushed;
      })

  pop_stored-IsRanked :
      (e : StoredHotBid Key) (q q' : Queue Key) (s s' : Z.State)
      → IsStarted q
      → IsRanked sells q
      → q.stored_tip ≡ some e
      → pop_chosen K Z (stored_one e) (q, s) ≡ (ok tt, (q', s'))
      → IsRanked sells q'
  pop_stored-IsRanked e q q' s s' (es, i) r te k =
      let (_, (q1, s1), d, l) =
        bind-eq_ok (on_store K Z (Z.delete e.key)) (λ _. fetch_next K Z) (q, s) k in
      let unchanged : q1 ≡ q = sym (ap (λ x. x.1.0) d) in
      let read : fetch_next K Z (q, s1) ≡ (ok tt, (q', s')) =
        subst (λ x. fetch_next K Z (x, s1) ≡ (ok tt, (q', s'))) unchanged l in
      let whole : stored_bids q ≡ e.hot ∷ hot_list es =
        ap (λ t. tip_list t ++ hot_list (unread q.iter q.query)) te
        ∙ ap (λ j. e.hot ∷ hot_list (unread j q.query)) i in
      let ranked = subst (AreRanked sells) whole r.ranked in
      let kind = subst (Among (IsOf sells)) whole r.stored_kind in
      advance-IsRanked q es i ranked.1 (λ n. kind (suc n)) r.cached_kind r.heap
        (ap (advance_iter K Z q) (sym i) ∙ fetch_next_lem K Z q s1 read)

  -- If the bids of a queue whose query has been run are all sells, or none of which is, its stored bids
  -- are read in the order of their prices, and the others are in a heap, then this is so again after
  -- `Pop`.
  pub pop_tip-IsRanked :
      (q q' : Queue Key) (s s' : Z.State)
      → IsStarted q
      → IsRanked sells q
      → pop_tip K Z (q, s) ≡ (ok tt, (q', s'))
      → IsRanked sells q'
  unfolding pop_tip
  pop_tip-IsRanked q q' s s' started r h =
      choose_rule q.stored_tip q.cached
        (λ c. pop_chosen K Z c (q, s) ≡ (ok tt, (q', s')) → IsRanked sells q')
        (λ k. subst (IsRanked sells) (ap (λ x. x.1.0) k) r)
        (λ e te k. pop_stored-IsRanked e q q' s s' started r te k)
        (λ b bs ce k. subst (IsRanked sells) (ap (λ x. x.1.0) k) (record {
          ranked = r.ranked;
          drained = r.drained;
          stored_kind = r.stored_kind;
          cached_kind = pop-Among hotter_than (IsOf sells) q.cached r.cached_kind;
          heap =
              pop-IsHeap hotter_than (IsOf sells) (hotter-Orders sells) q.cached r.cached_kind
                r.heap;
        }))
        (sym (with_tip_started K Z (pop_chosen K Z) q s started) ∙ h)
