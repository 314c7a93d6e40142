-- ===== src/Gae/Matching/Outcome.antt =====
-- About what becomes of the bids that come in to `matchIncomingBids`.
use mathlib.Core.Path.{subst}
use bitwrk.Base.{
  ℕ, ◌+◌, suc, ◌<◌, ◌≡◌, refl, ap, sym, ◌∙◌, inl, inr, Bool, true, false, not, Option, none, some,
  List, [], ◌∷◌, ◌++◌, Str, length, ltb, arith, if◌then◌else◌, Result, ok, bind, bind-eq_ok,
  ok-injective,
}
use bitwrk.Bid.{is_buy}
use bitwrk.Gae.Store.{Keys}
use bitwrk.Gae.Heap.Weight.{total, total-append}
use bitwrk.Gae.Matching.{HotBid, hotter_than, HotStore}
use bitwrk.Gae.Matching.Queues.{Queue, tip, pop_tip, insert_bid}
use bitwrk.Gae.Matching.Rounds.{
  content, Market, this_queue, other_queue, skip_expired, match_tip, skip_fuel, match_one,
  match_all,
}
use bitwrk.Gae.Matching.Contents.{IsStarted, IsSound, started-IsSound, weigh}
use bitwrk.Gae.Matching.Tips.{tip_of, tip_lem, tip_started, tip_counts}
use bitwrk.Gae.Matching.Skipping.{HaveExpired, IsFresh, skip_expired_lem, length-total}
use bitwrk.Gae.Matching.Ledger.{
  Pair, AllMatch, both, reported, misplaced, queue_of, InOrder, Settled, weight_of, in_queue_of_lem,
  update_order, keep_lem, take_lem, append_nil,
}

module _ {Key : Type 0} where
  HaveExpired-append :
      (now : ℕ) (xs ys : List (HotBid Key))
      → HaveExpired now xs
      → HaveExpired now ys
      → HaveExpired now (xs ++ ys)
  HaveExpired-append now [] ys h k = k
  HaveExpired-append now (x ∷ xs) ys (e, h) k = (e, HaveExpired-append now xs ys h k)

  AllMatch-append :
      (now : ℕ) (ps qs : List (Pair Key))
      → AllMatch now ps
      → AllMatch now qs
      → AllMatch now (ps ++ qs)
  AllMatch-append now [] qs h k = k
  AllMatch-append now (p ∷ ps) qs (e, h) k = (e, AllMatch-append now ps qs h k)

  total-both-append :
      (w : HotBid Key → ℕ) (ps qs : List (Pair Key))
      → total w (both (ps ++ qs)) ≡ total w (both ps) + total w (both qs)
  total-both-append w [] qs = omega arith
  total-both-append w (p ∷ ps) qs = omega (arith, total-both-append w ps qs)

  reported-append :
      (encode : Key → Str) (before : List Str) (ps qs : List (Pair Key))
      → (before ++ reported encode ps) ++ reported encode qs ≡ before ++ reported encode (ps ++ qs)
  reported-append encode (k ∷ before) ps qs =
      ap (λ ks. k ∷ ks) (reported-append encode before ps qs)
  reported-append encode [] [] qs = refl
  reported-append encode [] (p ∷ ps) qs =
      ap (λ ks. encode p.incoming.bid_key ∷ encode p.waiting.bid_key ∷ ks)
        (reported-append encode [] ps qs)

module _ (K : Keys) (Z : HotStore K.Key) where
  open K use {Key}

  -- What becomes of bids, and then of others.
  settle_then :
      (now : ℕ) (bids bids' : List (HotBid Key)) {before between after : List Str}
      {m m1 m' : Market K Z}
      → Settled K Z now bids before m between m1
      → Settled K Z now bids' between m1 after m'
      → Settled K Z now (bids ++ bids') before m after m'
  settle_then now bids bids' {before} s t = record {
    pairs = s.pairs ++ t.pairs;
    skipped = s.skipped ++ t.skipped;
    in_report =
        t.in_report
        ∙ ap (λ ks. ks ++ reported K.encode t.pairs) s.in_report
        ∙ reported-append K.encode before s.pairs t.pairs;
    match_up = AllMatch-append now s.pairs t.pairs s.match_up t.match_up;
    gone = HaveExpired-append now s.skipped t.skipped s.gone t.gone;
    accounted = λ w. omega (
      arith,
      s.accounted w,
      t.accounted w,
      total-append w bids bids',
      total-append w s.skipped t.skipped,
      total-both-append w s.pairs t.pairs,
    );
    in_order = t.in_order;
  }

  -- Before anything has been matched.
  match_tip_lem :
      (now : ℕ) (bid : HotBid Key) (matched : List Str) (r : Option (HotBid Key)) (m : Market K Z)
      {out : List Str} {m' : Market K Z}
      → InOrder K Z m
      → IsStarted (queue_of K Z (not (is_buy bid.bid_type)) m)
      → tip_of K Z (queue_of K Z (not (is_buy bid.bid_type)) m) ≡ r
      → ((other : HotBid Key) → r ≡ some other → ltb now other.expires ≡ true)
      → match_tip K Z bid matched r m ≡ (ok out, m')
      → Settled K Z now (bid ∷ []) matched m out m'
  unfolding match_tip
  match_tip_lem now bid matched none m order started t alive h =
      keep_lem K Z now bid matched m order h
  match_tip_lem now bid matched (some other) m {out} {m'} order started t alive h =
      go (hotter_than other bid) refl h
    where
      go :
          (y : Bool)
          → hotter_than other bid ≡ y
          → ◌≡◌ {A = Result (List Str) × Market K Z}
              (elim y [
                | true ↦
                    bind
                      (other_queue K Z bid (pop_tip K Z))
                      (λ _ m'.
                        (ok (matched ++ (K.encode bid.bid_key ∷ K.encode other.bid_key ∷ [])), m'))
                      m
                | false ↦
                    bind (this_queue K Z bid (insert_bid K Z bid)) (λ _ m'. (ok matched, m')) m
              ])
              (ok out, m')
          → Settled K Z now (bid ∷ []) matched m out m'
      go true hotter k =
          take_lem K Z now bid other matched m order started t (alive other refl) hotter k
      go false colder k = keep_lem K Z now bid matched m order k

  -- Whatever `Tip` finds in a queue without an expired tip has not expired.
  fresh_tip :
      (now : ℕ) (q : Queue Key) (s : Z.State) (r : Option (HotBid Key)) {q' : Queue Key}
      {s' : Z.State}
      → IsSound q
      → IsFresh K Z now q
      → tip K Z (q, s) ≡ (ok r, (q', s'))
      → (other : HotBid Key) → r ≡ some other
      → ltb now other.expires ≡ true
  fresh_tip now q s r sound (inl (started, fresh)) h other e =
      fresh other (ok-injective (ap (λ x. x.0) (sym (tip_started K Z q s started) ∙ h)) ∙ e)
  fresh_tip now q s r {q'} sound (inr empty) h other e =
      let (_, same, t) = tip_lem K Z q s sound h in
      absurd (omega (arith, empty, same (λ _. 1), tip_counts K Z q' other (t ∙ e)))

  -- The number of bids in the other queue is enough fuel.
  pub skip_fuel_lem :
      (m : Market K Z) (bid : HotBid Key)
      → weigh (λ _. 1) (queue_of K Z (not (is_buy bid.bid_type)) m) < skip_fuel K Z m bid
  skip_fuel_lem m bid = go (is_buy bid.bid_type)
    where
      go :
          (y : Bool)
          → weigh (λ _. 1) (queue_of K Z (not y) m)
            < suc (length (content (if y then m.sells else m.buys)))
      go true = omega (arith, length-total (content m.sells))
      go false = omega (arith, length-total (content m.buys))

  -- One bid, against the other queue.
  pub match_one_lem :
      (now : ℕ) (bid : HotBid Key) (matched : List Str) (m : Market K Z) {out : List Str}
      {m' : Market K Z}
      → InOrder K Z m
      → match_one K Z now bid matched m ≡ (ok out, m')
      → Settled K Z now (bid ∷ []) matched m out m'
  unfolding match_one
  match_one_lem now bid matched m order h =
      let o = not (is_buy bid.bid_type) in
      let fuel = skip_fuel K Z m bid in
      let skip = skip_expired K Z now fuel in
      let look =
        λ (_ : Unit {0}). bind (other_queue K Z bid (tip K Z)) (match_tip K Z bid matched) in
      let (_, m1, e1, k1) = bind-eq_ok (other_queue K Z bid skip) look m h in
      let (r, m2, e2, k2) =
        bind-eq_ok (other_queue K Z bid (tip K Z)) (match_tip K Z bid matched) m1 k1 in
      let (place1, rest1) = in_queue_of_lem K Z o skip m e1 in
      let sk = skip_expired_lem K Z now fuel (queue_of K Z o m) m.store (order o).0 place1 in
      let (place2, rest2) = in_queue_of_lem K Z o (tip K Z) m1 e2 in
      let (started, same, t) = tip_lem K Z (queue_of K Z o m1) m1.store sk.sound place2 in
      let order2 = update_order K Z o m m2 order (rest1 ∙ rest2) (
        started-IsSound (queue_of K Z o m2) started,
        omega (arith, (order o).1, sk.kept (misplaced o), same (misplaced o)),
      ) in
      let fresh = fresh_tip now (queue_of K Z o m1) m1.store r sk.sound sk.fresh place2 in
      settle_then now [] (bid ∷ [])
        (record {
          pairs = [];
          skipped = sk.skipped;
          in_report = sym (append_nil matched);
          match_up = tt;
          gone = sk.gone;
          accounted = λ w. omega (
            arith,
            sk.kept w,
            same w,
            weight_of K Z w o m,
            weight_of K Z w o m2,
            ap (weigh w) (rest1 ∙ rest2),
          );
          in_order = order2;
        })
        (match_tip_lem now bid matched r m2 order2 started t fresh k2)

  -- If hot bids are matched in a market in which each bid stands in its queue, without an error,
  -- then they and the bids of the queues are, each exactly once: in one of the matches that are
  -- reported, skipped, or in a queue, in order again. A match is between a buy and another bid, of
  -- which the one that waited is hotter than the one that came in, and has not expired; whatever is
  -- skipped has expired.
  pub match_all-Settled :
      (now : ℕ) (bids : List (HotBid Key)) (matched : List Str) (m : Market K Z) {out : List Str}
      {m' : Market K Z}
      → InOrder K Z m
      → match_all K Z now bids matched m ≡ (ok out, m')
      → Settled K Z now bids matched m out m'
  unfolding match_all
  match_all-Settled now [] matched m {out} order h =
      subst (Settled K Z now [] matched m out) (ap (λ x. x.1) h) (record {
        pairs = [];
        skipped = [];
        in_report = sym (ok-injective (ap (λ x. x.0) h)) ∙ sym (append_nil matched);
        match_up = tt;
        gone = tt;
        accounted = λ w. omega arith;
        in_order = order;
      })
  match_all-Settled now (bid ∷ bids) matched m order h =
      let (between, m1, e, k) =
        bind-eq_ok (match_one K Z now bid matched) (match_all K Z now bids) m h in
      let one = match_one_lem now bid matched m order e in
      settle_then now (bid ∷ []) bids one (match_all-Settled now bids between m1 one.in_order k)
