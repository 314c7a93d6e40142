-- ===== src/Gae/Matching/Ledger.antt =====
-- About the bids that are matched, skipped and kept in `matchIncomingBids`.
use mathlib.Core.Path.{subst}
use bitwrk.Base.{
  ℕ, ◌+◌, ◌≡◌, refl, ap, sym, ◌∙◌, inl, inr, Bool, true, false, not, some, List, [], ◌∷◌, ◌++◌, Str,
  ltb, arith, Bool-cases, if◌then◌else◌, ok, Action, bind, bind-eq_ok, ok-injective,
}
use bitwrk.Bid.{is_buy}
use bitwrk.Gae.Store.{Keys}
use bitwrk.Gae.Heap.Weight.{total}
use bitwrk.Gae.Matching.{HotBid, hotter_than, HotStore}
use bitwrk.Gae.Matching.Queues.{Queue, pop_tip, insert_bid}
use bitwrk.Gae.Matching.Rounds.{Market, in_queue_of, this_queue, other_queue}
use bitwrk.Gae.Matching.Contents.{IsStarted, IsSound, weigh, started-IsSound}
use bitwrk.Gae.Matching.Tips.{tip_of, insert_bid_lem, pop_tip_lem}
use bitwrk.Gae.Matching.Skipping.{HaveExpired}

-- A match: an incoming bid, and the bid that it has found.
pub record Pair (Key : Type 0) : Type 0 where
  pub incoming : HotBid Key
  pub waiting : HotBid Key

module _ {Key : Type 0} where
  -- A match is between a buy and a bid that is none, of which the one that waited is hotter than
  -- the incoming one, and has not expired.
  abbrev pub Matches : ℕ → Pair Key → Type 0
  Matches now p =
      (is_buy p.waiting.bid_type ≡ not (is_buy p.incoming.bid_type))
      × (hotter_than p.waiting p.incoming ≡ true)
      × (ltb now p.waiting.expires ≡ true)

  abbrev pub AllMatch : ℕ → List (Pair Key) → Type 0
  AllMatch now [] = Unit
  AllMatch now (p ∷ ps) = Matches now p × AllMatch now ps

  -- The bids of matches, and their keys in the order in which they are reported.
  abbrev pub both : List (Pair Key) → List (HotBid Key)
  both [] = []
  both (p ∷ ps) = p.incoming ∷ p.waiting ∷ both ps

  abbrev pub reported : (Key → Str) → List (Pair Key) → List Str
  reported encode [] = []
  reported encode (p ∷ ps) =
      encode p.incoming.bid_key ∷ encode p.waiting.bid_key ∷ reported encode ps

  -- 1 for a bid that does not belong to a queue of buys, or of others.
  abbrev pub misplaced : Bool → HotBid Key → ℕ
  misplaced true b = if is_buy b.bid_type then 0 else 1
  misplaced false b = if is_buy b.bid_type then 1 else 0

  misplaced_self : (b : HotBid Key) → misplaced (is_buy b.bid_type) b ≡ 0
  misplaced_self b = elim (Bool-cases (is_buy b.bid_type)) [
    | inl y ↦ rw y (rw y refl)
    | inr n ↦ rw n (rw n refl)
  ]

  misplaced_zero : (y : Bool) (b : HotBid Key) → misplaced y b ≡ 0 → is_buy b.bid_type ≡ y
  misplaced_zero true b h = ground arith
  misplaced_zero false b h = ground arith

pub append_nil {ℓ} : {A : Type ℓ} (xs : List A) → xs ++ [] ≡ xs
append_nil [] = refl
append_nil (x ∷ xs) = ap (λ ys. x ∷ ys) (append_nil xs)

module _ (K : Keys) (Z : HotStore K.Key) where
  open K use {Key}

  abbrev pub queue_of : Bool → Market K Z → Queue Key
  queue_of true m = m.buys
  queue_of false m = m.sells

  abbrev pub market_weight : (HotBid Key → ℕ) → Market K Z → ℕ
  market_weight w m = weigh w m.buys + weigh w m.sells

  -- Each bid stands in its queue, and a queue has a stored tip only once its query has been run.
  abbrev pub InPlace : Bool → Queue Key → Type 0
  InPlace y q = IsSound q × (weigh (misplaced y) q ≡ 0)

  abbrev pub InOrder : Market K Z → Type 0
  InOrder m = (y : Bool) → InPlace y (queue_of y m)

  pub weight_of :
      (w : HotBid Key → ℕ) (y : Bool) (m : Market K Z)
      → market_weight w m ≡ weigh w (queue_of y m) + weigh w (queue_of (not y) m)
  weight_of w true m = refl
  weight_of w false m = omega arith

  -- A call on one of the queues leaves the other one.
  pub in_queue_of_lem :
      {A : Type 0} (y : Bool) (call : Action (Queue Key × Z.State) A) (m : Market K Z) {a : A}
      {m' : Market K Z}
      → in_queue_of K Z y call m ≡ (ok a, m')
      → (call (queue_of y m, m.store) ≡ (ok a, (queue_of y m', m'.store)))
        × (queue_of (not y) m ≡ queue_of (not y) m')
  in_queue_of_lem true call m h = (ap (λ x. (x.0, (x.1.buys, x.1.store))) h, ap (λ x. x.1.sells) h)
  in_queue_of_lem false call m h = (ap (λ x. (x.0, (x.1.sells, x.1.store))) h, ap (λ x. x.1.buys) h)

  -- What happens to bids: some match, in the order in which their keys are reported, some have
  -- expired, and the others are in the queues.
  pub record Settled (now : ℕ) (bids : List (HotBid Key)) (before : List Str) (m : Market K Z)
      (after : List Str) (m' : Market K Z) : Type 0 where
    pub pairs : List (Pair Key)
    pub skipped : List (HotBid Key)
    pub in_report : after ≡ before ++ reported K.encode pairs
    pub match_up : AllMatch now pairs
    pub gone : HaveExpired now skipped
    pub accounted :
        (w : HotBid Key → ℕ)
        → total w bids + market_weight w m
          ≡ total w (both pairs) + total w skipped + market_weight w m'
    pub in_order : InOrder m'

  -- A call on one queue keeps the order if it keeps that queue in place.
  pub update_order :
      (y : Bool) (m m' : Market K Z)
      → InOrder m
      → queue_of (not y) m ≡ queue_of (not y) m'
      → InPlace y (queue_of y m')
      → InOrder m'
  update_order true m m' order rest place true = place
  update_order true m m' order rest place false = subst (InPlace false) rest (order false)
  update_order false m m' order rest place true = subst (InPlace true) rest (order true)
  update_order false m m' order rest place false = place

  -- A bid that finds no match is inserted in its queue.
  pub keep_lem :
      (now : ℕ) (bid : HotBid Key) (matched : List Str) (m : Market K Z) {out : List Str}
      {m' : Market K Z}
      → InOrder m
      → bind (this_queue K Z bid (insert_bid K Z bid)) (λ _ m'. (ok matched, m')) m ≡ (ok out, m')
      → Settled now (bid ∷ []) matched m out m'
  keep_lem now bid matched m {out} {m'} order h =
      let y = is_buy bid.bid_type in
      let (_, m1, e, k) =
        bind-eq_ok (this_queue K Z bid (insert_bid K Z bid)) (λ _ m'. (ok matched, m')) m h in
      let (place, rest) = in_queue_of_lem y (insert_bid K Z bid) m e in
      let (started, more) = insert_bid_lem K Z bid (queue_of y m) m.store (order y).0 place in
      let in_order = update_order y m m1 order rest (
        started-IsSound (queue_of y m1) started,
        omega (arith, more (misplaced y), (order y).1, misplaced_self bid),
      ) in
      subst (Settled now (bid ∷ []) matched m out) (ap (λ x. x.1) k) (record {
        pairs = [];
        skipped = [];
        in_report = sym (ok-injective (ap (λ x. x.0) k)) ∙ sym (append_nil matched);
        match_up = tt;
        gone = tt;
        accounted =
            λ w. omega (arith, weight_of w y m, weight_of w y m1, more w, ap (weigh w) rest);
        in_order = in_order;
      })

  -- A bid that finds a match takes it out of its queue.
  pub take_lem :
      (now : ℕ) (bid other : HotBid Key) (matched : List Str) (m : Market K Z) {out : List Str}
      {m' : Market K Z}
      → InOrder m
      → IsStarted (queue_of (not (is_buy bid.bid_type)) m)
      → tip_of K Z (queue_of (not (is_buy bid.bid_type)) m) ≡ some other
      → ltb now other.expires ≡ true
      → hotter_than other bid ≡ true
      → bind
          (other_queue K Z bid (pop_tip K Z))
          (λ _ m'. (ok (matched ++ (K.encode bid.bid_key ∷ K.encode other.bid_key ∷ [])), m'))
          m
        ≡ (ok out, m')
      → Settled now (bid ∷ []) matched m out m'
  take_lem now bid other matched m {out} {m'} order started t alive hotter h =
      let o = not (is_buy bid.bid_type) in
      let keys = K.encode bid.bid_key ∷ K.encode other.bid_key ∷ [] in
      let (_, m1, e, k) =
        bind-eq_ok (other_queue K Z bid (pop_tip K Z)) (λ _ m'. (ok (matched ++ keys), m')) m h in
      let (place, rest) = in_queue_of_lem o (pop_tip K Z) m e in
      let (started1, more) = pop_tip_lem K Z other (queue_of o m) m.store started t place in
      let in_order = update_order o m m1 order rest (
        started-IsSound (queue_of o m1) started1,
        omega (arith, more (misplaced o), (order o).1),
      ) in
      subst (Settled now (bid ∷ []) matched m out) (ap (λ x. x.1) k) (record {
        pairs = record { incoming = bid; waiting = other } ∷ [];
        skipped = [];
        in_report = sym (ok-injective (ap (λ x. x.0) k));
        match_up = (
          (misplaced_zero o other (omega (arith, more (misplaced o), (order o).1)), hotter, alive),
          tt,
        );
        gone = tt;
        accounted =
            λ w. omega (arith, weight_of w o m, weight_of w o m1, more w, ap (weigh w) rest);
        in_order = in_order;
      })
