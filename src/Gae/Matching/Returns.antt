-- ===== src/Gae/Matching/Returns.antt =====
-- About `matchIncomingBids` on a datastore whose calls succeed.
use bitwrk.Base.{
  ℕ, ◌≡◌, refl, ap, Bool, true, false, not, Option, none, some, List, [], ◌∷◌, ◌++◌, Str, Result,
  ok, Action, bind,
}
use bitwrk.Bid.{is_buy}
use bitwrk.Gae.Store.{Keys}
use bitwrk.Gae.Matching.{HotBid, hotter_than, HotStore}
use bitwrk.Gae.Matching.Queues.{Queue, tip, pop_tip, insert_bid}
use bitwrk.Gae.Matching.Rounds.{
  Market, in_queue_of, this_queue, other_queue, skip_expired, match_tip, skip_fuel, match_one,
  match_all,
}
use bitwrk.Gae.Matching.Contents.{IsStarted}
use bitwrk.Gae.Matching.Tips.{tip_lem}
use bitwrk.Gae.Matching.Skipping.{skip_expired_lem}
use bitwrk.Gae.Matching.Ledger.{queue_of, InOrder, in_queue_of_lem}
use bitwrk.Gae.Matching.Outcome.{match_one_lem, skip_fuel_lem}
use bitwrk.Gae.Matching.Working.{
  Returns, NeverFails, bind-Returns, tip-Returns, pop_tip-Returns, insert_bid-Returns, skip-Returns,
}

module _ (K : Keys) (Z : HotStore K.Key) (works : NeverFails Z) where
  open K use {Key}

  in_queue_of-Returns :
      {A : Type 0} (y : Bool) (call : Action (Queue Key × Z.State) A) (m : Market K Z)
      → Returns call (queue_of K Z y m, m.store)
      → Returns (in_queue_of K Z y call) m
  in_queue_of-Returns true call m (a, (q, s), e) = (
    a,
    record m { buys = q; store = s },
    ap (λ r. (r.0, record m { buys = r.1.0; store = r.1.1 })) e,
  )
  in_queue_of-Returns false call m (a, (q, s), e) = (
    a,
    record m { sells = q; store = s },
    ap (λ r. (r.0, record m { sells = r.1.0; store = r.1.1 })) e,
  )

  keep-Returns :
      (bid : HotBid Key) (matched : List Str) (m : Market K Z)
      → Returns (bind (this_queue K Z bid (insert_bid K Z bid)) (λ _ m'. (ok matched, m'))) m
  keep-Returns bid matched m =
      let y = is_buy bid.bid_type in
      bind-Returns (this_queue K Z bid (insert_bid K Z bid)) (λ _ m'. (ok matched, m')) m
        (in_queue_of-Returns y (insert_bid K Z bid) m
          (insert_bid-Returns K Z works bid (queue_of K Z y m) m.store))
        (λ _ m1 e. (matched, m1, refl))

  match_tip-Returns :
      (bid : HotBid Key) (matched : List Str) (r : Option (HotBid Key)) (m : Market K Z)
      → IsStarted (queue_of K Z (not (is_buy bid.bid_type)) m)
      → Returns (match_tip K Z bid matched r) m
  unfolding match_tip
  match_tip-Returns bid matched none m started = keep-Returns bid matched m
  match_tip-Returns bid matched (some other) m started =
      let o = not (is_buy bid.bid_type) in
      let report : Unit {0} → Action (Market K Z) (List Str) =
        λ _ m'. (ok (matched ++ (K.encode bid.bid_key ∷ K.encode other.bid_key ∷ [])), m') in
      elim (hotter_than other bid)
        as (λ y.
          (a : List Str) × (p : Market K Z) × ◌≡◌ {A = Result (List Str) × Market K Z}
            (elim y [
              | true ↦ bind (other_queue K Z bid (pop_tip K Z)) report m
              | false ↦ bind (this_queue K Z bid (insert_bid K Z bid)) (λ _ m'. (ok matched, m')) m
            ])
            (ok a, p)) [
              | true ↦
                  bind-Returns (other_queue K Z bid (pop_tip K Z)) report m
                    (in_queue_of-Returns o (pop_tip K Z) m
                      (pop_tip-Returns K Z works (queue_of K Z o m) m.store started))
                    (λ _ m1 e. (_, m1, refl))
              | false ↦ keep-Returns bid matched m
            ]

  match_one-Returns :
      (now : ℕ) (bid : HotBid Key) (matched : List Str) (m : Market K Z)
      → InOrder K Z m
      → Returns (match_one K Z now bid matched) m
  unfolding match_one
  match_one-Returns now bid matched m order =
      let o = not (is_buy bid.bid_type) in
      let fuel = skip_fuel K Z m bid in
      let skip = skip_expired K Z now fuel in
      let look : Unit {0} → Action (Market K Z) (List Str) =
        λ _. bind (other_queue K Z bid (tip K Z)) (match_tip K Z bid matched) in
      bind-Returns (other_queue K Z bid skip) look m
        (in_queue_of-Returns o skip m (
          skip-Returns K Z works now fuel (queue_of K Z o m) m.store (order o).0
            (skip_fuel_lem K Z m bid)))
        (λ _ m1 e1.
          let (place1, _) = in_queue_of_lem K Z o skip m e1 in
          let sk = skip_expired_lem K Z now fuel (queue_of K Z o m) m.store (order o).0 place1 in
          bind-Returns (other_queue K Z bid (tip K Z)) (match_tip K Z bid matched) m1
            (in_queue_of-Returns o (tip K Z) m1
              (tip-Returns K Z works (queue_of K Z o m1) m1.store sk.sound))
            (λ r m2 e2.
              let (place2, _) = in_queue_of_lem K Z o (tip K Z) m1 e2 in
              let (started, _, _) = tip_lem K Z (queue_of K Z o m1) m1.store sk.sound place2 in
              match_tip-Returns bid matched r m2 started))

  -- On a store whose reads and deletions succeed, hot bids in a market in which each bid stands in
  -- its queue are matched without an error or a panic, and each loop over expired bids ends within
  -- one more round than its queue has bids.
  pub match_all-Returns :
      (now : ℕ) (bids : List (HotBid Key)) (matched : List Str) (m : Market K Z)
      → InOrder K Z m
      → Returns (match_all K Z now bids matched) m
  unfolding match_all
  match_all-Returns now [] matched m order = (matched, m, refl)
  match_all-Returns now (bid ∷ bids) matched m order =
      bind-Returns (match_one K Z now bid matched) (match_all K Z now bids) m
        (match_one-Returns now bid matched m order)
        (λ between m1 e.
          match_all-Returns now bids between m1
            (match_one_lem K Z now bid matched m order e).in_order)
