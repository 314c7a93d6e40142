-- ===== src/Gae/Server/Requests.antt =====
-- About sequences of requests to the operations of server/gae/gae_main.go and to `MatchBids`.
use bitwrk.Base.{ℕ, ◌≡◌, refl, ◌∙◌, List, [], ◌∷◌, Str, Result, ok, err, panic, Action, bind, lift}
use bitwrk.Money.{Currency}
use bitwrk.Dao.{Dao}
use bitwrk.Dao.Cached.Reads.{Storage}
use bitwrk.Dao.Cached.Sound.{Steady}
use bitwrk.Account.Total.{Distinct}
use bitwrk.Bid.{Bid}
use bitwrk.Gae.Server.{Registry, run_in_transaction, enqueue_bid, retire_bid, place_bid, match_bids}
use bitwrk.Gae.Server.Known.{KnownBid, Faithful, AllStoredValid, stored_holdings}
use bitwrk.Gae.Server.Books.{Holds, Keeps, bind-Keeps, lift-Keeps}
use bitwrk.Gae.Server.Matches.{match_bids-Keeps}
use bitwrk.Gae.Server.Conserve.{enqueue_bid-Keeps, retire_bid-Keeps, place_bid-Keeps}

-- The requests that are made of the server, with the time at which they are handled.
pub data Request : Type 0 where
  enqueue : Bid → Request
  place_it : Str → Request
  retire_it : Str → ℕ → Request
  match_them : ℕ → Str → Str → Request

-- Whether all bids that come in are bids of these participants, in int64 amounts.
abbrev pub AreKnown : List Str → List Request → Type 0
AreKnown ps [] = Unit
AreKnown ps (enqueue b ∷ qs) = KnownBid ps b × AreKnown ps qs
AreKnown ps (place_it k ∷ qs) = AreKnown ps qs
AreKnown ps (retire_it k now ∷ qs) = AreKnown ps qs
AreKnown ps (match_them now k l ∷ qs) = AreKnown ps qs

first_known :
    (ps : List Str) (q : Request) (qs : List Request)
    → AreKnown ps (q ∷ qs)
    → AreKnown ps (q ∷ []) × AreKnown ps qs
first_known ps (enqueue b) qs (k, ks) = ((k, tt), ks)
first_known ps (place_it key) qs ks = (tt, ks)
first_known ps (retire_it key now) qs ks = (tt, ks)
first_known ps (match_them now k l) qs ks = (tt, ks)

module _ (d : Dao) (r : Registry d) where
  -- Each request is handled in a database transaction of its own.
  abbrev pub handle : Request → Action d.State (Unit {0})
  handle (enqueue b) = bind (enqueue_bid d r b) (λ _. lift (ok tt))
  handle (place_it key) = place_bid d r key
  handle (retire_it key now) = retire_bid d r key now
  handle (match_them now new_id old_id) = match_bids d r now new_id old_id

  abbrev pub serve : List Request → d.State → d.State
  serve [] s = s
  serve (q ∷ qs) s = serve qs (run_in_transaction d r (handle q) s).1

module _ (d : Dao) (st : Storage d) (Known : d.State → Type 0) (steady : Steady d Known)
    (c : Currency) (ps : List Str) where
  handle-Keeps :
      (distinct : Distinct ps) (r : Registry d) (q : Request)
      → Faithful d st Known r ps
      → AreKnown ps (q ∷ [])
      → Keeps d st Known steady c ps (handle d r q)
  handle-Keeps distinct r (enqueue b) f (known, _) =
      bind-Keeps d st Known steady c ps (enqueue_bid d r b) (λ _. lift (ok tt))
        (enqueue_bid-Keeps d st Known steady c ps distinct r f b known)
        (λ _ _ _ _ _. lift-Keeps d st Known steady c ps (ok tt))
  handle-Keeps distinct r (place_it key) f known =
      place_bid-Keeps d st Known steady c ps distinct r f key
  handle-Keeps distinct r (retire_it key now) f known =
      retire_bid-Keeps d st Known steady c ps distinct r f key now
  handle-Keeps distinct r (match_them now k l) f known =
      match_bids-Keeps d st Known steady c ps distinct r f now k l

  -- What a request leaves, also if it fails and is rolled back.
  rolled_back :
      (r : Registry d) (call : Action d.State (Unit {0})) (s : d.State)
      → Known s
      → AllStoredValid d st Known steady s
      → Keeps d st Known steady c ps call
      → Holds d st Known steady c ps
          (run_in_transaction d r call s).1
          (stored_holdings d st Known steady c s ps)
  rolled_back r call s known valid p = go (call s) refl
    where
      go :
          (x : Result (Unit {0}) × d.State)
          → call s ≡ x
          → Holds d st Known steady c ps
              (elim x.0 as (λ _. Result (Unit {0}) × d.State) [
                | ok u ↦ (ok u, x.1)
                | err e ↦ (err e, s)
                | panic ↦ (panic, s)
              ]).1
              (stored_holdings d st Known steady c s ps)
      go (ok u, t) e = p s t u known valid e
      go (err x, t) e = (known, valid, refl)
      go (panic, t) e = (known, valid, refl)

  -- Suppose that bids, transactions and tasks are kept apart from the accounts, that the storage
  -- holds bids and transactions of these participants in int64 amounts as long as only such are
  -- put into it, and that the bids that come in are such bids. Then after any sequence of requests
  -- to enqueue, place, retire and match bids, whose changes to accounts are flushed from a cache
  -- to the storage, each in a database transaction that is rolled back if it fails, the storage
  -- still holds only such bids and transactions, its accounts are valid if they were, and by them
  -- the participants hold in a currency what they held before.
  pub serve_conserves :
      (r : Registry d) (qs : List Request) (s : d.State)
      → Distinct ps
      → Faithful d st Known r ps
      → AreKnown ps qs
      → Known s
      → AllStoredValid d st Known steady s
      → Known (serve d r qs s)
        × AllStoredValid d st Known steady (serve d r qs s)
        × (stored_holdings d st Known steady c (serve d r qs s) ps
            ≡ stored_holdings d st Known steady c s ps)
  serve_conserves r [] s distinct f known i v = (i, v, refl)
  serve_conserves r (q ∷ qs) s distinct f known i v =
      let (first, rest) = first_known ps q qs known in
      let s1 = (run_in_transaction d r (handle d r q) s).1 in
      let (i1, v1, same) = rolled_back r (handle d r q) s i v (handle-Keeps distinct r q f first) in
      let (i2, v2, same') = serve_conserves r qs s1 distinct f rest i1 v1 in (i2, v2, same' ∙ same)
