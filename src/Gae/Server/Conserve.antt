-- ===== src/Gae/Server/Conserve.antt =====
-- About the money that participants hold while the server handles requests.
use bitwrk.Base.{
  ℕ, ◌≡◌, sym, Bool, true, false, List, Str, ltb, ◌||◌, if◌then◌else◌, ok, bind, lift, bad_key, err,
}
use mathlib.Core.Path.{subst}
use bitwrk.Money.{Currency}
use bitwrk.Dao.{Dao}
use bitwrk.Dao.Cached.{below, cached_dao, flush}
use bitwrk.Dao.Cached.Reads.{Storage}
use bitwrk.Dao.Cached.Sound.{Steady, sound_accounts}
use bitwrk.Account.Total.{Distinct}
use bitwrk.Bid
use bitwrk.Bid.{Bid, is_buy, is_in_queue, is_placed, placed, expired}
use bitwrk.Bid.Accounting.{check_balance}
use bitwrk.Bid.Accounting.Conserve.{book-Conserves, retire-Conserves}
use bitwrk.Gae.Server.{
  Registry, is_matched, unix_epoch, enqueue_added, enqueue_bid, store_retired, retire_loaded_bid,
  retire_bid, place_loaded_bid, place_bid,
}
use bitwrk.Gae.Server.Keeping.{check_balance-Preserves}
use bitwrk.Gae.Server.Known.{KnownBid, Faithful, books}
use bitwrk.Gae.Server.Books.{
  Keeps, Ends, Leaves-Keeps, lift-Keeps, bind-Keeps, if-Keeps, flush-Ends, flush-return-Ends,
  bind-Ends, below-Preserves, lift-Begins, if-Begins, Ends-Begins, read-Begins, with_books-Keeps,
}

-- A bid that is retired is known as before.
Known-retired :
    (ps : List Str) (b b' : Bid) (is_open : Bool)
    → KnownBid ps b
    → b' ≡ (if is_open then record b { state = expired } else b)
    → KnownBid ps b'
Known-retired ps b b' true known e = subst (KnownBid ps) (sym e) known
Known-retired ps b b' false known e = subst (KnownBid ps) (sym e) known

module _ (d : Dao) (st : Storage d) (Known : d.State → Type 0) (steady : Steady d Known)
    (c : Currency) (ps : List Str) (distinct : Distinct ps) (r : Registry d)
    (f : Faithful d st Known r ps) where
  enqueue_added-Ends :
      (b : Bid) (key : Str) → KnownBid ps b → Ends d st Known steady c ps (enqueue_added d r b key)
  enqueue_added-Ends b key (known, _) =
      bind-Ends d st Known steady c ps distinct (Bid.Accounting.book (cached_dao d) b key) _
        (λ s t a i v e.
          let moved = book-Conserves (cached_dao d) (books d st Known steady) b key s t i v e in
          (moved.consistent, moved.valid, moved.conserved c ps distinct known))
        (λ _ _ _ _ _ _.
          bind-Ends d st Known steady c ps distinct (below d (r.retire_bid_later key b)) _
            (below-Preserves d st Known steady c ps distinct (r.retire_bid_later key b)
              (f.retire_bid_later-Leaves key b))
            (λ _ _ _ _ _ _.
              bind-Ends d st Known steady c ps distinct (below d (r.queue_hot_bid key b)) _
                (below-Preserves d st Known steady c ps distinct (r.queue_hot_bid key b)
                  (f.queue_hot_bid-Leaves key b))
                (λ _ _ _ _ _ _. flush-return-Ends d st Known steady c ps key)))

  pub enqueue_bid-Keeps :
      (b : Bid) → KnownBid ps b → Keeps d st Known steady c ps (enqueue_bid d r b)
  unfolding enqueue_bid
  enqueue_bid-Keeps b known =
      let call =
        bind (check_balance (cached_dao d) b)
          (λ _. bind (below d (r.add_bid b)) (enqueue_added d r b)) in
      with_books-Keeps d st Known steady c ps r call (
        Ends-Begins d st Known steady c ps call (
          bind-Ends d st Known steady c ps distinct (check_balance (cached_dao d) b)
            (λ _. bind (below d (r.add_bid b)) (enqueue_added d r b))
            (check_balance-Preserves (cached_dao d) (books d st Known steady) c ps distinct b)
            (λ _ _ _ _ _ _.
              bind-Ends d st Known steady c ps distinct (below d (r.add_bid b))
                (enqueue_added d r b)
                (below-Preserves d st Known steady c ps distinct (r.add_bid b)
                  (f.add_bid-Leaves b known))
                (λ key _ _ _ _ _. enqueue_added-Ends b key known))))

  -- A known bid is retired.
  retire_known-Ends :
      (b : Bid) (key : Str) (now : ℕ)
      → KnownBid ps b
      → Ends d st Known steady c ps
          (bind (Bid.Accounting.retire (cached_dao d) b key now) (store_retired d r key))
  unfolding sound_accounts
  retire_known-Ends b key now known =
      bind-Ends d st Known steady c ps distinct (Bid.Accounting.retire (cached_dao d) b key now)
        (store_retired d r key)
        (λ s t b' i v e.
          let (moved, _) =
            retire-Conserves (cached_dao d) (books d st Known steady) b b' key now s t i v e in
          (moved.consistent, moved.valid, moved.conserved c ps distinct known.0))
        (λ b' s t i v e.
          let (_, left) =
            retire-Conserves (cached_dao d) (books d st Known steady) b b' key now s t i v e in
          bind-Ends d st Known steady c ps distinct (below d (r.store_bid key b')) (λ _. flush d)
            (below-Preserves d st Known steady c ps distinct (r.store_bid key b') (
              f.store_bid-Leaves key b'
                (Known-retired ps b b' (is_placed b.state || is_in_queue b.state) known left)))
            (λ _ _ _ _ _ _. flush-Ends d st Known steady c ps))

  pub retire_bid-Keeps :
      (key : Str) (now : ℕ) → Keeps d st Known steady c ps (retire_bid d r key now)
  unfolding retire_bid
  retire_bid-Keeps key now =
      with_books-Keeps d st Known steady c ps r
        (bind (below d (r.read_bid key)) (retire_loaded_bid d r key now))
        (read-Begins d st Known steady c ps (r.read_bid key) (retire_loaded_bid d r key now)
          (f.read_bid-Leaves key)
          (λ b s t k e.
            if-Begins d st Known steady c ps (is_matched b.state) (lift (ok tt)) _
              (lift-Begins d st Known steady c ps (ok tt))
              (if-Begins d st Known steady c ps (ltb b.created unix_epoch) (lift (ok tt)) _
                (lift-Begins d st Known steady c ps (ok tt))
                (Ends-Begins d st Known steady c ps
                  (bind (Bid.Accounting.retire (cached_dao d) b key now) (store_retired d r key))
                  (retire_known-Ends b key now (f.read_bid-Known key s t b k e))))))

  pub place_bid-Keeps : (key : Str) → Keeps d st Known steady c ps (place_bid d r key)
  unfolding place_bid
  place_bid-Keeps key =
      if-Keeps d st Known steady c ps (r.is_key key)
        (bind (r.read_bid key) (place_loaded_bid d r key)) (lift (err bad_key))
        (bind-Keeps d st Known steady c ps (r.read_bid key) (place_loaded_bid d r key)
          (Leaves-Keeps d st Known steady c ps (r.read_bid key) (f.read_bid-Leaves key))
          (λ b s t k e.
            let placed_bid = record b { state = placed } in
            if-Keeps d st Known steady c ps (is_in_queue b.state) (r.store_bid key placed_bid)
              (lift (ok tt))
              (Leaves-Keeps d st Known steady c ps (r.store_bid key placed_bid)
                (f.store_bid-Leaves key placed_bid (f.read_bid-Known key s t b k e)))
              (lift-Keeps d st Known steady c ps (ok tt))))
        (lift-Keeps d st Known steady c ps (err bad_key))
