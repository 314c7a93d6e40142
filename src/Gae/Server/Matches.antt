-- ===== src/Gae/Server/Matches.antt =====
-- About the money that participants hold while `MatchBids` makes transactions.
use bitwrk.Base.{
  ℕ, ◌≡◌, sym, ap, ◌∙◌, inl, inr, Bool-cases, some, List, Str, if◌then◌else◌, ok, lift, bad_key,
  err,
}
use mathlib.Core.Path.{subst}
use bitwrk.Int64.{IsInt64}
use bitwrk.Money.{Currency}
use bitwrk.Dao.{Dao}
use bitwrk.Dao.Cached.{cached_dao, flush}
use bitwrk.Dao.Cached.Reads.{Storage}
use bitwrk.Dao.Cached.Sound.{Steady}
use bitwrk.Account.Total.{contains, Distinct}
use bitwrk.Bid.{Bid, is_buy, is_in_queue}
use bitwrk.Transaction
use bitwrk.Transaction.{Transaction}
use bitwrk.Transaction.Accounting.{new_transaction}
use bitwrk.Transaction.Accounting.Matching.{new_transaction_lem}
use bitwrk.Transaction.Accounting.Conserve.{tx_book-Conserves}
use bitwrk.Gae.Server.{Registry, as_placed, book_match, finish_match, match_loaded, match_bids}
use bitwrk.Gae.Server.Known.{KnownBid, KnownTrade, Faithful, books}
use bitwrk.Gae.Server.Books.{
  Keeps, Ends, Leaves-Keeps, lift-Keeps, bind-Keeps, if-Keeps, flush-Ends, bind-Ends, Ends-Begins,
  with_books-Keeps,
}

module _ (d : Dao) (st : Storage d) (Known : d.State → Type 0) (steady : Steady d Known)
    (c : Currency) (ps : List Str) (distinct : Distinct ps) (r : Registry d)
    (f : Faithful d st Known r ps) where
  book_match-Ends :
      (tx : Transaction) (key : Str) (b : Bid)
      → KnownTrade ps tx
      → Ends d st Known steady c ps (book_match d r tx key b)
  book_match-Ends tx key b (_, buyer, _) =
      bind-Ends d st Known steady c ps distinct
        (Transaction.Accounting.book (cached_dao d) tx key b) (λ _. flush d)
        (λ s t a i v e.
          let moved =
            tx_book-Conserves (cached_dao d) (books d st Known steady) tx key b s t i v e in
          (moved.consistent, moved.valid, moved.conserved c ps distinct buyer))
        (λ _ _ _ _ _ _. flush-Ends d st Known steady c ps)

  finish_match-Keeps :
      (new_id old_id : Str) (tx : Transaction) (new_bid old_bid : Bid) (key : Str)
      → KnownTrade ps tx
      → KnownBid ps new_bid
      → KnownBid ps old_bid
      → Keeps d st Known steady c ps (finish_match d r new_id old_id tx new_bid old_bid key)
  finish_match-Keeps new_id old_id tx new_bid old_bid key trade known known' =
      let new_bid' = record new_bid { transaction = some key } in
      let old_bid' = record old_bid { transaction = some key } in
      let buyer_bid = if is_buy new_bid'.bid_type then new_bid' else old_bid' in
      bind-Keeps d st Known steady c ps (r.store_bid new_id new_bid') _
        (Leaves-Keeps d st Known steady c ps (r.store_bid new_id new_bid')
          (f.store_bid-Leaves new_id new_bid' known))
        (λ _ _ _ _ _.
          bind-Keeps d st Known steady c ps (r.store_bid old_id old_bid') _
            (Leaves-Keeps d st Known steady c ps (r.store_bid old_id old_bid')
              (f.store_bid-Leaves old_id old_bid' known'))
            (λ _ _ _ _ _.
              bind-Keeps d st Known steady c ps (r.retire_transaction_later key tx) _
                (Leaves-Keeps d st Known steady c ps (r.retire_transaction_later key tx)
                  (f.retire_transaction_later-Leaves key tx))
                (λ _ _ _ _ _.
                  with_books-Keeps d st Known steady c ps r (book_match d r tx key buyer_bid) (
                    Ends-Begins d st Known steady c ps (book_match d r tx key buyer_bid)
                      (book_match-Ends tx key buyer_bid trade)))))

  Known-placed : (b : Bid) → KnownBid ps b → KnownBid ps (as_placed d r b)
  Known-placed b known = elim (Bool-cases (is_in_queue b.state)) [
    | inl e ↦ rw e known
    | inr e ↦ rw e known
  ]

  -- A transaction between known bids is known, and so are the bids afterwards.
  Known-matched :
      (now : ℕ) (new_id old_id : Str) (new_bid old_bid : Bid) (m : Transaction × Bid × Bid)
      → KnownBid ps new_bid
      → KnownBid ps old_bid
      → new_transaction now new_id old_id new_bid old_bid ≡ ok m
      → KnownTrade ps m.0 × KnownBid ps m.1 × KnownBid ps m.2
  Known-matched now new_id old_id new_bid old_bid (tx, new', old') known known' e =
      let (_, (price, fee), (buyer, seller), _, _, (is_new, is_old)) =
        new_transaction_lem now new_id old_id new_bid old_bid tx new' old' e in
      (
        (
          ap (λ p. contains p ps) seller ∙ elim (Bool-cases (is_buy new_bid.bid_type)) [
            | inl y ↦ rw y known'.0
            | inr n ↦ rw n known.0
          ],
          ap (λ p. contains p ps) buyer ∙ elim (Bool-cases (is_buy new_bid.bid_type)) [
            | inl y ↦ rw y known.0
            | inr n ↦ rw n known'.0
          ],
          (
            subst (λ m. IsInt64 m.amount) (sym price) known'.1.0,
            subst (λ m. IsInt64 m.amount) (sym fee) known'.1.1,
          ),
        ),
        subst (KnownBid ps) (sym is_new) known,
        subst (KnownBid ps) (sym is_old) known',
      )

  pub match_bids-Keeps :
      (now : ℕ) (new_id old_id : Str)
      → Keeps d st Known steady c ps (match_bids d r now new_id old_id)
  unfolding match_bids
  match_bids-Keeps now new_id old_id =
      let bad = lift-Keeps d st Known steady c ps {A = Unit {0}} (err bad_key) in
      if-Keeps d st Known steady c ps (r.is_key new_id) _ (lift (err bad_key))
        (if-Keeps d st Known steady c ps (r.is_key old_id) _ (lift (err bad_key))
          (bind-Keeps d st Known steady c ps (r.read_bid new_id) _
            (Leaves-Keeps d st Known steady c ps (r.read_bid new_id) (f.read_bid-Leaves new_id))
            (λ new_bid s t k e.
              bind-Keeps d st Known steady c ps (r.read_bid old_id) _
                (Leaves-Keeps d st Known steady c ps (r.read_bid old_id) (f.read_bid-Leaves old_id))
                (λ old_bid s' t' k' e'.
                  bind-Keeps d st Known steady c ps
                    (lift (new_transaction now new_id old_id new_bid (as_placed d r old_bid)))
                    (match_loaded d r new_id old_id)
                    (lift-Keeps d st Known steady c ps
                      (new_transaction now new_id old_id new_bid (as_placed d r old_bid)))
                    (λ m s'' t'' k'' h.
                      let (trade, new_known, old_known) =
                        Known-matched now new_id old_id new_bid (as_placed d r old_bid) m
                          (f.read_bid-Known new_id s t new_bid k e)
                          (Known-placed old_bid (f.read_bid-Known old_id s' t' old_bid k' e'))
                          (ap (λ y. y.0) h) in
                      bind-Keeps d st Known steady c ps (r.add_transaction m.0)
                        (finish_match d r new_id old_id m.0 m.1 m.2)
                        (Leaves-Keeps d st Known steady c ps (r.add_transaction m.0)
                          (f.add_transaction-Leaves m.0 trade))
                        (λ key _ _ _ _.
                          finish_match-Keeps new_id old_id m.0 m.1 m.2 key trade new_known
                            old_known)))))
          bad)
        bad
