-- ===== src/Gae/Matching/Best.antt =====
-- About the price of the bid that is the tip of a queue.
use mathlib.Core.Path.{subst}
use bitwrk.Base.{
  ℕ, suc, ◌≡◌, refl, sym, ◌∙◌, Bool, true, false, Option, none, some, List, [], ◌∷◌, ◌++◌,
  if◌then◌else◌, arith,
}
use bitwrk.Int.{ℤ, ltb_ℤ}
use bitwrk.Gae.Heap.{get_elem?}
use bitwrk.Gae.Heap.Weight.{some-injective}
use bitwrk.Gae.Heap.Order.{Among, IsHeap}
use bitwrk.Gae.Heap.Root.{root_least}
use bitwrk.Gae.Matching.{HotBid, StoredHotBid, hotter_than}
use bitwrk.Gae.Matching.Queues.{Queue, stored_one, cached_one, choose, tip_bid}
use bitwrk.Gae.Matching.Rounds.{tip_list, hot_list, unread}
use bitwrk.Gae.Matching.Contents.{IsStarted}
use bitwrk.Gae.Matching.Hotter.{colder, IsOf, hotter-colder, hotter-Orders}

-- Whether the first price is better: lower among sells, and higher among buys.
abbrev pub better : Bool → ℤ → ℤ → Bool
better sells a b = if sells then ltb_ℤ a b else ltb_ℤ b a

better_irrefl : (sells : Bool) (a : ℤ) → better sells a a ≡ false
better_irrefl true a = ground arith
better_irrefl false a = ground arith

better_trans :
    (sells : Bool) (a b c : ℤ)
    → better sells b a ≡ false
    → better sells c b ≡ false
    → better sells c a ≡ false
better_trans true a b c h k = ground arith
better_trans false a b c h k = ground arith

colder_no_better :
    (sells : Bool) (a b : ℤ) (s t : ℕ) → colder sells a b s t ≡ false → better sells a b ≡ false
colder_no_better true a b s t h = ground arith
colder_no_better false a b s t h = ground arith

hotter_no_worse :
    (sells : Bool) (a b : ℤ) (s t : ℕ) → colder sells a b s t ≡ true → better sells b a ≡ false
hotter_no_worse true a b s t h = ground arith
hotter_no_worse false a b s t h = ground arith

module _ {Key : Type 0} where
  -- The bids of a queue that are stored.
  abbrev pub stored_bids : Queue Key → List (HotBid Key)
  stored_bids q = tip_list q.stored_tip ++ hot_list (unread q.iter q.query)

module _ {Key : Type 0} (sells : Bool) where
  -- No bid of a list has a better price than this one.
  abbrev pub IsBest : HotBid Key → List (HotBid Key) → Type 0
  IsBest b [] = Unit
  IsBest b (c ∷ cs) = (better sells c.price.amount b.price.amount ≡ false) × IsBest b cs

  -- The results of a query that orders them by price, the best price first.
  abbrev pub AreRanked : List (HotBid Key) → Type 0
  AreRanked [] = Unit
  AreRanked (b ∷ bs) = IsBest b bs × AreRanked bs

  IsBest-append :
      (b : HotBid Key) (xs ys : List (HotBid Key)) → IsBest b xs → IsBest b ys → IsBest b (xs ++ ys)
  IsBest-append b [] ys h k = k
  IsBest-append b (x ∷ xs) ys (e, h) k = (e, IsBest-append b xs ys h k)

  IsBest-better :
      (b c : HotBid Key) (xs : List (HotBid Key))
      → better sells c.price.amount b.price.amount ≡ false
      → IsBest c xs
      → IsBest b xs
  IsBest-better b c [] e h = tt
  IsBest-better b c (x ∷ xs) e (f, h) = (
    better_trans sells b.price.amount c.price.amount x.price.amount e f,
    IsBest-better b c xs e h,
  )

  -- No bid of a heap has a better price than the first one.
  within_heap :
      (b : HotBid Key) (xs : List (HotBid Key))
      → ((k : ℕ) (x : HotBid Key) → get_elem? xs k ≡ some x → hotter_than x b ≡ false)
      → Among (IsOf sells) xs
      → IsBest b xs
  within_heap b [] h all = tt
  within_heap b (x ∷ xs) h all = (
    colder_no_better sells x.price.amount b.price.amount x.expires b.expires
        (sym (hotter-colder sells x b (all 0 x refl)) ∙ h 0 x refl),
    within_heap b xs (λ k. h (suc k)) (λ k. all (suc k)),
  )

  heap-IsBest :
      (b : HotBid Key) (bs : List (HotBid Key))
      → Among (IsOf sells) (b ∷ bs)
      → IsHeap hotter_than (b ∷ bs)
      → IsBest b (b ∷ bs)
  heap-IsBest b bs all heap =
      within_heap b (b ∷ bs)
        (root_least hotter_than (IsOf sells) (hotter-Orders sells) (b ∷ bs) all heap refl) all

  -- A queue whose bids are all sells, or none of which is: the stored ones are read in the order of
  -- their prices, there are none if the query has been run and has no tip, and the others are in a
  -- heap.
  pub record IsRanked (q : Queue Key) : Type 0 where
    pub ranked : AreRanked (stored_bids q)
    pub drained : IsStarted q → q.stored_tip ≡ none → hot_list (unread q.iter q.query) ≡ []
    pub stored_kind : Among (IsOf sells) (stored_bids q)
    pub cached_kind : Among (IsOf sells) q.cached
    pub heap : IsHeap hotter_than q.cached

  -- The price of the chosen tip, against the stored bids after it and the heap.
  pub choose-IsBest :
      (t : Option (StoredHotBid Key)) (us h : List (HotBid Key)) (b : HotBid Key)
      → AreRanked (tip_list t ++ us)
      → (t ≡ none → us ≡ [])
      → Among (IsOf sells) (tip_list t ++ us)
      → Among (IsOf sells) h
      → IsHeap hotter_than h
      → tip_bid (choose t h) ≡ some b
      → IsBest b (tip_list t ++ (us ++ h))
  unfolding choose
  choose-IsBest none us [] b ranked drained kt kh heap e = absurd (cc)
  choose-IsBest none us (c ∷ cs) b ranked drained kt kh heap e =
      subst (λ x. IsBest x (us ++ (c ∷ cs))) (some-injective e)
        (subst (λ vs. IsBest c (vs ++ (c ∷ cs))) (sym (drained refl)) (heap-IsBest c cs kh heap))
  choose-IsBest (some s) us [] b ranked drained kt kh heap e =
      subst (λ x. IsBest x (s.hot ∷ (us ++ []))) (some-injective e)
        (better_irrefl sells s.hot.price.amount, IsBest-append s.hot us [] ranked.0 tt)
  choose-IsBest (some s) us (c ∷ cs) b ranked drained kt kh heap e = go (hotter_than s.hot c) refl e
    where
      order :
          hotter_than s.hot c
          ≡ colder sells s.hot.price.amount c.price.amount s.hot.expires c.expires
      order = hotter-colder sells s.hot c (kt 0 s.hot refl)

      go :
          (y : Bool)
          → hotter_than s.hot c ≡ y
          → tip_bid (if y then stored_one s else cached_one c) ≡ some b
          → IsBest b (s.hot ∷ (us ++ (c ∷ cs)))
      go true y k =
          subst (λ x. IsBest x (s.hot ∷ (us ++ (c ∷ cs)))) (some-injective k)
            (
              better_irrefl sells s.hot.price.amount,
              IsBest-append s.hot us (c ∷ cs) ranked.0 (
                  IsBest-better s.hot c (c ∷ cs)
                    (hotter_no_worse sells s.hot.price.amount c.price.amount s.hot.expires c.expires
                      (sym order ∙ y))
                    (heap-IsBest c cs kh heap)),
            )
      go false y k =
          let no_better =
            colder_no_better sells s.hot.price.amount c.price.amount s.hot.expires c.expires
              (sym order ∙ y) in
          subst (λ x. IsBest x (s.hot ∷ (us ++ (c ∷ cs)))) (some-injective k)
            (
              no_better,
              IsBest-append c us (c ∷ cs) (IsBest-better c s.hot us no_better ranked.0)
                  (heap-IsBest c cs kh heap),
            )
