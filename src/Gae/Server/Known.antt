-- ===== src/Gae/Server/Known.antt =====
-- What the server of server/gae relies on, and the caches that its operations begin with.
use bitwrk.Base.{◌≡◌, refl, sym, ap, true, List, [], Str, lookup, Result, ok, Action}
use bitwrk.Int.{ℤ}
use bitwrk.Int64.{IsInt64}
use bitwrk.Money.{Currency}
use bitwrk.Dao.{Dao, Accounts}
use bitwrk.Dao.Cached.{Cache, new_cache, below, cached_dao}
use bitwrk.Dao.Cached.Reads.{Storage}
use bitwrk.Dao.Cached.Sound.{Steady, Sound, Sound-same, sound_accounts}
use bitwrk.Dao.Cached.Settled.{stored}
use bitwrk.Account.Apply.{IsValid, worth}
use bitwrk.Account.Total.{total, contains}
use bitwrk.Bid.{Bid}
use bitwrk.Transaction.{Transaction}
use bitwrk.Gae.Server.{Registry}
use bitwrk.Gae.Server.Keeping.{Harmless}

module _ (ps : List Str) where
  -- Bids and transactions of these participants, in int64 amounts.
  abbrev pub KnownBid : Bid → Type 0
  KnownBid b = (contains b.participant ps ≡ true) × (IsInt64 b.price.amount × IsInt64 b.fee.amount)

  abbrev pub KnownTrade : Transaction → Type 0
  KnownTrade tx =
      (contains tx.seller ps ≡ true)
      × (contains tx.buyer ps ≡ true)
      × (IsInt64 tx.price.amount × IsInt64 tx.fee.amount)

module _ (d : Dao) (st : Storage d) (Known : d.State → Type 0) where
  -- A call of the storage that leaves the accounts alone.
  abbrev pub Leaves : {A : Type 0} → Action d.State A → Type 0
  Leaves {A} call =
      (s t : d.State) (a : A)
      → Known s
      → call s ≡ (ok a, t)
      → Known t × ((q : Str) → st.find t q ≡ st.find s q)

  -- What the server relies on, where `Known` says of a state of the storage that the bids and the
  -- transactions in it are known: they and the tasks are kept apart from the accounts, a state stays
  -- known if known ones are put into it, and known ones are read from it.
  pub record Faithful (r : Registry d) (ps : List Str) : Type 0 where
    pub read_bid-Leaves : (k : Str) → Leaves (r.read_bid k)
    pub read_bid-Known :
        (k : Str) (s t : d.State) (b : Bid) → Known s → r.read_bid k s ≡ (ok b, t) → KnownBid ps b
    pub store_bid-Leaves : (k : Str) (b : Bid) → KnownBid ps b → Leaves (r.store_bid k b)
    pub add_bid-Leaves : (b : Bid) → KnownBid ps b → Leaves (r.add_bid b)
    pub read_transaction-Leaves : (k : Str) → Leaves (r.read_transaction k)
    pub read_transaction-Known :
        (k : Str) (s t : d.State) (tx : Transaction)
        → Known s
        → r.read_transaction k s ≡ (ok tx, t)
        → KnownTrade ps tx
    pub store_transaction-Leaves :
        (k : Str) (tx : Transaction) → KnownTrade ps tx → Leaves (r.store_transaction k tx)
    pub add_transaction-Leaves :
        (tx : Transaction) → KnownTrade ps tx → Leaves (r.add_transaction tx)
    pub retire_bid_later-Leaves : (k : Str) (b : Bid) → Leaves (r.retire_bid_later k b)
    pub retire_transaction_later-Leaves :
        (k : Str) (tx : Transaction) → Leaves (r.retire_transaction_later k tx)
    pub queue_hot_bid-Leaves : (k : Str) (b : Bid) → Leaves (r.queue_hot_bid k b)

module _ (d : Dao) (st : Storage d) (Known : d.State → Type 0) (steady : Steady d Known) where
  -- The accounts as operations see them, and as the storage has them.
  abbrev pub books : Accounts (cached_dao d)
  books = sound_accounts d st Known steady

  abbrev pub AllStoredValid : d.State → Type 0
  AllStoredValid s = (q : Str) → IsValid (stored d st Known steady s q)

  abbrev pub stored_holdings : Currency → d.State → List Str → ℤ
  stored_holdings c s ps = total (λ q. worth c (stored d st Known steady s q)) ps

  pub below-Harmless :
      {A : Type 0} (call : Action d.State A)
      → Leaves d st Known call
      → Harmless (cached_dao d) books (below d call)
  unfolding sound_accounts
  below-Harmless {A} call h c t a sound e =
      let inner : call c.delegate ≡ (ok a, t.delegate) =
        ap {B = Result A × d.State} (λ y. (y.0, y.1.delegate)) e in
      let (known, same) = h c.delegate t.delegate a sound.known inner in
      Sound-same d st Known steady c t (ap (λ y. y.1.accounts) (sym e))
        (ap (λ y. y.1.saved_accounts) (sym e)) same known sound

  pub new_cache-empty : (s : d.State) → (new_cache d s true).accounts ≡ []
  unfolding new_cache
  new_cache-empty s = refl

  pub new_cache-Sound : (s : d.State) → Known s → Sound d st Known steady (new_cache d s true)
  unfolding new_cache lookup
  new_cache-Sound s known = record {
    named = λ p b x. absurd (cc);
    marked = tt;
    clean = λ q b out x. absurd (cc);
    known = known;
  }

  -- A new cache shows the storage's accounts.
  pub new_cache-view :
      (s : d.State) (q : Str) → books.view (new_cache d s true) q ≡ stored d st Known steady s q
  unfolding new_cache lookup sound_accounts
  new_cache-view s q = refl

  -- What is read below a new cache is read in the storage.
  pub new_cache-read :
      {A : Type 0} (s : d.State) (call : Action d.State A) (t : Cache d) (a : A)
      → below d call (new_cache d s true) ≡ (ok a, t)
      → call s ≡ (ok a, t.delegate)
  unfolding new_cache
  new_cache-read {A} s call t a e = ap {B = Result A × d.State} (λ y. (y.0, y.1.delegate)) e
