-- ===== src/Gae/Server/Retirement.antt =====
-- About the money that participants hold when a stored transaction is retired.
use mathlib.Core.Path.{subst}
use bitwrk.Base.{ℕ, ◌≡◌, ◌≤◌, sym, ap, ◌∙◌, true, List, Str, ok, bind, bind-eq_ok}
use bitwrk.Int.{◌+ℤ◌}
use bitwrk.Money.{Currency}
use bitwrk.Dao.{Dao}
use bitwrk.Dao.Cached.{Cache, new_cache, below, cached_dao, flush}
use bitwrk.Dao.Cached.Reads.{Storage}
use bitwrk.Dao.Cached.Sound.{Steady, Sound, sound_accounts}
use bitwrk.Account.Apply.{IsValid, worth}
use bitwrk.Account.Total.{Distinct, total-ext}
use bitwrk.Account.Conserve.{AllValid, holdings}
use bitwrk.Transaction
use bitwrk.Transaction.{Transaction, active, retired}
use bitwrk.Transaction.Accounting.Conserve.{fee_due, tx_retire_conserves}
use bitwrk.Gae.Server.{
  Registry, store_settled, retire_loaded_transaction, retire_stored_transaction,
}
use bitwrk.Gae.Server.Known.{
  KnownTrade, Faithful, books, AllStoredValid, stored_holdings, new_cache-Sound, new_cache-view,
  new_cache-read,
}
use bitwrk.Gae.Server.Books.{below-Preserves, bind-Ends, flush-Ends}

module _ (d : Dao) (st : Storage d) (Known : d.State → Type 0) (steady : Steady d Known)
    (c : Currency) (ps : List Str) where
  -- A transaction that has been loaded is retired, stored and flushed.
  settled :
      (r : Registry d) (f : Faithful d st Known r ps) (distinct : Distinct ps) (key : Str) (now : ℕ)
      (tx : Transaction) (s t : Cache d)
      → KnownTrade ps tx
      → Sound d st Known steady s
      → AllValid (cached_dao d) (books d st Known steady) s
      → retire_loaded_transaction d r key now tx s ≡ (ok tt, t)
      → (tx.state ≡ active)
        × (tx.timeout ≤ now)
        × Known t.delegate
        × AllStoredValid d st Known steady t.delegate
        × (stored_holdings d st Known steady c t.delegate ps +ℤ fee_due c tx
            ≡ holdings (cached_dao d) (books d st Known steady) c s ps)
  unfolding sound_accounts
  settled r f distinct key now tx s t (seller, buyer, ints) sound valid h =
      let (tx', s2, e2, k2) =
        bind-eq_ok (Transaction.Accounting.retire (cached_dao d) tx key now) (store_settled d r key)
          s h in
      let ((was_active, timed_out, is_tx'), sound2, valid2, paid) =
        tx_retire_conserves (cached_dao d) (books d st Known steady) tx tx' key now s s2 sound valid
          ints e2 in
      let (known, valid3, same) =
        bind-Ends d st Known steady c ps distinct (below d (r.store_transaction key tx'))
          (λ _. flush d)
          (below-Preserves d st Known steady c ps distinct (r.store_transaction key tx') (
            f.store_transaction-Leaves key tx'
              (subst (KnownTrade ps) (sym is_tx') (seller, buyer, ints))))
          (λ _ _ _ _ _ _. flush-Ends d st Known steady c ps) s2 t tt sound2 valid2 k2 in
      (
        was_active,
        timed_out,
        known,
        valid3,
        ap (λ x. x +ℤ fee_due c tx) same ∙ paid c ps distinct seller buyer,
      )

  -- Suppose that bids, transactions and tasks are kept apart from the accounts, and that the storage
  -- holds bids and transactions of these participants in int64 amounts as long as only such are put
  -- into it. If a stored transaction is retired, with a cache of its own that is flushed, then the
  -- one that was loaded was active and had timed out; the storage still holds only such bids and
  -- transactions, and its accounts are valid if they were; and by them, what the participants hold
  -- in a currency has fallen by the fee if the transaction retires in FINISHED or UNVERIFIED, and is
  -- what it was in each other phase.
  pub stored_retirement_conserves :
      (r : Registry d) (key : Str) (now : ℕ) (s t : d.State)
      → Distinct ps
      → Faithful d st Known r ps
      → Known s
      → AllStoredValid d st Known steady s
      → retire_stored_transaction d r key now s ≡ (ok tt, t)
      → (tx : Transaction) × (s1 : d.State) × (r.read_transaction key s ≡ (ok tx, s1))
        × (tx.state ≡ active)
        × (tx.timeout ≤ now)
        × Known t
        × AllStoredValid d st Known steady t
        × (stored_holdings d st Known steady c t ps +ℤ fee_due c tx
            ≡ stored_holdings d st Known steady c s ps)
  unfolding retire_stored_transaction sound_accounts
  stored_retirement_conserves r key now s t distinct f known valid h =
      let call = bind (below d (r.read_transaction key)) (retire_loaded_transaction d r key now) in
      let opened = new_cache d s true in
      let end = call opened in
      let same : end.1.delegate ≡ t = ap (λ y. y.1) h in
      let ran : call opened ≡ (ok tt, end.1) = ap (λ y. (y, end.1)) (ap (λ y. y.0) h) in
      let (tx, s1, e1, k1) =
        bind-eq_ok (below d (r.read_transaction key)) (retire_loaded_transaction d r key now) opened
          ran in
      let read : r.read_transaction key s ≡ (ok tx, s1.delegate) =
        new_cache-read d st Known steady s (r.read_transaction key) s1 tx e1 in
      let sound = new_cache-Sound d st Known steady s known in
      let look = new_cache-view d st Known steady s in
      let (sound1, valid1, same1) =
        below-Preserves d st Known steady c ps distinct (r.read_transaction key)
          (f.read_transaction-Leaves key) opened s1 tx sound
          (λ q. subst IsValid (sym (look q)) (valid q)) e1 in
      let (was_active, timed_out, known', valid', paid) =
        settled r f distinct key now tx s1 end.1
          (f.read_transaction-Known key s s1.delegate tx known read) sound1 valid1 k1 in
      let before =
        total-ext (λ q. worth c ((books d st Known steady).view opened q)) _ ps
          (λ q. ap (worth c) (look q)) in
      (
        tx,
        s1.delegate,
        read,
        was_active,
        timed_out,
        subst Known same known',
        subst (AllStoredValid d st Known steady) same valid',
        subst
            (λ u.
              stored_holdings d st Known steady c u ps +ℤ fee_due c tx
              ≡ stored_holdings d st Known steady c s ps)
            same (paid ∙ same1 ∙ before),
      )
