-- ===== src/Gae/Server/Books.antt =====
-- About the operations of server/gae, each of which works in a new cache and flushes it.
use mathlib.Core.Path.{subst}
use bitwrk.Base.{
  ◌≡◌, refl, sym, ap, ◌∙◌, Bool, true, false, List, [], Str, lookup, if◌then◌else◌, Result, ok,
  Action, bind, lift, bind-eq_ok, return-eq_ok,
}
use bitwrk.Int.{ℤ}
use bitwrk.Money.{Currency}
use bitwrk.Dao.{Dao}
use bitwrk.Dao.Cached.{Cache, new_cache, below, cached_dao, flush}
use bitwrk.Dao.Cached.Reads.{Storage}
use bitwrk.Dao.Cached.Sound.{Steady, Sound, sound_accounts}
use bitwrk.Dao.Cached.Settled.{stored, flush-settles}
use bitwrk.Account.Apply.{IsValid, worth}
use bitwrk.Account.Total.{Distinct, total-ext}
use bitwrk.Account.Conserve.{AllValid, holdings}
use bitwrk.Gae.Server.{Registry, with_books}
use bitwrk.Gae.Server.Keeping.{Preserves, Harmless-Preserves}
use bitwrk.Gae.Server.Known.{
  Leaves, books, AllStoredValid, stored_holdings, below-Harmless, new_cache-empty, new_cache-Sound,
  new_cache-view,
}

module _ (d : Dao) (st : Storage d) (Known : d.State → Type 0) (steady : Steady d Known)
    (c : Currency) (ps : List Str) where
  -- The storage is known, its accounts are valid, and the participants hold this much.
  abbrev pub Holds : d.State → ℤ → Type 0
  Holds s n =
      Known s × AllStoredValid d st Known steady s × (stored_holdings d st Known steady c s ps ≡ n)

  -- Calls of the storage that keep what the participants hold.
  abbrev pub Keeps : {A : Type 0} → Action d.State A → Type 0
  Keeps {A} call =
      (s t : d.State) (a : A)
      → Known s
      → AllStoredValid d st Known steady s
      → call s ≡ (ok a, t)
      → Holds t (stored_holdings d st Known steady c s ps)

  pub Leaves-Keeps : {A : Type 0} (call : Action d.State A) → Leaves d st Known call → Keeps call
  Leaves-Keeps call h s t a known valid e =
      let (known', same) = h s t a known e in
      (
        known',
        λ q. rw (same q) (valid q),
        total-ext (λ q. worth c (stored d st Known steady t q))
            (λ q. worth c (stored d st Known steady s q)) ps (λ q. rw (same q)),
      )

  pub lift-Keeps : {A : Type 0} (x : Result A) → Keeps (lift x)
  lift-Keeps x s t a known valid e =
      subst (λ u. Holds u (stored_holdings d st Known steady c s ps)) (ap (λ y. y.1) e)
        (known, valid, refl)

  pub bind-Keeps :
      {A B : Type 0} (call : Action d.State A) (rest : A → Action d.State B)
      → Keeps call
      → ((a : A) (s t : d.State) → Known s → call s ≡ (ok a, t) → Keeps (rest a))
      → Keeps (bind call rest)
  bind-Keeps call rest p q s t b known valid e =
      let (a, s1, e1, k) = bind-eq_ok call rest s e in
      let (known1, valid1, same) = p s s1 a known valid e1 in
      let (known2, valid2, same') = q a s s1 known e1 s1 t b known1 valid1 k in
      (known2, valid2, same' ∙ same)

  pub if-Keeps :
      {A : Type 0} (y : Bool) (f g : Action d.State A)
      → Keeps f
      → Keeps g
      → Keeps (if y then f else g)
  if-Keeps true f g p q = p
  if-Keeps false f g p q = q

  -- Calls in a cache after which the storage has what was seen through the cache before.
  abbrev pub Ends : {A : Type 0} → Action (Cache d) A → Type 0
  Ends {A} call =
      (s t : Cache d) (a : A)
      → Sound d st Known steady s
      → AllValid (cached_dao d) (books d st Known steady) s
      → call s ≡ (ok a, t)
      → Holds t.delegate (holdings (cached_dao d) (books d st Known steady) c s ps)

  -- The same of calls in a cache that holds nothing yet.
  abbrev pub Begins : {A : Type 0} → Action (Cache d) A → Type 0
  Begins {A} call =
      (s t : Cache d) (a : A)
      → s.accounts ≡ []
      → Sound d st Known steady s
      → AllValid (cached_dao d) (books d st Known steady) s
      → call s ≡ (ok a, t)
      → Holds t.delegate (holdings (cached_dao d) (books d st Known steady) c s ps)

  pub flush-Ends : Ends (flush d)
  unfolding sound_accounts
  flush-Ends s t a sound valid e =
      let (known, same) = flush-settles d st Known steady s t sound e in
      (
        known,
        λ q. rw (same q) (valid q),
        total-ext (λ q. worth c (stored d st Known steady t.delegate q)) _ ps (λ q. rw (same q)),
      )

  pub flush-return-Ends : {A : Type 0} (x : A) → Ends (bind (flush d) (λ _. lift (ok x)))
  flush-return-Ends x s t a sound valid e =
      let (e1, _) = return-eq_ok (flush d) x s e in flush-Ends s t tt sound valid e1

  pub bind-Ends :
      (distinct : Distinct ps) {A B : Type 0} (call : Action (Cache d) A)
      (rest : A → Action (Cache d) B)
      → Preserves (cached_dao d) (books d st Known steady) c ps distinct call
      → ((a : A) (s t : Cache d)
          → Sound d st Known steady s
          → AllValid (cached_dao d) (books d st Known steady) s
          → call s ≡ (ok a, t)
          → Ends (rest a))
      → Ends (bind call rest)
  unfolding sound_accounts
  bind-Ends distinct call rest p q s t b sound valid e =
      let (a, s1, e1, k) = bind-eq_ok call rest s e in
      let (sound1, valid1, same) = p s s1 a sound valid e1 in
      let (known, valid2, same') = q a s s1 sound valid e1 s1 t b sound1 valid1 k in
      (known, valid2, same' ∙ same)

  pub below-Preserves :
      (distinct : Distinct ps) {A : Type 0} (call : Action d.State A)
      → Leaves d st Known call
      → Preserves (cached_dao d) (books d st Known steady) c ps distinct (below d call)
  below-Preserves distinct call h =
      Harmless-Preserves (cached_dao d) (books d st Known steady) c ps distinct (below d call)
        (below-Harmless d st Known steady call h)

  -- A cache that holds nothing shows the storage's accounts.
  pub empty_view :
      (s : Cache d)
      → s.accounts ≡ []
      → (q : Str) → stored d st Known steady s.delegate q ≡ (books d st Known steady).view s q
  unfolding sound_accounts lookup
  empty_view s empty q = rw empty refl

  pub lift-Begins : {A : Type 0} (x : Result A) → Begins (lift x)
  unfolding sound_accounts
  lift-Begins x s t a empty sound valid e =
      let look = empty_view s empty in
      subst
        (λ (u : Cache d).
          Holds u.delegate (holdings (cached_dao d) (books d st Known steady) c s ps))
        (ap (λ y. y.1) e)
        (
          sound.known,
          λ q. subst IsValid (sym (look q)) (valid q),
          total-ext (λ q. worth c (stored d st Known steady s.delegate q)) _ ps
              (λ q. ap (worth c) (look q)),
        )

  pub if-Begins :
      {A : Type 0} (y : Bool) (f g : Action (Cache d) A)
      → Begins f
      → Begins g
      → Begins (if y then f else g)
  if-Begins true f g p q = p
  if-Begins false f g p q = q

  pub Ends-Begins : {A : Type 0} (call : Action (Cache d) A) → Ends call → Begins call
  Ends-Begins call h s t a empty = h s t a

  pub read-Begins :
      {A B : Type 0} (call : Action d.State A) (rest : A → Action (Cache d) B)
      → Leaves d st Known call
      → ((a : A) (s t : d.State) → Known s → call s ≡ (ok a, t) → Begins (rest a))
      → Begins (bind (below d call) rest)
  unfolding sound_accounts
  read-Begins {A} call rest h q s t b empty sound valid e =
      let (a, s1, e1, k) = bind-eq_ok (below d call) rest s e in
      let inner : call s.delegate ≡ (ok a, s1.delegate) =
        ap {B = Result A × d.State} (λ y. (y.0, y.1.delegate)) e1 in
      let (sound1, look) = below-Harmless d st Known steady call h s s1 a sound e1 in
      let (known, valid2, same) =
        q a s.delegate s1.delegate sound.known inner s1 t b
          (ap (λ y. y.1.accounts) (sym e1) ∙ empty) sound1 (λ p. rw (look p) (valid p)) k in
      (
        known,
        valid2,
        same
            ∙ total-ext (λ p. worth c ((books d st Known steady).view s1 p)) _ ps
                (λ p. rw (look p)),
      )

  pub with_books-Keeps :
      (r : Registry d) {A : Type 0} (call : Action (Cache d) A)
      → Begins call
      → Keeps (with_books d r call)
  with_books-Keeps r call h s t a known valid e =
      let opened = new_cache d s true in
      let end = call opened in
      let look = new_cache-view d st Known steady s in
      subst (λ u. Holds u (stored_holdings d st Known steady c s ps)) (ap (λ y. y.1) e)
        (let (known', valid', same) =
            h opened end.1 a (new_cache-empty d st Known steady s)
              (new_cache-Sound d st Known steady s known)
              (λ q. subst IsValid (sym (look q)) (valid q))
              (ap (λ y. (y, end.1)) (ap (λ y. y.0) e)) in
          (
            known',
            valid',
            same
                ∙ total-ext (λ q. worth c ((books d st Known steady).view opened q)) _ ps
                    (λ q. ap (worth c) (look q)),
          ))
