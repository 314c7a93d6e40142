-- ===== src/Dao/Cached/Reads.antt =====
-- About the reads of the cache of common/bitwrk/dao.go.
use bitwrk.Base.{
  ◌≡◌, refl, sym, ap, ◌∙◌, Bool-cases, Option, Option-cases, none, some, [], Str, str_eq,
  str_eq_iff, lookup, insert, lookup-insert, if◌then◌else◌, inl, inr, Error, Result, ok,
  ok-injective, err, panic, no_such_object,
}
use bitwrk.Dao.{ParticipantAccount, AccountMovement, Deposit, Dao, Accounts}
use bitwrk.Dao.Cached.{
  Cache, fresh_account, value_or, receive_account, get_account, save_account, save_movement,
  get_deposit, save_deposit, receive_deposit, cached_dao,
}

-- What the cache relies on: the storage finds an account or says that there is none, a read changes
-- nothing that is stored, and a write changes one account. A read after a write of the same database
-- transaction, which the datastore does not show, does not occur: only `Flush` writes, at the end.
pub record Storage (d : Dao) : Type 1 where
  pub find : d.State → Str → Option ParticipantAccount
  pub find-participant :
      (s : d.State) (p : Str) (a : ParticipantAccount) → find s p ≡ some a → a.participant ≡ p
  pub found :
      (p : Str) (s t : d.State) (a : ParticipantAccount)
      → d.get_account p s ≡ (ok a, t)
      → find s p ≡ some a
  pub missing :
      (p : Str) (s t : d.State) → d.get_account p s ≡ (err no_such_object, t) → find s p ≡ none
  pub reads_account : (p q : Str) (s : d.State) → find (d.get_account p s).1 q ≡ find s q
  pub reads_deposit : (u q : Str) (s : d.State) → find (d.get_deposit u s).1 q ≡ find s q
  pub makes_key : (p q : Str) (s : d.State) → find (d.new_account_movement_key p s).1 q ≡ find s q
  pub saves_account :
      (a : ParticipantAccount) (q : Str) (s t : d.State)
      → d.save_account a s ≡ (ok tt, t)
      → find t q ≡ (if str_eq q a.participant then some a else find s q)
  pub saves_deposit :
      (u q : Str) (x : Deposit) (s : d.State) → find (d.save_deposit u x s).1 q ≡ find s q
  pub saves_movement :
      (m : AccountMovement) (q : Str) (s : d.State) → find (d.save_movement m s).1 q ≡ find s q

pub panic≢ok : {A : Type 0} {a : A} → ◌≡◌ {A = Result A} panic (ok a) → ⊥
panic≢ok h = cc

pub err≢ok : {A : Type 0} {a : A} {e : Error} → ◌≡◌ {A = Result A} (err e) (ok a) → ⊥
err≢ok h = cc

receive_deposit-Same :
    {d : Dao} (u : Str) (r : Result Deposit) (c : Cache d)
    → ((receive_deposit d u r c).1.accounts ≡ c.accounts)
      × ((receive_deposit d u r c).1.delegate ≡ c.delegate)
unfolding receive_deposit
receive_deposit-Same u (ok x) c = (refl, refl)
receive_deposit-Same u (err e) c = (refl, refl)
receive_deposit-Same u panic c = (refl, refl)

module _ (d : Dao) (st : Storage d) where
  -- The account that a read through the cache sees.
  abbrev pub seen : Cache d → Str → ParticipantAccount
  seen c p = value_or (lookup p c.accounts) (value_or (st.find c.delegate p) (fresh_account p))

  -- Every cached account stands under its own name.
  abbrev pub Named : Cache d → Type 0
  Named c = (p : Str) (a : ParticipantAccount) → lookup p c.accounts ≡ some a → a.participant ≡ p

  pub seen-participant : (c : Cache d) (p : Str) → Named c → (seen c p).participant ≡ p
  seen-participant c p n = elim (Option-cases (lookup p c.accounts)) [
    | inr (a, e) ↦ rw e (n p a e)
    | inl e ↦ elim (Option-cases (st.find c.delegate p)) [
      | inr (a, f) ↦ rw (e, f) (st.find-participant c.delegate p a f)
      | inl f ↦ rw (e, f)
    ]
  ]

  -- To remember under a name the account that is seen under it changes nothing that is seen.
  remember-seen :
      (c c' : Cache d) (p : Str) (x : ParticipantAccount)
      → c'.accounts ≡ insert p x c.accounts
      → ((q : Str) → st.find c'.delegate q ≡ st.find c.delegate q)
      → seen c p ≡ x
      → (q : Str) → seen c' q ≡ seen c q
  remember-seen c c' p x e f g q = elim (Bool-cases (str_eq q p)) [
    | inl y ↦
        let same : q ≡ p = (str_eq_iff q p).0 y in
        rw (e, lookup-insert q p x c.accounts, y) (sym g ∙ ap (seen c) (sym same))
    | inr n ↦ rw (e, lookup-insert q p x c.accounts, n, f q)
  ]

  remember-Named :
      (c c' : Cache d) (p : Str) (x : ParticipantAccount)
      → c'.accounts ≡ insert p x c.accounts
      → x.participant ≡ p
      → Named c
      → Named c'
  remember-Named c c' p x e own n q a h =
      let h' : (if str_eq q p then some x else lookup q c.accounts) ≡ some a =
        sym (lookup-insert q p x c.accounts) ∙ (rw e at h) in
      elim (Bool-cases (str_eq q p)) [
        | inl y ↦
            let same : q ≡ p = (str_eq_iff q p).0 y in
            let is_x : some x ≡ some a = rw y at h' in let x_a : x ≡ a = cc in rw (← x_a, same) own
        | inr m ↦ n q a (rw m at h')
      ]

  -- What a read through the cache leaves.
  abbrev Read : Cache d → Str → ParticipantAccount → Cache d → Type 0
  Read c p a t = (a ≡ seen c p) × Named t × ((q : Str) → seen t q ≡ seen c q)

  -- After a read of the storage, the account that is remembered is the one that was seen.
  remembered :
      (c t : Cache d) (p : Str) (x a : ParticipantAccount)
      → Named c
      → x ≡ a
      → seen c p ≡ x
      → x.participant ≡ p
      → t.delegate ≡ (d.get_account p c.delegate).1
      → t.accounts ≡ insert p x c.accounts
      → Read c p a t
  remembered c t p x a n is_x sees own kept e = (
    sym is_x ∙ sym sees,
    remember-Named c t p x e own n,
    remember-seen c t p x e (λ q. ap (λ y. st.find y q) kept ∙ st.reads_account p q c.delegate)
        sees,
  )

  receive-Read :
      (c : Cache d) (p : Str) (r : Result ParticipantAccount) (s : d.State) {a : ParticipantAccount}
      {t : Cache d}
      → Named c
      → lookup p c.accounts ≡ none
      → d.get_account p c.delegate ≡ (r, s)
      → receive_account d p r (record c { delegate = s }) ≡ (ok a, t)
      → Read c p a t
  unfolding receive_account
  receive-Read c p (ok x) s {a} {t} n miss e h =
      let there = st.found p c.delegate s x e in
      let sees : seen c p ≡ x = rw (miss, there) refl in
      remembered c t p x a n (ok-injective (ap (λ y. y.0) h)) sees
        (st.find-participant c.delegate p x there)
        (ap (λ y. y.1.delegate) (sym h) ∙ ap (λ y. y.1) (sym e)) (ap (λ y. y.1.accounts) (sym h))
  receive-Read c p (err no_such_object) s {a} {t} n miss e h =
      let gone = st.missing p c.delegate s e in
      let sees : seen c p ≡ fresh_account p = rw (miss, gone) refl in
      remembered c t p (fresh_account p) a n (ok-injective (ap (λ y. y.0) h)) sees refl
        (ap (λ y. y.1.delegate) (sym h) ∙ ap (λ y. y.1) (sym e)) (ap (λ y. y.1.accounts) (sym h))
  receive-Read c p (err _) s n miss e h = absurd (cc)
  receive-Read c p panic s n miss e h = absurd (cc)

  pub get_account-Read :
      (p : Str) (c t : Cache d) (a : ParticipantAccount)
      → Named c
      → get_account d p c ≡ (ok a, t)
      → Read c p a t
  unfolding get_account
  get_account-Read p c t a n h = elim (Option-cases (lookup p c.accounts)) [
    | inr (x, e) ↦
        let h' = rw (e, get_account) at h in
        let is_x : x ≡ a = ok-injective (ap (λ y. y.0) h') in
        let is_c : c ≡ t = ap (λ y. y.1) h' in rw (← is_c) (rw e (sym is_x), n, λ q. refl)
    | inl e ↦
        receive-Read c p (d.get_account p c.delegate).0 (d.get_account p c.delegate).1 n e refl
          (rw (e, get_account) at h)
  ]

  -- A cache whose accounts and storage see the same accounts as another's.
  pub seen-Same :
      (c t : Cache d)
      → t.accounts ≡ c.accounts
      → ((q : Str) → st.find t.delegate q ≡ st.find c.delegate q)
      → Named c
      → Named t × ((q : Str) → seen t q ≡ seen c q)
  seen-Same c t e f n = (λ p a h. n p a (rw e at h), λ q. rw (e, f q))

  pub save_account-ok :
      (a : ParticipantAccount) (c t : Cache d)
      → save_account d a c ≡ (ok tt, t)
      → (t.accounts ≡ insert a.participant a c.accounts) × (t.delegate ≡ c.delegate)
  unfolding save_account
  save_account-ok a c t h = elim (Bool-cases (str_eq a.participant [])) [
    | inl e ↦ absurd (panic≢ok (ap (λ y. y.0) (rw (e, save_account) at h)))
    | inr e ↦
        let same = ap (λ y. y.1) (rw (e, save_account) at h) in
        (ap (λ y. y.accounts) (sym same), ap (λ y. y.delegate) (sym same))
  ]

  pub save_account-Read :
      (a : ParticipantAccount) (c t : Cache d)
      → Named c
      → save_account d a c ≡ (ok tt, t)
      → Named t × ((q : Str) → seen t q ≡ (if str_eq q a.participant then a else seen c q))
  save_account-Read a c t n h =
      let (e, kept) = save_account-ok a c t h in
      (
        remember-Named c t a.participant a e refl n,
        λ q. elim (Bool-cases (str_eq q a.participant)) [
          | inl y ↦ rw (e, lookup-insert q a.participant a c.accounts, y)
          | inr m ↦ rw (e, lookup-insert q a.participant a c.accounts, m, kept)
        ],
      )

  -- What is saved through the cache is read back, by a read that changes nothing, and every other
  -- participant's account is seen as before.
  pub read_your_writes :
      (a : ParticipantAccount) (c t : Cache d)
      → save_account d a c ≡ (ok tt, t)
      → (get_account d a.participant t ≡ (ok a, t))
        × ((q : Str) → seen t q ≡ (if str_eq q a.participant then a else seen c q))
  unfolding get_account
  read_your_writes a c t h =
      let (e, kept) = save_account-ok a c t h in
      let there : lookup a.participant t.accounts ≡ some a = rw (
        e,
        lookup-insert a.participant a.participant a c.accounts,
        (str_eq_iff a.participant a.participant).1 refl,
      ) in
      (
        rw (there, get_account),
        λ q. elim (Bool-cases (str_eq q a.participant)) [
          | inl y ↦ rw (e, lookup-insert q a.participant a c.accounts, y)
          | inr n ↦ rw (e, lookup-insert q a.participant a c.accounts, n, kept)
        ],
      )

  pub get_deposit-Same :
      (u : Str) (c t : Cache d) (r : Result Deposit)
      → Named c
      → get_deposit d u c ≡ (r, t)
      → Named t × ((q : Str) → seen t q ≡ seen c q)
  unfolding get_deposit
  get_deposit-Same u c t r n h = elim (Option-cases (lookup u c.deposits)) [
    | inr (x, e) ↦
        let same : c ≡ t = ap (λ y. y.1) (rw (e, get_deposit) at h) in rw (← same) (n, λ q. refl)
    | inl e ↦
        let h' = rw (e, get_deposit) at h in
        let (ea, ed) = receive_deposit-Same u (d.get_deposit u c.delegate).0 _ in
        seen-Same c t (ap (λ y. y.1.accounts) (sym h') ∙ ea)
          (λ q.
            ap (λ y. st.find y.1.delegate q) (sym h')
            ∙ ap (λ y. st.find y q) ed
            ∙ st.reads_deposit u q c.delegate)
          n
  ]

  pub save_movement-Same :
      (m : AccountMovement) (c t : Cache d)
      → Named c
      → save_movement d m c ≡ (ok tt, t)
      → Named t × ((q : Str) → seen t q ≡ seen c q)
  unfolding save_movement
  save_movement-Same m c t n h = elim (Option-cases m.key) [
    | inl e ↦ absurd (err≢ok (ap (λ y. y.0) (rw (e, save_movement) at h)))
    | inr (k, e) ↦
        let same = ap (λ y. y.1) (rw (e, save_movement) at h) in
        seen-Same c t (ap (λ y. y.accounts) (sym same))
          (λ q. ap (λ y. st.find y.delegate q) (sym same)) n
  ]

  pub save_deposit-Same :
      (u : Str) (x : Deposit) (c t : Cache d)
      → Named c
      → save_deposit d u x c ≡ (ok tt, t)
      → Named t × ((q : Str) → seen t q ≡ seen c q)
  unfolding save_deposit
  save_deposit-Same u x c t n h =
      seen-Same c t (ap (λ y. y.1.accounts) (sym h)) (λ q. ap (λ y. st.find y.1.delegate q) (sym h))
        n

  -- A cache over a sound storage is a set of accounts to its clients.
  unfoldable pub cached_accounts : Accounts (cached_dao d)
  cached_accounts = record {
    IsConsistent = Named;
    view = seen;
    view-participant = λ c p n. seen-participant c p n;
    get_account_lem = λ p c t a n h. get_account-Read p c t a n h;
    save_account_lem = λ a c t n h. save_account-Read a c t n h;
    save_movement_lem = λ m c t n h. save_movement-Same m c t n h;
    new_key_lem = λ p k c t n h.
        seen-Same c t (ap (λ y. y.1.accounts) (sym h))
          (λ q. ap (λ y. st.find y.1.delegate q) (sym h) ∙ st.makes_key p q c.delegate) n;
    get_deposit_lem = λ u c t r n h. get_deposit-Same u c t r n h;
    save_deposit_lem = λ u x c t n h. save_deposit-Same u x c t n h;
  }
