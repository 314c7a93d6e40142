-- ===== src/Dao/Cached/Sound.antt =====
-- About a cache of common/bitwrk/dao.go whose unmarked accounts are those of the storage.
use mathlib.Core.Path.{subst}
use bitwrk.Base.{
  ◌≡◌, refl, sym, ap, ◌∙◌, Bool, true, false, ◌||◌, Bool-cases, Option-cases, some, [], ◌∷◌, Str,
  str_eq, str_eq_iff, Dict, lookup, insert, lookup-insert, if◌then◌else◌, inl, inr, Result, ok, err,
  panic, no_such_object,
}
use bitwrk.Dao.{ParticipantAccount, AccountMovement, Deposit, Dao, Accounts}
use bitwrk.Account.Total.{contains}
use bitwrk.Dao.Cached.{
  Cache, fresh_account, keys, receive_account, receive_deposit, get_account, save_account,
  save_movement, get_deposit, save_deposit, cached_dao,
}
use bitwrk.Dao.Cached.Reads.{
  Storage, Named, seen, seen-participant, get_account-Read, save_account-Read, save_account-ok,
  panic≢ok, err≢ok,
}
use bitwrk.Dao.Cached.Marks.{Marked, get_account-Marked, save_account-Marked}

or_false : (a b : Bool) → (a || b) ≡ false → (a ≡ false) × (b ≡ false)
or_false true b h = absurd (cc)
or_false false b h = (refl, h)

neither : (a b : Bool) → a ≡ false → b ≡ false → (a || b) ≡ false
neither a b e f = rw (e, f)

-- A name that is not marked after another one has been was not marked before, and is not that one.
unmarked :
    (q p : Str) (b : Bool) (marks : Dict Bool)
    → contains q (keys (insert p b marks)) ≡ false
    → (str_eq p q ≡ false) × (contains q (keys marks) ≡ false)
unfolding insert
unmarked q p b [] h = ((or_false (str_eq p q) false h).0, refl)
unmarked q p b ((j, w) ∷ marks) h = elim (Bool-cases (str_eq p j)) [
  | inl y ↦
      let same : p ≡ j = (str_eq_iff p j).0 y in
      let (first, rest) = or_false (str_eq p q) (contains q (keys marks)) (rw y at h) in
      (first, neither _ _ (rw (← same) first) rest)
  | inr n ↦
      let (first, rest) =
        or_false (str_eq j q) (contains q (keys (insert p b marks))) (rw n at h) in
      let (other, old) = unmarked q p b marks rest in (other, neither _ _ first old)
]

-- What is known of a storage's state, and kept by every call of the cache.
pub record Steady (d : Dao) (Known : d.State → Type 0) : Type 0 where
  pub reads_account : (p : Str) (s : d.State) → Known s → Known (d.get_account p s).1
  pub reads_deposit : (u : Str) (s : d.State) → Known s → Known (d.get_deposit u s).1
  pub makes_key : (p : Str) (s : d.State) → Known s → Known (d.new_account_movement_key p s).1
  pub saves_account :
      (a : ParticipantAccount) (s : d.State) → Known s → Known (d.save_account a s).1
  pub saves_deposit :
      (u : Str) (x : Deposit) (s : d.State) → Known s → Known (d.save_deposit u x s).1
  pub saves_movement : (m : AccountMovement) (s : d.State) → Known s → Known (d.save_movement m s).1

module _ (d : Dao) (st : Storage d) (Known : d.State → Type 0) (steady : Steady d Known) where
  -- An account that is held and not marked is the storage's.
  abbrev pub Clean : Cache d → Type 0
  Clean c =
      (q : Str) (a : ParticipantAccount)
      → contains q (keys c.saved_accounts) ≡ false
      → lookup q c.accounts ≡ some a
      → st.find c.delegate q ≡ some a

  pub record Sound (c : Cache d) : Type 0 where
    pub named : Named d st c
    pub marked : Marked d c
    pub clean : Clean c
    pub known : Known c.delegate

  -- To hold one more account, which is marked or the storage's.
  Clean-insert :
      (c t : Cache d) (p : Str) (x : ParticipantAccount)
      → t.accounts ≡ insert p x c.accounts
      → ((q : Str)
          → contains q (keys t.saved_accounts) ≡ false
          → contains q (keys c.saved_accounts) ≡ false)
      → ((q : Str) → st.find t.delegate q ≡ st.find c.delegate q)
      → (contains p (keys t.saved_accounts) ≡ false → st.find c.delegate p ≡ some x)
      → Clean c
      → Clean t
  Clean-insert c t p x held fewer same here clean q a out e =
      let e' : (if str_eq q p then some x else lookup q c.accounts) ≡ some a =
        sym (lookup-insert q p x c.accounts) ∙ ap (lookup q) (sym held) ∙ e in
      elim (Bool-cases (str_eq q p)) [
        | inl y ↦
            let is_p : q ≡ p = (str_eq_iff q p).0 y in
            same q
            ∙ ap (st.find c.delegate) is_p
            ∙ here (ap (λ z. contains z (keys t.saved_accounts)) (sym is_p) ∙ out)
            ∙ (rw y at e')
        | inr n ↦ same q ∙ clean q a (fewer q out) (rw n at e')
      ]

  -- A call that changes no account, neither in the cache nor in the storage.
  pub Sound-same :
      (c t : Cache d)
      → t.accounts ≡ c.accounts
      → t.saved_accounts ≡ c.saved_accounts
      → ((q : Str) → st.find t.delegate q ≡ st.find c.delegate q)
      → Known t.delegate
      → Sound c
      → Sound t × ((q : Str) → seen d st t q ≡ seen d st c q)
  Sound-same c t held marks same known h = (
    record {
      named = λ p a e. h.named p a (rw held at e);
      marked = rw (held, marks) h.marked;
      clean = λ q a out e. same q ∙ h.clean q a (rw marks at out) (rw held at e);
      known = known;
    },
    λ q. rw (held, same q),
  )

  receive-Clean :
      (c : Cache d) (p : Str) (r : Result ParticipantAccount) (s : d.State) {a : ParticipantAccount}
      {t : Cache d}
      → Sound c
      → d.get_account p c.delegate ≡ (r, s)
      → receive_account d p r (record c { delegate = s }) ≡ (ok a, t)
      → Clean t × (t.delegate ≡ s)
  unfolding receive_account
  receive-Clean c p (ok x) s {a} {t} h e k =
      let is_s : t.delegate ≡ s = ap (λ y. y.1.delegate) (sym k) in
      let same : (q : Str) → st.find t.delegate q ≡ st.find c.delegate q = (λ q.
        ap (λ y. st.find y q) (is_s ∙ ap (λ y. y.1) (sym e)) ∙ st.reads_account p q c.delegate) in
      let marks : t.saved_accounts ≡ c.saved_accounts = ap (λ y. y.1.saved_accounts) (sym k) in
      (
        Clean-insert c t p x (ap (λ y. y.1.accounts) (sym k)) (λ q out. rw marks at out) same
            (λ out. st.found p c.delegate s x e) h.clean,
        is_s,
      )
  receive-Clean c p (err no_such_object) s {a} {t} h e k =
      let is_s : t.delegate ≡ s = ap (λ y. y.1.delegate) (sym k) in
      let same : (q : Str) → st.find t.delegate q ≡ st.find c.delegate q = (λ q.
        ap (λ y. st.find y q) (is_s ∙ ap (λ y. y.1) (sym e)) ∙ st.reads_account p q c.delegate) in
      let marks : t.saved_accounts ≡ insert p true c.saved_accounts =
        ap (λ y. y.1.saved_accounts) (sym k) in
      (
        Clean-insert c t p (fresh_account p) (ap (λ y. y.1.accounts) (sym k))
            (λ q out. (unmarked q p true c.saved_accounts (rw marks at out)).1) same
            (λ out.
              let differs = (unmarked p p true c.saved_accounts (rw marks at out)).0 in
              let equals = (str_eq_iff p p).1 refl in absurd (cc))
            h.clean,
        is_s,
      )
  receive-Clean c p (err _) s h e k = absurd (cc)
  receive-Clean c p panic s h e k = absurd (cc)

  pub get_account-Sound :
      (p : Str) (c t : Cache d) (a : ParticipantAccount)
      → Sound c
      → get_account d p c ≡ (ok a, t)
      → Sound t
  unfolding get_account
  get_account-Sound p c t a h e = elim (Option-cases (lookup p c.accounts)) [
    | inr (x, hit) ↦ subst Sound (ap (λ y. y.1) (rw (hit, get_account) at e)) h
    | inl miss ↦
        let (clean, is_s) =
          receive-Clean c p (d.get_account p c.delegate).0 (d.get_account p c.delegate).1 h refl
            (rw (miss, get_account) at e) in
        record {
          named = (get_account-Read d st p c t a h.named e).1;
          marked = subst (Marked d) (ap (λ y. y.1) e) (get_account-Marked d p c h.marked);
          clean = clean;
          known = subst Known (sym is_s) (steady.reads_account p c.delegate h.known);
        }
  ]

  save_account-marks :
      (a : ParticipantAccount) (c t : Cache d)
      → save_account d a c ≡ (ok tt, t)
      → t.saved_accounts ≡ insert a.participant true c.saved_accounts
  unfolding save_account
  save_account-marks a c t h = elim (Bool-cases (str_eq a.participant [])) [
    | inl e ↦ absurd (panic≢ok (ap (λ y. y.0) (rw (e, save_account) at h)))
    | inr e ↦ ap (λ y. y.1.saved_accounts) (sym (rw (e, save_account) at h))
  ]

  pub save_account-Sound :
      (a : ParticipantAccount) (c t : Cache d) → Sound c → save_account d a c ≡ (ok tt, t) → Sound t
  save_account-Sound a c t h e =
      let (held, same) = save_account-ok d st a c t e in
      let marks = save_account-marks a c t e in
      record {
        named = (save_account-Read d st a c t h.named e).0;
        marked = subst (Marked d) (ap (λ y. y.1) e) (save_account-Marked d a c h.marked);
        clean =
            Clean-insert c t a.participant a held
              (λ q out. (unmarked q a.participant true c.saved_accounts (rw marks at out)).1)
              (λ q. ap (λ y. st.find y q) same)
              (λ out.
                let differs =
                  (unmarked a.participant a.participant true c.saved_accounts
                    (rw marks at out)).0 in
                let equals = (str_eq_iff a.participant a.participant).1 refl in absurd (cc))
              h.clean;
        known = subst Known (sym same) h.known;
      }

  pub save_movement-kept :
      (m : AccountMovement) (c t : Cache d)
      → save_movement d m c ≡ (ok tt, t)
      → (t.accounts ≡ c.accounts)
        × (t.saved_accounts ≡ c.saved_accounts)
        × (t.delegate ≡ c.delegate)
  unfolding save_movement
  save_movement-kept m c t h = elim (Option-cases m.key) [
    | inl e ↦ absurd (err≢ok (ap (λ y. y.0) (rw (e, save_movement) at h)))
    | inr (k, e) ↦
        let same = ap (λ y. y.1) (rw (e, save_movement) at h) in
        (
          ap (λ y. y.accounts) (sym same),
          ap (λ y. y.saved_accounts) (sym same),
          ap (λ y. y.delegate) (sym same),
        )
  ]

  receive_deposit-Sound :
      (u : Str) (r : Result Deposit) (c : Cache d)
      → Sound c
      → Sound (receive_deposit d u r c).1
        × ((q : Str) → seen d st (receive_deposit d u r c).1 q ≡ seen d st c q)
  unfolding receive_deposit
  receive_deposit-Sound u (ok x) c h =
      Sound-same c (record c { deposits = insert u x c.deposits }) refl refl (λ q. refl) h.known h
  receive_deposit-Sound u (err e) c h = (h, λ q. refl)
  receive_deposit-Sound u panic c h = (h, λ q. refl)

  pub get_deposit-Sound :
      (u : Str) (c t : Cache d) (r : Result Deposit)
      → Sound c
      → get_deposit d u c ≡ (r, t)
      → Sound t × ((q : Str) → seen d st t q ≡ seen d st c q)
  unfolding get_deposit
  get_deposit-Sound u c t r h e = elim (Option-cases (lookup u c.deposits)) [
    | inr (x, hit) ↦
        let same : c ≡ t = ap (λ y. y.1) (rw (hit, get_deposit) at e) in rw (← same) (h, λ q. refl)
    | inl miss ↦
        let read : Cache d = record c { delegate = (d.get_deposit u c.delegate).1 } in
        let (h₁, look₁) =
          Sound-same c read refl refl (λ q. st.reads_deposit u q c.delegate)
            (steady.reads_deposit u c.delegate h.known) h in
        let (h₂, look₂) = receive_deposit-Sound u (d.get_deposit u c.delegate).0 read h₁ in
        let same = ap (λ y. y.1) (rw (miss, get_deposit) at e) in
        rw (← same) (h₂, λ q. look₂ q ∙ look₁ q)
  ]

  -- Such a cache is a set of accounts to its clients, and stays so.
  unfoldable pub sound_accounts : Accounts (cached_dao d)
  unfolding save_movement get_deposit save_deposit receive_deposit
  sound_accounts = record {
    IsConsistent = Sound;
    view = seen d st;
    view-participant = λ c p h. seen-participant d st c p h.named;
    get_account_lem = λ p c t a h e.
        let (found, _, look) = get_account-Read d st p c t a h.named e in
        (found, get_account-Sound p c t a h e, look);
    save_account_lem =
        λ a c t h e. (save_account-Sound a c t h e, (save_account-Read d st a c t h.named e).1);
    save_movement_lem = λ m c t h e.
        let (held, marks, same) = save_movement-kept m c t e in
        Sound-same c t held marks (λ q. ap (λ y. st.find y q) same) (subst Known (sym same) h.known)
          h;
    new_key_lem = λ p k c t h e.
        Sound-same c t (ap (λ y. y.1.accounts) (sym e)) (ap (λ y. y.1.saved_accounts) (sym e))
          (λ q. ap (λ y. st.find y.1.delegate q) (sym e) ∙ st.makes_key p q c.delegate)
          (subst (λ y. Known y.1.delegate) e (steady.makes_key p c.delegate h.known)) h;
    get_deposit_lem = λ u c t r h e. get_deposit-Sound u c t r h e;
    save_deposit_lem = λ u x c t h e.
        Sound-same c t (ap (λ y. y.1.accounts) (sym e)) (ap (λ y. y.1.saved_accounts) (sym e))
          (λ q. ap (λ y. st.find y.1.delegate q) (sym e))
          (subst (λ y. Known y.1.delegate) e h.known) h;
  }
