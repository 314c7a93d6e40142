-- ===== src/Dao/Cached/Settled.antt =====
-- About what `Flush` of common/bitwrk/dao.go leaves in the storage.
use mathlib.Core.Path.{subst}
use bitwrk.Base.{
  ◌≡◌, refl, sym, ap, ◌∙◌, true, Bool-cases, Option-cases, some, List, [], ◌∷◌, Str, str_eq,
  str_eq_iff, Dict, lookup, erase, if◌then◌else◌, inl, inr, ok, err, Action, bind-eq_ok,
  not_transactional,
}
use bitwrk.Dao.{ParticipantAccount, Dao}
use bitwrk.Account.Total.{contains}
use bitwrk.Dao.Cached.{
  Cache, fresh_account, zero_deposit, zero_movement, below, value_or, keys, flush_accounts,
  flush_deposits, flush_movements, flush_last, flush_rest, flush_all, flush,
}
use bitwrk.Dao.Cached.Reads.{Storage, seen, err≢ok}
use bitwrk.Dao.Cached.Flush.{AllCached, flush_lem}
use bitwrk.Dao.Cached.Sound.{Steady, Sound}

-- What is marked is held.
held_if_marked :
    (q : Str) (ks : List Str) (accounts : Dict ParticipantAccount)
    → AllCached ks accounts
    → contains q ks ≡ true
    → (a : ParticipantAccount) × (lookup q accounts ≡ some a)
held_if_marked q [] accounts h e = absurd (cc)
held_if_marked q (k ∷ ks) accounts (held, rest) e = elim (Bool-cases (str_eq k q)) [
  | inl y ↦ let same : k ≡ q = (str_eq_iff k q).0 y in rw (← same) held
  | inr n ↦ held_if_marked q ks accounts rest (rw n at e)
]

module _ (d : Dao) (st : Storage d) (Known : d.State → Type 0) (steady : Steady d Known) where
  -- The account that the storage finds, or the one that is made up for a participant.
  abbrev pub stored : d.State → Str → ParticipantAccount
  stored s p = value_or (st.find s p) (fresh_account p)

  -- A write of the storage.
  written :
      {c c₁ : Cache d} (call : Action d.State (Unit {0}))
      → Known (call c.delegate).1
      → below d call c ≡ (ok tt, c₁)
      → Known c₁.delegate
  written call known e = subst (λ y. Known y.1.delegate) e known

  flush_accounts-Known :
      (ks : List Str) (c t : Cache d)
      → Known c.delegate
      → flush_accounts d ks c ≡ (ok tt, t)
      → Known t.delegate
  unfolding flush_accounts
  flush_accounts-Known [] c t h e = subst (λ y. Known y.1.delegate) e h
  flush_accounts-Known (k ∷ ks) c t h e =
      let call = d.save_account (value_or (lookup k c.accounts) (fresh_account [])) in
      let (u, c₁, e₁, h₁) =
        bind-eq_ok (below d call)
          (λ (_ : Unit {0}) (c' : Cache d).
            flush_accounts d ks (record c' { saved_accounts = erase k c'.saved_accounts }))
          c e in
      flush_accounts-Known ks (record c₁ { saved_accounts = erase k c₁.saved_accounts }) t
        (written call (steady.saves_account _ c.delegate h) e₁) h₁

  flush_deposits-Known :
      (ks : List Str) (c t : Cache d)
      → Known c.delegate
      → flush_deposits d ks c ≡ (ok tt, t)
      → Known t.delegate
  unfolding flush_deposits
  flush_deposits-Known [] c t h e = subst (λ y. Known y.1.delegate) e h
  flush_deposits-Known (k ∷ ks) c t h e =
      let call = d.save_deposit k (value_or (lookup k c.deposits) zero_deposit) in
      let (u, c₁, e₁, h₁) =
        bind-eq_ok (below d call)
          (λ (_ : Unit {0}) (c' : Cache d).
            flush_deposits d ks (record c' { saved_deposits = erase k c'.saved_deposits }))
          c e in
      flush_deposits-Known ks (record c₁ { saved_deposits = erase k c₁.saved_deposits }) t
        (written call (steady.saves_deposit k _ c.delegate h) e₁) h₁

  flush_movements-Known :
      (ks : List Str) (c t : Cache d)
      → Known c.delegate
      → flush_movements d ks c ≡ (ok tt, t)
      → Known t.delegate
  unfolding flush_movements
  flush_movements-Known [] c t h e = subst (λ y. Known y.1.delegate) e h
  flush_movements-Known (k ∷ ks) c t h e =
      let call = d.save_movement (value_or (lookup k c.movements) zero_movement) in
      let (u, c₁, e₁, h₁) =
        bind-eq_ok (below d call)
          (λ (_ : Unit {0}) (c' : Cache d).
            flush_movements d ks (record c' { saved_movements = erase k c'.saved_movements }))
          c e in
      flush_movements-Known ks (record c₁ { saved_movements = erase k c₁.saved_movements }) t
        (written call (steady.saves_movement _ c.delegate h) e₁) h₁

  flush-Known : (c t : Cache d) → Known c.delegate → flush d c ≡ (ok tt, t) → Known t.delegate
  unfolding flush
  flush-Known c t h e = elim (Bool-cases c.transactional) [
    | inr n ↦ absurd (
        err≢ok (
          ap (λ x. x.0)
            (sym (ap (λ b. if b then flush_all d c else (err not_transactional, c)) n) ∙ e)))
    | inl y ↦
        let ran : flush_all d c ≡ (ok tt, t) =
          sym (ap (λ b. if b then flush_all d c else (err not_transactional, c)) y) ∙ e in
        let (u₁, c₁, e₁, h₁) =
          bind-eq_ok (flush_accounts d (keys c.saved_accounts)) (flush_rest d) c ran in
        let (u₂, c₂, e₂, h₂) =
          bind-eq_ok (flush_deposits d (keys c₁.saved_deposits)) (flush_last d) c₁ h₁ in
        flush_movements-Known (keys c₂.saved_movements) c₂ t
          (flush_deposits-Known (keys c₁.saved_deposits) c₁ c₂
            (flush_accounts-Known (keys c.saved_accounts) c c₁ h e₁) e₂)
          h₂
  ]

  -- After `Flush`, the storage has every account as it was seen through the cache.
  pub flush-settles :
      (c t : Cache d)
      → Sound d st Known steady c
      → flush d c ≡ (ok tt, t)
      → Known t.delegate × ((q : Str) → stored t.delegate q ≡ seen d st c q)
  flush-settles c t h e =
      let (finds, _) = flush_lem d st c t h.named h.marked e in
      (
        flush-Known c t h.known e,
        λ q.
            ap (λ o. value_or o (fresh_account q)) (finds q)
            ∙ (elim (Bool-cases (contains q (keys c.saved_accounts))) [
              | inl y ↦
                  let (a, held) = held_if_marked q (keys c.saved_accounts) c.accounts h.marked y in
                  rw (y, held) refl
              | inr n ↦ rw n (elim (Option-cases (lookup q c.accounts)) [
                | inl gone ↦ rw gone refl
                | inr (a, held) ↦ rw (held, h.clean q a n held) refl
              ])
            ]),
      )
