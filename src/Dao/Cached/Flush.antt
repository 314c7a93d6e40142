-- ===== src/Dao/Cached/Flush.antt =====
-- About `Flush` of common/bitwrk/dao.go.
use bitwrk.Base.{
  ◌≡◌, refl, sym, ap, ◌∙◌, Bool, true, false, Bool-cases, none, some, List, [], ◌∷◌, Str, str_eq,
  str_eq_iff, Dict, lookup, erase, lookup-erase, if◌then◌else◌, inl, inr, arith, Result, ok, err,
  not_transactional, bind-eq_ok,
}
use bitwrk.Dao.{ParticipantAccount, Dao}
use bitwrk.Account.Total.{contains}
use bitwrk.Dao.Cached.{
  Cache, fresh_account, zero_deposit, zero_movement, below, value_or, keys, flush_accounts,
  flush_deposits, flush_movements, flush_last, flush_rest, flush_all, flush,
}
use bitwrk.Dao.Cached.Reads.{Storage, Named, err≢ok}

-- The names of a list are cached.
abbrev pub AllCached : List Str → Dict ParticipantAccount → Type 0
AllCached [] accounts = Unit
AllCached (k ∷ ks) accounts =
    ((a : ParticipantAccount) × (lookup k accounts ≡ some a)) × AllCached ks accounts

-- The marks that are left when those of a list are dropped.
abbrev Dropped : List Str → Dict Bool → Dict Bool → Type 0
Dropped ks old new = (q : Str) → lookup q new ≡ (if contains q ks then none else lookup q old)

str_eq_sym : (a b : Str) → str_eq a b ≡ str_eq b a
str_eq_sym a b = ground arith

if_same {ℓ} : {A : Type ℓ} {x : A} (b : Bool) → (if b then x else x) ≡ x
if_same true = refl
if_same false = refl

Dropped-next :
    (k : Str) (ks : List Str) (old new : Dict Bool)
    → Dropped ks (erase k old) new
    → Dropped (k ∷ ks) old new
Dropped-next k ks old new h q = elim (Bool-cases (str_eq k q)) [
  | inl y ↦ rw (h q, lookup-erase q k old, str_eq_sym q k, y) (if_same (contains q ks))
  | inr n ↦ rw (h q, lookup-erase q k old, str_eq_sym q k, n) refl
]

-- All the marks are dropped.
nothing_left :
    (q : Str) (marks : Dict Bool)
    → (if contains q (keys marks) then none else lookup q marks) ≡ none
unfolding lookup
nothing_left q [] = refl
nothing_left q ((k, v) ∷ marks) = elim (Bool-cases (str_eq k q)) [
  | inl y ↦ rw y
  | inr n ↦ rw (str_eq_sym q k, n) (nothing_left q marks)
]

module _ (d : Dao) (st : Storage d) where
  -- What a loop of `Flush` leaves alone.
  record Kept (c t : Cache d) : Type 0 where
    accounts : t.accounts ≡ c.accounts
    transactional : t.transactional ≡ c.transactional

  -- The write of one account, seen together with those that follow.
  write_one :
      (k : Str) (ks : List Str) (q : Str) (x : ParticipantAccount) (c c₁ : Cache d)
      → lookup k c.accounts ≡ some x
      → x.participant ≡ k
      → d.save_account x c.delegate ≡ (ok tt, c₁.delegate)
      → (if contains q ks then lookup q c.accounts else st.find c₁.delegate q)
        ≡ (if contains q (k ∷ ks) then lookup q c.accounts else st.find c.delegate q)
  write_one k ks q x c c₁ e own w =
      let saved = st.saves_account x q c.delegate c₁.delegate w in
      let test : str_eq q x.participant ≡ str_eq k q = ap (str_eq q) own ∙ str_eq_sym q k in
      elim (Bool-cases (str_eq k q)) [
        | inl y ↦
            let same : k ≡ q = (str_eq_iff k q).0 y in
            let here : lookup q c.accounts ≡ some x =
              ap (λ z. lookup z c.accounts) (sym same) ∙ e in
            let there : st.find c₁.delegate q ≡ lookup q c.accounts =
              saved ∙ ap (λ b. if b then some x else st.find c.delegate q) (test ∙ y) ∙ sym here in
            rw (there, y) (if_same (contains q ks))
        | inr n ↦
            let kept : st.find c₁.delegate q ≡ st.find c.delegate q =
              saved ∙ ap (λ b. if b then some x else st.find c.delegate q) (test ∙ n) in
            rw (kept, n) refl
      ]

  flush_accounts-ok :
      (ks : List Str) (c t : Cache d)
      → Named d st c
      → AllCached ks c.accounts
      → flush_accounts d ks c ≡ (ok tt, t)
      → Kept c t
        × ((t.saved_deposits ≡ c.saved_deposits) × (t.saved_movements ≡ c.saved_movements))
        × Dropped ks c.saved_accounts t.saved_accounts
        × ((q : Str)
            → st.find t.delegate q
              ≡ (if contains q ks then lookup q c.accounts else st.find c.delegate q))
  unfolding flush_accounts
  flush_accounts-ok [] c t n a h =
      let same : c ≡ t = ap (λ y. y.1) h in
      rw (← same)
        (record { accounts = refl; transactional = refl }, (refl, refl), λ q. refl, λ q. refl)
  flush_accounts-ok (k ∷ ks) c t n ((x, e), a) h =
      let (u, c₁, e₁, h₁) =
        bind-eq_ok (below d (d.save_account (value_or (lookup k c.accounts) (fresh_account []))))
          (λ (_ : Unit {0}) (c' : Cache d).
            flush_accounts d ks (record c' { saved_accounts = erase k c'.saved_accounts }))
          c h in
      let acc₁ : c₁.accounts ≡ c.accounts = ap (λ y. y.1.accounts) (sym e₁) in
      let marks₁ : c₁.saved_accounts ≡ c.saved_accounts = ap (λ y. y.1.saved_accounts) (sym e₁) in
      let written : d.save_account x c.delegate ≡ (ok tt, c₁.delegate) =
        rw e at (ap {B = Result (Unit {0}) × d.State} (λ y. (y.0, y.1.delegate)) e₁) in
      let c₂ : Cache d = record c₁ { saved_accounts = erase k c₁.saved_accounts } in
      let (kept, (deposits, movements), dropped, finds) =
        flush_accounts-ok ks c₂ t (λ p b h. n p b (rw acc₁ at h)) (rw acc₁ a) h₁ in
      (
        record {
          accounts = kept.accounts ∙ acc₁;
          transactional = kept.transactional ∙ ap (λ y. y.1.transactional) (sym e₁);
        },
        (
          deposits ∙ ap (λ y. y.1.saved_deposits) (sym e₁),
          movements ∙ ap (λ y. y.1.saved_movements) (sym e₁),
        ),
        Dropped-next k ks c.saved_accounts t.saved_accounts (rw (← marks₁) dropped),
        λ q.
            finds q
            ∙ ap (λ y. if contains q ks then lookup q y else st.find c₁.delegate q) acc₁
            ∙ write_one k ks q x c c₁ e (n k x e) written,
      )

  flush_deposits-Same :
      (ks : List Str) (c t : Cache d)
      → flush_deposits d ks c ≡ (ok tt, t)
      → (t.saved_accounts ≡ c.saved_accounts)
        × ((q : Str) → st.find t.delegate q ≡ st.find c.delegate q)
  unfolding flush_deposits
  flush_deposits-Same [] c t h = let same : c ≡ t = ap (λ y. y.1) h in rw (← same) (refl, λ q. refl)
  flush_deposits-Same (k ∷ ks) c t h =
      let (u, c₁, e₁, h₁) =
        bind-eq_ok (below d (d.save_deposit k (value_or (lookup k c.deposits) zero_deposit)))
          (λ (_ : Unit {0}) (c' : Cache d).
            flush_deposits d ks (record c' { saved_deposits = erase k c'.saved_deposits }))
          c h in
      let (marks, finds) =
        flush_deposits-Same ks (record c₁ { saved_deposits = erase k c₁.saved_deposits }) t h₁ in
      (
        marks ∙ ap (λ y. y.1.saved_accounts) (sym e₁),
        λ q.
            finds q ∙ ap (λ y. st.find y.1.delegate q) (sym e₁) ∙ st.saves_deposit k q _ c.delegate,
      )

  flush_movements-Same :
      (ks : List Str) (c t : Cache d)
      → flush_movements d ks c ≡ (ok tt, t)
      → (t.saved_accounts ≡ c.saved_accounts)
        × ((q : Str) → st.find t.delegate q ≡ st.find c.delegate q)
  unfolding flush_movements
  flush_movements-Same [] c t h =
      let same : c ≡ t = ap (λ y. y.1) h in rw (← same) (refl, λ q. refl)
  flush_movements-Same (k ∷ ks) c t h =
      let (u, c₁, e₁, h₁) =
        bind-eq_ok (below d (d.save_movement (value_or (lookup k c.movements) zero_movement)))
          (λ (_ : Unit {0}) (c' : Cache d).
            flush_movements d ks (record c' { saved_movements = erase k c'.saved_movements }))
          c h in
      let (marks, finds) =
        flush_movements-Same ks (record c₁ { saved_movements = erase k c₁.saved_movements }) t h₁ in
      (
        marks ∙ ap (λ y. y.1.saved_accounts) (sym e₁),
        λ q. finds q ∙ ap (λ y. st.find y.1.delegate q) (sym e₁) ∙ st.saves_movement _ q c.delegate,
      )

  -- If `Flush` succeeds on a cache that holds every account it marks, each under its own name, then
  -- the storage finds each marked account as the cache held it, every other account as before, and
  -- no account is marked any longer.
  pub flush_lem :
      (c t : Cache d)
      → Named d st c
      → AllCached (keys c.saved_accounts) c.accounts
      → flush d c ≡ (ok tt, t)
      → ((q : Str)
          → st.find t.delegate q ≡ (
              if contains q (keys c.saved_accounts)
              then lookup q c.accounts
              else st.find c.delegate q))
        × ((q : Str) → lookup q t.saved_accounts ≡ none)
  unfolding flush
  flush_lem c t n a h = elim (Bool-cases c.transactional) [
    | inr e ↦ absurd (
        err≢ok (
          ap (λ x. x.0)
            (sym (ap (λ b. if b then flush_all d c else (err not_transactional, c)) e) ∙ h)))
    | inl e ↦
        let ran : flush_all d c ≡ (ok tt, t) =
          sym (ap (λ b. if b then flush_all d c else (err not_transactional, c)) e) ∙ h in
        let (u₁, c₁, e₁, h₁) =
          bind-eq_ok (flush_accounts d (keys c.saved_accounts)) (flush_rest d) c ran in
        let (u₂, c₂, e₂, h₂) =
          bind-eq_ok (flush_deposits d (keys c₁.saved_deposits)) (flush_last d) c₁ h₁ in
        let (kept, same, dropped, finds) = flush_accounts-ok (keys c.saved_accounts) c c₁ n a e₁ in
        let (marks₂, finds₂) = flush_deposits-Same (keys c₁.saved_deposits) c₁ c₂ e₂ in
        let (marks₃, finds₃) = flush_movements-Same (keys c₂.saved_movements) c₂ t h₂ in
        (
          λ q. finds₃ q ∙ finds₂ q ∙ finds q,
          λ q. ap (lookup q) (marks₃ ∙ marks₂) ∙ dropped q ∙ nothing_left q c.saved_accounts,
        )
  ]
