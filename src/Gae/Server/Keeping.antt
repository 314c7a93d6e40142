-- ===== src/Gae/Server/Keeping.antt =====
-- About calls in a cache that keep the money that participants hold.
use mathlib.Core.Path.{subst}
use bitwrk.Base.{
  ◌≡◌, refl, ap, ◌∙◌, Bool, true, false, List, Str, if◌then◌else◌, Result, ok, Action, bind, lift,
  bind-eq_ok,
}
use bitwrk.Money.{Currency}
use bitwrk.Dao.{Dao, Accounts}
use bitwrk.Account.Apply.{worth}
use bitwrk.Account.Total.{Distinct, total-ext}
use bitwrk.Account.Conserve.{AllValid, holdings}
use bitwrk.Bid.{Bid}
use bitwrk.Bid.Accounting.{check_balance, check_account, required}

module _ (d : Dao) (acc : Accounts d) where
  -- A call that leaves the accounts alone.
  abbrev pub Harmless : {A : Type 0} → Action d.State A → Type 0
  Harmless {A} call =
      (s t : d.State) (a : A)
      → acc.IsConsistent s
      → call s ≡ (ok a, t)
      → acc.IsConsistent t × ((q : Str) → acc.view t q ≡ acc.view s q)

module _ (d : Dao) (acc : Accounts d) (c : Currency) (ps : List Str) (distinct : Distinct ps) where
  -- The accounts are consistent and valid, and the participants hold what they held before.
  abbrev pub Kept : d.State → d.State → Type 0
  Kept s t = acc.IsConsistent t × AllValid d acc t × (holdings d acc c t ps ≡ holdings d acc c s ps)

  abbrev pub Preserves : {A : Type 0} → Action d.State A → Type 0
  Preserves {A} call =
      (s t : d.State) (a : A)
      → acc.IsConsistent s
      → AllValid d acc s
      → call s ≡ (ok a, t)
      → Kept s t

  pub Harmless-Preserves :
      {A : Type 0} (call : Action d.State A) → Harmless d acc call → Preserves call
  Harmless-Preserves call h s t a i v e =
      let (i', look) = h s t a i e in
      (
        i',
        λ q. rw (look q) (v q),
        total-ext (λ q. worth c (acc.view t q)) (λ q. worth c (acc.view s q)) ps (λ q. rw (look q)),
      )

  pub lift-Preserves : {A : Type 0} (x : Result A) → Preserves (lift x)
  lift-Preserves x s t a i v e = subst (Kept s) (ap (λ y. y.1) e) (i, v, refl)

  pub bind-Preserves :
      {A B : Type 0} (call : Action d.State A) (rest : A → Action d.State B)
      → Preserves call
      → ((a : A) (s t : d.State) → call s ≡ (ok a, t) → Preserves (rest a))
      → Preserves (bind call rest)
  bind-Preserves call rest p q s t b i v e =
      let (a, s1, e1, k) = bind-eq_ok call rest s e in
      let (i1, v1, same) = p s s1 a i v e1 in
      let (i2, v2, same') = q a s s1 e1 s1 t b i1 v1 k in (i2, v2, same' ∙ same)

  pub if-Preserves :
      {A : Type 0} (y : Bool) (f g : Action d.State A)
      → Preserves f
      → Preserves g
      → Preserves (if y then f else g)
  if-Preserves true f g p q = p
  if-Preserves false f g p q = q

  pub check_balance-Preserves : (b : Bid) → Preserves (check_balance d b)
  unfolding check_balance
  check_balance-Preserves b =
      bind-Preserves (lift (required b))
        (λ price. bind (d.get_account b.participant) (check_account d b price))
        (lift-Preserves (required b))
        (λ price _ _ _.
          bind-Preserves (d.get_account b.participant) (check_account d b price)
            (Harmless-Preserves (d.get_account b.participant) (λ s t a i e.
              let (_, i', look) = acc.get_account_lem b.participant s t a i e in (i', look)))
            (λ a _ _ _. lift-Preserves _))
