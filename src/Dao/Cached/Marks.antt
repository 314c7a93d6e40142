-- ===== src/Dao/Cached/Marks.antt =====
-- About the accounts that the cache of common/bitwrk/dao.go marks for `Flush`.
use bitwrk.Base.{
  ◌≡◌, refl, Bool, true, Bool-cases, Option-cases, some, List, [], ◌∷◌, Str, str_eq, str_eq_iff,
  Dict, lookup, insert, lookup-insert, inl, inr, Result, ok, err, panic, no_such_object,
}
use bitwrk.Dao.{Dao, ParticipantAccount, AccountMovement, Deposit}
use bitwrk.Dao.Cached.{
  Cache, fresh_account, keys, new_cache, receive_account, get_account, save_account,
  receive_movement, get_movement, save_movement, receive_deposit, get_deposit, save_deposit,
}
use bitwrk.Dao.Cached.Flush.{AllCached}

-- An account is held under a name.
abbrev Held : Str → Dict ParticipantAccount → Type 0
Held k accounts = (a : ParticipantAccount) × (lookup k accounts ≡ some a)

Held-insert :
    (k p : Str) (a : ParticipantAccount) (accounts : Dict ParticipantAccount)
    → Held k accounts
    → Held k (insert p a accounts)
Held-insert k p a accounts (b, e) = elim (Bool-cases (str_eq k p)) [
  | inl y ↦ (a, rw (lookup-insert k p a accounts, y))
  | inr n ↦ (b, rw (lookup-insert k p a accounts, n) e)
]

Held-inserted :
    (p : Str) (a : ParticipantAccount) (accounts : Dict ParticipantAccount)
    → Held p (insert p a accounts)
Held-inserted p a accounts = (a, rw (lookup-insert p p a accounts, (str_eq_iff p p).1 refl))

AllCached-insert :
    (ks : List Str) (p : Str) (a : ParticipantAccount) (accounts : Dict ParticipantAccount)
    → AllCached ks accounts
    → AllCached ks (insert p a accounts)
AllCached-insert [] p a accounts h = tt
AllCached-insert (k ∷ ks) p a accounts (held, rest) =
    (Held-insert k p a accounts held, AllCached-insert ks p a accounts rest)

AllCached-mark :
    (marks : Dict Bool) (p : Str) (b : Bool) (accounts : Dict ParticipantAccount)
    → Held p accounts
    → AllCached (keys marks) accounts
    → AllCached (keys (insert p b marks)) accounts
unfolding insert
AllCached-mark [] p b accounts held h = (held, tt)
AllCached-mark ((j, w) ∷ marks) p b accounts held (first, rest) = elim (Bool-cases (str_eq p j)) [
  | inl y ↦ rw y (held, rest)
  | inr n ↦ rw n (first, AllCached-mark marks p b accounts held rest)
]

module _ (d : Dao) where
  -- Every account that is marked is held.
  abbrev pub Marked : Cache d → Type 0
  Marked c = AllCached (keys c.saved_accounts) c.accounts

  receive_account-Marked :
      (p : Str) (r : Result ParticipantAccount) (c : Cache d)
      → Marked c
      → Marked (receive_account d p r c).1
  unfolding receive_account
  receive_account-Marked p (ok a) c h = AllCached-insert (keys c.saved_accounts) p a c.accounts h
  receive_account-Marked p (err no_such_object) c h =
      AllCached-mark c.saved_accounts p true (insert p (fresh_account p) c.accounts)
        (Held-inserted p (fresh_account p) c.accounts)
        (AllCached-insert (keys c.saved_accounts) p (fresh_account p) c.accounts h)
  receive_account-Marked p (err _) c h = h
  receive_account-Marked p panic c h = h

  pub get_account-Marked : (p : Str) (c : Cache d) → Marked c → Marked (get_account d p c).1
  unfolding get_account
  get_account-Marked p c h = elim (Option-cases (lookup p c.accounts)) [
    | inr (a, e) ↦ rw (e, get_account) h
    | inl e ↦
        rw (e, get_account)
          (receive_account-Marked p (d.get_account p c.delegate).0
            (record c { delegate = (d.get_account p c.delegate).1 }) h)
  ]

  pub save_account-Marked :
      (a : ParticipantAccount) (c : Cache d) → Marked c → Marked (save_account d a c).1
  unfolding save_account
  save_account-Marked a c h = elim (Bool-cases (str_eq a.participant [])) [
    | inl y ↦ rw (y, save_account) h
    | inr n ↦
        rw (n, save_account)
          (AllCached-mark c.saved_accounts a.participant true (insert a.participant a c.accounts)
            (Held-inserted a.participant a c.accounts)
            (AllCached-insert (keys c.saved_accounts) a.participant a c.accounts h))
  ]

  receive_movement-Marked :
      (k : Str) (r : Result AccountMovement) (c : Cache d)
      → Marked c
      → Marked (receive_movement d k r c).1
  unfolding receive_movement
  receive_movement-Marked k (ok m) c h = h
  receive_movement-Marked k (err e) c h = h
  receive_movement-Marked k panic c h = h

  get_movement-Marked : (k : Str) (c : Cache d) → Marked c → Marked (get_movement d k c).1
  unfolding get_movement
  get_movement-Marked k c h = elim (Option-cases (lookup k c.movements)) [
    | inr (m, e) ↦ rw (e, get_movement) h
    | inl e ↦
        rw (e, get_movement)
          (receive_movement-Marked k (d.get_movement k c.delegate).0
            (record c { delegate = (d.get_movement k c.delegate).1 }) h)
  ]

  save_movement-Marked :
      (m : AccountMovement) (c : Cache d) → Marked c → Marked (save_movement d m c).1
  unfolding save_movement
  save_movement-Marked m c h = elim (Option-cases m.key) [
    | inr (k, e) ↦ rw (e, save_movement) h
    | inl e ↦ rw (e, save_movement) h
  ]

  receive_deposit-Marked :
      (u : Str) (r : Result Deposit) (c : Cache d) → Marked c → Marked (receive_deposit d u r c).1
  unfolding receive_deposit
  receive_deposit-Marked u (ok x) c h = h
  receive_deposit-Marked u (err e) c h = h
  receive_deposit-Marked u panic c h = h

  get_deposit-Marked : (u : Str) (c : Cache d) → Marked c → Marked (get_deposit d u c).1
  unfolding get_deposit
  get_deposit-Marked u c h = elim (Option-cases (lookup u c.deposits)) [
    | inr (x, e) ↦ rw (e, get_deposit) h
    | inl e ↦
        rw (e, get_deposit)
          (receive_deposit-Marked u (d.get_deposit u c.delegate).0
            (record c { delegate = (d.get_deposit u c.delegate).1 }) h)
  ]

  -- A new cache holds every account that it marks, and after any read or write of an account, a
  -- movement or a deposit, whether it succeeds or not, a cache still does if it did before.
  pub operations-Marked :
      (p k u : Str) (a : ParticipantAccount) (m : AccountMovement) (x : Deposit) (s : d.State)
      (transactional : Bool) (c : Cache d)
      → Marked c
      → Marked (new_cache d s transactional)
        × (Marked (get_account d p c).1 × Marked (save_account d a c).1)
        × (Marked (get_movement d k c).1 × Marked (save_movement d m c).1)
        × (Marked (get_deposit d u c).1 × Marked (save_deposit d u x c).1)
  unfolding new_cache save_deposit
  operations-Marked p k u a m x s transactional c h = (
    tt,
    (get_account-Marked p c h, save_account-Marked a c h),
    (get_movement-Marked k c h, save_movement-Marked m c h),
    (get_deposit-Marked u c h, h),
  )
