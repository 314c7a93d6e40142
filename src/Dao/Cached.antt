-- ===== src/Dao/Cached.antt =====
-- `cachedAccountingDao` of common/bitwrk/dao.go: a cache in front of a storage, which is flushed at
-- the end of a transaction.
pub mod Reads
pub mod Flush
pub mod Marks
pub mod Sound
pub mod Settled
use bitwrk.Base.{
  ℕ, ◌≡◌, Bool, true, false, Option, none, some, List, [], ◌∷◌, Str, str_eq, Dict, lookup, insert,
  erase, if◌then◌else◌, Error, Result, ok, err, panic, Action, bind, lift, no_such_object,
  key_not_set, not_transactional,
}
use bitwrk.Int.{pos}
use bitwrk.Money.{btc, money}
use bitwrk.Dao.{
  ParticipantAccount, AccountMovement, invalid, Deposit, injection, RelationType, Relation, Dao,
}

-- The account that `GetAccount` makes up.
abbrev pub fresh_account : Str → ParticipantAccount
fresh_account p = record {
  participant = p;
  last_movement_key = none;
  currency = btc;
  available_amount = pos 0;
  blocked_amount = pos 0;
  deposit_info = [];
  last_deposit_info = 0;
  deposit_address_request = [];
}

-- Go's zero values, which a map yields at a key that it lacks.
abbrev pub zero_deposit : Deposit
zero_deposit = record {
  deposit_type = injection;
  amount = money (pos 0) btc;
  account = [];
  reference = [];
  document = [];
  signature = [];
  created = 0;
}

abbrev pub zero_movement : AccountMovement
zero_movement = record {
  key = none;
  timestamp = 0;
  movement_type = invalid;
  available_delta = money (pos 0) btc;
  available_account = [];
  available_predecessor_key = none;
  blocked_delta = money (pos 0) btc;
  blocked_account = [];
  blocked_predecessor_key = none;
  fee = money (pos 0) btc;
  world = money (pos 0) btc;
  bid_key = none;
  tx_key = none;
  deposit_key = none;
  withdrawal_key = none;
}

abbrev pub value_or {ℓ} : {V : Type ℓ} → Option V → V → V
value_or none z = z
value_or (some v) z = v

abbrev pub keys {ℓ} : {V : Type ℓ} → Dict V → List Str
keys [] = []
keys ((k, v) ∷ d) = k ∷ keys d

module _ (d : Dao) where
  -- The storage's state stands beside the cache's own.
  pub record Cache : Type 0 where
    pub delegate : d.State
    pub transactional : Bool
    pub accounts : Dict ParticipantAccount
    pub deposits : Dict Deposit
    pub movements : Dict AccountMovement
    pub saved_accounts : Dict Bool
    pub saved_deposits : Dict Bool
    pub saved_movements : Dict Bool

  -- `NewCachedAccountingDao`
  unfoldable pub new_cache : d.State → Bool → Cache
  new_cache delegate transactional = record {
    delegate = delegate;
    transactional = transactional;
    accounts = [];
    deposits = [];
    movements = [];
    saved_accounts = [];
    saved_deposits = [];
    saved_movements = [];
  }

  -- A call of the storage.
  abbrev pub below : {A : Type 0} → Action d.State A → Action Cache A
  below m c = let (r, s) = m c.delegate in (r, record c { delegate = s })

  abbrev pub remember_account : Str → ParticipantAccount → Cache → Cache
  remember_account p a c = record c { accounts = insert p a c.accounts }

  -- What `GetAccount` does with the storage's answer.
  unfoldable pub receive_account :
      Str → Result ParticipantAccount → Cache → Result ParticipantAccount × Cache
  receive_account p (ok a) c = (ok a, remember_account p a c)
  receive_account p (err no_such_object) c = (
    ok (fresh_account p),
    remember_account p (fresh_account p)
        (record c { saved_accounts = insert p true c.saved_accounts }),
  )
  receive_account p (err e) c = (err e, c)
  receive_account p panic c = (panic, c)

  unfoldable pub get_account : Str → Action Cache ParticipantAccount
  get_account p c = elim (lookup p c.accounts) [
    | some a ↦ (ok a, c)
    | none ↦ let (r, c') = below (d.get_account p) c in receive_account p r c'
  ]

  unfoldable pub save_account : ParticipantAccount → Action Cache (Unit {0})
  save_account a c = if str_eq a.participant [] then (panic, c) else (
    ok tt,
    record c {
      accounts = insert a.participant a c.accounts;
      saved_accounts = insert a.participant true c.saved_accounts;
    },
  )

  unfoldable pub receive_movement :
      Str → Result AccountMovement → Cache → Result AccountMovement × Cache
  receive_movement key (ok m) c =
      let m' : AccountMovement = record m { key = some key } in
      (ok m', record c { movements = insert key m' c.movements })
  receive_movement key (err e) c = (err e, c)
  receive_movement key panic c = (panic, c)

  unfoldable pub get_movement : Str → Action Cache AccountMovement
  get_movement key c = elim (lookup key c.movements) [
    | some m ↦ (ok m, c)
    | none ↦ let (r, c') = below (d.get_movement key) c in receive_movement key r c'
  ]

  unfoldable pub save_movement : AccountMovement → Action Cache (Unit {0})
  save_movement m c = elim m.key [
    | none ↦ (err key_not_set, c)
    | some key ↦ (
      ok tt,
      record c {
        movements = insert key m c.movements;
        saved_movements = insert key true c.saved_movements;
      },
    )
  ]

  unfoldable pub receive_deposit : Str → Result Deposit → Cache → Result Deposit × Cache
  receive_deposit uid (ok x) c = (ok x, record c { deposits = insert uid x c.deposits })
  receive_deposit uid (err e) c = (err e, c)
  receive_deposit uid panic c = (panic, c)

  unfoldable pub get_deposit : Str → Action Cache Deposit
  get_deposit uid c = elim (lookup uid c.deposits) [
    | some x ↦ (ok x, c)
    | none ↦ let (r, c') = below (d.get_deposit uid) c in receive_deposit uid r c'
  ]

  unfoldable pub save_deposit : Str → Deposit → Action Cache (Unit {0})
  save_deposit uid x c = (
    ok tt,
    record c {
      deposits = insert uid x c.deposits;
      saved_deposits = insert uid true c.saved_deposits;
    },
  )

  -- One round of a loop of `Flush`: the storage's answer ends it or drops the mark.
  unfoldable pub flush_accounts : List Str → Action Cache (Unit {0})
  flush_accounts [] c = (ok tt, c)
  flush_accounts (k ∷ ks) c =
      bind (below (d.save_account (value_or (lookup k c.accounts) (fresh_account []))))
        (λ _ c'. flush_accounts ks (record c' { saved_accounts = erase k c'.saved_accounts })) c

  unfoldable pub flush_deposits : List Str → Action Cache (Unit {0})
  flush_deposits [] c = (ok tt, c)
  flush_deposits (k ∷ ks) c =
      bind (below (d.save_deposit k (value_or (lookup k c.deposits) zero_deposit)))
        (λ _ c'. flush_deposits ks (record c' { saved_deposits = erase k c'.saved_deposits })) c

  unfoldable pub flush_movements : List Str → Action Cache (Unit {0})
  flush_movements [] c = (ok tt, c)
  flush_movements (k ∷ ks) c =
      bind (below (d.save_movement (value_or (lookup k c.movements) zero_movement)))
        (λ _ c'. flush_movements ks (record c' { saved_movements = erase k c'.saved_movements })) c

  abbrev pub flush_last : Unit {0} → Action Cache (Unit {0})
  flush_last _ c = flush_movements (keys c.saved_movements) c

  abbrev pub flush_rest : Unit {0} → Action Cache (Unit {0})
  flush_rest _ c = bind (flush_deposits (keys c.saved_deposits)) flush_last c

  abbrev pub flush_all : Action Cache (Unit {0})
  flush_all c = bind (flush_accounts (keys c.saved_accounts)) flush_rest c

  -- The three loops go through their marks in the order of the list.
  unfoldable pub flush : Action Cache (Unit {0})
  flush c = if c.transactional then flush_all c else (err not_transactional, c)

  -- The cache as an `AccountingDao`.
  abbrev pub cached_dao : Dao
  cached_dao = record {
    State = Cache;
    get_account = get_account;
    save_account = save_account;
    get_movement = get_movement;
    save_movement = save_movement;
    new_account_movement_key = λ p. below (d.new_account_movement_key p);
    get_deposit = get_deposit;
    save_deposit = save_deposit;
    get_relation = λ a b t. below (d.get_relation a b t);
    save_relation = λ x. below (d.save_relation x);
  }
