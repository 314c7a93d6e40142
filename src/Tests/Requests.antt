-- ===== src/Tests/Requests.antt =====
-- Concrete requests to the server, on a storage that keeps accounts, bids and transactions in maps.
use mathlib.Core.Path.{subst}
use bitwrk.Base.{
  ◌+◌, ◌≡◌, ◌≤◌, refl, ap, sym, ◌∙◌, true, Bool-cases, Option, none, some, List, [], ◌∷◌, Str,
  codes, str_eq, Dict, lookup, insert, lookup-insert, inl, inr, arith, Result, ok, ok-injective,
  err, no_such_object, Str-discrete, length, erase,
}
use bitwrk.Int.{◌+ℤ◌, ◌-ℤ◌}
use bitwrk.Int64.{wrap64}
use bitwrk.Money.{btc, Currency-discrete, add, sub, neg}
use bitwrk.Dao.{ParticipantAccount, Dao}
use bitwrk.Dao.Cached.{
  new_cache, get_account, receive_account, save_account, save_movement, flush, flush_accounts,
  flush_deposits, flush_movements,
}
use bitwrk.Dao.Cached.Reads.{Storage}
use bitwrk.Dao.Cached.Sound.{Steady}
use bitwrk.Account.{apply, validate, balance, set_balance, can_apply, check_type}
use bitwrk.Account.Place.{post, place_movement, place_account_movement, new_movement}
use bitwrk.Bid.{Bid, sell, in_queue, matched}
use bitwrk.Transaction
use bitwrk.Transaction.{Transaction, TxPhase-discrete, active}
use bitwrk.Transaction.Accounting.Conserve.{fee_due}
use bitwrk.Bid
use bitwrk.Bid.Accounting.{check_balance, required}
use bitwrk.Transaction.Accounting.{new_transaction, price_delta, BidType-discrete}
use bitwrk.Gae.Server.{
  Registry, unix_epoch, retire_stored_transaction, enqueue_bid, place_bid, match_bids, retire_bid,
}
use bitwrk.Gae.Server.Known.{KnownBid, KnownTrade, Faithful, AllStoredValid, stored_holdings}
use bitwrk.Gae.Server.Requests.{
  Request, enqueue, place_it, retire_it, match_them, serve, serve_conserves,
}
use bitwrk.Gae.Server.Retirement.{stored_retirement_conserves}
use bitwrk.Tests.Shelf.{named, found_or_missing, find_named, found_named, missing_named, named-if}
use bitwrk.Tests.Ledgers.{
  alice, bob, alice_account, everyone, everyone-Distinct, alice-contained, bob-contained, buy_bid,
  finished_tx,
}

record Office : Type 0 where
  accounts : Dict ParticipantAccount
  bids : Dict Bid
  trades : Dict Transaction

abbrev office : Dao
office = record {
  State = Office;
  get_account = λ p s. (found_or_missing (named p (lookup p s.accounts)), s);
  save_account = λ a s. (ok tt, record s { accounts = insert a.participant a s.accounts });
  get_movement = λ k s. (err no_such_object, s);
  save_movement = λ m s. (ok tt, s);
  new_account_movement_key = λ p s. (ok p, s);
  get_deposit = λ u s. (err no_such_object, s);
  save_deposit = λ u x s. (ok tt, s);
  get_relation = λ a b t s. (err no_such_object, s);
  save_relation = λ x s. (ok tt, s);
}

abbrev office_storage : Storage office
office_storage = record {
  find = λ s p. named p (lookup p s.accounts);
  find-participant = λ s p a h. find_named p (lookup p s.accounts) a h;
  found = λ p s t a h. found_named (named p (lookup p s.accounts)) a (ap (λ x. x.0) h);
  missing = λ p s t h. missing_named (named p (lookup p s.accounts)) (ap (λ x. x.0) h);
  reads_account = λ p q s. refl;
  reads_deposit = λ u q s. refl;
  makes_key = λ p q s. refl;
  saves_account = λ a q s t h.
      ap (λ y. named q (lookup q y.1.accounts)) (sym h)
      ∙ ap (named q) (lookup-insert q a.participant a s.accounts)
      ∙ named-if q a (lookup q s.accounts);
  saves_deposit = λ u q x s. refl;
  saves_movement = λ m q s. refl;
}

-- A key that is longer than the map is large.
abbrev fresh_key {ℓ} : {V : Type ℓ} → Dict V → Str
fresh_key [] = codes "k"
fresh_key (x ∷ m) = b'1' ∷ fresh_key m

abbrev read_or_missing : {V : Type 0} → Option V → Result V
read_or_missing none = err no_such_object
read_or_missing (some v) = ok v

abbrev registry : Registry office
registry = record {
  is_key = λ k. true;
  read_bid = λ k s. (read_or_missing (lookup k s.bids), s);
  store_bid = λ k b s. (ok tt, record s { bids = insert k b s.bids });
  add_bid = λ b s. (ok (fresh_key s.bids), record s { bids = insert (fresh_key s.bids) b s.bids });
  read_transaction = λ k s. (read_or_missing (lookup k s.trades), s);
  store_transaction = λ k tx s. (ok tt, record s { trades = insert k tx s.trades });
  add_transaction = λ tx s.
      (ok (fresh_key s.trades), record s { trades = insert (fresh_key s.trades) tx s.trades });
  retire_bid_later = λ k b s. (ok tt, s);
  retire_transaction_later = λ k tx s. (ok tt, s);
  queue_hot_bid = λ k b s. (ok tt, s);
}

-- All values of a map have a property.
abbrev Values : {V : Type 0} → (V → Type 0) → Dict V → Type 0
Values {V} P m = (k : Str) (v : V) → lookup k m ≡ some v → P v

Values-insert :
    {V : Type 0} (P : V → Type 0) (k : Str) (v : V) (m : Dict V)
    → P v
    → Values P m
    → Values P (insert k v m)
Values-insert P k v m new old j x e = elim (Bool-cases (str_eq j k)) [
  | inl y ↦
      let e' : some v ≡ some x = rw (lookup-insert j k v m, y) at e in
      let same : v ≡ x = cc in subst P same new
  | inr n ↦ old j x (rw (lookup-insert j k v m, n) at e)
]

read-some : {V : Type 0} (o : Option V) (v : V) → read_or_missing o ≡ ok v → o ≡ some v
read-some none v h = absurd (cc)
read-some (some w) v h = ap some (ok-injective h)

abbrev IsKnown : Office → Type 0
IsKnown s = Values (KnownBid everyone) s.bids × Values (KnownTrade everyone) s.trades

office-Steady : Steady office IsKnown
office-Steady = record {
  reads_account = λ p s h. h;
  reads_deposit = λ u s h. h;
  makes_key = λ p s h. h;
  saves_account = λ a s h. h;
  saves_deposit = λ u x s h. h;
  saves_movement = λ m s h. h;
}

-- What is left of a call that ends in a state with the same accounts.
ends :
    {A : Type 0} {a b : A} (s s' t : Office)
    → IsKnown s'
    → s'.accounts ≡ s.accounts
    → ◌≡◌ {A = Result A × Office} (ok b, s') (ok a, t)
    → IsKnown t × ((q : Str) → named q (lookup q t.accounts) ≡ named q (lookup q s.accounts))
ends s s' t known same e = (
  subst IsKnown (ap (λ y. y.1) e) known,
  λ q. ap (λ y. named q (lookup q y.1.accounts)) (sym e) ∙ ap (λ x. named q (lookup q x)) same,
)

read_ends :
    {A : Type 0} {a : A} (r : Result A) (s t : Office)
    → IsKnown s
    → ◌≡◌ {A = Result A × Office} (r, s) (ok a, t)
    → IsKnown t × ((q : Str) → named q (lookup q t.accounts) ≡ named q (lookup q s.accounts))
read_ends r s t known e =
    (subst IsKnown (ap (λ y. y.1) e) known, λ q. ap (λ y. named q (lookup q y.1.accounts)) (sym e))

registry-Faithful : Faithful office office_storage IsKnown registry everyone
registry-Faithful = record {
  read_bid-Leaves = λ k s t a h e. read_ends (read_or_missing (lookup k s.bids)) s t h e;
  read_bid-Known = λ k s t b h e. h.0 k b (read-some (lookup k s.bids) b (ap (λ y. y.0) e));
  store_bid-Leaves = λ k b new s t a h e.
      ends s (record s { bids = insert k b s.bids }) t
        (Values-insert (KnownBid everyone) k b s.bids new h.0, h.1) refl e;
  add_bid-Leaves = λ b new s t a h e.
      ends s (record s { bids = insert (fresh_key s.bids) b s.bids }) t
        (Values-insert (KnownBid everyone) (fresh_key s.bids) b s.bids new h.0, h.1) refl e;
  read_transaction-Leaves = λ k s t a h e. read_ends (read_or_missing (lookup k s.trades)) s t h e;
  read_transaction-Known =
      λ k s t tx h e. h.1 k tx (read-some (lookup k s.trades) tx (ap (λ y. y.0) e));
  store_transaction-Leaves = λ k tx new s t a h e.
      ends s (record s { trades = insert k tx s.trades }) t
        (h.0, Values-insert (KnownTrade everyone) k tx s.trades new h.1) refl e;
  add_transaction-Leaves = λ tx new s t a h e.
      ends s (record s { trades = insert (fresh_key s.trades) tx s.trades }) t
        (h.0, Values-insert (KnownTrade everyone) (fresh_key s.trades) tx s.trades new h.1) refl e;
  retire_bid_later-Leaves = λ k b s t a h e. ends s s t h refl e;
  retire_transaction_later-Leaves = λ k tx s t a h e. ends s s t h refl e;
  queue_hot_bid-Leaves = λ k b s t a h e. ends s s t h refl e;
}

abbrev recent_bid : Bid
recent_bid = record buy_bid {
  state = in_queue;
  created = unix_epoch + 5;
  expires = unix_epoch + 1_000;
}

abbrev offer : Bid
offer = record recent_bid { bid_type = sell; participant = bob }

-- Alice has money, Bob has offered to work for her, and a transaction of theirs has ended.
abbrev open_office : Office
open_office = record {
  accounts = (alice, alice_account) ∷ [];
  bids = (codes "s", offer) ∷ [];
  trades = (codes "t", finished_tx) ∷ [];
}

recent-Known : KnownBid everyone recent_bid
recent-Known = (alice-contained, (omega arith, omega arith))

open_office-IsKnown : IsKnown open_office
unfolding lookup
open_office-IsKnown = (
  λ k b e. elim (Bool-cases (str_eq k (codes "s"))) [
    | inl y ↦
        let e' : some offer ≡ some b = rw y at e in
        let same : offer ≡ b = cc in
        subst (KnownBid everyone) same (bob-contained, (omega arith, omega arith))
    | inr n ↦ absurd (none-some (rw n at e))
  ],
  λ k tx e. elim (Bool-cases (str_eq k (codes "t"))) [
    | inl y ↦
        let e' : some finished_tx ≡ some tx = rw y at e in
        let same : finished_tx ≡ tx = cc in
        subst (KnownTrade everyone) same
          (bob-contained, alice-contained, (omega arith, omega arith))
    | inr n ↦ absurd (none-some (rw n at e))
  ],
)
  where
    none-some : {V : Type 0} {v : V} → ◌≡◌ {A = Option V} none (some v) → ⊥
    none-some h = cc

open_office-valid : AllStoredValid office office_storage IsKnown office-Steady open_office
unfolding lookup
open_office-valid p = elim (Bool-cases (str_eq p alice)) [
  | inl y ↦ rw y (record {
    available_nonneg = ground arith;
    available_fits = ground arith;
    blocked_nonneg = ground arith;
    blocked_fits = ground arith;
  })
  | inr n ↦ rw n (record {
    available_nonneg = ground arith;
    available_fits = ground arith;
    blocked_nonneg = ground arith;
    blocked_fits = ground arith;
  })
]

-- Alice's bid is stored under a new key, placed, and matched with Bob's.
abbrev alices_key : Str
alices_key = codes "1k"

abbrev requests : List Request
requests =
    enqueue recent_bid
    ∷ place_it alices_key
    ∷ match_them (unix_epoch + 9) (codes "s") alices_key
    ∷ retire_it (codes "s") (unix_epoch + 2_000)
    ∷ []

abbrev served : Office
served = serve office registry requests open_office

serve_conserves_example :
    IsKnown served
    × AllStoredValid office office_storage IsKnown office-Steady served
    × (stored_holdings office office_storage IsKnown office-Steady btc served everyone
        ≡ stored_holdings office office_storage IsKnown office-Steady btc open_office everyone)
serve_conserves_example =
    serve_conserves office office_storage IsKnown office-Steady btc everyone registry requests
      open_office everyone-Distinct registry-Faithful (recent-Known, tt) open_office-IsKnown
      open_office-valid

abbrev retired_office : Office
retired_office = (retire_stored_transaction office registry (codes "t") 950 open_office).1

stored_retired-ok :
    retire_stored_transaction office registry (codes "t") 950 open_office ≡ (ok tt, retired_office)
unfolding retire_stored_transaction place_account_movement place_movement new_movement post validate
    apply get_account save_account receive_account save_movement new_cache ◌+ℤ◌ lookup wrap64
    check_type balance set_balance can_apply add neg sub insert Currency-discrete Str-discrete ◌-ℤ◌
    Transaction.Accounting.retire TxPhase-discrete flush flush_accounts flush_deposits
    flush_movements erase
stored_retired-ok = refl

stored_retirement_conserves_example :
    (tx : Transaction) × (s1 : Office) × (registry.read_transaction (codes "t") open_office
      ≡ (ok tx, s1))
    × (tx.state ≡ active)
    × (tx.timeout ≤ 950)
    × IsKnown retired_office
    × AllStoredValid office office_storage IsKnown office-Steady retired_office
    × (stored_holdings office office_storage IsKnown office-Steady btc retired_office everyone
          +ℤ fee_due btc tx
        ≡ stored_holdings office office_storage IsKnown office-Steady btc open_office everyone)
stored_retirement_conserves_example =
    stored_retirement_conserves office office_storage IsKnown office-Steady btc everyone registry
      (codes "t") 950 open_office retired_office everyone-Distinct registry-Faithful
      open_office-IsKnown open_office-valid stored_retired-ok

-- The requests do lead to another transaction.
served-trades : length served.trades ≡ 2
unfolding place_account_movement place_movement new_movement post validate apply get_account
    save_account receive_account save_movement new_cache ◌+ℤ◌ lookup wrap64 check_type balance
    set_balance can_apply add neg sub insert Currency-discrete Str-discrete ◌-ℤ◌ enqueue_bid
    place_bid match_bids retire_bid new_transaction flush flush_accounts flush_deposits
    flush_movements erase Bid.Accounting.book check_balance required price_delta BidType-discrete
    Transaction.Accounting.book
served-trades = refl
