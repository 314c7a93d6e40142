-- ===== src/Tests/Ledgers.antt =====
-- Money that moves between the accounts of a concrete ledger.
use bitwrk.Base.{
  ◌≡◌, ◌≤◌, refl, true, Bool-cases, none, some, List, [], ◌∷◌, Str, codes, str_eq, lookup, insert,
  Str-discrete, inl, inr, arith, ok, Action,
}
use bitwrk.Int.{◌≤ℤ◌, pos, negsuc, ◌+ℤ◌, ◌-ℤ◌}
use bitwrk.Int64.{◌+64◌, wrap64}
use bitwrk.Money.{btc, Currency-discrete, money, add, sub, neg}
use bitwrk.Dao.{ParticipantAccount, pay_in, Dao, Accounts}
use bitwrk.Dao.Cached.{
  new_cache, cached_dao, fresh_account, get_account, receive_account, save_account, save_movement,
}
use bitwrk.Dao.Cached.Reads.{cached_accounts}
use bitwrk.Account.{apply, validate, balance, set_balance, can_apply, check_type}
use bitwrk.Account.Total.{contains, Distinct}
use bitwrk.Account.Place.{post, place_movement, place_account_movement, new_movement}
use bitwrk.Account.Conserve.{AllValid, holdings}
use bitwrk.Account.Validate.{in_currency}
use bitwrk.Bid
use bitwrk.Account.Moves.{Shifted}
use bitwrk.Bid.{Bid, buy, placed, expired}
use bitwrk.Bid.Accounting.Shifts.{locked_amount}
use bitwrk.Transaction.Accounting.Shifts.{surplus, Settlement}
use bitwrk.Bid.Accounting
use bitwrk.Bid.Accounting.{expire}
use bitwrk.Transaction
use bitwrk.Transaction.{Transaction, TxPhase-discrete, active, retired, finished}
use bitwrk.Transaction.Accounting.{retire_transaction, price_delta}
use bitwrk.Transaction.Accounting.Conserve.{fee_due}
use bitwrk.Conservation.{
  movement_conserves, bid_booking_conserves, bid_retirement_conserves,
  transaction_booking_conserves, transaction_retirement_conserves,
}
use bitwrk.Tests.Shelf.{shelf, shelf_storage}

abbrev pub alice : Str
alice = codes "alice"

abbrev pub bob : Str
bob = codes "bob"

-- Alice has a bitcoin and a half, of which the half is blocked.
abbrev pub alice_account : ParticipantAccount
alice_account = record (fresh_account alice) {
  available_amount = pos 100_000_000;
  blocked_amount = pos 50_000_000;
}

abbrev pub ledger : Dao
ledger = cached_dao shelf

abbrev pub ledger_accounts : Accounts ledger
ledger_accounts = cached_accounts shelf shelf_storage

abbrev pub opened : ledger.State
opened = new_cache shelf ((alice, alice_account) ∷ []) true

pub opened-IsConsistent : ledger_accounts.IsConsistent opened
unfolding cached_accounts new_cache lookup
opened-IsConsistent p a h = absurd (cc)

pub opened-AllValid : AllValid ledger ledger_accounts opened
unfolding cached_accounts new_cache lookup
opened-AllValid p = elim (Bool-cases (str_eq p alice)) [
  | inl y ↦ rw y (record {
    available_nonneg = ground arith;
    available_fits = ground arith;
    blocked_nonneg = ground arith;
    blocked_fits = ground arith;
  })
  | inr n ↦ rw n (record {
    available_nonneg = ground arith;
    available_fits = ground arith;
    blocked_nonneg = ground arith;
    blocked_fits = ground arith;
  })
]

-- A hundred satoshis come in from the world.
abbrev paid_in : Action ledger.State (Unit {0})
paid_in =
    place_account_movement ledger 7 pay_in alice bob (money (pos 100) btc) (money (pos 0) btc)
      (money (pos 0) btc) (money (negsuc 99) btc) none none (some (codes "deposit")) none

paid_in-ok : paid_in opened ≡ (ok tt, (paid_in opened).1)
unfolding place_account_movement place_movement new_movement post validate apply get_account
    save_account receive_account save_movement new_cache ◌+ℤ◌ lookup wrap64 check_type balance
    set_balance can_apply add neg sub insert Currency-discrete Str-discrete ◌-ℤ◌
paid_in-ok = refl

abbrev pub everyone : List Str
everyone = alice ∷ bob ∷ []

pub everyone-Distinct : Distinct everyone
unfolding Str-discrete
everyone-Distinct = (refl, (refl, tt))

pub alice-contained : contains alice everyone ≡ true
unfolding Str-discrete
alice-contained = refl

pub bob-contained : contains bob everyone ≡ true
unfolding Str-discrete
bob-contained = refl

movement_conserves_example :
    ledger_accounts.IsConsistent (paid_in opened).1
    × AllValid ledger ledger_accounts (paid_in opened).1
    × (holdings ledger ledger_accounts btc (paid_in opened).1 everyone
          +ℤ (in_currency btc (money (pos 0) btc) +ℤ in_currency btc (money (negsuc 99) btc))
        ≡ holdings ledger ledger_accounts btc opened everyone)
movement_conserves_example =
    movement_conserves ledger ledger_accounts btc everyone 7 pay_in alice bob (money (pos 100) btc)
      (money (pos 0) btc) (money (pos 0) btc) (money (negsuc 99) btc) none none
      (some (codes "deposit")) none opened (paid_in opened).1 everyone-Distinct alice-contained
      bob-contained opened-IsConsistent opened-AllValid
      (omega arith, omega arith, omega arith, omega arith) paid_in-ok

abbrev pub buy_bid : Bid
buy_bid = record {
  bid_type = buy;
  state = placed;
  article = codes "fnord";
  price = money (pos 1_100) btc;
  fee = money (pos 33) btc;
  participant = alice;
  document = [];
  signature = [];
  created = 5;
  expires = 1_000;
  matched_at = none;
  transaction = none;
}

booked-ok :
    Bid.Accounting.book ledger buy_bid (codes "b") opened
    ≡ (ok tt, (Bid.Accounting.book ledger buy_bid (codes "b") opened).1)
unfolding place_account_movement place_movement new_movement post validate apply get_account
    save_account receive_account save_movement new_cache ◌+ℤ◌ lookup wrap64 check_type balance
    set_balance can_apply add neg sub insert Currency-discrete Str-discrete ◌-ℤ◌ Bid.Accounting.book
booked-ok = refl

bid_booking_conserves_example :
    let t = (Bid.Accounting.book ledger buy_bid (codes "b") opened).1 in
    Shifted ledger ledger_accounts alice alice
      (pos 0 -ℤ locked_amount buy_bid)
      (locked_amount buy_bid)
      opened
      t
    × ledger_accounts.IsConsistent t
    × AllValid ledger ledger_accounts t
    × (holdings ledger ledger_accounts btc t everyone
        ≡ holdings ledger ledger_accounts btc opened everyone)
bid_booking_conserves_example =
    bid_booking_conserves ledger ledger_accounts btc everyone buy_bid (codes "b") opened
      (Bid.Accounting.book ledger buy_bid (codes "b") opened).1 everyone-Distinct alice-contained
      opened-IsConsistent opened-AllValid booked-ok

retired-ok : Bid.Accounting.retire ledger buy_bid (codes "b") 2_000 opened ≡ (
  ok (expire ledger buy_bid),
  (Bid.Accounting.retire ledger buy_bid (codes "b") 2_000 opened).1,
)
unfolding place_account_movement place_movement new_movement post validate apply get_account
    save_account receive_account save_movement new_cache ◌+ℤ◌ lookup wrap64 check_type balance
    set_balance can_apply add neg sub insert Currency-discrete Str-discrete ◌-ℤ◌
    Bid.Accounting.retire
retired-ok = refl

bid_retirement_conserves_example :
    let t = (Bid.Accounting.retire ledger buy_bid (codes "b") 2_000 opened).1 in
    (expire ledger buy_bid ≡ record buy_bid { state = expired })
    × Shifted ledger ledger_accounts alice alice
        (locked_amount buy_bid)
        (pos 0 -ℤ locked_amount buy_bid)
        opened
        t
    × ledger_accounts.IsConsistent t
    × AllValid ledger ledger_accounts t
    × (holdings ledger ledger_accounts btc t everyone
        ≡ holdings ledger ledger_accounts btc opened everyone)
bid_retirement_conserves_example =
    bid_retirement_conserves ledger ledger_accounts btc everyone buy_bid (expire ledger buy_bid)
      (codes "b") 2_000 opened (Bid.Accounting.retire ledger buy_bid (codes "b") 2_000 opened).1
      everyone-Distinct alice-contained opened-IsConsistent opened-AllValid retired-ok

-- Alice buys for a thousand and a fee of thirty.
abbrev pub finished_tx : Transaction
finished_tx = record {
  revision = pos 4;
  buyer_bid = codes "b";
  seller_bid = codes "s";
  buyer = alice;
  seller = bob;
  article = codes "fnord";
  price = money (pos 1_000) btc;
  fee = money (pos 30) btc;
  matched_at = 5;
  state = active;
  phase = finished;
  timeout = 900;
  worker_url = none;
  work_hash = none;
  work_secret_hash = none;
  buyer_secret = none;
  encrypted_result_receipt = none;
  result_decryption_key = none;
}

tx_booked-ok :
    Transaction.Accounting.book ledger finished_tx (codes "t") buy_bid opened
    ≡ (ok tt, (Transaction.Accounting.book ledger finished_tx (codes "t") buy_bid opened).1)
unfolding place_account_movement place_movement new_movement post validate apply get_account
    save_account receive_account save_movement new_cache ◌+ℤ◌ lookup wrap64 check_type balance
    set_balance can_apply add neg sub insert Currency-discrete Str-discrete ◌-ℤ◌
    Transaction.Accounting.book price_delta
tx_booked-ok = refl

transaction_booking_conserves_example :
    let t = (Transaction.Accounting.book ledger finished_tx (codes "t") buy_bid opened).1 in
    ((pos 0 ≤ℤ surplus finished_tx buy_bid)
      × Shifted ledger ledger_accounts alice alice
          (surplus finished_tx buy_bid)
          (pos 0 -ℤ surplus finished_tx buy_bid)
          opened
          t)
    × ledger_accounts.IsConsistent t
    × AllValid ledger ledger_accounts t
    × (holdings ledger ledger_accounts btc t everyone
        ≡ holdings ledger ledger_accounts btc opened everyone)
transaction_booking_conserves_example =
    transaction_booking_conserves ledger ledger_accounts btc everyone finished_tx (codes "t")
      buy_bid opened (Transaction.Accounting.book ledger finished_tx (codes "t") buy_bid opened).1
      everyone-Distinct alice-contained opened-IsConsistent opened-AllValid tx_booked-ok

tx_retired-ok : Transaction.Accounting.retire ledger finished_tx (codes "t") 950 opened ≡ (
  ok (retire_transaction ledger finished_tx),
  (Transaction.Accounting.retire ledger finished_tx (codes "t") 950 opened).1,
)
unfolding place_account_movement place_movement new_movement post validate apply get_account
    save_account receive_account save_movement new_cache ◌+ℤ◌ lookup wrap64 check_type balance
    set_balance can_apply add neg sub insert Currency-discrete Str-discrete ◌-ℤ◌
    Transaction.Accounting.retire TxPhase-discrete
tx_retired-ok = refl

transaction_retirement_conserves_example :
    let t = (Transaction.Accounting.retire ledger finished_tx (codes "t") 950 opened).1 in
    ((active ≡ active)
      × (900 ≤ 950)
      × (retire_transaction ledger finished_tx
          ≡ record finished_tx { state = retired; revision = pos 4 +64 pos 1 }))
    × Settlement ledger ledger_accounts finished_tx opened t
    × ledger_accounts.IsConsistent t
    × AllValid ledger ledger_accounts t
    × (holdings ledger ledger_accounts btc t everyone +ℤ fee_due btc finished_tx
        ≡ holdings ledger ledger_accounts btc opened everyone)
transaction_retirement_conserves_example =
    transaction_retirement_conserves ledger ledger_accounts btc everyone finished_tx
      (retire_transaction ledger finished_tx) (codes "t") 950 opened
      (Transaction.Accounting.retire ledger finished_tx (codes "t") 950 opened).1 everyone-Distinct
      bob-contained alice-contained opened-IsConsistent opened-AllValid (omega arith, omega arith)
      tx_retired-ok
