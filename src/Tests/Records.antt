-- ===== src/Tests/Records.antt =====
-- Concrete bids, movements, accounts and a cache.
use bitwrk.Base.{
  ◌≡◌, ◌+◌, ◌*◌, refl, true, none, some, [], Str, Str-discrete, codes, str_eq, lookup, insert,
  erase, if◌then◌else◌, arith, ok,
}
use bitwrk.Int.{pos, negsuc, ◌+ℤ◌}
use bitwrk.Int64.{wrap64}
use bitwrk.Money.{btc, money, Currency, Currency-discrete}
use bitwrk.Dao.{ParticipantAccount, AccountMovement, pay_in}
use bitwrk.Dao.Cached.{
  Cache, fresh_account, zero_movement, keys, new_cache, save_account, get_account, flush_accounts,
  flush_deposits, flush_movements, flush,
}
use bitwrk.Dao.Cached.Reads.{Named, seen, save_account-Read, read_your_writes}
use bitwrk.Dao.Cached.{get_movement, save_movement, get_deposit, save_deposit, zero_deposit}
use bitwrk.Dao.Cached.Marks.{Marked, operations-Marked}
use bitwrk.Dao.Cached.Flush.{AllCached, flush_lem}
use bitwrk.Account.{available, apply, validate, balance, set_balance, can_apply, check_type}
use bitwrk.Account.Validate.{in_currency, validate_balances}
use bitwrk.Account.Apply.{IsValid, worth, apply_lem}
use bitwrk.Account.Total.{contains}
use bitwrk.Bid.{Bid, buy, sell, placed, in_queue, matched, bid_match_key}
use bitwrk.Transaction.{Transaction, establishing, active, tx_match_key}
use bitwrk.Transaction.Messages.{second}
use bitwrk.Transaction.Accounting.{BidType-discrete, match_bid, transaction_of, new_transaction}
use bitwrk.Transaction.Accounting.Matching.{Match, new_transaction_lem, new_transaction-total}
use bitwrk.Tests.Shelf.{shelf, shelf_storage}

abbrev pub alice : Str
alice = codes "alice"

abbrev pub bob : Str
bob = codes "bob"

abbrev pub rich : ParticipantAccount
rich = record (fresh_account alice) { available_amount = pos 500 }

rich-IsValid : IsValid rich
rich-IsValid = record {
  available_nonneg = omega arith;
  available_fits = omega arith;
  blocked_nonneg = omega arith;
  blocked_fits = omega arith;
}

abbrev poorer : ParticipantAccount
poorer = record (fresh_account alice) { available_amount = pos 380 }

applied-ok : apply available (money (negsuc 119) btc) rich ≡ ok poorer
unfolding apply can_apply balance set_balance wrap64 ◌+ℤ◌ Currency-discrete
applied-ok = refl

apply_lem_example :
    IsValid poorer
    × (alice ≡ alice)
    × ((c : Currency) → worth c poorer ≡ worth c rich +ℤ in_currency c (money (negsuc 119) btc))
apply_lem_example =
    apply_lem available (money (negsuc 119) btc) rich poorer rich-IsValid (omega arith) applied-ok

abbrev pub deposit_made : AccountMovement
deposit_made = record zero_movement {
  movement_type = pay_in;
  available_delta = money (pos 100) btc;
  available_account = alice;
  blocked_account = alice;
  world = money (negsuc 99) btc;
  deposit_key = some (codes "d");
}

deposit_made-ok : validate deposit_made ≡ ok tt
unfolding validate check_type wrap64 ◌+ℤ◌ Currency-discrete
deposit_made-ok = refl

validate_balances_example :
    in_currency btc deposit_made.available_delta
      +ℤ in_currency btc deposit_made.blocked_delta
      +ℤ (in_currency btc deposit_made.fee +ℤ in_currency btc deposit_made.world)
    ≡ pos 0
validate_balances_example =
    validate_balances deposit_made btc (omega arith, omega arith, omega arith, omega arith)
      deposit_made-ok

abbrev emptied : Cache shelf
emptied = new_cache shelf [] true

abbrev filled : Cache shelf
filled = (save_account shelf rich emptied).1

filled-ok : save_account shelf rich emptied ≡ (ok tt, filled)
unfolding save_account new_cache insert Str-discrete
filled-ok = refl

read_your_writes_example :
    (get_account shelf alice filled ≡ (ok rich, filled))
    × ((q : Str)
        → seen shelf shelf_storage filled q
          ≡ (if str_eq q alice then rich else seen shelf shelf_storage emptied q))
read_your_writes_example = read_your_writes shelf shelf_storage rich emptied filled filled-ok

emptied-Named : Named shelf shelf_storage emptied
unfolding new_cache lookup
emptied-Named p a h = absurd (cc)

filled-Named : Named shelf shelf_storage filled
filled-Named = (save_account-Read shelf shelf_storage rich emptied filled emptied-Named filled-ok).0

filled-AllCached : AllCached (keys filled.saved_accounts) filled.accounts
unfolding save_account new_cache insert lookup Str-discrete
filled-AllCached = ((rich, refl), tt)

flushed-ok : flush shelf filled ≡ (ok tt, (flush shelf filled).1)
unfolding flush flush_accounts flush_deposits flush_movements save_account new_cache insert lookup
    erase Str-discrete
flushed-ok = refl

flush_lem_example :
    let t = (flush shelf filled).1 in
    ((q : Str)
      → shelf_storage.find t.delegate q ≡ (
          if contains q (keys filled.saved_accounts)
          then lookup q filled.accounts
          else shelf_storage.find filled.delegate q))
    × ((q : Str) → lookup q t.saved_accounts ≡ none)
flush_lem_example =
    flush_lem shelf shelf_storage filled (flush shelf filled).1 filled-Named filled-AllCached
      flushed-ok

abbrev pub asked : Bid
asked = record {
  bid_type = sell;
  state = in_queue;
  article = codes "fnord";
  price = money (pos 900) btc;
  fee = money (pos 27) btc;
  participant = bob;
  document = [];
  signature = [];
  created = 5;
  expires = 1_000;
  matched_at = none;
  transaction = none;
}

abbrev wanted : Bid
wanted = record asked {
  bid_type = buy;
  state = placed;
  price = money (pos 1_000) btc;
  fee = money (pos 30) btc;
  participant = alice;
}

abbrev pub made : Transaction
made = transaction_of 7 (codes "b") wanted (codes "s") asked wanted

made-ok :
    new_transaction 7 (codes "s") (codes "b") asked wanted
    ≡ ok (made, match_bid 7 asked, match_bid 7 wanted)
unfolding new_transaction BidType-discrete Currency-discrete Str-discrete
made-ok = refl

abbrev sold : Bid
sold = match_bid 7 asked

abbrev bought : Bid
bought = match_bid 7 wanted

new_transaction_lem_example :
    Match 7 asked wanted
    × ((made.price ≡ wanted.price) × (made.fee ≡ wanted.fee))
    × ((made.buyer ≡ alice) × (made.seller ≡ bob))
    × ((made.phase ≡ establishing)
        × (made.state ≡ active)
        × (made.matched_at ≡ 7)
        × (made.timeout ≡ 7 + 60 * second))
    × ((tx_match_key made ≡ bid_match_key wanted) × (bid_match_key wanted ≡ bid_match_key asked))
    × ((sold ≡ record asked { matched_at = some 7; state = matched })
        × (bought ≡ record wanted { matched_at = some 7; state = matched }))
new_transaction_lem_example =
    new_transaction_lem 7 (codes "s") (codes "b") asked wanted made sold bought made-ok

operations-Marked_example :
    Marked shelf emptied
    × (Marked shelf (get_account shelf bob filled).1
        × Marked shelf (save_account shelf rich filled).1)
    × (Marked shelf (get_movement shelf bob filled).1
        × Marked shelf (save_movement shelf zero_movement filled).1)
    × (Marked shelf (get_deposit shelf bob filled).1
        × Marked shelf (save_deposit shelf bob zero_deposit filled).1)
operations-Marked_example =
    operations-Marked shelf bob bob bob rich zero_movement zero_deposit [] true filled
      filled-AllCached

asked-Match : Match 7 asked wanted
asked-Match =
    (new_transaction_lem 7 (codes "s") (codes "b") asked wanted made sold bought made-ok).0

new_transaction-total_example :
    (tx : Transaction) × (new_transaction 7 (codes "s") (codes "b") asked wanted
      ≡ ok (
        tx,
        record asked { matched_at = some 7; state = matched },
        record wanted { matched_at = some 7; state = matched },
      ))
    × ((tx.buyer_bid ≡ codes "b") × (tx.seller_bid ≡ codes "s"))
    × ((tx.buyer ≡ alice) × (tx.seller ≡ bob))
    × ((tx.price ≡ wanted.price) × (tx.fee ≡ wanted.fee) × (tx.article ≡ wanted.article))
new_transaction-total_example =
    new_transaction-total 7 (codes "s") (codes "b") asked wanted asked-Match
