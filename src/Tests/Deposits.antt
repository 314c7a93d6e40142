-- ===== src/Tests/Deposits.antt =====
-- Deposits that are placed on a concrete ledger, and names that are read back.
use bitwrk.Base.{◌≡◌, refl, Str, Str-discrete, codes, lookup, insert, arith, ok}
use bitwrk.Int.{pos, ◌+ℤ◌, ◌-ℤ◌}
use bitwrk.Int64.{wrap64}
use bitwrk.Money.{btc, money, add, sub, neg, Currency-discrete}
use bitwrk.Dao.{Deposit, bitcoin, trusts, bid}
use bitwrk.Dao.Cached.{
  get_account, save_account, receive_account, save_movement, new_cache, get_deposit, save_deposit,
  receive_deposit, zero_deposit,
}
use bitwrk.Account.{
  apply, validate, check_type, balance, set_balance, can_apply, movement_type_string,
  parse_account_movement_type,
}
use bitwrk.Account.Place.{post, place_movement, place_account_movement, new_movement}
use bitwrk.Account.Conserve.{AllValid}
use bitwrk.Account.Names.{parse_account_movement_type-string}
use bitwrk.Deposit.{place_deposit, place_after}
use bitwrk.Deposit.Placement.{Placed, place_deposit-idempotent, place_deposit-Placed}
use bitwrk.Relation.{
  marshal_relation_type, unmarshal_relation_type, unmarshal_relation_type-marshal,
}
use bitwrk.Transaction.{working, marshal_phase, unmarshal_phase}
use bitwrk.Transaction.Names.{unmarshal_phase-marshal}
use bitwrk.Tests.Shelf.{shelf}
use bitwrk.Tests.Ledgers.{
  alice, ledger, ledger_accounts, opened, opened-IsConsistent, opened-AllValid, everyone,
  everyone-Distinct, alice-contained,
}

abbrev coins : Deposit
coins = record zero_deposit {
  deposit_type = bitcoin;
  amount = money (pos 700) btc;
  account = alice;
  created = 7;
}

abbrev uid : Str
uid = codes "deposit-1"

placed-ok :
    place_deposit ledger coins uid opened ≡ (ok tt, (place_deposit ledger coins uid opened).1)
unfolding place_deposit place_after get_deposit save_deposit receive_deposit place_account_movement
    place_movement new_movement post validate apply get_account save_account receive_account
    save_movement new_cache ◌+ℤ◌ lookup wrap64 check_type balance set_balance can_apply add neg sub
    insert Currency-discrete Str-discrete ◌-ℤ◌
placed-ok = refl

place_deposit-idempotent_example :
    place_deposit ledger coins uid (place_deposit ledger coins uid opened).1
    ≡ (ok tt, (place_deposit ledger coins uid opened).1)
place_deposit-idempotent_example =
    place_deposit-idempotent shelf coins uid opened (place_deposit ledger coins uid opened).1
      placed-ok

place_deposit-Placed_example :
    let t = (place_deposit ledger coins uid opened).1 in
    ledger_accounts.IsConsistent t
    × AllValid ledger ledger_accounts t
    × Placed ledger ledger_accounts btc everyone coins (ledger.get_deposit uid opened).0 opened t
place_deposit-Placed_example =
    place_deposit-Placed ledger ledger_accounts btc everyone coins uid opened
      (place_deposit ledger coins uid opened).1 everyone-Distinct alice-contained
      opened-IsConsistent opened-AllValid (omega arith) placed-ok

unmarshal_relation_type-marshal_example :
    unmarshal_relation_type (marshal_relation_type trusts) ≡ ok trusts
unmarshal_relation_type-marshal_example = unmarshal_relation_type-marshal trusts

unmarshal_phase-marshal_example : unmarshal_phase (marshal_phase working) ≡ ok working
unmarshal_phase-marshal_example = unmarshal_phase-marshal working

parse_account_movement_type-string_example :
    parse_account_movement_type (movement_type_string bid) ≡ ok bid
parse_account_movement_type-string_example = parse_account_movement_type-string bid
