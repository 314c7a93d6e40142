-- ===== src/Tests/Codecs.antt =====
-- Concrete records that are saved and loaded.
use bitwrk.Base.{◌≡◌, refl, true, some, none, [], Str, codes, ok, ◌>>=◌}
use bitwrk.Int.{pos}
use bitwrk.Money.{usd, money, btc}
use bitwrk.Bid.{Bid}
use bitwrk.Dao.{ParticipantAccount, AccountMovement, Deposit, Relation, bitcoin, works_for}
use bitwrk.Dao.Cached.{zero_movement}
use bitwrk.Transaction.{Transaction}
use bitwrk.Gae.Store.{Keys}
use bitwrk.Gae.Codec.Bids.{save_bid, load_bid, zero_bid, load_bid-save}
use bitwrk.Gae.Codec.Transactions.{save_tx, load_tx, zero_tx}
use bitwrk.Gae.Codec.Transactions.Loaded.{load_tx-save}
use bitwrk.Gae.Codec.Accounts.{
  save_account_properties, load_account, zero_account, load_account-save,
}
use bitwrk.Gae.Codec.Deposits.{save_deposit_properties, load_deposit, load_deposit-save}
use bitwrk.Gae.Codec.Relations.{save_relation_properties, load_relation, load_relation-save}
use bitwrk.Gae.Codec.Movements.{save_movement_properties, load_movement}
use bitwrk.Gae.Codec.Movements.Loaded.{stored_form}
use bitwrk.Gae.Codec.Movements.Whole.{load_movement-save}
use bitwrk.Tests.Records.{alice, bob, asked, made, rich, deposit_made}
use bitwrk.Tests.Runs.{lenient}

-- Keys that are their names.
abbrev pub named : Keys
named = record {
  Key = Str;
  encode = λ k. k;
  decode = some;
  new_key = λ kind name n parent. name;
  string_id = λ k. k;
}

abbrev in_dollars : Bid
in_dollars = record asked {
  price = money (pos 5) usd;
  fee = money (pos 1) usd;
  transaction = some (codes "tx");
}

load_bid-save_example :
    (save_bid named in_dollars >>= λ ps. load_bid named ps zero_bid) ≡ ok in_dollars
load_bid-save_example =
    load_bid-save named in_dollars (some (codes "tx")) (λ k. refl) tt tt refl refl

abbrev sealed : Transaction
sealed = record made {
  worker_url = some (codes "http://bob/");
  work_hash = some (codes "01234567890123456789012345678901");
  encrypted_result_receipt = some (record {
    hash = codes "01234567890123456789012345678901";
    hash_signature = codes "01234567890123456789012345678901012345678901234567890123456789010";
  });
  result_decryption_key = some (codes "01234567890123456789012345678901");
}

load_tx-save_example :
    (save_tx named lenient sealed >>= λ ps. load_tx named lenient ps zero_tx) ≡ ok sealed
load_tx-save_example =
    load_tx-save named lenient sealed (codes "b") (codes "s") (λ k. refl)
      (record {
        known = tt;
        currencies = refl;
        url = refl;
        hash = refl;
        secret_hash = tt;
        secret = tt;
        receipt = (refl, refl, refl);
      })
      refl refl

abbrev informed : ParticipantAccount
informed = record rich {
  last_movement_key = some (codes "m");
  deposit_info = codes "address";
  last_deposit_info = 9;
}

load_account-save_example :
    (save_account_properties named informed >>= λ ps. load_account named ps zero_account)
    ≡ ok informed
load_account-save_example =
    load_account-save named informed (some (codes "m")) (λ k. refl) tt tt refl

abbrev across : AccountMovement
across = record deposit_made {
  key = none;
  available_account = alice;
  available_predecessor_key = some (codes "p");
  blocked_account = bob;
  blocked_predecessor_key = some (codes "q");
  bid_key = some (codes "b");
}

load_movement-save_example :
    (save_movement_properties named across >>= λ ps. load_movement named ps zero_movement)
    ≡ ok (stored_form across)
load_movement-save_example =
    load_movement-save named (some (codes "p")) (some (codes "q")) (some (codes "b")) none across
      (λ k. refl) (λ kind name. refl) tt refl

abbrev coins : Deposit
coins = record {
  deposit_type = bitcoin;
  account = alice;
  amount = money (pos 5) usd;
  created = 3;
  document = [];
  reference = [];
  signature = [];
}

load_deposit-save_example :
    load_deposit named
      (save_deposit_properties named coins)
      (record coins { account = bob; amount = money (pos 9) btc })
    ≡ ok coins
load_deposit-save_example =
    load_deposit-save named coins (record coins { account = bob; amount = money (pos 9) btc }) tt

abbrev trusted : Relation
trusted = record {
  source = alice;
  target = bob;
  enabled = true;
  last_modified = 3;
  document = [];
  signature = [];
  relation_type = works_for;
}

load_relation-save_example :
    load_relation named (save_relation_properties named trusted) (record trusted { target = alice })
    ≡ ok trusted
load_relation-save_example = load_relation-save named trusted (record trusted { target = alice })
