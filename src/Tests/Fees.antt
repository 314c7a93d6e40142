-- ===== src/Tests/Fees.antt =====
-- The fee of a concrete bid.
use bitwrk.Base.{ℕ, ◌+◌, ◌*◌, ◌≤◌, ◌<◌, ◌≡◌, refl, none, codes, arith, ok}
use bitwrk.Int.{pos, ◌+ℤ◌, ◌-ℤ◌, ◌*ℤ◌}
use bitwrk.Int64.{wrap64, quot64}
use bitwrk.Money.{Money, btc, money}
use bitwrk.Bid.{Bid, NewBidDefaults, buy, in_queue, fee_amount, new_bid}
use bitwrk.Bid.Fee.{new_bid-fee}

-- Three percent.
abbrev defaults : NewBidDefaults
defaults = record {
  initial_state = in_queue;
  fee_ratio_numerator = pos 3;
  fee_ratio_denominator = pos 100;
  timeout = 120;
}

abbrev asked : Money
asked = money (pos 1_010) btc

abbrev placed_bid : Bid
placed_bid = record {
  bid_type = buy;
  state = in_queue;
  article = codes "fnord";
  price = asked;
  fee = money (pos 31) btc;
  participant = codes "alice";
  document = codes "document";
  signature = codes "signature";
  created = 7;
  expires = 127;
  matched_at = none;
  transaction = none;
}

placed_bid-ok :
    new_bid 7 buy
      (codes "fnord")
      asked
      (codes "alice")
      (codes "document")
      (codes "signature")
      defaults
    ≡ ok placed_bid
unfolding new_bid fee_amount quot64 wrap64 ◌+ℤ◌ ◌-ℤ◌ ◌*ℤ◌
placed_bid-ok = refl

new_bid-fee_example :
    (placed_bid.price ≡ asked)
    × ((placed_bid.state ≡ in_queue) × (placed_bid.expires ≡ 7 + 120))
    × ((p : ℕ) × (f : ℕ) × (asked.amount ≡ pos p)
        × (placed_bid.fee ≡ money (pos f) btc)
        × (3 * p ≤ f * 100)
        × (f * 100 < 3 * p + 100))
new_bid-fee_example =
    new_bid-fee 7 buy (codes "fnord") asked (codes "alice") (codes "document") (codes "signature")
      defaults placed_bid 3 100 refl refl (omega arith) (omega arith) placed_bid-ok
