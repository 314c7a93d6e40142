-- ===== src/Gae/Codec/Numbers.antt =====
-- The numbers and names by which the codecs of server/gae/gae_codec.go store constants.
use bitwrk.Base.{
  zero, suc, ◌≡◌, refl, List, [], ◌∷◌, Str, Str-discrete, Result, ok, err, panic,
  bad_number_of_kind,
}
use bitwrk.Int.{ℤ, pos, negsuc}
use bitwrk.Money.{
  Currency, btc, eur, usd, brl, gbp, other_currency, currency_string, parse_currency,
}
use bitwrk.Dao.{
  AccountMovementType, invalid, pay_in, pay_out, pay_out_reimburse, bid, bid_reimburse, transaction,
  transaction_finish, transaction_reimburse, DepositType, injection, bitcoin, RelationType, trusts,
  works_for,
}
use bitwrk.Bid.{BidType, buy, sell, other_bid_type, BidState, in_queue, placed, matched, expired}
use bitwrk.Transaction.{
  TxPhase, establishing, buyer_established, seller_established, transmitting, working, unverified,
  finished, work_disputed, result_disputed, TxState, active, retired,
}

-- A conversion of an int64 to a type of constants, which are numbered from zero. Other numbers, for
-- which the type has no constant, are outside of the model: `bad_number_of_kind`.
abbrev pub numbered {ℓ} : {A : Type ℓ} → List A → ℤ → Result A
numbered [] n = err bad_number_of_kind
numbered (x ∷ xs) (pos zero) = ok x
numbered (x ∷ xs) (pos (suc n)) = numbered xs (pos n)
numbered (x ∷ xs) (negsuc n) = err bad_number_of_kind

unfoldable pub bid_type_number : BidType → ℤ
bid_type_number buy = pos 0
bid_type_number sell = pos 1
bid_type_number (other_bid_type n) = pos n

unfoldable pub bid_type_of : ℤ → Result BidType
bid_type_of n = numbered (buy ∷ sell ∷ []) n

unfoldable pub bid_state_number : BidState → ℤ
bid_state_number in_queue = pos 0
bid_state_number placed = pos 1
bid_state_number matched = pos 2
bid_state_number expired = pos 3

unfoldable pub bid_state_of : ℤ → Result BidState
bid_state_of n = numbered (in_queue ∷ placed ∷ matched ∷ expired ∷ []) n

unfoldable pub tx_state_number : TxState → ℤ
tx_state_number active = pos 0
tx_state_number retired = pos 1

unfoldable pub tx_state_of : ℤ → Result TxState
tx_state_of n = numbered (active ∷ retired ∷ []) n

unfoldable pub phase_number : TxPhase → ℤ
phase_number establishing = pos 0
phase_number buyer_established = pos 1
phase_number seller_established = pos 2
phase_number transmitting = pos 3
phase_number working = pos 4
phase_number unverified = pos 5
phase_number finished = pos 6
phase_number work_disputed = pos 7
phase_number result_disputed = pos 8

unfoldable pub phase_of : ℤ → Result TxPhase
phase_of n =
    numbered
      (establishing ∷ buyer_established ∷ seller_established ∷ transmitting ∷ working ∷ unverified
        ∷ finished ∷ work_disputed ∷ result_disputed ∷ [])
      n

unfoldable pub movement_type_number : AccountMovementType → ℤ
movement_type_number invalid = pos 0
movement_type_number pay_in = pos 1
movement_type_number pay_out = pos 2
movement_type_number pay_out_reimburse = pos 3
movement_type_number bid = pos 4
movement_type_number bid_reimburse = pos 5
movement_type_number transaction = pos 6
movement_type_number transaction_finish = pos 7
movement_type_number transaction_reimburse = pos 8

unfoldable pub movement_type_of : ℤ → Result AccountMovementType
movement_type_of n =
    numbered
      (invalid ∷ pay_in ∷ pay_out ∷ pay_out_reimburse ∷ bid ∷ bid_reimburse ∷ transaction
        ∷ transaction_finish ∷ transaction_reimburse ∷ [])
      n

unfoldable pub deposit_type_number : DepositType → ℤ
deposit_type_number injection = pos 0
deposit_type_number bitcoin = pos 1

unfoldable pub deposit_type_of : ℤ → Result DepositType
deposit_type_of n = numbered (injection ∷ bitcoin ∷ []) n

unfoldable pub relation_type_number : RelationType → ℤ
relation_type_number trusts = pos 1
relation_type_number works_for = pos 2

unfoldable pub relation_type_of : ℤ → Result RelationType
relation_type_of (pos (suc n)) = numbered (trusts ∷ works_for ∷ []) (pos n)
relation_type_of n = err bad_number_of_kind

-- `Currency.MustParse`
unfoldable pub must_parse_currency : Str → Result Currency
unfolding parse_currency
must_parse_currency s = elim (parse_currency s) [ ok c ↦ ok c | err _ ↦ panic | panic ↦ panic ]

-- A type that the program makes bids of.
abbrev pub IsProper : BidType → Type 0
IsProper (other_bid_type n) = ⊥
IsProper _ = Unit

-- A currency that has a constant.
abbrev pub IsKnown : Currency → Type 0
IsKnown (other_currency n) = ⊥
IsKnown _ = Unit

pub bid_type_of-number : (t : BidType) → IsProper t → bid_type_of (bid_type_number t) ≡ ok t
unfolding bid_type_of bid_type_number
bid_type_of-number buy h = refl
bid_type_of-number sell h = refl
bid_type_of-number (other_bid_type n) h = absurd h

pub bid_state_of-number : (s : BidState) → bid_state_of (bid_state_number s) ≡ ok s
unfolding bid_state_of bid_state_number
bid_state_of-number in_queue = refl
bid_state_of-number _ = refl

pub tx_state_of-number : (s : TxState) → tx_state_of (tx_state_number s) ≡ ok s
unfolding tx_state_of tx_state_number
tx_state_of-number active = refl
tx_state_of-number retired = refl

pub phase_of-number : (p : TxPhase) → phase_of (phase_number p) ≡ ok p
unfolding phase_of phase_number
phase_of-number establishing = refl
phase_of-number _ = refl

pub movement_type_of-number :
    (t : AccountMovementType) → movement_type_of (movement_type_number t) ≡ ok t
unfolding movement_type_of movement_type_number
movement_type_of-number invalid = refl
movement_type_of-number _ = refl

pub deposit_type_of-number : (t : DepositType) → deposit_type_of (deposit_type_number t) ≡ ok t
unfolding deposit_type_of deposit_type_number
deposit_type_of-number injection = refl
deposit_type_of-number bitcoin = refl

pub relation_type_of-number : (t : RelationType) → relation_type_of (relation_type_number t) ≡ ok t
unfolding relation_type_of relation_type_number
relation_type_of-number trusts = refl
relation_type_of-number works_for = refl

pub must_parse_currency-string :
    (c : Currency) → IsKnown c → must_parse_currency (currency_string c) ≡ ok c
unfolding must_parse_currency parse_currency currency_string Str-discrete
must_parse_currency-string btc h = refl
must_parse_currency-string eur h = refl
must_parse_currency-string usd h = refl
must_parse_currency-string brl h = refl
must_parse_currency-string gbp h = refl
must_parse_currency-string (other_currency n) h = absurd h
