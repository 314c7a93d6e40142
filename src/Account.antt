-- ===== src/Account.antt =====
-- common/bitwrk/account.go: the two parts of a participant's account, and the account movements.
-- `PlaceAccountMovement` is in Account/Place.
pub mod Names
pub mod Place
pub mod Validate
pub mod Apply
pub mod Total
pub mod Conserve
pub mod Moves
use bitwrk.Base.{
  ◌≡◌, Bool, true, false, ◌&&◌, ◌||◌, Option, none, some, List, [], ◌∷◌, ℕ, Str, codes, str_eq,
  if◌then◌else◌, Result, ok, err, panic, ◌>>=◌, ◌>>◌, ensure, cant_apply, currencies_mixed,
  wrong_flow, invalid_movement_type, sum_not_zero, invalid_movement_name, different_currencies,
  Str-discrete,
}
use bitwrk.Int.{ℤ, pos, negsuc, ltb_ℤ, leb_ℤ, eqb_ℤ}
use bitwrk.Int64.{◌+64◌}
use bitwrk.Money.{Currency, Currency-discrete, currency_eq, Money, money}
use bitwrk.Dao.{
  ParticipantAccount, AccountMovementType, invalid, pay_in, pay_out, pay_out_reimburse, bid,
  bid_reimburse, transaction, transaction_finish, transaction_reimburse, AccountMovement,
}

-- `participantAccountPart`: which of its two amounts the pointer `balance` leads to.
pub data Part : Type 0 where
  available blocked : Part

unfoldable pub balance : Part → ParticipantAccount → ℤ
balance available a = a.available_amount
balance blocked a = a.blocked_amount

unfoldable pub set_balance : Part → ℤ → ParticipantAccount → ParticipantAccount
set_balance available b a = record a { available_amount = b }
set_balance blocked b a = record a { blocked_amount = b }

unfoldable pub get_balance : Part → ParticipantAccount → Money
unfolding balance
get_balance p a = money (balance p a) a.currency

unfoldable pub is_currency_mutable : ParticipantAccount → Bool
is_currency_mutable a = eqb_ℤ a.available_amount (pos 0) && eqb_ℤ a.blocked_amount (pos 0)

unfoldable pub can_apply : Part → Money → ParticipantAccount → Bool
unfolding balance is_currency_mutable
can_apply p delta a =
    (eqb_ℤ delta.amount (pos 0) || currency_eq a.currency delta.currency || is_currency_mutable a)
    && leb_ℤ (pos 0) (delta.amount +64 balance p a)

unfoldable pub apply : Part → Money → ParticipantAccount → Result ParticipantAccount
unfolding can_apply set_balance
apply p delta a =
    if can_apply p delta a
    then ok (
        if eqb_ℤ delta.amount (pos 0)
        then a
        else set_balance p (balance p a +64 delta.amount) (record a { currency = delta.currency }))
    else err cant_apply

-- `ParticipantAccountJSON`, the fields that an account is served with.
pub record ParticipantAccountJson : Type 0 where
  pub participant : Str
  pub last_movement_key : Option Str
  pub available : Money
  pub blocked : Money
  pub deposit_info : Str
  pub last_deposit_info : ℕ
  pub deposit_address_request : Str

-- `MarshalJSON`, up to the encoding of the fields.
unfoldable pub to_json : ParticipantAccount → ParticipantAccountJson
to_json a = record {
  participant = a.participant;
  last_movement_key = a.last_movement_key;
  available = money a.available_amount a.currency;
  blocked = money a.blocked_amount a.currency;
  deposit_info = a.deposit_info;
  last_deposit_info = a.last_deposit_info;
  deposit_address_request = a.deposit_address_request;
}

-- `UnmarshalJSON`, up to the decoding of the fields, into the account `a`.
unfoldable pub of_json : ParticipantAccountJson → ParticipantAccount → Result ParticipantAccount
of_json j a =
    if currency_eq j.blocked.currency j.available.currency
    then ok (record a {
      participant = j.participant;
      currency = j.available.currency;
      available_amount = j.available.amount;
      blocked_amount = j.blocked.amount;
      deposit_info = j.deposit_info;
      last_deposit_info = j.last_deposit_info;
      deposit_address_request = j.deposit_address_request;
    })
    else err different_currencies

unfoldable pub movement_type_string : AccountMovementType → Str
movement_type_string pay_in = codes "DEPOSIT"
movement_type_string pay_out = codes "WITHDRAWAL"
movement_type_string pay_out_reimburse = codes "WITHDRAWAL_REIMBURSE"
movement_type_string bid = codes "BID"
movement_type_string bid_reimburse = codes "BID_REIMBURSE"
movement_type_string transaction = codes "TRANSACTION"
movement_type_string transaction_finish = codes "TRANSACTION_FINISH"
movement_type_string transaction_reimburse = codes "TRANSACTION_REIMBURSE"
movement_type_string invalid = codes "<Invalid Account Movement Type: 0>"

-- The loop of `ParseAccountMovementType`.
unfoldable pub find_movement_type : Str → List AccountMovementType → Result AccountMovementType
unfolding movement_type_string
find_movement_type s [] = err invalid_movement_name
find_movement_type s (t ∷ ts) =
    let rest = find_movement_type s ts in if str_eq s (movement_type_string t) then ok t else rest

unfoldable pub parse_account_movement_type : Str → Result AccountMovementType
unfolding find_movement_type
parse_account_movement_type s = find_movement_type s (
    invalid ∷ pay_in ∷ pay_out ∷ pay_out_reimburse ∷ bid ∷ bid_reimburse ∷ transaction
    ∷ transaction_finish ∷ transaction_reimburse ∷ [])

-- `validateCurrency`; its results are the new currency and the error.
unfoldable pub validate_currency : Option Currency → Currency → Result Currency
validate_currency none other = ok other
validate_currency (some c) other = if currency_eq other c then ok c else err currencies_mixed

-- One of the four steps of `Validate`, on the currency and the sum so far.
unfoldable pub tally : Money → Option Currency × ℤ → Result (Option Currency × ℤ)
unfolding validate_currency
tally m (currency, sum) =
    if eqb_ℤ m.amount (pos 0)
    then ok (currency, sum)
    else (do c ← validate_currency currency m.currency; ok (some c, sum +64 m.amount))

unfoldable pub check_flow_direction : ℤ → ℤ → Result (Unit {0})
check_flow_direction op val =
    if ltb_ℤ op (negsuc 1) || ltb_ℤ (pos 2) op
    then panic
    else ensure
        (ltb_ℤ op (pos 0) && ltb_ℤ val (pos 0)
          || leb_ℤ (negsuc 0) op && (leb_ℤ op (pos 1) && eqb_ℤ val (pos 0))
          || ltb_ℤ (pos 0) op && ltb_ℤ (pos 0) val)
        wrong_flow

unfoldable pub check_cash_flow_direction : AccountMovement → ℤ → ℤ → ℤ → ℤ → Result (Unit {0})
unfolding check_flow_direction
check_cash_flow_direction m available_op blocked_op fee_op world_op = do
  check_flow_direction available_op m.available_delta.amount
  check_flow_direction blocked_op m.blocked_delta.amount
  check_flow_direction fee_op m.fee.amount
  check_flow_direction world_op m.world.amount

-- The `switch` of `Validate`.
unfoldable pub check_type : AccountMovementType → AccountMovement → Result (Unit {0})
unfolding check_cash_flow_direction
check_type bid m = check_cash_flow_direction m (negsuc 0) (pos 1) (pos 0) (pos 0)
check_type bid_reimburse m = check_cash_flow_direction m (pos 1) (negsuc 0) (pos 0) (pos 0)
check_type transaction m = check_cash_flow_direction m (pos 1) (negsuc 0) (pos 0) (pos 0)
check_type transaction_finish m = check_cash_flow_direction m (pos 1) (negsuc 0) (pos 1) (pos 0)
check_type transaction_reimburse m = check_cash_flow_direction m (pos 1) (negsuc 0) (pos 0) (pos 0)
check_type pay_in m = check_cash_flow_direction m (pos 2) (pos 0) (pos 0) (negsuc 1)
check_type pay_out m = check_cash_flow_direction m (negsuc 1) (pos 0) (pos 0) (pos 2)
check_type _ m = err invalid_movement_type

unfoldable pub validate : AccountMovement → Result (Unit {0})
unfolding tally check_type
validate m = do
  t₁ ← tally m.available_delta (none, pos 0)
  t₂ ← tally m.blocked_delta t₁
  t₃ ← tally m.fee t₂
  t₄ ← tally m.world t₃
  check_type m.movement_type m
  ensure (eqb_ℤ t₄.1 (pos 0)) sum_not_zero

-- `MustValidate`
unfoldable pub must_validate : AccountMovement → Result (Unit {0})
unfolding validate
must_validate m = elim (validate m) [ ok u ↦ ok u | err _ ↦ panic | panic ↦ panic ]
