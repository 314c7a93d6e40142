-- ===== src/Deposit.antt =====
-- common/bitwrk/deposit.go: how deposits are parsed and placed. `Deposit` itself is in Dao.
pub mod Placement
use bitwrk.Base.{
  ℕ, ◌+◌, ◌-◌, ◌*◌, ◌≡◌, Bool, true, false, not, ◌&&◌, ◌||◌, Option, none, some, List, [], ◌∷◌, Str,
  codes, str_eq, length, is_digit, all_bytes, leb, ltb, ◌==◌, if◌then◌else◌, Error, Result, ok, err,
  panic, ◌>>=◌, ◌>>◌, ensure, Action, bind, lift, no_such_object, bad_number, bad_deposit_type,
  non_positive_deposit, bad_uid_length, bad_ref_length, bad_uid_char, bad_ref_char,
  different_deposit,
}
use bitwrk.Int.{ℤ, pos, negsuc, leb_ℤ, ltb_ℤ, eqb_ℤ, sub_ℕ}
use bitwrk.Money.{Money, money, currency_eq, neg}
use bitwrk.Money.Parse.{parse}
use bitwrk.Query.{normalize, query}
use bitwrk.Dao.{Dao, Deposit, DepositType, injection, bitcoin, AccountMovementType, pay_in, pay_out}
use bitwrk.Account.Place.{place_account_movement}
use bitwrk.Bid.Accounting.{zero_money}

abbrev pub digits_value : ℕ → Str → Option ℕ
digits_value n [] = some n
digits_value n (c ∷ s) = if is_digit c then digits_value (n * 10 + (c - b'0')) s else none

-- The digits of a number that is not empty, behind its sign.
abbrev pub some_digits : Str → Option ℕ
some_digits [] = none
some_digits (c ∷ s) = digits_value 0 (c ∷ s)

abbrev pub non_negative : Option ℕ → Result ℤ
non_negative none = err bad_number
non_negative (some n) = if ltb n 128 then ok (pos n) else err bad_number

abbrev pub non_positive : Option ℕ → Result ℤ
non_positive none = err bad_number
non_positive (some n) = if leb n 128 then ok (sub_ℕ 0 n) else err bad_number

-- `strconv.ParseInt(s, 10, 8)`
unfoldable pub parse_int8 : Str → Result ℤ
parse_int8 [] = err bad_number
parse_int8 (c ∷ s) =
    if c == b'-'
    then non_positive (some_digits s)
    else if c == b'+'
    then non_negative (some_digits s)
    else non_negative (some_digits (c ∷ s))

unfoldable pub parse_deposit_type : Str → Result DepositType
unfolding parse_int8
parse_deposit_type s = do
  n ← parse_int8 s
  ensure (leb_ℤ (pos 0) n && leb_ℤ n (pos 1)) bad_deposit_type
  ok (if eqb_ℤ n (pos 0) then injection else bitcoin)

abbrev pub is_injection : DepositType → Bool
is_injection injection = true
is_injection bitcoin = false

abbrev pub is_plain : ℕ → Bool
is_plain c = leb b'a' c && leb c b'z' || (leb b'A' c && leb c b'Z' || (is_digit c || c == b'-'))

unfoldable pub deposit_document : Str → Str → Str → Str → Str → Str → Str
unfolding normalize query
deposit_document account amount nonce ref deposit_type uid = query (
    (codes "account", normalize account)
    ∷ (codes "amount", normalize amount)
    ∷ (codes "nonce", normalize nonce)
    ∷ (codes "ref", normalize ref)
    ∷ (codes "type", normalize deposit_type)
    ∷ (codes "uid", normalize uid)
    ∷ [])

-- `ParseDeposit`, at the time `now`.
unfoldable pub parse_deposit : ℕ → Str → Str → Str → Str → Str → Str → Str → Result Deposit
unfolding parse parse_deposit_type all_bytes deposit_document
parse_deposit now deposit_type account amount nonce uid ref signature = do
  value ← parse amount
  kind ← parse_deposit_type deposit_type
  ensure (is_injection kind || ltb_ℤ (pos 0) value.amount) non_positive_deposit
  ensure (leb 8 (length uid) && leb (length uid) 64) bad_uid_length
  ensure (leb (length ref) 64) bad_ref_length
  ensure (all_bytes is_plain uid) bad_uid_char
  ensure (all_bytes is_plain ref) bad_ref_char
  ok (record {
    deposit_type = kind;
    amount = value;
    account = account;
    reference = ref;
    document = deposit_document account amount nonce ref deposit_type uid;
    signature = signature;
    created = now;
  })

abbrev pub same_type : DepositType → DepositType → Bool
same_type injection injection = true
same_type bitcoin bitcoin = true
same_type _ _ = false

-- `Equals`, on the values that the pointers lead to.
unfoldable pub deposit_equals : Deposit → Deposit → Bool
deposit_equals x y =
    str_eq x.account y.account
    && (eqb_ℤ x.amount.amount y.amount.amount
        && (currency_eq x.amount.currency y.amount.currency
            && (str_eq x.reference y.reference && same_type x.deposit_type y.deposit_type)))

-- A negative injection is treated like a withdrawal.
abbrev pub placement_type : Deposit → AccountMovementType
placement_type x =
    if ltb_ℤ x.amount.amount (pos 0) && is_injection x.deposit_type then pay_out else pay_in

module _ (d : Dao) where
  open d use {State, get_deposit, save_deposit}

  abbrev pub credit : Deposit → Str → Action State (Unit {0})
  credit x uid =
      place_account_movement d x.created (placement_type x) x.account x.account x.amount
        (zero_money x.amount) (zero_money x.amount) (neg x.amount) none none (some uid) none

  abbrev pub place_new : Deposit → Str → Action State (Unit {0})
  place_new x uid = bind (credit x uid) (λ _. save_deposit uid x)

  -- What `Place` does when it has looked for a deposit with the uid.
  unfoldable pub place_after : Deposit → Str → Result Deposit → Action State (Unit {0})
  unfolding deposit_equals
  place_after x uid (ok previous) =
      lift (if deposit_equals previous x then ok tt else err different_deposit)
  place_after x uid (err no_such_object) = place_new x uid
  place_after x uid (err e) = lift (err e)
  place_after x uid panic = lift panic

  -- `Place`
  unfoldable pub place_deposit : Deposit → Str → Action State (Unit {0})
  unfolding place_after
  place_deposit x uid s = let (r, t) = get_deposit uid s in place_after x uid r t
