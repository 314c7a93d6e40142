-- ===== src/Transaction.antt =====
-- common/bitwrk/transaction.go: the data of a transaction and its phases. The messages that drive a
-- transaction are in Transaction/Messages, its bookkeeping is in Transaction/Accounting.
pub mod Handlers
pub mod Names
pub mod Messages
pub mod Accounting
use bitwrk.Base.{
  ℕ, ◌≡◌, Bool, true, false, Option, none, some, Str, codes, str_eq, if◌then◌else◌, ◌++◌, Result,
  ok, err, panic, List, [], ◌∷◌, invalid_phase, invalid_phase_json,
}
use bitwrk.Int.{ℤ}
use bitwrk.Money.{Money, currency_string}
use bitwrk.Money.Parse.{unquote}

pub data Origin : Type 0 where
  from_buyer from_seller from_unknown : Origin

pub data TxPhase : Type 0 where
  establishing buyer_established seller_established transmitting working unverified finished :
      TxPhase
  work_disputed result_disputed : TxPhase

pub data TxState : Type 0 where
  active retired : TxState

pub record Receipt : Type 0 where
  pub hash : Str
  pub hash_signature : Str

-- `[32]byte` and `[65]byte` arrays are strings of that length; a nil pointer is `none`.
pub record Transaction : Type 0 where
  pub revision : ℤ
  pub buyer_bid : Str
  pub seller_bid : Str
  pub buyer : Str
  pub seller : Str
  pub article : Str
  pub price : Money
  pub fee : Money
  pub matched_at : ℕ
  pub state : TxState
  pub phase : TxPhase
  pub timeout : ℕ
  pub worker_url : Option Str
  pub work_hash : Option Str
  pub work_secret_hash : Option Str
  pub buyer_secret : Option Str
  pub encrypted_result_receipt : Option Receipt
  pub result_decryption_key : Option Str

abbrev pub is_active : TxState → Bool
is_active active = true
is_active retired = false

unfoldable pub TxPhase-discrete : Discrete TxPhase
TxPhase-discrete = hlevel

abbrev pub phase_eq : TxPhase → TxPhase → Bool
phase_eq p q = elim (TxPhase-discrete p q) [ yes _ ↦ true | no _ ↦ false ]

unfoldable pub origin_string : Origin → Str
origin_string from_buyer = codes "Buyer"
origin_string from_seller = codes "Seller"
origin_string from_unknown = codes "Unknown"

unfoldable pub phase_string : TxPhase → Str
phase_string establishing = codes "ESTABLISHING"
phase_string buyer_established = codes "BUYER_ESTABLISHED"
phase_string seller_established = codes "SELLER_ESTABLISHED"
phase_string transmitting = codes "TRANSMITTING"
phase_string working = codes "WORKING"
phase_string unverified = codes "UNVERIFIED"
phase_string finished = codes "FINISHED"
phase_string work_disputed = codes "WORK_DISPUTED"
phase_string result_disputed = codes "RESULT_DISPUTED"

unfoldable pub parse_phase : Str → Result TxPhase
parse_phase s =
    if str_eq s (codes "ESTABLISHING")
    then ok establishing
    else if str_eq s (codes "BUYER_ESTABLISHED")
    then ok buyer_established
    else if str_eq s (codes "SELLER_ESTABLISHED")
    then ok seller_established
    else if str_eq s (codes "TRANSMITTING")
    then ok transmitting
    else if str_eq s (codes "WORKING")
    then ok working
    else if str_eq s (codes "UNVERIFIED")
    then ok unverified
    else if str_eq s (codes "FINISHED")
    then ok finished
    else if str_eq s (codes "WORK_DISPUTED")
    then ok work_disputed
    else if str_eq s (codes "RESULT_DISPUTED")
    then ok result_disputed
    else err invalid_phase

unfoldable pub marshal_phase : TxPhase → Str
unfolding phase_string
marshal_phase p = codes "\"" ++ (phase_string p ++ codes "\"")

unfoldable pub unmarshal_phase : Str → Result TxPhase
unfolding parse_phase unquote
unmarshal_phase b = elim (unquote b) [ none ↦ err invalid_phase_json | some s ↦ parse_phase s ]

-- `Identify`
unfoldable pub identify : Transaction → Str → Origin
identify tx address =
    if str_eq address tx.buyer
    then from_buyer
    else if str_eq address tx.seller
    then from_seller
    else from_unknown

-- `MatchKey`
unfoldable pub tx_match_key : Transaction → Str
unfolding currency_string
tx_match_key tx = tx.article ++ (codes ":" ++ currency_string tx.price.currency)
