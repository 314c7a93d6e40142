-- ===== src/Dao.antt =====
-- common/bitwrk/dao.go: the accounts that the storage keeps, the interface `AccountingDao`, and what
-- its clients rely on. The cache in front of a storage is in Dao/Cached.
pub mod Cached
use bitwrk.Base.{
  ℕ, ◌≡◌, Bool, true, false, Option, none, some, Str, str_eq, if◌then◌else◌, Result, ok, err,
  Action,
}
use bitwrk.Int.{ℤ}
use bitwrk.Money.{Currency, Money}

-- `ParticipantAccount` of account.go. Times are counted from Go's zero time, in nanoseconds.
pub record ParticipantAccount : Type 0 where
  pub participant : Str
  pub last_movement_key : Option Str
  pub currency : Currency
  pub available_amount : ℤ
  pub blocked_amount : ℤ
  pub deposit_info : Str
  pub last_deposit_info : ℕ
  pub deposit_address_request : Str

-- `AccountMovementType` of account.go.
pub data AccountMovementType : Type 0 where
  invalid pay_in pay_out pay_out_reimburse bid bid_reimburse : AccountMovementType
  transaction transaction_finish transaction_reimburse : AccountMovementType

-- `AccountMovement` of account.go.
pub record AccountMovement : Type 0 where
  pub key : Option Str
  pub timestamp : ℕ
  pub movement_type : AccountMovementType
  pub available_delta : Money
  pub available_account : Str
  pub available_predecessor_key : Option Str
  pub blocked_delta : Money
  pub blocked_account : Str
  pub blocked_predecessor_key : Option Str
  pub fee : Money
  pub world : Money
  pub bid_key : Option Str
  pub tx_key : Option Str
  pub deposit_key : Option Str
  pub withdrawal_key : Option Str

pub data DepositType : Type 0 where
  injection bitcoin : DepositType

-- `Deposit` of deposit.go.
pub record Deposit : Type 0 where
  pub deposit_type : DepositType
  pub amount : Money
  pub account : Str
  pub reference : Str
  pub document : Str
  pub signature : Str
  pub created : ℕ

pub data RelationType : Type 0 where
  trusts works_for : RelationType

-- `Relation` of relation.go.
pub record Relation : Type 0 where
  pub source : Str
  pub target : Str
  pub relation_type : RelationType
  pub enabled : Bool
  pub document : Str
  pub signature : Str
  pub last_modified : ℕ

-- `AccountingDao`, over the state that the calls change.
pub record Dao : Type 1 where
  pub State : Type 0
  pub get_account : Str → Action State ParticipantAccount
  pub save_account : ParticipantAccount → Action State (Unit {0})
  pub get_movement : Str → Action State AccountMovement
  pub save_movement : AccountMovement → Action State (Unit {0})
  pub new_account_movement_key : Str → Action State Str
  pub get_deposit : Str → Action State Deposit
  pub save_deposit : Str → Deposit → Action State (Unit {0})
  pub get_relation : Str → Str → RelationType → Action State Relation
  pub save_relation : Relation → Action State (Unit {0})

-- What a client relies on: there is an account for every participant, a successful read finds it,
-- and a successful write changes that account alone.
pub record Accounts (d : Dao) : Type 1 where
  pub IsConsistent : d.State → Type 0
  pub view : d.State → Str → ParticipantAccount
  pub view-participant : (s : d.State) (p : Str) → IsConsistent s → (view s p).participant ≡ p
  pub get_account_lem :
      (p : Str) (s t : d.State) (a : ParticipantAccount)
      → IsConsistent s
      → d.get_account p s ≡ (ok a, t)
      → (a ≡ view s p) × IsConsistent t × ((q : Str) → view t q ≡ view s q)
  pub save_account_lem :
      (a : ParticipantAccount) (s t : d.State)
      → IsConsistent s
      → d.save_account a s ≡ (ok tt, t)
      → IsConsistent t × ((q : Str) → view t q ≡ (if str_eq q a.participant then a else view s q))
  pub save_movement_lem :
      (m : AccountMovement) (s t : d.State)
      → IsConsistent s
      → d.save_movement m s ≡ (ok tt, t)
      → IsConsistent t × ((q : Str) → view t q ≡ view s q)
  pub new_key_lem :
      (p k : Str) (s t : d.State)
      → IsConsistent s
      → d.new_account_movement_key p s ≡ (ok k, t)
      → IsConsistent t × ((q : Str) → view t q ≡ view s q)
  pub get_deposit_lem :
      (u : Str) (s t : d.State) (r : Result Deposit)
      → IsConsistent s
      → d.get_deposit u s ≡ (r, t)
      → IsConsistent t × ((q : Str) → view t q ≡ view s q)
  pub save_deposit_lem :
      (u : Str) (x : Deposit) (s t : d.State)
      → IsConsistent s
      → d.save_deposit u x s ≡ (ok tt, t)
      → IsConsistent t × ((q : Str) → view t q ≡ view s q)
