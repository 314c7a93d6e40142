-- ===== src/Account/Names.antt =====
-- The names of the types of account movements, in common/bitwrk/account.go.
use bitwrk.Base.{◌≡◌, refl, Str-discrete, ok}
use bitwrk.Dao.{AccountMovementType, invalid}
use bitwrk.Account.{movement_type_string, parse_account_movement_type}

-- The name of a type of account movement, also of the invalid one, is read back as that type.
pub parse_account_movement_type-string :
    (t : AccountMovementType) → parse_account_movement_type (movement_type_string t) ≡ ok t
unfolding parse_account_movement_type Str-discrete
parse_account_movement_type-string invalid = refl
parse_account_movement_type-string _ = refl
