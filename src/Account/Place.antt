-- ===== src/Account/Place.antt =====
-- `PlaceAccountMovement` of common/bitwrk/account.go.
use bitwrk.Base.{ℕ, ok, Option, none, some, Str, Action, bind, lift}
use bitwrk.Money.{Money}
use bitwrk.Dao.{ParticipantAccount, AccountMovement, AccountMovementType, Dao}
use bitwrk.Account.{Part, available, blocked, apply, validate}

unfoldable pub new_movement :
    ℕ
    → AccountMovementType
    → Str
    → Str
    → Money
    → Money
    → Money
    → Money
    → Option Str
    → Option Str
    → Option Str
    → Option Str
    → AccountMovement
new_movement now m_type available_participant blocked_participant available_delta blocked_delta fee
      world bid_key tx_key deposit_key withdrawal_key =
    record {
      key = none;
      timestamp = now;
      movement_type = m_type;
      available_delta = available_delta;
      available_account = available_participant;
      available_predecessor_key = none;
      blocked_delta = blocked_delta;
      blocked_account = blocked_participant;
      blocked_predecessor_key = none;
      fee = fee;
      world = world;
      bid_key = bid_key;
      tx_key = tx_key;
      deposit_key = deposit_key;
      withdrawal_key = withdrawal_key;
    }

module _ (d : Dao) where
  open d use {State, get_account, save_account, save_movement, new_account_movement_key}

  -- The steps from the last to the first, each with what the earlier ones found.
  abbrev pub save_posted : ParticipantAccount → Str → ParticipantAccount → Action State (Option Str)
  save_posted account key applied =
      bind (save_account (record applied { last_movement_key = some key }))
        (λ _. lift (ok account.last_movement_key))

  abbrev pub apply_delta : Part → Money → Str → ParticipantAccount → Action State (Option Str)
  apply_delta part delta key account =
      bind (lift (apply part delta account)) (save_posted account key)

  -- `account.GetAvailable().Apply(…)` or `account.GetBlocked().Apply(…)` on the account in the
  -- storage; the result is the key of the account's previous movement.
  unfoldable pub post : Part → Str → Money → Str → Action State (Option Str)
  post part participant delta key = bind (get_account participant) (apply_delta part delta key)

  abbrev pub save_placed : AccountMovement → Str → Option Str → Option Str → Action State (Unit {0})
  save_placed m key available_predecessor blocked_predecessor = save_movement (record m {
    key = some key;
    available_predecessor_key = available_predecessor;
    blocked_predecessor_key = blocked_predecessor;
  })

  abbrev pub post_blocked : AccountMovement → Str → Option Str → Action State (Unit {0})
  post_blocked m key available_predecessor =
      bind (post blocked m.blocked_account m.blocked_delta key)
        (save_placed m key available_predecessor)

  abbrev pub post_both : AccountMovement → Str → Action State (Unit {0})
  post_both m key =
      bind (post available m.available_account m.available_delta key) (post_blocked m key)

  abbrev pub place_valid : AccountMovement → Unit {0} → Action State (Unit {0})
  place_valid m _ = bind (new_account_movement_key m.available_account) (post_both m)

  unfoldable pub place_movement : AccountMovement → Action State (Unit {0})
  unfolding validate
  place_movement m = bind (lift (validate m)) (place_valid m)

  unfoldable pub place_account_movement :
      ℕ
      → AccountMovementType
      → Str
      → Str
      → Money
      → Money
      → Money
      → Money
      → Option Str
      → Option Str
      → Option Str
      → Option Str
      → Action State (Unit {0})
  unfolding place_movement new_movement
  place_account_movement now m_type available_participant blocked_participant available_delta
        blocked_delta fee world bid_key tx_key deposit_key withdrawal_key =
      place_movement (
        new_movement now m_type available_participant blocked_participant available_delta
          blocked_delta fee world bid_key tx_key deposit_key withdrawal_key)
