-- ===== src/Conservation.antt =====
-- What the operations of common/bitwrk on bids and transactions do to the money that a number of
-- participants hold together, in one currency.
use bitwrk.Base.{ℕ, ◌≡◌, ◌≤◌, ◌||◌, if◌then◌else◌, true, Option, List, Str, ok}
use bitwrk.Int.{pos, ◌+ℤ◌, ◌-ℤ◌, ◌≤ℤ◌}
use bitwrk.Int64.{◌+64◌, IsInt64}
use bitwrk.Money.{Currency, Money}
use bitwrk.Dao.{Dao, Accounts, AccountMovementType}
use bitwrk.Account.Validate.{in_currency}
use bitwrk.Account.Total.{contains, Distinct}
use bitwrk.Account.Place.{place_account_movement}
use bitwrk.Account.Conserve.{AllValid, holdings, place_account_movement_conserves}
use bitwrk.Account.Moves.{Shifted}
use bitwrk.Bid.{Bid, is_placed, is_in_queue, expired}
use bitwrk.Bid.Accounting.{book, retire}
use bitwrk.Bid.Accounting.Shifts.{locked_amount, book-Shifted, retire-Shifted}
use bitwrk.Bid.Accounting.Conserve.{book-Conserves, retire-Conserves}
use bitwrk.Transaction.{Transaction, active, retired}
use bitwrk.Transaction.Accounting
use bitwrk.Transaction.Accounting.Shifts.{
  surplus, Settlement, tx_book-Shifted, tx_retire-Settlement,
}
use bitwrk.Transaction.Accounting.Conserve.{fee_due, tx_book-Conserves, tx_retire_conserves}

module _ (d : Dao) (acc : Accounts d) (c : Currency) (ps : List Str) where
  -- On consistent and valid accounts, if `PlaceAccountMovement` succeeds with int64 amounts, then the
  -- accounts are consistent and valid again, and what participants that include the two concerned
  -- hold in a currency, the fee and the world's share together are what they held before.
  pub movement_conserves :
      (now : ℕ) (m_type : AccountMovementType) (a_name b_name : Str)
      (available_delta blocked_delta fee world : Money)
      (bid_key tx_key deposit_key withdrawal_key : Option Str) (s t : d.State)
      → Distinct ps
      → contains a_name ps ≡ true
      → contains b_name ps ≡ true
      → acc.IsConsistent s
      → AllValid d acc s
      → IsInt64 available_delta.amount
        × IsInt64 blocked_delta.amount
        × IsInt64 fee.amount
        × IsInt64 world.amount
      → place_account_movement d now m_type a_name b_name available_delta blocked_delta fee world
          bid_key tx_key deposit_key withdrawal_key s
        ≡ (ok tt, t)
      → acc.IsConsistent t
        × AllValid d acc t
        × (holdings d acc c t ps +ℤ (in_currency c fee +ℤ in_currency c world)
            ≡ holdings d acc c s ps)
  movement_conserves now m_type a b x y fee world bk tk dk wk s t u ka kb i v ints h =
      let (i', v', same) =
        place_account_movement_conserves d acc now m_type a b x y fee world bk tk dk wk s t i v ints
          h in
      (i', v', same c ps u ka kb)

  -- On consistent and valid accounts, if a bid is booked, then the price and the fee of a bid that
  -- buys, added as int64 values, have moved from what its participant has available to what is
  -- blocked, nothing has moved for a bid that sells, and no other amount has changed; the accounts
  -- are consistent and valid again, and participants that include the bid's hold in a currency what
  -- they held before.
  pub bid_booking_conserves :
      (b : Bid) (key : Str) (s t : d.State)
      → Distinct ps
      → contains b.participant ps ≡ true
      → acc.IsConsistent s
      → AllValid d acc s
      → book d b key s ≡ (ok tt, t)
      → Shifted d acc b.participant b.participant (pos 0 -ℤ locked_amount b) (locked_amount b) s t
        × acc.IsConsistent t
        × AllValid d acc t
        × (holdings d acc c t ps ≡ holdings d acc c s ps)
  bid_booking_conserves b key s t u k i v h =
      let moved = book-Conserves d acc b key s t i v h in
      (book-Shifted d acc b key s t i v h, moved.consistent, moved.valid, moved.conserved c ps u k)

  -- On consistent and valid accounts, if a bid is retired that was placed or in the queue, then it is
  -- the same but for being marked as expired, and the price and the fee of a bid that buys, added as
  -- int64 values, have moved from what is blocked of its participant's money to what is available,
  -- while nothing has moved for a bid that sells; any other bid is as it was, and nothing has moved.
  -- No other amount has changed, the accounts are consistent and valid again, and participants that
  -- include the bid's hold in a currency what they held before.
  pub bid_retirement_conserves :
      (b b' : Bid) (key : Str) (now : ℕ) (s t : d.State)
      → Distinct ps
      → contains b.participant ps ≡ true
      → acc.IsConsistent s
      → AllValid d acc s
      → retire d b key now s ≡ (ok b', t)
      → let is_open = is_placed b.state || is_in_queue b.state in
        let freed = if is_open then locked_amount b else pos 0 in
        (b' ≡ (if is_open then record b { state = expired } else b))
        × Shifted d acc b.participant b.participant freed (pos 0 -ℤ freed) s t
        × acc.IsConsistent t
        × AllValid d acc t
        × (holdings d acc c t ps ≡ holdings d acc c s ps)
  bid_retirement_conserves b b' key now s t u k i v h =
      let (moved, left) = retire-Conserves d acc b b' key now s t i v h in
      (
        left,
        retire-Shifted d acc b b' key now s t i v h,
        moved.consistent,
        moved.valid,
        moved.conserved c ps u k,
      )

  -- On consistent and valid accounts, if a transaction is booked, then what the buyer's bid has
  -- blocked exceeds the price and the fee of the transaction by an amount that is not negative, in
  -- int64 arithmetic, which has moved from what is blocked of the buyer's money to what is available;
  -- no other amount has changed, the accounts are consistent and valid again, and participants that
  -- include the buyer hold in a currency what they held before.
  pub transaction_booking_conserves :
      (tx : Transaction) (tx_id : Str) (buyer_bid : Bid) (s t : d.State)
      → Distinct ps
      → contains tx.buyer ps ≡ true
      → acc.IsConsistent s
      → AllValid d acc s
      → Accounting.book d tx tx_id buyer_bid s ≡ (ok tt, t)
      → ((pos 0 ≤ℤ surplus tx buyer_bid)
          × Shifted d acc tx.buyer tx.buyer
              (surplus tx buyer_bid)
              (pos 0 -ℤ surplus tx buyer_bid)
              s
              t)
        × acc.IsConsistent t
        × AllValid d acc t
        × (holdings d acc c t ps ≡ holdings d acc c s ps)
  transaction_booking_conserves tx tx_id buyer_bid s t u k i v h =
      let moved = tx_book-Conserves d acc tx tx_id buyer_bid s t i v h in
      (
        tx_book-Shifted d acc tx tx_id buyer_bid s t i v h,
        moved.consistent,
        moved.valid,
        moved.conserved c ps u k,
      )

  -- On consistent and valid accounts, if a transaction with an int64 price and fee is retired, then
  -- it was active and had timed out, and is the same but for being marked as retired and a revision
  -- counted up. In the phases FINISHED and UNVERIFIED, the seller has received the price, the price
  -- and the fee have left what is blocked of the buyer's money, and what participants that include
  -- both hold in a currency has fallen by the fee; in each other phase, the price and the fee, added
  -- as int64 values, have moved from what is blocked of the buyer's money to what is available, and
  -- the participants hold what they held before. No other amount has changed, and the accounts are
  -- consistent and valid again.
  pub transaction_retirement_conserves :
      (tx tx' : Transaction) (tx_id : Str) (now : ℕ) (s t : d.State)
      → Distinct ps
      → contains tx.seller ps ≡ true
      → contains tx.buyer ps ≡ true
      → acc.IsConsistent s
      → AllValid d acc s
      → IsInt64 tx.price.amount × IsInt64 tx.fee.amount
      → Accounting.retire d tx tx_id now s ≡ (ok tx', t)
      → ((tx.state ≡ active)
          × (tx.timeout ≤ now)
          × (tx' ≡ record tx { state = retired; revision = tx.revision +64 pos 1 }))
        × Settlement d acc tx s t
        × acc.IsConsistent t
        × AllValid d acc t
        × (holdings d acc c t ps +ℤ fee_due c tx ≡ holdings d acc c s ps)
  transaction_retirement_conserves tx tx' tx_id now s t u ks kb i v ints h =
      let (ended, i', v', same) = tx_retire_conserves d acc tx tx' tx_id now s t i v ints h in
      (ended, tx_retire-Settlement d acc tx tx' tx_id now s t i v ints h, i', v', same c ps u ks kb)
