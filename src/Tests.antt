-- ===== src/Tests.antt =====
-- Concrete inputs to the theorems: a storage, accounts, bids and transactions.
pub mod Shelf
pub mod Ledgers
pub mod Runs
pub mod Delivery
pub mod Records
pub mod Deposits
pub mod Fees
pub mod Codecs
pub mod Markets
pub mod Requests
