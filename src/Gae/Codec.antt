-- ===== src/Gae/Codec.antt =====
-- server/gae/gae_codec.go: what is stored of the program's records.
pub mod Numbers
pub mod Bids
pub mod Transactions
pub mod Accounts
pub mod Deposits
pub mod Relations
pub mod Movements
