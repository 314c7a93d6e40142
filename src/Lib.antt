-- ===== src/Lib.antt =====
-- BitWrk is a marketplace on which buyers and sellers of computing power trade. This library models
-- the part of it that keeps the books and drives the trades.
--
-- The program. A participant places a bid (common/bitwrk/bid.go), which blocks the price and the fee
-- in the participant's account (common/bitwrk/account.go). Two matching bids become a transaction
-- (common/bitwrk/transaction.go), which the messages of the buyer and the seller drive from phase to
-- phase until it times out and is retired, and the buyer's blocked money is paid out or given back.
-- Accounts and movements are kept in a storage behind a cache (common/bitwrk/dao.go), which is
-- flushed at the end of a database transaction. Amounts are money in a currency
-- (common/money/money.go).
--
-- The model.
--   Base, Int, Int64: tests, byte strings, maps, results and state passing; integers, and the
--     wrap-around of Go's int64, which `wrap64` writes out.
--   Money, Money/Parse, Money/Format: `Currency`, `Unit`, `Money` of common/money/money.go, with
--     `parse` for `Parse` and `format` for `Format`; Money/Arithmetic has their laws.
--   Dao: the records of an account, a movement, a deposit and a relation, the interface
--     `AccountingDao` as the record `Dao` over a state, and the record `Accounts` of what a client
--     relies on. Dao/Cached: `cachedAccountingDao`; Dao/Cached/Reads is about its reads and has its
--     instance of `Accounts`, Dao/Cached/Flush is about `Flush`, Dao/Cached/Marks about the accounts
--     that are to be written back, Dao/Cached/Sound about the others, and Dao/Cached/Settled about
--     the storage after a flush.
--   Account: `CanApply`, `Apply`, `Validate` and JSON; Account/Place: `PlaceAccountMovement`, its
--     steps named from the last to the first. Account/Validate, Apply, Total, Conserve and Moves:
--     proofs.
--   Query: `normalize` and the documents that are signed. Bid: `NewBid`, `ParseBid`; Bid/Accounting:
--     `CheckBalance`, `Book`, `Retire`, and Bid/Fee the fee. Deposit: `ParseDeposit`, `Equals`,
--     `Place` of common/bitwrk/deposit.go; Relation: `ParseRelation` of common/bitwrk/relation.go.
--   Transaction: phases and their names. Transaction/Handlers: the handlers of the messages.
--     Transaction/Messages: the table of rules, `SendMessage`, and `UpdateTransaction` of
--     server/gae/gae_main.go; below it the moves that the table allows (Graph), the effect of one
--     message (Effects), of a sequence of them (Runs), the buyer's acceptance (Accepting), and
--     the proofs that the parties exchange (Secrets). Transaction/Accounting: `NewTransaction`,
--     `Book`, `Retire`.
--   Gae/Store: keys and properties of the datastore, as server/gae uses them. Gae/Codec: the codecs of
--     server/gae/gae_codec.go, one file for a record, and their numbers for constants (Numbers).
--   Gae/Heap: a heap in a slice, as Go's container/heap keeps it; below it reads and swaps
--     (Slices), what sifting keeps (Sift, Weight), and the order of a heap. Gae/Matching: hot bids
--     of server/gae/gae_matching.go; Matching/Queues their queues, Matching/Rounds
--     `matchIncomingBids`; Matching/Contents and Tips are about what a queue holds, Skipping about
--     expired bids, Ledger and Outcome about the bids that match, Working and Returns about calls
--     on a store that works, Flush about `Flush`, Hotter, Best and Ranked about prices.
--   Gae/Server: `EnqueueBid`, `RetireBid`, `PlaceBid` and `RetireTransaction` of
--     server/gae/gae_main.go, and `MatchBids` of server/gae/gae_matching.go; all but `PlaceBid` have
--     a new cache in front of the storage, which they flush. Server/Keeping is about calls in a cache, Known
--     about what the server relies on, Books about calls that begin with a new cache and end with a
--     flush, Conserve and Matches about the operations, Requests about sequences of them, and
--     Retirement about a transaction's end.
--   Conservation: what all of these do to the money that participants hold.
--   Tests: concrete inputs.
--
-- Conventions. A Go error is `err` of `Result`, a panic is `panic`; an `Action` passes a state on,
-- which is kept on errors as the code leaves it. Strings are lists of bytes. Times are nanoseconds
-- from Go's zero time, as natural numbers. A pointer that may be nil is an `Option`. The
-- types `BidType` and `Currency` have a constructor for the values beyond their constants; phases,
-- states, movement and deposit types are taken to be one of their constants, and a stored number that
-- has no constant is the error `bad_number_of_kind`. Times are stored exactly. A map is an association
-- list, so that loops over maps run in the order of the list. Decimal printing recurses on fuel, a
-- number's own size, which is more than it has digits. Sifting in a heap recurses on its length, since
-- an index falls, or rises, at each step. Skipping expired bids fails with `out_of_fuel` if its fuel
-- runs out; the fuel is one more than the number of bids in the queue.
--
-- Parameters. The storage below the cache is any `Dao`; that it finds what was written is the
-- record `Storage`. (The datastore shows no writes of the same database transaction; the cache
-- reads nothing from it after a flush.) The keys of the datastore are the record `Keys`; that a
-- key is read back from its string is `IsHonest`, and that it keeps its name `KeepsNames`. The
-- datastore and the task queue that matching calls are the record `HotStore`, of which nothing is
-- assumed but, for a run without errors, `NeverFails`; a query stands for the list of its results
-- when the database transaction began, of which the queue of buys is assumed to hold buys, and
-- the other none. What the server stores besides accounts is the record `Registry`; `Faithful`
-- says that it is kept apart from the accounts, and that only bids and transactions of known
-- participants, in int64 amounts, are read from it as long as only such are put into it;
-- `Steady`, that the accounting calls leave them alone. The checks of URLs, base64, SHA-256 and
-- signatures that the handlers call are the record `Runtime`, of which nothing is assumed.
--
-- Not modelled. HTTP handlers, the datastore's own operations, cryptography, queries of prices,
-- nonces, and the client. Of the modelled files: the signing of bids, deposits and relations,
-- signed deposit address messages, and the JSON of hashes and keys.
pub mod Base
pub mod Int
pub mod Int64
pub mod Money
pub mod Dao
pub mod Account
pub mod Query
pub mod Bid
pub mod Deposit
pub mod Relation
pub mod Transaction
pub mod Conservation
pub mod Gae
mod Tests
