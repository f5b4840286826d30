-- ===== src/Lib.antt =====
-- electrum-go, an Electrum server over a full node: a model of its storage layer, of the rollback
-- of blocks, of the indexing of blocks, of the mempool, and of the parts of the Electrum protocol that hold
-- state, with proofs.
--
-- The program keeps an index of the chain in pebble, a key-value store. internal/storage lays out the
-- keys and values, and reads and writes them; internal/indexer fills the tables block by block, writes
-- an undo record for each block, and uses it to take a block back when the node has left its branch;
-- internal/electrum answers clients from the tables, caches the status of a scripthash, and tells the
-- connections that have subscribed to a scripthash or to headers of changes.
--
--   Base              numbers, lists, errors as values, int32 and int64, encoding/binary,
--                     encoding/hex, and Go's maps as association lists
--   Storage.Keys      internal/storage/keys.go: MakeUTXOKey is make_utxo_key, and so on; below it the
--                     proofs table by table, the order of history keys, PrefixUpperBound, and Tables,
--                     all keys together
--   Storage.Values    internal/storage/storage.go: UTXOValue and MempoolValue
--   Storage.Undo      internal/storage/storage.go: UndoBlock, EncodeUndoBlock, DecodeUndoBlock
--   Storage.Pebble    what the code uses of pebble, encoding/json and zstd, as records of operations
--                     with their documented behaviour; Table is a store in memory that has it
--   Storage.Database  internal/storage/storage.go: the methods of DB. A batch is the list of its
--                     entries, and a method that writes into one returns the longer batch
--   Indexer.Types     internal/indexer/types.go: hashes, scripthashes and their hex forms
--   Indexer.Rollback  internal/indexer/reorg.go: rollbackBlock
--   Indexer.Reorg     internal/indexer/reorg.go: the other methods of ReorgHandler. The node is a
--                     record of the calls that are made of it; what changes the database returns it
--                     also with an error
--   Indexer.Wire      what the indexer uses of btcd: the fields of blocks and transactions, and a record
--                     of the hashes and serializations
--   Indexer.Mempool   internal/indexer/mempool.go: MempoolOverlay; below it Methods, Queries and
--                     Reconcile are its methods, Invariant and Steps what any calls of them keep
--   Indexer.Block     internal/indexer/block.go: IndexBlock, whose pieces for the batch and the undo
--                     record are in Block.Entries; Tracked is what its loop keeps, Undoable its meeting
--                     with rollbackBlock
--   Electrum.Merkle         internal/electrum/merkle.go; Tree is Bitcoin's Merkle tree, Client what a client
--                           makes of a proof
--   Electrum.StatusCache    internal/electrum/status_cache.go
--   Electrum.Subscriptions  internal/electrum/subscriptions.go
--   Electrum.Scripthash     internal/electrum/scripthash.go: Gather is about what the history
--                           lists and Sorted about its order, Sums about the balance, Text about the
--                           status; Insertion is a sort that does what sort.Slice promises
--   Electrum.Lookup         internal/electrum/handlers.go: getTxFromDB
--   Config            internal/config/config.go: the defaults, LoadFromFile, Validate and
--                     ReadRPCCookie
--   Runs modules            the definitions and the theorems at concrete inputs
--
-- A slice of bytes and a string are a list of numbers below 256; an int32 and an int64 are integers, and
-- where the code converts them to bytes the wrap-around is written out. An error is a constructor with
-- what its message names. A method that holds its lock throughout is one step, so a history of a cache
-- or of the subscriptions is a list of calls. The loop of buildMerkleBranch runs on as much fuel as the
-- block has transactions, which is enough: a round halves the level.
--
-- The loops of findForkPoint and rollbackToHeight run on the height they start from as fuel, and each
-- round lowers the height.
--
-- An iterator gives what it visits and the error that broke it off, if one did; only PruneUndoData reads
-- that error. Scans of the same database agree.
--
-- Where the code ranges over a map, the model takes the entries in the order of its list.
--
-- Not modelled: opening and closing the store, the synchronisation with the node, the other handlers
-- and the network, metrics, and the messages of the log.
pub mod Base
pub mod Storage
pub mod Indexer
pub mod Electrum
pub mod Config
