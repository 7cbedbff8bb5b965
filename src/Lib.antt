-- ===== src/Lib.antt =====
-- CassetteDB, a document database in Rust: one main file of pages, a write-ahead log, and a cluster
-- layer of Raft consensus, shards and two-phase commit across shards.
--
-- How the program's parts and the files of this library correspond (paths from the repository's
-- root):
--   src/raft.rs      Raft: Types, Log (the persistent log) and Node (RaftNode and its elections),
--                    Append (handle_append_entries and the commit index), Saved (serialize_state,
--                    deserialize_state); the proofs are in Voting,
--                    Steps, Matching, Replication, Quorum, Commit, Applying and Elections.
--   src/dist_tx.rs   DistTx: Types (DistributedTransaction), Coordinator (DistTxLog and
--                    TwoPhaseCoordinator); the proofs are in Votes, Changes, Invariant, Safety,
--                    Decisions and Answers. Local is LocalParticipant over the router of shard.rs.
--   src/storage.rs   Storage: Header (encode and decode) and Pages (Storage); the proofs about
--                    pages are in Durability.
--   src/wal.rs       Wal: Records (the bytes of a record), Replay (Wal::replay), Committed
--                    (commit_record and WalIter); the proofs are in Logged, Recovery, Ending,
--                    Logging, Marking and Flags (the iterator over committed records).
--   src/index.rs     Index: Inverted (InvertedIndex); the proofs are in Contents and Search. The
--                    splitting of a text into tokens is a parameter.
--   src/error.rs     Prelude/Errors.
--   src/shard.rs     Shard: ShardMap, Allocator and Router (ShardRouter, whose shards are engines);
--                    the proofs about the router are in Routing and Documents.
--   src/document.rs  Document; Json is serde_json::Value, whose numbers are kept as their texts.
--   src/db.rs        Db: Types, Indexes (the secondary and the inverted index), Operations and Queries
--                    and Search (Cassette), Recovery (open, save, open_with_wal); the proofs are in
--                    Listed, Invariant, Fitting, Kept and Reached (the indexes), Scanned (queries), Found,
--                    Replaced and Calls (documents by id), Reads (compaction), Visible and Unrecovered.
--   src/query.rs     Query: Types, Operands (parse_path, parse_value), Parse (Query::parse,
--                    find_balanced) and Matches (execute); the proofs are in Cuts and
--                    Ending. CassetteEngine::query is Engine/Queries, and query_all of shard.rs
--                    is Shard/Queries, with its proofs in Shard/Merged.
--   src/replication.rs  Replication: Log (ReplicationLog and ChangeIter), Feed (ChangeFeed and
--                    Follower); the proofs are in Stored and Following.
--   src/cluster.rs   Cluster: Config (ClusterConfig) and Node (ClusterNode); the proofs are in
--                    Failover, Votes and Campaign. A ClusterNode holds a node of Raft.
--   src/engine.rs    Engine: Operations (CassetteEngine and its calls), Opening (open and compact);
--                    the proofs are in Durable, Kept, Commands, Recovery, Documents and
--                    Compaction. The engine uses the models of wal.rs, storage.rs, index.rs and
--                    replication.rs.
-- Prelude holds the names that all modules share, and Bytes the calls of std::io on a file's bytes.
-- Every module has its tests in Examples, with the theorems applied to small inputs.
--
-- The model. A method that changes its object takes the object and returns it changed; a method
-- that returns a Result returns the value of Prelude/Errors, and its changed object only on success;
-- in Engine, Cluster and the router of Shard also the object of a call that fails.
-- A HashMap is an association list. Numbers are natural numbers; where the program adds to a u64 or
-- a u32 that may overflow the sum is taken modulo 2^64 or 2^32, as in a release build. Mutexes are
-- left out: an operation is one step. A file is the list of its bytes, so that the only error of
-- reading it is its end; syncing is left out. The clock is an argument, a reading of it a natural
-- number, as after 1970; where the program stores it as an i64 the field is an integer.
--
-- Other crates are parameters. byteorder is the record ByteOrder of Bytes with its laws, which
-- Bytes/Little instantiates; crc32fast and serde_json are the record Codec of Wal/Records, which
-- Wal/Examples instantiates, ChangeCodec of Replication/Log, Services of Engine/Operations,
-- ConfigCodec of Cluster/Config, and Hashing of Shard/Router. Library and Disk of Db hold what db.rs
-- takes of regex and serde_json, and Floats of Query/Types the doubles and the equality of JSON
-- numbers, which have no model here. StateCodec of Raft/Saved is serde_json for the state of a node.
-- That serde_json reads a document back as it was written is asked of Services only where its numbers
-- are integers and its values nested at most 125 deep.
--
-- Fuel. apply_committed runs as many rounds as there are entries between the applied and the
-- committed index. Wal::replay runs one round more than the file has bytes; each record has more
-- than one byte; so it is with the loops over committed records and over changes. The loop of
-- compact that allocates pages has its fuel as an argument. Query::parse has one round more than the
-- text has characters: the two parts that a connective divides are shorter than the text.
--
-- Not modelled: the HTTP and TCP servers, the command line, the C bindings of libcassettedb, the
-- optional search over tantivy, backup, crash reports and feedback, which are mostly input, output
-- and calls of other libraries; and so far rebalance of shard.rs.
mod Prelude
pub mod Shard
pub mod Raft
pub mod Document
pub mod Json
pub mod Db
pub mod Query
pub mod DistTx
pub mod Bytes
pub mod Storage
pub mod Wal
pub mod Index
pub mod Replication
pub mod Engine
pub mod Cluster
