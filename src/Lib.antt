-- ===== src/Lib.antt =====
-- PhotoSync: the transfer engine of two phones that send photographs to each other over a local link.
--
-- The sender keeps a catalog of its library, hashes it, and offers what a peer does not hold; the
-- receiver answers which items it holds, stages the chunks of each asset, flushes and verifies them,
-- and keeps the offset to resume from. Both keep their state in SQLite tables. What is modelled, by
-- file of the repository:
--
--   crates/core/src/model.rs      Model, Model/Laws      hashes, states, their strings
--   crates/core/src/error.rs      Errors                 errors and results
--   crates/core/src/provider.rs   Staging, Staging/Laws  files with faults, flushes and power loss
--   crates/core/src/identity.rs   Identity               quick_hash, FullHasher, resume_from
--   crates/core/src/chunk.rs      Chunk, Chunk/Receiver (InboundAsset), Chunk/Source (OutboundAsset);
--                                 Chunk/Transfer puts the two together as the orchestrator's loops do
--   crates/core/src/proto.rs      Proto, Proto/Frames    messages, encode, decode
--   crates/core/src/pairing.rs    Pairing                codes, proofs, CodeSession
--   crates/core/src/db.rs, schema/001_initial.sql  Db    the tables as records, migrate
--   crates/core/src/inbound.rs    Inbound                Have answers, transfers in flight
--   crates/core/src/session.rs    Session, Session/Transfers
--   crates/core/src/catalog.rs    Catalog/Peers, Catalog/Assets, Catalog/Backlog
--   crates/net/src/frame.rs       Net/Wire               frames on a byte stream
--   crates/net/src/link.rs        Net/Link               reads past heartbeats, keepalive, errors
--                                 Net/Talk               write, send, read in a conversation: what arrives,
--                                 what was sent, which writes fail, and the state that is changed
--   crates/net/src/orchestrator.rs  Net/Handshake        receiver_handshake, sender_handshake
--                                 Net/Orchestrator       the receiver's handlers of Chunk, AssetBegin and
--                                 AssetEnd (Finishing), record_delivered
--                                 Net/Receiver           run_receiver: its loop over the messages
--                                 Net/Sender             send_asset; Net/Sending run_sender
--   crates/android/src/session.rs  Android               receiver_loop; Android/Slot the session slot and
--                                 the status; Android/Scan the hash queue of scan_library
--   crates/net/src/discovery.rs   Net/Discovery          listen, scan_subnet, group_by_peer, discover_staged
--
-- A function keeps the name it has in the code; where two of one module would clash, the method's type
-- is in the name (`finish_asset`, `verify_proof`, `open_transfer`, `feed` for `FullHasher::update`). A
-- method that changes its receiver returns the state it leaves, also with an error. A SQL statement is
-- a function on the lists of rows; a time, a uuid and a new row id are arguments.
--
-- Parameters stand for what is not in the repository: SHA-256 (`Sha256`, with `IsIncremental`), HMAC
-- (`Hmac`, with `IsExact`), serde_json (`Json`, with `IsFaithful`), hex (`Hex`), and the width of usize.
--
-- Numbers: u64 and i64 keep their wrap-around (`u64_mod`, `to_i64`, `from_i64`). The loop of
-- `resume_from` has as much fuel as bytes to read, and a round reads one at least unless the bytes left
-- wrap to none in usize; a transfer of `chunk_count n` chunks ends on any fuel above that.
--
-- The loops of a session read a frame in every round, so their fuel is the number of frames still to
-- arrive. A loop that has not ended within its fuel ends in `endless`, an error that the code does not
-- have and that is none of the link's; so does `resume_from`.
--
-- Times are natural numbers, and the counters of a session add without a bound, where the code has i64.
--
-- Not modelled: the sockets and timers of discovery.rs, the directory store, TLS and identity, the
-- bindings, the tools, and of crates/android/src/session.rs the paging of the media store and
-- sender_run: I/O, third-party code or callers. Reads and writes of a session take turns with those
-- of its peer only through the frames that arrive; of the two sides only the handshakes are run
-- against each other.
-- SQLite's own failures other than broken constraints are left out, and so is its overflow to REAL.
pub mod Prelude
pub mod Errors
pub mod Staging
pub mod Model
pub mod Identity
pub mod Chunk
pub mod Proto
pub mod Net
pub mod Pairing
pub mod Db
pub mod Inbound
pub mod Catalog
pub mod Session
pub mod Android
pub mod Tests
