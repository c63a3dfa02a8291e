-- ===== src/Net/Orchestrator.antt =====
-- crates/net/src/orchestrator.rs: the receiver's handlers of the messages that carry an asset, and the
-- sender's record of a delivery. A handler answers a message or ends the session with an error, and
-- leaves the tables and the asset in progress. What `sink.staging` returned is an argument.
pub mod Receiving
pub mod Delivery
pub mod Finishing
pub mod Endings
use photosync.Prelude.{ℕ, Bool, true, false, Option, none, some, String, ltb, if◌then◌else◌}
use photosync.Prelude.Bytes.{Bytes}
use photosync.Errors.{Error, Result, ok, err, Run, done, fail}
use photosync.Model.{Hash32, AssetDescriptor}
use photosync.Staging.{File}
use photosync.Identity.{Sha256}
use photosync.Chunk.{Chunk, ChunkVerdict, accepted, corrupt, misaligned}
use photosync.Chunk.Receiver.{InboundAsset, begin, resume, accept_chunk}
use photosync.Net.Talk.{SessionError, unexpected, core}
use photosync.Proto.{Message, chunk_ack, ChunkOutcome}
use photosync.Db.{Db}
use photosync.Inbound.{InboundState, open_transfer, advance}
use photosync.Catalog.Peers.{mark_sent}
use photosync.Catalog.Assets.{set_full_hash}

module _ (d : Sha256) where
  pub record Active : Type 0 where
    pub descriptor : AssetDescriptor
    pub staging_ref : String
    pub asset : InboundAsset d

  pub record Receiver : Type 0 where
    pub tables : Db
    pub current : Option Active

  pub data Handled : Type 0 where
    replied : Message → Receiver → Handled
    silent : Receiver → Handled
    ended : SessionError → Receiver → Handled

  -- What is sent and written for a verdict: durable first, then persisted, then acknowledged.
  unfoldable pub judged : String → ℕ → ℕ → Db → Active → Run (InboundAsset d) ChunkVerdict → Handled
  judged sid now offset t active (done (accepted n) a) =
      replied (chunk_ack offset (ChunkOutcome.accepted n)) (record {
        tables = advance t sid active.descriptor.quick_hash n now;
        current = some (record active { asset = a });
      })
  judged sid now offset t active (done corrupt a) =
      replied (chunk_ack offset ChunkOutcome.corrupt)
        (record { tables = t; current = some (record active { asset = a }) })
  judged sid now offset t active (done (misaligned n) a) =
      replied (chunk_ack offset (ChunkOutcome.misaligned n))
        (record { tables = t; current = some (record active { asset = a }) })
  judged sid now offset t active (fail e a) =
      ended (core e) (record { tables = t; current = some (record active { asset = a }) })

  -- `Message::Chunk`
  unfoldable pub on_chunk : String → ℕ → Receiver → ℕ → Hash32 → Bytes → Handled
  unfolding judged
  on_chunk sid now s offset hash payload = elim s.current [
    | none ↦ ended unexpected s
    | some active ↦
        judged sid now offset s.tables active
          (accept_chunk d active.asset (record { offset = offset; payload = payload; hash = hash }))
  ]

  abbrev pub started :
      AssetDescriptor → String → Receiver → Db → Run File (InboundAsset d) → Handled
  started descriptor ref s t (done a f) = silent (record {
    tables = t;
    current = some (record { descriptor = descriptor; staging_ref = ref; asset = a });
  })
  started descriptor ref s t (fail e f) =
      ended (core e) (record { tables = t; current = s.current })

  abbrev pub opened :
      ℕ → AssetDescriptor → String → File → Receiver → Result (InboundState × Db) → Handled
  opened usize_mod descriptor ref staging s (err e) = ended (core e) s
  opened usize_mod descriptor ref staging s (ok p) = started descriptor ref s p.1 (
      if ltb 0 p.0.bytes_received
      then resume d usize_mod descriptor.size p.0.bytes_received staging
      else begin d descriptor.size staging)

  -- `Message::AssetBegin`; the keepalive before a resume changes no state.
  unfoldable pub on_asset_begin :
      ℕ → String → ℕ → Receiver → AssetDescriptor → String → File → Handled
  on_asset_begin usize_mod sid now s descriptor ref staging =
      opened usize_mod descriptor ref staging s
        (open_transfer s.tables sid descriptor.quick_hash ref descriptor.size now)

-- COMMIT, or ROLLBACK to the tables before.
abbrev pub committed : Db → Result Db → Result (Unit {0}) × Db
committed t (ok t') = (ok tt, t')
committed t (err e) = (err e, t)

-- `record_delivered`
unfoldable pub record_delivered : Db → ℕ → ℕ → Hash32 → Hash32 → ℕ → Result (Unit {0}) × Db
record_delivered t peer id full quick now =
    committed t (mark_sent (set_full_hash t id full) peer full quick now)
