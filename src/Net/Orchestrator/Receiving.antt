-- ===== src/Net/Orchestrator/Receiving.antt =====
-- The receiver's handlers in crates/net/src/orchestrator.rs: what is on record is on the disk.
use photosync.Prelude.{
  ℕ, ◌+◌, ◌≡◌, ◌≢◌, ◌⊎◌, ◌∙◌, ap, sym, subst, ◌≤◌, ◌<◌, some, [], ◌++◌, arith, String, length,
  length-append, take, lt→ltb,
}
use photosync.Prelude.Int.{i64_bound}
use photosync.Prelude.Bytes.{Bytes}
use photosync.Errors.{Error, Run, done}
use photosync.Model.{Hash32, IsHash, AssetDescriptor}
use photosync.Staging.{File, Crash}
use photosync.Identity.{Sha256, IsIncremental, chunk_hash}
use photosync.Chunk.{Chunk, ChunkVerdict, accepted}
use photosync.Chunk.Receiver.{InboundAsset, resume, accept_chunk}
use photosync.Chunk.Receiver.Holds.{
  Holds, Answered, taken, damaged, misplaced, faulted, accept_chunk-Answered,
}
use photosync.Chunk.Receiver.Crash.{resume-Crash}
use photosync.Proto.{chunk_ack, ChunkOutcome}
use photosync.Db.{Db}
use photosync.Inbound.{advance}
use photosync.Inbound.Offsets.{IsAt, advance-IsAt, open_transfer_again}
use photosync.Net.Talk.{core}
use photosync.Net.Orchestrator.{
  Active, Receiver, Handled, replied, silent, ended, judged, on_chunk, on_asset_begin, opened,
  started,
}

module _ (d : Sha256) (sid ref : String) (total : ℕ) where
  abbrev quick_of : Active d → Hash32
  quick_of active = active.descriptor.quick_hash

  -- What a receiver may do with a chunk, when it held `received` and `t` were its tables.
  pub data Careful (t : Db) (active : Active d) (received : Bytes) (c : Chunk)
      : Handled d → Type 0 where
    -- It acknowledges a chunk that continues what it held, under its own hash: the offset behind it is
    -- on record, and all bytes below that are held.
    acked :
        {n : ℕ} {t' : Db} {a : InboundAsset d}
        → c.offset ≡ length received
        → c.hash ≡ chunk_hash d c.payload
        → n ≡ length (received ++ c.payload)
        → IsAt t' sid (quick_of active) ref total n
        → Holds d a (received ++ c.payload)
        → Careful t active received c (
            replied
              (chunk_ack c.offset (ChunkOutcome.accepted n))
              (record { tables = t'; current = some (record active { asset = a }) }))
    -- It says that the chunk is corrupt, which it is: tables and asset are as they were.
    spoiled :
        c.hash ≢ chunk_hash d c.payload
        → Careful t active received c (
            replied
              (chunk_ack c.offset ChunkOutcome.corrupt)
              (record { tables = t; current = some active }))
    -- It names the offset to continue from, for a chunk that begins elsewhere or is too long: tables
    -- and asset are as they were.
    strayed :
        {n : ℕ}
        → n ≡ length received
        → (c.offset ≢ length received)
          ⊎ (active.asset.total_bytes < length received + length c.payload)
        → Careful t active received c (
            replied
              (chunk_ack c.offset (ChunkOutcome.misaligned n))
              (record { tables = t; current = some active }))
    -- The device fails: the tables are as they were, and so is what is held.
    stopped :
        {e : Error} {a : InboundAsset d}
        → Holds d a received
        → Careful t active received c
            (ended (core e) (record { tables = t; current = some (record active { asset = a }) }))

  judged-Careful :
      (now n : ℕ) (t : Db) (active : Active d) (received : Bytes) (c : Chunk)
      (r : Run (InboundAsset d) ChunkVerdict)
      → IsAt t sid (quick_of active) ref total n
      → n ≤ length received
      → active.asset.total_bytes < i64_bound
      → Answered d active.asset received c r
      → Careful t active received c (judged d sid now c.offset t active r)
  unfolding judged
  judged-Careful now n t active received c (done (accepted k) a) at behind fits
        (taken begins good size same v) =
      acked begins good (size ∙ sym (length-append received c.payload))
        (subst
          (λ (z : ℕ).
            IsAt (advance t sid (quick_of active) k now) sid (quick_of active) ref total z)
          (omega (arith, size))
          (advance-IsAt t sid (quick_of active) ref total n k now
            (omega (arith, size, v.within, same, length-append received c.payload)) at))
        v
  judged-Careful now n t active received c r at behind fits (damaged wrong) = spoiled wrong
  judged-Careful now n t active received c r at behind fits (misplaced where_to why) =
      strayed where_to why
  judged-Careful now n t active received c r at behind fits (faulted v) = stopped v

  -- While what is on record for an asset is at most what is held of it, the receiver answers any chunk
  -- shorter than 2^63 with care, whatever the device does. It accepts only a chunk that continues what
  -- it holds under its own hash, and then the offset behind it is on record and all bytes below that
  -- are flushed and verified; it says corrupt only of a chunk whose hash is wrong; it says misaligned
  -- only of one that begins elsewhere or is too long, with the offset to continue from; neither of
  -- these changes anything; and it ends the session on a fault of the device with everything that was
  -- held.
  pub on_chunk-Careful :
      (law : IsIncremental d) (now n : ℕ) (t : Db) (active : Active d) (received : Bytes)
      (offset : ℕ) (hash : Hash32) (payload : Bytes)
      → IsAt t sid (quick_of active) ref total n
      → n ≤ length received
      → Holds d active.asset received
      → length payload < i64_bound
      → Careful t active received
          (record { offset = offset; payload = payload; hash = hash })
          (on_chunk d sid now (record { tables = t; current = some active }) offset hash payload)
  unfolding on_chunk
  on_chunk-Careful law now n t active received offset hash payload at behind v small =
      judged-Careful now n t active received
        (record { offset = offset; payload = payload; hash = hash })
        (accept_chunk d active.asset (record { offset = offset; payload = payload; hash = hash }))
        at behind v.fits
        (accept_chunk-Answered d law active.asset received
          (record { offset = offset; payload = payload; hash = hash }) v small)

module _ (d : Sha256) (law : IsIncremental d) where
  -- An asset is under way, with an acknowledged offset on record, when the power fails. After the
  -- restart, on a device that works again and with the asset's size below the width of usize, the next
  -- `AssetBegin` for it changes no table and leaves an asset that holds exactly the bytes below that
  -- offset, whatever staging name is offered.
  pub on_asset_begin-Crash :
      (w now n : ℕ) (sid ref ref' : String) (a : InboundAsset d) (received : Bytes) (g : File)
      (s : Receiver d) (descriptor : AssetDescriptor)
      → IsAt s.tables sid descriptor.quick_hash ref a.total_bytes n
      → IsHash descriptor.quick_hash
      → descriptor.size ≡ a.total_bytes
      → 0 < n
      → n ≤ length received
      → Holds d a received
      → Crash a.staging g
      → g.faults ≡ []
      → a.total_bytes < w
      → (b : InboundAsset d) × (on_asset_begin d w sid now s descriptor ref' g
          ≡ silent (record {
            tables = s.tables;
            current = some (record { descriptor = descriptor; staging_ref = ref'; asset = b });
          }))
        × Holds d b (take n received)
  unfolding on_asset_begin
  on_asset_begin-Crash w now n sid ref ref' a received g s descriptor at h size some_bytes behind v
        crash works wide =
      let (b, run, whole, held) = resume-Crash d law w n a received g v crash works behind wide in
      (
        b,
        ap (opened d w descriptor ref' g s) (
              open_transfer_again s.tables sid descriptor.quick_hash ref ref' a.total_bytes
                descriptor.size n now h (omega (arith, v.fits)) at)
            ∙ rw (lt→ltb 0 n some_bytes) (
                ap (started d descriptor ref' s s.tables)
                  (ap (λ (z : ℕ). resume d w z n g) size ∙ run)),
        held,
      )
