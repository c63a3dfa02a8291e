-- ===== src/Chunk.antt =====
-- crates/core/src/chunk.rs: chunked transfer of one asset. The receiving side is Chunk/Receiver, the
-- sending side Chunk/Source; what the two guarantee stands in the modules below them.
pub mod Receiver
pub mod Source
pub mod Transfer
use photosync.Prelude.{ℕ, ◌+◌, ◌-◌, ◌*◌, ◌/◌, ◌%◌, length}
use photosync.Prelude.Int.{u64_mod}
use photosync.Prelude.Bytes.{Bytes}
use photosync.Model.{Hash32}

abbrev pub chunk_len : ℕ
chunk_len = 4 * 1024 * 1024

abbrev pub max_chunk_attempts : ℕ
max_chunk_attempts = 3

pub record Chunk : Type 0 where
  pub offset : ℕ
  pub payload : Bytes
  pub hash : Hash32

-- `Chunk::end`, in u64.
unfoldable pub end : Chunk → ℕ
end c = (c.offset + length c.payload) % u64_mod

pub data ChunkVerdict : Type 0 where
  accepted : ℕ → ChunkVerdict
  corrupt : ChunkVerdict
  misaligned : ℕ → ChunkVerdict

pub data FinishVerdict : Type 0 where
  verified : Hash32 → FinishVerdict
  mismatch : Hash32 → Hash32 → FinishVerdict
  short : ℕ → ℕ → FinishVerdict

-- `chunk_count`: `size.div_ceil(CHUNK_LEN)`.
unfoldable pub chunk_count : ℕ → ℕ
chunk_count size = (size + chunk_len - 1) / chunk_len
