-- ===== src/Chunk/Receiver.antt =====
-- `InboundAsset` of crates/core/src/chunk.rs. A method on `&mut self` returns the asset it leaves
-- also when it fails; `begin` and `resume` own the staging file, and leave it behind if they fail.
pub mod Holds
pub mod Crash
use photosync.Prelude.{
  ℕ, ◌+◌, ◌≡◌, Bool, true, false, Option, none, some, ltb, ◌==◌, if◌then◌else◌, length, not,
}
use photosync.Prelude.Bytes.{Bytes}
use photosync.Errors.{Error, corrupt_row, empty_asset, Result, ok, err, Run, done, fail}
use photosync.Model.{Hash32, hash_eq}
use photosync.Staging.{
  File, Io, ◌>>=◌, ◌>>◌, pure, throw, seek_start, write_all, set_len, sync, len,
}
use photosync.Identity.{Sha256, FullHasher, new_hasher, feed, finish, chunk_hash, resume_from}
use photosync.Chunk.{
  Chunk, end, ChunkVerdict, accepted, corrupt, misaligned, FinishVerdict, verified, mismatch, short,
}

-- The bytes go to storage and are flushed before the offset can be reported.
unfoldable pub store : ℕ → Bytes → Io (Unit {0})
store at payload = do seek_start at; write_all payload; sync

module _ (d : Sha256) where
  pub record InboundAsset : Type 0 where
    pub staging : File
    pub hasher : FullHasher d
    pub total_bytes : ℕ
    pub bytes_received : ℕ

  -- The staging file moves into the asset; a failed call drops the handle, not the file.
  abbrev pub opened : ℕ → ℕ → Run File (FullHasher d) → Run File InboundAsset
  opened total received (done h f) =
      done (record { staging = f; hasher = h; total_bytes = total; bytes_received = received }) f
  opened total received (fail e f) = fail e f

  -- `InboundAsset::begin`
  unfoldable pub begin : ℕ → Io InboundAsset
  unfolding new_hasher
  begin total staging = opened total 0 ((do set_len 0; seek_start 0; pure (new_hasher d)) staging)

  -- The digest of what is kept, with the file left at its end.
  abbrev pub rebuild : ℕ → ℕ → Io (FullHasher d)
  rebuild usize_mod received = do
    hasher ← resume_from d usize_mod received
    seek_start received
    pure hasher

  -- `InboundAsset::resume`
  unfoldable pub resume : ℕ → ℕ → ℕ → Io InboundAsset
  resume usize_mod total received staging = opened total received (
      (do
        on_disk ← len
        if ltb on_disk received
            then throw (corrupt_row "inbound_transfer" "bytes_received")
            else pure tt
        if ltb received on_disk then set_len received else pure tt
        rebuild usize_mod received)
        staging)

  -- `InboundAsset::resume_offset`
  unfoldable pub resume_offset : InboundAsset → ℕ
  resume_offset a = a.bytes_received

  abbrev pub advanced : InboundAsset → Bytes → Run File (Unit {0}) → Run InboundAsset ChunkVerdict
  advanced a payload (done _ f) =
      let h : FullHasher d = feed d a.hasher payload in
      done (accepted h.bytes) (record a { staging = f; hasher = h; bytes_received = h.bytes })
  advanced a payload (fail e f) = fail e (record a { staging = f })

  -- `InboundAsset::accept_chunk`
  unfoldable pub accept_chunk : InboundAsset → Chunk → Run InboundAsset ChunkVerdict
  unfolding end store
  accept_chunk a c =
      if not (c.offset == a.bytes_received)
      then done (misaligned a.bytes_received) a
      else if not (hash_eq (chunk_hash d c.payload) c.hash)
      then done corrupt a
      else if ltb a.total_bytes (end c)
      then done (misaligned a.bytes_received) a
      else advanced a c.payload (store a.bytes_received c.payload a.staging)

  -- `InboundAsset::finish`
  unfoldable pub finish_asset : InboundAsset → Hash32 → Result (FinishVerdict × File)
  finish_asset a declared =
      if not (a.bytes_received == a.total_bytes)
      then ok (short a.bytes_received a.total_bytes, a.staging)
      else elim (finish d a.hasher) [
        | none ↦ err empty_asset
        | some actual ↦
            if hash_eq actual declared
            then ok (verified actual, a.staging)
            else ok (mismatch declared actual, a.staging)
      ]
