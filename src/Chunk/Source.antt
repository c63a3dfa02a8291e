-- ===== src/Chunk/Source.antt =====
-- `OutboundAsset` of crates/core/src/chunk.rs. A method on `&mut self` returns the asset it leaves.
pub mod Stream
use photosync.Prelude.{
  ℕ, ◌-◌, ◌≡◌, Bool, true, false, Option, none, some, ltb, leb, if◌then◌else◌, min, length,
}
use photosync.Prelude.Bytes.{Bytes}
use photosync.Errors.{Error, corrupt_row, Run, done, fail}
use photosync.Model.{Hash32}
use photosync.Staging.{File, Io, ◌>>=◌, ◌>>◌, pure, throw, seek_start, read_exact}
use photosync.Identity.{Sha256, FullHasher, new_hasher, feed, finish, chunk_hash, resume_from}
use photosync.Chunk.{Chunk, chunk_len}

module _ (d : Sha256) where
  pub record OutboundAsset : Type 0 where
    pub source : File
    pub hasher : FullHasher d
    pub total_bytes : ℕ
    pub offset : ℕ

  abbrev pub opened : ℕ → ℕ → Run File (FullHasher d) → Run File OutboundAsset
  opened total offset (done h f) =
      done (record { source = f; hasher = h; total_bytes = total; offset = offset }) f
  opened total offset (fail e f) = fail e f

  -- `OutboundAsset::begin`
  unfoldable pub begin : ℕ → Io OutboundAsset
  unfolding new_hasher
  begin total source = opened total 0 ((do seek_start 0; pure (new_hasher d)) source)

  -- `OutboundAsset::resume`
  unfoldable pub resume : ℕ → ℕ → ℕ → Io OutboundAsset
  resume usize_mod total offset source = opened total offset (
      (do
        if ltb total offset then throw (corrupt_row "(resume)" "offset") else pure tt
        hasher ← resume_from d usize_mod offset
        seek_start offset
        pure hasher)
        source)

  -- `OutboundAsset::is_complete`
  unfoldable pub is_complete : OutboundAsset → Bool
  is_complete a = leb a.total_bytes a.offset

  abbrev pub produced : OutboundAsset → Run File Bytes → Run OutboundAsset (Option Chunk)
  produced a (done payload f) =
      let h : FullHasher d = feed d a.hasher payload in
      done (some (record { offset = a.offset; payload = payload; hash = chunk_hash d payload }))
        (record a { source = f; hasher = h; offset = h.bytes })
  produced a (fail e f) = fail e (record a { source = f })

  -- `OutboundAsset::next_chunk`
  unfoldable pub next_chunk : OutboundAsset → Run OutboundAsset (Option Chunk)
  unfolding is_complete
  next_chunk a =
      if is_complete a
      then done none a
      else produced a (read_exact (min (a.total_bytes - a.offset) chunk_len) a.source)

  -- `OutboundAsset::full_hash`
  unfoldable pub full_hash : OutboundAsset → Option Hash32
  unfolding is_complete
  full_hash a = if is_complete a then finish d a.hasher else none
