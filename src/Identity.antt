-- ===== src/Identity.antt =====
-- crates/core/src/identity.rs: the quick key and the streaming full hash.
-- SHA-256 is the sha2 crate's: its incremental interface is the parameter `Sha256`. `usize_mod` is
-- 2 to the pointer width of the target, by which `as usize` wraps.
pub mod Laws
use photosync.Prelude.{
  ℕ, zero, suc, ◌+◌, ◌-◌, ◌*◌, ◌/◌, ◌%◌, ◌^◌, ◌≡◌, Bool, true, false, Option, none, some, ltb, leb,
  ◌==◌, min, if◌then◌else◌, length, ◌++◌, ◌∷◌, [],
}
use photosync.Prelude.Int.{u64_mod}
use photosync.Prelude.Bytes.{Bytes, be64}
use photosync.Model.{Hash32}
use photosync.Errors.{endless}
use photosync.Staging.{Io, ◌>>=◌, ◌>>◌, pure, throw, seek_start, read_exact}

-- `Sha256::new`, `update` and `finalize`.
pub record Sha256 : Type 1 where
  pub State : Type 0
  pub new : State
  pub update : State → Bytes → State
  pub finalize : State → Bytes

-- The digest is of the bytes fed so far, however they were cut into calls.
pub record IsIncremental (d : Sha256) : Type 0 where
  pub update-nil : (s : d.State) → d.update s [] ≡ s
  pub update-append : (s : d.State) (a b : Bytes) → d.update (d.update s a) b ≡ d.update s (a ++ b)

abbrev pub quick_sample_len : ℕ
quick_sample_len = 64 * 1024

abbrev pub quick_sample_regions : ℕ
quick_sample_regions = 3

abbrev pub quick_whole_file_threshold : ℕ
quick_whole_file_threshold = quick_sample_len * quick_sample_regions

-- The read buffer of `resume_from`.
abbrev pub buf_len : ℕ
buf_len = 2 * 1024 * 1024

module _ (d : Sha256) where
  -- The module's private `finish`.
  unfoldable pub digest : d.State → Hash32
  digest s = record { bytes = d.finalize s }

  unfoldable pub chunk_hash : Bytes → Hash32
  unfolding digest
  chunk_hash payload = digest (d.update d.new payload)

  unfoldable pub quick_hash : ℕ → Io Hash32
  unfolding digest
  quick_hash size =
      let h = d.update d.new (be64 size) in
      if leb size quick_whole_file_threshold
      then (do seek_start 0; buf ← read_exact size; pure (digest (d.update h buf)))
      else (do
        seek_start 0
        head ← read_exact quick_sample_len
        seek_start (size / 2 - quick_sample_len / 2)
        middle ← read_exact quick_sample_len
        seek_start (size - quick_sample_len)
        tail ← read_exact quick_sample_len
        pure (digest (d.update (d.update (d.update h head) middle) tail)))

  pub record FullHasher : Type 0 where
    pub hasher : d.State
    pub bytes : ℕ

  unfoldable pub new_hasher : FullHasher
  new_hasher = record { hasher = d.new; bytes = 0 }

  -- `FullHasher::update`
  unfoldable pub feed : FullHasher → Bytes → FullHasher
  feed me chunk = record {
    hasher = d.update me.hasher chunk;
    bytes = (me.bytes + length chunk) % u64_mod;
  }

  -- `FullHasher::finish`
  unfoldable pub finish : FullHasher → Option Hash32
  unfolding digest
  finish me = if me.bytes == 0 then none else some (digest me.hasher)

  -- The loop of `resume_from`: `fuel` bounds its rounds, and `endless` says that it needs more.
  unfoldable pub resume_loop : ℕ → ℕ → ℕ → FullHasher → Io FullHasher
  unfolding feed
  resume_loop usize_mod zero up_to me = if ltb me.bytes up_to then throw endless else pure me
  resume_loop usize_mod (suc fuel) up_to me = elim (ltb me.bytes up_to) [
    | true ↦ (do
      buf ← read_exact (min ((up_to - me.bytes) % usize_mod) buf_len)
      resume_loop usize_mod fuel up_to (feed me buf))
    | false ↦ pure me
  ]

  -- `FullHasher::resume_from`. While no more than the width of usize is left, every round reads a byte
  -- at least, so `up_to` rounds are enough.
  unfoldable pub resume_from : ℕ → ℕ → Io FullHasher
  unfolding resume_loop new_hasher
  resume_from usize_mod up_to = do seek_start 0; resume_loop usize_mod up_to up_to new_hasher
