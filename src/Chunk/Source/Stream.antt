-- ===== src/Chunk/Source/Stream.antt =====
-- What an `OutboundAsset` of crates/core/src/chunk.rs has read, and the chunks that it gives.
use photosync.Prelude.{
  ℕ, ◌+◌, ◌-◌, ◌≡◌, refl, ◌∙◌, ap, sym, subst, ◌≤◌, ◌<◌, true, false, [], arith, none, some, ltb,
  lt→ltb, leb, min, take, drop, length, length-take, length-drop, take-add, take_all,
}
use photosync.Prelude.Int.{i64_bound}
use photosync.Prelude.Bytes.{Bytes}
use photosync.Errors.{done, fail, corrupt_row}
use photosync.Staging.{File, seek_start, read_exact}
use photosync.Identity.{Sha256, IsIncremental, chunk_hash, feed, digest}
use photosync.Identity.Laws.{
  IsFed, feed-IsFed, quiet, read_exact-quiet, resume_from-IsFed, finish-IsFed,
}
use photosync.Chunk.{Chunk, chunk_len}
use photosync.Chunk.Source.{OutboundAsset, resume, next_chunk, full_hash}

module _ (d : Sha256) where
  -- The asset reads `original` on a working device, and has read up to its offset.
  pub record Sends (a : OutboundAsset d) (original : Bytes) : Type 0 where
    pub reads : a.source.content ≡ original
    pub at : a.source.pos ≡ a.offset
    pub works : a.source.faults ≡ []
    pub hashed : IsFed d a.hasher (take a.offset original)
    pub size : a.total_bytes ≡ length original
    pub within : a.offset ≤ length original
    pub fits : length original < i64_bound

  -- The length of the next chunk.
  abbrev pub piece_len : OutboundAsset d → ℕ
  piece_len a = min (a.total_bytes - a.offset) chunk_len

  abbrev pub piece : OutboundAsset d → Bytes → Bytes
  piece a original = take (piece_len a) (drop a.offset original)

  abbrev pub next_piece : OutboundAsset d → Bytes → Chunk
  next_piece a original = record {
    offset = a.offset;
    payload = piece a original;
    hash = chunk_hash d (piece a original);
  }

module _ (d : Sha256) (law : IsIncremental d) where
  module _ (a : OutboundAsset d) (original : Bytes) (v : Sends d a original) where
    read-piece :
        read_exact (piece_len d a) a.source
        ≡ done (piece d a original) (quiet original a.source.durable (a.offset + piece_len d a))
    read-piece =
        ap (read_exact (piece_len d a)) same
        ∙ read_exact-quiet original a.source.durable a.offset (piece_len d a)
            (omega (arith, v.within, v.size))
      where
        same : a.source ≡ quiet original a.source.durable a.offset
        same i = record {
          content = v.reads i;
          durable = a.source.durable;
          pos = v.at i;
          faults = v.works i;
        }

    pub length-piece : length (piece d a original) ≡ piece_len d a
    length-piece = omega (
      arith,
      v.size,
      v.within,
      length-take (piece_len d a) (drop a.offset original),
      length-drop a.offset original,
    )

    fed : IsFed d (feed d a.hasher (piece d a original)) (take (a.offset + piece_len d a) original)
    fed = rw (take-add a.offset (piece_len d a) original) (
        feed-IsFed d law a.hasher (take a.offset original) (piece d a original)
          (omega (arith, v.fits, v.within, v.size, length-piece, length-take a.offset original))
          v.hashed)

    -- An asset that reads the original on a working device and is short of its end: `next_chunk`
    -- gives the next bytes of the original with their own hash, and leaves an asset that has read
    -- exactly those.
    pub next_chunk-Sends :
        a.offset < a.total_bytes
        → (b : OutboundAsset d) × (next_chunk d a ≡ done (some (next_piece d a original)) b)
          × (b.offset ≡ a.offset + piece_len d a)
          × (b.total_bytes ≡ a.total_bytes)
          × Sends d b original
    unfolding next_chunk
    next_chunk-Sends more = (
      record {
        source = quiet original a.source.durable (a.offset + piece_len d a);
        hasher = feed d a.hasher (piece d a original);
        total_bytes = a.total_bytes;
        offset = (feed d a.hasher (piece d a original)).bytes;
      },
      rw (not_done, read-piece),
      moved,
      refl,
      record {
        reads = refl;
        at = sym moved;
        works = refl;
        hashed =
            subst (λ (n : ℕ). IsFed d (feed d a.hasher (piece d a original)) (take n original))
              (sym moved) fed;
        size = v.size;
        within = omega (arith, moved, v.within, v.size);
        fits = v.fits;
      },
    )
      where
        moved : (feed d a.hasher (piece d a original)).bytes ≡ a.offset + piece_len d a
        moved =
            omega
              (arith, fed.count, v.within, v.size, length-take (a.offset + piece_len d a) original)

        not_done : leb a.total_bytes a.offset ≡ false
        not_done = ground arith

    -- At the end it gives none.
    pub next_chunk_end : a.offset ≡ a.total_bytes → next_chunk d a ≡ done none a
    unfolding next_chunk
    next_chunk_end e = let over : leb a.total_bytes a.offset ≡ true = ground arith in rw over

    -- There the full hash is that of the original.
    pub full_hash-Sends :
        a.offset ≡ a.total_bytes
        → 0 < length original
        → full_hash d a ≡ some (digest d (d.update d.new original))
    unfolding full_hash
    full_hash-Sends e some_bytes = rw over (finish-IsFed d law a.hasher original all_fed some_bytes)
      where
        over : leb a.total_bytes a.offset ≡ true
        over = ground arith

        all_fed : IsFed d a.hasher original
        all_fed =
            subst (λ (x : Bytes). IsFed d a.hasher x)
              (take_all a.offset original (omega (arith, v.size))) v.hashed

  -- A sender that continues where the receiver says has the digest of what it skipped.
  pub resume-Sends :
      (w offset k : ℕ) (original u : Bytes)
      → offset ≤ length original
      → offset < w
      → length original < i64_bound
      → (a : OutboundAsset d) × (resume d w (length original) offset (quiet original u k)
          ≡ done a a.source)
        × (a.offset ≡ offset)
        × Sends d a original
  unfolding resume seek_start
  resume-Sends w offset k original u inside wide fits =
      let (h, run, fed) = resume_from-IsFed d law w offset original u k inside wide (omega arith) in
      (
        record {
          source = quiet original u offset;
          hasher = h;
          total_bytes = length original;
          offset = offset;
        },
        rw (not_beyond, run),
        refl,
        record {
          reads = refl;
          at = refl;
          works = refl;
          hashed = fed;
          size = refl;
          within = inside;
          fits = fits;
        },
      )
    where
      not_beyond : ltb (length original) offset ≡ false
      not_beyond = ground arith

  -- An offset beyond the asset is refused.
  pub resume_beyond :
      (w total offset : ℕ) (f : File)
      → total < offset
      → resume d w total offset f ≡ fail (corrupt_row "(resume)" "offset") f
  unfolding resume
  resume_beyond w total offset f h = rw (lt→ltb total offset h)
