-- ===== src/Chunk/Receiver/Holds.antt =====
-- What an `InboundAsset` of crates/core/src/chunk.rs holds, and how each of its calls keeps it.
use photosync.Prelude.{
  ℕ, ◌+◌, ◌≡◌, ◌≢◌, refl, ◌∙◌, ap, sym, subst, ltb→lt, ◌≤◌, ◌<◌, ◌⊎◌, inl, inr, Bool-cases, List,
  [], ◌∷◌, ◌++◌, arith, Option, none, some, ltb, ◌==◌, take, length, length-append,
}
use photosync.Prelude.Int.{u64_mod, i64_bound}
use photosync.Prelude.Bytes.{Bytes}
use photosync.Errors.{Error, Run, done, fail}
use photosync.Model.{hash_eq}
use photosync.Model.Laws.{hash_eq_iff}
use photosync.Staging.{File, seek_start, write_all, sync, overwrite}
use photosync.Staging.Laws.{le-length_of_take, take-overwrite, take-overwrite_end}
use photosync.Identity.{Sha256, IsIncremental, chunk_hash, feed}
use photosync.Identity.Laws.{IsFed, feed-IsFed}
use photosync.Chunk.{Chunk, end, ChunkVerdict, accepted, corrupt, misaligned}
use photosync.Chunk.Receiver.{InboundAsset, accept_chunk, store, advanced}

-- The first bytes of the file are `received`, to a reader and on the disk.
pub record Keeps (f : File) (received : Bytes) : Type 0 where
  pub readable : take (length received) f.content ≡ received
  pub lasting : take (length received) f.durable ≡ received

module _ (d : Sha256) where
  -- The asset has verified, flushed and hashed exactly `received`. A size fits an i64 column.
  pub record Holds (a : InboundAsset d) (received : Bytes) : Type 0 where
    pub kept : Keeps a.staging received
    pub hashed : IsFed d a.hasher received
    pub offset : a.bytes_received ≡ length received
    pub within : length received ≤ a.total_bytes
    pub fits : a.total_bytes < i64_bound

-- Storing a chunk behind what is kept: the prefix stays if a call fails, and grows if none does.
pub data Stored (received payload : Bytes) : Run File (Unit {0}) → Type 0 where
  whole : {f : File} → Keeps f (received ++ payload) → Stored received payload (done tt f)
  broken : {e : Error} {f : File} → Keeps f received → Stored received payload (fail e f)

module _ (received payload c u : Bytes) (readable : take (length received) c ≡ received)
    (lasting : take (length received) u ≡ received) where
  grown :
      take (length (received ++ payload)) (overwrite (length received) payload c)
      ≡ received ++ payload
  grown =
      ap (λ (n : ℕ). take n (overwrite (length received) payload c))
        (length-append received payload)
      ∙ take-overwrite_end (length received) payload c (le-length_of_take c received readable)
      ∙ ap (λ (xs : Bytes). xs ++ payload) readable

  unharmed :
      (piece : Bytes) → take (length received) (overwrite (length received) piece c) ≡ received
  unharmed piece =
      take-overwrite (length received) (length received) piece c (omega arith)
        (le-length_of_take c received readable)
      ∙ readable

  same :
      {p : ℕ} {fs : List (Option ℕ)}
      → Keeps (record { content = c; durable = u; pos = p; faults = fs }) received
  same = record { readable = readable; lasting = lasting }

  cut :
      (piece : Bytes) {p : ℕ} {fs : List (Option ℕ)}
      → Keeps
          (record {
            content = overwrite (length received) piece c;
            durable = u;
            pos = p;
            faults = fs;
          })
          received
  cut piece = record { readable = unharmed piece; lasting = lasting }

  full :
      {p : ℕ} {fs : List (Option ℕ)}
      → Keeps
          (record {
            content = overwrite (length received) payload c;
            durable = overwrite (length received) payload c;
            pos = p;
            faults = fs;
          })
          (received ++ payload)
  full = record { readable = grown; lasting = grown }

  store_parts-Stored :
      (p : ℕ) (fs : List (Option ℕ))
      → Stored received payload (
          store
            (length received)
            payload
            (record { content = c; durable = u; pos = p; faults = fs }))
  unfolding store seek_start write_all sync
  store_parts-Stored p [] = whole full
  store_parts-Stored p (some k ∷ fs) = broken same
  store_parts-Stored p (none ∷ []) = whole full
  store_parts-Stored p (none ∷ some k ∷ fs) = broken (cut (take k payload))
  store_parts-Stored p (none ∷ none ∷ []) = whole full
  store_parts-Stored p (none ∷ none ∷ some k ∷ fs) = broken (cut payload)
  store_parts-Stored p (none ∷ none ∷ none ∷ fs) = whole full

pub store-Stored :
    (f : File) (received payload : Bytes)
    → Keeps f received
    → Stored received payload (store (length received) payload f)
store-Stored f received payload k =
    store_parts-Stored received payload f.content f.durable k.readable k.lasting f.pos f.faults

module _ (d : Sha256) where
  -- What one chunk may lead to, for an asset that holds `received`.
  pub data Answered (a : InboundAsset d) (received : Bytes) (c : Chunk)
      : Run (InboundAsset d) ChunkVerdict → Type 0 where
    -- Accepted: it continued the bytes, its hash was right, and it is held now.
    taken :
        {n : ℕ} {a' : InboundAsset d}
        → c.offset ≡ length received
        → c.hash ≡ chunk_hash d c.payload
        → n ≡ length received + length c.payload
        → a'.total_bytes ≡ a.total_bytes
        → Holds d a' (received ++ c.payload)
        → Answered a received c (done (accepted n) a')
    -- Refused for its hash: nothing was written.
    damaged : c.hash ≢ chunk_hash d c.payload → Answered a received c (done corrupt a)
    -- Refused for its place, with the offset to continue from: nothing was written.
    misplaced :
        {n : ℕ}
        → n ≡ length received
        → (c.offset ≢ length received) ⊎ (a.total_bytes < length received + length c.payload)
        → Answered a received c (done (misaligned n) a)
    -- A call failed: what was held before is still held.
    faulted :
        {e : Error} {a' : InboundAsset d} → Holds d a' received → Answered a received c (fail e a')

pub end-fits :
    (c : Chunk) (received : Bytes)
    → c.offset ≡ length received
    → length received + length c.payload < u64_mod
    → end c ≡ length received + length c.payload
unfolding end
end-fits c received e h = omega arith

module _ (d : Sha256) (law : IsIncremental d) where
  advanced-Answered :
      (a : InboundAsset d) (received : Bytes) (c : Chunk) (r : Run File (Unit {0}))
      → Holds d a received
      → c.offset ≡ length received
      → c.hash ≡ chunk_hash d c.payload
      → length received + length c.payload ≤ a.total_bytes
      → Stored received c.payload r
      → Answered d a received c (advanced d a c.payload r)
  advanced-Answered a received c (done _ f) v at good inside (whole k) =
      taken at good (omega (arith, fed.count, length-append received c.payload)) refl (record {
        kept = k;
        hashed = fed;
        offset = fed.count;
        within = omega (arith, length-append received c.payload);
        fits = v.fits;
      })
    where
      fed : IsFed d (feed d a.hasher c.payload) (received ++ c.payload)
      fed = feed-IsFed d law a.hasher received c.payload (omega arith) v.hashed
  advanced-Answered a received c (fail e f) v at good inside (broken k) =
      faulted (record {
        kept = k;
        hashed = v.hashed;
        offset = v.offset;
        within = v.within;
        fits = v.fits;
      })

  -- For an asset that holds the bytes received so far and a chunk shorter than 2^63, whatever the
  -- device does: `accept_chunk` takes the chunk only if it continues these bytes and its hash is
  -- right, and holds it then; it refuses it for its hash or for its place without writing anything;
  -- and if the device fails, it still holds what it held.
  pub accept_chunk-Answered :
      (a : InboundAsset d) (received : Bytes) (c : Chunk)
      → Holds d a received
      → length c.payload < i64_bound
      → Answered d a received c (accept_chunk d a c)
  unfolding accept_chunk
  accept_chunk-Answered a received c v small = elim (Bool-cases (c.offset == a.bytes_received)) [
    | inr off ↦ rw off (misplaced v.offset (inl (ground (arith, v.offset))))
    | inl at ↦
        let begins : c.offset ≡ length received = ground (arith, v.offset) in
        let end_lem : end c ≡ length received + length c.payload =
          end-fits c received begins (omega arith) in
        rw at (elim (Bool-cases (hash_eq (chunk_hash d c.payload) c.hash)) [
          | inr bad ↦
              rw bad (damaged (λ e. cc ((hash_eq_iff (chunk_hash d c.payload) c.hash).1 (sym e))))
          | inl good ↦ rw good (elim (Bool-cases (ltb a.total_bytes (end c))) [
            | inl over ↦ rw over (
                misplaced v.offset
                  (inr (omega (arith, ltb→lt a.total_bytes (end c) over, end_lem))))
            | inr inside ↦ rw inside (
                advanced-Answered a received c _ v begins (sym ((hash_eq_iff _ _).0 good))
                  (ground (arith, end_lem, begins)) stored)
          ])
        ])
  ]
    where
      stored : Stored received c.payload (store a.bytes_received c.payload a.staging)
      stored =
          subst (λ (n : ℕ). Stored received c.payload (store n c.payload a.staging)) (sym v.offset)
            (store-Stored a.staging received c.payload v.kept)
