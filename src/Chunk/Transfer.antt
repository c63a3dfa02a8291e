-- ===== src/Chunk/Transfer.antt =====
-- The two ends of crates/core/src/chunk.rs together: the chunks of an `OutboundAsset` handed to an
-- `InboundAsset` one by one, as the loops of the orchestrator do while nothing is refused.
use native.Mathlib.Decide.{dec_lt}
use photosync.Prelude.{
  ℕ, zero, suc, ◌+◌, ◌-◌, ◌≡◌, refl, ◌∙◌, ap, sym, subst, ◌≤◌, ◌<◌, true, false, [], ◌++◌, arith,
  Option, none, some, ltb, ◌==◌, take, length, length-take, take-add, take_all,
}
use photosync.Prelude.Int.{i64_bound}
use photosync.Prelude.Bytes.{Bytes}
use photosync.Errors.{Run, done, fail, ok}
use photosync.Model.{Hash32, hash_eq}
use photosync.Model.Laws.{hash_eq_refl, hash_eq_iff}
use photosync.Staging.{File, seek_start, write_all, sync}
use photosync.Identity.{Sha256, IsIncremental, chunk_hash, digest, feed}
use photosync.Identity.Laws.{quiet}
use photosync.Chunk.{Chunk, end, chunk_count, ChunkVerdict, accepted, corrupt, misaligned, verified}
use photosync.Chunk.Source.{OutboundAsset, resume, next_chunk, full_hash}
use photosync.Chunk.Source.Stream.{
  Sends, piece_len, next_piece, length-piece, next_chunk-Sends, next_chunk_end, full_hash-Sends,
  resume-Sends,
}
use photosync.Chunk.Receiver.{InboundAsset, accept_chunk, finish_asset, store, advanced}
use photosync.Chunk.Receiver.Holds.{Holds, Answered, taken, accept_chunk-Answered, end-fits}
use photosync.Chunk.Receiver.Crash.{verdict, finish_asset-verdict}

-- On a working device a store succeeds, and the device goes on working.
store_works :
    (n : ℕ) (payload c u : Bytes) (p : ℕ)
    → (g : File) × (store n payload (quiet c u p) ≡ done tt g) × (g.faults ≡ [])
unfolding store seek_start write_all sync
store_works n payload c u p = (_, refl, refl)

module _ (d : Sha256) where
  abbrev Ends : Type 0
  Ends = Option (OutboundAsset d × InboundAsset d)

  abbrev deliver : (InboundAsset d → Ends) → Run (InboundAsset d) ChunkVerdict → Ends
  deliver k (done (accepted _) into) = k into
  deliver k (done corrupt into) = none
  deliver k (done (misaligned _) into) = none
  deliver k (fail _ into) = none

  abbrev offer :
      InboundAsset d
      → (Chunk → OutboundAsset d → Ends)
      → Run (OutboundAsset d) (Option Chunk)
      → Ends
  offer into k (done none out) = some (out, into)
  offer into k (done (some c) out) = k c out
  offer into k (fail _ out) = none

  -- Both ends after the last chunk; `none` if a call failed, a chunk was refused or fuel ran out.
  unfoldable pub stream : ℕ → OutboundAsset d → InboundAsset d → Ends
  stream zero out into = none
  stream (suc fuel) out into =
      offer into (λ c rest. deliver (stream fuel rest) (accept_chunk d into c)) (next_chunk d out)

  Answered-taken :
      {a b : InboundAsset d} {received : Bytes} {c : Chunk} {n : ℕ}
      → Answered d a received c (done (accepted n) b)
      → (b.total_bytes ≡ a.total_bytes) × Holds d b (received ++ c.payload)
  Answered-taken (taken _ _ _ t v) = (t, v)

  -- A chunk that continues the bytes, with its own hash, is accepted on a working device.
  accept_chunk_works :
      (a : InboundAsset d) (received : Bytes) (c : Chunk)
      → Holds d a received
      → a.staging.faults ≡ []
      → c.offset ≡ length received
      → c.hash ≡ chunk_hash d c.payload
      → length received + length c.payload ≤ a.total_bytes
      → (n : ℕ) × (b : InboundAsset d) × (accept_chunk d a c ≡ done (accepted n) b)
        × (b.staging.faults ≡ [])
  unfolding accept_chunk
  accept_chunk_works a received c v works at good inside =
      let (g, run, still) =
        store_works a.bytes_received c.payload a.staging.content a.staging.durable a.staging.pos in
      (
        (feed d a.hasher c.payload).bytes,
        record a {
          staging = g;
          hasher = feed d a.hasher c.payload;
          bytes_received = (feed d a.hasher c.payload).bytes;
        },
        rw (begins, sound, room)
            (ap (advanced d a c.payload) (ap (store a.bytes_received c.payload) same ∙ run)),
        still,
      )
    where
      begins : (c.offset == a.bytes_received) ≡ true
      begins = ground (arith, v.offset)

      sound : hash_eq (chunk_hash d c.payload) c.hash ≡ true
      sound = (hash_eq_iff (chunk_hash d c.payload) c.hash).1 (sym good)

      room : ltb a.total_bytes (end c) ≡ false
      room = ground (arith, v.fits, end-fits c received at (omega (arith, v.fits)))

      same : a.staging ≡ quiet a.staging.content a.staging.durable a.staging.pos
      same i = record {
        content = a.staging.content;
        durable = a.staging.durable;
        pos = a.staging.pos;
        faults = works i;
      }

module _ (d : Sha256) (law : IsIncremental d) where
  -- Started anywhere, the two ends meet at the end of the original, each having hashed all of it.
  pub stream-Holds :
      (fuel : ℕ) (out : OutboundAsset d) (into : InboundAsset d) (original : Bytes)
      → Sends d out original
      → Holds d into (take out.offset original)
      → into.total_bytes ≡ length original
      → into.staging.faults ≡ []
      → chunk_count (length original - out.offset) < fuel
      → (out' : OutboundAsset d) × (into' : InboundAsset d) × (stream d fuel out into
          ≡ some (out', into'))
        × Sends d out' original
        × (out'.offset ≡ out'.total_bytes)
        × (into'.total_bytes ≡ length original)
        × Holds d into' original
  unfolding stream chunk_count
  stream-Holds zero out into original s v t works enough = absurd (omega arith)
  stream-Holds (suc fuel) out into original s v t works enough =
      elim (dec_lt out.offset out.total_bytes) [
        | no stop ↦
            let e : out.offset ≡ out.total_bytes = omega (arith, s.size, s.within) in
            (
              out,
              into,
              rw (next_chunk_end d law out original s e),
              s,
              e,
              t,
              subst (λ (x : Bytes). Holds d into x)
                  (take_all out.offset original (omega (arith, s.size))) v,
            )
        | yes more ↦
            let (rest, run, moved, size, s') = next_chunk-Sends d law out original s more in
            let c : Chunk = next_piece d out original in
            let got : length c.payload ≡ piece_len d out = length-piece d law out original s in
            let (n, next, acc, works') =
              accept_chunk_works d into (take out.offset original) c v works
                (omega (arith, s.within, length-take out.offset original)) refl
                (omega (arith, got, s.size, s.within, length-take out.offset original)) in
            let (t', v') = Answered-taken d (
              subst (Answered d into (take out.offset original) c) acc (
                accept_chunk-Answered d law into (take out.offset original) c v
                  (omega (arith, got, s.fits)))) in
            let (out', into', ran, sends, ended, whole, holds) =
              stream-Holds fuel rest next original s'
                (subst (λ (x : Bytes). Holds d next x)
                  (sym (
                    ap (λ (k : ℕ). take k original) moved
                    ∙ take-add out.offset (piece_len d out) original))
                  v')
                (t' ∙ t) works' (omega (arith, moved, s.size)) in
            (
              out',
              into',
              ap (offer d into (λ k left. deliver d (stream d fuel left) (accept_chunk d into k)))
                    run
                  ∙ ap (deliver d (stream d fuel rest)) acc
                  ∙ ran,
              sends,
              ended,
              whole,
              holds,
            )
      ]

  -- With the receiver holding the first p bytes of a non-empty original, both devices working, p
  -- below the width of usize and fuel above the number of chunks left: the sender resumes at p, the
  -- two ends run to the end, the receiver's verdict on the sender's hash is `Verified`, and the
  -- original is on the receiver's disk.
  pub stream-verified :
      (w p k fuel : ℕ) (original u : Bytes) (into : InboundAsset d)
      → Holds d into (take p original)
      → into.total_bytes ≡ length original
      → into.staging.faults ≡ []
      → p ≤ length original
      → p < w
      → 0 < length original
      → chunk_count (length original - p) < fuel
      → (out : OutboundAsset d) × (out' : OutboundAsset d) × (into' : InboundAsset d) × (h : Hash32)
        × (resume d w (length original) p (quiet original u k) ≡ done out out.source)
        × (stream d fuel out into ≡ some (out', into'))
        × (full_hash d out' ≡ some h)
        × (finish_asset d into' h ≡ ok (verified h, into'.staging))
        × (take (length original) into'.staging.durable ≡ original)
  stream-verified w p k fuel original u into v t works inside wide some_bytes enough =
      let small : length original < i64_bound = omega (arith, v.fits) in
      let (out, resumed, at, s) = resume-Sends d law w p k original u inside wide small in
      let (out', into', ran, s', ended, whole, held) =
        stream-Holds fuel out into original s
          (subst (λ (n : ℕ). Holds d into (take n original)) (sym at) v) t works (rw at enough) in
      (
        out,
        out',
        into',
        digest d (d.update d.new original),
        resumed,
        ran,
        full_hash-Sends d law out' original s' ended some_bytes,
        finish_asset-verdict d law into' original _ held ∙ judged into' whole,
        held.kept.lasting,
      )
    where
      judged :
          (into' : InboundAsset d)
          → into'.total_bytes ≡ length original
          → verdict d law original into'.total_bytes
              (digest d (d.update d.new original))
              into'.staging
            ≡ ok (verified (digest d (d.update d.new original)), into'.staging)
      judged into' whole = ground (arith, hash_eq_refl (digest d (d.update d.new original)))
