-- ===== src/Net/Sender/Honest.antt =====
-- What `send_asset` of crates/net/src/orchestrator.rs sends, whatever the peer answers and the link does.
use mathlib.Core.Option.{some-injective}
use photosync.Prelude.{
  ltb→lt, length-take, ℕ, ◌≡◌, refl, ◌∙◌, sym, inl, inr, ◌≤◌, ◌<◌, true, false, Option, none, some,
  arith, length, take, drop, leb, ltb, Bool-cases,
}
use photosync.Prelude.Int.{i64_bound}
use photosync.Prelude.Bytes.{Bytes}
use photosync.Errors.{corrupt_row, Error}
use photosync.Model.{Hash32}
use photosync.Staging.{File, seek_start}
use photosync.Identity.{Sha256, IsIncremental, chunk_hash, digest, finish, new_hasher}
use photosync.Identity.Laws.{quiet, new_hasher-IsFed}
use photosync.Chunk.{Chunk}
use photosync.Chunk.Source.{OutboundAsset, begin, resume, next_chunk, full_hash}
use photosync.Chunk.Source.Stream.{
  Sends, next_chunk-Sends, next_chunk_end, full_hash-Sends, resume-Sends, resume_beyond, piece_len,
  next_piece,
}
use photosync.Proto.{Frame, Message, chunk, asset_end}
use photosync.Net.Talk.{SessionError, core, World, ran}
use photosync.Net.Talk.Laws.{Ends}
use photosync.Net.Sender.{Delivered, committed, already_present, failed}

module _ (d : Sha256) (original : Bytes) where
  abbrev pub whole : Hash32
  whole = digest d (d.update d.new original)

  -- A chunk is a piece of the original under its own hash.
  abbrev pub Piece : ℕ → Bytes → Hash32 → Type 0
  Piece offset payload hash =
      (n : ℕ) × (payload ≡ take n (drop offset original)) × (hash ≡ chunk_hash d payload)

  abbrev pub Honest : Message → Bytes → Type 0
  Honest (chunk offset hash) payload = Piece offset payload hash
  Honest (asset_end full) payload = full ≡ whole
  Honest _ payload = Unit {0}

  abbrev pub HonestFrame : Frame → Type 0
  HonestFrame f = Honest f.message f.payload

  abbrev pub Delivers : Delivered → Type 0
  Delivers (committed full bytes) = (full ≡ whole) × (bytes ≡ length original)
  Delivers (already_present full) = full ≡ whole
  Delivers failed = Unit {0}

  pub full_hash_of :
      (law : IsIncremental d) (a : OutboundAsset d) (h : Hash32)
      → Sends d a original
      → full_hash d a ≡ some h
      → h ≡ whole
  unfolding full_hash finish
  full_hash_of law a h v e = elim (Bool-cases (leb a.total_bytes a.offset)) [
    | inr short ↦ cc (rw (short, full_hash) at e)
    | inl over ↦ elim (Bool-cases (ltb 0 (length original))) [
      | inl some_bytes ↦ some-injective h (whole) (
          sym e
          ∙ full_hash-Sends d law a original v (ended over) (ltb→lt 0 (length original) some_bytes))
      | inr no_bytes ↦
          let none_fed : a.hasher.bytes ≡ 0 =
            omega (arith, v.hashed.count, length-take a.offset original, ge_of no_bytes) in
          cc (rw (over, none_fed, full_hash, finish) at e)
    ]
  ]
    where
      ended : leb a.total_bytes a.offset ≡ true → a.offset ≡ a.total_bytes
      ended over =
          let h1 : a.total_bytes ≤ a.offset = ground arith in omega (arith, v.within, v.size, h1)

      ge_of : ltb 0 (length original) ≡ false → length original ≤ 0
      ge_of e' = ground arith

  -- `next_chunk` of an asset that reads the original.
  pub Ends-next :
      (law : IsIncremental d) (P : Option Chunk × OutboundAsset d → World → Type 0)
      (Q : SessionError → World → Type 0) (a : OutboundAsset d) (u : World)
      → Sends d a original
      → ((b : OutboundAsset d) → Sends d b original → P (none, b) u)
      → ((b : OutboundAsset d) (p : Chunk)
          → Sends d b original
          → Piece p.offset p.payload p.hash
          → P (some p, b) u)
      → Ends P Q (ran (next_chunk d a) u)
  Ends-next law P Q a u v over more = elim (Bool-cases (ltb a.offset a.total_bytes)) [
    | inl e ↦
        let (b, run, moved, total, w) = next_chunk-Sends d law a original v (ground arith) in
        rw run (more b (next_piece d a original) w (piece_len d a, refl, refl))
    | inr e ↦
        let h : a.total_bytes ≤ a.offset = ground arith in
        rw (next_chunk_end d law a original v (omega (arith, h, v.within, v.size))) (over a v)
  ]

  -- An original that is opened again, at an offset and from the start.
  pub Ends-resumed :
      (law : IsIncremental d) (P : OutboundAsset d × File → World → Type 0)
      (Q : SessionError → World → Type 0) (usize_mod size offset k : ℕ) (v : Bytes) (u : World)
      → size ≡ length original
      → length original < usize_mod
      → length original < i64_bound
      → ((a : OutboundAsset d) → Sends d a original → P (a, a.source) u)
      → ((e : Error) → Q (core e) u)
      → Ends P Q (ran (resume d usize_mod size offset (quiet original v k)) u)
  Ends-resumed law P Q usize_mod size offset k v u e wide fits good bad =
      elim (Bool-cases (ltb size offset)) [
        | inl over ↦
            let h : size < offset = ltb→lt size offset over in
            rw (resume_beyond d law usize_mod size offset (quiet original v k) h)
              (bad (corrupt_row "(resume)" "offset"))
        | inr inside ↦
            let h1 : offset ≤ size = ground arith in
            let h : offset ≤ length original = omega (arith, h1, e) in
            let (a, run, at, w) =
              resume-Sends d law usize_mod offset k original v h (omega (arith, h, wide)) fits in
            rw (e, run) (good a w)
      ]

  pub Ends-begun :
      (law : IsIncremental d) (P : OutboundAsset d × File → World → Type 0)
      (Q : SessionError → World → Type 0) (size k : ℕ) (v : Bytes) (u : World)
      → size ≡ length original
      → length original < i64_bound
      → ((a : OutboundAsset d) → Sends d a original → P (a, a.source) u)
      → Ends P Q (ran (begin d size (quiet original v k)) u)
  unfolding begin seek_start
  Ends-begun law P Q size k v u e fits good =
      good
        (record {
          source = quiet original v 0;
          hasher = new_hasher d;
          total_bytes = size;
          offset = 0;
        })
        (record {
          reads = refl;
          at = refl;
          works = refl;
          hashed = new_hasher-IsFed d law;
          size = e;
          within = omega arith;
          fits = fits;
        })
