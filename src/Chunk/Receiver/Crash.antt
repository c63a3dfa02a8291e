-- ===== src/Chunk/Receiver/Crash.antt =====
-- `begin`, `resume` and `finish` of crates/core/src/chunk.rs: where an asset starts, what survives a
-- power loss, and what the last verdict says.
use photosync.Prelude.{
  ℕ, ◌-◌, ◌≡◌, refl, ◌∙◌, ap, sym, subst, ◌≤◌, ◌<◌, false, List, [], ◌∷◌, ◌++◌, arith, Option, none,
  some, ltb, lt→ltb, Bool-cases, inl, inr, ◌==◌, take, replicate, length, length-append,
  length-take, take-take, take-append_left, if◌then◌else◌, not,
}
use photosync.Prelude.Int.{i64_bound}
use photosync.Prelude.Bytes.{Bytes}
use photosync.Errors.{Run, done, fail, io, device, corrupt_row, Result, ok, err, empty_asset}
use photosync.Model.{Hash32, hash_eq}
use photosync.Model.Laws.{hash_eq_iff}
use photosync.Staging.{File, Crash, seek_start, set_len, len}
use photosync.Staging.Laws.{le-length_of_take}
use photosync.Identity.{Sha256, IsIncremental, new_hasher, digest, finish}
use photosync.Identity.Laws.{quiet, resume_from-IsFed, new_hasher-IsFed}
use photosync.Chunk.{FinishVerdict, verified, mismatch, short}
use photosync.Chunk.Receiver.{InboundAsset, begin, resume, rebuild, opened, finish_asset}
use photosync.Chunk.Receiver.Holds.{Keeps, Holds}

-- A cut file holds the bytes up to the cut.
take-cut :
    (p : ℕ) (c : Bytes) → p ≤ length c → take p (take p c ++ replicate (p - length c) 0) ≡ take p c
take-cut p c h =
    take-append_left p (take p c) (replicate (p - length c) 0) (omega (arith, length-take p c))
    ∙ take-take p p c (omega arith)

module _ (d : Sha256) (law : IsIncremental d) where
  module _ (w total p k : ℕ) (c u : Bytes) (short_width : p < w) (inside : p ≤ total)
      (fits : total < i64_bound) (kept : take p u ≡ take p c) (there : p ≤ length c) where
    rebuilt :
        (c' : Bytes)
        → p ≤ length c'
        → take p c' ≡ take p c
        → (a : InboundAsset d) × (opened d total p (rebuild d w p (quiet c' u k))
            ≡ done a a.staging)
          × (a.total_bytes ≡ total)
          × Holds d a (take p c)
    unfolding seek_start
    rebuilt c' long same =
        let (h, run, fed) = resume_from-IsFed d law w p c' u k long short_width (omega arith) in
        (
          record { staging = quiet c' u p; hasher = h; total_bytes = total; bytes_received = p },
          rw run,
          refl,
          record {
            kept = record { readable = cut c' same; lasting = cut u kept };
            hashed = rw same at fed;
            offset = size;
            within = omega (arith, size);
            fits = fits;
          },
        )
      where
        size : p ≡ length (take p c)
        size = omega (arith, length-take p c)

        cut : (b : Bytes) → take p b ≡ take p c → take (length (take p c)) b ≡ take p c
        cut b e = ap (λ (n : ℕ). take n b) (sym size) ∙ e

    -- A resume that finds enough bytes on a working device reads them back, and goes on from there.
    pub resume-Holds :
        (a : InboundAsset d) × (resume d w total p (quiet c u k) ≡ done a a.staging)
        × (a.total_bytes ≡ total)
        × Holds d a (take p c)
    unfolding resume len set_len
    resume-Holds = elim (Bool-cases (ltb p (length c))) [
      | inl longer ↦
          rw (enough, longer)
            (rebuilt (take p c ++ replicate (p - length c) 0) cut_long (take-cut p c there))
      | inr exact ↦ rw (enough, exact) (rebuilt c there refl)
    ]
      where
        enough : ltb (length c) p ≡ false
        enough = ground arith

        cut_long : p ≤ length (take p c ++ replicate (p - length c) 0)
        cut_long =
            omega (arith, length-take p c, length-append (take p c) (replicate (p - length c) 0))

  -- A new asset holds nothing yet; `begin` fails only as the device does.
  pub data Begun (total : ℕ) : Run File (InboundAsset d) → Type 0 where
    fresh :
        {a : InboundAsset d} → a.total_bytes ≡ total → Holds d a [] → Begun total (done a a.staging)
    unopened : {f : File} → Begun total (fail (io device) f)

  empty :
      {f : File} {total : ℕ}
      → total < i64_bound
      → Holds d
          (record { staging = f; hasher = new_hasher d; total_bytes = total; bytes_received = 0 })
          []
  empty fits = record {
    kept = record { readable = refl; lasting = refl };
    hashed = new_hasher-IsFed d law;
    offset = refl;
    within = omega arith;
    fits = fits;
  }

  begin_parts-Begun :
      (total p : ℕ) (c u : Bytes) (fs : List (Option ℕ))
      → total < i64_bound
      → Begun total (begin d total (record { content = c; durable = u; pos = p; faults = fs }))
  unfolding begin set_len seek_start
  begin_parts-Begun total p c u [] fits = fresh refl (empty fits)
  begin_parts-Begun total p c u (some k ∷ fs) fits = unopened
  begin_parts-Begun total p c u (none ∷ []) fits = fresh refl (empty fits)
  begin_parts-Begun total p c u (none ∷ some k ∷ fs) fits = unopened
  begin_parts-Begun total p c u (none ∷ none ∷ fs) fits = fresh refl (empty fits)

  pub begin-Begun : (total : ℕ) (f : File) → total < i64_bound → Begun total (begin d total f)
  begin-Begun total f fits = begin_parts-Begun total f.pos f.content f.durable f.faults fits

  -- An asset that held the bytes received loses power at any moment, and is resumed from any offset
  -- up to their length on a device that works again: it comes back holding exactly the bytes below
  -- that offset, digest included. The asset's size is below the width of usize.
  pub resume-Crash :
      (w p : ℕ) (a : InboundAsset d) (received : Bytes) (g : File)
      → Holds d a received
      → Crash a.staging g
      → g.faults ≡ []
      → p ≤ length received
      → a.total_bytes < w
      → (b : InboundAsset d) × (resume d w a.total_bytes p g ≡ done b b.staging)
        × (b.total_bytes ≡ a.total_bytes)
        × Holds d b (take p received)
  resume-Crash w p a received g v crash quiet_now below wide =
      let (b, run, total, held) =
        resume-Holds w a.total_bytes p g.pos g.content g.durable (omega (arith, v.within))
          (omega (arith, v.within)) v.fits (ap (take p) crash.settled)
          (omega (arith, le-length_of_take g.content received left)) in
      (
        b,
        subst (λ (x : File). resume d w a.total_bytes p x ≡ done b b.staging) (sym same) run,
        total,
        subst (λ (x : Bytes). Holds d b x) prefix held,
      )
    where
      left : take (length received) g.content ≡ received
      left =
          crash.survives (length received) (v.kept.readable ∙ sym v.kept.lasting) ∙ v.kept.lasting

      same : g ≡ quiet g.content g.durable g.pos
      same i = record {
        content = g.content;
        durable = g.durable;
        pos = g.pos;
        faults = quiet_now i;
      }

      prefix : take p g.content ≡ take p received
      prefix = sym (take-take p (length received) g.content below) ∙ ap (take p) left

  -- A persisted offset beyond the file is refused, and the file is left as it was.
  pub resume_beyond :
      (w total p k : ℕ) (c u : Bytes)
      → length c < p
      → resume d w total p (quiet c u k)
        ≡ fail (corrupt_row "inbound_transfer" "bytes_received") (quiet c u k)
  unfolding resume len
  resume_beyond w total p k c u h = rw (lt→ltb (length c) p h)

  -- The verdict as a function of the bytes held.
  abbrev pub verdict : Bytes → ℕ → Hash32 → File → Result (FinishVerdict × File)
  verdict received total declared f =
      if not (length received == total)
      then ok (short (length received) total, f)
      else if length received == 0
      then err empty_asset
      else let actual : Hash32 = digest d (d.update d.new received) in
        if hash_eq actual declared
        then ok (verified actual, f)
        else ok (mismatch declared actual, f)

  -- `finish` judges the bytes held, all of them, and nothing else.
  pub finish_asset-verdict :
      (a : InboundAsset d) (received : Bytes) (declared : Hash32)
      → Holds d a received
      → finish_asset d a declared ≡ verdict received a.total_bytes declared a.staging
  unfolding finish_asset finish digest
  finish_asset-verdict a received declared v =
      ground (arith, v.offset, v.hashed.count, v.hashed.state)

  -- An asset that holds the bytes received gets `Verified` only if they are all of it, there is one
  -- at least, and their digest is the declared one; the file that it gives back starts with them.
  pub finish_asset-verified :
      (a : InboundAsset d) (received : Bytes) (declared h : Hash32) (f : File)
      → Holds d a received
      → finish_asset d a declared ≡ ok (verified h, f)
      → (length received ≡ a.total_bytes)
        × (0 < a.total_bytes)
        × (h ≡ declared)
        × (h ≡ digest d (d.update d.new received))
        × Keeps f received
  finish_asset-verified a received declared h f v e =
      let e' : verdict received a.total_bytes declared a.staging ≡ ok (verified h, f) =
        sym (finish_asset-verdict a received declared v) ∙ e in
      (
        ground arith,
        ground arith,
        ground (arith, hash_eq_iff (digest d (d.update d.new received)) declared),
        ground arith,
        subst (λ (x : File). Keeps x received) (ground arith) v.kept,
      )
