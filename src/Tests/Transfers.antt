-- ===== src/Tests/Transfers.antt =====
-- Transfers of a few bytes: crates/core/src/chunk.rs and identity.rs at concrete inputs. The digest is
-- the text itself.
use photosync.Prelude.{
  ℕ, ◌+◌, ◌^◌, ◌≡◌, refl, ◌<◌, some, [], ◌∷◌, ◌++◌, arith, append-nil, append_assoc, take, length,
}
use photosync.Prelude.Bytes.{Bytes, bytes_eq}
use photosync.Errors.{endless, done, fail, ok}
use photosync.Model.{Hash32, hash_eq}
use photosync.Staging.{File, Crash}
use photosync.Identity.{
  Sha256, IsIncremental, FullHasher, digest, finish, resume_from, resume_loop, new_hasher,
}
use photosync.Identity.Laws.{IsFed, quiet, resume_from-IsFed, resume_loop_stuck}
use photosync.Chunk.{Chunk, chunk_count, verified}
use photosync.Chunk.Receiver.{InboundAsset, accept_chunk, finish_asset, resume}
use photosync.Chunk.Receiver.Holds.{Keeps, Holds, Answered, accept_chunk-Answered}
use photosync.Chunk.Receiver.Crash.{resume-Crash, finish_asset-verified}
use photosync.Chunk.Source.{OutboundAsset, next_chunk, full_hash}
use photosync.Chunk.Source as Source
use photosync.Chunk.Source.Stream.{Sends}
use photosync.Chunk.Transfer.{stream, stream-verified}

abbrev pub plain : Sha256
plain = record { State = Bytes; new = []; update = λ s b. s ++ b; finalize = λ s. s }

pub plain-IsIncremental : IsIncremental plain
plain-IsIncremental = record {
  update-nil = λ s. append-nil s;
  update-append = λ s a b. append_assoc s a b;
}

abbrev pub photo : Bytes
photo = 7 ∷ 8 ∷ 9 ∷ []

abbrev pub hasher_of : Bytes → FullHasher plain
hasher_of b = record { hasher = b; bytes = length b }

-- An asset of three bytes, of which `received` are held.
abbrev pub held : Bytes → InboundAsset plain
held received = record {
  staging = quiet received received (length received);
  hasher = hasher_of received;
  total_bytes = 3;
  bytes_received = length received;
}

pub held-Holds_one : Holds plain (held (7 ∷ [])) (7 ∷ [])
held-Holds_one = record {
  kept = record { readable = refl; lasting = refl };
  hashed = record { state = refl; count = refl };
  offset = refl;
  within = omega arith;
  fits = omega arith;
}

pub held-Holds_all : Holds plain (held photo) photo
held-Holds_all = record {
  kept = record { readable = refl; lasting = refl };
  hashed = record { state = refl; count = refl };
  offset = refl;
  within = omega arith;
  fits = omega arith;
}

abbrev pub rest_of_photo : Chunk
rest_of_photo = record { offset = 1; payload = 8 ∷ 9 ∷ []; hash = record { bytes = 8 ∷ 9 ∷ [] } }

accept_chunk_example :
    Answered plain
      (held (7 ∷ []))
      (7 ∷ [])
      rest_of_photo
      (accept_chunk plain (held (7 ∷ [])) rest_of_photo)
accept_chunk_example =
    accept_chunk-Answered plain plain-IsIncremental (held (7 ∷ [])) (7 ∷ []) rest_of_photo
      held-Holds_one (omega arith)

stream_example :
    (out : OutboundAsset plain) × (out' : OutboundAsset plain) × (into' : InboundAsset plain)
    × (h : Hash32) × (Source.resume plain (2 ^ 64) 3 1 (quiet photo photo 0) ≡ done out out.source)
    × (stream plain 2 out (held (7 ∷ [])) ≡ some (out', into'))
    × (full_hash plain out' ≡ some h)
    × (finish_asset plain into' h ≡ ok (verified h, into'.staging))
    × (take 3 into'.staging.durable ≡ photo)
unfolding chunk_count
stream_example =
    stream-verified plain plain-IsIncremental (2 ^ 64) 1 0 2 photo photo (held (7 ∷ []))
      held-Holds_one refl refl (omega arith) (omega arith) (omega arith) (omega arith)

-- The power fails after one byte more was written and not flushed.
abbrev pub after_crash : File
after_crash = quiet (7 ∷ []) (7 ∷ []) 0

abbrev pub before_crash : File
before_crash = quiet (7 ∷ []) (7 ∷ []) 1

pub crash : Crash before_crash after_crash
crash = record { survives = λ n e. refl; settled = refl; reopened = refl }

resume_example :
    (b : InboundAsset plain) × (resume plain (2 ^ 64) 3 1 after_crash ≡ done b b.staging)
    × (b.total_bytes ≡ 3)
    × Holds plain b (7 ∷ [])
resume_example =
    resume-Crash plain plain-IsIncremental (2 ^ 64) 1 (held (7 ∷ [])) (7 ∷ []) after_crash
      held-Holds_one crash refl (omega arith) (omega arith)

abbrev pub photo_hash : Hash32
photo_hash = record { bytes = photo }

finish_example :
    (length photo ≡ 3)
    × (0 < 3)
    × (photo_hash ≡ photo_hash)
    × (photo_hash ≡ digest plain photo)
    × Keeps (quiet photo photo 3) photo
unfolding finish_asset finish digest hash_eq bytes_eq
finish_example =
    finish_asset-verified plain plain-IsIncremental (held photo) photo photo_hash photo_hash
      (quiet photo photo 3) held-Holds_all finished
  where
    finished :
        finish_asset plain (held photo) photo_hash ≡ ok (verified photo_hash, quiet photo photo 3)
    finished = refl

abbrev pub sending : OutboundAsset plain
sending = record {
  source = quiet photo photo 1;
  hasher = hasher_of (7 ∷ []);
  total_bytes = 3;
  offset = 1;
}

sending-Sends : Sends plain sending photo
sending-Sends = record {
  reads = refl;
  at = refl;
  works = refl;
  hashed = record { state = refl; count = refl };
  size = refl;
  within = omega arith;
  fits = omega arith;
}

resume_from_example :
    (me : FullHasher plain) × (resume_from plain (2 ^ 64) 2 (quiet photo photo 3)
      ≡ done me (quiet photo photo 2))
    × IsFed plain me (7 ∷ 8 ∷ [])
resume_from_example =
    resume_from-IsFed plain plain-IsIncremental (2 ^ 64) 2 photo photo 3 (omega arith) (omega arith)
      (omega arith)

new_bytes : (new_hasher plain).bytes ≡ 0
unfolding new_hasher
new_bytes = refl

resume_loop_example :
    (m : ℕ) × (resume_loop plain (2 ^ 32) 100 (3 + 2 ^ 32) (new_hasher plain) (quiet photo photo 0)
      ≡ fail endless (quiet photo photo m))
resume_loop_example =
    resume_loop_stuck plain plain-IsIncremental (2 ^ 32) 100 3 0 photo photo (new_hasher plain)
      (omega arith) (omega arith) (omega arith) (omega arith) new_bytes
