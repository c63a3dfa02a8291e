-- ===== src/Net/Sender.antt =====
-- `send_asset` of crates/net/src/orchestrator.rs. The library source is a parameter: which file, if any,
-- the n-th `open_original` of the session gives. Both loops over chunks read a frame in every round;
-- their fuel is the number of arrivals to come.
pub mod Honest
pub mod Retries
pub mod Rounds
pub mod Reads
pub mod Streaming
pub mod Bounds
use photosync.Prelude.{
  ℕ, zero, suc, ◌+◌, Bool, true, false, Option, none, some, List, String, ltb, leb, length,
  if◌then◌else◌,
}
use photosync.Errors.{Result}
use photosync.Model.{Hash32}
use photosync.Staging.{File}
use photosync.Identity.{Sha256}
use photosync.Chunk.{Chunk, max_chunk_attempts}
use photosync.Chunk.Source.{OutboundAsset, begin, resume, next_chunk, full_hash}
use photosync.Proto.{
  Frame, Message, chunk, chunk_ack, ChunkOutcome, asset_begin, asset_end, asset_ack, AssetOutcome,
  abort,
}
use photosync.Db.{Db}
use photosync.Catalog.Assets.{set_full_hash}
use photosync.Catalog.Backlog.{Candidate}
use photosync.Session.{max_asset_attempts}
use photosync.Session.Transfers.{enqueue, advance, record_attempt_failure}
use photosync.Net.Link.{LinkError, timeout}
use photosync.Net.Talk.{
  endless, SessionError, unexpected, source_failed, peer_aborted, link, World, Talk, ◌>>=◌, ◌>>◌,
  pure, throw, change, stored, ran, write, send, receive, keep_alive,
}

pub data Delivered : Type 0 where
  committed : Hash32 → ℕ → Delivered
  already_present : Hash32 → Delivered
  failed : Delivered

-- What a session's `source` gives.
abbrev pub Library : Type 0
Library = String → ℕ → Option File

abbrev pub opened : Option File → Talk File
opened none = throw source_failed
opened (some f) = pure f

-- `source.open_original`
abbrev pub open_original : Library → String → Talk File
open_original lib id w = opened (lib id w.opened) (record w { opened = w.opened + 1 })

-- The loop has run for as many rounds as it was given.
abbrev pub starved : {A : Type 0} → Talk A
starved = throw endless

-- `record_attempt_failure`, and whether the asset is tried again.
abbrev pub retried : Bool → Talk (Option Delivered)
retried true = pure none
retried false = pure (some failed)

-- The frame of a chunk.
abbrev pub chunk_frame : Chunk → Frame
chunk_frame p = record { message = chunk p.offset p.hash; payload = p.payload }

module _ (d : Sha256) (usize_mod : ℕ) (lib : Library) (sid : String) (now : ℕ) (c : Candidate) where
  -- An asset that goes on from here; none for one whose attempt failed.
  abbrev pub Going : Type 0
  Going = Option (OutboundAsset d)

  abbrev pub Resend : Type 0
  Resend = OutboundAsset d → Chunk → ℕ → Talk Going

  abbrev pub restarted : Resend → ℕ → Option Chunk × OutboundAsset d → Talk Going
  restarted again attempts (none, out) = pure none
  restarted again attempts (some next, out) = again out next attempts

  -- The `match` on the answer to a chunk.
  unfoldable pub on_chunk_answer : Resend → OutboundAsset d → Chunk → ℕ → Message → Talk Going
  on_chunk_answer again out pending attempts (chunk_ack _ (ChunkOutcome.accepted bytes)) = do
    change (λ t. advance t sid c.id bytes now)
    pure (some out)
  on_chunk_answer again out pending attempts (chunk_ack _ ChunkOutcome.corrupt) =
      if leb max_chunk_attempts (attempts + 1) then pure none else again out pending (attempts + 1)
  on_chunk_answer again out pending attempts (chunk_ack _ (ChunkOutcome.misaligned expected)) = do
    reader ← open_original lib c.platform_asset_id
    resumed ← ran (resume d usize_mod c.descriptor.size expected reader)
    next ← ran (next_chunk d resumed.0)
    restarted again attempts next
  on_chunk_answer again out pending attempts (abort reason detail) =
      throw (peer_aborted reason detail)
  on_chunk_answer again out pending attempts _ = throw unexpected

  -- The inner `loop`: a chunk is sent until it is accepted, or the attempt fails.
  abbrev pub chunk_round : Resend → Resend
  chunk_round again out pending attempts = do
    write (chunk_frame pending)
    answer ← receive
    on_chunk_answer again out pending attempts answer.message

  unfoldable pub send_chunk : ℕ → Resend
  unfolding on_chunk_answer
  send_chunk zero = chunk_round (λ _ _ _. starved)
  send_chunk (suc fuel) = chunk_round (send_chunk fuel)

  abbrev pub after_chunk : (OutboundAsset d → Talk Going) → Going → Talk Going
  after_chunk again none = pure none
  after_chunk again (some out) = again out

  abbrev pub chunk_or_end :
      (OutboundAsset d → Talk Going) → ℕ → Option Chunk × OutboundAsset d → Talk Going
  chunk_or_end again fuel (none, out) = pure (some out)
  chunk_or_end again fuel (some next, out) = send_chunk fuel out next 0 >>= after_chunk again

  -- The `while let` over the chunks.
  unfoldable pub send_chunks : ℕ → ℕ → OutboundAsset d → Talk Going
  unfolding send_chunk
  send_chunks zero fuel out = ran (next_chunk d out) >>= chunk_or_end (λ _. starved) fuel
  send_chunks (suc rounds) fuel out =
      ran (next_chunk d out) >>= chunk_or_end (send_chunks rounds fuel) fuel

  -- The `match` on the answer to AssetEnd; none tries again.
  unfoldable pub on_asset_answer : Hash32 → Message → Talk (Option Delivered)
  on_asset_answer full (asset_ack AssetOutcome.committed) = do
    change (λ t. set_full_hash t c.id full)
    pure (some (committed full c.descriptor.size))
  on_asset_answer full (asset_ack AssetOutcome.already_present) = do
    change (λ t. set_full_hash t c.id full)
    pure (some (already_present full))
  on_asset_answer full (asset_ack AssetOutcome.hash_mismatch) =
      stored (λ t. record_attempt_failure t sid c.id "hash" now) >>= retried
  on_asset_answer full (asset_ack AssetOutcome.failed) = pure (some failed)
  on_asset_answer full (abort reason detail) = throw (peer_aborted reason detail)
  on_asset_answer full _ = throw unexpected

  abbrev pub declare : Option Hash32 → Talk (Option Delivered)
  declare none = throw unexpected
  declare (some full) = do
    send (asset_end full)
    answer ← receive
    on_asset_answer full answer.message

  abbrev pub after_chunks : Going → Talk (Option Delivered)
  after_chunks none = stored (λ t. record_attempt_failure t sid c.id "chunk" now) >>= retried
  after_chunks (some out) = declare (full_hash d out)

  -- One round of the `for` over the attempts.
  unfoldable pub attempt_asset : ℕ → ℕ → Talk (Option Delivered)
  unfolding send_chunks on_asset_answer
  attempt_asset fuel proposed = do
    send (asset_begin c.descriptor proposed)
    keep_alive
    reader ← open_original lib c.platform_asset_id
    out ← ran (
        if ltb 0 proposed
        then resume d usize_mod c.descriptor.size proposed reader
        else begin d c.descriptor.size reader)
    going ← send_chunks fuel fuel out.0
    after_chunks going

  abbrev pub settled_or : Talk Delivered → Option Delivered → Talk Delivered
  settled_or again none = again
  settled_or again (some x) = pure x

  unfoldable pub attempts : ℕ → ℕ → ℕ → Talk Delivered
  unfolding attempt_asset
  attempts zero fuel proposed = pure failed
  attempts (suc n) fuel proposed =
      attempt_asset fuel proposed >>= settled_or (attempts n fuel proposed)

  -- `send_asset`
  unfoldable pub send_asset : ℕ → Talk Delivered
  unfolding attempts
  send_asset proposed w =
      (stored (λ t. enqueue t sid c.id c.descriptor.size now) >>= λ _.
      attempts max_asset_attempts (length w.incoming) proposed)
        w
