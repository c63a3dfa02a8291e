-- ===== src/Net/Sender/Rounds.antt =====
-- The rounds of `send_asset` in crates/net/src/orchestrator.rs take frames from the link, and never
-- add any.
use photosync.Prelude.{ℕ, zero, suc, ◌+◌, ◌<◌, ◌≤◌, Option, none, some, String, arith, length, leb}
use photosync.Staging.{File}
use photosync.Identity.{Sha256}
use photosync.Chunk.{Chunk, max_chunk_attempts}
use photosync.Chunk.Source.{OutboundAsset, resume, next_chunk}
use photosync.Proto.{Message, chunk_ack, ChunkOutcome, abort}
use photosync.Catalog.Backlog.{Candidate}
use photosync.Net.Talk.{World, Talk, receive, write, ran}
use photosync.Net.Talk.Laws.{Ends, Ends-continue, Ends-write, Ends-if, Ends-weaken, after}
use photosync.Net.Sender.{
  Library, opened, open_original, starved, chunk_frame, restarted, on_chunk_answer, chunk_round,
  send_chunk, after_chunk, chunk_or_end, send_chunks,
}
use photosync.Net.Talk.Reads.{Left, InTime, Ends-shorter, Ends-ran}

pub Ends-opened :
    (P : File → World → Type 0) (f : Option File) (u : World)
    → ((g : File) → P g u)
    → Ends P InTime (opened f u)
Ends-opened P none u good = tt
Ends-opened P (some g) u good = good g

module _ (d : Sha256) (usize_mod : ℕ) (lib : Library) (sid : String) (now : ℕ) (c : Candidate) where
  abbrev Again : Type 0
  Again = OutboundAsset d → Chunk → ℕ → Talk (Option (OutboundAsset d))

  -- It reads, and ends in time while fewer than so many frames are to come.
  abbrev Reads : ℕ → Again → Type 0
  Reads k a =
      (out : OutboundAsset d) (p : Chunk) (n : ℕ) (u : World)
      → length u.incoming < k
      → Ends (Left (length u.incoming)) InTime (a out p n u)

  module _ (k : ℕ) (again : Again) (reads : Reads k again) where
    answer-Left :
        (out : OutboundAsset d) (p : Chunk) (n : ℕ) (m : Message) (u : World)
        → length u.incoming < k
        → Ends
            (Left (length u.incoming))
            InTime
            (on_chunk_answer d usize_mod lib sid now c again out p n m u)
    unfolding on_chunk_answer
    answer-Left out p n (chunk_ack o (ChunkOutcome.accepted b)) u h = omega arith
    answer-Left out p n (chunk_ack o ChunkOutcome.corrupt) u h =
        Ends-if (Left (length u.incoming)) InTime (leb max_chunk_attempts (n + 1)) _
          (again out p (n + 1)) u (λ _. omega arith) (λ _. reads out p (n + 1) u h)
    answer-Left out p n (chunk_ack o (ChunkOutcome.misaligned at)) u h =
        Ends-continue _ _ _ (open_original lib c.platform_asset_id u) (
          Ends-opened _ (lib c.platform_asset_id u.opened) (record u { opened = u.opened + 1 })
            (λ g.
              Ends-continue _ _ _
                (ran (resume d usize_mod c.descriptor.size at g)
                  (record u { opened = u.opened + 1 }))
                (Ends-ran _ (resume d usize_mod c.descriptor.size at g)
                  (record u { opened = u.opened + 1 })
                  (λ a s.
                    Ends-continue _ _ _ (ran (next_chunk d a) (record u { opened = u.opened + 1 }))
                      (Ends-ran _ (next_chunk d a) (record u { opened = u.opened + 1 })
                        (λ x b. on_next x b (record u { opened = u.opened + 1 }) h))))))
      where
        on_next :
            (x : Option Chunk) (b : OutboundAsset d) (v : World)
            → length v.incoming < k
            → Ends
                (Left (length v.incoming))
                InTime
                (restarted d usize_mod lib sid now c again n (x, b) v)
        on_next none b v few = omega arith
        on_next (some q) b v few = reads b q n v few
    answer-Left out p n (abort r x) u h = tt
    answer-Left out p n _ u h = tt

    -- A round that goes on has read a frame.
    round-Left :
        (out : OutboundAsset d) (p : Chunk) (n : ℕ) (u : World)
        → length u.incoming ≤ k
        → Ends
            (λ _ x. length x.incoming < length u.incoming)
            InTime
            (chunk_round d usize_mod lib sid now c again out p n u)
    round-Left out p n u few = Ends-continue _ _ _ (write (chunk_frame p) u) (
        Ends-write _ _ (chunk_frame p) u
          (λ o. Ends-continue _ _ _ (receive (after u o (chunk_frame p))) (
            Ends-shorter _ (after u o (chunk_frame p)) (λ f rest h.
              Ends-weaken _ _ _
                (on_chunk_answer d usize_mod lib sid now c again out p n f.message
                  (record (after u o (chunk_frame p)) { incoming = rest }))
                (answer-Left out p n f.message
                  (record (after u o (chunk_frame p)) { incoming = rest }) (omega arith))
                (λ a x le. omega arith))))
          (λ o e. tt))

  pub send_chunk-Left :
      (fuel : ℕ) (out : OutboundAsset d) (p : Chunk) (n : ℕ) (u : World)
      → length u.incoming ≤ fuel
      → Ends
          (λ _ x. length x.incoming < length u.incoming)
          InTime
          (send_chunk d usize_mod lib sid now c fuel out p n u)
  unfolding send_chunk
  send_chunk-Left zero out p n u few =
      round-Left 0 (λ _ _ _. starved) (λ out p n u short. absurd (omega arith)) out p n u few
  send_chunk-Left (suc fuel) out p n u few =
      round-Left (suc fuel) (send_chunk d usize_mod lib sid now c fuel)
        (λ out p n u short.
          Ends-weaken _ _ _ (send_chunk d usize_mod lib sid now c fuel out p n u)
            (send_chunk-Left fuel out p n u (omega arith)) (λ a x h. omega arith))
        out p n u few

  abbrev Streaming : Type 0
  Streaming = OutboundAsset d → Talk (Option (OutboundAsset d))

  chunk_or_end-Left :
      (k : ℕ) (again : Streaming) (fuel : ℕ) (x : Option Chunk) (out : OutboundAsset d) (u : World)
      → ((o : OutboundAsset d) (v : World)
          → length v.incoming < k
          → Ends (Left (length v.incoming)) InTime (again o v))
      → length u.incoming ≤ fuel
      → length u.incoming ≤ k
      → Ends
          (Left (length u.incoming))
          InTime
          (chunk_or_end d usize_mod lib sid now c again fuel (x, out) u)
  chunk_or_end-Left k again fuel none out u reads enough few = omega arith
  chunk_or_end-Left k again fuel (some p) out u reads enough few =
      Ends-continue _ _ _ (send_chunk d usize_mod lib sid now c fuel out p 0 u) (
        Ends-weaken _ _ _ (send_chunk d usize_mod lib sid now c fuel out p 0 u)
          (send_chunk-Left fuel out p 0 u enough) on_going)
    where
      on_going :
          (g : Option (OutboundAsset d)) (x : World)
          → length x.incoming < length u.incoming
          → Ends (Left (length u.incoming)) InTime (after_chunk d usize_mod lib sid now c again g x)
      on_going none x h = omega arith
      on_going (some o) x h =
          Ends-weaken _ _ _ (again o x) (reads o x (omega arith)) (λ g y le. omega arith)

  pub send_chunks-Left :
      (rounds fuel : ℕ) (out : OutboundAsset d) (u : World)
      → length u.incoming ≤ rounds
      → length u.incoming ≤ fuel
      → Ends
          (Left (length u.incoming))
          InTime
          (send_chunks d usize_mod lib sid now c rounds fuel out u)
  unfolding send_chunks
  send_chunks-Left zero fuel out u few enough = Ends-continue _ _ _ (ran (next_chunk d out) u) (
      Ends-ran _ (next_chunk d out) u (λ x o.
        chunk_or_end-Left 0 (λ _. starved) fuel x o u (λ o v short. absurd (omega arith)) enough
          few))
  send_chunks-Left (suc rounds) fuel out u few enough =
      Ends-continue _ _ _ (ran (next_chunk d out) u) (
        Ends-ran _ (next_chunk d out) u (λ x o.
          chunk_or_end-Left (length u.incoming) (send_chunks d usize_mod lib sid now c rounds fuel)
            fuel x o u (λ o v short. send_chunks-Left rounds fuel o v (omega arith) (omega arith))
            enough (omega arith)))
