-- ===== src/Net/Sender/Retries.antt =====
-- How often `send_asset` of crates/net/src/orchestrator.rs sends a chunk again.
use photosync.Prelude.{
  ℕ, zero, suc, ◌+◌, ◌≡◌, refl, ◌≤◌, ◌<◌, Option, none, some, List, [], ◌∷◌, String, arith, length,
  length-append, leb,
}
use photosync.Errors.{Run, done, fail}
use photosync.Staging.{File}
use photosync.Identity.{Sha256}
use photosync.Chunk.{Chunk, max_chunk_attempts}
use photosync.Chunk.Source.{OutboundAsset, resume, next_chunk}
use photosync.Proto.{Frame, Message, chunk_ack, ChunkOutcome, abort}
use photosync.Catalog.Backlog.{Candidate}
use photosync.Net.Talk.{SessionError, World, Talk, continue, receive, write, ran}
use photosync.Net.Talk.Laws.{
  Ends, Ends-continue, Ends-write, Ends-heard, Heard, Ends-if, Ends-weaken, after,
}
use photosync.Net.Sender.{
  Library, opened, starved, chunk_frame, restarted, on_chunk_answer, chunk_round, send_chunk,
}

abbrev pub Anyhow : SessionError → World → Type 0
Anyhow e u = Unit {0}

-- Whether an answer says that the chunk was corrupt.
abbrev pub blames : Message → ℕ
blames (chunk_ack _ ChunkOutcome.corrupt) = 1
blames _ = 0

abbrev pub blamed : List Frame → ℕ
blamed [] = 0
blamed (f ∷ fs) = blames f.message + blamed fs

-- From one world to another these answers were heard, each to one frame that was sent, and they leave
-- the count of failed attempts within its limit.
abbrev pub Limited : ℕ → World → World → Type 0
Limited n u v =
    (fs : List Frame) × Heard u.incoming fs v.incoming
    × (length v.sent ≡ length u.sent + length fs)
    × (n + blamed fs ≤ max_chunk_attempts)

Ends_opened :
    {A : Type 0} (P : A → World → Type 0) (k : File → Talk A) (f : Option File) (u : World)
    → ((g : File) → Ends P Anyhow (k g u))
    → Ends P Anyhow (continue k (opened f u))
Ends_opened P k none u good = tt
Ends_opened P k (some g) u good = good g

Ends_ran :
    {S A B : Type 0} (P : B → World → Type 0) (k : A × S → Talk B) (r : Run S A) (u : World)
    → ((a : A) (s : S) → Ends P Anyhow (k (a, s) u))
    → Ends P Anyhow (continue k (ran r u))
Ends_ran P k (done a s) u good = good a s
Ends_ran P k (fail e s) u good = tt

module _ (d : Sha256) (usize_mod : ℕ) (lib : Library) (sid : String) (now : ℕ) (c : Candidate) where
  abbrev Again : Type 0
  Again = OutboundAsset d → Chunk → ℕ → Talk (Option (OutboundAsset d))

  abbrev Limits : Again → Type 0
  Limits a =
      (out : OutboundAsset d) (p : Chunk) (n : ℕ) (u : World)
      → n < max_chunk_attempts
      → Ends (λ _ v. Limited n u v) Anyhow (a out p n u)

  module _ (again : Again) (limits : Limits again) where
    answer-Limited :
        (out : OutboundAsset d) (p : Chunk) (n : ℕ) (m : Message) (u : World)
        → n < max_chunk_attempts
        → Ends
            (λ _ v. Limited (n + blames m) u v)
            Anyhow
            (on_chunk_answer d usize_mod lib sid now c again out p n m u)
    unfolding on_chunk_answer
    answer-Limited out p n (chunk_ack o (ChunkOutcome.accepted b)) u h =
        ([], refl, omega arith, omega arith)
    answer-Limited out p n (chunk_ack o ChunkOutcome.corrupt) u h =
        Ends-if (λ _ v. Limited (n + 1) u v) Anyhow (leb max_chunk_attempts (n + 1)) _
          (again out p (n + 1)) u (λ _. ([], refl, omega arith, omega arith))
          (λ few. limits out p (n + 1) u (ground (arith, few)))
    answer-Limited out p n (chunk_ack o (ChunkOutcome.misaligned at)) u h =
        Ends_opened _ _ (lib c.platform_asset_id u.opened) (record u { opened = u.opened + 1 })
          (λ g.
            Ends_ran _ _ (resume d usize_mod c.descriptor.size at g)
              (record u { opened = u.opened + 1 })
              (λ a s.
                Ends_ran _ _ (next_chunk d a) (record u { opened = u.opened + 1 })
                  (λ x b. on_next x b (record u { opened = u.opened + 1 }))))
      where
        on_next :
            (x : Option Chunk) (b : OutboundAsset d) (v : World)
            → Ends
                (λ _ y. Limited (n + 0) v y)
                Anyhow
                (restarted d usize_mod lib sid now c again n (x, b) v)
        on_next none b v = ([], refl, omega arith, omega arith)
        on_next (some q) b v =
            Ends-weaken _ _ _ (again b q n v) (limits b q n v h)
              (λ a y (fs, heard, sent, few). (fs, heard, sent, omega (arith, few)))
    answer-Limited out p n (abort r x) u h = tt
    answer-Limited out p n _ u h = tt

    round-Limited : Limits (chunk_round d usize_mod lib sid now c again)
    round-Limited out p n u h = Ends-continue _ _ _ (write (chunk_frame p) u) (
        Ends-write _ _ (chunk_frame p) u
          (λ o. Ends-continue _ _ _ (receive (after u o (chunk_frame p))) (
            Ends-heard _ _ (after u o (chunk_frame p))
              (λ f rest first.
                Ends-weaken _ _ _
                  (on_chunk_answer d usize_mod lib sid now c again out p n f.message
                    (record (after u o (chunk_frame p)) { incoming = rest }))
                  (answer-Limited out p n f.message
                    (record (after u o (chunk_frame p)) { incoming = rest }) h)
                  (λ a v (fs, heard, sent, few). (
                    f ∷ fs,
                    (rest, first, heard),
                    omega (arith, sent, length-append u.sent (chunk_frame p ∷ [])),
                    omega (arith, few),
                  )))
              (λ e. tt)))
          (λ o e. tt))

  send_chunk-Limits : (fuel : ℕ) → Limits (send_chunk d usize_mod lib sid now c fuel)
  unfolding send_chunk
  send_chunk-Limits zero = round-Limited (λ _ _ _. starved) (λ out p n u h. tt)
  send_chunk-Limits (suc fuel) =
      round-Limited (send_chunk d usize_mod lib sid now c fuel) (send_chunk-Limits fuel)

-- Whatever the peer answers and whenever the link or the library fails: the sending of a chunk that
-- returns, with the asset or with the attempt given up, has sent one frame for every answer that it
-- heard, and not more than three of these answers say corrupt.
pub send_chunk-Limited :
    (d : Sha256) (usize_mod : ℕ) (lib : Library) (sid : String) (now : ℕ) (c : Candidate) (fuel : ℕ)
    (out : OutboundAsset d) (p : Chunk) (w : World)
    → Ends (λ _ u. Limited 0 w u) Anyhow (send_chunk d usize_mod lib sid now c fuel out p 0 w)
send_chunk-Limited d usize_mod lib sid now c fuel out p w =
    send_chunk-Limits d usize_mod lib sid now c fuel out p 0 w (omega arith)
