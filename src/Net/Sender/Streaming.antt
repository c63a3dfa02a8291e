-- ===== src/Net/Sender/Streaming.antt =====
-- The frames of `send_asset` in crates/net/src/orchestrator.rs, through its two loops over chunks: every
-- chunk is a piece of the original under its own hash.
use photosync.Prelude.{
  String, ℕ, zero, suc, ◌+◌, ◌≡◌, refl, ap, subst, ◌⊎◌, inl, inr, ◌≤◌, ◌<◌, Bool, true, false,
  Option, none, some, List, [], ◌∷◌, ◌++◌, arith, length, leb, if◌then◌else◌,
}
use photosync.Prelude.Int.{i64_bound}
use photosync.Prelude.Bytes.{Bytes}
use photosync.Staging.{File}
use photosync.Identity.{Sha256, IsIncremental}
use photosync.Identity.Laws.{quiet}
use photosync.Chunk.{Chunk, max_chunk_attempts}
use photosync.Chunk.Source.{OutboundAsset, resume, next_chunk}
use photosync.Chunk.Source.Stream.{Sends}
use photosync.Proto.{Frame, Message, chunk_ack, ChunkOutcome, asset_begin, abort}
use photosync.Catalog.Backlog.{Candidate}
use photosync.Net.Link.{LinkError}
use photosync.Net.Talk.{SessionError, World, Talked, receive, write, ran, ◌>>=◌}
use photosync.Net.Talk.Laws.{
  Ends, Ends-continue, Ends-write, Ends-receive, Ends-if, Ends-weaken, Every, Every-append, Said,
  Said-after, after,
}
use photosync.Net.Sender.{
  Library, open_original, starved, chunk_frame, restarted, on_chunk_answer, chunk_round, send_chunk,
  after_chunk, chunk_or_end, send_chunks,
}
use photosync.Net.Sender.Honest.{Piece, HonestFrame, Ends-next, Ends-resumed}

abbrev pub is_begin : Frame → Bool
is_begin f = elim f.message [ asset_begin _ _ ↦ true | _ ↦ false ]

abbrev pub begins : List Frame → ℕ
begins [] = 0
begins (f ∷ fs) = (if is_begin f then 1 else 0) + begins fs

begins-append :
    (xs : List Frame) (f : Frame)
    → begins (xs ++ (f ∷ [])) ≡ begins xs + (if is_begin f then 1 else 0)
begins-append [] f = omega arith
begins-append (x ∷ xs) f = omega (arith, begins-append xs f)

module _ (d : Sha256) (original : Bytes) where
  -- Honest frames, with at most so many attempts among them.
  abbrev pub Tries : ℕ → List Frame → Type 0
  Tries k fs = Every (HonestFrame d original) fs × (begins fs ≤ k)

  grown :
      (k n : ℕ) (f : Frame) (new : List Frame)
      → HonestFrame d original f
      → (if is_begin f then 1 else 0) ≡ n
      → Tries k new
      → Tries (k + n) (new ++ (f ∷ []))
  grown k n f new honest e (all_honest, few) = (
    Every-append (HonestFrame d original) new (f ∷ []) all_honest (honest, tt),
    omega (arith, begins-append new f, e, few),
  )

  pub later :
      (w u : World) (o : List (Option LinkError)) (k n : ℕ) (f : Frame)
      → HonestFrame d original f
      → (if is_begin f then 1 else 0) ≡ n
      → Said (Tries k) w u
      → Said (Tries (k + n)) w (after u o f)
  later w u o k n f honest e s =
      Said-after (Tries k) (Tries (k + n)) w u o f (λ new. grown k n f new honest e) s

  -- A frame that begins no attempt.
  pub plain :
      (w u : World) (o : List (Option LinkError)) (k : ℕ) (f : Frame)
      → HonestFrame d original f
      → is_begin f ≡ false
      → Said (Tries k) w u
      → Said (Tries k) w (after u o f)
  plain w u o k f honest e s =
      subst (λ (m : ℕ). Said (Tries m) w (after u o f)) (let h : k + 0 ≡ k = omega arith in h)
        (later w u o k 0 f honest (ap (λ (b : Bool). if b then 1 else 0) e) s)

  pub more_tries : (w u : World) (k m : ℕ) → k ≤ m → Said (Tries k) w u → Said (Tries m) w u
  more_tries w u k m h (new, e, both) = (new, e, (both.0, omega (arith, h, both.1)))

-- A library whose original does not change while the session runs, and whose device does not fail.
abbrev pub Steady : Library → String → Bytes → Type 0
Steady lib id original =
    (k : ℕ) → (lib id k ≡ none) ⊎ ((u : Bytes) × (p : ℕ) × (lib id k ≡ some (quiet original u p)))

module _ (d : Sha256) (law : IsIncremental d) (usize_mod : ℕ) (lib : Library) (sid : String)
    (now : ℕ) (c : Candidate) (original : Bytes) (size : c.descriptor.size ≡ length original)
    (wide : length original < usize_mod) (fits : length original < i64_bound)
    (steady : Steady lib c.platform_asset_id original) (w : World) where
  abbrev pub Kept : ℕ → World → Type 0
  Kept k u = Said (Tries d original k) w u

  abbrev pub Good : Option (OutboundAsset d) → Type 0
  Good none = Unit {0}
  Good (some out) = Sends d out original

  abbrev pub Went : ℕ → Option (OutboundAsset d) → World → Type 0
  Went k going u = Kept k u × Good going

  abbrev pub Broke : ℕ → SessionError → World → Type 0
  Broke k e u = Kept k u

  pub Ends-open :
      (P : File → World → Type 0) (k : ℕ) (u : World)
      → Kept k u
      → ((v : Bytes) (p : ℕ) → P (quiet original v p) (record u { opened = u.opened + 1 }))
      → Ends P (Broke k) (open_original lib c.platform_asset_id u)
  Ends-open P k u v good = elim (steady u.opened) [
    | inl e ↦ rw e v
    | inr (b, p, e) ↦ rw e (good b p)
  ]

  -- A way to go on that keeps to the original.
  abbrev Sound :
      ℕ → (OutboundAsset d → Chunk → ℕ → World → Talked (Option (OutboundAsset d))) → Type 0
  Sound k again =
      (out : OutboundAsset d) (p : Chunk) (n : ℕ) (u : World)
      → Sends d out original
      → Piece d original p.offset p.payload p.hash
      → Kept k u
      → Ends (Went k) (Broke k) (again out p n u)

  module _ (k : ℕ) (again : OutboundAsset d → Chunk → ℕ → World → Talked (Option (OutboundAsset d)))
      (sound : Sound k again) where
    restarted-Went :
        (n : ℕ) (next : Option Chunk × OutboundAsset d) (u : World)
        → ((p : Chunk) → next.0 ≡ some p → Piece d original p.offset p.payload p.hash)
        → Sends d next.1 original
        → Kept k u
        → Ends (Went k) (Broke k) (restarted d usize_mod lib sid now c again n next u)
    restarted-Went n (none, out) u piece v kept = (kept, tt)
    restarted-Went n (some p, out) u piece v kept = sound out p n u v (piece p refl) kept

    answered-Went :
        (out : OutboundAsset d) (p : Chunk) (n : ℕ) (m : Message) (u : World)
        → Sends d out original
        → Piece d original p.offset p.payload p.hash
        → Kept k u
        → Ends (Went k) (Broke k) (on_chunk_answer d usize_mod lib sid now c again out p n m u)
    unfolding on_chunk_answer
    answered-Went out p n (chunk_ack o (ChunkOutcome.accepted b)) u v piece kept = (kept, v)
    answered-Went out p n (chunk_ack o ChunkOutcome.corrupt) u v piece kept =
        Ends-if (Went k) (Broke k) (leb max_chunk_attempts (n + 1)) _ (again out p (n + 1)) u
          (λ _. (kept, tt)) (λ _. sound out p (n + 1) u v piece kept)
    answered-Went out p n (chunk_ack o (ChunkOutcome.misaligned at)) u v piece kept =
        Ends-continue _ _ _ (open_original lib c.platform_asset_id u) (
          Ends-open _ k u kept (λ b q.
            let u1 = record u { opened = u.opened + 1 } in
            Ends-continue _ _ _
              (ran (resume d usize_mod c.descriptor.size at (quiet original b q)) u1)
              (Ends-resumed d original law _ _ usize_mod c.descriptor.size at q b u1 size wide fits
                (λ a va. Ends-continue _ _ _ (ran (next_chunk d a) u1) (
                  Ends-next d original law _ _ a u1 va (λ z vz. (kept, tt))
                    (λ z r vz pz. sound z r n u1 vz pz kept)))
                (λ e. kept))))
    answered-Went out p n (abort r x) u v piece kept = kept
    answered-Went out p n _ u v piece kept = kept

    round-Sound : Sound k (chunk_round d usize_mod lib sid now c again)
    round-Sound out p n u v piece kept = Ends-continue _ _ _ (write (chunk_frame p) u) (
        Ends-write _ _ (chunk_frame p) u
          (λ o.
            let u1 = after u o (chunk_frame p) in
            let kept1 = plain d original w u o k (chunk_frame p) piece refl kept in
            Ends-continue _ _ _ (receive u1) (
              Ends-receive _ _ u1
                (λ f rest.
                  answered-Went out p n f.message (record u1 { incoming = rest }) v piece kept1)
                (λ e. kept1)))
          (λ o e. kept))

  send_chunk-Sound : (k fuel : ℕ) → Sound k (send_chunk d usize_mod lib sid now c fuel)
  unfolding send_chunk
  send_chunk-Sound k zero = round-Sound k (λ _ _ _. starved) (λ out p n u v piece kept. kept)
  send_chunk-Sound k (suc fuel) =
      round-Sound k (send_chunk d usize_mod lib sid now c fuel) (send_chunk-Sound k fuel)

  module _ (k fuel : ℕ) where
    abbrev Streams : (OutboundAsset d → World → Talked (Option (OutboundAsset d))) → Type 0
    Streams again =
        (out : OutboundAsset d) (u : World)
        → Sends d out original
        → Kept k u
        → Ends (Went k) (Broke k) (again out u)

    round-Streams :
        (again : OutboundAsset d → World → Talked (Option (OutboundAsset d)))
        → Streams again
        → Streams
            (λ out. ran (next_chunk d out) >>= chunk_or_end d usize_mod lib sid now c again fuel)
    round-Streams again streams out u v kept = Ends-continue _ _ _ (ran (next_chunk d out) u) (
        Ends-next d original law _ _ out u v (λ b vb. (kept, vb))
          (λ b p vb piece. Ends-continue _ _ _ (send_chunk d usize_mod lib sid now c fuel b p 0 u) (
            Ends-weaken _ _ _ (send_chunk d usize_mod lib sid now c fuel b p 0 u)
              (send_chunk-Sound k fuel b p 0 u vb piece kept) on_going)))
      where
        on_going :
            (g : Option (OutboundAsset d)) (x : World)
            → Went k g x
            → Ends (Went k) (Broke k) (after_chunk d usize_mod lib sid now c again g x)
        on_going none x went = went
        on_going (some a) x went = streams a x went.1 went.0

  pub send_chunks-Streams :
      (k rounds fuel : ℕ) → Streams k fuel (send_chunks d usize_mod lib sid now c rounds fuel)
  unfolding send_chunks
  send_chunks-Streams k zero fuel = round-Streams k fuel (λ _. starved) (λ out u v kept. kept)
  send_chunks-Streams k (suc rounds) fuel =
      round-Streams k fuel (send_chunks d usize_mod lib sid now c rounds fuel)
        (send_chunks-Streams k rounds fuel)
