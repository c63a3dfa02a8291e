-- ===== src/Net/Sender/Reads.antt =====
-- `send_asset` of crates/net/src/orchestrator.rs takes frames from the link, never adds any, and ends
-- within the rounds that are given to it.
use photosync.Prelude.{
  ℕ, zero, suc, ◌+◌, ◌≤◌, Bool, true, false, Option, none, some, String, arith, length, ltb,
  if◌then◌else◌,
}
use photosync.Model.{Hash32}
use photosync.Staging.{File}
use photosync.Identity.{Sha256}
use photosync.Chunk.Source.{OutboundAsset, begin, resume, full_hash}
use photosync.Proto.{
  Message, abort, asset_begin, asset_end, asset_ack, AssetOutcome, heartbeat, new_frame,
}
use photosync.Catalog.Backlog.{Candidate}
use photosync.Session.{max_asset_attempts}
use photosync.Session.Transfers.{enqueue, record_attempt_failure}
use photosync.Net.Talk.{World, Talk, receive, send, keep_alive, ran, stored, ◌>>=◌}
use photosync.Net.Talk.Laws.{
  Ends, Ends-continue, Ends-send, Ends-keep_alive, Ends-stored, Ends-weaken, after,
}
use photosync.Net.Sender.{
  Delivered, retried, on_asset_answer, declare, Library, open_original, send_chunks, after_chunks,
  settled_or, attempt_asset, attempts, send_asset,
}
use photosync.Net.Talk.Reads.{Left, InTime, Ends-shorter, Ends-ran}
use photosync.Net.Sender.Rounds.{Ends-opened, send_chunks-Left}

module _ (d : Sha256) (usize_mod : ℕ) (lib : Library) (sid : String) (now : ℕ) (c : Candidate) where
  retried-Left :
      (code : String) (u : World)
      → Ends
          (Left (length u.incoming))
          InTime
          ((stored (λ t. record_attempt_failure t sid c.id code now) >>= retried) u)
  retried-Left code u =
      Ends-continue _ _ _ (stored (λ t. record_attempt_failure t sid c.id code now) u) (
        Ends-stored _ _ (record_attempt_failure u.tables sid c.id code now) u
          (λ b t. on_more b (record u { tables = t })) (λ e. tt))
    where
      on_more : (b : Bool) (v : World) → Ends (Left (length v.incoming)) InTime (retried b v)
      on_more true v = omega arith
      on_more false v = omega arith

  asset_answer-Left :
      (full : Hash32) (m : Message) (u : World)
      → Ends (Left (length u.incoming)) InTime (on_asset_answer d usize_mod lib sid now c full m u)
  unfolding on_asset_answer
  asset_answer-Left full (asset_ack AssetOutcome.committed) u = omega arith
  asset_answer-Left full (asset_ack AssetOutcome.already_present) u = omega arith
  asset_answer-Left full (asset_ack AssetOutcome.hash_mismatch) u = retried-Left "hash" u
  asset_answer-Left full (asset_ack AssetOutcome.failed) u = omega arith
  asset_answer-Left full (abort r x) u = tt
  asset_answer-Left full _ u = tt

  declare-Left :
      (full : Option Hash32) (u : World)
      → Ends (Left (length u.incoming)) InTime (declare d usize_mod lib sid now c full u)
  declare-Left none u = tt
  declare-Left (some full) u = Ends-continue _ _ _ (send (asset_end full) u) (
      Ends-send _ _ (asset_end full) u
        (λ o.
          let v = after u o (new_frame (asset_end full)) in
          Ends-continue _ _ _ (receive v) (
            Ends-shorter _ v (λ f rest h.
              Ends-weaken _ _ _
                (on_asset_answer d usize_mod lib sid now c full f.message
                  (record v { incoming = rest }))
                (asset_answer-Left full f.message (record v { incoming = rest }))
                (λ a x le. omega arith))))
        (λ o e. tt))

  after_chunks-Left :
      (g : Option (OutboundAsset d)) (u : World)
      → Ends (Left (length u.incoming)) InTime (after_chunks d usize_mod lib sid now c g u)
  after_chunks-Left none u = retried-Left "chunk" u
  after_chunks-Left (some out) u = declare-Left (full_hash d out) u

  module _ (proposed : ℕ) where
    -- What an attempt does once the original is open.
    abbrev pub streamed : ℕ → OutboundAsset d × File → Talk (Option Delivered)
    streamed fuel out = do
      going ← send_chunks d usize_mod lib sid now c fuel fuel out.0
      after_chunks d usize_mod lib sid now c going

    abbrev pub reopened : ℕ → File → Talk (Option Delivered)
    reopened fuel reader =
        ran (
          if ltb 0 proposed
          then resume d usize_mod c.descriptor.size proposed reader
          else begin d c.descriptor.size reader)
        >>= streamed fuel

    streamed-Left :
        (fuel : ℕ) (o : OutboundAsset d × File) (u : World)
        → length u.incoming ≤ fuel
        → Ends (Left (length u.incoming)) InTime (streamed fuel o u)
    streamed-Left fuel o u enough =
        Ends-continue _ _ _ (send_chunks d usize_mod lib sid now c fuel fuel o.0 u) (
          Ends-weaken _ _ _ (send_chunks d usize_mod lib sid now c fuel fuel o.0 u)
            (send_chunks-Left d usize_mod lib sid now c fuel fuel o.0 u enough enough)
            (λ g x le.
              Ends-weaken _ _ _ (after_chunks d usize_mod lib sid now c g x) (after_chunks-Left g x)
                (λ r y le'. omega arith)))

    -- Up to there an attempt reads no frame, and has no loop.
    pub attempt-Left :
        (fuel : ℕ) (u : World)
        → length u.incoming ≤ fuel
        → Ends
            (Left (length u.incoming))
            InTime
            (attempt_asset d usize_mod lib sid now c fuel proposed u)
    unfolding attempt_asset
    attempt-Left fuel u enough = Ends-continue _ _ _ (send (asset_begin c.descriptor proposed) u) (
        Ends-send _ _ (asset_begin c.descriptor proposed) u
          (λ o.
            let v = after u o (new_frame (asset_begin c.descriptor proposed)) in
            Ends-continue _ _ _ (keep_alive v) (
              Ends-keep_alive _ _ v (λ l. on_open (record v { lulls = l }) enough)
                (λ l o'. on_open (after (record v { lulls = l }) o' (new_frame heartbeat)) enough)
                (λ l o' e. tt)))
          (λ o e. tt))
      where
        on_open :
            (v : World)
            → length v.incoming ≤ fuel
            → Ends
                (Left (length v.incoming))
                InTime
                ((open_original lib c.platform_asset_id >>= reopened fuel) v)
        on_open v few = Ends-continue _ _ _ (open_original lib c.platform_asset_id v) (
            Ends-opened _ (lib c.platform_asset_id v.opened) (record v { opened = v.opened + 1 })
              (λ g.
                Ends-continue _ _ _
                  (ran
                    (if ltb 0 proposed
                      then resume d usize_mod c.descriptor.size proposed g
                      else begin d c.descriptor.size g)
                    (record v { opened = v.opened + 1 }))
                  (Ends-ran _
                    (if ltb 0 proposed
                      then resume d usize_mod c.descriptor.size proposed g
                      else begin d c.descriptor.size g)
                    (record v { opened = v.opened + 1 })
                    (λ a s. streamed-Left fuel (a, s) (record v { opened = v.opened + 1 }) few))))

  attempts-Left :
      (n fuel proposed : ℕ) (u : World)
      → length u.incoming ≤ fuel
      → Ends
          (Left (length u.incoming))
          InTime
          (attempts d usize_mod lib sid now c n fuel proposed u)
  unfolding attempts
  attempts-Left zero fuel proposed u enough = omega arith
  attempts-Left (suc n) fuel proposed u enough =
      Ends-continue _ _ _ (attempt_asset d usize_mod lib sid now c fuel proposed u) (
        Ends-weaken _ _ _ (attempt_asset d usize_mod lib sid now c fuel proposed u)
          (attempt-Left proposed fuel u enough)
          (λ r x le.
            next (attempts d usize_mod lib sid now c n fuel proposed) r x le
              (attempts-Left n fuel proposed x (omega arith))))
    where
      next :
          (a : Talk Delivered) (r : Option Delivered) (x : World)
          → length x.incoming ≤ length u.incoming
          → Ends (Left (length x.incoming)) InTime (a x)
          → Ends (Left (length u.incoming)) InTime (settled_or d usize_mod lib sid now c a r x)
      next a none x le h = Ends-weaken _ _ _ (a x) h (λ r y le'. omega arith)
      next a (some r) x le h = le

  pub send_asset-Left :
      (proposed : ℕ) (u : World)
      → Ends (Left (length u.incoming)) InTime (send_asset d usize_mod lib sid now c proposed u)
  unfolding send_asset
  send_asset-Left proposed u =
      Ends-continue _ _ _ (stored (λ t. enqueue t sid c.id c.descriptor.size now) u) (
        Ends-stored _ _ (enqueue u.tables sid c.id c.descriptor.size now) u
          (λ x t.
            attempts-Left max_asset_attempts (length u.incoming) proposed (record u { tables = t })
              (omega arith))
          (λ e. tt))
