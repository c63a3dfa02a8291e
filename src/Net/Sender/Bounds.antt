-- ===== src/Net/Sender/Bounds.antt =====
-- Whatever the peer answers and the link does, `send_asset` of crates/net/src/orchestrator.rs sends
-- pieces of the original, declares the digest of the whole, and makes at most three attempts.
use photosync.Prelude.{
  String, ℕ, zero, suc, ◌+◌, ◌≡◌, refl, subst, inl, inr, ◌<◌, Bool, true, false, Option, none, some,
  List, arith, length, ltb, if◌then◌else◌, Bool-cases,
}
use photosync.Prelude.Int.{i64_bound}
use photosync.Prelude.Bytes.{Bytes}
use photosync.Model.{Hash32}
use photosync.Staging.{File}
use photosync.Identity.{Sha256, IsIncremental}
use photosync.Identity.Laws.{quiet}
use photosync.Chunk.Source.{OutboundAsset, begin, resume, full_hash}
use photosync.Chunk.Source.Stream.{Sends}
use photosync.Proto.{
  Message, asset_begin, asset_end, asset_ack, AssetOutcome, abort, heartbeat, new_frame,
}
use photosync.Catalog.Backlog.{Candidate}
use photosync.Session.{max_asset_attempts}
use photosync.Session.Transfers.{enqueue, record_attempt_failure}
use photosync.Net.Link.{LinkError}
use photosync.Net.Talk.{SessionError, World, Talked, receive, send, ran, stored, keep_alive, ◌>>=◌}
use photosync.Net.Talk.Laws.{
  Ends, Ends-continue, Ends-send, Ends-receive, Ends-stored, Ends-keep_alive, Ends-weaken, Ends-map,
  Said_start, Said, after,
}
use photosync.Net.Sender.{
  Delivered, Library, open_original, retried, send_chunks, on_asset_answer, declare, after_chunks,
  settled_or, attempt_asset, attempts, send_asset,
}
use photosync.Net.Sender.Honest.{whole, Delivers, full_hash_of, Ends-resumed, Ends-begun}
use photosync.Net.Sender.Streaming.{
  Tries, Steady, Went, Ends-open, send_chunks-Streams, plain, later, more_tries,
}

module _ (d : Sha256) (law : IsIncremental d) (usize_mod : ℕ) (lib : Library) (sid : String)
    (now : ℕ) (c : Candidate) (original : Bytes) (size : c.descriptor.size ≡ length original)
    (wide : length original < usize_mod) (fits : length original < i64_bound)
    (steady : Steady lib c.platform_asset_id original) (w : World) where
  abbrev Keeps : ℕ → World → Type 0
  Keeps k u = Said (Tries d original k) w u

  abbrev Fails : ℕ → SessionError → World → Type 0
  Fails k e u = Said (Tries d original k) w u

  -- What an attempt settles: nothing, or a delivery of the original.
  abbrev Settles : Option Delivered → Type 0
  Settles none = Unit {0}
  Settles (some x) = Delivers d original x

  module _ (k : ℕ) where
    retried-Settles :
        (code : String) (u : World)
        → Keeps k u
        → Ends
            (λ r x. Keeps k x × Settles r)
            (Fails k)
            ((stored (λ t. record_attempt_failure t sid c.id code now) >>= retried) u)
    retried-Settles code u kept =
        Ends-continue _ _ _ (stored (λ t. record_attempt_failure t sid c.id code now) u) (
          Ends-stored _ _ (record_attempt_failure u.tables sid c.id code now) u
            (λ b t. settled b (record u { tables = t }) kept) (λ e. kept))
      where
        settled :
            (b : Bool) (x : World)
            → Keeps k x
            → Ends (λ r y. Keeps k y × Settles r) (Fails k) (retried b x)
        settled true x v = (v, tt)
        settled false x v = (v, tt)

    answer-Settles :
        (full : Hash32) (m : Message) (u : World)
        → full ≡ whole d original
        → Keeps k u
        → Ends
            (λ r x. Keeps k x × Settles r)
            (Fails k)
            (on_asset_answer d usize_mod lib sid now c full m u)
    unfolding on_asset_answer
    answer-Settles full (asset_ack AssetOutcome.committed) u e kept = (kept, (e, size))
    answer-Settles full (asset_ack AssetOutcome.already_present) u e kept = (kept, e)
    answer-Settles full (asset_ack AssetOutcome.hash_mismatch) u e kept =
        retried-Settles "hash" u kept
    answer-Settles full (asset_ack AssetOutcome.failed) u e kept = (kept, tt)
    answer-Settles full (abort r x) u e kept = kept
    answer-Settles full _ u e kept = kept

    declare-Settles :
        (full : Option Hash32) (u : World)
        → ((h : Hash32) → full ≡ some h → h ≡ whole d original)
        → Keeps k u
        → Ends (λ r x. Keeps k x × Settles r) (Fails k) (declare d usize_mod lib sid now c full u)
    unfolding new_frame
    declare-Settles none u e kept = kept
    declare-Settles (some full) u e kept = Ends-continue _ _ _ (send (asset_end full) u) (
        Ends-send _ _ (asset_end full) u
          (λ o.
            let u1 = after u o (new_frame (asset_end full)) in
            let kept1 =
              plain d original w u o k (new_frame (asset_end full)) (e full refl) refl kept in
            Ends-continue _ _ _ (receive u1) (
              Ends-receive _ _ u1
                (λ f rest.
                  answer-Settles full f.message (record u1 { incoming = rest }) (e full refl) kept1)
                (λ x. kept1)))
          (λ o x. kept))

    after_chunks-Settles :
        (g : Option (OutboundAsset d)) (u : World)
        → Went d law usize_mod lib sid now c original size wide fits steady w k g u
        → Ends (λ r x. Keeps k x × Settles r) (Fails k) (after_chunks d usize_mod lib sid now c g u)
    after_chunks-Settles none u (kept, v) = retried-Settles "chunk" u kept
    after_chunks-Settles (some out) u (kept, v) =
        declare-Settles (full_hash d out) u (λ h. full_hash_of d original law out h v) kept

    opened-Settles :
        (fuel proposed : ℕ) (v : Bytes) (p : ℕ) (u : World)
        → Keeps k u
        → Ends
            (λ (o : OutboundAsset d × File) x. Keeps k x × Sends d o.0 original)
            (Fails k)
            (ran
              (if ltb 0 proposed
                then resume d usize_mod c.descriptor.size proposed (quiet original v p)
                else begin d c.descriptor.size (quiet original v p))
              u)
    opened-Settles fuel proposed v p u kept = elim (Bool-cases (ltb 0 proposed)) [
      | inl e ↦ rw e (
          Ends-resumed d original law _ _ usize_mod c.descriptor.size proposed p v u size wide fits
            (λ a va. (kept, va)) (λ x. kept))
      | inr e ↦ rw e (
          Ends-begun d original law _ (Fails k) c.descriptor.size p v u size fits
            (λ a va. (kept, va)))
    ]

  attempt-Settles :
      (k fuel proposed : ℕ) (u : World)
      → Keeps k u
      → Ends
          (λ r x. Keeps (k + 1) x × Settles r)
          (Fails (k + 1))
          (attempt_asset d usize_mod lib sid now c fuel proposed u)
  unfolding attempt_asset new_frame
  attempt-Settles k fuel proposed u kept =
      Ends-continue _ _ _ (send (asset_begin c.descriptor proposed) u) (
        Ends-send _ _ (asset_begin c.descriptor proposed) u
          (λ o.
            let u1 = after u o (new_frame (asset_begin c.descriptor proposed)) in
            Ends-continue _ _ _ (keep_alive u1) (
              Ends-keep_alive _ _ u1 (λ l. from_open (record u1 { lulls = l }) (begun o))
                (λ l o'. from_open (after (record u1 { lulls = l }) o' (new_frame heartbeat)) (
                  plain d original w (record u1 { lulls = l }) o' (k + 1) (new_frame heartbeat) tt
                    refl (begun o)))
                (λ l o' e. begun o)))
          (λ o e. more_tries d original w u k (k + 1) (omega arith) kept))
    where
      begun :
          (o : List (Option LinkError))
          → Keeps (k + 1) (after u o (new_frame (asset_begin c.descriptor proposed)))
      begun o =
          later d original w u o k 1 (new_frame (asset_begin c.descriptor proposed)) tt refl kept

      from_open :
          (x : World)
          → Keeps (k + 1) x
          → Ends
              (λ r y. Keeps (k + 1) y × Settles r)
              (Fails (k + 1))
              ((do
                reader ← open_original lib c.platform_asset_id
                out ← ran (
                    if ltb 0 proposed
                    then resume d usize_mod c.descriptor.size proposed reader
                    else begin d c.descriptor.size reader)
                going ← send_chunks d usize_mod lib sid now c fuel fuel out.0
                after_chunks d usize_mod lib sid now c going)
                x)
      from_open x kx = Ends-continue _ _ _ (open_original lib c.platform_asset_id x) (
          Ends-open d law usize_mod lib sid now c original size wide fits steady w _ (k + 1) x kx
            (λ v p.
              let x1 = record x { opened = x.opened + 1 } in
              Ends-continue _ _ _
                (ran
                  (if ltb 0 proposed
                    then resume d usize_mod c.descriptor.size proposed (quiet original v p)
                    else begin d c.descriptor.size (quiet original v p))
                  x1)
                (Ends-weaken _ _ _
                  (ran
                    (if ltb 0 proposed
                      then resume d usize_mod c.descriptor.size proposed (quiet original v p)
                      else begin d c.descriptor.size (quiet original v p))
                    x1)
                  (opened-Settles (k + 1) fuel proposed v p x1 kx)
                  (λ out y good.
                    Ends-continue _ _ _ (send_chunks d usize_mod lib sid now c fuel fuel out.0 y) (
                      Ends-weaken _ _ _ (send_chunks d usize_mod lib sid now c fuel fuel out.0 y)
                        (send_chunks-Streams d law usize_mod lib sid now c original size wide fits
                          steady w (k + 1) fuel fuel out.0 y good.1 good.0)
                        (λ g z went. after_chunks-Settles (k + 1) g z went))))))

  attempts-Settles :
      (n k fuel proposed : ℕ) (u : World)
      → Keeps k u
      → Ends
          (λ r x. Keeps (k + n) x × Delivers d original r)
          (Fails (k + n))
          (attempts d usize_mod lib sid now c n fuel proposed u)
  unfolding attempts
  attempts-Settles zero k fuel proposed u kept =
      (more_tries d original w u k (k + 0) (omega arith) kept, tt)
  attempts-Settles (suc n) k fuel proposed u kept =
      Ends-continue _ _ _ (attempt_asset d usize_mod lib sid now c fuel proposed u) (
        Ends-map _ _ (Fails (k + 1)) _ (attempt_asset d usize_mod lib sid now c fuel proposed u)
          (next (attempts d usize_mod lib sid now c n fuel proposed) (λ x v.
            subst
              (λ (m : ℕ).
                Ends (λ z y. Keeps m y × Delivers d original z) (Fails m)
                  (attempts d usize_mod lib sid now c n fuel proposed x))
              (let h : k + 1 + n ≡ k + suc n = omega arith in h)
              (attempts-Settles n (k + 1) fuel proposed x v)))
          (λ e x. more_tries d original w x (k + 1) (k + suc n) (omega arith))
          (attempt-Settles k fuel proposed u kept))
    where
      next :
          (again : World → Talked Delivered)
          → ((x : World)
              → Keeps (k + 1) x
              → Ends
                  (λ z y. Keeps (k + suc n) y × Delivers d original z)
                  (Fails (k + suc n))
                  (again x))
          → (r : Option Delivered) (x : World) → Keeps (k + 1) x × Settles r
          → Ends
              (λ z y. Keeps (k + suc n) y × Delivers d original z)
              (Fails (k + suc n))
              (settled_or d usize_mod lib sid now c again r x)
      next again h none x v = h x v.0
      next again h (some r) x v =
          (more_tries d original w x (k + 1) (k + suc n) (omega arith) v.0, v.1)

-- For an original whose size is the descriptor's, below the width of usize and below 2^63, and which
-- the library opens, when it opens it at all, as that same content on a device that never fails a
-- call: whatever the peer answers and whenever the link fails, a call of `send_asset` sends only chunks
-- that are pieces of the original at their offset under their own hash, declares only the digest of
-- the whole original, begins the asset at most three times, and reports a delivery only under that
-- digest.
pub send_asset-Delivers :
    (d : Sha256) (law : IsIncremental d) (usize_mod : ℕ) (lib : Library) (sid : String) (now : ℕ)
    (c : Candidate) (original : Bytes)
    → c.descriptor.size ≡ length original
    → length original < usize_mod
    → length original < i64_bound
    → Steady lib c.platform_asset_id original
    → (proposed : ℕ) (w : World)
    → Ends
        (λ r u. Said (Tries d original max_asset_attempts) w u × Delivers d original r)
        (λ e u. Said (Tries d original max_asset_attempts) w u)
        (send_asset d usize_mod lib sid now c proposed w)
unfolding send_asset
send_asset-Delivers d law usize_mod lib sid now c original size wide fits steady proposed w =
    Ends-continue _ _ _ (stored (λ t. enqueue t sid c.id c.descriptor.size now) w) (
      Ends-stored _ _ (enqueue w.tables sid c.id c.descriptor.size now) w
        (λ x t.
          attempts-Settles d law usize_mod lib sid now c original size wide fits steady w
            max_asset_attempts 0 (length w.incoming) proposed (record w { tables = t }) start)
        (λ e. more_tries d original w w 0 max_asset_attempts (omega arith) start))
  where
    start : Said (Tries d original 0) w w
    start = Said_start (Tries d original 0) w (tt, omega arith)
