-- ===== src/Net/Receiver/Handling.antt =====
-- What a message does to the totals and the content of a receiving session in
-- crates/net/src/orchestrator.rs.
use photosync.Prelude.{
  ℕ, ◌+◌, ◌%◌, ◌≡◌, refl, ◌∙◌, ap, sym, subst, Bool, true, false, Option, none, some, List, [], ◌∷◌,
  ◌++◌, String, arith, length, length-append, keep, if◌then◌else◌, map,
}
use photosync.Prelude.Int.{u64_mod}
use photosync.Prelude.Bytes.{Bytes}
use photosync.Prelude.Rows.{keep-append}
use photosync.Model.{Hash32, AssetDescriptor}
use photosync.Staging.{File}
use photosync.Identity.{Sha256}
use photosync.Proto.{
  Frame, Message, heartbeat, session_begin, have_query, have_response, asset_begin, chunk,
  asset_end, asset_ack, AssetOutcome, session_end, abort, new_frame,
}
use photosync.Session.{set_state}
use photosync.Inbound.{holds_full_hash, answer_have_query}
use photosync.Net.Link.{LinkError}
use photosync.Net.Talk.{SessionError, World, Talked, ◌>>◌, pure, send, keep_alive}
use photosync.Net.Talk.Laws.{
  Ends, Ends-continue, Ends-send, Ends-keep_alive, Said, Said-after, after,
}
use photosync.Net.Orchestrator.{Active, Handled, replied, silent, ended, on_chunk, on_asset_begin}
use photosync.Net.Orchestrator.Finishing.{Totals, Finished, acknowledged, broken, on_asset_end}
use photosync.Net.Receiver.{
  Sink, Next, more, finished, called, item_of, entry_of, handled, begin_asset, settled, end_asset,
  on_message, set_estimate,
}
use photosync.Net.Receiver.Tally.{
  is_committed, is_present, Grows, Credits, Fair, Plain, end-Fair, chunk-Plain, begin-Plain,
}

abbrev pub tally : (Frame → Bool) → List Frame → ℕ
tally p fs = length (keep p fs)

tally-append :
    (p : Frame → Bool) (fs : List Frame) (f : Frame)
    → tally p (fs ++ (f ∷ [])) ≡ tally p fs + (if p f then 1 else 0)
tally-append p fs f =
    ap length (keep-append p fs (f ∷ []))
    ∙ length-append (keep p fs) (keep p (f ∷ []))
    ∙ ap (λ (k : ℕ). tally p fs + k) (one (p f))
  where
    one : (b : Bool) → length (elim b [ true ↦ f ∷ [] | false ↦ [] ]) ≡ (if b then 1 else 0)
    one true = refl
    one false = refl

-- The totals count the acknowledgements among these frames, in u64.
abbrev pub Tallied : Totals → List Frame → Type 0
Tallied n fs =
    (n.items_done ≡ tally is_committed fs % u64_mod)
    × (n.items_skipped ≡ tally is_present fs % u64_mod)
    × (n.items_failed ≡ 0)

still :
    (n : Totals) (f : Frame) (fs : List Frame)
    → is_committed f ≡ false
    → is_present f ≡ false
    → Tallied n fs
    → Tallied n (fs ++ (f ∷ []))
still n f fs e e' (a, b, c) = (
  a ∙ ap (λ (k : ℕ). k % u64_mod) (ground (arith, tally-append is_committed fs f, e)),
  b ∙ ap (λ (k : ℕ). k % u64_mod) (ground (arith, tally-append is_present fs f, e')),
  c,
)

next_count : (k : ℕ) → (k % u64_mod + 1) % u64_mod ≡ (k + 1) % u64_mod
next_count k = omega arith

credited :
    (n n' : Totals) (o : AssetOutcome) (fs : List Frame)
    → Credits n o n'
    → Tallied n fs
    → Tallied n' (fs ++ (new_frame (asset_ack o) ∷ []))
unfolding new_frame
credited n n' AssetOutcome.committed fs (size, e) (a, b, c) = (
  ap (λ (m : Totals). m.items_done) e
      ∙ ap (λ (k : ℕ). (k + 1) % u64_mod) a
      ∙ next_count (tally is_committed fs)
      ∙ ap (λ (k : ℕ). k % u64_mod)
          (sym (tally-append is_committed fs (new_frame (asset_ack AssetOutcome.committed)))),
  ap (λ (m : Totals). m.items_skipped) e
      ∙ b
      ∙ ap (λ (k : ℕ). k % u64_mod)
          (ground
            (arith, tally-append is_present fs (new_frame (asset_ack AssetOutcome.committed)))),
  ap (λ (m : Totals). m.items_failed) e ∙ c,
)
credited n n' AssetOutcome.already_present fs e (a, b, c) = (
  ap (λ (m : Totals). m.items_done) e
      ∙ a
      ∙ ap (λ (k : ℕ). k % u64_mod)
          (ground (
            arith,
            tally-append is_committed fs (new_frame (asset_ack AssetOutcome.already_present)),
          )),
  ap (λ (m : Totals). m.items_skipped) e
      ∙ ap (λ (k : ℕ). (k + 1) % u64_mod) b
      ∙ next_count (tally is_present fs)
      ∙ ap (λ (k : ℕ). k % u64_mod)
          (sym (tally-append is_present fs (new_frame (asset_ack AssetOutcome.already_present)))),
  ap (λ (m : Totals). m.items_failed) e ∙ c,
)
credited n n' AssetOutcome.hash_mismatch fs e v =
    subst
      (λ (m : Totals). Tallied m (fs ++ (new_frame (asset_ack AssetOutcome.hash_mismatch) ∷ [])))
      (sym e) (still n (new_frame (asset_ack AssetOutcome.hash_mismatch)) fs refl refl v)
credited n n' AssetOutcome.failed fs e v =
    subst (λ (m : Totals). Tallied m (fs ++ (new_frame (asset_ack AssetOutcome.failed) ∷ [])))
      (sym e) (still n (new_frame (asset_ack AssetOutcome.failed)) fs refl refl v)

-- No content was forgotten, and the code session is as it was.
abbrev pub Stays : World → World → Type 0
Stays w u = Grows w.tables u.tables × (u.code_session ≡ w.code_session)

-- So far the totals are right too.
abbrev pub Kept : World → Totals → World → Type 0
Kept w n u = Said (Tallied n) w u × Stays w u

abbrev pub Held : World → SessionError → World → Type 0
Held w e u = Stays w u

pub quiet_send :
    (w u : World) (o : List (Option LinkError)) (n : Totals) (m : Message)
    → is_committed (new_frame m) ≡ false
    → is_present (new_frame m) ≡ false
    → Kept w n u
    → Kept w n (after u o (new_frame m))
quiet_send w u o n m e e' (s, g) = (
  Said-after (Tallied n) (Tallied n) w u o (new_frame m) (λ new. still n (new_frame m) new e e') s,
  g,
)

module _ (d : Sha256) (usize_mod : ℕ) (sink : Sink) (sid : String) (peer now : ℕ) (w : World) where
  abbrev pub Onward : Next d → World → Type 0
  Onward (more c n) u = Kept w n u
  Onward (finished n) u = Kept w n u

  send-Onward :
      (c : Option (Active d)) (n : Totals) (m : Message) (u : World)
      → is_committed (new_frame m) ≡ false
      → is_present (new_frame m) ≡ false
      → Kept w n u
      → Ends Onward (Held w) ((send m >> pure (more c n)) u)
  send-Onward c n m u e e' kept =
      Ends-continue _ _ _ (send m u)
        (Ends-send _ _ m u (λ o. quiet_send w u o n m e e' kept) (λ o x. kept.1))

  handled-Onward :
      (n : Totals) (h : Handled d) (u : World)
      → Plain u.tables h
      → Kept w n u
      → Ends Onward (Held w) (handled d usize_mod sink sid peer now n h u)
  handled-Onward n (replied m s) u plain kept =
      send-Onward s.current n m (record u { tables = s.tables }) plain.1 plain.2
        (kept.0, (λ f z. plain.0 f (kept.1.0 f z), kept.1.1))
  handled-Onward n (silent s) u plain kept = (kept.0, (λ f z. plain f (kept.1.0 f z), kept.1.1))
  handled-Onward n (ended e s) u plain kept = (λ f z. plain f (kept.1.0 f z), kept.1.1)

  -- A keepalive, if there is to be one.
  beat-Onward :
      (b : Bool) (n : Totals) (k : World → Talked (Next d)) (u : World)
      → Kept w n u
      → ((v : World) → Kept w n v → Ends Onward (Held w) (k v))
      → Ends Onward (Held w) (((if b then keep_alive else pure tt) >> k) u)
  unfolding new_frame
  beat-Onward true n k u kept next = Ends-continue _ _ _ (keep_alive u) (
      Ends-keep_alive _ _ u (λ l. next (record u { lulls = l }) kept)
        (λ l o.
          next (after (record u { lulls = l }) o (new_frame heartbeat))
            (quiet_send w (record u { lulls = l }) o n heartbeat refl refl kept))
        (λ l o e. kept.1))
  beat-Onward false n k u kept next = next u kept

  begin-Onward :
      (c : Option (Active d)) (n : Totals) (x : AssetDescriptor) (s : Option (String × File))
      (u : World)
      → Kept w n u
      → Ends Onward (Held w) (begin_asset d usize_mod sink sid peer now c n x s u)
  begin-Onward c n x none u kept = kept.1
  begin-Onward c n x (some (ref, file)) u kept = beat-Onward _ n _ u kept (λ v kv.
      handled-Onward n
        (on_asset_begin d usize_mod sid now (record { tables = v.tables; current = c }) x ref file)
        v (begin-Plain d sid now v.tables usize_mod c x ref file) kv)

  settled-Onward :
      (n : Totals) (r : Finished) (u : World)
      → Fair u.tables n r
      → Kept w n u
      → Ends Onward (Held w) (settled d usize_mod sink sid peer now r u)
  settled-Onward n (acknowledged o t n') u fair kept =
      Ends-continue _ _ _ (send (asset_ack o) (record u { tables = t })) (
        Ends-send _ _ (asset_ack o) (record u { tables = t })
          (λ x. (
            Said-after (Tallied n) (Tallied n') w (record u { tables = t }) x
                (new_frame (asset_ack o)) (λ new. credited n n' o new fair.1) kept.0,
            (λ f z. fair.0 f (kept.1.0 f z), kept.1.1),
          ))
          (λ x e. (λ f z. fair.0 f (kept.1.0 f z), kept.1.1)))
  settled-Onward n (broken e t) u fair kept = (λ f z. fair f (kept.1.0 f z), kept.1.1)

  end-Onward :
      (c : Option (Active d)) (n : Totals) (declared : Hash32) (u : World)
      → Kept w n u
      → Ends Onward (Held w) (end_asset d usize_mod sink sid peer now c n declared u)
  end-Onward none n declared u kept = kept.1
  end-Onward (some a) n declared u kept = beat-Onward _ n _ u kept (λ v kv.
      settled-Onward n
        (on_asset_end d sid peer now (record { tables = v.tables; current = some a }) n declared
          (sink.abandon a.staging_ref v.opened) (sink.commit a.staging_ref a.descriptor v.opened))
        (called v) (end-Fair d sid peer now v.tables (some a) n declared _ _) kv)

  pub message-Onward :
      (c : Option (Active d)) (n : Totals) (payload : Bytes) (m : Message) (u : World)
      → Kept w n u
      → Ends Onward (Held w) (on_message d usize_mod sink sid peer now c n payload m u)
  unfolding on_message set_estimate set_state holds_full_hash new_frame
  message-Onward c n payload heartbeat u kept = kept
  message-Onward c n payload (session_begin role id items bytes) u kept = kept
  message-Onward c n payload (have_query items) u kept =
      send-Onward c n
        (have_response (map entry_of (answer_have_query u.tables (map item_of items)))) u refl refl
        kept
  message-Onward c n payload (asset_begin x offset) u kept =
      begin-Onward c n x (sink.staging x u.opened) (called u) kept
  message-Onward c n payload (chunk offset hash) u kept =
      handled-Onward n
        (on_chunk d sid now (record { tables = u.tables; current = c }) offset hash payload) u
        (chunk-Plain d sid now u.tables c offset hash payload) kept
  message-Onward c n payload (asset_end declared) u kept = end-Onward c n declared u kept
  message-Onward c n payload (session_end a b e f) u kept = kept
  message-Onward c n payload (abort reason detail) u kept = kept.1
  message-Onward c n payload _ u kept = kept.1
