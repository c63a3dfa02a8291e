-- ===== src/Net/Receiver/Termination.antt =====
-- A session of `run_receiver` in crates/net/src/orchestrator.rs ends: every round of its loop takes a
-- frame from the link, or ends with it.
use photosync.Prelude.{
  ℕ, zero, suc, ◌≤◌, ◌<◌, Bool, true, false, Option, none, some, List, [], map, String, arith,
  length, if◌then◌else◌, Bool-cases, inl, inr,
}
use photosync.Prelude.Bytes.{Bytes}
use photosync.Errors.{Result, ok, err, Run, done, fail}
use photosync.Model.{Hash32, AssetDescriptor, SessionRole}
use photosync.Staging.{File}
use photosync.Identity.{Sha256}
use photosync.Chunk.{
  ChunkVerdict, accepted, corrupt, misaligned, FinishVerdict, verified, mismatch, short,
}
use photosync.Chunk.Receiver.{InboundAsset, accept_chunk, finish_asset}
use photosync.Proto.{
  Message, heartbeat, session_begin, session_resume, have_query, have_response, asset_begin, chunk,
  asset_end, asset_ack, AssetOutcome, session_end, abort, new_frame,
}
use photosync.Db.{Db}
use photosync.Session.{Session, begin}
use photosync.Inbound.{
  InboundState, answer_have_query, open_transfer, holds_full_hash, record_received, in_flight,
}
use photosync.Net.Link.{LinkError, LinkReading, received, failed, read, is_disconnect}
use photosync.Net.Talk.{World, Talk, Talked, ◌>>=◌, ◌>>◌, pure, lift, send, keep_alive}
use photosync.Net.Talk.Laws.{
  Ends, Ends-continue, Ends-send, Ends-stored, Ends-keep_alive, Ends-weaken, after,
}
use photosync.Net.Talk.Reads.{Left, InTime, Shorter, read-Shorter}
use photosync.Net.Handshake.{Handshaken}
use photosync.Net.Orchestrator.{
  Active, Receiver, Handled, replied, silent, ended, judged, started, opened, on_chunk,
  on_asset_begin,
}
use photosync.Net.Orchestrator.Finishing.{
  Totals, Finished, acknowledged, broken, discarded, closed, published, on_verdict, on_asset_end,
}
use photosync.Net.Sender.{starved}
use photosync.Net.Sending.{no_totals}
use photosync.Net.Receiver.{
  Sink, Next, more, finished, called, item_of, entry_of, point_of, handled, begin_asset, settled,
  end_asset, on_message, onward, interrupted, on_reading, receive_all, found_session, session_of,
  offer, receiver_session,
}

module _ (d : Sha256) (usize_mod : ℕ) (sink : Sink) (sid : String) (peer now : ℕ) where
  send-Left :
      (x : Next d) (m : Message) (u : World)
      → Ends (Left (length u.incoming)) InTime ((send m >> pure x) u)
  send-Left x m u = Ends-continue _ _ _ (send m u) (
      Ends-send (λ _ v. length v.incoming ≤ length u.incoming) InTime m u (λ o. omega arith)
        (λ o e. tt))

  -- What a handler ends a session with, it does not end for want of rounds.
  abbrev Prompt : Handled d → Type 0
  Prompt (ended e s) = (u : World) → InTime e u
  Prompt _ = Unit {0}

  judged-Prompt :
      (o : ℕ) (t : Db) (a : Active d) (r : Run (InboundAsset d) ChunkVerdict)
      → Prompt (judged d sid now o t a r)
  unfolding judged
  judged-Prompt o t a (done (accepted n) b) = tt
  judged-Prompt o t a (done corrupt b) = tt
  judged-Prompt o t a (done (misaligned n) b) = tt
  judged-Prompt o t a (fail e b) = λ u. tt

  on_chunk-Prompt :
      (t : Db) (c : Option (Active d)) (o : ℕ) (hash : Hash32) (payload : Bytes)
      → Prompt (on_chunk d sid now (record { tables = t; current = c }) o hash payload)
  unfolding on_chunk
  on_chunk-Prompt t none o hash payload = λ u. tt
  on_chunk-Prompt t (some a) o hash payload =
      judged-Prompt o t a
        (accept_chunk d a.asset (record { offset = o; payload = payload; hash = hash }))

  on_asset_begin-Prompt :
      (s : Receiver d) (x : AssetDescriptor) (ref : String) (file : File)
      → Prompt (on_asset_begin d usize_mod sid now s x ref file)
  unfolding on_asset_begin
  on_asset_begin-Prompt s x ref file =
      opened-Prompt (open_transfer s.tables sid x.quick_hash ref x.size now)
    where
      started-Prompt : (t : Db) (r : Run File (InboundAsset d)) → Prompt (started d x ref s t r)
      started-Prompt t (done a f) = tt
      started-Prompt t (fail e f) = λ u. tt

      opened-Prompt : (r : Result (InboundState × Db)) → Prompt (opened d usize_mod x ref file s r)
      opened-Prompt (err e) = λ u. tt
      opened-Prompt (ok p) = started-Prompt p.1 _

  abbrev Punctual : Finished → Type 0
  Punctual (broken e t) = (u : World) → InTime e u
  Punctual (acknowledged o t n) = Unit {0}

  discarded-Punctual :
      (a : Option (Unit {0})) (o : AssetOutcome) (t t' : Db) (n : Totals)
      → Punctual (discarded a o t t' n)
  discarded-Punctual none o t t' n = λ u. tt
  discarded-Punctual (some x) o t t' n = tt

  published-Punctual :
      (full : Hash32) (x : AssetDescriptor) (pid : Option String) (t : Db) (n : Totals)
      → Punctual (published sid peer now full x pid t n)
  published-Punctual full x none t n = λ u. tt
  published-Punctual full x (some pid) t n =
      closed-Punctual (record_received t full x.quick_hash x.size (some pid) (some peer) now)
    where
      closed-Punctual : (r : Result Db) → Punctual (closed sid x.quick_hash x.size t n r)
      closed-Punctual (err e) = λ u. tt
      closed-Punctual (ok t') = tt

  on_asset_end-Punctual :
      (t : Db) (a : Active d) (n : Totals) (declared : Hash32) (abandon : Option (Unit {0}))
      (commit : Option String)
      → Punctual (
          on_asset_end d sid peer now
            (record { tables = t; current = some a })
            n
            declared
            abandon
            commit)
  unfolding on_asset_end
  on_asset_end-Punctual t a n declared abandon commit = judged_by (finish_asset d a.asset declared)
    where
      judged_by :
          (r : Result (FinishVerdict × File))
          → Punctual (on_verdict sid peer now a.descriptor abandon commit t n r)
      judged_by (err e) = λ u. tt
      judged_by (ok (verified full, f)) = elim (Bool-cases (holds_full_hash t full)) [
        | inl here ↦ rw here (discarded-Punctual abandon _ _ _ _)
        | inr new ↦ rw new (published-Punctual full a.descriptor commit t n)
      ]
      judged_by (ok (mismatch x y, f)) = discarded-Punctual abandon _ _ _ _
      judged_by (ok (short x y, f)) = discarded-Punctual abandon _ _ _ _

  handled-Left :
      (n : Totals) (h : Handled d) (u : World)
      → Prompt h
      → Ends (Left (length u.incoming)) InTime (handled d usize_mod sink sid peer now n h u)
  handled-Left n (replied m s) u fine =
      send-Left (more s.current n) m (record u { tables = s.tables })
  handled-Left n (silent s) u fine = omega arith
  handled-Left n (ended e s) u fine = fine (record u { tables = s.tables })

  beat-Left :
      (b : Bool) (k : Talk (Next d)) (u : World)
      → ((v : World) → Ends (Left (length v.incoming)) InTime (k v))
      → Ends (Left (length u.incoming)) InTime (((if b then keep_alive else pure tt) >> k) u)
  beat-Left true k u next = Ends-continue _ _ _ (keep_alive u) (
      Ends-keep_alive _ _ u (λ l. next (record u { lulls = l }))
        (λ l o. next (after (record u { lulls = l }) o (new_frame heartbeat))) (λ l o e. tt))
  beat-Left false k u next = next u

  begin-Left :
      (c : Option (Active d)) (n : Totals) (x : AssetDescriptor) (s : Option (String × File))
      (u : World)
      → Ends (Left (length u.incoming)) InTime (begin_asset d usize_mod sink sid peer now c n x s u)
  begin-Left c n x none u = tt
  begin-Left c n x (some (ref, file)) u = beat-Left _ _ u (λ v.
      handled-Left n
        (on_asset_begin d usize_mod sid now (record { tables = v.tables; current = c }) x ref file)
        v (on_asset_begin-Prompt (record { tables = v.tables; current = c }) x ref file))

  settled-Left :
      (r : Finished) (u : World)
      → Punctual r
      → Ends (Left (length u.incoming)) InTime (settled d usize_mod sink sid peer now r u)
  settled-Left (acknowledged o t n) u fine =
      send-Left (more none n) (asset_ack o) (record u { tables = t })
  settled-Left (broken e t) u fine = fine (record u { tables = t })

  end-Left :
      (c : Option (Active d)) (n : Totals) (declared : Hash32) (u : World)
      → Ends
          (Left (length u.incoming))
          InTime
          (end_asset d usize_mod sink sid peer now c n declared u)
  end-Left none n declared u = tt
  end-Left (some a) n declared u = beat-Left _ _ u (λ v.
      settled-Left
        (on_asset_end d sid peer now (record { tables = v.tables; current = some a }) n declared
          (sink.abandon a.staging_ref v.opened) (sink.commit a.staging_ref a.descriptor v.opened))
        (called v)
        (on_asset_end-Punctual v.tables a n declared (sink.abandon a.staging_ref v.opened)
          (sink.commit a.staging_ref a.descriptor v.opened)))

  message-Left :
      (c : Option (Active d)) (n : Totals) (payload : Bytes) (m : Message) (u : World)
      → Ends
          (Left (length u.incoming))
          InTime
          (on_message d usize_mod sink sid peer now c n payload m u)
  unfolding on_message
  message-Left c n payload heartbeat u = omega arith
  message-Left c n payload (session_begin role id items bytes) u = omega arith
  message-Left c n payload (have_query items) u =
      send-Left (more c n)
        (have_response (map entry_of (answer_have_query u.tables (map item_of items)))) u
  message-Left c n payload (asset_begin x offset) u =
      begin-Left c n x (sink.staging x u.opened) (called u)
  message-Left c n payload (chunk offset hash) u =
      handled-Left n
        (on_chunk d sid now (record { tables = u.tables; current = c }) offset hash payload) u
        (on_chunk-Prompt u.tables c offset hash payload)
  message-Left c n payload (asset_end declared) u = end-Left c n declared u
  message-Left c n payload (session_end a b e f) u = omega arith
  message-Left c n payload (abort reason detail) u = tt
  message-Left c n payload _ u = tt

  abbrev Fine : Talked Totals → Type 0
  Fine r = Ends (λ _ _. Unit {0}) InTime r

  module _ (again : Option (Active d) → Totals → Talk Totals) (k : ℕ)
      (fine : (c : Option (Active d)) (n : Totals) (u : World)
        → length u.incoming < k
        → Fine (again c n u)) where
    interrupted-Fine :
        (n : Totals) (e : LinkError) (b : Bool) (u : World)
        → Fine (interrupted d usize_mod sink sid peer now n e b u)
    interrupted-Fine n e true u = tt
    interrupted-Fine n e false u = tt

    reading-Fine :
        (c : Option (Active d)) (n : Totals) (r : LinkReading) (u : World) (left : ℕ)
        → left ≤ k
        → Shorter left r
        → Fine (on_reading d usize_mod sink sid peer now again c n r u)
    reading-Fine c n (failed e) u left few h =
        interrupted-Fine n e (is_disconnect e) (record u { incoming = [] })
    reading-Fine c n (received f rest) u left few h =
        Ends-continue _ _ _
          (on_message d usize_mod sink sid peer now c n f.payload f.message
            (record u { incoming = rest }))
          (Ends-weaken _ _ _
            (on_message d usize_mod sink sid peer now c n f.payload f.message
              (record u { incoming = rest }))
            (message-Left c n f.payload f.message (record u { incoming = rest })) on_next)
      where
        on_next :
            (x : Next d) (v : World)
            → length v.incoming ≤ length rest
            → Fine (onward d usize_mod sink sid peer now again x v)
        on_next (more c' m) v le = fine c' m v (omega (arith, few, h, le))
        on_next (finished m) v le = tt

  receive_all-Fine :
      (fuel : ℕ) (c : Option (Active d)) (n : Totals) (u : World)
      → length u.incoming ≤ fuel
      → Fine (receive_all d usize_mod sink sid peer now fuel c n u)
  unfolding receive_all
  receive_all-Fine zero c n u h =
      reading-Fine (λ _ _. starved) 0 (λ c' m v short. absurd (omega arith)) c n (read u.incoming) u
        (length u.incoming) h (read-Shorter u.incoming)
  receive_all-Fine (suc fuel) c n u h =
      reading-Fine (receive_all d usize_mod sink sid peer now fuel) (suc fuel)
        (λ c' m v short. receive_all-Fine fuel c' m v (omega arith)) c n (read u.incoming) u
        (length u.incoming) h (read-Shorter u.incoming)

-- Whatever the peer sends and whenever the link, the staging device or the library fails: the loop of
-- a receiving session ends, by a return or an error. It never needs more rounds than there are frames
-- still to arrive, so it does not outlast the frames that the peer sends; a call of `resume_from` in it
-- is taken to end.
pub receiver_session-InTime :
    (d : Sha256) (usize_mod : ℕ) (sink : Sink) (now : ℕ) (fresh_sid : String)
    (resume_id : Option String) (made : Handshaken) (w : World)
    → Ends
        (λ _ _. Unit {0})
        InTime
        (receiver_session d usize_mod sink now fresh_sid resume_id made w)
unfolding receiver_session
receiver_session-InTime d usize_mod sink now fresh_sid resume_id made w =
    Ends-continue _ _ _ (session_of fresh_sid made.peer_id now (found_session w.tables resume_id) w)
      (opened_or_new (found_session w.tables resume_id))
  where
    offered :
        (sid : String) (u : World)
        → Ends (λ _ _. Unit {0}) InTime (offer d usize_mod sink now sid u)
    offered sid u = on_states (in_flight u.tables sid)
      where
        on_states :
            (r : Result (List InboundState))
            → Ends
                (λ _ _. Unit {0})
                InTime
                ((lift r >>= λ states. send (session_resume (map point_of states))) u)
        on_states (err e) = tt
        on_states (ok states) =
            Ends-send _ _ (session_resume (map point_of states)) u (λ o. tt) (λ o e. tt)

    Goes : Session → World → Type 0
    Goes s u =
        Ends (λ _ _. Unit {0}) InTime
          ((offer d usize_mod sink now s.id >> λ v.
              receive_all d usize_mod sink s.id made.peer_id now (length v.incoming) none no_totals
                v)
            u)

    goes : (s : Session) (u : World) → Goes s u
    goes s u = Ends-continue _ _ _ (offer d usize_mod sink now s.id u) (
        Ends-weaken _ _ _ (offer d usize_mod sink now s.id u) (offered s.id u) (λ _ v _.
          receive_all-Fine d usize_mod sink s.id made.peer_id now (length v.incoming) none no_totals
            v (omega arith)))

    opened_or_new :
        (found : Option Session) → Ends Goes InTime (session_of fresh_sid made.peer_id now found w)
    opened_or_new (some s) = goes s _
    opened_or_new none =
        Ends-stored _ _ (begin w.tables fresh_sid SessionRole.receiver (some made.peer_id) 0 0 now)
          w (λ s t. goes s (record w { tables = t })) (λ e. tt)
