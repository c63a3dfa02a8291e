-- ===== src/Net/Receiver.antt =====
-- `run_receiver` of crates/net/src/orchestrator.rs, over the handlers in Net/Orchestrator. The sink is a
-- parameter: what each of its calls answers, which may depend on how often the photo library was called
-- before. The id that `session::begin` draws and the time are arguments. The loop reads until the link
-- fails; its fuel is the number of arrivals.
pub mod Tally
pub mod Handling
pub mod Account
pub mod Termination
use photosync.Prelude.{
  ℕ, zero, suc, ◌+◌, Bool, true, false, not, Option, none, some, List, [], map, String, ltb, length,
  if◌then◌else◌,
}
use photosync.Prelude.Int.{to_i64}
use photosync.Errors.{Result, ok, err}
use photosync.Model.{Hash32, AssetDescriptor, SessionRole, SessionState}
use photosync.Staging.{File}
use photosync.Identity.{Sha256}
use photosync.Pairing.{Hmac}
use photosync.Prelude.Bytes.{Bytes}
use photosync.Chunk.{FinishVerdict, verified}
use photosync.Chunk.Receiver.{finish_asset}
use photosync.Proto.{
  Frame, Message, heartbeat, session_begin, session_resume, have_query, have_response, asset_begin,
  chunk, asset_end, asset_ack, session_end, abort, HaveQueryEntry, HaveResponseEntry, ResumePoint,
}
use photosync.Db.{Db, SessionRow}
use photosync.Prelude.{update_where}
use photosync.Session.{Session, begin, get, set_state, is_session}
use photosync.Inbound.{
  InboundState, HaveQueryItem, HaveResponseItem, answer_have_query, in_flight, holds_full_hash,
  open_transfer,
}
use photosync.Net.Link.{LinkError, LinkReading, received, failed, read, is_disconnect}
use photosync.Net.Talk.{
  SessionError, unexpected, sink_failed, peer_aborted, link, World, Talk, Talked, said, broke,
  ◌>>=◌, ◌>>◌, pure, throw, lift, change, stored, send, keep_alive,
}
use photosync.Net.Handshake.{Handshaken, ReceiverAuth, Own, receiver_handshake}
use photosync.Net.Orchestrator.{
  Active, Receiver, Handled, replied, silent, ended, on_chunk, on_asset_begin,
}
use photosync.Net.Orchestrator.Finishing.{Totals, Finished, acknowledged, broken, on_asset_end}
use photosync.Net.Sender.{starved}
use photosync.Net.Sending.{no_totals}

-- `LibrarySink`: a name and a file to stage an asset in; a staged file dropped; and one made visible.
pub record Sink : Type 0 where
  pub staging : AssetDescriptor → ℕ → Option (String × File)
  pub abandon : String → ℕ → Option (Unit {0})
  pub commit : String → AssetDescriptor → ℕ → Option String

abbrev pub called : World → World
called w = record w { opened = w.opened + 1 }

abbrev pub item_of : HaveQueryEntry → HaveQueryItem
item_of e = record { id = e.id; quick_hash = e.quick_hash; full_hash = e.full_hash }

abbrev pub entry_of : HaveResponseItem → HaveResponseEntry
entry_of a = record { id = a.id; verdict = a.verdict }

abbrev pub point_of : InboundState → ResumePoint
point_of s = record { quick_hash = s.quick_hash; bytes_received = s.bytes_received }

-- The UPDATE for `SessionBegin`.
unfoldable pub set_estimate : String → ℕ → ℕ → Db → Db
set_estimate sid items bytes t = record t {
  sessions =
      update_where (is_session sid)
        (λ (r : SessionRow). record r { items_total = to_i64 items; bytes_total = to_i64 bytes })
        t.sessions;
}

module _ (d : Sha256) where
  -- What a message leads to: the next round, or the end.
  pub data Next : Type 0 where
    more : Option (Active d) → Totals → Next
    finished : Totals → Next

module _ (d : Sha256) (usize_mod : ℕ) (sink : Sink) (sid : String) (peer now : ℕ) where
  abbrev pub handled : Totals → Handled d → Talk (Next d)
  handled n (replied m s) w = (send m >> pure (more s.current n)) (record w { tables = s.tables })
  handled n (silent s) w = said (more s.current n) (record w { tables = s.tables })
  handled n (ended e s) w = broke e (record w { tables = s.tables })

  -- Whether `inbound::open` finds bytes. The row was there then, and opening it changes no table: the
  -- keepalive may come before the handler.
  abbrev pub resumes : Result (InboundState × Db) → Bool
  resumes (ok p) = ltb 0 p.0.bytes_received
  resumes (err e) = false

  abbrev pub begin_asset :
      Option (Active d) → Totals → AssetDescriptor → Option (String × File) → Talk (Next d)
  begin_asset current n x none w = broke sink_failed w
  begin_asset current n x (some (ref, file)) w =
      ((if resumes (open_transfer w.tables sid x.quick_hash ref x.size now)
            then keep_alive
            else pure tt)
          >> λ u.
              handled n
                (on_asset_begin d usize_mod sid now
                  (record { tables = u.tables; current = current }) x ref file)
                u)
        w

  -- Whether the end of an asset leads to `sink.commit`.
  abbrev pub commits : Db → Result (FinishVerdict × File) → Bool
  commits t (ok (verified full, f)) = not (holds_full_hash t full)
  commits t _ = false

  abbrev pub settled : Finished → Talk (Next d)
  settled (acknowledged o t n) w =
      (send (asset_ack o) >> pure (more none n)) (record w { tables = t })
  settled (broken e t) w = broke e (record w { tables = t })

  abbrev pub end_asset : Option (Active d) → Totals → Hash32 → Talk (Next d)
  end_asset none n declared w = broke unexpected w
  end_asset (some active) n declared w =
      ((if commits w.tables (finish_asset d active.asset declared) then keep_alive else pure tt)
          >> λ u.
              settled
                (on_asset_end d sid peer now (record { tables = u.tables; current = some active }) n
                  declared (sink.abandon active.staging_ref u.opened)
                  (sink.commit active.staging_ref active.descriptor u.opened))
                (called u))
        w

  -- The `match` on a message.
  unfoldable pub on_message : Option (Active d) → Totals → Bytes → Message → Talk (Next d)
  unfolding set_estimate
  on_message current n payload heartbeat w = said (more current n) w
  on_message current n payload (session_begin role id items bytes) w =
      (change (set_estimate sid items bytes) >> pure (more current n)) w
  on_message current n payload (have_query items) w =
      (send (have_response (map entry_of (answer_have_query w.tables (map item_of items))))
          >> pure (more current n))
        w
  on_message current n payload (asset_begin x offset) w =
      begin_asset current n x (sink.staging x w.opened) (called w)
  on_message current n payload (chunk offset hash) w =
      handled n
        (on_chunk d sid now (record { tables = w.tables; current = current }) offset hash payload) w
  on_message current n payload (asset_end declared) w = end_asset current n declared w
  on_message current n payload (session_end items_done items_skipped items_failed bytes) w =
      (change (λ t. set_state t sid SessionState.done now) >> pure (finished n)) w
  on_message current n payload (abort reason detail) w =
      (change (λ t. set_state t sid SessionState.interrupted now)
          >> throw (peer_aborted reason detail))
        w
  on_message current n payload _ w = broke unexpected w

  abbrev pub onward : (Option (Active d) → Totals → Talk Totals) → Next d → Talk Totals
  onward again (more current n) = again current n
  onward again (finished n) = pure n

  abbrev pub interrupted : Totals → LinkError → Bool → Talk Totals
  interrupted n e true = change (λ t. set_state t sid SessionState.interrupted now) >> pure n
  interrupted n e false = throw (link e)

  abbrev pub on_reading :
      (Option (Active d) → Totals → Talk Totals)
      → Option (Active d)
      → Totals
      → LinkReading
      → Talk Totals
  on_reading again current n (received f rest) w =
      (on_message current n f.payload f.message >>= onward again) (record w { incoming = rest })
  on_reading again current n (failed e) w =
      interrupted n e (is_disconnect e) (record w { incoming = [] })

  -- A round of the `loop`.
  abbrev pub receive_round :
      (Option (Active d) → Totals → Talk Totals) → Option (Active d) → Totals → Talk Totals
  receive_round again current n w = on_reading again current n (read w.incoming) w

  unfoldable pub receive_all : ℕ → Option (Active d) → Totals → Talk Totals
  unfolding on_message
  receive_all zero = receive_round (λ _ _. starved)
  receive_all (suc fuel) = receive_round (receive_all fuel)

abbrev pub known : Result (Option Session) → Option Session
known (ok s) = s
known (err e) = none

abbrev pub found_session : Db → Option String → Option Session
found_session t none = none
found_session t (some id) = known (get t id)

-- The interrupted session, made active again, or a new one.
abbrev pub session_of : String → ℕ → ℕ → Option Session → Talk Session
session_of fresh_sid peer now (some s) =
    change (λ t. set_state t s.id SessionState.active now) >> pure s
session_of fresh_sid peer now none =
    stored (λ t. begin t fresh_sid SessionRole.receiver (some peer) 0 0 now)

module _ (d : Sha256) (usize_mod : ℕ) (sink : Sink) (now : ℕ) where
  abbrev pub offer : String → Talk (Unit {0})
  offer sid w =
      (lift (in_flight w.tables sid) >>= λ states. send (session_resume (map point_of states))) w

  -- A session with a peer that the handshake has accepted.
  unfoldable pub receiver_session : String → Option String → Handshaken → Talk Totals
  unfolding receive_all
  receiver_session fresh_sid resume_id made w =
      (do
        s ← session_of fresh_sid made.peer_id now (found_session w.tables resume_id)
        offer s.id
        (λ u.
            receive_all d usize_mod sink s.id made.peer_id now (length u.incoming) none no_totals
              u))
        w

  -- `run_receiver`
  unfoldable pub run_receiver :
      Hmac → Own → Hash32 → ReceiverAuth → Bytes → ℕ → String → Option String → Talk Totals
  unfolding receiver_session
  run_receiver h own peer auth nonce fresh fresh_sid resume_id =
      receiver_handshake h own peer auth nonce fresh now >>= receiver_session fresh_sid resume_id
