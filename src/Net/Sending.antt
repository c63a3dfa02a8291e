-- ===== src/Net/Sending.antt =====
-- `run_sender` of crates/net/src/orchestrator.rs. The id that `session::begin` draws and the time are
-- arguments. The loop over the backlog reads a frame in every round: its fuel is the number of arrivals.
pub mod Backlog
pub mod Termination
use photosync.Prelude.{
  ℕ, zero, suc, ◌+◌, ◌%◌, Bool, true, false, not, Option, none, some, List, [], ◌∷◌, map, String,
  find, length, if◌then◌else◌, ◌==◌,
}
use photosync.Prelude.Int.{u64_mod}
use photosync.Errors.{Result, ok, err}
use photosync.Model.{
  Hash32, hash_eq, HaveVerdict, skip, probable, SessionRole, sender, SessionState, TransferState,
  skipped_already_present,
}
use photosync.Identity.{Sha256}
use photosync.Pairing.{Hmac}
use photosync.Proto.{
  Message, session_resume, session_begin, session_end, have_query, have_response, HaveQueryEntry,
  HaveResponseEntry, ResumePoint, abort,
}
use photosync.Db.{Db}
use photosync.Catalog.Backlog.{FilterArgs, Candidate, candidates, counters}
use photosync.Session.{Session, begin, set_state}
use photosync.Session.Transfers.{settle}
use photosync.Net.Talk.{
  SessionError, unexpected, panicked, core, peer_aborted, World, Talk, Talked, said, broke, ◌>>=◌,
  ◌>>◌, pure, throw, lift, change, stored, send, receive,
}
use photosync.Net.Handshake.{Handshaken, SenderAuth, Own, sender_handshake}
use photosync.Net.Orchestrator.{record_delivered}
use photosync.Net.Orchestrator.Finishing.{Totals, skipped, counted}
use photosync.Net.Sender.{
  Delivered, committed, already_present, failed, Library, starved, send_asset,
}

abbrev pub have_batch : ℕ
have_batch = 500

abbrev pub no_totals : Totals
no_totals = record { items_done = 0; items_skipped = 0; items_failed = 0; bytes_done = 0 }

abbrev pub failed_one : Totals → Totals
failed_one n = record n { items_failed = (n.items_failed + 1) % u64_mod }

abbrev pub resume_points : Message → Talk (List ResumePoint)
resume_points (session_resume in_flight) = pure in_flight
resume_points (abort reason detail) = throw (peer_aborted reason detail)
resume_points _ = throw unexpected

abbrev or_start : Option ResumePoint → ℕ
or_start none = 0
or_start (some p) = p.bytes_received

-- `resume_of`
unfoldable pub resume_of : List ResumePoint → Hash32 → ℕ
resume_of points quick = or_start (find (λ (p : ResumePoint). hash_eq p.quick_hash quick) points)

abbrev pub have_answers : Message → Talk (List HaveResponseEntry)
have_answers (have_response items) = pure items
have_answers (abort reason detail) = throw (peer_aborted reason detail)
have_answers _ = throw unexpected

abbrev pub query_of : Candidate → HaveQueryEntry
query_of c = record {
  id = c.id;
  quick_hash = c.descriptor.quick_hash;
  full_hash = c.descriptor.full_hash;
}

-- `record_delivered` in a session.
abbrev pub recorded : Result (Unit {0}) × Db → Talk (Unit {0})
recorded (ok _, t) w = said tt (record w { tables = t })
recorded (err e, t) w = broke (core e) (record w { tables = t })

abbrev pub deliver : ℕ → Candidate → Hash32 → ℕ → Talk (Unit {0})
deliver peer c full now w =
    recorded (record_delivered w.tables peer c.id full c.descriptor.quick_hash now) w

module _ (d : Sha256) (usize_mod : ℕ) (lib : Library) (sid : String) (peer now : ℕ)
    (points : List ResumePoint) where
  abbrev pub Progress : Type 0
  Progress = Totals × Bool

  abbrev pub on_delivered : Candidate → Totals → Delivered → Talk Progress
  on_delivered c n (committed full bytes) = do
    deliver peer c full now
    change (λ t. settle t sid c.id TransferState.committed bytes)
    pure (counted bytes n, true)
  on_delivered c n (already_present full) = do
    deliver peer c full now
    change (λ t. settle t sid c.id skipped_already_present 0)
    pure (skipped n, true)
  on_delivered c n failed = do
    change (λ t. settle t sid c.id TransferState.failed 0)
    pure (failed_one n, true)

  abbrev pub on_skip : Candidate → Totals → Option Hash32 → Talk Progress
  on_skip c n none = throw panicked
  on_skip c n (some full) = deliver peer c full now >> pure (skipped n, true)

  -- The `match` on the verdict; `Send` and `Probable` stream the asset.
  unfoldable pub on_verdict : Candidate → Totals → HaveVerdict → Talk Progress
  on_verdict c n skip = on_skip c n c.descriptor.full_hash
  on_verdict c n HaveVerdict.send =
      send_asset d usize_mod lib sid now c (resume_of points c.descriptor.quick_hash)
      >>= on_delivered c n
  on_verdict c n probable =
      send_asset d usize_mod lib sid now c (resume_of points c.descriptor.quick_hash)
      >>= on_delivered c n

  abbrev pub on_answer : Progress → HaveVerdict → Option Candidate → Talk Progress
  on_answer p v none = pure p
  on_answer p v (some c) = on_verdict c p.0 v

  -- The `for` over the answers.
  unfoldable pub on_answers : List Candidate → Progress → List HaveResponseEntry → Talk Progress
  unfolding on_verdict resume_of
  on_answers batch p [] = pure p
  on_answers batch p (a ∷ rest) =
      on_answer p a.verdict (find (λ (c : Candidate). c.id == a.id) batch) >>= λ q.
      on_answers batch q rest

  abbrev pub guarded : (Totals → Talk Totals) → Progress → Talk Totals
  guarded again (n, true) = again n
  guarded again (n, false) = throw unexpected

  abbrev pub on_batch : (Totals → Talk Totals) → Totals → List Candidate → Talk Totals
  on_batch again n [] = pure n
  on_batch again n (c ∷ cs) = do
    send (have_query (map query_of (c ∷ cs)))
    frame ← receive
    answers ← have_answers frame.message
    progress ← on_answers (c ∷ cs) (n, false) answers
    guarded again progress

  -- A round of the `loop`.
  abbrev pub backlog_round : FilterArgs → (Totals → Talk Totals) → Totals → Talk Totals
  backlog_round f again n w = (lift (candidates w.tables f have_batch) >>= on_batch again n) w

  unfoldable pub send_backlog : ℕ → FilterArgs → Totals → Talk Totals
  unfolding on_answers
  send_backlog zero f = backlog_round f (λ _. starved)
  send_backlog (suc fuel) f = backlog_round f (send_backlog fuel f)

  abbrev pub end_session : Totals → Talk Totals
  end_session n = do
    send (session_end n.items_done n.items_skipped n.items_failed n.bytes_done)
    change (λ t. set_state t sid SessionState.done now)
    pure n

module _ (d : Sha256) (usize_mod : ℕ) (lib : Library) (sid : String) (now : ℕ) where
  -- A session with a peer that the handshake has accepted.
  unfoldable pub sender_session : Bool → Handshaken → Talk Totals
  unfolding send_backlog
  sender_session videos made w =
      (let f : FilterArgs = record { peer_id = made.peer_id; include_videos = videos } in
          let remaining = (counters w.tables f).remaining in
          do
            started ← stored (λ t. begin t sid sender (some made.peer_id) remaining 0 now)
            frame ← receive
            points ← resume_points frame.message
            send (session_begin sender sid remaining 0)
            n ← (λ u.
                send_backlog d usize_mod lib sid made.peer_id now points (length u.incoming) f
                  no_totals u)
            end_session d usize_mod lib sid made.peer_id now points n)
        w

  -- `run_sender`
  unfoldable pub run_sender : Hmac → Own → Hash32 → SenderAuth → ℕ → Bool → Talk Totals
  unfolding sender_session
  run_sender h own peer auth fresh videos =
      sender_handshake h own peer auth fresh now >>= sender_session videos
