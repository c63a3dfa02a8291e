-- ===== src/Net/Sending/Termination.antt =====
-- A session of `run_sender` in crates/net/src/orchestrator.rs ends: every round of its loops takes a frame
-- from the link.
use photosync.Prelude.{
  ℕ, zero, suc, ◌≤◌, ◌<◌, Bool, true, false, Option, none, some, List, [], ◌∷◌, String, arith,
  length, map, find, ◌==◌,
}
use photosync.Errors.{Result, ok, err}
use photosync.Model.{Hash32, HaveVerdict, skip, probable, sender}
use photosync.Identity.{Sha256}
use photosync.Proto.{
  Message, session_resume, session_begin, session_end, have_query, have_response, abort,
  HaveResponseEntry, ResumePoint, new_frame,
}
use photosync.Db.{Db}
use photosync.Catalog.Backlog.{FilterArgs, Candidate, candidates, counters}
use photosync.Session.{begin}
use photosync.Net.Talk.{World, Talk, Talked, ◌>>=◌, ◌>>◌, send, receive, stored, lift}
use photosync.Net.Talk.Laws.{
  Ends, Ends-continue, Ends-send, Ends-receive, Ends-stored, Ends-weaken, after,
}
use photosync.Net.Talk.Reads.{Left, InTime, Ends-shorter}
use photosync.Net.Handshake.{Handshaken}
use photosync.Net.Orchestrator.{record_delivered}
use photosync.Net.Orchestrator.Finishing.{Totals}
use photosync.Net.Sender.{
  Delivered, committed, already_present, failed, Library, starved, send_asset,
}
use photosync.Net.Sender.Reads.{send_asset-Left}
use photosync.Net.Sending.{
  have_batch, resume_of, have_answers, query_of, recorded, deliver, on_delivered, on_skip,
  on_verdict, on_answer, on_answers, guarded, on_batch, send_backlog, no_totals, resume_points,
  end_session, sender_session,
}

module _ (d : Sha256) (usize_mod : ℕ) (lib : Library) (sid : String) (peer now : ℕ)
    (points : List ResumePoint) where
  deliver-Left :
      (c : Candidate) (full : Hash32) (u : World)
      → Ends (Left (length u.incoming)) InTime (deliver peer c full now u)
  deliver-Left c full u =
      on_recorded (record_delivered u.tables peer c.id full c.descriptor.quick_hash now)
    where
      on_recorded :
          (r : Result (Unit {0}) × Db) → Ends (Left (length u.incoming)) InTime (recorded r u)
      on_recorded (ok x, t) = omega arith
      on_recorded (err e, t) = tt

  delivered-Left :
      (c : Candidate) (n : Totals) (r : Delivered) (u : World)
      → Ends
          (Left (length u.incoming))
          InTime
          (on_delivered d usize_mod lib sid peer now points c n r u)
  delivered-Left c n (committed full bytes) u =
      Ends-continue _ _ _ (deliver peer c full now u)
        (Ends-weaken _ _ _ (deliver peer c full now u) (deliver-Left c full u) (λ a x le. le))
  delivered-Left c n (already_present full) u =
      Ends-continue _ _ _ (deliver peer c full now u)
        (Ends-weaken _ _ _ (deliver peer c full now u) (deliver-Left c full u) (λ a x le. le))
  delivered-Left c n failed u = omega arith

  streamed-Left :
      (c : Candidate) (n : Totals) (u : World)
      → Ends (Left (length u.incoming)) InTime (
          (send_asset d usize_mod lib sid now c (resume_of points c.descriptor.quick_hash)
              >>= on_delivered d usize_mod lib sid peer now points c n)
            u)
  streamed-Left c n u =
      Ends-continue _ _ _
        (send_asset d usize_mod lib sid now c (resume_of points c.descriptor.quick_hash) u)
        (Ends-weaken _ _ _
          (send_asset d usize_mod lib sid now c (resume_of points c.descriptor.quick_hash) u)
          (send_asset-Left d usize_mod lib sid now c (resume_of points c.descriptor.quick_hash) u)
          (λ r x le.
            Ends-weaken _ _ _ (on_delivered d usize_mod lib sid peer now points c n r x)
              (delivered-Left c n r x) (λ a y le'. omega arith)))

  skipped-Left :
      (c : Candidate) (n : Totals) (full : Option Hash32) (u : World)
      → Ends
          (Left (length u.incoming))
          InTime
          (on_skip d usize_mod lib sid peer now points c n full u)
  skipped-Left c n none u = tt
  skipped-Left c n (some full) u =
      Ends-continue _ _ _ (deliver peer c full now u)
        (Ends-weaken _ _ _ (deliver peer c full now u) (deliver-Left c full u) (λ a x le. le))

  verdict-Left :
      (c : Candidate) (n : Totals) (v : HaveVerdict) (u : World)
      → Ends
          (Left (length u.incoming))
          InTime
          (on_verdict d usize_mod lib sid peer now points c n v u)
  unfolding on_verdict
  verdict-Left c n skip u = skipped-Left c n c.descriptor.full_hash u
  verdict-Left c n HaveVerdict.send u = streamed-Left c n u
  verdict-Left c n probable u = streamed-Left c n u

  answers-Left :
      (batch : List Candidate) (p : Totals × Bool) (items : List HaveResponseEntry) (u : World)
      → Ends
          (Left (length u.incoming))
          InTime
          (on_answers d usize_mod lib sid peer now points batch p items u)
  unfolding on_answers
  answers-Left batch p [] u = omega arith
  answers-Left batch p (a ∷ rest) u =
      Ends-continue _ _ _
        (on_answer d usize_mod lib sid peer now points p a.verdict
          (find (λ (c : Candidate). c.id == a.id) batch) u)
        (Ends-weaken _ _ _
          (on_answer d usize_mod lib sid peer now points p a.verdict
            (find (λ (c : Candidate). c.id == a.id) batch) u)
          (answer-Left (find (λ (c : Candidate). c.id == a.id) batch))
          (λ q x le.
            Ends-weaken _ _ _ (on_answers d usize_mod lib sid peer now points batch q rest x)
              (answers-Left batch q rest x) (λ r y le'. omega arith)))
    where
      answer-Left :
          (c : Option Candidate)
          → Ends
              (Left (length u.incoming))
              InTime
              (on_answer d usize_mod lib sid peer now points p a.verdict c u)
      answer-Left none = omega arith
      answer-Left (some c) = verdict-Left c p.0 a.verdict u

  abbrev Fine : Talked Totals → Type 0
  Fine r = Ends (λ _ _. Unit {0}) InTime r

  module _ (f : FilterArgs) (again : Totals → Talk Totals) (k : ℕ)
      (fine : (n : Totals) (u : World) → length u.incoming < k → Fine (again n u)) where
    batch-Fine :
        (n : Totals) (u : World) (r : Result (List Candidate))
        → length u.incoming ≤ k
        → Fine ((lift r >>= on_batch d usize_mod lib sid peer now points again n) u)
    batch-Fine n u (err e) h = tt
    batch-Fine n u (ok []) h = tt
    batch-Fine n u (ok (c ∷ cs)) h =
        Ends-continue _ _ _ (send (have_query (map query_of (c ∷ cs))) u) (
          Ends-send _ _ (have_query (map query_of (c ∷ cs))) u
            (λ o.
              let u1 = after u o (new_frame (have_query (map query_of (c ∷ cs)))) in
              Ends-continue _ _ _ (receive u1) (
                Ends-shorter _ u1 (λ frame rest short.
                  on_frame frame.message (record u1 { incoming = rest }) (omega arith))))
            (λ o e. tt))
      where
        on_progress :
            (p : Totals × Bool) (v : World)
            → length v.incoming < k
            → Fine (guarded d usize_mod lib sid peer now points again p v)
        on_progress (m, true) v le = fine m v le
        on_progress (m, false) v le = tt

        on_frame :
            (m : Message) (v : World)
            → length v.incoming < k
            → Fine (
                (have_answers m >>= λ items.
                on_answers d usize_mod lib sid peer now points (c ∷ cs) (n, false) items
                >>= guarded d usize_mod lib sid peer now points again)
                  v)
        on_frame (have_response items) v le =
            Ends-continue _ _ _
              (on_answers d usize_mod lib sid peer now points (c ∷ cs) (n, false) items v)
              (Ends-weaken _ _ _
                (on_answers d usize_mod lib sid peer now points (c ∷ cs) (n, false) items v)
                (answers-Left (c ∷ cs) (n, false) items v)
                (λ p x le'. on_progress p x (omega arith)))
        on_frame (abort reason detail) v le = tt
        on_frame _ v le = tt

  send_backlog-Fine :
      (f : FilterArgs) (fuel : ℕ) (n : Totals) (u : World)
      → length u.incoming ≤ fuel
      → Fine (send_backlog d usize_mod lib sid peer now points fuel f n u)
  unfolding send_backlog
  send_backlog-Fine f zero n u h =
      batch-Fine f (λ _. starved) 0 (λ m v short. absurd (omega arith)) n u
        (candidates u.tables f have_batch) h
  send_backlog-Fine f (suc fuel) n u h =
      batch-Fine f (send_backlog d usize_mod lib sid peer now points fuel f) (suc fuel)
        (λ m v short. send_backlog-Fine f fuel m v (omega arith)) n u
        (candidates u.tables f have_batch) h

module _ (d : Sha256) (usize_mod : ℕ) (lib : Library) (sid : String) (now : ℕ) (videos : Bool)
    (made : Handshaken) (w : World) where
  abbrev f : FilterArgs
  f = record { peer_id = made.peer_id; include_videos = videos }

  abbrev remaining : ℕ
  remaining = (counters w.tables f).remaining

  abbrev going : List ResumePoint → Talk Totals
  going points = do
    send (session_begin sender sid remaining 0)
    n ← (λ u.
        send_backlog d usize_mod lib sid made.peer_id now points (length u.incoming) f no_totals u)
    end_session d usize_mod lib sid made.peer_id now points n

  goes : (points : List ResumePoint) (u : World) → Ends (λ _ _. Unit {0}) InTime (going points u)
  goes points u = Ends-continue _ _ _ (send (session_begin sender sid remaining 0) u) (
      Ends-send _ _ (session_begin sender sid remaining 0) u
        (λ o.
          let v = after u o (new_frame (session_begin sender sid remaining 0)) in
          Ends-continue _ _ _
            (send_backlog d usize_mod lib sid made.peer_id now points (length v.incoming) f
              no_totals v)
            (Ends-weaken _ _ _
              (send_backlog d usize_mod lib sid made.peer_id now points (length v.incoming) f
                no_totals v)
              (send_backlog-Fine d usize_mod lib sid made.peer_id now points f (length v.incoming)
                no_totals v (omega arith))
              (λ n x _.
                Ends-continue _ _ _
                  (send (session_end n.items_done n.items_skipped n.items_failed n.bytes_done) x)
                  (Ends-send _ _
                    (session_end n.items_done n.items_skipped n.items_failed n.bytes_done) x
                    (λ o'. tt) (λ o' e. tt)))))
        (λ o e. tt))

  on_points :
      (m : Message) (u : World) → Ends (λ _ _. Unit {0}) InTime ((resume_points m >>= going) u)
  on_points (session_resume points) u = goes points u
  on_points (abort reason detail) u = tt
  on_points _ u = tt

pub sender_session-InTime :
    (d : Sha256) (usize_mod : ℕ) (lib : Library) (sid : String) (now : ℕ) (videos : Bool)
    (made : Handshaken) (w : World)
    → Ends (λ _ _. Unit {0}) InTime (sender_session d usize_mod lib sid now videos made w)
unfolding sender_session
sender_session-InTime d usize_mod lib sid now videos made w =
    Ends-continue _ _ _
      (stored
        (λ t.
          begin t sid sender (some made.peer_id) (remaining d usize_mod lib sid now videos made w) 0
            now)
        w)
      (Ends-stored _ _
        (begin w.tables sid sender (some made.peer_id)
          (remaining d usize_mod lib sid now videos made w) 0 now)
        w
        (λ s t. Ends-continue _ _ _ (receive (record w { tables = t })) (
          Ends-receive _ _ (record w { tables = t })
            (λ frame rest.
              on_points d usize_mod lib sid now videos made w frame.message
                (record w { tables = t; incoming = rest }))
            (λ e. tt)))
        (λ e. tt))
