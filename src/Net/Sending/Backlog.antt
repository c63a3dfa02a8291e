-- ===== src/Net/Sending/Backlog.antt =====
-- When a sending session of crates/net/src/orchestrator.rs ends well, and that its loop ends.
use photosync.Prelude.{
  ℕ, zero, suc, ◌≡◌, refl, Bool, true, false, some, List, [], ◌∷◌, ◌++◌, String, arith, length, map,
}
use photosync.Errors.{Result, ok, err}
use photosync.Model.{sender}
use photosync.Identity.{Sha256}
use photosync.Proto.{Frame, have_query, ResumePoint, session_begin, session_end, new_frame}
use photosync.Catalog.Backlog.{FilterArgs, Candidate, candidates, counters}
use photosync.Catalog.Counts.{length-candidates}
use photosync.Session.{begin, set_state}
use photosync.Net.Talk.{
  SessionError, World, Talk, Talked, said, broke, continue, ◌>>=◌, send, receive, stored, lift,
}
use photosync.Net.Talk.Laws.{Ends, Ends-continue, Ends-send, Ends-weaken}
use photosync.Net.Handshake.{Handshaken}
use photosync.Net.Orchestrator.Finishing.{Totals}
use photosync.Net.Sender.{Library, starved}
use photosync.Net.Sending.{
  have_batch, no_totals, resume_points, have_answers, query_of, on_answers, guarded, on_batch,
  send_backlog, end_session, sender_session,
}

abbrev Any : SessionError → World → Type 0
Any e u = Unit {0}

-- Whatever a call does, what follows it does when it returns.
Ends_then :
    {A B : Type 0} (P : B → World → Type 0) (k : A → Talk B) (r : Talked A)
    → ((a : A) (u : World) → Ends P Any (k a u))
    → Ends P Any (continue k r)
Ends_then P k (said a u) h = h a u
Ends_then P k (broke e u) h = tt

abbrev Emptied : FilterArgs → Totals → World → Type 0
Emptied f n u = (counters u.tables f).remaining ≡ 0

-- The session has said how it ended, and nothing is left to send.
abbrev pub Ended : FilterArgs → Totals → World → Type 0
Ended f n u =
    Emptied f n u
    × ((before : List Frame) × (u.sent
          ≡ before
            ++ (new_frame (session_end n.items_done n.items_skipped n.items_failed n.bytes_done)
                ∷ [])))

module _ (d : Sha256) (usize_mod : ℕ) (lib : Library) (sid : String) (peer now : ℕ)
    (points : List ResumePoint) (f : FilterArgs) where
  batch-Emptied :
      (again : Totals → Talk Totals) (n : Totals) (u : World) (r : Result (List Candidate))
      → candidates u.tables f have_batch ≡ r
      → ((m : Totals) (v : World) → Ends (Emptied f) Any (again m v))
      → Ends (Emptied f) Any ((lift r >>= on_batch d usize_mod lib sid peer now points again n) u)
  batch-Emptied again n u (err e) eq h = tt
  batch-Emptied again n u (ok []) eq h =
      omega (arith, length-candidates u.tables f have_batch [] eq)
  batch-Emptied again n u (ok (c ∷ cs)) eq h =
      Ends_then _ _ (send (have_query (map query_of (c ∷ cs))) u) (λ _ u1.
        Ends_then _ _ (receive u1) (λ frame u2.
          Ends_then _ _ (have_answers frame.message u2) (λ answers u3.
            Ends_then _ _
              (on_answers d usize_mod lib sid peer now points (c ∷ cs) (n, false) answers u3)
              on_progress)))
    where
      on_progress :
          (p : Totals × Bool) (v : World)
          → Ends (Emptied f) Any (guarded d usize_mod lib sid peer now points again p v)
      on_progress (m, true) v = h m v
      on_progress (m, false) v = tt

  send_backlog-Emptied :
      (fuel : ℕ) (n : Totals) (u : World)
      → Ends (Emptied f) Any (send_backlog d usize_mod lib sid peer now points fuel f n u)
  unfolding send_backlog
  send_backlog-Emptied zero n u =
      batch-Emptied (λ _. starved) n u (candidates u.tables f have_batch) refl (λ m v. tt)
  send_backlog-Emptied (suc fuel) n u =
      batch-Emptied (send_backlog d usize_mod lib sid peer now points fuel f) n u
        (candidates u.tables f have_batch) refl (send_backlog-Emptied fuel)

  end_session-Ended :
      (n : Totals) (u : World)
      → Emptied f n u
      → Ends (Ended f) Any (end_session d usize_mod lib sid peer now points n u)
  unfolding set_state counters
  end_session-Ended n u e =
      Ends-continue _ _ _
        (send (session_end n.items_done n.items_skipped n.items_failed n.bytes_done) u)
        (Ends-send _ _ (session_end n.items_done n.items_skipped n.items_failed n.bytes_done) u
          (λ o. (e, (u.sent, refl))) (λ o x. tt))

-- Whatever the peer answers and the link does: a sending session that returns its totals has left
-- nothing for this peer in the backlog, and the last frame that it sent says these totals.
pub sender_session-Ended :
    (d : Sha256) (usize_mod : ℕ) (lib : Library) (sid : String) (now : ℕ) (videos : Bool)
    (made : Handshaken) (w : World)
    → Ends
        (Ended (record { peer_id = made.peer_id; include_videos = videos }))
        Any
        (sender_session d usize_mod lib sid now videos made w)
unfolding sender_session
sender_session-Ended d usize_mod lib sid now videos made w =
    (let f : FilterArgs = record { peer_id = made.peer_id; include_videos = videos } in
      let remaining = (counters w.tables f).remaining in
      Ends_then _ _ (stored (λ t. begin t sid sender (some made.peer_id) remaining 0 now) w) (λ _ u.
        Ends_then _ _ (receive u) (λ frame u1.
          Ends_then _ _ (resume_points frame.message u1) (λ points u2.
            Ends_then _ _ (send (session_begin sender sid remaining 0) u2) (λ _ u3.
              Ends-continue _ _ _
                (send_backlog d usize_mod lib sid made.peer_id now points (length u3.incoming) f
                  no_totals u3)
                (Ends-weaken _ _ _
                  (send_backlog d usize_mod lib sid made.peer_id now points (length u3.incoming) f
                    no_totals u3)
                  (send_backlog-Emptied d usize_mod lib sid made.peer_id now points f
                    (length u3.incoming) no_totals u3)
                  (end_session-Ended d usize_mod lib sid made.peer_id now points f)))))))
