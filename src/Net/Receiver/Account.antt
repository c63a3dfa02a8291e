-- ===== src/Net/Receiver/Account.antt =====
-- The totals of a receiving session in crates/net/src/orchestrator.rs, and the content it keeps.
use photosync.Prelude.{
  ℕ, zero, suc, refl, Bool, true, false, Option, none, some, List, [], String, any, length,
  Bool-cases, inl, inr, map,
}
use photosync.Errors.{Result, ok, err}
use photosync.Model.{SessionRole}
use photosync.Identity.{Sha256}
use photosync.Proto.{new_frame, session_resume}
use photosync.Db.{has_peer}
use photosync.Session.{Session, begin, set_state, is_session}
use photosync.Inbound.{holds_full_hash, in_flight, InboundState}
use photosync.Net.Link.{LinkReading, received, failed, read, is_disconnect}
use photosync.Net.Talk.{World, Talk, ◌>>=◌, send, stored, lift}
use photosync.Net.Talk.Laws.{Ends, Ends-continue, Ends-send, Ends-weaken, Said_start}
use photosync.Net.Handshake.{Handshaken}
use photosync.Net.Orchestrator.{Active}
use photosync.Net.Orchestrator.Finishing.{Totals}
use photosync.Net.Sender.{starved}
use photosync.Net.Sending.{no_totals}
use photosync.Net.Receiver.{
  Sink, Next, more, finished, on_message, onward, interrupted, on_reading, receive_all, session_of,
  found_session, offer, point_of, receiver_session,
}
use photosync.Net.Receiver.Handling.{Tallied, Kept, Held, Onward, message-Onward, quiet_send}

module _ (d : Sha256) (usize_mod : ℕ) (sink : Sink) (sid : String) (peer now : ℕ) (w : World) where
  reading-Kept :
      (again : Option (Active d) → Totals → Talk Totals) (c : Option (Active d)) (n : Totals)
      (r : LinkReading) (u : World)
      → ((c' : Option (Active d)) (m : Totals) (v : World)
          → Kept w m v
          → Ends (Kept w) (Held w) (again c' m v))
      → Kept w n u
      → Ends (Kept w) (Held w) (on_reading d usize_mod sink sid peer now again c n r u)
  unfolding set_state holds_full_hash
  reading-Kept again c n (received f rest) u next kept =
      Ends-continue _ _ _
        (on_message d usize_mod sink sid peer now c n f.payload f.message
          (record u { incoming = rest }))
        (Ends-weaken _ _ _
          (on_message d usize_mod sink sid peer now c n f.payload f.message
            (record u { incoming = rest }))
          (message-Onward d usize_mod sink sid peer now w c n f.payload f.message
            (record u { incoming = rest }) kept)
          on_next)
    where
      on_next :
          (x : Next d) (v : World)
          → Onward d usize_mod sink sid peer now w x v
          → Ends (Kept w) (Held w) (onward d usize_mod sink sid peer now again x v)
      on_next (more c' m) v kv = next c' m v kv
      on_next (finished m) v kv = kv
  reading-Kept again c n (failed e) u next kept = on_failure (is_disconnect e)
    where
      on_failure :
          (b : Bool)
          → Ends
              (Kept w)
              (Held w)
              (interrupted d usize_mod sink sid peer now n e b (record u { incoming = [] }))
      on_failure true = kept
      on_failure false = kept.1

  receive_all-Kept :
      (fuel : ℕ) (c : Option (Active d)) (n : Totals) (u : World)
      → Kept w n u
      → Ends (Kept w) (Held w) (receive_all d usize_mod sink sid peer now fuel c n u)
  unfolding receive_all
  receive_all-Kept zero c n u kept =
      reading-Kept (λ _ _. starved) c n (read u.incoming) u (λ c' m v kv. kv.1) kept
  receive_all-Kept (suc fuel) c n u kept =
      reading-Kept (receive_all d usize_mod sink sid peer now fuel) c n (read u.incoming) u
        (receive_all-Kept fuel) kept

begun-Kept :
    (w : World) (sid : String) (peer now : ℕ) (u : World)
    → Kept w no_totals u
    → Ends
        (λ _ v. Kept w no_totals v)
        (Held w)
        (stored (λ t. begin t sid SessionRole.receiver (some peer) 0 0 now) u)
unfolding begin holds_full_hash
begun-Kept w sid peer now u kept = elim (Bool-cases (any (is_session sid) u.tables.sessions)) [
  | inl taken ↦ rw taken kept.1
  | inr new ↦ elim (Bool-cases (has_peer u.tables peer)) [
    | inl there ↦ rw (new, there) kept
    | inr missing ↦ rw (new, missing) kept.1
  ]
]

offer-Kept :
    (d : Sha256) (usize_mod : ℕ) (sink : Sink) (now : ℕ) (w : World) (sid : String) (u : World)
    → Kept w no_totals u
    → Ends (λ _ v. Kept w no_totals v) (Held w) (offer d usize_mod sink now sid u)
unfolding new_frame
offer-Kept d usize_mod sink now w sid u kept = on_states (in_flight u.tables sid)
  where
    on_states :
        (r : Result (List InboundState))
        → Ends
            (λ _ v. Kept w no_totals v)
            (Held w)
            ((lift r >>= λ states. send (session_resume (map point_of states))) u)
    on_states (err e) = kept.1
    on_states (ok states) =
        Ends-send _ _ (session_resume (map point_of states)) u
          (λ o. quiet_send w u o no_totals (session_resume (map point_of states)) refl refl kept)
          (λ o e. kept.1)

-- Whatever the peer sends and whenever the link, the staging device or the library fails: a receiving
-- session forgets no content that it held and leaves the code session alone; if it returns totals, they count the acknowledgements
-- that it sent of assets added and of assets that were there already, in u64, with none failed.
pub receiver_session-Kept :
    (d : Sha256) (usize_mod : ℕ) (sink : Sink) (now : ℕ) (fresh_sid : String)
    (resume_id : Option String) (made : Handshaken) (w : World)
    → Ends (Kept w) (Held w) (receiver_session d usize_mod sink now fresh_sid resume_id made w)
unfolding receiver_session set_state holds_full_hash
receiver_session-Kept d usize_mod sink now fresh_sid resume_id made w =
    Ends-continue _ _ _ (session_of fresh_sid made.peer_id now (found_session w.tables resume_id) w)
      (Ends-weaken _ _ _
        (session_of fresh_sid made.peer_id now (found_session w.tables resume_id) w)
        (session-Kept (found_session w.tables resume_id))
        (λ s u kept. Ends-continue _ _ _ (offer d usize_mod sink now s.id u) (
          Ends-weaken _ _ _ (offer d usize_mod sink now s.id u)
            (offer-Kept d usize_mod sink now w s.id u kept)
            (λ _ v kv.
              receive_all-Kept d usize_mod sink s.id made.peer_id now w (length v.incoming) none
                no_totals v kv))))
  where
    start : Kept w no_totals w
    start = (Said_start (Tallied no_totals) w (refl, refl, refl), (λ f z. z, refl))

    session-Kept :
        (s : Option Session)
        → Ends (λ _ u. Kept w no_totals u) (Held w) (session_of fresh_sid made.peer_id now s w)
    session-Kept (some s) = start
    session-Kept none = begun-Kept w fresh_sid made.peer_id now w start
