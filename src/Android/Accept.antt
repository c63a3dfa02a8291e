-- ===== src/Android/Accept.antt =====
-- Whom the loop of `receiver_loop` in crates/android/src/session.rs serves.
use photosync.Prelude.{
  ℕ, ◌-◌, ◌≡◌, ◌∙◌, refl, ap, sym, subst, ◌++◌, ◌≤◌, ◌⊎◌, inl, inr, Bool, true, false, Option, none,
  some, List, [], ◌∷◌, arith, Bool-cases, String, if◌then◌else◌,
}
use photosync.Prelude.Bytes.{Bytes}
use photosync.Errors.{Result, ok, err}
use photosync.Model.{Hash32}
use photosync.Identity.{Sha256}
use photosync.Pairing.{Hmac, PairingCode, CodeSession, with_code, is_live}
use photosync.Pairing.Budget.{charged}
use photosync.Db.{Db}
use photosync.Session.{Session, latest_resumable, sweep_stale_active}
use photosync.Net.Talk.{World, Talked, said, broke}
use photosync.Net.Talk.Laws.{Ends, Ends-continue, Ends-map}
use photosync.Net.Handshake.{Handshaken, Own, ReceiverAuth, from_nonce, receiver_handshake}
use photosync.Net.Handshake.Safety.{Guarded, Proven, receiver_handshake-Guarded}
use photosync.Net.Orchestrator.Finishing.{Totals}
use photosync.Net.Receiver.{Sink, receiver_session, run_receiver}
use photosync.Net.Receiver.Handling.{Kept, Held}
use photosync.Net.Receiver.Account.{receiver_session-Kept}
use photosync.Android.{
  Connection, Waiting, Accepted, served, used_up, broken, waiting, left_by, joined_by, session_id,
  after_run, resumed, observed_by, on_connection, accept_all, receiver_loop,
}

-- The same code, and no more attempts.
abbrev pub Spends : CodeSession → CodeSession → Type 0
Spends s s' =
    (s'.code ≡ s.code) × (s'.issued_at_ms ≡ s.issued_at_ms) × (s'.attempts_left ≤ s.attempts_left)

Spends-charged : (h : Hmac) (s s' : CodeSession) → (s' ≡ s) ⊎ (s' ≡ charged h s 1) → Spends s s'
Spends-charged h s s' (inl e) = (
  ap (λ x. x.code) e,
  ap (λ x. x.issued_at_ms) e,
  (let q : s'.attempts_left ≡ s.attempts_left = ap (λ x. x.attempts_left) e in omega arith),
)
Spends-charged h s s' (inr e) = (
  ap (λ x. x.code) e,
  ap (λ x. x.issued_at_ms) e,
  (let q : s'.attempts_left ≡ s.attempts_left - 1 = ap (λ x. x.attempts_left) e in omega arith),
)

Spends-trans : (a b c : CodeSession) → Spends a b → Spends b c → Spends a c
Spends-trans a b c (x, y, z) (x', y', z') = (x' ∙ x, y' ∙ y, omega arith)

module _ (h : Hmac) (d : Sha256) (usize_mod : ℕ) (sink : Sink) (own : Own) where
  -- A session that returns its totals was with the peer of the TLS session, which had proved the code.
  run_receiver-Proven :
      (now : ℕ) (peer : Hash32) (nonce : Bytes) (fresh : ℕ) (sid : String)
      (resume_id : Option String) (w : World)
      → Ends
          (λ n u.
            Spends w.code_session u.code_session
            × Proven h (from_nonce nonce peer own.fingerprint) w.code_session now w.incoming)
          (λ e u. Spends w.code_session u.code_session)
          (run_receiver d usize_mod sink now h own peer ReceiverAuth.by_code nonce fresh sid
            resume_id w)
  unfolding run_receiver
  run_receiver-Proven now peer nonce fresh sid resume_id w =
      Ends-continue _ _ _ (receiver_handshake h own peer ReceiverAuth.by_code nonce fresh now w) (
        Ends-map _ _
          (λ _ u.
            Guarded h (from_nonce nonce peer own.fingerprint) w.code_session now w.incoming w u)
          _ (receiver_handshake h own peer ReceiverAuth.by_code nonce fresh now w) behind
          (λ e u g. Spends-charged h w.code_session u.code_session g.0)
          (receiver_handshake-Guarded h own peer nonce fresh now w))
    where
      stays :
          (u v : World)
          → Guarded h (from_nonce nonce peer own.fingerprint) w.code_session now w.incoming w u
          → v.code_session ≡ u.code_session
          → Spends w.code_session v.code_session
      stays u v g e =
          subst (λ (z : CodeSession). Spends w.code_session z) (sym e)
            (Spends-charged h w.code_session u.code_session g.0)

      behind :
          (made : Handshaken) (u : World)
          → (made.peer_fingerprint ≡ peer)
            × Guarded h (from_nonce nonce peer own.fingerprint) w.code_session now w.incoming w u
            × Proven h (from_nonce nonce peer own.fingerprint) w.code_session now w.incoming
          → Ends
              (λ n v.
                Spends w.code_session v.code_session
                × Proven h (from_nonce nonce peer own.fingerprint) w.code_session now w.incoming)
              (λ e v. Spends w.code_session v.code_session)
              (receiver_session d usize_mod sink now sid resume_id made u)
      behind made u (same, g, proven) =
          Ends-map (Kept u) _ (Held u) _
            (receiver_session d usize_mod sink now sid resume_id made u)
            (λ n v kept. (stays u v g kept.1.1, proven)) (λ e v held. stays u v g held.1)
            (receiver_session-Kept d usize_mod sink now sid resume_id made u)

  -- The connection that was served, in what state of the code, and that its peer had proved it.
  abbrev pub Served : CodeSession → List Connection → Accepted → Type 0
  Served start cs (served n u) =
      (c : Connection) × (earlier : List Connection) × (later : List Connection) × (peer : Hash32)
      × (s : CodeSession) × (cs ≡ earlier ++ (c ∷ later))
      × (c.observed ≡ some peer)
      × Spends start s
      × Spends start u.code_session
      × Proven h (from_nonce c.nonce peer own.fingerprint) s c.now c.incoming
  Served start cs (used_up u) = Spends start u.code_session
  Served start cs (broken e) = Unit {0}
  Served start cs (waiting u) = Spends start u.code_session

  -- One connection more in front, and a code of which less is spent.
  Served-cons :
      (start s : CodeSession) (c : Connection) (cs : List Connection) (r : Accepted)
      → Spends start s
      → Served s cs r
      → Served start (c ∷ cs) r
  Served-cons start s c cs (served n u) sp
        (c', earlier, later, peer, s', at, seen, spent, left, proven) =
      (
        c',
        c ∷ earlier,
        later,
        peer,
        s',
        ap (◌∷◌ c) at,
        seen,
        Spends-trans start s s' sp spent,
        Spends-trans start s u.code_session sp left,
        proven,
      )
  Served-cons start s c cs (used_up u) sp left = Spends-trans start s u.code_session sp left
  Served-cons start s c cs (broken e) sp tt = tt
  Served-cons start s c cs (waiting u) sp left = Spends-trans start s u.code_session sp left

  Spends-refl : (s : CodeSession) → Spends s s
  Spends-refl s = (refl, refl, omega arith)

  module _ (again : Waiting → Accepted) (c : Connection) (cs : List Connection) (s : Waiting)
      (next : (u : Waiting) → Served u.code_session cs (again u)) where
    after-Served :
        (peer : Hash32) (r : Talked Totals)
        → c.observed ≡ some peer
        → Ends
            (λ n u.
              Spends s.code_session u.code_session
              × Proven h (from_nonce c.nonce peer own.fingerprint) s.code_session c.now c.incoming)
            (λ e u. Spends s.code_session u.code_session)
            r
        → Served s.code_session (c ∷ cs) (after_run again r)
    after-Served peer (said n w) seen (left, proven) =
        (c, [], cs, peer, s.code_session, refl, seen, Spends-refl s.code_session, left, proven)
    after-Served peer (broke e w) seen left =
        Served-cons s.code_session w.code_session c cs (again (left_by w)) left (next (left_by w))

    resumed-Served :
        (peer : Hash32) (found : Result (Option Session))
        → c.observed ≡ some peer
        → Served s.code_session (c ∷ cs) (resumed h d usize_mod sink own again c peer s found)
    resumed-Served peer (err e) seen = tt
    resumed-Served peer (ok found) seen = after-Served peer _ seen (
        run_receiver-Proven c.now peer c.nonce c.fresh c.fresh_sid (session_id found)
          (joined_by c s))

    observed-Served :
        (o : Option Hash32)
        → c.observed ≡ o
        → Served s.code_session (c ∷ cs) (observed_by h d usize_mod sink own again c s o)
    observed-Served none seen =
        Served-cons s.code_session s.code_session c cs (again s) (Spends-refl s.code_session)
          (next s)
    observed-Served (some peer) seen = resumed-Served peer (latest_resumable s.tables) seen

    tls-Served :
        (b : Bool)
        → Served s.code_session
            (c ∷ cs)
            (if b then observed_by h d usize_mod sink own again c s c.observed else again s)
    tls-Served true = observed-Served c.observed refl
    tls-Served false =
        Served-cons s.code_session s.code_session c cs (again s) (Spends-refl s.code_session)
          (next s)

    connection-Served :
        Served s.code_session (c ∷ cs) (on_connection h d usize_mod sink own again c s)
    unfolding on_connection
    connection-Served = elim (Bool-cases (is_live s.code_session c.checked)) [
      | inr dead ↦ rw dead (Spends-refl s.code_session)
      | inl live ↦ rw live (tls-Served c.tls)
    ]

  accept_all-Served :
      (late : ℕ) (cs : List Connection) (s : Waiting)
      → Served s.code_session cs (accept_all h d usize_mod sink own late cs s)
  unfolding accept_all
  accept_all-Served late [] s = elim (Bool-cases (is_live s.code_session late)) [
    | inl live ↦ rw live (Spends-refl s.code_session)
    | inr dead ↦ rw dead (Spends-refl s.code_session)
  ]
  accept_all-Served late (c ∷ cs) s =
      connection-Served (accept_all h d usize_mod sink own late cs) c cs s
        (accept_all-Served late cs)

pub receiver_loop-Served :
    (h : Hmac) (d : Sha256) (usize_mod : ℕ) (sink : Sink) (own : Own) (code : PairingCode)
    (now late : ℕ) (cs : List Connection) (t : Db)
    → Served h d usize_mod sink own
        (with_code code now)
        cs
        (receiver_loop h d usize_mod sink own code now late cs t)
unfolding receiver_loop
receiver_loop-Served h d usize_mod sink own code now late cs t =
    accept_all-Served h d usize_mod sink own late cs (record {
      tables = (sweep_stale_active t now).1;
      code_session = with_code code now;
      opened = 0;
    })
