-- ===== src/Net/Handshake/Mutual.antt =====
-- What `sender_handshake` of crates/net/src/orchestrator.rs guarantees against any receiver.
use photosync.Prelude.{ℕ, ◌≡◌, ◌∙◌, ap, sym, refl, not, Option, List, [], ◌∷◌, ◌==◌}
use photosync.Prelude.Bytes.{Bytes}
use photosync.Errors.{Result, ok, err}
use photosync.Model.{Hash32}
use photosync.Proto.{
  Frame, Message, hello, authenticate, auth_challenge, abort, new_frame, protocol_major,
}
use photosync.Pairing.{Hmac, PairingCode, ProofRole, proof, verify_proof}
use photosync.Net.Link.{LinkError, Arrival, read, received}
use photosync.Net.Talk.{SessionError, World, ◌>>=◌, ◌>>◌, send, receive, pure, throw}
use photosync.Net.Talk.Laws.{
  Ends, Ends-continue, Ends-send, Ends-heard, Heard, Ends-if, Ends-weaken, Every, Every-append,
  Said, Said-after, Said_start, after,
}
use photosync.Net.Handshake.{
  SenderAuth, Own, hello_of, from_nonce, sender_greeted, nonce_of, answer_of, accepted,
  authenticate_receiver, sender_handshake,
}

module _ (h : Hmac) (own : Own) (peer : Hash32) (code : PairingCode) where
  -- These arrived: a greeting, a challenge, and a proof that is the receiver's for this challenge, for
  -- both certificates and the code.
  abbrev pub Verified : List Arrival → Type 0
  Verified arrivals =
      (greeting : Frame) × (challenge : Frame) × (answer : Frame) × (rest : List Arrival)
      × (nonce : Bytes) × (presented : Hash32) × Heard arrivals (greeting ∷ challenge ∷ answer ∷ [])
          rest
      × (challenge.message ≡ auth_challenge nonce)
      × (answer.message ≡ authenticate presented)
      × (verify_proof h (from_nonce nonce own.fingerprint peer) code ProofRole.receiver presented
          ≡ ok tt)

  -- A greeting, or the sender's own proof for a challenge with both certificates.
  abbrev pub Modest : Message → Type 0
  Modest (hello major minor name platform fp) = fp ≡ own.fingerprint
  Modest (authenticate presented) =
      (nonce : Bytes) × (presented
        ≡ proof h (from_nonce nonce own.fingerprint peer) code ProofRole.sender)
  Modest _ = ¬ Unit {0}

  abbrev pub Modestly : List Frame → Type 0
  Modestly fs = Every (λ (f : Frame). Modest f.message) fs

  sends :
      (w u : World) (o : List (Option LinkError)) (m : Message)
      → Modest m
      → Said Modestly w u
      → Said Modestly w (after u o (new_frame m))
  unfolding new_frame
  sends w u o m modest s =
      Said-after Modestly Modestly w u o (new_frame m)
        (λ new all_modest.
          Every-append (λ (f : Frame). Modest f.message) new (new_frame m ∷ []) all_modest
            (modest, tt))
        s

  module _ (w : World) where
    abbrev Only : SessionError → World → Type 0
    Only e u = Said Modestly w u

    accepted-Verified :
        (nonce : Bytes) (presented : Hash32) (r : Result (Unit {0})) (u : World)
        → (verify_proof h (from_nonce nonce own.fingerprint peer) code ProofRole.receiver presented
              ≡ ok tt
            → Verified w.incoming)
        → verify_proof h (from_nonce nonce own.fingerprint peer) code ProofRole.receiver presented
          ≡ r
        → Said Modestly w u
        → Ends (λ _ v. Said Modestly w v × Verified w.incoming) Only (accepted r u)
    accepted-Verified nonce presented (ok tt) u shown e s = (s, shown e)
    accepted-Verified nonce presented (err x) u shown e s = s

    answered-Verified :
        (nonce : Bytes) (m : Message) (u : World)
        → ((presented : Hash32)
            → m ≡ authenticate presented
            → verify_proof h
                (from_nonce nonce own.fingerprint peer)
                code
                ProofRole.receiver
                presented
              ≡ ok tt
            → Verified w.incoming)
        → Said Modestly w u
        → Ends
            (λ _ v. Said Modestly w v × Verified w.incoming)
            Only
            ((answer_of m >>= λ presented. accepted (
                verify_proof h
                  (from_nonce nonce own.fingerprint peer)
                  code
                  ProofRole.receiver
                  presented))
              u)
    unfolding answer_of
    answered-Verified nonce (authenticate presented) u shown s =
        accepted-Verified nonce presented _ u (shown presented refl) refl s
    answered-Verified nonce (abort r x) u shown s = s
    answered-Verified nonce _ u shown s = s

    proved-Verified :
        (nonce : Bytes) (greeting challenge : Frame) (u : World)
        → Heard w.incoming (greeting ∷ challenge ∷ []) u.incoming
        → challenge.message ≡ auth_challenge nonce
        → Said Modestly w u
        → Ends
            (λ _ v. Said Modestly w v × Verified w.incoming)
            Only
            ((do
              send (
                  authenticate
                    (proof h (from_nonce nonce own.fingerprint peer) code ProofRole.sender))
              answer ← receive
              presented ← answer_of answer.message
              accepted (
                  verify_proof h
                    (from_nonce nonce own.fingerprint peer)
                    code
                    ProofRole.receiver
                    presented))
              u)
    proved-Verified nonce greeting challenge u (v, first, (v1, second, same)) asked s =
        Ends-continue _ _ _
          (send
            (authenticate (proof h (from_nonce nonce own.fingerprint peer) code ProofRole.sender))
            u)
          (Ends-send _ _
            (authenticate (proof h (from_nonce nonce own.fingerprint peer) code ProofRole.sender)) u
            (λ o.
              let u1 = after u o (
                new_frame (
                  authenticate
                    (proof h (from_nonce nonce own.fingerprint peer) code ProofRole.sender))) in
              let s1 =
                sends w u o
                  (authenticate
                    (proof h (from_nonce nonce own.fingerprint peer) code ProofRole.sender))
                  (nonce, refl) s in
              Ends-continue _ _ _ (receive u1) (
                Ends-heard _ _ u1
                  (λ f rest third.
                    answered-Verified nonce f.message (record u1 { incoming = rest })
                      (λ presented said right. (
                        greeting,
                        challenge,
                        f,
                        rest,
                        nonce,
                        presented,
                        (v, first, (v1, second, (rest, ap read same ∙ third, refl))),
                        asked,
                        said,
                        right,
                      ))
                      s1)
                  (λ e. s1)))
            (λ o e. s))

    authenticated-Verified :
        (greeting : Frame) (u : World)
        → read w.incoming ≡ received greeting u.incoming
        → Said Modestly w u
        → Ends
            (λ _ v. Said Modestly w v × Verified w.incoming)
            Only
            (authenticate_receiver h own peer (SenderAuth.by_code code) u)
    unfolding authenticate_receiver nonce_of
    authenticated-Verified greeting u first s = Ends-continue _ _ _ (receive u) (
        Ends-heard _ _ u
          (λ f rest second.
            on_challenge f f.message (record u { incoming = rest }) refl
              (u.incoming, first, (rest, second, refl)) s)
          (λ e. s))
      where
        on_challenge :
            (f : Frame) (m : Message) (v : World)
            → f.message ≡ m
            → Heard w.incoming (greeting ∷ f ∷ []) v.incoming
            → Said Modestly w v
            → Ends
                (λ _ x. Said Modestly w x × Verified w.incoming)
                Only
                ((do
                  nonce ← nonce_of m
                  send (
                      authenticate
                        (proof h (from_nonce nonce own.fingerprint peer) code ProofRole.sender))
                  answer ← receive
                  presented ← answer_of answer.message
                  accepted (
                      verify_proof h
                        (from_nonce nonce own.fingerprint peer)
                        code
                        ProofRole.receiver
                        presented))
                  v)
        on_challenge f (auth_challenge nonce) v e heard sv =
            proved-Verified nonce greeting f v heard e sv
        on_challenge f (abort r x) v e heard sv = sv
        on_challenge f _ v e heard sv = sv

    greeted-Said :
        (m : Message) (u : World)
        → Said Modestly w u
        → Ends (λ _ v. Said Modestly w v × (v.incoming ≡ u.incoming)) Only (sender_greeted m u)
    unfolding sender_greeted
    greeted-Said (hello major minor name platform fp) u s =
        Ends-if (λ _ v. Said Modestly w v × (v.incoming ≡ u.incoming)) Only
          (not (major == protocol_major))
          (throw (SessionError.version_mismatch major protocol_major)) (pure name) u (λ _. s)
          (λ _. (s, refl))
    greeted-Said (abort r x) u s = s
    greeted-Said _ u s = s

pub sender_handshake-Verified :
    (h : Hmac) (own : Own) (peer : Hash32) (code : PairingCode) (fresh now : ℕ) (w : World)
    → Ends
        (λ made u.
          (made.peer_fingerprint ≡ peer)
          × Said (Modestly h own peer code) w u
          × Verified h own peer code w.incoming)
        (λ e u. Said (Modestly h own peer code) w u)
        (sender_handshake h own peer (SenderAuth.by_code code) fresh now w)
unfolding sender_handshake
sender_handshake-Verified h own peer code fresh now w =
    Ends-continue _ _ _ (send (hello_of own) w) (
      Ends-send _ _ (hello_of own) w
        (λ o.
          let u = after w o (new_frame (hello_of own)) in
          let s = sends h own peer code w w o (hello_of own) refl start in
          Ends-continue _ _ _ (receive u) (
            Ends-heard _ _ u
              (λ f rest first.
                let u1 = record u { incoming = rest } in
                Ends-continue _ _ _ (sender_greeted f.message u1) (
                  Ends-weaken _ _ _ (sender_greeted f.message u1)
                    (greeted-Said h own peer code w f.message u1 s)
                    (λ name v sv.
                      Ends-continue _ _ _
                        (authenticate_receiver h own peer (SenderAuth.by_code code) v)
                        (Ends-weaken _ _ _
                          (authenticate_receiver h own peer (SenderAuth.by_code code) v)
                          (authenticated-Verified h own peer code w f v
                            (first ∙ ap (received f) (sym sv.1)) sv.0)
                          (λ _ x both. (refl, both.0, both.1))))))
              (λ e. s)))
        (λ o e. start))
  where
    start : Said (Modestly h own peer code) w w
    start = Said_start (Modestly h own peer code) w tt
