-- ===== src/Net/Handshake/Safety.antt =====
-- What the handshakes of crates/net/src/orchestrator.rs guarantee against any peer.
use photosync.Prelude.{
  ℕ, ◌-◌, ◌≡◌, refl, ◌∙◌, ap, sym, ◌⊎◌, inl, inr, Bool, true, false, not, Option, List, [], ◌∷◌,
  arith, String, any, Bool-cases, if◌then◌else◌, ◌==◌,
}
use photosync.Prelude.Bytes.{Bytes}
use photosync.Prelude.Rows.{any-append}
use photosync.Model.{Hash32}
use photosync.Proto.{
  Frame, Message, hello, authenticate, auth_challenge, abort, new_frame, AbortReason,
  protocol_major,
}
use photosync.Pairing.{
  Hmac, AuthChallenge, ProofRole, CodeSession, Verdict, proved, rejected, verify, proof, is_live,
}
use photosync.Pairing.Budget.{
  Attempt, answer, is_right, is_wrong_guess, verify-proved, charged, answer-charged,
}
use photosync.Net.Link.{LinkError, Arrival, read, received}
use photosync.Net.Talk.{SessionError, World, ◌>>=◌, pure, throw, send, receive, ignored}
use photosync.Net.Talk.Laws.{
  Ends, Ends-continue, Ends-weaken, Ends-if, after, Ends-send, Ends-heard, Ends-ignored, Heard,
}
use photosync.Net.Handshake.{
  by_code, Own, hello_of, from_nonce, abort_with, receiver_greeted, proof_of, reason_of, judged,
  check_proof, authenticate_sender, receiver_handshake,
}

-- A frame that carries a proof.
abbrev pub is_proof : Frame → Bool
is_proof f = elim f.message [ authenticate _ ↦ true | _ ↦ false ]

abbrev pub has_proof : World → Bool
has_proof w = any is_proof w.sent

module _ (h : Hmac) (c : AuthChallenge) (s : CodeSession) (now : ℕ) (arrivals : List Arrival) where
  abbrev try_of : Hash32 → Attempt
  try_of presented = record {
    challenge = c;
    role = ProofRole.sender;
    presented = presented;
    now_ms = now;
  }

  -- The second frame that the peer sent carries this proof.
  abbrev pub Shown : Hash32 → Type 0
  Shown presented =
      (greeting : Frame) × (answer : Frame) × (rest : List Arrival) × Heard arrivals
        (greeting ∷ answer ∷ []) rest
      × (answer.message ≡ authenticate presented)

  -- The code was live, and the proof that the peer sent is the sender's for this challenge.
  abbrev pub Proven : Type 0
  Proven =
      (presented : Hash32) × Shown presented
      × (is_live s now ≡ true)
      × (is_right h s (try_of presented) ≡ true)

  -- One proof at most was charged to the code, and the receiver's own proof left the device only after
  -- the sender's was accepted.
  abbrev pub Guarded : World → World → Type 0
  Guarded w w' =
      ((w'.code_session ≡ s) ⊎ (w'.code_session ≡ charged h s 1))
      × ((has_proof w' ≡ has_proof w) ⊎ Proven)

  quiet_send :
      (w w' : World) (m : Message) (o : List (Option LinkError))
      → is_proof (new_frame m) ≡ false
      → has_proof w' ≡ has_proof w
      → has_proof (after w' o (new_frame m)) ≡ has_proof w
  quiet_send w w' m o quiet e =
      any-append is_proof w'.sent (new_frame m ∷ []) ∙ ground (arith, quiet, e)

  Ends-abort_with :
      {A : Type 0} (P : A → World → Type 0) (w w' : World) (reason : AbortReason) (detail : String)
      (e : SessionError)
      → has_proof w' ≡ has_proof w
      → (w'.code_session ≡ s) ⊎ (w'.code_session ≡ charged h s 1)
      → Ends P (λ _ u. Guarded w u) (abort_with {A = A} reason detail e w')
  unfolding new_frame
  Ends-abort_with P w w' reason detail e quiet cost =
      Ends-continue P (λ _ u. Guarded w u) (λ _. throw e) (ignored (send (abort reason detail) w'))
        (Ends-ignored (λ _ u. Guarded w u) (λ _ u. Guarded w u) (send (abort reason detail) w')
          (Ends-send (λ _ u. Guarded w u) (λ _ u. Guarded w u) (abort reason detail) w'
            (λ o. (cost, inl (quiet_send w w' (abort reason detail) o refl quiet)))
            (λ o x. (cost, inl quiet))))

  charged_none : charged h s 0 ≡ s
  charged_none i = record s {
    attempts_left = (let e : s.attempts_left - 0 ≡ s.attempts_left = omega arith in e) i;
  }

  cost_of :
      (presented : Hash32)
      → ((answer h s (try_of presented)).1 ≡ s)
        ⊎ ((answer h s (try_of presented)).1 ≡ charged h s 1)
  cost_of presented = elim (Bool-cases (is_wrong_guess h s (try_of presented))) [
    | inl e ↦
        inr (answer-charged h s (try_of presented) ∙ ap (λ b. charged h s (if b then 1 else 0)) e)
    | inr e ↦ inl (
        answer-charged h s (try_of presented)
        ∙ ap (λ b. charged h s (if b then 1 else 0)) e
        ∙ charged_none)
  ]

  moved :
      (a b : CodeSession) → a ≡ b → (a ≡ s) ⊎ (a ≡ charged h s 1) → (b ≡ s) ⊎ (b ≡ charged h s 1)
  moved a b e (inl x) = inl (sym e ∙ x)
  moved a b e (inr x) = inr (sym e ∙ x)

  judged-Guarded :
      (w w' : World) (presented : Hash32) (r : Verdict × CodeSession)
      → Shown presented
      → answer h s (try_of presented) ≡ r
      → has_proof w' ≡ has_proof w
      → Ends (λ _ u. Guarded w u × Proven) (λ _ u. Guarded w u) (judged h c r w')
  judged-Guarded w w' presented (proved, s') shown e quiet =
      Ends-send (λ _ u. Guarded w u × Proven) (λ _ u. Guarded w u)
        (authenticate (proof h c s'.code ProofRole.receiver)) (record w' { code_session = s' })
        (λ o. ((cost, inr proven), proven)) (λ o x. (cost, inl quiet))
    where
      cost : (s' ≡ s) ⊎ (s' ≡ charged h s 1)
      cost = moved (answer h s (try_of presented)).1 s' (ap (λ p. p.1) e) (cost_of presented)

      proven : Proven
      proven =
          (let both = (verify-proved h s (try_of presented)).0 (ap (λ p. p.0) e) in
            (presented, shown, both.0, both.1))
  judged-Guarded w w' presented (rejected x, s') shown e quiet =
      Ends-abort_with (λ _ u. Guarded w u × Proven) w (record w' { code_session = s' })
        (reason_of x) "authentication failed" SessionError.auth_failed quiet
        (moved (answer h s (try_of presented)).1 s' (ap (λ p. p.1) e) (cost_of presented))

  checked-Guarded :
      (w w' : World) (f : Frame)
      → ((presented : Hash32) → f.message ≡ authenticate presented → Shown presented)
      → w'.code_session ≡ s
      → has_proof w' ≡ has_proof w
      → Ends
          (λ _ u. Guarded w u × Proven)
          (λ _ u. Guarded w u)
          ((proof_of f.message >>= check_proof h c now) w')
  unfolding proof_of
  checked-Guarded w w' f shown at quiet = proof_ends f.message refl
    where
      proof_ends :
          (m : Message)
          → f.message ≡ m
          → Ends
              (λ _ u. Guarded w u × Proven)
              (λ _ u. Guarded w u)
              ((proof_of m >>= check_proof h c now) w')
      proof_ends (authenticate presented) e =
          judged-Guarded w w' presented (verify h w'.code_session c ProofRole.sender presented now)
            (shown presented e) (ap (λ z. verify h z c ProofRole.sender presented now) (sym at))
            quiet
      proof_ends _ e = (inl at, inl quiet)

module _ (h : Hmac) (own : Own) (peer : Hash32) (nonce : Bytes) (now : ℕ) (w : World) where
  abbrev challenge : AuthChallenge
  challenge = from_nonce nonce peer own.fingerprint

  abbrev Kept : World → Type 0
  Kept u = Guarded h challenge w.code_session now w.incoming w u

  abbrev Known : Type 0
  Known = Proven h challenge w.code_session now w.incoming

  -- Nothing was charged yet and no proof was sent.
  abbrev Fresh : World → Type 0
  Fresh u = (u.code_session ≡ w.code_session) × (has_proof u ≡ has_proof w)

  Fresh-Kept : (u : World) → Fresh u → Kept u
  Fresh-Kept u (at, quiet) = (inl at, inl quiet)

  greeted-Kept :
      (P : String → World → Type 0) (m : Message) (u : World)
      → Fresh u
      → ((name : String) → P name u)
      → Ends P (λ _ v. Kept v) (receiver_greeted m u)
  unfolding receiver_greeted
  greeted-Kept P (hello major minor name platform fp) u v k =
      Ends-if P (λ _ x. Kept x) (not (major == protocol_major))
        (abort_with AbortReason.version_mismatch "major mismatch"
          (SessionError.version_mismatch major protocol_major))
        (pure name) u
        (λ _.
          Ends-abort_with h challenge w.code_session now w.incoming P w u
            AbortReason.version_mismatch "major mismatch"
            (SessionError.version_mismatch major protocol_major) v.1 (inl v.0))
        (λ _. k name)
  greeted-Kept P _ u v k = Fresh-Kept u v

  authenticated-Kept :
      (greeting : Frame) (u : World)
      → read w.incoming ≡ received greeting u.incoming
      → Fresh u
      → Ends
          (λ _ v. Kept v × Known)
          (λ _ v. Kept v)
          (authenticate_sender h own peer by_code nonce now u)
  unfolding authenticate_sender new_frame
  authenticated-Kept greeting u first v = Ends-continue _ _ _ (send (auth_challenge nonce) u) (
      Ends-send _ _ (auth_challenge nonce) u
        (λ o. Ends-continue _ _ _ (receive (after u o (new_frame (auth_challenge nonce)))) (
          Ends-heard _ _ (after u o (new_frame (auth_challenge nonce)))
            (λ f rest second.
              checked-Guarded h challenge w.code_session now w.incoming w
                (record (after u o (new_frame (auth_challenge nonce))) { incoming = rest }) f
                (λ presented e. (greeting, f, rest, (u.incoming, first, (rest, second, refl)), e))
                v.0
                (quiet_send h challenge w.code_session now w.incoming w u (auth_challenge nonce) o
                  refl v.1))
            (λ e. (
              inl v.0,
              inl (
                  quiet_send h challenge w.code_session now w.incoming w u (auth_challenge nonce) o
                    refl v.1),
            ))))
        (λ o e. Fresh-Kept u v))

-- Whatever a peer sends and whatever the link does: a receiver that pairs by code ends the handshake
-- only for the peer of the TLS session, and only when the second frame that arrived, heartbeats aside,
-- carries a proof that is right for the code, for both certificates and for the nonce of this
-- handshake, while the code was live; at most one attempt is charged; and its own proof is sent only
-- after such a frame.
pub receiver_handshake-Guarded :
    (h : Hmac) (own : Own) (peer : Hash32) (nonce : Bytes) (fresh now : ℕ) (w : World)
    → Ends
        (λ made u.
          (made.peer_fingerprint ≡ peer)
          × Guarded h (from_nonce nonce peer own.fingerprint) w.code_session now w.incoming w u
          × Proven h (from_nonce nonce peer own.fingerprint) w.code_session now w.incoming)
        (λ _ u. Guarded h (from_nonce nonce peer own.fingerprint) w.code_session now w.incoming w u)
        (receiver_handshake h own peer by_code nonce fresh now w)
unfolding receiver_handshake new_frame
receiver_handshake-Guarded h own peer nonce fresh now w = Ends-continue _ _ _ (receive w) (
    Ends-heard _ _ w
      (λ f rest first.
        let u = record w { incoming = rest } in
        Ends-continue _ _ _ (receiver_greeted f.message u) (
          greeted-Kept h own peer nonce now w _ f.message u (refl, refl)
            (λ name. Ends-continue _ _ _ (send (hello_of own) u) (
              Ends-send _ _ (hello_of own) u
                (λ o.
                  Ends-continue _ _ _
                    (authenticate_sender h own peer by_code nonce now
                      (after u o (new_frame (hello_of own))))
                    (Ends-weaken _ _ _
                      (authenticate_sender h own peer by_code nonce now
                        (after u o (new_frame (hello_of own))))
                      (authenticated-Kept h own peer nonce now w f
                        (after u o (new_frame (hello_of own))) first
                        (
                          refl,
                          quiet_send h (challenge h own peer nonce now w) w.code_session now
                              w.incoming w u (hello_of own) o refl refl,
                        ))
                      (λ _ v kept. (refl, kept.0, kept.1))))
                (λ o e. (inl refl, inl refl))))))
      (λ e. (inl refl, inl refl)))
