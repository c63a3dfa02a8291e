-- ===== src/Net/Handshake/Agreement.antt =====
-- The two handshakes of crates/net/src/orchestrator.rs against each other, on a link that works.
use photosync.Prelude.{ℕ, zero, suc, ◌≡◌, ◌∙◌, refl, ap, true, List, [], ◌∷◌, map, arith, String}
use photosync.Prelude.Bytes.{Bytes}
use photosync.Errors.{ok}
use photosync.Model.{Hash32}
use photosync.Proto.{Frame, authenticate, auth_challenge, new_frame}
use photosync.Pairing.{
  Hmac, IsExact, AuthChallenge, PairingCode, ProofRole, CodeSession, proved, verify, proof,
  verify_proof, is_live,
}
use photosync.Pairing.Proofs.{verify_proof-proof}
use photosync.Net.Link.{framed, read}
use photosync.Net.Talk.{World, Talked, said, broke, continue, write, send, receive}
use photosync.Net.Handshake.{
  Handshaken, ReceiverAuth, SenderAuth, Own, hello_of, from_nonce, remember, judged, accepted,
  receiver_greeted, proof_of, authenticate_sender, receiver_handshake, sender_greeted, nonce_of,
  answer_of, authenticate_receiver, sender_handshake,
}

module _ (h : Hmac) (sender receiver : Own) (nonce : Bytes) (code : PairingCode) where
  abbrev pub challenge : AuthChallenge
  challenge = from_nonce nonce sender.fingerprint receiver.fingerprint

  -- What the sender says, and what the receiver says.
  abbrev pub sender_says : List Frame
  sender_says =
      new_frame (hello_of sender)
      ∷ new_frame (authenticate (proof h challenge code ProofRole.sender))
      ∷ []

  abbrev pub receiver_says : List Frame
  receiver_says =
      new_frame (hello_of receiver)
      ∷ new_frame (auth_challenge nonce)
      ∷ new_frame (authenticate (proof h challenge code ProofRole.receiver))
      ∷ []

-- A fresh link that works, on which these frames arrive.
abbrev pub calm : World → List Frame → World
calm w fs = record w { incoming = map framed fs; outages = []; sent = [] }

verify_right :
    (h : Hmac) (s : CodeSession) (c : AuthChallenge) (p : Hash32) (now : ℕ)
    → is_live s now ≡ true
    → verify_proof h c s.code ProofRole.sender p ≡ ok tt
    → verify h s c ProofRole.sender p now ≡ (proved, s)
unfolding verify is_live
verify_right h s c p now live right = ground arith

-- The peer row, after all was read and these frames were sent.
abbrev pub finished : World → List Frame → Hash32 → String → ℕ → ℕ → Talked Handshaken
finished w fs peer name fresh now =
    remember peer name fresh now (record w { incoming = []; outages = []; sent = fs })

module _ (h : Hmac) (x : IsExact h) (sender receiver : Own) (nonce : Bytes) (fresh now : ℕ) where
  receiver_completes :
      (w : World)
      → is_live w.code_session now ≡ true
      → receiver_handshake h receiver sender.fingerprint ReceiverAuth.by_code nonce fresh now
          (calm w (sender_says h sender receiver nonce w.code_session.code))
        ≡ finished w
            (receiver_says h sender receiver nonce w.code_session.code)
            sender.fingerprint
            sender.device_name
            fresh
            now
  unfolding receiver_handshake authenticate_sender receiver_greeted proof_of receive send write read
      new_frame
  receiver_completes w live =
      ap
        (λ r.
          continue (λ _. remember sender.fingerprint sender.device_name fresh now)
            (judged h (from_nonce nonce sender.fingerprint receiver.fingerprint) r (record w {
              incoming = [];
              outages = [];
              sent = new_frame (hello_of receiver) ∷ new_frame (auth_challenge nonce) ∷ [];
            })))
        (verify_right h w.code_session (from_nonce nonce sender.fingerprint receiver.fingerprint)
          (proof h (from_nonce nonce sender.fingerprint receiver.fingerprint) w.code_session.code
            ProofRole.sender)
          now live
          ((verify_proof-proof h x (from_nonce nonce sender.fingerprint receiver.fingerprint)
              w.code_session.code ProofRole.sender _).1
            refl))

  sender_completes :
      (w : World) (code : PairingCode)
      → sender_handshake h sender receiver.fingerprint
          (SenderAuth.by_code code)
          fresh
          now
          (calm w (receiver_says h sender receiver nonce code))
        ≡ finished w
            (sender_says h sender receiver nonce code)
            receiver.fingerprint
            receiver.device_name
            fresh
            now
  unfolding sender_handshake authenticate_receiver sender_greeted nonce_of answer_of receive send
      write read new_frame
  sender_completes w code =
      ap
        (λ r.
          continue (λ _. remember receiver.fingerprint receiver.device_name fresh now)
            (accepted r (record w {
              incoming = [];
              outages = [];
              sent =
                  new_frame (hello_of sender)
                  ∷ new_frame (
                      authenticate (
                        proof h (from_nonce nonce sender.fingerprint receiver.fingerprint) code
                          ProofRole.sender))
                  ∷ [];
            })))
        ((verify_proof-proof h x (from_nonce nonce sender.fingerprint receiver.fingerprint) code
            ProofRole.receiver _).1
          refl)

-- What was sent, whether the conversation has ended or waits for more.
abbrev pub sent_by : {A : Type 0} → Talked A → List Frame
sent_by (said a w) = w.sent
sent_by (broke e w) = w.sent

-- Both handshakes on one link. In a round each side hears all that the other has sent so far, and a
-- side that waits for more has sent what it sends before.
module _ (h : Hmac) (sender receiver : Own) (nonce : Bytes) (fresh now : ℕ) (r s : World) where
  abbrev pub receiver_hearing : List Frame → Talked Handshaken
  receiver_hearing fs =
      receiver_handshake h receiver sender.fingerprint ReceiverAuth.by_code nonce fresh now
        (calm r fs)

  abbrev pub sender_hearing : List Frame → Talked Handshaken
  sender_hearing fs =
      sender_handshake h sender receiver.fingerprint (SenderAuth.by_code r.code_session.code) fresh
        now (calm s fs)

  -- What the receiver and the sender have sent after so many rounds.
  unfoldable pub exchanged : ℕ → List Frame × List Frame
  exchanged zero = ([], [])
  exchanged (suc n) =
      (let so_far = exchanged n in
        (sent_by (receiver_hearing so_far.1), sent_by (sender_hearing so_far.0)))

  module _ (x : IsExact h) (live : is_live r.code_session now ≡ true) where
    abbrev hello_sent : List Frame
    hello_sent = new_frame (hello_of sender) ∷ []

    abbrev challenge_sent : List Frame
    challenge_sent = new_frame (hello_of receiver) ∷ new_frame (auth_challenge nonce) ∷ []

    receiver_waits : sent_by (receiver_hearing []) ≡ []
    unfolding receiver_handshake receive read
    receiver_waits = refl

    sender_starts : sent_by (sender_hearing []) ≡ hello_sent
    unfolding sender_handshake send write receive read new_frame
    sender_starts = refl

    receiver_challenges : sent_by (receiver_hearing hello_sent) ≡ challenge_sent
    unfolding receiver_handshake authenticate_sender receiver_greeted send write receive read
        new_frame
    receiver_challenges = refl

    sender_proves :
        sent_by (sender_hearing challenge_sent)
        ≡ sender_says h sender receiver nonce r.code_session.code
    unfolding sender_handshake authenticate_receiver sender_greeted nonce_of send write receive read
        new_frame
    sender_proves = refl

    receiver_answers :
        sent_by (receiver_hearing (sender_says h sender receiver nonce r.code_session.code))
        ≡ receiver_says h sender receiver nonce r.code_session.code
    receiver_answers = ap sent_by (receiver_completes h x sender receiver nonce fresh now r live)

    next_round :
        (n : ℕ) (a b a' b' : List Frame)
        → exchanged n ≡ (a, b)
        → sent_by (receiver_hearing b) ≡ a'
        → sent_by (sender_hearing a) ≡ b'
        → exchanged (suc n) ≡ (a', b')
    unfolding exchanged
    next_round n a b a' b' e p q =
        ap
          (λ (z : List Frame × List Frame).
            (sent_by (receiver_hearing z.1), sent_by (sender_hearing z.0)))
          e
        ∙ (λ i. (p i, q i))

    fourth : exchanged 4 ≡ (
      receiver_says h sender receiver nonce r.code_session.code,
      sender_says h sender receiver nonce r.code_session.code,
    )
    unfolding exchanged
    fourth =
        next_round 3 _ _ _ _
          (next_round 2 _ _ _ _
            (next_round 1 _ _ _ _ (next_round 0 _ _ _ _ refl receiver_waits sender_starts)
              receiver_challenges sender_starts)
            receiver_challenges sender_proves)
          receiver_answers sender_proves

-- Two devices with an HMAC whose tags can be compared, one of them showing a live code that the user
-- types into the other, complete the pairing: from silence, in four rounds in each of which a side
-- hears only what the other has sent so far, both handshakes return the other side's certificate and
-- name and record the peer, and nothing that either has sent is left unheard.
pub handshakes_complete :
    (h : Hmac) (x : IsExact h) (sender receiver : Own) (nonce : Bytes) (fresh now : ℕ) (r s : World)
    → is_live r.code_session now ≡ true
    → (receiver_hearing h sender receiver nonce fresh now r s
          (exchanged h sender receiver nonce fresh now r s 4).1
        ≡ finished r
            (exchanged h sender receiver nonce fresh now r s 4).0
            sender.fingerprint
            sender.device_name
            fresh
            now)
      × (sender_hearing h sender receiver nonce fresh now r s
            (exchanged h sender receiver nonce fresh now r s 4).0
          ≡ finished s
              (exchanged h sender receiver nonce fresh now r s 4).1
              receiver.fingerprint
              receiver.device_name
              fresh
              now)
handshakes_complete h x sender receiver nonce fresh now r s live =
    rw (fourth h sender receiver nonce fresh now r s x live) (
      receiver_completes h x sender receiver nonce fresh now r live,
      sender_completes h x sender receiver nonce fresh now s r.code_session.code,
    )
