-- ===== src/Net/Handshake.antt =====
-- The handshakes of crates/net/src/orchestrator.rs. The nonce of `AuthChallenge::new`, the name of the
-- operating system and the row id of a new peer are arguments; the code session of the receiver is the
-- one in the world, which a proof is charged to.
pub mod Safety
pub mod Agreement
pub mod Mutual
use photosync.Prelude.{
  ℕ, Bool, true, false, not, Option, none, some, List, [], ◌∷◌, String, if◌then◌else◌, ◌==◌,
}
use photosync.Prelude.Bytes.{Bytes}
use photosync.Errors.{Result, ok, err}
use photosync.Model.{Hash32, hash_eq}
use photosync.Proto.{
  Frame, Message, hello, authenticate, auth_challenge, abort, AbortReason, protocol_major,
  protocol_minor,
}
use photosync.Pairing.{
  Hmac, AuthChallenge, PairingCode, ProofRole, CodeSession, CodeRejection, expired,
  too_many_attempts, wrong_proof, Verdict, proved, rejected, verify, proof, verify_proof,
}
use photosync.Db.{Db}
use photosync.Catalog.Peers.{upsert_peer}
use photosync.Net.Talk.{
  SessionError, unexpected, peer_aborted, version_mismatch, World, Talk, Talked, said, broke, ◌>>=◌,
  ◌>>◌, pure, throw, send, receive, attempt, commit_to,
}

pub record Handshaken : Type 0 where
  pub peer_id : ℕ
  pub peer_fingerprint : Hash32
  pub peer_name : String

-- `Code` borrows the code session of the world.
pub data ReceiverAuth : Type 0 where
  by_code : ReceiverAuth
  paired : Hash32 → ReceiverAuth

pub data SenderAuth : Type 0 where
  by_code : PairingCode → SenderAuth
  paired : SenderAuth

-- Who this side is: certificate, device name, operating system.
pub record Own : Type 0 where
  pub fingerprint : Hash32
  pub device_name : String
  pub platform : String

abbrev pub hello_of : Own → Message
hello_of own = hello protocol_major protocol_minor own.device_name own.platform own.fingerprint

-- `AuthChallenge::from_nonce`, and `new` with the nonce drawn.
abbrev pub from_nonce : Bytes → Hash32 → Hash32 → AuthChallenge
from_nonce nonce sender receiver = record {
  nonce = nonce;
  sender_fingerprint = sender;
  receiver_fingerprint = receiver;
}

-- `abort`, with its failure dropped, and the error that follows.
abbrev pub abort_with : {A : Type 0} → AbortReason → String → SessionError → Talk A
abort_with reason detail e = attempt (send (abort reason detail)) >> throw e

-- The peer row, and what the handshake reports.
abbrev pub remember : Hash32 → String → ℕ → ℕ → Talk Handshaken
remember peer name fresh now w =
    (let p = upsert_peer w.tables peer (some name) none fresh now in
      said (record { peer_id = p.0; peer_fingerprint = peer; peer_name = name })
        (record w { tables = p.1 }))

-- The name in the sender's `Hello`.
unfoldable pub receiver_greeted : Message → Talk String
receiver_greeted (hello major minor name platform fp) =
    if not (major == protocol_major)
    then abort_with AbortReason.version_mismatch "major mismatch"
        (SessionError.version_mismatch major protocol_major)
    else pure name
receiver_greeted _ = throw unexpected

unfoldable pub proof_of : Message → Talk Hash32
proof_of (authenticate presented) = pure presented
proof_of _ = throw unexpected

abbrev pub reason_of : CodeRejection → AbortReason
reason_of expired = AbortReason.code_expired
reason_of too_many_attempts = AbortReason.too_many_attempts
reason_of (wrong_proof left) = AbortReason.auth_failed

module _ (h : Hmac) where
  -- The receiver answers a proof that was accepted with its own.
  abbrev pub judged : AuthChallenge → Verdict × CodeSession → Talk (Unit {0})
  judged c (proved, s) w =
      send (authenticate (proof h c s.code ProofRole.receiver)) (record w { code_session = s })
  judged c (rejected r, s) w =
      abort_with (reason_of r) "authentication failed" SessionError.auth_failed
        (record w { code_session = s })

  abbrev pub check_proof : AuthChallenge → ℕ → Hash32 → Talk (Unit {0})
  check_proof c now presented w =
      judged c (verify h w.code_session c ProofRole.sender presented now) w

  -- The `match auth` of `receiver_handshake`.
  unfoldable pub authenticate_sender : Own → Hash32 → ReceiverAuth → Bytes → ℕ → Talk (Unit {0})
  unfolding proof_of
  authenticate_sender own peer (paired expected) nonce now =
      if not (hash_eq peer expected)
      then abort_with AbortReason.auth_failed "unknown peer" SessionError.auth_failed
      else pure tt
  authenticate_sender own peer by_code nonce now = do
    send (auth_challenge nonce)
    frame ← receive
    presented ← proof_of frame.message
    check_proof (from_nonce nonce peer own.fingerprint) now presented

  -- `receiver_handshake`
  unfoldable pub receiver_handshake : Own → Hash32 → ReceiverAuth → Bytes → ℕ → ℕ → Talk Handshaken
  unfolding receiver_greeted authenticate_sender
  receiver_handshake own peer auth nonce fresh now = do
    frame ← receive
    name ← receiver_greeted frame.message
    send (hello_of own)
    authenticate_sender own peer auth nonce now
    remember peer name fresh now

-- The name in the receiver's `Hello`.
unfoldable pub sender_greeted : Message → Talk String
sender_greeted (hello major minor name platform fp) =
    if not (major == protocol_major)
    then throw (SessionError.version_mismatch major protocol_major)
    else pure name
sender_greeted (abort reason detail) = throw (peer_aborted reason detail)
sender_greeted _ = throw unexpected

unfoldable pub nonce_of : Message → Talk Bytes
nonce_of (auth_challenge nonce) = pure nonce
nonce_of (abort reason detail) = throw (peer_aborted reason detail)
nonce_of _ = throw unexpected

unfoldable pub answer_of : Message → Talk Hash32
answer_of (authenticate presented) = pure presented
answer_of (abort reason detail) = throw (peer_aborted reason detail)
answer_of _ = throw unexpected

abbrev pub accepted : Result (Unit {0}) → Talk (Unit {0})
accepted (ok _) = pure tt
accepted (err e) = throw SessionError.auth_failed

module _ (h : Hmac) where
  -- The `if let SenderAuth::Code` of `sender_handshake`.
  unfoldable pub authenticate_receiver : Own → Hash32 → SenderAuth → Talk (Unit {0})
  unfolding nonce_of answer_of
  authenticate_receiver own peer paired = pure tt
  authenticate_receiver own peer (by_code code) = do
    challenge ← receive
    nonce ← nonce_of challenge.message
    send (authenticate (proof h (from_nonce nonce own.fingerprint peer) code ProofRole.sender))
    answer ← receive
    presented ← answer_of answer.message
    accepted
        (verify_proof h (from_nonce nonce own.fingerprint peer) code ProofRole.receiver presented)

  -- `sender_handshake`
  unfoldable pub sender_handshake : Own → Hash32 → SenderAuth → ℕ → ℕ → Talk Handshaken
  unfolding sender_greeted authenticate_receiver
  sender_handshake own peer auth fresh now = do
    send (hello_of own)
    frame ← receive
    name ← sender_greeted frame.message
    authenticate_receiver own peer auth
    remember peer name fresh now
