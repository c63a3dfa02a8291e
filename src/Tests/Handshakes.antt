-- ===== src/Tests/Handshakes.antt =====
-- The handshakes of crates/net/src/orchestrator.rs between two devices that share a code.
use photosync.Prelude.{ℕ, ◌≡◌, true, List, [], arith, map}
use photosync.Proto.{Frame}
use photosync.Pairing.{is_live, is_expired}
use photosync.Db.{empty_db}
use photosync.Net.Link.{framed}
use photosync.Net.Talk.{World}
use photosync.Net.Talk.Laws.{Ends, Said}
use photosync.Net.Handshake.Mutual.{Modestly, Verified, sender_handshake-Verified}
use photosync.Net.Handshake.{
  ReceiverAuth, SenderAuth, Own, from_nonce, receiver_handshake, sender_handshake,
}
use photosync.Net.Handshake.Safety.{Guarded, Proven, receiver_handshake-Guarded}
use photosync.Net.Handshake.Agreement.{
  sender_says, receiver_says, finished, exchanged, receiver_hearing, sender_hearing,
  handshakes_complete,
}
use photosync.Tests.Codes.{joined, joined-IsExact, wide, code, session}

abbrev pub device : ℕ → Own
device n = record {
  fingerprint = record { bytes = wide n };
  device_name = "phone";
  platform = "android";
}

abbrev heard : List Frame
heard = sender_says joined (device 2) (device 3) (wide 1) code

abbrev world : World
world = record {
  incoming = map framed heard;
  outages = [];
  lulls = [];
  sent = [];
  opened = 0;
  code_session = session;
  tables = empty_db;
}

guarded_example :
    Ends
      (λ made u.
        (made.peer_fingerprint ≡ (device 2).fingerprint)
        × Guarded joined
            (from_nonce (wide 1) (device 2).fingerprint (device 3).fingerprint)
            session
            5
            world.incoming
            world
            u
        × Proven joined
            (from_nonce (wide 1) (device 2).fingerprint (device 3).fingerprint)
            session
            5
            world.incoming)
      (λ _ u.
        Guarded joined
          (from_nonce (wide 1) (device 2).fingerprint (device 3).fingerprint)
          session
          5
          world.incoming
          world
          u)
      (receiver_handshake joined
        (device 3)
        (device 2).fingerprint
        ReceiverAuth.by_code
        (wide 1)
        1
        5
        world)
guarded_example =
    receiver_handshake-Guarded joined (device 3) (device 2).fingerprint (wide 1) 1 5 world

session_live : is_live session 5 ≡ true
unfolding is_live is_expired
session_live = ground arith

abbrev both_sent : List Frame × List Frame
both_sent = exchanged joined (device 2) (device 3) (wide 1) 1 5 world world 4

complete_example :
    (receiver_hearing joined (device 2) (device 3) (wide 1) 1 5 world world both_sent.1
      ≡ finished world both_sent.0 (device 2).fingerprint "phone" 1 5)
    × (sender_hearing joined (device 2) (device 3) (wide 1) 1 5 world world both_sent.0
        ≡ finished world both_sent.1 (device 3).fingerprint "phone" 1 5)
complete_example =
    handshakes_complete joined joined-IsExact (device 2) (device 3) (wide 1) 1 5 world world
      session_live

abbrev answered : World
answered = record world {
  incoming = map framed (receiver_says joined (device 2) (device 3) (wide 1) code);
}

verified_example :
    Ends
      (λ made u.
        (made.peer_fingerprint ≡ (device 3).fingerprint)
        × Said (Modestly joined (device 2) (device 3).fingerprint code) answered u
        × Verified joined (device 2) (device 3).fingerprint code answered.incoming)
      (λ e u. Said (Modestly joined (device 2) (device 3).fingerprint code) answered u)
      (sender_handshake joined
        (device 2)
        (device 3).fingerprint
        (SenderAuth.by_code code)
        1
        5
        answered)
verified_example =
    sender_handshake-Verified joined (device 2) (device 3).fingerprint code 1 5 answered
