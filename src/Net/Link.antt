-- ===== src/Net/Link.antt =====
-- crates/net/src/link.rs: the control link. What happens on the stream is a list of arrivals: a
-- frame, an error of the frame reader, or nothing within the read deadline. Durations are in ms.
use photosync.Prelude.{
  ℕ, ◌-◌, Bool, true, false, List, [], ◌∷◌, leb, if◌then◌else◌, Option, none, some,
}
use photosync.Proto.{Frame, Message, heartbeat, new_frame}
use photosync.Net.Wire.{WireError, closed, io, core}

pub record Timeouts : Type 0 where
  pub heartbeat : ℕ
  pub read : ℕ
  pub write : ℕ

abbrev pub default_timeouts : Timeouts
default_timeouts = record { heartbeat = 10000; read = 30000; write = 30000 }

abbrev pub fast_timeouts : Timeouts
fast_timeouts = record { heartbeat = 200; read = 1500; write = 1500 }

-- `link::Error`
pub data LinkError : Type 0 where
  timeout : LinkError
  frame : WireError → LinkError

-- `Error::is_disconnect`
unfoldable pub is_disconnect : LinkError → Bool
is_disconnect timeout = true
is_disconnect (frame closed) = true
is_disconnect (frame (io k)) = true
is_disconnect (frame (core e)) = false

pub data Arrival : Type 0 where
  framed : Frame → Arrival
  broken : WireError → Arrival
  silent : Arrival

abbrev pub is_heartbeat : Message → Bool
is_heartbeat heartbeat = true
is_heartbeat _ = false

pub data LinkReading : Type 0 where
  received : Frame → List Arrival → LinkReading
  failed : LinkError → LinkReading

-- `Link::read`: heartbeats are absorbed. When nothing is left to arrive the deadline passes.
unfoldable pub read : List Arrival → LinkReading
read [] = failed timeout
read (silent ∷ later) = failed timeout
read (broken e ∷ later) = failed (frame e)
read (framed f ∷ later) =
    let next = read later in if is_heartbeat f.message then next else received f later

-- `Link::keepalive`: the message it sends, if the link has been quiet for long.
unfoldable pub keepalive : Timeouts → ℕ → ℕ → Option Frame
unfolding new_frame
keepalive t last_write now =
    if leb t.heartbeat (now - last_write) then some (new_frame heartbeat) else none
