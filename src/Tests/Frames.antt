-- ===== src/Tests/Frames.antt =====
-- Frames of crates/core/src/proto.rs and crates/net/src/frame.rs at concrete inputs, with an encoder
-- that knows two messages.
use photosync.Prelude.{◌≡◌, refl, ◌<◌, inr, Option, none, some, [], ◌∷◌, ◌++◌, arith, length}
use photosync.Prelude.Bytes.{Bytes, be32}
use photosync.Errors.{ok}
use photosync.Model.{Hash32}
use photosync.Proto.{Message, heartbeat, Frame, Json, FrameLengths, encode, decode_body, decode}
use photosync.Proto.Frames.{IsFaithful, decode-encode}
use photosync.Net.Wire.{read_frame, got}
use photosync.Net.Wire.Laws.{read_frame-encode}

abbrev some_hash : Hash32
some_hash = record { bytes = [] }

abbrev to_vec : Message → Option Bytes
to_vec heartbeat = some (1 ∷ [])
to_vec _ = none

abbrev from_slice : Bytes → Option Message
from_slice [] = none
from_slice (b ∷ bs) = some heartbeat

abbrev tiny : Json
tiny = record { to_vec = to_vec; from_slice = from_slice }

to_vec-reads_back : (m : Message) (b : Bytes) → to_vec m ≡ some b → from_slice b ≡ some m
to_vec-reads_back m b e = ground arith

to_vec-writes : (m : Message) (b : Bytes) → to_vec m ≡ some b → 0 < length b
to_vec-writes m b e = ground arith

tiny-IsFaithful : IsFaithful tiny
tiny-IsFaithful = record { reads_back = to_vec-reads_back; writes = to_vec-writes }

abbrev beat : Frame
beat = record { message = heartbeat; payload = [] }

abbrev beat_bytes : Bytes
beat_bytes = 0 ∷ 0 ∷ 0 ∷ 1 ∷ 0 ∷ 0 ∷ 0 ∷ 0 ∷ 1 ∷ []

encode-beat : encode tiny beat ≡ ok beat_bytes
unfolding encode be32
encode-beat = refl

decode_example : decode tiny beat_bytes ≡ ok beat
decode_example = decode-encode tiny beat beat_bytes tiny-IsFaithful (inr refl) encode-beat

read_frame_example : read_frame tiny (beat_bytes ++ (4 ∷ 2 ∷ [])) ≡ got beat (4 ∷ 2 ∷ [])
read_frame_example =
    read_frame-encode tiny beat beat_bytes (4 ∷ 2 ∷ []) tiny-IsFaithful (inr refl) encode-beat

abbrev one_byte : FrameLengths
one_byte = record { header_len = 1; payload_len = 0 }

decode_body-beat : decode_body tiny one_byte (1 ∷ []) ≡ ok beat
unfolding decode_body
decode_body-beat = refl

abbrev one : Bytes
one = 1 ∷ []
