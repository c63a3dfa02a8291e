-- ===== src/Net/Wire.antt =====
-- crates/net/src/frame.rs: reading frames off a stream. The stream is the bytes that still arrive
-- before its end; writing appends the encoded frame to what the peer will read.
pub mod Laws
use photosync.Prelude.{ℕ, ◌+◌, Bool, List, [], ◌∷◌, ◌++◌, ltb, if◌then◌else◌, length, take, drop}
use photosync.Prelude.Bytes.{Bytes}
use photosync.Errors.{Error, IoKind, unexpected_eof, Result, ok, err}
use photosync.Proto.{
  Frame, Json, FrameLengths, Message, new_frame, total, encode, parse_prefix, decode_body,
}

-- `frame::Error`
pub data WireError : Type 0 where
  closed : WireError
  io : IoKind → WireError
  core : Error → WireError

-- A frame and what is left of the stream, or an error.
pub data Reading : Type 0 where
  got : Frame → Bytes → Reading
  lost : WireError → Reading

abbrev pub finished : Bytes → Result Frame → Reading
finished rest (ok f) = got f rest
finished rest (err e) = lost (core e)

abbrev pub read_body : Json → Bytes → Result FrameLengths → Reading
read_body j input (err e) = lost (core e)
read_body j input (ok l) =
    if ltb (length input) (total l)
    then lost (io unexpected_eof)
    else finished (drop (total l) input) (decode_body j l (take (total l) input))

-- `read_frame`
unfoldable pub read_frame : Json → Bytes → Reading
read_frame j (a ∷ b ∷ c ∷ d ∷ e ∷ f ∷ g ∷ h ∷ input) =
    read_body j input (parse_prefix a b c d e f g h)
read_frame j _ = lost closed

-- `write_frame`
unfoldable pub write_frame : Json → Frame → Bytes → Result Bytes
write_frame j f sent = elim (encode j f) [ ok bytes ↦ ok (sent ++ bytes) | err e ↦ err e ]

-- `write_message`
unfoldable pub write_message : Json → Message → Bytes → Result Bytes
unfolding write_frame new_frame
write_message j m sent = write_frame j (new_frame m) sent
