-- ===== src/Net/Wire/Laws.antt =====
-- What a reader of crates/net/src/frame.rs gets from a stream that a writer wrote.
use photosync.Prelude.{
  ◌≡◌, refl, ◌∙◌, ap, ◌<◌, false, [], ◌∷◌, ◌++◌, arith, length, length-append, take-append_at,
  drop-append_at, ltb,
}
use photosync.Prelude.Bytes.{Bytes, be32}
use photosync.Errors.{ok}
use photosync.Proto.{Frame, Json, encode, total, decode_body, FrameLengths}
use photosync.Proto.Frames.{
  IsFaithful, IsCarried, encode-ok, parse_prefix-be32, decode_body_parts, lengths_of,
}
use photosync.Net.Wire.{got, lost, closed, read_frame, read_body, finished}

read_body-append :
    (j : Json) (l : FrameLengths) (body rest : Bytes)
    → length body ≡ total l
    → read_body j (body ++ rest) (ok l) ≡ finished rest (decode_body j l body)
read_body-append j l body rest e =
    rw enough (rw (← e) (rw (take-append_at body rest, drop-append_at body rest)))
  where
    enough : ltb (length (body ++ rest)) (total l) ≡ false
    enough = ground (arith, length-append body rest)

-- With a faithful JSON codec, the first frame of a stream, whose payload belongs to a chunk or is
-- empty, is read whole, and the reader stands at what follows it.
pub read_frame-encode :
    (j : Json) (f : Frame) (bytes rest : Bytes)
    → IsFaithful j
    → IsCarried f
    → encode j f ≡ ok bytes
    → read_frame j (bytes ++ rest) ≡ got f rest
unfolding read_frame be32 total
read_frame-encode j f bytes rest law carried e =
    let (header, given, h, p, b) = encode-ok j f bytes e in
    rw b (
      rw
        (parse_prefix-be32 (length header) (length f.payload) (law.writes f.message header given) h
          p)
        (read_body-append j (lengths_of header f.payload) (header ++ f.payload) rest
            (length-append header f.payload)
          ∙ ap (finished rest)
              (decode_body_parts j f header (law.reads_back f.message header given) carried)))

-- A stream that ends inside a frame's eight-byte prefix, or before its first byte, is reported as
-- closed.
pub read_frame_short :
    (j : Json) (input : Bytes) → length input < 8 → read_frame j input ≡ lost closed
unfolding read_frame
read_frame_short j [] h = refl
read_frame_short j (a ∷ []) h = refl
read_frame_short j (a ∷ b ∷ []) h = refl
read_frame_short j (a ∷ b ∷ c ∷ []) h = refl
read_frame_short j (a ∷ b ∷ c ∷ d ∷ []) h = refl
read_frame_short j (a ∷ b ∷ c ∷ d ∷ e ∷ []) h = refl
read_frame_short j (a ∷ b ∷ c ∷ d ∷ e ∷ f ∷ []) h = refl
read_frame_short j (a ∷ b ∷ c ∷ d ∷ e ∷ f ∷ g ∷ []) h = refl
read_frame_short j (a ∷ b ∷ c ∷ d ∷ e ∷ f ∷ g ∷ i ∷ input) h = absurd (omega arith)
