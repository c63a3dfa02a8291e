-- ===== src/Proto/Frames.antt =====
-- Frames of crates/core/src/proto.rs: round trip, and what a decoder lets through.
use photosync.Prelude.{
  ℕ, ◌+◌, ◌%◌, ◌/◌, ◌^◌, ◌≡◌, refl, ap, sym, ◌≤◌, ◌<◌, ◌↔◌, ◌⊎◌, true, Option, none, some, [], ◌++◌,
  arith, length, take, drop, length-append, take-append_at, drop-append_at, ◌==◌,
}
use photosync.Prelude.Bytes.{Bytes, be32, from_be32, from_be32-be32}
use photosync.Errors.{ok}
use photosync.Proto.{
  Message, Frame, Json, FrameLengths, total, encode, written, parse_prefix, decode_body, decode,
  max_header_len, max_payload_len, u32_mod, is_chunk,
}

-- What serde_json documents: a value that was written reads back, and no value is written as nothing.
pub record IsFaithful (j : Json) : Type 0 where
  pub reads_back : (m : Message) (b : Bytes) → j.to_vec m ≡ some b → j.from_slice b ≡ some m
  pub writes : (m : Message) (b : Bytes) → j.to_vec m ≡ some b → 0 < length b

-- A prefix is let through exactly when both lengths keep their limits, and then unchanged.
pub parse_prefix-ok :
    (a b c d e f g h : ℕ) (l : FrameLengths)
    → (parse_prefix a b c d e f g h ≡ ok l) ↔ (
        (l.header_len ≡ from_be32 a b c d)
        × (l.payload_len ≡ from_be32 e f g h)
        × (0 < l.header_len)
        × (l.header_len ≤ max_header_len)
        × (l.payload_len ≤ max_payload_len))
unfolding parse_prefix
parse_prefix-ok a b c d e f g h l = (λ p. ground arith, λ p. ground arith)

pub parse_prefix-be32 :
    (m n : ℕ)
    → 0 < m
    → m ≤ max_header_len
    → n ≤ max_payload_len
    → parse_prefix
        (m / 2 ^ 24 % 256)
        (m / 2 ^ 16 % 256)
        (m / 2 ^ 8 % 256)
        (m % 256)
        (n / 2 ^ 24 % 256)
        (n / 2 ^ 16 % 256)
        (n / 2 ^ 8 % 256)
        (n % 256)
      ≡ ok (record { header_len = m; payload_len = n })
parse_prefix-be32 m n h k l =
    (parse_prefix-ok _ _ _ _ _ _ _ _ (record { header_len = m; payload_len = n })).1
      (sym (from_be32-be32 m (omega arith)), sym (from_be32-be32 n (omega arith)), h, k, l)

-- A message that may carry the payload it comes with.
abbrev pub IsCarried : Frame → Type 0
IsCarried f = (is_chunk f.message ≡ true) ⊎ (f.payload ≡ [])

abbrev pub lengths_of : Bytes → Bytes → FrameLengths
lengths_of header payload = record { header_len = length header; payload_len = length payload }

pub decode_body_parts :
    (j : Json) (f : Frame) (header : Bytes)
    → j.from_slice header ≡ some f.message
    → IsCarried f
    → decode_body j (lengths_of header f.payload) (header ++ f.payload) ≡ ok f
unfolding decode_body
decode_body_parts j f header read carried =
    rw (sized, take-append_at header f.payload, drop-append_at header f.payload, read)
      (ground arith)
  where
    sized : (length (header ++ f.payload) == length header + length f.payload) ≡ true
    sized = ground (arith, length-append header f.payload)

be32_cast : (n : ℕ) → n < u32_mod → be32 (n % u32_mod) ≡ be32 n
be32_cast n h = ap be32 (omega arith)

written-ok :
    (header payload bytes : Bytes)
    → written header payload ≡ ok bytes
    → (length header ≤ max_header_len)
      × (length payload ≤ max_payload_len)
      × (bytes ≡ be32 (length header) ++ (be32 (length payload) ++ (header ++ payload)))
unfolding written
written-ok header payload bytes e = (
  ground arith,
  ground arith,
  ground (arith, be32_cast (length header), be32_cast (length payload)),
)

-- What `encode` wrote: two lengths within their limits, then the header and the payload.
pub encode-ok :
    (j : Json) (f : Frame) (bytes : Bytes)
    → encode j f ≡ ok bytes
    → (header : Bytes) × (j.to_vec f.message ≡ some header)
      × (length header ≤ max_header_len)
      × (length f.payload ≤ max_payload_len)
      × (bytes ≡ be32 (length header) ++ (be32 (length f.payload) ++ (header ++ f.payload)))
unfolding encode
encode-ok j f bytes e = go (j.to_vec f.message) refl
  where
    go :
        (o : Option Bytes)
        → j.to_vec f.message ≡ o
        → (header : Bytes) × (j.to_vec f.message ≡ some header)
          × (length header ≤ max_header_len)
          × (length f.payload ≤ max_payload_len)
          × (bytes ≡ be32 (length header) ++ (be32 (length f.payload) ++ (header ++ f.payload)))
    go none missing = cc (rw missing at e)
    go (some header) given =
        let (h, p, b) = written-ok header f.payload bytes (rw given at e) in
        (header, given, h, p, b)

-- With a faithful JSON codec, a frame whose payload belongs to a chunk or is empty, and that was
-- encoded, decodes to itself.
pub decode-encode :
    (j : Json) (f : Frame) (bytes : Bytes)
    → IsFaithful j
    → IsCarried f
    → encode j f ≡ ok bytes
    → decode j bytes ≡ ok f
unfolding decode be32
decode-encode j f bytes law carried e =
    let (header, given, h, p, b) = encode-ok j f bytes e in
    rw b (
      rw
        (parse_prefix-be32 (length header) (length f.payload) (law.writes f.message header given) h
          p)
        (decode_body_parts j f header (law.reads_back f.message header given) carried))

-- A body that decodes has the length that its prefix announced, its header is the message, its
-- payload is the rest, and only a chunk has any.
pub decode_body-ok :
    (j : Json) (l : FrameLengths) (body : Bytes) (f : Frame)
    → decode_body j l body ≡ ok f
    → (length body ≡ total l)
      × (j.from_slice (take l.header_len body) ≡ some f.message)
      × (f.payload ≡ drop l.header_len body)
      × IsCarried f
unfolding decode_body
decode_body-ok j l body f e = (ground arith, ground arith, ground arith, ground arith)
