-- ===== src/Proto.antt =====
-- crates/core/src/proto.rs: messages, limits and framing. The JSON header is serde_json's, a
-- parameter: what the derived encoders of `Message` give, and what the decoders accept.
pub mod Frames
use photosync.Prelude.{
  ℕ, ◌+◌, ◌*◌, ◌%◌, ◌^◌, ◌≡◌, Bool, true, false, not, ◌&&◌, Option, none, some, List, [], ◌∷◌, ◌++◌,
  String, ltb, ◌==◌, if◌then◌else◌, length, take, drop,
}
use photosync.Prelude.Bytes.{Bytes, be32, from_be32}
use photosync.Errors.{
  Error, protocol, cannot_encode, cannot_decode, empty_header, short_frame, stray_payload,
  header_over, payload_over, body_length, speaks, Result, ok, err, ◌>>=◌,
}
use photosync.Model.{Hash32, AssetDescriptor, HaveVerdict, SessionRole}
use photosync.Chunk.{chunk_len}

abbrev pub protocol_major : ℕ
protocol_major = 1

abbrev pub protocol_minor : ℕ
protocol_minor = 0

abbrev pub max_header_len : ℕ
max_header_len = 1024 * 1024

abbrev pub u32_mod : ℕ
u32_mod = 2 ^ 32

abbrev pub max_payload_len : ℕ
max_payload_len = chunk_len % u32_mod

abbrev pub frame_prefix_len : ℕ
frame_prefix_len = 8

pub record HaveQueryEntry : Type 0 where
  pub id : ℕ
  pub quick_hash : Hash32
  pub full_hash : Option Hash32

pub record HaveResponseEntry : Type 0 where
  pub id : ℕ
  pub verdict : HaveVerdict

pub record ResumePoint : Type 0 where
  pub quick_hash : Hash32
  pub bytes_received : ℕ

pub data ChunkOutcome : Type 0 where
  accepted : ℕ → ChunkOutcome
  corrupt : ChunkOutcome
  misaligned : ℕ → ChunkOutcome

pub data AssetOutcome : Type 0 where
  committed already_present hash_mismatch failed : AssetOutcome

-- `AssetOutcome::is_delivered`
unfoldable pub is_delivered : AssetOutcome → Bool
is_delivered committed = true
is_delivered already_present = true
is_delivered hash_mismatch = false
is_delivered failed = false

pub data AbortReason : Type 0 where
  version_mismatch auth_failed too_many_attempts code_expired busy out_of_space cancelled internal :
      AbortReason

pub data Message : Type 0 where
  hello : ℕ → ℕ → String → String → Hash32 → Message
  authenticate : Hash32 → Message
  auth_challenge : Bytes → Message
  session_begin : SessionRole → String → ℕ → ℕ → Message
  session_resume : List ResumePoint → Message
  have_query : List HaveQueryEntry → Message
  have_response : List HaveResponseEntry → Message
  asset_begin : AssetDescriptor → ℕ → Message
  chunk : ℕ → Hash32 → Message
  chunk_ack : ℕ → ChunkOutcome → Message
  asset_end : Hash32 → Message
  asset_ack : AssetOutcome → Message
  batch_ack : ℕ → Message
  session_end : ℕ → ℕ → ℕ → ℕ → Message
  heartbeat : Message
  abort : AbortReason → String → Message

-- `matches!(message, Message::Chunk { .. })`
abbrev pub is_chunk : Message → Bool
is_chunk (chunk _ _) = true
is_chunk _ = false

pub record Frame : Type 0 where
  pub message : Message
  pub payload : Bytes

-- `Frame::new`
unfoldable pub new_frame : Message → Frame
new_frame m = record { message = m; payload = [] }

-- `serde_json::to_vec` and `from_slice` at `Message`.
pub record Json : Type 0 where
  pub to_vec : Message → Option Bytes
  pub from_slice : Bytes → Option Message

pub record FrameLengths : Type 0 where
  pub header_len : ℕ
  pub payload_len : ℕ

-- `FrameLengths::total`
unfoldable pub total : FrameLengths → ℕ
total l = l.header_len + l.payload_len

abbrev or_fail {ℓ} : {A : Type ℓ} → Option A → Error → Result A
or_fail none e = err e
or_fail (some a) e = ok a

-- `encode` behind the JSON encoder.
unfoldable pub written : Bytes → Bytes → Result Bytes
written header payload =
    if ltb max_header_len (length header)
    then err (protocol (header_over (length header)))
    else if ltb max_payload_len (length payload)
    then err (protocol (payload_over (length payload)))
    else ok
        (be32 (length header % u32_mod) ++ (be32 (length payload % u32_mod) ++ (header ++ payload)))

-- `encode`
unfoldable pub encode : Json → Frame → Result Bytes
unfolding written
encode j frame = do
  header ← or_fail (j.to_vec frame.message) (protocol cannot_encode)
  written header frame.payload

-- `parse_prefix`, on the eight bytes of the prefix.
unfoldable pub parse_prefix : ℕ → ℕ → ℕ → ℕ → ℕ → ℕ → ℕ → ℕ → Result FrameLengths
unfolding from_be32
parse_prefix a b c d e f g h =
    let header_len = from_be32 a b c d in
    let payload_len = from_be32 e f g h in
    if header_len == 0
    then err (protocol empty_header)
    else if ltb max_header_len header_len
    then err (protocol (header_over header_len))
    else if ltb max_payload_len payload_len
    then err (protocol (payload_over payload_len))
    else ok (record { header_len = header_len; payload_len = payload_len })

abbrev is_empty : Bytes → Bool
is_empty [] = true
is_empty (x ∷ xs) = false

-- `decode_body`
unfoldable pub decode_body : Json → FrameLengths → Bytes → Result Frame
unfolding total
decode_body j lengths body =
    if not (length body == total lengths)
    then err (protocol (body_length (length body) (total lengths)))
    else do
      message ← or_fail (j.from_slice (take lengths.header_len body)) (protocol cannot_decode)
      if not (is_chunk message) && not (is_empty (drop lengths.header_len body))
          then err (protocol stray_payload)
          else ok (record { message = message; payload = drop lengths.header_len body })

-- `decode`: the first eight bytes are the prefix.
unfoldable pub decode : Json → Bytes → Result Frame
unfolding parse_prefix decode_body
decode j (a ∷ b ∷ c ∷ d ∷ e ∷ f ∷ g ∷ h ∷ body) = do
  lengths ← parse_prefix a b c d e f g h
  decode_body j lengths body
decode j _ = err (protocol short_frame)

-- `check_version`
unfoldable pub check_version : ℕ → ℕ → Result (Unit {0})
check_version major minor =
    if not (major == protocol_major) then err (protocol (speaks major)) else ok tt
