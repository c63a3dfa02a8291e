-- ===== src/Model.antt =====
-- crates/core/src/model.rs: the domain model, with the strings that the database stores.
-- `Hash32` keeps its bytes; the fixed length is the predicate `IsHash`.
pub mod Laws
use Prim.Native.String.{String}
use text.Mathlib.Text.{◌==◌ as str_eq}
use photosync.Prelude.{ℕ, ◌≡◌, Bool, true, false, Option, none, some, if◌then◌else◌, ◌==◌, length}
use photosync.Prelude.Int.{ℤ}
use photosync.Prelude.Bytes.{Bytes, bytes_eq}

abbrev pub hash_len : ℕ
hash_len = 32

pub record Hash32 : Type 0 where
  pub bytes : Bytes

abbrev pub IsHash : Hash32 → Type 0
IsHash h = length h.bytes ≡ hash_len

-- `Hash32::from_slice`
unfoldable pub from_slice : Bytes → Option Hash32
from_slice bytes = if length bytes == hash_len then some (record { bytes = bytes }) else none

-- The derived `PartialEq`.
unfoldable pub hash_eq : Hash32 → Hash32 → Bool
hash_eq a b = bytes_eq a.bytes b.bytes

-- `hex::encode` and `hex::decode` of the hex crate.
pub record Hex : Type 0 where
  pub encode : Bytes → String
  pub decode : String → Option Bytes

unfoldable pub to_hex : Hex → Hash32 → String
to_hex x h = x.encode h.bytes

unfoldable pub from_hex : Hex → String → Option Hash32
unfolding from_slice
from_hex x s = elim (x.decode s) [ none ↦ none | some raw ↦ from_slice raw ]

pub data MediaType : Type 0 where
  image video : MediaType

pub record AssetDescriptor : Type 0 where
  pub quick_hash : Hash32
  pub full_hash : Option Hash32
  pub size : ℕ
  pub media_type : MediaType
  pub mime : String
  pub created_at : ℤ
  pub modified_at : ℤ
  pub width : Option ℕ
  pub height : Option ℕ
  pub duration_ms : Option ℕ
  pub display_name : Option String
  pub resource_group_id : Option String

pub data TransferState : Type 0 where
  queued transferring verifying committed failed skipped_already_present cancelled : TransferState

-- `TransferState::is_terminal`
unfoldable pub is_terminal : TransferState → Bool
is_terminal committed = true
is_terminal failed = true
is_terminal skipped_already_present = true
is_terminal TransferState.cancelled = true
is_terminal _ = false

-- `TransferState::is_success`
unfoldable pub is_success : TransferState → Bool
is_success committed = true
is_success skipped_already_present = true
is_success _ = false

pub data SessionRole : Type 0 where
  sender receiver : SessionRole

pub data SessionState : Type 0 where
  active interrupted done cancelled : SessionState

pub data HaveVerdict : Type 0 where
  send skip probable : HaveVerdict

pub record LibraryCounters : Type 0 where
  pub total : ℕ
  pub hashing : ℕ
  pub remaining : ℕ
  pub not_on_device : ℕ

-- `MediaType::as_str` and `MediaType::parse`
unfoldable pub media_type_str : MediaType → String
media_type_str image = "image"
media_type_str video = "video"

unfoldable pub parse_media_type : String → Option MediaType
parse_media_type s =
    if str_eq s "image" then some image else if str_eq s "video" then some video else none

-- `TransferState::as_str` and `TransferState::parse`
unfoldable pub transfer_state_str : TransferState → String
transfer_state_str queued = "queued"
transfer_state_str transferring = "transferring"
transfer_state_str verifying = "verifying"
transfer_state_str committed = "committed"
transfer_state_str failed = "failed"
transfer_state_str skipped_already_present = "skipped_already_present"
transfer_state_str TransferState.cancelled = "cancelled"

unfoldable pub parse_transfer_state : String → Option TransferState
parse_transfer_state s =
    if str_eq s "queued"
    then some queued
    else if str_eq s "transferring"
    then some transferring
    else if str_eq s "verifying"
    then some verifying
    else if str_eq s "committed"
    then some committed
    else if str_eq s "failed"
    then some failed
    else if str_eq s "skipped_already_present"
    then some skipped_already_present
    else if str_eq s "cancelled"
    then some TransferState.cancelled
    else none

-- `SessionRole::as_str` and `SessionRole::parse`
unfoldable pub session_role_str : SessionRole → String
session_role_str sender = "sender"
session_role_str receiver = "receiver"

unfoldable pub parse_session_role : String → Option SessionRole
parse_session_role s =
    if str_eq s "sender" then some sender else if str_eq s "receiver" then some receiver else none

-- `SessionState::as_str` and `SessionState::parse`
unfoldable pub session_state_str : SessionState → String
session_state_str active = "active"
session_state_str interrupted = "interrupted"
session_state_str SessionState.done = "done"
session_state_str SessionState.cancelled = "cancelled"

unfoldable pub parse_session_state : String → Option SessionState
parse_session_state s =
    if str_eq s "active"
    then some active
    else if str_eq s "interrupted"
    then some interrupted
    else if str_eq s "done"
    then some SessionState.done
    else if str_eq s "cancelled"
    then some SessionState.cancelled
    else none
