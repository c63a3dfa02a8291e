-- ===== src/Model/Laws.antt =====
-- What the string forms and the tests of crates/core/src/model.rs guarantee.
use Prim.Native.String.{String}
use text.Mathlib.TextEquality.{eq_iff}
use photosync.Prelude.{◌∙◌, ◌≡◌, refl, ◌↔◌, ap, true, some, arith}
use photosync.Prelude.Bytes.{Bytes, bytes_eq_iff}
use photosync.Model.{
  Hash32, IsHash, Hex, hash_eq, to_hex, from_hex, TransferState, transfer_state_str,
  parse_transfer_state, SessionState, session_state_str, parse_session_state, SessionRole,
  session_role_str, parse_session_role, MediaType, media_type_str, parse_media_type,
}

pub hash_eq_iff : (a b : Hash32) → (hash_eq a b ≡ true) ↔ (a ≡ b)
unfolding hash_eq
hash_eq_iff a b = (
  λ h i. record { bytes = (bytes_eq_iff a.bytes b.bytes).0 h i },
  λ e. (bytes_eq_iff a.bytes b.bytes).1 (ap (λ (h : Hash32). h.bytes) e),
)

pub hash_eq_refl : (a : Hash32) → hash_eq a a ≡ true
hash_eq_refl a = (hash_eq_iff a a).1 refl

pub from_hex-to_hex :
    (x : Hex)
    → ((b : Bytes) → x.decode (x.encode b) ≡ some b)
    → (h : Hash32) → IsHash h
    → from_hex x (to_hex x h) ≡ some h
unfolding from_hex to_hex
from_hex-to_hex x law h n = ground (arith, law h.bytes)

parse-media_type_str : (s : MediaType) → parse_media_type (media_type_str s) ≡ some s
unfolding parse_media_type media_type_str
parse-media_type_str MediaType.image = refl
parse-media_type_str _ = refl

media_type-from : (t : String) (s : MediaType) → parse_media_type t ≡ some s → t ≡ media_type_str s
unfolding parse_media_type media_type_str
media_type-from t s h = ground (arith, eq_iff t "image", eq_iff t "video")

-- A text parses to a value exactly when it is the text of that value.
pub parse_media_type_iff :
    (t : String) (s : MediaType) → (parse_media_type t ≡ some s) ↔ (t ≡ media_type_str s)
parse_media_type_iff t s =
    (media_type-from t s, λ e. ap parse_media_type e ∙ parse-media_type_str s)

parse-transfer_state_str :
    (s : TransferState) → parse_transfer_state (transfer_state_str s) ≡ some s
unfolding parse_transfer_state transfer_state_str
parse-transfer_state_str TransferState.queued = refl
parse-transfer_state_str _ = refl

transfer_state-from :
    (t : String) (s : TransferState) → parse_transfer_state t ≡ some s → t ≡ transfer_state_str s
unfolding parse_transfer_state transfer_state_str
transfer_state-from t s h = ground (
  arith,
  eq_iff t "queued",
  eq_iff t "transferring",
  eq_iff t "verifying",
  eq_iff t "committed",
  eq_iff t "failed",
  eq_iff t "skipped_already_present",
  eq_iff t "cancelled",
)

-- A text parses to a value exactly when it is the text of that value.
pub parse_transfer_state_iff :
    (t : String) (s : TransferState)
    → (parse_transfer_state t ≡ some s) ↔ (t ≡ transfer_state_str s)
parse_transfer_state_iff t s =
    (transfer_state-from t s, λ e. ap parse_transfer_state e ∙ parse-transfer_state_str s)

parse-session_role_str : (s : SessionRole) → parse_session_role (session_role_str s) ≡ some s
unfolding parse_session_role session_role_str
parse-session_role_str SessionRole.sender = refl
parse-session_role_str _ = refl

session_role-from :
    (t : String) (s : SessionRole) → parse_session_role t ≡ some s → t ≡ session_role_str s
unfolding parse_session_role session_role_str
session_role-from t s h = ground (arith, eq_iff t "sender", eq_iff t "receiver")

-- A text parses to a value exactly when it is the text of that value.
pub parse_session_role_iff :
    (t : String) (s : SessionRole) → (parse_session_role t ≡ some s) ↔ (t ≡ session_role_str s)
parse_session_role_iff t s =
    (session_role-from t s, λ e. ap parse_session_role e ∙ parse-session_role_str s)

parse-session_state_str : (s : SessionState) → parse_session_state (session_state_str s) ≡ some s
unfolding parse_session_state session_state_str
parse-session_state_str SessionState.active = refl
parse-session_state_str _ = refl

session_state-from :
    (t : String) (s : SessionState) → parse_session_state t ≡ some s → t ≡ session_state_str s
unfolding parse_session_state session_state_str
session_state-from t s h =
    ground (arith, eq_iff t "active", eq_iff t "interrupted", eq_iff t "done", eq_iff t "cancelled")

-- A text parses to a value exactly when it is the text of that value.
pub parse_session_state_iff :
    (t : String) (s : SessionState) → (parse_session_state t ≡ some s) ↔ (t ≡ session_state_str s)
parse_session_state_iff t s =
    (session_state-from t s, λ e. ap parse_session_state e ∙ parse-session_state_str s)
