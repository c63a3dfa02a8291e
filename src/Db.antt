-- ===== src/Db.antt =====
-- schema/001_initial.sql and crates/core/src/db.rs: the tables, row by row. A statement is a function
-- on the tables; SQLite itself does not fail, except that a constraint of the schema is broken. An
-- INTEGER column that holds a u64 is an i64; a time is the milliseconds that `now_millis` gives.
use text.Mathlib.Text.{◌==◌ as str_eq}
use photosync.Prelude.{ℕ, suc, Bool, Option, List, [], String, ◌==◌, any, if◌then◌else◌, ltb}
use photosync.Prelude.Int.{ℤ}
use photosync.Prelude.Bytes.{Bytes}
use photosync.Errors.{schema_too_new, Result, ok, err}

pub record PeerRow : Type 0 where
  pub id : ℕ
  pub cert_fingerprint : Bytes
  pub device_name : Option String
  pub platform : Option String
  pub paired_at : ℕ
  pub last_seen_at : ℕ

pub record SessionRow : Type 0 where
  pub id : String
  pub role : String
  pub peer_id : Option ℕ
  pub state : String
  pub started_at : ℕ
  pub finished_at : Option ℕ
  pub items_total : ℤ
  pub items_done : ℤ
  pub items_skipped : ℤ
  pub items_failed : ℤ
  pub bytes_total : ℤ
  pub bytes_done : ℤ

pub record AssetRow : Type 0 where
  pub id : ℕ
  pub platform_asset_id : String
  pub quick_hash : Option Bytes
  pub full_hash : Option Bytes
  pub size : ℤ
  pub media_type : String
  pub mime : String
  pub created_at : ℤ
  pub modified_at : ℤ
  pub width : Option ℕ
  pub height : Option ℕ
  pub duration_ms : Option ℤ
  pub display_name : Option String
  pub resource_group_id : Option String
  pub is_local : Bool
  pub scanned_at : ℕ

pub record SentRow : Type 0 where
  pub peer_id : ℕ
  pub full_hash : Bytes
  pub quick_hash : Bytes
  pub sent_at : ℕ

pub record TransferRow : Type 0 where
  pub session_id : String
  pub local_asset_id : ℕ
  pub state : String
  pub bytes_transferred : ℤ
  pub total_bytes : ℤ
  pub retry_count : ℕ
  pub error_code : Option String
  pub updated_at : ℕ

pub record ReceivedRow : Type 0 where
  pub full_hash : Bytes
  pub quick_hash : Bytes
  pub size : ℤ
  pub platform_asset_id : Option String
  pub peer_id : Option ℕ
  pub received_at : ℕ

pub record InboundRow : Type 0 where
  pub session_id : String
  pub quick_hash : Bytes
  pub staging_ref : String
  pub bytes_received : ℤ
  pub total_bytes : ℤ
  pub updated_at : ℕ

pub record Db : Type 0 where
  pub peers : List PeerRow
  pub sessions : List SessionRow
  pub local_assets : List AssetRow
  pub sent_log : List SentRow
  pub transfers : List TransferRow
  pub received_assets : List ReceivedRow
  pub inbound_transfers : List InboundRow

abbrev pub empty_db : Db
empty_db = record {
  peers = [];
  sessions = [];
  local_assets = [];
  sent_log = [];
  transfers = [];
  received_assets = [];
  inbound_transfers = [];
}

-- The referenced rows of the schema's foreign keys.
abbrev pub has_session : Db → String → Bool
has_session db sid = any (λ r. str_eq r.id sid) db.sessions

abbrev pub has_peer : Db → ℕ → Bool
has_peer db id = any (λ r. r.id == id) db.peers

abbrev pub has_asset : Db → ℕ → Bool
has_asset db id = any (λ r. r.id == id) db.local_assets

abbrev pub schema_version : ℕ
schema_version = 1

-- `migrate`, on `user_version`: the one step takes 0 to 1.
unfoldable pub migrate : ℕ → Result ℕ
migrate version =
    if ltb schema_version version
    then err (schema_too_new version schema_version)
    else if ltb version 1
    then ok (suc version)
    else ok version
