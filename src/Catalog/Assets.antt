-- ===== src/Catalog/Assets.antt =====
-- The library rows of crates/core/src/catalog.rs: scanning, the hashing queue and its results. The row
-- id that SQLite gives a new asset is an argument.
use text.Mathlib.Text.{◌==◌ as str_eq}
use mathlib.Core.Option
use photosync.Prelude.{
  ℕ, Bool, true, false, ◌&&◌, Option, none, some, List, [], ◌∷◌, ◌++◌, map, String, any, find, keep,
  take, update_where, delete_where, sort_by, if◌then◌else◌, ◌==◌,
}
use photosync.Prelude.Int.{ℤ, pos, negsuc, ltb_ℤ, eqb_ℤ, to_i64, from_i64}
use photosync.Model.{Hash32, MediaType, media_type_str}
use photosync.Db.{Db, AssetRow, TransferRow}

pub record ScannedAsset : Type 0 where
  pub platform_asset_id : String
  pub size : ℕ
  pub media_type : MediaType
  pub mime : String
  pub created_at : ℤ
  pub modified_at : ℤ
  pub width : Option ℕ
  pub height : Option ℕ
  pub duration_ms : Option ℕ
  pub display_name : Option String
  pub resource_group_id : Option String
  pub is_local : Bool

pub record UpsertOutcome : Type 0 where
  pub id : ℕ
  pub needs_hash : Bool

pub record PendingHash : Type 0 where
  pub id : ℕ
  pub platform_asset_id : String
  pub size : ℕ

-- `IFNULL(x, -1)`, for an unsigned and a signed column.
abbrev pub ifnull : Option ℕ → ℤ
ifnull none = negsuc 0
ifnull (some n) = pos n

abbrev pub ifnull_ℤ : Option ℤ → ℤ
ifnull_ℤ none = negsuc 0
ifnull_ℤ (some z) = z

-- `UNCHANGED_PREDICATE`
unfoldable pub is_unchanged : AssetRow → ScannedAsset → Bool
is_unchanged r a =
    eqb_ℤ r.size (to_i64 a.size)
    && eqb_ℤ r.modified_at a.modified_at
    && eqb_ℤ (ifnull r.width) (ifnull a.width)
    && eqb_ℤ (ifnull r.height) (ifnull a.height)
    && eqb_ℤ (ifnull_ℤ r.duration_ms) (ifnull_ℤ (Option.map to_i64 a.duration_ms))

abbrev pub is_asset : String → AssetRow → Bool
is_asset pid r = str_eq r.platform_asset_id pid

-- The row that an insert writes.
unfoldable pub inserted : ScannedAsset → ℕ → ℕ → AssetRow
inserted a fresh now = record {
  id = fresh;
  platform_asset_id = a.platform_asset_id;
  quick_hash = none;
  full_hash = none;
  size = to_i64 a.size;
  media_type = media_type_str a.media_type;
  mime = a.mime;
  created_at = a.created_at;
  modified_at = a.modified_at;
  width = a.width;
  height = a.height;
  duration_ms = Option.map to_i64 a.duration_ms;
  display_name = a.display_name;
  resource_group_id = a.resource_group_id;
  is_local = a.is_local;
  scanned_at = now;
}

-- The row that a conflict leaves: everything from the scan, the hashes only while nothing changed.
unfoldable pub refreshed : ScannedAsset → ℕ → AssetRow → AssetRow
unfolding inserted is_unchanged
refreshed a now r = record (inserted a r.id now) {
  platform_asset_id = r.platform_asset_id;
  quick_hash = if is_unchanged r a then r.quick_hash else none;
  full_hash = if is_unchanged r a then r.full_hash else none;
}

abbrev pub is_null {ℓ} : {A : Type ℓ} → Option A → Bool
is_null none = true
is_null (some _) = false

abbrev outcome : AssetRow → UpsertOutcome
outcome r = record { id = r.id; needs_hash = is_null r.quick_hash }

abbrev insert_or_refresh : Db → ScannedAsset → ℕ → ℕ → Option AssetRow → UpsertOutcome × Db
insert_or_refresh t a fresh now none = (
  outcome (inserted a fresh now),
  record t { local_assets = t.local_assets ++ (inserted a fresh now ∷ []) },
)
insert_or_refresh t a fresh now (some r) = (
  outcome (refreshed a now r),
  record t {
    local_assets = update_where (is_asset a.platform_asset_id) (refreshed a now) t.local_assets;
  },
)

-- `upsert`
unfoldable pub upsert : Db → ScannedAsset → ℕ → ℕ → UpsertOutcome × Db
unfolding inserted refreshed
upsert t a fresh now =
    insert_or_refresh t a fresh now (find (is_asset a.platform_asset_id) t.local_assets)

-- `was_catalogued`
unfoldable pub was_catalogued : Db → String → Bool
was_catalogued t pid = any (is_asset pid) t.local_assets

-- `delete_by_platform_id`, with the cascade to the transfers of the asset.
unfoldable pub delete_by_platform_id : Db → String → Bool × Db
delete_by_platform_id t pid = (
  any (is_asset pid) t.local_assets,
  record t {
    local_assets = delete_where (is_asset pid) t.local_assets;
    transfers =
        delete_where
          (λ (x : TransferRow).
            any (λ (r : AssetRow). is_asset pid r && (r.id == x.local_asset_id)) t.local_assets)
          t.transfers;
  },
)

abbrev pub newest_first : AssetRow → AssetRow → Bool
newest_first a b = ltb_ℤ b.created_at a.created_at

abbrev pub pending_hash : AssetRow → PendingHash
pending_hash r = record {
  id = r.id;
  platform_asset_id = r.platform_asset_id;
  size = from_i64 r.size;
}

-- `pending_hashes`
unfoldable pub pending_hashes : Db → ℕ → List PendingHash
pending_hashes t limit = map pending_hash (
    take limit (
      sort_by newest_first
        (keep (λ (r : AssetRow). is_null r.quick_hash && r.is_local) t.local_assets)))

-- `set_quick_hash` and `set_full_hash`
unfoldable pub set_quick_hash : Db → ℕ → Hash32 → Db
set_quick_hash t id quick = record t {
  local_assets =
      update_where (λ (r : AssetRow). r.id == id) (λ r. record r { quick_hash = some quick.bytes })
        t.local_assets;
}

unfoldable pub set_full_hash : Db → ℕ → Hash32 → Db
set_full_hash t id full = record t {
  local_assets =
      update_where (λ (r : AssetRow). r.id == id) (λ r. record r { full_hash = some full.bytes })
        t.local_assets;
}
