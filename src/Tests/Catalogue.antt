-- ===== src/Tests/Catalogue.antt =====
-- The backlog of crates/core/src/catalog.rs on a library of two photographs and one peer.
use photosync.Prelude.{
  ◌⊎◌, ◌≡◌, refl, true, false, ◌&&◌, not, none, some, [], ◌∷◌, ◌==◌, find, keep, take, length, min,
  sort_by, replicate,
}
use photosync.Prelude.Int.{pos}
use photosync.Errors.{ok}
use photosync.Model.{Hash32, image}
use photosync.Db.{Db, AssetRow, PeerRow, empty_db}
use photosync.Catalog.Peers.{mark_sent}
use photosync.Catalog.Assets.{
  ScannedAsset, is_asset, upsert, set_quick_hash, set_full_hash, newest_first,
}
use photosync.Catalog.Backlog.{
  FilterArgs, Candidate, same_hash, joined, candidates_from_rows, candidates, counters,
}
use photosync.Catalog.Counts.{is_left, candidates-is_left, length-candidates}
use photosync.Catalog.Sent.{is_left-mark_sent}
use photosync.Catalog.Keys.{HasKeys}
use photosync.Net.Orchestrator.{record_delivered}
use photosync.Net.Orchestrator.Delivery.{DeliveredOrUndone, record_delivered-DeliveredOrUndone}
use photosync.Catalog.Rescans.{HasMarkers, Kept, Forgotten, upsert_again, upsert_rescan}

abbrev quick : Hash32
quick = record { bytes = replicate 32 1 }

abbrev full : Hash32
full = record { bytes = replicate 32 2 }

abbrev beach : AssetRow
beach = record {
  id = 1;
  platform_asset_id = "beach";
  quick_hash = some quick.bytes;
  full_hash = none;
  size = pos 10;
  media_type = "image";
  mime = "image/jpeg";
  created_at = pos 5;
  modified_at = pos 5;
  width = none;
  height = none;
  duration_ms = none;
  display_name = none;
  resource_group_id = none;
  is_local = true;
  scanned_at = 0;
}

abbrev forest : AssetRow
forest = record beach { id = 2; platform_asset_id = "forest"; created_at = pos 9 }

abbrev phone : PeerRow
phone = record {
  id = 1;
  cert_fingerprint = [];
  device_name = none;
  platform = none;
  paired_at = 0;
  last_seen_at = 0;
}

abbrev library : Db
library = record empty_db { peers = phone ∷ []; local_assets = beach ∷ forest ∷ [] }

abbrev filter : FilterArgs
filter = record { peer_id = 1; include_videos = false }

candidates_example :
    candidates library filter 100
    ≡ candidates_from_rows
        (take 100 (sort_by newest_first (keep (is_left library filter) library.local_assets)))
candidates_example = candidates-is_left library filter 100

-- The candidates of an empty library.
no_candidates : candidates empty_db filter 100 ≡ ok []
unfolding candidates joined candidates_from_rows
no_candidates = refl

page_example : length {A = Candidate} [] ≡ min 100 (counters empty_db filter).remaining
page_example = length-candidates empty_db filter 100 [] no_candidates

abbrev delivered : Db
delivered = record library {
  local_assets = record beach { full_hash = some full.bytes } ∷ forest ∷ [];
  sent_log =
      record { peer_id = 1; full_hash = full.bytes; quick_hash = quick.bytes; sent_at = 7 } ∷ [];
}

confirm : mark_sent (set_full_hash library 1 full) 1 full quick 7 ≡ ok delivered
unfolding mark_sent set_full_hash
confirm = refl

delivery_example : DeliveredOrUndone library filter 1 (record_delivered library 1 1 full quick 7)
delivery_example = record_delivered-DeliveredOrUndone library filter 1 full quick 7

others_example : is_left delivered filter forest ≡ (
    is_left (set_full_hash library 1 full) filter forest
    && not ((1 == 1) && same_hash full.bytes none))
others_example =
    is_left-mark_sent (set_full_hash library 1 full) delivered filter 1 full quick 7 forest confirm

delivered-HasKeys : HasKeys delivered.sent_log
unfolding HasKeys
delivered-HasKeys = (refl, _)

abbrev edited : ScannedAsset
edited = record {
  platform_asset_id = "beach";
  size = 11;
  media_type = image;
  mime = "image/jpeg";
  created_at = pos 5;
  modified_at = pos 6;
  width = none;
  height = none;
  duration_ms = none;
  display_name = none;
  resource_group_id = none;
  is_local = true;
}

changed_example :
    (row : AssetRow) × (find (is_asset "beach") (upsert library edited 3 8).1.local_assets
      ≡ some row)
    × ((HasMarkers beach edited × Kept library edited 3 8 beach row)
        ⊎ ((¬ HasMarkers beach edited) × Forgotten library edited 3 8 beach filter row))
changed_example = upsert_again library edited 3 8 beach filter refl

rescan_example :
    (row : AssetRow) × (find
        (is_asset "beach")
        (upsert
          (set_quick_hash (upsert library edited 3 8).1 (upsert library edited 3 8).0.id quick)
          edited
          4
          9).1.local_assets
      ≡ some row)
    × (row.quick_hash ≡ some quick.bytes)
    × ((upsert
          (set_quick_hash (upsert library edited 3 8).1 (upsert library edited 3 8).0.id quick)
          edited
          4
          9).0
        ≡ record { id = (upsert library edited 3 8).0.id; needs_hash = false })
rescan_example = upsert_rescan library edited 3 4 8 9 quick
