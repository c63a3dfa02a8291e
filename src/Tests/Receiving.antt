-- ===== src/Tests/Receiving.antt =====
-- The receiver's handlers of crates/net/src/orchestrator.rs on an asset of three bytes, one of which is
-- on record.
use photosync.Prelude.{true, length, ◌^◌, ◌≡◌, refl, none, some, [], ◌∷◌, arith, replicate}
use photosync.Prelude.Int.{pos, to_i64}
use photosync.Prelude.Bytes.{bytes_eq}
use photosync.Model.{Hash32, hash_eq, AssetDescriptor, image}
use photosync.Db.{Db, InboundRow, PeerRow, empty_db}
use photosync.Chunk.Receiver.{InboundAsset}
use photosync.Chunk.Receiver.Holds.{Holds}
use photosync.Inbound.{received_row, holds_full_hash, record_received, close}
use photosync.Inbound.Offsets.{IsAt}
use photosync.Net.Orchestrator.{Active, silent, on_chunk, on_asset_begin}
use photosync.Net.Orchestrator.Receiving.{Careful, on_chunk-Careful, on_asset_begin-Crash}
use photosync.Net.Orchestrator.Finishing.{Totals, counted, acknowledged, on_asset_end}
use photosync.Net.Orchestrator.Endings.{IsDelivered, on_asset_end-IsDelivered}
use photosync.Proto.{AssetOutcome, is_delivered}
use photosync.Identity.{digest, finish}
use photosync.Chunk.Receiver.{finish_asset}
use photosync.Tests.Transfers as Transfers
use photosync.Tests.Transfers.{
  plain, plain-IsIncremental, held, held-Holds_one, held-Holds_all, photo_hash, after_crash, crash,
}

abbrev pub quick : Hash32
quick = record { bytes = replicate 32 1 }

abbrev pub photo : AssetDescriptor
photo = record {
  quick_hash = quick;
  full_hash = none;
  size = 3;
  media_type = image;
  mime = "image/jpeg";
  created_at = pos 5;
  modified_at = pos 5;
  width = none;
  height = none;
  duration_ms = none;
  display_name = none;
  resource_group_id = none;
}

abbrev on_record : InboundRow
on_record = record {
  session_id = "s";
  quick_hash = quick.bytes;
  staging_ref = "a";
  bytes_received = pos 1;
  total_bytes = pos 3;
  updated_at = 3;
}

abbrev tables : Db
tables = record empty_db { inbound_transfers = on_record ∷ [] }

tables-IsAt : IsAt tables "s" quick "a" 3 1
unfolding IsAt to_i64 bytes_eq
tables-IsAt = (3, refl)

abbrev under_way : Active plain
under_way = record { descriptor = photo; staging_ref = "a"; asset = held (7 ∷ []) }

chunk_example :
    Careful plain "s" "a" 3 tables under_way
      (7 ∷ [])
      (record { offset = 1; payload = 8 ∷ 9 ∷ []; hash = record { bytes = 8 ∷ 9 ∷ [] } })
      (on_chunk plain "s" 9
        (record { tables = tables; current = some under_way })
        1
        (record { bytes = 8 ∷ 9 ∷ [] })
        (8 ∷ 9 ∷ []))
chunk_example =
    on_chunk-Careful plain "s" "a" 3 plain-IsIncremental 9 1 tables under_way (7 ∷ []) 1
      (record { bytes = 8 ∷ 9 ∷ [] }) (8 ∷ 9 ∷ []) tables-IsAt (omega arith) held-Holds_one
      (omega arith)

restart_example :
    (b : InboundAsset plain) × (on_asset_begin plain
        (2 ^ 64)
        "s"
        9
        (record { tables = tables; current = none })
        photo
        "b"
        after_crash
      ≡ silent (record {
        tables = tables;
        current = some (record { descriptor = photo; staging_ref = "b"; asset = b });
      }))
    × Holds plain b (7 ∷ [])
restart_example =
    on_asset_begin-Crash plain plain-IsIncremental (2 ^ 64) 9 1 "s" "a" "b" (held (7 ∷ [])) (7 ∷ [])
      after_crash (record { tables = tables; current = none }) photo tables-IsAt refl refl
      (omega arith) (omega arith) held-Holds_one crash refl (omega arith)

abbrev sender : PeerRow
sender = record {
  id = 1;
  cert_fingerprint = [];
  device_name = none;
  platform = none;
  paired_at = 0;
  last_seen_at = 0;
}

abbrev before : Db
before = record tables { peers = sender ∷ [] }

abbrev after : Db
after = record before {
  inbound_transfers = [];
  received_assets = received_row photo_hash quick 3 (some "p") (some 1) 9 ∷ [];
}

abbrev all_received : Active plain
all_received = record { descriptor = photo; staging_ref = "a"; asset = held Transfers.photo }

abbrev none_yet : Totals
none_yet = record { items_done = 0; items_skipped = 0; items_failed = 0; bytes_done = 0 }

acknowledged-all :
    on_asset_end plain "s" 1 9
      (record { tables = before; current = some all_received })
      none_yet
      photo_hash
      (some tt)
      (some "p")
    ≡ acknowledged AssetOutcome.committed after (counted 3 none_yet)
unfolding on_asset_end finish_asset finish digest hash_eq bytes_eq holds_full_hash record_received
    close
acknowledged-all = refl

delivered-committed : is_delivered AssetOutcome.committed ≡ true
unfolding is_delivered
delivered-committed = refl

end_example :
    (length Transfers.photo ≡ 3)
    × (photo_hash ≡ digest plain Transfers.photo)
    × IsDelivered after "s" quick photo_hash
end_example =
    on_asset_end-IsDelivered plain plain-IsIncremental "s" 1 9 all_received Transfers.photo before
      after none_yet (counted 3 none_yet) photo_hash (some tt) (some "p") AssetOutcome.committed
      held-Holds_all acknowledged-all delivered-committed
