-- ===== src/Android/Scan.antt =====
-- The hash queue of `scan_library` in crates/android/src/session.rs. The rows without a quick hash are the
-- queue. What opening an original gives, the n-th time, is a parameter.
pub mod Drained
use photosync.Prelude.{ℕ, zero, suc, ◌+◌, Option, none, some, List, [], ◌∷◌, String}
use photosync.Errors.{Run, done, fail}
use photosync.Model.{Hash32}
use photosync.Staging.{File}
use photosync.Identity.{Sha256, quick_hash}
use photosync.Db.{Db}
use photosync.Catalog.Assets.{PendingHash, pending_hashes, set_quick_hash, delete_by_platform_id}
use photosync.Net.Sender.{Library}

-- Assets hashed in a batch.
abbrev pub hash_batch : ℕ
hash_batch = 64

pub record Scanned : Type 0 where
  pub tables : Db
  pub hashed : ℕ
  pub opened : ℕ

abbrev pub dropped : PendingHash → Scanned → Scanned
dropped p s = record s { tables = (delete_by_platform_id s.tables p.platform_asset_id).1 }

module _ (d : Sha256) (lib : Library) where
  abbrev pub recorded : PendingHash → Scanned → Run File Hash32 → Scanned
  recorded p s (done quick f) = record s {
    tables = set_quick_hash s.tables p.id quick;
    hashed = s.hashed + 1;
  }
  recorded p s (fail e f) = dropped p s

  abbrev pub read_from : PendingHash → Scanned → Option File → Scanned
  read_from p s none = dropped p s
  read_from p s (some f) = recorded p s (quick_hash d p.size f)

  -- An asset of the queue: its hash is recorded, or it leaves the catalog.
  unfoldable pub hash_asset : PendingHash → Scanned → Scanned
  hash_asset p s =
      read_from p (record s { opened = s.opened + 1 }) (lib p.platform_asset_id s.opened)

  -- The `for` over a batch.
  unfoldable pub hash_assets : List PendingHash → Scanned → Scanned
  unfolding hash_asset
  hash_assets [] s = s
  hash_assets (p ∷ ps) s = hash_assets ps (hash_asset p s)

  abbrev pub after_batch : (Scanned → Option Scanned) → List PendingHash → Scanned → Option Scanned
  after_batch again [] s = some s
  after_batch again (p ∷ ps) s = again (hash_assets (p ∷ ps) s)

  -- The `loop` that drains the queue; none when it is out of fuel.
  unfoldable pub drain_queue : ℕ → Scanned → Option Scanned
  unfolding hash_assets
  drain_queue zero s = none
  drain_queue (suc fuel) s = after_batch (drain_queue fuel) (pending_hashes s.tables hash_batch) s
