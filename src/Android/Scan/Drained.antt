-- ===== src/Android/Scan/Drained.antt =====
-- The queue of `scan_library` in crates/android/src/session.rs is drained, whatever cannot be read.
use text.Mathlib.TextEquality.{eq_iff}
use photosync.Prelude.{
  ℕ, zero, suc, ◌+◌, ◌≡◌, refl, ◌∙◌, ap, sym, ◌≤◌, ◌<◌, Bool, true, false, ◌&&◌, ◌==◌, Option, none,
  some, List, [], ◌∷◌, arith, any, keep, map, take, update_where, delete_where, sort_by,
  if◌then◌else◌,
}
use photosync.Prelude.Rows.{any-sort_by}
use photosync.Errors.{Run, done, fail}
use photosync.Model.{Hash32}
use photosync.Staging.{File}
use photosync.Identity.{Sha256, quick_hash}
use photosync.Db.{Db, AssetRow}
use photosync.Catalog.Assets.{
  PendingHash, pending_hash, pending_hashes, set_quick_hash, delete_by_platform_id, is_null,
  is_asset, newest_first,
}
use photosync.Net.Sender.{Library}
use photosync.Android.Scan.{
  Scanned, hash_batch, recorded, read_from, hash_asset, hash_assets, after_batch, drain_queue,
}

abbrev pub is_pending : AssetRow → Bool
is_pending r = is_null r.quick_hash && r.is_local

abbrev pub queued : List AssetRow → ℕ
queued [] = 0
queued (r ∷ rows) = (if is_pending r then 1 else 0) + queued rows

-- One row fewer at least is pending, or as many.
module _ (p : AssetRow → Bool) (f : AssetRow → AssetRow)
    (hashes : (r : AssetRow) → is_pending (f r) ≡ false) where
  queued-update_where :
      (rows : List AssetRow)
      → queued (update_where p f rows)
          + (if any (λ (r : AssetRow). is_pending r && p r) rows then 1 else 0)
        ≤ queued rows
  queued-update_where [] = omega arith
  queued-update_where (r ∷ rows) = ground (arith, queued-update_where rows, hashes r)

queued-delete_where :
    (p : AssetRow → Bool) (rows : List AssetRow)
    → queued (delete_where p rows)
        + (if any (λ (r : AssetRow). is_pending r && p r) rows then 1 else 0)
      ≤ queued rows
queued-delete_where p [] = omega arith
queued-delete_where p (r ∷ rows) = ground (arith, queued-delete_where p rows)

abbrev head_or : PendingHash → List PendingHash → PendingHash
head_or d [] = d
head_or d (x ∷ xs) = x

-- A row of the table that this entry of the queue stands for.
abbrev stands_for : PendingHash → AssetRow → Bool
stands_for p r = (r.id == p.id) && is_asset p.platform_asset_id r

any-keep :
    (p q : AssetRow → Bool) (rows : List AssetRow)
    → any q (keep p rows) ≡ any (λ (r : AssetRow). p r && q r) rows
any-keep p q [] = refl
any-keep p q (r ∷ rows) = ground (arith, any-keep p q rows)

-- Fewer rows pass a stricter test.
any-stricter :
    (p q : AssetRow → Bool) (rows : List AssetRow)
    → ((r : AssetRow) → q r ≡ true → p r ≡ true)
    → any (λ (r : AssetRow). is_pending r && q r) rows ≡ true
    → any (λ (r : AssetRow). is_pending r && p r) rows ≡ true
any-stricter p q [] imp h = h
any-stricter p q (r ∷ rows) imp h = ground (arith, any-stricter p q rows imp, imp r)

by_id : (p : PendingHash) (r : AssetRow) → stands_for p r ≡ true → (r.id == p.id) ≡ true
by_id p r h = ground arith

by_asset :
    (p : PendingHash) (r : AssetRow) → stands_for p r ≡ true → is_asset p.platform_asset_id r ≡ true
by_asset p r h = ground arith

-- The queue is no longer than before, and shorter if the entry stands for a row of it.
abbrev Shrinks : PendingHash → Db → Db → Type 0
Shrinks p t t' =
    (queued t'.local_assets ≤ queued t.local_assets)
    × (any (λ (r : AssetRow). is_pending r && stands_for p r) t.local_assets ≡ true
        → queued t'.local_assets < queued t.local_assets)

drop-Shrinks :
    (p : PendingHash) (t : Db) → Shrinks p t (delete_by_platform_id t p.platform_asset_id).1
unfolding delete_by_platform_id
drop-Shrinks p t =
    (let le = queued-delete_where (is_asset p.platform_asset_id) t.local_assets in
      (
        omega (arith, le),
        λ there. ground (
          arith,
          le,
          any-stricter (is_asset p.platform_asset_id) (stands_for p) t.local_assets (by_asset p)
              there,
        ),
      ))

record-Shrinks :
    (p : PendingHash) (quick : Hash32) (t : Db) → Shrinks p t (set_quick_hash t p.id quick)
unfolding set_quick_hash
record-Shrinks p quick t =
    (let le =
        queued-update_where (λ (r : AssetRow). r.id == p.id)
          (λ r. record r { quick_hash = some quick.bytes }) (λ r. refl) t.local_assets in
      (
        omega (arith, le),
        λ there. ground (
          arith,
          le,
          any-stricter (λ (r : AssetRow). r.id == p.id) (stands_for p) t.local_assets (by_id p)
              there,
        ),
      ))

module _ (d : Sha256) (lib : Library) where
  asset-Shrinks : (p : PendingHash) (s : Scanned) → Shrinks p s.tables (hash_asset d lib p s).tables
  unfolding hash_asset
  asset-Shrinks p s = on_file (lib p.platform_asset_id s.opened)
    where
      on_run :
          (r : Run File Hash32)
          → Shrinks p s.tables (recorded d lib p (record s { opened = s.opened + 1 }) r).tables
      on_run (done quick f) = record-Shrinks p quick s.tables
      on_run (fail e f) = drop-Shrinks p s.tables

      on_file :
          (o : Option File)
          → Shrinks p s.tables (read_from d lib p (record s { opened = s.opened + 1 }) o).tables
      on_file none = drop-Shrinks p s.tables
      on_file (some f) = on_run (quick_hash d p.size f)

  assets-queued :
      (ps : List PendingHash) (s : Scanned)
      → queued (hash_assets d lib ps s).tables.local_assets ≤ queued s.tables.local_assets
  unfolding hash_assets
  assets-queued [] s = omega arith
  assets-queued (p ∷ ps) s =
      omega (arith, assets-queued ps (hash_asset d lib p s), (asset-Shrinks p s).0)

  -- The first entry of the queue stands for a row of it.
  first_pending :
      (t : Db) (p : PendingHash) (ps : List PendingHash)
      → pending_hashes t hash_batch ≡ p ∷ ps
      → any (λ (r : AssetRow). is_pending r && stands_for p r) t.local_assets ≡ true
  unfolding pending_hashes
  first_pending t p ps e = on_sorted (sort_by newest_first (keep is_pending t.local_assets)) refl e
    where
      on_sorted :
          (rows : List AssetRow)
          → sort_by newest_first (keep is_pending t.local_assets) ≡ rows
          → map pending_hash (take hash_batch rows) ≡ p ∷ ps
          → any (λ (r : AssetRow). is_pending r && stands_for p r) t.local_assets ≡ true
      on_sorted [] at q = cc
      on_sorted (y ∷ ys) at q =
          sym (any-keep is_pending (stands_for p) t.local_assets)
          ∙ sym (any-sort_by newest_first (stands_for p) (keep is_pending t.local_assets))
          ∙ ap (any (stands_for p)) at
          ∙ ground (arith, own)
        where
          own : stands_for p y ≡ true
          own =
              ap (λ (x : PendingHash). stands_for x y) (sym (ap (head_or p) q))
              ∙ ground (arith, (eq_iff y.platform_asset_id y.platform_asset_id).1 refl)

  abbrev Drains : Option Scanned → Type 0
  Drains r = (u : Scanned) × (r ≡ some u) × (pending_hashes u.tables hash_batch ≡ [])

  after_batch-Drains :
      (again : Scanned → Option Scanned) (fuel : ℕ) (s : Scanned) (ps : List PendingHash)
      → ((t : Scanned) → queued t.tables.local_assets < fuel → Drains (again t))
      → pending_hashes s.tables hash_batch ≡ ps
      → queued s.tables.local_assets < suc fuel
      → Drains (after_batch d lib again ps s)
  unfolding hash_assets
  after_batch-Drains again fuel s [] next e h = (s, refl, e)
  after_batch-Drains again fuel s (p ∷ ps) next e h = next (hash_assets d lib (p ∷ ps) s) (
      omega (
        arith,
        assets-queued ps (hash_asset d lib p s),
        (asset-Shrinks p s).1 (first_pending s.tables p ps e),
        h,
      ))

  drain-ends :
      (fuel : ℕ) (s : Scanned)
      → queued s.tables.local_assets < fuel
      → Drains (drain_queue d lib fuel s)
  unfolding drain_queue
  drain-ends zero s h = absurd (omega arith)
  drain-ends (suc fuel) s h =
      after_batch-Drains (drain_queue d lib fuel) fuel s (pending_hashes s.tables hash_batch)
        (drain-ends fuel) refl h

-- The loop that drains the hash queue ends, in no more rounds than rows are pending and one, whatever
-- originals cannot be opened or read; and then no row is left to hash.
pub drain_queue_ends :
    (d : Sha256) (lib : Library) (s : Scanned)
    → (u : Scanned) × (drain_queue d lib (queued s.tables.local_assets + 1) s ≡ some u)
      × (pending_hashes u.tables hash_batch ≡ [])
drain_queue_ends d lib s = drain-ends d lib (queued s.tables.local_assets + 1) s (omega arith)
