-- ===== src/Catalog/Rescans.antt =====
-- `upsert` of crates/core/src/catalog.rs: what a scan keeps and what it invalidates.
use mathlib.Core.Option
use text.Mathlib.TextEquality.{eq_iff}
use photosync.Prelude.{
  ℕ, ◌≡◌, refl, ◌∙◌, ap, sym, ◌↔◌, ◌⊎◌, inl, inr, Bool-cases, Bool, true, false, ◌&&◌, Option, none,
  some, List, [], ◌∷◌, arith, String, any, find, ◌==◌, ==_iff, if◌then◌else◌,
}
use photosync.Prelude.Int.{ℤ, eqb_ℤ, eqb_ℤ_iff, to_i64}
use photosync.Prelude.Rows.{find-append_none, find-update_where_hit, find-update_where}
use photosync.Model.{Hash32}
use photosync.Db.{Db, AssetRow}
use photosync.Catalog.Assets.{
  ScannedAsset, UpsertOutcome, is_unchanged, is_asset, is_null, inserted, refreshed, upsert,
  set_quick_hash, ifnull, ifnull_ℤ,
}
use photosync.Catalog.Backlog.{FilterArgs}
use photosync.Catalog.Counts.{is_left}

find-none-any : (q : AssetRow → Bool) (xs : List AssetRow) → find q xs ≡ none → any q xs ≡ false
find-none-any q [] h = refl
find-none-any q (x ∷ xs) h = ground (arith, find-none-any q xs)

eqb_ℤ-refl : (z : ℤ) → eqb_ℤ z z ≡ true
eqb_ℤ-refl z = ground arith

-- The row that the last scan of an asset left is unchanged for that scan.
is_unchanged-inserted :
    (a : ScannedAsset) (fresh now : ℕ) (pid : String) (quick full : Option (List ℕ))
    → is_unchanged
        (record (inserted a fresh now) {
          platform_asset_id = pid;
          quick_hash = quick;
          full_hash = full;
        })
        a
      ≡ true
unfolding is_unchanged inserted
is_unchanged-inserted a fresh now pid quick full = ground (
  arith,
  eqb_ℤ-refl (to_i64 a.size),
  eqb_ℤ-refl a.modified_at,
  eqb_ℤ-refl (ifnull a.width),
  eqb_ℤ-refl (ifnull a.height),
  eqb_ℤ-refl (ifnull_ℤ (Option.map to_i64 a.duration_ms)),
)

is_asset-inserted :
    (a : ScannedAsset) (fresh now : ℕ) → is_asset a.platform_asset_id (inserted a fresh now) ≡ true
unfolding inserted
is_asset-inserted a fresh now = (eq_iff a.platform_asset_id a.platform_asset_id).1 refl

is_asset-refreshed :
    (a : ScannedAsset) (pid : String) (now : ℕ) (r : AssetRow)
    → is_asset pid (refreshed a now r) ≡ is_asset pid r
unfolding refreshed
is_asset-refreshed a pid now r = refl

find-inserted :
    (a : ScannedAsset) (fresh now : ℕ)
    → find (is_asset a.platform_asset_id) (inserted a fresh now ∷ []) ≡ some (inserted a fresh now)
find-inserted a fresh now = rw (is_asset-inserted a fresh now, find) refl

-- The row after a scan, and the outcome that goes with it.
unfoldable pub scanned : ScannedAsset → ℕ → ℕ → Option AssetRow → AssetRow
scanned a fresh now none = inserted a fresh now
scanned a fresh now (some r) = refreshed a now r

find-upsert :
    (t : Db) (a : ScannedAsset) (fresh now : ℕ) (old : Option AssetRow)
    → find (is_asset a.platform_asset_id) t.local_assets ≡ old
    → (find (is_asset a.platform_asset_id) (upsert t a fresh now).1.local_assets
        ≡ some (scanned a fresh now old))
      × ((upsert t a fresh now).0 ≡ record {
        id = (scanned a fresh now old).id;
        needs_hash = is_null (scanned a fresh now old).quick_hash;
      })
unfolding upsert scanned Option.map
find-upsert t a fresh now none e = (
  rw e (
      find-append_none (is_asset a.platform_asset_id) t.local_assets (inserted a fresh now ∷ [])
        (find-none-any (is_asset a.platform_asset_id) t.local_assets e)
      ∙ find-inserted a fresh now),
  rw e refl,
)
find-upsert t a fresh now (some r) e = (
  rw e (
      find-update_where_hit (is_asset a.platform_asset_id) (is_asset a.platform_asset_id)
        (refreshed a now) t.local_assets (λ x. refl) (is_asset-refreshed a a.platform_asset_id now)
      ∙ ap (Option.map (refreshed a now)) e),
  rw e refl,
)

-- The scan finds the size, the time of change, the dimensions and the length of play that are on record,
-- where a value that is missing counts as -1.
abbrev pub HasMarkers : AssetRow → ScannedAsset → Type 0
HasMarkers r a =
    (r.size ≡ to_i64 a.size)
    × (r.modified_at ≡ a.modified_at)
    × (ifnull r.width ≡ ifnull a.width)
    × (ifnull r.height ≡ ifnull a.height)
    × (ifnull_ℤ r.duration_ms ≡ ifnull_ℤ (Option.map to_i64 a.duration_ms))

all_five :
    (a b c x y : Bool)
    → ((a && b && c && x && y) ≡ true)
      ↔ ((a ≡ true) × (b ≡ true) × (c ≡ true) × (x ≡ true) × (y ≡ true))
all_five a b c x y = (
  λ e. (ground arith, ground arith, ground arith, ground arith, ground arith),
  λ (h1, h2, h3, h4, h5). ground arith,
)

is_unchanged_iff : (r : AssetRow) (a : ScannedAsset) → (is_unchanged r a ≡ true) ↔ HasMarkers r a
unfolding is_unchanged
is_unchanged_iff r a =
    (let size = eqb_ℤ_iff r.size (to_i64 a.size) in
      let time = eqb_ℤ_iff r.modified_at a.modified_at in
      let wide = eqb_ℤ_iff (ifnull r.width) (ifnull a.width) in
      let high = eqb_ℤ_iff (ifnull r.height) (ifnull a.height) in
      let long = eqb_ℤ_iff (ifnull_ℤ r.duration_ms) (ifnull_ℤ (Option.map to_i64 a.duration_ms)) in
      let both =
        all_five (eqb_ℤ r.size (to_i64 a.size)) (eqb_ℤ r.modified_at a.modified_at)
          (eqb_ℤ (ifnull r.width) (ifnull a.width)) (eqb_ℤ (ifnull r.height) (ifnull a.height))
          (eqb_ℤ (ifnull_ℤ r.duration_ms) (ifnull_ℤ (Option.map to_i64 a.duration_ms))) in
      (
        λ e. let (s, t, w, h, l) = both.0 e in (size.0 s, time.0 t, wide.0 w, high.0 h, long.0 l),
        λ (s, t, w, h, l). both.1 (size.1 s, time.1 t, wide.1 w, high.1 h, long.1 l),
      ))

module _ (t : Db) (a : ScannedAsset) (fresh now : ℕ) (r : AssetRow) where
  -- The row has the hashes it had.
  abbrev pub Kept : AssetRow → Type 0
  Kept row =
      (row.quick_hash ≡ r.quick_hash)
      × (row.full_hash ≡ r.full_hash)
      × ((upsert t a fresh now).0 ≡ record { id = r.id; needs_hash = is_null r.quick_hash })

  -- The row has no hash, and is left to send to no one.
  abbrev pub Forgotten : FilterArgs → AssetRow → Type 0
  Forgotten f row =
      (row.quick_hash ≡ none)
      × (row.full_hash ≡ none)
      × ((upsert t a fresh now).0 ≡ record { id = r.id; needs_hash = true })
      × (is_left (upsert t a fresh now).1 f row ≡ false)

upsert_unchanged :
    (t : Db) (a : ScannedAsset) (fresh now : ℕ) (r : AssetRow)
    → find (is_asset a.platform_asset_id) t.local_assets ≡ some r
    → is_unchanged r a ≡ true
    → Kept t a fresh now r (refreshed a now r)
unfolding scanned refreshed inserted
upsert_unchanged t a fresh now r e same =
    (rw same refl, rw same refl, (find-upsert t a fresh now (some r) e).1 ∙ rw same refl)

upsert_kept :
    (t : Db) (a : ScannedAsset) (fresh now : ℕ) (r : AssetRow)
    → find (is_asset a.platform_asset_id) t.local_assets ≡ some r
    → is_unchanged r a ≡ true
    → (row : AssetRow) × (find (is_asset a.platform_asset_id) (upsert t a fresh now).1.local_assets
        ≡ some row)
      × (row.quick_hash ≡ r.quick_hash)
      × ((upsert t a fresh now).0 ≡ record { id = r.id; needs_hash = is_null r.quick_hash })
unfolding scanned
upsert_kept t a fresh now r e same =
    (let kept = upsert_unchanged t a fresh now r e same in
      (refreshed a now r, (find-upsert t a fresh now (some r) e).0, kept.0, kept.2))

upsert_changed :
    (t : Db) (a : ScannedAsset) (fresh now : ℕ) (r : AssetRow) (f : FilterArgs)
    → find (is_asset a.platform_asset_id) t.local_assets ≡ some r
    → is_unchanged r a ≡ false
    → Forgotten t a fresh now r f (refreshed a now r)
unfolding scanned refreshed inserted is_left
upsert_changed t a fresh now r f e changed = (
  rw changed refl,
  rw changed refl,
  (find-upsert t a fresh now (some r) e).1 ∙ rw changed refl,
  rw changed refl,
)

-- A scan of an asset that is on record keeps its row. If size, time of change, dimensions and length of
-- play are those on record, both hashes stay, and it needs hashing just when it had no quick hash; if
-- any of them differs, both hashes are forgotten, it needs hashing, and it is in no peer's backlog.
pub upsert_again :
    (t : Db) (a : ScannedAsset) (fresh now : ℕ) (r : AssetRow) (f : FilterArgs)
    → find (is_asset a.platform_asset_id) t.local_assets ≡ some r
    → (row : AssetRow) × (find (is_asset a.platform_asset_id) (upsert t a fresh now).1.local_assets
        ≡ some row)
      × ((HasMarkers r a × Kept t a fresh now r row)
          ⊎ ((¬ HasMarkers r a) × Forgotten t a fresh now r f row))
unfolding scanned
upsert_again t a fresh now r f e = (
  refreshed a now r,
  (find-upsert t a fresh now (some r) e).0,
  elim (Bool-cases (is_unchanged r a)) [
    | inl same ↦ inl ((is_unchanged_iff r a).0 same, upsert_unchanged t a fresh now r e same)
    | inr changed ↦ inr (
      λ markers. absurd (let p = (is_unchanged_iff r a).1 markers in ground (arith, p, changed)),
      upsert_changed t a fresh now r f e changed,
    )
  ],
)

after_hash :
    (t : Db) (a : ScannedAsset) (id : ℕ) (quick : Hash32) (row : AssetRow)
    → find (is_asset a.platform_asset_id) t.local_assets ≡ some row
    → row.id ≡ id
    → find (is_asset a.platform_asset_id) (set_quick_hash t id quick).local_assets
      ≡ some (record row { quick_hash = some quick.bytes })
unfolding set_quick_hash Option.map
after_hash t a id quick row e same =
    find-update_where (λ (r : AssetRow). r.id == id) (is_asset a.platform_asset_id)
      (λ r. record r { quick_hash = some quick.bytes }) t.local_assets (λ x. refl)
    ∙ ap
        (Option.map
          (λ (r : AssetRow). if r.id == id then record r { quick_hash = some quick.bytes } else r))
        e
    ∙ ap (λ b. some (if b then record row { quick_hash = some quick.bytes } else row))
        ((==_iff row.id id).1 same)

is_unchanged-scanned :
    (a : ScannedAsset) (fresh now : ℕ) (old : Option AssetRow) (quick : Option (List ℕ))
    → is_unchanged (record (scanned a fresh now old) { quick_hash = quick }) a ≡ true
unfolding scanned refreshed
is_unchanged-scanned a fresh now none quick =
    is_unchanged-inserted a fresh now (inserted a fresh now).platform_asset_id quick
      (inserted a fresh now).full_hash
is_unchanged-scanned a fresh now (some r) quick =
    is_unchanged-inserted a r.id now r.platform_asset_id quick (refreshed a now r).full_hash

outcome-id :
    (t : Db) (a : ScannedAsset) (fresh now : ℕ) (old : Option AssetRow)
    → find (is_asset a.platform_asset_id) t.local_assets ≡ old
    → (scanned a fresh now old).id ≡ (upsert t a fresh now).0.id
outcome-id t a fresh now old e =
    ap (λ (o : UpsertOutcome). o.id) (sym (find-upsert t a fresh now old e).1)

-- Scanning an asset, hashing it, and scanning it again without a change keeps its row id and the
-- computed quick hash, so that it is not hashed a second time.
pub upsert_rescan :
    (t : Db) (a : ScannedAsset) (fresh fresh' now now' : ℕ) (quick : Hash32)
    → (row : AssetRow) × (find
          (is_asset a.platform_asset_id)
          (upsert
            (set_quick_hash (upsert t a fresh now).1 (upsert t a fresh now).0.id quick)
            a
            fresh'
            now').1.local_assets
        ≡ some row)
      × (row.quick_hash ≡ some quick.bytes)
      × ((upsert
            (set_quick_hash (upsert t a fresh now).1 (upsert t a fresh now).0.id quick)
            a
            fresh'
            now').0
          ≡ record { id = (upsert t a fresh now).0.id; needs_hash = false })
unfolding scanned
upsert_rescan t a fresh fresh' now now' quick =
    (let same =
        outcome-id t a fresh now (find (is_asset a.platform_asset_id) t.local_assets) refl in
      let again =
        upsert_kept (set_quick_hash (upsert t a fresh now).1 (upsert t a fresh now).0.id quick) a
          fresh' now'
          (record (scanned a fresh now (find (is_asset a.platform_asset_id) t.local_assets)) {
            quick_hash = some quick.bytes;
          })
          (after_hash (upsert t a fresh now).1 a (upsert t a fresh now).0.id quick
            (scanned a fresh now (find (is_asset a.platform_asset_id) t.local_assets))
            (find-upsert t a fresh now (find (is_asset a.platform_asset_id) t.local_assets) refl).0
            same)
          (is_unchanged-scanned a fresh now (find (is_asset a.platform_asset_id) t.local_assets)
            (some quick.bytes)) in
      (again.0, again.1, again.2, again.3 ∙ ap (λ n. record { id = n; needs_hash = false }) same))
