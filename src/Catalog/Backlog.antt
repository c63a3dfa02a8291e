-- ===== src/Catalog/Backlog.antt =====
-- `candidates` and `counters` of crates/core/src/catalog.rs, over the rows of the LEFT JOIN that they
-- share. Assets of one creation time come in the table's order.
use text.Mathlib.Text.{◌==◌ as str_eq}
use mathlib.Core.Option
use photosync.Prelude.{
  ℕ, Bool, false, ◌&&◌, ◌||◌, not, Option, none, some, List, [], ◌∷◌, ◌++◌, map, String, keep, take,
  length, sort_by, ◌==◌,
}
use photosync.Prelude.Int.{from_i64}
use photosync.Prelude.Bytes.{Bytes, bytes_eq}
use photosync.Errors.{Error, bad_value, Result, ok, err, ◌>>=◌}
use photosync.Model.{
  Hash32, from_slice, MediaType, parse_media_type, AssetDescriptor, LibraryCounters,
}
use photosync.Db.{Db, AssetRow, SentRow}
use photosync.Catalog.Assets.{is_null, newest_first}

pub record FilterArgs : Type 0 where
  pub peer_id : ℕ
  pub include_videos : Bool

pub record Candidate : Type 0 where
  pub id : ℕ
  pub platform_asset_id : String
  pub descriptor : AssetDescriptor

-- `sl.full_hash = la.full_hash`, which NULL never satisfies.
abbrev pub same_hash : Bytes → Option Bytes → Bool
same_hash sent none = false
same_hash sent (some full) = bytes_eq sent full

-- The ON clause of `CANDIDATE_FROM`.
unfoldable pub is_match : ℕ → AssetRow → SentRow → Bool
is_match peer la sl = (sl.peer_id == peer) && same_hash sl.full_hash la.full_hash

abbrev pub or_unmatched : AssetRow → List SentRow → List (AssetRow × Option SentRow)
or_unmatched la [] = (la, none) ∷ []
or_unmatched la (s ∷ ss) = map (λ x. (la, some x)) (s ∷ ss)

-- `CANDIDATE_FROM`
unfoldable pub joined : ℕ → List SentRow → List AssetRow → List (AssetRow × Option SentRow)
unfolding is_match
joined peer log [] = []
joined peer log (la ∷ rows) = or_unmatched la (keep (is_match peer la) log) ++ joined peer log rows

-- `CANDIDATE_WHERE`
unfoldable pub is_candidate : Bool → AssetRow × Option SentRow → Bool
is_candidate videos (la, sl) =
    not (is_null la.quick_hash)
    && la.is_local
    && is_null sl
    && (videos || str_eq la.media_type "image")

abbrev optional_hash : Option Bytes → Result (Option Hash32)
optional_hash none = ok none
optional_hash (some raw) = elim (from_slice raw) [
  | none ↦ err (Error.db bad_value)
  | some h ↦ ok (some h)
]

abbrev bad_or {ℓ} : {A : Type ℓ} → Option A → Result A
bad_or none = err (Error.db bad_value)
bad_or (some a) = ok a

abbrev required_hash : Option Bytes → Result Hash32
required_hash none = err (Error.db bad_value)
required_hash (some raw) = bad_or (from_slice raw)

abbrev descriptor_of : AssetRow → Hash32 → Option Hash32 → MediaType → AssetDescriptor
descriptor_of r quick full media = record {
  quick_hash = quick;
  full_hash = full;
  size = from_i64 r.size;
  media_type = media;
  mime = r.mime;
  created_at = r.created_at;
  modified_at = r.modified_at;
  width = r.width;
  height = r.height;
  duration_ms = Option.map from_i64 r.duration_ms;
  display_name = r.display_name;
  resource_group_id = r.resource_group_id;
}

-- `candidate_from_row`
unfoldable pub candidate_from_row : AssetRow → Result Candidate
candidate_from_row r = required_hash r.quick_hash >>= λ quick. optional_hash r.full_hash >>= λ full.
    bad_or (parse_media_type r.media_type) >>= λ media. ok (record {
      id = r.id;
      platform_asset_id = r.platform_asset_id;
      descriptor = descriptor_of r quick full media;
    })

unfoldable pub candidates_from_rows : List AssetRow → Result (List Candidate)
candidates_from_rows [] = ok []
candidates_from_rows (r ∷ rows) =
    candidate_from_row r >>= λ c. candidates_from_rows rows >>= λ cs. ok (c ∷ cs)

abbrev pub asset_of : AssetRow × Option SentRow → AssetRow
asset_of (la, sl) = la

-- `candidates`
unfoldable pub candidates : Db → FilterArgs → ℕ → Result (List Candidate)
unfolding joined is_candidate candidates_from_rows
candidates t f limit = candidates_from_rows (
    take limit (
      sort_by newest_first (
        map asset_of
          (keep (is_candidate f.include_videos) (joined f.peer_id t.sent_log t.local_assets)))))

-- `COUNT(*) FILTER (WHERE p)`
abbrev pub count {ℓ} : {A : Type ℓ} → (A → Bool) → List A → ℕ
count p rows = length (keep p rows)

-- `counters`
unfoldable pub counters : Db → FilterArgs → LibraryCounters
unfolding joined is_candidate
counters t f =
    (let rows = joined f.peer_id t.sent_log t.local_assets in
      record {
        total = length rows;
        hashing = count (λ (x : AssetRow × Option SentRow). is_null (asset_of x).quick_hash) rows;
        remaining = count (is_candidate f.include_videos) rows;
        not_on_device = count (λ (x : AssetRow × Option SentRow). not (asset_of x).is_local) rows;
      })
