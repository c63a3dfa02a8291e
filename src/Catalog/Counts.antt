-- ===== src/Catalog/Counts.antt =====
-- How `candidates` and `counters` of crates/core/src/catalog.rs agree, and what the LEFT JOIN selects.
use text.Mathlib.Text.{◌==◌ as str_eq}
use photosync.Prelude.{
  ℕ, suc, ◌≡◌, refl, ◌∙◌, ap, sym, Bool, ◌&&◌, ◌||◌, not, some, List, [], ◌∷◌, map, arith, any,
  keep, take, length, length-take, min, sort_by, inl, inr,
}
use photosync.Prelude.Rows.{
  keep-append, any-keep_none, any-keep_some, List-cases, map-append, length-map, keep-map_none,
  length-sort_by,
}
use photosync.Errors.{ok, ok-injective, Result-cases}
use photosync.Db.{Db, AssetRow, SentRow}
use photosync.Catalog.Assets.{is_null, newest_first}
use photosync.Catalog.Backlog.{
  FilterArgs, Candidate, is_match, joined, or_unmatched, asset_of, is_candidate, candidate_from_row,
  candidates_from_rows, candidates, counters,
}

-- An asset is left to send: hashed, on the device, not yet confirmed by this peer, and of a kind that
-- the filter lets through.
unfoldable pub is_left : Db → FilterArgs → AssetRow → Bool
is_left t f r =
    not (is_null r.quick_hash)
    && r.is_local
    && not (any (is_match f.peer_id r) t.sent_log)
    && (f.include_videos || str_eq r.media_type "image")

keep-or_unmatched :
    (t : Db) (f : FilterArgs) (r : AssetRow)
    → map asset_of (
        keep
          (is_candidate f.include_videos)
          (or_unmatched r (keep (is_match f.peer_id r) t.sent_log)))
      ≡ keep (is_left t f) (r ∷ [])
unfolding is_candidate is_left
keep-or_unmatched t f r = elim (List-cases (keep (is_match f.peer_id r) t.sent_log)) [
  | inl e ↦ ground (arith, e, any-keep_none (is_match f.peer_id r) t.sent_log e)
  | inr (y, ys, e) ↦
      ap
        (λ (xs : List SentRow).
          map asset_of (keep (is_candidate f.include_videos) (or_unmatched r xs)))
        e
      ∙ ap (map asset_of) (
          keep-map_none (is_candidate f.include_videos) (λ (x : SentRow). (r, some x)) (y ∷ ys)
            (λ x. ground arith))
      ∙ ground (arith, any-keep_some (is_match f.peer_id r) t.sent_log y ys e)
]

keep-joined :
    (t : Db) (f : FilterArgs) (rows : List AssetRow)
    → map asset_of (keep (is_candidate f.include_videos) (joined f.peer_id t.sent_log rows))
      ≡ keep (is_left t f) rows
unfolding joined
keep-joined t f [] = refl
keep-joined t f (r ∷ rows) =
    ap (map asset_of) (
      keep-append (is_candidate f.include_videos)
        (or_unmatched r (keep (is_match f.peer_id r) t.sent_log))
        (joined f.peer_id t.sent_log rows))
    ∙ map-append asset_of
        (keep (is_candidate f.include_videos)
          (or_unmatched r (keep (is_match f.peer_id r) t.sent_log)))
        (keep (is_candidate f.include_videos) (joined f.peer_id t.sent_log rows))
    ∙ rw (keep-or_unmatched t f r, keep-joined t f rows)
        (sym (keep-append (is_left t f) (r ∷ []) rows))

-- The candidates are the rows that are left to send, newest first, up to the limit: the LEFT JOIN with
-- its NULL test selects exactly the rows without a confirmation under their own full hash.
pub candidates-is_left :
    (t : Db) (f : FilterArgs) (limit : ℕ)
    → candidates t f limit
      ≡ candidates_from_rows (take limit (sort_by newest_first (keep (is_left t f) t.local_assets)))
unfolding candidates
candidates-is_left t f limit =
    ap (λ rows. candidates_from_rows (take limit (sort_by newest_first rows)))
      (keep-joined t f t.local_assets)

length-candidates_from_rows :
    (rows : List AssetRow) (cs : List Candidate)
    → candidates_from_rows rows ≡ ok cs
    → length cs ≡ length rows
unfolding candidates_from_rows
length-candidates_from_rows [] cs e = ap length (sym (ok-injective _ _ e))
length-candidates_from_rows (r ∷ rows) cs e = elim (Result-cases (candidate_from_row r)) [
  | inr (x, bad) ↦ cc (rw (bad, candidates_from_rows) at e)
  | inl (c, good) ↦ elim (Result-cases (candidates_from_rows rows)) [
    | inr (x, bad) ↦ cc (rw (good, bad, candidates_from_rows) at e)
    | inl (rest, some_rest) ↦
        ap length (sym (ok-injective _ _ (rw (good, some_rest, candidates_from_rows) at e)))
        ∙ ap suc (length-candidates_from_rows rows rest some_rest)
  ]
]

counters-remaining :
    (t : Db) (f : FilterArgs)
    → (counters t f).remaining ≡ length (keep (is_left t f) t.local_assets)
unfolding counters
counters-remaining t f =
    sym (
      length-map asset_of
        (keep (is_candidate f.include_videos) (joined f.peer_id t.sent_log t.local_assets)))
    ∙ ap length (keep-joined t f t.local_assets)

-- The progress counter and the backlog agree: a page of candidates, if its rows can be read, holds
-- as many as the counter says remain, up to the page's limit.
pub length-candidates :
    (t : Db) (f : FilterArgs) (limit : ℕ) (cs : List Candidate)
    → candidates t f limit ≡ ok cs
    → length cs ≡ min limit (counters t f).remaining
length-candidates t f limit cs e =
    length-candidates_from_rows
      (take limit (sort_by newest_first (keep (is_left t f) t.local_assets))) cs
      (sym (candidates-is_left t f limit) ∙ e)
    ∙ length-take limit (sort_by newest_first (keep (is_left t f) t.local_assets))
    ∙ ap (min limit) (
        length-sort_by newest_first (keep (is_left t f) t.local_assets)
        ∙ sym (counters-remaining t f))
