-- ===== src/Catalog/Sent.antt =====
-- The confirmed-sent index of crates/core/src/catalog.rs: what a confirmation changes, and for whom.
use photosync.Prelude.{
  ℕ, ◌≡◌, refl, ◌∙◌, ap, sym, Bool, true, false, ◌&&◌, ◌||◌, not, some, List, [], ◌∷◌, arith, any,
  Bool-cases, inl, inr, ◌==◌,
}
use photosync.Prelude.Bytes.{bytes_eq_iff}
use photosync.Prelude.Rows.{any-append, any-update_where, any_mono, any-update_where_none}
use photosync.Errors.{ok, ok-injective}
use photosync.Model.{Hash32, hash_eq}
use photosync.Db.{Db, AssetRow, SentRow, has_peer}
use photosync.Catalog.Peers.{is_sent, sent_row, mark_sent, was_sent}
use photosync.Catalog.Assets.{set_full_hash}
use photosync.Catalog.Backlog.{FilterArgs, same_hash, is_match}
use photosync.Catalog.Counts.{is_left}

or-known : (a b : Bool) → (a ≡ true → b ≡ true) → b ≡ (a || b)
or-known true b h = h refl
or-known false b h = refl

or-last : (a b : Bool) → (b || (a || false)) ≡ (a || b)
or-last true b = ground arith
or-last false b = ground arith

-- A confirmation, seen by any test of the key columns.
any-mark_sent :
    (t t' : Db) (peer : ℕ) (full quick : Hash32) (now : ℕ) (q : SentRow → Bool)
    → ((x : SentRow) (b : List ℕ) (n : ℕ) → q (record x { quick_hash = b; sent_at = n }) ≡ q x)
    → ((x : SentRow)
        → is_sent peer full x ≡ true
        → q (sent_row peer full quick now) ≡ true
        → q x ≡ true)
    → mark_sent t peer full quick now ≡ ok t'
    → any q t'.sent_log ≡ (q (sent_row peer full quick now) || any q t.sent_log)
unfolding mark_sent
any-mark_sent t t' peer full quick now q kept same e =
    elim (Bool-cases (any (is_sent peer full) t.sent_log)) [
      | inl known ↦
          ap (λ (x : Db). any q x.sent_log) (sym (ok-injective _ _ (rw known at e)))
          ∙ any-update_where (is_sent peer full) q
              (λ r. record r { quick_hash = quick.bytes; sent_at = now }) t.sent_log
              (λ x. kept x quick.bytes now)
          ∙ or-known (q (sent_row peer full quick now)) (any q t.sent_log)
              (λ hit. any_mono (is_sent peer full) q t.sent_log (λ x h. same x h hit) known)
      | inr new ↦ elim (Bool-cases (has_peer t peer)) [
        | inl there ↦
            ap (λ (x : Db). any q x.sent_log) (sym (ok-injective _ _ (rw (new, there) at e)))
            ∙ any-append q t.sent_log (sent_row peer full quick now ∷ [])
            ∙ or-last (q (sent_row peer full quick now)) (any q t.sent_log)
        | inr missing ↦ cc (rw (new, missing) at e)
      ]
    ]

is_sent_same :
    (peer other : ℕ) (full g : Hash32) (x r : SentRow)
    → is_sent peer full x ≡ true
    → is_sent peer full r ≡ true
    → is_sent other g r ≡ true
    → is_sent other g x ≡ true
is_sent_same peer other full g x r a b c = ground (
  arith,
  bytes_eq_iff x.full_hash full.bytes,
  bytes_eq_iff r.full_hash full.bytes,
  bytes_eq_iff r.full_hash g.bytes,
  bytes_eq_iff x.full_hash g.bytes,
)

is_sent-sent_row :
    (peer : ℕ) (full quick : Hash32) (now : ℕ)
    → is_sent peer full (sent_row peer full quick now) ≡ true
is_sent-sent_row peer full quick now = ground (arith, bytes_eq_iff full.bytes full.bytes)

-- After a confirmation that is accepted, a peer is known to hold what it was known to hold before
-- and that content, and no other peer is known to hold anything more.
pub was_sent-mark_sent :
    (t t' : Db) (peer other : ℕ) (full quick g : Hash32) (now : ℕ)
    → mark_sent t peer full quick now ≡ ok t'
    → was_sent t' other g ≡ (((peer == other) && hash_eq full g) || was_sent t other g)
unfolding was_sent hash_eq
was_sent-mark_sent t t' peer other full quick g now e =
    any-mark_sent t t' peer full quick now (is_sent other g) (λ x b n. refl)
      (λ x h hit.
        is_sent_same peer other full g x (sent_row peer full quick now) h
          (is_sent-sent_row peer full quick now) hit)
      e

is_sent-peer :
    (peer : ℕ) (full : Hash32) (x : SentRow) → is_sent peer full x ≡ true → x.peer_id ≡ peer
is_sent-peer peer full x h = ground arith

is_sent-hash :
    (peer : ℕ) (full : Hash32) (x : SentRow) → is_sent peer full x ≡ true → x.full_hash ≡ full.bytes
is_sent-hash peer full x h = ground (arith, bytes_eq_iff x.full_hash full.bytes)

-- Whether a row joins a library row depends on its key columns alone.
is_match_key :
    (peer other : ℕ) (full : Hash32) (la : AssetRow) (x : SentRow)
    → is_sent peer full x ≡ true
    → is_match other la x ≡ ((peer == other) && same_hash full.bytes la.full_hash)
unfolding is_match
is_match_key peer other full la x h =
    ap (λ p. (p == other) && same_hash x.full_hash la.full_hash) (is_sent-peer peer full x h)
    ∙ ap (λ b. (peer == other) && same_hash b la.full_hash) (is_sent-hash peer full x h)

any-match-mark_sent :
    (t t' : Db) (other peer : ℕ) (full quick : Hash32) (now : ℕ) (r : AssetRow)
    → mark_sent t peer full quick now ≡ ok t'
    → any (is_match other r) t'.sent_log
      ≡ (((peer == other) && same_hash full.bytes r.full_hash) || any (is_match other r) t.sent_log)
unfolding is_match
any-match-mark_sent t t' other peer full quick now r e =
    any-mark_sent t t' peer full quick now (is_match other r) (λ x b n. refl)
      (λ x h hit.
        is_match_key peer other full r x h
        ∙ sym (
            is_match_key peer other full r (sent_row peer full quick now)
              (is_sent-sent_row peer full quick now))
        ∙ hit)
      e

-- A confirmation that is accepted takes out of a peer's backlog exactly the rows whose own full hash
-- is the confirmed one: rows of no known full hash stay, whatever their quick hash, and so do other
-- peers' backlogs.
pub is_left-mark_sent :
    (t t' : Db) (f : FilterArgs) (peer : ℕ) (full quick : Hash32) (now : ℕ) (r : AssetRow)
    → mark_sent t peer full quick now ≡ ok t'
    → is_left t' f r
      ≡ (is_left t f r && not ((peer == f.peer_id) && same_hash full.bytes r.full_hash))
unfolding is_left
is_left-mark_sent t t' f peer full quick now r e =
    ground (arith, any-match-mark_sent t t' f.peer_id peer full quick now r e)

local_assets-mark_sent :
    (t t' : Db) (peer : ℕ) (full quick : Hash32) (now : ℕ)
    → mark_sent t peer full quick now ≡ ok t'
    → t'.local_assets ≡ t.local_assets
unfolding mark_sent
local_assets-mark_sent t t' peer full quick now e =
    elim (Bool-cases (any (is_sent peer full) t.sent_log)) [
      | inl known ↦ ap (λ (x : Db). x.local_assets) (sym (ok-injective _ _ (rw known at e)))
      | inr new ↦ elim (Bool-cases (has_peer t peer)) [
        | inl there ↦
            ap (λ (x : Db). x.local_assets) (sym (ok-injective _ _ (rw (new, there) at e)))
        | inr missing ↦ cc (rw (new, missing) at e)
      ]
    ]

-- After the sender's two writes for a delivered asset, if the confirmation is accepted, no row of
-- that asset is left in the peer's backlog.
pub is_left_delivered :
    (t t' : Db) (f : FilterArgs) (id : ℕ) (full quick : Hash32) (now : ℕ)
    → mark_sent (set_full_hash t id full) f.peer_id full quick now ≡ ok t'
    → any (λ r. (r.id == id) && is_left t' f r) t'.local_assets ≡ false
unfolding set_full_hash
is_left_delivered t t' f id full quick now e =
    ap (any (λ r. (r.id == id) && is_left t' f r))
      (local_assets-mark_sent (set_full_hash t id full) t' f.peer_id full quick now e)
    ∙ any-update_where_none (λ (r : AssetRow). r.id == id) (λ r. (r.id == id) && is_left t' f r)
        (λ r. record r { full_hash = some full.bytes }) t.local_assets
        (λ r h. confirmed (record r { full_hash = some full.bytes }) refl) (λ r h. ground arith)
  where
    confirmed :
        (r : AssetRow) → r.full_hash ≡ some full.bytes → ((r.id == id) && is_left t' f r) ≡ false
    confirmed r h = ground (
      arith,
      is_left-mark_sent (set_full_hash t id full) t' f f.peer_id full quick now r e,
      h,
      bytes_eq_iff full.bytes full.bytes,
    )
