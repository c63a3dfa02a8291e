-- ===== src/Catalog/Peers.antt =====
-- Peers and the confirmed-sent index of crates/core/src/catalog.rs. The row id that SQLite gives a new
-- peer is an argument.
use photosync.Prelude.{
  ℕ, Bool, false, ◌&&◌, Option, none, some, [], ◌∷◌, ◌++◌, String, any, find, update_where,
  delete_where, if◌then◌else◌, ◌==◌,
}
use photosync.Prelude.Bytes.{bytes_eq}
use photosync.Errors.{Error, foreign_key, Result, ok, err}
use photosync.Model.{Hash32}
use photosync.Db.{Db, PeerRow, SessionRow, SentRow, ReceivedRow, has_peer}

abbrev pub coalesce {ℓ} : {A : Type ℓ} → Option A → Option A → Option A
coalesce (some a) old = some a
coalesce none old = old

abbrev pub is_fingerprint : Hash32 → PeerRow → Bool
is_fingerprint fp r = bytes_eq r.cert_fingerprint fp.bytes

abbrev pub new_peer : Hash32 → Option String → Option String → ℕ → ℕ → PeerRow
new_peer fp name platform fresh now = record {
  id = fresh;
  cert_fingerprint = fp.bytes;
  device_name = name;
  platform = platform;
  paired_at = now;
  last_seen_at = now;
}

abbrev pub refreshed_peer : Option String → Option String → ℕ → PeerRow → PeerRow
refreshed_peer name platform now r = record r {
  device_name = coalesce name r.device_name;
  platform = coalesce platform r.platform;
  last_seen_at = now;
}

abbrev insert_or_refresh :
    Db → Hash32 → Option String → Option String → ℕ → ℕ → Option PeerRow → ℕ × Db
insert_or_refresh t fp name platform fresh now none =
    (fresh, record t { peers = t.peers ++ (new_peer fp name platform fresh now ∷ []) })
insert_or_refresh t fp name platform fresh now (some r) = (
  r.id,
  record t { peers = update_where (is_fingerprint fp) (refreshed_peer name platform now) t.peers },
)

-- `upsert_peer`
unfoldable pub upsert_peer : Db → Hash32 → Option String → Option String → ℕ → ℕ → ℕ × Db
upsert_peer t fp name platform fresh now =
    insert_or_refresh t fp name platform fresh now (find (is_fingerprint fp) t.peers)

abbrev is_peer : ℕ → Option ℕ → Bool
is_peer id none = false
is_peer id (some other) = other == id

-- `forget_peer`, with the actions the schema gives its deletion.
unfoldable pub forget_peer : Db → ℕ → Db
forget_peer t id = record t {
  peers = delete_where (λ (r : PeerRow). r.id == id) t.peers;
  sessions =
      update_where (λ (r : SessionRow). is_peer id r.peer_id) (λ r. record r { peer_id = none })
        t.sessions;
  sent_log = delete_where (λ (r : SentRow). r.peer_id == id) t.sent_log;
  received_assets =
      update_where (λ (r : ReceivedRow). is_peer id r.peer_id) (λ r. record r { peer_id = none })
        t.received_assets;
}

-- `WHERE peer_id = ? AND full_hash = ?`
abbrev pub is_sent : ℕ → Hash32 → SentRow → Bool
is_sent peer full r = (r.peer_id == peer) && bytes_eq r.full_hash full.bytes

abbrev pub sent_row : ℕ → Hash32 → Hash32 → ℕ → SentRow
sent_row peer full quick now = record {
  peer_id = peer;
  full_hash = full.bytes;
  quick_hash = quick.bytes;
  sent_at = now;
}

-- `mark_sent`
unfoldable pub mark_sent : Db → ℕ → Hash32 → Hash32 → ℕ → Result Db
mark_sent t peer full quick now =
    if any (is_sent peer full) t.sent_log
    then ok (record t {
      sent_log =
          update_where (is_sent peer full)
            (λ r. record r { quick_hash = quick.bytes; sent_at = now }) t.sent_log;
    })
    else if has_peer t peer
    then ok (record t { sent_log = t.sent_log ++ (sent_row peer full quick now ∷ []) })
    else err (Error.db foreign_key)

-- `was_sent`
unfoldable pub was_sent : Db → ℕ → Hash32 → Bool
was_sent t peer full = any (is_sent peer full) t.sent_log
