-- ===== src/Inbound.antt =====
-- crates/core/src/inbound.rs: what the receiver holds, and how far each asset in flight has come.
pub mod Have
pub mod Offsets
pub mod Runs
use text.Mathlib.Text.{◌==◌ as str_eq}
use photosync.Prelude.{
  ℕ, ◌+◌, Bool, true, false, ◌&&◌, Option, none, some, List, [], ◌∷◌, ◌++◌, map, String, ltb, any,
  find as find_row, keep, update_where, delete_where, sort_by, if◌then◌else◌,
}
use photosync.Prelude.Int.{ℤ, pos, max_ℤ, to_i64, from_i64}
use photosync.Prelude.Bytes.{Bytes, bytes_eq}
use photosync.Errors.{Error, foreign_key, corrupt_row, Result, ok, err, ◌>>=◌}
use photosync.Model.{Hash32, from_slice, HaveVerdict, send, skip, probable}
use photosync.Db.{Db, ReceivedRow, InboundRow, has_session, has_peer}

pub record HaveQueryItem : Type 0 where
  pub id : ℕ
  pub quick_hash : Hash32
  pub full_hash : Option Hash32

pub record HaveResponseItem : Type 0 where
  pub id : ℕ
  pub verdict : HaveVerdict

-- `SELECT 1 FROM received_asset WHERE full_hash = ?1`; the table's key is the full hash.
unfoldable pub holds_full_hash : Db → Hash32 → Bool
holds_full_hash t full = any (λ r. bytes_eq r.full_hash full.bytes) t.received_assets

-- `SELECT 1 FROM received_asset WHERE quick_hash = ?1 LIMIT 1`
unfoldable pub holds_quick_hash : Db → Hash32 → Bool
holds_quick_hash t quick = any (λ r. bytes_eq r.quick_hash quick.bytes) t.received_assets

-- The `match` of `answer_have_query`.
unfoldable pub verdict_of : Db → Hash32 → Option Hash32 → HaveVerdict
verdict_of t quick (some full) = if holds_full_hash t full then skip else send
verdict_of t quick none = if holds_quick_hash t quick then probable else send

-- One round of its loop.
unfoldable pub answer_item : Db → HaveQueryItem → HaveResponseItem
unfolding verdict_of
answer_item t item = record { id = item.id; verdict = verdict_of t item.quick_hash item.full_hash }

unfoldable pub answer_have_query : Db → List HaveQueryItem → List HaveResponseItem
unfolding answer_item
answer_have_query t [] = []
answer_have_query t (item ∷ batch) = answer_item t item ∷ answer_have_query t batch

abbrev pub coalesce {ℓ} : {A : Type ℓ} → Option A → Option A → Option A
coalesce (some a) old = some a
coalesce none old = old

-- A row that `record_received` inserts, and the one that a conflict leaves.
abbrev pub received_row : Hash32 → Hash32 → ℕ → Option String → Option ℕ → ℕ → ReceivedRow
received_row full quick size pid peer now = record {
  full_hash = full.bytes;
  quick_hash = quick.bytes;
  size = to_i64 size;
  platform_asset_id = pid;
  peer_id = peer;
  received_at = now;
}

-- A NULL reference is allowed.
abbrev pub peer_exists : Db → Option ℕ → Bool
peer_exists t none = true
peer_exists t (some id) = has_peer t id

-- `record_received`
unfoldable pub record_received : Db → Hash32 → Hash32 → ℕ → Option String → Option ℕ → ℕ → Result Db
unfolding holds_full_hash
record_received t full quick size pid peer now =
    if holds_full_hash t full
    then ok (record t {
      received_assets =
          update_where (λ r. bytes_eq r.full_hash full.bytes)
            (λ r. record r {
              platform_asset_id = coalesce pid r.platform_asset_id;
              received_at = now;
            })
            t.received_assets;
    })
    else if peer_exists t peer
    then ok (record t {
      received_assets = t.received_assets ++ (received_row full quick size pid peer now ∷ []);
    })
    else err (Error.db foreign_key)

pub record InboundState : Type 0 where
  pub session_id : String
  pub quick_hash : Hash32
  pub staging_ref : String
  pub bytes_received : ℕ
  pub total_bytes : ℕ

-- `inbound_from_row`
unfoldable pub inbound_from_row : InboundRow → Result InboundState
inbound_from_row r = elim (from_slice r.quick_hash) [
  | none ↦ err (corrupt_row "inbound_transfer" "quick_hash")
  | some quick ↦ ok (record {
    session_id = r.session_id;
    quick_hash = quick;
    staging_ref = r.staging_ref;
    bytes_received = from_i64 r.bytes_received;
    total_bytes = from_i64 r.total_bytes;
  })
]

-- `WHERE session_id = ? AND quick_hash = ?`
abbrev pub is_row : String → Hash32 → InboundRow → Bool
is_row sid quick r = str_eq r.session_id sid && bytes_eq r.quick_hash quick.bytes

abbrev pub read_row : Option InboundRow → Result (Option InboundState)
read_row none = ok none
read_row (some r) = elim (inbound_from_row r) [ ok s ↦ ok (some s) | err e ↦ err e ]

-- `find`
unfoldable pub find : Db → String → Hash32 → Result (Option InboundState)
unfolding inbound_from_row
find t sid quick = read_row (find_row (is_row sid quick) t.inbound_transfers)

abbrev pub new_row : String → Hash32 → String → ℕ → ℕ → InboundRow
new_row sid quick ref total now = record {
  session_id = sid;
  quick_hash = quick.bytes;
  staging_ref = ref;
  bytes_received = pos 0;
  total_bytes = to_i64 total;
  updated_at = now;
}

abbrev or_vanished : Db → Result (Option InboundState) → Result (InboundState × Db)
or_vanished t (ok (some s)) = ok (s, t)
or_vanished t (ok none) = err (corrupt_row "inbound_transfer" "-")
or_vanished t (err e) = err e

-- `INSERT … ON CONFLICT(session_id, quick_hash) DO NOTHING`
unfoldable pub insert_row : Db → String → Hash32 → String → ℕ → ℕ → Result Db
insert_row t sid quick ref total now =
    if any (is_row sid quick) t.inbound_transfers
    then ok t
    else if has_session t sid
    then ok (record t {
      inbound_transfers = t.inbound_transfers ++ (new_row sid quick ref total now ∷ []);
    })
    else err (Error.db foreign_key)

-- `open`
unfoldable pub open_transfer : Db → String → Hash32 → String → ℕ → ℕ → Result (InboundState × Db)
unfolding insert_row find
open_transfer t sid quick ref total now =
    insert_row t sid quick ref total now >>= λ t'. or_vanished t' (find t' sid quick)

read_all : List InboundRow → Result (List InboundState)
unfolding inbound_from_row
read_all [] = ok []
read_all (r ∷ rows) = elim (inbound_from_row r) [
  | ok s ↦ read_all rows >>= λ rest. ok (s ∷ rest)
  | err e ↦ err e
]

-- `in_flight`: oldest first.
unfoldable pub in_flight : Db → String → Result (List InboundState)
unfolding read_all
in_flight t sid = read_all (
    sort_by (λ a b. ltb a.updated_at b.updated_at)
      (keep (λ r. str_eq r.session_id sid) t.inbound_transfers))

-- `advance`
unfoldable pub advance : Db → String → Hash32 → ℕ → ℕ → Db
advance t sid quick bytes now = record t {
  inbound_transfers =
      update_where (is_row sid quick)
        (λ r. record r { bytes_received = max_ℤ r.bytes_received (to_i64 bytes); updated_at = now })
        t.inbound_transfers;
}

-- `reset`
unfoldable pub reset : Db → String → Hash32 → ℕ → Db
reset t sid quick now = record t {
  inbound_transfers =
      update_where (is_row sid quick) (λ r. record r { bytes_received = pos 0; updated_at = now })
        t.inbound_transfers;
}

-- `close`
unfoldable pub close : Db → String → Hash32 → Db
close t sid quick = record t {
  inbound_transfers = delete_where (is_row sid quick) t.inbound_transfers;
}
