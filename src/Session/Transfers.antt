-- ===== src/Session/Transfers.antt =====
-- The assets in flight of crates/core/src/session.rs.
use text.Mathlib.Text.{◌==◌ as str_eq}
use photosync.Prelude.{
  ℕ, ◌+◌, ◌%◌, ◌^◌, Bool, ◌&&◌, Option, none, some, List, [], ◌∷◌, ◌++◌, String, ltb, any,
  find as find_row, keep, update_where, delete_where, sort_by, if◌then◌else◌, ◌==◌,
}
use photosync.Prelude.Int.{pos, max_ℤ, ◌+ℤ◌, to_i64, from_i64}
use photosync.Errors.{Error, foreign_key, no_rows, corrupt_row, Result, ok, err, ◌>>=◌}
use photosync.Model.{
  TransferState, queued, transferring, committed, skipped_already_present, failed,
  transfer_state_str, parse_transfer_state,
}
use photosync.Db.{Db, SessionRow, TransferRow, has_session, has_asset}
use photosync.Session.{Transfer, max_asset_attempts, is_session}

abbrev transfer_of : TransferRow → TransferState → Transfer
transfer_of r state = record {
  session_id = r.session_id;
  local_asset_id = r.local_asset_id;
  state = state;
  bytes_transferred = from_i64 r.bytes_transferred;
  total_bytes = from_i64 r.total_bytes;
  retry_count = r.retry_count % 2 ^ 32;
}

-- `transfer_from_row`
unfoldable pub transfer_from_row : TransferRow → Result Transfer
transfer_from_row r = elim (parse_transfer_state r.state) [
  | none ↦ err (corrupt_row "transfer" "state")
  | some state ↦ ok (transfer_of r state)
]

-- `WHERE session_id = ? AND local_asset_id = ?`
abbrev pub is_row : String → ℕ → TransferRow → Bool
is_row sid aid r = str_eq r.session_id sid && (r.local_asset_id == aid)

abbrev pub read_row : Option TransferRow → Result (Option Transfer)
read_row none = ok none
read_row (some r) = transfer_from_row r >>= λ x. ok (some x)

-- `find`
unfoldable pub find : Db → String → ℕ → Result (Option Transfer)
unfolding transfer_from_row
find t sid aid = read_row (find_row (is_row sid aid) t.transfers)

abbrev pub queued_row : String → ℕ → ℕ → ℕ → TransferRow
queued_row sid aid total now = record {
  session_id = sid;
  local_asset_id = aid;
  state = transfer_state_str queued;
  bytes_transferred = pos 0;
  total_bytes = to_i64 total;
  retry_count = 0;
  error_code = none;
  updated_at = now;
}

-- `INSERT … ON CONFLICT(session_id, local_asset_id) DO NOTHING`
unfoldable pub insert_row : Db → String → ℕ → ℕ → ℕ → Result Db
insert_row t sid aid total now =
    if any (is_row sid aid) t.transfers
    then ok t
    else if has_session t sid && has_asset t aid
    then ok (record t { transfers = t.transfers ++ (queued_row sid aid total now ∷ []) })
    else err (Error.db foreign_key)

abbrev or_vanished : Db → Option Transfer → Result (Transfer × Db)
or_vanished t (some x) = ok (x, t)
or_vanished t none = err (corrupt_row "transfer" "-")

-- `enqueue`
unfoldable pub enqueue : Db → String → ℕ → ℕ → ℕ → Result (Transfer × Db)
unfolding insert_row find
enqueue t sid aid total now =
    insert_row t sid aid total now >>= λ t'. find t' sid aid >>= or_vanished t'

unfoldable pub read_all : List TransferRow → Result (List Transfer)
read_all [] = ok []
read_all (r ∷ rows) = transfer_from_row r >>= λ x. read_all rows >>= λ xs. ok (x ∷ xs)

-- `in_flight`: oldest first.
unfoldable pub in_flight : Db → String → Result (List Transfer)
unfolding read_all
in_flight t sid = read_all (
    sort_by (λ a b. ltb a.updated_at b.updated_at)
      (keep (λ (r : TransferRow). str_eq r.session_id sid) t.transfers))

-- `advance`
unfoldable pub advance : Db → String → ℕ → ℕ → ℕ → Db
advance t sid aid bytes now = record t {
  transfers =
      update_where (is_row sid aid)
        (λ r. record r {
          state = transfer_state_str transferring;
          bytes_transferred = max_ℤ r.bytes_transferred (to_i64 bytes);
          updated_at = now;
        })
        t.transfers;
}

abbrev pub failed_attempt : String → ℕ → TransferRow → TransferRow
failed_attempt code now r = record r {
  state = transfer_state_str queued;
  bytes_transferred = pos 0;
  retry_count = r.retry_count + 1;
  error_code = some code;
  updated_at = now;
}

abbrev may_retry : Db → Option TransferRow → Result (Bool × Db)
may_retry t none = err (Error.db no_rows)
may_retry t (some r) = ok (ltb (r.retry_count % 2 ^ 32) max_asset_attempts, t)

-- `record_attempt_failure`: the statement returns the count of the row that it updated.
unfoldable pub record_attempt_failure : Db → String → ℕ → String → ℕ → Result (Bool × Db)
record_attempt_failure t sid aid code now =
    (let rows = update_where (is_row sid aid) (failed_attempt code now) t.transfers in
      may_retry (record t { transfers = rows }) (find_row (is_row sid aid) rows))

-- The counters that an outcome adds to.
abbrev pub credit : TransferState → ℕ × ℕ × ℕ
credit committed = (1, 0, 0)
credit skipped_already_present = (0, 1, 0)
credit failed = (0, 0, 1)
credit _ = (0, 0, 0)

abbrev pub settled_row : TransferState → ℕ → SessionRow → SessionRow
settled_row outcome bytes r = record r {
  items_done = r.items_done +ℤ pos (credit outcome).0;
  items_skipped = r.items_skipped +ℤ pos (credit outcome).1;
  items_failed = r.items_failed +ℤ pos (credit outcome).2;
  bytes_done = r.bytes_done +ℤ to_i64 bytes;
}

-- `settle`
unfoldable pub settle : Db → String → ℕ → TransferState → ℕ → Db
settle t sid aid outcome bytes = record t {
  sessions = update_where (is_session sid) (settled_row outcome bytes) t.sessions;
  transfers = delete_where (is_row sid aid) t.transfers;
}
