-- ===== src/Session.antt =====
-- crates/core/src/session.rs: sessions, and the assets in flight. The uuid of a new session and the
-- time are arguments.
pub mod Transfers
pub mod Settling
pub mod Lifecycle
use text.Mathlib.Text.{◌==◌ as str_eq}
use photosync.Prelude.{
  ℕ, ◌+◌, ◌%◌, Bool, true, false, ◌&&◌, Option, none, some, List, [], ◌∷◌, ◌++◌, String, ltb, any,
  find as find_row, keep, length, update_where, delete_where, sort_by, if◌then◌else◌, ◌==◌, ◌^◌,
}
use photosync.Prelude.Int.{ℤ, pos, max_ℤ, to_i64, from_i64}
use photosync.Errors.{
  Error, foreign_key, unique_failed, no_rows, corrupt_row, Result, ok, err, ◌>>=◌,
}
use photosync.Model.{
  SessionRole, session_role_str, parse_session_role, SessionState, active, interrupted,
  session_state_str, parse_session_state, TransferState, queued, transferring, committed,
  skipped_already_present, failed, transfer_state_str, parse_transfer_state,
}
use photosync.Db.{Db, SessionRow, TransferRow, has_session, has_peer, has_asset}

pub record Session : Type 0 where
  pub id : String
  pub role : SessionRole
  pub peer_id : Option ℕ
  pub state : SessionState
  pub started_at : ℕ
  pub finished_at : Option ℕ
  pub items_total : ℕ
  pub items_done : ℕ
  pub items_skipped : ℕ
  pub items_failed : ℕ
  pub bytes_total : ℕ
  pub bytes_done : ℕ

-- `Session::items_settled` and `Session::items_progress`
unfoldable pub items_settled : Session → ℕ
items_settled s = s.items_done + s.items_skipped + s.items_failed

unfoldable pub items_progress : Session → ℕ
items_progress s = s.items_done + s.items_skipped

pub record Transfer : Type 0 where
  pub session_id : String
  pub local_asset_id : ℕ
  pub state : TransferState
  pub bytes_transferred : ℕ
  pub total_bytes : ℕ
  pub retry_count : ℕ

abbrev pub max_asset_attempts : ℕ
max_asset_attempts = 3

abbrev pub peer_exists : Db → Option ℕ → Bool
peer_exists t none = true
peer_exists t (some id) = has_peer t id

abbrev pub is_session : String → SessionRow → Bool
is_session sid r = str_eq r.id sid

abbrev pub new_session : String → SessionRole → Option ℕ → ℕ → ℕ → ℕ → SessionRow
new_session id role peer items bytes now = record {
  id = id;
  role = session_role_str role;
  peer_id = peer;
  state = session_state_str active;
  started_at = now;
  finished_at = none;
  items_total = to_i64 items;
  items_done = pos 0;
  items_skipped = pos 0;
  items_failed = pos 0;
  bytes_total = to_i64 bytes;
  bytes_done = pos 0;
}

abbrev pub begun : String → SessionRole → Option ℕ → ℕ → ℕ → ℕ → Session
begun id role peer items bytes now = record {
  id = id;
  role = role;
  peer_id = peer;
  state = active;
  started_at = now;
  finished_at = none;
  items_total = items;
  items_done = 0;
  items_skipped = 0;
  items_failed = 0;
  bytes_total = bytes;
  bytes_done = 0;
}

-- `begin`
unfoldable pub begin : Db → String → SessionRole → Option ℕ → ℕ → ℕ → ℕ → Result (Session × Db)
begin t id role peer items bytes now =
    if any (is_session id) t.sessions
    then err (Error.db unique_failed)
    else if peer_exists t peer
    then ok (
      begun id role peer items bytes now,
      record t { sessions = t.sessions ++ (new_session id role peer items bytes now ∷ []) },
    )
    else err (Error.db foreign_key)

-- The `matches!` of `set_state`.
unfoldable pub is_finished : SessionState → Bool
is_finished SessionState.done = true
is_finished SessionState.cancelled = true
is_finished interrupted = true
is_finished active = false

-- `set_state`
unfoldable pub set_state : Db → String → SessionState → ℕ → Db
unfolding is_finished
set_state t sid state now = record t {
  sessions =
      update_where (is_session sid)
        (λ r. record r {
          state = session_state_str state;
          finished_at = if is_finished state then some now else r.finished_at;
        })
        t.sessions;
}

abbrev pub is_in : SessionState → SessionRow → Bool
is_in state r = str_eq r.state (session_state_str state)

-- `sweep_stale_active`
unfoldable pub sweep_stale_active : Db → ℕ → ℕ × Db
sweep_stale_active t now = (
  length (keep (is_in active) t.sessions),
  record t {
    sessions =
        update_where (is_in active)
          (λ r. record r { state = session_state_str interrupted; finished_at = some now })
          t.sessions;
  },
)

abbrev session_of : SessionRow → SessionRole → SessionState → Session
session_of r role state = record {
  id = r.id;
  role = role;
  peer_id = r.peer_id;
  state = state;
  started_at = r.started_at;
  finished_at = r.finished_at;
  items_total = from_i64 r.items_total;
  items_done = from_i64 r.items_done;
  items_skipped = from_i64 r.items_skipped;
  items_failed = from_i64 r.items_failed;
  bytes_total = from_i64 r.bytes_total;
  bytes_done = from_i64 r.bytes_done;
}

-- `session_from_row`
unfoldable pub session_from_row : SessionRow → Result Session
session_from_row r = elim (parse_session_role r.role) [
  | none ↦ err (corrupt_row "session" "role")
  | some role ↦ elim (parse_session_state r.state) [
    | none ↦ err (corrupt_row "session" "state")
    | some state ↦ ok (session_of r role state)
  ]
]

abbrev pub read_session : Option SessionRow → Result (Option Session)
read_session none = ok none
read_session (some r) = session_from_row r >>= λ s. ok (some s)

-- `ORDER BY started_at DESC LIMIT 1`; of two that started together, the first one in the table.
abbrev pub latest : Option SessionRow → List SessionRow → Option SessionRow
latest best [] = best
latest none (r ∷ rows) = latest (some r) rows
latest (some best) (r ∷ rows) =
    latest (some (if ltb best.started_at r.started_at then r else best)) rows

-- `latest_resumable`
unfoldable pub latest_resumable : Db → Result (Option Session)
unfolding session_from_row
latest_resumable t = read_session (latest none (keep (is_in interrupted) t.sessions))

-- `get`
unfoldable pub get : Db → String → Result (Option Session)
unfolding session_from_row
get t sid = read_session (find_row (is_session sid) t.sessions)
