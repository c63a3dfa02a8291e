-- ===== src/Tests/Tables.antt =====
-- The tables of crates/core/src/inbound.rs and session.rs with one session, one asset in flight and one
-- received asset.
use photosync.Prelude.{
  ℕ, ◌+◌, ◌≡◌, ◌≢◌, refl, ◌↔◌, true, false, none, some, List, [], ◌∷◌, arith, replicate,
}
use photosync.Prelude.Int.{pos, to_i64, from_i64}
use photosync.Prelude.Bytes.{bytes_eq}
use photosync.Errors.{ok}
use photosync.Model.{
  Hash32, hash_eq, skip, SessionRole, interrupted, committed, skipped_already_present,
  session_role_str, session_state_str, parse_session_role, parse_session_state,
}
use photosync.Db.{Db, SessionRow, TransferRow, InboundRow, empty_db}
use photosync.Inbound.{
  HaveQueryItem, holds_full_hash, answer_item, record_received, find, received_row,
}
use photosync.Inbound.Have.{answer_item-skip}
use photosync.Inbound.Offsets.{IsAt, state_at}
use photosync.Inbound.Runs.{Event, acked, reopened, run, expected, IsSmall, find-run}
use photosync.Session.{Session, begin, begun, latest_resumable, session_from_row}
use photosync.Session.Settling.{
  IsCounted, Settlement, settle_all, tally, is_committed, is_skipped, is_failed,
  settle_all-IsCounted,
}

abbrev quick : Hash32
quick = record { bytes = replicate 32 1 }

abbrev other : Hash32
other = record { bytes = replicate 32 2 }

abbrev session : SessionRow
session = record {
  id = "s";
  role = "receiver";
  peer_id = none;
  state = "interrupted";
  started_at = 4;
  finished_at = none;
  items_total = pos 2;
  items_done = pos 0;
  items_skipped = pos 0;
  items_failed = pos 0;
  bytes_total = pos 20;
  bytes_done = pos 0;
}

abbrev flight : TransferRow
flight = record {
  session_id = "s";
  local_asset_id = 1;
  state = "transferring";
  bytes_transferred = pos 4;
  total_bytes = pos 10;
  retry_count = 2;
  error_code = none;
  updated_at = 5;
}

abbrev tables : Db
tables = record empty_db { sessions = session ∷ []; transfers = flight ∷ [] }

abbrev events : List Event
events = acked 4 10 ∷ reopened "b" 9 11 ∷ acked 2 12 ∷ []

find-run_example :
    find (run "s" quick (reopened "a" 10 9 ∷ events) tables) "s" quick
    ≡ ok (some (state_at "s" quick "a" 10 (expected 0 events)))
unfolding IsSmall
find-run_example =
    find-run tables "s" quick "a" 10 9 events refl (omega arith) (omega arith, (omega arith, _))
      refl refl

abbrev in_progress : InboundRow
in_progress = record {
  session_id = "s";
  quick_hash = quick.bytes;
  staging_ref = "a";
  bytes_received = pos 4;
  total_bytes = pos 10;
  updated_at = 3;
}

abbrev receiving : Db
receiving = record tables { inbound_transfers = in_progress ∷ [] }

receiving-IsAt : IsAt receiving "s" quick "a" 10 4
unfolding IsAt to_i64 bytes_eq
receiving-IsAt = (3, refl)

quick-other : hash_eq quick other ≡ false
unfolding hash_eq bytes_eq
quick-other = refl

abbrev item : HaveQueryItem
item = record { id = 3; quick_hash = quick; full_hash = some other }

skip_example :
    ((answer_item tables item).verdict ≡ skip)
    ↔ ((f : Hash32) × (item.full_hash ≡ some f) × (holds_full_hash tables f ≡ true))
skip_example = answer_item-skip tables item

abbrev holding : Db
holding = record tables { received_assets = received_row other quick 10 none none 8 ∷ [] }

recorded : record_received tables other quick 10 none none 8 ≡ ok holding
unfolding record_received holds_full_hash
recorded = refl

tables-IsCounted : IsCounted tables "s" 0 0 0
unfolding IsCounted
tables-IsCounted = (session, refl, refl, refl, refl)

abbrev settlements : List Settlement
settlements =
    record { asset = 1; outcome = committed; bytes = 10 }
    ∷ record { asset = 2; outcome = skipped_already_present; bytes = 0 }
    ∷ []

settle_all_example :
    IsCounted
      (settle_all "s" settlements tables)
      "s"
      (0 + tally is_committed settlements)
      (0 + tally is_skipped settlements)
      (0 + tally is_failed settlements)
settle_all_example = settle_all-IsCounted tables "s" 0 0 0 settlements tables-IsCounted

one_two : ◌≢◌ {A = ℕ} 1 2
one_two e = absurd (omega arith)

abbrev resumable : Session
resumable = record (begun "s" SessionRole.receiver none 2 20 4) { state = interrupted }

resumable-latest : latest_resumable tables ≡ ok (some resumable)
unfolding latest_resumable session_from_row session_state_str parse_session_role parse_session_state
    from_i64
resumable-latest = refl

abbrev second : SessionRow
second = record {
  id = "t";
  role = "sender";
  peer_id = none;
  state = "active";
  started_at = 6;
  finished_at = none;
  items_total = pos 1;
  items_done = pos 0;
  items_skipped = pos 0;
  items_failed = pos 0;
  bytes_total = pos 10;
  bytes_done = pos 0;
}

abbrev two_sessions : Db
two_sessions = record tables { sessions = session ∷ second ∷ [] }

begin-second :
    begin tables "t" SessionRole.sender none 1 10 6
    ≡ ok (begun "t" SessionRole.sender none 1 10 6, two_sessions)
unfolding begin session_role_str session_state_str to_i64
begin-second = refl
