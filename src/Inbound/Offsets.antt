-- ===== src/Inbound/Offsets.antt =====
-- The resume offsets of crates/core/src/inbound.rs: what a session's acknowledgements leave on record.
use mathlib.Core.Option
use text.Mathlib.TextEquality.{eq_iff}
use photosync.Prelude.{
  ℕ, ◌<◌, ◌≡◌, refl, ◌∙◌, ap, true, false, none, some, [], ◌∷◌, ◌++◌, arith, String, any, max,
  find as find_row,
}
use photosync.Prelude.Int.{pos, max_ℤ, to_i64, from_i64, from_i64-to_i64, i64_bound, u64_mod}
use photosync.Prelude.Bytes.{bytes_eq_iff}
use photosync.Prelude.Rows.{
  any-find, find-update_where_hit, find-update_where_miss, find-delete_where_hit,
  find-delete_where_miss, find-append_none,
}
use photosync.Errors.{ok}
use photosync.Model.{Hash32, IsHash, from_slice, hash_eq}
use photosync.Db.{Db, InboundRow, has_session}
use photosync.Inbound.{
  InboundState, find, is_row, new_row, read_row, open_transfer, insert_row, advance, reset, close,
  inbound_from_row,
}

-- The row of this transfer, at offset `n`.
abbrev row_at : String → Hash32 → String → ℕ → ℕ → ℕ → InboundRow
row_at sid quick ref total n now = record (new_row sid quick ref total now) {
  bytes_received = pos n;
}

unfoldable pub IsAt : Db → String → Hash32 → String → ℕ → ℕ → Type 0
IsAt t sid quick ref total n =
    (now : ℕ) × (find_row (is_row sid quick) t.inbound_transfers
      ≡ some (row_at sid quick ref total n now))

max_ℤ-to_i64 : (n b : ℕ) → b < i64_bound → max_ℤ (pos n) (to_i64 b) ≡ pos (max n b)
unfolding to_i64
max_ℤ-to_i64 n b h = ground arith

pub advance-IsAt :
    (t : Db) (sid : String) (quick : Hash32) (ref : String) (total n b now : ℕ)
    → b < i64_bound
    → IsAt t sid quick ref total n
    → IsAt (advance t sid quick b now) sid quick ref total (max n b)
unfolding IsAt advance Option.map
advance-IsAt t sid quick ref total n b now h (old, e) = (
  now,
  find-update_where_hit (is_row sid quick) (is_row sid quick)
        (λ r. record r { bytes_received = max_ℤ r.bytes_received (to_i64 b); updated_at = now })
        t.inbound_transfers (λ x. refl) (λ x. refl)
      ∙ ap
          (Option.map (λ (r : InboundRow). record r {
            bytes_received = max_ℤ r.bytes_received (to_i64 b);
            updated_at = now;
          }))
          e
      ∙ ap (λ z. some (record (new_row sid quick ref total now) { bytes_received = z }))
          (max_ℤ-to_i64 n b h),
)

pub reset-IsAt :
    (t : Db) (sid : String) (quick : Hash32) (ref : String) (total n now : ℕ)
    → IsAt t sid quick ref total n
    → IsAt (reset t sid quick now) sid quick ref total 0
unfolding IsAt reset Option.map
reset-IsAt t sid quick ref total n now (old, e) = (
  now,
  find-update_where_hit (is_row sid quick) (is_row sid quick)
        (λ r. record r { bytes_received = pos 0; updated_at = now }) t.inbound_transfers (λ x. refl)
        (λ x. refl)
      ∙ ap (Option.map (λ (r : InboundRow). record r { bytes_received = pos 0; updated_at = now }))
          e,
)

abbrev pub state_at : String → Hash32 → String → ℕ → ℕ → InboundState
state_at sid quick ref total n = record {
  session_id = sid;
  quick_hash = quick;
  staging_ref = ref;
  bytes_received = n;
  total_bytes = total;
}

from_slice-IsHash : (h : Hash32) → IsHash h → from_slice h.bytes ≡ some h
unfolding from_slice
from_slice-IsHash h n = ground arith

inbound_from_row-row_at :
    (sid : String) (quick : Hash32) (ref : String) (total n now : ℕ)
    → IsHash quick
    → total < u64_mod
    → inbound_from_row (row_at sid quick ref total n now) ≡ ok (state_at sid quick ref total n)
unfolding inbound_from_row from_i64
inbound_from_row-row_at sid quick ref total n now h k =
    ground (arith, from_slice-IsHash quick h, from_i64-to_i64 total k)

pub IsAt-find :
    (t : Db) (sid : String) (quick : Hash32) (ref : String) (total n : ℕ)
    → IsHash quick
    → total < u64_mod
    → IsAt t sid quick ref total n
    → find t sid quick ≡ ok (some (state_at sid quick ref total n))
unfolding IsAt find
IsAt-find t sid quick ref total n h k (now, e) =
    ap read_row e ∙ rw (inbound_from_row-row_at sid quick ref total n now h k, read_row)

any-IsAt :
    (t : Db) (sid : String) (quick : Hash32) (ref : String) (total n : ℕ)
    → IsAt t sid quick ref total n
    → any (is_row sid quick) t.inbound_transfers ≡ true
unfolding IsAt
any-IsAt t sid quick ref total n (now, e) =
    any-find (is_row sid quick) t.inbound_transfers (row_at sid quick ref total n now) e

is_row-new_row :
    (sid : String) (quick : Hash32) (ref : String) (total now : ℕ)
    → is_row sid quick (new_row sid quick ref total now) ≡ true
is_row-new_row sid quick ref total now =
    ground (arith, (eq_iff sid sid).1 refl, (bytes_eq_iff quick.bytes quick.bytes).1 refl)

-- Opening a transfer that is already open, at whatever offset, changes no table and answers the
-- state on record: the new staging name and size are ignored. The hash has 32 bytes and the size on
-- record is a u64.
pub open_transfer_again :
    (t : Db) (sid : String) (quick : Hash32) (ref ref' : String) (total total' n now : ℕ)
    → IsHash quick
    → total < u64_mod
    → IsAt t sid quick ref total n
    → open_transfer t sid quick ref' total' now ≡ ok (state_at sid quick ref total n, t)
unfolding open_transfer insert_row
open_transfer_again t sid quick ref ref' total total' n now h k at =
    rw (any-IsAt t sid quick ref total n at, IsAt-find t sid quick ref total n h k at)

abbrev pub opened_db : Db → String → Hash32 → String → ℕ → ℕ → Db
opened_db t sid quick ref total now = record t {
  inbound_transfers = t.inbound_transfers ++ (new_row sid quick ref total now ∷ []);
}

pub opened_db-IsAt :
    (t : Db) (sid : String) (quick : Hash32) (ref : String) (total now : ℕ)
    → any (is_row sid quick) t.inbound_transfers ≡ false
    → IsAt (opened_db t sid quick ref total now) sid quick ref total 0
unfolding IsAt
opened_db-IsAt t sid quick ref total now h = (
  now,
  find-append_none (is_row sid quick) t.inbound_transfers (new_row sid quick ref total now ∷ []) h
      ∙ ground (arith, is_row-new_row sid quick ref total now),
)

pub open_transfer_new :
    (t : Db) (sid : String) (quick : Hash32) (ref : String) (total now : ℕ)
    → IsHash quick
    → total < u64_mod
    → has_session t sid ≡ true
    → any (is_row sid quick) t.inbound_transfers ≡ false
    → open_transfer t sid quick ref total now
      ≡ ok (state_at sid quick ref total 0, opened_db t sid quick ref total now)
unfolding open_transfer insert_row
open_transfer_new t sid quick ref total now h k s new = rw (
  new,
  s,
  IsAt-find (opened_db t sid quick ref total now) sid quick ref total 0 h k
      (opened_db-IsAt t sid quick ref total now new),
)

apart :
    (sid : String) (quick other : Hash32) (r : InboundRow)
    → hash_eq quick other ≡ false
    → is_row sid quick r ≡ true
    → is_row sid other r ≡ false
unfolding hash_eq
apart sid quick other r n h = ground (
  arith,
  (bytes_eq_iff r.quick_hash quick.bytes).0,
  (bytes_eq_iff r.quick_hash other.bytes).0,
  (bytes_eq_iff quick.bytes other.bytes).1,
)

-- An acknowledgement, a restart or a close of one asset's transfer leaves the transfer of an asset
-- of another quick hash in the session as it was; a closed transfer is gone.
pub find_others :
    (t : Db) (sid : String) (quick other : Hash32) (bytes now : ℕ)
    → hash_eq quick other ≡ false
    → (find (advance t sid quick bytes now) sid other ≡ find t sid other)
      × (find (reset t sid quick now) sid other ≡ find t sid other)
      × (find (close t sid quick) sid other ≡ find t sid other)
      × (find (close t sid quick) sid quick ≡ ok none)
unfolding find advance reset close
find_others t sid quick other bytes now n = (
  ap read_row (
      find-update_where_miss (is_row sid quick) (is_row sid other)
        (λ r. record r { bytes_received = max_ℤ r.bytes_received (to_i64 bytes); updated_at = now })
        t.inbound_transfers (λ r. apart sid quick other r n) (λ r. refl)),
  ap read_row (
      find-update_where_miss (is_row sid quick) (is_row sid other)
        (λ r. record r { bytes_received = pos 0; updated_at = now }) t.inbound_transfers
        (λ r. apart sid quick other r n) (λ r. refl)),
  ap read_row (
      find-delete_where_miss (is_row sid quick) (is_row sid other) t.inbound_transfers
        (λ r. apart sid quick other r n)),
  ap read_row (find-delete_where_hit (is_row sid quick) t.inbound_transfers),
)
