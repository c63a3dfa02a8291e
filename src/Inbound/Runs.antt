-- ===== src/Inbound/Runs.antt =====
-- Sequences of events at one transfer of crates/core/src/inbound.rs: the offset on record after them.
use photosync.Prelude.{ℕ, ◌<◌, ◌≡◌, subst, sym, true, false, some, List, [], ◌∷◌, String, any, max}
use photosync.Prelude.Int.{i64_bound, u64_mod}
use photosync.Errors.{Result, ok, err}
use photosync.Model.{Hash32, IsHash}
use photosync.Db.{Db, has_session}
use photosync.Inbound.{InboundState, find, is_row, open_transfer, advance, reset}
use photosync.Inbound.Offsets.{
  IsAt, state_at, opened_db, advance-IsAt, reset-IsAt, IsAt-find, opened_db-IsAt, open_transfer_new,
  open_transfer_again,
}

-- What reaches one transfer: an acknowledgement, a restart from zero, and a connection that opens it
-- once more.
pub data Event : Type 0 where
  acked : ℕ → ℕ → Event
  restarted : ℕ → Event
  reopened : String → ℕ → ℕ → Event

tables_after : Db → Result (InboundState × Db) → Db
tables_after t (ok p) = p.1
tables_after t (err e) = t

unfoldable pub step : String → Hash32 → Event → Db → Db
unfolding tables_after
step sid quick (acked bytes now) t = advance t sid quick bytes now
step sid quick (restarted now) t = reset t sid quick now
step sid quick (reopened ref total now) t = tables_after t (open_transfer t sid quick ref total now)

unfoldable pub run : String → Hash32 → List Event → Db → Db
run sid quick [] t = t
run sid quick (e ∷ es) t = run sid quick es (step sid quick e t)

-- The offset that the events promise: the largest acknowledgement since the last restart.
unfoldable pub expected : ℕ → List Event → ℕ
expected n [] = n
expected n (acked bytes now ∷ es) = expected (max n bytes) es
expected n (restarted now ∷ es) = expected 0 es
expected n (reopened ref total now ∷ es) = expected n es

-- Every acknowledged offset is an i64.
unfoldable pub IsSmall : List Event → Type 0
IsSmall [] = Unit
IsSmall (acked bytes now ∷ es) = (bytes < i64_bound) × IsSmall es
IsSmall (restarted now ∷ es) = IsSmall es
IsSmall (reopened ref total now ∷ es) = IsSmall es

run-IsAt :
    (t : Db) (sid : String) (quick : Hash32) (ref : String) (total n : ℕ) (es : List Event)
    → IsHash quick
    → total < u64_mod
    → IsSmall es
    → IsAt t sid quick ref total n
    → IsAt (run sid quick es t) sid quick ref total (expected n es)
unfolding run expected IsSmall step
run-IsAt t sid quick ref total n [] h k small at = at
run-IsAt t sid quick ref total n (acked bytes now ∷ es) h k (b, small) at =
    run-IsAt (advance t sid quick bytes now) sid quick ref total (max n bytes) es h k small
      (advance-IsAt t sid quick ref total n bytes now b at)
run-IsAt t sid quick ref total n (restarted now ∷ es) h k small at =
    run-IsAt (reset t sid quick now) sid quick ref total 0 es h k small
      (reset-IsAt t sid quick ref total n now at)
run-IsAt t sid quick ref total n (reopened ref' total' now ∷ es) h k small at =
    subst (λ r. IsAt (run sid quick es (tables_after t r)) sid quick ref total (expected n es))
      (sym (open_transfer_again t sid quick ref ref' total total' n now h k at))
      (run-IsAt t sid quick ref total n es h k small at)

-- From a transfer that is opened for the first time, in a session on record, with a hash of 32 bytes
-- and a size that is a u64: any sequence of acknowledgements below 2^63, restarts and reconnections
-- leaves on record the first staging name and size, and as the resume offset the largest
-- acknowledgement since the last restart.
pub find-run :
    (t : Db) (sid : String) (quick : Hash32) (ref : String) (total now : ℕ) (es : List Event)
    → IsHash quick
    → total < u64_mod
    → IsSmall es
    → has_session t sid ≡ true
    → any (is_row sid quick) t.inbound_transfers ≡ false
    → find (run sid quick (reopened ref total now ∷ es) t) sid quick
      ≡ ok (some (state_at sid quick ref total (expected 0 es)))
unfolding run step
find-run t sid quick ref total now es h k small s new = rw (
  open_transfer_new t sid quick ref total now h k s new,
  IsAt-find (run sid quick es (opened_db t sid quick ref total now)) sid quick ref total
      (expected 0 es) h k
      (run-IsAt (opened_db t sid quick ref total now) sid quick ref total 0 es h k small
        (opened_db-IsAt t sid quick ref total now new)),
)
