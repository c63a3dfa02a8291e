-- ===== src/Session/Settling.antt =====
-- Settling and retrying assets in crates/core/src/session.rs: counters, in-flight rows, attempts.
use mathlib.Core.Option
use photosync.Prelude.{
  ℕ, ◌+◌, ◌%◌, ◌^◌, ◌≡◌, ◌≢◌, refl, ◌∙◌, ap, subst, Bool, true, false, none, some, List, [], ◌∷◌,
  arith, String, ltb, find as find_row, update_where, if◌then◌else◌,
}
use photosync.Prelude.Int.{pos, ◌+ℤ◌}
use photosync.Prelude.Rows.{find-update_where_hit, find-delete_where_hit, find-delete_where_miss}
use photosync.Errors.{ok}
use photosync.Model.{TransferState, committed, skipped_already_present, failed, queued}
use photosync.Db.{Db, SessionRow, TransferRow}
use photosync.Session.{is_session, max_asset_attempts}
use photosync.Session.Transfers.{
  find, is_row, read_row, settle, settled_row, credit, record_attempt_failure, failed_attempt,
}

-- A settled asset is no longer in flight, and the transfer of any other asset of the session is as
-- it was.
pub find-settle :
    (t : Db) (sid : String) (aid other bytes : ℕ) (outcome : TransferState)
    → aid ≢ other
    → (find (settle t sid aid outcome bytes) sid aid ≡ ok none)
      × (find (settle t sid aid outcome bytes) sid other ≡ find t sid other)
unfolding find settle
find-settle t sid aid other bytes outcome apart = (
  ap read_row (find-delete_where_hit (is_row sid aid) t.transfers),
  ap read_row (
      find-delete_where_miss (is_row sid aid) (is_row sid other) t.transfers
        (λ x h. ground (arith, apart))),
)

-- The session's counters of done, skipped and failed assets.
unfoldable pub IsCounted : Db → String → ℕ → ℕ → ℕ → Type 0
IsCounted t sid d s f =
    (r : SessionRow) × (find_row (is_session sid) t.sessions ≡ some r)
    × (r.items_done ≡ pos d)
    × (r.items_skipped ≡ pos s)
    × (r.items_failed ≡ pos f)

add_pos : (m n : ℕ) → pos m +ℤ pos n ≡ pos (m + n)
add_pos m n = ground arith

settle-IsCounted :
    (t : Db) (sid : String) (aid bytes d s f : ℕ) (outcome : TransferState)
    → IsCounted t sid d s f
    → IsCounted
        (settle t sid aid outcome bytes)
        sid
        (d + (credit outcome).0)
        (s + (credit outcome).1)
        (f + (credit outcome).2)
unfolding IsCounted settle Option.map
settle-IsCounted t sid aid bytes d s f outcome (r, e, a, b, c) = (
  settled_row outcome bytes r,
  find-update_where_hit (is_session sid) (is_session sid) (settled_row outcome bytes) t.sessions
        (λ x. refl) (λ x. refl)
      ∙ ap (Option.map (settled_row outcome bytes)) e,
  ap (λ z. z +ℤ pos (credit outcome).0) a ∙ add_pos d (credit outcome).0,
  ap (λ z. z +ℤ pos (credit outcome).1) b ∙ add_pos s (credit outcome).1,
  ap (λ z. z +ℤ pos (credit outcome).2) c ∙ add_pos f (credit outcome).2,
)

-- An asset that reached its end: its row, its outcome, the bytes to credit.
pub record Settlement : Type 0 where
  pub asset : ℕ
  pub outcome : TransferState
  pub bytes : ℕ

unfoldable pub settle_all : String → List Settlement → Db → Db
settle_all sid [] t = t
settle_all sid (x ∷ xs) t = settle_all sid xs (settle t sid x.asset x.outcome x.bytes)

-- How many of them met a test.
abbrev pub tally : (TransferState → Bool) → List Settlement → ℕ
tally p [] = 0
tally p (x ∷ xs) = (if p x.outcome then 1 else 0) + tally p xs

abbrev pub is_skipped : TransferState → Bool
is_skipped skipped_already_present = true
is_skipped _ = false

abbrev pub is_committed : TransferState → Bool
is_committed committed = true
is_committed _ = false

abbrev pub is_failed : TransferState → Bool
is_failed failed = true
is_failed _ = false

credit_parts :
    (o : TransferState)
    → ((credit o).0 ≡ (if is_committed o then 1 else 0))
      × ((credit o).1 ≡ (if is_skipped o then 1 else 0))
      × ((credit o).2 ≡ (if is_failed o then 1 else 0))
credit_parts queued = (refl, refl, refl)
credit_parts TransferState.transferring = (refl, refl, refl)
credit_parts TransferState.verifying = (refl, refl, refl)
credit_parts committed = (refl, refl, refl)
credit_parts failed = (refl, refl, refl)
credit_parts skipped_already_present = (refl, refl, refl)
credit_parts TransferState.cancelled = (refl, refl, refl)

-- For a session on record, settling any sequence of assets adds to its counters of done, skipped and
-- failed assets the number of committed, of skipped and of failed ones: a cancelled asset counts
-- nowhere.
pub settle_all-IsCounted :
    (t : Db) (sid : String) (d s f : ℕ) (xs : List Settlement)
    → IsCounted t sid d s f
    → IsCounted
        (settle_all sid xs t)
        sid
        (d + tally is_committed xs)
        (s + tally is_skipped xs)
        (f + tally is_failed xs)
unfolding settle_all
settle_all-IsCounted t sid d s f [] c =
    subst (λ n. IsCounted t sid n (s + 0) (f + 0)) (omega arith)
      (subst (λ n. IsCounted t sid d n (f + 0)) (omega arith)
        (subst (λ n. IsCounted t sid d s n) (omega arith) c))
settle_all-IsCounted t sid d s f (x ∷ xs) c =
    subst
      (λ n.
        IsCounted (settle_all sid xs t') sid n (s + tally is_skipped (x ∷ xs))
          (f + tally is_failed (x ∷ xs)))
      (omega (arith, (credit_parts x.outcome).0))
      (subst
        (λ n.
          IsCounted (settle_all sid xs t') sid (d + (credit x.outcome).0 + tally is_committed xs) n
            (f + tally is_failed (x ∷ xs)))
        (omega (arith, (credit_parts x.outcome).1))
        (subst
          (λ n.
            IsCounted (settle_all sid xs t') sid (d + (credit x.outcome).0 + tally is_committed xs)
              (s + (credit x.outcome).1 + tally is_skipped xs) n)
          (omega (arith, (credit_parts x.outcome).2))
          (settle_all-IsCounted t' sid (d + (credit x.outcome).0) (s + (credit x.outcome).1)
            (f + (credit x.outcome).2) xs
            (settle-IsCounted t sid x.asset x.bytes d s f x.outcome c))))
  where
    t' : Db
    t' = settle t sid x.asset x.outcome x.bytes

-- For an asset in flight, a failed attempt empties its offset, counts one attempt more, and allows
-- another one while fewer than three were made.
pub record_attempt_failure_found :
    (t : Db) (sid code : String) (aid now : ℕ) (r : TransferRow)
    → find_row (is_row sid aid) t.transfers ≡ some r
    → (t' : Db) × (record_attempt_failure t sid aid code now
        ≡ ok (ltb ((r.retry_count + 1) % 2 ^ 32) max_asset_attempts, t'))
      × (find_row (is_row sid aid) t'.transfers ≡ some (failed_attempt code now r))
unfolding record_attempt_failure Option.map
record_attempt_failure_found t sid code aid now r e = (
  record t { transfers = update_where (is_row sid aid) (failed_attempt code now) t.transfers },
  rw updated refl,
  updated,
)
  where
    updated :
        find_row
          (is_row sid aid)
          (update_where (is_row sid aid) (failed_attempt code now) t.transfers)
        ≡ some (failed_attempt code now r)
    updated =
        find-update_where_hit (is_row sid aid) (is_row sid aid) (failed_attempt code now)
          t.transfers (λ x. refl) (λ x. refl)
        ∙ ap (Option.map (failed_attempt code now)) e
