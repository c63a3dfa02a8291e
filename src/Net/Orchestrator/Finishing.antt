-- ===== src/Net/Orchestrator/Finishing.antt =====
-- The receiver's handler of AssetEnd in crates/net/src/orchestrator.rs. What `sink.abandon` and
-- `sink.commit` answer is an argument, with `none` for their failure.
use photosync.Prelude.{ℕ, ◌+◌, ◌%◌, Option, none, some, String, if◌then◌else◌}
use photosync.Prelude.Int.{u64_mod}
use photosync.Errors.{Result, ok, err}
use photosync.Model.{Hash32, AssetDescriptor}
use photosync.Staging.{File}
use photosync.Identity.{Sha256}
use photosync.Chunk.{FinishVerdict, verified, mismatch, short}
use photosync.Chunk.Receiver.{finish_asset}
use photosync.Proto.{AssetOutcome}
use photosync.Db.{Db}
use photosync.Inbound.{holds_full_hash, record_received, close, reset}
use photosync.Net.Talk.{SessionError, unexpected, sink_failed, core}
use photosync.Net.Orchestrator.{Receiver}

pub record Totals : Type 0 where
  pub items_done : ℕ
  pub items_skipped : ℕ
  pub items_failed : ℕ
  pub bytes_done : ℕ

-- The acknowledgement, the tables and the totals after it; or an error, and the tables it leaves.
pub data Finished : Type 0 where
  acknowledged : AssetOutcome → Db → Totals → Finished
  broken : SessionError → Db → Finished

abbrev pub skipped : Totals → Totals
skipped n = record n { items_skipped = (n.items_skipped + 1) % u64_mod }

abbrev pub counted : ℕ → Totals → Totals
counted size n = record n {
  items_done = (n.items_done + 1) % u64_mod;
  bytes_done = (n.bytes_done + size) % u64_mod;
}

-- What `sink.abandon` leads to.
abbrev pub discarded : Option (Unit {0}) → AssetOutcome → Db → Db → Totals → Finished
discarded none o t t' n = broken sink_failed t
discarded (some _) o t t' n = acknowledged o t' n

abbrev pub closed : String → Hash32 → ℕ → Db → Totals → Result Db → Finished
closed sid quick size t n (err e) = broken (core e) t
closed sid quick size t n (ok t') =
    acknowledged AssetOutcome.committed (close t' sid quick) (counted size n)

-- What `sink.commit` leads to.
abbrev pub published :
    String → ℕ → ℕ → Hash32 → AssetDescriptor → Option String → Db → Totals → Finished
published sid peer now full x none t n = broken sink_failed t
published sid peer now full x (some pid) t n =
    closed sid x.quick_hash x.size t n
      (record_received t full x.quick_hash x.size (some pid) (some peer) now)

module _ (sid : String) (peer now : ℕ) (x : AssetDescriptor) (abandon : Option (Unit {0}))
    (commit : Option String) (t : Db) (n : Totals) where
  abbrev pub on_verified : Hash32 → Finished
  on_verified full =
      if holds_full_hash t full
      then discarded abandon AssetOutcome.already_present t (close t sid x.quick_hash) (skipped n)
      else published sid peer now full x commit t n

  -- The `match` on the verdict.
  abbrev pub on_verdict : Result (FinishVerdict × File) → Finished
  on_verdict (err e) = broken (core e) t
  on_verdict (ok (verified full, f)) = on_verified full
  on_verdict (ok (mismatch declared actual, f)) =
      discarded abandon AssetOutcome.hash_mismatch t (reset t sid x.quick_hash now) n
  on_verdict (ok (short received total, f)) =
      discarded abandon AssetOutcome.hash_mismatch t (reset t sid x.quick_hash now) n

-- `Message::AssetEnd`; the asset in progress is taken whatever happens.
unfoldable pub on_asset_end :
    (d : Sha256)
    → String
    → ℕ
    → ℕ
    → Receiver d
    → Totals
    → Hash32
    → Option (Unit {0})
    → Option String
    → Finished
on_asset_end d sid peer now s n declared abandon commit = elim s.current [
  | none ↦ broken unexpected s.tables
  | some active ↦
      on_verdict sid peer now active.descriptor abandon commit s.tables n
        (finish_asset d active.asset declared)
]
