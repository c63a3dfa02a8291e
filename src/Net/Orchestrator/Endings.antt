-- ===== src/Net/Orchestrator/Endings.antt =====
-- What an acknowledged end of an asset in crates/net/src/orchestrator.rs leaves on record.
use photosync.Prelude.{
  ℕ, ◌≡◌, refl, ◌∙◌, ap, sym, subst, length, true, false, Option, none, some, String, Bool-cases,
  inl, inr, arith,
}
use photosync.Prelude.Bytes.{Bytes}
use photosync.Prelude.Rows.{find-delete_where_hit}
use photosync.Errors.{Result, ok, err}
use photosync.Model.{Hash32, AssetDescriptor}
use photosync.Model.Laws.{hash_eq_refl}
use photosync.Staging.{File}
use photosync.Identity.{Sha256, IsIncremental, digest}
use photosync.Chunk.{FinishVerdict, verified, mismatch, short}
use photosync.Chunk.Receiver.{finish_asset}
use photosync.Chunk.Receiver.Holds.{Holds}
use photosync.Chunk.Receiver.Crash.{finish_asset-verified}
use photosync.Proto.{AssetOutcome, is_delivered}
use photosync.Db.{Db}
use photosync.Inbound.{holds_full_hash, record_received, close, find, is_row, read_row}
use photosync.Inbound.Have.{holds_full_hash-record_received}
use photosync.Net.Orchestrator.{Active}
use photosync.Net.Orchestrator.Finishing.{
  Totals, Finished, acknowledged, broken, skipped, discarded, closed, published, on_verified,
  on_verdict, on_asset_end,
}

tables_of : Finished → Db
tables_of (acknowledged o t n) = t
tables_of (broken e t) = t

outcome_of : AssetOutcome → Finished → AssetOutcome
outcome_of o (acknowledged o' t n) = o'
outcome_of o (broken e t) = o

-- The tables after a delivery: the content is on record, the transfer is not.
unfoldable pub IsDelivered : Db → String → Hash32 → Hash32 → Type 0
IsDelivered t sid quick full = (holds_full_hash t full ≡ true) × (find t sid quick ≡ ok none)

close-IsDelivered :
    (t : Db) (sid : String) (quick full : Hash32)
    → holds_full_hash t full ≡ true
    → IsDelivered (close t sid quick) sid quick full
unfolding IsDelivered holds_full_hash find close
close-IsDelivered t sid quick full h =
    (h, ap read_row (find-delete_where_hit (is_row sid quick) t.inbound_transfers))

record_received-holds_full_hash :
    (t t' : Db) (full quick : Hash32) (size : ℕ) (pid : Option String) (peer : Option ℕ) (now : ℕ)
    → record_received t full quick size pid peer now ≡ ok t'
    → holds_full_hash t' full ≡ true
record_received-holds_full_hash t t' full quick size pid peer now e =
    holds_full_hash-record_received t t' full quick full size pid peer now e
    ∙ ground (arith, hash_eq_refl full)

module _ (sid : String) (peer now : ℕ) (x : AssetDescriptor) (t : Db) (n : Totals) where
  closed-IsDelivered :
      (full : Hash32) (r : Result Db) (o : AssetOutcome) (t' : Db) (n' : Totals)
      → ((t₁ : Db) → r ≡ ok t₁ → holds_full_hash t₁ full ≡ true)
      → closed sid x.quick_hash x.size t n r ≡ acknowledged o t' n'
      → IsDelivered t' sid x.quick_hash full
  unfolding tables_of
  closed-IsDelivered full (err e) o t' n' h q = cc
  closed-IsDelivered full (ok t₁) o t' n' h q =
      subst (λ u. IsDelivered u sid x.quick_hash full) (ap tables_of q)
        (close-IsDelivered t₁ sid x.quick_hash full (h t₁ refl))

  published-IsDelivered :
      (full : Hash32) (commit : Option String) (o : AssetOutcome) (t' : Db) (n' : Totals)
      → published sid peer now full x commit t n ≡ acknowledged o t' n'
      → IsDelivered t' sid x.quick_hash full
  published-IsDelivered full none o t' n' q = cc
  published-IsDelivered full (some pid) o t' n' q =
      closed-IsDelivered full
        (record_received t full x.quick_hash x.size (some pid) (some peer) now) o t' n'
        (λ t₁ e.
          record_received-holds_full_hash t t₁ full x.quick_hash x.size (some pid) (some peer) now
            e)
        q

  discarded-IsDelivered :
      (full : Hash32) (abandon : Option (Unit {0})) (o : AssetOutcome) (t' : Db) (n' : Totals)
      → holds_full_hash t full ≡ true
      → discarded abandon AssetOutcome.already_present t (close t sid x.quick_hash) (skipped n)
        ≡ acknowledged o t' n'
      → IsDelivered t' sid x.quick_hash full
  unfolding tables_of
  discarded-IsDelivered full none o t' n' h q = cc
  discarded-IsDelivered full (some _) o t' n' h q =
      subst (λ u. IsDelivered u sid x.quick_hash full) (ap tables_of q)
        (close-IsDelivered t sid x.quick_hash full h)

  module _ (abandon : Option (Unit {0})) (commit : Option String) where
    on_verified-IsDelivered :
        (full : Hash32) (o : AssetOutcome) (t' : Db) (n' : Totals)
        → on_verified sid peer now x abandon commit t n full ≡ acknowledged o t' n'
        → IsDelivered t' sid x.quick_hash full
    on_verified-IsDelivered full o t' n' q = elim (Bool-cases (holds_full_hash t full)) [
      | inl known ↦ discarded-IsDelivered full abandon o t' n' known (rw known at q)
      | inr new ↦ published-IsDelivered full commit o t' n' (rw new at q)
    ]

    not_delivered :
        (a : Option (Unit {0})) (u : Db) (o : AssetOutcome) (t' : Db) (n' : Totals)
        → discarded a AssetOutcome.hash_mismatch t u n ≡ acknowledged o t' n'
        → is_delivered o ≡ false
    unfolding is_delivered outcome_of
    not_delivered none u o t' n' q = cc
    not_delivered (some _) u o t' n' q = ap (λ z. is_delivered (outcome_of o z)) (sym q)

    on_verdict-IsDelivered :
        (r : Result (FinishVerdict × File)) (o : AssetOutcome) (t' : Db) (n' : Totals)
        → on_verdict sid peer now x abandon commit t n r ≡ acknowledged o t' n'
        → is_delivered o ≡ true
        → (full : Hash32) × (f : File) × (r ≡ ok (verified full, f))
          × IsDelivered t' sid x.quick_hash full
    on_verdict-IsDelivered (err e) o t' n' q good = cc
    on_verdict-IsDelivered (ok (verified full, f)) o t' n' q good =
        (full, f, refl, on_verified-IsDelivered full o t' n' q)
    on_verdict-IsDelivered (ok (mismatch a b, f)) o t' n' q good =
        absurd (ground (arith, not_delivered abandon _ o t' n' q))
    on_verdict-IsDelivered (ok (short a b, f)) o t' n' q good =
        absurd (ground (arith, not_delivered abandon _ o t' n' q))

-- An asset that holds the bytes received is acknowledged as delivered only when they are all of it and
-- their digest is the declared hash; then content of that hash is on record, so that a later query for
-- it is skipped, and the transfer is no longer in flight.
pub on_asset_end-IsDelivered :
    (d : Sha256) (law : IsIncremental d) (sid : String) (peer now : ℕ) (active : Active d)
    (received : Bytes) (t t' : Db) (n n' : Totals) (declared : Hash32) (abandon : Option (Unit {0}))
    (commit : Option String) (o : AssetOutcome)
    → Holds d active.asset received
    → on_asset_end d sid peer now
        (record { tables = t; current = some active })
        n
        declared
        abandon
        commit
      ≡ acknowledged o t' n'
    → is_delivered o ≡ true
    → (length received ≡ active.asset.total_bytes)
      × (declared ≡ digest d (d.update d.new received))
      × IsDelivered t' sid active.descriptor.quick_hash declared
unfolding on_asset_end
on_asset_end-IsDelivered d law sid peer now active received t t' n n' declared abandon commit o v q
      good =
    let (full, f, e, delivered) =
      on_verdict-IsDelivered sid peer now active.descriptor t n abandon commit
        (finish_asset d active.asset declared) o t' n' q good in
    let (whole, _, same, exact, _) =
      finish_asset-verified d law active.asset received declared full f v e in
    (
      whole,
      sym same ∙ exact,
      subst (λ (h : Hash32). IsDelivered t' sid active.descriptor.quick_hash h) same delivered,
    )
