-- ===== src/Net/Orchestrator/Delivery.antt =====
-- `record_delivered` of crates/net/src/orchestrator.rs: both writes, or neither.
use photosync.Prelude.{ℕ, ◌≡◌, refl, ◌⊎◌, inl, inr, subst, sym, false, ◌&&◌, ◌==◌, any}
use photosync.Errors.{Error, Result, ok, err, Result-cases}
use photosync.Model.{Hash32}
use photosync.Db.{Db, AssetRow}
use photosync.Catalog.Peers.{mark_sent}
use photosync.Catalog.Assets.{set_full_hash}
use photosync.Catalog.Backlog.{FilterArgs}
use photosync.Catalog.Counts.{is_left}
use photosync.Catalog.Sent.{is_left_delivered}
use photosync.Net.Orchestrator.{committed, record_delivered}

-- Delivered: no row of the asset is left to send. Undone: the tables are those before.
unfoldable pub DeliveredOrUndone : Db → FilterArgs → ℕ → Result (Unit {0}) × Db → Type 0
DeliveredOrUndone t f id (r, t') =
    ((r ≡ ok tt) × (any (λ (x : AssetRow). (x.id == id) && is_left t' f x) t'.local_assets ≡ false))
    ⊎ ((e : Error) × (r ≡ err e) × (t' ≡ t))

-- Recording a delivery either succeeds, and then no row of the asset is left in that peer's backlog;
-- or it fails, and then the tables are as they were.
pub record_delivered-DeliveredOrUndone :
    (t : Db) (f : FilterArgs) (id : ℕ) (full quick : Hash32) (now : ℕ)
    → DeliveredOrUndone t f id (record_delivered t f.peer_id id full quick now)
unfolding record_delivered DeliveredOrUndone
record_delivered-DeliveredOrUndone t f id full quick now =
    elim (Result-cases (mark_sent (set_full_hash t id full) f.peer_id full quick now)) [
      | inl (t', e) ↦
          subst (λ r. DeliveredOrUndone t f id (committed t r)) (sym e)
            (inl (refl, is_left_delivered t t' f id full quick now e))
      | inr (x, e) ↦
          subst (λ r. DeliveredOrUndone t f id (committed t r)) (sym e) (inr (x, refl, refl))
    ]
