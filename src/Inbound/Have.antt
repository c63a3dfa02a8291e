-- ===== src/Inbound/Have.antt =====
-- The manifest answers of crates/core/src/inbound.rs: what may be skipped.
use mathlib.Core.Bool.{◌||◌}
use photosync.Prelude.{
  ℕ, ◌≡◌, refl, ◌∙◌, ap, sym, ◌↔◌, Bool, true, false, Option, none, some, List, [], ◌∷◌, ◌++◌, map,
  arith, String, any, update_where, Bool-cases, inl, inr,
}
use photosync.Prelude.Bytes.{bytes_eq}
use photosync.Prelude.Rows.{any-append, any-update_where}
use photosync.Errors.{Result, ok, err, ok-injective, Result-cases}
use photosync.Model.{Hash32, hash_eq, skip}
use photosync.Model.Laws.{hash_eq_iff}
use photosync.Db.{Db, ReceivedRow, has_session}
use photosync.Inbound.{
  HaveQueryItem, holds_full_hash, verdict_of, peer_exists, answer_item, answer_have_query,
  record_received, received_row, coalesce, InboundState, insert_row, is_row, find, open_transfer,
  or_vanished,
}

verdict_of-skip :
    (t : Db) (quick : Hash32) (full : Option Hash32)
    → verdict_of t quick full ≡ skip
    → (f : Hash32) × (full ≡ some f) × (holds_full_hash t f ≡ true)
unfolding verdict_of
verdict_of-skip t quick none h = absurd (ground arith)
verdict_of-skip t quick (some f) h = (f, refl, ground arith)

-- An asset is skipped exactly when its full hash was supplied and content with that hash is held:
-- the quick hash never decides it.
pub answer_item-skip :
    (t : Db) (item : HaveQueryItem)
    → ((answer_item t item).verdict ≡ skip)
      ↔ ((f : Hash32) × (item.full_hash ≡ some f) × (holds_full_hash t f ≡ true))
unfolding answer_item
answer_item-skip t item =
    (verdict_of-skip t item.quick_hash item.full_hash, λ p. ground (arith, p.1, p.2))

-- A batch is answered item by item, each under the sender's own id.
pub answer_have_query-map :
    (t : Db) (batch : List HaveQueryItem) → answer_have_query t batch ≡ map (answer_item t) batch
unfolding answer_have_query
answer_have_query-map t [] = refl
answer_have_query-map t (item ∷ batch) =
    ap (◌∷◌ (answer_item t item)) (answer_have_query-map t batch)

holds_full_hash_same :
    (t : Db) (f g : Hash32)
    → holds_full_hash t f ≡ true
    → holds_full_hash t g ≡ (hash_eq f g || holds_full_hash t g)
holds_full_hash_same t f g h = elim (Bool-cases (hash_eq f g)) [
  | inl e ↦ rw e (ap (holds_full_hash t) (sym ((hash_eq_iff f g).0 e)) ∙ h)
  | inr n ↦ rw n
]

or_last_lem : (a b : Bool) → (a || (b || false)) ≡ (b || a)
or_last_lem true b = ground arith
or_last_lem false b = ground arith

refreshed :
    (t : Db) (full g : Hash32) (pid : Option String) (now : ℕ)
    → holds_full_hash
        (record t {
          received_assets =
              update_where
                (λ (r : ReceivedRow). bytes_eq r.full_hash full.bytes)
                (λ r. record r {
                  platform_asset_id = coalesce pid r.platform_asset_id;
                  received_at = now;
                })
                t.received_assets;
        })
        g
      ≡ holds_full_hash t g
unfolding holds_full_hash
refreshed t full g pid now =
    any-update_where (λ (r : ReceivedRow). bytes_eq r.full_hash full.bytes)
      (λ r. bytes_eq r.full_hash g.bytes)
      (λ r. record r { platform_asset_id = coalesce pid r.platform_asset_id; received_at = now })
      t.received_assets (λ r. refl)

appended :
    (t : Db) (full quick g : Hash32) (size : ℕ) (pid : Option String) (peer : Option ℕ) (now : ℕ)
    → holds_full_hash
        (record t {
          received_assets = t.received_assets ++ (received_row full quick size pid peer now ∷ []);
        })
        g
      ≡ (hash_eq full g || holds_full_hash t g)
unfolding holds_full_hash hash_eq
appended t full quick g size pid peer now =
    any-append (λ (r : ReceivedRow). bytes_eq r.full_hash g.bytes) t.received_assets
      (received_row full quick size pid peer now ∷ [])
    ∙ or_last_lem (any (λ (r : ReceivedRow). bytes_eq r.full_hash g.bytes) t.received_assets)
        (bytes_eq full.bytes g.bytes)

-- Recording an asset, if it is accepted, makes its content held, and changes nothing for any other
-- content.
pub holds_full_hash-record_received :
    (t t' : Db) (full quick g : Hash32) (size : ℕ) (pid : Option String) (peer : Option ℕ) (now : ℕ)
    → record_received t full quick size pid peer now ≡ ok t'
    → holds_full_hash t' g ≡ (hash_eq full g || holds_full_hash t g)
unfolding record_received
holds_full_hash-record_received t t' full quick g size pid peer now e =
    elim (Bool-cases (holds_full_hash t full)) [
      | inl known ↦
          ap (λ (x : Db). holds_full_hash x g) (sym (ok-injective _ _ (rw known at e)))
          ∙ refreshed t full g pid now
          ∙ holds_full_hash_same t full g known
      | inr new ↦ elim (Bool-cases (peer_exists t peer)) [
        | inl there ↦
            ap (λ (x : Db). holds_full_hash x g) (sym (ok-injective _ _ (rw (new, there) at e)))
            ∙ appended t full quick g size pid peer now
        | inr missing ↦ cc (rw (new, missing) at e)
      ]
    ]

insert_row_keeps :
    (t t' : Db) (sid : String) (quick : Hash32) (ref : String) (total now : ℕ)
    → insert_row t sid quick ref total now ≡ ok t'
    → t'.received_assets ≡ t.received_assets
unfolding insert_row
insert_row_keeps t t' sid quick ref total now e =
    elim (Bool-cases (any (is_row sid quick) t.inbound_transfers)) [
      | inl there ↦ ap (λ (x : Db). x.received_assets) (sym (ok-injective _ _ (rw there at e)))
      | inr new ↦ elim (Bool-cases (has_session t sid)) [
        | inl known ↦
            ap (λ (x : Db). x.received_assets) (sym (ok-injective _ _ (rw (new, known) at e)))
        | inr unknown ↦ cc (rw (new, unknown) at e)
      ]
    ]

vanished_keeps :
    (t : Db) (r : Result (Option InboundState)) (p : InboundState × Db)
    → or_vanished t r ≡ ok p
    → p.1 ≡ t
vanished_keeps t (ok (some s)) p e = ap (λ (q : InboundState × Db). q.1) (sym (ok-injective _ _ e))
vanished_keeps t (ok none) p e = cc
vanished_keeps t (err x) p e = cc

-- Opening a transfer records no content.
pub open_transfer_keeps :
    (t : Db) (sid : String) (quick : Hash32) (ref : String) (total now : ℕ) (p : InboundState × Db)
    → open_transfer t sid quick ref total now ≡ ok p
    → p.1.received_assets ≡ t.received_assets
unfolding open_transfer
open_transfer_keeps t sid quick ref total now p e =
    elim (Result-cases (insert_row t sid quick ref total now)) [
      | inr (x, bad) ↦ cc (rw bad at e)
      | inl (t', good) ↦
          ap (λ (x : Db). x.received_assets)
            (vanished_keeps t' (find t' sid quick) p (rw good at e))
          ∙ insert_row_keeps t t' sid quick ref total now good
    ]
