-- ===== src/Catalog/Keys.antt =====
-- The key of the confirmed-sent index of crates/core/src/catalog.rs, and forgetting a peer.
use photosync.Prelude.{
  ℕ, ◌≡◌, refl, ◌∙◌, subst, Bool, true, false, ◌&&◌, not, List, [], ◌∷◌, ◌++◌, arith, any, keep,
  length, length-append, delete_where, update_where, Bool-cases, inl, inr, Option-cases, ◌==◌,
}
use photosync.Prelude.Bytes.{bytes_eq, bytes_eq_iff}
use photosync.Prelude.Rows.{any-append, any-update_where, keep-any_none}
use photosync.Errors.{ok, ok-injective}
use photosync.Model.{Hash32}
use photosync.Db.{Db, AssetRow, SentRow, has_peer}
use photosync.Catalog.Peers.{is_sent, sent_row, mark_sent, was_sent, forget_peer}
use photosync.Catalog.Backlog.{FilterArgs, is_match, joined, or_unmatched, counters}

abbrev pub same_key : SentRow → SentRow → Bool
same_key a b = (a.peer_id == b.peer_id) && bytes_eq a.full_hash b.full_hash

-- The table's key: no two rows of one peer and one full hash.
unfoldable pub HasKeys : List SentRow → Type 0
HasKeys [] = Unit
HasKeys (s ∷ ss) = (any (same_key s) ss ≡ false) × HasKeys ss

is_match-same_key :
    (peer : ℕ) (la : AssetRow) (s x : SentRow)
    → is_match peer la s ≡ true
    → is_match peer la x ≡ true
    → same_key s x ≡ true
unfolding is_match
is_match-same_key peer la s x a b = elim (Option-cases la.full_hash) [
  | inl e ↦ absurd (ground (arith, e))
  | inr (g, e) ↦ ground (
    arith,
    e,
    bytes_eq_iff s.full_hash g,
    bytes_eq_iff x.full_hash g,
    bytes_eq_iff s.full_hash x.full_hash,
  )
]

-- A library row joins at most one row of the index.
length-or_unmatched :
    (peer : ℕ) (la : AssetRow) (log : List SentRow)
    → HasKeys log
    → length (or_unmatched la (keep (is_match peer la) log)) ≡ 1
unfolding HasKeys
length-or_unmatched peer la [] keys = refl
length-or_unmatched peer la (s ∷ log) (fresh, keys) = elim (Bool-cases (is_match peer la s)) [
  | inl hit ↦ ground (
    arith,
    hit,
    keep-any_none (is_match peer la) (same_key s) log (λ x. is_match-same_key peer la s x hit)
        fresh,
  )
  | inr miss ↦ ground (arith, miss, length-or_unmatched peer la log keys)
]

length-joined :
    (peer : ℕ) (log : List SentRow) (rows : List AssetRow)
    → HasKeys log
    → length (joined peer log rows) ≡ length rows
unfolding joined
length-joined peer log [] keys = refl
length-joined peer log (la ∷ rows) keys =
    length-append (or_unmatched la (keep (is_match peer la) log)) (joined peer log rows)
    ∙ ground (arith, length-or_unmatched peer la log keys, length-joined peer log rows keys)

-- While the confirmed-sent index keeps its key, the join counts every library row once: the total is
-- the size of the library.
pub counters-total :
    (t : Db) (f : FilterArgs) → HasKeys t.sent_log → (counters t f).total ≡ length t.local_assets
unfolding counters
counters-total t f keys = length-joined f.peer_id t.sent_log t.local_assets keys

HasKeys-update_where :
    (p : SentRow → Bool) (b : List ℕ) (n : ℕ) (log : List SentRow)
    → HasKeys log
    → HasKeys (update_where p (λ r. record r { quick_hash = b; sent_at = n }) log)
unfolding HasKeys
HasKeys-update_where p b n [] keys = keys
HasKeys-update_where p b n (s ∷ log) (fresh, keys) = elim (Bool-cases (p s)) [
  | inl hit ↦ rw hit (kept, HasKeys-update_where p b n log keys)
  | inr miss ↦ rw miss (kept, HasKeys-update_where p b n log keys)
]
  where
    kept :
        any (same_key s) (update_where p (λ r. record r { quick_hash = b; sent_at = n }) log)
        ≡ false
    kept =
        any-update_where p (same_key s) (λ r. record r { quick_hash = b; sent_at = n }) log
          (λ x. refl)
        ∙ fresh

HasKeys-append :
    (log : List SentRow) (x : SentRow)
    → HasKeys log
    → any (λ s. same_key s x) log ≡ false
    → HasKeys (log ++ (x ∷ []))
unfolding HasKeys
HasKeys-append [] x keys new = (refl, _)
HasKeys-append (s ∷ log) x (fresh, keys) new = (
  any-append (same_key s) log (x ∷ []) ∙ ground (arith, fresh),
  HasKeys-append log x keys (ground arith),
)

-- Confirmations keep the key.
mark_sent-HasKeys :
    (t t' : Db) (peer : ℕ) (full quick : Hash32) (now : ℕ)
    → mark_sent t peer full quick now ≡ ok t'
    → HasKeys t.sent_log
    → HasKeys t'.sent_log
unfolding mark_sent
mark_sent-HasKeys t t' peer full quick now e keys =
    elim (Bool-cases (any (is_sent peer full) t.sent_log)) [
      | inl known ↦
          subst (λ (x : Db). HasKeys x.sent_log) (ok-injective _ _ (rw known at e))
            (HasKeys-update_where (is_sent peer full) quick.bytes now t.sent_log keys)
      | inr new ↦ elim (Bool-cases (has_peer t peer)) [
        | inl there ↦
            subst (λ (x : Db). HasKeys x.sent_log) (ok-injective _ _ (rw (new, there) at e))
              (HasKeys-append t.sent_log (sent_row peer full quick now) keys new)
        | inr missing ↦ cc (rw (new, missing) at e)
      ]
    ]

any_forget :
    (id peer : ℕ) (full : Hash32) (log : List SentRow)
    → any (is_sent peer full) (delete_where (λ (r : SentRow). r.peer_id == id) log)
      ≡ (not (id == peer) && any (is_sent peer full) log)
any_forget id peer full [] = ground arith
any_forget id peer full (s ∷ log) = ground (arith, any_forget id peer full log)

-- A forgotten peer is known to hold nothing; what is known of the others stays.
pub was_sent-forget_peer :
    (t : Db) (id peer : ℕ) (full : Hash32)
    → was_sent (forget_peer t id) peer full ≡ (not (id == peer) && was_sent t peer full)
unfolding was_sent forget_peer
was_sent-forget_peer t id peer full = any_forget id peer full t.sent_log
