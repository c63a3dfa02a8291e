-- ===== src/Session/Lifecycle.antt =====
-- The states of a session in crates/core/src/session.rs: opening, the sweep at launch, the Resume offer.
use text.Mathlib.TextEquality.{eq_iff}
use photosync.Prelude.{
  ℕ, ◌≤◌, ◌<◌, ◌≡◌, refl, ◌∙◌, ap, sym, subst, Bool, true, false, ◌||◌, not, Option, none, some,
  List, [], ◌∷◌, arith, String, any, all, ltb, leb, keep, find as find_row, Bool-cases,
  Option-cases, inl, inr,
}
use photosync.Prelude.Int.{from_i64, from_i64-to_i64, u64_mod}
use photosync.Prelude.Rows.{
  find-append_none, all-keep, all-keep_self, any-update_where_none, any-update_where_join,
}
use photosync.Errors.{ok, ok-injective, Result-cases}
use photosync.Model.{
  SessionRole, active, interrupted, session_role_str, session_state_str, parse_session_role,
  parse_session_state,
}
use photosync.Model.Laws.{parse_session_role_iff, parse_session_state_iff}
use photosync.Db.{Db, SessionRow}
use photosync.Session.{
  Session, is_session, new_session, begun, begin, get, session_from_row, read_session, peer_exists,
  is_in, sweep_stale_active, latest, latest_resumable,
}

-- The sweep at launch leaves no session active, and there is something to resume afterwards exactly
-- when some session was interrupted before or was left active.
pub sweep_stale_active_states :
    (t : Db) (now : ℕ)
    → (any (is_in active) (sweep_stale_active t now).1.sessions ≡ false)
      × (any (is_in interrupted) (sweep_stale_active t now).1.sessions
          ≡ (any (is_in active) t.sessions || any (is_in interrupted) t.sessions))
unfolding sweep_stale_active session_state_str
sweep_stale_active_states t now = (
  any-update_where_none (is_in active) (is_in active)
      (λ r. record r { state = session_state_str interrupted; finished_at = some now }) t.sessions
      (λ r h. refl) (λ r h. h),
  any-update_where_join (is_in active) (is_in interrupted)
      (λ r. record r { state = session_state_str interrupted; finished_at = some now }) t.sessions
      (λ r. refl),
)

session_from_row-new_session :
    (id : String) (role : SessionRole) (peer : Option ℕ) (items bytes now : ℕ)
    → items < u64_mod
    → bytes < u64_mod
    → session_from_row (new_session id role peer items bytes now)
      ≡ ok (begun id role peer items bytes now)
unfolding session_from_row from_i64
session_from_row-new_session id role peer items bytes now h k = ground (
  arith,
  (parse_session_role_iff (session_role_str role) role).1 refl,
  (parse_session_state_iff (session_state_str active) active).1 refl,
  from_i64-to_i64 items h,
  from_i64-to_i64 bytes k,
)

find-begun :
    (id : String) (role : SessionRole) (peer : Option ℕ) (items bytes now : ℕ)
    → find_row (is_session id) (new_session id role peer items bytes now ∷ [])
      ≡ some (new_session id role peer items bytes now)
find-begun id role peer items bytes now = rw ((eq_iff id id).1 refl, find_row) refl

-- A session that is begun, with totals that are u64, is on record as it was answered.
pub get-begin :
    (t t' : Db) (id : String) (role : SessionRole) (peer : Option ℕ) (items bytes now : ℕ)
    (s : Session)
    → items < u64_mod
    → bytes < u64_mod
    → begin t id role peer items bytes now ≡ ok (s, t')
    → get t' id ≡ ok (some s)
unfolding begin get
get-begin t t' id role peer items bytes now s h k e =
    elim (Bool-cases (any (is_session id) t.sessions)) [
      | inl old ↦ cc (rw old at e)
      | inr new ↦ elim (Bool-cases (peer_exists t peer)) [
        | inr missing ↦ cc (rw (new, missing) at e)
        | inl there ↦
            ap (λ (p : Session × Db). get p.1 id) (sym (ok-injective _ _ (rw (new, there) at e)))
            ∙ ap read_session (
                find-append_none (is_session id) t.sessions
                  (new_session id role peer items bytes now ∷ []) new
                ∙ find-begun id role peer items bytes now)
            ∙ rw (session_from_row-new_session id role peer items bytes now h k, read_session) refl
            ∙ ap (λ (p : Session × Db). ok (some p.0)) (ok-injective _ _ (rw (new, there) at e))
      ]
    ]

latest_newest :
    (b r : SessionRow) (rows : List SessionRow)
    → latest (some b) rows ≡ some r
    → (b.started_at ≤ r.started_at)
      × (all (λ (x : SessionRow). leb x.started_at r.started_at) rows ≡ true)
latest_newest b r [] e = (ground arith, refl)
latest_newest b r (x ∷ rows) e = elim (Bool-cases (ltb b.started_at x.started_at)) [
  | inl newer ↦ ground (arith, newer, latest_newest x r rows (rw (newer, latest) at e))
  | inr older ↦ ground (arith, older, latest_newest b r rows (rw (older, latest) at e))
]

latest-all :
    (p : SessionRow → Bool) (b r : SessionRow) (rows : List SessionRow)
    → p b ≡ true
    → all p rows ≡ true
    → latest (some b) rows ≡ some r
    → p r ≡ true
latest-all p b r [] h k e = cc
latest-all p b r (x ∷ rows) h k e = elim (Bool-cases (ltb b.started_at x.started_at)) [
  | inl newer ↦
      latest-all p x r rows (ground (arith, k)) (ground (arith, k)) (rw (newer, latest) at e)
  | inr older ↦ latest-all p b r rows h (ground (arith, k)) (rw (older, latest) at e)
]

-- The row that a listing starts with or ends with is as the others.
latest_lem :
    (p : SessionRow → Bool) (r : SessionRow) (rows : List SessionRow)
    → all p rows ≡ true
    → latest none rows ≡ some r
    → (p r ≡ true) × (all (λ (x : SessionRow). leb x.started_at r.started_at) rows ≡ true)
latest_lem p r [] k e = cc
latest_lem p r (x ∷ rows) k e = (
  latest-all p x r rows (ground (arith, k)) (ground (arith, k)) e,
  ground (arith, latest_newest x r rows e),
)

session_from_row_parts :
    (r : SessionRow) (s : Session)
    → session_from_row r ≡ ok s
    → (s.started_at ≡ r.started_at) × (parse_session_state r.state ≡ some s.state)
unfolding session_from_row
session_from_row_parts r s e = elim (Option-cases (parse_session_role r.role)) [
  | inl bad ↦ cc (rw (bad, session_from_row) at e)
  | inr (role, good) ↦ elim (Option-cases (parse_session_state r.state)) [
    | inl bad ↦ cc (rw (good, bad, session_from_row) at e)
    | inr (state, known) ↦ (
      ap (λ (x : Session). x.started_at)
          (sym (ok-injective _ _ (rw (good, known, session_from_row) at e))),
      known
          ∙ ap (λ (x : Session). some x.state)
              (ok-injective _ _ (rw (good, known, session_from_row) at e)),
    )
  ]
]

-- The session that the Resume offer names is an interrupted one, and no interrupted session on record
-- started later.
pub latest_resumable_newest :
    (t : Db) (s : Session)
    → latest_resumable t ≡ ok (some s)
    → (s.state ≡ interrupted)
      × (all
            (λ (x : SessionRow). not (is_in interrupted x) || leb x.started_at s.started_at)
            t.sessions
          ≡ true)
unfolding latest_resumable
latest_resumable_newest t s e =
    elim (Option-cases (latest none (keep (is_in interrupted) t.sessions))) [
      | inl nothing ↦ cc (rw (nothing, read_session) at e)
      | inr (r, found) ↦ elim (Result-cases (session_from_row r)) [
        | inr (x, bad) ↦ cc (rw (found, read_session, bad) at e)
        | inl (s', good) ↦
            newest r found (good ∙ ap ok (same_session s' (rw (found, read_session, good) at e)))
      ]
    ]
  where
    same_session : (s' : Session) → ok (some s') ≡ ok (some s) → s' ≡ s
    same_session s' q = cc

    same_state : some s.state ≡ some interrupted → s.state ≡ interrupted
    same_state q = cc

    newest :
        (r : SessionRow)
        → latest none (keep (is_in interrupted) t.sessions) ≡ some r
        → session_from_row r ≡ ok s
        → (s.state ≡ interrupted)
          × (all
                (λ (x : SessionRow). not (is_in interrupted x) || leb x.started_at s.started_at)
                t.sessions
              ≡ true)
    newest r found good =
        (let last =
            latest_lem (is_in interrupted) r (keep (is_in interrupted) t.sessions)
              (all-keep_self (is_in interrupted) t.sessions) found in
          let parts = session_from_row_parts r s good in
          (
            same_state (
                sym parts.1
                ∙ (parse_session_state_iff r.state interrupted).1
                    ((eq_iff r.state (session_state_str interrupted)).0 last.0)),
            subst
                (λ n.
                  all (λ (x : SessionRow). not (is_in interrupted x) || leb x.started_at n)
                    t.sessions
                  ≡ true)
                (sym parts.0)
                (sym (
                    all-keep (is_in interrupted) (λ (x : SessionRow). leb x.started_at r.started_at)
                      t.sessions)
                  ∙ last.1),
          ))
