-- ===== src/Net/Discovery/Groups.antt =====
-- `group_by_peer` of crates/net/src/discovery.rs: what one candidate does to the groups.
use photosync.Prelude.{
  ◌≡◌, ◌∙◌, ap, sym, Bool, true, false, List, [], ◌∷◌, ◌++◌, arith, keep, Bool-cases, inl, inr,
}
use photosync.Prelude.Rows.{keep-cons, keep-drop}
use photosync.Model.{Hash32}
use photosync.Net.Discovery.{Candidate, announces, leads, is_group, join_group}

module _ (fp : Hash32) (c : Candidate) (mine : announces fp c ≡ true) where
  is_group-append : (g : List Candidate) → is_group fp g ≡ true → is_group fp (g ++ (c ∷ [])) ≡ true
  is_group-append [] h = absurd (ground arith)
  is_group-append (x ∷ g) h = h

  -- The first candidate of a peer makes its group.
  pub join_group_new :
      (groups : List (List Candidate))
      → keep (is_group fp) groups ≡ []
      → keep (is_group fp) (join_group fp c groups) ≡ (c ∷ []) ∷ []
  unfolding join_group
  join_group_new [] e = keep-cons (is_group fp) (c ∷ []) [] mine
  join_group_new (g ∷ gs) e = elim (Bool-cases (is_group fp g)) [
    | inl here ↦ cc (sym (keep-cons (is_group fp) g gs here) ∙ e)
    | inr there ↦ rw there (
        keep-drop (is_group fp) g (join_group fp c gs) there
        ∙ join_group_new gs (sym (keep-drop (is_group fp) g gs there) ∙ e))
  ]

  abbrev push_first : List (List Candidate) → List (List Candidate)
  push_first [] = []
  push_first (g ∷ gs) = (g ++ (c ∷ [])) ∷ gs

  -- The group of its own peer grows by it.
  pub join_group_own :
      (groups : List (List Candidate)) (mates : List Candidate)
      → keep (is_group fp) groups ≡ mates ∷ []
      → keep (is_group fp) (join_group fp c groups) ≡ (mates ++ (c ∷ [])) ∷ []
  unfolding join_group
  join_group_own [] mates e = cc
  join_group_own (g ∷ gs) mates e = elim (Bool-cases (is_group fp g)) [
    | inl here ↦
        let h : g ∷ keep (is_group fp) gs ≡ mates ∷ [] =
          sym (keep-cons (is_group fp) g gs here) ∙ e in
        rw here (
          keep-cons (is_group fp) (g ++ (c ∷ [])) gs (is_group-append g here)
          ∙ grown g (keep (is_group fp) gs) h)
    | inr there ↦ rw there (
        keep-drop (is_group fp) g (join_group fp c gs) there
        ∙ join_group_own gs mates (sym (keep-drop (is_group fp) g gs there) ∙ e))
  ]
    where
      grown :
          (x : List Candidate) (rest : List (List Candidate))
          → x ∷ rest ≡ mates ∷ []
          → (x ++ (c ∷ [])) ∷ rest ≡ (mates ++ (c ∷ [])) ∷ []
      grown x rest e' = ap (λ (gs : List (List Candidate)). push_first gs) e'

-- Groups told apart by a test of their first candidate, on which the new one and its mates fail, are
-- as they were.
module _ (p : Candidate → Bool) (own : Hash32) (c : Candidate)
    (other : (x : Candidate) → announces own x ≡ true → p x ≡ false)
    (mine : announces own c ≡ true) where
  leads-append :
      (g : List Candidate)
      → is_group own g ≡ true
      → (leads p g ≡ false) × (leads p (g ++ (c ∷ [])) ≡ false)
  leads-append [] h = absurd (ground arith)
  leads-append (x ∷ g) h = (other x h, other x h)

  pub join_group_other :
      (groups : List (List Candidate))
      → keep (leads p) (join_group own c groups) ≡ keep (leads p) groups
  unfolding join_group
  join_group_other [] = keep-drop (leads p) (c ∷ []) [] (other c mine)
  join_group_other (g ∷ gs) = elim (Bool-cases (is_group own g)) [
    | inl here ↦ rw here (
        keep-drop (leads p) (g ++ (c ∷ [])) gs (leads-append g here).1
        ∙ sym (keep-drop (leads p) g gs (leads-append g here).0))
    | inr there ↦ rw there (elim (Bool-cases (leads p g)) [
      | inl yes_lead ↦
          keep-cons (leads p) g (join_group own c gs) yes_lead
          ∙ ap (◌∷◌ g) (join_group_other gs)
          ∙ sym (keep-cons (leads p) g gs yes_lead)
      | inr no_lead ↦
          keep-drop (leads p) g (join_group own c gs) no_lead
          ∙ join_group_other gs
          ∙ sym (keep-drop (leads p) g gs no_lead)
    ])
  ]
