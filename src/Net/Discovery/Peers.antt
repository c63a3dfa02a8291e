-- ===== src/Net/Discovery/Peers.antt =====
-- `group_by_peer` of crates/net/src/discovery.rs against a description by filters.
use photosync.Prelude.{
  ◌≡◌, refl, ◌∙◌, ap, sym, subst, append-nil, append_assoc, Bool, true, false, Option, none, some,
  List, [], ◌∷◌, ◌++◌, map, arith, keep, Bool-cases, inl, inr,
}
use photosync.Prelude.Rows.{keep-append, keep-cons, keep-drop, map-append}
use photosync.Model.{Hash32, hash_eq}
use photosync.Model.Laws.{hash_eq_iff, hash_eq_refl}
use photosync.Net.Discovery.{
  Announcement, Candidate, announces, leads, is_group, join_group, grouped_with, group_all,
  group_by_peer,
}
use photosync.Net.Discovery.Groups.{join_group_new, join_group_own, join_group_other}

-- One group of these, or none if there are none.
abbrev pub one_group : List Candidate → List (List Candidate)
one_group [] = []
one_group (c ∷ cs) = (c ∷ cs) ∷ []

abbrev pub is_scanned : Candidate → Bool
is_scanned c = elim c.announced [ none ↦ true | some a ↦ false ]

abbrev pub alone : Candidate → List Candidate
alone c = c ∷ []

-- Two candidates with one certificate are announced, and by the same peers.
announces_alike :
    (own fp : Hash32) (x c : Candidate)
    → announces own x ≡ true
    → announces own c ≡ true
    → announces fp x ≡ announces fp c
announces_alike own fp x c hx hc = alike x.announced c.announced hx hc
  where
    alike :
        (a b : Option Announcement)
        → (elim a [ none ↦ false | some y ↦ hash_eq y.fp own ]) ≡ true
        → (elim b [ none ↦ false | some y ↦ hash_eq y.fp own ]) ≡ true
        → (elim a [ none ↦ false | some y ↦ hash_eq y.fp fp ])
          ≡ (elim b [ none ↦ false | some y ↦ hash_eq y.fp fp ])
    alike none b ha hb = absurd (ground arith)
    alike (some y) none ha hb = absurd (ground arith)
    alike (some y) (some z) ha hb =
        ap (λ (h : Hash32). hash_eq h fp)
          ((hash_eq_iff y.fp own).0 ha ∙ sym ((hash_eq_iff z.fp own).0 hb))

announces-is_scanned :
    (own : Hash32) (x : Candidate) → announces own x ≡ true → is_scanned x ≡ false
announces-is_scanned own x h = on_announced x.announced h
  where
    on_announced :
        (a : Option Announcement)
        → (elim a [ none ↦ false | some y ↦ hash_eq y.fp own ]) ≡ true
        → (elim a [ none ↦ true | some y ↦ false ]) ≡ false
    on_announced none h' = absurd (ground arith)
    on_announced (some y) h' = refl

module _ (c : Candidate) (groups : List (List Candidate)) where
  announced_by :
      (fp : Hash32) (a : Option Announcement)
      → c.announced ≡ a
      → announces fp c ≡ (elim a [ none ↦ false | some y ↦ hash_eq y.fp fp ])
  announced_by fp a e =
      ap (λ (z : Option Announcement). elim z [ none ↦ false | some y ↦ hash_eq y.fp fp ]) e

  -- The same groups, when the candidate is not of this peer.
  unchanged :
      (fp : Hash32) (mates : List Candidate)
      → announces fp c ≡ false
      → keep (is_group fp) groups ≡ one_group mates
      → keep (is_group fp) groups ≡ one_group (mates ++ keep (announces fp) (c ∷ []))
  unchanged fp mates other h =
      h
      ∙ ap one_group (sym (append-nil mates))
      ∙ ap (λ (z : List Candidate). one_group (mates ++ z))
          (sym (keep-drop (announces fp) c [] other))

  -- The group of its peer, when the candidate joins it.
  joined :
      (fp : Hash32) (mates : List Candidate)
      → announces fp c ≡ true
      → keep (is_group fp) groups ≡ one_group mates
      → keep (is_group fp) (join_group fp c groups)
        ≡ one_group (mates ++ keep (announces fp) (c ∷ []))
  joined fp mates mine h =
      with_mates mates h
      ∙ ap (λ (z : List Candidate). one_group (mates ++ z))
          (sym (keep-cons (announces fp) c [] mine))
    where
      with_mates :
          (m : List Candidate)
          → keep (is_group fp) groups ≡ one_group m
          → keep (is_group fp) (join_group fp c groups) ≡ one_group (m ++ (c ∷ []))
      with_mates [] h' = join_group_new fp c mine groups h'
      with_mates (x ∷ m) h' = join_group_own fp c mine groups (x ∷ m) h'

  -- What a round does to the group of one peer.
  round-group :
      (fp : Hash32) (mates : List Candidate) (a : Option Announcement)
      → c.announced ≡ a
      → keep (is_group fp) groups ≡ one_group mates
      → keep (is_group fp) (grouped_with c a groups)
        ≡ one_group (mates ++ keep (announces fp) (c ∷ []))
  round-group fp mates none e h =
      keep-append (is_group fp) groups ((c ∷ []) ∷ [])
      ∙ ap (λ (z : List (List Candidate)). keep (is_group fp) groups ++ z)
          (keep-drop (is_group fp) (c ∷ []) [] (announced_by fp none e))
      ∙ append-nil (keep (is_group fp) groups)
      ∙ unchanged fp mates (announced_by fp none e) h
  round-group fp mates (some a) e h = elim (Bool-cases (announces fp c)) [
    | inl same ↦
        subst
          (λ (k : Hash32).
            keep (is_group fp) (join_group k c groups)
            ≡ one_group (mates ++ keep (announces fp) (c ∷ [])))
          (sym ((hash_eq_iff a.fp fp).0 (sym (announced_by fp (some a) e) ∙ same)))
          (joined fp mates same h)
    | inr other ↦
        let own : announces a.fp c ≡ true = announced_by a.fp (some a) e ∙ hash_eq_refl a.fp in
        join_group_other (announces fp) a.fp c (λ x hx. announces_alike a.fp fp x c hx own ∙ other)
          own groups
        ∙ unchanged fp mates other h
  ]

  -- And to the candidates that stand alone.
  round-alone :
      (a : Option Announcement)
      → c.announced ≡ a
      → keep (leads is_scanned) (grouped_with c a groups)
        ≡ keep (leads is_scanned) groups ++ map alone (keep is_scanned (c ∷ []))
  round-alone none e =
      keep-append (leads is_scanned) groups ((c ∷ []) ∷ [])
      ∙ ap (λ (z : List (List Candidate)). keep (leads is_scanned) groups ++ z)
          (keep-cons (leads is_scanned) (c ∷ []) [] scanned
            ∙ ap (map alone) (sym (keep-cons is_scanned c [] scanned)))
    where
      scanned : is_scanned c ≡ true
      scanned = ap (λ (z : Option Announcement). elim z [ none ↦ true | some y ↦ false ]) e
  round-alone (some a) e =
      join_group_other is_scanned a.fp c (λ x hx. announces-is_scanned a.fp x hx) own groups
      ∙ sym (append-nil (keep (leads is_scanned) groups))
      ∙ ap (λ (z : List Candidate). keep (leads is_scanned) groups ++ map alone z)
          (sym (keep-drop is_scanned c [] (announces-is_scanned a.fp c own)))
    where
      own : announces a.fp c ≡ true
      own = announced_by a.fp (some a) e ∙ hash_eq_refl a.fp

group_all-group :
    (fp : Hash32) (cs : List Candidate) (groups : List (List Candidate)) (mates : List Candidate)
    → keep (is_group fp) groups ≡ one_group mates
    → keep (is_group fp) (group_all groups cs) ≡ one_group (mates ++ keep (announces fp) cs)
unfolding group_all
group_all-group fp [] groups mates h = h ∙ ap one_group (sym (append-nil mates))
group_all-group fp (c ∷ cs) groups mates h =
    group_all-group fp cs (grouped_with c c.announced groups)
      (mates ++ keep (announces fp) (c ∷ [])) (round-group c groups fp mates c.announced refl h)
    ∙ ap one_group (
        append_assoc mates (keep (announces fp) (c ∷ [])) (keep (announces fp) cs)
        ∙ ap (λ (z : List Candidate). mates ++ z) (sym (keep-append (announces fp) (c ∷ []) cs)))

group_all-alone :
    (cs : List Candidate) (groups : List (List Candidate))
    → keep (leads is_scanned) (group_all groups cs)
      ≡ keep (leads is_scanned) groups ++ map alone (keep is_scanned cs)
unfolding group_all
group_all-alone [] groups = sym (append-nil (keep (leads is_scanned) groups))
group_all-alone (c ∷ cs) groups =
    group_all-alone cs (grouped_with c c.announced groups)
    ∙ ap (λ (z : List (List Candidate)). z ++ map alone (keep is_scanned cs))
        (round-alone c groups c.announced refl)
    ∙ append_assoc (keep (leads is_scanned) groups) (map alone (keep is_scanned (c ∷ [])))
        (map alone (keep is_scanned cs))
    ∙ ap (λ (z : List (List Candidate)). keep (leads is_scanned) groups ++ z)
        (sym (map-append alone (keep is_scanned (c ∷ [])) (keep is_scanned cs))
          ∙ ap (map alone) (sym (keep-append is_scanned (c ∷ []) cs)))

-- The groups that a certificate leads are one, of all its candidates in the order they were found, or
-- none if it has no candidate; and the groups that a candidate of the scan leads are the candidates of
-- the scan, each on its own.
pub group_by_peer_groups :
    (fp : Hash32) (cs : List Candidate)
    → (keep (is_group fp) (group_by_peer cs) ≡ one_group (keep (announces fp) cs))
      × (keep (leads is_scanned) (group_by_peer cs) ≡ map alone (keep is_scanned cs))
unfolding group_by_peer
group_by_peer_groups fp cs = (group_all-group fp cs [] [] refl, group_all-alone cs [])
