-- ===== src/Prelude/Rows.antt =====
-- Tables as lists of rows: what a lookup finds after an update, a deletion or an insertion.
use mathlib.Core.Option
use photosync.Prelude.{
  ◌+◌, ◌≡◌, refl, Bool, true, false, ◌||◌, not, none, some, List, [], ◌∷◌, ◌++◌, arith, length,
  find, any, all, keep, update_where, delete_where, insert_by, sort_by, inl, inr, if◌then◌else◌,
  map, ◌⊎◌,
}

module _ {ℓ} {A : Type ℓ} where
  -- A lookup that the update does not hide, at the rows that are updated.
  pub find-update_where_hit :
      (p q : A → Bool) (f : A → A) (xs : List A)
      → ((x : A) → q x ≡ p x)
      → ((x : A) → q (f x) ≡ q x)
      → find q (update_where p f xs) ≡ Option.map f (find q xs)
  unfolding Option.map
  find-update_where_hit p q f [] same kept = refl
  find-update_where_hit p q f (x ∷ xs) same kept =
      ground (arith, same x, kept x, find-update_where_hit p q f xs same kept)

  -- And at the others.
  pub find-update_where_miss :
      (p q : A → Bool) (f : A → A) (xs : List A)
      → ((x : A) → p x ≡ true → q x ≡ false)
      → ((x : A) → q (f x) ≡ q x)
      → find q (update_where p f xs) ≡ find q xs
  find-update_where_miss p q f [] apart kept = refl
  find-update_where_miss p q f (x ∷ xs) apart kept =
      ground (arith, apart x, kept x, find-update_where_miss p q f xs apart kept)

  pub find-delete_where_hit : (p : A → Bool) (xs : List A) → find p (delete_where p xs) ≡ none
  find-delete_where_hit p [] = refl
  find-delete_where_hit p (x ∷ xs) = ground (arith, find-delete_where_hit p xs)

  pub find-delete_where_miss :
      (p q : A → Bool) (xs : List A)
      → ((x : A) → p x ≡ true → q x ≡ false)
      → find q (delete_where p xs) ≡ find q xs
  find-delete_where_miss p q [] apart = refl
  find-delete_where_miss p q (x ∷ xs) apart =
      ground (arith, apart x, find-delete_where_miss p q xs apart)

  pub find-append_none :
      (q : A → Bool) (xs ys : List A) → any q xs ≡ false → find q (xs ++ ys) ≡ find q ys
  find-append_none q [] ys h = refl
  find-append_none q (x ∷ xs) ys h = ground (arith, find-append_none q xs ys)

  pub find-append_some :
      (q : A → Bool) (xs ys : List A) → any q xs ≡ true → find q (xs ++ ys) ≡ find q xs
  find-append_some q [] ys h = cc
  find-append_some q (x ∷ xs) ys h = ground (arith, find-append_some q xs ys)

  pub any-append : (q : A → Bool) (xs ys : List A) → any q (xs ++ ys) ≡ (any q xs || any q ys)
  any-append q [] ys = refl
  any-append q (x ∷ xs) ys = ground (arith, any-append q xs ys)

  -- An update that leaves a test alone leaves its answer alone.
  pub any-update_where :
      (p q : A → Bool) (f : A → A) (xs : List A)
      → ((x : A) → q (f x) ≡ q x)
      → any q (update_where p f xs) ≡ any q xs
  any-update_where p q f [] kept = refl
  any-update_where p q f (x ∷ xs) kept = ground (arith, kept x, any-update_where p q f xs kept)

  pub any-find : (q : A → Bool) (xs : List A) (x : A) → find q xs ≡ some x → any q xs ≡ true
  any-find q [] x h = cc
  any-find q (y ∷ xs) x h = ground (arith, any-find q xs x)

  -- Sorting loses no row.
  length-insert_by :
      (before : A → A → Bool) (x : A) (xs : List A) → length (insert_by before x xs) ≡ length xs + 1
  length-insert_by before x [] = refl
  length-insert_by before x (y ∷ ys) = ground (arith, length-insert_by before x ys)

  pub length-sort_by :
      (before : A → A → Bool) (xs : List A) → length (sort_by before xs) ≡ length xs
  length-sort_by before [] = refl
  length-sort_by before (x ∷ xs) =
      ground (arith, length-insert_by before x (sort_by before xs), length-sort_by before xs)

  any-insert_by :
      (before : A → A → Bool) (q : A → Bool) (x : A) (xs : List A)
      → any q (insert_by before x xs) ≡ (q x || any q xs)
  any-insert_by before q x [] = refl
  any-insert_by before q x (y ∷ ys) = ground (arith, any-insert_by before q x ys)

  pub any-sort_by :
      (before : A → A → Bool) (q : A → Bool) (xs : List A) → any q (sort_by before xs) ≡ any q xs
  any-sort_by before q [] = refl
  any-sort_by before q (x ∷ xs) =
      ground (arith, any-insert_by before q x (sort_by before xs), any-sort_by before q xs)

  pub keep-cons :
      (p : A → Bool) (x : A) (xs : List A) → p x ≡ true → keep p (x ∷ xs) ≡ x ∷ keep p xs
  keep-cons p x xs h = ground arith

  pub keep-drop : (p : A → Bool) (x : A) (xs : List A) → p x ≡ false → keep p (x ∷ xs) ≡ keep p xs
  keep-drop p x xs h = ground arith

  pub keep-append : (p : A → Bool) (xs ys : List A) → keep p (xs ++ ys) ≡ keep p xs ++ keep p ys
  keep-append p [] ys = refl
  keep-append p (x ∷ xs) ys = ground (arith, keep-append p xs ys)

  pub any-keep_none : (p : A → Bool) (xs : List A) → keep p xs ≡ [] → any p xs ≡ false
  any-keep_none p [] h = refl
  any-keep_none p (x ∷ xs) h = ground (arith, any-keep_none p xs)

  pub any-keep_some :
      (p : A → Bool) (xs : List A) (y : A) (ys : List A) → keep p xs ≡ y ∷ ys → any p xs ≡ true
  any-keep_some p [] y ys h = cc
  any-keep_some p (x ∷ xs) y ys h = ground (arith, any-keep_some p xs y ys)

  pub List-cases : (xs : List A) → (xs ≡ []) ⊎ ((y : A) × (ys : List A) × (xs ≡ y ∷ ys))
  List-cases [] = inl refl
  List-cases (x ∷ xs) = inr (x, xs, refl)

  -- A lookup by another test than the update's.
  pub find-update_where :
      (p q : A → Bool) (f : A → A) (xs : List A)
      → ((x : A) → q (f x) ≡ q x)
      → find q (update_where p f xs) ≡ Option.map (λ x. if p x then f x else x) (find q xs)
  unfolding Option.map
  find-update_where p q f [] kept = refl
  find-update_where p q f (x ∷ xs) kept = ground (arith, kept x, find-update_where p q f xs kept)

  pub any-update_where_none :
      (p q : A → Bool) (f : A → A) (xs : List A)
      → ((x : A) → p x ≡ true → q (f x) ≡ false)
      → ((x : A) → p x ≡ false → q x ≡ false)
      → any q (update_where p f xs) ≡ false
  any-update_where_none p q f [] hit miss = refl
  any-update_where_none p q f (x ∷ xs) hit miss =
      ground (arith, hit x, miss x, any-update_where_none p q f xs hit miss)

  pub any-update_where_join :
      (p q : A → Bool) (f : A → A) (xs : List A)
      → ((x : A) → q (f x) ≡ true)
      → any q (update_where p f xs) ≡ (any p xs || any q xs)
  any-update_where_join p q f [] hit = refl
  any-update_where_join p q f (x ∷ xs) hit =
      ground (arith, hit x, any-update_where_join p q f xs hit)

  pub all-keep : (p q : A → Bool) (xs : List A) → all q (keep p xs) ≡ all (λ x. not (p x) || q x) xs
  all-keep p q [] = refl
  all-keep p q (x ∷ xs) = ground (arith, all-keep p q xs)

  pub all-keep_self : (p : A → Bool) (xs : List A) → all p (keep p xs) ≡ true
  all-keep_self p [] = refl
  all-keep_self p (x ∷ xs) = ground (arith, all-keep_self p xs)

  pub any_mono :
      (p q : A → Bool) (xs : List A)
      → ((x : A) → p x ≡ true → q x ≡ true)
      → any p xs ≡ true
      → any q xs ≡ true
  any_mono p q [] imp h = h
  any_mono p q (x ∷ xs) imp h = ground (arith, imp x, any_mono p q xs imp)

  pub keep-any_none :
      (p q : A → Bool) (xs : List A)
      → ((x : A) → p x ≡ true → q x ≡ true)
      → any q xs ≡ false
      → keep p xs ≡ []
  keep-any_none p q [] imp h = refl
  keep-any_none p q (x ∷ xs) imp h = ground (arith, imp x, keep-any_none p q xs imp)

module _ {ℓ κ} {A : Type ℓ} {B : Type κ} where
  pub map-append : (f : A → B) (xs ys : List A) → map f (xs ++ ys) ≡ map f xs ++ map f ys
  map-append f [] ys = refl
  map-append f (x ∷ xs) ys = ground (arith, map-append f xs ys)

  pub length-map : (f : A → B) (xs : List A) → length (map f xs) ≡ length xs
  length-map f [] = refl
  length-map f (x ∷ xs) = ground (arith, length-map f xs)

  pub keep-map_none :
      (p : B → Bool) (f : A → B) (xs : List A)
      → ((x : A) → p (f x) ≡ false)
      → keep p (map f xs) ≡ []
  keep-map_none p f [] never = refl
  keep-map_none p f (x ∷ xs) never = ground (arith, never x, keep-map_none p f xs never)
