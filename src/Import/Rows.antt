-- ===== src/Import/Rows.antt =====
-- How an UPDATE by id is seen by the queries: lemmas on the rows of import_job and import_item.
use event_media_platform.Prelude.{
  ℕ, ◌<◌, ◌≡◌, ◌≢◌, refl, inl, inr, Bool, true, List, [], ◌∷◌, ◌++◌, some, arith, ◌==◌, filter,
  find, any, length, Bool-cases, update_by,
}

module _ {ℓ} {A : Type ℓ} (key : A → ℕ) where
  -- A row that is found by its key is the updated one, and no other row changes.
  pub find-update_self :
      (k : ℕ) (f : A → A) (xs : List A) {x : A}
      → ((y : A) → key (f y) ≡ key y)
      → find (λ y. key y == k) xs ≡ some x
      → find (λ y. key y == k) (update_by key k f xs) ≡ some (f x)
  find-update_self k f [] p h = cc
  find-update_self k f (y ∷ xs) {x} p h = elim (Bool-cases (key y == k)) [
    | inl e ↦ ground (arith, p y)
    | inr e ↦ ground (arith, find-update_self k f xs {x = x} p)
  ]

  pub find-update_ne :
      (j k : ℕ) (f : A → A) (xs : List A)
      → ((y : A) → key (f y) ≡ key y)
      → j ≢ k
      → find (λ y. key y == k) (update_by key j f xs) ≡ find (λ y. key y == k) xs
  find-update_ne j k f [] p h = refl
  find-update_ne j k f (y ∷ xs) p h = ground (arith, p y, find-update_ne j k f xs p h)

  -- A test that the update keeps still holds of some row.
  pub any-update :
      (j : ℕ) (f : A → A) (q : A → Bool) (xs : List A)
      → ((y : A) → q y ≡ true → q (f y) ≡ true)
      → any q xs ≡ true
      → any q (update_by key j f xs) ≡ true
  any-update j f q [] p h = h
  any-update j f q (y ∷ xs) p h = ground (arith, p y, any-update j f q xs p)

  -- A row under the key that passes one test is updated into a row that passes another.
  pub any-update_hit :
      (k : ℕ) (f : A → A) (p q : A → Bool) (xs : List A)
      → ((y : A) → p y ≡ true → ((key y == k) ≡ true) × (q (f y) ≡ true))
      → any p xs ≡ true
      → any q (update_by key k f xs) ≡ true
  any-update_hit k f p q [] h e = cc
  any-update_hit k f p q (y ∷ xs) h e = elim (Bool-cases (p y)) [
    | inl t ↦ ground (arith, h y t)
    | inr t ↦ ground (arith, any-update_hit k f p q xs h)
  ]

module _ {ℓ} {A : Type ℓ} where
  pub any-append_left : (q : A → Bool) (xs ys : List A) → any q xs ≡ true → any q (xs ++ ys) ≡ true
  any-append_left q [] ys h = cc
  any-append_left q (x ∷ xs) ys h = ground (arith, any-append_left q xs ys)

  pub any-append_right : (q : A → Bool) (xs ys : List A) → any q ys ≡ true → any q (xs ++ ys) ≡ true
  any-append_right q [] ys h = h
  any-append_right q (x ∷ xs) ys h = ground (arith, any-append_right q xs ys)

  pub any-find :
      (p q : A → Bool) (xs : List A) (x : A) → find p xs ≡ some x → q x ≡ true → any q xs ≡ true
  any-find p q [] x h e = cc
  any-find p q (y ∷ xs) x h e = elim (Bool-cases (p y)) [
    | inl t ↦ ground arith
    | inr t ↦ ground (arith, any-find p q xs x)
  ]

  -- What is found is counted by a filter that it passes.
  pub length-filter-pos :
      (p q : A → Bool) (xs : List A) (x : A)
      → find p xs ≡ some x
      → q x ≡ true
      → 0 < length (filter q xs)
  length-filter-pos p q [] x h e = cc
  length-filter-pos p q (y ∷ xs) x h e = elim (Bool-cases (p y)) [
    | inl t ↦ ground arith
    | inr t ↦ ground (arith, length-filter-pos p q xs x)
  ]
