-- ===== src/Prelude/Lists.antt =====
-- Lists measured by native numbers, with Boolean filters and searches as in the source.
use Prim.Native.Nat.{ℕ, zero, suc, ◌+◌, ◌≤◌}
use mathlib.Core.Path.{◌≡◌, refl}
use mathlib.Core.Logic.{inl, inr}
use mathlib.Core.Bool.{Bool, true, false, ◌&&◌, ◌||◌}
use mathlib.Core.List.{List, [], ◌∷◌, ◌++◌, map}
use mathlib.Core.Option.{Option, none, some}
use native.Mathlib.Omega.{arith}
use event_media_platform.Prelude.Tests.{leb, ◌==◌, if◌then◌else◌, Bool-cases}

module _ {ℓ} {A : Type ℓ} where
  abbrev pub length : List A → ℕ
  length [] = 0
  length (x ∷ xs) = suc (length xs)

  abbrev pub take : ℕ → List A → List A
  take zero xs = []
  take (suc n) [] = []
  take (suc n) (x ∷ xs) = x ∷ take n xs

  -- Array.prototype.filter
  abbrev pub filter : (A → Bool) → List A → List A
  filter p [] = []
  filter p (x ∷ xs) = if p x then x ∷ filter p xs else filter p xs

  -- Array.prototype.find
  abbrev pub find : (A → Bool) → List A → Option A
  find p [] = none
  find p (x ∷ xs) = if p x then some x else find p xs

  -- Array.prototype.some
  abbrev pub any : (A → Bool) → List A → Bool
  any p [] = false
  any p (x ∷ xs) = p x || any p xs

  -- Array.prototype.every
  abbrev pub every : (A → Bool) → List A → Bool
  every p [] = true
  every p (x ∷ xs) = p x && every p xs

  -- The sum that the source writes as `reduce((sum, x) => sum + f(x), 0)`.
  abbrev pub sum_by : (A → ℕ) → List A → ℕ
  sum_by f [] = 0
  sum_by f (x ∷ xs) = f x + sum_by f xs

  abbrev pub head? : List A → Option A
  head? [] = none
  head? (x ∷ xs) = some x

  -- Array.prototype.at(-1)
  abbrev pub last? : List A → Option A
  last? [] = none
  last? (x ∷ []) = some x
  last? (x ∷ y ∷ xs) = last? (y ∷ xs)

  abbrev pub All {κ} : (A → Type κ) → List A → Type κ
  All P [] = Unit
  All P (x ∷ xs) = P x × All P xs

module _ {ℓ} {A : Type ℓ} where
  pub length-append : (xs ys : List A) → length (xs ++ ys) ≡ length xs + length ys
  length-append [] ys = omega arith
  length-append (x ∷ xs) ys = omega (arith, length-append xs ys)

  pub length-filter-le : (p : A → Bool) (xs : List A) → length (filter p xs) ≤ length xs
  length-filter-le p [] = omega arith
  length-filter-le p (x ∷ xs) = ground (arith, length-filter-le p xs)

  pub filter-All : (p : A → Bool) (xs : List A) → All (λ x. p x ≡ true) (filter p xs)
  filter-All p [] = tt
  filter-All p (x ∷ xs) = elim (Bool-cases (p x)) [
    | inl e ↦ rw (e, filter) (e, filter-All p xs)
    | inr e ↦ rw (e, filter) (filter-All p xs)
  ]

  pub find_holds : (p : A → Bool) (xs : List A) {x : A} → find p xs ≡ some x → p x ≡ true
  find_holds p [] h = cc
  find_holds p (y ∷ xs) {x} h = elim (Bool-cases (p y)) [
    | inl e ↦ ground arith
    | inr e ↦ ground (arith, find_holds p xs {x = x})
  ]

module _ {ℓ} {A : Type ℓ} where
  -- `UPDATE … SET … WHERE key = k`
  abbrev pub update_by : (A → ℕ) → ℕ → (A → A) → List A → List A
  update_by key k f [] = []
  update_by key k f (x ∷ xs) = (if key x == k then f x else x) ∷ update_by key k f xs

module _ {ℓ} {A : Type ℓ} where
  pub All-map {κ μ} :
      {P : A → Type κ} {Q : A → Type μ}
      → ((x : A) → P x → Q x)
      → (xs : List A) → All P xs
      → All Q xs
  All-map f [] h = tt
  All-map f (x ∷ xs) h = (f x h.0, All-map f xs h.1)

  pub sum_by-append : (f : A → ℕ) (xs ys : List A) → sum_by f (xs ++ ys) ≡ sum_by f xs + sum_by f ys
  sum_by-append f [] ys = omega arith
  sum_by-append f (x ∷ xs) ys = omega (arith, sum_by-append f xs ys)

  pub All-filter {κ} :
      (P : A → Type κ) (q : A → Bool) (xs : List A) → All P xs → All P (filter q xs)
  All-filter P q [] h = tt
  All-filter P q (x ∷ xs) h = elim (Bool-cases (q x)) [
    | inl e ↦ rw (e, filter) (h.0, All-filter P q xs h.1)
    | inr e ↦ rw (e, filter) (All-filter P q xs h.1)
  ]

module _ {ℓ} {A : Type ℓ} (key : A → ℕ) where
  -- `ORDER BY key ASC`
  abbrev pub insert_by : A → List A → List A
  insert_by x [] = x ∷ []
  insert_by x (y ∷ ys) = if leb (key x) (key y) then x ∷ y ∷ ys else y ∷ insert_by x ys

  abbrev pub sort_by : List A → List A
  sort_by [] = []
  sort_by (x ∷ xs) = insert_by x (sort_by xs)

  length-insert : (x : A) (ys : List A) → length (insert_by x ys) ≡ suc (length ys)
  length-insert x [] = refl
  length-insert x (y ∷ ys) = ground (arith, length-insert x ys)

  pub length-sort : (xs : List A) → length (sort_by xs) ≡ length xs
  length-sort [] = refl
  length-sort (x ∷ xs) = ground (arith, length-insert x (sort_by xs), length-sort xs)

  any-insert : (q : A → Bool) (x : A) (ys : List A) → any q (insert_by x ys) ≡ (q x || any q ys)
  any-insert q x [] = refl
  any-insert q x (y ∷ ys) = ground (arith, any-insert q x ys)

  pub any-sort : (q : A → Bool) (xs : List A) → any q (sort_by xs) ≡ any q xs
  any-sort q [] = refl
  any-sort q (x ∷ xs) = ground (arith, any-insert q x (sort_by xs), any-sort q xs)

module _ {ℓ} {A : Type ℓ} where
  pub any-append : (p : A → Bool) (xs ys : List A) → any p (xs ++ ys) ≡ (any p xs || any p ys)
  any-append p [] ys = refl
  any-append p (x ∷ xs) ys = ground (arith, any-append p xs ys)

  pub any-filter : (p q : A → Bool) (xs : List A) → any p (filter q xs) ≡ any (λ x. q x && p x) xs
  any-filter p q [] = refl
  any-filter p q (x ∷ xs) = ground (arith, any-filter p q xs)

  -- What one test finds, a weaker one finds too.
  pub any-weaken :
      (p q : A → Bool) (xs : List A)
      → ((x : A) → p x ≡ true → q x ≡ true)
      → any p xs ≡ true
      → any q xs ≡ true
  any-weaken p q [] f h = cc
  any-weaken p q (x ∷ xs) f h = elim (Bool-cases (p x)) [
    | inl e ↦ rw (f x e) refl
    | inr e ↦ ground (arith, any-weaken p q xs f (rw e at h))
  ]

  -- The same through a map.
  pub any-map {κ} :
      {B : Type κ} (p : A → Bool) (q : B → Bool) (f : A → B) (xs : List A)
      → ((x : A) → p x ≡ true → q (f x) ≡ true)
      → any p xs ≡ true
      → any q (map f xs) ≡ true
  any-map p q f [] g h = cc
  any-map p q f (x ∷ xs) g h = elim (Bool-cases (p x)) [
    | inl e ↦ rw (g x e) refl
    | inr e ↦ ground (arith, any-map p q f xs g (rw e at h))
  ]

  pub filter-filter :
      (p q : A → Bool) (xs : List A) → filter p (filter q xs) ≡ filter (λ x. q x && p x) xs
  filter-filter p q [] = refl
  filter-filter p q (x ∷ xs) = ground (arith, filter-filter p q xs)

module _ {ℓ κ} {A : Type ℓ} where
  pub All-update_by :
      (P : A → Type κ) (key : A → ℕ) (k : ℕ) (f : A → A) (xs : List A)
      → ((x : A) → P x → P (f x))
      → All P xs
      → All P (update_by key k f xs)
  All-update_by P key k f [] g h = tt
  All-update_by P key k f (x ∷ xs) g h = elim (Bool-cases (key x == k)) [
    | inl e ↦ rw e (g x h.0, All-update_by P key k f xs g h.1)
    | inr e ↦ rw e (h.0, All-update_by P key k f xs g h.1)
  ]

module _ {ℓ} {A : Type ℓ} where
  -- What a search returns is in the list.
  pub find-any :
      (p q : A → Bool) (xs : List A) {x : A} → find p xs ≡ some x → q x ≡ true → any q xs ≡ true
  find-any p q [] h k = cc
  find-any p q (y ∷ xs) {x} h k = elim (Bool-cases (p y)) [
    | inl e ↦ ground arith
    | inr e ↦ ground (arith, find-any p q xs {x = x})
  ]

  pub any-update_by :
      (p : A → Bool) (key : A → ℕ) (k : ℕ) (f : A → A) (xs : List A)
      → ((x : A) → p (f x) ≡ p x)
      → any p (update_by key k f xs) ≡ any p xs
  any-update_by p key k f [] g = refl
  any-update_by p key k f (x ∷ xs) g = ground (arith, g x, any-update_by p key k f xs g)

module _ {ℓ} {A : Type ℓ} where
  -- A filter hides nothing from a search that asks for more.
  pub find-filter :
      (p q : A → Bool) (xs : List A)
      → ((x : A) → p x ≡ true → q x ≡ true)
      → find p (filter q xs) ≡ find p xs
  find-filter p q [] f = refl
  find-filter p q (x ∷ xs) f = elim (Bool-cases (p x)) [
    | inl e ↦ rw (f x e, filter, e) refl
    | inr e ↦ elim (Bool-cases (q x)) [
      | inl k ↦ rw (k, filter, e) (find-filter p q xs f)
      | inr k ↦ rw (k, filter, e) (find-filter p q xs f)
    ]
  ]

module _ {ℓ} {A : Type ℓ} where
  pub every-weaken :
      (p q : A → Bool) (xs : List A)
      → ((x : A) → p x ≡ true → q x ≡ true)
      → every p xs ≡ true
      → every q xs ≡ true
  every-weaken p q [] f h = refl
  every-weaken p q (x ∷ xs) f h = ground (arith, f x, every-weaken p q xs f)

  -- What holds of the elements that pass a filter holds of all that it leaves.
  pub every-filter :
      (p c q : A → Bool) (xs : List A)
      → ((x : A) → p x ≡ true → c x ≡ true → q x ≡ true)
      → every p xs ≡ true
      → every q (filter c xs) ≡ true
  every-filter p c q [] f h = refl
  every-filter p c q (x ∷ xs) f h = elim (Bool-cases (c x)) [
    | inl e ↦ rw (e, filter) (ground (arith, f x, e, every-filter p c q xs f))
    | inr e ↦ rw (e, filter) (every-filter p c q xs f (ground arith))
  ]

  pub every-take :
      (p : A → Bool) (n : ℕ) (xs : List A) → every p xs ≡ true → every p (take n xs) ≡ true
  every-take p zero xs h = refl
  every-take p (suc n) [] h = refl
  every-take p (suc n) (x ∷ xs) h = ground (arith, every-take p n xs)

  pub every-insert :
      (p : A → Bool) (key : A → ℕ) (x : A) (xs : List A)
      → every p (insert_by key x xs) ≡ (p x && every p xs)
  every-insert p key x [] = refl
  every-insert p key x (y ∷ ys) = ground (arith, every-insert p key x ys)

  pub every-sort :
      (p : A → Bool) (key : A → ℕ) (xs : List A) → every p (sort_by key xs) ≡ every p xs
  every-sort p key [] = refl
  every-sort p key (x ∷ xs) =
      ground (arith, every-insert p key x (sort_by key xs), every-sort p key xs)
