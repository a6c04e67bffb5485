-- ===== src/Prelude/Held.antt =====
-- The elements of a list, and what the Boolean searches say of them.

use mathlib.Core.Path.{◌≡◌, refl, ap, sym, ◌∙◌}
use mathlib.Core.Logic.{◌⊎◌, inl, inr}
use mathlib.Core.Bool.{Bool, true}
use mathlib.Core.List.{List, [], ◌∷◌, ◌++◌, map}
use native.Mathlib.Omega.{arith}
use event_media_platform.Prelude.Tests.{Bool-cases}
use mathlib.Core.Option.{some, some-injective}
use event_media_platform.Prelude.Lists.{any, every, filter, find}

module _ {A : Type 0} where
  abbrev pub Held : A → List A → Type 0
  Held x [] = ⊥
  Held x (y ∷ ys) = (x ≡ y) ⊎ Held x ys

  pub any-Held : (p : A → Bool) (xs : List A) → any p xs ≡ true → (x : A) × Held x xs × (p x ≡ true)
  any-Held p [] h = cc
  any-Held p (y ∷ ys) h = elim (Bool-cases (p y)) [
    | inl e ↦ (y, inl refl, e)
    | inr e ↦ let (x, m, k) = any-Held p ys (rw e at h) in (x, inr m, k)
  ]

  pub Held-any : (p : A → Bool) (x : A) (xs : List A) → Held x xs → p x ≡ true → any p xs ≡ true
  Held-any p x [] m h = elim m [ ]
  Held-any p x (y ∷ ys) (inl e) h = rw (ap p (sym e) ∙ h) refl
  Held-any p x (y ∷ ys) (inr m) h = ground (arith, Held-any p x ys m h)

  pub every-Held : (p : A → Bool) (x : A) (xs : List A) → every p xs ≡ true → Held x xs → p x ≡ true
  every-Held p x [] h m = elim m [ ]
  every-Held p x (y ∷ ys) h (inl e) = ap p e ∙ ground arith
  every-Held p x (y ∷ ys) h (inr m) = every-Held p x ys (ground arith) m

  pub Held-filter :
      (p : A → Bool) (x : A) (xs : List A) → Held x xs → p x ≡ true → Held x (filter p xs)
  Held-filter p x [] m h = m
  Held-filter p x (y ∷ ys) (inl e) h = rw (ap p (sym e) ∙ h, filter) (inl e)
  Held-filter p x (y ∷ ys) (inr m) h = elim (Bool-cases (p y)) [
    | inl e ↦ rw (e, filter) (inr (Held-filter p x ys m h))
    | inr e ↦ rw (e, filter) (Held-filter p x ys m h)
  ]

  -- What a filter leaves was there.
  pub filter-Held : (p : A → Bool) (x : A) (xs : List A) → Held x (filter p xs) → Held x xs
  filter-Held p x [] m = m
  filter-Held p x (y ∷ ys) m = elim (Bool-cases (p y)) [
    | inl e ↦ elim (rw (e, filter) at m) [
      | inl same ↦ inl same
      | inr k ↦ inr (filter-Held p x ys k)
    ]
    | inr e ↦ inr (filter-Held p x ys (rw (e, filter) at m))
  ]

  pub Held-left : (x : A) (xs ys : List A) → Held x xs → Held x (xs ++ ys)
  Held-left x [] ys m = elim m [ ]
  Held-left x (y ∷ xs) ys (inl e) = inl e
  Held-left x (y ∷ xs) ys (inr m) = inr (Held-left x xs ys m)

  pub Held-right : (x : A) (xs ys : List A) → Held x ys → Held x (xs ++ ys)
  Held-right x [] ys m = m
  Held-right x (y ∷ xs) ys m = inr (Held-right x xs ys m)

module _ {A B : Type 0} where
  pub Held-map : (f : A → B) (x : A) (xs : List A) → Held x xs → Held (f x) (map f xs)
  Held-map f x [] m = elim m [ ]
  Held-map f x (y ∷ xs) (inl e) = inl (ap f e)
  Held-map f x (y ∷ xs) (inr m) = inr (Held-map f x xs m)

module _ {A : Type 0} where
  pub find-Held : (p : A → Bool) (xs : List A) {x : A} → find p xs ≡ some x → Held x xs
  find-Held p [] h = cc
  find-Held p (y ∷ ys) {x} h = elim (Bool-cases (p y)) [
    | inl e ↦ let same : y ≡ x = some-injective y x (rw e at h) in inl (sym same)
    | inr e ↦ inr (find-Held p ys (rw e at h))
  ]

module _ {A : Type 0} where
  pub filter-holds : (p : A → Bool) (x : A) (xs : List A) → Held x (filter p xs) → p x ≡ true
  filter-holds p x [] m = elim m [ ]
  filter-holds p x (y ∷ ys) m = elim (Bool-cases (p y)) [
    | inl e ↦ elim (rw (e, filter) at m) [
      | inl same ↦ ap p same ∙ e
      | inr k ↦ filter-holds p x ys k
    ]
    | inr e ↦ filter-holds p x ys (rw (e, filter) at m)
  ]
