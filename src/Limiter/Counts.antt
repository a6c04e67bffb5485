-- ===== src/Limiter/Counts.antt =====
-- What a change of the limiter's map does to the recent calls of a key.
use event_media_platform.Prelude.{
  ℕ, ◌+◌, ◌≤◌, ◌≡◌, refl, sym, ap, ◌∙◌, inl, inr, Bool, true, false, not, ◌&&◌, List, [], ◌∷◌, ◌++◌,
  arith, ltb, ◌==◌, ==_refl, filter, every, length, Bool-cases,
}
use event_media_platform.Limiter.Window.{Hits, hits_of, set_hits, is_recent, cleanup}

module _ (w : ℕ) where
  abbrev pub count : ℕ → List ℕ → ℕ
  count now ts = length (filter (is_recent w now) ts)

  -- What was recent earlier is all that can be recent later.
  pub count-filter :
      (now later : ℕ) (ts : List ℕ)
      → now ≤ later
      → count later (filter (is_recent w now) ts) ≡ count later ts
  count-filter now later [] h = refl
  count-filter now later (t ∷ ts) h = ground (arith, count-filter now later ts h)

  pub count-append : (now : ℕ) (xs ys : List ℕ) → count now (xs ++ ys) ≡ count now xs + count now ys
  count-append now [] ys = omega arith
  count-append now (x ∷ xs) ys = ground (arith, count-append now xs ys)

  pub hits_of-set_same : (key : ℕ) (ts : List ℕ) (m : Hits) → hits_of key (set_hits key ts m) ≡ ts
  unfolding hits_of set_hits
  hits_of-set_same key ts [] = ground (arith, ==_refl key)
  hits_of-set_same key ts ((k, us) ∷ m) = ground (arith, hits_of-set_same key ts m)

  pub hits_of-set_other :
      (key other : ℕ) (ts : List ℕ) (m : Hits)
      → (other == key) ≡ false
      → hits_of key (set_hits other ts m) ≡ hits_of key m
  unfolding hits_of set_hits
  hits_of-set_other key other ts [] h = ground arith
  hits_of-set_other key other ts ((k, us) ∷ m) h =
      ground (arith, hits_of-set_other key other ts m h)

  every-count :
      (now later : ℕ) (ts : List ℕ)
      → now ≤ later
      → every (λ t. not (is_recent w now t)) ts ≡ true
      → count later ts ≡ 0
  every-count now later [] h e = refl
  every-count now later (t ∷ ts) h e = ground (arith, every-count now later ts h)

  -- The keys of a map differ.
  abbrev is_absent : ℕ → Hits → Bool
  is_absent key [] = true
  is_absent key ((k, ts) ∷ m) = not (k == key) && is_absent key m

  abbrev pub AreDistinct : Hits → Type 0
  AreDistinct [] = Unit
  AreDistinct ((k, ts) ∷ m) = (is_absent k m ≡ true) × AreDistinct m

  hits_of-absent : (key : ℕ) (m : Hits) → is_absent key m ≡ true → hits_of key m ≡ []
  unfolding hits_of
  hits_of-absent key [] h = refl
  hits_of-absent key ((k, ts) ∷ m) h = ground (arith, hits_of-absent key m)

  absent-filter :
      (key : ℕ) (p : ℕ × List ℕ → Bool) (m : Hits)
      → is_absent key m ≡ true
      → is_absent key (filter p m) ≡ true
  absent-filter key p [] h = h
  absent-filter key p ((k, ts) ∷ m) h = ground (arith, absent-filter key p m)

  filter-AreDistinct : (p : ℕ × List ℕ → Bool) (m : Hits) → AreDistinct m → AreDistinct (filter p m)
  filter-AreDistinct p [] h = h
  filter-AreDistinct p ((k, ts) ∷ m) h =
      ground (arith, absent-filter k p m h.0, filter-AreDistinct p m h.1)

  absent-set :
      (key other : ℕ) (ts : List ℕ) (m : Hits)
      → (other == key) ≡ false
      → is_absent key m ≡ true
      → is_absent key (set_hits other ts m) ≡ true
  unfolding set_hits
  absent-set key other ts [] h a = ground arith
  absent-set key other ts ((k, us) ∷ m) h a = ground (arith, absent-set key other ts m h)

  pub set-AreDistinct :
      (key : ℕ) (ts : List ℕ) (m : Hits) → AreDistinct m → AreDistinct (set_hits key ts m)
  unfolding set_hits
  set-AreDistinct key ts [] d = (refl, tt)
  set-AreDistinct key ts ((k, us) ∷ m) (a, d) = elim (Bool-cases (k == key)) [
    | inl e ↦ rw (e, set_hits) (a, d)
    | inr e ↦ rw (e, set_hits) (absent-set k key ts m (ground arith) a, set-AreDistinct key ts m d)
  ]

  -- A key that the cleanup deletes has nothing recent, now or later.
  count-filtered :
      (now later key : ℕ) (m : Hits)
      → now ≤ later
      → AreDistinct m
      → count later (hits_of key (filter (λ e. not (every (λ t. not (is_recent w now t)) e.1)) m))
        ≡ count later (hits_of key m)
  unfolding hits_of
  count-filtered now later key [] h d = refl
  count-filtered now later key ((k, ts) ∷ m) h (a, d) =
      elim (Bool-cases (every (λ t. not (is_recent w now t)) ts)) [
        | inr e ↦ rw e (ground (arith, count-filtered now later key m h d))
        | inl e ↦ elim (Bool-cases (k == key)) [
          | inr f ↦ rw (e, f) (count-filtered now later key m h d)
          | inl f ↦
              rw (e, f)
                (ap (count later) (
                    hits_of-absent key _ (
                      absent-filter key (λ e. not (every (λ t. not (is_recent w now t)) e.1)) m
                        (ground arith)))
                  ∙ sym (every-count now later ts h e))
        ]
      ]

  pub count-cleanup :
      (now later key : ℕ) (m : Hits)
      → now ≤ later
      → AreDistinct m
      → (count later (hits_of key (cleanup w now m)) ≡ count later (hits_of key m))
        × AreDistinct (cleanup w now m)
  unfolding cleanup
  count-cleanup now later key m h d = elim (Bool-cases (ltb 10000 (length m))) [
    | inl e ↦ rw e (count-filtered now later key m h d, filter-AreDistinct _ m d)
    | inr e ↦ rw e (refl, d)
  ]
