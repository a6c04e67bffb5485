-- ===== src/Limiter/Refines.antt =====
-- The limiter of apps/backend/src/utils/rate-limiter.ts against the ledger of all allowed calls.
use event_media_platform.Prelude.{
  ℕ, ◌+◌, ◌≤◌, ◌≡◌, refl, sym, ap, ◌∙◌, inl, inr, true, false, List, [], ◌∷◌, ◌++◌, arith, ltb, leb,
  ◌==◌, if◌then◌else◌, filter, Bool-cases,
}
use event_media_platform.Limiter.Window.{
  Hits, RateLimiter, hits_of, set_hits, is_recent, cleanup, consume, Ledger, times_of, decide,
  answers, decisions,
}
use event_media_platform.Limiter.Counts.{
  count, count-filter, count-append, hits_of-set_same, hits_of-set_other, set-AreDistinct,
  count-cleanup, AreDistinct,
}

-- The map's keys differ, and from a time on it counts for each key what the ledger does.
abbrev pub Agrees : ℕ → ℕ → Hits → List (ℕ × ℕ) → Type 0
Agrees w now hits allowed =
    AreDistinct w hits
    × ((key later : ℕ)
        → now ≤ later
        → count w later (hits_of key hits) ≡ count w later (times_of key allowed))

-- Setting a key to its recent calls changes no count.
count-set_recent :
    (w now later key other : ℕ) (hits : Hits)
    → now ≤ later
    → count w later
        (hits_of key (set_hits other (filter (is_recent w now) (hits_of other hits)) hits))
      ≡ count w later (hits_of key hits)
count-set_recent w now later key other hits h = elim (Bool-cases (other == key)) [
  | inr e ↦ ap (count w later) (hits_of-set_other w key other _ hits e)
  | inl e ↦
      let same : other ≡ key = ground arith in
      rw same (
        ap (count w later) (hits_of-set_same w key _ hits)
        ∙ count-filter w now later (hits_of key hits) h)
]

-- Setting a key to its recent calls and one more adds that call to the key alone.
count-set_more :
    (w now later key other : ℕ) (hits : Hits)
    → now ≤ later
    → count w later (
        hits_of key
          (set_hits other (filter (is_recent w now) (hits_of other hits) ++ (now ∷ [])) hits))
      ≡ count w later (hits_of key hits) + (if other == key then count w later (now ∷ []) else 0)
count-set_more w now later key other hits h = elim (Bool-cases (other == key)) [
  | inr e ↦ rw e (ap (count w later) (hits_of-set_other w key other _ hits e) ∙ omega arith)
  | inl e ↦
      let same : other ≡ key = ground arith in
      rw e (
        rw same (
          ap (count w later) (hits_of-set_same w key _ hits)
          ∙ (count-append w later (filter (is_recent w now) (hits_of key hits)) (now ∷ [])
              ∙ ap (λ n. n + count w later (now ∷ []))
                  (count-filter w now later (hits_of key hits) h))))
]

count-times_of :
    (w later key other now : ℕ) (l : List (ℕ × ℕ))
    → count w later (times_of key ((other, now) ∷ l))
      ≡ count w later (times_of key l) + (if other == key then count w later (now ∷ []) else 0)
count-times_of w later key other now l = ground arith

-- The calls come in the order of their times.
abbrev pub IsOrdered : ℕ → List (ℕ × ℕ) → Type 0
IsOrdered before [] = Unit
IsOrdered before ((key, now) ∷ calls) = (before ≤ now) × IsOrdered now calls

module _ (limit w : ℕ) where
  abbrev limiter_with : Hits → RateLimiter
  limiter_with hits = record { limit = limit; window_ms = w; hits = hits }

  abbrev ledger_with : List (ℕ × ℕ) → Ledger
  ledger_with allowed = record { limit = limit; window_ms = w; allowed = allowed }

  -- One call: the same answer, and agreement again.
  consume-Agrees :
      (before now key : ℕ) (hits : Hits) (allowed : List (ℕ × ℕ))
      → before ≤ now
      → Agrees w before hits allowed
      → ((consume key now (limiter_with hits)).1 ≡ (decide key now (ledger_with allowed)).1)
        × ((hits' : Hits) × (allowed' : List (ℕ × ℕ)) × ((consume key now (limiter_with hits)).0
              ≡ limiter_with hits')
            × ((decide key now (ledger_with allowed)).0 ≡ ledger_with allowed')
            × Agrees w now hits' allowed')
  unfolding consume decide
  consume-Agrees before now key hits allowed h (d, agree) =
      elim (Bool-cases (leb limit (count w now (hits_of key hits)))) [
        | inl e ↦
            let refuses : ltb (count w now (times_of key allowed)) limit ≡ false =
              ground (arith, agree key now h) in
            rw (e, refuses)
              (
                refl,
                (
                  set_hits key (filter (is_recent w now) (hits_of key hits)) hits,
                  allowed,
                  refl,
                  refl,
                  (
                    set-AreDistinct w key _ hits d,
                    λ k later l.
                        count-set_recent w now later k key hits l ∙ agree k later (omega arith),
                  ),
                ),
              )
        | inr e ↦
            let allows : ltb (count w now (times_of key allowed)) limit ≡ true =
              ground (arith, agree key now h) in
            let set =
              set_hits key (filter (is_recent w now) (hits_of key hits) ++ (now ∷ [])) hits in
            let d' : AreDistinct w set = set-AreDistinct w key _ hits d in
            rw (e, allows)
              (
                refl,
                (
                  cleanup w now set,
                  (key, now) ∷ allowed,
                  refl,
                  refl,
                  (
                    (count-cleanup w now now key set (omega arith) d').1,
                    λ k later l.
                        (count-cleanup w now later k set l d').0
                        ∙ (count-set_more w now later k key hits l
                            ∙ (ap (λ n. n + (if key == k then count w later (now ∷ []) else 0))
                                  (agree k later (omega arith))
                                ∙ sym (count-times_of w later k key now allowed))),
                  ),
                ),
              )
      ]

  answers-decisions :
      (before : ℕ) (calls : List (ℕ × ℕ)) (hits : Hits) (allowed : List (ℕ × ℕ))
      → IsOrdered before calls
      → Agrees w before hits allowed
      → answers calls (limiter_with hits) ≡ decisions calls (ledger_with allowed)
  unfolding answers decisions
  answers-decisions before [] hits allowed o a = refl
  answers-decisions before ((key, now) ∷ calls) hits allowed (le, o) a =
      let (same, (hits', allowed', e, f, a')) = consume-Agrees before now key hits allowed le a in
      rw (same, e, f)
        (ap (λ rest. (decide key now (ledger_with allowed)).1 ∷ rest)
          (answers-decisions now calls hits' allowed' o a'))

  -- A new limiter answers any calls in the order of their times as the ledger does: a call is allowed
  -- exactly when fewer than the limit of its key's allowed calls lie within the window.
  pub limiter_refines_ledger :
      (calls : List (ℕ × ℕ))
      → IsOrdered 0 calls
      → answers calls (record { limit = limit; window_ms = w; hits = [] })
        ≡ decisions calls (record { limit = limit; window_ms = w; allowed = [] })
  unfolding hits_of
  limiter_refines_ledger calls o = answers-decisions 0 calls [] [] o (tt, λ key later h. refl)
