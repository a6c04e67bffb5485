-- ===== src/Gallery/Split.antt =====
-- A list of photos at the end of a page (page_of is the part of list and listForOrg of
-- apps/backend/src/services/asset.service.ts after the query).
use event_media_platform.Prelude.{
  ℕ, zero, suc, ◌+◌, ◌≤◌, ◌<◌, ◌≡◌, refl, ap, Bool, true, false, not, List, [], ◌∷◌, ◌++◌, Option,
  none, some, arith, ltb, filter, length, All, take, last?, length-append,
}
use Prim.{absurd}
use event_media_platform.Prelude.Result.{Result, ok}
use event_media_platform.Gallery.Rows.{Photo, before, is_before, has_date}
use event_media_platform.Gallery.Service.{more_of, Codec, encode_cursor, Page, page_of, follow}
use event_media_platform.Gallery.Order.{IsOrdered}

-- How many photos have no date.
abbrev pub undated : List Photo → ℕ
undated ps = length (filter (λ p. not (has_date p.captured_at)) ps)

pub take_all : (n : ℕ) (ps : List Photo) → length ps ≤ n → take n ps ≡ ps
take_all zero [] h = refl
take_all zero (p ∷ ps) h = absurd (omega arith)
take_all (suc n) [] h = refl
take_all (suc n) (p ∷ ps) h = ap (λ rest. p ∷ rest) (take_all n ps (omega arith))

pub split_at :
    (n : ℕ) (ps : List Photo)
    → suc n < length ps
    → (init : List Photo) × (z : Photo) × (later : List Photo) × (ps ≡ init ++ (z ∷ later))
      × (take (suc n) (take (suc (suc n)) ps) ≡ init ++ (z ∷ []))
      × (length (take (suc (suc n)) ps) ≡ suc (suc n))
      × (length init ≡ n)
split_at n [] h = absurd (omega arith)
split_at n (p ∷ []) h = absurd (omega arith)
split_at zero (p ∷ q ∷ ps) h = ([], p, q ∷ ps, refl, refl, refl, refl)
split_at (suc n) (p ∷ q ∷ ps) h =
    let (init, z, later, e, t, l, k) = split_at n (q ∷ ps) (omega arith) in
    (p ∷ init, z, later, ap (λ rest. p ∷ rest) e, ap (λ rest. p ∷ rest) t, ap suc l, ap suc k)

last-append : (init : List Photo) (z : Photo) → last? (init ++ (z ∷ [])) ≡ some z
last-append [] z = refl
last-append (p ∷ []) z = refl
last-append (p ∷ q ∷ init) z = last-append (q ∷ init) z

pub page_of-last :
    (c : Codec) (n : ℕ) (ps : List Photo)
    → length ps ≤ suc n
    → page_of c (suc n) (take (suc (suc n)) ps) ≡ record { assets = ps; next_cursor = none }
unfolding page_of
page_of-last c n ps h =
    let whole = take_all (suc (suc n)) ps (omega (arith, h)) in
    let few : ltb (suc n) (length ps) ≡ false = ground arith in rw (whole, few) refl

pub page_of-full :
    (c : Codec) (n : ℕ) (ps init : List Photo) (z : Photo)
    → length (take (suc (suc n)) ps) ≡ suc (suc n)
    → take (suc n) (take (suc (suc n)) ps) ≡ init ++ (z ∷ [])
    → page_of c (suc n) (take (suc (suc n)) ps) ≡ record {
      assets = init ++ (z ∷ []);
      next_cursor = some (encode_cursor c z.captured_at z.id);
    }
unfolding page_of
page_of-full c n ps init z l t =
    let more : ltb (suc n) (suc (suc n)) ≡ true = ground arith in
    rw (l, more, t, last-append init z) refl

pub suffix-IsOrdered : (earlier ps : List Photo) → IsOrdered (earlier ++ ps) → IsOrdered ps
suffix-IsOrdered [] ps h = h
suffix-IsOrdered (p ∷ earlier) ps h = suffix-IsOrdered earlier ps h.1

before_undated :
    (c : Option ℕ) (i : ℕ) (d : Option ℕ) (j : ℕ)
    → before c i d j ≡ true
    → has_date d ≡ false
    → has_date c ≡ false
before_undated none i d j p h = refl
before_undated (some c) i none j p h = cc
before_undated (some c) i (some d) j p h = cc

before_last :
    (p : Photo) (init : List Photo) (z : Photo) (later : List Photo)
    → All (λ q. is_before p q ≡ true) (init ++ (z ∷ later))
    → is_before p z ≡ true
before_last p [] z later h = h.0
before_last p (q ∷ init) z later h = before_last p init z later h.1

-- A row without a date stands behind rows without one only.
pub undated_above :
    (init : List Photo) (z : Photo) (later : List Photo)
    → IsOrdered (init ++ (z ∷ later))
    → has_date z.captured_at ≡ false
    → length init < undated (init ++ (z ∷ later))
undated_above [] z later h d = rw (d, filter) (omega arith)
undated_above (p ∷ init) z later h d =
    let up =
      before_undated p.captured_at p.id z.captured_at z.id (before_last p init z later h.0) d in
    rw (up, filter) (omega (arith, undated_above init z later h.1 d))

undated-append : (xs ys : List Photo) → undated (xs ++ ys) ≡ undated xs + undated ys
undated-append [] ys = omega arith
undated-append (x ∷ xs) ys = ground (arith, undated-append xs ys)

pub filter-same :
    (t u : Photo → Bool) (ps : List Photo) → ((p : Photo) → t p ≡ u p) → filter t ps ≡ filter u ps
filter-same t u [] h = refl
filter-same t u (p ∷ ps) h = ground (arith, h p, filter-same t u ps h)

pub follow-step :
    (fetch : Option (List ℕ) → Result Page) (fuel : ℕ) (cursor : Option (List ℕ)) (page : Page)
    → fetch cursor ≡ ok page
    → follow fetch (suc fuel) cursor ≡ page.assets ++ more_of page.next_cursor (follow fetch fuel)
unfolding follow
follow-step fetch fuel cursor page h = rw (follow, h) refl

-- The rows behind a split have no more rows without a date, and are fewer.
pub undated_behind :
    (init : List Photo) (z : Photo) (later ps : List Photo) (m : ℕ)
    → ps ≡ init ++ (z ∷ later)
    → undated ps < m
    → undated later < m
undated_behind init z later ps m e u =
    let all = undated-append init (z ∷ later) in
    let tail = undated-append (z ∷ []) later in
    let bound = rw e at u in omega (arith, all, tail, bound)

pub fewer_behind :
    (init : List Photo) (z : Photo) (later ps : List Photo) (m : ℕ)
    → ps ≡ init ++ (z ∷ later)
    → length ps ≤ suc m
    → length later ≤ m
fewer_behind init z later ps m e l =
    let all = length-append init (z ∷ later) in let bound = rw e at l in omega (arith, all, bound)
