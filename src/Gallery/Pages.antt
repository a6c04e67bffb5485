-- ===== src/Gallery/Pages.antt =====
-- Reading a list of photos page by page (list and listForOrg of
-- apps/backend/src/services/asset.service.ts).
use event_media_platform.Prelude.{
  leb, ℕ, zero, suc, ◌≤◌, ◌<◌, ◌≡◌, refl, sym, ap, ◌∙◌, inl, inr, Bool, true, false, not, ◌&&◌,
  List, [], ◌∷◌, ◌++◌, Option, none, some, arith, ltb, ◌==◌, filter, any, length, Bool-cases,
  Option-cases, take,
}
use Prim.{absurd}
use mathlib.Core.Path.{subst}
use mathlib.Core.List.{append_assoc, append-nil}
use event_media_platform.Prelude.{ltb→lt}
use event_media_platform.Prelude.Result.{Result, ok}
use event_media_platform.Gallery.Rows.{
  epoch, order_rows, has_status, Photo, Event, FaceStatus, before, is_before, has_date,
  after_in_event, after_in_org, event_rows, org_rows, from_cursor, list_event, list_org,
}
use event_media_platform.Gallery.Service.{
  Codec, IsCodec, encode_cursor, decode_cursor, decode_given, Page, page_of, page_with, list,
  list_for_org, follow,
}
use event_media_platform.Gallery.Order.{
  IsOrdered, HasIds, order-IsOrdered, filter-IsOrdered, filter-before,
}
use event_media_platform.Gallery.Split.{
  undated, split_at, page_of-last, page_of-full, suffix-IsOrdered, undated_above, undated_behind,
  fewer_behind, follow-step, filter-same,
}

-- A cursor that was handed out is read as the row it was made of.
pub decode-encode :
    (c : Codec) (date : Option ℕ) (id : ℕ)
    → IsCodec c
    → decode_given c (some (encode_cursor c date id)) ≡ ok (some (date, id))
unfolding decode_given decode_cursor encode_cursor
decode-encode c date id laws =
    rw (laws.2 date id, laws.1 (c.stringify date id), laws.0 date id) refl

-- The condition on a cursor with a date is the order of the query.
abbrev FollowsOrder : (Option ℕ → ℕ → Photo → Bool) → Type 0
FollowsOrder after =
    (d i : ℕ) (p : Photo) → after (some d) i p ≡ before (some d) i p.captured_at p.id

module _ (c : Codec) (laws : IsCodec c) (after : Option ℕ → ℕ → Photo → Bool)
    (after_is : FollowsOrder after) (n : ℕ) (rows : List Photo) (ordered : IsOrdered rows) where
  abbrev fetch : Option (List ℕ) → Result Page
  fetch = page_with c (λ k decoded. take k (from_cursor after decoded rows)) (suc n)

  behind :
      (earlier : List Photo) (z : Photo) (later : List Photo)
      → rows ≡ earlier ++ (z ∷ later)
      → has_date z.captured_at ≡ true
      → from_cursor after (some (z.captured_at, z.id)) rows ≡ later
  behind earlier z later e h = elim (Option-cases z.captured_at) [
    | inl q ↦ cc (rw q at h)
    | inr (d, q) ↦
        ap (λ t. filter (after t z.id) rows) q
        ∙ filter-same (after (some d) z.id) (λ p. before (some d) z.id p.captured_at p.id) rows
            (after_is d z.id)
        ∙ ap (λ t. filter (λ p. before t z.id p.captured_at p.id) rows) (sym q)
        ∙ ap (filter (is_before z)) e
        ∙ filter-before earlier z later (subst IsOrdered e ordered)
  ]

  fetch-page :
      (cursor : Option (List ℕ)) (d : Option (Option ℕ × ℕ)) (ps : List Photo)
      → decode_given c cursor ≡ ok d
      → from_cursor after d rows ≡ ps
      → fetch cursor ≡ ok (page_of c (suc n) (take (suc (suc n)) ps))
  unfolding page_with
  fetch-page cursor d ps e f = rw (page_with, e, f) refl

  -- The last row of a full page has a date when fewer rows than a page have none.
  dated_last :
      (earlier init : List Photo) (z : Photo) (later ps : List Photo)
      → rows ≡ earlier ++ ps
      → ps ≡ init ++ (z ∷ later)
      → undated ps < suc (length init)
      → has_date z.captured_at ≡ true
  dated_last earlier init z later ps r e u = elim (Bool-cases (has_date z.captured_at)) [
    | inl h ↦ h
    | inr h ↦
        let part = suffix-IsOrdered earlier ps (subst IsOrdered r ordered) in
        let above = undated_above init z later (subst IsOrdered e part) h in
        let bound = rw e at u in absurd (omega (arith, above, bound))
  ]

  follow_rest :
      (fuel : ℕ) (cursor : Option (List ℕ)) (d : Option (Option ℕ × ℕ)) (earlier ps : List Photo)
      → decode_given c cursor ≡ ok d
      → from_cursor after d rows ≡ ps
      → rows ≡ earlier ++ ps
      → undated ps < suc n
      → length ps ≤ fuel
      → follow fetch fuel cursor ≡ ps
  unfolding follow
  follow_rest zero cursor d earlier [] e f r u l = refl
  follow_rest zero cursor d earlier (p ∷ ps) e f r u l = absurd (omega (arith, l))
  follow_rest (suc fuel) cursor d earlier ps e f r u l =
      elim (Bool-cases (ltb (suc n) (length ps))) [
        | inr few ↦
            let small : length ps ≤ suc n = ground arith in
            follow-step fetch fuel cursor (record { assets = ps; next_cursor = none })
              (fetch-page cursor d ps e f ∙ ap ok (page_of-last c n ps small))
            ∙ append-nil ps
        | inl many ↦
            let (init, z, later, e₁, t, l₁, k) = split_at n ps (ltb→lt (suc n) (length ps) many) in
            let next = encode_cursor c z.captured_at z.id in
            let at_z : rows ≡ (earlier ++ init) ++ (z ∷ later) =
              r ∙ ap (λ rest. earlier ++ rest) e₁ ∙ sym (append_assoc earlier init (z ∷ later)) in
            let dated = dated_last earlier init z later ps r e₁ (rw k u) in
            follow-step fetch fuel cursor
              (record { assets = init ++ (z ∷ []); next_cursor = some next })
              (fetch-page cursor d ps e f ∙ ap ok (page_of-full c n ps init z l₁ t))
            ∙ ap (λ rest. (init ++ (z ∷ [])) ++ rest)
                (follow_rest fuel (some next) (some (z.captured_at, z.id))
                  ((earlier ++ init) ++ (z ∷ [])) later (decode-encode c z.captured_at z.id laws)
                  (behind (earlier ++ init) z later at_z dated)
                  (at_z ∙ sym (append_assoc (earlier ++ init) (z ∷ []) later))
                  (undated_behind init z later ps (suc n) e₁ u)
                  (fewer_behind init z later ps fuel e₁ l))
            ∙ append_assoc init (z ∷ []) later
            ∙ sym e₁
      ]

in_event-FollowsOrder : FollowsOrder after_in_event
in_event-FollowsOrder d i p = elim (Option-cases p.captured_at) [
  | inl e ↦ rw e refl
  | inr (k, e) ↦ rw e refl
]

in_org-FollowsOrder : FollowsOrder after_in_org
in_org-FollowsOrder d i p = elim (Option-cases p.captured_at) [
  | inl e ↦ rw e refl
  | inr (k, e) ↦ rw e refl
]

-- A client that follows the cursors of an event's list, from the first page to the last, is sent all
-- photos that the list asks for, each once and in the order of the list, when fewer photos than a page
-- holds have no date.
pub event_pages_cover :
    (c : Codec) (event : ℕ) (status : FaceStatus) (photos : List Photo) (n fuel : ℕ)
    → IsCodec c
    → HasIds photos
    → undated (event_rows event status photos) < suc n
    → length (event_rows event status photos) ≤ fuel
    → follow (list c event status photos (suc n)) fuel none ≡ event_rows event status photos
unfolding list list_event event_rows decode_given
event_pages_cover c event status photos n fuel laws ids u l =
    follow_rest c laws after_in_event in_event-FollowsOrder n (event_rows event status photos)
      (filter-IsOrdered (λ p. p.event_id == event && (not p.deleted && has_status status p))
        (order_rows photos) (order-IsOrdered photos ids))
      fuel none none [] (event_rows event status photos) refl refl refl u l

-- A client that follows the cursors of an organization's list, from the first page to the last, is
-- sent all photos of its events that are neither deleted nor purged, each once and in the order of
-- the list, when fewer photos than a page holds have no date.
pub org_pages_cover :
    (c : Codec) (org : ℕ) (events : List Event) (photos : List Photo) (n fuel : ℕ)
    → IsCodec c
    → HasIds photos
    → undated (org_rows org events photos) < suc n
    → length (org_rows org events photos) ≤ fuel
    → follow (list_for_org c org events photos (suc n)) fuel none ≡ org_rows org events photos
unfolding list_for_org list_org org_rows decode_given
org_pages_cover c org events photos n fuel laws ids u l =
    follow_rest c laws after_in_org in_org-FollowsOrder n (org_rows org events photos)
      (filter-IsOrdered
        (λ p.
          p.org_id == org
          && (not p.deleted
              && any (λ e. e.id == p.event_id && (not e.deleted && not e.purged)) events))
        (order_rows photos) (order-IsOrdered photos ids))
      fuel none none [] (org_rows org events photos) refl refl refl u l

none_after :
    (id : ℕ) (ps : List Photo)
    → any (λ p. elim p.captured_at [ none ↦ false | some d ↦ leb d epoch ]) ps ≡ false
    → filter (after_in_event none id) ps ≡ []
none_after id [] h = refl
none_after id (p ∷ ps) h = elim (Option-cases p.captured_at) [
  | inl e ↦ rw (e, filter) (none_after id ps (rw e at h))
  | inr (d, e) ↦ ground (arith, none_after id ps)
]

-- The page of an event's list that follows a photo without a date is empty, and the last, whatever
-- photos stand behind it, unless one of the list is dated at the start of 1970 or before it.
pub undated_cursor_ends_list :
    (c : Codec) (event : ℕ) (status : FaceStatus) (photos : List Photo) (limit id : ℕ)
    → IsCodec c
    → any
        (λ p. elim p.captured_at [ none ↦ false | some d ↦ leb d epoch ])
        (event_rows event status photos)
      ≡ false
    → list c event status photos limit (some (encode_cursor c none id))
      ≡ ok (record { assets = []; next_cursor = none })
unfolding list list_event page_with page_of
undated_cursor_ends_list c event status photos limit id laws h =
    let no_more : ltb limit 0 ≡ false = ground arith in
    rw
      (
        list,
        page_with,
        decode-encode c none id laws,
        list_event,
        none_after id (event_rows event status photos) h,
      )
      (rw no_more refl)
