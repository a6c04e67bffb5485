-- ===== src/Faces/Found.antt =====
-- What handleDetectFaces leaves of the faces of a photo (apps/backend/src/services/face.service.ts).
use event_media_platform.Prelude.{
  every-weaken, ℕ, ◌≡◌, refl, sym, ap, ◌∙◌, inl, inr, Bool, true, false, not, ◌&&◌, ◌||◌, List, [],
  ◌∷◌, ◌++◌, Option, none, some, arith, ◌==◌, ==_refl, filter, find, any, every, length, Bool-cases,
  Option-cases, any-append, find_holds,
}
use event_media_platform.Prelude.Result.{Result, ok, throws}
use event_media_platform.Enum.{JobStatus}
use event_media_platform.Prelude.Held.{
  filter-holds, every-Held, any-Held, Held-any, Held-filter, Held-right, Held-left, find-Held,
  filter-Held,
}
use event_media_platform.Faces.Rows.{
  has_clash, BoundingBox, AssetFace, FaceDb, get_by_asset_id, refresh_faces, set_faces_detected,
}
use event_media_platform.Faces.Detect.{
  match_found, Detection, Scale, scale_of, overlaps, Matching, new_face, match_box, match_boxes,
  match_all, finish_detection, finish_refreshed, store_detection, is_ml, ids_of,
}

abbrev pub is_box : BoundingBox → BoundingBox → Bool
is_box a b = a.x1 == b.x1 && (a.y1 == b.y1 && (a.x2 == b.x2 && a.y2 == b.y2))

is_box_refl : (b : BoundingBox) → is_box b b ≡ true
is_box_refl b = ground (arith, ==_refl b.x1, ==_refl b.y1, ==_refl b.x2, ==_refl b.y2)

-- What a box comes to: a new face, or a stored one that is not to be removed.
abbrev is_kept : Option AssetFace → List ℕ → Bool
is_kept none ids = false
is_kept (some f) ids = not (any (λ i. i == f.id) ids)

abbrev is_settled : BoundingBox → Option AssetFace → Matching → Bool
is_settled b found m = any (λ f. is_box f.box b) m.to_add || is_kept found m.ml_face_ids

abbrev found_for : Scale → List AssetFace → BoundingBox → Option AssetFace
found_for s existing b = find (λ f. overlaps s f b) existing

any-shrinks : (p q : ℕ → Bool) (ids : List ℕ) → any p ids ≡ false → any p (filter q ids) ≡ false
any-shrinks p q [] h = refl
any-shrinks p q (i ∷ ids) h = ground (arith, any-shrinks p q ids)

gone_after : (id : ℕ) (ids : List ℕ) → any (λ i. i == id) (filter (λ i. not (i == id)) ids) ≡ false
gone_after id [] = refl
gone_after id (i ∷ ids) = ground (arith, gone_after id ids)

kept_after :
    (found : Option AssetFace) (q : ℕ → Bool) (ids : List ℕ)
    → is_kept found ids ≡ true
    → is_kept found (filter q ids) ≡ true
kept_after none q ids h = h
kept_after (some f) q ids h =
    let out : any (λ i. i == f.id) ids ≡ false = ground arith in
    rw (any-shrinks (λ i. i == f.id) q ids out) refl

-- A round leaves what is settled, and settles its box.
round_keeps :
    (asset : ℕ) (d : Detection) (b c : BoundingBox) (o found : Option AssetFace) (m : Matching)
    → is_settled c found m ≡ true
    → is_settled c found (match_found asset d b o m) ≡ true
unfolding match_found
round_keeps asset d b c none found m h =
    ground (arith, any-append (λ f. is_box f.box c) m.to_add (new_face m.next_id asset d b ∷ []))
round_keeps asset d b c (some f) found m h =
    elim (Bool-cases (any (λ i. i == f.id) m.ml_face_ids)) [
      | inl k ↦ rw k (ground (arith, kept_after found (λ i. not (i == f.id)) m.ml_face_ids))
      | inr k ↦ rw k h
    ]

round_settles :
    (asset : ℕ) (d : Detection) (b : BoundingBox) (o : Option AssetFace) (m : Matching)
    → is_settled b o (match_found asset d b o m) ≡ true
unfolding match_found
round_settles asset d b none m = ground (
  arith,
  any-append (λ f. is_box f.box b) m.to_add (new_face m.next_id asset d b ∷ []),
  is_box_refl b,
)
round_settles asset d b (some f) m = elim (Bool-cases (any (λ i. i == f.id) m.ml_face_ids)) [
  | inl k ↦ rw k (ground (arith, gone_after f.id m.ml_face_ids))
  | inr k ↦ rw k (ground (arith, k))
]

loop_keeps :
    (asset : ℕ) (d : Detection) (s : Scale) (existing : List AssetFace) (boxes : List BoundingBox)
    (c : BoundingBox) (m : Matching)
    → is_settled c (found_for s existing c) m ≡ true
    → is_settled c (found_for s existing c) (match_boxes asset d s existing boxes m) ≡ true
unfolding match_boxes match_box
loop_keeps asset d s existing [] c m h = h
loop_keeps asset d s existing (b ∷ boxes) c m h =
    loop_keeps asset d s existing boxes c (match_box asset d s existing b m)
      (round_keeps asset d b c (found_for s existing b) (found_for s existing c) m h)

loop_settles :
    (asset : ℕ) (d : Detection) (s : Scale) (existing : List AssetFace) (boxes : List BoundingBox)
    (m : Matching)
    → every
        (λ b. is_settled b (found_for s existing b) (match_boxes asset d s existing boxes m))
        boxes
      ≡ true
unfolding match_boxes match_box
loop_settles asset d s existing [] m = refl
loop_settles asset d s existing (b ∷ boxes) m =
    let m' = match_box asset d s existing b m in
    rw
      (loop_keeps asset d s existing boxes b m'
        (round_settles asset d b (found_for s existing b) m))
      (loop_settles asset d s existing boxes m')

-- New faces are of the photo.
abbrev is_of : ℕ → AssetFace → Bool
is_of asset f = f.asset_id == asset && not f.deleted

every-append :
    (p : AssetFace → Bool) (xs ys : List AssetFace)
    → every p xs ≡ true
    → every p ys ≡ true
    → every p (xs ++ ys) ≡ true
every-append p [] ys h k = k
every-append p (x ∷ xs) ys h k = ground (arith, every-append p xs ys)

round_adds :
    (asset : ℕ) (d : Detection) (b : BoundingBox) (o : Option AssetFace) (m : Matching)
    → every (is_of asset) m.to_add ≡ true
    → every (is_of asset) (match_found asset d b o m).to_add ≡ true
unfolding match_found
round_adds asset d b none m h =
    every-append (is_of asset) m.to_add (new_face m.next_id asset d b ∷ []) h
      (rw (==_refl asset) refl)
round_adds asset d b (some f) m h = elim (Bool-cases (any (λ i. i == f.id) m.ml_face_ids)) [
  | inl k ↦ rw k h
  | inr k ↦ rw k h
]

loop_adds :
    (asset : ℕ) (d : Detection) (s : Scale) (existing : List AssetFace) (boxes : List BoundingBox)
    (m : Matching)
    → every (is_of asset) m.to_add ≡ true
    → every (is_of asset) (match_boxes asset d s existing boxes m).to_add ≡ true
unfolding match_boxes match_box
loop_adds asset d s existing [] m h = h
loop_adds asset d s existing (b ∷ boxes) m h =
    loop_adds asset d s existing boxes (match_box asset d s existing b m)
      (round_adds asset d b (found_for s existing b) m h)

-- A face shows a box: it was made of it, or overlaps it by more than a half.
abbrev pub shows : Scale → BoundingBox → AssetFace → Bool
shows s b f = is_box f.box b || overlaps s f b

-- The faces that refreshFaces leaves.
abbrev left_faces : Matching → FaceDb → List AssetFace
left_faces m db = m.to_add ++ filter (λ f. not (any (λ i. i == f.id) m.ml_face_ids)) db.faces

settled-shown :
    (asset : ℕ) (s : Scale) (b : BoundingBox) (m : Matching) (db : FaceDb)
    → every (is_of asset) m.to_add ≡ true
    → is_settled b (found_for s (get_by_asset_id asset db) b) m ≡ true
    → any (shows s b) (filter (is_of asset) (left_faces m db)) ≡ true
unfolding get_by_asset_id
settled-shown asset s b m db own h = elim (Bool-cases (any (λ f. is_box f.box b) m.to_add)) [
  | inl new ↦
      let (f, held, same) = any-Held (λ f. is_box f.box b) m.to_add new in
      let of = every-Held (is_of asset) f m.to_add own held in
      Held-any (shows s b) f (filter (is_of asset) (left_faces m db))
        (Held-filter (is_of asset) f (left_faces m db)
          (Held-left f m.to_add (filter (λ f. not (any (λ i. i == f.id) m.ml_face_ids)) db.faces)
            held)
          of)
        (rw same refl)
  | inr new ↦ elim (Option-cases (found_for s (get_by_asset_id asset db) b)) [
    | inl e ↦ cc (rw (new, e) at h)
    | inr (f, e) ↦
        let kept : is_kept (some f) m.ml_face_ids ≡ true = rw (new, e) at h in
        let held = find-Held (λ f. overlaps s f b) (get_by_asset_id asset db) e in
        let over = find_holds (λ f. overlaps s f b) (get_by_asset_id asset db) e in
        let there = filter-Held (is_of asset) f db.faces held in
        let of = filter-holds (is_of asset) f db.faces held in
        let rest = filter (λ f. not (any (λ i. i == f.id) m.ml_face_ids)) db.faces in
        Held-any (shows s b) f (filter (is_of asset) (left_faces m db))
          (Held-filter (is_of asset) f (left_faces m db)
            (Held-right f m.to_add rest
              (Held-filter (λ f. not (any (λ i. i == f.id) m.ml_face_ids)) f db.faces there kept))
            of)
          (ground (arith, over))
  ]
]

finish-faces :
    (now asset event count : ℕ) (added : List AssetFace) (db : FaceDb)
    → (finish_detection now asset event count added db).faces ≡ db.faces
unfolding finish_detection set_faces_detected
finish-faces now asset event count [] db = refl
finish-faces now asset event count (f ∷ added) db = refl

refresh-faces :
    (m : Matching) (db x : FaceDb)
    → refresh_faces m.to_add m.ml_face_ids m.embeddings (record db { next_id = m.next_id }) ≡ ok x
    → x.faces ≡ left_faces m db
unfolding refresh_faces
refresh-faces m db x h = elim (Bool-cases (has_clash m.embeddings db.face_search)) [
  | inl e ↦ cc (rw e at h)
  | inr e ↦ sym (ap (λ r. elim r [ ok y ↦ y.faces | throws t ↦ left_faces m db ]) (rw e at h))
]

-- The rows that a detection which succeeds leaves.
stored :
    (now asset event : ℕ) (d : Detection) (db db' : FaceDb) (status : JobStatus)
    → store_detection now asset event d db ≡ ok (db', status)
    → db'.faces ≡ left_faces (match_all asset d db) db
unfolding store_detection
stored now asset event d db db' status h =
    let m = match_all asset d db in
    go (refresh_faces m.to_add m.ml_face_ids m.embeddings (record db { next_id = m.next_id }))
      (refresh-faces m db) h
  where
    go :
        (r : Result FaceDb)
        → ((x : FaceDb) → r ≡ ok x → x.faces ≡ left_faces (match_all asset d db) db)
        → finish_refreshed now asset event (length d.faces) (match_all asset d db).to_add r
          ≡ ok (db', status)
        → db'.faces ≡ left_faces (match_all asset d db) db
    go (throws x) f h = cc
    go (ok x) f h =
        sym (ap (λ r. elim r [ ok y ↦ y.0.faces | throws t ↦ db'.faces ]) h)
        ∙ finish-faces now asset event (length d.faces) (match_all asset d db).to_add x
        ∙ f x refl

-- What the loop starts from.
abbrev first_matching : List AssetFace → FaceDb → Matching
first_matching existing db = record {
  to_add = [];
  embeddings = [];
  ml_face_ids = ids_of (filter (λ f. is_ml f.source_type) existing);
  next_id = db.next_id;
}

-- After a detection that succeeds, each face that was detected in the photo has a row among the faces of
-- the photo: one that was made of its box, or one whose box, as the code scales it, overlaps it by more
-- than a half.
pub detected-AllShown :
    (now asset event : ℕ) (d : Detection) (db db' : FaceDb) (status : JobStatus)
    → store_detection now asset event d db ≡ ok (db', status)
    → every
        (λ b. any (shows (scale_of d (get_by_asset_id asset db)) b) (get_by_asset_id asset db'))
        d.faces
      ≡ true
unfolding match_all get_by_asset_id
detected-AllShown now asset event d db db' status h =
    let existing = get_by_asset_id asset db in
    let s = scale_of d existing in
    let m = match_all asset d db in
    let rows : get_by_asset_id asset db' ≡ filter (is_of asset) (left_faces m db) =
      ap (filter (is_of asset)) (stored now asset event d db db' status h) in
    let own = loop_adds asset d s existing d.faces (first_matching existing db) refl in
    let settled = loop_settles asset d s existing d.faces (first_matching existing db) in
    rw rows (
      every-weaken (λ b. is_settled b (found_for s existing b) m)
        (λ b. any (shows s b) (filter (is_of asset) (left_faces m db))) d.faces
        (λ b. settled-shown asset s b m db own) settled)
