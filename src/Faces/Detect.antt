-- ===== src/Faces/Detect.antt =====
-- handleDetectFaces of apps/backend/src/services/face.service.ts.
use event_media_platform.Prelude.{
  ℕ, suc, ◌+◌, ◌-◌, ◌*◌, Bool, true, false, not, List, [], ◌∷◌, ◌++◌, map, Option, none, some, ltb,
  ◌==◌, if◌then◌else◌, max, min, filter, find, any, length,
}
use event_media_platform.Prelude.Result.{Result, ok, throws, internal}
use event_media_platform.Enum.{JobStatus}
use event_media_platform.Faces.Rows.{
  FaceSourceType, BoundingBox, AssetFace, FaceJob, FaceDb, get_asset, get_by_asset_id,
  refresh_faces, set_faces_detected,
}

-- The answer of the ML sidecar.
pub record Detection : Type 0 where
  pub image_width : ℕ
  pub image_height : ℕ
  pub faces : List BoundingBox

-- What the scales are multiplied and divided by: the size of the new image, and that of the first
-- stored face (`existingFaces[0]?.imageWidth || 1`).
pub record Scale : Type 0 where
  pub width : ℕ
  pub height : ℕ
  pub old_width : ℕ
  pub old_height : ℕ

abbrev pub or_one : ℕ → ℕ
or_one n = if n == 0 then 1 else n

unfoldable pub scale_of : Detection → List AssetFace → Scale
scale_of d [] = record {
  width = d.image_width;
  height = d.image_height;
  old_width = 1;
  old_height = 1;
}
scale_of d (f ∷ faces) = record {
  width = d.image_width;
  height = d.image_height;
  old_width = or_one f.image_width;
  old_height = or_one f.image_height;
}

-- scaledBox, and the box of a stored face, both times the old size of the image, so that they are whole
-- numbers: a fraction of areas is the same.
abbrev pub scaled_box : Scale → BoundingBox → BoundingBox
scaled_box s b = record {
  x1 = b.x1 * s.width;
  y1 = b.y1 * s.height;
  x2 = b.x2 * s.width;
  y2 = b.y2 * s.height;
}

abbrev pub stored_box : Scale → BoundingBox → BoundingBox
stored_box s b = record {
  x1 = b.x1 * s.old_width;
  y1 = b.y1 * s.old_height;
  x2 = b.x2 * s.old_width;
  y2 = b.y2 * s.old_height;
}

abbrev pub area : BoundingBox → ℕ
area b = (b.x2 - b.x1) * (b.y2 - b.y1)

abbrev pub intersection : BoundingBox → BoundingBox → ℕ
intersection a b = (min a.x2 b.x2 - max a.x1 b.x1) * (min a.y2 b.y2 - max a.y1 b.y1)

-- `iou(a, b) > 0.5`; two boxes without an area have no quotient, and the test fails.
unfoldable pub iou_above_half : BoundingBox → BoundingBox → Bool
iou_above_half a b = ltb (area a + area b - intersection a b) (2 * intersection a b)

-- The test of a stored face against a new box.
unfoldable pub overlaps : Scale → AssetFace → BoundingBox → Bool
unfolding iou_above_half
overlaps s f b = iou_above_half (stored_box s f.box) (scaled_box s b)

-- facesToAdd, embeddings, mlFaceIds, and the next id.
pub record Matching : Type 0 where
  pub to_add : List AssetFace
  pub embeddings : List ℕ
  pub ml_face_ids : List ℕ
  pub next_id : ℕ

abbrev pub new_face : ℕ → ℕ → Detection → BoundingBox → AssetFace
new_face id asset d b = record {
  id = id;
  asset_id = asset;
  person_id = none;
  image_width = d.image_width;
  image_height = d.image_height;
  box = b;
  source_type = FaceSourceType.machine_learning;
  deleted = false;
}

-- One round of the loop over the new boxes, by the stored face that the box matches.
unfoldable pub match_found : ℕ → Detection → BoundingBox → Option AssetFace → Matching → Matching
match_found asset d b none m = record {
  to_add = m.to_add ++ (new_face m.next_id asset d b ∷ []);
  embeddings = m.embeddings ++ (m.next_id ∷ []);
  ml_face_ids = m.ml_face_ids;
  next_id = suc m.next_id;
}
match_found asset d b (some f) m =
    if any (λ i. i == f.id) m.ml_face_ids
    then record m { ml_face_ids = filter (λ i. not (i == f.id)) m.ml_face_ids }
    else record m { embeddings = m.embeddings ++ (f.id ∷ []) }

unfoldable pub match_box :
    ℕ → Detection → Scale → List AssetFace → BoundingBox → Matching → Matching
unfolding overlaps match_found
match_box asset d s existing b m = match_found asset d b (find (λ f. overlaps s f b) existing) m

unfoldable pub match_boxes :
    ℕ → Detection → Scale → List AssetFace → List BoundingBox → Matching → Matching
unfolding match_box
match_boxes asset d s existing [] m = m
match_boxes asset d s existing (b ∷ boxes) m =
    match_boxes asset d s existing boxes (match_box asset d s existing b m)

abbrev pub is_ml : FaceSourceType → Bool
is_ml FaceSourceType.machine_learning = true

abbrev pub ids_of : List AssetFace → List ℕ
ids_of faces = map (λ f. f.id) faces

abbrev pub is_none : List AssetFace → Bool
is_none [] = true
is_none (f ∷ faces) = false

abbrev pub recognize_jobs : ℕ → List AssetFace → List FaceJob
recognize_jobs event added =
    map (λ f. FaceJob.face_recognize f.id false) added
    ++ (FaceJob.face_recognize_queue_all event ∷ FaceJob.participant_rematch event ∷ [])

-- The end of handleDetectFaces, when the rows were written.
unfoldable pub finish_detection : ℕ → ℕ → ℕ → ℕ → List AssetFace → FaceDb → FaceDb
finish_detection now asset event count added db =
    let db' = set_faces_detected now asset count db in
    if is_none added then db' else record db' { queue = db'.queue ++ recognize_jobs event added }

-- The matching of all boxes.
unfoldable pub match_all : ℕ → Detection → FaceDb → Matching
unfolding match_boxes scale_of
match_all asset d db =
    let existing = get_by_asset_id asset db in
    match_boxes asset d (scale_of d existing) existing d.faces (record {
      to_add = [];
      embeddings = [];
      ml_face_ids = ids_of (filter (λ f. is_ml f.source_type) existing);
      next_id = db.next_id;
    })

abbrev pub finish_refreshed :
    ℕ → ℕ → ℕ → ℕ → List AssetFace → Result FaceDb → Result (FaceDb × JobStatus)
finish_refreshed now asset event count added (throws x) = throws x
finish_refreshed now asset event count added (ok db) =
    ok (finish_detection now asset event count added db, JobStatus.success)

-- The detection of one photo. A statement with nothing to write is not sent, which leaves the rows as
-- they are.
unfoldable pub store_detection : ℕ → ℕ → ℕ → Detection → FaceDb → Result (FaceDb × JobStatus)
unfolding match_all finish_detection
store_detection now asset event d db =
    let m = match_all asset d db in
    finish_refreshed now asset event (length d.faces) m.to_add
      (refresh_faces m.to_add m.ml_face_ids m.embeddings (record db { next_id = m.next_id }))

-- handleDetectFaces; an answer of none is a call that throws.
unfoldable pub handle_detect_faces : ℕ → ℕ → Option Detection → FaceDb → Result (FaceDb × JobStatus)
unfolding store_detection
handle_detect_faces now asset answer db = elim (get_asset asset db) [
  | none ↦ ok (db, JobStatus.skipped)
  | some a ↦ if not a.has_preview then ok (db, JobStatus.failed) else elim answer [
    | none ↦ throws internal
    | some d ↦ store_detection now asset a.event_id d db
  ]
]
