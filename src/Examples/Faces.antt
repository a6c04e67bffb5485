-- ===== src/Examples/Faces.antt =====
-- The theorem about detected faces at a concrete input.
use event_media_platform.Prelude.{
  arith, ℕ, ◌+◌, ◌≡◌, refl, true, false, [], ◌∷◌, map, none, some, any, every,
}
use event_media_platform.Prelude.Result.{ok, throws, internal}
use event_media_platform.Enum.{JobStatus}
use event_media_platform.Faces.Rows.{
  FaceSourceType, BoundingBox, AssetFace, FaceDb, get_by_asset_id, get_asset, refresh_faces,
  set_faces_detected,
}
use event_media_platform.Faces.Detect.{Detection, scale_of, store_detection, handle_detect_faces}
use event_media_platform.Prelude.Result.{Holds}
use event_media_platform.Faces.People.{PeopleDb, Person, Claim}
use event_media_platform.Faces.Recognize.{FacialRecognitionConfig, handle_recognize_faces}
use event_media_platform.Faces.People.{PersonJob}
use event_media_platform.Faces.Queueing.{
  handle_queue_recognize_faces, prepare, recognize_job, unassigned_ids,
}
use event_media_platform.Faces.AllQueued.{all_unassigned-AreQueued}
use event_media_platform.Prelude.{map, ◌++◌}
use event_media_platform.Faces.Tenancy.{all_separate}
use event_media_platform.Faces.Separate.{recognition_keeps_events}
use event_media_platform.Faces.Found.{shows, detected-AllShown}

abbrev square : ℕ → ℕ → BoundingBox
square at size = record { x1 = at; y1 = at; x2 = at + size; y2 = at + size }

abbrev face : AssetFace
face = record {
  id = 1;
  asset_id = 4;
  person_id = some 2;
  image_width = 100;
  image_height = 100;
  box = square 10 10;
  source_type = FaceSourceType.machine_learning;
  deleted = false;
}

abbrev face_db : FaceDb
face_db = record {
  assets =
      record {
        id = 4;
        event_id = 7;
        org_id = 3;
        has_preview = true;
        faces_detected_at = none;
        face_count = 0;
        deleted = false;
      }
      ∷ [];
  faces = face ∷ [];
  face_search = 1 ∷ [];
  queue = [];
  next_id = 9;
}

-- The stored face again, one point off, and another.
abbrev detection : Detection
detection = record {
  image_width = 100;
  image_height = 100;
  faces = square 11 10 ∷ square 50 20 ∷ [];
}

abbrev detected_db : FaceDb
detected_db = elim (store_detection 5 4 7 detection face_db) [ ok r ↦ r.0 | throws x ↦ face_db ]

detected-AllShown_example :
    every
      (λ b.
        any
          (shows (scale_of detection (get_by_asset_id 4 face_db)) b)
          (get_by_asset_id 4 detected_db))
      detection.faces
    ≡ true
unfolding store_detection refresh_faces get_by_asset_id
detected-AllShown_example =
    detected-AllShown 5 4 7 detection face_db detected_db JobStatus.success refl

face_stays : map (λ f. f.id) detected_db.faces ≡ 9 ∷ 1 ∷ []
unfolding store_detection refresh_faces get_by_asset_id set_faces_detected
face_stays = refl

-- The same face on a preview of twice the size is taken for another one: the row with its person goes.
abbrev larger_preview : Detection
larger_preview = record { image_width = 200; image_height = 200; faces = square 20 20 ∷ [] }

abbrev larger_db : FaceDb
larger_db = elim (store_detection 5 4 7 larger_preview face_db) [ ok r ↦ r.0 | throws x ↦ face_db ]

face_is_lost : map (λ f. f.id) larger_db.faces ≡ 9 ∷ []
unfolding store_detection refresh_faces get_by_asset_id set_faces_detected
face_is_lost = refl

-- Two boxes over one stored face make the statement fail, and with it the job.
abbrev two_boxes : Detection
two_boxes = record {
  image_width = 100;
  image_height = 100;
  faces = square 11 10 ∷ square 10 10 ∷ [];
}

two_boxes_fail : handle_detect_faces 5 4 (some two_boxes) face_db ≡ throws internal
unfolding handle_detect_faces get_asset refresh_faces get_by_asset_id
two_boxes_fail = refl

-- Another face of the photo, which has no person yet, is as near to the stored one as to itself.
abbrev people_db : PeopleDb
people_db = record {
  rows = record face_db {
    faces = face ∷ record face { id = 3; person_id = none } ∷ [];
    face_search = 1 ∷ 3 ∷ [];
  };
  people =
      record {
        id = 2;
        event_id = 7;
        org_id = 3;
        name = 0;
        name_set_at = none;
        face_asset_face_id = some 1;
        thumbnail_key = 0;
      }
      ∷ [];
  claims = record { via_face_id = 1; created_at = 6; name = 55; deleted = false } ∷ [];
  jobs = [];
}

abbrev settings : FacialRecognitionConfig
settings = record { min_score = 7; max_distance = 5; min_faces = 2 }

recognition_keeps_events_example :
    Holds
      (λ left. all_separate left.0 ≡ true)
      (handle_recognize_faces settings (λ f. f) 3 false people_db)
unfolding event_media_platform.Faces.People.asset_of
recognition_keeps_events_example =
    recognition_keeps_events settings (λ f. f) 3 false people_db refl refl

abbrev recognized : PeopleDb
recognized = elim (handle_recognize_faces settings (λ f. f) 3 false people_db) [
  | ok r ↦ r.0
  | throws x ↦ people_db
]

face_is_recognized :
    (map (λ f. f.person_id) recognized.rows.faces ≡ some 2 ∷ some 2 ∷ [])
    × (map (λ p. p.name) recognized.people ≡ 55 ∷ [])
unfolding handle_recognize_faces event_media_platform.Faces.People.search_faces
    event_media_platform.Faces.People.name_from_participants
    event_media_platform.Faces.People.reassign_face
face_is_recognized = (refl, refl)

all_unassigned-AreQueued_example :
    (handle_queue_recognize_faces 2 7 true people_db).jobs
    ≡ ((prepare 7 true people_db).jobs
        ++ map recognize_job (unassigned_ids 7 (prepare 7 true people_db).rows))
      ++ (PersonJob.participant_rematch 7 ∷ [])
unfolding unassigned_ids prepare
all_unassigned-AreQueued_example = all_unassigned-AreQueued 2 7 true people_db refl (omega arith)

both_are_queued :
    (handle_queue_recognize_faces 2 7 true people_db).jobs
    ≡ recognize_job 1 ∷ recognize_job 3 ∷ PersonJob.participant_rematch 7 ∷ []
unfolding handle_queue_recognize_faces
both_are_queued = refl
