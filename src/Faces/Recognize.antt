-- ===== src/Faces/Recognize.antt =====
-- handleRecognizeFaces and getConfig of apps/backend/src/services/face.service.ts.
use event_media_platform.Prelude.{
  ℕ, suc, Bool, true, false, not, ◌&&◌, List, [], ◌∷◌, ◌++◌, Option, none, some, ltb, leb, ◌==◌,
  if◌then◌else◌, find, any, length,
}
use event_media_platform.Prelude.Result.{Result, ok, throws}
use event_media_platform.Enum.{JobStatus}
use event_media_platform.Faces.Rows.{AssetFace, FaceAsset, FaceDb}
use event_media_platform.Faces.People.{
  PersonJob, PeopleDb, asset_of, is_given, search_faces, reassign_face, name_from_participants,
}

pub record FacialRecognitionConfig : Type 0 where
  pub min_score : ℕ
  pub max_distance : ℕ
  pub min_faces : ℕ

-- The settings of an event, or none of them.
pub record EventConfig : Type 0 where
  pub min_score : Option ℕ
  pub match_max_distance : Option ℕ
  pub min_faces : Option ℕ

abbrev pub or_default : Option ℕ → ℕ → ℕ
or_default none n = n
or_default (some m) n = m

-- getConfig
unfoldable pub get_config : EventConfig → FacialRecognitionConfig → FacialRecognitionConfig
get_config event config = record {
  min_score = or_default event.min_score config.min_score;
  max_distance = or_default event.match_max_distance config.max_distance;
  min_faces = or_default event.min_faces config.min_faces;
}

-- getForRecognition: the face with its asset, neither of them deleted.
unfoldable pub get_for_recognition : ℕ → FaceDb → Option (AssetFace × FaceAsset)
unfolding asset_of
get_for_recognition id db = elim (find (λ f. f.id == id && not f.deleted) db.faces) [
  | none ↦ none
  | some f ↦ elim (asset_of f db) [ none ↦ none | some a ↦ if a.deleted then none else some (f, a) ]
]

-- `matches.find((match) => match.personId)?.personId`
unfoldable pub first_person : List AssetFace → Option ℕ
first_person [] = none
first_person (f ∷ faces) = elim f.person_id [ some p ↦ some p | none ↦ first_person faces ]

-- The assignment of the face, with the name that a guest may have claimed.
unfoldable pub assign : AssetFace → FaceAsset → ℕ → PeopleDb → PeopleDb
assign f a person db = name_from_participants a.event_id person (reassign_face f.id person db)

-- A new person of the event, with its jobs.
unfoldable pub create_person : AssetFace → FaceAsset → PeopleDb → PeopleDb × ℕ
create_person f a db =
    let id = db.rows.next_id in
    (
      record db {
        people =
            record {
              id = id;
              event_id = a.event_id;
              org_id = a.org_id;
              name = 0;
              name_set_at = none;
              face_asset_face_id = some f.id;
              thumbnail_key = 0;
            }
            ∷ db.people;
        rows = record db.rows { next_id = suc id };
        jobs =
            db.jobs
            ++ (PersonJob.person_thumbnail id ∷ PersonJob.participant_rematch a.event_id ∷ []);
      },
      id,
    )

-- The end of handleRecognizeFaces, by the person that was found.
unfoldable pub settle : AssetFace → FaceAsset → Bool → Option ℕ → PeopleDb → PeopleDb
unfolding assign create_person
settle f a is_core (some p) db = assign f a p db
settle f a true none db = let (db', id) = create_person f a db in assign f a id db'
settle f a false none db = db

-- The second search, for a face with a person, when no match has one.
unfoldable pub settle_with :
    FacialRecognitionConfig
    → (ℕ → ℕ)
    → AssetFace
    → FaceAsset
    → Bool
    → Option ℕ
    → PeopleDb
    → Result (PeopleDb × JobStatus)
unfolding settle first_person
settle_with config distance f a is_core (some p) db =
    ok (settle f a is_core (some p) db, JobStatus.success)
settle_with config distance f a is_core none db =
    elim (search_faces distance a.event_id 1 config.max_distance true db.rows) [
      | throws x ↦ throws x
      | ok found ↦ ok (settle f a is_core (first_person found) db, JobStatus.success)
    ]

-- handleRecognizeFaces, when the matches are known.
unfoldable pub recognize_with :
    FacialRecognitionConfig
    → (ℕ → ℕ)
    → Bool
    → AssetFace
    → FaceAsset
    → List AssetFace
    → PeopleDb
    → Result (PeopleDb × JobStatus)
unfolding settle_with first_person
recognize_with config distance deferred f a matches db =
    let is_core = leb config.min_faces (length matches) in
    if ltb 1 config.min_faces && leb (length matches) 1
    then ok (db, JobStatus.skipped)
    else if not is_core && not deferred
    then ok (
      record db { jobs = db.jobs ++ (PersonJob.face_recognize f.id true ∷ []) },
      JobStatus.skipped,
    )
    else settle_with config distance f a is_core (first_person matches) db

-- handleRecognizeFaces of the face and asset that were found.
unfoldable pub recognize_found :
    FacialRecognitionConfig
    → (ℕ → ℕ)
    → Bool
    → AssetFace
    → FaceAsset
    → PeopleDb
    → Result (PeopleDb × JobStatus)
unfolding recognize_with
recognize_found config distance deferred f a db =
    if not (any (λ i. i == f.id) db.rows.face_search)
    then ok (db, JobStatus.failed)
    else if is_given f.person_id
    then ok (db, JobStatus.skipped)
    else elim (search_faces distance a.event_id config.min_faces config.max_distance false
        db.rows) [
          | throws x ↦ throws x
          | ok matches ↦ recognize_with config distance deferred f a matches db
        ]

-- handleRecognizeFaces; every face comes from machine learning.
unfoldable pub handle_recognize_faces :
    FacialRecognitionConfig → (ℕ → ℕ) → ℕ → Bool → PeopleDb → Result (PeopleDb × JobStatus)
unfolding recognize_found get_for_recognition
handle_recognize_faces config distance face deferred db = elim (get_for_recognition face db.rows) [
  | none ↦ ok (db, JobStatus.failed)
  | some found ↦ recognize_found config distance deferred found.0 found.1 db
]
