-- ===== src/Faces/Queueing.antt =====
-- handleQueueRecognizeFaces and handlePersonCleanup of apps/backend/src/services/face.service.ts, with
-- their queries of repositories/face.repository.ts and person.repository.ts.
use event_media_platform.Prelude.{
  ℕ, zero, suc, Bool, false, not, ◌&&◌, List, [], ◌∷◌, ◌++◌, map, Option, none, some, ltb, ◌==◌,
  if◌then◌else◌, filter, any, take, last?, sort_by,
}
use event_media_platform.Faces.Rows.{AssetFace, FaceDb}
use event_media_platform.Faces.Detect.{is_ml}
use event_media_platform.Faces.People.{
  Person, PersonJob, PeopleDb, asset_of, is_in, is_given, is_person,
}

-- QUEUE_ALL_PAGE_SIZE
abbrev pub queue_all_page_size : ℕ
queue_all_page_size = 1000

-- unassignByEvent
abbrev pub detach : ℕ → FaceDb → AssetFace → AssetFace
detach event db f =
    if is_ml f.source_type && is_in event (asset_of f db) then record f { person_id = none } else f

unfoldable pub unassign_by_event : ℕ → PeopleDb → PeopleDb
unfolding asset_of
unassign_by_event event db = record db {
  rows = record db.rows { faces = map (detach event db.rows) db.rows.faces };
}

-- getAllWithoutFaces
abbrev pub has_face : List AssetFace → Person → Bool
has_face faces p = any (λ f. is_person f.person_id p.id && not f.deleted) faces

unfoldable pub get_all_without_faces : PeopleDb → List Person
get_all_without_faces db = filter (λ p. not (has_face db.rows.faces p)) db.people

-- delete of the persons, with ON DELETE SET NULL of their faces.
abbrev pub let_go : List Person → AssetFace → AssetFace
let_go gone f =
    if any (λ p. is_person f.person_id p.id) gone then record f { person_id = none } else f

unfoldable pub delete_people : List Person → PeopleDb → PeopleDb
delete_people gone db = record db {
  people = filter (λ p. not (any (λ q. q.id == p.id) gone)) db.people;
  rows = record db.rows { faces = map (let_go gone) db.rows.faces };
}

abbrev pub queue_thumbnails : List ℕ → List PersonJob → List PersonJob
queue_thumbnails [] jobs = jobs
queue_thumbnails (k ∷ keys) jobs = jobs ++ (PersonJob.cleanup_keys (k ∷ keys) ∷ [])

-- handlePersonCleanup
unfoldable pub handle_person_cleanup : PeopleDb → PeopleDb
unfolding get_all_without_faces delete_people
handle_person_cleanup db =
    let people = get_all_without_faces db in
    let keys = filter (λ k. not (k == 0)) (map (λ p. p.thumbnail_key) people) in
    delete_people people (record db { jobs = queue_thumbnails keys db.jobs })

-- The faces that getUnassignedFaceIds asks for, and their ids in order.
abbrev pub is_unassigned : ℕ → FaceDb → AssetFace → Bool
is_unassigned event db f =
    is_in event (asset_of f db)
    && (not f.deleted && (not (is_given f.person_id) && is_ml f.source_type))

unfoldable pub unassigned_ids : ℕ → FaceDb → List ℕ
unfolding asset_of
unassigned_ids event db =
    sort_by (λ i. i) (map (λ f. f.id) (filter (is_unassigned event db) db.faces))

abbrev pub after_id : Option ℕ → List ℕ → List ℕ
after_id none ids = ids
after_id (some z) ids = filter (λ i. ltb z i) ids

-- getUnassignedFaceIds
unfoldable pub get_unassigned_face_ids : ℕ → ℕ → Option ℕ → FaceDb → List ℕ
unfolding unassigned_ids
get_unassigned_face_ids event limit after db = take limit (after_id after (unassigned_ids event db))

abbrev pub recognize_job : ℕ → PersonJob
recognize_job id = PersonJob.face_recognize id false

-- The loop over the pages; the jobs run later, so that the rows stay.
unfoldable pub queue_pages : ℕ → (Option ℕ → List ℕ) → Option ℕ → List PersonJob → List PersonJob
queue_pages zero fetch after jobs = jobs
queue_pages (suc rounds) fetch after jobs =
    let page = fetch after in
    elim (last? page) [
      | none ↦ jobs
      | some z ↦ queue_pages rounds fetch (some z) (jobs ++ map recognize_job page)
    ]

-- What handleQueueRecognizeFaces does before it reads the pages.
unfoldable pub prepare : ℕ → Bool → PeopleDb → PeopleDb
unfolding unassign_by_event handle_person_cleanup
prepare event force db = if force then handle_person_cleanup (unassign_by_event event db) else db

-- handleQueueRecognizeFaces, with so many rounds of its loop at most.
unfoldable pub handle_queue_recognize_faces : ℕ → ℕ → Bool → PeopleDb → PeopleDb
unfolding prepare queue_pages get_unassigned_face_ids
handle_queue_recognize_faces rounds event force db =
    let db' = prepare event force db in
    let jobs =
      queue_pages rounds (λ after. get_unassigned_face_ids event queue_all_page_size after db'.rows)
        none db'.jobs in
    record db' { jobs = jobs ++ (PersonJob.participant_rematch event ∷ []) }
