-- ===== src/Faces/Separate.antt =====
-- handleRecognizeFaces of apps/backend/src/services/face.service.ts and the events of the persons that
-- it assigns.
use event_media_platform.Prelude.{
  ℕ, ◌≡◌, inl, inr, Bool, true, false, not, ◌&&◌, List, Option, none, some, ltb, leb, ◌==◌, find,
  any, every, length, Bool-cases, Option-cases,
}
use event_media_platform.Prelude.Result.{Result, ok, throws, Holds}
use event_media_platform.Prelude.Held.{Held, find-Held}
use event_media_platform.Enum.{JobStatus}
use event_media_platform.Faces.Rows.{AssetFace, FaceAsset}
use event_media_platform.Faces.People.{PeopleDb, asset_of, is_given, search_faces}
use event_media_platform.Faces.Recognize.{
  FacialRecognitionConfig, get_for_recognition, first_person, settle, settle_with, recognize_with,
  recognize_found, handle_recognize_faces,
}
use event_media_platform.Faces.Tenancy.{
  search-matches, first_in, settle-separate, is_match_in, all_separate, person_in, has_keys,
}

-- The rows that a call leaves have each face with a person of the event of its photo.
abbrev LeavesSeparate : Result (PeopleDb × JobStatus) → Type 0
LeavesSeparate r = Holds (λ left. all_separate left.0 ≡ true) r

settle_with-separate :
    (config : FacialRecognitionConfig) (distance : ℕ → ℕ) (f : AssetFace) (a : FaceAsset)
    (is_core : Bool) (p : Option ℕ) (db : PeopleDb)
    → Held f db.rows.faces
    → has_keys db.rows.faces ≡ true
    → asset_of f db.rows ≡ some a
    → elim p [ none ↦ true | some q ↦ person_in a.event_id db.people q ] ≡ true
    → all_separate db ≡ true
    → LeavesSeparate (settle_with config distance f a is_core p db)
unfolding settle_with
settle_with-separate config distance f a is_core (some p) db held keys at there h =
    settle-separate f a is_core (some p) db held keys at there h
settle_with-separate config distance f a is_core none db held keys at there h =
    go (search_faces distance a.event_id 1 config.max_distance true db.rows)
      (search-matches distance a.event_id 1 config.max_distance true db h)
  where
    go :
        (r : Result (List AssetFace))
        → Holds (λ found. every (is_match_in a.event_id db.people) found ≡ true) r
        → LeavesSeparate (elim r [
          | throws x ↦ throws x
          | ok found ↦ ok (settle f a is_core (first_person found) db, JobStatus.success)
        ])
    go (throws x) k = tt
    go (ok found) k =
        settle-separate f a is_core (first_person found) db held keys at
          (first_in a.event_id db.people found k) h

recognize_with-separate :
    (config : FacialRecognitionConfig) (distance : ℕ → ℕ) (deferred : Bool) (f : AssetFace)
    (a : FaceAsset) (matches : List AssetFace) (db : PeopleDb)
    → Held f db.rows.faces
    → has_keys db.rows.faces ≡ true
    → asset_of f db.rows ≡ some a
    → every (is_match_in a.event_id db.people) matches ≡ true
    → all_separate db ≡ true
    → LeavesSeparate (recognize_with config distance deferred f a matches db)
unfolding recognize_with
recognize_with-separate config distance deferred f a matches db held keys at all h =
    let is_core = leb config.min_faces (length matches) in
    elim (Bool-cases (ltb 1 config.min_faces && leb (length matches) 1)) [
      | inl e ↦ rw (LeavesSeparate, Holds, recognize_with, e) h
      | inr e ↦ elim (Bool-cases (not is_core && not deferred)) [
        | inl k ↦ rw (LeavesSeparate, Holds, recognize_with, e, k) h
        | inr k ↦
            rw (recognize_with, e, k)
              (settle_with-separate config distance f a is_core (first_person matches) db held keys
                at (first_in a.event_id db.people matches all) h)
      ]
    ]

recognize_found-separate :
    (config : FacialRecognitionConfig) (distance : ℕ → ℕ) (deferred : Bool) (f : AssetFace)
    (a : FaceAsset) (db : PeopleDb)
    → Held f db.rows.faces
    → has_keys db.rows.faces ≡ true
    → asset_of f db.rows ≡ some a
    → all_separate db ≡ true
    → LeavesSeparate (recognize_found config distance deferred f a db)
unfolding recognize_found
recognize_found-separate config distance deferred f a db held keys at h =
    elim (Bool-cases (not (any (λ i. i == f.id) db.rows.face_search))) [
      | inl e ↦ rw (LeavesSeparate, Holds, recognize_found, e) h
      | inr e ↦ elim (Bool-cases (is_given f.person_id)) [
        | inl k ↦ rw (LeavesSeparate, Holds, recognize_found, e, k) h
        | inr k ↦
            rw (recognize_found, e, k)
              (go
                (search_faces distance a.event_id config.min_faces config.max_distance false
                  db.rows)
                (search-matches distance a.event_id config.min_faces config.max_distance false db
                  h))
      ]
    ]
  where
    go :
        (r : Result (List AssetFace))
        → Holds (λ found. every (is_match_in a.event_id db.people) found ≡ true) r
        → LeavesSeparate (elim r [
          | throws x ↦ throws x
          | ok matches ↦ recognize_with config distance deferred f a matches db
        ])
    go (throws x) k = tt
    go (ok matches) k =
        recognize_with-separate config distance deferred f a matches db held keys at k h

-- When the person of every face is one of the event of its photo, it is so again after the recognition
-- of any face, whatever the settings and the distances of the embeddings: faces of different events are
-- never brought together.
pub recognition_keeps_events :
    (config : FacialRecognitionConfig) (distance : ℕ → ℕ) (face : ℕ) (deferred : Bool)
    (db : PeopleDb)
    → has_keys db.rows.faces ≡ true
    → all_separate db ≡ true
    → Holds
        (λ left. all_separate left.0 ≡ true)
        (handle_recognize_faces config distance face deferred db)
unfolding handle_recognize_faces get_for_recognition
recognition_keeps_events config distance face deferred db keys h =
    elim (Option-cases (find (λ f. f.id == face && not f.deleted) db.rows.faces)) [
      | inl e ↦ rw (Holds, handle_recognize_faces, get_for_recognition, e) h
      | inr (f, e) ↦ elim (Option-cases (asset_of f db.rows)) [
        | inl k ↦ rw (Holds, handle_recognize_faces, get_for_recognition, e, k) h
        | inr (a, k) ↦ elim (Bool-cases a.deleted) [
          | inl t ↦ rw (Holds, handle_recognize_faces, get_for_recognition, e, k, t) h
          | inr t ↦
              rw (handle_recognize_faces, get_for_recognition, e, k, t)
                (recognize_found-separate config distance deferred f a db
                  (find-Held (λ f. f.id == face && not f.deleted) db.rows.faces e) keys k h)
        ]
      ]
    ]
