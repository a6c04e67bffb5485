-- ===== src/Faces/Rows.antt =====
-- The rows of asset_face and face_search with the queries of apps/backend/src/repositories/face.repository.ts.
-- Coordinates are natural numbers, so a box does not reach out of the image to the left or the top, and
-- the corners of a box are in order.

use event_media_platform.Prelude.{
  ℕ, Bool, false, not, ◌&&◌, ◌||◌, List, [], ◌∷◌, ◌++◌, Option, some, ◌==◌, if◌then◌else◌, filter,
  find, any, update_by,
}
use event_media_platform.Prelude.Result.{Result, ok, throws, internal}

pub data FaceSourceType : Type 0 where
  machine_learning : FaceSourceType

pub record BoundingBox : Type 0 where
  pub x1 : ℕ
  pub y1 : ℕ
  pub x2 : ℕ
  pub y2 : ℕ

pub record AssetFace : Type 0 where
  pub id : ℕ
  pub asset_id : ℕ
  pub person_id : Option ℕ
  pub image_width : ℕ
  pub image_height : ℕ
  pub box : BoundingBox
  pub source_type : FaceSourceType
  pub deleted : Bool

pub record FaceAsset : Type 0 where
  pub id : ℕ
  pub event_id : ℕ
  pub org_id : ℕ
  pub has_preview : Bool
  pub faces_detected_at : Option ℕ
  pub face_count : ℕ
  pub deleted : Bool

pub data FaceJob : Type 0 where
  face_recognize : ℕ → Bool → FaceJob
  face_recognize_queue_all : ℕ → FaceJob
  participant_rematch : ℕ → FaceJob

-- `face_search` holds the faces that have an embedding.
pub record FaceDb : Type 0 where
  pub assets : List FaceAsset
  pub faces : List AssetFace
  pub face_search : List ℕ
  pub queue : List FaceJob
  pub next_id : ℕ

-- getByIdUnscoped
unfoldable pub get_asset : ℕ → FaceDb → Option FaceAsset
get_asset id db = find (λ a. a.id == id && not a.deleted) db.assets

-- getByAssetId
unfoldable pub get_by_asset_id : ℕ → FaceDb → List AssetFace
get_by_asset_id asset db = filter (λ f. f.asset_id == asset && not f.deleted) db.faces

-- The primary key of face_search: no face is in the list twice, or has an embedding already.
unfoldable pub has_clash : List ℕ → List ℕ → Bool
has_clash [] present = false
has_clash (i ∷ ids) present = any (λ j. j == i) present || has_clash ids (i ∷ present)

-- refreshFaces: one statement, which a second embedding of a face fails. An embedding goes with its
-- face (ON DELETE CASCADE).
unfoldable pub refresh_faces : List AssetFace → List ℕ → List ℕ → FaceDb → Result FaceDb
unfolding has_clash
refresh_faces to_add to_remove embeddings db =
    if has_clash embeddings db.face_search
    then throws internal
    else ok (record db {
      faces = to_add ++ filter (λ f. not (any (λ i. i == f.id) to_remove)) db.faces;
      face_search = embeddings ++ filter (λ j. not (any (λ i. i == j) to_remove)) db.face_search;
    })

-- setFacesDetected
unfoldable pub set_faces_detected : ℕ → ℕ → ℕ → FaceDb → FaceDb
set_faces_detected now asset count db = record db {
  assets =
      update_by (λ a. a.id) asset
        (λ a. record a { faces_detected_at = some now; face_count = count }) db.assets;
}
