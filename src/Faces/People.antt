-- ===== src/Faces/People.antt =====
-- The rows of person and of the participants' claims, with searchFaces
-- (apps/backend/src/repositories/person.repository.ts, face-search.repository.ts).
-- A join with the asset of a face, on its primary key, is a search.
use event_media_platform.Prelude.{
  ℕ, Bool, true, false, not, ◌&&◌, ◌||◌, List, [], ◌∷◌, Option, none, some, ltb, leb, ◌==◌,
  if◌then◌else◌, filter, find, any, update_by, take, sort_by,
}
use event_media_platform.Prelude.Result.{Result, ok, throws, internal}
use event_media_platform.Faces.Rows.{AssetFace, FaceAsset, FaceDb}

pub record Person : Type 0 where
  pub id : ℕ
  pub event_id : ℕ
  pub org_id : ℕ
  pub name : ℕ
  pub name_set_at : Option ℕ
  pub face_asset_face_id : Option ℕ
  pub thumbnail_key : ℕ

-- A row of participant_match with the participant; 0 is the empty name.
pub record Claim : Type 0 where
  pub via_face_id : ℕ
  pub created_at : ℕ
  pub name : ℕ
  pub deleted : Bool

pub data PersonJob : Type 0 where
  face_recognize : ℕ → Bool → PersonJob
  person_thumbnail : ℕ → PersonJob
  participant_rematch : ℕ → PersonJob
  cleanup_keys : List ℕ → PersonJob

pub record PeopleDb : Type 0 where
  pub rows : FaceDb
  pub people : List Person
  pub claims : List Claim
  pub jobs : List PersonJob

-- The asset of a face.
unfoldable pub asset_of : AssetFace → FaceDb → Option FaceAsset
asset_of f db = find (λ a. a.id == f.asset_id) db.assets

abbrev pub is_in : ℕ → Option FaceAsset → Bool
is_in event none = false
is_in event (some a) = a.event_id == event && not a.deleted

abbrev pub is_given : Option ℕ → Bool
is_given none = false
is_given (some p) = true

-- The conditions of searchFaces.
abbrev pub is_candidate : ℕ → Bool → FaceDb → AssetFace → Bool
is_candidate event has_person db f =
    is_in event (asset_of f db)
    && (not f.deleted
        && (any (λ i. i == f.id) db.face_search && (not has_person || is_given f.person_id)))

-- searchFaces: `distance` is the distance of pgvector from the embedding that is searched with.
unfoldable pub search_faces : (ℕ → ℕ) → ℕ → ℕ → ℕ → Bool → FaceDb → Result (List AssetFace)
unfolding asset_of
search_faces distance event num_results max_distance has_person db =
    if ltb num_results 1 || ltb 1000 num_results
    then throws internal
    else ok (
        filter (λ f. leb (distance f.id) max_distance)
          (take num_results
            (sort_by (λ f. distance f.id) (filter (is_candidate event has_person db) db.faces))))

-- reassignFaces of one face
unfoldable pub reassign_face : ℕ → ℕ → PeopleDb → PeopleDb
reassign_face face person db = record db {
  rows = record db.rows {
    faces = update_by (λ f. f.id) face (λ f. record f { person_id = some person }) db.rows.faces;
  };
}

abbrev pub is_person : Option ℕ → ℕ → Bool
is_person none p = false
is_person (some q) p = q == p

-- The claims on the faces of a person.
abbrev pub claims_on : ℕ → PeopleDb → List Claim
claims_on person db =
    filter
      (λ c.
        not c.deleted
        && (not (c.name == 0)
            && any (λ f. f.id == c.via_face_id && is_person f.person_id person) db.rows.faces))
      db.claims

-- `ORDER BY created_at DESC, name ASC LIMIT 1`
abbrev pub later_claim : Claim → Claim → Claim
later_claim c d =
    if ltb d.created_at c.created_at || (d.created_at == c.created_at && ltb c.name d.name)
    then c
    else d

unfoldable pub latest_claim : List Claim → Option Claim
latest_claim [] = none
latest_claim (c ∷ claims) = elim (latest_claim claims) [
  | none ↦ some c
  | some d ↦ some (later_claim c d)
]

abbrev pub is_older : Option ℕ → ℕ → Bool
is_older none at = true
is_older (some t) at = ltb t at

abbrev pub take_name : ℕ → Claim → Person → Person
take_name event c p =
    if p.event_id == event && is_older p.name_set_at c.created_at
    then record p { name = c.name; name_set_at = some c.created_at }
    else p

-- nameFromParticipants
unfoldable pub name_from_participants : ℕ → ℕ → PeopleDb → PeopleDb
unfolding latest_claim
name_from_participants event person db = elim (latest_claim (claims_on person db)) [
  | none ↦ db
  | some c ↦ record db { people = update_by (λ p. p.id) person (take_name event c) db.people }
]
