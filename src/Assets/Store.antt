-- ===== src/Assets/Store.antt =====
-- The asset rows with their partial unique index on (event, checksum), and the bucket's objects
-- (apps/backend/src/repositories/asset.repository.ts, migrations/0001-init.ts).
-- Ids, checksums and names are numbers.
use event_media_platform.Prelude.{
  ◌⊎◌, true, ℕ, ◌≡◌, Bool, false, not, ◌&&◌, List, [], ◌∷◌, Option, none, some, arith, ◌==◌,
  ==_refl, find,
}

pub data AssetStatus : Type 0 where
  staged stored processed failed : AssetStatus

pub data AssetSource : Type 0 where
  upload gdrive onedrive : AssetSource

-- StorageKeys.original, which is one to one in the asset's id.
pub record ObjectKey : Type 0 where
  pub org_id : ℕ
  pub event_id : ℕ
  pub asset_id : ℕ

pub record Asset : Type 0 where
  pub id : ℕ
  pub event_id : ℕ
  pub org_id : ℕ
  pub checksum : ℕ
  pub file_size : ℕ
  pub status : AssetStatus
  pub source : AssetSource
  pub storage_key : ObjectKey
  pub deleted : Bool

-- The rows that the index and findByChecksum look at.
abbrev pub is_match : ℕ → ℕ → Asset → Bool
is_match event checksum a = not a.deleted && (a.event_id == event && a.checksum == checksum)

-- findByChecksum
unfoldable pub find_by_checksum : ℕ → ℕ → List Asset → Option Asset
find_by_checksum event checksum = find (is_match event checksum)

-- create, as far as the index goes: `none` is the violation of asset_event_checksum. Any other error
-- of the insert is an argument of the caller's.
unfoldable pub create : Asset → List Asset → Option (List Asset)
unfolding find_by_checksum
create a rows = elim (find_by_checksum a.event_id a.checksum rows) [
  | some winner ↦ none
  | none ↦ some (a ∷ rows)
]

-- No two live rows of an event have one checksum.
abbrev pub IsUnique : List Asset → Type 0
IsUnique [] = Unit
IsUnique (a ∷ rows) =
    ((a.deleted ≡ true) ⊎ (find_by_checksum a.event_id a.checksum rows ≡ none)) × IsUnique rows

-- The index holds after every successful insert.
pub create-IsUnique :
    (a : Asset) (rows : List Asset) {rows' : List Asset}
    → IsUnique rows
    → create a rows ≡ some rows'
    → IsUnique rows'
unfolding create
create-IsUnique a rows u h = ground arith

pub find-create :
    (a : Asset) (rows : List Asset) {rows' : List Asset}
    → a.deleted ≡ false
    → create a rows ≡ some rows'
    → find_by_checksum a.event_id a.checksum rows' ≡ some a
unfolding create
find-create a rows d h = ground (arith, ==_refl a.event_id, ==_refl a.checksum)
