-- ===== src/Upload/Service.antt =====
-- uploadAsset of apps/backend/src/services/upload.service.ts. The staged file is discarded on every
-- branch and is not part of the rows.
use event_media_platform.Prelude.{
  ℕ, suc, Bool, false, not, [], ◌∷◌, ◌++◌, Option, none, some, ◌==◌, if◌then◌else◌, filter,
}
use event_media_platform.Prelude.Result.{Result, ok, throws, not_found, internal}
use event_media_platform.Assets.Store.{
  Asset, AssetStatus, AssetSource, ObjectKey, find_by_checksum, create,
}
use event_media_platform.Upload.Quota.{Event, Db, get_event, assert_storage_available}

-- What the outside answers: whether the object is stored, the asset that another request inserts
-- before this one's insert, whether that insert runs without an error other than a violation of the
-- index on the checksum, and whether a deletion succeeds.
pub record UploadEnv : Type 0 where
  pub stores : Bool
  pub rival : Option Asset
  pub inserts : Bool
  pub deletes : Bool

pub data UploadResult : Type 0 where
  created duplicate : ℕ → UploadResult

abbrev pub key_of : Event → ℕ → ObjectKey
key_of e id = record { org_id = e.org_id; event_id = e.id; asset_id = id }

abbrev pub asset_of : Event → ℕ → ℕ → ℕ → Asset
asset_of e id checksum size = record {
  id = id;
  event_id = e.id;
  org_id = e.org_id;
  checksum = checksum;
  file_size = size;
  status = AssetStatus.stored;
  source = AssetSource.upload;
  storage_key = key_of e id;
  deleted = false;
}

-- What the other request inserted; a violation is its own.
unfoldable pub insert_rival : Option Asset → Db → Db
insert_rival none db = db
insert_rival (some a) db = elim (create a db.assets) [
  | none ↦ db
  | some rows ↦ record db { assets = rows }
]

-- deleteKeys, best effort
unfoldable pub drop_object : Bool → ℕ → Db → Db
drop_object deletes id db =
    if deletes then record db { objects = filter (λ k. not (k.asset_id == id)) db.objects } else db

-- The answer to a lost race, by the asset that is there.
unfoldable pub answer_race : Option Asset → Result UploadResult
answer_race none = throws internal
answer_race (some winner) = ok (duplicate winner.id)

-- From the insert on.
unfoldable pub insert_upload : UploadEnv → Event → ℕ → ℕ → ℕ → Db → Db × Result UploadResult
unfolding drop_object answer_race
insert_upload env e id checksum size db =
    if not env.inserts
    then (db, throws internal)
    else elim (create (asset_of e id checksum size) db.assets) [
      | some rows ↦ (record db { assets = rows; queue = db.queue ++ (id ∷ []) }, ok (created id))
      | none ↦
          let db' = drop_object env.deletes id db in
          (db', answer_race (find_by_checksum e.id checksum db'.assets))
    ]

-- From the upload to the store on.
unfoldable pub store_upload : UploadEnv → Event → ℕ → ℕ → Db → Db × Result UploadResult
unfolding insert_rival insert_upload
store_upload env e checksum size db =
    if not env.stores
    then (db, throws internal)
    else insert_upload env e db.next_id checksum size (
        insert_rival env.rival
          (record db { objects = key_of e db.next_id ∷ db.objects; next_id = suc db.next_id }))

-- uploadAsset
unfoldable pub upload_asset : UploadEnv → ℕ → ℕ → ℕ → Db → Db × Result UploadResult
unfolding store_upload
upload_asset env event checksum size db = elim (get_event event db) [
  | none ↦ (db, throws not_found)
  | some e ↦ elim (find_by_checksum event checksum db.assets) [
    | some existing ↦ (db, ok (duplicate existing.id))
    | none ↦ elim (assert_storage_available e.org_id size db) [
      | throws x ↦ (db, throws x)
      | ok t ↦ store_upload env e checksum size db
    ]
  ]
]
