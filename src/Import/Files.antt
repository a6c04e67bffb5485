-- ===== src/Import/Files.antt =====
-- Importing one file (handleImportFile, finishItem) in apps/backend/src/services/import.service.ts.
use event_media_platform.Prelude.{
  ℕ, suc, Bool, false, not, [], ◌∷◌, Option, none, some, ◌==◌, if◌then◌else◌, filter,
}
use event_media_platform.Enum.{JobStatus, success, skipped}
use event_media_platform.Assets.Store.{
  Asset, AssetStatus, AssetSource, ObjectKey, find_by_checksum, create,
}
use event_media_platform.Import.Db.{
  CloudProvider, gdrive, onedrive, ImportJobStatus, ImportItemStatus, is_pending, is_importing,
  is_cancelled, ImportJob, ImportItem, asset_process, Db, get_job, get_item, update_job, mark_item,
  Counter, done_files, skipped_files, failed_files, bump_counter,
}
use event_media_platform.Import.Folder.{enqueue}

-- How the download ends: the bytes' checksum and size, a rate limit, or any other error.
pub data Fetch : Type 0 where
  fetched : ℕ → ℕ → Fetch
  rate_limited : Fetch
  threw : ℕ → Fetch

-- What the outside answers while one file is imported: the download, whether the object is stored,
-- the asset that another request inserts between the lookup and the insert, the error of an insert that
-- fails for another reason than the index on the checksum, whether a deletion succeeds, and the clock. Two requests never take the same asset id.
pub record FileEnv : Type 0 where
  pub fetch : Fetch
  pub put : Option ℕ
  pub rival : Option Asset
  pub insert : Option ℕ
  pub deletes : Bool
  pub now : ℕ

abbrev pub mark : ImportItemStatus → ImportItem → ImportItem
mark s i = record i { status = s }

abbrev pub mark_asset : ImportItemStatus → Option ℕ → ImportItem → ImportItem
mark_asset s a i = record i { status = s; asset_id = a }

abbrev pub mark_failed : ℕ → ImportItem → ImportItem
mark_failed e i = record i { status = ImportItemStatus.failed; error = some e }

abbrev pub job_done : ℕ → ImportJob → ImportJob
job_done now j = record j { status = ImportJobStatus.done; finished_at = some now }

-- finishItem
unfoldable pub finish_item : ℕ → ℕ → Counter → Db → Db
finish_item now job c db =
    let (db', finished) = bump_counter job c db in
    if finished
    then elim (get_job job db') [
      | none ↦ db'
      | some j ↦ if is_importing j.status then update_job job (job_done now) db' else db'
    ]
    else db'

abbrev pub id_of : Option Asset → Option ℕ
id_of none = none
id_of (some a) = some a.id

-- The end of a file whose content is in the event.
unfoldable pub settle_duplicate : FileEnv → ImportItem → ImportJob → Option ℕ → Db → Db
settle_duplicate env item job asset db =
    finish_item env.now job.id skipped_files
      (mark_item item.id (mark_asset ImportItemStatus.skipped_duplicate asset) db)

unfoldable pub settle_failed : FileEnv → ImportItem → ImportJob → ℕ → Db → Db
settle_failed env item job e db =
    finish_item env.now job.id failed_files (mark_item item.id (mark_failed e) db)

abbrev pub key_of : ImportJob → ℕ → ObjectKey
key_of job asset = record { org_id = job.org_id; event_id = job.event_id; asset_id = asset }

abbrev pub is_key : ℕ → ObjectKey → Bool
is_key asset k = k.asset_id == asset

abbrev pub source_of : CloudProvider → AssetSource
source_of gdrive = AssetSource.gdrive
source_of onedrive = AssetSource.onedrive

abbrev pub asset_of : ImportJob → ℕ → ℕ → ℕ → Asset
asset_of job id checksum size = record {
  id = id;
  event_id = job.event_id;
  org_id = job.org_id;
  checksum = checksum;
  file_size = size;
  status = AssetStatus.stored;
  source = source_of job.provider;
  storage_key = key_of job id;
  deleted = false;
}

-- What the other request inserted; a violation is its own.
unfoldable pub insert_rival : Option Asset → Db → Db
insert_rival none db = db
insert_rival (some a) db = elim (create a db.assets) [
  | none ↦ db
  | some rows ↦ record db { assets = rows }
]

-- deleteKeys of the object just stored, best effort.
unfoldable pub drop_object : Bool → ℕ → Db → Db
drop_object deletes asset db =
    if deletes then record db { objects = filter (λ k. not (is_key asset k)) db.objects } else db

-- The insert succeeds, or violates the index because the race is lost.
unfoldable pub settle_inserted : FileEnv → ImportItem → ImportJob → ℕ → ℕ → ℕ → Db → Db
unfolding drop_object
settle_inserted env item job id checksum size db =
    elim (create (asset_of job id checksum size) db.assets) [
      | none ↦
          let db' = drop_object env.deletes id db in
          settle_duplicate env item job (id_of (find_by_checksum job.event_id checksum db'.assets))
            db'
      | some rows ↦ finish_item env.now job.id done_files (
          mark_item item.id (mark_asset ImportItemStatus.done (some id))
            (enqueue (asset_process id ∷ []) (record db { assets = rows })))
    ]

-- The object is stored; another error of the insert is thrown on.
unfoldable pub settle_stored : FileEnv → ImportItem → ImportJob → ℕ → ℕ → ℕ → Db → Db
unfolding settle_inserted settle_failed
settle_stored env item job id checksum size db = elim env.insert [
  | some e ↦ settle_failed env item job e db
  | none ↦ settle_inserted env item job id checksum size db
]

-- A file that was downloaded.
unfoldable pub settle_fetched : FileEnv → ImportItem → ImportJob → ℕ → ℕ → Db → Db
unfolding insert_rival
settle_fetched env item job checksum size db =
    elim (find_by_checksum job.event_id checksum db.assets) [
      | some existing ↦ settle_duplicate env item job (some existing.id) db
      | none ↦
          let id = db.next_id in
          elim env.put [
            | some e ↦ settle_failed env item job e db
            | none ↦ settle_stored env item job id checksum size (
                insert_rival env.rival
                  (record db { objects = key_of job id ∷ db.objects; next_id = suc id }))
          ]
    ]

-- How the handler ends.
pub data FileResult : Type 0 where
  returned : JobStatus → FileResult
  handed_back : FileResult

-- From the download on.
unfoldable pub settle : FileEnv → ImportItem → ImportJob → Db → Db × FileResult
settle env item job db = elim env.fetch [
  | fetched checksum size ↦ (settle_fetched env item job checksum size db, returned success)
  | rate_limited ↦ (mark_item item.id (mark ImportItemStatus.pending) db, handed_back)
  | threw e ↦ (settle_failed env item job e db, returned success)
]

-- handleImportFile
unfoldable pub handle_import_file : FileEnv → ℕ → Db → Db × FileResult
handle_import_file env id db = elim (get_item id db) [
  | none ↦ (db, returned skipped)
  | some item ↦
      if not (is_pending item.status)
      then (db, returned skipped)
      else elim (get_job item.import_job_id db) [
        | none ↦ (db, returned skipped)
        | some job ↦
            if is_cancelled job.status
            then (db, returned skipped)
            else settle env item job (mark_item id (mark ImportItemStatus.downloading) db)
      ]
]
