-- ===== src/Import/Db.antt =====
-- The rows of import_job and import_item, and the queries of
-- apps/backend/src/repositories/import.repository.ts.
-- Ids, names and checksums are numbers; an error's text is its number.
use event_media_platform.Prelude.{
  ℕ, suc, ◌+◌, Bool, true, false, ◌&&◌, List, [], ◌∷◌, map, Option, none, some, ◌==◌, filter, find,
  length, update_by,
}
use event_media_platform.Assets.Store.{Asset, ObjectKey}

pub data CloudProvider : Type 0 where
  gdrive onedrive : CloudProvider

abbrev pub eq_provider : CloudProvider → CloudProvider → Bool
eq_provider gdrive gdrive = true
eq_provider onedrive onedrive = true
eq_provider _ _ = false

pub data ImportJobStatus : Type 0 where
  listing importing done failed cancelled : ImportJobStatus

pub data ImportItemStatus : Type 0 where
  pending downloading done skipped_duplicate failed : ImportItemStatus

abbrev pub is_pending : ImportItemStatus → Bool
is_pending ImportItemStatus.pending = true
is_pending _ = false

-- `status IN ('pending', 'downloading')`
abbrev pub is_open : ImportItemStatus → Bool
is_open ImportItemStatus.pending = true
is_open ImportItemStatus.downloading = true
is_open _ = false

-- The content is in the event already.
abbrev pub is_synced : ImportItemStatus → Bool
is_synced ImportItemStatus.done = true
is_synced ImportItemStatus.skipped_duplicate = true
is_synced _ = false

abbrev pub is_importing : ImportJobStatus → Bool
is_importing ImportJobStatus.importing = true
is_importing _ = false

abbrev pub is_cancelled : ImportJobStatus → Bool
is_cancelled ImportJobStatus.cancelled = true
is_cancelled _ = false

pub record ImportJob : Type 0 where
  pub id : ℕ
  pub event_id : ℕ
  pub org_id : ℕ
  pub provider : CloudProvider
  pub folder_remote_id : ℕ
  pub recursive : Bool
  pub status : ImportJobStatus
  pub total_files : ℕ
  pub done_files : ℕ
  pub skipped_files : ℕ
  pub failed_files : ℕ
  pub error : Option ℕ
  pub finished_at : Option ℕ

pub record ImportItem : Type 0 where
  pub id : ℕ
  pub import_job_id : ℕ
  pub event_id : ℕ
  pub provider : CloudProvider
  pub remote_id : ℕ
  pub remote_name : ℕ
  pub remote_size : Option ℕ
  pub remote_checksum : Option ℕ
  pub status : ImportItemStatus
  pub asset_id : Option ℕ
  pub error : Option ℕ

-- The jobs that the service puts on BullMQ.
pub data QueuedJob : Type 0 where
  import_folder import_file asset_process : ℕ → QueuedJob

pub record Db : Type 0 where
  pub jobs : List ImportJob
  pub items : List ImportItem
  pub assets : List Asset
  pub objects : List ObjectKey
  pub queue : List QueuedJob
  pub next_id : ℕ

-- getJob
unfoldable pub get_job : ℕ → Db → Option ImportJob
get_job id db = find (λ j. j.id == id) db.jobs

-- getJobScoped
unfoldable pub get_job_scoped : ℕ → ℕ → Db → Option ImportJob
get_job_scoped event id db = find (λ j. j.id == id && j.event_id == event) db.jobs

-- updateJob
unfoldable pub update_job : ℕ → (ImportJob → ImportJob) → Db → Db
update_job id f db = record db { jobs = update_by (λ j. j.id) id f db.jobs }

-- getItem
unfoldable pub get_item : ℕ → Db → Option ImportItem
get_item id db = find (λ i. i.id == id) db.items

-- markItem and repointItem
unfoldable pub mark_item : ℕ → (ImportItem → ImportItem) → Db → Db
mark_item id f db = record db { items = update_by (λ i. i.id) id f db.items }

-- getExistingByRemoteIds, looked up by one id: the `Map` that the service builds from it.
unfoldable pub known_item : ℕ → CloudProvider → ℕ → List ImportItem → Option ImportItem
known_item event provider remote =
    find (λ i. i.event_id == event && (eq_provider i.provider provider && i.remote_id == remote))

-- insertItems, one row: `none` is the violation of unique (event_id, provider, remote_id).
unfoldable pub insert_item : ImportItem → Db → Option Db
unfolding known_item
insert_item i db = elim (known_item i.event_id i.provider i.remote_id db.items) [
  | some clash ↦ none
  | none ↦
      some (record db { items = record i { id = db.next_id } ∷ db.items; next_id = suc db.next_id })
]

unfoldable pub insert_items : List ImportItem → Db → Option Db
insert_items [] db = some db
insert_items (i ∷ is) db = elim (insert_item i db) [ none ↦ none | some db' ↦ insert_items is db' ]

-- pendingItemIds
unfoldable pub pending_item_ids : ℕ → Db → List ℕ
pending_item_ids job db =
    map (λ i. i.id) (filter (λ i. i.import_job_id == job && is_pending i.status) db.items)

-- The rows that bumpCounter counts as remaining.
unfoldable pub remaining : ℕ → Db → ℕ
remaining job db = length (filter (λ i. i.import_job_id == job && is_open i.status) db.items)

pub data Counter : Type 0 where
  done_files skipped_files failed_files : Counter

abbrev pub bump : Counter → ImportJob → ImportJob
bump done_files j = record j { done_files = j.done_files + 1 }
bump skipped_files j = record j { skipped_files = j.skipped_files + 1 }
bump failed_files j = record j { failed_files = j.failed_files + 1 }

-- bumpCounter
unfoldable pub bump_counter : ℕ → Counter → Db → Db × Bool
unfolding update_job remaining
bump_counter job c db = let db' = update_job job (bump c) db in (db', remaining job db' == 0)
