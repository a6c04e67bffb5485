-- ===== src/Import/Folder.antt =====
-- handleImportFolder and the API's calls (createImport, cancel) in
-- apps/backend/src/services/import.service.ts.
use event_media_platform.Prelude.{
  ℕ, suc, Bool, true, false, not, List, [], ◌∷◌, ◌++◌, map, none, some, if◌then◌else◌,
}
use event_media_platform.Prelude.Result.{Result, ok, throws, not_found, bad_request}
use event_media_platform.Enum.{JobStatus, success, skipped, failed}
use event_media_platform.Import.Db.{
  CloudProvider, ImportJobStatus, is_cancelled, ImportJob, QueuedJob, import_folder, import_file,
  Db, get_job, get_job_scoped, update_job, pending_item_ids,
}
use event_media_platform.Import.Listing.{
  Client, Listed, Listing, complete, limited, broken, out_of_fuel, list_folders,
}

-- How the handler ends: a job status, a rate limit that hands the job back, or the loop bound of the
-- model.
pub data FolderResult : Type 0 where
  returned : JobStatus → FolderResult
  handed_back exhausted : FolderResult

abbrev pub enqueue : List QueuedJob → Db → Db
enqueue jobs db = record db { queue = db.queue ++ jobs }

-- The update of the job row after the listing.
abbrev pub listing_done : Bool → ℕ → Listed → ImportJob → ImportJob
listing_done has_pending now l j = record j {
  status = if has_pending then ImportJobStatus.importing else ImportJobStatus.done;
  total_files = l.listed;
  skipped_files = l.skipped;
  finished_at = if has_pending then j.finished_at else some now;
}

abbrev pub is_empty {ℓ} : {A : Type ℓ} → List A → Bool
is_empty [] = true
is_empty (x ∷ xs) = false

-- What follows the loops: the rows as they are by then, with what other calls did meanwhile.
unfoldable pub finish_listing : ℕ → ℕ → Listed → Db → Db
finish_listing now id l db =
    let pending = pending_item_ids id db in
    enqueue (map import_file pending)
      (update_job id (listing_done (not (is_empty pending)) now l) db)

abbrev pub fail_job : ℕ → ℕ → ImportJob → ImportJob
fail_job now e j = record j {
  status = ImportJobStatus.failed;
  error = some e;
  finished_at = some now;
}

unfoldable pub conclude : ℕ → ℕ → (Db → Db) → Listing → Db → Db × FolderResult
unfolding finish_listing
conclude now id meanwhile (complete l) db =
    (finish_listing now id l (meanwhile l.db), returned success)
conclude now id meanwhile (limited db') db = (meanwhile db', handed_back)
conclude now id meanwhile (broken db' e) db =
    (update_job id (fail_job now e) (meanwhile db'), returned failed)
conclude now id meanwhile out_of_fuel db = (db, exhausted)

-- handleImportFolder. `meanwhile` is what other requests did to the rows while the pages were
-- fetched.
unfoldable pub handle_import_folder : ℕ → Client → (Db → Db) → ℕ → ℕ → Db → Db × FolderResult
unfolding conclude
handle_import_folder fuel client meanwhile now id db = elim (get_job id db) [
  | none ↦ (db, returned skipped)
  | some job ↦
      if is_cancelled job.status
      then (db, returned skipped)
      else conclude now id meanwhile
          (list_folders fuel client job job.folder_remote_id none []
            (record { db = db; listed = 0; skipped = 0 }))
          db
]

-- createImport, once the event and the account are known.
unfoldable pub create_import : ℕ → ℕ → CloudProvider → ℕ → Bool → Db → Db × ℕ
create_import event org provider folder recursive db =
    let id = db.next_id in
    let job : ImportJob = record {
      id = id;
      event_id = event;
      org_id = org;
      provider = provider;
      folder_remote_id = folder;
      recursive = recursive;
      status = ImportJobStatus.listing;
      total_files = 0;
      done_files = 0;
      skipped_files = 0;
      failed_files = 0;
      error = none;
      finished_at = none;
    } in
    (enqueue (import_folder id ∷ []) (record db { jobs = job ∷ db.jobs; next_id = suc id }), id)

abbrev pub can_cancel : ImportJobStatus → Bool
can_cancel ImportJobStatus.listing = true
can_cancel ImportJobStatus.importing = true
can_cancel _ = false

abbrev pub cancel_job : ℕ → ImportJob → ImportJob
cancel_job now j = record j { status = ImportJobStatus.cancelled; finished_at = some now }

-- cancel
unfoldable pub cancel : ℕ → ℕ → ℕ → Db → Result Db
cancel now event id db = elim (get_job_scoped event id db) [
  | none ↦ throws not_found
  | some job ↦
      if can_cancel job.status then ok (update_job id (cancel_job now) db) else throws bad_request
]
