-- ===== src/Cleanup/Service.antt =====
-- The jobs of apps/backend/src/services/cleanup.service.ts, and deleteMany of
-- services/asset.service.ts.
use event_media_platform.Prelude.{
  ℕ, ◌+◌, ◌-◌, ◌*◌, true, not, ◌&&◌, List, [], ◌∷◌, ◌++◌, map, Option, none, some, ltb, ◌==◌,
  filter, any, length,
}
use event_media_platform.Auth.Rows
use event_media_platform.Enum.{JobStatus}
use event_media_platform.Cleanup.Rows.{
  StorageKey, EventRow, AssetRow, AssetFile, Job, Db, eq_key, is_under, is_past, get_files,
  soft_delete_many, delete_expired_sessions, delete_expired_tokens,
}

-- GRACE_PERIOD_MS and STAGING_MAX_AGE_MS
abbrev pub grace_period_ms : ℕ
grace_period_ms = 7 * 24 * 60 * 60 * 1000

abbrev pub staging_max_age_ms : ℕ
staging_max_age_ms = 24 * 60 * 60 * 1000

-- The keys of the assets, each with those of its files.
unfoldable pub collect_keys : List AssetRow → List AssetFile → List StorageKey
unfolding get_files
collect_keys [] files = []
collect_keys (a ∷ assets) files =
    a.storage_key ∷ (get_files a.id files ++ collect_keys assets files)

abbrev pub queue_keys : List StorageKey → List Job → List Job
queue_keys [] queue = queue
queue_keys (k ∷ keys) queue = queue ++ (Job.cleanup_keys (k ∷ keys) ∷ [])

-- deleteMany
unfoldable pub delete_many : ℕ → ℕ → List ℕ → Db → Db × ℕ
unfolding soft_delete_many collect_keys
delete_many now event ids db =
    let (assets, deleted) = soft_delete_many now event ids db.assets in
    (
      record db { assets = assets; queue = queue_keys (collect_keys deleted db.files) db.queue },
      length deleted,
    )

-- deleteKeys. The batches of DELETE_BATCH that it sends take away the same objects.
abbrev pub delete_keys : List StorageKey → List StorageKey → List StorageKey
delete_keys keys bucket = filter (λ k. not (any (eq_key k) keys)) bucket

-- handleCleanupKeys
unfoldable pub handle_cleanup_keys : List StorageKey → List StorageKey → List StorageKey × JobStatus
handle_cleanup_keys [] bucket = (bucket, JobStatus.skipped)
handle_cleanup_keys (k ∷ keys) bucket = (delete_keys (k ∷ keys) bucket, JobStatus.success)

-- handleCleanupPrefix
unfoldable pub handle_cleanup_prefix : ℕ → ℕ → List StorageKey → List StorageKey × JobStatus
handle_cleanup_prefix org event bucket =
    (filter (λ k. not (is_under org event k)) bucket, JobStatus.success)

-- The worker of the queue storage cleanup.
unfoldable pub run_job : Job → List StorageKey → List StorageKey
unfolding handle_cleanup_keys handle_cleanup_prefix
run_job (Job.cleanup_keys keys) bucket = (handle_cleanup_keys keys bucket).0
run_job (Job.cleanup_prefix org event) bucket = (handle_cleanup_prefix org event bucket).0

unfoldable pub run_jobs : List Job → List StorageKey → List StorageKey
unfolding run_job
run_jobs [] bucket = bucket
run_jobs (j ∷ jobs) bucket = run_jobs jobs (run_job j bucket)

-- handleStagingSweep, over the entries of the folder: a file's time of change, or none where `stat`
-- or `unlink` fails or the entry is no file.
unfoldable pub handle_staging_sweep :
    ℕ → Option (List (ℕ × Option ℕ)) → List (ℕ × Option ℕ) × JobStatus
handle_staging_sweep now none = ([], JobStatus.skipped)
handle_staging_sweep now (some entries) = (
  filter
      (λ e. elim e.1 [ none ↦ true | some changed ↦ not (ltb (changed + staging_max_age_ms) now) ])
      entries,
  JobStatus.success,
)

-- handleSessionCleanup
unfoldable pub handle_session_cleanup : ℕ → Rows.Db → Rows.Db × JobStatus
unfolding delete_expired_sessions delete_expired_tokens
handle_session_cleanup now db = (
  record db {
    sessions = delete_expired_sessions now db.sessions;
    reset_tokens = delete_expired_tokens now db.reset_tokens;
  },
  JobStatus.success,
)

abbrev pub prefix_job : EventRow → Job
prefix_job e = Job.cleanup_prefix e.org_id e.id

-- The assets that are left when rows past the grace period are deleted, with what ON DELETE CASCADE
-- takes along. Ids are primary keys, so `id in (…)` is the rows that were selected.
abbrev pub left_assets : ℕ → Db → List AssetRow
left_assets cutoff db =
    let gone = filter (λ e. is_past cutoff e.deleted_at) db.events in
    filter (λ a. not (is_past cutoff a.deleted_at) && not (any (λ e. e.id == a.event_id) gone))
      db.assets

-- handleStorageReconcile
unfoldable pub handle_storage_reconcile : ℕ → Db → Db × JobStatus
unfolding collect_keys
handle_storage_reconcile now db =
    let cutoff = now - grace_period_ms in
    let events = filter (λ e. is_past cutoff e.deleted_at) db.events in
    let assets = filter (λ a. is_past cutoff a.deleted_at) db.assets in
    let keys = collect_keys assets db.files in
    let kept = left_assets cutoff db in
    (
      record db {
        queue = queue_keys keys db.queue ++ map prefix_job events;
        assets = kept;
        files = filter (λ f. any (λ a. a.id == f.asset_id) kept) db.files;
        events = filter (λ e. not (is_past cutoff e.deleted_at)) db.events;
        participants =
            filter
              (λ p. not (is_past cutoff p.deleted_at) && not (any (λ e. e.id == p.event_id) events))
              db.participants;
      },
      JobStatus.success,
    )
