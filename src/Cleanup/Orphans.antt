-- ===== src/Cleanup/Orphans.antt =====
-- Stored objects and the rows that name them, across handleStorageReconcile and the jobs that it queues
-- (apps/backend/src/services/cleanup.service.ts).
use event_media_platform.Prelude.{
  ℕ, ◌-◌, ◌≡◌, refl, sym, ap, ◌∙◌, inl, inr, Bool, true, not, ◌&&◌, ◌||◌, List, [], ◌∷◌, ◌++◌, map,
  arith, ◌==◌, filter, any, every, any-append,
}
use event_media_platform.Prelude.Held.{Held, Held-any, Held-filter, Held-left, Held-right, Held-map}
use event_media_platform.Cleanup.Rows.{
  StorageKey, EventRow, AssetRow, AssetFile, Job, Db, eq_key, is_under, is_past, get_files,
}
use event_media_platform.Cleanup.Service.{
  collect_keys, queue_keys, prefix_job, handle_storage_reconcile, grace_period_ms,
}

-- Whether the row of an asset, or of a file of one, names the object.
abbrev pub is_named : Db → StorageKey → Bool
is_named db k =
    any (λ a. eq_key k a.storage_key) db.assets
    || any (λ f. eq_key k f.storage_key && any (λ a. a.id == f.asset_id) db.assets) db.files

-- Whether a job deletes the object.
abbrev pub deletes : StorageKey → Job → Bool
deletes k (Job.cleanup_keys keys) = any (eq_key k) keys
deletes k (Job.cleanup_prefix org event) = is_under org event k

abbrev pub is_accounted : Db → StorageKey → Bool
is_accounted db k = is_named db k || any (deletes k) db.queue

-- The keys of an event's assets and of their files stand under the prefix of the event.
abbrev pub is_placed : Db → Bool
is_placed db =
    every
      (λ e.
        every (λ a. not (a.event_id == e.id) || is_under e.org_id e.id a.storage_key) db.assets
        && every
            (λ f.
              not (any (λ a. a.id == f.asset_id && a.event_id == e.id) db.assets)
              || is_under e.org_id e.id f.storage_key)
            db.files)
      db.events

pub eq_key-under :
    (org event : ℕ) (k l : StorageKey)
    → eq_key k l ≡ true
    → is_under org event l ≡ true
    → is_under org event k ≡ true
eq_key-under org event k l h g = ground arith

pub collect-asset :
    (a : AssetRow) (assets : List AssetRow) (files : List AssetFile)
    → Held a assets
    → Held a.storage_key (collect_keys assets files)
unfolding collect_keys
collect-asset a [] files m = m
collect-asset a (b ∷ assets) files (inl e) = inl (ap (λ x. x.storage_key) e)
collect-asset a (b ∷ assets) files (inr m) = inr (
    Held-right a.storage_key (get_files b.id files) (collect_keys assets files)
      (collect-asset a assets files m))

pub collect-file :
    (a : AssetRow) (assets : List AssetRow) (f : AssetFile) (files : List AssetFile)
    → Held a assets
    → Held f files
    → (f.asset_id == a.id) ≡ true
    → Held f.storage_key (collect_keys assets files)
unfolding collect_keys get_files
collect-file a [] f files m n e = m
collect-file a (b ∷ assets) f files (inl s) n e = inr (
    Held-left f.storage_key (get_files b.id files) (collect_keys assets files) (
      Held-map (λ g. g.storage_key) f (filter (λ g. g.asset_id == b.id) files)
        (Held-filter (λ g. g.asset_id == b.id) f files n
          (ap (λ x. f.asset_id == x.id) (sym s) ∙ e))))
collect-file a (b ∷ assets) f files (inr m) n e = inr (
    Held-right f.storage_key (get_files b.id files) (collect_keys assets files)
      (collect-file a assets f files m n e))

-- A key that is collected is deleted by the job that is queued.
pub queued-keys :
    (k : StorageKey) (keys : List StorageKey) (queue more : List Job)
    → any (eq_key k) keys ≡ true
    → any (deletes k) (queue_keys keys queue ++ more) ≡ true
queued-keys k [] queue more h = cc
queued-keys k (l ∷ keys) queue more h = ground (
  arith,
  any-append (deletes k) (queue ++ (Job.cleanup_keys (l ∷ keys) ∷ [])) more,
  any-append (deletes k) queue (Job.cleanup_keys (l ∷ keys) ∷ []),
)

pub queued-old :
    (k : StorageKey) (keys : List StorageKey) (queue more : List Job)
    → any (deletes k) queue ≡ true
    → any (deletes k) (queue_keys keys queue ++ more) ≡ true
queued-old k [] queue more h = any-append (deletes k) queue more ∙ rw h refl
queued-old k (l ∷ keys) queue more h = ground (
  arith,
  any-append (deletes k) (queue ++ (Job.cleanup_keys (l ∷ keys) ∷ [])) more,
  any-append (deletes k) queue (Job.cleanup_keys (l ∷ keys) ∷ []),
)

pub queued-prefix :
    (k : StorageKey) (keys : List StorageKey) (queue : List Job) (e : EventRow)
    (events : List EventRow)
    → Held e events
    → is_under e.org_id e.id k ≡ true
    → any (deletes k) (queue_keys keys queue ++ map prefix_job events) ≡ true
queued-prefix k keys queue e events m h =
    Held-any (deletes k) (prefix_job e) (queue_keys keys queue ++ map prefix_job events)
      (Held-right (prefix_job e) (queue_keys keys queue) (map prefix_job events)
        (Held-map prefix_job e events m))
      h

-- The rows and jobs that handleStorageReconcile leaves.
abbrev pub swept : ℕ → Db → Db
swept now db = (handle_storage_reconcile now db).0

abbrev pub gone_events : ℕ → Db → List EventRow
gone_events now db = filter (λ e. is_past (now - grace_period_ms) e.deleted_at) db.events

abbrev pub gone_assets : ℕ → Db → List AssetRow
gone_assets now db = filter (λ a. is_past (now - grace_period_ms) a.deleted_at) db.assets

abbrev pub gone_keys : ℕ → Db → List StorageKey
gone_keys now db = collect_keys (gone_assets now db) db.files
