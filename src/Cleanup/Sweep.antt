-- ===== src/Cleanup/Sweep.antt =====
-- The sweep of handleStorageReconcile over stored objects
-- (apps/backend/src/services/cleanup.service.ts).
use event_media_platform.Prelude.{
  every-weaken, ℕ, ◌-◌, ◌≡◌, refl, ◌⊎◌, inl, inr, Bool, true, false, not, ◌&&◌, ◌||◌, List, [], ◌∷◌,
  ◌++◌, map, arith, ◌==◌, filter, any, every, Bool-cases,
}
use event_media_platform.Prelude.Held.{
  filter-Held, Held, any-Held, Held-any, every-Held, Held-filter,
}
use event_media_platform.Cleanup.Rows.{
  StorageKey, EventRow, AssetRow, AssetFile, Job, Db, eq_key, is_under, is_past,
}
use event_media_platform.Cleanup.Service.{
  queue_keys, run_job, run_jobs, handle_cleanup_keys, handle_cleanup_prefix, prefix_job,
  left_assets, handle_storage_reconcile, grace_period_ms,
}
use event_media_platform.Cleanup.Orphans.{
  eq_key-under, collect-asset, collect-file, queued-keys, queued-old, queued-prefix, is_named,
  deletes, is_accounted, is_placed, swept, gone_events, gone_assets, gone_keys,
}

-- What becomes of an asset: its keys are queued, the prefix of its event is, or the row stays.
asset_cases :
    (now : ℕ) (db : Db) (a : AssetRow)
    → Held a db.assets
    → Held a (gone_assets now db)
      ⊎ (((e : EventRow) × Held e (gone_events now db) × ((e.id == a.event_id) ≡ true))
          ⊎ Held a (left_assets (now - grace_period_ms) db))
asset_cases now db a m =
    let cutoff = now - grace_period_ms in
    elim (Bool-cases (is_past cutoff a.deleted_at)) [
      | inl e ↦ inl (Held-filter (λ a. is_past cutoff a.deleted_at) a db.assets m e)
      | inr e ↦ elim (Bool-cases (any (λ e. e.id == a.event_id) (gone_events now db))) [
        | inl g ↦ inr (inl (any-Held (λ e. e.id == a.event_id) (gone_events now db) g))
        | inr g ↦ inr (
            inr (
              Held-filter
                (λ a.
                  not (is_past cutoff a.deleted_at)
                  && not (any (λ e. e.id == a.event_id) (gone_events now db)))
                a db.assets m (rw (e, g) refl)))
      ]
    ]

gone-Held : (now : ℕ) (db : Db) (e : EventRow) → Held e (gone_events now db) → Held e db.events
gone-Held now db e m = filter-Held (λ e. is_past (now - grace_period_ms) e.deleted_at) e db.events m

either_right : (a b : Bool) → b ≡ true → (a || b) ≡ true
either_right a b h = ground arith

either_left : (a b : Bool) → a ≡ true → (a || b) ≡ true
either_left a b h = ground arith

by_job :
    (now : ℕ) (db : Db) (k : StorageKey)
    → any
        (deletes k)
        (queue_keys (gone_keys now db) db.queue ++ map prefix_job (gone_events now db))
      ≡ true
    → is_accounted (swept now db) k ≡ true
unfolding handle_storage_reconcile
by_job now db k h =
    either_right (is_named (swept now db) k) (any (deletes k) (swept now db).queue) h

by_key :
    (now : ℕ) (db : Db) (k l : StorageKey)
    → Held l (gone_keys now db)
    → eq_key k l ≡ true
    → is_accounted (swept now db) k ≡ true
by_key now db k l m h = by_job now db k (
    queued-keys k (gone_keys now db) db.queue (map prefix_job (gone_events now db))
      (Held-any (eq_key k) l (gone_keys now db) m h))

by_prefix :
    (now : ℕ) (db : Db) (e : EventRow) (k l : StorageKey)
    → Held e (gone_events now db)
    → is_under e.org_id e.id l ≡ true
    → eq_key k l ≡ true
    → is_accounted (swept now db) k ≡ true
by_prefix now db e k l m u h = by_job now db k (
    queued-prefix k (gone_keys now db) db.queue e (gone_events now db) m
      (eq_key-under e.org_id e.id k l h u))

asset_under :
    (db : Db) (e : EventRow) (a : AssetRow)
    → is_placed db ≡ true
    → Held e db.events
    → Held a db.assets
    → (e.id == a.event_id) ≡ true
    → is_under e.org_id e.id a.storage_key ≡ true
asset_under db e a placed m n same =
    let at_event =
      every-Held
        (λ e.
          every (λ a. not (a.event_id == e.id) || is_under e.org_id e.id a.storage_key) db.assets
          && every
              (λ f.
                not (any (λ a. a.id == f.asset_id && a.event_id == e.id) db.assets)
                || is_under e.org_id e.id f.storage_key)
              db.files)
        e db.events placed m in
    let at_asset =
      every-Held (λ a. not (a.event_id == e.id) || is_under e.org_id e.id a.storage_key) a db.assets
        (ground arith) n in
    ground arith

file_under :
    (db : Db) (e : EventRow) (a : AssetRow) (f : AssetFile)
    → is_placed db ≡ true
    → Held e db.events
    → Held a db.assets
    → Held f db.files
    → (e.id == a.event_id) ≡ true
    → (a.id == f.asset_id) ≡ true
    → is_under e.org_id e.id f.storage_key ≡ true
file_under db e a f placed m n o same own =
    let at_event =
      every-Held
        (λ e.
          every (λ a. not (a.event_id == e.id) || is_under e.org_id e.id a.storage_key) db.assets
          && every
              (λ f.
                not (any (λ a. a.id == f.asset_id && a.event_id == e.id) db.assets)
                || is_under e.org_id e.id f.storage_key)
              db.files)
        e db.events placed m in
    let owned =
      Held-any (λ a. a.id == f.asset_id && a.event_id == e.id) a db.assets n (ground arith) in
    let at_file =
      every-Held
        (λ f.
          not (any (λ a. a.id == f.asset_id && a.event_id == e.id) db.assets)
          || is_under e.org_id e.id f.storage_key)
        f db.files (ground arith) o in
    ground arith

-- An object that an asset's row names is accounted for after the sweep.
asset_accounted :
    (now : ℕ) (db : Db) (a : AssetRow) (k : StorageKey)
    → is_placed db ≡ true
    → Held a db.assets
    → eq_key k a.storage_key ≡ true
    → is_accounted (swept now db) k ≡ true
unfolding handle_storage_reconcile
asset_accounted now db a k placed m h = elim (asset_cases now db a m) [
  | inl gone ↦ by_key now db k a.storage_key (collect-asset a (gone_assets now db) db.files gone) h
  | inr (inl (e, held, same)) ↦
      by_prefix now db e k a.storage_key held
        (asset_under db e a placed (gone-Held now db e held) m same) h
  | inr (inr left) ↦
      either_left (is_named (swept now db) k) (any (deletes k) (swept now db).queue) (
        either_left (any (λ a. eq_key k a.storage_key) (swept now db).assets)
          (any (λ f. eq_key k f.storage_key && any (λ a. a.id == f.asset_id) (swept now db).assets)
            (swept now db).files)
          (Held-any (λ a. eq_key k a.storage_key) a (swept now db).assets left h))
]

file_accounted :
    (now : ℕ) (db : Db) (a : AssetRow) (f : AssetFile) (k : StorageKey)
    → is_placed db ≡ true
    → Held a db.assets
    → Held f db.files
    → (a.id == f.asset_id) ≡ true
    → eq_key k f.storage_key ≡ true
    → is_accounted (swept now db) k ≡ true
unfolding handle_storage_reconcile
file_accounted now db a f k placed m n own h = elim (asset_cases now db a m) [
  | inl gone ↦
      by_key now db k f.storage_key
        (collect-file a (gone_assets now db) f db.files gone n (ground arith)) h
  | inr (inl (e, held, same)) ↦
      by_prefix now db e k f.storage_key held
        (file_under db e a f placed (gone-Held now db e held) m n same own) h
  | inr (inr left) ↦
      let kept = left_assets (now - grace_period_ms) db in
      let owned = Held-any (λ a. a.id == f.asset_id) a kept left own in
      let stays = Held-filter (λ f. any (λ a. a.id == f.asset_id) kept) f db.files n owned in
      either_left (is_named (swept now db) k) (any (deletes k) (swept now db).queue) (
        either_right (any (λ a. eq_key k a.storage_key) kept)
          (any (λ f. eq_key k f.storage_key && any (λ a. a.id == f.asset_id) kept)
            (swept now db).files)
          (Held-any (λ f. eq_key k f.storage_key && any (λ a. a.id == f.asset_id) kept) f
            (swept now db).files stays (rw (h, owned) refl)))
]

-- An object that is accounted for stays so.
pub sweep-accounts :
    (now : ℕ) (db : Db) (k : StorageKey)
    → is_placed db ≡ true
    → is_accounted db k ≡ true
    → is_accounted (swept now db) k ≡ true
sweep-accounts now db k placed h = elim (Bool-cases (any (λ a. eq_key k a.storage_key) db.assets)) [
  | inl x ↦
      let (a, m, e) = any-Held (λ a. eq_key k a.storage_key) db.assets x in
      asset_accounted now db a k placed m e
  | inr x ↦
      elim (Bool-cases
        (any (λ f. eq_key k f.storage_key && any (λ a. a.id == f.asset_id) db.assets) db.files)) [
          | inl y ↦
              let (f, n, e) =
                any-Held (λ f. eq_key k f.storage_key && any (λ a. a.id == f.asset_id) db.assets)
                  db.files y in
              let (a, m, own) = any-Held (λ a. a.id == f.asset_id) db.assets (ground arith) in
              file_accounted now db a f k placed m n own (ground arith)
          | inr y ↦
              let waits : any (deletes k) db.queue ≡ true = rw (x, y) at h in
              by_job now db k (
                queued-old k (gone_keys now db) db.queue (map prefix_job (gone_events now db))
                  waits)
        ]
]

every-drop :
    (p d q : StorageKey → Bool) (ks : List StorageKey)
    → every (λ k. p k || (d k || q k)) ks ≡ true
    → every (λ k. p k || q k) (filter (λ k. not (d k)) ks) ≡ true
every-drop p d q [] h = refl
every-drop p d q (k ∷ ks) h = ground (arith, every-drop p d q ks)

-- What is left in the bucket when a job has run, and when all have.
every-run_job :
    (p q : StorageKey → Bool) (j : Job) (ks : List StorageKey)
    → every (λ k. p k || (deletes k j || q k)) ks ≡ true
    → every (λ k. p k || q k) (run_job j ks) ≡ true
unfolding run_job handle_cleanup_keys handle_cleanup_prefix
every-run_job p q (Job.cleanup_keys []) ks h = h
every-run_job p q (Job.cleanup_keys (l ∷ keys)) ks h =
    every-drop p (λ k. any (eq_key k) (l ∷ keys)) q ks h
every-run_job p q (Job.cleanup_prefix org event) ks h = every-drop p (is_under org event) q ks h

every-run_jobs :
    (p : StorageKey → Bool) (jobs : List Job) (ks : List StorageKey)
    → every (λ k. p k || any (deletes k) jobs) ks ≡ true
    → every p (run_jobs jobs ks) ≡ true
unfolding run_jobs
every-run_jobs p [] ks h = every-weaken (λ k. p k || false) p ks (λ k e. ground arith) h
every-run_jobs p (j ∷ jobs) ks h =
    every-run_jobs p jobs (run_job j ks) (every-run_job p (λ k. any (deletes k) jobs) j ks h)

-- When every stored object is named by a row of an asset or of a file of one, or is to be deleted by
-- a job that waits, and the keys of an event's assets and files stand under the event's prefix, then
-- after the nightly sweep and the jobs of its queue every object that is left is named by a row that is
-- left.
pub sweep_leaves_no_orphan :
    (now : ℕ) (db : Db)
    → is_placed db ≡ true
    → every (is_accounted db) db.bucket ≡ true
    → let db' = (handle_storage_reconcile now db).0 in
      every (is_named db') (run_jobs db'.queue db'.bucket) ≡ true
unfolding handle_storage_reconcile
sweep_leaves_no_orphan now db placed h =
    every-run_jobs (is_named (swept now db)) (swept now db).queue db.bucket (
      every-weaken (is_accounted db) (is_accounted (swept now db)) db.bucket
        (λ k. sweep-accounts now db k placed) h)
