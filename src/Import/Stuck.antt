-- ===== src/Import/Stuck.antt =====
-- An item whose worker died during the download (handleImportFile, finishItem in import.service.ts).
use event_media_platform.Prelude.{
  ℕ, suc, ◌≡◌, ◌≢◌, refl, sym, ◌∙◌, inl, inr, Bool, [], ◌∷◌, ◌++◌, Option, arith, Bool-cases,
  Option-cases,
}
use event_media_platform.Assets.Store.{Asset, find_by_checksum, create}
use event_media_platform.Import.Db.{
  asset_process, is_pending, is_cancelled, ImportJob, ImportItem, ImportItemStatus, Db, get_job,
  get_item, mark_item, Counter, done_files, skipped_files, failed_files,
}
use event_media_platform.Import.Files.{
  Fetch, fetched, rate_limited, threw, FileEnv, mark, finish_item, settle_inserted, settle_stored,
  settle_duplicate, settle_failed, settle_fetched, settle, handle_import_file, insert_rival,
  drop_object, asset_of, key_of,
}
use event_media_platform.Import.Held.{
  IsStuck, mark_item-IsStuck, finish_item-IsStuck, found_id, pending_ne,
}

module _ (k : ℕ) (it : ImportItem) where
  -- What the import of another item does to the rows.
  rows-IsStuck :
      (db db' : Db) → db'.items ≡ db.items → db'.jobs ≡ db.jobs → IsStuck k it db → IsStuck k it db'
  unfolding get_item get_job
  rows-IsStuck db db' i j (found, (x, e, t)) = (rw i found, (x, rw j e, t))

  insert_rival-rows :
      (r : Option Asset) (db : Db)
      → ((insert_rival r db).items ≡ db.items) × ((insert_rival r db).jobs ≡ db.jobs)
  unfolding insert_rival
  insert_rival-rows r db = ground arith

  drop_object-rows :
      (d : Bool) (id : ℕ) (db : Db)
      → ((drop_object d id db).items ≡ db.items) × ((drop_object d id db).jobs ≡ db.jobs)
  unfolding drop_object
  drop_object-rows d id db = ground arith

  module _ (env : FileEnv) (item : ImportItem) (job : ImportJob) where
    -- Another item is marked and counted.
    finish_other :
        (c : Counter) (f : ImportItem → ImportItem) (db : Db)
        → ((i : ImportItem) → (f i).id ≡ i.id)
        → item.id ≢ k
        → it.status ≡ ImportItemStatus.downloading
        → IsStuck k it db
        → IsStuck k it (finish_item env.now job.id c (mark_item item.id f db))
    finish_other c f db p ne s h =
        finish_item-IsStuck k it env.now job.id c (mark_item item.id f db) s
          (mark_item-IsStuck k it item.id f db p ne h)

    settle_inserted-IsStuck :
        (id checksum size : ℕ) (db : Db)
        → item.id ≢ k
        → it.status ≡ ImportItemStatus.downloading
        → IsStuck k it db
        → IsStuck k it (settle_inserted env item job id checksum size db)
    unfolding settle_inserted
    settle_inserted-IsStuck id checksum size db ne s h =
        elim (Option-cases (create (asset_of job id checksum size) db.assets)) [
          | inr (rows, e) ↦
              let kept : Db = record db {
                assets = rows;
                queue = db.queue ++ (asset_process id ∷ []);
              } in
              rw (e, settle_inserted)
                (finish_other done_files _ kept (λ i. refl) ne s (rows-IsStuck db kept refl refl h))
          | inl e ↦
              let db' = drop_object env.deletes id db in
              let same = drop_object-rows env.deletes id db in
              rw (e, settle_inserted)
                (unfold settle_duplicate in
                  finish_other skipped_files _ db' (λ i. refl) ne s
                    (rows-IsStuck db db' same.0 same.1 h))
        ]

    settle_stored-IsStuck :
        (id checksum size : ℕ) (db : Db)
        → item.id ≢ k
        → it.status ≡ ImportItemStatus.downloading
        → IsStuck k it db
        → IsStuck k it (settle_stored env item job id checksum size db)
    unfolding settle_stored settle_failed
    settle_stored-IsStuck id checksum size db ne s h = elim (Option-cases env.insert) [
      | inr (n, f) ↦ rw (settle_stored, f) (finish_other failed_files _ db (λ i. refl) ne s h)
      | inl f ↦ rw (settle_stored, f) (settle_inserted-IsStuck id checksum size db ne s h)
    ]

    settle_fetched-IsStuck :
        (checksum size : ℕ) (db : Db)
        → item.id ≢ k
        → it.status ≡ ImportItemStatus.downloading
        → IsStuck k it db
        → IsStuck k it (settle_fetched env item job checksum size db)
    unfolding settle_fetched settle_duplicate settle_failed
    settle_fetched-IsStuck checksum size db ne s h =
        elim (Option-cases (find_by_checksum job.event_id checksum db.assets)) [
          | inr (a, e) ↦ rw (e, settle_fetched) (finish_other skipped_files _ db (λ i. refl) ne s h)
          | inl e ↦ elim (Option-cases env.put) [
            | inr (n, f) ↦
                rw (e, settle_fetched) (rw f (finish_other failed_files _ db (λ i. refl) ne s h))
            | inl f ↦
                let stored : Db = record db {
                  objects = key_of job db.next_id ∷ db.objects;
                  next_id = suc db.next_id;
                } in
                let same = insert_rival-rows env.rival stored in
                rw (e, settle_fetched)
                  (rw f (
                    settle_stored-IsStuck db.next_id checksum size (insert_rival env.rival stored)
                      ne s (rows-IsStuck db _ same.0 same.1 h)))
          ]
        ]

    settle-IsStuck :
        (f : Fetch) (db : Db)
        → env.fetch ≡ f
        → item.id ≢ k
        → it.status ≡ ImportItemStatus.downloading
        → IsStuck k it db
        → IsStuck k it (settle env item job db).0
    unfolding settle settle_failed
    settle-IsStuck (fetched checksum size) db e ne s h =
        rw (e, settle) (settle_fetched-IsStuck checksum size db ne s h)
    settle-IsStuck rate_limited db e ne s h =
        rw (e, settle) (mark_item-IsStuck k it item.id _ db (λ i. refl) ne h)
    settle-IsStuck (threw n) db e ne s h =
        rw (e, settle) (finish_other failed_files _ db (λ i. refl) ne s h)

-- An item whose worker died while it was downloading stays as it is, and its job stays importing,
-- whatever file is imported next, the item itself included: the retry of the queue skips it.
pub handle_import_file-IsStuck :
    (env : FileEnv) (k id : ℕ) (it : ImportItem) (db : Db)
    → it.status ≡ ImportItemStatus.downloading
    → IsStuck k it db
    → IsStuck k it (handle_import_file env id db).0
unfolding handle_import_file
handle_import_file-IsStuck env k id it db s h = elim (Option-cases (get_item id db)) [
  | inl e ↦ rw (e, handle_import_file) h
  | inr (item, e) ↦ elim (Bool-cases (is_pending item.status)) [
    | inr f ↦ rw (e, handle_import_file) (rw f h)
    | inl f ↦ elim (Option-cases (get_job item.import_job_id db)) [
      | inl g ↦ rw (e, handle_import_file) (rw f (rw g h))
      | inr (job, g) ↦ elim (Bool-cases (is_cancelled job.status)) [
        | inl c ↦ rw (e, handle_import_file) (rw f (rw g (rw c h)))
        | inr c ↦
            let same : item.id ≡ id = found_id id db item e in
            let other : id ≢ k = λ x. pending_ne it item (rw (x, h.0) at e) s f in
            rw (e, handle_import_file)
              (rw f (
                rw g (
                  rw c (
                    settle-IsStuck k it env item job env.fetch
                      (mark_item id (mark ImportItemStatus.downloading) db) refl
                      (λ x. other (sym same ∙ x)) s
                      (mark_item-IsStuck k it id _ db (λ i. refl) other h)))))
      ]
    ]
  ]
]
