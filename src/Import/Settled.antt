-- ===== src/Import/Settled.antt =====
-- What importing one file leaves behind: the assets, the objects, the item and its job
-- (import.service.ts).
use event_media_platform.Prelude.{
  ℕ, ◌≡◌, refl, ◌∙◌, ◌⊎◌, inl, inr, Bool, true, not, List, [], ◌∷◌, Option, none, some, arith, ◌==◌,
  ==_refl, filter, any, Option-cases, All,
}
use event_media_platform.Prelude.{All-map, All-filter}
use event_media_platform.Assets.Store.{
  Asset, ObjectKey, find_by_checksum, create, IsUnique, create-IsUnique,
}
use event_media_platform.Import.Db.{
  ImportItemStatus, ImportJob, ImportItem, Db, mark_item, Counter, done_files, skipped_files,
  failed_files, bump_counter,
}
use event_media_platform.Import.Files.{
  FileEnv, mark_asset, mark_failed, finish_item, settle_duplicate, settle_failed, insert_rival,
  drop_object, settle_inserted, settle_stored, settle_fetched, key_of, is_key, asset_of, id_of,
}
use event_media_platform.Import.Folder.{enqueue}
use event_media_platform.Import.Db.{asset_process}

-- Finishing an item touches the job's row alone.
module _ (now job : ℕ) (c : Counter) (db : Db) where
  pub finish_item-rows :
      ((finish_item now job c db).assets ≡ db.assets)
      × ((finish_item now job c db).objects ≡ db.objects)
      × ((finish_item now job c db).items ≡ db.items)
  unfolding finish_item bump_counter
  finish_item-rows = ground arith

-- Every object in the bucket belongs to an asset row.
abbrev pub IsBacked : Db → Type 0
IsBacked db = All (λ k. any (λ a. a.id == k.asset_id) db.assets ≡ true) db.objects

drop_object-assets : (d : Bool) (id : ℕ) (db : Db) → (drop_object d id db).assets ≡ db.assets
unfolding drop_object
drop_object-assets d id db = ground arith

module _ (env : FileEnv) (item : ImportItem) (job : ImportJob) where
  pub settle_duplicate-rows :
      (a : Option ℕ) (db : Db)
      → ((settle_duplicate env item job a db).assets ≡ db.assets)
        × ((settle_duplicate env item job a db).objects ≡ db.objects)
  unfolding settle_duplicate mark_item
  settle_duplicate-rows a db = ground (
    arith,
    finish_item-rows env.now job.id skipped_files
        (mark_item item.id (mark_asset ImportItemStatus.skipped_duplicate a) db),
  )

  pub settle_failed-rows :
      (e : ℕ) (db : Db)
      → ((settle_failed env item job e db).assets ≡ db.assets)
        × ((settle_failed env item job e db).objects ≡ db.objects)
  unfolding settle_failed mark_item
  settle_failed-rows e db =
      ground
        (arith, finish_item-rows env.now job.id failed_files (mark_item item.id (mark_failed e) db))

  -- With a successful insert the row is there, and the bucket is as it was.
  settle_inserted-rows :
      (id checksum size : ℕ) (db : Db)
      → let db' = settle_inserted env item job id checksum size db in
        ((rows : List Asset) × (create (asset_of job id checksum size) db.assets ≡ some rows)
          × (db'.assets ≡ rows)
          × (db'.objects ≡ db.objects))
        ⊎ ((create (asset_of job id checksum size) db.assets ≡ none)
            × (db'.assets ≡ db.assets)
            × (db'.objects ≡ (drop_object env.deletes id db).objects))
  unfolding settle_inserted
  settle_inserted-rows id checksum size db =
      elim (Option-cases (create (asset_of job id checksum size) db.assets)) [
        | inl e ↦
            let kept =
              settle_duplicate-rows
                (id_of
                  (find_by_checksum job.event_id checksum (drop_object env.deletes id db).assets))
                (drop_object env.deletes id db) in
            inr (
              e,
              rw (e, settle_inserted) (kept.0 ∙ drop_object-assets env.deletes id db),
              rw (e, settle_inserted) kept.1,
            )
        | inr (rows, e) ↦
            let stored =
              mark_item item.id (mark_asset ImportItemStatus.done (some id))
                (enqueue (asset_process id ∷ []) (record db { assets = rows })) in
            let kept = finish_item-rows env.now job.id done_files stored in
            inl (
              rows,
              e,
              rw (e, settle_inserted) (kept.0 ∙ unfold mark_item in refl),
              rw (e, settle_inserted) (kept.1 ∙ unfold mark_item in refl),
            )
      ]

create-rows :
    (a : Asset) (rows : List Asset) {rows' : List Asset}
    → create a rows ≡ some rows'
    → rows' ≡ a ∷ rows
unfolding create
create-rows a rows h = ground arith

-- What is known of the rows and objects after a settled file: unique, and if the asset ids of the
-- objects are fresh and deletions succeed, backed.
module _ (env : FileEnv) (item : ImportItem) (job : ImportJob) where
  settle_inserted-IsUnique :
      (id checksum size : ℕ) (db : Db)
      → IsUnique db.assets
      → IsUnique (settle_inserted env item job id checksum size db).assets
  settle_inserted-IsUnique id checksum size db u =
      elim (settle_inserted-rows env item job id checksum size db) [
        | inl (rows, e, a, o) ↦ rw a (create-IsUnique (asset_of job id checksum size) db.assets u e)
        | inr (e, a, o) ↦ rw a u
      ]

  settle_stored-IsUnique :
      (id checksum size : ℕ) (db : Db)
      → IsUnique db.assets
      → IsUnique (settle_stored env item job id checksum size db).assets
  unfolding settle_stored
  settle_stored-IsUnique id checksum size db u = elim (Option-cases env.insert) [
    | inr (n, f) ↦ rw (settle_stored, f) (rw (settle_failed-rows env item job n db).0 u)
    | inl f ↦ rw (settle_stored, f) (settle_inserted-IsUnique id checksum size db u)
  ]

  insert_rival-IsUnique :
      (r : Option Asset) (db : Db) → IsUnique db.assets → IsUnique (insert_rival r db).assets
  unfolding insert_rival
  insert_rival-IsUnique none db u = u
  insert_rival-IsUnique (some a) db u = elim (Option-cases (create a db.assets)) [
    | inl e ↦ rw (e, insert_rival) u
    | inr (rows, e) ↦ rw (e, insert_rival) (create-IsUnique a db.assets u e)
  ]

  pub settle_fetched-IsUnique :
      (checksum size : ℕ) (db : Db)
      → IsUnique db.assets
      → IsUnique (settle_fetched env item job checksum size db).assets
  unfolding settle_fetched
  settle_fetched-IsUnique checksum size db u =
      elim (Option-cases (find_by_checksum job.event_id checksum db.assets)) [
        | inr (a, e) ↦
            rw (e, settle_fetched) (rw (settle_duplicate-rows env item job (some a.id) db).0 u)
        | inl e ↦ elim (Option-cases env.put) [
          | inr (n, f) ↦
              rw (e, settle_fetched) (rw f (rw (settle_failed-rows env item job n db).0 u))
          | inl f ↦
              rw (e, settle_fetched)
                (rw f (
                  settle_stored-IsUnique db.next_id checksum size _
                    (insert_rival-IsUnique env.rival _ u)))
        ]
      ]

  -- More rows back the same objects.
  rows-IsBacked :
      (objects : List ObjectKey) (a : Asset) (rows : List Asset)
      → All (λ k. any (λ a. a.id == k.asset_id) rows ≡ true) objects
      → All (λ k. any (λ a. a.id == k.asset_id) (a ∷ rows) ≡ true) objects
  rows-IsBacked objects a rows h = All-map (λ k e. ground arith) objects h

  create-IsBacked :
      (objects : List ObjectKey) (a : Asset) (rows : List Asset) {rows' : List Asset}
      → create a rows ≡ some rows'
      → All (λ k. any (λ a. a.id == k.asset_id) rows ≡ true) objects
      → All (λ k. any (λ a. a.id == k.asset_id) rows' ≡ true) objects
  create-IsBacked objects a rows e h = rw (create-rows a rows e) (rows-IsBacked objects a rows h)

  pub insert_rival-IsBacked :
      (r : Option Asset) (db : Db) (objects : List ObjectKey)
      → All (λ k. any (λ a. a.id == k.asset_id) db.assets ≡ true) objects
      → All (λ k. any (λ a. a.id == k.asset_id) (insert_rival r db).assets ≡ true) objects
  unfolding insert_rival
  insert_rival-IsBacked none db objects h = h
  insert_rival-IsBacked (some a) db objects h = elim (Option-cases (create a db.assets)) [
    | inl e ↦ rw (e, insert_rival) h
    | inr (rows, e) ↦ rw (e, insert_rival) (create-IsBacked objects a db.assets e h)
  ]

  pub insert_rival-objects : (r : Option Asset) (db : Db) → (insert_rival r db).objects ≡ db.objects
  unfolding insert_rival
  insert_rival-objects r db = ground arith

  -- Dropping the object just stored leaves the others.
  dropped-IsBacked :
      (id : ℕ) (objects : List ObjectKey) (rows : List Asset)
      → All (λ k. any (λ a. a.id == k.asset_id) rows ≡ true) objects
      → All
          (λ k. any (λ a. a.id == k.asset_id) rows ≡ true)
          (filter (λ k. not (is_key id k)) (key_of job id ∷ objects))
  dropped-IsBacked id objects rows h = rw (==_refl id) (
      All-filter (λ k. any (λ a. a.id == k.asset_id) rows ≡ true) (λ k. not (is_key id k)) objects
        h)

  -- Given that all objects but the one just stored are backed.
  pub settle_inserted-IsBacked :
      (id checksum size : ℕ) (db : Db) (objects : List ObjectKey)
      → env.deletes ≡ true
      → db.objects ≡ key_of job id ∷ objects
      → All (λ k. any (λ a. a.id == k.asset_id) db.assets ≡ true) objects
      → IsBacked (settle_inserted env item job id checksum size db)
  unfolding drop_object
  settle_inserted-IsBacked id checksum size db objects d o h =
      elim (settle_inserted-rows env item job id checksum size db) [
        | inl (rows, e, a, o') ↦
            rw (a, o', o)
              (
                rw (create-rows (asset_of job id checksum size) db.assets e)
                    (ground (arith, ==_refl id)),
                create-IsBacked objects (asset_of job id checksum size) db.assets e h,
              )
        | inr (e, a, o') ↦ rw (a, o', d, o) (dropped-IsBacked id objects db.assets h)
      ]
