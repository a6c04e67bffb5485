-- ===== src/Import/Kept.antt =====
-- The rows and the bucket after importing one file (handleImportFile in import.service.ts).
use event_media_platform.Prelude.{
  none, ◌&&◌, ==_refl, ◌||◌, ◌==◌, arith, any, false, List, All-map, All, Bool, Option, ℕ, suc, ◌≡◌,
  refl, inl, inr, true, ◌∷◌, some, Bool-cases, Option-cases,
}
use event_media_platform.Assets.Store.{ObjectKey, find_by_checksum, IsUnique}
use event_media_platform.Import.Db.{
  is_pending, is_cancelled, ImportJob, ImportItem, ImportItemStatus, Db, get_job, get_item,
  mark_item,
}
use event_media_platform.Import.Files.{
  Fetch, fetched, rate_limited, threw, FileEnv, mark, settle_fetched, settle_stored,
  settle_inserted, settle, handle_import_file, key_of, insert_rival,
}
use event_media_platform.Import.Settled.{
  IsBacked, settle_duplicate-rows, settle_failed-rows, settle_inserted-IsBacked,
  settle_fetched-IsUnique, insert_rival-IsBacked, insert_rival-objects,
}

abbrev pub has_failed : Option ℕ → Bool
has_failed none = false
has_failed (some e) = true

-- Every object in the bucket belongs to an asset row, but for the object that an insert which failed
-- left behind.
abbrev pub IsBackedBut : Option ℕ → ℕ → Db → Type 0
IsBackedBut error id db =
    All
      (λ k.
        (any (λ a. a.id == k.asset_id) db.assets || (has_failed error && k.asset_id == id)) ≡ true)
      db.objects

IsBacked-But : (error : Option ℕ) (id : ℕ) (db : Db) → IsBacked db → IsBackedBut error id db
IsBacked-But error id db h = All-map (λ k e. ground arith) db.objects h

module _ (env : FileEnv) (item : ImportItem) (job : ImportJob) where
  settle_stored-IsBackedBut :
      (id checksum size : ℕ) (db : Db) (objects : List ObjectKey)
      → env.deletes ≡ true
      → db.objects ≡ key_of job id ∷ objects
      → All (λ k. any (λ a. a.id == k.asset_id) db.assets ≡ true) objects
      → IsBackedBut env.insert id (settle_stored env item job id checksum size db)
  unfolding settle_stored
  settle_stored-IsBackedBut id checksum size db objects d o h = elim (Option-cases env.insert) [
    | inr (n, f) ↦
        let kept = settle_failed-rows env item job n db in
        rw (settle_stored, f)
          (rw (kept.0, kept.1, o)
            (ground (arith, ==_refl id), All-map (λ k e. ground arith) objects h))
    | inl f ↦
        rw (settle_stored, f)
          (IsBacked-But none id (settle_inserted env item job id checksum size db)
            (settle_inserted-IsBacked env item job id checksum size db objects d o h))
  ]

  settle_fetched-IsBackedBut :
      (checksum size : ℕ) (db : Db)
      → env.deletes ≡ true
      → IsBacked db
      → IsBackedBut env.insert db.next_id (settle_fetched env item job checksum size db)
  unfolding settle_fetched
  settle_fetched-IsBackedBut checksum size db d b =
      elim (Option-cases (find_by_checksum job.event_id checksum db.assets)) [
        | inr (a, e) ↦
            let kept = settle_duplicate-rows env item job (some a.id) db in
            rw (e, settle_fetched) (rw (kept.0, kept.1) (IsBacked-But env.insert db.next_id db b))
        | inl e ↦ elim (Option-cases env.put) [
          | inr (n, f) ↦
              let kept = settle_failed-rows env item job n db in
              rw (e, settle_fetched)
                (rw f (rw (kept.0, kept.1) (IsBacked-But env.insert db.next_id db b)))
          | inl f ↦
              let stored : Db = record db {
                objects = key_of job db.next_id ∷ db.objects;
                next_id = suc db.next_id;
              } in
              rw (e, settle_fetched)
                (rw f (
                  settle_stored-IsBackedBut db.next_id checksum size (insert_rival env.rival stored)
                    db.objects d (insert_rival-objects env item job env.rival stored)
                    (insert_rival-IsBacked env item job env.rival stored db.objects b)))
        ]
      ]

  settle-keeps :
      (f : Fetch) (db : Db)
      → env.fetch ≡ f
      → IsUnique db.assets
      → IsUnique (settle env item job db).0.assets
        × (env.deletes ≡ true
            → IsBacked db
            → IsBackedBut env.insert db.next_id (settle env item job db).0)
  unfolding settle
  settle-keeps (fetched checksum size) db e u =
      rw (e, settle)
        (
          settle_fetched-IsUnique env item job checksum size db u,
          settle_fetched-IsBackedBut checksum size db,
        )
  settle-keeps rate_limited db e u =
      rw (e, settle) (unfold mark_item in (u, λ d b. IsBacked-But env.insert db.next_id db b))
  settle-keeps (threw n) db e u =
      let kept = settle_failed-rows env item job n db in
      rw (e, settle)
        (rw kept.0 u, λ d b. rw (kept.0, kept.1) (IsBacked-But env.insert db.next_id db b))

-- When deletions succeed, importing one file leaves the live checksums of an event unique and no object
-- without an asset row, whatever the download, the store and the rival request answer, given that the
-- rows were so before; but when the insert of the row fails for another reason than the index on the
-- checksum, the object that was stored for this file may be left without a row.
pub import_file_keeps :
    (env : FileEnv) (id : ℕ) (db : Db)
    → IsUnique db.assets
    → env.deletes ≡ true
    → IsBacked db
    → IsUnique (handle_import_file env id db).0.assets
      × IsBackedBut env.insert db.next_id (handle_import_file env id db).0
unfolding handle_import_file mark_item
import_file_keeps env id db u d b =
    let same = IsBacked-But env.insert db.next_id db b in
    elim (Option-cases (get_item id db)) [
      | inl e ↦ rw (e, handle_import_file) (u, same)
      | inr (item, e) ↦ elim (Bool-cases (is_pending item.status)) [
        | inr f ↦ rw (e, handle_import_file) (rw f (u, same))
        | inl f ↦ elim (Option-cases (get_job item.import_job_id db)) [
          | inl g ↦ rw (e, handle_import_file) (rw f (rw g (u, same)))
          | inr (job, g) ↦ elim (Bool-cases (is_cancelled job.status)) [
            | inl c ↦ rw (e, handle_import_file) (rw f (rw g (rw c (u, same))))
            | inr c ↦
                let db' = mark_item id (mark ImportItemStatus.downloading) db in
                let kept = settle-keeps env item job env.fetch db' refl (unfold mark_item in u) in
                rw (e, handle_import_file)
                  (rw f (rw g (rw c (kept.0, kept.1 d (unfold mark_item in b)))))
          ]
        ]
      ]
    ]
