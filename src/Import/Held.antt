-- ===== src/Import/Held.antt =====
-- An item that is downloading while other items of import.service.ts are marked and counted.
use event_media_platform.Prelude.{
  ℕ, ◌<◌, ◌≡◌, ◌≢◌, refl, ◌∙◌, inl, inr, true, ◌&&◌, some, arith, ◌==◌, ==_refl, Bool-cases,
  Option-cases,
}
use event_media_platform.Prelude.{find_holds}
use event_media_platform.Import.Db.{
  is_pending, is_importing, is_open, ImportJob, ImportItem, ImportItemStatus, Db, get_job, get_item,
  mark_item, update_job, Counter, bump, done_files, skipped_files, failed_files, bump_counter,
  remaining,
}
use event_media_platform.Import.Files.{job_done, finish_item}
use event_media_platform.Import.Rows.{find-update_self, find-update_ne, length-filter-pos}

-- Item k is as it was found, and its job is importing.
abbrev pub IsStuck : ℕ → ImportItem → Db → Type 0
IsStuck k it db =
    (get_item k db ≡ some it)
    × ((j : ImportJob) × (get_job it.import_job_id db ≡ some j) × (is_importing j.status ≡ true))

bump_id : (c : Counter) (j : ImportJob) → (bump c j).id ≡ j.id
bump_id done_files j = refl
bump_id skipped_files j = refl
bump_id failed_files j = refl

bump_status : (c : Counter) (j : ImportJob) → (bump c j).status ≡ j.status
bump_status done_files j = refl
bump_status skipped_files j = refl
bump_status failed_files j = refl

pub found_id : (id : ℕ) (db : Db) (i : ImportItem) → get_item id db ≡ some i → i.id ≡ id
unfolding get_item
found_id id db i h = ground (arith, find_holds (λ i. i.id == id) db.items {x = i} h)

pub pending_ne :
    (it item : ImportItem)
    → some it ≡ some item
    → it.status ≡ ImportItemStatus.downloading
    → ¬ (is_pending item.status ≡ true)
pending_ne it item e s p = ground arith

module _ (k : ℕ) (it : ImportItem) where
  pub mark_item-IsStuck :
      (m : ℕ) (f : ImportItem → ImportItem) (db : Db)
      → ((i : ImportItem) → (f i).id ≡ i.id)
      → m ≢ k
      → IsStuck k it db
      → IsStuck k it (mark_item m f db)
  unfolding mark_item get_item get_job
  mark_item-IsStuck m f db p ne (found, (j, e, i)) =
      (find-update_ne (λ i. i.id) m k f db.items p ne ∙ found, (j, e, i))

  -- A job's row other than the item's may change in any way.
  update_job-IsStuck :
      (job : ℕ) (f : ImportJob → ImportJob) (db : Db)
      → ((j : ImportJob) → (f j).id ≡ j.id)
      → job ≢ it.import_job_id
      → IsStuck k it db
      → IsStuck k it (update_job job f db)
  unfolding update_job get_item get_job
  update_job-IsStuck job f db p ne (found, (j, e, i)) =
      (found, (j, find-update_ne (λ j. j.id) job it.import_job_id f db.jobs p ne ∙ e, i))

  bump-IsStuck :
      (job : ℕ) (c : Counter) (db : Db)
      → IsStuck k it db
      → IsStuck k it (update_job job (bump c) db)
  unfolding update_job get_item get_job
  bump-IsStuck job c db (found, (j, e, i)) = elim (Bool-cases (job == it.import_job_id)) [
    | inl t ↦
        let same : job ≡ it.import_job_id = ground arith in
        (
          found,
          (
            bump c j,
            rw same (find-update_self (λ j. j.id) it.import_job_id (bump c) db.jobs (bump_id c) e),
            rw (bump_status c j) i,
          ),
        )
    | inr t ↦
        update_job-IsStuck job (bump c) db (bump_id c) (λ x. ground (arith, ==_refl job))
          (found, (j, e, i))
  ]

  -- The job of an item that is downloading has something left to do.
  remaining-pos :
      (db : Db)
      → it.status ≡ ImportItemStatus.downloading
      → get_item k db ≡ some it
      → 0 < remaining it.import_job_id db
  unfolding remaining get_item
  remaining-pos db s found =
      length-filter-pos (λ i. i.id == k)
        (λ i. i.import_job_id == it.import_job_id && is_open i.status) db.items it found
        (rw s (ground (arith, ==_refl it.import_job_id)))

  pub finish_item-IsStuck :
      (now job : ℕ) (c : Counter) (db : Db)
      → it.status ≡ ImportItemStatus.downloading
      → IsStuck k it db
      → IsStuck k it (finish_item now job c db)
  unfolding finish_item bump_counter
  finish_item-IsStuck now job c db s h =
      let db' = update_job job (bump c) db in
      let h' : IsStuck k it db' = bump-IsStuck job c db h in
      elim (Bool-cases (remaining job db' == 0)) [
        | inr e ↦ rw (e, finish_item, bump_counter) h'
        | inl e ↦
            let other : job ≢ it.import_job_id = λ same. ground (arith, remaining-pos db' s h'.0) in
            elim (Option-cases (get_job job db')) [
              | inl f ↦ rw (e, finish_item, bump_counter) (rw f h')
              | inr (j, f) ↦ elim (Bool-cases (is_importing j.status)) [
                | inl g ↦
                    rw (e, finish_item, bump_counter)
                      (rw f (rw g (update_job-IsStuck job (job_done now) db' (λ j. refl) other h')))
                | inr g ↦ rw (e, finish_item, bump_counter) (rw f (rw g h'))
              ]
            ]
      ]
