-- ===== src/Import/Pages.antt =====
-- What a page of the remote listing leaves in import_item, and what a cancellation meanwhile comes
-- to (import.service.ts).
use event_media_platform.Prelude.{
  if◌then◌else◌, ℕ, ◌≡◌, refl, inl, inr, Bool, true, false, not, ◌&&◌, List, [], ◌∷◌, none, some,
  arith, ◌==◌, ==_refl, any, Bool-cases, Option-cases, All,
}
use event_media_platform.Prelude.{find_holds, All-map}
use event_media_platform.Import.Db.{
  eq_provider, ImportJobStatus, ImportJob, ImportItem, Db, known_item, insert_item, insert_items,
  get_job, update_job, is_cancelled, pending_item_ids,
}
use event_media_platform.Import.Listing.{
  RemoteFile, Client, classify_all, upsert_listing_page, PageState, upserted, Listed, complete,
  list_folders,
}
use event_media_platform.Import.Folder.{handle_import_folder, listing_done, is_empty}
use event_media_platform.Import.Rows.{any-find, find-update_self}
use event_media_platform.Import.Coverage.{is_item_of, is_row, Covered, classify_all-Covered}

insert_item-items :
    (i : ImportItem) (db : Db) {db' : Db}
    → insert_item i db ≡ some db'
    → db'.items ≡ record i { id = db.next_id } ∷ db.items
unfolding insert_item
insert_item-items i db h = ground arith

insert_items-keep :
    (q : ImportItem → Bool) (is : List ImportItem) (db : Db) {db' : Db}
    → insert_items is db ≡ some db'
    → any q db.items ≡ true
    → any q db'.items ≡ true
unfolding insert_items
insert_items-keep q [] db e h = ground arith
insert_items-keep q (i ∷ is) db {db'} e h = elim (Option-cases (insert_item i db)) [
  | inl n ↦ cc (rw (n, insert_items) at e)
  | inr (db₁, s) ↦
      insert_items-keep q is db₁ {db' = db'} (rw (s, insert_items) at e)
        (ground (arith, insert_item-items i db {db' = db₁} s))
]

-- A test that does not look at the id holds of the row that is inserted.
insert_items-any :
    (q : ImportItem → Bool) (is : List ImportItem) (db : Db) {db' : Db}
    → ((i : ImportItem) (n : ℕ) → q i ≡ true → q (record i { id = n }) ≡ true)
    → insert_items is db ≡ some db'
    → any q is ≡ true
    → any q db'.items ≡ true
unfolding insert_items
insert_items-any q [] db p e h = cc
insert_items-any q (i ∷ is) db {db'} p e h = elim (Option-cases (insert_item i db)) [
  | inl n ↦ cc (rw (n, insert_items) at e)
  | inr (db₁, s) ↦
      let e' : insert_items is db₁ ≡ some db' = rw (s, insert_items) at e in
      elim (Bool-cases (q i)) [
        | inl t ↦
            insert_items-keep q is db₁ e'
              (ground (arith, insert_item-items i db {db' = db₁} s, p i db.next_id t))
        | inr f ↦ insert_items-any q is db₁ p e' (ground arith)
      ]
]

known-is_row :
    (job : ImportJob) (remote : ℕ) (known : List ImportItem) (k : ImportItem)
    → known_item job.event_id job.provider remote known ≡ some k
    → is_row job remote k k ≡ true
unfolding known_item
known-is_row job remote known k h = ground (
  arith,
  ==_refl k.id,
  find_holds
      (λ i.
        i.event_id == job.event_id
        && (eq_provider i.provider job.provider && i.remote_id == remote))
      known {x = k} h,
)

any-known :
    (job : ImportJob) (remote : ℕ) (known : List ImportItem) (k : ImportItem)
    → known_item job.event_id job.provider remote known ≡ some k
    → any (is_row job remote k) known ≡ true
unfolding known_item
any-known job remote known k h =
    any-find _ (is_row job remote k) known k h (known-is_row job remote known k h)

module _ (job : ImportJob) (files : List RemoteFile) (db : Db) where
  -- The loop's state at the end of the page.
  abbrev page_end : PageState
  page_end = classify_all job db.items files (record { db = db; to_insert = []; skipped = 0 })

  upserted_insert :
      {db' : Db} {n : ℕ}
      → upsert_listing_page job files db ≡ upserted db' n
      → insert_items page_end.to_insert page_end.db ≡ some db'
  unfolding upsert_listing_page
  upserted_insert h = ground arith

  Covered-inserted :
      {db' : Db} (remote : ℕ)
      → insert_items page_end.to_insert page_end.db ≡ some db'
      → Covered job remote page_end
      → any (is_item_of job remote) db'.items ≡ true
  Covered-inserted remote e (inl h) =
      insert_items-keep (is_item_of job remote) page_end.to_insert page_end.db e h
  Covered-inserted remote e (inr h) =
      insert_items-any (is_item_of job remote) page_end.to_insert page_end.db (λ i n t. t) e h

  -- Every file of a page that was taken has an item of the job, either to be fetched or known to be
  -- in the event already: no listed file is lost.
  pub page_is_covered :
      {db' : Db} {n : ℕ}
      → upsert_listing_page job files db ≡ upserted db' n
      → All (λ f. any (is_item_of job f.id) db'.items ≡ true) files
  page_is_covered h =
      All-map (λ f c. Covered-inserted f.id (upserted_insert h) c) files
        (classify_all-Covered job db.items files _
          (λ remote k e. any-known job remote db.items k e))

-- When the listing of a job that was not cancelled at its start completes, the handler leaves the job
-- importing if it has pending items by then, and done if it has none, whatever other calls made of its
-- status while the pages were fetched: a cancellation is overwritten.
pub cancellation_is_lost :
    (fuel : ℕ) (client : Client) (meanwhile : Db → Db) (now id : ℕ) (db : Db) (job j : ImportJob)
    (l : Listed)
    → get_job id db ≡ some job
    → is_cancelled job.status ≡ false
    → list_folders fuel client job job.folder_remote_id none []
        (record { db = db; listed = 0; skipped = 0 })
      ≡ complete l
    → get_job id (meanwhile l.db) ≡ some j
    → (j' : ImportJob) × (get_job id (handle_import_folder fuel client meanwhile now id db).0
        ≡ some j')
      × (j'.status ≡ (
          if is_empty (pending_item_ids id (meanwhile l.db))
          then ImportJobStatus.done
          else ImportJobStatus.importing))
unfolding handle_import_folder get_job update_job
cancellation_is_lost fuel client meanwhile now id db job j l found live listed after =
    let pending = not (is_empty (pending_item_ids id (meanwhile l.db))) in
    (
      listing_done pending now l j,
      rw (found, handle_import_folder)
          (simp (live, listed)
            (find-update_self (λ j. j.id) id (listing_done pending now l) (meanwhile l.db).jobs
              (λ y. refl) after)),
      ground arith,
    )
