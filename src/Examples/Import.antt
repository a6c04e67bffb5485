-- ===== src/Examples/Import.antt =====
-- The theorems about the cloud import at concrete inputs.
use event_media_platform.Prelude.{
  map, ℕ, ◌≡◌, ◌≢◌, refl, inl, inr, true, false, List, [], ◌∷◌, Option, none, some, arith, ◌==◌,
  if◌then◌else◌, any, Bool-cases, All,
}
use event_media_platform.Prelude.Text.{codes}
use event_media_platform.Assets.Store.{Asset, AssetStatus, AssetSource, ObjectKey, IsUnique}
use event_media_platform.Import.Db.{
  CloudProvider, gdrive, ImportJob, ImportItem, ImportJobStatus, ImportItemStatus, is_importing,
  is_cancelled, Db, get_job, update_job, get_item,
}
use event_media_platform.Import.Listing.{
  RemoteFile, Page, page, PageReply, Client, Listed, list_folders, complete, out_of_fuel,
  upsert_listing_page, upserted, Upserted,
}
use event_media_platform.Import.Folder.{handle_import_folder, cancel_job}
use event_media_platform.Import.Files.{fetched, FileEnv, handle_import_file}
use event_media_platform.Import.Coverage.{is_item_of}
use event_media_platform.Import.Pages.{page_is_covered, cancellation_is_lost}
use event_media_platform.Import.Ends.{listing_ends, IsFinite}
use event_media_platform.Import.Kept.{IsBackedBut, import_file_keeps}
use event_media_platform.Import.Held.{IsStuck}
use event_media_platform.Import.Stuck.{handle_import_file-IsStuck}

abbrev job_in : ImportJobStatus → ImportJob
job_in s = record {
  id = 1;
  event_id = 5;
  org_id = 6;
  provider = gdrive;
  folder_remote_id = 40;
  recursive = true;
  status = s;
  total_files = 0;
  done_files = 0;
  skipped_files = 0;
  failed_files = 0;
  error = none;
  finished_at = none;
}

abbrev photo : ℕ → RemoteFile
photo n = record {
  id = n;
  name = n;
  size = some 9;
  checksum = some n;
  mime_type = codes "image/jpeg";
}

abbrev item_in : ℕ → ImportItemStatus → ImportItem
item_in n s = record {
  id = n;
  import_job_id = 1;
  event_id = 5;
  provider = gdrive;
  remote_id = n;
  remote_name = n;
  remote_size = some 9;
  remote_checksum = some n;
  status = s;
  asset_id = none;
  error = none;
}

abbrev old_asset : Asset
old_asset = record {
  id = 3;
  event_id = 5;
  org_id = 6;
  checksum = 77;
  file_size = 9;
  status = AssetStatus.stored;
  source = AssetSource.upload;
  storage_key = record { org_id = 6; event_id = 5; asset_id = 3 };
  deleted = false;
}

abbrev db_with : ImportJobStatus → List ImportItem → Db
db_with s items = record {
  jobs = job_in s ∷ [];
  items = items;
  assets = old_asset ∷ [];
  objects = record { org_id = 6; event_id = 5; asset_id = 3 } ∷ [];
  queue = [];
  next_id = 100;
}

-- File 20 is synced, and file 21 is new.
abbrev known_db : Db
known_db = db_with ImportJobStatus.listing (item_in 20 ImportItemStatus.done ∷ [])

abbrev page_db : Db
page_db =
    record (db_with ImportJobStatus.listing (
      record (item_in 21 ImportItemStatus.pending) { id = 100 }
      ∷ (item_in 20 ImportItemStatus.skipped_duplicate ∷ []))) { next_id = 101 }

page_of_two :
    upsert_listing_page (job_in ImportJobStatus.listing) (photo 20 ∷ (photo 21 ∷ [])) known_db
    ≡ upserted page_db 1
unfolding upsert_listing_page event_media_platform.Import.Db.insert_items
    event_media_platform.Import.Listing.apply_file event_media_platform.Import.Db.known_item
    event_media_platform.Import.Db.insert_item
page_of_two = refl

page_is_covered_example :
    All
      (λ f. any (is_item_of (job_in ImportJobStatus.listing) f.id) page_db.items ≡ true)
      (photo 20 ∷ (photo 21 ∷ []))
page_is_covered_example =
    page_is_covered (job_in ImportJobStatus.listing) (photo 20 ∷ (photo 21 ∷ [])) known_db
      page_of_two

-- Folder 40 has two pages and a subfolder that is empty.
abbrev remote : Client
remote folder none =
    if folder == 40
    then page (record { files = photo 20 ∷ []; subfolder_ids = 41 ∷ []; next_page_token = some 1 })
    else page (record { files = []; subfolder_ids = []; next_page_token = none })
remote folder (some t) =
    page (record { files = photo 21 ∷ []; subfolder_ids = []; next_page_token = none })

abbrev start_of : Db → Listed
start_of db = record { db = db; listed = 0; skipped = 0 }

abbrev listed_all : Listed
listed_all = record { db = page_db; listed = 2; skipped = 1 }

list_remote :
    list_folders 9 remote (job_in ImportJobStatus.listing) 40 none [] (start_of known_db)
    ≡ complete listed_all
unfolding list_folders event_media_platform.Import.Listing.list_page
    event_media_platform.Import.Listing.take_page upsert_listing_page
    event_media_platform.Import.Db.insert_items event_media_platform.Import.Listing.is_importable
    event_media_platform.Import.Listing.apply_file event_media_platform.Import.Db.known_item
    event_media_platform.Import.Db.insert_item
list_remote = refl

cancellation_is_lost_example :
    (j' : ImportJob) × (get_job 1
        (handle_import_folder 9 remote (update_job 1 (cancel_job 60)) 70 1 known_db).0
      ≡ some j')
    × (j'.status ≡ ImportJobStatus.importing)
unfolding get_job update_job event_media_platform.Import.Db.pending_item_ids
cancellation_is_lost_example =
    cancellation_is_lost 9 remote (update_job 1 (cancel_job 60)) 70 1 known_db
      (job_in ImportJobStatus.listing) (cancel_job 60 (job_in ImportJobStatus.listing)) listed_all
      refl refl list_remote refl

abbrev remote_size : ℕ → Option ℕ → ℕ
remote_size folder none = if folder == 40 then 4 else 1
remote_size folder (some t) = 1

remote-IsFinite : IsFinite remote (job_in ImportJobStatus.listing) remote_size
remote-IsFinite folder none p e = elim (Bool-cases (folder == 40)) [
  | inl t ↦ ground arith
  | inr t ↦ ground arith
]
remote-IsFinite folder (some t) p e = ground arith

listing_ends_example :
    list_folders 9 remote (job_in ImportJobStatus.listing) 40 none [] (start_of known_db)
    ≢ out_of_fuel
listing_ends_example =
    listing_ends remote (job_in ImportJobStatus.listing) remote_size 9 40 none []
      (start_of known_db) remote-IsFinite (omega arith)

-- Another request stores the content of file 21 first.
abbrev rival_asset : Asset
rival_asset = record old_asset { id = 50; checksum = 21 }

abbrev file_env : FileEnv
file_env = record {
  fetch = fetched 21 9;
  put = none;
  rival = some rival_asset;
  insert = none;
  deletes = true;
  now = 80;
}

abbrev two_items : Db
two_items =
    db_with ImportJobStatus.importing
      (item_in 20 ImportItemStatus.downloading ∷ (item_in 21 ImportItemStatus.pending ∷ []))

import_file_keeps_example :
    IsUnique (handle_import_file file_env 21 two_items).0.assets
    × IsBackedBut none 100 (handle_import_file file_env 21 two_items).0
unfolding event_media_platform.Assets.Store.find_by_checksum
import_file_keeps_example = import_file_keeps file_env 21 two_items (inr refl, tt) refl (refl, tt)

-- The event is gone when the row is inserted: the object stays in the bucket without a row.
orphan_stays :
    let db = (handle_import_file (record file_env { insert = some 5 }) 21 two_items).0 in
    (map (λ k. k.asset_id) db.objects ≡ 100 ∷ map (λ k. k.asset_id) two_items.objects)
    × (any (λ a. a.id == 100) db.assets ≡ false)
unfolding handle_import_file get_item get_job event_media_platform.Import.Files.settle
    event_media_platform.Import.Files.settle_fetched
    event_media_platform.Assets.Store.find_by_checksum event_media_platform.Import.Db.mark_item
    event_media_platform.Import.Files.settle_stored event_media_platform.Import.Files.finish_item
    event_media_platform.Import.Db.bump_counter event_media_platform.Assets.Store.create
orphan_stays = (refl, refl)

handle_import_file-IsStuck_example :
    IsStuck 20
      (item_in 20 ImportItemStatus.downloading)
      (handle_import_file file_env 21 two_items).0
unfolding get_item get_job
handle_import_file-IsStuck_example =
    handle_import_file-IsStuck file_env 20 21 (item_in 20 ImportItemStatus.downloading) two_items
      refl (refl, (job_in ImportJobStatus.importing, refl, refl))
