-- ===== src/Import/Listing.antt =====
-- Listing a remote folder into import items (handleImportFolder, upsertListingPage) and the calls of
-- the API (createImport, cancel) in apps/backend/src/services/import.service.ts.
use event_media_platform.Prelude.{
  ℕ, zero, suc, ◌+◌, Bool, true, false, ◌&&◌, ◌||◌, List, [], ◌∷◌, ◌++◌, Option, none, some, ◌==◌,
  if◌then◌else◌, filter, length,
}
use event_media_platform.Prelude.Text.{codes}
use event_media_platform.Import.Db.{
  ImportItemStatus, is_synced, ImportJob, ImportItem, Db, mark_item, known_item, insert_items,
}

pub record RemoteFile : Type 0 where
  pub id : ℕ
  pub name : ℕ
  pub size : Option ℕ
  pub checksum : Option ℕ
  pub mime_type : List ℕ

-- One answer of the provider's listing.
pub record Page : Type 0 where
  pub files : List RemoteFile
  pub subfolder_ids : List ℕ
  pub next_page_token : Option ℕ

pub data PageReply : Type 0 where
  page : Page → PageReply
  rate_limited : PageReply
  threw : ℕ → PageReply

-- The provider's listing of a folder from a page token; resolving the account and its access token
-- is part of the answer.
abbrev pub Client : Type 0
Client = ℕ → Option ℕ → PageReply

abbrev pub starts_with : List ℕ → List ℕ → Bool
starts_with s [] = true
starts_with [] (d ∷ t) = false
starts_with (c ∷ s) (d ∷ t) = c == d && starts_with s t

-- IMPORTABLE_MIME
unfoldable pub is_importable : List ℕ → Bool
is_importable mime = starts_with mime (codes "image/") || starts_with mime (codes "video/")

abbrev pub eq_checksum : Option ℕ → Option ℕ → Bool
eq_checksum none none = true
eq_checksum (some a) (some b) = a == b
eq_checksum _ _ = false

abbrev pub is_some {ℓ} : {A : Type ℓ} → Option A → Bool
is_some none = false
is_some (some a) = true

-- The same content as last time.
unfoldable pub is_unchanged : ImportItem → RemoteFile → Bool
is_unchanged known file =
    is_synced known.status
    && (eq_checksum known.remote_checksum file.checksum && is_some file.checksum)

abbrev pub new_item : ImportJob → RemoteFile → ImportItem
new_item job file = record {
  id = 0;
  import_job_id = job.id;
  event_id = job.event_id;
  provider = job.provider;
  remote_id = file.id;
  remote_name = file.name;
  remote_size = file.size;
  remote_checksum = file.checksum;
  status = ImportItemStatus.pending;
  asset_id = none;
  error = none;
}

abbrev pub repoint_skipped : ImportJob → ImportItem → ImportItem
repoint_skipped job i = record i {
  import_job_id = job.id;
  status = ImportItemStatus.skipped_duplicate;
}

abbrev pub repoint_pending : ImportJob → RemoteFile → ImportItem → ImportItem
repoint_pending job file i = record i {
  import_job_id = job.id;
  remote_name = file.name;
  remote_size = file.size;
  remote_checksum = file.checksum;
  status = ImportItemStatus.pending;
  error = none;
}

-- What the loop over the files of a page carries.
pub record PageState : Type 0 where
  pub db : Db
  pub to_insert : List ImportItem
  pub skipped : ℕ

-- One file, by what is known of it.
unfoldable pub apply_file : ImportJob → RemoteFile → Option ImportItem → PageState → PageState
unfolding is_unchanged mark_item
apply_file job file none s = record s { to_insert = s.to_insert ++ (new_item job file ∷ []) }
apply_file job file (some k) s =
    if is_unchanged k file
    then record s { db = mark_item k.id (repoint_skipped job) s.db; skipped = s.skipped + 1 }
    else record s { db = mark_item k.id (repoint_pending job file) s.db }

-- One file, against the items that were known when the page began.
unfoldable pub classify : ImportJob → List ImportItem → RemoteFile → PageState → PageState
classify job known file s =
    apply_file job file (known_item job.event_id job.provider file.id known) s

unfoldable pub classify_all : ImportJob → List ImportItem → List RemoteFile → PageState → PageState
unfolding classify
classify_all job known [] s = s
classify_all job known (file ∷ files) s = classify_all job known files (classify job known file s)

-- A page's rows with how many files were skipped, or the rows that a refused insert leaves.
pub data Upserted : Type 0 where
  upserted : Db → ℕ → Upserted
  refused : Db → Upserted

-- upsertListingPage
unfoldable pub upsert_listing_page : ImportJob → List RemoteFile → Db → Upserted
unfolding classify_all
upsert_listing_page job files db =
    let s = classify_all job db.items files (record { db = db; to_insert = []; skipped = 0 }) in
    elim (insert_items s.to_insert s.db) [ none ↦ refused s.db | some db' ↦ upserted db' s.skipped ]

pub record Listed : Type 0 where
  pub db : Db
  pub listed : ℕ
  pub skipped : ℕ

pub data Listing : Type 0 where
  complete : Listed → Listing
  limited : Db → Listing
  broken : Db → ℕ → Listing
  out_of_fuel : Listing

-- `while (pageToken)`: an empty token ends the folder.
abbrev pub next_token : Page → Option ℕ
next_token p = elim p.next_page_token [ none ↦ none | some t ↦ if t == 0 then none else some t ]

-- The folders that are still to be listed after a page.
abbrev pub folders_after : ImportJob → Page → List ℕ → List ℕ
folders_after job p folders = if job.recursive then folders ++ p.subfolder_ids else folders

pub data Taken : Type 0 where
  taken : Listed → Taken
  refused : Db → Taken

-- A page's media files, upserted and counted.
unfoldable pub take_page : ImportJob → Page → Listed → Taken
take_page job p l =
    let media = filter (λ f. is_importable f.mime_type) p.files in
    elim (upsert_listing_page job media l.db) [
      | Upserted.refused db ↦ Taken.refused db
      | upserted db n ↦
          taken (record { db = db; listed = l.listed + length media; skipped = l.skipped + n })
    ]

-- One page ends the listing, or says what comes next.
pub data Round : Type 0 where
  ends : Listing → Round
  goes_on : ℕ → Option ℕ → List ℕ → Listed → Round

unfoldable pub next_folder : List ℕ → Listed → Round
next_folder [] l = ends (complete l)
next_folder (folder ∷ rest) l = goes_on folder none rest l

unfoldable pub next_page : Option ℕ → ℕ → List ℕ → Listed → Round
unfolding next_folder
next_page (some token) folder folders l = goes_on folder (some token) folders l
next_page none folder folders l = next_folder folders l

-- The body of the loops: the folder and page token that are next, and the folders behind them. A
-- refused insert is error 0.
unfoldable pub list_page : Client → ImportJob → ℕ → Option ℕ → List ℕ → Listed → Round
unfolding next_page
list_page client job folder token folders l = elim (client folder token) [
  | rate_limited ↦ ends (limited l.db)
  | threw e ↦ ends (broken l.db e)
  | page p ↦ elim (take_page job p l) [
    | Taken.refused db ↦ ends (broken db 0)
    | taken l' ↦ next_page (next_token p) folder (folders_after job p folders) l'
  ]
]

-- The two loops of handleImportFolder, one page to a round.
unfoldable pub list_folders : ℕ → Client → ImportJob → ℕ → Option ℕ → List ℕ → Listed → Listing
list_folders zero client job folder token folders l = out_of_fuel
list_folders (suc fuel) client job folder token folders l =
    elim (list_page client job folder token folders l) [
      | ends r ↦ r
      | goes_on folder' token' folders' l' ↦ list_folders fuel client job folder' token' folders' l'
    ]
