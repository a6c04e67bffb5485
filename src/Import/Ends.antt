-- ===== src/Import/Ends.antt =====
-- How many rounds the listing of a remote tree takes (handleImportFolder in import.service.ts).
use event_media_platform.Prelude.{
  ℕ, zero, suc, ◌+◌, ◌<◌, ◌≡◌, ◌≢◌, refl, inl, inr, List, [], ◌∷◌, Option, none, some, arith,
  if◌then◌else◌, sum_by, Bool-cases,
}
use event_media_platform.Prelude.{sum_by-append}
use event_media_platform.Import.Db.{ImportJob}
use event_media_platform.Import.Listing.{
  Page, PageReply, page, Client, next_token, folders_after, Taken, taken, take_page, Listed,
  out_of_fuel, Round, ends, goes_on, next_page, list_page, list_folders,
}

-- The remote tree is finite: a size for each folder and page token that falls from a page to the next
-- page and the subfolders together.
abbrev pub IsFinite : Client → ImportJob → (ℕ → Option ℕ → ℕ) → Type 0
IsFinite client job size =
    (folder : ℕ) (token : Option ℕ) (p : Page)
    → client folder token ≡ page p
    → elim (next_token p) [ none ↦ 0 | some t ↦ size folder (some t) ]
        + sum_by (λ f. size f none) (if job.recursive then p.subfolder_ids else [])
      < size folder token

module _ (client : Client) (job : ImportJob) (size : ℕ → Option ℕ → ℕ) where
  folders_after-size :
      (p : Page) (folders : List ℕ)
      → sum_by (λ f. size f none) (folders_after job p folders)
        ≡ sum_by (λ f. size f none) folders
          + sum_by (λ f. size f none) (if job.recursive then p.subfolder_ids else [])
  folders_after-size p folders = elim (Bool-cases job.recursive) [
    | inl e ↦ simp e (sum_by-append (λ f. size f none) folders p.subfolder_ids)
    | inr e ↦ simp e (omega arith)
  ]

  -- The size of what is still to be listed.
  abbrev to_list : ℕ → Option ℕ → List ℕ → ℕ
  to_list folder token folders = size folder token + sum_by (λ f. size f none) folders

  -- What a round may come to: an end that is no lack of rounds, or less to list.
  abbrev Progress : ℕ → Round → Type 0
  Progress n (ends r) = r ≢ out_of_fuel
  Progress n (goes_on folder token folders l) = to_list folder token folders < n

  next_page-Progress :
      (n : ℕ) (token : Option ℕ) (folder : ℕ) (folders : List ℕ) (l : Listed)
      → elim token [ none ↦ 0 | some t ↦ size folder (some t) ] + sum_by (λ f. size f none) folders
        < n
      → Progress n (next_page token folder folders l)
  unfolding next_page
  next_page-Progress n (some t) folder folders l h = h
  next_page-Progress n none folder [] l h = λ e. cc
  next_page-Progress n none folder (f ∷ rest) l h = omega arith

  take_page-Progress :
      (folder : ℕ) (token : Option ℕ) (folders : List ℕ) (l : Listed) (p : Page) (t : Taken)
      → IsFinite client job size
      → client folder token ≡ page p
      → take_page job p l ≡ t
      → Progress (to_list folder token folders) (list_page client job folder token folders l)
  unfolding list_page
  take_page-Progress folder token folders l p (taken l') fin e f =
      rw (e, list_page)
        (rw f (
          next_page-Progress (to_list folder token folders) (next_token p) folder
            (folders_after job p folders) l'
            (omega (arith, fin folder token p e, folders_after-size p folders))))
  take_page-Progress folder token folders l p (Taken.refused db) fin e f =
      rw (e, list_page) (rw f (λ x. cc))

  list_page-Progress :
      (folder : ℕ) (token : Option ℕ) (folders : List ℕ) (l : Listed) (r : PageReply)
      → IsFinite client job size
      → client folder token ≡ r
      → Progress (to_list folder token folders) (list_page client job folder token folders l)
  unfolding list_page
  list_page-Progress folder token folders l PageReply.rate_limited fin e =
      rw (e, list_page) (λ x. cc)
  list_page-Progress folder token folders l (PageReply.threw n) fin e = rw (e, list_page) (λ x. cc)
  list_page-Progress folder token folders l (page p) fin e =
      take_page-Progress folder token folders l p (take_page job p l) fin e refl

  rounds_end :
      (fuel n : ℕ) (r : Round) (folder : ℕ) (token : Option ℕ) (folders : List ℕ) (l : Listed)
      → list_page client job folder token folders l ≡ r
      → Progress n r
      → n < suc fuel
      → ((folder' : ℕ) (token' : Option ℕ) (folders' : List ℕ) (l' : Listed)
          → to_list folder' token' folders' < fuel
          → list_folders fuel client job folder' token' folders' l' ≢ out_of_fuel)
      → list_folders (suc fuel) client job folder token folders l ≢ out_of_fuel
  unfolding list_folders
  rounds_end fuel n (ends r) folder token folders l e h lt ih = rw (e, list_folders) h
  rounds_end fuel n (goes_on folder' token' folders' l') folder token folders l e h lt ih =
      rw (e, list_folders) (ih folder' token' folders' l' (omega arith))

  -- The listing of a finite remote tree ends: with more rounds than the sizes of what is to be listed
  -- it comes to the end, to a rate limit or to an error.
  pub listing_ends :
      (fuel folder : ℕ) (token : Option ℕ) (folders : List ℕ) (l : Listed)
      → IsFinite client job size
      → size folder token + sum_by (λ f. size f none) folders < fuel
      → list_folders fuel client job folder token folders l ≢ out_of_fuel
  listing_ends zero folder token folders l fin h = elim h [ ]
  listing_ends (suc fuel) folder token folders l fin h =
      rounds_end fuel (to_list folder token folders) (list_page client job folder token folders l)
        folder token folders l refl
        (list_page-Progress folder token folders l (client folder token) fin refl) h
        (λ folder' token' folders' l' lt. listing_ends fuel folder' token' folders' l' fin lt)
