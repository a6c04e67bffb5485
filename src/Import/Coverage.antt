-- ===== src/Import/Coverage.antt =====
-- No file of a listed page is lost (upsertListingPage in import.service.ts).
use event_media_platform.Prelude.{
  ℕ, ◌≡◌, refl, ◌⊎◌, inl, inr, Bool, true, false, ◌&&◌, List, [], ◌∷◌, Option, none, some, arith,
  ◌==◌, ==_refl, any, Bool-cases, All,
}
use event_media_platform.Import.Db.{
  CloudProvider, eq_provider, ImportItemStatus, ImportJob, ImportItem, known_item,
}
use event_media_platform.Import.Listing.{
  RemoteFile, is_unchanged, new_item, repoint_skipped, repoint_pending, PageState, apply_file,
  classify, classify_all,
}
use event_media_platform.Import.Rows.{any-update, any-update_hit, any-append_left, any-append_right}

-- The status that a listed file may have: to be fetched, or there already.
abbrev pub is_listed : ImportItemStatus → Bool
is_listed ImportItemStatus.pending = true
is_listed ImportItemStatus.skipped_duplicate = true
is_listed _ = false

-- An item of the job for the remote file.
abbrev pub is_item_of : ImportJob → ℕ → ImportItem → Bool
is_item_of job remote i =
    i.import_job_id == job.id
    && (i.event_id == job.event_id
        && (eq_provider i.provider job.provider && (i.remote_id == remote && is_listed i.status)))

-- Among the rows, or those about to be inserted.
abbrev pub Covered : ImportJob → ℕ → PageState → Type 0
Covered job remote s =
    (any (is_item_of job remote) s.db.items ≡ true)
    ⊎ (any (is_item_of job remote) s.to_insert ≡ true)

pub eq_provider_refl : (p : CloudProvider) → eq_provider p p ≡ true
eq_provider_refl CloudProvider.gdrive = refl
eq_provider_refl CloudProvider.onedrive = refl

-- The row that was known of a remote file, whatever its status and job are by now.
abbrev pub is_row : ImportJob → ℕ → ImportItem → ImportItem → Bool
is_row job remote k i =
    i.id == k.id
    && (i.event_id == job.event_id
        && (eq_provider i.provider job.provider && i.remote_id == remote))

module _ (job : ImportJob) (remote : ℕ) where
  -- Both updates keep an item of the job one, and keep the row.
  skipped_keeps :
      (i : ImportItem)
      → is_item_of job remote i ≡ true
      → is_item_of job remote (repoint_skipped job i) ≡ true
  skipped_keeps i h = ground (arith, ==_refl job.id)

  pending_keeps :
      (file : RemoteFile) (i : ImportItem)
      → is_item_of job remote i ≡ true
      → is_item_of job remote (repoint_pending job file i) ≡ true
  pending_keeps file i h = ground (arith, ==_refl job.id)

  -- Either update turns the row into an item of the job.
  skipped_hits :
      (k i : ImportItem)
      → is_row job remote k i ≡ true
      → ((i.id == k.id) ≡ true) × (is_item_of job remote (repoint_skipped job i) ≡ true)
  skipped_hits k i h = (ground arith, ground (arith, ==_refl job.id))

  pending_hits :
      (file : RemoteFile) (k i : ImportItem)
      → is_row job remote k i ≡ true
      → ((i.id == k.id) ≡ true) × (is_item_of job remote (repoint_pending job file i) ≡ true)
  pending_hits file k i h = (ground arith, ground (arith, ==_refl job.id))

  new_item_lem :
      (file : RemoteFile) → file.id ≡ remote → is_item_of job remote (new_item job file) ≡ true
  new_item_lem file e =
      ground
        (arith, ==_refl job.id, ==_refl job.event_id, ==_refl remote, eq_provider_refl job.provider)

module _ (job : ImportJob) (file : RemoteFile) where
  -- A test that both updates keep still holds of some row.
  apply_keeps :
      (q : ImportItem → Bool) (o : Option ImportItem) (s : PageState)
      → ((i : ImportItem) → q i ≡ true → q (repoint_skipped job i) ≡ true)
      → ((i : ImportItem) → q i ≡ true → q (repoint_pending job file i) ≡ true)
      → any q s.db.items ≡ true
      → any q (apply_file job file o s).db.items ≡ true
  unfolding apply_file
  apply_keeps q none s f g h = h
  apply_keeps q (some k) s f g h = elim (Bool-cases (is_unchanged k file)) [
    | inl e ↦ simp e (any-update (λ i. i.id) k.id (repoint_skipped job) q s.db.items f h)
    | inr e ↦ simp e (any-update (λ i. i.id) k.id (repoint_pending job file) q s.db.items g h)
  ]

  apply_keeps_new :
      (q : ImportItem → Bool) (o : Option ImportItem) (s : PageState)
      → any q s.to_insert ≡ true
      → any q (apply_file job file o s).to_insert ≡ true
  unfolding apply_file
  apply_keeps_new q none s h = any-append_left q s.to_insert (new_item job file ∷ []) h
  apply_keeps_new q (some k) s h = ground arith

  apply_covers :
      (o : Option ImportItem) (s : PageState)
      → ((k : ImportItem) → o ≡ some k → any (is_row job file.id k) s.db.items ≡ true)
      → Covered job file.id (apply_file job file o s)
  unfolding apply_file
  apply_covers none s h = inr (
      any-append_right (is_item_of job file.id) s.to_insert (new_item job file ∷ [])
        (rw (new_item_lem job file.id file refl) refl))
  apply_covers (some k) s h = elim (Bool-cases (is_unchanged k file)) [
    | inl e ↦ simp e (
        inl (
          any-update_hit (λ i. i.id) k.id (repoint_skipped job) (is_row job file.id k)
            (is_item_of job file.id) s.db.items (skipped_hits job file.id k) (h k refl)))
    | inr e ↦ simp e (
        inl (
          any-update_hit (λ i. i.id) k.id (repoint_pending job file) (is_row job file.id k)
            (is_item_of job file.id) s.db.items (pending_hits job file.id file k) (h k refl)))
  ]

module _ (job : ImportJob) (known : List ImportItem) where
  -- The known rows are still there.
  abbrev pub Intact : PageState → Type 0
  Intact s =
      (remote : ℕ) (k : ImportItem)
      → known_item job.event_id job.provider remote known ≡ some k
      → any (is_row job remote k) s.db.items ≡ true

  classify-Intact :
      (file : RemoteFile) (s : PageState) → Intact s → Intact (classify job known file s)
  unfolding classify
  classify-Intact file s h remote k e =
      apply_keeps job file (is_row job remote k)
        (known_item job.event_id job.provider file.id known) s (λ i r. r) (λ i r. r) (h remote k e)

  classify-Covered_keep :
      (file : RemoteFile) (s : PageState) (remote : ℕ)
      → Covered job remote s
      → Covered job remote (classify job known file s)
  unfolding classify
  classify-Covered_keep file s remote (inl h) = inl (
      apply_keeps job file (is_item_of job remote)
        (known_item job.event_id job.provider file.id known) s (skipped_keeps job remote)
        (pending_keeps job remote file) h)
  classify-Covered_keep file s remote (inr h) = inr (
      apply_keeps_new job file (is_item_of job remote)
        (known_item job.event_id job.provider file.id known) s h)

  classify-Covered :
      (file : RemoteFile) (s : PageState)
      → Intact s
      → Covered job file.id (classify job known file s)
  unfolding classify
  classify-Covered file s h = apply_covers job file _ s (h file.id)

  classify_all-Covered_keep :
      (files : List RemoteFile) (s : PageState) (remote : ℕ)
      → Covered job remote s
      → Covered job remote (classify_all job known files s)
  unfolding classify_all
  classify_all-Covered_keep [] s remote h = h
  classify_all-Covered_keep (f ∷ files) s remote h =
      classify_all-Covered_keep files (classify job known f s) remote
        (classify-Covered_keep f s remote h)

  pub classify_all-Covered :
      (files : List RemoteFile) (s : PageState)
      → Intact s
      → All (λ f. Covered job f.id (classify_all job known files s)) files
  unfolding classify_all
  classify_all-Covered [] s h = tt
  classify_all-Covered (f ∷ files) s h = (
    classify_all-Covered_keep files (classify job known f s) f.id (classify-Covered f s h),
    classify_all-Covered files (classify job known f s) (classify-Intact f s h),
  )
