-- ===== src/Faces/AllQueued.antt =====
-- The loop of handleQueueRecognizeFaces over the pages of faces without a person
-- (apps/backend/src/services/face.service.ts).
use event_media_platform.Prelude.{
  ℕ, zero, suc, ◌≤◌, ◌≡◌, refl, sym, ap, ◌∙◌, inl, inr, Bool, true, false, not, ◌&&◌, List, [], ◌∷◌,
  ◌++◌, map, Option, none, some, arith, ltb, leb, ◌==◌, filter, any, every, length, Bool-cases,
  take, last?, sort_by, insert_by, any-sort, every-weaken, every-insert, length-append,
}
use mathlib.Core.List.{append_assoc, append-nil, map-append}
use Prim.{absurd}
use event_media_platform.Faces.Rows.{AssetFace}
use event_media_platform.Faces.People.{PersonJob, PeopleDb}
use event_media_platform.Faces.Queueing.{
  detach, unassign_by_event, let_go, delete_people, get_all_without_faces, handle_person_cleanup,
  is_unassigned, unassigned_ids, after_id, get_unassigned_face_ids, recognize_job, queue_pages,
  prepare, handle_queue_recognize_faces,
}

abbrev pub is_distinct : List ℕ → Bool
is_distinct [] = true
is_distinct (i ∷ ids) = not (any (λ j. j == i) ids) && is_distinct ids

abbrev is_ascending : List ℕ → Bool
is_ascending [] = true
is_ascending (i ∷ ids) = every (λ j. ltb i j) ids && is_ascending ids

insert-ascending :
    (i : ℕ) (ids : List ℕ)
    → any (λ j. j == i) ids ≡ false
    → is_ascending ids ≡ true
    → is_ascending (insert_by (λ j. j) i ids) ≡ true
insert-ascending i [] n h = refl
insert-ascending i (j ∷ ids) n h = elim (Bool-cases (leb i j)) [
  | inl e ↦
      let less : ltb i j ≡ true = ground arith in
      let all =
        every-weaken (λ k. ltb j k) (λ k. ltb i k) ids (λ k t. ground arith) (ground arith) in
      rw e (ground (arith, less, all))
  | inr e ↦
      let less : ltb j i ≡ true = ground arith in
      rw e
        (ground (arith, less, every-insert (λ k. ltb j k) (λ k. k) i ids, insert-ascending i ids))
]

any-sorted :
    (i : ℕ) (ids : List ℕ)
    → any (λ j. j == i) ids ≡ false
    → any (λ j. j == i) (sort_by (λ j. j) ids) ≡ false
any-sorted i ids h = any-sort (λ j. j) (λ j. j == i) ids ∙ h

sort-ascending :
    (ids : List ℕ) → is_distinct ids ≡ true → is_ascending (sort_by (λ i. i) ids) ≡ true
sort-ascending [] h = refl
sort-ascending (i ∷ ids) h =
    insert-ascending i (sort_by (λ j. j) ids) (any-sorted i ids (ground arith))
      (sort-ascending ids (ground arith))

-- What stands behind an id of an ascending list is what is larger.
larger-all :
    (z : ℕ) (ids : List ℕ) → every (λ j. ltb z j) ids ≡ true → filter (λ i. ltb z i) ids ≡ ids
larger-all z [] h = refl
larger-all z (i ∷ ids) h =
    let first : ltb z i ≡ true = ground arith in
    rw (first, filter) (ap (λ rest. i ∷ rest) (larger-all z ids (ground arith)))

last_larger :
    (i z : ℕ) (earlier later : List ℕ)
    → every (λ j. ltb i j) (earlier ++ (z ∷ later)) ≡ true
    → ltb i z ≡ true
last_larger i z [] later h = ground arith
last_larger i z (e ∷ earlier) later h = last_larger i z earlier later (ground arith)

filter-larger :
    (earlier : List ℕ) (z : ℕ) (later : List ℕ)
    → is_ascending (earlier ++ (z ∷ later)) ≡ true
    → filter (λ i. ltb z i) (earlier ++ (z ∷ later)) ≡ later
filter-larger [] z later h =
    let self : ltb z z ≡ false = ground arith in
    rw (self, filter) (larger-all z later (ground arith))
filter-larger (e ∷ earlier) z later h =
    let less = last_larger e z earlier later (ground arith) in
    let out : ltb z e ≡ false = ground arith in
    rw (out, filter) (filter-larger earlier z later (ground arith))

-- A page that is not empty has a last id.
page_split :
    (n i : ℕ) (ids : List ℕ)
    → (init : List ℕ) × (z : ℕ) × (later : List ℕ) × (i ∷ ids ≡ init ++ (z ∷ later))
      × (take (suc n) (i ∷ ids) ≡ init ++ (z ∷ []))
      × (last? (take (suc n) (i ∷ ids)) ≡ some z)
page_split zero i ids = ([], i, ids, refl, refl, refl)
page_split (suc n) i [] = ([], i, [], refl, refl, refl)
page_split (suc n) i (j ∷ ids) =
    let (init, z, later, e, t, l) = page_split n j ids in
    (i ∷ init, z, later, ap (λ rest. i ∷ rest) e, ap (λ rest. i ∷ rest) t, l)

fewer_left :
    (init : List ℕ) (z : ℕ) (later rest : List ℕ) (m : ℕ)
    → rest ≡ init ++ (z ∷ later)
    → length rest ≤ suc m
    → length later ≤ m
fewer_left init z later rest m e l =
    let all = length-append init (z ∷ later) in let bound = rw e at l in omega (arith, all, bound)

-- The jobs of a page and of what is behind it are the jobs of both.
jobs_of_both :
    (jobs : List PersonJob) (page init : List ℕ) (z : ℕ) (later rest : List ℕ)
    → page ≡ init ++ (z ∷ [])
    → rest ≡ init ++ (z ∷ later)
    → (jobs ++ map recognize_job page) ++ map recognize_job later ≡ jobs ++ map recognize_job rest
jobs_of_both jobs page init z later rest t e =
    append_assoc jobs (map recognize_job page) (map recognize_job later)
    ∙ ap (λ ids. jobs ++ ids)
        (sym (map-append recognize_job page later)
          ∙ ap (λ ids. map recognize_job (ids ++ later)) t
          ∙ ap (map recognize_job) (append_assoc init (z ∷ []) later ∙ sym e))

queue-step :
    (rounds : ℕ) (fetch : Option ℕ → List ℕ) (after : Option ℕ) (page : List ℕ) (z : ℕ)
    (jobs : List PersonJob)
    → fetch after ≡ page
    → last? page ≡ some z
    → queue_pages (suc rounds) fetch after jobs
      ≡ queue_pages rounds fetch (some z) (jobs ++ map recognize_job page)
unfolding queue_pages
queue-step rounds fetch after page z jobs f l = rw (queue_pages, f, l, f) refl

module _ (n : ℕ) (ids : List ℕ) (ascending : is_ascending ids ≡ true) where
  abbrev fetch_page : Option ℕ → List ℕ
  fetch_page after = take (suc n) (after_id after ids)

  pages-all :
      (rounds : ℕ) (after : Option ℕ) (earlier rest : List ℕ) (jobs : List PersonJob)
      → ids ≡ earlier ++ rest
      → after_id after ids ≡ rest
      → length rest ≤ rounds
      → queue_pages rounds fetch_page after jobs ≡ jobs ++ map recognize_job rest
  unfolding queue_pages
  pages-all zero after earlier [] jobs e f l = sym (append-nil jobs)
  pages-all zero after earlier (i ∷ rest) jobs e f l = absurd (omega (arith, l))
  pages-all (suc rounds) after earlier [] jobs e f l = rw (queue_pages, f) (sym (append-nil jobs))
  pages-all (suc rounds) after earlier (i ∷ rest) jobs e f l =
      let (init, z, later, e₁, t, last) = page_split n i rest in
      let at_z : ids ≡ (earlier ++ init) ++ (z ∷ later) =
        e ∙ ap (λ rest. earlier ++ rest) e₁ ∙ sym (append_assoc earlier init (z ∷ later)) in
      let behind : after_id (some z) ids ≡ later =
        ap (filter (λ i. ltb z i)) at_z
        ∙ filter-larger (earlier ++ init) z later (ap is_ascending (sym at_z) ∙ ascending) in
      queue-step rounds fetch_page after (take (suc n) (i ∷ rest)) z jobs (ap (take (suc n)) f) last
      ∙ pages-all rounds (some z) ((earlier ++ init) ++ (z ∷ [])) later
          (jobs ++ map recognize_job (take (suc n) (i ∷ rest)))
          (at_z ∙ sym (append_assoc (earlier ++ init) (z ∷ []) later)) behind
          (fewer_left init z later (i ∷ rest) rounds e₁ l)
      ∙ jobs_of_both jobs (take (suc n) (i ∷ rest)) init z later (i ∷ rest) t e₁

distinct-filter :
    (p : AssetFace → Bool) (faces : List AssetFace)
    → is_distinct (map (λ f. f.id) faces) ≡ true
    → is_distinct (map (λ f. f.id) (filter p faces)) ≡ true
distinct-filter p [] h = refl
distinct-filter p (f ∷ faces) h = ground (arith, distinct-filter p faces, absent f.id faces)
  where
    absent :
        (i : ℕ) (faces : List AssetFace)
        → any (λ j. j == i) (map (λ f. f.id) faces) ≡ false
        → any (λ j. j == i) (map (λ f. f.id) (filter p faces)) ≡ false
    absent i [] k = refl
    absent i (g ∷ faces) k = ground (arith, absent i faces)

-- The ids stay when persons are taken from faces.
same_ids :
    (g : AssetFace → AssetFace) (faces : List AssetFace)
    → ((f : AssetFace) → (g f).id ≡ f.id)
    → map (λ f. f.id) (map g faces) ≡ map (λ f. f.id) faces
same_ids g [] same = refl
same_ids g (f ∷ faces) same = rw (same f) (ap (λ rest. f.id ∷ rest) (same_ids g faces same))

prepare-ids :
    (event : ℕ) (force : Bool) (db : PeopleDb)
    → map (λ f. f.id) (prepare event force db).rows.faces ≡ map (λ f. f.id) db.rows.faces
unfolding prepare unassign_by_event handle_person_cleanup delete_people
prepare-ids event false db = refl
prepare-ids event true db =
    same_ids (let_go (get_all_without_faces (unassign_by_event event db)))
      (map (detach event db.rows) db.rows.faces) (λ f. ground arith)
    ∙ same_ids (detach event db.rows) db.rows.faces (λ f. ground arith)

-- With as many rounds as there are faces without a person, the loop comes to its end: every such
-- face of the event is queued for recognition, each once and in the order of the ids, and after
-- them the matching of the participants.
pub all_unassigned-AreQueued :
    (rounds event : ℕ) (force : Bool) (db : PeopleDb)
    → is_distinct (map (λ f. f.id) db.rows.faces) ≡ true
    → length (unassigned_ids event (prepare event force db).rows) ≤ rounds
    → (handle_queue_recognize_faces rounds event force db).jobs
      ≡ ((prepare event force db).jobs
          ++ map recognize_job (unassigned_ids event (prepare event force db).rows))
        ++ (PersonJob.participant_rematch event ∷ [])
unfolding handle_queue_recognize_faces get_unassigned_face_ids unassigned_ids
all_unassigned-AreQueued rounds event force db h l =
    let db' = prepare event force db in
    let distinct =
      distinct-filter (is_unassigned event db'.rows) db'.rows.faces
        (ap is_distinct (prepare-ids event force db) ∙ h) in
    let ids = unassigned_ids event db'.rows in
    ap (λ jobs. jobs ++ (PersonJob.participant_rematch event ∷ []))
      (pages-all 999 ids
        (sort-ascending (map (λ f. f.id) (filter (is_unassigned event db'.rows) db'.rows.faces))
          distinct)
        rounds none [] ids db'.jobs refl refl l)
