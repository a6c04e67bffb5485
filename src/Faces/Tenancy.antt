-- ===== src/Faces/Tenancy.antt =====
-- The events of faces and of persons, across handleRecognizeFaces
-- (apps/backend/src/services/face.service.ts, repositories/face-search.repository.ts).
use event_media_platform.Prelude.{
  ℕ, ◌≡◌, refl, sym, ap, ◌∙◌, inl, inr, Bool, true, false, not, ◌&&◌, ◌||◌, List, [], ◌∷◌, Option,
  none, some, arith, ltb, leb, ◌==◌, ==_refl, filter, find, any, every, Bool-cases, Option-cases,
  update_by, take, sort_by, any-update_by,
}
use event_media_platform.Prelude.{every-weaken, every-filter, every-take, every-sort}
use mathlib.Core.Option.{some-injective}
use event_media_platform.Prelude.Result.{Holds}
use event_media_platform.Prelude.Held.{Held, every-Held}
use event_media_platform.Faces.Rows.{AssetFace, FaceAsset, FaceDb}
use event_media_platform.Faces.People.{
  Person, PeopleDb, asset_of, is_in, is_candidate, search_faces, reassign_face, take_name, Claim,
  latest_claim, claims_on, name_from_participants,
}
use event_media_platform.Faces.Recognize.{first_person, assign, create_person, settle}

-- The event has a person of the id.
abbrev pub person_in : ℕ → List Person → ℕ → Bool
person_in event people p = any (λ q. q.id == p && q.event_id == event) people

abbrev pub belongs : Option ℕ → Option FaceAsset → List Person → Bool
belongs none asset people = true
belongs (some p) none people = true
belongs (some p) (some a) people = person_in a.event_id people p

-- The person of a face is one of the event of its photo.
abbrev pub is_separate : PeopleDb → AssetFace → Bool
is_separate db f = belongs f.person_id (asset_of f db.rows) db.people

abbrev pub all_separate : PeopleDb → Bool
all_separate db = every (is_separate db) db.rows.faces

-- PRIMARY KEY (id): rows of one id are of one photo.
abbrev pub has_keys : List AssetFace → Bool
has_keys faces =
    every (λ f. every (λ g. not (g.id == f.id) || g.asset_id == f.asset_id) faces) faces

abbrev pub is_match_in : ℕ → List Person → AssetFace → Bool
is_match_in event people f = elim f.person_id [ none ↦ true | some p ↦ person_in event people p ]

candidate-matches :
    (event : ℕ) (has_person : Bool) (db : PeopleDb) (f : AssetFace)
    → is_separate db f ≡ true
    → is_candidate event has_person db.rows f ≡ true
    → is_match_in event db.people f ≡ true
candidate-matches event has_person db f h k = go f.person_id (asset_of f db.rows) h (ground arith)
  where
    go :
        (p : Option ℕ) (a : Option FaceAsset)
        → belongs p a db.people ≡ true
        → is_in event a ≡ true
        → elim p [ none ↦ true | some q ↦ person_in event db.people q ] ≡ true
    go none a h k = refl
    go (some p) none h k = cc
    go (some p) (some a) h k =
        let same : a.event_id ≡ event = ground arith in
        ap (λ e. person_in e db.people p) (sym same) ∙ h

pub search-matches :
    (distance : ℕ → ℕ) (event num max_distance : ℕ) (has_person : Bool) (db : PeopleDb)
    → all_separate db ≡ true
    → Holds
        (λ found. every (is_match_in event db.people) found ≡ true)
        (search_faces distance event num max_distance has_person db.rows)
unfolding search_faces
search-matches distance event num max_distance has_person db h =
    elim (Bool-cases (ltb num 1 || ltb 1000 num)) [
      | inl e ↦ rw (Holds, e) tt
      | inr e ↦
          let p = is_match_in event db.people in
          let candidates = filter (is_candidate event has_person db.rows) db.rows.faces in
          let ordered = sort_by (λ f. distance f.id) candidates in
          let all =
            every-filter (is_separate db) (is_candidate event has_person db.rows) p db.rows.faces
              (candidate-matches event has_person db) h in
          rw (Holds, e)
            (every-filter p (λ f. leb (distance f.id) max_distance) p (take num ordered)
              (λ f k l. k)
              (every-take p num ordered (every-sort p (λ f. distance f.id) candidates ∙ all)))
    ]

first-matches :
    (event : ℕ) (people : List Person) (faces : List AssetFace) (p : ℕ)
    → every (is_match_in event people) faces ≡ true
    → first_person faces ≡ some p
    → person_in event people p ≡ true
unfolding first_person
first-matches event people [] p h e = cc
first-matches event people (f ∷ faces) p h e = elim (Option-cases f.person_id) [
  | inl n ↦ first-matches event people faces p (ground arith) (rw (first_person, n) at e)
  | inr (q, n) ↦
      let same : q ≡ p = some-injective q p (rw (first_person, n) at e) in
      let head : is_match_in event people f ≡ true = ground arith in
      ap (person_in event people) (sym same) ∙ rw n at head
]

pub first_in :
    (event : ℕ) (people : List Person) (faces : List AssetFace)
    → every (is_match_in event people) faces ≡ true
    → elim (first_person faces) [ none ↦ true | some q ↦ person_in event people q ] ≡ true
first_in event people faces h = elim (Option-cases (first_person faces)) [
  | inl e ↦ rw e refl
  | inr (p, e) ↦ rw e (first-matches event people faces p h e)
]

every-update_by :
    (s : AssetFace → Bool) (face : ℕ) (g : AssetFace → AssetFace) (faces : List AssetFace)
    → ((f : AssetFace) → Held f faces → (f.id == face) ≡ true → s (g f) ≡ true)
    → every s faces ≡ true
    → every s (update_by (λ f. f.id) face g faces) ≡ true
every-update_by s face g [] k h = refl
every-update_by s face g (f ∷ faces) k h = elim (Bool-cases (f.id == face)) [
  | inl e ↦
      rw (e, k f (inl refl) e) (every-update_by s face g faces (λ x m. k x (inr m)) (ground arith))
  | inr e ↦ ground (arith, e, every-update_by s face g faces (λ x m. k x (inr m)))
]

-- The face that is assigned is of the event of the person.
reassign-separate :
    (f : AssetFace) (a : FaceAsset) (p : ℕ) (db : PeopleDb)
    → Held f db.rows.faces
    → has_keys db.rows.faces ≡ true
    → asset_of f db.rows ≡ some a
    → person_in a.event_id db.people p ≡ true
    → all_separate db ≡ true
    → all_separate (reassign_face f.id p db) ≡ true
unfolding reassign_face asset_of
reassign-separate f a p db held keys at there h =
    every-update_by (is_separate db) f.id (λ g. record g { person_id = some p }) db.rows.faces
      (λ g m e.
        let row =
          every-Held
            (λ x. every (λ g. not (g.id == x.id) || g.asset_id == x.asset_id) db.rows.faces) f
            db.rows.faces keys held in
        let one =
          every-Held (λ g. not (g.id == f.id) || g.asset_id == f.asset_id) g db.rows.faces row m in
        let same : g.asset_id ≡ f.asset_id = ground (arith, one) in
        ap (λ i. belongs (some p) (find (λ a. a.id == i) db.rows.assets) db.people) same
        ∙ ap (λ o. belongs (some p) o db.people) at
        ∙ there)
      h

-- More persons, or persons with the same ids and events, change nothing.
people-separate :
    (db : PeopleDb) (rows : FaceDb) (people : List Person)
    → rows.assets ≡ db.rows.assets
    → rows.faces ≡ db.rows.faces
    → ((event p : ℕ) → person_in event db.people p ≡ true → person_in event people p ≡ true)
    → all_separate db ≡ true
    → every
        (λ f. belongs f.person_id (find (λ a. a.id == f.asset_id) rows.assets) people)
        rows.faces
      ≡ true
unfolding asset_of
people-separate db rows people assets faces more h =
    ap
      (λ fs.
        every (λ f. belongs f.person_id (find (λ a. a.id == f.asset_id) rows.assets) people) fs)
      faces
    ∙ ap
        (λ rs.
          every (λ f. belongs f.person_id (find (λ a. a.id == f.asset_id) rs) people) db.rows.faces)
        assets
    ∙ every-weaken (is_separate db)
        (λ f. belongs f.person_id (find (λ a. a.id == f.asset_id) db.rows.assets) people)
        db.rows.faces (λ f k. grow f.person_id (find (λ a. a.id == f.asset_id) db.rows.assets) k) h
  where
    grow :
        (p : Option ℕ) (a : Option FaceAsset)
        → belongs p a db.people ≡ true
        → belongs p a people ≡ true
    grow none a k = refl
    grow (some p) none k = refl
    grow (some p) (some a) k = more a.event_id p k

take_name-keeps :
    (event : ℕ) (c : Claim) (e k : ℕ) (p : Person)
    → ((take_name event c p).id == k && (take_name event c p).event_id == e)
      ≡ (p.id == k && p.event_id == e)
take_name-keeps event c e k p = ground arith

name-separate :
    (event person : ℕ) (db : PeopleDb)
    → all_separate db ≡ true
    → all_separate (name_from_participants event person db) ≡ true
unfolding name_from_participants asset_of
name-separate event person db h = elim (Option-cases (latest_claim (claims_on person db))) [
  | inl e ↦ rw (all_separate, name_from_participants, e) h
  | inr (c, e) ↦
      rw (all_separate, name_from_participants, e)
        (people-separate db db.rows (update_by (λ p. p.id) person (take_name event c) db.people)
          refl refl
          (λ x p k.
            any-update_by (λ q. q.id == p && q.event_id == x) (λ p. p.id) person (take_name event c)
              db.people (take_name-keeps event c x p)
            ∙ k)
          h)
]

assign-separate :
    (f : AssetFace) (a : FaceAsset) (p : ℕ) (db : PeopleDb)
    → Held f db.rows.faces
    → has_keys db.rows.faces ≡ true
    → asset_of f db.rows ≡ some a
    → person_in a.event_id db.people p ≡ true
    → all_separate db ≡ true
    → all_separate (assign f a p db) ≡ true
unfolding assign
assign-separate f a p db held keys at there h =
    name-separate a.event_id p (reassign_face f.id p db)
      (reassign-separate f a p db held keys at there h)

pub settle-separate :
    (f : AssetFace) (a : FaceAsset) (is_core : Bool) (p : Option ℕ) (db : PeopleDb)
    → Held f db.rows.faces
    → has_keys db.rows.faces ≡ true
    → asset_of f db.rows ≡ some a
    → elim p [ none ↦ true | some q ↦ person_in a.event_id db.people q ] ≡ true
    → all_separate db ≡ true
    → all_separate (settle f a is_core p db) ≡ true
unfolding settle create_person asset_of
settle-separate f a is_core (some p) db held keys at there h =
    assign-separate f a p db held keys at there h
settle-separate f a true none db held keys at there h =
    let (db', id) = create_person f a db in
    assign-separate f a id db' held keys at (rw (==_refl db.rows.next_id, ==_refl a.event_id) refl)
      (people-separate db db'.rows db'.people refl refl (λ event p k. ground (arith, k)) h)
settle-separate f a false none db held keys at there h = h
