-- ===== src/Upload/Answers.antt =====
-- What an upload (upload.service.ts) leaves behind: the content that it answered for, and the quota.
use event_media_platform.Prelude.{
  ℕ, ◌≡◌, refl, sym, ap, ◌∙◌, inl, inr, not, ◌&&◌, Option, none, some, arith, ◌==◌, Bool-cases,
  Option-cases,
}
use event_media_platform.Prelude.{find_holds}
use event_media_platform.Prelude.Result.{Result, ok, throws}
use event_media_platform.Assets.Store.{Asset, find_by_checksum, create, find-create}
use event_media_platform.Upload.Quota.{Event, Db, get_event, assert_storage_available}
use event_media_platform.Upload.Service.{
  UploadEnv, UploadResult, created, duplicate, asset_of, drop_object, answer_race, insert_upload,
  store_upload, upload_asset,
}

abbrev pub answered_id : UploadResult → ℕ
answered_id (created id) = id
answered_id (duplicate id) = id

-- The content is in the event, in the asset that was answered.
abbrev pub IsPresent : ℕ → ℕ → UploadResult → Db → Type 0
IsPresent event checksum answer db =
    (a : Asset) × (find_by_checksum event checksum db.assets ≡ some a) × (a.id ≡ answered_id answer)

race-IsPresent :
    (event checksum : ℕ) (db : Db) (answer : UploadResult) (w : Option Asset)
    → find_by_checksum event checksum db.assets ≡ w
    → answer_race w ≡ ok answer
    → IsPresent event checksum answer db
unfolding answer_race
race-IsPresent event checksum db answer none e h = cc
race-IsPresent event checksum db answer (some a) e h = (a, e, ground arith)

insert_upload-IsPresent :
    (env : UploadEnv) (e : Event) (id checksum size : ℕ) (db : Db) (answer : UploadResult)
    → (insert_upload env e id checksum size db).1 ≡ ok answer
    → IsPresent e.id checksum answer (insert_upload env e id checksum size db).0
unfolding insert_upload
insert_upload-IsPresent env e id checksum size db answer h = elim (Bool-cases env.inserts) [
  | inr g ↦ cc (rw (g, insert_upload) at h)
  | inl g ↦ elim (Option-cases (create (asset_of e id checksum size) db.assets)) [
    | inr (rows, f) ↦
        rw (g, f, insert_upload)
          (
            asset_of e id checksum size,
            find-create (asset_of e id checksum size) db.assets refl f,
            ground (arith, rw (g, f, insert_upload) at h),
          )
    | inl f ↦
        rw (g, f, insert_upload)
          (race-IsPresent e.id checksum (drop_object env.deletes id db) answer _ refl
            (rw (g, f, insert_upload) at h))
  ]
]

store_upload-IsPresent :
    (env : UploadEnv) (e : Event) (checksum size : ℕ) (db : Db) (answer : UploadResult)
    → (store_upload env e checksum size db).1 ≡ ok answer
    → IsPresent e.id checksum answer (store_upload env e checksum size db).0
unfolding store_upload
store_upload-IsPresent env e checksum size db answer h = elim (Bool-cases env.stores) [
  | inr f ↦ cc (rw (f, store_upload) at h)
  | inl f ↦
      rw (f, store_upload)
        (insert_upload-IsPresent env e db.next_id checksum size _ answer
          (rw (f, store_upload) at h))
]

found_id : (event : ℕ) (db : Db) (e : Event) → get_event event db ≡ some e → e.id ≡ event
unfolding get_event
found_id event db e h =
    ground (arith, find_holds (λ e. e.id == event && not e.deleted) db.events {x = e} h)

-- An upload that is answered has its content in the event, in the live asset whose id is answered,
-- also when another request stored the same content first.
pub upload-IsPresent :
    (env : UploadEnv) (event checksum size : ℕ) (db : Db) (answer : UploadResult)
    → (upload_asset env event checksum size db).1 ≡ ok answer
    → IsPresent event checksum answer (upload_asset env event checksum size db).0
unfolding upload_asset
upload-IsPresent env event checksum size db answer h = elim (Option-cases (get_event event db)) [
  | inl f ↦ cc (rw (f, upload_asset) at h)
  | inr (e, f) ↦ elim (Option-cases (find_by_checksum event checksum db.assets)) [
    | inr (a, g) ↦ rw (f, upload_asset) (rw g (a, g, ground (arith, rw (f, upload_asset, g) at h)))
    | inl g ↦ go e f g (assert_storage_available e.org_id size db) refl
  ]
]
  where
    go :
        (e : Event)
        → get_event event db ≡ some e
        → find_by_checksum event checksum db.assets ≡ none
        → (q : Result (Unit {0})) → assert_storage_available e.org_id size db ≡ q
        → IsPresent event checksum answer (upload_asset env event checksum size db).0
    go e f g (throws x) q = cc (rw (f, upload_asset, g, q) at h)
    go e f g (ok t) q =
        let same = found_id event db e f in
        let present =
          store_upload-IsPresent env e checksum size db answer (rw (f, upload_asset, g, q) at h) in
        rw (f, upload_asset)
          (rw g (
            rw q (
              present.0,
              ap (λ n. find_by_checksum n checksum (store_upload env e checksum size db).0.assets)
                    (sym same)
                  ∙ present.1,
              present.2,
            )))
