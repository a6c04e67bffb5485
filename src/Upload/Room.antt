-- ===== src/Upload/Room.antt =====
-- An upload (upload.service.ts) and the organization's quota (quota.service.ts).
use event_media_platform.Prelude.{
  ℕ, suc, ◌+◌, ◌≤◌, ◌≡◌, refl, inl, inr, List, ◌∷◌, Option, none, some, arith, Bool-cases,
  Option-cases,
}
use event_media_platform.Prelude.Result.{Result, ok, throws}
use event_media_platform.Assets.Store.{Asset, find_by_checksum, create}
use event_media_platform.Upload.Quota.{
  Organization, Event, Db, get_event, get_org, limits_for, get_org_storage_bytes, get_status,
  assert_storage_available,
}
use event_media_platform.Upload.Service.{
  UploadEnv, key_of, asset_of, insert_rival, drop_object, insert_upload, store_upload, upload_asset,
}

-- The room that was asserted.
assert_storage_available-room :
    (org size : ℕ) (db : Db) (o : Organization) {t : Unit {0}}
    → get_org org db ≡ some o
    → assert_storage_available org size db ≡ ok t
    → get_org_storage_bytes org db + size ≤ (limits_for o).storage_bytes
unfolding assert_storage_available get_status
assert_storage_available-room org size db o f h =
    ground (arith, rw (f, assert_storage_available, get_status) at h)

-- An insert adds at most its size to what an organization uses.
create-bytes :
    (org : ℕ) (a : Asset) (db : Db) {rows : List Asset}
    → create a db.assets ≡ some rows
    → get_org_storage_bytes org (record db { assets = rows })
      ≤ get_org_storage_bytes org db + a.file_size
unfolding get_org_storage_bytes create
create-bytes org a db h = ground arith

insert_upload-bytes :
    (env : UploadEnv) (e : Event) (id checksum size org : ℕ) (db : Db)
    → get_org_storage_bytes org (insert_upload env e id checksum size db).0
      ≤ get_org_storage_bytes org db + size
unfolding insert_upload
insert_upload-bytes env e id checksum size org db = elim (Bool-cases env.inserts) [
  | inr g ↦ rw (g, insert_upload) (omega arith)
  | inl g ↦ elim (Option-cases (create (asset_of e id checksum size) db.assets)) [
    | inr (rows, f) ↦
        rw (g, f, insert_upload)
          (unfold get_org_storage_bytes in
            create-bytes org (asset_of e id checksum size) db {rows = rows} f)
    | inl f ↦ rw (g, f, insert_upload) (unfold drop_object get_org_storage_bytes in ground arith)
  ]
]

insert_rival-bytes :
    (r : Option Asset) (org : ℕ) (db : Db)
    → r ≡ none
    → get_org_storage_bytes org (insert_rival r db) ≡ get_org_storage_bytes org db
unfolding insert_rival
insert_rival-bytes none org db n = refl
insert_rival-bytes (some a) org db n = cc

store_upload-bytes :
    (env : UploadEnv) (e : Event) (checksum size org : ℕ) (db : Db)
    → env.rival ≡ none
    → get_org_storage_bytes org (store_upload env e checksum size db).0
      ≤ get_org_storage_bytes org db + size
unfolding store_upload get_org_storage_bytes
store_upload-bytes env e checksum size org db n =
    let stored : Db = record db {
      objects = key_of e db.next_id ∷ db.objects;
      next_id = suc db.next_id;
    } in
    elim (Bool-cases env.stores) [
      | inr f ↦ simp f (omega arith)
      | inl f ↦ simp f (
          omega (
            arith,
            insert_upload-bytes env e db.next_id checksum size org (insert_rival env.rival stored),
            insert_rival-bytes env.rival org stored n,
          ))
    ]

-- With no other upload in between, an organization that is within its storage limit is within it
-- after any upload to one of its events.
pub upload_keeps_quota :
    (env : UploadEnv) (event checksum size : ℕ) (db : Db) (e : Event) (o : Organization)
    → env.rival ≡ none
    → get_event event db ≡ some e
    → get_org e.org_id db ≡ some o
    → get_org_storage_bytes e.org_id db ≤ (limits_for o).storage_bytes
    → get_org_storage_bytes e.org_id (upload_asset env event checksum size db).0
      ≤ (limits_for o).storage_bytes
unfolding upload_asset
upload_keeps_quota env event checksum size db e o n f g h =
    elim (Option-cases (find_by_checksum event checksum db.assets)) [
      | inr (a, d) ↦ rw (f, upload_asset) (rw d h)
      | inl d ↦ go d (assert_storage_available e.org_id size db) refl
    ]
  where
    go :
        find_by_checksum event checksum db.assets ≡ none
        → (q : Result (Unit {0})) → assert_storage_available e.org_id size db ≡ q
        → get_org_storage_bytes e.org_id (upload_asset env event checksum size db).0
          ≤ (limits_for o).storage_bytes
    go d (throws x) q = rw (f, upload_asset) (rw d (rw q h))
    go d (ok t) q =
        rw (f, upload_asset)
          (rw d (
            rw q (
              omega (
                arith,
                store_upload-bytes env e checksum size e.org_id db n,
                assert_storage_available-room e.org_id size db o {t = t} g q,
              ))))
