-- ===== src/Examples/Upload.antt =====
-- The theorems about uploads at concrete inputs.
use event_media_platform.Prelude.{◌≤◌, ◌≡◌, refl, true, false, [], ◌∷◌, none, some, arith}
use event_media_platform.Prelude.Result.{ok}
use event_media_platform.Assets.Store.{Asset, AssetStatus, AssetSource, find_by_checksum}
use event_media_platform.Upload.Quota.{
  OrgPlan, Organization, Event, Db, limits_for, get_org_storage_bytes, get_event, get_org,
}
use event_media_platform.Upload.Service.{UploadEnv, duplicate, key_of, asset_of, upload_asset}
use event_media_platform.Upload.Answers.{IsPresent, upload-IsPresent}
use event_media_platform.Upload.Room.{upload_keeps_quota}

abbrev org : Organization
org = record {
  id = 4;
  plan = OrgPlan.pro;
  storage_limit_bytes = some 100;
  event_limit = none;
  deleted = false;
}

abbrev event : Event
event = record { id = 3; org_id = 4; deleted = false }

abbrev rows : Db
rows = record {
  orgs = org ∷ [];
  events = event ∷ [];
  assets = asset_of event 1 55 60 ∷ [];
  objects = key_of event 1 ∷ [];
  queue = [];
  next_id = 10;
}

-- Another request stores the same content in between.
abbrev raced : UploadEnv
raced = record {
  stores = true;
  rival = some (asset_of event 8 66 30);
  inserts = true;
  deletes = true;
}

abbrev alone : UploadEnv
alone = record { stores = true; rival = none; inserts = true; deletes = true }

lost_race : (upload_asset raced 3 66 30 rows).1 ≡ ok (duplicate 8)
unfolding upload_asset get_event find_by_checksum
    event_media_platform.Upload.Quota.assert_storage_available get_org get_org_storage_bytes
    limits_for event_media_platform.Assets.Store.create
lost_race = refl

upload-IsPresent_example : IsPresent 3 66 (duplicate 8) (upload_asset raced 3 66 30 rows).0
upload-IsPresent_example = upload-IsPresent raced 3 66 30 rows (duplicate 8) lost_race

within_limit : get_org_storage_bytes 4 rows ≤ (limits_for org).storage_bytes
unfolding get_org_storage_bytes limits_for
within_limit = omega arith

upload_keeps_quota_example :
    get_org_storage_bytes 4 (upload_asset alone 3 66 30 rows).0 ≤ (limits_for org).storage_bytes
unfolding get_event get_org
upload_keeps_quota_example =
    upload_keeps_quota alone 3 66 30 rows event org refl refl refl within_limit
