-- ===== src/Upload/Quota.antt =====
-- The limits of an organization and what it uses (apps/backend/src/services/quota.service.ts).
use event_media_platform.Prelude.{
  ℕ, ◌+◌, ◌-◌, ◌*◌, Bool, not, ◌&&◌, List, Option, none, some, ltb, leb, ◌==◌, if◌then◌else◌,
  filter, find, any, sum_by, length,
}
use event_media_platform.Prelude.Result.{Result, ok, throws, bad_request}
use event_media_platform.Assets.Store.{Asset, ObjectKey}

pub data OrgPlan : Type 0 where
  starter pro enterprise : OrgPlan

pub record Limits : Type 0 where
  pub storage_bytes : ℕ
  pub events : ℕ

-- PLAN_LIMITS
unfoldable pub plan_limits : OrgPlan → Limits
plan_limits starter = record { storage_bytes = 2 * 1073741824; events = 1 }
plan_limits pro = record { storage_bytes = 10 * 1073741824; events = 5 }
plan_limits enterprise = record { storage_bytes = 50 * 1073741824; events = 10 }

pub record Organization : Type 0 where
  pub id : ℕ
  pub plan : OrgPlan
  pub storage_limit_bytes : Option ℕ
  pub event_limit : Option ℕ
  pub deleted : Bool

pub record Event : Type 0 where
  pub id : ℕ
  pub org_id : ℕ
  pub deleted : Bool

pub record Db : Type 0 where
  pub orgs : List Organization
  pub events : List Event
  pub assets : List Asset
  pub objects : List ObjectKey
  pub queue : List ℕ
  pub next_id : ℕ

abbrev pub or_else : Option ℕ → ℕ → ℕ
or_else none n = n
or_else (some m) n = m

-- limitsFor
unfoldable pub limits_for : Organization → Limits
limits_for org = record {
  storage_bytes = or_else org.storage_limit_bytes (plan_limits org.plan).storage_bytes;
  events = or_else org.event_limit (plan_limits org.plan).events;
}

-- getById of the organizations
unfoldable pub get_org : ℕ → Db → Option Organization
get_org id db = find (λ o. o.id == id && not o.deleted) db.orgs

-- getById of the events
unfoldable pub get_event : ℕ → Db → Option Event
get_event id db = find (λ e. e.id == id && not e.deleted) db.events

-- The join of asset and event in getOrgStorageBytes.
abbrev pub counts_for : ℕ → List Event → Asset → Bool
counts_for org events a =
    not a.deleted && any (λ e. e.id == a.event_id && (e.org_id == org && not e.deleted)) events

-- getOrgStorageBytes
unfoldable pub get_org_storage_bytes : ℕ → Db → ℕ
get_org_storage_bytes org db =
    sum_by (λ a. a.file_size) (filter (counts_for org db.events) db.assets)

-- countForOrg
unfoldable pub count_for_org : ℕ → Db → ℕ
count_for_org org db = length (filter (λ e. e.org_id == org && not e.deleted) db.events)

pub record QuotaStatus : Type 0 where
  pub used_bytes : ℕ
  pub limit_bytes : ℕ
  pub remaining_bytes : ℕ
  pub used_events : ℕ
  pub limit_events : ℕ
  pub remaining_events : ℕ

-- `Math.max(0, limit - used)` is the subtraction that stops at 0.
abbrev pub status_of : Limits → ℕ → ℕ → QuotaStatus
status_of limits bytes events = record {
  used_bytes = bytes;
  limit_bytes = limits.storage_bytes;
  remaining_bytes = limits.storage_bytes - bytes;
  used_events = events;
  limit_events = limits.events;
  remaining_events = limits.events - events;
}

-- getStatus
unfoldable pub get_status : ℕ → Db → Result QuotaStatus
get_status org db = elim (get_org org db) [
  | none ↦ throws bad_request
  | some o ↦ ok (status_of (limits_for o) (get_org_storage_bytes org db) (count_for_org org db))
]

-- assertStorageAvailable
unfoldable pub assert_storage_available : ℕ → ℕ → Db → Result (Unit {0})
unfolding get_status
assert_storage_available org incoming db = elim (get_status org db) [
  | throws x ↦ throws x
  | ok s ↦ if leb (s.used_bytes + incoming) s.limit_bytes then ok tt else throws bad_request
]

-- assertEventAvailable
unfoldable pub assert_event_available : ℕ → Db → Result (Unit {0})
unfolding get_status
assert_event_available org db = elim (get_status org db) [
  | throws x ↦ throws x
  | ok s ↦ if ltb s.used_events s.limit_events then ok tt else throws bad_request
]
