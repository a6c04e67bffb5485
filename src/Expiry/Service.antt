-- ===== src/Expiry/Service.antt =====
-- The operations of apps/backend/src/services/event-expiry.service.ts.
use event_media_platform.Prelude.{
  ℕ, Bool, false, not, ◌||◌, List, [], ◌∷◌, ◌++◌, Option, none, some, leb, ◌==◌, if◌then◌else◌,
}
use event_media_platform.Prelude.Result.{Result, ok, throws, not_found, bad_request}
use event_media_platform.Enum.{JobStatus, success}
use event_media_platform.Expiry.Rows.{
  EventRow, QueuedJob, send_event_expiry, cleanup_prefix, Db, is_event_expired, is_event_purged,
  purge_deadline, get_by_id, set_expiry_state, get_by_slug, time_of, find_newly_expired,
  find_due_for_purge,
}

abbrev pub enqueue : QueuedJob → Db → Db
enqueue job db = record db { queue = db.queue ++ (job ∷ []) }

-- getEvent
unfoldable pub get_event : ℕ → ℕ → Db → Result EventRow
get_event org id db = elim (get_by_id id db) [
  | none ↦ throws not_found
  | some e ↦ if e.deleted || not (e.org_id == org) then throws not_found else ok e
]

abbrev pub extended : Option ℕ → EventRow → EventRow
extended expires e = record e {
  expires_at = expires;
  expiry_notified_at = none;
  expiry_acknowledged_at = none;
  purge_after = none;
}

-- `expiresAt && expiresAt.getTime() <= Date.now()`
abbrev pub is_not_future : ℕ → Option ℕ → Bool
is_not_future now none = false
is_not_future now (some t) = leb t now

-- extend
unfoldable pub extend : ℕ → ℕ → ℕ → Option ℕ → Db → Result Db
extend now org id expires db = elim (get_event org id db) [
  | throws x ↦ throws x
  | ok e ↦
      if is_event_purged e
      then throws bad_request
      else if is_not_future now expires
      then throws bad_request
      else ok (set_expiry_state id (extended expires) db)
]

-- acknowledge
unfoldable pub acknowledge : ℕ → ℕ → ℕ → Db → Result Db
acknowledge now org id db = elim (get_event org id db) [
  | throws x ↦ throws x
  | ok e ↦
      if not (is_event_expired now e)
      then throws bad_request
      else ok (set_expiry_state id (λ r. record r { expiry_acknowledged_at = some now }) db)
]

-- purge
unfoldable pub purge : EventRow → Db → Db
purge e db = enqueue (cleanup_prefix e.org_id e.id) db

abbrev pub purged : ℕ → EventRow → EventRow
purged now e = record e { purged_at = some now; purge_after = none }

-- purgeNow
unfoldable pub purge_now : ℕ → ℕ → ℕ → Db → Result Db
unfolding purge
purge_now now org id db = elim (get_event org id db) [
  | throws x ↦ throws x
  | ok e ↦
      if not (is_event_expired now e)
      then throws bad_request
      else if is_event_purged e
      then ok db
      else ok (set_expiry_state id (purged now) (purge e db))
]

abbrev pub notified : ℕ → ℕ → EventRow → EventRow → EventRow
notified now grace_hours event e = record e {
  expiry_notified_at = some now;
  purge_after = some (purge_deadline (time_of event.expires_at) grace_hours);
}

-- The loop of handleEventExpirySweep.
unfoldable pub notify_all : ℕ → ℕ → List EventRow → Db → Db
notify_all now grace_hours [] db = db
notify_all now grace_hours (event ∷ events) db = notify_all now grace_hours events (
    enqueue (send_event_expiry event.id)
      (set_expiry_state event.id (notified now grace_hours event) db))

-- handleEventExpirySweep
unfoldable pub event_expiry_sweep : ℕ → ℕ → Db → Db × JobStatus
unfolding notify_all
event_expiry_sweep now grace_hours db =
    (notify_all now grace_hours (find_newly_expired now db) db, success)

-- One event of handleEventPurgeSweep, read again.
unfoldable pub purge_if_due : ℕ → ℕ → Db → Db
unfolding purge
purge_if_due now id db = elim (get_by_id id db) [
  | none ↦ db
  | some e ↦
      if is_event_purged e || not (is_event_expired now e)
      then db
      else set_expiry_state e.id (purged now) (purge e db)
]

-- The loop of handleEventPurgeSweep; `meanwhile id` is what other requests did before the event was
-- read again.
unfoldable pub purge_all : ℕ → (ℕ → Db → Db) → List EventRow → Db → Db
unfolding purge_if_due
purge_all now meanwhile [] db = db
purge_all now meanwhile (event ∷ events) db =
    purge_all now meanwhile events (purge_if_due now event.id (meanwhile event.id db))

-- handleEventPurgeSweep
unfoldable pub event_purge_sweep : ℕ → (ℕ → Db → Db) → Db → Db × JobStatus
unfolding purge_all
event_purge_sweep now meanwhile db =
    (purge_all now meanwhile (find_due_for_purge now db) db, success)

-- The fields of UpdateEventDto that the rows have; `none` is a field that is not given.
pub record UpdateEventDto : Type 0 where
  pub slug : Option ℕ
  pub expires_at : Option (Option ℕ)

abbrev pub given {ℓ} : {A : Type ℓ} → Option A → A → A
given none old = old
given (some new) old = new

-- `dto.slug && dto.slug !== event.slug`, and another event has it.
unfoldable pub is_slug_taken : Option ℕ → EventRow → Db → Bool
is_slug_taken none e db = false
is_slug_taken (some slug) e db =
    if slug == e.slug
    then false
    else elim (get_by_slug slug db) [ none ↦ false | some other ↦ not (other.id == e.id) ]

abbrev pub updated : UpdateEventDto → EventRow → EventRow
updated dto e = record e {
  slug = given dto.slug e.slug;
  expires_at = given dto.expires_at e.expires_at;
}

-- update of apps/backend/src/services/event.service.ts
unfoldable pub update : ℕ → ℕ → UpdateEventDto → Db → Result Db
unfolding is_slug_taken
update org id dto db = elim (get_by_id id db) [
  | none ↦ throws not_found
  | some e ↦
      if not (e.org_id == org)
      then throws not_found
      else if is_slug_taken dto.slug e db
      then throws bad_request
      else ok (set_expiry_state id (updated dto) db)
]
