-- ===== src/Expiry/Rows.antt =====
-- The rows of event as far as their expiry goes, with the queries of
-- apps/backend/src/repositories/event.repository.ts and the tests of utils/event-expiry.ts.
-- Times are milliseconds.
use event_media_platform.Prelude.{
  ℕ, ◌+◌, ◌*◌, Bool, true, false, not, ◌&&◌, ◌||◌, List, Option, none, some, leb, ◌==◌, filter,
  find, update_by,
}
use event_media_platform.Prelude.{sort_by, take}

pub record EventRow : Type 0 where
  pub id : ℕ
  pub org_id : ℕ
  pub slug : ℕ
  pub expires_at : Option ℕ
  pub expiry_notified_at : Option ℕ
  pub expiry_acknowledged_at : Option ℕ
  pub purge_after : Option ℕ
  pub purged_at : Option ℕ
  pub deleted : Bool

-- SendEventExpiry with the event, and CleanupPrefix with the prefix of an organization's event.
pub data QueuedJob : Type 0 where
  send_event_expiry : ℕ → QueuedJob
  cleanup_prefix : ℕ → ℕ → QueuedJob

pub record Db : Type 0 where
  pub events : List EventRow
  pub queue : List QueuedJob

-- `x !== null && x <= now`
abbrev pub is_past : ℕ → Option ℕ → Bool
is_past now none = false
is_past now (some t) = leb t now

abbrev pub is_null : Option ℕ → Bool
is_null none = true
is_null (some t) = false

-- isEventExpired
unfoldable pub is_event_expired : ℕ → EventRow → Bool
is_event_expired now e = is_past now e.expires_at

-- isEventPurged
unfoldable pub is_event_purged : EventRow → Bool
is_event_purged e = not (is_null e.purged_at)

-- purgeDeadline
unfoldable pub purge_deadline : ℕ → ℕ → ℕ
purge_deadline expires_at grace_hours = expires_at + grace_hours * 3600000

-- getById
unfoldable pub get_by_id : ℕ → Db → Option EventRow
get_by_id id db = find (λ e. e.id == id && not e.deleted) db.events

-- setExpiryState
unfoldable pub set_expiry_state : ℕ → (EventRow → EventRow) → Db → Db
set_expiry_state id f db = record db { events = update_by (λ e. e.id) id f db.events }

abbrev pub time_of : Option ℕ → ℕ
time_of none = 0
time_of (some t) = t

unfoldable pub is_newly_expired : ℕ → EventRow → Bool
is_newly_expired now e = is_past now e.expires_at && (is_null e.expiry_notified_at && not e.deleted)

-- findNewlyExpired, with its default limit
unfoldable pub find_newly_expired : ℕ → Db → List EventRow
unfolding is_newly_expired
find_newly_expired now db =
    take 100 (sort_by (λ e. time_of e.expires_at) (filter (is_newly_expired now) db.events))

unfoldable pub is_due_for_purge : ℕ → EventRow → Bool
is_due_for_purge now e =
    is_past now e.purge_after
    && (is_null e.purged_at
        && (not e.deleted && (is_null e.expires_at || is_past now e.expires_at)))

-- findDueForPurge, with its default limit
unfoldable pub find_due_for_purge : ℕ → Db → List EventRow
unfolding is_due_for_purge
find_due_for_purge now db =
    take 100 (sort_by (λ e. time_of e.purge_after) (filter (is_due_for_purge now) db.events))

-- getBySlug
unfoldable pub get_by_slug : ℕ → Db → Option EventRow
get_by_slug slug db = find (λ e. e.slug == slug && not e.deleted) db.events
