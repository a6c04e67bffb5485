-- ===== src/Cleanup/Rows.antt =====
-- The rows of event, asset, asset_file and participant with the storage keys and the jobs that delete
-- them (apps/backend/src/services/cleanup.service.ts, utils/storage-keys.ts).
use event_media_platform.Prelude.{
  ℕ, Bool, true, false, not, ◌&&◌, List, map, Option, none, some, ltb, ◌==◌, if◌then◌else◌, filter,
  any,
}
use event_media_platform.Auth.Rows.{Session, PasswordResetToken}

-- A key of the bucket: the organization and the event of its prefix, and the rest of its path.
pub record StorageKey : Type 0 where
  pub org_id : ℕ
  pub event_id : ℕ
  pub path : ℕ

pub record EventRow : Type 0 where
  pub id : ℕ
  pub org_id : ℕ
  pub deleted_at : Option ℕ

pub record AssetRow : Type 0 where
  pub id : ℕ
  pub event_id : ℕ
  pub storage_key : StorageKey
  pub deleted_at : Option ℕ

pub record AssetFile : Type 0 where
  pub asset_id : ℕ
  pub storage_key : StorageKey

pub record ParticipantRow : Type 0 where
  pub id : ℕ
  pub event_id : ℕ
  pub deleted_at : Option ℕ

pub data Job : Type 0 where
  cleanup_keys : List StorageKey → Job
  cleanup_prefix : ℕ → ℕ → Job

-- `bucket` is what is stored, `queue` the jobs that wait.
pub record Db : Type 0 where
  pub events : List EventRow
  pub assets : List AssetRow
  pub files : List AssetFile
  pub participants : List ParticipantRow
  pub queue : List Job
  pub bucket : List StorageKey

abbrev pub eq_key : StorageKey → StorageKey → Bool
eq_key k l = k.org_id == l.org_id && (k.event_id == l.event_id && k.path == l.path)

-- Whether a key has the prefix StorageKeys.eventPrefix.
abbrev pub is_under : ℕ → ℕ → StorageKey → Bool
is_under org event k = k.org_id == org && k.event_id == event

-- `deletedAt IS NOT NULL AND deletedAt < cutoff`
abbrev pub is_past : ℕ → Option ℕ → Bool
is_past cutoff none = false
is_past cutoff (some at) = ltb at cutoff

-- getFiles
unfoldable pub get_files : ℕ → List AssetFile → List StorageKey
get_files asset files = map (λ f. f.storage_key) (filter (λ f. f.asset_id == asset) files)

-- softDeleteMany: the rows, and those that it marked.
abbrev pub is_chosen : ℕ → List ℕ → AssetRow → Bool
is_chosen event ids a =
    a.event_id == event
    && (any (λ i. i == a.id) ids && elim a.deleted_at [ none ↦ true | some t ↦ false ])

unfoldable pub soft_delete_many : ℕ → ℕ → List ℕ → List AssetRow → List AssetRow × List AssetRow
soft_delete_many now event ids assets = (
  map (λ a. if is_chosen event ids a then record a { deleted_at = some now } else a) assets,
  filter (is_chosen event ids) assets,
)

-- deleteExpired of the sessions
unfoldable pub delete_expired_sessions : ℕ → List Session → List Session
delete_expired_sessions now sessions =
    filter (λ s. elim s.expires_at [ none ↦ true | some t ↦ not (ltb t now) ]) sessions

-- deleteExpired of the reset tokens
unfoldable pub delete_expired_tokens : ℕ → List PasswordResetToken → List PasswordResetToken
delete_expired_tokens now tokens = filter (λ t. not (ltb t.expires_at now)) tokens
