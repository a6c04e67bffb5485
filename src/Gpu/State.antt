-- ===== src/Gpu/State.antt =====
-- The GPU box's recorded state and its configuration
-- (apps/backend/src/repositories/system-config.repository.ts), and what one handler of
-- apps/backend/src/services/gpu-lifecycle.service.ts reads and writes.
-- Times are milliseconds. Ids and URLs are numbers, 0 for the empty text, which is falsy.
use event_media_platform.Prelude.{ℕ, suc, ◌*◌, Bool, List, ◌∷◌, Option, none}
use event_media_platform.Enum.{WorkerRole, QueueName}

pub data GpuProvider : Type 0 where
  webhook jarvislabs : GpuProvider

pub record GpuAutostartConfig : Type 0 where
  pub enabled : Bool
  pub provider : GpuProvider
  pub pending_threshold : ℕ
  pub max_pending_age_minutes : ℕ
  pub idle_shutdown_minutes : ℕ
  pub start_timeout_minutes : ℕ
  pub start_webhook_url : ℕ
  pub stop_webhook_url : ℕ
  pub jarvislabs_machine_id : ℕ

pub data GpuState : Type 0 where
  off starting running stopping : GpuState

-- The texts that end up in `lastError`.
pub data ErrorText : Type 0 where
  no_instance_id no_webhook_url : ErrorText
  message : ℕ → ErrorText

pub record GpuLifecycleState : Type 0 where
  pub state : GpuState
  pub since : ℕ
  pub hold_until : Option ℕ
  pub idle_since : Option ℕ
  pub last_started_at : Option ℕ
  pub last_stopped_at : Option ℕ
  pub last_error : Option ErrorText
  pub machine_id : Option ℕ

-- GPU_LIFECYCLE_INITIAL
unfoldable pub gpu_lifecycle_initial : GpuLifecycleState
gpu_lifecycle_initial = record {
  state = off;
  since = 0;
  hold_until = none;
  idle_since = none;
  last_started_at = none;
  last_stopped_at = none;
  last_error = none;
  machine_id = none;
}

-- JarvisLabsInstance, the two fields that the service decides by.
pub record Instance : Type 0 where
  pub machine_id : ℕ
  pub status : Option (List ℕ)

-- What a provider call comes back with.
pub data Reply {ℓ} (A : Type ℓ) : Type ℓ where
  replied : A → Reply A
  threw : ErrorText → Reply A

pub record JobCounts : Type 0 where
  pub waiting : ℕ
  pub active : ℕ
  pub delayed : ℕ
  pub failed : ℕ

-- What the handler is told by the clock, Redis and the provider. A provider call is also given the
-- number of provider calls made before it, so that two calls may be answered differently.
pub record Env : Type 0 where
  pub now : ℕ
  pub configured : Bool
  pub telemetry : Reply (List (List WorkerRole))
  pub counts : QueueName → JobCounts
  pub oldest_waiting : QueueName → Option ℕ
  pub oldest_active : QueueName → Option ℕ
  pub list : ℕ → Reply (List Instance)
  pub get : ℕ → ℕ → Reply (Option Instance)
  pub resume : ℕ → ℕ → Reply Instance
  pub pause : ℕ → ℕ → Option ErrorText
  pub post : ℕ → ℕ → Option ErrorText

-- What is asked of the machine.
pub data Command : Type 0 where
  resumes pauses : ℕ → Command
  posts_start posts_stop : ℕ → Command

-- The actions of the audit log entries.
pub data AuditAction : Type 0 where
  gpu_hold_set gpu_hold_cleared gpu_hold gpu_start gpu_start_failed gpu_start_adopted : AuditAction
  gpu_instance_reassigned gpu_start_timeout gpu_stop gpu_stop_failed : AuditAction
  gpu_state_reconciled gpu_running gpu_vanished gpu_off gpu_jobs_stuck : AuditAction

-- What a handler does to the outside, in order.
pub data Effect : Type 0 where
  saves : GpuLifecycleState → Effect
  sends : Command → Effect
  audits : AuditAction → Effect

pub record InstanceCache : Type 0 where
  pub at : ℕ
  pub instance_of : Option Instance

-- The stored state, the two fields of the service, the provider calls made so far, and the effects,
-- newest first.
pub record World : Type 0 where
  pub lifecycle : GpuLifecycleState
  pub last_provider_check_at : ℕ
  pub instance_cache : Option InstanceCache
  pub calls : ℕ
  pub trace : List Effect

-- setState
abbrev pub set_state : GpuLifecycleState → World → World
set_state s w = record w { lifecycle = s; trace = saves s ∷ w.trace }

abbrev pub audit : AuditAction → World → World
audit a w = record w { trace = audits a ∷ w.trace }

-- A provider call that changes the machine.
abbrev pub send : Command → World → World
send c w = record w { calls = suc w.calls; trace = sends c ∷ w.trace }

-- A provider call that only reads.
abbrev pub call : World → World
call w = record w { calls = suc w.calls }

-- `60_000` milliseconds to the minute.
abbrev pub minutes : ℕ → ℕ
minutes n = n * 60000
