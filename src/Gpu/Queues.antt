-- ===== src/Gpu/Queues.antt =====
-- Queue depths and ages (getQueueSummary) and what they trigger (evaluateTrigger, isWorkerOnline)
-- in apps/backend/src/services/gpu-lifecycle.service.ts.
use event_media_platform.Prelude.{
  ℕ, ◌+◌, ◌-◌, ◌*◌, ◌/◌, Bool, true, false, List, [], ◌∷◌, map, Option, none, some, ltb, leb, ◌==◌,
  if◌then◌else◌, max, filter, any, sum_by,
}
use event_media_platform.Enum.{WorkerRole, eq_role, QueueName, queue_names, queue_role}
use event_media_platform.Gpu.State.{GpuAutostartConfig, Env, replied, threw}

-- STUCK_ACTIVE_AFTER_MS
abbrev pub stuck_active_after_ms : ℕ
stuck_active_after_ms = 1800000

-- GPU_QUEUES
abbrev pub gpu_queues : List QueueName
gpu_queues = filter (λ q. eq_role (queue_role q) WorkerRole.media) queue_names

pub record GpuQueueSummary : Type 0 where
  pub name : QueueName
  pub waiting : ℕ
  pub active : ℕ
  pub delayed : ℕ
  pub failed : ℕ
  pub oldest_waiting_age_seconds : Option ℕ
  pub oldest_active_age_seconds : Option ℕ
  pub live_active : ℕ

-- Math.round(ms / 1000)
abbrev pub round_seconds : ℕ → ℕ
round_seconds ms = (ms + 500) / 1000

-- `timestamp ? Date.now() - timestamp : null`: a zero timestamp is falsy.
abbrev pub age_ms : ℕ → Option ℕ → Option ℕ
age_ms now none = none
age_ms now (some t) = if t == 0 then none else some (now - t)

abbrev pub seconds_of : Option ℕ → Option ℕ
seconds_of none = none
seconds_of (some ms) = some (round_seconds ms)

-- Older than any real job.
abbrev pub is_stuck : Option ℕ → Bool
is_stuck none = false
is_stuck (some ms) = ltb stuck_active_after_ms ms

-- One queue of getQueueSummary.
unfoldable pub summarize : Env → QueueName → GpuQueueSummary
summarize env q =
    let counts = env.counts q in
    let age = age_ms env.now (env.oldest_active q) in
    record {
      name = q;
      waiting = counts.waiting;
      active = counts.active;
      delayed = counts.delayed;
      failed = counts.failed;
      oldest_waiting_age_seconds = seconds_of (age_ms env.now (env.oldest_waiting q));
      oldest_active_age_seconds = seconds_of age;
      live_active = if is_stuck age then 0 else counts.active;
    }

-- getQueueSummary
unfoldable pub get_queue_summary : Env → List GpuQueueSummary
unfolding summarize
get_queue_summary env = map (summarize env) gpu_queues

-- The sums over queues that the service takes by `reduce`.
unfoldable pub pending_of : List GpuQueueSummary → ℕ
pending_of = sum_by (λ q. q.waiting + q.live_active + q.delayed)

unfoldable pub active_of : List GpuQueueSummary → ℕ
active_of = sum_by (λ q. q.live_active)

unfoldable pub stuck_of : List GpuQueueSummary → ℕ
stuck_of = sum_by (λ q. q.active - q.live_active)

-- The largest age, 0 if no job waits.
unfoldable pub oldest_age : List GpuQueueSummary → ℕ
oldest_age [] = 0
oldest_age (q ∷ qs) = elim q.oldest_waiting_age_seconds [
  | none ↦ oldest_age qs
  | some age ↦ max age (oldest_age qs)
]

-- evaluateTrigger, without the reason's text.
unfoldable pub evaluate_trigger : GpuAutostartConfig → List GpuQueueSummary → ℕ → Bool
unfolding oldest_age
evaluate_trigger config queues pending =
    if pending == 0
    then false
    else if leb config.pending_threshold pending
    then true
    else leb (config.max_pending_age_minutes * 60) (oldest_age queues)

-- isWorkerOnline: what cannot be read counts as online.
unfoldable pub is_worker_online : Env → Bool
is_worker_online env = elim env.telemetry [
  | replied instances ↦ any (any (λ role. eq_role role WorkerRole.media)) instances
  | threw e ↦ true
]
