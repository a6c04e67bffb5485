-- ===== src/Gpu/Panel.antt =====
-- What triggers a start, what the box is told, and what the panel predicts, against what the sweep of
-- gpu-lifecycle.service.ts does.
use event_media_platform.Prelude.{
  ◌+◌, ◌≤◌, ◌≡◌, ◌≢◌, refl, ◌⊎◌, inr, ◌↔◌, true, false, List, [], ◌∷◌, map, none, some, arith, All,
}
use event_media_platform.Enum.{QueueName}
use event_media_platform.Gpu.State.{GpuAutostartConfig, running, stopping, Env, World, minutes}
use event_media_platform.Gpu.Queues.{
  is_worker_online, get_queue_summary, pending_of, active_of, summarize, gpu_queues, is_stuck,
  age_ms,
}
use event_media_platform.Gpu.Sweep.{is_held, sweep}
use event_media_platform.Gpu.Heartbeat.{
  heartbeat, idle_window_elapsed, predict_next_action, ActionKind,
}
use event_media_platform.Gpu.Commands.{sent}
use event_media_platform.Gpu.Idle.{active-le-pending, IsQuiet, idle_stop_reason, countdown_cases}

-- A sweep of a running box that sends a command does so when the panel predicts a stop now.
pub stop_is_predicted :
    (config : GpuAutostartConfig) (env : Env) (w : World)
    → config.enabled ≡ true
    → w.lifecycle.state ≡ running
    → sent (sweep config env w).0 ≢ sent w
    → predict_next_action config w.lifecycle
        (get_queue_summary env)
        (pending_of (get_queue_summary env))
        env.now
      ≡ record { kind = ActionKind.stop; eta_seconds = some 0 }
unfolding predict_next_action
stop_is_predicted config env w e r s = ground (arith, idle_stop_reason config env w r s)

-- The box is told to shut down exactly when no job is in flight or pending, no hold is in force, and
-- either a stop was requested or the idle window since the last change of state is over.
pub shut_down_iff :
    (config : GpuAutostartConfig) (env : Env) (w : World)
    → let qs = get_queue_summary env in
      ((heartbeat config env w).1.keep_alive ≡ false) ↔ (
        (active_of qs ≡ 0)
        × (pending_of qs ≡ 0)
        × (is_held env.now w.lifecycle.hold_until ≡ false)
        × ((w.lifecycle.state ≡ stopping)
            ⊎ (w.lifecycle.since + minutes config.idle_shutdown_minutes ≤ env.now)))
unfolding heartbeat
shut_down_iff config env w = ground arith

-- The box's own idle rule counts from the last change of state, not from when the queues drained: a
-- box that came up at least the idle window ago, and whose queues a sweep finds drained for the
-- first time, is told to shut down, while the sweep at the same moment only starts the countdown.
pub heartbeat_gives_no_grace :
    (config : GpuAutostartConfig) (env : Env) (w : World)
    → config.enabled ≡ true
    → (w.lifecycle.state ≡ running) × (w.lifecycle.idle_since ≡ none)
    → w.lifecycle.hold_until ≡ none
    → is_worker_online env ≡ true
    → IsQuiet env
    → w.lifecycle.since + minutes config.idle_shutdown_minutes ≤ env.now
    → ((heartbeat config env w).1.reason ≡ idle_window_elapsed)
      × ((heartbeat config env w).1.keep_alive ≡ false)
      × ((sweep config env w).0.lifecycle ≡ record (w.lifecycle) { idle_since = some env.now })
unfolding heartbeat
heartbeat_gives_no_grace config env w e (r, i) h o q d = (
  ground (arith, active-le-pending (get_queue_summary env)),
  ground (arith, active-le-pending (get_queue_summary env)),
  (countdown_cases config env w e r o).1 q i,
)

-- A queue with nothing waiting or delayed, and without an active job, or with jobs that are counted as
-- orphans: the oldest has been active for more than half an hour.
abbrev pub HasOnlyOrphans : Env → QueueName → Type 0
HasOnlyOrphans env q =
    ((env.counts q).waiting ≡ 0)
    × ((env.counts q).delayed ≡ 0)
    × (((env.counts q).active ≡ 0) ⊎ (is_stuck (age_ms env.now (env.oldest_active q)) ≡ true))

orphans-pending :
    (env : Env) (qs : List QueueName)
    → All (HasOnlyOrphans env) qs
    → pending_of (map (summarize env) qs) ≡ 0
unfolding pending_of summarize
orphans-pending env [] h = refl
orphans-pending env (q ∷ qs) h = ground (arith, h.0, orphans-pending env qs h.1)

-- Orphans do not hold the box up: if no GPU queue has a waiting or delayed job, and each is empty or its
-- oldest active job has been active for more than half an hour, the heartbeat of a box past its idle
-- window and without a hold says to shut down.
pub orphans_release_box :
    (config : GpuAutostartConfig) (env : Env) (w : World)
    → All (HasOnlyOrphans env) gpu_queues
    → w.lifecycle.hold_until ≡ none
    → w.lifecycle.since + minutes config.idle_shutdown_minutes ≤ env.now
    → (heartbeat config env w).1.keep_alive ≡ false
unfolding get_queue_summary is_held
orphans_release_box config env w h f d =
    let quiet : IsQuiet env = orphans-pending env gpu_queues h in
    (shut_down_iff config env w).1
      (omega (arith, active-le-pending (get_queue_summary env)), quiet, rw f refl, inr d)
