-- ===== src/Gpu/Sweep.antt =====
-- handleGpuLifecycleSweep of apps/backend/src/services/gpu-lifecycle.service.ts.
-- One run of the handler is one step: nothing else writes the stored state meanwhile.
use event_media_platform.Prelude.{
  ℕ, ◌+◌, Bool, false, not, ◌&&◌, List, Option, none, some, ltb, leb, ◌==◌, if◌then◌else◌,
}
use event_media_platform.Enum.{JobStatus, success, skipped}
use event_media_platform.Gpu.State.{
  GpuAutostartConfig, GpuState, off, starting, running, stopping, Env, AuditAction, World,
  set_state, audit, minutes,
}
use event_media_platform.Gpu.Queues.{
  GpuQueueSummary, get_queue_summary, pending_of, active_of, evaluate_trigger, is_worker_online,
}
use event_media_platform.Gpu.Provider.{ProviderState, get_provider_state}
use event_media_platform.Gpu.Control.{start, stop}

-- A running box that was recorded as off comes back under the rules.
unfoldable pub adopt : Env → World → World
adopt env w = audit AuditAction.gpu_state_reconciled (
    set_state
      (record (w.lifecycle) {
        state = starting;
        since = env.now;
        last_started_at = some env.now;
        idle_since = none;
      })
      w)

unfoldable pub sweep_off : GpuAutostartConfig → List GpuQueueSummary → Env → World → World
unfolding adopt
sweep_off config queues env w =
    let (w', actual) = get_provider_state config w.lifecycle env w in
    let rest =
      if evaluate_trigger config queues (pending_of queues)
      then start config false env w'
      else w' in
    elim actual [
      | none ↦ rest
      | some s ↦ elim s [ ProviderState.running ↦ adopt env w' | ProviderState.paused ↦ rest ]
    ]

unfoldable pub sweep_starting : GpuAutostartConfig → Bool → Env → World → World
sweep_starting config online env w =
    if online
    then audit AuditAction.gpu_running (
        set_state
          (record (w.lifecycle) {
            state = running;
            since = env.now;
            last_error = none;
            idle_since = none;
          })
          w)
    else if ltb (w.lifecycle.since + minutes config.start_timeout_minutes) env.now
    then stop config env (audit AuditAction.gpu_start_timeout w)
    else w

unfoldable pub mark_off : AuditAction → Env → World → World
mark_off a env w = audit a (
    set_state
      (record (w.lifecycle) { state = off; since = env.now; last_stopped_at = some env.now }) w)

-- `state.holdUntil && new Date(state.holdUntil).getTime() > now`
unfoldable pub is_held : ℕ → Option ℕ → Bool
is_held now none = false
is_held now (some t) = ltb now t

unfoldable pub sweep_idle : GpuAutostartConfig → Env → World → Option ℕ → World
unfolding is_held
sweep_idle config env w none = set_state (record (w.lifecycle) { idle_since = some env.now }) w
sweep_idle config env w (some since) =
    if not (is_held env.now w.lifecycle.hold_until)
      && leb (since + minutes config.idle_shutdown_minutes) env.now
    then stop config env w
    else w

unfoldable pub sweep_busy : World → Option ℕ → World
sweep_busy w none = w
sweep_busy w (some since) = set_state (record (w.lifecycle) { idle_since = none }) w

unfoldable pub sweep_running :
    GpuAutostartConfig → Bool → List GpuQueueSummary → Env → World → World
unfolding mark_off sweep_idle sweep_busy
sweep_running config online queues env w =
    if not online
    then mark_off AuditAction.gpu_vanished env w
    else if pending_of queues == 0 && active_of queues == 0
    then sweep_idle config env w w.lifecycle.idle_since
    else sweep_busy w w.lifecycle.idle_since

unfoldable pub sweep_stopping : Bool → Env → World → World
unfolding mark_off
sweep_stopping online env w = if not online then mark_off AuditAction.gpu_off env w else w

-- The handler's tests on `state.state` are exclusive.
unfoldable pub sweep_state :
    GpuState → GpuAutostartConfig → Bool → List GpuQueueSummary → Env → World → World
unfolding sweep_off sweep_starting sweep_running sweep_stopping
sweep_state off config online queues env w = sweep_off config queues env w
sweep_state starting config online queues env w = sweep_starting config online env w
sweep_state running config online queues env w = sweep_running config online queues env w
sweep_state stopping config online queues env w = sweep_stopping online env w

-- handleGpuLifecycleSweep
unfoldable pub sweep : GpuAutostartConfig → Env → World → World × JobStatus
sweep config env w = if not config.enabled then (w, skipped) else (
  sweep_state w.lifecycle.state config (is_worker_online env) (get_queue_summary env) env w,
  success,
)
