-- ===== src/Gpu/Heartbeat.antt =====
-- What the box is told when it asks whether to stay up (heartbeat), and what the panel predicts
-- (predictNextAction) in apps/backend/src/services/gpu-lifecycle.service.ts.
use event_media_platform.Prelude.{
  ℕ, ◌+◌, ◌-◌, ◌*◌, Bool, true, false, not, ◌||◌, List, Option, none, some, ltb, leb, ◌==◌,
  if◌then◌else◌,
}
use event_media_platform.Gpu.State.{
  GpuAutostartConfig, GpuLifecycleState, GpuState, off, starting, running, stopping, Env,
  AuditAction, World, audit, minutes,
}
use event_media_platform.Gpu.Queues.{
  GpuQueueSummary, get_queue_summary, pending_of, active_of, stuck_of, oldest_age, round_seconds,
}
use event_media_platform.Gpu.Sweep.{is_held}

pub data KeepReason : Type 0 where
  jobs_in_flight manual_hold jobs_queued shutdown_requested : KeepReason
  within_idle_window idle_window_elapsed : KeepReason

pub record KeepAlive : Type 0 where
  pub keep_alive : Bool
  pub reason : KeepReason
  pub pending : ℕ

abbrev pub is_stopping : GpuState → Bool
is_stopping stopping = true
is_stopping off = false
is_stopping starting = false
is_stopping running = false

-- The answer, from the depths of the queues.
unfoldable pub keep_alive_of : GpuAutostartConfig → GpuLifecycleState → ℕ → ℕ → ℕ → KeepAlive
unfolding is_held
keep_alive_of config state active pending now =
    if ltb 0 active
    then record { keep_alive = true; reason = jobs_in_flight; pending = pending }
    else if is_held now state.hold_until
    then record { keep_alive = true; reason = manual_hold; pending = pending }
    else if ltb 0 pending
    then record { keep_alive = true; reason = jobs_queued; pending = pending }
    else if is_stopping state.state
    then record { keep_alive = false; reason = shutdown_requested; pending = pending }
    else if ltb now (state.since + minutes config.idle_shutdown_minutes)
    then record { keep_alive = true; reason = within_idle_window; pending = pending }
    else record { keep_alive = false; reason = idle_window_elapsed; pending = pending }

-- heartbeat
unfoldable pub heartbeat : GpuAutostartConfig → Env → World → World × KeepAlive
unfolding keep_alive_of
heartbeat config env w =
    let queues = get_queue_summary env in
    (
      (if ltb 0 (stuck_of queues) then audit AuditAction.gpu_jobs_stuck w else w),
      keep_alive_of config w.lifecycle (active_of queues) (pending_of queues) env.now,
    )

pub data ActionKind : Type 0 where
  start stop waiting nothing : ActionKind

pub record NextAction : Type 0 where
  pub kind : ActionKind
  pub eta_seconds : Option ℕ

-- The eta's two sides are compared before they are subtracted, so `-` is exact.
unfoldable pub predict_off : GpuAutostartConfig → List GpuQueueSummary → ℕ → NextAction
predict_off config queues pending =
    if pending == 0
    then record { kind = nothing; eta_seconds = none }
    else if leb config.pending_threshold pending
        || leb (config.max_pending_age_minutes * 60) (oldest_age queues)
    then record { kind = start; eta_seconds = some 0 }
    else record {
      kind = waiting;
      eta_seconds = some (config.max_pending_age_minutes * 60 - oldest_age queues);
    }

unfoldable pub idle_for : ℕ → Option ℕ → ℕ
idle_for now none = 0
idle_for now (some t) = now - t

unfoldable pub hold_seconds : ℕ → Option ℕ → ℕ
hold_seconds now none = 0
hold_seconds now (some t) = round_seconds (t - now)

unfoldable pub predict_running : GpuAutostartConfig → GpuLifecycleState → ℕ → ℕ → NextAction
unfolding is_held idle_for hold_seconds
predict_running config state pending now =
    if is_held now state.hold_until
    then record { kind = nothing; eta_seconds = some (hold_seconds now state.hold_until) }
    else if ltb 0 pending
    then record { kind = nothing; eta_seconds = none }
    else record {
      kind = stop;
      eta_seconds =
          some
            (round_seconds (minutes config.idle_shutdown_minutes - idle_for now state.idle_since));
    }

unfoldable pub predict_state :
    GpuState → GpuAutostartConfig → GpuLifecycleState → List GpuQueueSummary → ℕ → ℕ → NextAction
unfolding predict_off predict_running
predict_state off config state queues pending now = predict_off config queues pending
predict_state running config state queues pending now = predict_running config state pending now
predict_state starting config state queues pending now = record {
  kind = nothing;
  eta_seconds = none;
}
predict_state stopping config state queues pending now = record {
  kind = nothing;
  eta_seconds = none;
}

-- predictNextAction, without the message.
unfoldable pub predict_next_action :
    GpuAutostartConfig → GpuLifecycleState → List GpuQueueSummary → ℕ → ℕ → NextAction
unfolding predict_state
predict_next_action config state queues pending now =
    if not config.enabled
    then record { kind = nothing; eta_seconds = none }
    else predict_state state.state config state queues pending now
