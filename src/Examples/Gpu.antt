-- ===== src/Examples/Gpu.antt =====
-- The theorems about the GPU box at concrete inputs.
use event_media_platform.Prelude.{
  inr, Option, inl, ℕ, ◌+◌, ◌≤◌, ◌<◌, ◌≡◌, refl, ◌⊎◌, ◌↔◌, Bool, true, false, List, [], ◌∷◌, none,
  some, arith, if◌then◌else◌,
}
use event_media_platform.Prelude.Text.{codes}
use event_media_platform.Enum.{QueueName, WorkerRole}
use event_media_platform.Gpu.State.{
  jarvislabs, GpuAutostartConfig, GpuState, ErrorText, off, running, stopping, Instance, Env,
  replied, resumes, pauses, World, minutes,
}
use event_media_platform.Gpu.Queues.{
  is_worker_online, get_queue_summary, pending_of, active_of, evaluate_trigger,
}
use event_media_platform.Gpu.Provider.{get_instance}
use event_media_platform.Gpu.Control.{start, stop, is_up}
use event_media_platform.Gpu.Sweep.{sweep, is_held}
use event_media_platform.Gpu.Heartbeat.{
  heartbeat, predict_next_action, ActionKind, idle_window_elapsed,
}
use event_media_platform.Gpu.History.{
  run, fresh_world, Moment, Action, sweeps, commands-IsAnnounced,
}
use event_media_platform.Gpu.WriteAhead.{IsAnnounced}
use event_media_platform.Gpu.Commands.{commands, sent}
use event_media_platform.Gpu.Outcomes.{
  StartOutcome, StopOutcome, start_once, HasStopCall, stop_needs_call, stop_pauses_live,
}
use event_media_platform.Gpu.Transitions.{SweepFollows, sweep_follows}
use event_media_platform.Gpu.Idle.{
  IsQuiet, QuietFrom, after_sweeps, idle_stop_after_quiet_window, idle_box_is_stopped,
  running_countdown,
}
use event_media_platform.Gpu.Panel.{
  stop_is_predicted, shut_down_iff, heartbeat_gives_no_grace, orphans_release_box,
}

abbrev config : GpuAutostartConfig
config = record {
  enabled = true;
  provider = jarvislabs;
  pending_threshold = 25;
  max_pending_age_minutes = 120;
  idle_shutdown_minutes = 10;
  start_timeout_minutes = 20;
  start_webhook_url = 0;
  stop_webhook_url = 0;
  jarvislabs_machine_id = 7;
}

abbrev paused_box : Instance
paused_box = record { machine_id = 9; status = some (codes "Paused") }

-- The media worker reports in; the listing names the box 9, whatever is configured.
abbrev env_at : ℕ → Bool → ℕ → Env
env_at now online waiting = record {
  now = now;
  configured = true;
  telemetry = replied (if online then (WorkerRole.media ∷ []) ∷ [] else []);
  counts = λ q. record { waiting = waiting; active = 0; delayed = 0; failed = 0 };
  oldest_waiting = λ q. none;
  oldest_active = λ q. none;
  list = λ n. replied (paused_box ∷ []);
  get = λ n t. replied (some paused_box);
  resume = λ n t. replied (record { machine_id = 11; status = none });
  pause = λ n t. none;
  post = λ n u. none;
}

abbrev world_in : GpuState → World
world_in s = record {
  lifecycle = record {
    state = s;
    since = 1000;
    hold_until = none;
    idle_since = none;
    last_started_at = none;
    last_stopped_at = none;
    last_error = none;
    machine_id = none;
  };
  last_provider_check_at = 0;
  instance_cache = none;
  calls = 0;
  trace = [];
}

abbrev sweep_at : ℕ → Bool → ℕ → Moment
sweep_at now online waiting = record {
  config = config;
  env = env_at now online waiting;
  action = sweeps;
}

-- Work arrives, the box boots under a new id, reports in, drains and is paused.
abbrev life : List Moment
life =
    sweep_at 700000 false 30
    ∷ sweep_at 800000 true 30
    ∷ sweep_at 900000 true 0
    ∷ sweep_at 1600000 true 0
    ∷ []

life-commands : commands (run fresh_world life).trace ≡ pauses 9 ∷ resumes 9 ∷ []
unfolding run fresh_world sweep start stop is_worker_online get_queue_summary pending_of active_of
    event_media_platform.Gpu.History.act event_media_platform.Gpu.Sweep.sweep_state
    event_media_platform.Gpu.Provider.get_provider_state
    event_media_platform.Gpu.Provider.resolve_machine_id get_instance evaluate_trigger
    event_media_platform.Gpu.Control.begin_start event_media_platform.Gpu.Control.already_running
    event_media_platform.Gpu.Control.stop_with
life-commands = refl

commands-IsAnnounced_example : IsAnnounced (run fresh_world life).trace
commands-IsAnnounced_example = commands-IsAnnounced life

start_once_example :
    let w' = start config false (env_at 5 false 0) (world_in off) in
    ((is_up off ≡ true) × (sent w' ≡ 0) × (w'.lifecycle.state ≡ off))
    ⊎ ((is_up off ≡ false) × (sent w' ≤ 1) × StartOutcome 5 w'.lifecycle)
start_once_example = start_once config (env_at 5 false 0) false (world_in off)

stop_needs_call_example :
    let w = world_in running in
    let w' = stop config (env_at 5 true 0) w in
    (w'.lifecycle.hold_until ≡ none)
    × (w'.lifecycle.idle_since ≡ none)
    × (((w'.lifecycle.state ≡ off)
          × (w'.lifecycle.last_error ≡ none)
          × HasStopCall config (env_at 5 true 0) jarvislabs w w')
        ⊎ ((e : ErrorText) × (w'.lifecycle.state ≡ stopping)
            × (w'.lifecycle.last_error ≡ some e)
            × ((commands w'.trace ≡ commands w.trace)
                ⊎ HasStopCall config (env_at 5 true 0) jarvislabs w w')))
stop_needs_call_example = stop_needs_call config (env_at 5 true 0) (world_in running)

stop_pauses_live_example :
    commands (stop config (env_at 5 true 0) (world_in running)).trace ≡ pauses 9 ∷ []
unfolding get_instance
stop_pauses_live_example =
    stop_pauses_live config (env_at 5 true 0) (world_in running) paused_box refl refl (omega arith)

sweep_follows_example :
    SweepFollows off (sweep config (env_at 700000 false 30) (world_in off)).0.lifecycle.state
sweep_follows_example = sweep_follows config (env_at 700000 false 30) (world_in off)

idle_box_is_stopped_example :
    let first = env_at 10000 true 0 in
    let second = env_at 900000 true 0 in
    let w' = (sweep config first (world_in running)).0 in
    ((sweep config second w').0 ≡ stop config second w')
    × StopOutcome 900000 (sweep config second w').0.lifecycle
unfolding is_worker_online get_queue_summary pending_of
idle_box_is_stopped_example =
    idle_box_is_stopped config (env_at 10000 true 0) (env_at 900000 true 0) (world_in running) refl
      (refl, refl) refl (refl, refl) (refl, refl) (omega arith)

abbrev quiet_env : Env
quiet_env = env_at 900000 true 0

running_countdown_example :
    let s = (sweep config quiet_env (world_in running)).0.lifecycle in
    ((0 < pending_of (get_queue_summary quiet_env)) × (s ≡ (world_in running).lifecycle))
    ⊎ ((IsQuiet quiet_env
          × ((world_in running).lifecycle.idle_since ≡ none)
          × (s ≡ record ((world_in running).lifecycle) { idle_since = some 900000 }))
        ⊎ (IsQuiet quiet_env
            × ((t : ℕ) × ((world_in running).lifecycle.idle_since ≡ some t))
            × ((s ≡ (world_in running).lifecycle) ⊎ StopOutcome 900000 s)))
unfolding is_worker_online
running_countdown_example = running_countdown config quiet_env (world_in running) refl refl refl

abbrev sweeps_so_far : List Env
sweeps_so_far = env_at 10000 true 0 ∷ []

before_idle_stop : sent (after_sweeps config (world_in running) (quiet_env ∷ sweeps_so_far)) ≡ 1
unfolding after_sweeps sweep stop is_worker_online get_queue_summary pending_of active_of
    event_media_platform.Gpu.Sweep.sweep_state event_media_platform.Gpu.Control.stop_with
    event_media_platform.Gpu.Provider.resolve_machine_id get_instance
before_idle_stop = refl

no_command_yet : sent (after_sweeps config (world_in running) sweeps_so_far) ≡ 0
unfolding after_sweeps sweep stop is_worker_online get_queue_summary pending_of active_of
    event_media_platform.Gpu.Sweep.sweep_state
no_command_yet = refl

still_running : (after_sweeps config (world_in running) sweeps_so_far).lifecycle.state ≡ running
unfolding after_sweeps sweep stop is_worker_online get_queue_summary pending_of active_of
    event_media_platform.Gpu.Sweep.sweep_state
still_running = refl

idle_stop_after_quiet_window_example :
    (t : ℕ) × QuietFrom t (quiet_env ∷ sweeps_so_far)
    × (t + minutes 10 ≤ 900000)
    × (is_held 900000 (after_sweeps config (world_in running) sweeps_so_far).lifecycle.hold_until
        ≡ false)
idle_stop_after_quiet_window_example =
    idle_stop_after_quiet_window config (world_in running) refl quiet_env sweeps_so_far refl
      still_running (omega (arith, before_idle_stop, no_command_yet))

abbrev counted : World
counted = record (world_in running) {
  lifecycle = record ((world_in running).lifecycle) { idle_since = some 20000 };
}

counted_stops : sent (sweep config quiet_env counted).0 ≡ 1
unfolding sweep stop is_worker_online get_queue_summary pending_of active_of
    event_media_platform.Gpu.Sweep.sweep_state event_media_platform.Gpu.Control.stop_with
    event_media_platform.Gpu.Provider.resolve_machine_id get_instance
counted_stops = refl

stop_is_predicted_example :
    predict_next_action config counted.lifecycle
      (get_queue_summary quiet_env)
      (pending_of (get_queue_summary quiet_env))
      900000
    ≡ record { kind = ActionKind.stop; eta_seconds = some 0 }
stop_is_predicted_example =
    stop_is_predicted config quiet_env counted refl refl (omega (arith, counted_stops))

shut_down_iff_example : ((heartbeat config quiet_env counted).1.keep_alive ≡ false) ↔ (
    (active_of (get_queue_summary quiet_env) ≡ 0)
    × (pending_of (get_queue_summary quiet_env) ≡ 0)
    × (is_held 900000 none ≡ false)
    × ((running ≡ stopping) ⊎ (1000 + minutes 10 ≤ 900000)))
shut_down_iff_example = shut_down_iff config quiet_env counted

heartbeat_gives_no_grace_example :
    ((heartbeat config quiet_env (world_in running)).1.reason ≡ idle_window_elapsed)
    × ((heartbeat config quiet_env (world_in running)).1.keep_alive ≡ false)
    × ((sweep config quiet_env (world_in running)).0.lifecycle
        ≡ record ((world_in running).lifecycle) { idle_since = some 900000 })
unfolding is_worker_online get_queue_summary pending_of
heartbeat_gives_no_grace_example =
    heartbeat_gives_no_grace config quiet_env (world_in running) refl (refl, refl) refl refl refl
      (omega arith)

-- Face detection holds a job that has been active for an hour, and the other GPU queues are empty.
abbrev orphans_in : QueueName → ℕ
orphans_in QueueName.face_detection = 1
orphans_in _ = 0

abbrev since_in : QueueName → Option ℕ
since_in QueueName.face_detection = some 5400000
since_in _ = none

abbrev orphaned_env : Env
orphaned_env = record quiet_env {
  now = 9000000;
  counts = λ q. record { waiting = 0; active = orphans_in q; delayed = 0; failed = 0 };
  oldest_active = since_in;
}

orphans_release_box_example :
    (heartbeat config orphaned_env (world_in running)).1.keep_alive ≡ false
orphans_release_box_example =
    orphans_release_box config orphaned_env (world_in running)
      (
        (refl, refl, inl refl),
        (
          (refl, refl, inl refl),
          (
            (refl, refl, inr refl),
            ((refl, refl, inl refl), ((refl, refl, inl refl), ((refl, refl, inl refl), tt))),
          ),
        ),
      )
      refl (omega arith)
