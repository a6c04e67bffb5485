-- ===== src/Gpu/Control.antt =====
-- Starting and stopping the box (start, stop, startNow, stopNow, assertControllable, holdIdle,
-- clearHold) in apps/backend/src/services/gpu-lifecycle.service.ts.
use event_media_platform.Prelude.{
  ℕ, ◌+◌, Bool, true, false, not, ◌||◌, Option, none, some, ◌==◌, if◌then◌else◌,
}
use event_media_platform.Prelude.Result.{Result, ok, bad_request, ◌>>◌, throw_if}
use event_media_platform.Gpu.State.{
  GpuProvider, webhook, jarvislabs, GpuAutostartConfig, GpuLifecycleState, GpuState, off, starting,
  running, stopping, Instance, Env, Reply, replied, threw, ErrorText, no_instance_id,
  no_webhook_url, Command, resumes, pauses, posts_start, posts_stop, AuditAction, World, set_state,
  audit, send, call, minutes,
}
use event_media_platform.Gpu.Provider.{resolve_machine_id, says_running}

-- callWebhook: `none` is success.
unfoldable pub call_webhook : ℕ → (ℕ → Command) → Env → World → World × Option ErrorText
call_webhook url command env w =
    if url == 0 then (w, some no_webhook_url) else (send (command url) w, env.post w.calls url)

-- The record that `start` writes before it asks for anything.
unfoldable pub pending_state : GpuAutostartConfig → Bool → ℕ → GpuLifecycleState → GpuLifecycleState
pending_state config manual now state = record state {
  state = starting;
  since = now;
  last_started_at = some now;
  last_error = none;
  idle_since = none;
  hold_until =
      if manual then some (now + minutes config.idle_shutdown_minutes) else state.hold_until;
}

-- A failed start goes back to `off` and keeps the error.
unfoldable pub fail_start : GpuLifecycleState → ErrorText → World → World
fail_start pending e w =
    audit AuditAction.gpu_start_failed
      (set_state (record pending { state = off; last_error = some e }) w)

unfoldable pub note_reassigned : ℕ → ℕ → World → World
note_reassigned target id w =
    if id == target then w else audit AuditAction.gpu_instance_reassigned w

unfoldable pub resume_instance : GpuLifecycleState → ℕ → Env → World → World
unfolding fail_start note_reassigned
resume_instance pending target env w = elim (env.resume w.calls target) [
  | replied i ↦
      note_reassigned target i.machine_id
        (set_state (record pending { machine_id = some i.machine_id }) (send (resumes target) w))
  | threw e ↦ fail_start pending e (send (resumes target) w)
]

-- The instance, if `get` says that it already runs; a failure to ask counts as no.
unfoldable pub already_running : Reply (Option Instance) → Option Instance
unfolding says_running
already_running (threw e) = none
already_running (replied none) = none
already_running (replied (some i)) = if says_running i.status then some i else none

unfoldable pub start_jarvislabs : GpuLifecycleState → ℕ → Env → World → World
unfolding fail_start resume_instance
start_jarvislabs pending target env w =
    if target == 0
    then fail_start pending no_instance_id w
    else elim (already_running (env.get w.calls target)) [
      | some current ↦
          audit AuditAction.gpu_start_adopted
            (set_state (record pending { machine_id = some current.machine_id }) (call w))
      | none ↦ resume_instance pending target env (call w)
    ]

unfoldable pub start_webhook : GpuAutostartConfig → GpuLifecycleState → Env → World → World
unfolding fail_start call_webhook
start_webhook config pending env w =
    let (w', error) = call_webhook config.start_webhook_url posts_start env w in
    elim error [ none ↦ w' | some e ↦ fail_start pending e w' ]

unfoldable pub start_with :
    GpuProvider → GpuAutostartConfig → GpuLifecycleState → GpuLifecycleState → Env → World → World
unfolding start_jarvislabs start_webhook
start_with jarvislabs config state pending env w =
    let (w', target) = resolve_machine_id config state env w in
    start_jarvislabs pending target env w'
start_with webhook config state pending env w = start_webhook config pending env w

unfoldable pub hold_up : GpuAutostartConfig → Env → World → World
hold_up config env w = audit AuditAction.gpu_hold (
    set_state
      (record (w.lifecycle) { hold_until = some (env.now + minutes config.idle_shutdown_minutes) })
      w)

unfoldable pub begin_start : GpuAutostartConfig → Bool → Env → World → World
unfolding start_with pending_state
begin_start config manual env w =
    let pending = pending_state config manual env.now w.lifecycle in
    start_with config.provider config w.lifecycle pending env
      (audit AuditAction.gpu_start (set_state pending w))

-- Two states in which a start is not repeated.
abbrev pub is_up : GpuState → Bool
is_up starting = true
is_up running = true
is_up off = false
is_up stopping = false

-- start
unfoldable pub start : GpuAutostartConfig → Bool → Env → World → World
unfolding hold_up
start config manual env w =
    if is_up w.lifecycle.state
    then if manual then hold_up config env w else w
    else begin_start config manual env w

unfoldable pub stopping_state : ℕ → GpuLifecycleState → GpuLifecycleState
stopping_state now state = record state {
  state = stopping;
  since = now;
  hold_until = none;
  idle_since = none;
  last_error = none;
}

-- A failed stop stays `stopping` and keeps the error.
unfoldable pub fail_stop : GpuLifecycleState → ErrorText → World → World
fail_stop stopped e w =
    audit AuditAction.gpu_stop_failed (set_state (record stopped { last_error = some e }) w)

unfoldable pub stopped_off : ℕ → GpuLifecycleState → World → World
stopped_off now s = set_state (record s { state = off; since = now; last_stopped_at = some now })

unfoldable pub stop_outcome : GpuLifecycleState → Env → World → Option ErrorText → World
unfolding fail_stop stopped_off
stop_outcome s env w none = stopped_off env.now s w
stop_outcome s env w (some e) = fail_stop s e w

unfoldable pub stop_jarvislabs : GpuLifecycleState → ℕ → Env → World → World
unfolding fail_stop stop_outcome
stop_jarvislabs s target env w =
    if target == 0
    then fail_stop s no_instance_id w
    else stop_outcome s env (send (pauses target) w) (env.pause w.calls target)

unfoldable pub stop_with :
    GpuProvider → GpuAutostartConfig → GpuLifecycleState → GpuLifecycleState → Env → World → World
unfolding stop_jarvislabs stop_outcome call_webhook
stop_with jarvislabs config state s env w =
    let (w', target) = resolve_machine_id config state env w in stop_jarvislabs s target env w'
stop_with webhook config state s env w =
    let (w', error) = call_webhook config.stop_webhook_url posts_stop env w in
    stop_outcome s env w' error

-- stop
unfoldable pub stop : GpuAutostartConfig → Env → World → World
unfolding stopping_state
stop config env w =
    let s = stopping_state env.now w.lifecycle in
    stop_with config.provider config w.lifecycle s env (audit AuditAction.gpu_stop (set_state s w))

-- assertControllable
unfoldable pub assert_controllable : GpuAutostartConfig → Env → Result (Unit {0})
assert_controllable config env = elim config.provider [
  | jarvislabs ↦ do
    throw_if (not env.configured) bad_request
    throw_if (config.jarvislabs_machine_id == 0) bad_request
  | webhook ↦ throw_if (config.start_webhook_url == 0 || config.stop_webhook_url == 0) bad_request
]

-- startNow
unfoldable pub start_now : GpuAutostartConfig → Env → World → Result World
unfolding assert_controllable
start_now config env w = do assert_controllable config env; ok (start config true env w)

-- stopNow
unfoldable pub stop_now : GpuAutostartConfig → Env → World → Result World
unfolding assert_controllable
stop_now config env w = do assert_controllable config env; ok (stop config env w)

-- holdIdle
unfoldable pub hold_idle : ℕ → Env → World → World
hold_idle mins env w =
    audit AuditAction.gpu_hold_set
      (set_state (record (w.lifecycle) { hold_until = some (env.now + minutes mins) }) w)

-- clearHold
unfoldable pub clear_hold : World → World
clear_hold w =
    audit AuditAction.gpu_hold_cleared (set_state (record (w.lifecycle) { hold_until = none }) w)
