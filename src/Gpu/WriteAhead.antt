-- ===== src/Gpu/WriteAhead.antt =====
-- The order of saves and machine commands in gpu-lifecycle.service.ts: the state is written before
-- the machine is asked.
use event_media_platform.Prelude.{
  ℕ, ◌≡◌, refl, Bool, false, List, [], ◌∷◌, Option, none, some, arith,
}
use event_media_platform.Gpu.State.{
  GpuProvider, webhook, jarvislabs, GpuAutostartConfig, GpuLifecycleState, GpuState, off, starting,
  running, stopping, Env, ErrorText, Command, resumes, pauses, posts_start, posts_stop, AuditAction,
  Effect, saves, sends, audits, World, audit, send,
}
use event_media_platform.Gpu.Queues.{GpuQueueSummary, is_worker_online, get_queue_summary}
use event_media_platform.Gpu.Provider.{get_instance, resolve_machine_id, get_provider_state}
use event_media_platform.Gpu.Control.{
  resume_instance, start_jarvislabs, start_webhook, start_with, begin_start, pending_state,
  stop_outcome, stop_jarvislabs, stop_with, stopping_state, start, stop,
}
use event_media_platform.Gpu.Sweep.{sweep_off, sweep_state, sweep}

-- The state that was saved last.
abbrev pub last_saved : List Effect → Option GpuState
last_saved [] = none
last_saved (saves s ∷ r) = some s.state
last_saved (sends c ∷ r) = last_saved r
last_saved (audits a ∷ r) = last_saved r

-- The state that a command must have been announced by.
abbrev pub announced : Command → GpuState
announced (resumes t) = starting
announced (posts_start u) = starting
announced (pauses t) = stopping
announced (posts_stop u) = stopping

-- Every command in the trace was sent while the last saved state announced it.
abbrev pub IsAnnounced : List Effect → Type 0
IsAnnounced [] = Unit
IsAnnounced (saves s ∷ r) = IsAnnounced r
IsAnnounced (audits a ∷ r) = IsAnnounced r
IsAnnounced (sends c ∷ r) = (last_saved r ≡ some (announced c)) × IsAnnounced r

get_instance_trace :
    (config : GpuAutostartConfig) (env : Env) (w : World)
    → (get_instance config env w).0.trace ≡ w.trace
unfolding get_instance
get_instance_trace config env w = ground arith

pub resolve_trace :
    (config : GpuAutostartConfig) (s : GpuLifecycleState) (env : Env) (w : World)
    → (resolve_machine_id config s env w).0.trace ≡ w.trace
unfolding resolve_machine_id
resolve_trace config s env w = get_instance_trace config env w

pub provider_trace :
    (config : GpuAutostartConfig) (s : GpuLifecycleState) (env : Env) (w : World)
    → (get_provider_state config s env w).0.trace ≡ w.trace
unfolding get_provider_state
provider_trace config s env w =
    ground (arith, resolve_trace config s env (record w { last_provider_check_at = env.now }))

-- Nothing is sent out of turn, and the last saved state is the given one.
abbrev Ready : GpuState → World → Type 0
Ready s w = (last_saved w.trace ≡ some s) × IsAnnounced w.trace

module _ (env : Env) (w : World) where
  resume_instance-IsAnnounced :
      (pending : GpuLifecycleState) (target : ℕ)
      → Ready starting w
      → IsAnnounced (resume_instance pending target env w).trace
  unfolding resume_instance
  resume_instance-IsAnnounced pending target h = ground arith

  start_jarvislabs-IsAnnounced :
      (pending : GpuLifecycleState) (target : ℕ)
      → Ready starting w
      → IsAnnounced (start_jarvislabs pending target env w).trace
  unfolding start_jarvislabs
  start_jarvislabs-IsAnnounced pending target h = ground arith

  start_webhook-IsAnnounced :
      (config : GpuAutostartConfig) (pending : GpuLifecycleState)
      → Ready starting w
      → IsAnnounced (start_webhook config pending env w).trace
  unfolding start_webhook
  start_webhook-IsAnnounced config pending h = ground arith

  stop_outcome-IsAnnounced :
      (s : GpuLifecycleState) (e : Option ErrorText)
      → IsAnnounced w.trace
      → IsAnnounced (stop_outcome s env w e).trace
  unfolding stop_outcome
  stop_outcome-IsAnnounced s none h = h
  stop_outcome-IsAnnounced s (some e) h = h

module _ (config : GpuAutostartConfig) (env : Env) where
  resolve-Ready :
      (g : GpuState) (s : GpuLifecycleState) (w : World)
      → Ready g w
      → Ready g (resolve_machine_id config s env w).0
  resolve-Ready g s w h = rw (resolve_trace config s env w) h

  start_with-IsAnnounced :
      (p : GpuProvider) (s pending : GpuLifecycleState) (w : World)
      → Ready starting w
      → IsAnnounced (start_with p config s pending env w).trace
  unfolding start_with
  start_with-IsAnnounced jarvislabs s pending w h =
      start_jarvislabs-IsAnnounced env (resolve_machine_id config s env w).0 pending
        (resolve_machine_id config s env w).1 (resolve-Ready starting s w h)
  start_with-IsAnnounced webhook s pending w h = start_webhook-IsAnnounced env w config pending h

  begin_start-IsAnnounced :
      (manual : Bool) (w : World)
      → IsAnnounced w.trace
      → IsAnnounced (begin_start config manual env w).trace
  unfolding begin_start
  begin_start-IsAnnounced manual w h =
      start_with-IsAnnounced config.provider w.lifecycle
        (pending_state config manual env.now w.lifecycle) _ (refl, h)

  pub start-IsAnnounced :
      (manual : Bool) (w : World)
      → IsAnnounced w.trace
      → IsAnnounced (start config manual env w).trace
  unfolding start
  start-IsAnnounced manual w h = ground (arith, begin_start-IsAnnounced manual w)

  stop_jarvislabs-IsAnnounced :
      (s : GpuLifecycleState) (target : ℕ) (w : World)
      → Ready stopping w
      → IsAnnounced (stop_jarvislabs s target env w).trace
  unfolding stop_jarvislabs
  stop_jarvislabs-IsAnnounced s target w h =
      ground
        (arith, stop_outcome-IsAnnounced env (send (pauses target) w) s (env.pause w.calls target))

  stop_with-IsAnnounced :
      (p : GpuProvider) (s t : GpuLifecycleState) (w : World)
      → Ready stopping w
      → IsAnnounced (stop_with p config s t env w).trace
  unfolding stop_with
  stop_with-IsAnnounced jarvislabs s t w h =
      stop_jarvislabs-IsAnnounced t (resolve_machine_id config s env w).1
        (resolve_machine_id config s env w).0 (resolve-Ready stopping s w h)
  stop_with-IsAnnounced webhook s t w h = ground arith

  pub stop-IsAnnounced : (w : World) → IsAnnounced w.trace → IsAnnounced (stop config env w).trace
  unfolding stop
  stop-IsAnnounced w h =
      stop_with-IsAnnounced config.provider w.lifecycle (stopping_state env.now w.lifecycle) _
        (refl, h)

  sweep_off-IsAnnounced :
      (qs : List GpuQueueSummary) (w : World)
      → IsAnnounced w.trace
      → IsAnnounced (sweep_off config qs env w).trace
  unfolding sweep_off
  sweep_off-IsAnnounced qs w h =
      let kept : IsAnnounced (get_provider_state config w.lifecycle env w).0.trace =
        rw (provider_trace config w.lifecycle env w) h in
      ground
        (arith, kept, start-IsAnnounced false (get_provider_state config w.lifecycle env w).0 kept)

  sweep_state-IsAnnounced :
      (g : GpuState) (online : Bool) (qs : List GpuQueueSummary) (w : World)
      → IsAnnounced w.trace
      → IsAnnounced (sweep_state g config online qs env w).trace
  unfolding sweep_state
  sweep_state-IsAnnounced off online qs w h = sweep_off-IsAnnounced qs w h
  sweep_state-IsAnnounced starting online qs w h =
      ground (arith, stop-IsAnnounced (audit AuditAction.gpu_start_timeout w))
  sweep_state-IsAnnounced running online qs w h = ground (arith, stop-IsAnnounced w)
  sweep_state-IsAnnounced stopping online qs w h = ground arith

  pub sweep-IsAnnounced :
      (w : World) → IsAnnounced w.trace → IsAnnounced (sweep config env w).0.trace
  unfolding sweep
  sweep-IsAnnounced w h = ground (
    arith,
    sweep_state-IsAnnounced w.lifecycle.state (is_worker_online env) (get_queue_summary env) w h,
  )
