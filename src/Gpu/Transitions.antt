-- ===== src/Gpu/Transitions.antt =====
-- Which state follows which under the sweep of gpu-lifecycle.service.ts.
use event_media_platform.Prelude.{
  ◌≡◌, refl, ◌⊎◌, inl, inr, Bool, true, false, List, arith, Bool-cases,
}
use event_media_platform.Gpu.State.{
  GpuAutostartConfig, GpuLifecycleState, GpuState, off, starting, running, stopping, Env,
  AuditAction, World, audit,
}
use event_media_platform.Gpu.Queues.{GpuQueueSummary, is_worker_online, get_queue_summary}
use event_media_platform.Gpu.Provider.{get_instance, resolve_machine_id, get_provider_state}
use event_media_platform.Gpu.Sweep.{
  sweep_off, sweep_starting, sweep_running, sweep_stopping, sweep_state, sweep,
}
use event_media_platform.Gpu.Outcomes.{start_cases, stop_cases}

-- The diagram of the sweep.
pub data SweepFollows : GpuState → GpuState → Type 0 where
  stays : {s : GpuState} → SweepFollows s s
  boots : SweepFollows off starting
  reports : SweepFollows starting running
  gives_up : SweepFollows starting stopping
  drains : SweepFollows running stopping
  ends : {s : GpuState} → SweepFollows s off

ruleset sweep_edges = (
  SweepFollows.stays, SweepFollows.boots, SweepFollows.reports, SweepFollows.gives_up,
  SweepFollows.drains, SweepFollows.ends,
)

module _ (config : GpuAutostartConfig) (env : Env) where
  pub resolve_lifecycle :
      (s : GpuLifecycleState) (w : World)
      → (resolve_machine_id config s env w).0.lifecycle ≡ w.lifecycle
  unfolding resolve_machine_id get_instance
  resolve_lifecycle s w = ground arith

  pub provider_lifecycle :
      (s : GpuLifecycleState) (w : World)
      → (get_provider_state config s env w).0.lifecycle ≡ w.lifecycle
  unfolding get_provider_state
  provider_lifecycle s w =
      ground (arith, resolve_lifecycle s (record w { last_provider_check_at = env.now }))

  -- A box recorded as off is left off or comes up as `starting`.
  pub sweep_off_state :
      (qs : List GpuQueueSummary) (w : World)
      → w.lifecycle.state ≡ off
      → let s = (sweep_off config qs env w).lifecycle.state in (s ≡ off) ⊎ (s ≡ starting)
  unfolding sweep_off
  sweep_off_state qs w h = ground (
    arith,
    provider_lifecycle w.lifecycle w,
    start_cases config env false (get_provider_state config w.lifecycle env w).0,
  )

  sweep_starting_state :
      (online : Bool) (w : World)
      → w.lifecycle.state ≡ starting
      → SweepFollows starting (sweep_starting config online env w).lifecycle.state
  unfolding sweep_starting
  sweep_starting_state online w h =
      starting_edge _
        (ground (arith, stop_cases config env (audit AuditAction.gpu_start_timeout w)))
    where
      starting_edge :
          (s : GpuState)
          → (s ≡ starting) ⊎ ((s ≡ running) ⊎ ((s ≡ stopping) ⊎ (s ≡ off)))
          → SweepFollows starting s
      starting_edge s k = grind (arith, sweep_edges)

  sweep_running_state :
      (online : Bool) (qs : List GpuQueueSummary) (w : World)
      → w.lifecycle.state ≡ running
      → SweepFollows running (sweep_running config online qs env w).lifecycle.state
  unfolding sweep_running
  sweep_running_state online qs w h = running_edge _ (ground (arith, stop_cases config env w))
    where
      running_edge :
          (s : GpuState) → (s ≡ running) ⊎ ((s ≡ stopping) ⊎ (s ≡ off)) → SweepFollows running s
      running_edge s k = grind (arith, sweep_edges)

  sweep_stopping_state :
      (online : Bool) (w : World)
      → w.lifecycle.state ≡ stopping
      → SweepFollows stopping (sweep_stopping online env w).lifecycle.state
  unfolding sweep_stopping
  sweep_stopping_state true w h = rw h SweepFollows.stays
  sweep_stopping_state false w h = SweepFollows.ends

  sweep_state_follows :
      (g : GpuState) (online : Bool) (qs : List GpuQueueSummary) (w : World)
      → w.lifecycle.state ≡ g
      → SweepFollows g (sweep_state g config online qs env w).lifecycle.state
  unfolding sweep_state
  sweep_state_follows off online qs w h = off_edge _ (sweep_off_state qs w h)
    where
      off_edge : (s : GpuState) → (s ≡ off) ⊎ (s ≡ starting) → SweepFollows off s
      off_edge s k = grind (arith, sweep_edges)
  sweep_state_follows starting online qs w h = sweep_starting_state online w h
  sweep_state_follows running online qs w h = sweep_running_state online qs w h
  sweep_state_follows stopping online qs w h = sweep_stopping_state online w h

  -- Every sweep follows the diagram: a box recorded as off is left or booted, a booting one is left,
  -- reported running, given up or ended, a running one is left, stopped or ended, and a stopping one
  -- is left or ended.
  pub sweep_follows :
      (w : World) → SweepFollows w.lifecycle.state (sweep config env w).0.lifecycle.state
  unfolding sweep
  sweep_follows w = elim (Bool-cases config.enabled) [
    | inl e ↦ simp e (
        sweep_state_follows w.lifecycle.state (is_worker_online env) (get_queue_summary env) w refl)
    | inr e ↦ simp e SweepFollows.stays
  ]
