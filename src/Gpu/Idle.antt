-- ===== src/Gpu/Idle.antt =====
-- Why and when the sweep of gpu-lifecycle.service.ts stops a running box.
use event_media_platform.Prelude.{
  ℕ, ◌+◌, ◌≤◌, ◌<◌, ◌≡◌, ◌≢◌, refl, ap, ◌∙◌, ◌⊎◌, inl, inr, Bool, true, false, List, [], ◌∷◌, none,
  some, arith,
}
use event_media_platform.Gpu.State.{
  GpuAutostartConfig, GpuState, off, starting, running, stopping, Env, AuditAction, World, audit,
  minutes,
}
use event_media_platform.Gpu.Queues.{
  GpuQueueSummary, is_worker_online, get_queue_summary, pending_of, active_of,
}
use event_media_platform.Gpu.Control.{stop}
use event_media_platform.Gpu.Sweep.{
  is_held, sweep_running, sweep_starting, sweep_stopping, sweep_state, sweep,
}
use event_media_platform.Gpu.Transitions.{sweep_off_state}
use event_media_platform.Gpu.Outcomes.{StopOutcome, stop_cases}
use event_media_platform.Gpu.Commands.{sent}

-- No job waits, runs or is delayed in the GPU queues.
abbrev pub IsQuiet : Env → Type 0
IsQuiet env = pending_of (get_queue_summary env) ≡ 0

-- A job that runs is also pending.
pub active-le-pending : (qs : List GpuQueueSummary) → active_of qs ≤ pending_of qs
unfolding active_of pending_of
active-le-pending [] = omega arith
active-le-pending (q ∷ qs) = omega (arith, active-le-pending qs)

module _ (config : GpuAutostartConfig) (env : Env) (w : World) where
  -- A sweep of a running box sends a command only if the worker is online, no GPU job is pending or
  -- running, no hold is in force, and the countdown began at least the idle window ago.
  pub idle_stop_reason :
      w.lifecycle.state ≡ running
      → sent (sweep config env w).0 ≢ sent w
      → (t : ℕ) × (w.lifecycle.idle_since ≡ some t)
        × (t + minutes config.idle_shutdown_minutes ≤ env.now)
        × IsQuiet env
        × (is_held env.now w.lifecycle.hold_until ≡ false)
        × (is_worker_online env ≡ true)
  unfolding sweep sweep_state sweep_running
  idle_stop_reason r s = ground arith

  pub countdown_cases :
      config.enabled ≡ true
      → w.lifecycle.state ≡ running
      → is_worker_online env ≡ true
      → let s = (sweep config env w).0.lifecycle in
        ((0 < pending_of (get_queue_summary env)) → s ≡ record (w.lifecycle) { idle_since = none })
        × (IsQuiet env
            → w.lifecycle.idle_since ≡ none
            → s ≡ record (w.lifecycle) { idle_since = some env.now })
  unfolding sweep sweep_state sweep_running
  countdown_cases e r o = ground (arith, active-le-pending (get_queue_summary env))

  -- An enabled sweep of a running, online box either sees work and clears the countdown and nothing
  -- else, or is the first quiet one and starts it, or finds it running and leaves the box or stops it.
  pub running_countdown :
      config.enabled ≡ true
      → w.lifecycle.state ≡ running
      → is_worker_online env ≡ true
      → let s = (sweep config env w).0.lifecycle in
        ((0 < pending_of (get_queue_summary env))
          × (s ≡ record (w.lifecycle) { idle_since = none }))
        ⊎ ((IsQuiet env
              × (w.lifecycle.idle_since ≡ none)
              × (s ≡ record (w.lifecycle) { idle_since = some env.now }))
            ⊎ (IsQuiet env
                × ((t : ℕ) × (w.lifecycle.idle_since ≡ some t))
                × ((s ≡ w.lifecycle) ⊎ StopOutcome env.now s)))
  unfolding sweep sweep_state sweep_running
  running_countdown e r o = ground (
    arith,
    active-le-pending (get_queue_summary env),
    countdown_cases e r o,
    stop_cases config env w,
  )

  sweep_enabled :
      config.enabled ≡ true
      → (sweep config env w).0
        ≡ sweep_state w.lifecycle.state config (is_worker_online env) (get_queue_summary env) env w
  unfolding sweep
  sweep_enabled e = simp e

  -- What a sweep that leaves a running countdown began with.
  countdown_before :
      (g : GpuState) (online : Bool) (t : ℕ)
      → w.lifecycle.state ≡ g
      → let qs = get_queue_summary env in
        let s = (sweep_state g config online qs env w).lifecycle in
        s.state ≡ running
        → s.idle_since ≡ some t
        → IsQuiet env × ((env.now ≡ t) ⊎ ((g ≡ running) × (w.lifecycle.idle_since ≡ some t)))
  unfolding sweep_state sweep_starting sweep_running sweep_stopping
  countdown_before off online t h r i =
      ground (arith, sweep_off_state config env (get_queue_summary env) w h)
  countdown_before starting online t h r i =
      ground (arith, stop_cases config env (audit AuditAction.gpu_start_timeout w))
  countdown_before running online t h r i = ground (arith, stop_cases config env w)
  countdown_before stopping online t h r i = ground arith

-- The world after sweeps in the given environments, newest first.
unfoldable pub after_sweeps : GpuAutostartConfig → World → List Env → World
after_sweeps config w [] = w
after_sweeps config w (e ∷ es) = (sweep config e (after_sweeps config w es)).0

-- Some sweep of the list came at time t, and it and all later ones were quiet.
abbrev pub QuietFrom : ℕ → List Env → Type 0
QuietFrom t [] = ⊥
QuietFrom t (e ∷ es) = IsQuiet e × ((e.now ≡ t) ⊎ QuietFrom t es)

module _ (config : GpuAutostartConfig) (w : World) (fresh : w.lifecycle.idle_since ≡ none) where
  countdown-QuietFrom :
      (es : List Env) (t : ℕ)
      → config.enabled ≡ true
      → (after_sweeps config w es).lifecycle.state ≡ running
      → (after_sweeps config w es).lifecycle.idle_since ≡ some t
      → QuietFrom t es
  unfolding after_sweeps
  countdown-QuietFrom [] t e r i = cc
  countdown-QuietFrom (env ∷ es) t e r i =
      let before : World = after_sweeps config w es in
      let same = sweep_enabled config env before e in
      let split =
        countdown_before config env before before.lifecycle.state (is_worker_online env) t refl
          (rw same at r) (rw same at i) in
      (
        split.0,
        elim split.1 [ inl now ↦ inl now | inr (r', i') ↦ inr (countdown-QuietFrom es t e r' i') ],
      )

  -- From a world with no countdown, after any sweeps under an enabled configuration: if the next
  -- sweep of a running box sends a command, then a sweep at least the idle window ago and every sweep
  -- since, this one included, saw no GPU job, and no hold is in force.
  pub idle_stop_after_quiet_window :
      (env : Env) (es : List Env)
      → config.enabled ≡ true
      → (after_sweeps config w es).lifecycle.state ≡ running
      → sent (after_sweeps config w (env ∷ es)) ≢ sent (after_sweeps config w es)
      → (t : ℕ) × QuietFrom t (env ∷ es)
        × (t + minutes config.idle_shutdown_minutes ≤ env.now)
        × (is_held env.now (after_sweeps config w es).lifecycle.hold_until ≡ false)
  unfolding after_sweeps
  idle_stop_after_quiet_window env es e r s =
      let (t, counted, elapsed, quiet, free, online) =
        idle_stop_reason config env (after_sweeps config w es) r s in
      (t, (quiet, inr (countdown-QuietFrom es t e r counted)), elapsed, free)

module _ (config : GpuAutostartConfig) where
  elapsed_sweep_stops :
      (env : Env) (w : World) (t : ℕ)
      → config.enabled ≡ true
      → w.lifecycle.state ≡ running
      → w.lifecycle.idle_since ≡ some t
      → w.lifecycle.hold_until ≡ none
      → is_worker_online env ≡ true
      → IsQuiet env
      → t + minutes config.idle_shutdown_minutes ≤ env.now
      → (sweep config env w).0 ≡ stop config env w
  unfolding sweep sweep_state sweep_running
  elapsed_sweep_stops env w t e r i h o q d =
      ground (arith, active-le-pending (get_queue_summary env))

  -- An enabled configuration, a running box without a countdown and without a hold, and two sweeps
  -- that find the worker online and no GPU job, the second at least the idle window after the first:
  -- the second sweep is a stop, so the box ends up off or, if the call failed, in `stopping`.
  pub idle_box_is_stopped :
      (first second : Env) (w : World)
      → config.enabled ≡ true
      → (w.lifecycle.state ≡ running) × (w.lifecycle.idle_since ≡ none)
      → w.lifecycle.hold_until ≡ none
      → (is_worker_online first ≡ true) × (is_worker_online second ≡ true)
      → IsQuiet first × IsQuiet second
      → first.now + minutes config.idle_shutdown_minutes ≤ second.now
      → let w' = (sweep config first w).0 in
        ((sweep config second w').0 ≡ stop config second w')
        × StopOutcome second.now (sweep config second w').0.lifecycle
  idle_box_is_stopped first second w e (r, i) h (o, p) (q, s) d =
      let w' : World = (sweep config first w).0 in
      let counted = (countdown_cases config first w e r o).1 q i in
      let stops : (sweep config second w').0 ≡ stop config second w' =
        elapsed_sweep_stops second w' first.now e (ap (λ l. l.state) counted ∙ r)
          (ap (λ l. l.idle_since) counted) (ap (λ l. l.hold_until) counted ∙ h) p s d in
      (stops, rw stops (stop_cases config second w').0)
