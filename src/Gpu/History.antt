-- ===== src/Gpu/History.antt =====
-- The box over any history of sweeps, clicks and heartbeats, and what holds after each.
use event_media_platform.Prelude.{ℕ, true, List, [], ◌∷◌, none, arith}
use event_media_platform.Prelude.Result.{Result, ok, throws}
use event_media_platform.Gpu.State.{GpuAutostartConfig, Env, World}
use event_media_platform.Gpu.Control.{start_now, stop_now, hold_idle, clear_hold}
use event_media_platform.Gpu.Sweep.{sweep}
use event_media_platform.Gpu.Heartbeat.{heartbeat}
use event_media_platform.Gpu.State.{gpu_lifecycle_initial}
use event_media_platform.Gpu.WriteAhead.{
  IsAnnounced, start-IsAnnounced, stop-IsAnnounced, sweep-IsAnnounced,
}

-- The calls of the service that write: the cron job, the admin's buttons and the box's poll.
pub data Action : Type 0 where
  sweeps starts stops beats : Action
  holds : ℕ → Action
  clears : Action

-- A call that throws leaves the world as it was.
abbrev pub after : World → Result World → World
after w (ok w') = w'
after w (throws e) = w

unfoldable pub act : GpuAutostartConfig → Env → Action → World → World
act config env sweeps w = (sweep config env w).0
act config env starts w = after w (start_now config env w)
act config env stops w = after w (stop_now config env w)
act config env beats w = (heartbeat config env w).0
act config env (holds mins) w = hold_idle mins env w
act config env clears w = clear_hold w

-- A moment in a history: the configuration and the environment may differ at each.
pub record Moment : Type 0 where
  pub config : GpuAutostartConfig
  pub env : Env
  pub action : Action

unfoldable pub run : World → List Moment → World
run w [] = w
run w (m ∷ ms) = run (act m.config m.env m.action w) ms

-- A service that has just been deployed.
unfoldable pub fresh_world : World
unfolding gpu_lifecycle_initial
fresh_world = record {
  lifecycle = gpu_lifecycle_initial;
  last_provider_check_at = 0;
  instance_cache = none;
  calls = 0;
  trace = [];
}

act-IsAnnounced :
    (config : GpuAutostartConfig) (env : Env) (a : Action) (w : World)
    → IsAnnounced w.trace
    → IsAnnounced (act config env a w).trace
unfolding act start_now stop_now hold_idle clear_hold heartbeat
act-IsAnnounced config env sweeps w h = sweep-IsAnnounced config env w h
act-IsAnnounced config env starts w h = ground (arith, start-IsAnnounced config env true w h)
act-IsAnnounced config env stops w h = ground (arith, stop-IsAnnounced config env w h)
act-IsAnnounced config env beats w h = ground arith
act-IsAnnounced config env (holds mins) w h = h
act-IsAnnounced config env clears w h = h

run-IsAnnounced :
    (w : World) (ms : List Moment) → IsAnnounced w.trace → IsAnnounced (run w ms).trace
unfolding run
run-IsAnnounced w [] h = h
run-IsAnnounced w (m ∷ ms) h =
    run-IsAnnounced (act m.config m.env m.action w) ms (act-IsAnnounced m.config m.env m.action w h)

-- After any history of sweeps, start and stop clicks, holds and heartbeats from a new deployment,
-- under any configurations and any answers: each resume or start call to the machine was made while
-- the state saved last was `starting`, and each pause or stop call while it was `stopping`.
pub commands-IsAnnounced : (ms : List Moment) → IsAnnounced (run fresh_world ms).trace
unfolding fresh_world
commands-IsAnnounced ms = run-IsAnnounced fresh_world ms tt
