-- ===== src/Gpu/Commands.antt =====
-- The commands that `start` and `stop` of gpu-lifecycle.service.ts send.
use event_media_platform.Prelude.{
  ℕ, suc, ◌≤◌, ◌≡◌, refl, ap, Bool, List, [], ◌∷◌, Option, none, some, arith, ◌==◌, if◌then◌else◌,
  length,
}
use event_media_platform.Gpu.State.{
  GpuProvider, webhook, jarvislabs, GpuAutostartConfig, GpuLifecycleState, Env, ErrorText, Command,
  Effect, saves, sends, audits, World,
}
use event_media_platform.Gpu.Provider.{resolve_machine_id}
use event_media_platform.Gpu.Control.{
  resume_instance, start_jarvislabs, start_with, begin_start, pending_state, stop_outcome,
  stop_jarvislabs,
}
use event_media_platform.Gpu.WriteAhead.{resolve_trace}

-- The commands of a trace, newest first.
abbrev pub commands : List Effect → List Command
commands [] = []
commands (sends c ∷ r) = c ∷ commands r
commands (saves s ∷ r) = commands r
commands (audits a ∷ r) = commands r

module _ (config : GpuAutostartConfig) (env : Env) (w : World) where
  pub resolve_commands :
      (s : GpuLifecycleState)
      → commands (resolve_machine_id config s env w).0.trace ≡ commands w.trace
  resolve_commands s = ap commands (resolve_trace config s env w)

-- How many commands were sent.
abbrev pub sent : World → ℕ
sent w = length (commands w.trace)

module _ (env : Env) (w : World) where
  sent-resume_instance :
      (pending : GpuLifecycleState) (target : ℕ)
      → sent (resume_instance pending target env w) ≡ suc (sent w)
  unfolding resume_instance
  sent-resume_instance pending target = ground arith

  sent-start_jarvislabs :
      (pending : GpuLifecycleState) (target : ℕ)
      → sent (start_jarvislabs pending target env w) ≤ suc (sent w)
  unfolding start_jarvislabs
  sent-start_jarvislabs pending target = ground arith

  sent-stop_outcome :
      (s : GpuLifecycleState) (e : Option ErrorText) → sent (stop_outcome s env w e) ≡ sent w
  unfolding stop_outcome
  sent-stop_outcome s none = refl
  sent-stop_outcome s (some e) = refl

  pub sent-stop_jarvislabs :
      (s : GpuLifecycleState) (target : ℕ)
      → sent (stop_jarvislabs s target env w) ≡ (if target == 0 then sent w else suc (sent w))
  unfolding stop_jarvislabs
  sent-stop_jarvislabs s target = ground (arith, sent-stop_outcome s (env.pause w.calls target))

module _ (config : GpuAutostartConfig) (env : Env) where
  sent-start_with :
      (p : GpuProvider) (s pending : GpuLifecycleState) (w : World)
      → sent (start_with p config s pending env w) ≤ suc (sent w)
  unfolding start_with
  sent-start_with jarvislabs s pending w = omega (
    arith,
    ap (length {0}) (resolve_commands config env w s),
    sent-start_jarvislabs env (resolve_machine_id config s env w).0 pending
        (resolve_machine_id config s env w).1,
  )
  sent-start_with webhook s pending w = ground arith

  pub sent-begin_start :
      (manual : Bool) (w : World) → sent (begin_start config manual env w) ≤ suc (sent w)
  unfolding begin_start
  sent-begin_start manual w =
      sent-start_with config.provider w.lifecycle (pending_state config manual env.now w.lifecycle)
        _
