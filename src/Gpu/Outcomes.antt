-- ===== src/Gpu/Outcomes.antt =====
-- What `start` and `stop` of gpu-lifecycle.service.ts leave in the stored state, and what they ask
-- of the machine, on every branch.
use event_media_platform.Prelude.{
  inr, inl, Bool-cases, ℕ, suc, ◌≤◌, ◌<◌, ◌≡◌, refl, ap, ◌∙◌, ◌⊎◌, Bool, true, false, ◌∷◌, Option,
  none, some, arith, ◌==◌, length,
}
use event_media_platform.Gpu.State.{
  send, posts_stop, GpuProvider, webhook, jarvislabs, GpuAutostartConfig, GpuLifecycleState, off,
  starting, stopping, Instance, Env, ErrorText, Command, pauses, AuditAction, World, set_state,
  audit,
}
use event_media_platform.Gpu.Provider.{get_instance, resolve_machine_id}
use event_media_platform.Gpu.Control.{
  begin_start, is_up, stop_outcome, stop_jarvislabs, stop_with, stopping_state, start, stop,
}
use event_media_platform.Gpu.Commands.{
  commands, sent, resolve_commands, sent-begin_start, sent-stop_jarvislabs,
}

-- The box is coming, or the start failed and the reason is kept.
abbrev pub StartOutcome : ℕ → GpuLifecycleState → Type 0
StartOutcome now s =
    ((s.state ≡ starting) × (s.since ≡ now) × (s.idle_since ≡ none) × (s.last_error ≡ none))
    ⊎ ((e : ErrorText) × (s.state ≡ off) × (s.idle_since ≡ none) × (s.last_error ≡ some e))

-- The box is off, or the stop failed and the reason is kept while the state stays `stopping`.
abbrev pub StopOutcome : ℕ → GpuLifecycleState → Type 0
StopOutcome now s =
    (s.since ≡ now)
    × (s.hold_until ≡ none)
    × (s.idle_since ≡ none)
    × (((s.state ≡ off) × (s.last_error ≡ none) × (s.last_stopped_at ≡ some now))
        ⊎ ((e : ErrorText) × (s.state ≡ stopping) × (s.last_error ≡ some e)))

module _ (config : GpuAutostartConfig) (env : Env) (w : World) where
  begin_start_outcome :
      (manual : Bool) → StartOutcome env.now (begin_start config manual env w).lifecycle
  unfolding begin_start
  begin_start_outcome manual = ground arith

module _ (config : GpuAutostartConfig) (env : Env) where
  pub start_cases :
      (manual : Bool) (w : World)
      → let w' = start config manual env w in
        (is_up w.lifecycle.state ≡ true
          → (sent w' ≡ sent w) × (w'.lifecycle.state ≡ w.lifecycle.state))
        × (is_up w.lifecycle.state ≡ false
            → (sent w' ≤ suc (sent w)) × StartOutcome env.now w'.lifecycle)
  unfolding start
  start_cases manual w = (
    λ up. ground arith,
    λ down.
        ground
          (arith, begin_start_outcome config env w manual, sent-begin_start config env manual w),
  )

  -- A start of a box that is starting or running sends nothing and leaves the recorded state; any
  -- other start sends one command at most, and ends either in `starting` from now with the idle
  -- countdown and the last error cleared, or in `off` with the error kept.
  pub start_once :
      (manual : Bool) (w : World)
      → let w' = start config manual env w in
        ((is_up w.lifecycle.state ≡ true)
          × (sent w' ≡ sent w)
          × (w'.lifecycle.state ≡ w.lifecycle.state))
        ⊎ ((is_up w.lifecycle.state ≡ false)
            × (sent w' ≤ suc (sent w))
            × StartOutcome env.now w'.lifecycle)
  start_once manual w = elim (Bool-cases (is_up w.lifecycle.state)) [
    | inl up ↦ let c = (start_cases manual w).0 up in inl (up, c.0, c.1)
    | inr down ↦ let c = (start_cases manual w).1 down in inr (down, c.0, c.1)
  ]

module _ (config : GpuAutostartConfig) (env : Env) where
  -- The listing does not look at the recorded state.
  get_instance_same :
      (v w : World)
      → v.instance_cache ≡ w.instance_cache
      → v.calls ≡ w.calls
      → (get_instance config env v).1 ≡ (get_instance config env w).1
  unfolding get_instance
  get_instance_same v w p q = ground arith

  stop_with-sent_of_off :
      (p : GpuProvider) (s t : GpuLifecycleState) (w : World)
      → t.state ≡ stopping
      → (stop_with p config s t env w).lifecycle.state ≡ off
      → sent (stop_with p config s t env w) ≡ suc (sent w)
  unfolding stop_with
  stop_with-sent_of_off jarvislabs s t w h o = ground (
    arith,
    ap (length {0}) (resolve_commands config env w s),
    sent-stop_jarvislabs env (resolve_machine_id config s env w).0 t
        (resolve_machine_id config s env w).1,
  )
  stop_with-sent_of_off webhook s t w h o = ground arith

  stop_lifecycle : (w : World) → StopOutcome env.now (stop config env w).lifecycle
  unfolding stop stop_with
  stop_lifecycle w = ground arith

  pub stop_cases :
      (w : World)
      → let w' = stop config env w in
        StopOutcome env.now w'.lifecycle × (w'.lifecycle.state ≡ off → sent w' ≡ suc (sent w))
  unfolding stop
  stop_cases w = (
    stop_lifecycle w,
    stop_with-sent_of_off config.provider w.lifecycle (stopping_state env.now w.lifecycle) _ refl,
  )

  -- The call that stops the box: the pause of an instance with an id, or a post to the stop URL.
  abbrev pub IsStopCall : GpuProvider → Command → Type 0
  IsStopCall jarvislabs c = (id : ℕ) × (c ≡ pauses id) × (0 < id)
  IsStopCall webhook c = (c ≡ posts_stop config.stop_webhook_url) × (0 < config.stop_webhook_url)

  -- Exactly one such call was sent.
  abbrev pub HasStopCall : GpuProvider → World → World → Type 0
  HasStopCall p w w' = (c : Command) × IsStopCall p c × (commands w'.trace ≡ c ∷ commands w.trace)

  commands-stop_outcome :
      (s : GpuLifecycleState) (w : World) (e : Option ErrorText)
      → commands (stop_outcome s env w e).trace ≡ commands w.trace
  unfolding stop_outcome
  commands-stop_outcome s w none = refl
  commands-stop_outcome s w (some e) = refl

  stop_with-calls :
      (p : GpuProvider) (s t : GpuLifecycleState) (w : World)
      → t.state ≡ stopping
      → let w' = stop_with p config s t env w in
        ((w'.lifecycle.state ≡ stopping) × (commands w'.trace ≡ commands w.trace))
        ⊎ HasStopCall p w w'
  unfolding stop_with stop_jarvislabs
  stop_with-calls jarvislabs s t w h =
      let found = resolve_machine_id config s env w in
      let v = found.0 in
      let target = found.1 in
      elim (Bool-cases (target == 0)) [
        | inl z ↦ rw (z, stop_with) (inl (h, resolve_commands config env w s))
        | inr z ↦
            rw (z, stop_with)
              (inr (
                pauses target,
                (target, refl, ground arith),
                commands-stop_outcome t (send (pauses target) v) (env.pause v.calls target)
                    ∙ ap (λ rest. pauses target ∷ rest) (resolve_commands config env w s),
              ))
      ]
  stop_with-calls webhook s t w h = elim (Bool-cases (config.stop_webhook_url == 0)) [
    | inl z ↦ rw (z, stop_with) (inl (h, refl))
    | inr z ↦
        rw (z, stop_with)
          (inr (
            posts_stop config.stop_webhook_url,
            (refl, ground arith),
            commands-stop_outcome t (send (posts_stop config.stop_webhook_url) w)
                (env.post w.calls config.stop_webhook_url),
          ))
  ]

  -- A stop clears the hold and the idle countdown, and then ends in `off` with no error recorded, and
  -- the commands that it sent are one pause of an instance (with JarvisLabs) or one post to the stop
  -- URL (with webhooks); or it stays in `stopping` with the error kept, and sent that or nothing.
  pub stop_needs_call :
      (w : World)
      → let w' = stop config env w in
        (w'.lifecycle.hold_until ≡ none)
        × (w'.lifecycle.idle_since ≡ none)
        × (((w'.lifecycle.state ≡ off)
              × (w'.lifecycle.last_error ≡ none)
              × HasStopCall config.provider w w')
            ⊎ ((e : ErrorText) × (w'.lifecycle.state ≡ stopping)
                × (w'.lifecycle.last_error ≡ some e)
                × ((commands w'.trace ≡ commands w.trace) ⊎ HasStopCall config.provider w w')))
  unfolding stop
  stop_needs_call w =
      let s = stopping_state env.now w.lifecycle in
      let calls =
        stop_with-calls config.provider w.lifecycle s (audit AuditAction.gpu_stop (set_state s w))
          refl in
      let (since, hold, idle, outcome) = stop_lifecycle w in
      elim outcome [
        | inl (o, e, t) ↦ elim calls [
          | inl (x, y) ↦ cc (rw o at x)
          | inr call ↦ (hold, idle, inl (o, e, call))
        ]
        | inr (e, o, t) ↦ elim calls [
          | inl (x, y) ↦ (hold, idle, inr (e, o, t, inl y))
          | inr call ↦ (hold, idle, inr (e, o, t, inr call))
        ]
      ]

  stop_with_live :
      (p : GpuProvider) (s t : GpuLifecycleState) (w : World) (i : Instance)
      → p ≡ jarvislabs
      → (get_instance config env w).1 ≡ some i
      → 0 < i.machine_id
      → commands (stop_with p config s t env w).trace ≡ pauses i.machine_id ∷ commands w.trace
  unfolding stop_with stop_jarvislabs stop_outcome resolve_machine_id
  stop_with_live jarvislabs s t w i e live h = ground (arith, resolve_commands config env w s)
  stop_with_live webhook s t w i e live h = cc

  -- With JarvisLabs, and an instance of a non-empty id found by the listing or its cache, a stop
  -- sends exactly one command, the pause of that instance, whatever id is configured or recorded.
  pub stop_pauses_live :
      (w : World) (i : Instance)
      → config.provider ≡ jarvislabs
      → (get_instance config env w).1 ≡ some i
      → 0 < i.machine_id
      → commands (stop config env w).trace ≡ pauses i.machine_id ∷ commands w.trace
  unfolding stop
  stop_pauses_live w i e live h =
      let w' : World =
        audit AuditAction.gpu_stop (set_state (stopping_state env.now w.lifecycle) w) in
      stop_with_live config.provider w.lifecycle (stopping_state env.now w.lifecycle) w' i e
        (get_instance_same w' w refl refl ∙ live) h
