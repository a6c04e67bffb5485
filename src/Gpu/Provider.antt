-- ===== src/Gpu/Provider.antt =====
-- The JarvisLabs instance that the service acts on (getInstance, resolveMachineId,
-- getProviderState) in apps/backend/src/services/gpu-lifecycle.service.ts.
use event_media_platform.Prelude.{
  ℕ, ◌+◌, Bool, true, false, not, ◌&&◌, List, [], ◌∷◌, Option, none, some, ltb, ◌==◌, if◌then◌else◌,
  find,
}
use event_media_platform.Prelude.Text.{codes, eq_text, to_lower}
use event_media_platform.Gpu.State.{
  GpuProvider, webhook, jarvislabs, GpuAutostartConfig, GpuLifecycleState, Instance, Env, replied,
  threw, InstanceCache, World, call,
}

-- PROVIDER_CHECK_INTERVAL_MS
abbrev pub provider_check_interval_ms : ℕ
provider_check_interval_ms = 600000

-- INSTANCE_CACHE_MS
abbrev pub instance_cache_ms : ℕ
instance_cache_ms = 20000

-- The instance that a listing stands for: the configured one, or else the only one.
unfoldable pub pick_instance : ℕ → List Instance → Option Instance
pick_instance configured instances =
    elim (if configured == 0 then none else find (λ row. row.machine_id == configured) instances) [
      | some row ↦ some row
      | none ↦ elim instances [
        | [] ↦ none
        | first ∷ rest ↦ elim rest [ [] ↦ some first | second ∷ more ↦ none ]
      ]
    ]

-- The cached answer, while it is fresh.
unfoldable pub fresh_instance : Env → Option InstanceCache → Option (Option Instance)
fresh_instance env none = none
fresh_instance env (some c) =
    if ltb env.now (c.at + instance_cache_ms) then some c.instance_of else none

abbrev pub remember : Env → Option Instance → World → World
remember env i w = record w { instance_cache = some (record { at = env.now; instance_of = i }) }

unfoldable pub list_instances : GpuAutostartConfig → Env → World → World × Option Instance
unfolding pick_instance
list_instances config env w = elim (env.list w.calls) [
  | replied instances ↦
      let i = pick_instance config.jarvislabs_machine_id instances in (remember env i (call w), i)
  | threw e ↦ (remember env none (call w), none)
]

-- getInstance
unfoldable pub get_instance : GpuAutostartConfig → Env → World → World × Option Instance
unfolding fresh_instance list_instances
get_instance config env w = elim (fresh_instance env w.instance_cache) [
  | some i ↦ (w, i)
  | none ↦ if env.configured then list_instances config env w else (w, none)
]

-- `a || b` on an id that may be missing or empty.
abbrev pub or_else : Option ℕ → ℕ → ℕ
or_else none b = b
or_else (some a) b = if a == 0 then b else a

abbrev pub id_of : Option Instance → Option ℕ
id_of none = none
id_of (some i) = some i.machine_id

-- resolveMachineId
unfoldable pub resolve_machine_id : GpuAutostartConfig → GpuLifecycleState → Env → World → World × ℕ
resolve_machine_id config state env w =
    let (w', live) = get_instance config env w in
    (w', or_else (id_of live) (or_else state.machine_id config.jarvislabs_machine_id))

-- `status?.toLowerCase() === 'running'`
unfoldable pub says_running : Option (List ℕ) → Bool
says_running none = false
says_running (some status) = eq_text (to_lower status) (codes "running")

pub data ProviderState : Type 0 where
  running paused : ProviderState

-- A missing or empty status is no answer.
unfoldable pub read_status : Option Instance → Option ProviderState
unfolding says_running
read_status none = none
read_status (some i) = elim i.status [
  | none ↦ none
  | some text ↦ elim text [
    | [] ↦ none
    | c ∷ rest ↦
        if says_running i.status then some ProviderState.running else some ProviderState.paused
  ]
]

abbrev pub is_jarvislabs : GpuProvider → Bool
is_jarvislabs jarvislabs = true
is_jarvislabs webhook = false

unfoldable pub query_status : ℕ → Env → World → World × Option ProviderState
unfolding read_status
query_status target env w = elim (env.get w.calls target) [
  | replied i ↦ (call w, read_status i)
  | threw e ↦ (call w, none)
]

-- getProviderState
unfoldable pub get_provider_state :
    GpuAutostartConfig → GpuLifecycleState → Env → World → World × Option ProviderState
unfolding query_status
get_provider_state config state env w =
    if not (is_jarvislabs config.provider && env.configured)
    then (w, none)
    else if ltb env.now (w.last_provider_check_at + provider_check_interval_ms)
    then (w, none)
    else let (w', target) =
        resolve_machine_id config state env (record w { last_provider_check_at = env.now }) in
      if target == 0 then (w', none) else query_status target env w'
