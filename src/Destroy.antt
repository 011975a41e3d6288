-- ===== src/Destroy.antt =====
-- The end of an environment: `Destroy` of src/domain/manager.go. The hooks' processes, the compute
-- accesses that are made from an entry, and `m.compute` of src/domain/ports.go are parameters.
pub mod Kept
mod Removed
pub mod Samples
use previewctl.Base.{
  ℕ, zero, suc, ◌+◌, ◌-◌, ◌*◌, ◌/◌, ◌%◌, ◌^◌, ◌≤◌, ◌<◌, Bool, true, false, ◌&&◌, ◌||◌, not, Option,
  none, some, List, [], ◌∷◌, ◌++◌, map, reverse, ◌≡◌, refl, sym, ap, ◌∙◌, subst, ◌≢◌, ◌↔◌, ◌⊎◌, inl,
  inr, arith, Text, bytes, ◌==◌, eq_iff, eq_refl, Map, lookup, insert, erase, keys, lookup-insert,
  lookup-erase, HasUniqueKeys, if◌then◌else◌, ltb, leb, eqb, is_some, get_or, Bool-cases,
  Option-cases, length, elem, count, All, Result, ok, err,
}
use previewctl.Config.{
  RunnerConfig, is_empty, ProjectConfig, ProvisionerServiceConfig, ServiceConfig, is_configured,
  resolved_env_file,
}
use previewctl.ComputeAccess.{ComputeAccess}
use previewctl.Engine.{
  StatePort, Session, Action, on_step, step_simple, step_started, step_done, step_failed,
  step_streaming,
}
use previewctl.Environment.{EnvironmentEntry, ComputeAccessInfo, is_managed_worktree}
use previewctl.HookEnv.{Host, assigned, build_hook_env, run_core_hook, run_hook}
use previewctl.Registry.{discard}

-- What the manager is made of besides the state store, over the states `C` of what they work on:
-- the state store and the machine.
pub record Tools (C : Type 0) : Type 0 where
  pub host : Host
  pub hook_process : Text → List Text → C → C × Result Text
  pub local_access : Text → ComputeAccess C
  pub ssh_access : EnvironmentEntry → ComputeAccess C
  pub destroy_compute : Text → C → C × Result (Unit {0})
  pub stop_compute : Text → C → C × Result (Unit {0})
  pub remove_file : Text → C → C
  pub join_path : Text → Text → Text

-- The compute access that the entry describes, if it describes one.
unfoldable pub access_of : {C : Type 0} → Tools C → EnvironmentEntry → Option (ComputeAccess C)
access_of tools entry = elim entry.compute [
  | none ↦ none
  | some c ↦
      if c.type == bytes "ssh"
      then some (tools.ssh_access entry)
      else if c.type == bytes "local" && not (is_empty c.path)
      then some (tools.local_access c.path)
      else none
]

unfoldable pub is_local : EnvironmentEntry → Bool
is_local entry = elim entry.compute [ none ↦ false | some c ↦ c.type == bytes "local" ]

-- The two variables that a remote destroy hook has besides the others.
unfoldable pub machine_variables : EnvironmentEntry → List Text
machine_variables entry = elim entry.compute [
  | none ↦ []
  | some c ↦
      assigned (bytes "PREVIEWCTL_VM_IP") c.host
      ∷ assigned (bytes "PREVIEWCTL_SSH_USER") c.user
      ∷ []
]

-- The loop that takes the env files away, whose errors are ignored.
unfoldable pub remove_env_files : {C : Type 0} → Tools C → Text → Map ServiceConfig → C → C
unfolding resolved_env_file
remove_env_files tools path [] c = c
remove_env_files tools path ((name, svc) ∷ services) c =
    remove_env_files tools path services (
      tools.remove_file (tools.join_path (tools.join_path path svc.path) (resolved_env_file svc)) c)

module _ {S C : Type 0} where
  -- A call of something outside inside a session, of which only the error counts. A process that it
  -- starts can also write the state store, by `previewctl store set`.
  unfoldable pub outside : {A : Type 0} → (S × C → (S × C) × Result A) → Action S C
  outside run s =
      let ran = run (s.store, s.world) in
      (record s { store = ran.0.0; world = ran.0.1 }, discard ran.1)

  -- A step that shows that it streams before it calls.
  abbrev pub streamed : (step message : Text) → Action S C → Action S C
  streamed step message fn s = fn (on_step step step_streaming message none s)

  -- The stages of `Destroy` in order, each with what is put in front of its error. The first error
  -- ends the destruction.
  unfoldable pub run_stages : List (Text × Action S C) → Action S C
  run_stages [] s = (s, ok tt)
  run_stages ((prefix, stage) ∷ stages) s =
      let ran = stage s in
      elim ran.1 [ err e ↦ (ran.0, err (prefix ++ e)) | ok _ ↦ run_stages stages ran.0 ]

  -- runner.destroy, where it is configured and there is compute access.
  unfoldable pub runner_stage :
      Tools (S × C)
      → ProjectConfig
      → Text
      → EnvironmentEntry
      → Option RunnerConfig
      → Option (ComputeAccess (S × C))
      → List (Text × Action S C)
  unfolding outside
  runner_stage tools cfg env_name entry none access = []
  runner_stage tools cfg env_name entry (some runner) none = []
  runner_stage tools cfg env_name entry (some runner) (some access) =
      if is_configured runner.destroy
      then (
        bytes "runner destroy hook: ",
        step_simple (bytes "runner_destroy")
            (bytes "Running runner.destroy → " ++ runner.destroy.command)
            (bytes "Ran runner.destroy (" ++ (runner.destroy.command ++ bytes ")"))
            (streamed (bytes "runner_destroy")
              (bytes "Running runner.destroy → " ++ runner.destroy.command)
              (outside (
                access.verbose_exec runner.destroy.command
                  (build_hook_env tools.host cfg env_name access.root entry.ports entry.env)))),
      )
        ∷ []
      else []

  -- The destroy hooks of the provisioner's services.
  unfoldable pub core_stages :
      Tools (S × C)
      → ProjectConfig
      → Text
      → EnvironmentEntry
      → Map ProvisionerServiceConfig
      → List (Text × Action S C)
  unfolding outside run_core_hook
  core_stages tools cfg env_name entry [] = []
  core_stages tools cfg env_name entry ((name, svc) ∷ services) =
      let rest = core_stages tools cfg env_name entry services in
      let running = bytes "Running destroy hook for " ++ (name ++ bytes "...") in
      if is_empty svc.destroy
      then rest
      else (
        bytes "destroying provisioner service " ++ (name ++ bytes ": "),
        step_simple (bytes "destroy_core_" ++ name) running
            (bytes "Destroyed provisioner service " ++ name)
            (streamed (bytes "destroy_core_" ++ name) running (
              outside (
                run_core_hook tools.host tools.hook_process cfg name (bytes "destroy") env_name
                  entry.ports entry.env))),
      )
        ∷ rest

  -- The end of local compute: a worktree of the program's own goes, another is only stopped.
  unfoldable pub local_stage : Tools (S × C) → Text → EnvironmentEntry → List (Text × Action S C)
  unfolding is_local outside
  local_stage tools env_name entry =
      if is_local entry
      then (if is_managed_worktree entry
          then (
            bytes "destroying compute resources: ",
            step_simple (bytes "destroy_compute")
                (bytes "Removing worktree and stopping containers...")
                (bytes "Worktree and containers removed")
                (outside (tools.destroy_compute env_name)),
          )
            ∷ []
          else (
            bytes "stopping infrastructure: ",
            step_simple (bytes "stop_infra") (bytes "Stopping infrastructure containers...")
                (bytes "Infrastructure containers stopped") (outside (tools.stop_compute env_name)),
          )
            ∷ [])
      else []

  -- The hook that destroys remote compute, or the end of local compute.
  unfoldable pub compute_stage :
      Tools (S × C) → ProjectConfig → Text → EnvironmentEntry → List (Text × Action S C)
  unfolding local_stage machine_variables outside run_hook
  compute_stage tools cfg env_name entry =
      let script : Text = elim cfg.provisioner.compute [
        | none ↦ []
        | some compute ↦ compute.destroy
      ] in
      if is_empty script
      then local_stage tools env_name entry
      else (
        bytes "compute destroy hook: ",
        step_simple (bytes "destroy_compute_hook") (bytes "Destroying remote compute...")
            (bytes "Compute destroyed via hook")
            (streamed (bytes "destroy_compute_hook") (bytes "Destroying remote compute...") (
              outside (
                run_hook tools.host tools.hook_process script [] (
                  build_hook_env tools.host cfg env_name [] entry.ports entry.env
                  ++ machine_variables entry)))),
      )
        ∷ []

  -- The env files of local compute that has a path.
  unfoldable pub cleanup_stage :
      Tools (S × C)
      → ProjectConfig
      → EnvironmentEntry
      → Option ComputeAccessInfo
      → List (Text × Action S C)
  unfolding is_local remove_env_files
  cleanup_stage tools cfg entry none = []
  cleanup_stage tools cfg entry (some c) =
      if is_local entry && not (is_empty c.path)
      then (
        bytes "cleaning up env files: ",
        step_simple (bytes "cleanup_env") (bytes "Cleaning up env files...")
            (bytes "Env files cleaned up")
            (λ s.
              let left = remove_env_files tools c.path cfg.services (s.store, s.world) in
              (record s { store = left.0; world = left.1 }, ok tt)),
      )
        ∷ []
      else []

  -- What comes before the state is removed.
  unfoldable pub stages_before :
      Tools (S × C) → ProjectConfig → Text → EnvironmentEntry → List (Text × Action S C)
  unfolding runner_stage access_of core_stages compute_stage cleanup_stage
  stages_before tools cfg env_name entry =
      runner_stage tools cfg env_name entry cfg.runner (access_of tools entry)
      ++ (core_stages tools cfg env_name entry cfg.provisioner.services
          ++ (compute_stage tools cfg env_name entry
              ++ cleanup_stage tools cfg entry entry.compute))

  unfoldable pub remove_stage : StatePort S → Text → Text × Action S C
  remove_stage port env_name = (
    bytes "removing state: ",
    step_simple (bytes "remove_state") (bytes "Removing state...") (bytes "State removed") λ s.
        let removed = port.remove_environment env_name s.store in
        (record s { store = removed.0 }, removed.1),
  )

  -- `Destroy`
  unfoldable pub destroy : StatePort S → Tools (S × C) → ProjectConfig → Text → Action S C
  unfolding stages_before remove_stage run_stages
  destroy port tools cfg env_name s =
      let name = bytes "load_state" in
      let s' = on_step name step_started (bytes "Loading environment state...") none s in
      elim (port.get_environment env_name s.store) [
        | err e ↦
            (on_step name step_failed [] (some e) s', err (bytes "loading environment: " ++ e))
        | ok none ↦
            let missing = bytes "environment '" ++ (env_name ++ bytes "' not found") in
            (on_step name step_failed [] (some missing) s', err missing)
        | ok (some entry) ↦
            run_stages (stages_before tools cfg env_name entry ++ remove_stage port env_name ∷ [])
              (on_step name step_done (bytes "Environment state loaded") none s')
      ]
