-- ===== src/Core.antt =====
-- The provisioner services of src/domain/manager.go: `RunCoreHook`, `CoreInit` and
-- `loadManifestFromEntry`.
pub mod Push
pub mod Reset
mod Saved
pub mod Samples
use previewctl.Base.{
  join, sort, ℕ, zero, suc, ◌+◌, ◌-◌, ◌*◌, ◌/◌, ◌%◌, ◌^◌, ◌≤◌, ◌<◌, Bool, true, false, ◌&&◌, ◌||◌,
  not, Option, none, some, List, [], ◌∷◌, ◌++◌, map, reverse, ◌≡◌, refl, sym, ap, ◌∙◌, subst, ◌≢◌,
  ◌↔◌, ◌⊎◌, inl, inr, arith, Text, bytes, ◌==◌, eq_iff, eq_refl, Map, lookup, insert, erase, keys,
  lookup-insert, lookup-erase, HasUniqueKeys, if◌then◌else◌, ltb, leb, eqb, is_some, get_or,
  Bool-cases, Option-cases, length, elem, count, All, Result, ok, err,
}
use previewctl.Config.{is_empty, ProjectConfig, ProvisionerServiceConfig}
use previewctl.ComputeAccess.{ComputeAccess}
use previewctl.Destroy.{Tools}
use previewctl.Engine.{StatePort, Session, Action, on_step, step_simple, step_streaming, StepOpts}
use previewctl.Environment.{EnvironmentEntry, set_env, compose_project_name}
use previewctl.HookEnv.{run_core_hook}
use previewctl.Hooks.{extract_global_outputs}
use previewctl.Manifest.{Manifest}
use previewctl.Ports.{PortMap}
use previewctl.Propagate.{diff_store_keys, services_affected_by_change, to_restart}
use previewctl.Registry.{World, Setup, call, attempt, discard}
use previewctl.Registry.Steps.{named}
use previewctl.Runner.{save_to}
use previewctl.Runner.Forced.{run_steps, load_entry}

-- The manager: what its registries are made of, its tools, and the decoding of a manifest.
pub record Manager (C : Type 0) : Type 0 where
  pub base : Setup C
  pub tools : Tools C
  pub decode_manifest : Text → Result Manifest

-- `for k, v := range globals { entry.SetEnv(k, v) }`
unfoldable pub set_globals : Map Text → EnvironmentEntry → EnvironmentEntry
unfolding set_env
set_globals [] e = e
set_globals ((k, v) ∷ globals) e = set_globals globals (set_env k v e)

module _ {C : Type 0} where
  -- `loadManifestFromEntry`: the compute access of the entry, and the manifest that it reads. Reading
  -- leaves the machine as it is.
  unfoldable pub load_manifest :
      Manager C → EnvironmentEntry → C → Result (ComputeAccess C × Manifest)
  load_manifest manager entry c = elim entry.compute [
    | none ↦ err (bytes "environment '" ++ (entry.name ++ bytes "' has no compute info"))
    | some info ↦
        let access : ComputeAccess C =
          if info.type == bytes "ssh"
          then manager.tools.ssh_access entry
          else manager.tools.local_access info.path in
        elim (access.read_file (bytes ".previewctl.json") c).1 [
          | err e ↦ err (bytes "reading manifest from compute: " ++ e)
          | ok content ↦ elim (manager.decode_manifest content) [
            | err e ↦ err (bytes "parsing manifest: " ++ e)
            | ok manifest ↦ ok (access, manifest)
          ]
        ]
  ]

module _ {S C : Type 0} (port : StatePort S) (clock : ℕ → ℕ) (hostname : Text)
    (manager : Manager (S × C)) where
  -- `runCoreHook` inside a session.
  unfoldable pub core_hook :
      (service action env_name : Text)
      → PortMap
      → Session S (World C)
      → Session S (World C) × Result (Option (Map Text))
  unfolding call run_core_hook
  core_hook service action env_name ports = call (
      run_core_hook manager.base.host manager.tools.hook_process manager.base.cfg service action
        env_name ports [])

  -- `RunCoreHook`: the globals go to the environment's store, where there is an environment; an error
  -- of that is ignored.
  unfoldable pub run_core_hook_for :
      (service action env_name : Text)
      → Session S (World C)
      → Session S (World C) × Result (Option (Map Text))
  unfolding core_hook set_globals
  run_core_hook_for service action env_name s = elim (port.get_environment env_name s.store) [
    | err e ↦ (s, err (bytes "loading environment: " ++ e))
    | ok none ↦ core_hook service action env_name [] s
    | ok (some e) ↦
        let ran = core_hook service action env_name e.ports s in
        elim ran.1 [
          | err m ↦ (ran.0, err m)
          | ok outputs ↦ elim (extract_global_outputs (get_or outputs [])) [
            | [] ↦ (ran.0, ok outputs)
            | g ∷ gs ↦ (
              record ran.0 {
                store = (port.set_environment env_name (set_globals (g ∷ gs) e) ran.0.store).0;
              },
              ok outputs,
            )
          ]
        ]
  ]

  -- `CoreInit`
  unfoldable pub core_init : Text → Action S (World C)
  unfolding core_hook step_simple
  core_init service s = elim (lookup service manager.base.cfg.provisioner.services) [
    | none ↦ (s, err (bytes "unknown provisioner service '" ++ (service ++ bytes "'")))
    | some svc ↦
        let running = bytes "Running init hook for " ++ (service ++ bytes "...") in
        if is_empty svc.init
        then (
          s,
          err (bytes "provisioner service '" ++ (service ++ bytes "' has no init hook defined")),
        )
        else let ran =
            step_simple (bytes "core_init") running
              (bytes "Initialized provisioner service " ++ service)
              (λ t.
                let h =
                  core_hook service (bytes "init") [] []
                    (on_step (bytes "core_init") step_streaming running none t) in
                (h.0, discard h.1))
              s in
          (
            ran.0,
            elim ran.1 [
              | err e ↦
                  err (bytes "initializing provisioner service " ++ (service ++ (bytes ": " ++ e)))
              | ok _ ↦ ok tt
            ],
          )
  ]

  -- The entry that operations on an environment begin with.
  unfoldable pub load_remote :
      (problem env_name : Text) → Session S (World C) → Result EnvironmentEntry
  load_remote problem env_name s = elim (port.get_environment env_name s.store) [
    | err e ↦ err (problem ++ e)
    | ok none ↦ err (bytes "environment '" ++ (env_name ++ bytes "' not found"))
    | ok (some e) ↦ ok e
  ]
