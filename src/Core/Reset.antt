-- ===== src/Core/Reset.antt =====
-- `CoreReset` of src/domain/manager.go.
use previewctl.Core.{Manager, load_remote, core_hook, set_globals}
use previewctl.Core.Push.{propagate_provisioner_change}
use previewctl.Base.{
  ℕ, Bool, none, some, [], ◌++◌, Text, bytes, Map, lookup, insert, if◌then◌else◌, ok, err,
}
use previewctl.Config.{is_empty}
use previewctl.Engine.{StatePort, Action, on_step, step_simple, step_streaming}
use previewctl.Environment.{EnvironmentEntry}
use previewctl.Hooks.{extract_global_outputs}
use previewctl.Propagate.{diff_store_keys}
use previewctl.Registry.{World}
use previewctl.Runner.{save_to}

-- What `CoreReset` makes of the entry.
unfoldable pub reset_entry : Text → Map Text → EnvironmentEntry → EnvironmentEntry
unfolding set_globals
reset_entry service outputs e =
    set_globals (extract_global_outputs outputs)
      (record e { provisioner_outputs = insert service outputs e.provisioner_outputs })

module _ {S C : Type 0} (port : StatePort S) (clock : ℕ → ℕ) (hostname : Text)
    (manager : Manager (S × C)) where
  -- The function of the step of `CoreReset`, on the entry of the session.
  unfoldable pub reset_fn : (service env_name : Text) → EnvironmentEntry → Action S (World C)
  unfolding core_hook reset_entry
  reset_fn service env_name e s =
      let ran = core_hook port clock hostname manager service (bytes "reset") env_name e.ports (
        on_step (bytes "core_reset") step_streaming
          (bytes "Running reset hook for " ++ (service ++ bytes "...")) none s) in
      elim ran.1 [
        | err m ↦ (ran.0, err m)
        | ok none ↦ (ran.0, ok tt)
        | ok (some outputs) ↦
            let e' = reset_entry service outputs e in
            save_to port clock hostname env_name e' (record ran.0 { entry = some e' })
      ]

  -- What follows a reset: nothing, or the push of the change.
  unfoldable pub after_reset :
      (service env_name : Text) → (no_propagate : Bool) → Map Text → Action S (World C)
  unfolding propagate_provisioner_change
  after_reset service env_name no_propagate before s =
      if no_propagate
      then (s, ok tt)
      else propagate_provisioner_change port clock hostname manager env_name service
          (diff_store_keys before (elim s.entry [ none ↦ [] | some e ↦ e.env ])) s

  -- `CoreReset` from the entry on.
  unfoldable pub reset_loaded :
      (service env_name : Text) → (no_propagate : Bool) → EnvironmentEntry → Action S (World C)
  unfolding reset_fn step_simple after_reset
  reset_loaded service env_name no_propagate e s =
      let ran =
        step_simple (bytes "core_reset")
          (bytes "Running reset hook for " ++ (service ++ bytes "..."))
          (bytes "Reset provisioner service " ++ (service ++ (bytes " for " ++ env_name)))
          (reset_fn service env_name e) (record s { entry = some e }) in
      elim ran.1 [
        | err m ↦
            (ran.0, err (bytes "resetting provisioner service " ++ (service ++ (bytes ": " ++ m))))
        | ok _ ↦ after_reset service env_name no_propagate e.env ran.0
      ]

  -- `CoreReset`
  unfoldable pub core_reset : (service env_name : Text) → (no_propagate : Bool) → Action S (World C)
  unfolding load_remote reset_loaded
  core_reset service env_name no_propagate s =
      elim (lookup service manager.base.cfg.provisioner.services) [
        | none ↦ (s, err (bytes "unknown provisioner service '" ++ (service ++ bytes "'")))
        | some svc ↦
            if is_empty svc.reset
            then (
              s,
              err (
                  bytes "provisioner service '"
                  ++ (service ++ bytes "' has no reset hook defined")),
            )
            else elim (load_remote port clock hostname manager (bytes "loading environment: ")
                env_name s) [
                  | err e ↦ (s, err e)
                  | ok e ↦ reset_loaded service env_name no_propagate e s
                ]
      ]
