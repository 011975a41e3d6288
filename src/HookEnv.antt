-- ===== src/HookEnv.antt =====
-- The environment variables that src/domain/manager.go and src/domain/environment.go give to hooks
-- and to docker compose, and the run of a provisioner service's hook. The process of a hook is a
-- parameter: its standard output or its error.

use previewctl.Base.{
  ◌||◌, Option, none, some, List, [], ◌∷◌, ◌++◌, Text, bytes, ◌==◌, Map, lookup, if◌then◌else◌, eqb,
  Result, ok, err,
}
use previewctl.Config.{is_empty, ProjectConfig, ProvisionerServiceConfig}
use previewctl.Ports.{PortMap}
use previewctl.Ports.{decimal}
use previewctl.Environment.{sanitize_name, compose_project_name}
use previewctl.Hooks.{execute_core_hook}

-- What the manager knows of the machine that it runs on: `os.Environ()`, its project root, and
-- `strings.ToUpper`.
pub record Host : Type 0 where
  pub environ : List Text
  pub project_root : Text
  pub to_upper : Text → Text

-- `name=value`
abbrev pub assigned : Text → Text → Text
assigned name value = name ++ (bytes "=" ++ value)

-- `strings.ReplaceAll(name, "-", "_")`
unfoldable pub underscored : Text → Text
underscored [] = []
underscored (c ∷ name) = (if eqb c b'-' then b'_' else c) ∷ underscored name

module _ (host : Host) where
  -- `strings.ToUpper(strings.ReplaceAll(name, "-", "_"))`
  abbrev pub upper_name : Text → Text
  upper_name name = host.to_upper (underscored name)

  -- The loop over the ports.
  unfoldable pub port_variables : PortMap → List Text
  unfolding underscored
  port_variables [] = []
  port_variables ((name, port) ∷ ports) =
      assigned (bytes "PREVIEWCTL_PORT_" ++ upper_name name) (decimal port) ∷ port_variables ports

  -- The loop over the environment's store.
  unfoldable pub store_variables : Map Text → List Text
  unfolding underscored
  store_variables [] = []
  store_variables ((key, value) ∷ store) =
      assigned (bytes "PREVIEWCTL_STORE_" ++ upper_name key) value ∷ store_variables store

  -- `buildHookEnv`
  unfoldable pub build_hook_env :
      ProjectConfig → (env_name worktree_path : Text) → PortMap → Map Text → List Text
  unfolding port_variables store_variables
  build_hook_env cfg env_name worktree_path ports store =
      host.environ
      ++ (assigned (bytes "PREVIEWCTL_ENV_NAME") env_name
          ∷ assigned (bytes "PREVIEWCTL_ENVIRONMENT_NAME") (sanitize_name env_name)
          ∷ assigned (bytes "PREVIEWCTL_PROJECT_NAME") cfg.name
          ∷ assigned (bytes "PREVIEWCTL_PROJECT_ROOT") host.project_root
          ∷ assigned (bytes "PREVIEWCTL_MODE") cfg.mode
          ∷ ((if is_empty worktree_path
                then []
                else assigned (bytes "PREVIEWCTL_WORKTREE_PATH") worktree_path ∷ [])
              ++ (port_variables ports ++ store_variables store)))

  -- The environment of `runCoreHook`.
  unfoldable pub core_hook_env :
      ProjectConfig → (service action env_name : Text) → PortMap → Map Text → List Text
  unfolding port_variables store_variables
  core_hook_env cfg service action env_name ports store =
      host.environ
      ++ (assigned (bytes "PREVIEWCTL_ENV_NAME") env_name
          ∷ assigned (bytes "PREVIEWCTL_ENVIRONMENT_NAME") (sanitize_name env_name)
          ∷ assigned (bytes "PREVIEWCTL_ACTION") action
          ∷ assigned (bytes "PREVIEWCTL_PROJECT_NAME") cfg.name
          ∷ assigned (bytes "PREVIEWCTL_SERVICE_NAME") service
          ∷ assigned (bytes "PREVIEWCTL_PROJECT_ROOT") host.project_root
          ∷ (port_variables ports ++ store_variables store))

  -- The loop of `BuildComposeEnv`.
  unfoldable pub compose_port_variables : PortMap → List Text
  unfolding underscored
  compose_port_variables [] = []
  compose_port_variables ((name, port) ∷ ports) =
      assigned (upper_name name ++ bytes "_PORT") (decimal port) ∷ compose_port_variables ports

  -- `BuildComposeEnv`
  unfoldable pub build_compose_env : (project_name env_name : Text) → PortMap → List Text
  unfolding compose_port_variables
  build_compose_env project_name env_name ports =
      assigned (bytes "COMPOSE_PROJECT_NAME") (compose_project_name project_name env_name)
      ∷ compose_port_variables ports

-- The script of an action; of no other action is there one.
unfoldable pub hook_script : ProvisionerServiceConfig → Text → Text
hook_script svc action =
    if action == bytes "init"
    then svc.init
    else if action == bytes "seed"
    then svc.seed
    else if action == bytes "reset"
    then svc.reset
    else if action == bytes "destroy"
    then svc.destroy
    else []

-- The outputs that a hook has to print.
unfoldable pub required_hook_outputs : ProvisionerServiceConfig → Text → List Text
required_hook_outputs svc action =
    if action == bytes "seed" || action == bytes "reset" then svc.outputs else []

-- `hook_process` runs a hook's script with an environment, over the states `C` of all that a process
-- can change: the machine and, by `previewctl store set`, the state store.
module _ {C : Type 0} (host : Host) (hook_process : Text → List Text → C → C × Result Text) where
  -- `ExecuteCoreHook`
  unfoldable pub run_hook : Text → List Text → List Text → C → C × Result (Map Text)
  unfolding execute_core_hook
  run_hook script declared env c =
      let ran = hook_process script env c in (ran.0, execute_core_hook ran.1 declared)

  -- `runCoreHook`; without a script nothing runs and there are no outputs, which is none.
  unfoldable pub run_core_hook :
      ProjectConfig
      → (service action env_name : Text) → PortMap
      → Map Text
      → C
      → C × Result (Option (Map Text))
  unfolding hook_script required_hook_outputs core_hook_env run_hook
  run_core_hook cfg service action env_name ports store c =
      elim (lookup service cfg.provisioner.services) [
        | none ↦ (c, err (bytes "unknown provisioner service '" ++ (service ++ bytes "'")))
        | some svc ↦
            if is_empty (hook_script svc action)
            then (c, ok none)
            else let ran =
                run_hook (hook_script svc action) (required_hook_outputs svc action)
                  (core_hook_env host cfg service action env_name ports store) c in
              (ran.0, elim ran.1 [ err e ↦ err e | ok outputs ↦ ok (some outputs) ])
      ]
