-- ===== src/Registry/Steps.antt =====
-- src/domain/step_registry.go: `get`, which makes the step of a name.
use previewctl.Base.{Text, bytes, ◌==◌, if◌then◌else◌}
use previewctl.Engine.{StepOpts}
use previewctl.Registry.{World, Setup}
use previewctl.Registry.Files.{generate_manifest, generate_env, generate_compose, generate_nginx}
use previewctl.Registry.Containers.{sync_code, start_infra, build_services, start_services}
use previewctl.Registry.HookSteps.{unset_hook, runner_before, runner_deploy, runner_after}

module _ {S C : Type 0} where
  -- The switch of `get`. A name that it does not know has an idle step here, which `registry_get` does
  -- not reach.
  unfoldable pub named : Setup (S × C) → Text → StepOpts S (World C)
  named setup name =
      if name == bytes "sync_code"
      then sync_code setup
      else if name == bytes "generate_manifest"
      then generate_manifest setup
      else if name == bytes "runner_before"
      then runner_before setup
      else if name == bytes "generate_env"
      then generate_env setup
      else if name == bytes "start_infra"
      then start_infra setup
      else if name == bytes "generate_compose"
      then generate_compose setup
      else if name == bytes "generate_nginx"
      then generate_nginx setup
      else if name == bytes "build_services"
      then build_services setup
      else if name == bytes "start_services"
      then start_services setup
      else if name == bytes "runner_deploy"
      then runner_deploy setup
      else if name == bytes "runner_after"
      then runner_after setup
      else unset_hook name name
