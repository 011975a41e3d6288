-- ===== src/Registry/Fits.antt =====
-- src/domain/step_registry.go: the steps of the registry as the runner phase needs them.
use previewctl.Engine.Tame.{
  IsApart, IsApart-IsQuiet, IsTame, unverified-IsTame, verified-IsTame, either, IsTame-KeepsEntry,
  IsTame-LeavesRecords,
}
use previewctl.Registry.Steps.{named}
use previewctl.Registry.Tame.{hook_step-IsTame}
use previewctl.Registry.Quiet.{
  check_file-IsApart, check_listed-IsApart, regenerate_manifest-IsApart, write_env_files-IsApart,
  check_env_files-IsApart, write_compose_file-IsApart, write_nginx_files-IsApart,
  fetch_code-IsApart, infra_up-IsApart, check_infra-IsApart, run_builds-IsApart,
  services_up-IsQuiet,
}
use previewctl.Base.{
  Option, none, some, ◌≡◌, refl, sym, ◌∙◌, inl, inr, Text, bytes, ◌==◌, if◌then◌else◌, Text-cases,
}
use previewctl.Engine.{Action, StepOpts}
use previewctl.Registry.{World, Setup}
use previewctl.Registry.Files.{
  generate_manifest, check_env_files, generate_env, generate_compose, generate_nginx,
}
use previewctl.Registry.Containers.{
  sync_code, check_infra, start_infra, build_services, start_services,
}
use previewctl.Registry.HookSteps.{
  unset_hook, set_hook, hook_step, runner_before, runner_deploy, runner_after,
}
use previewctl.Runner.Order.{IsRegistry}
use previewctl.Config.{RunnerConfig, CommandHook, is_configured}

module _ {S C : Type 0} where
  -- The steps one by one.
  abbrev IsFit : Text → StepOpts S (World C) → Type 0
  IsFit name opts = (opts.name ≡ name) × IsTame opts

  fit :
      (name label : Text) (this other : StepOpts S (World C))
      → IsFit label this
      → IsFit name other
      → IsFit name (if name == label then this else other)
  fit name label this other h k = elim (Text-cases name label) [
    | inl e ↦ either (IsFit name) (name == label) this other (h.0 ∙ sym e, h.1) k
    | inr n ↦ rw (n) k
  ]

  quiet_step : (opts : StepOpts S (World C)) → opts.verify ≡ none → IsApart opts.fn → IsTame opts
  quiet_step opts h a = unverified-IsTame opts h (IsApart-IsQuiet opts.fn a)

  checked_step :
      (opts : StepOpts S (World C)) (check : Action S (World C))
      → opts.verify ≡ some check
      → IsApart check
      → IsApart opts.fn
      → IsTame opts
  checked_step opts check h c a = verified-IsTame opts check h c (IsApart-IsQuiet opts.fn a)

  hook_step-name :
      (setup : Setup (S × C)) (step hook : Text) (pick : RunnerConfig → CommandHook)
      (runner : Option RunnerConfig) (opts : StepOpts S (World C))
      → opts ≡ hook_step setup step hook pick runner
      → opts.name ≡ step
  unfolding hook_step unset_hook set_hook
  hook_step-name setup step hook pick none opts e = rw (e) refl
  hook_step-name setup step hook pick (some r) opts e = rw (e) (
      either (λ (o : StepOpts S (World C)). o.name ≡ step) (is_configured (pick r))
        (set_hook setup step hook (pick r)) (unset_hook step hook) refl refl)

  sync_code-IsFit : (setup : Setup (S × C)) → IsFit (bytes "sync_code") (sync_code setup)
  unfolding sync_code
  sync_code-IsFit setup = (refl, quiet_step (sync_code setup) refl (fetch_code-IsApart setup))

  generate_manifest-IsFit :
      (setup : Setup (S × C)) → IsFit (bytes "generate_manifest") (generate_manifest setup)
  unfolding generate_manifest
  generate_manifest-IsFit setup =
      (refl, quiet_step (generate_manifest setup) refl (regenerate_manifest-IsApart setup))

  runner_before-IsFit :
      (setup : Setup (S × C)) → IsFit (bytes "runner_before") (runner_before setup)
  unfolding runner_before
  runner_before-IsFit setup = (
    hook_step-name setup (bytes "runner_before") (bytes "runner.before")
        (λ (r : RunnerConfig). r.before) setup.cfg.runner (runner_before setup) refl,
    hook_step-IsTame setup (bytes "runner_before") (bytes "runner.before")
        (λ (r : RunnerConfig). r.before) setup.cfg.runner,
  )

  generate_env-IsFit : (setup : Setup (S × C)) → IsFit (bytes "generate_env") (generate_env setup)
  unfolding generate_env
  generate_env-IsFit setup = (
    refl,
    checked_step (generate_env setup) (check_env_files setup) refl (check_env_files-IsApart setup)
        (write_env_files-IsApart setup),
  )

  start_infra-IsFit : (setup : Setup (S × C)) → IsFit (bytes "start_infra") (start_infra setup)
  unfolding start_infra
  start_infra-IsFit setup = (
    refl,
    checked_step (start_infra setup) (check_infra setup) refl (check_infra-IsApart setup)
        (infra_up-IsApart setup),
  )

  generate_compose-IsFit :
      (setup : Setup (S × C)) → IsFit (bytes "generate_compose") (generate_compose setup)
  unfolding generate_compose
  generate_compose-IsFit setup = (
    refl,
    checked_step (generate_compose setup) _ refl (check_file-IsApart setup _ _)
        (write_compose_file-IsApart setup),
  )

  generate_nginx-IsFit :
      (setup : Setup (S × C)) → IsFit (bytes "generate_nginx") (generate_nginx setup)
  unfolding generate_nginx
  generate_nginx-IsFit setup = (
    refl,
    checked_step (generate_nginx setup) _ refl (check_file-IsApart setup _ _)
        (write_nginx_files-IsApart setup),
  )

  build_services-IsFit :
      (setup : Setup (S × C)) → IsFit (bytes "build_services") (build_services setup)
  unfolding build_services
  build_services-IsFit setup =
      (refl, quiet_step (build_services setup) refl (run_builds-IsApart setup))

  start_services-IsFit :
      (setup : Setup (S × C)) → IsFit (bytes "start_services") (start_services setup)
  unfolding start_services
  start_services-IsFit setup = (
    refl,
    verified-IsTame (start_services setup) _ refl (check_listed-IsApart setup _ _)
        (services_up-IsQuiet setup),
  )

  runner_deploy-IsFit :
      (setup : Setup (S × C)) → IsFit (bytes "runner_deploy") (runner_deploy setup)
  unfolding runner_deploy
  runner_deploy-IsFit setup = (
    hook_step-name setup (bytes "runner_deploy") (bytes "runner.deploy")
        (λ (r : RunnerConfig). r.deploy) setup.cfg.runner (runner_deploy setup) refl,
    hook_step-IsTame setup (bytes "runner_deploy") (bytes "runner.deploy")
        (λ (r : RunnerConfig). r.deploy) setup.cfg.runner,
  )

  runner_after-IsFit : (setup : Setup (S × C)) → IsFit (bytes "runner_after") (runner_after setup)
  unfolding runner_after
  runner_after-IsFit setup = (
    hook_step-name setup (bytes "runner_after") (bytes "runner.after")
        (λ (r : RunnerConfig). r.after) setup.cfg.runner (runner_after setup) refl,
    hook_step-IsTame setup (bytes "runner_after") (bytes "runner.after")
        (λ (r : RunnerConfig). r.after) setup.cfg.runner,
  )

  unset_hook-IsFit : (n : Text) → IsFit n (unset_hook n n)
  unfolding unset_hook
  unset_hook-IsFit n = (
    refl,
    quiet_step (unset_hook n n) refl (record { same_entry = λ s. refl; keeps_cache = λ s. refl }),
  )

  named-IsFit : (setup : Setup (S × C)) (name : Text) → IsFit name (named setup name)
  unfolding named
  named-IsFit setup name =
      fit name (bytes "sync_code") (sync_code setup) _ (sync_code-IsFit setup) (
        fit name (bytes "generate_manifest") (generate_manifest setup) _
          (generate_manifest-IsFit setup)
          (fit name (bytes "runner_before") (runner_before setup) _ (runner_before-IsFit setup) (
            fit name (bytes "generate_env") (generate_env setup) _ (generate_env-IsFit setup) (
              fit name (bytes "start_infra") (start_infra setup) _ (start_infra-IsFit setup) (
                fit name (bytes "generate_compose") (generate_compose setup) _
                  (generate_compose-IsFit setup)
                  (fit name (bytes "generate_nginx") (generate_nginx setup) _
                    (generate_nginx-IsFit setup)
                    (fit name (bytes "build_services") (build_services setup) _
                      (build_services-IsFit setup)
                      (fit name (bytes "start_services") (start_services setup) _
                        (start_services-IsFit setup)
                        (fit name (bytes "runner_deploy") (runner_deploy setup) _
                          (runner_deploy-IsFit setup)
                          (fit name (bytes "runner_after") (runner_after setup) _
                            (runner_after-IsFit setup) (unset_hook-IsFit name)))))))))))

  -- The registry's steps have the names that they are asked by, keep the entry and write no records.
  pub named-IsRegistry : (setup : Setup (S × C)) → IsRegistry (named {S = S} setup)
  named-IsRegistry setup = record {
    same_name = λ n. (named-IsFit setup n).0;
    keeps = λ n. IsTame-KeepsEntry (named setup n) (named-IsFit setup n).1;
    leaves = λ n. IsTame-LeavesRecords (named setup n) (named-IsFit setup n).1;
  }
