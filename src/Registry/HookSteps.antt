-- ===== src/Registry/HookSteps.antt =====
-- src/domain/step_registry.go: the steps of the user's hooks, `runner_before`, `runner_deploy` and
-- `runner_after`.
use previewctl.Base.{Option, none, some, ◌++◌, Text, bytes, if◌then◌else◌, ok}
use previewctl.Config.{CommandHook, RunnerConfig, is_configured}
use previewctl.Engine.{StepOpts, on_step, step_streaming}
use previewctl.Registry.{World, Setup, run_hook_command}

module _ {S C : Type 0} where
  -- The step of a hook that is not configured.
  unfoldable pub unset_hook : (step hook : Text) → StepOpts S (World C)
  unset_hook step hook = record {
    name = step;
    start_msg = hook ++ bytes " (not configured)";
    complete_msg = hook ++ bytes " skipped (not configured)";
    fn = λ s. (s, ok tt);
    verify = none;
    outputs = none;
    allow_cache = none;
  }

  -- The step of a hook that is.
  unfoldable pub set_hook : Setup (S × C) → (step hook : Text) → CommandHook → StepOpts S (World C)
  unfolding run_hook_command
  set_hook setup step hook h =
      let running = bytes "Running " ++ (hook ++ (bytes " → " ++ h.command)) in
      record {
        name = step;
        start_msg = running;
        complete_msg = bytes "Ran " ++ (hook ++ (bytes " (" ++ (h.command ++ bytes ")")));
        fn = λ s. run_hook_command setup h.command (on_step step step_streaming running none s);
        verify = none;
        outputs = none;
        allow_cache = h.allow_cache;
      }

  -- The step of the hook that `pick` takes from the runner's configuration.
  unfoldable pub hook_step :
      Setup (S × C)
      → (step hook : Text) → (RunnerConfig → CommandHook)
      → Option RunnerConfig
      → StepOpts S (World C)
  unfolding unset_hook set_hook
  hook_step setup step hook pick none = unset_hook step hook
  hook_step setup step hook pick (some runner) =
      if is_configured (pick runner)
      then set_hook setup step hook (pick runner)
      else unset_hook step hook

  unfoldable pub runner_before : Setup (S × C) → StepOpts S (World C)
  unfolding hook_step
  runner_before setup =
      hook_step setup (bytes "runner_before") (bytes "runner.before")
        (λ (r : RunnerConfig). r.before) setup.cfg.runner

  unfoldable pub runner_deploy : Setup (S × C) → StepOpts S (World C)
  unfolding hook_step
  runner_deploy setup =
      hook_step setup (bytes "runner_deploy") (bytes "runner.deploy")
        (λ (r : RunnerConfig). r.deploy) setup.cfg.runner

  unfoldable pub runner_after : Setup (S × C) → StepOpts S (World C)
  unfolding hook_step
  runner_after setup =
      hook_step setup (bytes "runner_after") (bytes "runner.after") (λ (r : RunnerConfig). r.after)
        setup.cfg.runner
