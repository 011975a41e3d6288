-- ===== src/Registry/Tame.antt =====
-- src/domain/step_registry.go: what the steps of the user's hooks leave of the session.
use previewctl.Registry.Quiet.{run_hook_command-IsApart}
use previewctl.Engine.Tame.{IsApart, IsApart-IsQuiet, IsTame, unverified-IsTame, either}
use previewctl.Base.{Option, none, some, ◌++◌, refl, Text, bytes, ok}
use previewctl.Engine.{Session, on_step, step_streaming}
use previewctl.Registry.{World, Setup}
use previewctl.Registry.HookSteps.{unset_hook, set_hook, hook_step}
use previewctl.Config.{RunnerConfig, CommandHook, is_configured}

module _ {S C : Type 0} where
  pub hook_step-IsTame :
      (setup : Setup (S × C)) (step hook : Text) (pick : RunnerConfig → CommandHook)
      (runner : Option RunnerConfig)
      → IsTame {S = S} (hook_step setup step hook pick runner)
  unfolding hook_step unset_hook set_hook
  hook_step-IsTame setup step hook pick none =
      unverified-IsTame (unset_hook step hook) refl (IsApart-IsQuiet _ idle)
    where
      idle : IsApart (λ (s : Session S (World C)). (s, ok tt))
      idle = record { same_entry = λ s. refl; keeps_cache = λ s. refl }
  hook_step-IsTame setup step hook pick (some r) =
      either IsTame (is_configured (pick r)) (set_hook setup step hook (pick r))
        (unset_hook step hook)
        (unverified-IsTame (set_hook setup step hook (pick r)) refl
          (IsApart-IsQuiet _ (streamed (pick r))))
        (unverified-IsTame (unset_hook step hook) refl (IsApart-IsQuiet _ idle))
    where
      idle : IsApart (λ (s : Session S (World C)). (s, ok tt))
      idle = record { same_entry = λ s. refl; keeps_cache = λ s. refl }

      streamed : (h : CommandHook) → IsApart (set_hook {S = S} setup step hook h).fn
      streamed h =
          let running : Text = bytes "Running " ++ (hook ++ (bytes " → " ++ h.command)) in
          record {
            same_entry = λ s.
                (run_hook_command-IsApart setup h.command).same_entry
                  (on_step step step_streaming running none s);
            keeps_cache = λ s.
                (run_hook_command-IsApart setup h.command).keeps_cache
                  (on_step step step_streaming running none s);
          }
