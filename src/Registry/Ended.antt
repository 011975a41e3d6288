-- ===== src/Registry/Ended.antt =====
-- The runner phase of the registry's steps, in memory, which comes to its end.
use previewctl.Base.{
  Bool, true, false, Option, none, some, ◌∷◌, ◌≡◌, refl, ◌∙◌, subst, ap, arith, Text, bytes, ◌==◌,
  lookup, is_some, elem, Result, ok, sort,
}
use previewctl.ComposeFile.{generate_compose_file}
use previewctl.Config.{is_configured, is_enabled}
use previewctl.Engine.{Session, Action}
use previewctl.Engine.Samples.{Memory, memory, clock}
use previewctl.Environment.{EnvironmentEntry}
use previewctl.Manifest.{env_file_paths}
use previewctl.Registry.{World, attempt, call}
use previewctl.Registry.Containers.{
  sync_code, fetch_code, start_infra, infra_up, check_infra, infra_compose_file, build_services,
  run_builds, build_all, build_each, start_services, services_up, seed_enabled, check_listed,
}
use previewctl.Registry.Files.{
  generate_env, write_env_files, check_env_files, check_file, generate_compose, write_compose_file,
  generate_manifest, generate_nginx,
}
use previewctl.Registry.Fits.{named-IsRegistry}
use previewctl.Registry.HookSteps.{runner_before, runner_deploy, runner_after, unset_hook}
use previewctl.Registry.Resumed.{Step, steps, labelled, listing}
use previewctl.Registry.Samples.{Files, composed, setup_for, manifest, session, access}
use previewctl.Registry.Steps.{named}
use previewctl.Runner.{run_runner, runner_plan}
use previewctl.Runner.Order.{planned}
use previewctl.Runner.Live.{Works, run_runner-ends}
use previewctl.Template.{render_template}

-- The manifest is the one of the sample.
abbrev Ready : World Files → Type 0
Ready w = w.manifest ≡ manifest

-- An action that does not fail there.
abbrev Goes : Action Memory (World Files) → Type 0
Goes fn =
    (s : Session Memory (World Files))
    → is_some s.entry ≡ true
    → Ready s.world
    → ((fn s).1 ≡ ok tt) × Ready (fn s).0.world

-- An action that leaves the manifest alone.
abbrev Checks : Option (Action Memory (World Files)) → Type 0
Checks none = Unit
Checks (some check) =
    (s : Session Memory (World Files)) → (check s).0.world.manifest ≡ s.world.manifest

works : (opts : Step) → Goes opts.fn → Checks opts.verify → Works Ready opts
works opts go c = record {
  runs = go;
  checks = λ check s v r. subst Checks {x = opts.verify} {y = some check} v c s ∙ r;
}

fetch_code-Goes : Goes (fetch_code (setup_for composed))
unfolding fetch_code attempt call
fetch_code-Goes s h r = (ground arith, ground (arith, r))

write_env_files-Goes : Goes (write_env_files (setup_for composed))
unfolding write_env_files env_file_paths
write_env_files-Goes s h r = (ground (arith, r), ground (arith, r))

infra_up-Goes : Goes (infra_up (setup_for composed))
unfolding infra_up infra_compose_file
infra_up-Goes s h r = (ground (arith, r), ground (arith, r))

compose_text : Result Text
compose_text = generate_compose_file (setup_for composed).join_path composed manifest

compose_text-ok : (content : Text) × (compose_text ≡ ok content)
unfolding compose_text generate_compose_file is_enabled sort render_template bytes ◌==◌ lookup
compose_text-ok = (_, refl)

write_compose_file-Goes : Goes (write_compose_file (setup_for composed))
unfolding write_compose_file attempt call compose_text
write_compose_file-Goes s h r =
    let there = compose_text-ok in (ground (arith, r, there.1), ground (arith, r, there.1))

run_builds-Goes : Goes (run_builds (setup_for composed))
unfolding run_builds build_all build_each attempt call is_configured
run_builds-Goes s h r = (ground arith, ground (arith, r))

services_up-Goes : Goes (services_up (setup_for composed))
unfolding services_up seed_enabled attempt call
services_up-Goes s h r = (ground arith, ground (arith, r))

program : Unit {0}
unfolding named runner_before runner_deploy runner_after is_configured bytes ◌==◌ lookup
    generate_env generate_compose generate_manifest generate_nginx start_infra build_services
    start_services sync_code unset_hook planned runner_plan elem is_enabled
program = tt

nothing-Goes : Goes (λ s. (s, ok tt))
nothing-Goes s h r = (refl, r)

file-Checks : (path problem : Text) → Checks (some (check_file (setup_for composed) path problem))
unfolding check_file call
file-Checks path problem s = refl

listed-Checks :
    (command problem : Text) → Checks (some (check_listed (setup_for composed) command problem))
unfolding check_listed call
listed-Checks command problem s = refl

env-Checks : Checks (some (check_env_files (setup_for composed)))
unfolding check_env_files check_file call
env-Checks s = ground arith

infra-Checks : Checks (some (check_infra (setup_for composed)))
unfolding check_infra check_listed call
infra-Checks s = ground arith

abbrev planned_or_sync : Text → Bool
planned_or_sync n = elem n (bytes "sync_code" ∷ planned (runner_plan composed))

others_unplanned :
    (planned_or_sync (bytes "generate_nginx") ≡ false)
    × (planned_or_sync (bytes "generate_manifest") ≡ false)
unfolding program
others_unplanned = (refl, refl)

steps-Works : (n : Text) → planned_or_sync n ≡ true → Works Ready (steps n)
unfolding program
steps-Works n h =
    labelled (Works Ready) n (bytes "sync_code") (sync_code (setup_for composed)) _
      (λ e. works _ fetch_code-Goes tt)
      (labelled (Works Ready) n (bytes "generate_manifest") (generate_manifest (setup_for composed))
        _ (λ e. absurd (ground (arith, ap planned_or_sync e, h, others_unplanned.1)))
        (labelled (Works Ready) n (bytes "runner_before") (runner_before (setup_for composed)) _
          (λ e. works _ nothing-Goes tt)
          (labelled (Works Ready) n (bytes "generate_env") (generate_env (setup_for composed)) _
            (λ e. works _ write_env_files-Goes env-Checks)
            (labelled (Works Ready) n (bytes "start_infra") (start_infra (setup_for composed)) _
              (λ e. works _ infra_up-Goes infra-Checks)
              (labelled (Works Ready) n (bytes "generate_compose")
                (generate_compose (setup_for composed)) _
                (λ e.
                  works _ write_compose_file-Goes
                    (file-Checks (bytes ".previewctl.compose.yaml") (bytes "compose file missing")))
                (labelled (Works Ready) n (bytes "generate_nginx")
                  (generate_nginx (setup_for composed)) _
                  (λ e. absurd (ground (arith, ap planned_or_sync e, h, others_unplanned.0)))
                  (labelled (Works Ready) n (bytes "build_services")
                    (build_services (setup_for composed)) _ (λ e. works _ run_builds-Goes tt)
                    (labelled (Works Ready) n (bytes "start_services")
                      (start_services (setup_for composed)) _
                      (λ e.
                        works _ services_up-Goes
                          (listed-Checks listing (bytes "no services running")))
                      (labelled (Works Ready) n (bytes "runner_deploy")
                        (runner_deploy (setup_for composed)) _ (λ e. works _ nothing-Goes tt)
                        (labelled (Works Ready) n (bytes "runner_after")
                          (runner_after (setup_for composed)) (unset_hook n n)
                          (λ e. works _ nothing-Goes tt) (works _ nothing-Goes tt)))))))))))

memory-writes :
    (name : Text) (e : EnvironmentEntry) (m : Memory) → (memory.set_environment name e m).1 ≡ ok tt
unfolding memory
memory-writes name e m = refl

run_runner-ends_example :
    (e : EnvironmentEntry) × ((run_runner memory clock
        (bytes "host")
        composed
        steps
        (bytes "demo")
        (bytes "main")
        manifest
        access
        true
        session).1
      ≡ ok (some e))
run_runner-ends_example =
    run_runner-ends memory clock (bytes "host") memory-writes steps
      (named-IsRegistry (setup_for composed)) Ready composed (bytes "demo") (bytes "main") manifest
      access session steps-Works refl refl
