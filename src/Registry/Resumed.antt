-- ===== src/Registry/Resumed.antt =====
-- The runner phase of the registry's steps, in memory, run again.
use previewctl.Base.{
  ap, sym, ◌∙◌, Option, Bool, true, false, none, some, ◌++◌, ◌≡◌, refl, subst, inl, inr, arith,
  Text, bytes, ◌==◌, lookup, insert, if◌then◌else◌, is_some, elem, Result, ok, Text-cases, sort,
  trim_space,
}
use previewctl.ComposeFile.{generate_compose_file}
use previewctl.Config.{is_configured, is_enabled}
use previewctl.Engine.{Session, Action, StepOpts, step, has_checkpoint, step_cache_allowed}
use previewctl.Engine.Tame.{either}
use previewctl.Engine.Samples.{Memory, memory, clock}
use previewctl.Environment.{append_audit, compose_project_name, set_step_record, step_completed}
use previewctl.Manifest.{env_file_paths}
use previewctl.Template.{render_template}
use previewctl.Registry.{World, call, enabled_services}
use previewctl.Registry.Containers.{
  check_listed, check_infra, infra_compose_file, sync_code, start_infra, build_services,
  start_services,
}
use previewctl.Registry.Files.{
  check_file, check_env_files, generate_manifest, generate_env, generate_compose, generate_nginx,
}
use previewctl.Registry.Fits.{named-IsRegistry}
use previewctl.Registry.HookSteps.{runner_before, runner_deploy, runner_after, unset_hook}
use previewctl.Registry.Samples.{Files, composed, setup_for, manifest, session}
use previewctl.Registry.Steps.{named}
use previewctl.Runner.{run_plan, runner_plan}
use previewctl.Runner.Order.{planned}
use previewctl.Runner.Resume.{Stands, records_of, runs_of, run_plan-again}

-- The manifest is the one of the sample, and the compose file is there.
abbrev Intact : Memory → World Files → Type 0
Intact store w =
    (w.manifest ≡ manifest) × (is_some (lookup (bytes ".previewctl.compose.yaml") w.compute) ≡ true)

abbrev pub Step : Type 0
Step = StepOpts Memory (World Files)

abbrev pub steps : Text → Step
steps = named (setup_for composed)

-- A step without a verification.
unverified-Stands :
    (opts : Step) → step_cache_allowed opts ≡ true → opts.verify ≡ none → Stands Intact opts
unverified-Stands opts c n = record { cacheable = c; passes = λ check s v i. absurd (cc (n, v)) }

-- The verification, if there is one, passes where `Intact` holds.
abbrev Passes : Option (Action Memory (World Files)) → Type 0
Passes none = Unit
Passes (some check) =
    (s : Session Memory (World Files))
    → Intact s.store s.world
    → ((check s).1 ≡ ok tt) × Intact (check s).0.store (check s).0.world

verified-Stands :
    (opts : Step) (check : Action Memory (World Files))
    → step_cache_allowed opts ≡ true
    → opts.verify ≡ some check
    → Passes (some check)
    → Stands Intact opts
verified-Stands opts check c v h = record {
  cacheable = c;
  passes = λ other s w i. subst Passes {x = some check} {y = some other} (sym v ∙ w) h s i;
}

-- The first step, where the name is its label, and the second one elsewhere.
pub labelled :
    (P : Step → Type 0) (name label : Text) (this other : Step)
    → (name ≡ label → P this)
    → P other
    → P (if name == label then this else other)
labelled P name label this other h k = elim (Text-cases name label) [
  | inl e ↦ either P (name == label) this other (h e) k
  | inr n ↦ rw (n) k
]

abbrev pub listing : Text
listing =
    bytes "docker compose -f .previewctl.compose.yaml -p "
    ++ (compose_project_name composed.name (bytes "demo") ++ bytes " ps --format json")

abbrev planned_steps : Text → Bool
planned_steps name = elem name (planned (runner_plan composed))

program : Unit {0}
unfolding run_plan runner_plan planned named step has_checkpoint step_cache_allowed step_completed
    append_audit elem bytes ◌==◌ lookup insert memory generate_env generate_compose
    generate_compose_file env_file_paths start_infra build_services start_services runner_before
    runner_deploy runner_after is_configured is_enabled sync_code enabled_services generate_nginx
    generate_manifest unset_hook sort render_template set_step_record
program = tt

nginx_unplanned : planned_steps (bytes "generate_nginx") ≡ false
unfolding program
nginx_unplanned = refl

compose-Passes : Passes (
    some (
      check_file
        (setup_for composed)
        (bytes ".previewctl.compose.yaml")
        (bytes "compose file missing")))
unfolding check_file call
compose-Passes s i = (ground (arith, i.1), i)

env-Passes : Passes (some (check_env_files (setup_for composed)))
unfolding check_env_files env_file_paths
env-Passes s i = rw (i.0, check_env_files) (refl, i)

infra-Passes : Passes (some (check_infra (setup_for composed)))
unfolding check_infra infra_compose_file
infra-Passes s i = rw (i.0, check_infra) (refl, (refl, i.1))

services-Passes :
    (command problem : Text) → Passes (some (check_listed (setup_for composed) command problem))
unfolding check_listed call bytes trim_space
services-Passes command problem s i = (refl, i)

steps-Stands : (n : Text) → planned_steps n ≡ true → Stands Intact (steps n)
unfolding program
steps-Stands n h =
    labelled (Stands Intact) n (bytes "sync_code") (sync_code (setup_for composed)) _
      (λ e. unverified-Stands _ refl refl)
      (labelled (Stands Intact) n (bytes "generate_manifest")
        (generate_manifest (setup_for composed)) _ (λ e. unverified-Stands _ refl refl)
        (labelled (Stands Intact) n (bytes "runner_before") (runner_before (setup_for composed)) _
          (λ e. unverified-Stands _ refl refl)
          (labelled (Stands Intact) n (bytes "generate_env") (generate_env (setup_for composed)) _
            (λ e. verified-Stands _ _ refl refl env-Passes)
            (labelled (Stands Intact) n (bytes "start_infra") (start_infra (setup_for composed)) _
              (λ e. verified-Stands _ _ refl refl infra-Passes)
              (labelled (Stands Intact) n (bytes "generate_compose")
                (generate_compose (setup_for composed)) _
                (λ e. verified-Stands _ _ refl refl compose-Passes)
                (labelled (Stands Intact) n (bytes "generate_nginx")
                  (generate_nginx (setup_for composed)) _
                  (λ e. absurd (ground (arith, ap planned_steps e, h, nginx_unplanned)))
                  (labelled (Stands Intact) n (bytes "build_services")
                    (build_services (setup_for composed)) _ (λ e. unverified-Stands _ refl refl)
                    (labelled (Stands Intact) n (bytes "start_services")
                      (start_services (setup_for composed)) _
                      (λ e.
                        verified-Stands _ _ refl refl
                          (services-Passes listing (bytes "no services running")))
                      (labelled (Stands Intact) n (bytes "runner_deploy")
                        (runner_deploy (setup_for composed)) _ (λ e. unverified-Stands _ refl refl)
                        (labelled (Stands Intact) n (bytes "runner_after")
                          (runner_after (setup_for composed)) (unset_hook n n)
                          (λ e. unverified-Stands _ refl refl)
                          (unverified-Stands _ refl refl)))))))))))

abbrev first : Session Memory (World Files) × Result (Unit {0})
first = run_plan memory clock (bytes "host") steps (runner_plan composed) session

first-ok : first.1 ≡ ok tt
unfolding program
first-ok = refl

first-Intact : Intact first.0.store first.0.world
unfolding program
first-Intact = (refl, refl)

run_plan-again_example :
    let again = run_plan memory clock (bytes "host") steps (runner_plan composed) first.0 in
    (again.1 ≡ ok tt)
    × (records_of again.0 ≡ records_of first.0)
    × (runs_of again.0 ≡ runs_of first.0)
    × Intact again.0.store again.0.world
run_plan-again_example =
    run_plan-again memory clock (bytes "host") steps (named-IsRegistry (setup_for composed)) Intact
      (runner_plan composed) session refl refl first-ok first-Intact steps-Stands
