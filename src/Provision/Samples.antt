-- ===== src/Provision/Samples.antt =====
-- An environment that is created in memory, and the theorems at it.
use previewctl.Provision.Entry.{run_provisioner}
use previewctl.Provision.Plan.{provisioner_plan, run_provisioner-completed}
use previewctl.Engine.Recorded.{completed_in}
use previewctl.Base.{
  sort, join, text_ltb, split, trim_space, has_prefix, cut, ℕ, true, false, Option, none, [], ◌∷◌,
  ◌≡◌, refl, Text, bytes, ◌==◌, lookup, insert, erase, elem, Result, ok,
}
use previewctl.ComputeAccess.Made.{local_at}
use previewctl.Core.Samples.{manager, seeded}
use previewctl.Engine.{Session}
use previewctl.Engine.Samples.{Memory, memory, clock}
use previewctl.Environment.{EnvironmentEntry, step_completed}
use previewctl.Provision.{Provisioner, Locals, Request}
use previewctl.Provision.Lifecycle.{init, IsCreated, init-IsCreated}
use previewctl.Engine.{step, has_checkpoint, step_cache_allowed}
use previewctl.Environment.{append_audit, set_step_record, invalidate_step, invalidate_steps_from}
use previewctl.Core.{set_globals}
use previewctl.Hooks.{extract_global_outputs}
use previewctl.Manifest.{build_manifest, env_file_paths}
use previewctl.Template.{render_env_map, render_template, segments, resolve_var, var_parts}
use previewctl.Ports.{decimal}
use previewctl.Runner.{run_runner}
use previewctl.Runner.Forced.{save_provisioned_state}
use previewctl.Registry.{enabled_services}
use previewctl.Registry.Steps.{named}
use previewctl.Registry.Containers.{sync_code, start_infra, build_services, start_services}
use previewctl.Registry.HookSteps.{runner_before, runner_deploy, runner_after}
use previewctl.Registry.Files.{generate_env, generate_compose}
use previewctl.ComposeFile.{generate_compose_file}
use previewctl.Config.{is_configured, is_enabled}
use previewctl.Registry.Samples.{Files, machine, host, has_entry, returned_of, ok-returned_of}

abbrev pub provisioner : Provisioner (Memory × Files)
provisioner = record {
  cfg = seeded;
  host = host;
  hook_process = λ script env c. (c, ok (bytes "URL=db"));
  allocate = λ name c. (c, ok ((bytes "web", 61000) ∷ (bytes "pg", 61001) ∷ []));
  create_worktree = λ name branch base c. (c, ok (bytes "/tmp/demo"));
  detect_branch = λ path files. ok (bytes "main");
  stat = λ path files. ok tt;
  connect = λ access. machine;
  build_ssh = λ entry. local_at [];
  encode_manifest = λ m. ok m.env_name;
}

abbrev fresh : Session Memory (Locals Files)
fresh = record {
  entry = none;
  store = [];
  world = record {
    access = none;
    compute_outputs = none;
    resources = none;
    port_map = [];
    outputs = [];
    manifest = none;
    machine = [];
  };
  no_cache = false;
  ticks = 5;
  events = [];
}

abbrev readings : Text → ℕ
readings name = 5

abbrev ended : Memory × Result (Option EnvironmentEntry)
ended =
    init memory clock (bytes "host") provisioner readings manager (bytes "demo") (bytes "main") []
      fresh

init-ok : has_entry ended.1 ≡ true
unfolding init memory lookup insert bytes ◌==◌ split trim_space has_prefix cut step step_completed
    append_audit set_step_record set_globals extract_global_outputs build_manifest render_env_map
    save_provisioned_state run_runner named sync_code runner_before is_configured invalidate_step
    generate_env env_file_paths start_infra generate_compose generate_compose_file is_enabled sort
    render_template build_services start_services runner_deploy runner_after segments resolve_var
    var_parts decimal join has_checkpoint step_cache_allowed elem text_ltb enabled_services
init-ok = refl

abbrev returned : EnvironmentEntry
returned = returned_of ended.1

init-IsCreated_example :
    IsCreated memory clock
      (bytes "host")
      provisioner
      readings
      manager
      (bytes "demo")
      ended.0
      returned
init-IsCreated_example =
    init-IsCreated memory clock (bytes "host") provisioner readings manager (bytes "demo")
      (bytes "main") [] returned fresh (ok-returned_of ended.1 init-ok)

abbrev request : Request
request = record {
  env_name = bytes "demo";
  branch = bytes "main";
  base_branch = [];
  existing_worktree = [];
  create_worktree = true;
  from_step = bytes "allocate_ports";
}

abbrev phase : Session Memory (Locals Files) × Result (Unit {0})
phase = run_provisioner memory clock (bytes "host") provisioner request readings fresh

phase-ok : phase.1 ≡ ok tt
unfolding run_provisioner memory lookup insert bytes ◌==◌ split trim_space has_prefix cut step
    step_completed append_audit set_step_record set_globals extract_global_outputs build_manifest
    render_env_map render_template segments resolve_var var_parts decimal join has_checkpoint
    step_cache_allowed elem text_ltb invalidate_steps_from erase
phase-ok = refl

seed-planned : elem (bytes "seed_main") (provisioner_plan provisioner request) ≡ true
unfolding provisioner_plan elem bytes ◌==◌
seed-planned = refl

run_provisioner-completed_example : completed_in (bytes "seed_main") phase.0 ≡ true
run_provisioner-completed_example =
    run_provisioner-completed memory clock (bytes "host") provisioner request readings fresh
      (bytes "seed_main") phase-ok seed-planned
