-- ===== src/Registry/Samples.antt =====
-- A machine whose files are an association list, a registry over it, and the theorems at them.
use previewctl.Base.{
  Bool, true, false, Option, none, some, [], ◌∷◌, ◌++◌, ◌≡◌, refl, ◌⊎◌, arith, Text, bytes, ◌==◌,
  eq_iff, Map, lookup, insert, lookup-insert, elem, Result, ok, err, sort,
}
use previewctl.Config.{is_enabled, ProjectConfig, CommandHook}
use previewctl.ComputeAccess.{ComputeAccess, HasFiles}
use previewctl.ComposeFile.{generate_compose_file}
use previewctl.Engine.{Session, Action, step, has_checkpoint, step_cache_allowed}
use previewctl.Engine.Samples.{Memory, memory, clock}
use previewctl.Environment.{
  EnvironmentEntry, EnvironmentStatus, ComputeAccessInfo, step_completed, append_audit,
  invalidate_step,
}
use previewctl.Environment.Samples.{demo}
use previewctl.HookEnv.{Host}
use previewctl.Template.{render_template}
use previewctl.Manifest.{Manifest, env_file_paths}
use previewctl.Registry.{World, Setup, enabled_services, autostart}
use previewctl.Registry.Containers.{services_up, sync_code, start_infra}
use previewctl.Registry.HookSteps.{runner_before, runner_deploy, runner_after}
use previewctl.Registry.Files.{generate_compose, generate_env}
use previewctl.Registry.Phase.{
  runner_phase-running, generate_compose-verified, services_up-enabled_services,
}
use previewctl.Registry.Steps.{named}
use previewctl.Runner.{run_runner, runner_plan}
use previewctl.Runner.Order.{planned}
use previewctl.Validate.Samples.{shop}

abbrev pub Files : Type 0
Files = Map Text

abbrev pub machine : ComputeAccess (Memory × Files)
machine = record {
  root = bytes "/app";
  write_file = λ path content c. ((c.0, insert path content c.1), ok tt);
  read_file = λ path c.
      (c, elim (lookup path c.1) [ none ↦ err (bytes "no such file") | some text ↦ ok text ]);
  exec = λ command env c. (c, ok (bytes "up"));
  verbose_exec = λ command env c. (c, ok (bytes "up"));
}

machine-HasFiles : HasFiles machine
machine-HasFiles = record {
  read-write =
      λ path content c h. ground (arith, lookup-insert path path content c.1, eq_iff path path);
  read_keeps = λ path c. refl;
}

abbrev pub host : Host
host = record { environ = []; project_root = bytes "/src"; to_upper = λ name. name }

abbrev pub hook : CommandHook
hook = record { command = []; allow_cache = none }

abbrev pub composed : ProjectConfig
composed = record shop {
  runner = some (record {
    before = hook;
    build = hook;
    deploy = hook;
    destroy = hook;
    after = hook;
    compose = some (record {
      autostart = bytes "web" ∷ [];
      image = bytes "node";
      proxy = some (record { enabled = some false; domain = []; type = [] });
    });
  });
}

abbrev pub setup_for : ProjectConfig → Setup (Memory × Files)
setup_for cfg = record {
  host = host;
  access = machine;
  cfg = cfg;
  env_name = bytes "demo";
  branch = bytes "main";
  join_path = λ a b. a ++ (bytes "/" ++ b);
  dir_of = λ a. bytes ".";
  quoted = λ a. a;
  encode_manifest = λ m. ok m.env_name;
  render_page = λ p. p.title;
}

abbrev pub access : ComputeAccessInfo
access = record {
  type = bytes "local";
  path = bytes "/tmp/demo";
  host = [];
  user = [];
  managed_worktree = true;
  metadata = [];
}

abbrev pub manifest : Manifest
manifest = record {
  version = 1;
  env_name = bytes "demo";
  project_name = bytes "shop";
  branch = bytes "main";
  mode = bytes "local";
  ports = [];
  provisioner_outputs = [];
  services = [];
  infrastructure = none;
  enabled_services = [];
}

abbrev pub session : Session Memory (World Files)
session = record {
  entry = some demo;
  store = [];
  world = record { manifest = manifest; compute = []; stderr = [] };
  no_cache = false;
  ticks = 5;
  events = [];
}

program : Unit {0}
unfolding run_runner named step has_checkpoint step_cache_allowed generate_compose services_up
    step_completed invalidate_step memory lookup insert append_audit elem bytes ◌==◌ sync_code
    runner_before generate_env env_file_paths start_infra runner_deploy runner_after
program = tt

abbrev ended : Session Memory (World Files) × Result (Option EnvironmentEntry)
ended =
    run_runner memory clock (bytes "host") shop (named (setup_for shop)) (bytes "demo")
      (bytes "main") manifest access true session

pub returned_of : Result (Option EnvironmentEntry) → EnvironmentEntry
returned_of (ok (some e)) = e
returned_of (ok none) = demo
returned_of (err message) = demo

abbrev pub has_entry : Result (Option EnvironmentEntry) → Bool
has_entry (ok (some e)) = true
has_entry (ok none) = false
has_entry (err message) = false

pub ok-returned_of :
    (r : Result (Option EnvironmentEntry)) → has_entry r ≡ true → r ≡ ok (some (returned_of r))
unfolding returned_of
ok-returned_of (ok (some e)) h = refl
ok-returned_of (ok none) h = absurd (cc (h))
ok-returned_of (err message) h = absurd (cc (h))

phase-ok : has_entry ended.1 ≡ true
unfolding program
phase-ok = refl

abbrev returned : EnvironmentEntry
returned = returned_of ended.1

runner_phase-running_example :
    (returned.status ≡ EnvironmentStatus.running)
    × (memory.get_environment (bytes "demo") ended.0.store ≡ ok (some returned))
    × ((n : Text) → elem n (planned (runner_plan shop)) ≡ true → step_completed n returned ≡ true)
runner_phase-running_example =
    runner_phase-running memory clock (bytes "host") (setup_for shop) manifest access session
      returned refl (ok-returned_of ended.1 phase-ok)

compose-ok : ((generate_compose (setup_for composed)).fn session).1 ≡ ok tt
unfolding program generate_compose_file is_enabled sort render_template
compose-ok = refl

generate_compose-verified_example :
    let s' = ((generate_compose (setup_for composed)).fn session).0 in
    (content : Text) × (generate_compose_file (setup_for composed).join_path composed manifest
      ≡ ok content)
    × ((machine.read_file (bytes ".previewctl.compose.yaml") (s'.store, s'.world.compute)).1
        ≡ ok content)
    × ((check : Action Memory (World Files)) × ((generate_compose (setup_for composed)).verify
          ≡ some check)
        × ((check s').1 ≡ ok tt))
generate_compose-verified_example =
    generate_compose-verified (setup_for composed) session machine-HasFiles compose-ok

services_up-enabled_services_example :
    let s' = (services_up (setup_for composed) session).0 in
    (enabled_services composed s'.entry ≡ enabled_services composed session.entry)
    × ((e : EnvironmentEntry)
        → s'.entry ≡ some e
        → (autostart composed ≡ [])
          ⊎ (e.enabled_services ≡ enabled_services composed session.entry))
services_up-enabled_services_example = services_up-enabled_services (setup_for composed) session
