-- ===== src/Runner/Samples.antt =====
-- A runner phase of counted steps, and the theorems at it.
use previewctl.Base.{
  ℕ, true, Option, none, some, List, [], ◌∷◌, ◌≡◌, refl, ap, subst, Text, bytes, ◌==◌, lookup,
  insert, if◌then◌else◌, elem, Result, ok, err,
}
use previewctl.Environment.{
  EnvironmentEntry, EnvironmentStatus, ComputeAccessInfo, step_completed, append_audit,
  invalidate_step,
}
use previewctl.Environment.Samples.{demo}
use previewctl.Validate.Samples.{shop}
use previewctl.Manifest.{Manifest}
use previewctl.Engine.{Session, StepOpts, step, has_checkpoint, step_cache_allowed}
use previewctl.Engine.Samples.{Memory, memory, clock, session, counted, counted-LeavesRecords}
use previewctl.Runner.{run_runner}
use previewctl.Runner.Forced.{run_steps, set_status}
use previewctl.Runner.Saved.{executed_steps, run_steps-executes, set_status_lem}
use previewctl.Engine.Sequence.{LeavesRecords}

abbrev access : ComputeAccessInfo
access = record {
  type = bytes "local";
  path = bytes "/tmp/demo";
  host = [];
  user = [];
  managed_worktree = true;
  metadata = [];
}

abbrev manifest : Manifest
manifest = record {
  version = 1;
  env_name = bytes "demo";
  project_name = bytes "shop";
  branch = bytes "main";
  mode = bytes "local";
  ports = [];
  provisioner_outputs = [];
  services = [];
  infrastructure = none;
  enabled_services = [];
}

program : Unit {0}
unfolding run_runner run_steps set_status step has_checkpoint step_cache_allowed step_completed
    invalidate_step memory lookup insert append_audit elem bytes ◌==◌
program = tt

abbrev ended : Session Memory ℕ × Result (Option EnvironmentEntry)
ended =
    run_runner memory clock (bytes "host") shop counted (bytes "demo") (bytes "main") manifest
      access true session

-- The synchronisation and the five steps of a configuration with no compose services.
run_runner-shop : ended.0.world ≡ 6
unfolding program
run_runner-shop = refl

abbrev names : List Text
names = bytes "generate_env" ∷ bytes "a" ∷ []

abbrev stored : Session Memory ℕ
stored = record session { store = (bytes "demo", demo) ∷ [] }

counted_always : EnvironmentEntry → Session Memory ℕ → Result (Text → StepOpts Memory ℕ)
counted_always e t = ok counted

always-LeavesRecords :
    (e : EnvironmentEntry) (t : Session Memory ℕ) (named : Text → StepOpts Memory ℕ) (n : Text)
    → counted_always e t ≡ ok named
    → LeavesRecords (named n)
unfolding counted_always
always-LeavesRecords e t named n h =
    subst (λ (f : Text → StepOpts Memory ℕ). LeavesRecords (f n)) {x = counted} {y = named}
      (ap (λ (r : Result (Text → StepOpts Memory ℕ)). elim r [ ok f ↦ f | err m ↦ counted ]) h)
      (counted-LeavesRecords n)

run_steps-executes_example :
    run_steps memory clock (bytes "host") counted_always (bytes "demo") names stored
    ≡ executed_steps memory clock (bytes "host") counted_always (bytes "demo") names stored
run_steps-executes_example =
    run_steps-executes memory clock (bytes "host") counted_always (bytes "demo") names stored
      always-LeavesRecords

set_status_lem_example :
    let r =
      set_status memory clock (bytes "host") (bytes "demo") EnvironmentStatus.stopped stored in
    (r.1 ≡ ok tt
      → (e : EnvironmentEntry) × (memory.get_environment (bytes "demo") stored.store ≡ ok (some e))
        × (memory.get_environment (bytes "web") r.0.store ≡ (
            if bytes "demo" == bytes "web"
            then ok (some (record e { status = EnvironmentStatus.stopped; updated_at = clock 5 }))
            else memory.get_environment (bytes "web") stored.store)))
    × ((message : Text)
        → r.1 ≡ err message
        → memory.get_environment (bytes "web") r.0.store
          ≡ memory.get_environment (bytes "web") stored.store)
set_status_lem_example =
    set_status_lem memory clock (bytes "host") (bytes "demo") (bytes "web")
      EnvironmentStatus.stopped stored
