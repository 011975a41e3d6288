-- ===== src/Runner.antt =====
-- The runner phase of src/domain/manager.go, `runRunner`, and what stands beside it in
-- Runner.Forced. The steps of src/domain/step_registry.go are a parameter, by their names.
pub mod Forced
pub mod Order
pub mod Saved
pub mod Resume
pub mod Live
mod Samples
use previewctl.Base.{
  ℕ, zero, suc, ◌+◌, ◌-◌, ◌*◌, ◌/◌, ◌%◌, ◌^◌, ◌≤◌, ◌<◌, Bool, true, false, ◌&&◌, ◌||◌, not, Option,
  none, some, List, [], ◌∷◌, ◌++◌, map, reverse, ◌≡◌, refl, sym, ap, ◌∙◌, subst, ◌≢◌, ◌↔◌, ◌⊎◌, inl,
  inr, arith, Text, bytes, ◌==◌, eq_iff, eq_refl, Map, lookup, insert, erase, keys, lookup-insert,
  lookup-erase, HasUniqueKeys, if◌then◌else◌, ltb, leb, eqb, is_some, get_or, Bool-cases,
  Option-cases, length, elem, count, All, Result, ok, err,
}
use previewctl.Config.{ProjectConfig, RunnerConfig, is_enabled, is_empty}
use previewctl.Environment.{EnvironmentEntry, EnvironmentStatus, ComputeAccessInfo, invalidate_step}
use previewctl.Manifest.{Manifest}
use previewctl.Engine.{
  StatePort, Session, StepOpts, Action, StepStatus, on_step, step_started, step_done, step_failed,
  step_skipped, step, step_simple,
}

-- `BuildRunnerStepOrder`
unfoldable pub runner_step_order : ProjectConfig → List Text
runner_step_order cfg =
    bytes "runner_before"
    ∷ bytes "generate_env"
    ∷ bytes "start_infra"
    ∷ ((elim cfg.runner [
      | none ↦ []
      | some runner ↦ elim runner.compose [
        | none ↦ []
        | some _ ↦
            bytes "generate_compose"
            ∷ bytes "generate_nginx"
            ∷ bytes "build_services"
            ∷ bytes "start_services"
            ∷ []
      ]
    ])
        ++ (bytes "runner_deploy" ∷ bytes "runner_after" ∷ []))

-- The names that `stepRegistry.get` knows.
abbrev pub registered : List Text
registered =
    bytes "sync_code"
    ∷ bytes "generate_manifest"
    ∷ bytes "runner_before"
    ∷ bytes "generate_env"
    ∷ bytes "start_infra"
    ∷ bytes "generate_compose"
    ∷ bytes "generate_nginx"
    ∷ bytes "build_services"
    ∷ bytes "start_services"
    ∷ bytes "runner_deploy"
    ∷ bytes "runner_after"
    ∷ []

-- `stepRegistry.get`
unfoldable pub registry_get : {A : Type 0} → (Text → A) → Text → Result A
registry_get named name =
    if elem name registered
    then ok (named name)
    else err (bytes "unknown runner step '" ++ (name ++ bytes "'"))

-- The steps that `runRunner` makes, each with what it puts in front of the step's error.
unfoldable pub runner_plan : ProjectConfig → List (Text × Text)
runner_plan cfg =
    (bytes "runner_before", bytes "runner before hook: ")
    ∷ (bytes "generate_env", bytes "generating env files: ")
    ∷ (bytes "start_infra", bytes "starting infrastructure: ")
    ∷ ((elim cfg.runner [
      | none ↦ []
      | some runner ↦ elim runner.compose [
        | none ↦ []
        | some compose ↦
            (bytes "generate_compose", bytes "generating compose file: ")
            ∷ ((if is_enabled compose.proxy
                  then (bytes "generate_nginx", bytes "generating nginx config: ") ∷ []
                  else [])
                ++ ((bytes "build_services", bytes "building services: ")
                    ∷ (bytes "start_services", bytes "starting services: ")
                    ∷ []))
      ]
    ])
        ++ ((bytes "runner_deploy", bytes "runner deploy hook: ")
            ∷ (bytes "runner_after", bytes "runner after hook: ")
            ∷ []))

-- The entry that `runRunner` saves. The zero time is 0.
unfoldable pub running_entry :
    Text → Text → Manifest → ComputeAccessInfo → ℕ → EnvironmentEntry → EnvironmentEntry
running_entry env_name branch manifest access now e = record e {
  name = env_name;
  mode = manifest.mode;
  branch = branch;
  status = EnvironmentStatus.running;
  ports = manifest.ports;
  provisioner_outputs = manifest.provisioner_outputs;
  compute = some access;
  updated_at = now;
  created_at = if eqb e.created_at 0 then now else e.created_at;
}

abbrev pub blank_entry : EnvironmentEntry
blank_entry = record {
  name = [];
  mode = [];
  branch = [];
  status = EnvironmentStatus.creating;
  created_at = 0;
  updated_at = 0;
  ports = [];
  provisioner_outputs = [];
  compute = none;
  env = [];
  enabled_services = [];
  steps = [];
  audit_log = [];
}

module _ {S W : Type 0} (port : StatePort S) (clock : ℕ → ℕ) (hostname : Text) where
  -- The calls of `step` one after the other, up to the first error.
  unfoldable pub run_plan : (Text → StepOpts S W) → List (Text × Text) → Action S W
  run_plan named [] s = (s, ok tt)
  run_plan named ((name, prefix) ∷ plan) s =
      let ran = step port clock hostname (named name) s in
      elim ran.1 [ err e ↦ (ran.0, err (prefix ++ e)) | ok _ ↦ run_plan named plan ran.0 ]

  -- `entry.InvalidateStep(step, "code synced, rebuild required")`
  unfoldable pub invalidate : Text → Session S W → Session S W
  invalidate name s = elim s.entry [
    | none ↦ s
    | some e ↦
        let r =
          invalidate_step (clock s.ticks) (clock (s.ticks + 1)) hostname name
            (bytes "code synced, rebuild required") e in
        record s { entry = some r.0; ticks = if r.1 then s.ticks + 2 else s.ticks }
  ]

  -- The synchronisation of the code, which has no checkpoint.
  unfoldable pub sync_code : StepOpts S W → Action S W
  sync_code opts s =
      let ran = opts.fn (on_step opts.name step_started opts.start_msg none s) in
      elim ran.1 [
        | err e ↦
            (on_step opts.name step_failed [] (some e) ran.0, err (bytes "syncing code: " ++ e))
        | ok _ ↦ (on_step opts.name step_done opts.complete_msg none ran.0, ok tt)
      ]

  -- `m.state.SetEnvironment(ctx, envName, entry)` as the function of a step.
  abbrev pub save_to : Text → EnvironmentEntry → Action S W
  save_to env_name e s =
      let saved = port.set_environment env_name e s.store in (record s { store = saved.0 }, saved.1)

  unfoldable pub save_running :
      Text
      → Text
      → Manifest
      → ComputeAccessInfo
      → Session S W
      → Session S W × Result (Option EnvironmentEntry)
  unfolding running_entry step_simple
  save_running env_name branch manifest access s =
      let e =
        running_entry env_name branch manifest access (clock s.ticks)
          (get_or s.entry blank_entry) in
      let ran =
        step_simple (bytes "save_state") (bytes "Saving state...") (bytes "State saved")
          (save_to env_name e) (record s { entry = some e; ticks = s.ticks + 1 }) in
      elim ran.1 [
        | err m ↦ (ran.0, err (bytes "saving state: " ++ m))
        | ok _ ↦ (ran.0, ok (some e))
      ]

  -- `runRunner`
  unfoldable pub run_runner :
      ProjectConfig
      → (Text → StepOpts S W)
      → (env_name branch : Text) → Manifest
      → ComputeAccessInfo
      → (save_state : Bool) → Session S W
      → Session S W × Result (Option EnvironmentEntry)
  unfolding runner_plan run_plan invalidate sync_code save_running
  run_runner cfg named env_name branch manifest access save_state s =
      let synced = sync_code (named (bytes "sync_code")) s in
      elim synced.1 [
        | err e ↦ (synced.0, err e)
        | ok _ ↦
            let fresh =
              invalidate (bytes "start_services") (
                invalidate (bytes "build_services")
                  (invalidate (bytes "runner_before") synced.0)) in
            let ran = run_plan named (runner_plan cfg) fresh in
            elim ran.1 [
              | err e ↦ (ran.0, err e)
              | ok _ ↦
                  if save_state
                  then save_running env_name branch manifest access ran.0
                  else (ran.0, ok none)
            ]
      ]
