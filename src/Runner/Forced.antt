-- ===== src/Runner/Forced.antt =====
-- src/domain/manager.go: `RunStep` and `RunSteps`, which run steps whatever is completed, `SetStatus`,
-- and `saveProvisionedState`.
use previewctl.Runner.{registry_get, save_to}
use previewctl.Base.{ℕ, ◌+◌, true, none, some, List, [], ◌∷◌, ◌++◌, Text, bytes, Result, ok, err}
use previewctl.Environment.{EnvironmentEntry, EnvironmentStatus, ComputeAccessInfo}
use previewctl.Manifest.{Manifest}
use previewctl.Engine.{StatePort, Session, StepOpts, Action, step, step_simple}

module _ {S W : Type 0} (port : StatePort S) (clock : ℕ → ℕ) (hostname : Text) where
  -- The loop of `RunSteps`.
  unfoldable pub run_forced : (Text → StepOpts S W) → List Text → Action S W
  unfolding registry_get
  run_forced named [] s = (s, ok tt)
  run_forced named (name ∷ names) s = elim (registry_get named name) [
    | err e ↦ (s, err e)
    | ok opts ↦
        let ran = step port clock hostname opts s in
        elim ran.1 [
          | err e ↦ (ran.0, err (bytes "step " ++ (name ++ (bytes ": " ++ e))))
          | ok _ ↦ run_forced named names ran.0
        ]
  ]

  -- The entry that `RunStep` and `RunSteps` begin with.
  unfoldable pub load_entry : Text → Session S W → Result EnvironmentEntry
  load_entry env_name s = elim (port.get_environment env_name s.store) [
    | err e ↦ err (bytes "loading environment: " ++ e)
    | ok none ↦ err (bytes "environment '" ++ (env_name ++ bytes "' not found"))
    | ok (some e) ↦ ok e
  ]

  -- `registry` is `loadManifestFromEntry` and `newStepRegistry`: the steps for an entry, or the error
  -- of reading its manifest. `noCache` is set for the steps and put back after them.
  unfoldable pub run_steps :
      (EnvironmentEntry → Session S W → Result (Text → StepOpts S W))
      → Text
      → List Text
      → Action S W
  unfolding load_entry run_forced
  run_steps registry env_name names s = elim (load_entry env_name s) [
    | err e ↦ (s, err e)
    | ok entry ↦ elim (registry entry s) [
      | err e ↦ (s, err e)
      | ok named ↦
          let ran = run_forced named names (record s { entry = some entry; no_cache = true }) in
          (record ran.0 { no_cache = s.no_cache }, ran.1)
    ]
  ]

  unfoldable pub run_step :
      (EnvironmentEntry → Session S W → Result (Text → StepOpts S W)) → Text → Text → Action S W
  unfolding load_entry registry_get
  run_step registry env_name name s = elim (load_entry env_name s) [
    | err e ↦ (s, err e)
    | ok entry ↦ elim (registry entry s) [
      | err e ↦ (s, err e)
      | ok named ↦ elim (registry_get named name) [
        | err e ↦ (s, err e)
        | ok opts ↦
            let ran =
              step port clock hostname opts (record s { entry = some entry; no_cache = true }) in
            (record ran.0 { no_cache = s.no_cache }, ran.1)
      ]
    ]
  ]

  -- `SetStatus`
  unfoldable pub set_status : Text → EnvironmentStatus → Action S W
  unfolding load_entry
  set_status env_name status s = elim (load_entry env_name s) [
    | err e ↦ (s, err e)
    | ok entry ↦
        save_to port clock hostname env_name
          (record entry { status = status; updated_at = clock s.ticks })
          (record s { ticks = s.ticks + 1 })
  ]

  -- `saveProvisionedState`, on the entry of the provisioner phase.
  unfoldable pub save_provisioned_state :
      Text
      → Text
      → Manifest
      → ComputeAccessInfo
      → EnvironmentEntry
      → Session S W
      → Session S W × Result EnvironmentEntry
  unfolding step_simple
  save_provisioned_state env_name branch manifest access entry s =
      let e = record entry {
        mode = manifest.mode;
        branch = branch;
        status = EnvironmentStatus.provisioned;
        ports = manifest.ports;
        provisioner_outputs = manifest.provisioner_outputs;
        compute = some access;
        updated_at = clock s.ticks;
      } in
      let ran =
        step_simple (bytes "save_state") (bytes "Saving state...") (bytes "State saved")
          (save_to port clock hostname env_name e)
          (record s { entry = some e; ticks = s.ticks + 1 }) in
      elim ran.1 [ err m ↦ (ran.0, err (bytes "saving state: " ++ m)) | ok _ ↦ (ran.0, ok e) ]
