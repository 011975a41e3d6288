-- ===== src/Provision/Lifecycle.antt =====
-- `ProvisionAttach`, `Init` and `Attach` of src/domain/manager.go: a whole environment.
use previewctl.Base.{
  Result-cases, ℕ, Bool, true, false, Option, none, some, [], ◌++◌, ◌≡◌, refl, inl, inr, arith,
  Text, bytes, ◌==◌, if◌then◌else◌, elem, Result, ok, err,
}
use previewctl.ComputeAccess.Made.{Access, local_at, compute_access_info}
use previewctl.Core.{Manager, load_manifest}
use previewctl.Engine.{StatePort, Session}
use previewctl.Environment.{
  EnvironmentEntry, EnvironmentStatus, step_completed, creating, provisioned, running, stopped,
  error,
}
use previewctl.Manifest.{Manifest}
use previewctl.Provision.{Provisioner, Locals, Request}
use previewctl.Provision.Entry.{provision}
use previewctl.Registry.{World, Setup}
use previewctl.Registry.Phase.{runner_phase-running}
use previewctl.Registry.Steps.{named}
use previewctl.Runner.{run_runner, runner_plan}
use previewctl.Runner.Order.{planned}

abbrev pub is_running : EnvironmentStatus → Bool
is_running running = true
is_running creating = false
is_running provisioned = false
is_running stopped = false
is_running error = false

-- The access that `loadManifestFromEntry` makes, as `computeAccessInfo` looks at it.
unfoldable pub loaded_access : {C : Type 0} → Provisioner C → EnvironmentEntry → Access
loaded_access p entry = elim entry.compute [
  | none ↦ local_at []
  | some info ↦ if info.type == bytes "ssh" then p.build_ssh entry else local_at info.path
]

module _ {S C : Type 0} (port : StatePort S) (clock : ℕ → ℕ) (hostname : Text)
    (p : Provisioner (S × C)) (readings : Text → ℕ) where
  -- `ProvisionAttach`
  unfoldable pub provision_attach :
      (env_name worktree_path from_step : Text)
      → Session S (Locals C)
      → Session S (Locals C) × Result EnvironmentEntry
  unfolding provision
  provision_attach env_name worktree_path from_step s =
      elim (p.detect_branch worktree_path (s.store, s.world.machine)) [
        | err e ↦ (s, err (bytes "detecting branch: " ++ e))
        | ok branch ↦
            let request : Request = record {
              env_name = env_name;
              branch = branch;
              base_branch = [];
              existing_worktree = worktree_path;
              create_worktree = false;
              from_step = from_step;
            } in
            elim (port.get_environment env_name s.store) [
              | err e ↦ (s, err (bytes "checking existing state: " ++ e))
              | ok none ↦ provision port clock hostname p request readings false s
              | ok (some existing) ↦
                  if is_running existing.status
                  then (
                    s,
                    err (
                        bytes "environment '"
                        ++ (env_name
                            ++ (bytes "' is already running — use 'delete' first "
                                ++ bytes "or choose a different name"))),
                  )
                  else provision port clock hostname p request readings false s
            ]
      ]

  -- The session of the runner phase behind a provisioner phase.
  abbrev pub runner_session :
      EnvironmentEntry → Manifest → Session S (Locals C) → Session S (World C)
  runner_session entry manifest s = record {
    entry = some entry;
    store = s.store;
    world = record { manifest = manifest; compute = s.world.machine; stderr = [] };
    no_cache = s.no_cache;
    ticks = s.ticks;
    events = s.events;
  }

  -- The second half of `Init` and `Attach`: the manifest is read back, and the runner phase runs.
  unfoldable pub run_provisioned :
      Manager (S × C)
      → (env_name branch : Text) → (managed : Bool) → EnvironmentEntry
      → Session S (Locals C)
      → S × Result (Option EnvironmentEntry)
  unfolding load_manifest loaded_access compute_access_info
  run_provisioned manager env_name branch managed entry s =
      elim (load_manifest manager entry (s.store, s.world.machine)) [
        | err e ↦ (s.store, err e)
        | ok (access, manifest) ↦
            let setup : Setup (S × C) = record manager.base {
              access = access;
              env_name = env_name;
              branch = branch;
            } in
            let ran =
              run_runner port clock hostname setup.cfg (named setup) env_name branch manifest
                (compute_access_info (loaded_access p entry) managed) true
                (runner_session entry manifest s) in
            (ran.0.store, ran.1)
      ]

  -- `Init`
  unfoldable pub init :
      Manager (S × C)
      → (env_name branch base_branch : Text) → Session S (Locals C)
      → S × Result (Option EnvironmentEntry)
  unfolding provision run_provisioned
  init manager env_name branch base_branch s =
      let request : Request = record {
        env_name = env_name;
        branch = branch;
        base_branch = base_branch;
        existing_worktree = [];
        create_worktree = true;
        from_step = [];
      } in
      let made = provision port clock hostname p request readings true s in
      elim made.1 [
        | err e ↦ (made.0.store, err e)
        | ok entry ↦ run_provisioned manager env_name branch true entry made.0
      ]

  -- `Attach`
  unfoldable pub attach :
      Manager (S × C)
      → (env_name worktree_path : Text) → Session S (Locals C)
      → S × Result (Option EnvironmentEntry)
  unfolding provision_attach run_provisioned
  attach manager env_name worktree_path s =
      let made = provision_attach env_name worktree_path [] s in
      elim made.1 [
        | err e ↦ (made.0.store, err e)
        | ok entry ↦ run_provisioned manager env_name entry.branch false entry made.0
      ]

  -- What a created environment is: running, in the store under its name, with every step of the
  -- runner phase completed.
  abbrev pub IsCreated : Manager (S × C) → Text → S → EnvironmentEntry → Type 0
  IsCreated manager env_name store e =
      (e.status ≡ EnvironmentStatus.running)
      × (port.get_environment env_name store ≡ ok (some e))
      × ((n : Text)
          → elem n (planned (runner_plan manager.base.cfg)) ≡ true
          → step_completed n e ≡ true)

  run_provisioned-IsCreated :
      (manager : Manager (S × C)) (env_name branch : Text) (managed : Bool)
      (entry e : EnvironmentEntry) (s : Session S (Locals C))
      → (run_provisioned manager env_name branch managed entry s).1 ≡ ok (some e)
      → IsCreated manager env_name (run_provisioned manager env_name branch managed entry s).0 e
  unfolding run_provisioned
  run_provisioned-IsCreated manager env_name branch managed entry e s h =
      elim (Result-cases (load_manifest manager entry (s.store, s.world.machine))) [
        | inr m ↦ absurd (ground (arith, m.1, h))
        | inl l ↦
            let setup : Setup (S × C) = record manager.base {
              access = l.0.0;
              env_name = env_name;
              branch = branch;
            } in
            let done =
              runner_phase-running port clock hostname setup l.0.1
                (compute_access_info (loaded_access p entry) managed) (runner_session entry l.0.1 s)
                e refl (ground (arith, l.1, h)) in
            (done.0, ground (arith, l.1, done.1), done.2)
      ]

  -- When `Init` returns an environment, and so no error, that environment is running, it is what the
  -- store gives for its name, and every step of the runner phase is completed in it.
  pub init-IsCreated :
      (manager : Manager (S × C)) (env_name branch base_branch : Text) (e : EnvironmentEntry)
      (s : Session S (Locals C))
      → (init manager env_name branch base_branch s).1 ≡ ok (some e)
      → IsCreated manager env_name (init manager env_name branch base_branch s).0 e
  unfolding init
  init-IsCreated manager env_name branch base_branch e s h =
      let request : Request = record {
        env_name = env_name;
        branch = branch;
        base_branch = base_branch;
        existing_worktree = [];
        create_worktree = true;
        from_step = [];
      } in
      let made = provision port clock hostname p request readings true s in
      elim (Result-cases made.1) [
        | inr m ↦ absurd (ground (arith, m.1, h))
        | inl k ↦
            let done =
              run_provisioned-IsCreated manager env_name branch true k.0 e made.0
                (ground (arith, k.1, h)) in
            (done.0, ground (arith, k.1, done.1), done.2)
      ]

  -- So is what `Attach` returns.
  pub attach-IsCreated :
      (manager : Manager (S × C)) (env_name worktree_path : Text) (e : EnvironmentEntry)
      (s : Session S (Locals C))
      → (attach manager env_name worktree_path s).1 ≡ ok (some e)
      → IsCreated manager env_name (attach manager env_name worktree_path s).0 e
  unfolding attach
  attach-IsCreated manager env_name worktree_path e s h =
      let made = provision_attach env_name worktree_path [] s in
      elim (Result-cases made.1) [
        | inr m ↦ absurd (ground (arith, m.1, h))
        | inl k ↦
            let done =
              run_provisioned-IsCreated manager env_name k.0.branch false k.0 e made.0
                (ground (arith, k.1, h)) in
            (done.0, ground (arith, k.1, done.1), done.2)
      ]
