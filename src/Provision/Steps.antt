-- ===== src/Provision/Steps.antt =====
-- The steps of `runProvisioner` of src/domain/manager.go.
use previewctl.Base.{
  none, some, List, [], ◌∷◌, ◌++◌, Text, bytes, lookup, insert, get_or, Result, ok, err,
}
use previewctl.Core.{set_globals}
use previewctl.Engine.{Session, Action, StepOpts}
use previewctl.Environment.{text, ports, texts}
use previewctl.HookEnv.{run_core_hook}
use previewctl.Hooks.{extract_global_outputs}
use previewctl.Manifest.{Manifest, build_manifest}
use previewctl.Registry.{nil_dereference}
use previewctl.Registry.Files.{mode_or_local}
use previewctl.Provision.{
  Provisioner, Locals, Request, fixed_ports, entry_of, set_locals, set_entry, on_machine, streaming,
  create_remote, check_remote, remote_outputs,
}

module _ {S C : Type 0} (p : Provisioner (S × C)) (request : Request) where
  -- `create_compute` by the hook.
  unfoldable pub create_remote_step : (script : Text) → List Text → StepOpts S (Locals C)
  unfolding create_remote check_remote remote_outputs
  create_remote_step script declared = record {
    name = bytes "create_compute";
    start_msg = bytes "Creating remote compute...";
    complete_msg = bytes "Compute created via hook";
    fn = create_remote p request script declared;
    verify = some (check_remote p);
    outputs = some remote_outputs;
    allow_cache = none;
  }

  -- A cached local compute has to be there still.
  unfoldable pub check_worktree : Action S (Locals C)
  check_worktree s = elim s.world.access [
    | none ↦ (s, err (bytes "no cached compute path"))
    | some access ↦ elim (p.stat (p.connect access).root (s.store, s.world.machine)) [
      | err e ↦ (s, err (bytes "worktree missing: " ++ e))
      | ok _ ↦ (s, ok tt)
    ]
  ]

  -- `create_compute` of a worktree.
  unfoldable pub create_local_step : StepOpts S (Locals C)
  unfolding on_machine check_worktree
  create_local_step = record {
    name = bytes "create_compute";
    start_msg = bytes "Creating compute resources...";
    complete_msg = bytes "Compute resources created";
    fn =
        on_machine (p.create_worktree request.env_name request.branch request.base_branch)
          (λ path t. set_locals (λ l. record l { resources = some path }) t);
    verify = some check_worktree;
    outputs = some (λ s. (bytes "worktreePath", text (get_or s.world.resources [])) ∷ []);
    allow_cache = none;
  }

  unfoldable pub allocate_step : StepOpts S (Locals C)
  unfolding on_machine fixed_ports
  allocate_step = record {
    name = bytes "allocate_ports";
    start_msg = bytes "Allocating ports...";
    complete_msg = bytes "Ports allocated";
    fn = on_machine (p.allocate request.env_name) (λ allocated t.
        set_locals (λ l. record l { port_map = fixed_ports p.cfg.services allocated }) t);
    verify = none;
    outputs = some (λ s. (bytes "ports", ports s.world.port_map) ∷ []);
    allow_cache = none;
  }

  -- The function of a seed step.
  unfoldable pub seed_fn : (service script : Text) → Action S (Locals C)
  unfolding on_machine run_core_hook
  seed_fn service script s =
      streaming (bytes "seed_" ++ service)
        (bytes "Seeding " ++ (service ++ (bytes " → " ++ script)))
        (on_machine
          (run_core_hook p.host p.hook_process p.cfg service (bytes "seed") request.env_name
            s.world.port_map [])
          (λ printed t. set_entry (set_globals (extract_global_outputs (get_or printed []))) (
            set_locals (λ l. record l { outputs = insert service (get_or printed []) l.outputs })
              t)))
        s

  unfoldable pub seed_step : (service script : Text) → StepOpts S (Locals C)
  unfolding seed_fn
  seed_step service script = record {
    name = bytes "seed_" ++ service;
    start_msg = bytes "Seeding " ++ (service ++ (bytes " → " ++ script));
    complete_msg = bytes "Seeded " ++ (service ++ (bytes " (" ++ (script ++ bytes ")")));
    fn = seed_fn service script;
    verify = none;
    outputs =
        some (λ s. (bytes "outputs", texts (get_or (lookup service s.world.outputs) [])) ∷ []);
    allow_cache = none;
  }

  -- The manifest of what the phase has found so far.
  unfoldable pub current_manifest : Session S (Locals C) → Result Manifest
  unfolding entry_of mode_or_local
  current_manifest s =
      build_manifest p.cfg request.env_name request.branch (mode_or_local p.cfg) s.world.port_map
        s.world.outputs (entry_of s).env

  unfoldable pub build_fn : Action S (Locals C)
  unfolding current_manifest
  build_fn s = elim (current_manifest s) [
    | err e ↦ (s, err e)
    | ok manifest ↦ (set_locals (λ l. record l { manifest = some manifest }) s, ok tt)
  ]

  unfoldable pub build_step : StepOpts S (Locals C)
  unfolding build_fn
  build_step = record {
    name = bytes "build_manifest";
    start_msg = bytes "Building manifest...";
    complete_msg = bytes "Manifest built";
    fn = build_fn;
    verify = none;
    outputs = none;
    allow_cache = none;
  }

  -- Without compute access, or without a manifest, the program ends here.
  unfoldable pub write_fn : Action S (Locals C)
  unfolding on_machine
  write_fn s = elim s.world.access [
    | none ↦ (s, err nil_dereference)
    | some access ↦ elim s.world.manifest [
      | none ↦ (s, err nil_dereference)
      | some manifest ↦ elim (p.encode_manifest manifest) [
        | err e ↦ (s, err e)
        | ok content ↦
            on_machine ((p.connect access).write_file (bytes ".previewctl.json") content) (λ _ t. t)
              s
      ]
    ]
  ]

  unfoldable pub write_step : StepOpts S (Locals C)
  unfolding write_fn
  write_step = record {
    name = bytes "write_manifest";
    start_msg = bytes "Writing manifest...";
    complete_msg = bytes "Manifest written to .previewctl.json";
    fn = write_fn;
    verify = none;
    outputs = none;
    allow_cache = none;
  }
