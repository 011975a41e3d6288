-- ===== src/Provision.antt =====
-- The provisioner phase of src/domain/manager.go: `runProvisioner` with its steps, `Provision` and
-- `ProvisionAttach`, and `BuildProvisionerStepOrder`. The hooks' processes, `m.networking`,
-- `m.compute` and the file system are parameters. What a step stored is read back from the state as
-- it was.
pub mod Steps
pub mod Phase
pub mod Entry
pub mod Lifecycle
pub mod Tame
pub mod Completed
pub mod Stages
pub mod Plan
mod Samples
use previewctl.Base.{
  join, sort, trim_space, ℕ, zero, suc, ◌+◌, ◌-◌, ◌*◌, ◌/◌, ◌%◌, ◌^◌, ◌≤◌, ◌<◌, Bool, true, false,
  ◌&&◌, ◌||◌, not, Option, none, some, List, [], ◌∷◌, ◌++◌, map, reverse, ◌≡◌, refl, sym, ap, ◌∙◌,
  subst, ◌≢◌, ◌↔◌, ◌⊎◌, inl, inr, arith, Text, bytes, ◌==◌, eq_iff, eq_refl, Map, lookup, insert,
  erase, keys, lookup-insert, lookup-erase, HasUniqueKeys, if◌then◌else◌, ltb, leb, eqb, is_some,
  get_or, Bool-cases, Option-cases, length, elem, count, All, Result, ok, err,
}
use previewctl.ComputeAccess.{ComputeAccess}
use previewctl.ComputeAccess.Made.{
  Access, local_at, ssh_at, root_of, compute_access_info, direct_access,
}
use previewctl.Config.{is_empty, ProjectConfig, ProvisionerServiceConfig, ServiceConfig}
use previewctl.Core.{set_globals}
use previewctl.Destroy.{run_stages}
use previewctl.Engine.{StatePort, Session, Action, StepOpts, on_step, step_streaming, step}
use previewctl.Environment.{
  EnvironmentEntry, EnvironmentStatus, Output, text, ports, texts, step_completed, step_outputs,
  invalidate_steps_from,
}
use previewctl.HookEnv.{Host, assigned, build_hook_env, run_core_hook, run_hook}
use previewctl.Hooks.{extract_global_outputs}
use previewctl.Manifest.{Manifest, build_manifest}
use previewctl.Ports.{PortMap}
use previewctl.Registry.{nil_dereference}
use previewctl.Registry.Files.{mode_or_local}
use previewctl.Runner.{blank_entry}
use previewctl.Runner.Forced.{save_provisioned_state}

-- The manager as the phase uses it, over the states `C` of what they work on:
-- the state store and the machine.
pub record Provisioner (C : Type 0) : Type 0 where
  pub cfg : ProjectConfig
  pub host : Host
  pub hook_process : Text → List Text → C → C × Result Text
  pub allocate : Text → C → C × Result PortMap
  pub create_worktree : (env_name branch base_branch : Text) → C → C × Result Text
  pub detect_branch : Text → C → Result Text
  pub stat : Text → C → Result (Unit {0})
  pub connect : Access → ComputeAccess C
  pub build_ssh : EnvironmentEntry → Access
  pub encode_manifest : Manifest → Result Text

-- The variables of `runProvisioner` that its closures share, and the machine.
pub record Locals (C : Type 0) : Type 0 where
  pub access : Option Access
  pub compute_outputs : Option (Map Text)
  pub resources : Option Text
  pub port_map : PortMap
  pub outputs : Map (Map Text)
  pub manifest : Option Manifest
  pub machine : C

-- What a call of `Provision` or of `ProvisionAttach` asks for.
pub record Request : Type 0 where
  pub env_name : Text
  pub branch : Text
  pub base_branch : Text
  pub existing_worktree : Text
  pub create_worktree : Bool
  pub from_step : Text

-- The names of the seed steps.
unfoldable pub seed_names : Map ProvisionerServiceConfig → List Text
seed_names [] = []
seed_names ((name, svc) ∷ services) =
    let rest = seed_names services in
    if is_empty svc.seed then rest else (bytes "seed_" ++ name) ∷ rest

-- `BuildProvisionerStepOrder`
unfoldable pub provisioner_step_order : ProjectConfig → List Text
unfolding seed_names
provisioner_step_order cfg =
    bytes "provisioner_before"
    ∷ bytes "create_compute"
    ∷ bytes "allocate_ports"
    ∷ (seed_names cfg.provisioner.services
        ++ (bytes "build_manifest" ∷ bytes "write_manifest" ∷ bytes "provisioner_after" ∷ []))

-- The loop that overrides ports by the fixed ones of the configuration.
unfoldable pub fixed_ports : Map ServiceConfig → PortMap → PortMap
fixed_ports [] allocated = allocated
fixed_ports ((name, svc) ∷ services) allocated =
    fixed_ports services (if eqb svc.port 0 then allocated else insert name svc.port allocated)

-- `deserializePortMap` and `deserializeStringMap` of what a step stored under a name.
unfoldable pub cached_ports : Map Output → PortMap
cached_ports outputs = elim (lookup (bytes "ports") outputs) [
  | none ↦ []
  | some o ↦ elim o [ text _ ↦ [] | ports p ↦ p | texts _ ↦ [] ]
]

unfoldable pub cached_texts : Map Output → Option (Map Text)
cached_texts outputs = elim (lookup (bytes "outputs") outputs) [
  | none ↦ none
  | some o ↦ elim o [ text _ ↦ some [] | ports _ ↦ some [] | texts t ↦ some t ]
]

-- The environment of the hook that creates remote compute.
unfoldable pub create_env : {C : Type 0} → Provisioner C → Request → EnvironmentEntry → List Text
create_env p request e =
    build_hook_env p.host p.cfg request.env_name [] [] e.env
    ++ (assigned (bytes "PREVIEWCTL_BRANCH") request.branch
        ∷ (if is_empty request.base_branch
            then []
            else assigned (bytes "PREVIEWCTL_BASE_BRANCH") request.base_branch ∷ []))

-- The access that the outputs of the create hook describe.
unfoldable pub made_access : Map Text → Access
made_access outputs =
    let root = get_or (lookup (bytes "REMOTE_ROOT") outputs) [] in
    ssh_at (
      direct_access (get_or (lookup (bytes "VM_IP") outputs) [])
        (get_or (lookup (bytes "SSH_USER") outputs) [])
        (if is_empty root then bytes "/app" else root))

module _ {S C : Type 0} where
  -- The entry that the closures share with the engine.
  unfoldable pub entry_of : Session S (Locals C) → EnvironmentEntry
  entry_of s = get_or s.entry blank_entry

  abbrev pub set_locals : (Locals C → Locals C) → Session S (Locals C) → Session S (Locals C)
  set_locals f s = record s { world = f s.world }

  abbrev pub set_entry :
      (EnvironmentEntry → EnvironmentEntry) → Session S (Locals C) → Session S (Locals C)
  set_entry f s = record s { entry = elim s.entry [ none ↦ none | some e ↦ some (f e) ] }

  -- A call on the machine whose value a continuation takes. What it starts can also write the state
  -- store.
  unfoldable pub on_machine :
      {A : Type 0}
      → (S × C → (S × C) × Result A)
      → (A → Session S (Locals C) → Session S (Locals C))
      → Action S (Locals C)
  on_machine run next s =
      let ran = run (s.store, s.world.machine) in
      let s' = set_locals (λ l. record l { machine = ran.0.1 }) (record s { store = ran.0.0 }) in
      elim ran.1 [ err e ↦ (s', err e) | ok value ↦ (next value s', ok tt) ]

  abbrev pub streaming : (name message : Text) → Action S (Locals C) → Action S (Locals C)
  streaming name message fn s = fn (on_step name step_streaming message none s)

  -- The hooks before and behind the phase; the worktree is that of the request or of the access, and
  -- without access the program ends there.
  unfoldable pub phase_hook :
      Provisioner (S × C)
      → (name label script : Text) → Option Text
      → PortMap
      → Request
      → StepOpts S (Locals C)
  unfolding entry_of on_machine run_hook
  phase_hook p name label script worktree port_map request =
      let running = bytes "Running " ++ (label ++ (bytes " → " ++ script)) in
      record {
        name = name;
        start_msg = running;
        complete_msg = bytes "Ran " ++ (label ++ (bytes " (" ++ (script ++ bytes ")")));
        fn = λ s.
            streaming name running
              (elim worktree [
                | none ↦ λ t. (t, err nil_dereference)
                | some path ↦
                    on_machine
                      (run_hook p.host p.hook_process script [] (
                        build_hook_env p.host p.cfg request.env_name path port_map
                          (entry_of s).env))
                      (λ _ t. t)
              ])
              s;
        verify = none;
        outputs = none;
        allow_cache = none;
      }

  -- The function of the remote `create_compute`.
  unfoldable pub create_remote :
      Provisioner (S × C) → Request → (script : Text) → List Text → Action S (Locals C)
  unfolding entry_of on_machine run_hook create_env
  create_remote p request script declared s =
      streaming (bytes "create_compute") (bytes "Creating remote compute...")
        (on_machine
          (run_hook p.host p.hook_process script declared (create_env p request (entry_of s)))
          (λ outputs t.
            set_entry (set_globals (extract_global_outputs outputs))
              (set_locals (λ l. record l { compute_outputs = some outputs }) t)))
        s

  -- The check of a cached remote compute.
  unfoldable pub check_remote : Provisioner (S × C) → Action S (Locals C)
  unfolding on_machine
  check_remote p s = elim s.world.access [
    | none ↦ (s, err (bytes "no cached compute access"))
    | some access ↦ on_machine ((p.connect access).exec (bytes "echo ok") []) (λ _ t. t) s
  ]

  unfoldable pub remote_outputs : Session S (Locals C) → Map Output
  remote_outputs s =
      let outputs = get_or s.world.compute_outputs [] in
      (bytes "VM_IP", text (get_or (lookup (bytes "VM_IP") outputs) []))
      ∷ (bytes "SSH_USER", text (get_or (lookup (bytes "SSH_USER") outputs) []))
      ∷ (bytes "REMOTE_ROOT", text (get_or (lookup (bytes "REMOTE_ROOT") outputs) []))
      ∷ []

  -- The access becomes the phase's, and the entry's.
  unfoldable pub take_access : Access → Session S (Locals C) → Session S (Locals C)
  unfolding compute_access_info
  take_access access s =
      set_entry (λ e. record e { compute = some (compute_access_info access true) })
        (set_locals (λ l. record l { access = some access }) s)

  -- The access that a step has found, if it ran.
  unfoldable pub take_found : Option Access → Session S (Locals C) → Session S (Locals C)
  unfolding take_access
  take_found none s = s
  take_found (some access) s = take_access access s
