-- ===== src/Provision/Phase.antt =====
-- The stages of `runProvisioner` of src/domain/manager.go, in order.
use previewctl.Base.{
  ℕ, Bool, false, ◌&&◌, not, none, some, List, [], ◌∷◌, ◌++◌, Text, bytes, ◌==◌, Map, insert,
  if◌then◌else◌, ok, err,
}
use previewctl.ComputeAccess.Made.{Access, local_at, root_of}
use previewctl.Config.{is_empty, ProvisionerServiceConfig}
use previewctl.Engine.{StatePort, Session, Action, StepOpts, step}
use previewctl.Environment.{EnvironmentEntry, step_completed, step_outputs}
use previewctl.Provision.{
  Provisioner, Locals, Request, cached_ports, cached_texts, entry_of, set_locals, phase_hook,
  take_found, made_access,
}
use previewctl.Provision.Steps.{
  create_remote_step, create_local_step, allocate_step, seed_step, build_step, build_fn, write_step,
}

module _ {S C : Type 0} (port : StatePort S) (clock : ℕ → ℕ) (hostname : Text)
    (p : Provisioner (S × C)) (request : Request) where
  abbrev make_step : StepOpts S (Locals C) → Action S (Locals C)
  make_step = step port clock hostname

  -- `entry.Compute` of a kind, and its step completed.
  unfoldable pub has_cached : Text → EnvironmentEntry → Bool
  has_cached type e = elim e.compute [
    | none ↦ false
    | some c ↦ c.type == type && step_completed (bytes "create_compute") e
  ]

  unfoldable pub before_stage : List (Text × Action S (Locals C))
  unfolding phase_hook
  before_stage =
      if is_empty p.cfg.provisioner.before
      then []
      else (
        bytes "provisioner before hook: ",
        make_step (
            phase_hook p (bytes "provisioner_before") (bytes "provisioner.before")
              p.cfg.provisioner.before (some request.existing_worktree) [] request),
      )
        ∷ []

  -- What follows a step that may have found compute.
  unfoldable pub after_remote : Session S (Locals C) → Session S (Locals C)
  unfolding made_access take_found
  after_remote s =
      take_found
        (elim s.world.compute_outputs [ none ↦ none | some outputs ↦ some (made_access outputs) ]) s

  unfoldable pub after_local : Session S (Locals C) → Session S (Locals C)
  unfolding take_found
  after_local s =
      take_found (elim s.world.resources [ none ↦ none | some path ↦ some (local_at path) ]) s

  abbrev with_access : Access → Session S (Locals C) → Session S (Locals C)
  with_access access = set_locals (λ l. record l { access = some access })

  unfoldable pub remote_compute : (script : Text) → List Text → Action S (Locals C)
  unfolding entry_of has_cached create_remote_step after_remote
  remote_compute script declared s =
      let e = entry_of s in
      let s' = if has_cached (bytes "ssh") e then with_access (p.build_ssh e) s else s in
      let ran = make_step (create_remote_step p request script declared) s' in
      elim ran.1 [ err m ↦ (ran.0, err m) | ok _ ↦ (after_remote ran.0, ok tt) ]

  unfoldable pub local_compute : Action S (Locals C)
  unfolding entry_of has_cached create_local_step after_local
  local_compute s =
      let e = entry_of s in
      let path : Text = elim e.compute [ none ↦ [] | some c ↦ c.path ] in
      let s' =
        if has_cached (bytes "local") e && not (is_empty path)
        then with_access (local_at path) s
        else s in
      let ran = make_step (create_local_step p request) s' in
      elim ran.1 [ err m ↦ (ran.0, err m) | ok _ ↦ (after_local ran.0, ok tt) ]

  -- Remote compute, an existing worktree, or a new one.
  unfoldable pub compute_stage : List (Text × Action S (Locals C))
  unfolding remote_compute local_compute
  compute_stage =
      let script : Text = elim p.cfg.provisioner.compute [ none ↦ [] | some h ↦ h.create ] in
      let declared : List Text = elim p.cfg.provisioner.compute [
        | none ↦ []
        | some h ↦ h.outputs
      ] in
      if not (is_empty script)
      then (bytes "compute create hook: ", remote_compute script declared) ∷ []
      else if not (is_empty request.existing_worktree)
      then ([], λ s. (with_access (local_at request.existing_worktree) s, ok tt)) ∷ []
      else if request.create_worktree
      then (bytes "creating compute resources: ", local_compute) ∷ []
      else []

  -- The ports of a completed step come from what it stored.
  unfoldable pub allocate_stage : Action S (Locals C)
  unfolding entry_of cached_ports allocate_step
  allocate_stage s =
      let e = entry_of s in
      make_step (allocate_step p request) (
        if step_completed (bytes "allocate_ports") e
        then set_locals
            (λ l. record l { port_map = cached_ports (step_outputs (bytes "allocate_ports") e) }) s
        else s)

  -- So do the outputs of a completed seed.
  unfoldable pub seed_stage : (service script : Text) → Action S (Locals C)
  unfolding entry_of cached_texts seed_step
  seed_stage service script s =
      let e = entry_of s in
      let name = bytes "seed_" ++ service in
      make_step (seed_step p request service script) (
        if step_completed name e
        then elim (cached_texts (step_outputs name e)) [
          | none ↦ s
          | some printed ↦
              set_locals (λ l. record l { outputs = insert service printed l.outputs }) s
        ]
        else s)

  unfoldable pub seed_stages : Map ProvisionerServiceConfig → List (Text × Action S (Locals C))
  unfolding seed_stage
  seed_stages [] = []
  seed_stages ((name, svc) ∷ services) =
      let rest = seed_stages services in
      if is_empty svc.seed
      then rest
      else (bytes "seeding " ++ (name ++ bytes ": "), seed_stage name svc.seed) ∷ rest

  -- A manifest that a completed step did not build is built again.
  unfoldable pub rebuild : Action S (Locals C)
  unfolding build_fn
  rebuild s = elim s.world.manifest [ some _ ↦ (s, ok tt) | none ↦ build_fn p request s ]

  unfoldable pub after_hook : Action S (Locals C)
  unfolding phase_hook root_of
  after_hook s =
      make_step
        (phase_hook p (bytes "provisioner_after") (bytes "provisioner.after")
          p.cfg.provisioner.after
          (elim s.world.access [ none ↦ none | some access ↦ some (root_of access) ])
          (elim s.world.manifest [ none ↦ [] | some manifest ↦ manifest.ports ]) request)
        s

  unfoldable pub after_stage : List (Text × Action S (Locals C))
  unfolding after_hook
  after_stage =
      if is_empty p.cfg.provisioner.after
      then []
      else (bytes "provisioner after hook: ", after_hook) ∷ []

  -- The stages of the phase, each with what is put in front of its error.
  unfoldable pub provisioner_stages : List (Text × Action S (Locals C))
  unfolding before_stage compute_stage allocate_stage seed_stages build_step rebuild write_step
      after_stage
  provisioner_stages =
      before_stage
      ++ (compute_stage
          ++ ((bytes "allocating ports: ", allocate_stage)
              ∷ (seed_stages p.cfg.provisioner.services
                  ++ ((bytes "building manifest: ", make_step (build_step p request))
                      ∷ (bytes "rebuilding manifest after cache: ", rebuild)
                      ∷ (bytes "writing manifest: ", make_step (write_step p request))
                      ∷ after_stage))))
