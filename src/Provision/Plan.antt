-- ===== src/Provision/Plan.antt =====
-- `runProvisioner` of src/domain/manager.go: the steps that a phase makes, and their completion.
use previewctl.Base.{
  ℕ, true, not, none, some, List, [], ◌∷◌, ◌++◌, ◌≡◌, inl, inr, arith, Text, bytes, Map,
  if◌then◌else◌, is_some, elem, ok, Result-cases,
}
use previewctl.Provision.Stages.{
  one_stage, if-Completes, before_stage-Completes, remote_compute-Completes,
  local_compute-Completes, allocate_stage-Completes, seed_stage-Completes,
}
use previewctl.Provision.Completed.{
  Completes, nil-Completes, cons-Completes, append-Completes, step-Completes,
}
use previewctl.ComputeAccess.Made.{local_at, root_of}
use previewctl.Config.{is_empty, ProvisionerServiceConfig}
use previewctl.Destroy.{run_stages}
use previewctl.Engine.{StatePort, Session, step}
use previewctl.Engine.Recorded.{completed_in}
use previewctl.Provision.{Provisioner, Locals, Request, seed_names, set_locals}
use previewctl.Provision.Phase.{
  before_stage, compute_stage, seed_stage, seed_stages, rebuild, after_hook, after_stage,
  provisioner_stages,
}
use previewctl.Provision.Entry.{load_or_create, begin_with, forget_from, run_provisioner}
use previewctl.Provision.Steps.{build_step, build_fn, write_step}
use previewctl.Provision.Tame.{phase_hook-IsTame, build_step-IsTame, write_step-IsTame}

-- The names of the steps that the phase makes for a request.
unfoldable pub compute_names : {C : Type 0} → Provisioner C → Request → List Text
compute_names p request =
    let script : Text = elim p.cfg.provisioner.compute [ none ↦ [] | some h ↦ h.create ] in
    if not (is_empty script)
    then bytes "create_compute" ∷ []
    else if not (is_empty request.existing_worktree)
    then []
    else if request.create_worktree
    then bytes "create_compute" ∷ []
    else []

unfoldable pub provisioner_plan : {C : Type 0} → Provisioner C → Request → List Text
unfolding compute_names seed_names
provisioner_plan p request =
    (if is_empty p.cfg.provisioner.before then [] else bytes "provisioner_before" ∷ [])
    ++ (compute_names p request
        ++ ((bytes "allocate_ports" ∷ [])
            ++ (seed_names p.cfg.provisioner.services
                ++ ((bytes "build_manifest" ∷ [])
                    ++ ([]
                        ++ ((bytes "write_manifest" ∷ [])
                            ++ (if is_empty p.cfg.provisioner.after
                                then []
                                else bytes "provisioner_after" ∷ [])))))))

module _ {S C : Type 0} (port : StatePort S) (clock : ℕ → ℕ) (hostname : Text)
    (p : Provisioner (S × C)) (request : Request) where
  existing-Completes : Completes [] (λ (s : Session S (Locals C)).
      (set_locals (λ l. record l { access = some (local_at request.existing_worktree) }) s, ok tt))
  unfolding elem
  existing-Completes s h r = (h, λ n c. c)

  compute_stage-Completes :
      Completes (compute_names p request) (run_stages (compute_stage port clock hostname p request))
  unfolding compute_stage compute_names
  compute_stage-Completes =
      let script : Text = elim p.cfg.provisioner.compute [ none ↦ [] | some h ↦ h.create ] in
      let declared : List Text = elim p.cfg.provisioner.compute [
        | none ↦ []
        | some h ↦ h.outputs
      ] in
      if-Completes port clock hostname p request (not (is_empty script)) _ _ _ _
        (one_stage port clock hostname p request (bytes "compute create hook: ") _ _
          (remote_compute-Completes port clock hostname p request script declared))
        (if-Completes port clock hostname p request (not (is_empty request.existing_worktree)) [] _
          _ _ (one_stage port clock hostname p request [] [] _ existing-Completes)
          (if-Completes port clock hostname p request request.create_worktree _ [] _ []
            (one_stage port clock hostname p request (bytes "creating compute resources: ") _ _
              (local_compute-Completes port clock hostname p request))
            nil-Completes))

  seed_stages-Completes :
      (services : Map ProvisionerServiceConfig)
      → Completes
          (seed_names services)
          (run_stages (seed_stages port clock hostname p request services))
  unfolding seed_stages seed_names
  seed_stages-Completes [] = nil-Completes
  seed_stages-Completes ((name, svc) ∷ services) =
      let rest = seed_stages-Completes services in
      if-Completes port clock hostname p request (is_empty svc.seed) _ _ _ _ rest (
        cons-Completes ((bytes "seed_" ++ name) ∷ []) (seed_names services)
          (bytes "seeding " ++ (name ++ bytes ": "))
          (seed_stage port clock hostname p request name svc.seed)
          (seed_stages port clock hostname p request services)
          (seed_stage-Completes port clock hostname p request name svc.seed) rest)

  rebuild-Completes : Completes [] (rebuild port clock hostname p request)
  unfolding rebuild build_fn elem
  rebuild-Completes s h r = (ground (arith, h), λ n c. ground (arith, c))

  after_hook-Completes :
      Completes (bytes "provisioner_after" ∷ []) (after_hook port clock hostname p request)
  unfolding after_hook
  after_hook-Completes s =
      step-Completes port clock hostname _
        (phase_hook-IsTame p (bytes "provisioner_after") (bytes "provisioner.after")
          p.cfg.provisioner.after
          (elim s.world.access [ none ↦ none | some access ↦ some (root_of access) ])
          (elim s.world.manifest [ none ↦ [] | some manifest ↦ manifest.ports ]) request)
        s

  after_stage-Completes :
      Completes
        (if is_empty p.cfg.provisioner.after then [] else bytes "provisioner_after" ∷ [])
        (run_stages (after_stage port clock hostname p request))
  unfolding after_stage
  after_stage-Completes =
      if-Completes port clock hostname p request (is_empty p.cfg.provisioner.after) [] _ [] _
        nil-Completes
        (one_stage port clock hostname p request (bytes "provisioner after hook: ") _ _
          after_hook-Completes)

  build_step-Completes :
      Completes (bytes "build_manifest" ∷ []) (step port clock hostname (build_step p request))
  unfolding build_step
  build_step-Completes =
      step-Completes port clock hostname (build_step p request) (build_step-IsTame p request)

  write_step-Completes :
      Completes (bytes "write_manifest" ∷ []) (step port clock hostname (write_step p request))
  unfolding write_step
  write_step-Completes =
      step-Completes port clock hostname (write_step p request) (write_step-IsTame p request)

  provisioner_stages-Completes :
      Completes
        (provisioner_plan p request)
        (run_stages (provisioner_stages port clock hostname p request))
  unfolding provisioner_stages provisioner_plan
  provisioner_stages-Completes =
      append-Completes _ _ (before_stage port clock hostname p request) _
        (before_stage-Completes port clock hostname p request)
        (append-Completes _ _ (compute_stage port clock hostname p request) _
          compute_stage-Completes
          (cons-Completes (bytes "allocate_ports" ∷ []) _ _ _ _
            (allocate_stage-Completes port clock hostname p request)
            (append-Completes _ _
              (seed_stages port clock hostname p request p.cfg.provisioner.services) _
              (seed_stages-Completes p.cfg.provisioner.services)
              (cons-Completes (bytes "build_manifest" ∷ []) _ _ _ _ build_step-Completes (
                cons-Completes [] _ _ _ _ rebuild-Completes (
                  cons-Completes (bytes "write_manifest" ∷ []) _ _ _ _ write_step-Completes
                    after_stage-Completes))))))

  load_or_create-some :
      (s : Session S (Locals C))
      → (load_or_create port clock hostname p request s).1 ≡ ok tt
      → is_some (load_or_create port clock hostname p request s).0.entry ≡ true
  unfolding load_or_create begin_with
  load_or_create-some s r = ground (arith, r)

  forget_from-some :
      (readings : Text → ℕ) (s : Session S (Locals C))
      → is_some s.entry ≡ true
      → is_some (forget_from port clock hostname p request readings s).0.entry ≡ true
  unfolding forget_from begin_with
  forget_from-some readings s h = ground (arith, h)

  -- A provisioner phase that ends with no error has completed every step that it makes for its
  -- request: the configured hooks, the compute unless the worktree is there already, the ports, each
  -- seed, and the building and the writing of the manifest. It does so whatever was completed when it
  -- began, and whichever step it was asked to begin from.
  pub run_provisioner-completed :
      (readings : Text → ℕ) (s : Session S (Locals C)) (n : Text)
      → (run_provisioner port clock hostname p request readings s).1 ≡ ok tt
      → elem n (provisioner_plan p request) ≡ true
      → completed_in n (run_provisioner port clock hostname p request readings s).0 ≡ true
  unfolding run_provisioner
  run_provisioner-completed readings s n r m =
      let loaded = load_or_create port clock hostname p request s in
      elim (Result-cases loaded.1) [
        | inr e ↦ absurd (ground (arith, e.1, r))
        | inl e ↦
            let ready = forget_from port clock hostname p request readings loaded.0 in
            elim (Result-cases ready.1) [
              | inr f ↦ absurd (ground (arith, e.1, f.1, r))
              | inl f ↦
                  let there =
                    forget_from-some readings loaded.0
                      (load_or_create-some s (ground (arith, e.1))) in
                  let done =
                    provisioner_stages-Completes ready.0 there (ground (arith, e.1, f.1, r)) in
                  ground (arith, e.1, f.1, done.1 n, m)
            ]
      ]
