-- ===== src/Provision/Stages.antt =====
-- `runProvisioner` of src/domain/manager.go: the stages that make one step each.
use previewctl.Engine.Tame.{SameRecords, apart-SameRecords}
use previewctl.Base.{
  append-nil, ℕ, Bool, true, false, ◌&&◌, not, Option, none, some, List, [], ◌∷◌, ◌++◌, refl, subst,
  inl, inr, arith, Text, bytes, insert, if◌then◌else◌, Option-cases,
}
use previewctl.Provision.Completed.{
  Completes, nil-Completes, cons-Completes, step-Completes, around-Completes,
}
use previewctl.ComputeAccess.Made.{Access, local_at}
use previewctl.Config.{is_empty}
use previewctl.Destroy.{run_stages}
use previewctl.Engine.{StatePort, Session, Action}
use previewctl.Environment.{step_completed}
use previewctl.Environment.{step_outputs}
use previewctl.Provision.{
  cached_ports, cached_texts, Provisioner, Locals, Request, take_access, take_found, set_locals,
  entry_of,
}
use previewctl.Provision.Phase.{
  has_cached, before_stage, remote_compute, after_remote, local_compute, after_local,
  allocate_stage, seed_stage,
}
use previewctl.Provision.Steps.{create_remote_step, create_local_step, allocate_step, seed_step}
use previewctl.Provision.Tame.{
  phase_hook-IsTame, create_remote_step-IsTame, create_local_step-IsTame, allocate_step-IsTame,
  seed_step-IsTame,
}

module _ {S C : Type 0} where
  take_access-SameRecords :
      (access : Access) (s : Session S (Locals C)) → SameRecords s (take_access access s)
  unfolding take_access step_completed
  take_access-SameRecords access s = elim (Option-cases s.entry) [
    | inl e ↦ record {
      same_some = ground (arith, e);
      same_records = λ n. ground (arith, e);
      same_cache = refl;
    }
    | inr e ↦ record {
      same_some = ground (arith, e.1);
      same_records = λ n. ground (arith, e.1);
      same_cache = refl;
    }
  ]

  take_found-SameRecords :
      (found : Option Access) (s : Session S (Locals C)) → SameRecords s (take_found found s)
  unfolding take_found
  take_found-SameRecords none s = apart-SameRecords s s refl refl
  take_found-SameRecords (some access) s = take_access-SameRecords access s

module _ {S C : Type 0} (port : StatePort S) (clock : ℕ → ℕ) (hostname : Text)
    (p : Provisioner (S × C)) (request : Request) where
  after_remote-SameRecords :
      (s : Session S (Locals C)) → SameRecords s (after_remote port clock hostname p request s)
  unfolding after_remote
  after_remote-SameRecords s = take_found-SameRecords _ s

  after_local-SameRecords :
      (s : Session S (Locals C)) → SameRecords s (after_local port clock hostname p request s)
  unfolding after_local
  after_local-SameRecords s = take_found-SameRecords _ s

  pub one_stage :
      (prefix : Text) (names : List Text) (stage : Action S (Locals C))
      → Completes names stage
      → Completes names (run_stages ((prefix, stage) ∷ []))
  one_stage prefix names stage c =
      subst (λ (ns : List Text). Completes ns (run_stages ((prefix, stage) ∷ [])))
        (append-nil names) (cons-Completes names [] prefix stage [] c nil-Completes)

  pub if-Completes :
      (test : Bool) (xs ys : List Text) (a b : List (Text × Action S (Locals C)))
      → Completes xs (run_stages a)
      → Completes ys (run_stages b)
      → Completes (if test then xs else ys) (run_stages (if test then a else b))
  if-Completes true xs ys a b h k = h
  if-Completes false xs ys a b h k = k

  pub before_stage-Completes :
      Completes
        (if is_empty p.cfg.provisioner.before then [] else bytes "provisioner_before" ∷ [])
        (run_stages (before_stage port clock hostname p request))
  unfolding before_stage
  before_stage-Completes =
      if-Completes (is_empty p.cfg.provisioner.before) [] _ [] _ nil-Completes (
        one_stage (bytes "provisioner before hook: ") (bytes "provisioner_before" ∷ []) _ (
          step-Completes port clock hostname _ (
            phase_hook-IsTame p (bytes "provisioner_before") (bytes "provisioner.before")
              p.cfg.provisioner.before (some request.existing_worktree) [] request)))

  pub remote_compute-Completes :
      (script : Text) (declared : List Text)
      → Completes
          (bytes "create_compute" ∷ [])
          (remote_compute port clock hostname p request script declared)
  unfolding remote_compute create_remote_step
  remote_compute-Completes script declared =
      around-Completes port clock hostname (create_remote_step p request script declared)
        (λ s.
          if has_cached port clock hostname p request (bytes "ssh") (entry_of s)
          then set_locals (λ l. record l { access = some (p.build_ssh (entry_of s)) }) s
          else s)
        (after_remote port clock hostname p request)
        (remote_compute port clock hostname p request script declared)
        (create_remote_step-IsTame p request script declared) (λ s. ground arith)
        after_remote-SameRecords (λ s r. ground (arith, r))

  pub local_compute-Completes :
      Completes (bytes "create_compute" ∷ []) (local_compute port clock hostname p request)
  unfolding local_compute create_local_step
  local_compute-Completes =
      around-Completes port clock hostname (create_local_step p request)
        (λ s.
          let path : Text = elim (entry_of s).compute [ none ↦ [] | some c ↦ c.path ] in
          if has_cached port clock hostname p request (bytes "local") (entry_of s)
            && not (is_empty path)
          then set_locals (λ l. record l { access = some (local_at path) }) s
          else s)
        (after_local port clock hostname p request) (local_compute port clock hostname p request)
        (create_local_step-IsTame p request) (λ s. ground arith) after_local-SameRecords
        (λ s r. ground (arith, r))

  pub allocate_stage-Completes :
      Completes (bytes "allocate_ports" ∷ []) (allocate_stage port clock hostname p request)
  unfolding allocate_stage allocate_step
  allocate_stage-Completes =
      around-Completes port clock hostname (allocate_step p request)
        (λ s.
          if step_completed (bytes "allocate_ports") (entry_of s)
          then set_locals
              (λ l. record l {
                port_map = cached_ports (step_outputs (bytes "allocate_ports") (entry_of s));
              })
              s
          else s)
        (λ s. s) (allocate_stage port clock hostname p request) (allocate_step-IsTame p request)
        (λ s. ground arith) (λ s. apart-SameRecords s s refl refl) (λ s r. (r, refl))

  pub seed_stage-Completes :
      (service script : Text)
      → Completes
          ((bytes "seed_" ++ service) ∷ [])
          (seed_stage port clock hostname p request service script)
  unfolding seed_stage seed_step
  seed_stage-Completes service script =
      around-Completes port clock hostname (seed_step p request service script)
        (λ s.
          if step_completed (bytes "seed_" ++ service) (entry_of s)
          then elim (cached_texts (step_outputs (bytes "seed_" ++ service) (entry_of s))) [
            | none ↦ s
            | some printed ↦
                set_locals (λ l. record l { outputs = insert service printed l.outputs }) s
          ]
          else s)
        (λ s. s) (seed_stage port clock hostname p request service script)
        (seed_step-IsTame p request service script) (λ s. ground arith)
        (λ s. apart-SameRecords s s refl refl) (λ s r. (r, refl))
