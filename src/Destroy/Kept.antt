-- ===== src/Destroy/Kept.antt =====
-- The stages of `Destroy` of src/domain/manager.go: what they keep of the state store.
use previewctl.Base.{
  Bool, true, false, Option, none, some, List, [], ◌∷◌, ◌++◌, ◌≡◌, ◌↔◌, ◌⊎◌, inl, inr, arith, Text,
  bytes, ◌==◌, Map, if◌then◌else◌, Option-cases, ok, err, Result-cases, Bool-cases, lookup, subst,
  ◌&&◌, not,
}
use previewctl.Config.{
  ProjectConfig, ProvisionerServiceConfig, RunnerConfig, ServiceConfig, is_empty,
}
use previewctl.ComputeAccess.{ComputeAccess}
use previewctl.Engine.{Session, Action, on_step, step_simple}
use previewctl.Environment.{EnvironmentEntry}
use previewctl.Engine.{step_started}
use previewctl.Environment.{is_managed_worktree}
use previewctl.Destroy.{
  is_local, access_of, Tools, outside, run_stages, runner_stage, core_stages, local_stage,
  compute_stage, cleanup_stage, stages_before, step_started, ComputeAccessInfo, access_of,
  remove_env_files,
}
use previewctl.HookEnv.{run_core_hook, run_hook, hook_script}
use previewctl.Ports.{PortMap}

-- What the calls of the tools leave true of the state store: `P` holds of it behind each of them where
-- it held before. A hook that sets a value, for one, writes only the environment that it is for.
pub record Keeps {S C : Type 0} (P : S → Type 0) (tools : Tools (S × C)) : Type 0 where
  pub by_hook :
      (script : Text) (env : List Text) (c : S × C)
      → P c.0
      → P (tools.hook_process script env c).0.0
  pub by_local :
      (path command : Text) (env : List Text) (c : S × C)
      → P c.0
      → P ((tools.local_access path).verbose_exec command env c).0.0
  pub by_ssh :
      (e : EnvironmentEntry) (command : Text) (env : List Text) (c : S × C)
      → P c.0
      → P ((tools.ssh_access e).verbose_exec command env c).0.0
  pub by_destroy : (name : Text) (c : S × C) → P c.0 → P (tools.destroy_compute name c).0.0
  pub by_stop : (name : Text) (c : S × C) → P c.0 → P (tools.stop_compute name c).0.0
  pub by_remove : (path : Text) (c : S × C) → P c.0 → P (tools.remove_file path c).0

module _ (S C : Type 0) (P : S → Type 0) where
  -- An action that keeps `P` of the state store.
  KeepsStore : Action S C → Type 0
  KeepsStore fn = (s : Session S C) → P s.store → P (fn s).0.store

  pub AllKeep : List (Text × Action S C) → Type 0
  AllKeep [] = Unit
  AllKeep ((prefix, stage) ∷ stages) = KeepsStore stage × AllKeep stages

  pub AllKeep-append :
      (xs ys : List (Text × Action S C)) → AllKeep xs → AllKeep ys → AllKeep (xs ++ ys)
  unfolding AllKeep
  AllKeep-append [] ys h k = k
  AllKeep-append ((prefix, stage) ∷ xs) ys h k = (h.0, AllKeep-append xs ys h.1 k)

  step_simple-KeepsStore :
      (name start complete : Text) (fn : Action S C)
      → KeepsStore fn
      → KeepsStore (step_simple name start complete fn)
  unfolding step_simple KeepsStore
  step_simple-KeepsStore name start complete fn h s p =
      let t : Session S C = on_step name step_started start none s in
      subst P {x = (fn t).0.store} {y = (step_simple name start complete fn s).0.store}
        (ground arith) (h t p)

  nil-AllKeep : AllKeep []
  unfolding AllKeep
  nil-AllKeep = tt

  AllKeep-if :
      (test : Bool) (xs ys : List (Text × Action S C))
      → AllKeep xs
      → AllKeep ys
      → AllKeep (if test then xs else ys)
  AllKeep-if true xs ys h k = h
  AllKeep-if false xs ys h k = k

  -- A simple step in front, whose function does not touch the store.
  cons-AllKeep :
      (prefix name start complete : Text) (fn : Action S C) (rest : List (Text × Action S C))
      → ((s : Session S C) → P s.store → P (fn s).0.store)
      → AllKeep rest
      → AllKeep ((prefix, step_simple name start complete fn) ∷ rest)
  unfolding AllKeep KeepsStore
  cons-AllKeep prefix name start complete fn rest h k =
      (step_simple-KeepsStore name start complete fn h, k)

  -- What the compute access executes, if there is one, keeps `P`.
  abbrev AccessKeeps : Option (ComputeAccess (S × C)) → Type 0
  AccessKeeps none = Unit
  AccessKeeps (some access) =
      (command : Text) (env : List Text) (c : S × C)
      → P c.0
      → P (access.verbose_exec command env c).0.0

  AccessKeeps-if :
      (test : Bool) (a b : Option (ComputeAccess (S × C)))
      → AccessKeeps a
      → AccessKeeps b
      → AccessKeeps (if test then a else b)
  AccessKeeps-if true a b h k = h
  AccessKeeps-if false a b h k = k

  runner_stage-AllKeep :
      (tools : Tools (S × C)) (cfg : ProjectConfig) (env_name : Text) (entry : EnvironmentEntry)
      (runner : Option RunnerConfig) (access : Option (ComputeAccess (S × C)))
      → AccessKeeps access
      → AllKeep (runner_stage {S = S} tools cfg env_name entry runner access)
  unfolding runner_stage outside
  runner_stage-AllKeep tools cfg env_name entry none access h = nil-AllKeep
  runner_stage-AllKeep tools cfg env_name entry (some runner) none h = nil-AllKeep
  runner_stage-AllKeep tools cfg env_name entry (some runner) (some access) h =
      AllKeep-if _ _ _ (cons-AllKeep _ _ _ _ _ _ (λ s p. h _ _ (s.store, s.world) p) nil-AllKeep)
        nil-AllKeep

  module _ (tools : Tools (S × C)) (keeps : Keeps P tools) (cfg : ProjectConfig) where
    access_of-AccessKeeps : (entry : EnvironmentEntry) → AccessKeeps (access_of tools entry)
    unfolding access_of
    access_of-AccessKeeps entry = elim (Option-cases entry.compute) [
      | inl n ↦ rw (n, access_of) tt
      | inr c ↦
          let local = some (tools.local_access c.0.path) in
          let is_there = c.0.type == bytes "local" && not (is_empty c.0.path) in
          rw (c.1, access_of)
            (AccessKeeps-if (c.0.type == bytes "ssh") (some (tools.ssh_access entry))
              (if is_there then local else none) (keeps.by_ssh entry)
              (AccessKeeps-if is_there local none (keeps.by_local c.0.path) tt))
    ]

    run_core_hook-keeps :
        (service action env_name : Text) (ports : PortMap) (store : Map Text) (c : S × C)
        → P c.0
        → P
            (run_core_hook tools.host tools.hook_process cfg service action env_name ports store
              c).0.0
    unfolding run_core_hook run_hook
    run_core_hook-keeps service action env_name ports store c p =
        elim (Option-cases (lookup service cfg.provisioner.services)) [
          | inl n ↦ rw (n, run_core_hook) p
          | inr svc ↦ elim (Bool-cases (is_empty (hook_script svc.0 action))) [
            | inl b ↦ rw (svc.1, b, run_core_hook) p
            | inr b ↦ rw (svc.1, b, run_core_hook) (keeps.by_hook _ _ c p)
          ]
        ]

    core_stages-AllKeep :
        (env_name : Text) (entry : EnvironmentEntry) (services : Map ProvisionerServiceConfig)
        → AllKeep (core_stages {S = S} tools cfg env_name entry services)
    unfolding core_stages outside
    core_stages-AllKeep env_name entry [] = nil-AllKeep
    core_stages-AllKeep env_name entry ((name, svc) ∷ services) =
        let rest = core_stages-AllKeep env_name entry services in
        AllKeep-if _ _ _ rest (
          cons-AllKeep _ _ _ _ _ _
            (λ s p.
              run_core_hook-keeps name (bytes "destroy") env_name entry.ports entry.env
                (s.store, s.world) p)
            rest)

    local_stage-AllKeep :
        (env_name : Text) (entry : EnvironmentEntry)
        → AllKeep (local_stage {S = S} tools env_name entry)
    unfolding local_stage outside
    local_stage-AllKeep env_name entry =
        let owned =
          cons-AllKeep (bytes "destroying compute resources: ") (bytes "destroy_compute")
            (bytes "Removing worktree and stopping containers...")
            (bytes "Worktree and containers removed") (outside (tools.destroy_compute env_name)) []
            (λ s p. keeps.by_destroy env_name (s.store, s.world) p) nil-AllKeep in
        let other =
          cons-AllKeep (bytes "stopping infrastructure: ") (bytes "stop_infra")
            (bytes "Stopping infrastructure containers...")
            (bytes "Infrastructure containers stopped") (outside (tools.stop_compute env_name)) []
            (λ s p. keeps.by_stop env_name (s.store, s.world) p) nil-AllKeep in
        AllKeep-if (is_local entry) _ [] (AllKeep-if (is_managed_worktree entry) _ _ owned other)
          nil-AllKeep

    compute_stage-AllKeep :
        (env_name : Text) (entry : EnvironmentEntry)
        → AllKeep (compute_stage {S = S} tools cfg env_name entry)
    unfolding compute_stage outside run_hook
    compute_stage-AllKeep env_name entry =
        AllKeep-if _ _ _ (local_stage-AllKeep env_name entry)
          (cons-AllKeep _ _ _ _ _ _ (λ s p. keeps.by_hook _ _ (s.store, s.world) p) nil-AllKeep)

    remove_env_files-keeps :
        (path : Text) (services : Map ServiceConfig) (c : S × C)
        → P c.0
        → P (remove_env_files tools path services c).0
    unfolding remove_env_files
    remove_env_files-keeps path [] c p = p
    remove_env_files-keeps path ((name, svc) ∷ services) c p =
        remove_env_files-keeps path services _ (keeps.by_remove _ c p)

    cleanup_stage-AllKeep :
        (entry : EnvironmentEntry) (compute : Option ComputeAccessInfo)
        → AllKeep (cleanup_stage {S = S} tools cfg entry compute)
    unfolding cleanup_stage
    cleanup_stage-AllKeep entry none = nil-AllKeep
    cleanup_stage-AllKeep entry (some c) =
        AllKeep-if _ _ _
          (cons-AllKeep _ _ _ _ _ _
            (λ s p. remove_env_files-keeps c.path cfg.services (s.store, s.world) p) nil-AllKeep)
          nil-AllKeep

    pub stages_before-AllKeep :
        (env_name : Text) (entry : EnvironmentEntry)
        → AllKeep (stages_before {S = S} tools cfg env_name entry)
    unfolding stages_before
    stages_before-AllKeep env_name entry =
        AllKeep-append (runner_stage tools cfg env_name entry cfg.runner (access_of tools entry)) _
          (runner_stage-AllKeep tools cfg env_name entry cfg.runner (access_of tools entry)
            (access_of-AccessKeeps entry))
          (AllKeep-append (core_stages tools cfg env_name entry cfg.provisioner.services) _
            (core_stages-AllKeep env_name entry cfg.provisioner.services)
            (AllKeep-append (compute_stage tools cfg env_name entry) _
              (compute_stage-AllKeep env_name entry) (cleanup_stage-AllKeep entry entry.compute)))

  -- What the stages give together with one last stage: an error of the first ones, or what the last
  -- one gives behind them; `P` holds of the store till then.
  pub run_stages-last :
      (stages : List (Text × Action S C)) (prefix : Text) (last : Action S C) (s : Session S C)
      → AllKeep stages
      → P s.store
      → let r = run_stages (stages ++ (prefix, last) ∷ []) s in
        ((e : Text) × (r.1 ≡ err e) × P r.0.store)
        ⊎ ((t : Session S C) × P t.store
            × (r.0 ≡ (last t).0)
            × ((r.1 ≡ ok tt) ↔ ((last t).1 ≡ ok tt)))
  unfolding run_stages AllKeep KeepsStore
  run_stages-last [] prefix last s h p = inr (s, p, ground arith, ground arith)
  run_stages-last ((q, stage) ∷ stages) prefix last s h p =
      let ran = stage s in
      elim (Result-cases ran.1) [
        | inr e ↦ inl (q ++ e.0, ground (arith, e.1), rw (e.1, run_stages) (h.0 s p))
        | inl e ↦ rw (e.1, run_stages) (run_stages-last stages prefix last ran.0 h.1 (h.0 s p))
      ]
