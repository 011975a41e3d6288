-- ===== src/Runner/Order.antt =====
-- The steps that `runRunner` of src/domain/manager.go leaves completed.
use previewctl.Base.{
  ℕ, true, ◌||◌, none, some, List, [], ◌∷◌, ◌≡◌, refl, ◌∙◌, inl, inr, arith, Text, bytes, ◌==◌,
  eq_iff, is_some, get_or, Option-cases, elem, ok, Text-cases, Result-cases,
}
use previewctl.Config.{ProjectConfig}
use previewctl.Engine.{on_step, step_started, step_simple, StatePort, Session, StepOpts, step}
use previewctl.Engine.Outcome.{step-ok}
use previewctl.Engine.Recorded.{completed_in, KeepsEntry}
use previewctl.Engine.Sequence.{LeavesRecords, step-other}
use previewctl.Manifest.{Manifest}
use previewctl.Environment.{EnvironmentEntry, EnvironmentStatus, ComputeAccessInfo, step_completed}
use previewctl.Runner.{
  save_running, running_entry, blank_entry, run_plan, runner_plan, run_runner, invalidate,
  sync_code,
}

-- The names of a plan.
unfoldable pub planned : List (Text × Text) → List Text
planned [] = []
planned ((name, prefix) ∷ plan) = name ∷ planned plan

module _ {S W : Type 0} where
  -- The steps have the names that they are asked by, keep the entry and leave the records alone.
  pub record IsRegistry (named : Text → StepOpts S W) : Type 0 where
    pub same_name : (n : Text) → (named n).name ≡ n
    pub keeps : (n : Text) → KeepsEntry (named n)
    pub leaves : (n : Text) → LeavesRecords (named n)

pub completed-some :
    {S W : Type 0} (n : Text) (s : Session S W) → completed_in n s ≡ true → is_some s.entry ≡ true
completed-some n s h = elim (Option-cases s.entry) [
  | inl e ↦ absurd (ground (arith, e, h))
  | inr e ↦ ground (arith, e.1)
]

module _ {S W : Type 0} (port : StatePort S) (clock : ℕ → ℕ) (hostname : Text)
    (named : Text → StepOpts S W) (registry : IsRegistry named) where
  one_step :
      (name n : Text) (s : Session S W)
      → is_some s.entry ≡ true
      → (step port clock hostname (named name) s).1 ≡ ok tt
      → completed_in n (step port clock hostname (named name) s).0
        ≡ ((name == n) || completed_in n s)
  one_step name n s h r = elim (Text-cases name n) [
    | inl e ↦ ground (
      arith,
      eq_iff name n,
      e,
      registry.same_name name,
      step-ok port clock hostname (named name) s (registry.keeps name) h r,
    )
    | inr e ↦ ground (
      arith,
      e,
      registry.same_name name,
      step-other port clock hostname (named name) n (ground (arith, e, registry.same_name name)) s
          (registry.leaves name),
    )
  ]

  -- A plan that ends with no error has completed its steps, and no others.
  pub run_plan-completed :
      (plan : List (Text × Text)) (s : Session S W) (n : Text)
      → is_some s.entry ≡ true
      → (run_plan port clock hostname named plan s).1 ≡ ok tt
      → completed_in n (run_plan port clock hostname named plan s).0
        ≡ (elem n (planned plan) || completed_in n s)
  unfolding run_plan elem planned
  run_plan-completed [] s n h r = refl
  run_plan-completed ((name, prefix) ∷ plan) s n h r =
      let s' = (step port clock hostname (named name) s).0 in
      elim (Result-cases (step port clock hostname (named name) s).1) [
        | inr e ↦ absurd (ground (arith, e.1, r))
        | inl e ↦
            let here = λ (k : Text). one_step name k s h e.1 in
            ground (
              arith,
              e.1,
              here n,
              run_plan-completed plan s' n
                  (completed-some name s' (ground (arith, here name, eq_iff name name)))
                  (ground (arith, e.1, r)),
            )
      ]

  some-invalidate :
      (name : Text) (s : Session S W)
      → is_some (invalidate port clock hostname name s).entry ≡ is_some s.entry
  unfolding invalidate
  some-invalidate name s = elim (Option-cases s.entry) [
    | inl e ↦ ground (arith, e)
    | inr e ↦ ground (arith, e.1)
  ]

  some-sync_code :
      (s : Session S W)
      → is_some s.entry ≡ true
      → is_some (sync_code port clock hostname (named (bytes "sync_code")) s).0.entry ≡ true
  unfolding sync_code
  some-sync_code s h =
      let opts = named (bytes "sync_code") in
      let s' = on_step opts.name step_started opts.start_msg none s in
      elim (Result-cases (opts.fn s').1) [
        | inl e ↦ ground (arith, e.1, (registry.keeps (bytes "sync_code")).by_fn s' h)
        | inr e ↦ ground (arith, e.1, (registry.keeps (bytes "sync_code")).by_fn s' h)
      ]

  save_running-lem :
      (env_name branch : Text) (manifest : Manifest) (access : ComputeAccessInfo) (s : Session S W)
      (e : EnvironmentEntry)
      → (save_running port clock hostname env_name branch manifest access s).1 ≡ ok (some e)
      → (e.status ≡ EnvironmentStatus.running)
        × (port.get_environment env_name
              (save_running port clock hostname env_name branch manifest access s).0.store
            ≡ ok (some e))
        × ((n : Text) → completed_in n s ≡ true → step_completed n e ≡ true)
  unfolding save_running running_entry step_simple step_completed
  save_running-lem env_name branch manifest access s e h =
      let e' =
        running_entry env_name branch manifest access (clock s.ticks)
          (get_or s.entry blank_entry) in
      elim (Result-cases (port.set_environment env_name e' s.store).1) [
        | inr q ↦ absurd (ground (arith, q.1, h))
        | inl q ↦
            let same : e' ≡ e = ground (arith, q.1, h) in
            (
              ground (arith, same),
              ground (
                arith,
                q.1,
                same,
                port.get-set env_name env_name e' s.store,
                eq_iff env_name env_name,
              ),
              λ n c. elim (Option-cases s.entry) [
                | inl m ↦ absurd (ground (arith, m, c))
                | inr m ↦ ground (arith, m.1, c, same)
              ],
            )
      ]

  -- A runner phase on an entry that saves and returns no error leaves the environment running: the
  -- entry that it returns has the status `running`, is what is read from the store under the name of
  -- the environment, and has every step of the plan completed. The steps have the names that they are
  -- asked by, and their functions keep the entry and write no step records.
  pub run_runner-running :
      (cfg : ProjectConfig) (env_name branch : Text) (manifest : Manifest)
      (access : ComputeAccessInfo) (s : Session S W) (e : EnvironmentEntry)
      → is_some s.entry ≡ true
      → (run_runner port clock hostname cfg named env_name branch manifest access true s).1
        ≡ ok (some e)
      → (e.status ≡ EnvironmentStatus.running)
        × (port.get_environment env_name
              (run_runner port clock hostname cfg named env_name branch manifest access true
                s).0.store
            ≡ ok (some e))
        × ((n : Text) → elem n (planned (runner_plan cfg)) ≡ true → step_completed n e ≡ true)
  unfolding run_runner
  run_runner-running cfg env_name branch manifest access s e h r =
      let synced = sync_code port clock hostname (named (bytes "sync_code")) s in
      let s1 = invalidate port clock hostname (bytes "runner_before") synced.0 in
      let s2 = invalidate port clock hostname (bytes "build_services") s1 in
      let fresh = invalidate port clock hostname (bytes "start_services") s2 in
      let ran = run_plan port clock hostname named (runner_plan cfg) fresh in
      elim (Result-cases synced.1) [
        | inr q ↦ absurd (ground (arith, q.1, r))
        | inl q ↦ elim (Result-cases ran.1) [
          | inr p ↦ absurd (ground (arith, q.1, p.1, r))
          | inl p ↦
              let some_entry : is_some fresh.entry ≡ true =
                some-invalidate (bytes "start_services") s2
                ∙ (some-invalidate (bytes "build_services") s1
                    ∙ (some-invalidate (bytes "runner_before") synced.0 ∙ some-sync_code s h)) in
              let saved =
                save_running-lem env_name branch manifest access ran.0 e
                  (ground (arith, q.1, p.1, r)) in
              (
                saved.0,
                ground (arith, q.1, p.1, saved.1),
                λ n m. saved.2 n (
                    ground (arith, m, run_plan-completed (runner_plan cfg) fresh n some_entry p.1)),
              )
        ]
      ]
