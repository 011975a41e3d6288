-- ===== src/Runner/Live.antt =====
-- The runner phase of src/domain/manager.go when nothing outside fails.
use previewctl.Base.{
  Result-cases, ℕ, ◌+◌, true, none, some, List, [], ◌∷◌, ◌++◌, ◌≡◌, refl, ◌∙◌, subst, inl, inr,
  arith, Text, bytes, eq_iff, is_some, get_or, Bool-cases, Option-cases, elem, ok,
}
use previewctl.Config.{ProjectConfig}
use previewctl.Engine.{
  StatePort, Session, StepOpts, Action, step, execute, record_success, has_checkpoint, on_step,
  step_started, step_done, audit, skip, step_simple,
}
use previewctl.Engine.Outcome.{step-ok}
use previewctl.Engine.Recorded.{some-audit}
use previewctl.Environment.{EnvironmentEntry, ComputeAccessInfo}
use previewctl.Manifest.{Manifest}
use previewctl.Runner.{
  run_plan, run_runner, runner_plan, sync_code, save_running, running_entry, blank_entry,
  invalidate,
}
use previewctl.Runner.Order.{planned, IsRegistry, completed-some}

module _ {S W : Type 0} (Ready : W → Type 0) where
  -- A step whose function, with an entry and in a world that is ready, does not fail and leaves it
  -- ready, as does its verification, passed or failed.
  pub record Works (opts : StepOpts S W) : Type 0 where
    pub runs :
        (s : Session S W)
        → is_some s.entry ≡ true
        → Ready s.world
        → ((opts.fn s).1 ≡ ok tt) × Ready (opts.fn s).0.world
    pub checks :
        (check : Action S W) (s : Session S W)
        → opts.verify ≡ some check
        → Ready s.world
        → Ready (check s).0.world

module _ {S W : Type 0} (port : StatePort S) (clock : ℕ → ℕ) (hostname : Text)
    (writes : (name : Text) (e : EnvironmentEntry) (s : S)
      → (port.set_environment name e s).1 ≡ ok tt)
    (named : Text → StepOpts S W) (registry : IsRegistry named) (Ready : W → Type 0) where
  moved : (v w : W) → w ≡ v → Ready v → Ready w
  moved v w e r = subst Ready {x = v} {y = w} (ground arith) r

  record_success-ends :
      (opts : StepOpts S W) (start : ℕ) (s : Session S W)
      → let r = record_success port clock hostname opts start s in
        (r.1 ≡ ok tt) × (r.0.world ≡ s.world)
  unfolding record_success
  record_success-ends opts start s = elim (Option-cases s.entry) [
    | inl e ↦ ground (arith, e)
    | inr e ↦ rw (e.1, record_success, writes) (refl, refl)
  ]

  execute-ends :
      (name : Text) (s : Session S W)
      → Works Ready (named name)
      → is_some s.entry ≡ true
      → Ready s.world
      → let r = execute port clock hostname (named name) s in (r.1 ≡ ok tt) × Ready r.0.world
  unfolding execute
  execute-ends name s works h ready =
      let opts = named name in
      let t : Session S W =
        on_step opts.name step_started opts.start_msg none (record s { ticks = s.ticks + 1 }) in
      let ran = works.runs t h ready in
      let done =
        record_success-ends opts (clock s.ticks)
          (on_step opts.name step_done opts.complete_msg none (opts.fn t).0) in
      (
        ground (arith, ran.0, done.0),
        moved (opts.fn t).0.world (execute port clock hostname (named name) s).0.world
            (ground (arith, ran.0, done.1)) ran.1,
      )

  step-ends :
      (name : Text) (s : Session S W)
      → Works Ready (named name)
      → is_some s.entry ≡ true
      → Ready s.world
      → let r = step port clock hostname (named name) s in (r.1 ≡ ok tt) × Ready r.0.world
  unfolding step skip audit
  step-ends name s works h ready = elim (Bool-cases (has_checkpoint (named name) s)) [
    | inr c ↦ rw (c, step) (execute-ends name s works h ready)
    | inl c ↦ elim (Option-cases (named name).verify) [
      | inl v ↦ rw (c, v, step) (refl, ready)
      | inr v ↦
          let checked = works.checks v.0 s v.1 ready in
          elim (Result-cases (v.0 s).1) [
            | inl k ↦ rw (c, v.1, k.1, step) (refl, checked)
            | inr k ↦
                let again =
                  audit port clock hostname (named name) (bytes "verify_failed")
                    (bytes "Re-executing: " ++ k.0) (v.0 s).0 in
                let there =
                  some-audit port clock hostname (named name) (bytes "verify_failed")
                    (bytes "Re-executing: " ++ k.0) (v.0 s).0 in
                rw (c, v.1, k.1, step)
                  (execute-ends name again works
                    (ground (arith, there, (registry.keeps name).by_verify s v.0 v.1, h)) checked)
          ]
    ]
  ]

  run_plan-ends :
      (plan : List (Text × Text)) (s : Session S W)
      → ((n : Text) → elem n (planned plan) ≡ true → Works Ready (named n))
      → is_some s.entry ≡ true
      → Ready s.world
      → (run_plan port clock hostname named plan s).1 ≡ ok tt
  unfolding run_plan planned elem
  run_plan-ends [] s works h ready = refl
  run_plan-ends ((name, prefix) ∷ plan) s works h ready =
      let this : elem name (planned ((name, prefix) ∷ plan)) ≡ true =
        ground (arith, eq_iff name name) in
      let ran = step port clock hostname (named name) s in
      let done = step-ends name s (works name this) h ready in
      let there =
        completed-some (named name).name ran.0
          (step-ok port clock hostname (named name) s (registry.keeps name) h done.0) in
      ground
        (arith, done.0, run_plan-ends plan ran.0 (λ n m. works n (ground (arith, m))) there done.1)

  sync_code-ends :
      (s : Session S W)
      → Works Ready (named (bytes "sync_code"))
      → is_some s.entry ≡ true
      → Ready s.world
      → let r = sync_code port clock hostname (named (bytes "sync_code")) s in
        (r.1 ≡ ok tt) × (is_some r.0.entry ≡ true) × Ready r.0.world
  unfolding sync_code
  sync_code-ends s works h ready =
      let opts = named (bytes "sync_code") in
      let t : Session S W = on_step opts.name step_started opts.start_msg none s in
      let ran = works.runs t h ready in
      let r = sync_code port clock hostname (named (bytes "sync_code")) s in
      (
        ground (arith, ran.0),
        ground (arith, ran.0, (registry.keeps (bytes "sync_code")).by_fn t h),
        moved (opts.fn t).0.world r.0.world (ground (arith, ran.0)) ran.1,
      )

  invalidate-some :
      (name : Text) (s : Session S W)
      → is_some (invalidate port clock hostname name s).entry ≡ is_some s.entry
  unfolding invalidate
  invalidate-some name s = ground arith

  save_running-ends :
      (env_name branch : Text) (manifest : Manifest) (access : ComputeAccessInfo) (s : Session S W)
      → (e : EnvironmentEntry) × ((save_running port clock hostname env_name branch manifest access
            s).1
          ≡ ok (some e))
  unfolding save_running step_simple
  save_running-ends env_name branch manifest access s =
      let e =
        running_entry env_name branch manifest access (clock s.ticks)
          (get_or s.entry blank_entry) in
      (e, ground (arith, writes env_name e s.store))

  -- Let the state store take every write, and let the steps of the phase work: with an entry and in a
  -- world that is ready, none of their functions fails, and they and their verifications leave the
  -- world ready. Then the runner phase that begins with an entry and a ready world comes to its end:
  -- it returns an entry and no error, whatever is completed when it begins and whatever the
  -- verifications say. The steps have the names that they are asked by and keep the entry.
  pub run_runner-ends :
      (cfg : ProjectConfig) (env_name branch : Text) (manifest : Manifest)
      (access : ComputeAccessInfo) (s : Session S W)
      → ((n : Text)
          → elem n (bytes "sync_code" ∷ planned (runner_plan cfg)) ≡ true
          → Works Ready (named n))
      → is_some s.entry ≡ true
      → Ready s.world
      → (e : EnvironmentEntry) × ((run_runner port clock hostname cfg named env_name branch manifest
            access true s).1
          ≡ ok (some e))
  unfolding run_runner elem invalidate
  run_runner-ends cfg env_name branch manifest access s works h ready =
      let synced = sync_code port clock hostname (named (bytes "sync_code")) s in
      let done =
        sync_code-ends s
          (works (bytes "sync_code")
            (ground (arith, eq_iff (bytes "sync_code") (bytes "sync_code"))))
          h ready in
      let one = invalidate port clock hostname (bytes "runner_before") synced.0 in
      let two = invalidate port clock hostname (bytes "build_services") one in
      let fresh = invalidate port clock hostname (bytes "start_services") two in
      let there =
        invalidate-some (bytes "start_services") two
        ∙ invalidate-some (bytes "build_services") one
        ∙ invalidate-some (bytes "runner_before") synced.0
        ∙ done.1 in
      let ran = run_plan port clock hostname named (runner_plan cfg) fresh in
      let ended =
        run_plan-ends (runner_plan cfg) fresh (λ n m. works n (ground (arith, m))) there
          (moved synced.0.world fresh.world (ground arith) done.2) in
      let saved = save_running-ends env_name branch manifest access ran.0 in
      (saved.0, ground (arith, done.0, ended, saved.1))
