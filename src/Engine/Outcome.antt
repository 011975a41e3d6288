-- ===== src/Engine/Outcome.antt =====
-- What `step` of src/domain/manager.go leaves behind in each outcome.
use previewctl.Base.{
  ℕ, ◌+◌, true, false, none, some, [], ◌++◌, ◌≡◌, inl, inr, arith, Text, bytes, ◌==◌, Map,
  if◌then◌else◌, is_some, Bool-cases, Option-cases, ok, err, Result-cases,
}
use previewctl.Environment.{Output, EnvironmentEntry, StepRecordStatus}
use previewctl.Engine.{
  on_step, step_done, step_failed, StatePort, Session, StepOpts, has_checkpoint, audit, recorded,
  reload_env, record_success, execute, step,
}
use previewctl.Engine.Recorded.{
  completed_in, KeepsEntry, begun, failure-completed, execute-completed, some-audit,
  checkpoint-completed, skip-completed,
}

module _ {S W : Type 0} (port : StatePort S) (clock : ℕ → ℕ) (hostname : Text)
    (opts : StepOpts S W) where
  -- Where there is an entry, a step that returns no error is completed in the entry after it, however
  -- it went: skipped with its checkpoint, verified, executed, or executed again after a failed
  -- verification. The step's function keeps the entry and its verification does not change it.
  pub step-ok :
      (s : Session S W)
      → KeepsEntry opts
      → is_some s.entry ≡ true
      → (step port clock hostname opts s).1 ≡ ok tt
      → completed_in opts.name (step port clock hostname opts s).0 ≡ true
  unfolding step
  step-ok s keeps h r = elim (Bool-cases (has_checkpoint opts s)) [
    | inr n ↦ ground (arith, n, execute-completed port clock hostname opts s keeps h)
    | inl c ↦ elim (Option-cases opts.verify) [
      | inl n ↦ ground (
        arith,
        c,
        n,
        skip-completed port clock hostname opts (bytes "skipped") s,
        checkpoint-completed port clock hostname opts s c,
      )
      | inr v ↦ elim (Result-cases (v.0 s).1) [
        | inl q ↦ ground (
          arith,
          c,
          v.1,
          q.1,
          skip-completed port clock hostname opts (bytes "verified") (v.0 s).0,
          checkpoint-completed port clock hostname opts s c,
          keeps.by_verify s v.0 v.1,
        )
        | inr q ↦
            let again =
              audit port clock hostname opts (bytes "verify_failed") (bytes "Re-executing: " ++ q.0)
                (v.0 s).0 in
            ground (
              arith,
              c,
              v.1,
              q.1,
              execute-completed port clock hostname opts again keeps,
              some-audit port clock hostname opts (bytes "verify_failed")
                  (bytes "Re-executing: " ++ q.0) (v.0 s).0,
              keeps.by_verify s v.0 v.1,
              r,
              h,
            )
      ]
    ]
  ]

  -- A step that runs, with no checkpoint to skip it, and whose function fails returns the function's
  -- error, also when the state cannot be written, and is not completed after it.
  pub step-failed :
      (s : Session S W) (error : Text)
      → has_checkpoint opts s ≡ false
      → (opts.fn (begun port clock hostname opts s)).1 ≡ err error
      → ((step port clock hostname opts s).1 ≡ err error)
        × (completed_in opts.name (step port clock hostname opts s).0 ≡ false)
  unfolding step execute
  step-failed s error n f = (
    ground (arith, n, f),
    ground (
      arith,
      n,
      f,
      failure-completed port clock hostname opts (clock s.ticks) error (
          on_step opts.name step_failed [] (some error)
            (opts.fn (begun port clock hostname opts s)).0),
    ),
  )

  -- Where the step has no checkpoint and its function leaves an entry, a step that returns no error is
  -- in the store: the entry after it is what is read under its name, and every other environment reads
  -- as it did behind the function.
  pub step-persisted :
      (s : Session S W) (e : EnvironmentEntry) (other : Text)
      → has_checkpoint opts s ≡ false
      → (opts.fn (begun port clock hostname opts s)).0.entry ≡ some e
      → (step port clock hostname opts s).1 ≡ ok tt
      → let r = step port clock hostname opts s in
        (e' : EnvironmentEntry) × (r.0.entry ≡ some e')
        × (port.get_environment other r.0.store ≡ (
            if e'.name == other
            then ok (some e')
            else port.get_environment other (opts.fn (begun port clock hostname opts s)).0.store))
  unfolding step execute record_success
  step-persisted s e other n h r =
      elim (Result-cases (opts.fn (begun port clock hostname opts s)).1) [
        | inr f ↦ absurd (ground (arith, n, f.1, r))
        | inl f ↦
            let s' =
              on_step opts.name step_done opts.complete_msg none
                (opts.fn (begun port clock hostname opts s)).0 in
            let outputs : Map Output = elim opts.outputs [
              | none ↦ []
              | some capture ↦ capture s'
            ] in
            let e' = reload_env port s'.store (
              recorded port clock hostname opts StepRecordStatus.completed (bytes "executed")
                (clock s.ticks) (clock s'.ticks) (clock (s'.ticks + 1)) [] outputs e) in
            (
              e',
              ground (arith, n, f.1, h),
              elim (Result-cases (port.set_environment e'.name e' s'.store).1) [
                | inr q ↦ absurd (ground (arith, n, f.1, h, q.1, r))
                | inl q ↦ ground (arith, n, f.1, h, port.get-set e'.name other e' s'.store, q.1)
              ],
            )
      ]
