-- ===== src/Engine/Sequence.antt =====
-- What one step leaves of the others.
use previewctl.Base.{
  ℕ, ◌+◌, ◌-◌, ◌/◌, false, none, some, [], ◌++◌, ◌≡◌, inl, inr, arith, Text, bytes, ◌==◌, Map,
  lookup-insert, Bool-cases, Option-cases, Result-cases,
}
use previewctl.Environment.{
  EnvironmentEntry, StepRecordStatus, Output, append_audit, set_step_record, step_completed, note,
}
use previewctl.Engine.{
  on_step, step_done, step_failed, step_skipped, StatePort, Session, StepOpts, Action,
  has_checkpoint, audit, skip, recorded, record_failure, record_success, execute, step,
}
use previewctl.Engine.Recorded.{
  completed_in, begun, step_completed-append_audit, completed-reload_env,
}

module _ {S W : Type 0} where
  -- The functions of a step write no step record and do not touch `noCache`.
  pub record LeavesRecords (opts : StepOpts S W) : Type 0 where
    pub fn_records : (s : Session S W) (n : Text) → completed_in n (opts.fn s).0 ≡ completed_in n s
    pub verify_records :
        (s : Session S W) (n : Text) (check : Action S W)
        → opts.verify ≡ some check
        → completed_in n (check s).0 ≡ completed_in n s
    pub fn_no_cache : (s : Session S W) → (opts.fn s).0.no_cache ≡ s.no_cache
    pub verify_no_cache :
        (s : Session S W) (check : Action S W)
        → opts.verify ≡ some check
        → (check s).0.no_cache ≡ s.no_cache

module _ {S W : Type 0} (port : StatePort S) (clock : ℕ → ℕ) (hostname : Text) (opts : StepOpts S W)
    (n : Text) (other : (opts.name == n) ≡ false) where
  recorded-other :
      (status : StepRecordStatus) (action : Text) (start finished now : ℕ) (error : Text)
      (outputs : Map Output) (e : EnvironmentEntry)
      → step_completed n
          (recorded port clock hostname opts status action start finished now error outputs e)
        ≡ step_completed n e
  unfolding recorded append_audit set_step_record step_completed
  recorded-other status action start finished now error outputs e = ground (
    arith,
    lookup-insert opts.name n
        (record {
          name = opts.name;
          status = status;
          started_at = start;
          finished_at = finished;
          duration_ms = (now - start) / 1000000;
          machine = hostname;
          error = error;
          outputs = outputs;
        })
        e.steps,
    other,
  )

  success-other :
      (start : ℕ) (s : Session S W)
      → completed_in n (record_success port clock hostname opts start s).0 ≡ completed_in n s
  unfolding record_success
  success-other start s = elim (Option-cases s.entry) [
    | inl e ↦ ground (arith, e)
    | inr r ↦
        let outputs : Map Output = elim opts.outputs [ none ↦ [] | some capture ↦ capture s ] in
        let e' =
          recorded port clock hostname opts StepRecordStatus.completed (bytes "executed") start
            (clock s.ticks) (clock (s.ticks + 1)) [] outputs r.0 in
        ground (
          arith,
          r.1,
          completed-reload_env port s.store n e',
          recorded-other StepRecordStatus.completed (bytes "executed") start (clock s.ticks)
              (clock (s.ticks + 1)) [] outputs r.0,
        )
  ]

  failure-other :
      (start : ℕ) (error : Text) (s : Session S W)
      → completed_in n (record_failure port clock hostname opts start error s) ≡ completed_in n s
  unfolding record_failure
  failure-other start error s = elim (Option-cases s.entry) [
    | inl e ↦ ground (arith, e)
    | inr r ↦ ground (
      arith,
      r.1,
      recorded-other StepRecordStatus.failed (bytes "failed") start (clock s.ticks)
          (clock (s.ticks + 1)) error [] r.0,
    )
  ]

  execute-other :
      (s : Session S W)
      → LeavesRecords opts
      → completed_in n (execute port clock hostname opts s).0 ≡ completed_in n s
  unfolding execute
  execute-other s leaves = elim (Result-cases (opts.fn (begun port clock hostname opts s)).1) [
    | inr f ↦ ground (
      arith,
      f.1,
      leaves.fn_records (begun port clock hostname opts s) n,
      failure-other (clock s.ticks) f.0 (
          on_step opts.name step_failed [] (some f.0)
            (opts.fn (begun port clock hostname opts s)).0),
    )
    | inl f ↦ ground (
      arith,
      f.1,
      leaves.fn_records (begun port clock hostname opts s) n,
      success-other (clock s.ticks) (
          on_step opts.name step_done opts.complete_msg none
            (opts.fn (begun port clock hostname opts s)).0),
    )
  ]

  audit-other :
      (action message : Text) (s : Session S W)
      → completed_in n (audit port clock hostname opts action message s) ≡ completed_in n s
  unfolding audit
  audit-other action message s = elim (Option-cases s.entry) [
    | inl e ↦ ground (arith, e)
    | inr r ↦ ground (
      arith,
      r.1,
      step_completed-append_audit n (note (clock s.ticks) hostname opts.name action message) r.0,
    )
  ]

  -- A step changes no other step's record.
  pub step-other :
      (s : Session S W)
      → LeavesRecords opts
      → completed_in n (step port clock hostname opts s).0 ≡ completed_in n s
  unfolding step skip
  step-other s leaves = elim (Bool-cases (has_checkpoint opts s)) [
    | inr c ↦ ground (arith, c, execute-other s leaves)
    | inl c ↦ elim (Option-cases opts.verify) [
      | inl e ↦ ground (
        arith,
        c,
        e,
        audit-other (bytes "skipped") []
            (on_step opts.name step_skipped (opts.complete_msg ++ bytes " (cached)") none s),
      )
      | inr v ↦ elim (Result-cases (v.0 s).1) [
        | inl q ↦ ground (
          arith,
          c,
          v.1,
          q.1,
          leaves.verify_records s n v.0 v.1,
          audit-other (bytes "verified") [] (
              on_step opts.name step_skipped (opts.complete_msg ++ bytes " (cached)") none
                (v.0 s).0),
        )
        | inr q ↦ ground (
          arith,
          c,
          v.1,
          q.1,
          leaves.verify_records s n v.0 v.1,
          audit-other (bytes "verify_failed") (bytes "Re-executing: " ++ q.0) (v.0 s).0,
          execute-other
              (audit port clock hostname opts (bytes "verify_failed")
                (bytes "Re-executing: " ++ q.0) (v.0 s).0)
              leaves,
        )
      ]
    ]
  ]
